-- ===== src/Math/Quote/Tests.antt =====
-- A pool of which nothing was read.
use robinarb.Base.{ℕ, ◌+◌, ◌≡◌, refl, true, List, [], ◌∷◌, none, some}
use robinarb.Base.Word.{done}
use robinarb.Engine.{PoolMeta, aero_stable}
use robinarb.Math.V3.{SwapMath, err}
use robinarb.Math.Quote.{quote}
use robinarb.Math.Quote.Unread.{quote-Unread}
use robinarb.State.{ChainState, v2_two_slot}

abbrev stable_pool : PoolMeta
stable_pool = record {
  idx = 0;
  address = 10;
  dex = aero_stable;
  factory = 0;
  token0 = 100;
  token1 = 200;
  dec0 = 18;
  dec1 = 6;
  fee_bps = 5;
  fee_pips = 500;
  tick_spacing = 1;
  v4 = none;
}

abbrev empty : ChainState
empty = record {
  tip = 7;
  memo = λ a s. none;
  tick_cache = λ a s. none;
  plans = some (v2_two_slot 10 3) ∷ [];
}

abbrev no_math : SwapMath
no_math = record {
  most_significant_bit = λ x. err;
  least_significant_bit = λ x. err;
  get_sqrt_ratio_at_tick = λ t. err;
  get_tick_at_sqrt_ratio = λ p. err;
  compute_swap_step = λ p t l r f. err;
  add_delta = λ l d. err;
}

abbrev sum : List ℕ → ℕ
sum [] = 0
sum (x ∷ xs) = x + sum xs

quote-Unread_example : quote no_math sum empty stable_pool 1_000_000 true ≡ done 0
quote-Unread_example =
    quote-Unread no_math sum empty stable_pool 1_000_000 true (refl, refl, (refl, refl, tt))
