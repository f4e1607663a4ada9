-- ===== src/Routing/Optimizer/Tests.antt =====
-- A cycle over two pools with different prices.
use robinarb.Base.{
  ℕ, ◌+◌, ◌*◌, ◌≡◌, ◌≢◌, refl, true, false, List, [], ◌∷◌, none, some, ◌==◌, if◌then◌else◌,
}
use robinarb.Base.Word.{done, add256, sub32, mul256, div256}
use robinarb.Engine.{Engine, PoolMeta, uni_v2_fork}
use robinarb.Engine.Registry.{registry_of}
use robinarb.Routing.{Hop, Route}
use robinarb.Routing.Evaluator.{Opportunity}
use robinarb.Ingest.SlotLayout.{decode_v2_packed}
use robinarb.Math.V2 as V2
use robinarb.Math.V3.{SwapMath, err}
use robinarb.Math.Quote.{quote}
use robinarb.State.{ChainState, v2_packed, read}
use robinarb.Routing.Optimizer.{quote_hops, quote_route, optimize}
use robinarb.Routing.Optimizer.Profit.{optimize-Unread}

abbrev pool : ℕ → PoolMeta
pool i = record {
  idx = i;
  address = 10 + i;
  dex = uni_v2_fork;
  factory = 0;
  token0 = 100;
  token1 = 200;
  dec0 = 18;
  dec1 = 6;
  fee_bps = 30;
  fee_pips = 3_000;
  tick_spacing = 1;
  v4 = none;
}

abbrev engine : Engine
engine = registry_of (pool 0 ∷ pool 1 ∷ [])

-- Reserves of 1,000,000 against 2,000,000, and of 1,000,000 against 1,000,000.
abbrev hydrated : ChainState
hydrated = record {
  tip = 7;
  memo = λ a s.
      if a == 10
      then some (1_000_000 + 2_000_000 * 0x1_0000_0000_0000_0000_0000_0000_0000)
      else some (1_000_000 + 1_000_000 * 0x1_0000_0000_0000_0000_0000_0000_0000);
  tick_cache = λ a s. none;
  plans = some (v2_packed 10 8) ∷ some (v2_packed 11 8) ∷ [];
}

abbrev no_math : SwapMath
no_math = record {
  most_significant_bit = λ x. err;
  least_significant_bit = λ x. err;
  get_sqrt_ratio_at_tick = λ t. err;
  get_tick_at_sqrt_ratio = λ p. err;
  compute_swap_step = λ p t l r f. err;
  add_delta = λ l d. err;
}

abbrev sum : List ℕ → ℕ
sum [] = 0
sum (x ∷ xs) = x + sum xs

abbrev first : Hop
first = record { pool = 0; zero_for_one = true; token_in = 100 }

abbrev second : Hop
second = record { pool = 1; zero_for_one = false; token_in = 200 }

abbrev cycle : Route
cycle = record { id = 4; anchor = 100; hops = first ∷ second ∷ [] }

abbrev found : Opportunity
found = record { route_id = 4; amount_in = 1_000; gross_out = 1_982; gross_profit = 982 }

finds : optimize no_math sum engine hydrated cycle (some 1_000) ≡ done (some found)
unfolding optimize quote_route quote_hops quote read decode_v2_packed V2.get_amount_out div256
    add256 mul256 sub32
finds = refl

-- Nothing was read of the second pool.
abbrev half : ChainState
half = record hydrated {
  memo = λ a s.
      if a == 10
      then some (1_000_000 + 2_000_000 * 0x1_0000_0000_0000_0000_0000_0000_0000)
      else none;
}

optimize-Unread_example : optimize no_math sum engine half cycle (some 1_000) ≢ done (some found)
optimize-Unread_example =
    optimize-Unread no_math sum engine half cycle (first ∷ []) second [] (pool 1) (some 1_000) found
      refl refl (refl, refl, tt)
