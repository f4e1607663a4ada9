-- ===== src/Math/V3/Tests.antt =====
-- Runs of the tick walk with a small swap arithmetic, and the hypotheses of its theorems at it.
use native.Mathlib.Nat.{pow-succ'}
use native.Mathlib.Decide.{dec_lt}
use robinarb.Base.{
  ℕ, zero, suc, ◌+◌, ◌-◌, ◌/◌, ◌%◌, ◌^◌, ◌≡◌, ◌<◌, ◌≤◌, refl, arith, Bool, true, false, none, some,
  ◌==◌, if◌then◌else◌, ltb, Bool-cases, inl, inr, ◌∙◌,
}
use robinarb.Base.Int.{ℤ, pos, negsuc, eqb_ℤ, ◌-ℤ◌, ◌+ℤ◌, ◌*ℤ◌}
use robinarb.Base.Word.{done, sub256, add256}
use robinarb.Ingest.SlotLayout.{compress_tick}
use robinarb.Base.Bits.{bit_at, bit_at-zero, bit_at-suc}
use robinarb.Math.V3.{
  ok, SwapMath, SwapStep, TickSource, try_swap_src, get_amount_out_src, next_initialized_tick_src,
  position, walk, step,
}
use robinarb.Math.V3.NextTick.{
  BitScan, NearestBelow, NearestAbove, next_tick_below, next_tick_above,
}
use robinarb.Math.V3.Payout.{BoundedSteps}
use robinarb.Math.V3.Window.{KnowsLess, quote_window}

-- The highest and the lowest set bit among the first `n` places.
top_bit : ℕ → ℕ → ℕ
top_bit zero x = 0
top_bit (suc n) x = let rest = top_bit n x in if ltb x (2 ^ suc n) then rest else suc n

low_bit : ℕ → ℕ → ℕ
low_bit zero x = 0
low_bit (suc n) x = let rest = low_bit n (x / 2) in if x % 2 == 1 then 0 else suc rest

top_bit_lem :
    (n x : ℕ) → 0 < x → x < 2 ^ suc n → (2 ^ top_bit n x ≤ x) × (x < 2 ^ suc (top_bit n x))
unfolding top_bit
top_bit_lem zero x h k = omega arith
top_bit_lem (suc n) x h k = elim (dec_lt x (2 ^ suc n)) [
  | yes below ↦ ground (arith, top_bit_lem n x h below)
  | no above ↦ ground arith
]

low_bit_lem :
    (n x : ℕ)
    → 0 < x
    → x < 2 ^ n
    → (2 ^ low_bit n x ≤ x)
      × (bit_at x (low_bit n x) ≡ 1)
      × ((i : ℕ) → i < low_bit n x → bit_at x i ≡ 0)
unfolding low_bit
low_bit_lem zero x h k = absurd (omega arith)
low_bit_lem (suc n) x h k = elim (Bool-cases (x % 2 == 1)) [
  | inl odd ↦ rw odd (omega arith, bit_at-zero x ∙ ground arith, λ i p. absurd (omega arith))
  | inr even ↦
      let (le, set, clear) = low_bit_lem n (x / 2) (ground arith) (omega (arith, pow-succ' 2 n)) in
      rw even (
        omega (arith, pow-succ' 2 (low_bit n (x / 2))),
        bit_at-suc x _ ∙ set,
        λ i p. below x (low_bit n (x / 2)) even clear i p,
      )
]
  where
    below :
        (x b : ℕ)
        → (x % 2 == 1) ≡ false
        → ((i : ℕ) → i < b → bit_at (x / 2) i ≡ 0)
        → (i : ℕ) → i < suc b
        → bit_at x i ≡ 0
    below x b even clear zero p = bit_at-zero x ∙ ground arith
    below x b even clear (suc i) p = bit_at-suc x i ∙ clear i (omega arith)

-- Each tick costs one unit, and a step pays what it takes in, less the price moved.
abbrev toy_price : ℤ → ℕ
toy_price (pos n) = (5_000_000_000 + n) % 2 ^ 160
toy_price (negsuc n) = 4_999_999_999 - n

toy_price-lt : (t : ℤ) → toy_price t < 2 ^ 160
toy_price-lt (pos n) = omega arith
toy_price-lt (negsuc n) = omega arith

abbrev toy_step : ℕ → ℕ → ℕ → ℕ → ℕ → SwapStep
toy_step price target liquidity remaining fee =
    let room = price - target in
    let used = if ltb remaining room then remaining else room in
    record {
      sqrt_price_new = price - used;
      amount_in = used;
      amount_out = used % 2 ^ 200;
      fee_amount = 0;
    }

toy_step-lt : (p t l r f : ℕ) → (toy_step p t l r f).amount_out < 2 ^ 224
toy_step-lt p t l r f = omega arith

abbrev toy : SwapMath
toy = record {
  most_significant_bit = λ x. ok (top_bit 255 x);
  least_significant_bit = λ x. ok (low_bit 256 x);
  get_sqrt_ratio_at_tick = λ t. ok (toy_price t);
  get_tick_at_sqrt_ratio =
      λ p. ok (if ltb p 5_000_000_000 then negsuc (4_999_999_999 - p) else pos (p - 5_000_000_000));
  compute_swap_step = λ p t l r f. ok (toy_step p t l r f);
  add_delta = λ l d. ok l;
}

toy-BitScan : BitScan toy
toy-BitScan = record {
  highest = λ x h k. let (lo, hi) = top_bit_lem 255 x h k in (top_bit 255 x, refl, lo, hi);
  lowest = λ x h k.
      let (lo, set, clear) = low_bit_lem 256 x h k in (low_bit 256 x, refl, lo, set, clear);
}

toy-BoundedSteps : BoundedSteps toy
toy-BoundedSteps = record {
  steps = λ price target liquidity remaining fee s low target_low few h.
      let e : toy_step price target liquidity remaining fee ≡ s = cc in
      rw (← e) (toy_step-lt price target liquidity remaining fee, omega arith);
  ratios = λ t p h. let e : toy_price t ≡ p = cc in rw (← e) (toy_price-lt t);
  deltas = λ l d l' few h. let e : l ≡ l' = cc in rw (← e) few;
}

-- Ticks 5 and 200 are initialized; the smaller source has no word but the first.
abbrev some_word : ℕ
some_word = 2 ^ 5 + 2 ^ 200

abbrev wide : TickSource
wide = record {
  bitmap_word = λ w. if eqb_ℤ w (pos 0) then some some_word else some 0;
  liquidity_net = λ t. pos 7;
}

abbrev narrow : TickSource
narrow = record {
  bitmap_word = λ w. if eqb_ℤ w (pos 0) then some some_word else none;
  liquidity_net = λ t. pos 7;
}

narrow-KnowsLess : KnowsLess narrow wide
narrow-KnowsLess = record { words = λ w word h. ground arith; nets = λ t. refl }

-- The narrow source stops at tick 0, after 100 units, and the wide one sells all 500.
narrow_stops : try_swap_src toy 500 true 5_000_000_100 (pos 100) 1_000 3_000 1 narrow ≡ ok 100
unfolding try_swap_src walk step next_initialized_tick_src compress_tick ◌*ℤ◌ top_bit sub256 add256
narrow_stops = refl

wide_sells : try_swap_src toy 500 true 5_000_000_100 (pos 100) 1_000 3_000 1 wide ≡ ok 500
unfolding try_swap_src walk step next_initialized_tick_src compress_tick ◌*ℤ◌ top_bit sub256 add256
wide_sells = refl

quote_window_example :
    (out' : ℕ) × (get_amount_out_src toy 500 true 5_000_000_100 (pos 100) 1_000 3_000 1 narrow
      ≡ done out')
    × (out' ≤ 500)
quote_window_example =
    quote_window toy narrow wide toy-BoundedSteps narrow-KnowsLess 500 true 5_000_000_100 (pos 100)
      1_000 3_000 1 500 (omega arith) (omega arith) wide_sells

next_tick_below_example :
    (found : ℕ) × (initialized : Bool) × (next_initialized_tick_src toy wide (pos 100) 1 true
      ≡ ok (some ((pos 100 -ℤ pos (100 - found)) *ℤ pos 1, initialized)))
    × NearestBelow some_word 100 found initialized
unfolding position ◌+ℤ◌
next_tick_below_example =
    next_tick_below toy toy-BitScan wide (pos 100) 1 some_word (omega arith) (omega arith) refl

next_tick_above_example :
    (found : ℕ) × (initialized : Bool) × (next_initialized_tick_src toy wide (pos 100) 1 false
      ≡ ok (some ((pos 100 +ℤ pos 1 +ℤ pos (found - 101)) *ℤ pos 1, initialized)))
    × NearestAbove some_word 101 found initialized
unfolding position ◌+ℤ◌
next_tick_above_example =
    next_tick_above toy toy-BitScan wide (pos 100) 1 some_word (omega arith) (omega arith) refl
