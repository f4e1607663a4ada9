-- ===== src/Math/V3/NextTick.antt =====
-- `next_initialized_tick_src` of src/math/v3.rs in a hydrated word.
use native.Mathlib.Nat.{pow-suc, pow-le-pow_right, mod-lt, mod-le, mul-mod_left, div-mul-le_self}
use Prim.Native.Nat.{bit_and}
use native.Mathlib.Decide.{dec_lt}
use robinarb.Base.{
  ℕ, suc, ◌+◌, ◌-◌, ◌*◌, ◌/◌, ◌%◌, ◌^◌, ◌≤◌, ◌<◌, ◌≡◌, refl, sym, ap, ◌∙◌, arith, Bool, true, false,
  some, if◌then◌else◌,
}
use robinarb.Base.Int.{ℤ, pos, ◌-ℤ◌, ◌+ℤ◌, ◌*ℤ◌, floor_div, floor_mod, floor_mod-lt}
use robinarb.Base.Bits.{
  bit_at, bit_and_mask, bit_and_high_mask, bit_at-mod, bit_at-clear_low, bit_at-lt, bit_at-top,
  two-pow-pos,
}
use robinarb.Ingest.SlotLayout.Ticks.{compress_tick-eq-floor_div}
use robinarb.Math.V3.{
  ok, SwapMath, TickSource, position, next_below, next_above, next_initialized_tick_src,
}

-- What the crate's documentation says of its two bit scans on a nonzero word.
pub record BitScan (m : SwapMath) : Type 0 where
  pub highest :
      (x : ℕ)
      → 0 < x
      → x < 2 ^ 256
      → (b : ℕ) × (m.most_significant_bit x ≡ ok b) × (2 ^ b ≤ x) × (x < 2 ^ suc b)
  pub lowest :
      (x : ℕ)
      → 0 < x
      → x < 2 ^ 256
      → (b : ℕ) × (m.least_significant_bit x ≡ ok b)
        × (2 ^ b ≤ x)
        × (bit_at x b ≡ 1)
        × ((i : ℕ) → i < b → bit_at x i ≡ 0)

-- Bit `found` is the highest set bit at or below place `p`, or place 0 with no set bit.
pub record NearestBelow (word p found : ℕ) (initialized : Bool) : Type 0 where
  pub in_range : found ≤ p
  pub bit : bit_at word found ≡ (if initialized then 1 else 0)
  pub edge : initialized ≡ false → found ≡ 0
  pub clear : (i : ℕ) → found < i → i ≤ p → bit_at word i ≡ 0

-- Bit `found` is the lowest set bit at or above place `p`, or place 255 with no set bit.
pub record NearestAbove (word p found : ℕ) (initialized : Bool) : Type 0 where
  pub in_range : (p ≤ found) × (found < 256)
  pub bit : bit_at word found ≡ (if initialized then 1 else 0)
  pub edge : initialized ≡ false → found ≡ 255
  pub clear : (i : ℕ) → p ≤ i → i < found → bit_at word i ≡ 0

zero-bit_at : (i : ℕ) → bit_at 0 i ≡ 0
zero-bit_at i = bit_at-lt 0 0 i (omega arith) (omega arith)

low_mask : (p word : ℕ) → bit_and word (2 ^ p - 1 + 2 ^ p) ≡ word % 2 ^ suc p
low_mask p word =
    let e : 2 ^ p - 1 + 2 ^ p ≡ 2 ^ suc p - 1 = omega (arith, pow-suc 2 p, two-pow-pos p) in
    rw e (bit_and_mask (suc p) word)

lt_of_pow-lt : (b p : ℕ) → 2 ^ b < 2 ^ p → b < p
lt_of_pow-lt b p h = elim (dec_lt b p) [
  | yes k ↦ k
  | no k ↦
      let grown : 2 ^ p ≤ 2 ^ b = pow-le-pow_right (omega arith) (omega arith) in
      absurd (omega arith)
]

module _ (m : SwapMath) (scan : BitScan m) (c : ℤ) (spacing p word : ℕ) (small : p < 256)
    (fits : word < 2 ^ 256) where
  abbrev BelowResult : Type 0
  BelowResult =
      (found : ℕ) × (initialized : Bool) × (next_below m c spacing p word
        ≡ ok ((c -ℤ pos (p - found)) *ℤ pos spacing, initialized))
      × NearestBelow word p found initialized

  masked_bit : (i : ℕ) → i ≤ p → bit_at (word % 2 ^ suc p) i ≡ bit_at word i
  masked_bit i h = bit_at-mod (suc p) i word (omega arith)

  below_empty : word % 2 ^ suc p ≡ 0 → BelowResult
  unfolding next_below
  below_empty e =
      let clear = λ (i : ℕ) (h : i ≤ p).
        sym (masked_bit i h) ∙ ap (λ (t : ℕ). bit_at t i) e ∙ zero-bit_at i in
      (
        0,
        false,
        rw (low_mask p word, e) (ground arith),
        record {
          in_range = omega arith;
          bit = clear 0 (omega arith);
          edge = λ _. refl;
          clear = λ i _ h. clear i h;
        },
      )

  below_found : 0 < word % 2 ^ suc p → BelowResult
  unfolding next_below
  below_found h =
      let masked = word % 2 ^ suc p in
      let lt : masked < 2 ^ suc p = mod-lt word (two-pow-pos (suc p)) in
      let (b, found, lo, hi) = scan.highest masked h (omega (arith, mod-le word (2 ^ suc p))) in
      let b-lt : b < suc p = lt_of_pow-lt b (suc p) (omega arith) in
      (
        b,
        true,
        rw (low_mask p word) (ground arith),
        record {
          in_range = omega arith;
          bit = sym (masked_bit b (omega arith)) ∙ bit_at-top masked b lo hi;
          edge = λ e. cc;
          clear = λ i above h. sym (masked_bit i h) ∙ bit_at-lt masked (suc b) i hi above;
        },
      )

  pub next_below_nearest : BelowResult
  next_below_nearest = elim (dec_lt 0 (word % 2 ^ suc p)) [
    | yes h ↦ below_found h
    | no h ↦ below_empty (omega arith)
  ]

multiple-bit_at : (q p i : ℕ) → i < p → bit_at (q * 2 ^ p) i ≡ 0
multiple-bit_at q p i h =
    sym (bit_at-mod p i (q * 2 ^ p) h)
    ∙ ap (λ (t : ℕ). bit_at t i) (mul-mod_left q (2 ^ p))
    ∙ zero-bit_at i

module _ (m : SwapMath) (scan : BitScan m) (c : ℤ) (spacing p word : ℕ) (small : p < 256)
    (fits : word < 2 ^ 256) where
  abbrev AboveResult : Type 0
  AboveResult =
      (found : ℕ) × (initialized : Bool) × (next_above m c spacing p word
        ≡ ok ((c +ℤ pos 1 +ℤ pos (found - p)) *ℤ pos spacing, initialized))
      × NearestAbove word p found initialized

  abbrev high : ℕ
  high = word / 2 ^ p * 2 ^ p

  high_mask : bit_and word (2 ^ 256 - 2 ^ p) ≡ high
  high_mask = bit_and_high_mask p word (omega arith) fits

  high_bit : (i : ℕ) → p ≤ i → bit_at high i ≡ bit_at word i
  high_bit i h = bit_at-clear_low p i word h

  above_empty : high ≡ 0 → AboveResult
  unfolding next_above
  above_empty e =
      let clear =
        λ (i : ℕ) (h : p ≤ i). sym (high_bit i h) ∙ ap (λ (t : ℕ). bit_at t i) e ∙ zero-bit_at i in
      (
        255,
        false,
        rw (high_mask, e) (ground arith),
        record {
          in_range = omega arith;
          bit = clear 255 (omega arith);
          edge = λ _. refl;
          clear = λ i h _. clear i h;
        },
      )

  above_found : 0 < high → AboveResult
  unfolding next_above
  above_found h =
      let lt : high < 2 ^ 256 = omega (arith, div-mul-le_self word (2 ^ p)) in
      let (b, found, lo, set, clear) = scan.lowest high h lt in
      let top : b < 256 = lt_of_pow-lt b 256 (omega arith) in
      let low : p ≤ b = elim (dec_lt b p) [
        | yes k ↦ absurd (omega (arith, set, multiple-bit_at (word / 2 ^ p) p b k))
        | no k ↦ omega arith
      ] in
      (
        b,
        true,
        rw high_mask (ground arith),
        record {
          in_range = (low, top);
          bit = sym (high_bit b low) ∙ set;
          edge = λ e. cc;
          clear = λ i above h. sym (high_bit i above) ∙ clear i h;
        },
      )

  pub next_above_nearest : AboveResult
  next_above_nearest = elim (dec_lt 0 high) [
    | yes h ↦ above_found h
    | no h ↦ above_empty (omega arith)
  ]

module _ (m : SwapMath) (scan : BitScan m) (src : TickSource) (tick : ℤ) (spacing word : ℕ)
    (pos_spacing : 0 < spacing) (fits : word < 2 ^ 256) where
  -- With bit scans as the crate documents them, a positive spacing and a hydrated word: going
  -- down, the search never fails, and returns the highest initialized tick at or below the tick
  -- in that word, or, when there is none, the first tick of the word, marked as not initialized.
  -- `c` is the compressed tick, rounded towards minus infinity.
  pub next_tick_below :
      let c = floor_div tick spacing in
      let p = floor_mod c 256 in
      src.bitmap_word (position c).0 ≡ some word
      → (found : ℕ) × (initialized : Bool) × (next_initialized_tick_src m src tick spacing true
          ≡ ok (some ((c -ℤ pos (p - found)) *ℤ pos spacing, initialized)))
        × NearestBelow word p found initialized
  unfolding next_initialized_tick_src
  next_tick_below known =
      let c = floor_div tick spacing in
      let p = floor_mod c 256 in
      let (found, initialized, e, nearest) =
        next_below_nearest m scan c spacing p word (floor_mod-lt c 256 (omega arith)) fits in
      (
        found,
        initialized,
        rw (compress_tick-eq-floor_div tick spacing pos_spacing, known, e),
        nearest,
      )

  -- With bit scans as the crate documents them, a positive spacing and the word of the next
  -- compressed tick hydrated: going up, the search never fails, and returns the lowest
  -- initialized tick above the tick in that word, or, when there is none, the last tick of the
  -- word, marked as not initialized.
  pub next_tick_above :
      let c = floor_div tick spacing in
      let p = floor_mod (c +ℤ pos 1) 256 in
      src.bitmap_word (position (c +ℤ pos 1)).0 ≡ some word
      → (found : ℕ) × (initialized : Bool) × (next_initialized_tick_src m src tick spacing false
          ≡ ok (some ((c +ℤ pos 1 +ℤ pos (found - p)) *ℤ pos spacing, initialized)))
        × NearestAbove word p found initialized
  unfolding next_initialized_tick_src
  next_tick_above known =
      let c = floor_div tick spacing in
      let p = floor_mod (c +ℤ pos 1) 256 in
      let (found, initialized, e, nearest) =
        next_above_nearest m scan c spacing p word (floor_mod-lt (c +ℤ pos 1) 256 (omega arith))
          fits in
      (
        found,
        initialized,
        rw (compress_tick-eq-floor_div tick spacing pos_spacing, known, e),
        nearest,
      )
