-- ===== src/Ingest/SlotLayout/Ticks.antt =====
-- Tick compression and the scan for a set bit of src/ingest/slot_layout.rs.
use native.Mathlib.Decide.{dec_lt}
use native.Mathlib.Nat.{
  div-eq_of_lt-le, div-add-mod', mod-lt, lt_of_mul-lt-mul_right, mul-le-mul_right,
}
use robinarb.Base.{
  sym, ℕ, zero, suc, ◌+◌, ◌*◌, ◌/◌, ◌%◌, ◌≤◌, ◌<◌, ◌≡◌, ◌≢◌, arith, none, some, ◌==◌, Bool-cases,
  inl, inr,
}
use robinarb.Base.Int.{
  ℤ, pos, negsuc, ◌+ℤ◌, ◌*ℤ◌, floor_div, floor_mod, floor_mod-lt, floor_div-floor_mod,
}
use robinarb.Base.Word.{done}
use robinarb.Base.Bits.{bit_at}
use robinarb.Ingest.SlotLayout.{compress_tick, find_bit, lowest_set_bit}

-- One more than `n` starts a new quotient exactly at a multiple.
suc-div_exact : (n k : ℕ) → 0 < k → suc n % k ≡ 0 → suc n / k ≡ suc (n / k)
suc-div_exact n k h e =
    let whole = div-add-mod' n k in
    let below = mod-lt n h in
    let next = div-add-mod' (suc n) k in
    div-eq_of_lt-le {k = suc (n / k)} k {m = suc n} (multiple n k whole below next e)
      (omega (arith, whole, below))
  where
    multiple :
        (n k : ℕ)
        → n / k * k + n % k ≡ n
        → n % k < k
        → suc n / k * k + suc n % k ≡ suc n
        → suc n % k ≡ 0
        → suc (n / k) * k ≤ suc n
    multiple n k p q r e =
        let more : n / k < suc n / k = lt_of_mul-lt-mul_right k (omega arith) in
        let grown : suc (n / k) * k ≤ suc n / k * k = mul-le-mul_right k more in omega arith

suc-div_same : (n k : ℕ) → 0 < k → suc n % k ≢ 0 → suc n / k ≡ n / k
suc-div_same n k h e =
    let whole = div-add-mod' (suc n) k in
    let below = mod-lt (suc n) h in
    sym (
      div-eq_of_lt-le {k = suc n / k} k {m = n} (omega (arith, whole, e))
        (omega (arith, whole, below)))

pub compress_tick-eq-floor_div :
    (tick : ℤ) (spacing : ℕ)
    → 0 < spacing
    → compress_tick tick spacing ≡ done (floor_div tick spacing)
unfolding compress_tick
compress_tick-eq-floor_div (pos n) (suc s) h = ground arith
compress_tick-eq-floor_div (negsuc n) (suc s) h =
    ground (arith, suc-div_exact n (suc s), suc-div_same n (suc s))
compress_tick-eq-floor_div t zero h = absurd (omega arith)

-- For a positive spacing the compression returns, and the compressed tick `c` is the last
-- multiple of the spacing at or below the tick: the tick is `c * spacing` and a rest below the
-- spacing.
pub compress_tick_floor :
    (tick : ℤ) (spacing : ℕ)
    → 0 < spacing
    → (c : ℤ) × (compress_tick tick spacing ≡ done c)
      × ((rest : ℕ) × (rest < spacing) × (c *ℤ pos spacing +ℤ pos rest ≡ tick))
compress_tick_floor tick spacing h = (
  floor_div tick spacing,
  compress_tick-eq-floor_div tick spacing h,
  (floor_mod tick spacing, floor_mod-lt tick spacing h, floor_div-floor_mod tick spacing h),
)

find_bit_lem :
    (n b bits : ℕ) {r : ℕ}
    → find_bit n b bits ≡ some r
    → (bit_at bits r ≡ 1) × (b ≤ r) × (r < b + n) × ((i : ℕ) → b ≤ i → i < r → bit_at bits i ≢ 1)
unfolding find_bit
find_bit_lem zero b bits h = cc
find_bit_lem (suc n) b bits {r} h = elim (Bool-cases (bit_at bits b == 1)) [
  | inl here ↦
      let e : b ≡ r = ground arith in
      (ground arith, omega arith, omega arith, λ i p q. absurd (omega arith))
  | inr skip ↦
      let (set, lo, hi, none_below) = find_bit_lem n (b + 1) bits (rw (skip, find_bit) at h) in
      (
        set,
        omega arith,
        omega arith,
        λ i p q. elim (dec_lt b i) [
          | yes above ↦ none_below i (omega arith) q
          | no below ↦ let e : i ≡ b = omega arith in rw e (ground arith)
        ],
      )
]

find_bit-none :
    (n b bits : ℕ) → find_bit n b bits ≡ none → (i : ℕ) → b ≤ i → i < b + n → bit_at bits i ≢ 1
unfolding find_bit
find_bit-none zero b bits h i p q = absurd (omega arith)
find_bit-none (suc n) b bits h i p q = elim (Bool-cases (bit_at bits b == 1)) [
  | inl here ↦ absurd (cc (rw (here, find_bit) at h))
  | inr skip ↦ elim (dec_lt b i) [
    | yes above ↦
        find_bit-none n (b + 1) bits (rw (skip, find_bit) at h) i (omega arith) (omega arith)
    | no below ↦ let e : i ≡ b = omega arith in rw e (ground arith)
  ]
]

-- When a bit is found, it is set, below 256, and no lower bit is set.
pub lowest_set_bit_lem :
    (bits : ℕ) {r : ℕ}
    → lowest_set_bit bits ≡ some r
    → (bit_at bits r ≡ 1) × (r < 256) × ((i : ℕ) → i < r → bit_at bits i ≢ 1)
unfolding lowest_set_bit
lowest_set_bit_lem bits h =
    let (set, lo, hi, none_below) = find_bit_lem 256 0 bits h in
    (set, omega arith, λ i q. none_below i (omega arith) q)
