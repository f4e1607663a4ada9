-- ===== src/Math/V2/Bounds.antt =====
-- The quote of src/math/v2.rs against true arithmetic.
use native.Mathlib.Nat.{
  mul-le-mul, mul-le-mul_left, mul-le-mul_right, div-mul-le_self, div-lt_iff_lt-mul,
  le-div_iff_mul-le, div-le_of_le-mul,
}
use robinarb.Base.{
  ℕ, ◌+◌, ◌-◌, ◌*◌, ◌/◌, ◌^◌, ◌≤◌, ◌<◌, ◌≡◌, arith, ◌==◌, if◌then◌else◌, ap, sym, ◌||◌, zero, suc,
}
use robinarb.Base.Word.{
  done, add256, mul256, sub32, add256_exact, mul256_exact, sub32_exact, div256_exact,
}
use robinarb.Math.V2.{get_amount_out}

-- The rational quote, rounded down, over unbounded numbers.
abbrev pub swap_out : ℕ → ℕ → ℕ → ℕ → ℕ
swap_out amount_in reserve_in reserve_out fee_bps =
    amount_in
    * (10_000 - fee_bps)
    * reserve_out
    / (reserve_in * 10_000 + amount_in * (10_000 - fee_bps))

-- Reserves of a pair are u112, and an amount here is a u128.
pub record InRange (amount_in reserve_in reserve_out fee_bps : ℕ) : Type 0 where
  pub amount : amount_in < 2 ^ 128
  pub rin : reserve_in < 2 ^ 112
  pub rout : reserve_out < 2 ^ 112
  pub fee : fee_bps ≤ 10_000

with_fee-le : (a f : ℕ) → a < 2 ^ 128 → f ≤ 10_000 → a * f ≤ 2 ^ 128 * 10_000
with_fee-le a f h k = mul-le-mul {n₂ = 2 ^ 128} (omega arith) k

numerator-lt : (w r : ℕ) → w ≤ 2 ^ 128 * 10_000 → r < 2 ^ 112 → w * r < 2 ^ 256
numerator-lt w r h k =
    let bound : w * r ≤ 2 ^ 128 * 10_000 * 2 ^ 112 = mul-le-mul {m₂ = 2 ^ 112} h (omega arith) in
    omega arith

swap_out-zero_left : (rin rout fee : ℕ) → swap_out 0 rin rout fee ≡ 0
swap_out-zero_left rin rout fee = omega arith

swap_out-zero_right : (a rin fee : ℕ) → swap_out a rin 0 fee ≡ 0
swap_out-zero_right a rin fee = omega arith

-- The early return for a zero amount or reserve agrees with the formula.
if_degenerate :
    (a rin rout fee : ℕ)
    → 0 < rin
    → (if a == 0 || rin == 0 || rout == 0 then done 0 else done (swap_out a rin rout fee))
      ≡ done (swap_out a rin rout fee)
if_degenerate zero rin rout fee h = ap done (sym (swap_out-zero_left rin rout fee))
if_degenerate (suc a) rin zero fee h = ground (arith, swap_out-zero_right (suc a) rin fee)
if_degenerate (suc a) rin (suc rout) fee h = ground arith

module _ (a rin rout fee : ℕ) (h : InRange a rin rout fee) (pos : 0 < rin) where
  abbrev w : ℕ
  w = a * (10_000 - fee)

  w-le : w ≤ 2 ^ 128 * 10_000
  w-le = with_fee-le a (10_000 - fee) h.amount (omega arith)

  with_fee_exact : mul256 a (sub32 10_000 fee) ≡ w
  with_fee_exact =
      rw (sub32_exact 10_000 fee h.fee (omega arith))
        (mul256_exact a (10_000 - fee) (omega (arith, w-le)))

  denominator_exact : add256 (mul256 rin 10_000) w ≡ rin * 10_000 + w
  denominator_exact =
      rw (mul256_exact rin 10_000 (omega (arith, h.rin)))
        (add256_exact (rin * 10_000) w (omega (arith, h.rin, w-le)))

  -- For reserves of u112, of which the input one is not zero, an amount of u128 and a fee of at
  -- most 100%, the quote neither panics nor wraps: it is the rational formula, rounded down.
  pub get_amount_out-eq-swap_out : get_amount_out a rin rout fee ≡ done (swap_out a rin rout fee)
  unfolding get_amount_out
  get_amount_out-eq-swap_out =
      rw
        (
          with_fee_exact,
          mul256_exact w rout (numerator-lt w rout w-le h.rout),
          denominator_exact,
          div256_exact (w * rout) (rin * 10_000 + w) (omega arith),
        )
        (if_degenerate a rin rout fee pos)

-- The share of the reserve `r` that `w` buys against `k`, both in scaled units.
module _ (k r : ℕ) (pos : 0 < k) where
  abbrev share : ℕ → ℕ
  share w = w * r / (k + w)

  share-mul-le : (w : ℕ) → share w * (k + w) ≤ w * r
  share-mul-le w = div-mul-le_self (w * r) (k + w)

  share-le : (w : ℕ) → share w ≤ r
  share-le w = div-le_of_le-mul (k + w) (omega arith)

  share-lt : (w : ℕ) → 0 < r → share w < r
  share-lt w h = (div-lt_iff_lt-mul (omega arith)).1 (grind arith)

  share_mono : (w v : ℕ) → w ≤ v → share w ≤ share v
  share_mono w v h =
      let step : share w * (v - w) ≤ r * (v - w) = mul-le-mul_right (v - w) (share-le w) in
      let split : v ≡ w + (v - w) = omega arith in
      (le-div_iff_mul-le {k = k + v} {x = share w} {y = v * r} (omega arith)).1
        (regroup w v (v - w) (share w) split (share-mul-le w) step)
    where
      regroup :
          (w v d q : ℕ) → v ≡ w + d → q * (k + w) ≤ w * r → q * d ≤ r * d → q * (k + v) ≤ v * r
      regroup w v d q e p s = rw e (omega arith)

  -- What is left of the reserve, times what has come in.
  left-le : (w : ℕ) → k * r ≤ (k + w) * (r - share w)
  left-le w = regroup (share w) (r - share w) (omega (arith, share-le w)) (share-mul-le w)
    where
      regroup : (q d : ℕ) → r ≡ q + d → q * (k + w) ≤ w * r → k * r ≤ (k + w) * d
      regroup q d e p = omega (arith, ap (λ (t : ℕ). k * t) e, ap (λ (t : ℕ). w * t) e)

-- The reserve is never drained.
pub swap_out-lt : (a rin rout fee : ℕ) → 0 < rin → 0 < rout → swap_out a rin rout fee < rout
swap_out-lt a rin rout fee h k = share-lt (rin * 10_000) rout (omega arith) _ k

-- A larger input buys at least as much.
pub swap_out_mono :
    (a b rin rout fee : ℕ) → 0 < rin → a ≤ b → swap_out a rin rout fee ≤ swap_out b rin rout fee
swap_out_mono a b rin rout fee h k =
    share_mono (rin * 10_000) rout (omega arith) _ _ (mul-le-mul_right (10_000 - fee) k)

-- The product of the reserves never falls.
pub product-le :
    (a rin rout fee : ℕ) → 0 < rin → rin * rout ≤ (rin + a) * (rout - swap_out a rin rout fee)
product-le a rin rout fee h =
    let d = rout - swap_out a rin rout fee in
    let kept = left-le (rin * 10_000) rout (omega arith) (a * (10_000 - fee)) in
    let paid : a * (10_000 - fee) ≤ a * 10_000 = mul-le-mul_left a (omega arith) in
    let grown = mul-le-mul_right d paid in omega (arith, kept, grown)

-- For nonzero reserves of u112, an amount of u128 and a fee of at most 100%, the quote neither
-- panics nor wraps: it returns less than the reserve, and after the swap the product of the
-- reserves has not fallen.
pub get_amount_out_safe :
    (a rin rout fee : ℕ)
    → InRange a rin rout fee
    → 0 < rin
    → 0 < rout
    → (out : ℕ) × (get_amount_out a rin rout fee ≡ done out)
      × (out < rout)
      × (rin * rout ≤ (rin + a) * (rout - out))
get_amount_out_safe a rin rout fee range h k = (
  swap_out a rin rout fee,
  get_amount_out-eq-swap_out a rin rout fee range h,
  swap_out-lt a rin rout fee h k,
  product-le a rin rout fee h,
)

-- For reserves of u112, of which the input one is not zero, amounts of u128 and a fee of at most
-- 100%, both quotes return, and the larger amount in never buys less.
pub get_amount_out_mono :
    (a b rin rout fee : ℕ)
    → InRange a rin rout fee
    → InRange b rin rout fee
    → 0 < rin
    → a ≤ b
    → (out : ℕ) × (out' : ℕ) × (get_amount_out a rin rout fee ≡ done out)
      × (get_amount_out b rin rout fee ≡ done out')
      × (out ≤ out')
get_amount_out_mono a b rin rout fee range range' h le = (
  swap_out a rin rout fee,
  swap_out b rin rout fee,
  get_amount_out-eq-swap_out a rin rout fee range h,
  get_amount_out-eq-swap_out b rin rout fee range' h,
  swap_out_mono a b rin rout fee h le,
)
