-- ===== src/Math/AeroStable/Newton.antt =====
-- The divisions of src/math/aero_stable.rs.
use native.Mathlib.Nat.{mul-le-mul}
use robinarb.Base.{
  ℕ, zero, suc, ◌-◌, ◌*◌, ◌/◌, ◌^◌, ◌≤◌, ◌<◌, ◌≡◌, refl, arith, ◌||◌, ltb, ◌==◌, Bool-cases, inl,
  inr,
}
use robinarb.Base.Word.{done, add256, sub256, mul256, div256_exact, mul256_exact}
use robinarb.Math.AeroStable.{
  e18, scaled, f, d, k, newton, settled, get_y_rounds, get_y, get_amount_out,
}

scaled-lt : (x y : ℕ) → scaled x y < 2 ^ 200
unfolding scaled mul256
scaled-lt x y = omega arith

scaled_exact : (x y : ℕ) → x * y < 2 ^ 256 → scaled x y ≡ x * y / e18
unfolding scaled
scaled_exact x y h = rw (mul256_exact x y h) refl

-- The range of the normalized reserve in which its cube does not vanish and does not wrap.
pub record Sizeable (x0 : ℕ) : Type 0 where
  pub low : 10 ^ 12 ≤ x0
  pub high : x0 < 2 ^ 105

cube-pos : (x0 : ℕ) → Sizeable x0 → 0 < scaled (scaled x0 x0) x0
cube-pos x0 h =
    let upper : x0 * x0 ≤ 2 ^ 105 * 2 ^ 105 =
      mul-le-mul {n₂ = 2 ^ 105} {m₂ = 2 ^ 105} (omega (arith, h.high)) (omega (arith, h.high)) in
    let lower : 10 ^ 12 * 10 ^ 12 ≤ x0 * x0 =
      mul-le-mul {n₁ = 10 ^ 12} {m₁ = 10 ^ 12} h.low h.low in
    let square : scaled x0 x0 ≡ x0 * x0 / e18 = scaled_exact x0 x0 (omega arith) in
    let s = x0 * x0 / e18 in
    let s-low : 10 ^ 6 ≤ s = omega arith in
    let s-high : s ≤ 2 ^ 151 - 1 = omega arith in
    let above : s * x0 ≤ (2 ^ 151 - 1) * 2 ^ 105 =
      mul-le-mul {n₂ = 2 ^ 151 - 1} {m₂ = 2 ^ 105} s-high (omega (arith, h.high)) in
    let below : 10 ^ 6 * 10 ^ 12 ≤ s * x0 = mul-le-mul {n₁ = 10 ^ 6} {m₁ = 10 ^ 12} s-low h.low in
    let cube : scaled s x0 ≡ s * x0 / e18 = scaled_exact s x0 (omega arith) in
    rw (square, cube) (omega arith)

d-pos : (x0 y : ℕ) → Sizeable x0 → 0 < d x0 y
unfolding d add256
d-pos x0 y h =
    let cube = cube-pos x0 h in
    let small = scaled-lt (scaled x0 x0) x0 in
    let small' = scaled-lt (mul256 3 x0) (scaled y y) in omega arith

newton-done : (x0 xy y : ℕ) → Sizeable x0 → (y' : ℕ) × (newton x0 xy y ≡ done y')
unfolding newton
newton-done x0 xy y h = elim (Bool-cases (ltb (f x0 y) xy)) [
  | inl less ↦ (
    add256 y (mul256 (sub256 xy (f x0 y)) e18 / d x0 y),
    rw (less, div256_exact (mul256 (sub256 xy (f x0 y)) e18) (d x0 y) (d-pos x0 y h)) refl,
  )
  | inr more ↦ (
    sub256 y (mul256 (sub256 (f x0 y) xy) e18 / d x0 y),
    rw (more, div256_exact (mul256 (sub256 (f x0 y) xy) e18) (d x0 y) (d-pos x0 y h)) refl,
  )
]

rounds-done : (left x0 xy y : ℕ) → Sizeable x0 → (y' : ℕ) × (get_y_rounds left x0 xy y ≡ done y')
unfolding get_y_rounds
rounds-done zero x0 xy y h = (y, refl)
rounds-done (suc left) x0 xy y h =
    let (y1, e) = newton-done x0 xy y h in
    let (y2, e') = rounds-done left x0 xy y1 h in
    elim (Bool-cases (settled y1 y)) [
      | inl stop ↦ (y1, rw (e, stop) refl)
      | inr on ↦ (y2, rw (e, on) e')
    ]

-- With nonzero decimal factors, and the new normalized reserve (the reserve and the amount in less the
-- fee, each scaled to 1e18) at least 1e12 and below 2^105, the stable quote does not panic.
pub get_amount_out-done :
    (amount_in reserve_in reserve_out dec_in dec_out fee_bps : ℕ)
    → 0 < dec_in
    → 0 < dec_out
    → Sizeable (
        add256
          (mul256 reserve_in e18 / dec_in)
          (mul256 (sub256 amount_in (mul256 amount_in fee_bps / 10_000)) e18 / dec_in))
    → (out : ℕ) × (get_amount_out amount_in reserve_in reserve_out dec_in dec_out fee_bps
        ≡ done out)
unfolding get_amount_out get_y
get_amount_out-done a rin rout din dout fee hin hout size =
    elim (Bool-cases (a == 0 || rin == 0 || rout == 0)) [
      | inl trivial ↦ (0, rw trivial refl)
      | inr proper ↦
          let y0 = mul256 rout e18 / dout in
          let (y, e) = rounds-done 255 _ (k (mul256 rin e18 / din) y0) y0 size in
          (
            mul256 (sub256 y0 y) dout / e18,
            rw
                (
                  proper,
                  div256_exact (mul256 a fee) 10_000 (omega arith),
                  div256_exact (mul256 rin e18) din hin,
                  div256_exact (mul256 rout e18) dout hout,
                  div256_exact (mul256 (sub256 a (mul256 a fee / 10_000)) e18) din hin,
                  e,
                  div256_exact (mul256 (sub256 y0 y) dout) e18 (omega arith),
                )
                refl,
          )
    ]
