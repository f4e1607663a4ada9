-- ===== src/Math/AeroStable.antt =====
-- src/math/aero_stable.rs: the exact stable-pool quote. The arithmetic of U256 wraps; its division
-- panics at zero. The f64 version is left out.
pub mod Newton
mod Tests
use robinarb.Base.{ℕ, zero, suc, ◌/◌, Bool, ◌||◌, ltb, leb, ◌==◌, if◌then◌else◌}
use robinarb.Base.Word.{Run, done, panic, ◌>>=◌, add256, sub256, mul256, div256}

abbrev pub e18 : ℕ
e18 = 1_000_000_000_000_000_000

-- `x * y / unit`
unfoldable pub scaled : ℕ → ℕ → ℕ
scaled x y = mul256 x y / e18

unfoldable pub k : ℕ → ℕ → ℕ
k x y = let a = scaled x y in let b = add256 (scaled x x) (scaled y y) in scaled a b

unfoldable pub f : ℕ → ℕ → ℕ
f x0 y =
    let y2 = scaled y y in
    let y3 = scaled y2 y in
    let a = scaled x0 y3 in
    let x2 = scaled x0 x0 in let x3 = scaled x2 x0 in let b = scaled x3 y in add256 a b

unfoldable pub d : ℕ → ℕ → ℕ
d x0 y =
    let y2 = scaled y y in
    let a = scaled (mul256 3 x0) y2 in let x2 = scaled x0 x0 in let x3 = scaled x2 x0 in add256 a x3

-- One step of the iteration.
unfoldable pub newton : ℕ → ℕ → ℕ → Run ℕ
newton x0 xy y =
    let k_val = f x0 y in
    if ltb k_val xy
    then (do dy ← div256 (mul256 (sub256 xy k_val) e18) (d x0 y); done (add256 y dy))
    else (do dy ← div256 (mul256 (sub256 k_val xy) e18) (d x0 y); done (sub256 y dy))

-- The step moved by at most one.
abbrev pub settled : ℕ → ℕ → Bool
settled y y_prev = if ltb y_prev y then leb (sub256 y y_prev) 1 else leb (sub256 y_prev y) 1

-- The rounds that are left.
unfoldable pub get_y_rounds : ℕ → ℕ → ℕ → ℕ → Run ℕ
get_y_rounds zero x0 xy y = done y
get_y_rounds (suc left) x0 xy y_prev = newton x0 xy y_prev >>= λ y.
    let rest = get_y_rounds left x0 xy y in if settled y y_prev then done y else rest

unfoldable pub get_y : ℕ → ℕ → ℕ → Run ℕ
get_y x0 xy y = get_y_rounds 255 x0 xy y

unfoldable pub get_amount_out : ℕ → ℕ → ℕ → ℕ → ℕ → ℕ → Run ℕ
get_amount_out amount_in reserve_in reserve_out dec_in dec_out fee_bps =
    if amount_in == 0 || reserve_in == 0 || reserve_out == 0 then done 0 else (do
      fee ← div256 (mul256 amount_in fee_bps) 10_000
      let amount_in_after = sub256 amount_in fee
      x0 ← div256 (mul256 reserve_in e18) dec_in
      y0 ← div256 (mul256 reserve_out e18) dec_out
      amt ← div256 (mul256 amount_in_after e18) dec_in
      let xy = k x0 y0
      let x_new = add256 x0 amt
      y_new ← get_y x_new xy y0
      let out_scaled = sub256 y0 y_new
      div256 (mul256 out_scaled dec_out) e18)
