-- ===== src/Math/AeroStable/Tests.antt =====
-- The stable quote near balance, and on dust.
use robinarb.Base.{ℕ, ◌^◌, ◌/◌, ◌≡◌, refl, arith}
use robinarb.Base.Word.{done, panic, add256, sub256, mul256, div256}
use robinarb.Math.AeroStable.{get_amount_out, get_y, get_y_rounds, newton, k, f, d, scaled, e18}
use robinarb.Math.AeroStable.Newton.{Sizeable, get_amount_out-done}

-- Reserves of one unit each: the derivative is zero, and the division panics.
dust_panics : get_amount_out 1 1 1 (10 ^ 18) (10 ^ 18) 0 ≡ panic
unfolding get_amount_out div256 get_y get_y_rounds newton f add256 scaled mul256 sub256 k d
dust_panics = refl

abbrev million : ℕ
million = 10 ^ 24

million-Sizeable : Sizeable (
    add256
      (mul256 million e18 / 10 ^ 18)
      (mul256 (sub256 (10 ^ 18) (mul256 (10 ^ 18) 5 / 10_000)) e18 / 10 ^ 18))
unfolding add256 mul256 sub256
million-Sizeable = record { low = omega arith; high = omega arith }

get_amount_out-done_example :
    (out : ℕ) × (get_amount_out (10 ^ 18) million million (10 ^ 18) (10 ^ 18) 5 ≡ done out)
get_amount_out-done_example =
    get_amount_out-done (10 ^ 18) million million (10 ^ 18) (10 ^ 18) 5 (omega arith) (omega arith)
      million-Sizeable
