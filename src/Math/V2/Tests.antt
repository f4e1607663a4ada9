-- ===== src/Math/V2/Tests.antt =====
-- The constant-product quote on a small pair with a fee of 30 basis points.
use robinarb.Base.{ℕ, ◌+◌, ◌-◌, ◌*◌, ◌<◌, ◌≤◌, ◌≡◌, refl, arith}
use robinarb.Base.Word.{done, div256, add256, mul256, sub32}
use robinarb.Math.V2.{get_amount_out}
use robinarb.Math.V2.Bounds.{InRange, swap_out, get_amount_out-eq-swap_out, get_amount_out_safe}

small_range : InRange 1_000 1_000_000 2_000_000 30
small_range = record {
  amount = omega arith;
  rin = omega arith;
  rout = omega arith;
  fee = omega arith;
}

larger_range : InRange 5_000 1_000_000 2_000_000 30
larger_range = record {
  amount = omega arith;
  rin = omega arith;
  rout = omega arith;
  fee = omega arith;
}

quote_1992 : get_amount_out 1_000 1_000_000 2_000_000 30 ≡ done 1_992
unfolding get_amount_out div256 add256 mul256 sub32
quote_1992 = refl

get_amount_out-eq-swap_out_example :
    get_amount_out 1_000 1_000_000 2_000_000 30 ≡ done (swap_out 1_000 1_000_000 2_000_000 30)
get_amount_out-eq-swap_out_example =
    get_amount_out-eq-swap_out 1_000 1_000_000 2_000_000 30 small_range (omega arith)

get_amount_out_safe_example :
    (out : ℕ) × (get_amount_out 1_000 1_000_000 2_000_000 30 ≡ done out)
    × (out < 2_000_000)
    × (1_000_000 * 2_000_000 ≤ (1_000_000 + 1_000) * (2_000_000 - out))
get_amount_out_safe_example =
    get_amount_out_safe 1_000 1_000_000 2_000_000 30 small_range (omega arith) (omega arith)
