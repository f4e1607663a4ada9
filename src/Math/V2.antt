-- ===== src/Math/V2.antt =====
-- src/math/v2.rs: the exact constant-product quote.
pub mod Bounds
mod Tests
use robinarb.Base.{ℕ, Bool, ◌||◌, ◌==◌, if◌then◌else◌}
use robinarb.Base.Word.{Run, done, add256, mul256, div256, sub32, ◌>>=◌}

unfoldable pub get_amount_out : ℕ → ℕ → ℕ → ℕ → Run ℕ
get_amount_out amount_in reserve_in reserve_out fee_bps =
    if amount_in == 0 || reserve_in == 0 || reserve_out == 0
    then done 0
    else (let fee_factor = sub32 10_000 fee_bps in
        let amount_in_with_fee = mul256 amount_in fee_factor in
        let numerator = mul256 amount_in_with_fee reserve_out in
        let denominator = add256 (mul256 reserve_in 10_000) amount_in_with_fee in
        div256 numerator denominator)
