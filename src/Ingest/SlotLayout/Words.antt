-- ===== src/Ingest/SlotLayout/Words.antt =====
-- The decoders of src/ingest/slot_layout.rs against the packing of Solidity.
use Prim.Native.Nat.{bit_and, bit_or}
use native.Mathlib.Nat.{add-mul-div_right, div-eq_of_lt}
use robinarb.Base.{ℕ, ◌+◌, ◌-◌, ◌*◌, ◌/◌, ◌%◌, ◌^◌, ◌<◌, ◌≡◌, arith, ltb, not, ◌==◌, if◌then◌else◌}
use robinarb.Base.Int.{ℤ, pos, negsuc, ◌≤ℤ◌, floor_mod, floor_mod-lt, signed32, sub_ℕ}
use robinarb.Base.Bits.{bit_and_mask, bit_and_bit, bit_or_fields, two-pow-pos}
use robinarb.Ingest.SlotLayout.{decode_shifted128, decode_low128, decode_v2_packed, decode_v3_slot0}

-- `reserve0 u112 | reserve1 u112 | ts u32`
abbrev pub pack_v2 : ℕ → ℕ → ℕ → ℕ
pack_v2 reserve0 reserve1 ts = reserve0 + reserve1 * 2 ^ 112 + ts * 2 ^ 224

-- `sqrtPriceX96 u160 | tick i24 | ...`
abbrev pub pack_slot0 : ℕ → ℤ → ℕ → ℕ
pack_slot0 sqrt tick rest = sqrt + floor_mod tick (2 ^ 24) * 2 ^ 160 + rest * 2 ^ 184

-- Reserves of u112 both come back from a packed word, whatever the timestamp above them.
pub decode_v2_packed-pack_v2 :
    (reserve0 reserve1 ts : ℕ)
    → reserve0 < 2 ^ 112
    → reserve1 < 2 ^ 112
    → decode_v2_packed (pack_v2 reserve0 reserve1 ts) ≡ (reserve0, reserve1)
unfolding decode_v2_packed
decode_v2_packed-pack_v2 r0 r1 ts h k =
    rw (bit_and_mask 112 (pack_v2 r0 r1 ts), bit_and_mask 112 (pack_v2 r0 r1 ts / 2 ^ 112))
      (ground arith)

-- The sign extension of a 24-bit field.
sign_extend :
    (raw : ℕ)
    → raw < 2 ^ 24
    → (if not (bit_and raw 0x80_0000 == 0) then signed32 (bit_or raw 0xff00_0000) else signed32 raw)
      ≡ (if ltb raw (2 ^ 23) then pos raw else sub_ℕ raw (2 ^ 24))
sign_extend raw h = rw (bit_and_bit 23 raw, bit_or_fields 24 255 raw h) (ground arith)

tick_field :
    (tick : ℤ)
    → negsuc (2 ^ 23 - 1) ≤ℤ tick
    → tick ≤ℤ pos (2 ^ 23 - 1)
    → (let raw = floor_mod tick (2 ^ 24) in
        if ltb raw (2 ^ 23) then pos raw else sub_ℕ raw (2 ^ 24))
      ≡ tick
tick_field (pos n) lo hi = ground arith
tick_field (negsuc n) lo hi = ground arith

-- A price of u160 and a tick of i24 come back from a slot0 word, whatever lies above them.
pub decode_v3_slot0-pack_slot0 :
    (sqrt : ℕ) (tick : ℤ) (rest : ℕ)
    → sqrt < 2 ^ 160
    → negsuc (2 ^ 23 - 1) ≤ℤ tick
    → tick ≤ℤ pos (2 ^ 23 - 1)
    → decode_v3_slot0 (pack_slot0 sqrt tick rest) ≡ (sqrt, tick)
unfolding decode_v3_slot0
decode_v3_slot0-pack_slot0 sqrt tick rest h lo hi =
    let w = pack_slot0 sqrt tick rest in
    let raw = floor_mod tick (2 ^ 24) in
    let small : raw < 2 ^ 24 = floor_mod-lt tick (2 ^ 24) (omega arith) in
    let price : w % 2 ^ 160 ≡ sqrt = omega arith in
    let field : w / 2 ^ 160 % 2 ^ 24 ≡ raw = omega arith in
    rw (
      bit_and_mask 160 w,
      price,
      bit_and_mask 24 (w / 2 ^ 160),
      field,
      sign_extend raw small,
      tick_field tick lo hi,
    )

-- A u128 is read back at any bit offset: `low` is what lies below it, `high` what lies above.
pub decode_shifted128-pack :
    (shift low liquidity high : ℕ)
    → low < 2 ^ shift
    → liquidity < 2 ^ 128
    → decode_shifted128 (low + (liquidity + high * 2 ^ 128) * 2 ^ shift) shift ≡ liquidity
unfolding decode_shifted128
decode_shifted128-pack shift low liquidity high h k =
    let field = liquidity + high * 2 ^ 128 in
    rw
      (
        add-mul-div_right low field (two-pow-pos shift),
        div-eq_of_lt h,
        bit_and_mask 128 (0 + field),
      )
      (omega arith)

-- At offset zero it is the low half of the word.
pub decode_low128-eq-shifted : (w : ℕ) → decode_low128 w ≡ decode_shifted128 w 0
unfolding decode_low128 decode_shifted128
decode_low128-eq-shifted w = let e : w / 2 ^ 0 ≡ w = omega arith in rw e
