-- ===== src/Ingest/SlotLayout/Tests.antt =====
-- Concrete words and ticks for the decoders, the packing and the tick compression.
use robinarb.Base.{ℕ, ◌*◌, ◌+◌, ◌^◌, ◌<◌, ◌≡◌, refl, arith, some}
use robinarb.Base.Int.{ℤ, pos, negsuc, ◌+ℤ◌, ◌*ℤ◌}
use robinarb.Base.Word.{done}
use robinarb.Ingest.SlotLayout.{
  decode_v2_packed, decode_v3_slot0, compress_tick, lowest_set_bit, discover_algebra_fee_shift,
}
use robinarb.Ingest.SlotLayout.Words.{
  pack_v2, pack_slot0, decode_v2_packed-pack_v2, decode_v3_slot0-pack_slot0,
}
use robinarb.Ingest.SlotLayout.Ticks.{compress_tick_floor}

compress_tick_floor_example :
    (c : ℤ) × (compress_tick (negsuc 60) 60 ≡ done c)
    × ((rest : ℕ) × (rest < 60) × (c *ℤ pos 60 +ℤ pos rest ≡ negsuc 60))
compress_tick_floor_example = compress_tick_floor (negsuc 60) 60 (omega arith)

compress_tick_below : compress_tick (negsuc 60) 60 ≡ done (negsuc 1)
unfolding compress_tick
compress_tick_below = refl

lowest_of_40 : lowest_set_bit 40 ≡ some 3
unfolding lowest_set_bit
lowest_of_40 = refl

fee_shift_default : discover_algebra_fee_shift (2_500 * 2 ^ 184) 2_500 ≡ some 184
unfolding discover_algebra_fee_shift
fee_shift_default = refl

decode_v2_packed-pack_v2_example :
    decode_v2_packed (pack_v2 5_000 7_000 1_700_000_000) ≡ (5_000, 7_000)
decode_v2_packed-pack_v2_example =
    decode_v2_packed-pack_v2 5_000 7_000 1_700_000_000 (omega arith) (omega arith)

decode_v3_slot0-pack_slot0_example :
    decode_v3_slot0 (pack_slot0 (2 ^ 96 + 12_345) (negsuc 60) 9) ≡ (2 ^ 96 + 12_345, negsuc 60)
decode_v3_slot0-pack_slot0_example =
    decode_v3_slot0-pack_slot0 (2 ^ 96 + 12_345) (negsuc 60) 9 (omega arith) (omega arith)
      (omega arith)
