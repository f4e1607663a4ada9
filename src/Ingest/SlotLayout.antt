-- ===== src/Ingest/SlotLayout.antt =====
-- src/ingest/slot_layout.rs: the packed-word decoders, tick compression and the pure helpers of the
-- layout discovery.
pub mod Words
pub mod Ticks
pub mod Discovery
mod Tests
use Prim.Native.Nat.{bit_and, bit_or}
use robinarb.Base.{
  ℕ, zero, suc, ◌+◌, ◌-◌, ◌*◌, ◌/◌, ◌%◌, ◌^◌, Bool, not, ◌&&◌, List, [], ◌∷◌, ◌++◌, Option, none,
  some, ◌==◌, if◌then◌else◌,
}
use robinarb.Base.Int.{ℤ, pos, negsuc, neg, ltb_ℤ, eqb_ℤ, quot, rem, ◌-ℤ◌, signed32, floor_mod}
use robinarb.Base.Word.{Run, done, panic}
use robinarb.Base.Bits.{bit_at}

unfoldable pub decode_shifted128 : ℕ → ℕ → ℕ
decode_shifted128 w shift = let mask = 2 ^ 128 - 1 in bit_and (w / 2 ^ shift) mask

unfoldable pub decode_low128 : ℕ → ℕ
decode_low128 w = let mask = 2 ^ 128 - 1 in bit_and w mask

unfoldable pub decode_v2_packed : ℕ → ℕ × ℕ
decode_v2_packed w = let mask = 2 ^ 112 - 1 in (bit_and w mask, bit_and (w / 2 ^ 112) mask)

unfoldable pub decode_v3_slot0 : ℕ → ℕ × ℤ
decode_v3_slot0 w =
    let mask160 = 2 ^ 160 - 1 in
    let sqrt = bit_and w mask160 in
    let raw = bit_and (w / 2 ^ 160) 0xff_ffff in
    let tick =
      if not (bit_and raw 0x80_0000 == 0)
      then signed32 (bit_or raw 0xff00_0000)
      else signed32 raw in
    (sqrt, tick)

-- The spacing is an i32 that no pool has below zero; at zero the division panics.
unfoldable pub compress_tick : ℤ → ℕ → Run ℤ
unfolding ◌-ℤ◌
compress_tick tick spacing =
    if spacing == 0
    then panic
    else (if ltb_ℤ tick (pos 0) && not (eqb_ℤ (rem tick spacing) (pos 0))
        then done (quot tick spacing -ℤ pos 1)
        else done (quot tick spacing))

-- `to_be_bytes`: the `n` lowest bytes, the highest first.
unfoldable pub be_bytes : ℕ → ℕ → List ℕ
be_bytes zero x = []
be_bytes (suc n) x = (x / 2 ^ (8 * n) % 256) ∷ be_bytes n x

-- The hash is a parameter; its input is the 64 bytes of the key and the base.
unfoldable pub mapping_slot_signed : (List ℕ → ℕ) → ℤ → ℕ → ℕ
unfolding be_bytes
mapping_slot_signed keccak256 key base =
    keccak256 (be_bytes 32 (floor_mod key (2 ^ 256)) ++ be_bytes 32 base)

-- `(b..b + n).find(|b| bits.bit(b))`
find_bit : ℕ → ℕ → ℕ → Option ℕ
unfolding bit_at
find_bit zero b bits = none
find_bit (suc n) b bits =
    let rest = find_bit n (b + 1) bits in if bit_at bits b == 1 then some b else rest

unfoldable pub lowest_set_bit : ℕ → Option ℕ
unfolding find_bit
lowest_set_bit bits = find_bit 256 0 bits

abbrev pub probe_word_range : ℕ
probe_word_range = 32

-- `(d..).flat_map(|d| [-d, d])` for `n` rounds
outward : ℕ → ℕ → List ℤ
outward zero d = []
outward (suc n) d = neg (pos d) ∷ pos d ∷ outward n (d + 1)

unfoldable pub probe_word_offsets : List ℤ
unfolding outward
probe_word_offsets = pos 0 ∷ outward probe_word_range 1

-- The candidate shifts: 184 first, then every byte from 160 up to 240 without it.
abbrev pub fee_shifts : List ℕ
fee_shifts = 184 ∷ 160 ∷ 168 ∷ 176 ∷ 192 ∷ 200 ∷ 208 ∷ 216 ∷ 224 ∷ 232 ∷ 240 ∷ []

find_shift : List ℕ → ℕ → ℕ → Option ℕ
find_shift [] gs_word want = none
find_shift (shift ∷ shifts) gs_word want =
    if bit_and (gs_word / 2 ^ shift) 0xffff == want
    then some shift
    else find_shift shifts gs_word want

unfoldable pub discover_algebra_fee_shift : ℕ → ℕ → Option ℕ
unfolding find_shift
discover_algebra_fee_shift gs_word last_fee =
    if last_fee == 0 then none else find_shift fee_shifts gs_word last_fee
