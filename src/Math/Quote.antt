-- ===== src/Math/Quote.antt =====
-- src/math/mod.rs, `quote`: the exact quote of a pool off the state. The f64 quotes are left out.
pub mod Unread
mod Tests
use Prim.Native.Nat.{bit_and}
use robinarb.Base.{
  ℕ, zero, suc, ◌+◌, ◌*◌, ◌/◌, ◌%◌, ◌^◌, Bool, ◌||◌, List, Option, none, some, ◌==◌, if◌then◌else◌,
}
use robinarb.Base.Word.{Run, done, ◌>>=◌, add256}
use robinarb.Engine.{PoolMeta, is_aero_stable}
use robinarb.Ingest.SlotLayout.{decode_v2_packed, decode_v3_slot0, decode_shifted128}
use robinarb.Math.V2 as V2
use robinarb.Math.AeroStable as AeroStable
use robinarb.Math.V3.{SwapMath, get_amount_out_src}
use robinarb.State.{
  ChainState, SlotPlan, v2_packed, v2_two_slot, cl, ClPlan, ClFee, from_meta, from_word, TickCodec,
  packed, two_word, plan, read,
}
use robinarb.State.TickReader.{ClTickReader, source}

abbrev pub quote_v2_packed : PoolMeta → ℕ → Bool → ℕ → Run ℕ
quote_v2_packed m amount_in zero_for_one word =
    let (r0, r1) = decode_v2_packed word in
    if r0 == 0 || r1 == 0
    then done 0
    else if zero_for_one
    then V2.get_amount_out amount_in r0 r1 m.fee_bps
    else V2.get_amount_out amount_in r1 r0 m.fee_bps

abbrev pub quote_v2_two_slot : PoolMeta → ℕ → Bool → ℕ → ℕ → Run ℕ
quote_v2_two_slot m amount_in zero_for_one w0 w1 =
    let d0 = 10 ^ m.dec0 % 2 ^ 256 in
    let d1 = 10 ^ m.dec1 % 2 ^ 256 in
    if w0 == 0 || w1 == 0
    then done 0
    else if is_aero_stable m.dex
    then (if zero_for_one
        then AeroStable.get_amount_out amount_in w0 w1 d0 d1 m.fee_bps
        else AeroStable.get_amount_out amount_in w1 w0 d1 d0 m.fee_bps)
    else if zero_for_one
    then V2.get_amount_out amount_in w0 w1 m.fee_bps
    else V2.get_amount_out amount_in w1 w0 m.fee_bps

abbrev pub walk_fee : PoolMeta → ℕ → ClFee → ℕ
walk_fee m word0 from_meta = m.fee_pips
walk_fee m word0 (from_word shift) = bit_and (word0 / 2 ^ shift) 0xffff

abbrev pub walk_spacing : PoolMeta → TickCodec → ℕ
walk_spacing m packed = m.tick_spacing
walk_spacing m two_word = 1

module _ (swap_math : SwapMath) (keccak256 : List ℕ → ℕ) where
  abbrev pub quote_cl : ChainState → PoolMeta → ℕ → Bool → ClPlan → Run ℕ
  quote_cl st m amount_in zero_for_one p =
      let word0 = read st p.addr p.slot0 in
      let (sqrt, tick) = decode_v3_slot0 word0 in
      let liq = decode_shifted128 (read st p.addr p.liquidity) p.liquidity_shift in
      let reader : ClTickReader = record {
        state = st;
        addr = p.addr;
        ticks_base = p.ticks_base;
        bitmap_base = p.bitmap_base;
        codec = p.tick_codec;
        last_word = none;
      } in
      if sqrt == 0
      then done 0
      else get_amount_out_src swap_math amount_in zero_for_one sqrt tick liq
          (walk_fee m word0 p.fee) (walk_spacing m p.tick_codec) (source keccak256 reader)

  abbrev pub quote_plan : ChainState → PoolMeta → ℕ → Bool → Option SlotPlan → Run ℕ
  quote_plan st m amount_in zero_for_one none = done 0
  quote_plan st m amount_in zero_for_one (some (v2_packed addr slot)) =
      quote_v2_packed m amount_in zero_for_one (read st addr slot)
  quote_plan st m amount_in zero_for_one (some (v2_two_slot addr r0)) =
      quote_v2_two_slot m amount_in zero_for_one (read st addr r0) (read st addr (add256 r0 1))
  quote_plan st m amount_in zero_for_one (some (cl p)) = quote_cl st m amount_in zero_for_one p

  unfoldable pub quote : ChainState → PoolMeta → ℕ → Bool → Run ℕ
  quote st m amount_in zero_for_one = quote_plan st m amount_in zero_for_one (plan st m.idx)
