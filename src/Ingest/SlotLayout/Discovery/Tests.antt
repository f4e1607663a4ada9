-- ===== src/Ingest/SlotLayout/Discovery/Tests.antt =====
-- A pool whose price is in slot 0, its liquidity in slot 4, and its mappings at 5 and 6.
use robinarb.Base.{ℕ, ◌+◌, ◌*◌, ◌^◌, ◌≡◌, refl, List, [], ◌∷◌, none, some, ◌==◌, if◌then◌else◌}
use robinarb.Base.Int.{pos, eqb_ℤ}
use robinarb.Base.Answer.{ok, err}
use robinarb.Engine.{PoolMeta, uni_v3_fork}
use robinarb.State.Plans.{SlotLayout, v3_layout}
use robinarb.Ingest.SlotLayout.{
  be_bytes, compress_tick, decode_low128, decode_v3_slot0, lowest_set_bit, mapping_slot_signed,
  probe_word_offsets,
}
use robinarb.Ingest.SlotLayout.Discovery.{
  PoolViews, find_index, read_slots, checked_add, find_probe, find_base, expect_i24, match_bases,
  v3_probe_tick, word_matches, v3_tick_matches, v3_mapping_at, discover_v3_tick_mapping, v3_at,
  discover_v3, discover_tag, discover_one,
}
use robinarb.Ingest.SlotLayout.Discovery.Agreement.{LayoutAgrees, discover_one-LayoutAgrees}

abbrev bytes_sum : List ℕ → ℕ
bytes_sum [] = 1_000
bytes_sum (b ∷ bs) = b + bytes_sum bs

abbrev word_at : ℕ → ℕ
word_at s =
    if s == 0
    then 5
    else if s == 4
    then 7
    else if s == 1_005
    then 9 + 3 * 2 ^ 128
    else if s == 1_006
    then 1
    else 0

abbrev views : PoolViews
views = record {
  storage = λ s. ok (word_at s);
  reserves = err;
  liquidity = ok 7;
  slot0 = ok (5, pos 0);
  tick_bitmap = λ w. ok (if eqb_ℤ w (pos 0) then 1 else 0);
  ticks = λ t. ok (9, pos 3);
  global_state = err;
  tick_table = λ w. err;
  algebra_ticks = λ t. err;
}

abbrev pool : PoolMeta
pool = record {
  idx = 0;
  address = 11;
  dex = uni_v3_fork;
  factory = 0;
  token0 = 100;
  token1 = 200;
  dec0 = 18;
  dec1 = 6;
  fee_bps = 30;
  fee_pips = 3_000;
  tick_spacing = 1;
  v4 = none;
}

abbrev layout : SlotLayout
layout = v3_layout (record { slot0 = 0; liquidity = 4; ticks = 5; tick_bitmap = 6 })

discovered : discover_one bytes_sum views pool ≡ ok (some layout)
unfolding discover_one discover_tag read_slots discover_v3 find_index v3_at discover_v3_tick_mapping
    decode_v3_slot0 decode_low128 compress_tick find_probe checked_add lowest_set_bit
    probe_word_offsets v3_mapping_at expect_i24 v3_probe_tick match_bases find_base v3_tick_matches
    word_matches mapping_slot_signed be_bytes
discovered = refl

discover_one-LayoutAgrees_example : LayoutAgrees bytes_sum views 1 layout
discover_one-LayoutAgrees_example =
    discover_one-LayoutAgrees bytes_sum views pool layout refl discovered
