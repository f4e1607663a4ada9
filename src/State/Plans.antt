-- ===== src/State/Plans.antt =====
-- src/state.rs, `build_slot_plans` and `v4_state_slot`, over the layouts of src/ingest/slot_layout.rs.
-- The map of layouts is a function of the tag; the probe of an Algebra fee word is a parameter, `none`
-- for its error.
use robinarb.Base.{ℕ, Bool, true, false, List, [], ◌∷◌, ◌++◌, Option, none, some}
use robinarb.Base.Word.{add256}
use robinarb.Engine.{DexTag, V4Meta, PoolMeta}
use robinarb.Ingest.SlotLayout.{be_bytes}
use robinarb.State.{
  SlotPlan, v2_packed, v2_two_slot, cl, packed, two_word, ClFee, from_meta, from_word,
}

-- The fields of `SlotLayout::V3` and of `SlotLayout::Algebra`.
pub record V3Layout : Type 0 where
  pub slot0 : ℕ
  pub liquidity : ℕ
  pub ticks : ℕ
  pub tick_bitmap : ℕ

pub record AlgebraLayout : Type 0 where
  pub global_state : ℕ
  pub liquidity_slot : ℕ
  pub liquidity_shift : ℕ
  pub ticks : ℕ
  pub tick_table : ℕ
  pub fee_shift : Option ℕ

pub data SlotLayout : Type 0 where
  packed_reserves : ℕ → SlotLayout
  two_slots : ℕ → SlotLayout
  v3_layout : V3Layout → SlotLayout
  algebra_layout : AlgebraLayout → SlotLayout

abbrev pub univ4_pool_manager : ℕ
univ4_pool_manager = 750_166_719_638_601_549_076_947_413_311_784_449_702_107_547_985

-- The hash of the pool id and the base slot of the mapping of pools.
unfoldable pub v4_state_slot : (List ℕ → ℕ) → ℕ → ℕ
v4_state_slot keccak256 pool_id = keccak256 (be_bytes 32 pool_id ++ be_bytes 32 6)

module _ (keccak256 : List ℕ → ℕ) (layouts : DexTag → Option SlotLayout)
    (fee_word_trusted : ℕ → ℕ → ℕ → Option Bool) where
  abbrev pub v4_plan : V4Meta → SlotPlan
  v4_plan v4 =
      let state_slot = v4_state_slot keccak256 v4.pool_id in
      cl (record {
        addr = univ4_pool_manager;
        slot0 = state_slot;
        liquidity = add256 state_slot 3;
        liquidity_shift = 0;
        ticks_base = add256 state_slot 4;
        bitmap_base = add256 state_slot 5;
        tick_codec = packed;
        fee = from_meta;
      })

  -- A fee word is used only when a probe trusts it.
  abbrev pub word_fee : ℕ → Option Bool → ClFee
  word_fee shift (some true) = from_word shift
  word_fee shift (some false) = from_meta
  word_fee shift none = from_meta

  abbrev pub algebra_fee : PoolMeta → ℕ → Option ℕ → ClFee
  algebra_fee m global_state none = from_meta
  algebra_fee m global_state (some shift) =
      word_fee shift (fee_word_trusted m.address global_state shift)

  abbrev pub layout_plan : PoolMeta → Option SlotLayout → Option SlotPlan
  layout_plan m none = none
  layout_plan m (some (packed_reserves slot)) = some (v2_packed m.address slot)
  layout_plan m (some (two_slots slot_r0)) = some (v2_two_slot m.address slot_r0)
  layout_plan m (some (v3_layout l)) = some (
      cl (record {
        addr = m.address;
        slot0 = l.slot0;
        liquidity = l.liquidity;
        liquidity_shift = 0;
        ticks_base = l.ticks;
        bitmap_base = l.tick_bitmap;
        tick_codec = packed;
        fee = from_meta;
      }))
  layout_plan m (some (algebra_layout l)) = some (
      cl (record {
        addr = m.address;
        slot0 = l.global_state;
        liquidity = l.liquidity_slot;
        liquidity_shift = l.liquidity_shift;
        ticks_base = l.ticks;
        bitmap_base = l.tick_table;
        tick_codec = two_word;
        fee = algebra_fee m l.global_state l.fee_shift;
      }))

  abbrev pub pool_plan : PoolMeta → Option V4Meta → Option SlotPlan
  pool_plan m (some v4) = some (v4_plan v4)
  pool_plan m none = layout_plan m (layouts m.dex)

  unfoldable pub build_slot_plans : List PoolMeta → List (Option SlotPlan)
  build_slot_plans [] = []
  build_slot_plans (m ∷ ms) = pool_plan m m.v4 ∷ build_slot_plans ms
