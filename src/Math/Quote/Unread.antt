-- ===== src/Math/Quote/Unread.antt =====
-- `quote` of src/math/mod.rs on a pool without words in the state.
use robinarb.Base.{ℕ, ◌≡◌, refl, Bool, List, [], ◌∷◌, Option, none, some}
use robinarb.Base.Word.{done}
use robinarb.Engine.{PoolMeta}
use robinarb.Ingest.SlotLayout.{decode_v2_packed, decode_v3_slot0}
use robinarb.Math.V3.{SwapMath}
use robinarb.Math.Quote.{quote, quote_plan}
use robinarb.State.{
  ChainState, SlotPlan, v2_packed, v2_two_slot, cl, plan, plan_slots, slots_of, read,
}

-- Every word of the list reads as zero.
abbrev pub AllZero : ChainState → List (ℕ × ℕ) → Type 0
AllZero st [] = Unit
AllZero st ((addr, slot) ∷ pairs) = (read st addr slot ≡ 0) × AllZero st pairs

-- No word of the list is in the memo or in the tick cache.
abbrev pub Unread : ChainState → List (ℕ × ℕ) → Type 0
Unread st [] = Unit
Unread st ((addr, slot) ∷ pairs) =
    (st.memo addr slot ≡ none) × (st.tick_cache addr slot ≡ none) × Unread st pairs

Unread-zero : (st : ChainState) (pairs : List (ℕ × ℕ)) → Unread st pairs → AllZero st pairs
unfolding read
Unread-zero st [] h = tt
Unread-zero st ((addr, slot) ∷ pairs) (m, c, h) = (rw (m, c) refl, Unread-zero st pairs h)

zero-reserves : decode_v2_packed 0 ≡ (0, 0)
unfolding decode_v2_packed
zero-reserves = refl

zero-price : (decode_v3_slot0 0).0 ≡ 0
unfolding decode_v3_slot0
zero-price = refl

module _ (swap_math : SwapMath) (keccak256 : List ℕ → ℕ) (st : ChainState) (m : PoolMeta)
    (amount_in : ℕ) (zero_for_one : Bool) where
  quote_plan-zero :
      (sp : SlotPlan)
      → AllZero st (plan_slots sp)
      → quote_plan swap_math keccak256 st m amount_in zero_for_one (some sp) ≡ done 0
  quote_plan-zero (v2_packed addr slot) h = rw (h.0, zero-reserves) refl
  quote_plan-zero (v2_two_slot addr r0) h = rw h.0 refl
  quote_plan-zero (cl p) h = rw (h.0, zero-price) refl

  -- A pool without a plan, and a pool of whose plan no word is in the memo or the tick cache, quotes
  -- zero, whatever the amount and the direction, and does not panic.
  pub quote-Unread :
      Unread st (slots_of (plan st m.idx))
      → quote swap_math keccak256 st m amount_in zero_for_one ≡ done 0
  unfolding quote
  quote-Unread h = on_plan (plan st m.idx) h
    where
      on_plan :
          (o : Option SlotPlan)
          → Unread st (slots_of o)
          → quote_plan swap_math keccak256 st m amount_in zero_for_one o ≡ done 0
      on_plan none h = refl
      on_plan (some sp) h = quote_plan-zero sp (Unread-zero st (plan_slots sp) h)
