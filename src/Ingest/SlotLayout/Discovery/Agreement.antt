-- ===== src/Ingest/SlotLayout/Discovery/Agreement.antt =====
-- A discovered layout of src/ingest/slot_layout.rs against the view calls of the pool.
use robinarb.Base.{
  ℕ, ◌+◌, ◌<◌, ◌≡◌, ◌≢◌, refl, sym, ap, ==_iff, ◌∙◌, arith, true, false, ◌||◌, List, Option, none,
  some, ◌==◌, Bool-cases, inl, inr,
}
use robinarb.Base.Int.{ℤ, eqb_ℤ-eq}
use robinarb.Base.Answer.{Answer, ok, >>=-eq-ok, ok-injective}
use robinarb.Engine.{
  DexTag, uni_v2_fork, aero_volatile, aero_stable, uni_v3_fork, pancake_v3, slipstream, uni_v4,
  algebra, PoolMeta, is_algebra,
}
use robinarb.State.Plans.{SlotLayout, packed_reserves, two_slots, v3_layout, algebra_layout}
use robinarb.Ingest.SlotLayout.{decode_low128, decode_v2_packed, decode_v3_slot0}
use robinarb.Ingest.SlotLayout.Discovery.{
  PoolViews, scan_slots, find_index, read_slots, discover_v3_tick_mapping, is_slot0, is_liquidity,
  v3_of, v3_at, discover_v3, is_packed, packed_at, discover_packed, find_pair, two_at,
  discover_two_slots, discover_tag, discover_one,
}
use robinarb.Ingest.SlotLayout.Discovery.Mapping.{
  both_true, TickMappingAgrees, discover_v3_tick_mapping-Agrees,
}
use robinarb.Ingest.SlotLayout.Discovery.Scans.{HoldsAt, find_index-HoldsAt, find_pair-HoldsAt}

is_packed-eq : (r0 r1 w : ℕ) → is_packed r0 r1 w ≡ true → (r0, r1) ≡ decode_v2_packed w
is_packed-eq r0 r1 w h =
    let (first, second) = both_true h in
    let low : (decode_v2_packed w).0 ≡ r0 = (==_iff (decode_v2_packed w).0 r0).0 first in
    let high : (decode_v2_packed w).1 ≡ r1 = (==_iff (decode_v2_packed w).1 r1).0 second in
    λ i. (sym low i, sym high i)

is_slot0-eq :
    (sqrt : ℕ) (tick : ℤ) (w : ℕ) → is_slot0 sqrt tick w ≡ true → (sqrt, tick) ≡ decode_v3_slot0 w
is_slot0-eq sqrt tick w h =
    let (first, second) = both_true h in
    let price : (decode_v3_slot0 w).0 ≡ sqrt = (==_iff (decode_v3_slot0 w).0 sqrt).0 first in
    let at : (decode_v3_slot0 w).1 ≡ tick = eqb_ℤ-eq (decode_v3_slot0 w).1 tick second in
    λ i. (sym price i, sym at i)

module _ (keccak256 : List ℕ → ℕ) (v : PoolViews) where
  -- What the words of the scanned slots and the mappings of a layout hold, against the view calls.
  abbrev pub LayoutAgrees : ℕ → SlotLayout → Type 0
  LayoutAgrees spacing (packed_reserves slot) =
      HoldsAt v.storage scan_slots slot (λ w. v.reserves ≡ ok (decode_v2_packed w))
  LayoutAgrees spacing (two_slots slot) =
      (r0 r1 : ℕ) × (v.reserves ≡ ok (r0, r1))
      × (v.storage slot ≡ ok r0)
      × (v.storage (slot + 1) ≡ ok r1)
      × (slot + 1 < scan_slots)
  LayoutAgrees spacing (v3_layout l) =
      HoldsAt v.storage scan_slots l.slot0 (λ w. v.slot0 ≡ ok (decode_v3_slot0 w))
      × HoldsAt v.storage scan_slots l.liquidity (λ w. v.liquidity ≡ ok (decode_low128 w))
      × (l.slot0 ≢ l.liquidity)
      × TickMappingAgrees keccak256 v spacing l.ticks l.tick_bitmap
  LayoutAgrees spacing (algebra_layout l) = ⊥

  -- The layout of an answer agrees.
  abbrev Sound : ℕ → Answer (Option SlotLayout) → Type 0
  Sound spacing found = (l : SlotLayout) → found ≡ ok (some l) → LayoutAgrees spacing l

  discover_packed-Sound :
      (spacing : ℕ) (words : List ℕ)
      → read_slots v.storage scan_slots 0 ≡ ok words
      → Sound spacing (discover_packed keccak256 v words)
  unfolding discover_packed
  discover_packed-Sound spacing words read l h =
      let (r, viewed, h1) = >>=-eq-ok v.reserves _ h in
      elim (Bool-cases (r.0 == 0)) [
        | inl dry ↦ cc (rw dry at h1)
        | inr wet ↦
            packed_at-Sound r viewed (find_index (is_packed r.0 r.1) words 0) refl
              (ok-injective (rw wet at h1))
      ]
    where
      packed_at-Sound :
          (r : ℕ × ℕ)
          → v.reserves ≡ ok r
          → (found : Option ℕ) → find_index (is_packed r.0 r.1) words 0 ≡ found
          → packed_at found ≡ some l
          → LayoutAgrees spacing l
      packed_at-Sound r viewed none at e = cc
      packed_at-Sound r viewed (some slot) at e =
          let layout : packed_reserves slot ≡ l = cc in
          let (w, held, low, hit) =
            find_index-HoldsAt v.storage (is_packed r.0 r.1) scan_slots 0 slot words read at in
          rw (← layout) (w, held, omega arith, viewed ∙ ap ok (is_packed-eq r.0 r.1 w hit))

  discover_two_slots-Sound :
      (spacing : ℕ) (words : List ℕ)
      → read_slots v.storage scan_slots 0 ≡ ok words
      → Sound spacing (discover_two_slots keccak256 v words)
  unfolding discover_two_slots
  discover_two_slots-Sound spacing words read l h =
      let (r, viewed, h1) = >>=-eq-ok v.reserves _ h in
      elim (Bool-cases (r.0 == 0)) [
        | inl dry ↦ cc (rw dry at h1)
        | inr wet ↦
            two_at-Sound r viewed (find_pair r.0 r.1 words 0) refl (ok-injective (rw wet at h1))
      ]
    where
      two_at-Sound :
          (r : ℕ × ℕ)
          → v.reserves ≡ ok r
          → (found : Option ℕ) → find_pair r.0 r.1 words 0 ≡ found
          → two_at found ≡ some l
          → LayoutAgrees spacing l
      two_at-Sound r viewed none at e = cc
      two_at-Sound r viewed (some slot) at e =
          let layout : two_slots slot ≡ l = cc in
          let (first, second, low) =
            find_pair-HoldsAt v.storage r.0 r.1 scan_slots 0 slot words read at in
          rw (← layout) (r.0, r.1, viewed, first, second, omega arith)

  v3_at-Sound :
      (words : List ℕ) (spacing : ℕ) (sqrt : ℕ) (tick : ℤ) (liq : ℕ)
      → read_slots v.storage scan_slots 0 ≡ ok words
      → v.slot0 ≡ ok (sqrt, tick)
      → v.liquidity ≡ ok liq
      → (s0 lq : Option ℕ) → find_index (is_slot0 sqrt tick) words 0 ≡ s0
      → find_index (is_liquidity liq) words 0 ≡ lq
      → Sound spacing (v3_at keccak256 v tick spacing s0 lq)
  unfolding v3_at
  v3_at-Sound words spacing sqrt tick liq read seen held none lq at at' l h = cc
  v3_at-Sound words spacing sqrt tick liq read seen held (some s0) none at at' l h = cc
  v3_at-Sound words spacing sqrt tick liq read seen held (some s0) (some lq) at at' l h =
      elim (Bool-cases (s0 == lq)) [
        | inl same ↦ cc (rw same at h)
        | inr differ ↦
            let (m, mapped, h1) =
              >>=-eq-ok (discover_v3_tick_mapping keccak256 v tick spacing) _ (rw differ at h) in
            mapped-Sound differ m mapped (ok-injective h1)
      ]
    where
      mapped-Sound :
          (s0 == lq) ≡ false
          → (m : Option (ℕ × ℕ)) → discover_v3_tick_mapping keccak256 v tick spacing ≡ ok m
          → v3_of s0 lq m ≡ some l
          → LayoutAgrees spacing l
      mapped-Sound differ none mapped e = cc
      mapped-Sound differ (some (t, b)) mapped e =
          let layout : v3_layout (record { slot0 = s0; liquidity = lq; ticks = t; tick_bitmap = b })
              ≡ l =
            cc in
          let (w, stored, low, hit) =
            find_index-HoldsAt v.storage (is_slot0 sqrt tick) scan_slots 0 s0 words read at in
          let (w', stored', low', hit') =
            find_index-HoldsAt v.storage (is_liquidity liq) scan_slots 0 lq words read at' in
          rw (← layout) (
            (w, stored, omega arith, seen ∙ ap ok (is_slot0-eq sqrt tick w hit)),
            (w', stored', omega arith, held ∙ ap ok (sym ((==_iff (decode_low128 w') liq).0 hit'))),
            λ e. ground arith,
            discover_v3_tick_mapping-Agrees keccak256 v tick spacing t b mapped,
          )

  discover_v3-Sound :
      (spacing : ℕ) (words : List ℕ)
      → read_slots v.storage scan_slots 0 ≡ ok words
      → Sound spacing (discover_v3 keccak256 v spacing words)
  unfolding discover_v3
  discover_v3-Sound spacing words read l h =
      let (r, seen, h1) = >>=-eq-ok v.slot0 _ h in
      let (liq, held, h2) = >>=-eq-ok v.liquidity _ h1 in
      elim (Bool-cases (r.0 == 0 || liq == 0)) [
        | inl dead ↦ cc (rw dead at h2)
        | inr live ↦
            v3_at-Sound words spacing r.0 r.1 liq read seen held _ _ refl refl l (rw live at h2)
      ]

  discover_tag-Sound :
      (dex : DexTag) (spacing : ℕ) (words : List ℕ)
      → is_algebra dex ≡ false
      → read_slots v.storage scan_slots 0 ≡ ok words
      → Sound spacing (discover_tag keccak256 v dex spacing words)
  unfolding discover_tag
  discover_tag-Sound uni_v3_fork spacing words plain read = discover_v3-Sound spacing words read
  discover_tag-Sound pancake_v3 spacing words plain read = discover_v3-Sound spacing words read
  discover_tag-Sound slipstream spacing words plain read = discover_v3-Sound spacing words read
  discover_tag-Sound algebra spacing words plain read = cc
  discover_tag-Sound uni_v2_fork spacing words plain read = discover_packed-Sound spacing words read
  discover_tag-Sound aero_volatile spacing words plain read =
      discover_two_slots-Sound spacing words read
  discover_tag-Sound aero_stable spacing words plain read =
      discover_two_slots-Sound spacing words read
  discover_tag-Sound uni_v4 spacing words plain read = λ l h. cc

-- A layout that is found for a pool that is no Algebra pool agrees with the pool's view calls at that
-- block: the words of its slots, all among the scanned ones, decode to the reserves, or to the price
-- and tick and to the liquidity, in two different slots; and the mappings at its two bases, which
-- differ, hold a bitmap word with a set bit and the liquidity of the tick at that bit as viewed, not
-- zero.
pub discover_one-LayoutAgrees :
    (keccak256 : List ℕ → ℕ) (v : PoolViews) (m : PoolMeta) (l : SlotLayout)
    → is_algebra m.dex ≡ false
    → discover_one keccak256 v m ≡ ok (some l)
    → LayoutAgrees keccak256 v m.tick_spacing l
unfolding discover_one
discover_one-LayoutAgrees keccak256 v m l plain h =
    let (words, read, h1) = >>=-eq-ok (read_slots v.storage scan_slots 0) _ h in
    discover_tag-Sound keccak256 v m.dex m.tick_spacing words plain read l h1
