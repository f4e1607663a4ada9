-- ===== src/Ingest/SlotLayout/Discovery/Mapping.antt =====
-- The mappings that src/ingest/slot_layout.rs finds for a pool of the V3 family.
use robinarb.Base.{
  ℕ, ◌/◌, ◌^◌, ◌≡◌, ◌≢◌, sym, ap, ==_iff, ◌∙◌, arith, Bool, true, ◌&&◌, List, Option, none, some,
  ◌==◌, Bool-cases, inl, inr,
}
use robinarb.Base.Int.{ℤ, eqb_ℤ, eqb_ℤ-eq, signed128, as_i16, floor_div}
use robinarb.Base.Answer.{Answer, ok, answer_of, >>=-eq-ok, ok-injective}
use robinarb.Ingest.SlotLayout.{
  decode_low128, mapping_slot_signed, lowest_set_bit, probe_word_offsets, compress_tick,
}
use robinarb.Ingest.SlotLayout.Discovery.{
  PoolViews, tick_mapping_scan, Probe, find_probe, find_base, both_bases, word_matches,
  v3_tick_matches, match_bases, v3_mapping_at, v3_probe_tick, expect_i24, discover_v3_tick_mapping,
}
use robinarb.Ingest.SlotLayout.Discovery.Scans.{find_base-matches, find_probe-bit}

both_bases-some :
    (a b : Option ℕ) (t u : ℕ)
    → both_bases a b ≡ some (t, u)
    → (a ≡ some t) × (b ≡ some u) × (t ≢ u)
both_bases-some none b t u h = cc
both_bases-some (some t') none t u h = cc
both_bases-some (some t') (some u') t u h = elim (Bool-cases (t' == u')) [
  | inl same ↦ cc (rw same at h)
  | inr differ ↦
      let pairs : ◌≡◌ {A = Option (ℕ × ℕ)} (some (t', u')) (some (t, u)) = rw differ at h in
      let first : t' ≡ t = cc in
      let second : u' ≡ u = cc in (ap some first, ap some second, λ e. ground arith)
]

expect_i24-eq : (z t : ℤ) → expect_i24 z ≡ ok t → z ≡ t
unfolding expect_i24
expect_i24-eq z t h = ground arith

match_bases-some :
    (tick_matches bitmap_matches : ℕ → Answer Bool) (gross t b : ℕ)
    → match_bases tick_matches bitmap_matches gross ≡ ok (some (t, b))
    → (gross ≢ 0) × (tick_matches t ≡ ok true) × (bitmap_matches b ≡ ok true) × (t ≢ b)
unfolding match_bases
match_bases-some tick_matches bitmap_matches gross t b h = elim (Bool-cases (gross == 0)) [
  | inl dry ↦ cc (rw dry at h)
  | inr wet ↦
      let (a, found, h1) = >>=-eq-ok (find_base tick_matches tick_mapping_scan 0) _ (rw wet at h) in
      let (a', found', h2) = >>=-eq-ok (find_base bitmap_matches tick_mapping_scan 0) _ h1 in
      let (at, at', differ) = both_bases-some a a' t b (ok-injective h2) in
      (
        λ e. ground arith,
        (find_base-matches tick_matches tick_mapping_scan 0 t (found ∙ ap ok at)).0,
        (find_base-matches bitmap_matches tick_mapping_scan 0 b (found' ∙ ap ok at')).0,
        differ,
      )
]

pub both_true : {a b : Bool} → (a && b) ≡ true → (a ≡ true) × (b ≡ true)
both_true {a} {b} h = ground arith

module _ (keccak256 : List ℕ → ℕ) (v : PoolViews) where
  -- The word of a mapping at a key.
  abbrev pub MappingHolds : ℕ → ℤ → (ℕ → Type 0) → Type 0
  MappingHolds base key P =
      (w : ℕ) × (v.storage (mapping_slot_signed keccak256 key base) ≡ ok w) × P w

  -- Some bitmap word and some tick in it read the same from the storage, through the mappings at the
  -- two bases, and from the view calls; the tick has liquidity.
  abbrev pub TickMappingAgrees : ℕ → (t b : ℕ) → Type 0
  TickMappingAgrees spacing t b =
      (p : Probe) × (v.tick_bitmap p.word ≡ ok p.bits)
      × (lowest_set_bit p.bits ≡ some p.bit)
      × MappingHolds b p.word (λ w. w ≡ p.bits)
      × MappingHolds t (v3_probe_tick spacing p) (λ w.
        (v.ticks (v3_probe_tick spacing p) ≡ ok (decode_low128 w, signed128 (w / 2 ^ 128)))
        × (decode_low128 w ≢ 0))
      × (t ≢ b)

  word_matches-holds :
      (key : ℤ) (want base : ℕ)
      → word_matches keccak256 v key want base ≡ ok true
      → MappingHolds base key (λ w. w ≡ want)
  unfolding word_matches
  word_matches-holds key want base h =
      let (w, at, same) = >>=-eq-ok (v.storage (mapping_slot_signed keccak256 key base)) _ h in
      (w, at, ground arith)

  v3_tick_matches-holds :
      (tick : ℤ) (gross : ℕ) (net : ℤ) (base : ℕ)
      → v3_tick_matches keccak256 v tick gross net base ≡ ok true
      → MappingHolds base tick (λ w. (decode_low128 w ≡ gross) × (signed128 (w / 2 ^ 128) ≡ net))
  unfolding v3_tick_matches
  v3_tick_matches-holds tick gross net base h =
      let (w, at, rest) = >>=-eq-ok (v.storage (mapping_slot_signed keccak256 tick base)) _ h in
      let both : (decode_low128 w == gross && eqb_ℤ (signed128 (w / 2 ^ 128)) net) ≡ true =
        ok-injective rest in
      let (low, high) = both_true both in
      (w, at, ((==_iff _ gross).0 low, eqb_ℤ-eq (signed128 (w / 2 ^ 128)) net high))

  v3_mapping_at-Agrees :
      (spacing t b : ℕ) (center : ℤ) (probe : Option Probe)
      → find_probe v.tick_bitmap center probe_word_offsets ≡ ok probe
      → v3_mapping_at keccak256 v spacing probe ≡ ok (some (t, b))
      → TickMappingAgrees spacing t b
  unfolding v3_mapping_at
  v3_mapping_at-Agrees spacing t b center none probed h = cc
  v3_mapping_at-Agrees spacing t b center (some p) probed h =
      let (seen, low) = find_probe-bit v.tick_bitmap center probe_word_offsets p probed in
      let (tick, exact, h1) = >>=-eq-ok (expect_i24 (v3_probe_tick spacing p)) _ h in
      let (values, viewed, h2) = >>=-eq-ok (v.ticks tick) _ h1 in
      let (wet, ticked, mapped, differ) = match_bases-some _ _ values.0 t b h2 in
      let (w, held, (gross, net)) = v3_tick_matches-holds tick values.0 values.1 t ticked in
      let same : v3_probe_tick spacing p ≡ tick =
        expect_i24-eq (v3_probe_tick spacing p) tick exact in
      let decoded : values ≡ (decode_low128 w, signed128 (w / 2 ^ 128)) =
        λ i. (sym gross i, sym net i) in
      (
        p,
        seen,
        low,
        word_matches-holds p.word p.bits b mapped,
        rw same (w, held, (viewed ∙ ap ok decoded, λ e. wet (sym gross ∙ e))),
        differ,
      )

  pub discover_v3_tick_mapping-Agrees :
      (tick : ℤ) (spacing t b : ℕ)
      → discover_v3_tick_mapping keccak256 v tick spacing ≡ ok (some (t, b))
      → TickMappingAgrees spacing t b
  unfolding discover_v3_tick_mapping
  discover_v3_tick_mapping-Agrees tick spacing t b h =
      let (c, compressed, h1) = >>=-eq-ok (answer_of (compress_tick tick spacing)) _ h in
      let (probe, probed, h2) =
        >>=-eq-ok (find_probe v.tick_bitmap (as_i16 (floor_div c 256)) probe_word_offsets) _ h1 in
      v3_mapping_at-Agrees spacing t b (as_i16 (floor_div c 256)) probe probed h2
