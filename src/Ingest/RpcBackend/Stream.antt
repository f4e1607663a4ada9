-- ===== src/Ingest/RpcBackend/Stream.antt =====
-- The live loop of src/ingest/rpc_backend.rs.
use robinarb.Base.{
  ℕ, ◌-◌, ◌≤◌, ◌<◌, ◌≡◌, ◌∙◌, refl, arith, Bool, true, false, List, [], ◌∷◌, ◌++◌, Option, none,
  some, Bool-cases, inl, inr,
}
use robinarb.Engine.{Engine}
use robinarb.Ingest.Backend.{Log, EventDecoders, resolve}
use robinarb.Ingest.RpcBackend.{
  Cursor, le_cursor, u64_max, Sending, Item, header, log_item, or_default, log_position, is_below,
  is_seen, send_log, on_header, on_resolved, on_item, run_stream,
}

-- A cursor or none is at most another.
abbrev pub at_most : Option Cursor → Option Cursor → Bool
at_most none hi = true
at_most (some c) none = false
at_most (some c) (some d) = le_cursor c d

-- The positions strictly rise, each after `lo` and none after `hi`.
abbrev pub IsAscending : Option Cursor → List Cursor → Option Cursor → Type 0
IsAscending lo [] hi = at_most lo hi ≡ true
IsAscending lo (p ∷ ps) hi = (is_seen lo p ≡ false) × IsAscending (some p) ps hi

at_most_trans :
    (a b c : Option Cursor) → at_most a b ≡ true → at_most b c ≡ true → at_most a c ≡ true
at_most_trans none b c h k = refl
at_most_trans (some a) none c h k = cc
at_most_trans (some a) (some b) none h k = cc
at_most_trans (some (a, i)) (some (b, j)) (some (c, l)) h k = ground arith

IsAscending-wider :
    (lo : Option Cursor) (ps : List Cursor) (hi k : Option Cursor)
    → at_most hi k ≡ true
    → IsAscending lo ps hi
    → IsAscending lo ps k
IsAscending-wider lo [] hi k le h = at_most_trans lo hi k h le
IsAscending-wider lo (p ∷ ps) hi k le h = (h.0, IsAscending-wider (some p) ps hi k le h.1)

at_most_refl : (c : Option Cursor) → at_most c c ≡ true
at_most_refl none = refl
at_most_refl (some (b, i)) = ground arith

unseen_after :
    (lo hi : Option Cursor) (p : Cursor)
    → at_most lo hi ≡ true
    → is_seen hi p ≡ false
    → is_seen lo p ≡ false
unseen_after none hi p le h = refl
unseen_after (some a) none p le h = cc
unseen_after (some (a, i)) (some (b, j)) (c, l) le h = ground arith

IsAscending-concat :
    (lo : Option Cursor) (ps : List Cursor) (hi : Option Cursor) (p : Cursor)
    → IsAscending lo ps hi
    → is_seen hi p ≡ false
    → IsAscending lo (ps ++ p ∷ []) (some p)
IsAscending-concat lo [] hi p h unseen = (unseen_after lo hi p h unseen, at_most_refl (some p))
IsAscending-concat lo (q ∷ ps) hi p h unseen = (h.0, IsAscending-concat (some q) ps hi p h.1 unseen)

below_at_most : (c : Option Cursor) (d : Cursor) → is_below c d ≡ true → at_most c (some d) ≡ true
below_at_most none d h = refl
below_at_most (some (a, i)) (b, j) h = ground arith

not_below : (c : Option Cursor) (d : Cursor) → is_below c d ≡ false → at_most (some d) c ≡ true
not_below none d h = cc
not_below (some (a, i)) (b, j) h = ground arith

unseen_below : (c : Option Cursor) (p : Cursor) → is_seen c p ≡ false → at_most c (some p) ≡ true
unseen_below none p h = refl
unseen_below (some (a, i)) (b, j) h = ground arith

seen_by :
    (p q : Cursor) (c : Option Cursor)
    → le_cursor p q ≡ true
    → at_most (some q) c ≡ true
    → is_seen c p ≡ true
seen_by p q none le h = cc
seen_by (a, i) (b, j) (some (c, l)) le h = ground arith

module _ (engine : Engine) (decoders : EventDecoders) where
  abbrev Ascending : Option Cursor → Sending → Type 0
  Ascending lo s = IsAscending lo s.positions s.cursor

  -- What a header leaves as the cursor: the old one, which is then past the block before, or that
  -- block's mark.
  on_header-cursor :
      (number fee : ℕ) (s : Sending)
      → (at_most s.cursor (on_header engine decoders number fee s).cursor ≡ true)
        × (at_most (some (number - 1, u64_max)) (on_header engine decoders number fee s).cursor
            ≡ true)
  unfolding on_header
  on_header-cursor number fee s = elim (Bool-cases (is_below s.cursor (number - 1, u64_max))) [
    | inl below ↦
        rw below (below_at_most s.cursor _ below, at_most_refl (some (number - 1, u64_max)))
    | inr past ↦ rw past (at_most_refl s.cursor, not_below s.cursor _ past)
  ]

  on_resolved-Ascending :
      (lo : Option Cursor) (log : Log) (pool : Option ℕ) (s : Sending)
      → Ascending lo s
      → Ascending lo (on_resolved engine decoders log pool s)
  unfolding send_log
  on_resolved-Ascending lo log none s h = h
  on_resolved-Ascending lo log (some idx) s h =
      elim (Bool-cases (is_seen s.cursor (log_position log))) [
        | inl seen ↦ rw seen h
        | inr fresh ↦
            rw fresh (IsAscending-concat lo s.positions s.cursor (log_position log) h fresh)
      ]

  on_item-Ascending :
      (lo : Option Cursor) (item : Item) (s : Sending)
      → Ascending lo s
      → Ascending lo (on_item engine decoders item s)
  unfolding on_item
  on_item-Ascending lo (header number fee) s h =
      unfold on_header in
      IsAscending-wider lo s.positions s.cursor _ (on_header-cursor number fee s).0 h
  on_item-Ascending lo (log_item log) s h = on_resolved-Ascending lo log (resolve engine log) s h

  run_stream-Ascending :
      (lo : Option Cursor) (items : List Item) (s : Sending)
      → Ascending lo s
      → Ascending lo (run_stream engine decoders items s)
  unfolding run_stream
  run_stream-Ascending lo [] s h = h
  run_stream-Ascending lo (item ∷ items) s h =
      run_stream-Ascending lo items (on_item engine decoders item s) (on_item-Ascending lo item s h)

  -- Whatever items the streams yield, in whatever order and however often, the logs that the live loop
  -- sends have strictly rising positions, all after the cursor at its start and none after the cursor
  -- at its end: no log is sent twice.
  pub run_stream-IsAscending :
      (items : List Item) (s : Sending)
      → s.positions ≡ []
      → IsAscending s.cursor
          (run_stream engine decoders items s).positions
          (run_stream engine decoders items s).cursor
  run_stream-IsAscending items s empty =
      run_stream-Ascending s.cursor items s (rw empty (at_most_refl s.cursor))

  on_item-cursor :
      (item : Item) (s : Sending) → at_most s.cursor (on_item engine decoders item s).cursor ≡ true
  unfolding on_item send_log
  on_item-cursor (header number fee) s = (on_header-cursor number fee s).0
  on_item-cursor (log_item log) s = by_pool (resolve engine log)
    where
      by_pool :
          (pool : Option ℕ)
          → at_most s.cursor (on_resolved engine decoders log pool s).cursor ≡ true
      by_pool none = at_most_refl s.cursor
      by_pool (some idx) = elim (Bool-cases (is_seen s.cursor (log_position log))) [
        | inl seen ↦ rw seen (at_most_refl s.cursor)
        | inr fresh ↦ rw fresh (unseen_below s.cursor (log_position log) fresh)
      ]

  run_stream-cursor :
      (items : List Item) (s : Sending)
      → at_most s.cursor (run_stream engine decoders items s).cursor ≡ true
  unfolding run_stream
  run_stream-cursor [] s = at_most_refl s.cursor
  run_stream-cursor (item ∷ items) s =
      at_most_trans s.cursor (on_item engine decoders item s).cursor _ (on_item-cursor item s)
        (run_stream-cursor items (on_item engine decoders item s))

  run_stream-append :
      (xs ys : List Item) (s : Sending)
      → run_stream engine decoders (xs ++ ys) s
        ≡ run_stream engine decoders ys (run_stream engine decoders xs s)
  unfolding run_stream
  run_stream-append [] ys s = refl
  run_stream-append (x ∷ xs) ys s = run_stream-append xs ys (on_item engine decoders x s)

  -- A log that the stream of logs yields anywhere after the stream of heads has yielded a later block,
  -- whatever items come in between, is not sent: the live loop is as without it.
  pub late_log-dropped :
      (number fee : ℕ) (items : List Item) (log : Log) (s : Sending)
      → or_default log.block_number 0 < number
      → or_default log.log_index u64_max ≤ u64_max
      → run_stream engine decoders (header number fee ∷ items ++ log_item log ∷ []) s
        ≡ run_stream engine decoders (header number fee ∷ items) s
  unfolding on_item run_stream
  late_log-dropped number fee items log s late small =
      run_stream-append items (log_item log ∷ []) first
      ∙ dropped (resolve engine log) (
          seen_by (log_position log) (number - 1, u64_max) _ (ground arith)
            (at_most_trans (some (number - 1, u64_max)) first.cursor after.cursor
              (on_header-cursor number fee s).1 (run_stream-cursor items first)))
    where
      first : Sending
      first = on_header engine decoders number fee s

      after : Sending
      after = run_stream engine decoders items (on_header engine decoders number fee s)

      dropped :
          (pool : Option ℕ)
          → is_seen
              (run_stream engine decoders items (on_header engine decoders number fee s)).cursor
              (log_position log)
            ≡ true
          → on_resolved engine decoders log pool
              (run_stream engine decoders items (on_header engine decoders number fee s))
            ≡ run_stream engine decoders items (on_header engine decoders number fee s)
      dropped none seen = refl
      dropped (some idx) seen = rw seen refl
