-- ===== src/Ingest/RpcBackend/InOrder.antt =====
-- The live loop of src/ingest/rpc_backend.rs on streams that are interleaved in the order of the chain.
use robinarb.Base.{
  ℕ, ◌-◌, ◌≤◌, ◌<◌, ◌≡◌, refl, sym, ap, ◌∙◌, arith, true, false, List, [], ◌∷◌, ◌++◌, Option, none,
  some, Bool-cases, inl, inr, All, append_assoc, append_nil,
}
use robinarb.Engine.{Engine}
use robinarb.Ingest.Pipeline.{IngestEvent, new_head}
use robinarb.Ingest.Backend.{Log, EventDecoders, resolve}
use robinarb.Ingest.RpcBackend.{
  Cursor, lt_cursor, u64_max, Sending, Item, header, log_item, or_default, log_position, is_below,
  is_seen, event_of, send_log, on_header, on_resolved, on_item, run_stream,
}

-- A log comes after the heads of its block and of those before it, and after the logs before it.
abbrev pub IsAfter : Item → Item → Type 0
IsAfter (header number fee) (log_item log) =
    (number ≤ or_default log.block_number 0) × (0 < or_default log.block_number 0)
IsAfter (log_item before) (log_item log) = lt_cursor (log_position before) (log_position log) ≡ true
IsAfter _ (header number fee) = Unit

abbrev pub IsInOrder : List Item → Type 0
IsInOrder [] = Unit
IsInOrder (item ∷ items) = All (IsAfter item) items × IsInOrder items

-- A log is past the cursor.
abbrev pub IsUnseen : Option Cursor → Item → Type 0
IsUnseen c (header number fee) = Unit
IsUnseen c (log_item log) = is_seen c (log_position log) ≡ false

module _ (engine : Engine) (decoders : EventDecoders) where
  abbrev pub log_events : Log → Option ℕ → List IngestEvent
  log_events log none = []
  log_events log (some idx) = event_of engine decoders log idx ∷ []

  -- Every head, and every log of one of the pools, in the order of the items.
  abbrev pub all_events : List Item → List IngestEvent
  all_events [] = []
  all_events (header number fee ∷ items) = new_head number fee ∷ all_events items
  all_events (log_item log ∷ items) = log_events log (resolve engine log) ++ all_events items

  header-IsUnseen :
      (number fee : ℕ) (c : Option Cursor) (items : List Item)
      → All (IsUnseen c) items
      → All (IsAfter (header number fee)) items
      → All (IsUnseen (some (number - 1, u64_max))) items
  header-IsUnseen number fee c [] unseen after = tt
  header-IsUnseen number fee c (header n f ∷ items) unseen after =
      (tt, header-IsUnseen number fee c items unseen.1 after.1)
  header-IsUnseen number fee c (log_item log ∷ items) unseen after =
      let (le, pos) = after.0 in (ground arith, header-IsUnseen number fee c items unseen.1 after.1)

  log-IsUnseen :
      (log : Log) (items : List Item)
      → All (IsAfter (log_item log)) items
      → All (IsUnseen (some (log_position log))) items
  log-IsUnseen log [] after = tt
  log-IsUnseen log (header n f ∷ items) after = (tt, log-IsUnseen log items after.1)
  log-IsUnseen log (log_item later ∷ items) after =
      let first = after.0 in (ground arith, log-IsUnseen log items after.1)

  -- What one item sends, and the later items are still past the cursor.
  on_header-sends :
      (number fee : ℕ) (items : List Item) (s : Sending)
      → All (IsUnseen s.cursor) items
      → All (IsAfter (header number fee)) items
      → ((on_header engine decoders number fee s).events ≡ s.events ++ new_head number fee ∷ [])
        × All (IsUnseen (on_header engine decoders number fee s).cursor) items
  unfolding on_header
  on_header-sends number fee items s unseen after =
      elim (Bool-cases (is_below s.cursor (number - 1, u64_max))) [
        | inl below ↦ rw below (refl, header-IsUnseen number fee s.cursor items unseen after)
        | inr past ↦ rw past (refl, unseen)
      ]

  on_resolved-sends :
      (log : Log) (pool : Option ℕ) (items : List Item) (s : Sending)
      → is_seen s.cursor (log_position log) ≡ false
      → All (IsUnseen s.cursor) items
      → All (IsAfter (log_item log)) items
      → ((on_resolved engine decoders log pool s).events ≡ s.events ++ log_events log pool)
        × All (IsUnseen (on_resolved engine decoders log pool s).cursor) items
  unfolding send_log
  on_resolved-sends log none items s fresh unseen after = (sym (append_nil s.events), unseen)
  on_resolved-sends log (some idx) items s fresh unseen after =
      rw fresh (refl, log-IsUnseen log items after)

  -- When the items come in the order of the chain, and their logs are past the cursor, the live loop
  -- sends every head and every log of a registered pool, in their order.
  pub run_stream-All :
      (items : List Item) (s : Sending)
      → IsInOrder items
      → All (IsUnseen s.cursor) items
      → (run_stream engine decoders items s).events ≡ s.events ++ all_events items
  unfolding run_stream on_item
  run_stream-All [] s order unseen = sym (append_nil s.events)
  run_stream-All (header number fee ∷ items) s order unseen =
      let (sent, still) = on_header-sends number fee items s unseen.1 order.0 in
      run_stream-All items (on_header engine decoders number fee s) order.1 still
      ∙ ap (λ (es : List IngestEvent). es ++ all_events items) sent
      ∙ append_assoc s.events (new_head number fee ∷ []) (all_events items)
  run_stream-All (log_item log ∷ items) s order unseen =
      let pool = resolve engine log in
      let (sent, still) = on_resolved-sends log pool items s unseen.0 unseen.1 order.0 in
      run_stream-All items (on_resolved engine decoders log pool s) order.1 still
      ∙ ap (λ (es : List IngestEvent). es ++ all_events items) sent
      ∙ append_assoc s.events (log_events log pool) (all_events items)
