-- ===== src/Ingest/RpcBackend/Backfill.antt =====
-- The replay of missed blocks in src/ingest/rpc_backend.rs.
use robinarb.Base.{
  ℕ, zero, suc, ◌+◌, ◌-◌, ◌≤◌, ◌<◌, min, ◌==◌, ◌||◌, ◌&&◌, ==_iff, ◌≡◌, refl, sym, ap, ◌∙◌, arith,
  Bool, true, false, List, [], ◌∷◌, ◌++◌, Option, none, some, ltb, leb, if◌then◌else◌, Bool-cases,
  inl, inr, All, contains, append_assoc, append_nil,
}
use robinarb.Engine.{Engine, keys}
use robinarb.Ingest.Pipeline.{IngestEvent}
use robinarb.Ingest.Multicall.{Honest, get_logs_bisect, get_logs_bisect-logs}
use robinarb.State.Plans.{univ4_pool_manager}
use robinarb.Ingest.Backend.{Log, EventDecoders, resolve}
use robinarb.Ingest.RpcBackend.{
  Cursor, le_cursor, u64_max, max_backfill_blocks, backfill_chunk, Sending, Connection,
  log_position, event_of, send_log, replay_resolved, replay_logs, after_read, replay_chunks,
  first_block, advanced, backfill, Item, then_stream, catch_up, run_stream, run_once, run,
}

-- The position is after the cursor's, in a later block or later in its block.
abbrev pub is_past : Cursor → Cursor → Bool
is_past (a, i) (b, j) = ltb a b || (a == b && ltb i j)

not_past : (c p : Cursor) → le_cursor p c ≡ true → is_past c p ≡ false
not_past (a, i) (b, j) h = ground arith

past_unseen : (c p : Cursor) → le_cursor p c ≡ false → is_past c p ≡ true
past_unseen (a, i) (b, j) h = ground arith

-- The logs of a block carry its number.
abbrev pub OfBlock : ℕ → List Log → Type 0
OfBlock a = All (λ log. le_cursor (log_position log) (a, u64_max) ≡ true)

module _ (engine : Engine) (decoders : EventDecoders) where
  abbrev pub missed_log : Cursor → Log → Option ℕ → List IngestEvent
  missed_log cursor log none = []
  missed_log cursor log (some idx) =
      if is_past cursor (log_position log) then event_of engine decoders log idx ∷ [] else []

  -- The events of the logs of registered pools past the cursor, in their order.
  abbrev pub missed : Cursor → List Log → List IngestEvent
  missed cursor [] = []
  missed cursor (log ∷ logs) = missed_log cursor log (resolve engine log) ++ missed cursor logs

  replay_resolved-missed :
      (cursor : Cursor) (log : Log) (pool : Option ℕ) (s : Sending)
      → ((replay_resolved engine decoders cursor log pool s).events
          ≡ s.events ++ missed_log cursor log pool)
        × ((replay_resolved engine decoders cursor log pool s).cursor ≡ s.cursor)
  unfolding send_log
  replay_resolved-missed cursor log none s = (sym (append_nil s.events), refl)
  replay_resolved-missed cursor log (some idx) s =
      elim (Bool-cases (le_cursor (log_position log) cursor)) [
        | inl seen ↦
            rw (seen, not_past cursor (log_position log) seen) (sym (append_nil s.events), refl)
        | inr fresh ↦ rw (fresh, past_unseen cursor (log_position log) fresh) (refl, refl)
      ]

  replay_logs-missed :
      (cursor : Cursor) (logs : List Log) (s : Sending)
      → ((replay_logs engine decoders cursor logs s).events ≡ s.events ++ missed cursor logs)
        × ((replay_logs engine decoders cursor logs s).cursor ≡ s.cursor)
  unfolding replay_logs
  replay_logs-missed cursor [] s = (sym (append_nil s.events), refl)
  replay_logs-missed cursor (log ∷ logs) s =
      let pool = resolve engine log in
      let (sent, same) = replay_resolved-missed cursor log pool s in
      let (rest, kept) =
        replay_logs-missed cursor logs (replay_resolved engine decoders cursor log pool s) in
      (
        rest
            ∙ ap (λ (es : List IngestEvent). es ++ missed cursor logs) sent
            ∙ append_assoc s.events (missed_log cursor log pool) (missed cursor logs),
        kept ∙ same,
      )

  missed-append :
      (cursor : Cursor) (xs ys : List Log)
      → missed cursor (xs ++ ys) ≡ missed cursor xs ++ missed cursor ys
  missed-append cursor [] ys = refl
  missed-append cursor (x ∷ xs) ys =
      ap (λ (es : List IngestEvent). missed_log cursor x (resolve engine x) ++ es)
        (missed-append cursor xs ys)
      ∙ sym (
          append_assoc (missed_log cursor x (resolve engine x)) (missed cursor xs)
            (missed cursor ys))

  missed_log-done :
      (a : ℕ) (log : Log) (pool : Option ℕ)
      → le_cursor (log_position log) (a, u64_max) ≡ true
      → missed_log (a, u64_max) log pool ≡ []
  missed_log-done a log none h = refl
  missed_log-done a log (some idx) h =
      let old = not_past (a, u64_max) (log_position log) h in rw old refl

  -- Of a block that is done nothing is missed.
  missed-done : (a : ℕ) (logs : List Log) → OfBlock a logs → missed (a, u64_max) logs ≡ []
  missed-done a [] h = refl
  missed-done a (log ∷ logs) (at, all) =
      rw (missed_log-done a log (resolve engine log) at) (missed-done a logs all)

  replay_logs-append :
      (cursor : Cursor) (xs ys : List Log) (s : Sending)
      → replay_logs engine decoders cursor (xs ++ ys) s
        ≡ replay_logs engine decoders cursor ys (replay_logs engine decoders cursor xs s)
  unfolding replay_logs
  replay_logs-append cursor [] ys s = refl
  replay_logs-append cursor (x ∷ xs) ys s =
      replay_logs-append cursor xs ys
        (replay_resolved engine decoders cursor x (resolve engine x) s)

  module _ (fetch : ℕ → ℕ → Option (List Log)) (logs : ℕ → ℕ → List Log)
      (honest : Honest fetch logs) where
    -- The logs of a range that may be empty.
    abbrev span : ℕ → ℕ → List Log
    span from head = if leb from head then logs from head else []

    span_joined :
        (from to head : ℕ)
        → from ≤ to
        → to ≤ head
        → logs from to ++ span (to + 1) head ≡ logs from head
    span_joined from to head low high = elim (Bool-cases (leb (to + 1) head)) [
      | inl more ↦ rw more (honest.joined from to head low (ground arith))
      | inr last ↦
          let same : to ≡ head = ground arith in
          rw (last, append_nil (logs from to)) (ap (logs from) same)
    ]

    -- The chunks are one replay of the whole range.
    replay_chunks-whole :
        (cursor : Cursor) (fuel from head : ℕ) (s : Sending)
        → head + 1 - from < fuel
        → replay_chunks engine decoders fetch cursor fuel from head s
          ≡ (replay_logs engine decoders cursor (span from head) s, true)
    unfolding replay_chunks
    replay_chunks-whole cursor zero from head s enough = absurd (omega arith)
    replay_chunks-whole cursor (suc fuel) from head s enough = elim (Bool-cases (leb from head)) [
      | inr past ↦ rw past (unfold replay_logs in refl)
      | inl more ↦
          let to = min (from + backfill_chunk - 1) head in
          let le : from ≤ head = ground arith in
          let low : from ≤ to = omega arith in
          let read : get_logs_bisect fetch from to ≡ some (logs from to) =
            get_logs_bisect-logs fetch logs honest from to low in
          let now = replay_logs engine decoders cursor (logs from to) s in
          let whole : replay_logs engine decoders cursor (span (to + 1) head) now
              ≡ replay_logs engine decoders cursor (logs from head) s =
            sym (replay_logs-append cursor (logs from to) (span (to + 1) head) s)
            ∙ ap (λ (ls : List Log). replay_logs engine decoders cursor ls s)
                (span_joined from to head low (omega arith)) in
          let rest = replay_chunks-whole cursor fuel (to + 1) head now (omega arith) in
          rw (more, read) (rest ∙ ap (λ (s' : Sending). (s', true)) whole)
    ]

  module _ (fetch : List ℕ → ℕ → ℕ → Option (List Log)) (logs : ℕ → ℕ → List Log) where
    backfill-range :
        (cursor : Cursor) (head : ℕ) (s : Sending)
        → Honest (fetch (keys engine.by_address)) logs
        → first_block cursor ≤ head
        → head - first_block cursor ≤ max_backfill_blocks
        → ((backfill engine decoders fetch cursor head s).1 ≡ true)
          × ((backfill engine decoders fetch cursor head s).0.cursor ≡ some (head, u64_max))
          × ((backfill engine decoders fetch cursor head s).0.events
              ≡ s.events ++ missed cursor (logs (first_block cursor) head))
    unfolding backfill
    backfill-range cursor head s honest le near =
        let from = first_block cursor in
        let some_blocks : ltb head from ≡ false = ground arith in
        let few : ltb max_backfill_blocks (head - from) ≡ false = ground arith in
        let all : leb from head ≡ true = ground arith in
        let whole =
          replay_chunks-whole (fetch (keys engine.by_address)) logs honest cursor (head + 2 - from)
            from head s (omega arith) in
        rw (some_blocks, few, whole, all)
          (refl, refl, (replay_logs-missed cursor (logs from head) s).0)

    backfill-none :
        (cursor : Cursor) (head : ℕ) (s : Sending)
        → ltb head (first_block cursor) ≡ true
        → backfill engine decoders fetch cursor head s ≡ (s, true)
    unfolding backfill
    backfill-none cursor head s h = rw h refl

    -- When reads that succeed return the logs of their range, reads of single blocks succeed, the logs of
    -- a block carry its number, and the head is neither before the cursor's block nor more than 3,000
    -- blocks after it, the backfill succeeds: it sends exactly the logs of registered pools that lie
    -- past the cursor among those from the cursor's block to the head, in the order of the reads, and
    -- marks the head as complete.
    pub backfill-missed :
        (cursor : Cursor) (head : ℕ) (s : Sending)
        → Honest (fetch (keys engine.by_address)) logs
        → ((a : ℕ) → OfBlock a (logs a a))
        → s.cursor ≡ some cursor
        → cursor.0 ≤ head
        → head - cursor.0 ≤ 3_000
        → ((backfill engine decoders fetch cursor head s).1 ≡ true)
          × ((backfill engine decoders fetch cursor head s).0.cursor ≡ some (head, u64_max))
          × ((backfill engine decoders fetch cursor head s).0.events
              ≡ s.events ++ missed cursor (logs cursor.0 head))
    unfolding backfill
    backfill-missed (c, i) head s honest numbered at le near = elim (Bool-cases (i == u64_max)) [
      | inr part ↦
          let from : first_block (c, i) ≡ c = rw part refl in
          let out = backfill-range (c, i) head s honest (rw from le) (rw from near) in
          let sent = out.2 in
          (out.0, out.1, sent ∙ ap (λ (b : ℕ). s.events ++ missed (c, i) (logs b head)) from)
      | inl whole ↦
          let from : first_block (c, i) ≡ c + 1 = rw whole refl in
          let end : i ≡ u64_max = (==_iff i u64_max).0 whole in
          let none_old : missed (c, i) (logs c c) ≡ [] =
            ap (λ (j : ℕ). missed (c, j) (logs c c)) end ∙ missed-done c (logs c c) (numbered c) in
          elim (Bool-cases (ltb head (c + 1))) [
            | inl at_head ↦
                let same : c ≡ head = ground arith in
                let idle = backfill-none (c, i) head s (rw (from, at_head) refl) in
                let done_block : missed (c, i) (logs c head) ≡ [] =
                  ap (λ (b : ℕ). missed (c, i) (logs c b)) (sym same) ∙ none_old in
                rw idle (
                  refl,
                  at ∙ ap some (rw (same, end) refl),
                  sym (append_nil s.events)
                      ∙ ap (λ (es : List IngestEvent). s.events ++ es) (sym done_block),
                )
            | inr more ↦
                let out =
                  backfill-range (c, i) head s honest (rw from (ground arith))
                    (rw from (omega arith)) in
                let parts : missed (c, i) (logs c head) ≡ missed (c, i) (logs (c + 1) head) =
                  ap (missed (c, i)) (sym (honest.joined c c head (omega arith) (ground arith)))
                  ∙ missed-append (c, i) (logs c c) (logs (c + 1) head)
                  ∙ ap (λ (es : List IngestEvent). es ++ missed (c, i) (logs (c + 1) head))
                      none_old in
                (
                  out.0,
                  out.1,
                  out.2
                      ∙ ap (λ (b : ℕ). s.events ++ missed (c, i) (logs b head)) from
                      ∙ ap (λ (es : List IngestEvent). s.events ++ es) (sym parts),
                )
          ]
    ]

module _ (engine : Engine) (decoders : EventDecoders) (conn good : Connection) where
  after_read-cursor :
      (read : Option (List Log)) (go : List Log → Sending × Bool) (s : Sending)
      → ((logs : List Log) → (go logs).0.cursor ≡ s.cursor)
      → (after_read read go s).0.cursor ≡ s.cursor
  after_read-cursor none go s h = refl
  after_read-cursor (some logs) go s h = h logs

  replay_chunks-cursor :
      (fetch : ℕ → ℕ → Option (List Log)) (cursor : Cursor) (fuel from head : ℕ) (s : Sending)
      → (replay_chunks engine decoders fetch cursor fuel from head s).0.cursor ≡ s.cursor
  unfolding replay_chunks
  replay_chunks-cursor fetch cursor zero from head s = refl
  replay_chunks-cursor fetch cursor (suc fuel) from head s =
      let to = min (from + backfill_chunk - 1) head in
      elim (Bool-cases (leb from head)) [
        | inr past ↦ rw past refl
        | inl more ↦ rw more (
            after_read-cursor (get_logs_bisect fetch from to)
              (λ logs.
                replay_chunks engine decoders fetch cursor fuel (to + 1) head
                  (replay_logs engine decoders cursor logs s))
              s
              (λ logs.
                replay_chunks-cursor fetch cursor fuel (to + 1) head
                  (replay_logs engine decoders cursor logs s)
                ∙ (replay_logs-missed engine decoders cursor logs s).1))
      ]

  advanced-failed :
      (head : ℕ) (out : Sending × Bool) (s : Sending)
      → out.0.cursor ≡ s.cursor
      → (advanced head out).1 ≡ false
      → (advanced head out).0.cursor ≡ s.cursor
  advanced-failed head (u, true) s same failed = cc
  advanced-failed head (u, false) s same failed = same

  backfill-failed :
      (fetch : List ℕ → ℕ → ℕ → Option (List Log)) (cursor : Cursor) (head : ℕ) (s : Sending)
      → (backfill engine decoders fetch cursor head s).1 ≡ false
      → (backfill engine decoders fetch cursor head s).0.cursor ≡ s.cursor
  unfolding backfill
  backfill-failed fetch cursor head s failed =
      let from = first_block cursor in
      elim (Bool-cases (ltb head from)) [
        | inl none_left ↦ rw none_left refl
        | inr left ↦ elim (Bool-cases (ltb max_backfill_blocks (head - from))) [
          | inl far ↦ absurd (cc (rw (left, far) at failed))
          | inr near ↦
              rw (left, near)
                (advanced-failed head _ s
                  (replay_chunks-cursor (fetch (keys engine.by_address)) cursor (head + 2 - from)
                    from head s)
                  (rw (left, near) at failed))
        ]
      ]

  catch_up-failed :
      (cursor : Cursor) (known : Option ℕ) (s : Sending)
      → (catch_up engine decoders conn (some cursor) known s).1 ≡ false
      → (catch_up engine decoders conn (some cursor) known s).0.cursor ≡ s.cursor
  catch_up-failed cursor none s failed = refl
  catch_up-failed cursor (some head) s failed = backfill-failed conn.fetch cursor head s failed

  then_stream-failed :
      (items : List Item) (out : Sending × Bool)
      → out.1 ≡ false
      → then_stream engine decoders items out ≡ out.0
  then_stream-failed items (u, true) failed = cc
  then_stream-failed items (u, false) failed = refl

  run_once-failed :
      (cursor : Cursor) (s : Sending)
      → s.cursor ≡ some cursor
      → (catch_up engine decoders conn (some cursor) conn.head s).1 ≡ false
      → (run_once engine decoders conn s).cursor ≡ some cursor
  unfolding run_once
  run_once-failed cursor s at failed = elim (Bool-cases conn.connects) [
    | inr down ↦ rw down at
    | inl up ↦
        let caught = λ (c : Option Cursor). catch_up engine decoders conn c conn.head s in
        let streamed = λ (c : Option Cursor). then_stream engine decoders conn.items (caught c) in
        ap (λ (b : Bool). (if b then streamed s.cursor else s).cursor) up
        ∙ ap (λ (c : Option Cursor). (streamed c).cursor) at
        ∙ ap (λ (u : Sending). u.cursor)
            (then_stream-failed conn.items (caught (some cursor)) failed)
        ∙ catch_up-failed cursor conn.head s failed
        ∙ at
  ]

  then_stream-through :
      (items : List Item) (out : Sending × Bool)
      → out.1 ≡ true
      → then_stream engine decoders items out ≡ run_stream engine decoders items out.0
  then_stream-through items (u, true) fine = refl
  then_stream-through items (u, false) fine = cc

  -- The live loop over the items starts with the head as the cursor and these events.
  abbrev pub Streams : List Item → ℕ → List IngestEvent → Sending → Type 0
  Streams items head events out =
      (u : Sending) × (u.cursor ≡ some (head, u64_max))
      × (u.events ≡ events)
      × (out ≡ run_stream engine decoders items u)

  -- A connection whose backfill fails leaves the cursor where it was. When the next one is made, reads on
  -- it that succeed return the logs of their range, reads of single blocks succeed, the logs of a block
  -- carry its number, and the head is neither before the cursor's block nor more than 3,000 blocks after
  -- it, then its live loop starts, whatever items follow, with the head marked as complete and with
  -- all that was missed since the cursor sent after whatever the failed one had sent.
  pub run-retried :
      (logs : ℕ → ℕ → List Log) (cursor : Cursor) (head : ℕ) (s : Sending)
      → s.cursor ≡ some cursor
      → (catch_up engine decoders conn (some cursor) conn.head s).1 ≡ false
      → good.connects ≡ true
      → good.head ≡ some head
      → Honest (good.fetch (keys engine.by_address)) logs
      → ((a : ℕ) → OfBlock a (logs a a))
      → cursor.0 ≤ head
      → head - cursor.0 ≤ 3_000
      → ((run_once engine decoders conn s).cursor ≡ some cursor)
        × Streams good.items head
            ((run_once engine decoders conn s).events
              ++ missed engine decoders cursor (logs cursor.0 head))
            (run engine decoders (conn ∷ good ∷ []) s)
  unfolding run
  run-retried logs cursor head s at failed connects known honest numbered le near =
      let after = run_once engine decoders conn s in
      let still = run_once-failed cursor s at failed in
      let (fine, moved, sent) =
        backfill-missed engine decoders good.fetch logs cursor head after honest numbered still le
          near in
      let out = backfill engine decoders good.fetch cursor head after in
      let through : run_once engine decoders good after
          ≡ run_stream engine decoders good.items out.0 =
        unfold run_once in rw (connects, still, known) (then_stream-through good.items out fine) in
      (still, (out.0, moved, sent, through))

-- `Filter::address`: the logs of the addresses.
abbrev pub matching : List ℕ → List Log → List Log
matching addresses [] = []
matching addresses (log ∷ logs) =
    if contains addresses log.address
    then log ∷ matching addresses logs
    else matching addresses logs

matching-none :
    (addresses : List ℕ) (logs : List Log)
    → contains addresses univ4_pool_manager ≡ false
    → All (λ log. log.address ≡ univ4_pool_manager) logs
    → matching addresses logs ≡ []
matching-none addresses [] h all = refl
matching-none addresses (log ∷ logs) h (at, all) =
    let other : contains addresses log.address ≡ false = rw at h in
    rw other (matching-none addresses logs h all)

-- The logs of V4 pools are not replayed: when the node answers with the logs of the addresses that it
-- is asked for, the manager's address is not a registered one, and all the logs of the gap are the
-- manager's, the backfill sends nothing, and still marks the head as complete.
pub v4_logs-lost :
    (engine : Engine) (decoders : EventDecoders) (fetch : List ℕ → ℕ → ℕ → Option (List Log))
    (chain : ℕ → ℕ → List Log) (cursor : Cursor) (head : ℕ) (s : Sending)
    → Honest (fetch (keys engine.by_address)) (λ a b. matching (keys engine.by_address) (chain a b))
    → contains (keys engine.by_address) univ4_pool_manager ≡ false
    → All (λ log. log.address ≡ univ4_pool_manager) (chain (first_block cursor) head)
    → first_block cursor ≤ head
    → head - first_block cursor ≤ max_backfill_blocks
    → ((backfill engine decoders fetch cursor head s).0.events ≡ s.events)
      × ((backfill engine decoders fetch cursor head s).0.cursor ≡ some (head, u64_max))
v4_logs-lost engine decoders fetch chain cursor head s honest unregistered v4 le near =
    let asked = keys engine.by_address in
    let (fine, moved, sent) =
      backfill-range engine decoders fetch (λ a b. matching asked (chain a b)) cursor head s honest
        le near in
    let none_left = matching-none asked (chain (first_block cursor) head) unregistered v4 in
    ((rw none_left at sent) ∙ append_nil s.events, moved)
