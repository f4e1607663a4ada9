-- ===== src/Ingest/RpcBackend.antt =====
-- src/ingest/rpc_backend.rs: the cursor over the logs, the live streams, the backfill after a reconnect
-- and the reconnect loop. What a connection gives is a parameter. The pipeline keeps the receiving end
-- of the channel, so a send does not fail; block numbers are far below 2^64.
pub mod Stream
pub mod InOrder
pub mod Backfill
mod Tests
use robinarb.Base.{
  ℕ, zero, suc, ◌+◌, ◌-◌, ◌^◌, min, Bool, true, false, ◌&&◌, ◌||◌, List, [], ◌∷◌, ◌++◌, Option,
  none, some, ltb, leb, ◌==◌, if◌then◌else◌,
}
use robinarb.Base.Int.{ℤ}
use robinarb.Engine.{Engine, keys}
use robinarb.Ingest.Pipeline.{IngestEvent, new_head, pool_log, resync}
use robinarb.Ingest.Multicall.{get_logs_bisect}
use robinarb.Ingest.Backend.{Log, EventDecoders, decode_touched_ticks, resolve}

abbrev pub max_backfill_blocks : ℕ
max_backfill_blocks = 3_000

abbrev pub backfill_chunk : ℕ
backfill_chunk = 200

abbrev pub u64_max : ℕ
u64_max = 2 ^ 64 - 1

-- A block and a log index in it; `u64_max` marks the whole block.
abbrev pub Cursor : Type 0
Cursor = ℕ × ℕ

abbrev pub lt_cursor : Cursor → Cursor → Bool
lt_cursor (a, i) (b, j) = ltb a b || (a == b && ltb i j)

abbrev pub le_cursor : Cursor → Cursor → Bool
le_cursor (a, i) (b, j) = ltb a b || (a == b && leb i j)

-- The cursor, and what went into the channel, oldest first, with the positions of its logs.
pub record Sending : Type 0 where
  pub cursor : Option Cursor
  pub events : List IngestEvent
  pub positions : List Cursor

-- What the select of the live loop yields; the end of a stream or the watchdog ends the list.
pub data Item : Type 0 where
  header : (number base_fee_per_gas : ℕ) → Item
  log_item : Log → Item

-- One connection: whether the subscriptions succeed, the head then, the reads of the logs of some
-- addresses between two blocks, and the items until it breaks.
pub record Connection : Type 0 where
  pub connects : Bool
  pub head : Option ℕ
  pub fetch : List ℕ → ℕ → ℕ → Option (List Log)
  pub items : List Item

abbrev pub or_default : Option ℕ → ℕ → ℕ
or_default none d = d
or_default (some n) d = n

abbrev pub log_position : Log → Cursor
log_position log = (or_default log.block_number 0, or_default log.log_index u64_max)

-- `cursor.is_none_or(|c| c < complete)`
abbrev pub is_below : Option Cursor → Cursor → Bool
is_below none complete = true
is_below (some c) complete = lt_cursor c complete

-- `cursor.is_some_and(|c| pos <= c)`
abbrev pub is_seen : Option Cursor → Cursor → Bool
is_seen none pos = false
is_seen (some c) pos = le_cursor pos c

-- What went out, and whether every read succeeded.
abbrev pub after_read : Option (List Log) → (List Log → Sending × Bool) → Sending → Sending × Bool
after_read none go s = (s, false)
after_read (some logs) go s = go logs

-- The first block to replay.
abbrev pub first_block : Cursor → ℕ
first_block (cblock, cidx) = if cidx == u64_max then cblock + 1 else cblock

-- The new cursor, unless a read fails.
abbrev pub advanced : ℕ → Sending × Bool → Sending × Bool
advanced head (s, true) = (record s { cursor = some (head, u64_max) }, true)
advanced head (s, false) = (s, false)

module _ (engine : Engine) (decoders : EventDecoders) where
  unfoldable pub event_of : Log → ℕ → IngestEvent
  event_of log idx =
      pool_log (or_default log.block_number 0) idx (decode_touched_ticks decoders log)

  unfoldable pub send_log : Log → ℕ → Sending → Sending
  send_log log idx s = record s {
    events = s.events ++ event_of log idx ∷ [];
    positions = s.positions ++ log_position log ∷ [];
  }

  unfoldable pub on_header : ℕ → ℕ → Sending → Sending
  on_header number base_fee s =
      let complete : Cursor = (number - 1, u64_max) in
      record s {
        cursor = if is_below s.cursor complete then some complete else s.cursor;
        events = s.events ++ new_head number base_fee ∷ [];
      }

  abbrev pub on_resolved : Log → Option ℕ → Sending → Sending
  on_resolved log none s = s
  on_resolved log (some idx) s =
      if is_seen s.cursor (log_position log)
      then s
      else send_log log idx (record s { cursor = some (log_position log) })

  unfoldable pub on_item : Item → Sending → Sending
  on_item (header number base_fee) s = on_header number base_fee s
  on_item (log_item log) s = on_resolved log (resolve engine log) s

  unfoldable pub run_stream : List Item → Sending → Sending
  run_stream [] s = s
  run_stream (item ∷ items) s = run_stream items (on_item item s)

  -- A log that is replayed moves no cursor.
  abbrev pub replay_resolved : Cursor → Log → Option ℕ → Sending → Sending
  replay_resolved cursor log none s = s
  replay_resolved cursor log (some idx) s =
      if le_cursor (log_position log) cursor then s else send_log log idx s

  unfoldable pub replay_logs : Cursor → List Log → Sending → Sending
  replay_logs cursor [] s = s
  replay_logs cursor (log ∷ logs) s =
      replay_logs cursor logs (replay_resolved cursor log (resolve engine log) s)

  unfoldable pub replay_chunks :
      (ℕ → ℕ → Option (List Log)) → Cursor → ℕ → ℕ → ℕ → Sending → Sending × Bool
  replay_chunks fetch cursor zero from head s = (s, false)
  replay_chunks fetch cursor (suc fuel) from head s =
      let to = min (from + backfill_chunk - 1) head in
      let rest =
        after_read (get_logs_bisect fetch from to)
          (λ logs. replay_chunks fetch cursor fuel (to + 1) head (replay_logs cursor logs s)) s in
      if leb from head then rest else (s, true)

  -- The reads are of the registered addresses.
  unfoldable pub backfill :
      (List ℕ → ℕ → ℕ → Option (List Log)) → Cursor → ℕ → Sending → Sending × Bool
  backfill fetch cursor head s =
      let from = first_block cursor in
      if ltb head from
      then (s, true)
      else if ltb max_backfill_blocks (head - from)
      then advanced head (record s { events = s.events ++ resync ∷ [] }, true)
      else advanced head
          (replay_chunks (fetch (keys engine.by_address)) cursor (head + 2 - from) from head s)

  -- The live loop, unless the backfill failed.
  abbrev pub then_stream : List Item → Sending × Bool → Sending
  then_stream items (s, true) = run_stream items s
  then_stream items (s, false) = s

  -- The first connection asks for a resync, a later one for the blocks since the cursor.
  abbrev pub catch_up : Connection → Option Cursor → Option ℕ → Sending → Sending × Bool
  catch_up conn none head s = (record s { events = s.events ++ resync ∷ [] }, true)
  catch_up conn (some c) none s = (s, false)
  catch_up conn (some c) (some head) s = backfill conn.fetch c head s

  unfoldable pub run_once : Connection → Sending → Sending
  run_once conn s =
      if conn.connects then then_stream conn.items (catch_up conn s.cursor conn.head s) else s

  -- The reconnect loop, over the connections that it makes.
  unfoldable pub run : List Connection → Sending → Sending
  run [] s = s
  run (conn ∷ conns) s = run conns (run_once conn s)
