-- ===== src/Ingest/RpcBackend/Tests.antt =====
-- A registered pool with a log in block 5, and a gap from block 3 to block 8.
use mathlib.Core.Option.{some-injective}
use robinarb.Base.{
  ℕ, ◌+◌, ◌≤◌, ◌<◌, ◌≡◌, refl, sym, ap, ◌∙◌, arith, true, false, ◌&&◌, List, [], ◌∷◌, ◌++◌, Option,
  none, some, leb, if◌then◌else◌, Bool-cases, inl, inr,
}
use robinarb.Engine.{Engine, uni_v2_fork, keys}
use robinarb.Engine.Registry.{registry_of}
use robinarb.Ingest.Pipeline.{new_head, pool_log}
use robinarb.Ingest.Multicall.{Honest, get_logs_bisect, bisect}
use robinarb.State.Plans.{univ4_pool_manager}
use robinarb.Ingest.Backend.{Log, EventDecoders, resolve, decode_touched_ticks}
use robinarb.Ingest.RpcBackend.{
  u64_max, Sending, Item, header, log_item, Connection, backfill, catch_up, event_of, send_log,
  replay_chunks, on_item, on_header, run_stream, run_once, run,
}
use robinarb.Ingest.RpcBackend.Stream.{IsAscending, run_stream-IsAscending, late_log-dropped}
use robinarb.Ingest.RpcBackend.InOrder.{all_events, run_stream-All}
use robinarb.Ingest.RpcBackend.Backfill.{
  missed, matching, OfBlock, Streams, backfill-missed, run-retried, v4_logs-lost,
}

abbrev engine : Engine
engine = registry_of (
    record {
      idx = 0;
      address = 11;
      dex = uni_v2_fork;
      factory = 0;
      token0 = 100;
      token1 = 200;
      dec0 = 18;
      dec1 = 6;
      fee_bps = 30;
      fee_pips = 3_000;
      tick_spacing = 1;
      v4 = none;
    }
    ∷ [])

abbrev decoders : EventDecoders
decoders = record { mint = λ l. none; burn = λ l. none; modify_liquidity = λ l. none }

abbrev log_at : ℕ → ℕ → Log
log_at address block = record {
  address = address;
  topics = [];
  block_number = some block;
  log_index = some 2;
}

-- The chain has one log, in block 5.
abbrev chain : ℕ → ℕ → ℕ → List Log
chain address a b = if leb a 5 && leb 5 b then log_at address 5 ∷ [] else []

abbrev fetch : List ℕ → ℕ → ℕ → Option (List Log)
fetch addresses a b = some (chain 11 a b)

chain-joined :
    (address a m b : ℕ)
    → a ≤ m
    → m < b
    → chain address a m ++ chain address (m + 1) b ≡ chain address a b
chain-joined address a m b h k = ground arith

chain-OfBlock : (address a : ℕ) → OfBlock a (chain address a a)
chain-OfBlock address a = elim (Bool-cases (leb a 5 && leb 5 a)) [
  | inr other ↦ rw other tt
  | inl here ↦ rw here (ground arith, tt)
]

fetch-Honest : (addresses : List ℕ) → Honest (fetch addresses) (chain 11)
fetch-Honest addresses = record {
  exact = λ a b l h. sym (some-injective _ _ h);
  single = λ a. refl;
  joined = chain-joined 11;
}

abbrev sending : Sending
sending = record { cursor = some (3, 0); events = []; positions = [] }

abbrev items : List Item
items = header 5 100 ∷ log_item (log_at 11 5) ∷ header 6 100 ∷ log_item (log_at 12 6) ∷ []

run_stream-IsAscending_example :
    IsAscending
      (some (3, 0))
      (run_stream engine decoders items sending).positions
      (run_stream engine decoders items sending).cursor
run_stream-IsAscending_example = run_stream-IsAscending engine decoders items sending refl

run_stream-All_example :
    (run_stream engine decoders items sending).events ≡ all_events engine decoders items
run_stream-All_example =
    run_stream-All engine decoders items sending
      (
        (((omega arith, omega arith), (tt, ((omega arith, omega arith), tt)))),
        ((tt, (refl, tt)), (((omega arith, omega arith), tt), (tt, tt))),
      )
      (tt, (refl, (tt, (refl, tt))))

streamed :
    (run_stream engine decoders items sending).events
    ≡ new_head 5 100 ∷ pool_log 5 0 none ∷ new_head 6 100 ∷ []
unfolding run_stream on_item on_header resolve send_log event_of decode_touched_ticks
streamed = refl

late_log-dropped_example :
    run_stream engine decoders
      (header 6 100 ∷ log_item (log_at 12 6) ∷ header 7 100 ∷ log_item (log_at 11 5) ∷ [])
      sending
    ≡ run_stream engine decoders (header 6 100 ∷ log_item (log_at 12 6) ∷ header 7 100 ∷ []) sending
late_log-dropped_example =
    late_log-dropped engine decoders 6 100 (log_item (log_at 12 6) ∷ header 7 100 ∷ [])
      (log_at 11 5) sending (omega arith) (omega arith)

backfill-missed_example :
    ((backfill engine decoders fetch (3, 0) 8 sending).1 ≡ true)
    × ((backfill engine decoders fetch (3, 0) 8 sending).0.cursor ≡ some (8, u64_max))
    × ((backfill engine decoders fetch (3, 0) 8 sending).0.events
        ≡ missed engine decoders (3, 0) (chain 11 3 8))
backfill-missed_example =
    backfill-missed engine decoders fetch (chain 11) (3, 0) 8 sending
      (fetch-Honest (keys engine.by_address)) (chain-OfBlock 11) refl (omega arith) (omega arith)

missed_one : missed engine decoders (3, 0) (chain 11 3 8) ≡ pool_log 5 0 none ∷ []
unfolding resolve event_of decode_touched_ticks
missed_one = refl

-- A connection on which no read succeeds, and one on which all do.
abbrev broken : Connection
broken = record { connects = true; head = some 7; fetch = λ addresses a b. none; items = [] }

abbrev good : Connection
good = record { connects = true; head = some 8; fetch = fetch; items = header 9 100 ∷ [] }

fails : (catch_up engine decoders broken (some (3, 0)) broken.head sending).1 ≡ false
unfolding backfill replay_chunks get_logs_bisect bisect
fails = refl

run-retried_example :
    ((run_once engine decoders broken sending).cursor ≡ some (3, 0))
    × Streams engine decoders broken good
        (header 9 100 ∷ [])
        8
        ((run_once engine decoders broken sending).events
          ++ missed engine decoders (3, 0) (chain 11 3 8))
        (run engine decoders (broken ∷ good ∷ []) sending)
run-retried_example =
    run-retried engine decoders broken good (chain 11) (3, 0) 8 sending refl fails refl refl
      (fetch-Honest (keys engine.by_address)) (chain-OfBlock 11) (omega arith) (omega arith)

-- The one log is of the manager of the V4 pools; the node answers for the addresses it is asked for.
abbrev asked_only : List ℕ → ℕ → ℕ → Option (List Log)
asked_only addresses a b = some (matching addresses (chain univ4_pool_manager a b))

abbrev none_of : ℕ → ℕ → List Log
none_of a b = matching (keys engine.by_address) (chain univ4_pool_manager a b)

none_of-nil : (a b : ℕ) → none_of a b ≡ []
none_of-nil a b = elim (Bool-cases (leb a 5 && leb 5 b)) [
  | inl inside ↦ rw inside refl
  | inr outside ↦ rw outside refl
]

asked_only-Honest : Honest (asked_only (keys engine.by_address)) none_of
asked_only-Honest = record {
  exact = λ a b l h. sym (some-injective _ _ h);
  single = λ a. refl;
  joined = λ a m b h k.
      ap (λ (xs : List Log). xs ++ none_of (m + 1) b) (none_of-nil a m)
      ∙ none_of-nil (m + 1) b
      ∙ sym (none_of-nil a b);
}

v4_logs-lost_example :
    ((backfill engine decoders asked_only (3, 0) 8 sending).0.events ≡ [])
    × ((backfill engine decoders asked_only (3, 0) 8 sending).0.cursor ≡ some (8, u64_max))
v4_logs-lost_example =
    v4_logs-lost engine decoders asked_only (chain univ4_pool_manager) (3, 0) 8 sending
      asked_only-Honest refl (refl, tt) (omega arith) (omega arith)
