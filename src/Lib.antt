-- ===== src/Lib.antt =====
-- robinarb, a cyclic-arbitrage searcher in Rust: pools are loaded into a registry, routes (cycles of
-- two or three pools from an anchor token) are enumerated once, an ingest pipeline turns logs of the
-- chain into batches of changed pools after prefetching the storage words that their routes read, an
-- evaluator quotes the routes of the changed pools with exact integer swap arithmetic, subtracts the
-- gas and emits opportunities, and an executor sends them.
--
-- Files and code:
-- - Base: shared names. Base/Int: signed integers and their Rust operations. Base/Word: U256 and u32
--   arithmetic with its wrap-around, and `Run`, a result or a panic. Base/Bits: masks and bits.
--   Base/Lists, Base/Tests: lists and Boolean tests over the native numbers.
-- - Engine: src/engine (tags, pool metadata, registry). Engine/Registry: what its constructor accepts.
-- - Routing, Routing/Store, Routing/Graph: src/routing/types.rs, store.rs and graph.rs.
--   Graph/Cycle, Sound, Build and Bound: the routes found and their number. Store/Index: the
--   reverse index.
-- - Routing/Optimizer: src/routing/optimizer.rs, with Optimizer/Profit: what an opportunity implies.
-- - Routing/Evaluator: src/routing/evaluator.rs. Candidates and Emission: its properties.
-- - State: src/state.rs (memo, tick cache, read recipes, prefetch). State/Prefetch and
--   State/Neighborhood: what a prefetch leaves. State/Windows: tick windows. State/TickReader: the
--   reader of ticks. State/Plans: the read recipes. State/TickResync: the loop that centres tick
--   windows again.
-- - Math/V2, Math/V3, Math/AeroStable, Math/Quote: src/math/v2.rs, v3.rs, aero_stable.rs, mod.rs.
-- - Ingest/SlotLayout: src/ingest/slot_layout.rs, with SlotLayout/Discovery: the probing of a pool's
--   storage layout (Scans, Mapping, Agreement: what a layout that is found agrees with).
--   Ingest/Pipeline: src/ingest/pipeline.rs, with the events of backend.rs. Ingest/Multicall: src/ingest/multicall.rs,
--   with Multicall/Aggregate: the batches of calls. Ingest/Backend: the rest of src/ingest/backend.rs.
-- - Ingest/RpcBackend: src/ingest/rpc_backend.rs; Stream and InOrder: its live loop, Backfill: the replay
--   of missed blocks. Ingest/Discovery: src/ingest/discovery.rs; Resumed: interrupted scans.
--   Ingest/Bootstrap: the filter and the indices of src/ingest/bootstrap.rs. Ingest/Fees and
--   Ingest/FeeProbe: src/ingest/fees.rs and fee_probe.rs.
-- - Gas: src/gas/gas_station.rs. Executor/Encoder: src/executor/encoder.rs. Executor/Nonce:
--   src/executor/nonce.rs. Executor/Sender: the moves of one submission of src/executor/sender.rs.
--   Sender/System: its loop and all tasks, interleaved, as a step relation. Sender/Moves, Exclusive,
--   Suppressed, Nonces and Ends: its properties.
-- - Base/Answer: a result, an error or a panic, for code that answers with `Result`.
-- The Tests modules run the definitions on concrete inputs.
--
-- Conventions. Addresses, tokens, pool ids, pool indices and 256-bit words are natural numbers. The
-- profile is a release build, in which integer arithmetic wraps; U256 wraps in every build, and its
-- division panics at zero. A tick is an unbounded integer (a pool's ticks are i24, far from the ends of
-- i32), a tick spacing a natural number. Maps are functions from keys to options or lists of
-- entries in the order of insertion; a loop over a hash map takes its entries in a given order.
-- Stacks that the code pushes before a recursive call and pops after it are arguments of the call.
--
-- Parameters: the crate uniswap_v3_math (`SwapMath`), the hash keccak256, the answers of the node
-- (`Words`, `fetch`, the connections of the backend, the views of a pool, simulated transfers), the
-- decoding of events and answers, what the outside answers to a task between its moves, the ranking
-- of edges by an f64 liquidity, and the f64 conversions and factors of prices and fees.
--
-- Fuel and bounds: the tick walk counts down the 1024 rounds of the code's own guard; the Newton
-- iteration its 255 rounds; the search for routes the hops that `max_hops` leaves; the bisection of a
-- range of blocks takes the length of the range, and each half is shorter; the replay of missed blocks
-- and the scan of a factory the number of blocks and one more; the batches of calls the number of
-- calls; the run of one task of the sender takes 14 moves, one to take a nonce, one to send, one after
-- the lanes and eleven for the receipt.
--
-- Not modelled: f64 quotes and sizing, network I/O (lanes, RPC polling, prices), the ABI bindings, the
-- command line tools, counters and logging, the sender's constructor and results file, the hydration
-- passes of the bootstrap; and not yet the loader, the checks of the configuration and the
-- evaluator's loop.
pub mod Base
pub mod Engine
pub mod Executor
pub mod Gas
pub mod Ingest
pub mod Math
pub mod Routing
pub mod State
