-- ===== src/Ingest/Pipeline.antt =====
-- src/ingest/pipeline.rs: events in, prefetches and batches of changed pools out. The queue that asks
-- for a wider tick window is left out: it is lossy and nothing here reads it.
pub mod Announced
mod Tests
use robinarb.Base.{
  ℕ, zero, suc, ◌+◌, Bool, true, false, ◌&&◌, List, [], ◌∷◌, ◌++◌, Option, none, some, ltb, max,
  length, if◌then◌else◌,
}
use robinarb.Base.Int.{ℤ}
use robinarb.Base.Word.{Run, done, ◌>>=◌}
use robinarb.Engine.{Engine, PoolMeta, meta, set_head}
use robinarb.Gas.{GasStation, on_new_head}
use robinarb.Routing.Store.{RouteStore}
use robinarb.State.{
  ChainState, SlotPlan, v2_packed, v2_two_slot, cl, Words, plan, add, pool_slots, prefetch,
  advance_to, advance_and_prefetch,
}
use robinarb.State.Windows.{patch_cl_ticks}

pub data IngestEvent : Type 0 where
  new_head : (number base_fee_per_gas : ℕ) → IngestEvent
  pool_log : (block idx : ℕ) → (touched_ticks : Option (ℤ × ℤ)) → IngestEvent
  resync : IngestEvent

-- What `recv` with the quiet time-out gives; the closed channel ends the list.
pub data Input : Type 0 where
  event : IngestEvent → Input
  quiet : Input

pub record Batch : Type 0 where
  pub block : ℕ
  pub pools : List ℕ

-- The variables of the loop, the shared objects that it changes, and the batches sent.
pub record Pipeline : Type 0 where
  pub open_block : ℕ
  pub dirty : List ℕ
  pub have_open : Bool
  pub chain : ChainState
  pub engine : Engine
  pub gas : GasStation
  pub sent : List Batch

-- Every pool of the registry, by index.
abbrev pub up_to : ℕ → ℕ → List ℕ
up_to zero i = []
up_to (suc n) i = i ∷ up_to n (i + 1)

module _ (keccak256 : List ℕ → ℕ) (store : RouteStore) where
  -- The part of `seal` after its guard.
  abbrev pub send_dirty : Words → Pipeline → Run Pipeline
  send_dirty rpc p = do
    chain ← advance_and_prefetch rpc store p.open_block p.dirty p.chain
    let batch : Batch = record { block = p.open_block; pools = p.dirty }
    done (record p { chain = chain; dirty = []; sent = p.sent ++ batch ∷ [] })

  abbrev pub seal_list : Words → Pipeline → List ℕ → Run Pipeline
  seal_list rpc p [] = done p
  seal_list rpc p (d ∷ ds) = send_dirty rpc p

  unfoldable pub seal : Words → Pipeline → Run Pipeline
  seal rpc p = seal_list rpc p p.dirty

  abbrev pub seal_if : Bool → Words → Pipeline → Run Pipeline
  seal_if true rpc p = seal rpc p
  seal_if false rpc p = done p

  -- `patch_cl_ticks` for a log that touched ticks of a pool with a tick plan.
  abbrev pub patch : Words → ℕ → Option (ℤ × ℤ) → Option SlotPlan → Pipeline → Run Pipeline
  patch rpc idx (some (lo, hi)) (some (cl c)) p = do
    m ← meta p.engine idx
    chain ←
        patch_cl_ticks keccak256 rpc c.addr c.ticks_base c.bitmap_base m.tick_spacing (lo ∷ hi ∷ [])
          p.chain
    done (record p { chain = chain })
  patch rpc idx _ _ p = done p

  unfoldable pub on_head : Words → ℕ → ℕ → Pipeline → Run Pipeline
  on_head rpc number base_fee p = do
    p' ← seal_if (p.have_open && ltb p.open_block number) rpc p
    done (record p' {
      gas = on_new_head base_fee p'.gas;
      engine = set_head number p'.engine;
      open_block = number;
      have_open = true;
    })

  -- A log of a later block opens it, after the seal of the open one.
  abbrev pub open_for : Words → ℕ → Pipeline → Run Pipeline
  open_for rpc block p =
      if ltb p.open_block block
      then (do
        p' ← seal_if p.have_open rpc p
        done (record p' { open_block = block; have_open = true }))
      else done p

  unfoldable pub on_log : Words → ℕ → ℕ → Option (ℤ × ℤ) → Pipeline → Run Pipeline
  on_log rpc block idx touched_ticks p = do
    p' ← open_for rpc block p
    let p'' = record p' { dirty = add p'.dirty idx }
    patch rpc idx touched_ticks (plan p''.chain idx) p''

  unfoldable pub resync_all : Words → Pipeline → Pipeline
  resync_all rpc p =
      let block = max p.open_block p.engine.head_block in
      let all = up_to (length p.engine.metas) 0 in
      let moved = advance_to block p.chain in
      let batch : Batch = record { block = block; pools = all } in
      record p { chain = prefetch rpc (pool_slots moved all) moved; sent = p.sent ++ batch ∷ [] }

  unfoldable pub on_event : Words → IngestEvent → Pipeline → Run Pipeline
  on_event rpc (new_head number base_fee) p = on_head rpc number base_fee p
  on_event rpc (pool_log block idx ticks) p = on_log rpc block idx ticks p
  on_event rpc resync p = done (resync_all rpc p)

  abbrev pub quiet_if : Bool → Words → Pipeline → Run Pipeline
  quiet_if true rpc p = do p' ← seal rpc p; done (record p' { have_open = false })
  quiet_if false rpc p = done p

  -- The time-out runs only while a block is open.
  unfoldable pub on_quiet : Words → Pipeline → Run Pipeline
  on_quiet rpc p = quiet_if p.have_open rpc p

  abbrev pub on_input : Words → Input → Pipeline → Run Pipeline
  on_input rpc (event e) p = on_event rpc e p
  on_input rpc quiet p = on_quiet rpc p

  -- Each input with the answers of the chain at its time.
  unfoldable pub run_inputs : List (Words × Input) → Pipeline → Run Pipeline
  run_inputs [] p = done p
  run_inputs ((rpc, input) ∷ inputs) p = do p' ← on_input rpc input p; run_inputs inputs p'

  -- The loop until the channel closes, and the last seal.
  unfoldable pub run_pipeline : List (Words × Input) → Words → Pipeline → Run Pipeline
  run_pipeline inputs rpc p = do p' ← run_inputs inputs p; seal_if p'.have_open rpc p'
