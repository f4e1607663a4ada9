-- ===== src/State/TickResync.antt =====
-- src/state.rs: the hydration of all tick windows, of one pool's, and the loop that hydrates the windows
-- of the pools on a queue. What the loop receives is a parameter: a pool, or the end of the batch
-- window with nothing new. The hydrations of one batch run in the order of the batch.
mod Tests
use robinarb.Base.{ℕ, List, [], ◌∷◌, ◌++◌, Option, none, some}
use robinarb.Base.Word.{Run, done, ◌>>=◌}
use robinarb.Engine.{Engine, PoolMeta, meta}
use robinarb.State.{ChainState, SlotPlan, v2_packed, v2_two_slot, cl, ClPlan, Words, plan, add}
use robinarb.State.Windows.{prefetch_cl_tick_windows}

abbrev pub bootstrap_tick_word_range : ℕ
bootstrap_tick_word_range = 64

-- The plan of a pool that has ticks.
abbrev pub with_ticks : Option SlotPlan → ℕ → List (SlotPlan × ℕ) → List (SlotPlan × ℕ)
with_ticks none spacing rest = rest
with_ticks (some (v2_packed a s)) spacing rest = rest
with_ticks (some (v2_two_slot a s)) spacing rest = rest
with_ticks (some (cl p)) spacing rest = (cl p, spacing) ∷ rest

abbrev pub tick_plans : ChainState → List PoolMeta → List (SlotPlan × ℕ)
tick_plans st [] = []
tick_plans st (m ∷ ms) = with_ticks (plan st m.idx) m.tick_spacing (tick_plans st ms)

pub data Signal : Type 0 where
  arrived : ℕ → Signal
  elapsed : Signal

-- The variables of the loop, the state that it hydrates, and the batches so far.
pub record Resync : Type 0 where
  pub pending : List ℕ
  pub chain : ChainState
  pub batches : List (List ℕ)

module _ (keccak256 : List ℕ → ℕ) (engine : Engine) where
  unfoldable pub hydrate_all_ticks : Words → ChainState → Run ChainState
  hydrate_all_ticks rpc st =
      prefetch_cl_tick_windows keccak256 rpc (tick_plans st engine.metas) bootstrap_tick_word_range
        st

  unfoldable pub hydrate_cl_ticks_for_pool : Words → SlotPlan → ℕ → ChainState → Run ChainState
  hydrate_cl_ticks_for_pool rpc p tick_spacing st =
      prefetch_cl_tick_windows keccak256 rpc ((p, tick_spacing) ∷ []) bootstrap_tick_word_range st

  abbrev pub hydrate_planned : Words → ℕ → Option SlotPlan → ChainState → Run ChainState
  hydrate_planned rpc idx none st = done st
  hydrate_planned rpc idx (some p) st = do
    m ← meta engine idx
    hydrate_cl_ticks_for_pool rpc p m.tick_spacing st

  unfoldable pub hydrate_batch : Words → List ℕ → ChainState → Run ChainState
  hydrate_batch rpc [] st = done st
  hydrate_batch rpc (idx ∷ rest) st = do
    st' ← hydrate_planned rpc idx (plan st idx) st
    hydrate_batch rpc rest st'

  -- With nothing pending there is no batch.
  abbrev pub flush : Words → List ℕ → Resync → Run Resync
  flush rpc [] r = done r
  flush rpc (idx ∷ rest) r = do
    chain ← hydrate_batch rpc (idx ∷ rest) r.chain
    done (record { pending = []; chain = chain; batches = r.batches ++ (idx ∷ rest) ∷ [] })

  abbrev pub on_signal : Words → Signal → Resync → Run Resync
  on_signal rpc (arrived idx) r = done (record r { pending = add r.pending idx })
  on_signal rpc elapsed r = flush rpc r.pending r

  unfoldable pub run_signals : List (Words × Signal) → Resync → Run Resync
  run_signals [] r = done r
  run_signals ((rpc, signal) ∷ rest) r = do r' ← on_signal rpc signal r; run_signals rest r'

  -- The loop until the queue is closed, and the last batch.
  unfoldable pub run_tick_resync_loop : List (Words × Signal) → Words → Resync → Run Resync
  run_tick_resync_loop signals rpc r = do r' ← run_signals signals r; flush rpc r'.pending r'
