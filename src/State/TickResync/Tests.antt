-- ===== src/State/TickResync/Tests.antt =====
-- Two pools on the queue, neither of which has a plan.
use robinarb.Base.{ℕ, ◌+◌, ◌≡◌, refl, List, [], ◌∷◌, none}
use robinarb.Base.Word.{done}
use robinarb.Engine.{Engine}
use robinarb.State.{Words}
use robinarb.State.TickResync.{
  Signal, arrived, elapsed, Resync, hydrate_batch, run_signals, run_tick_resync_loop,
}

abbrev sum : List ℕ → ℕ
sum [] = 0
sum (x ∷ xs) = x + sum xs

abbrev silent : Words
silent a s = none

abbrev engine : Engine
engine = record { metas = []; by_address = []; head_block = 0 }

abbrev idle : Resync
idle = record {
  pending = [];
  chain = record { tip = 7; memo = λ a s. none; tick_cache = λ a s. none; plans = [] };
  batches = [];
}

abbrev signals : List (Words × Signal)
signals = (silent, arrived 3) ∷ (silent, arrived 4) ∷ (silent, elapsed) ∷ (silent, arrived 3) ∷ []

abbrev closed : Resync
closed = record idle { batches = (3 ∷ 4 ∷ []) ∷ (3 ∷ []) ∷ [] }

closes : run_tick_resync_loop sum engine signals silent idle ≡ done closed
unfolding run_tick_resync_loop run_signals hydrate_batch
closes = refl
