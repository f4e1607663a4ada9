-- ===== src/Ingest/Pipeline/Tests.antt =====
-- A head, a log of a new block, and the close of the channel.
use robinarb.Base.{ℕ, ◌+◌, ◌≡◌, refl, true, false, not, ◌||◌, List, [], ◌∷◌, none}
use robinarb.Base.Word.{done}
use robinarb.Gas.{on_new_head}
use robinarb.Routing.Store.{build, routes_for_pool}
use robinarb.State.{Words, advance_and_prefetch, prefetch_neighborhood, prefetch_into, advance_to}
use robinarb.Ingest.Pipeline.{
  Input, event, quiet, new_head, pool_log, Pipeline, run_pipeline, run_inputs, on_event, on_head,
  on_log, on_quiet, seal,
}
use robinarb.Ingest.Pipeline.Announced.{kept, announced, run_pipeline-announces}

abbrev sum : List ℕ → ℕ
sum [] = 0
sum (x ∷ xs) = x + sum xs

abbrev no_answers : Words
no_answers a s = none

abbrev start : Pipeline
start = record {
  open_block = 0;
  dirty = [];
  have_open = false;
  chain = record { tip = 0; memo = λ a s. none; tick_cache = λ a s. none; plans = [] };
  engine = record { metas = []; by_address = []; head_block = 0 };
  gas = record { base_fee = 0; per_l1_calldata_unit = 0; min_prio = 0; max_prio = 0 };
  sent = [];
}

abbrev inputs : List (Words × Input)
inputs =
    (no_answers, event (new_head 5 100))
    ∷ (no_answers, event (pool_log 6 3 none))
    ∷ (no_answers, quiet)
    ∷ []

abbrev end : Pipeline
end = record {
  open_block = 6;
  dirty = [];
  have_open = false;
  chain = record { tip = 6; memo = λ a s. none; tick_cache = λ a s. none; plans = [] };
  engine = record { metas = []; by_address = []; head_block = 5 };
  gas = record { base_fee = 100; per_l1_calldata_unit = 0; min_prio = 0; max_prio = 0 };
  sent = record { block = 6; pools = 3 ∷ [] } ∷ [];
}

ends_there : run_pipeline sum (build [] 4) inputs no_answers start ≡ done end
unfolding run_pipeline run_inputs on_event on_head on_log seal on_quiet advance_and_prefetch
    prefetch_neighborhood routes_for_pool build prefetch_into on_new_head advance_to
ends_there = refl

run_pipeline-announces_example :
    (kept end 3 ≡ true) × ((not end.have_open || announced end.sent 3) ≡ true)
run_pipeline-announces_example =
    run_pipeline-announces sum (build [] 4) inputs no_answers start end 3 ends_there refl

-- A log of the block that the quiet time-out has sealed waits in `dirty`, and the close of the channel
-- leaves it there.
late_log :
    run_pipeline sum (build [] 4) ((no_answers, event (pool_log 6 2 none)) ∷ []) no_answers end
    ≡ done (record end { dirty = 2 ∷ [] })
unfolding run_pipeline run_inputs on_event on_log
late_log = refl
