-- ===== src/Routing/Evaluator/Tests.antt =====
-- Two batches, two routes, and three ranked opportunities.
use robinarb.Base.{All, ℕ, ◌≡◌, refl, arith, true, false, List, [], ◌∷◌, some, contains}
use robinarb.Base.Word.{done}
use robinarb.Routing.{Route}
use robinarb.Routing.Store.{RouteStore, build}
use robinarb.Routing.Evaluator.{
  ChangedBatch, coalesce, candidate_ids, Opportunity, EvaluatedOpportunity, gate, emit,
}
use robinarb.Routing.Evaluator.Candidates.{candidate_ids-touched}
use robinarb.Routing.Evaluator.Emission.{IsServed, Disjoint, emit-Disjoint}

abbrev over : ℕ → ℕ → ℕ → Route
over id p q = record {
  id = id;
  anchor = 100;
  hops =
      record { pool = p; zero_for_one = true; token_in = 100 }
      ∷ record { pool = q; zero_for_one = false; token_in = 200 }
      ∷ [];
}

abbrev routes : List Route
routes = over 0 0 1 ∷ over 1 1 2 ∷ over 2 2 3 ∷ []

abbrev first : ChangedBatch
first = record { block = 5; pools = 0 ∷ []; ts = 40 }

abbrev second : ChangedBatch
second = record { block = 6; pools = 2 ∷ []; ts = 50 }

candidate_ids-touched_example :
    contains (candidate_ids (build routes 4) (coalesce first (second ∷ []))) 1 ≡ true
candidate_ids-touched_example =
    candidate_ids-touched routes 4 first (second ∷ []) 2 1 (over 1 1 2) (refl, (refl, (refl, tt)))
      (omega arith) refl refl refl

abbrev found : ℕ → Opportunity
found id = record { route_id = id; amount_in = 1_000; gross_out = 1_100; gross_profit = 100 }

abbrev paying : ℕ → EvaluatedOpportunity
paying id = record {
  opp = found id;
  net_profit_wei = 70;
  gas_units = 400_000;
  gas_cost_wei = 30;
  priority_fee_wei = 1;
  block = 6;
}

passes : gate (found 0) 6 100 30 50 400_000 30 1 ≡ some (paying 0)
unfolding gate
passes = refl

abbrev store : RouteStore
store = record { routes = routes; by_pool = [] }

drops_shared : emit store [] (paying 0 ∷ paying 1 ∷ paying 2 ∷ []) ≡ done (paying 0 ∷ paying 2 ∷ [])
unfolding emit
drops_shared = refl

emit-Disjoint_example :
    (out : List EvaluatedOpportunity) × (emit store [] (paying 0 ∷ paying 1 ∷ paying 2 ∷ [])
      ≡ done out)
    × Disjoint store out
    × All (IsServed store out) (paying 0 ∷ paying 1 ∷ paying 2 ∷ [])
emit-Disjoint_example =
    emit-Disjoint store (paying 0 ∷ paying 1 ∷ paying 2 ∷ [])
      (omega arith, (omega arith, (omega arith, tt)))
