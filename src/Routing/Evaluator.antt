-- ===== src/Routing/Evaluator.antt =====
-- src/routing/evaluator.rs: the merge of queued batches, the candidate routes, the gas gate and the
-- emission. The f64 conversions between an anchor and wei are parameters, and so are the ranking by
-- spot product and the sizing, which work in f64.
pub mod Candidates
pub mod Emission
mod Tests
use robinarb.Base.{
  ℕ, zero, suc, ◌+◌, ◌-◌, ◌*◌, ◌%◌, ◌^◌, Bool, true, false, ◌||◌, List, [], ◌∷◌, ◌++◌, Option, none,
  some, contains, ltb, leb, max, min, length, ◌==◌, if◌then◌else◌,
}
use robinarb.Base.Word.{Run, done, panic, ◌>>=◌}
use robinarb.Engine.{
  Engine, PoolMeta, DexTag, is_v4, is_v3_family, is_algebra, is_aero_stable, meta,
}
use robinarb.Gas as Gas
use robinarb.Gas.{GasStation, HopGasKind, route_gas_units, priority_fee, total_gas_cost}
use robinarb.Routing.{Hop, Route}
use robinarb.Routing.Store.{RouteStore, routes_for_pool, route}

pub record ChangedBatch : Type 0 where
  pub block : ℕ
  pub pools : List ℕ
  pub ts : ℕ

-- The queued batches are merged into the first: the latest block, the oldest time, all pools.
unfoldable pub coalesce : ChangedBatch → List ChangedBatch → ChangedBatch
coalesce batch [] = batch
coalesce batch (next ∷ queue) =
    coalesce
      (record {
        block = max next.block batch.block;
        pools = batch.pools ++ next.pools;
        ts = min batch.ts next.ts;
      })
      queue

abbrev pub routes_of_pools : RouteStore → List ℕ → List ℕ
routes_of_pools store [] = []
routes_of_pools store (p ∷ ps) = routes_for_pool store p ++ routes_of_pools store ps

abbrev pub insert_sorted : ℕ → List ℕ → List ℕ
insert_sorted x [] = x ∷ []
insert_sorted x (y ∷ ys) = let rest = insert_sorted x ys in if leb x y then x ∷ y ∷ ys else y ∷ rest

abbrev pub sort : List ℕ → List ℕ
sort [] = []
sort (x ∷ xs) = insert_sorted x (sort xs)

-- `dedup`: an element equal to its successor is dropped.
abbrev pub keep_first : ℕ → List ℕ → List ℕ
keep_first x [] = x ∷ []
keep_first x (y ∷ ys) = if x == y then y ∷ ys else x ∷ y ∷ ys

abbrev pub dedup : List ℕ → List ℕ
dedup [] = []
dedup (x ∷ xs) = keep_first x (dedup xs)

unfoldable pub candidate_ids : RouteStore → ChangedBatch → List ℕ
candidate_ids store batch = dedup (sort (routes_of_pools store batch.pools))

pub record Opportunity : Type 0 where
  pub route_id : ℕ
  pub amount_in : ℕ
  pub gross_out : ℕ
  pub gross_profit : ℕ

pub record EvaluatedOpportunity : Type 0 where
  pub opp : Opportunity
  pub net_profit_wei : ℕ
  pub gas_units : ℕ
  pub gas_cost_wei : ℕ
  pub priority_fee_wei : ℕ
  pub block : ℕ

abbrev pub gas_kind : DexTag → HopGasKind
gas_kind dex =
    if is_v4 dex
    then Gas.v4
    else if is_v3_family dex || is_algebra dex
    then Gas.v3
    else if is_aero_stable dex
    then Gas.aero_stable
    else Gas.v2

abbrev pub gas_kinds : Engine → List Hop → Run (List HopGasKind)
gas_kinds engine [] = done []
gas_kinds engine (h ∷ hs) = do
  m ← meta engine h.pool
  ks ← gas_kinds engine hs
  done (gas_kind m.dex ∷ ks)

abbrev pub count_v4 : List HopGasKind → ℕ
count_v4 [] = 0
count_v4 (k ∷ ks) =
    let n = count_v4 ks in elim k [ Gas.v4 ↦ n + 1 | Gas.v2 ↦ n | Gas.v3 ↦ n | Gas.aero_stable ↦ n ]

abbrev pub u128_from : ℕ → ℕ
u128_from v = if ltb (2 ^ 128 - 1) v then 2 ^ 128 - 1 else v

-- The parameters of the gate: the conversions of the anchor and the f64 factors of the gas station.
pub record Conversions : Type 0 where
  pub to_wei : ℕ → ℕ
  pub from_wei : ℕ → ℕ
  pub budget : ℕ → ℕ → ℕ
  pub margin : ℕ → ℕ

-- The comparison of the gross profit with the gas cost in the anchor's unit.
unfoldable pub gate :
    Opportunity
    → (block gross gas_cost min_profit gas_units gas_cost_wei tip : ℕ) → Option EvaluatedOpportunity
gate opp block gross gas_cost min_profit gas_units gas_cost_wei tip =
    let net = gross - gas_cost in
    if leb gross gas_cost
    then none
    else if ltb net min_profit
    then none
    else some (record {
      opp = opp;
      net_profit_wei = net;
      gas_units = gas_units;
      gas_cost_wei = gas_cost_wei;
      priority_fee_wei = tip;
      block = block;
    })

unfoldable pub apply_gas_gate :
    Conversions
    → Engine
    → RouteStore
    → GasStation
    → ℕ
    → Opportunity
    → ℕ
    → Run (Option EvaluatedOpportunity)
apply_gas_gate c engine store gas min_profit opp block = do
  r ← route store opp.route_id
  kinds ← gas_kinds engine r.hops
  let gas_units = route_gas_units kinds true
  let calldata_len = 200 + length r.hops * 160 + 64 + count_v4 kinds * 128
  let gross = u128_from opp.gross_profit
  tip ← priority_fee c.budget gas (c.to_wei gross) gas_units
  let gas_cost_wei = total_gas_cost c.margin gas gas_units tip calldata_len
  done (gate opp block gross (c.from_wei gas_cost_wei) min_profit gas_units gas_cost_wei tip)

abbrev pub any_used : List ℕ → List Hop → Bool
any_used used [] = false
any_used used (h ∷ hs) = contains used h.pool || any_used used hs

abbrev pub use_all : List ℕ → List Hop → List ℕ
use_all used [] = used
use_all used (h ∷ hs) = use_all (h.pool ∷ used) hs

-- The ranked candidates, best first: one that shares a pool with an emitted one is dropped.
-- A closed receiver, which ends the loop, is left out.
unfoldable pub emit :
    RouteStore → List ℕ → List EvaluatedOpportunity → Run (List EvaluatedOpportunity)
emit store used [] = done []
emit store used (e ∷ es) = do
  r ← route store e.opp.route_id
  let skipped = emit store used es
  let emitted = (do rest ← emit store (use_all used r.hops) es; done (e ∷ rest))
  if any_used used r.hops then skipped else emitted
