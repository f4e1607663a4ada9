-- ===== src/Routing/Evaluator/Candidates.antt =====
-- The candidates and the gas gate of src/routing/evaluator.rs.
use mathlib.Core.Option.{some-injective}
use robinarb.Base.{
  ℕ, ◌+◌, ◌-◌, ◌≤◌, ◌<◌, ◌≡◌, refl, sym, ap, ◌∙◌, arith, Bool, true, false, ◌||◌, List, [], ◌∷◌,
  ◌++◌, some, get_elem?, contains, contains-append, leb, ltb, max, min, ◌==◌, Bool-cases, inl, inr,
}
use robinarb.Routing.{Route}
use robinarb.Routing.Store.{RouteStore, build, routes_for_pool}
use robinarb.Routing.Store.Index.{crosses}
use robinarb.State.Neighborhood.{Numbered, indexed-build}
use robinarb.Routing.Evaluator.{
  ChangedBatch, coalesce, routes_of_pools, insert_sorted, sort, keep_first, dedup, candidate_ids,
  Opportunity, EvaluatedOpportunity, gate,
}

-- Some batch of the queue lists the pool.
abbrev pub queued : List ChangedBatch → ℕ → Bool
queued [] p = false
queued (b ∷ bs) p = contains b.pools p || queued bs p

coalesce-pools :
    (b : ChangedBatch) (queue : List ChangedBatch) (p : ℕ)
    → contains (coalesce b queue).pools p ≡ (contains b.pools p || queued queue p)
unfolding coalesce
coalesce-pools b [] p = ground arith
coalesce-pools b (next ∷ queue) p =
    let merged : ChangedBatch = record {
      block = max next.block b.block;
      pools = b.pools ++ next.pools;
      ts = min b.ts next.ts;
    } in
    ground (arith, coalesce-pools merged queue p, contains-append b.pools next.pools p)

insert_sorted-contains :
    (x : ℕ) (ys : List ℕ) (i : ℕ) → contains (insert_sorted x ys) i ≡ (x == i || contains ys i)
insert_sorted-contains x [] i = refl
insert_sorted-contains x (y ∷ ys) i = ground (arith, insert_sorted-contains x ys i)

sort-contains : (xs : List ℕ) (i : ℕ) → contains (sort xs) i ≡ contains xs i
sort-contains [] i = refl
sort-contains (x ∷ xs) i = ground (arith, insert_sorted-contains x (sort xs) i, sort-contains xs i)

keep_first-contains :
    (x : ℕ) (ys : List ℕ) (i : ℕ) → contains (keep_first x ys) i ≡ (x == i || contains ys i)
keep_first-contains x [] i = refl
keep_first-contains x (y ∷ ys) i = ground arith

dedup-contains : (xs : List ℕ) (i : ℕ) → contains (dedup xs) i ≡ contains xs i
dedup-contains [] i = refl
dedup-contains (x ∷ xs) i = ground (arith, keep_first-contains x (dedup xs) i, dedup-contains xs i)

routes_of_pools-contains :
    (store : RouteStore) (ps : List ℕ) (p id : ℕ)
    → contains ps p ≡ true
    → contains (routes_for_pool store p) id ≡ true
    → contains (routes_of_pools store ps) id ≡ true
routes_of_pools-contains store [] p id h k = cc
routes_of_pools-contains store (x ∷ ps) p id h k = elim (Bool-cases (x == p)) [
  | inl here ↦
      let same : x ≡ p = ground arith in
      let k' : contains (routes_for_pool store x) id ≡ true = rw same k in
      ground (arith, contains-append (routes_for_pool store x) (routes_of_pools store ps) id)
  | inr off ↦
      let rest = routes_of_pools-contains store ps p id (ground arith) k in
      ground (arith, contains-append (routes_for_pool store x) (routes_of_pools store ps) id)
]

-- In a store built from numbered routes, a route that crosses a pool of the first batch or of a queued
-- one is among the candidates of the merged batch.
pub candidate_ids-touched :
    (routes : List Route) (pool_count : ℕ) (b : ChangedBatch) (queue : List ChangedBatch) (p id : ℕ)
    (r : Route)
    → Numbered 0 routes
    → p < pool_count
    → (contains b.pools p || queued queue p) ≡ true
    → get_elem? routes id ≡ some r
    → crosses r.hops p ≡ true
    → contains (candidate_ids (build routes pool_count) (coalesce b queue)) id ≡ true
unfolding candidate_ids
candidate_ids-touched routes n b queue p id r numbered small h at c =
    let store = build routes n in
    let all = routes_of_pools store (coalesce b queue).pools in
    dedup-contains (sort all) id
    ∙ sort-contains all id
    ∙ routes_of_pools-contains store _ p id (coalesce-pools b queue p ∙ h)
        (indexed-build routes n p id r numbered small at c)

-- What passes the gate pays for its gas and leaves at least the least profit of the anchor: the gross
-- profit is the gas cost and the net profit together, and the net profit is not zero.
pub gate_profit :
    (opp : Opportunity) (block gross gas_cost min_profit gas_units cost_wei tip : ℕ)
    (e : EvaluatedOpportunity)
    → gate opp block gross gas_cost min_profit gas_units cost_wei tip ≡ some e
    → (gross ≡ gas_cost + e.net_profit_wei)
      × (0 < e.net_profit_wei)
      × (min_profit ≤ e.net_profit_wei)
      × (e.opp ≡ opp)
unfolding gate
gate_profit opp block gross cost min_profit units cost_wei tip e h =
    elim (Bool-cases (leb gross cost)) [
      | inl low ↦ absurd (cc (rw low at h))
      | inr high ↦ elim (Bool-cases (ltb (gross - cost) min_profit)) [
        | inl little ↦ absurd (cc (rw (high, little) at h))
        | inr enough ↦
            let made = some-injective _ _ (rw (high, enough) at h) in
            let net : gross - cost ≡ e.net_profit_wei =
              ap (λ (x : EvaluatedOpportunity). x.net_profit_wei) made in
            (
              ground arith,
              ground arith,
              ground arith,
              sym (ap (λ (x : EvaluatedOpportunity). x.opp) made),
            )
      ]
    ]
