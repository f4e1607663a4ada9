-- ===== src/State/Neighborhood.antt =====
-- The prefetch of a block in src/state.rs, with the index of src/routing/store.rs.
use robinarb.Base.{
  ℕ, zero, suc, ◌+◌, ◌<◌, ◌≡◌, refl, sym, ap, ◌∙◌, arith, true, false, ◌||◌, List, [], ◌∷◌, ◌++◌,
  Option, some, get_elem?, contains, contains-append, ◌==◌, Bool-cases, inl, inr,
}
use robinarb.Base.Word.{done}
use robinarb.Routing.{Hop, Route}
use robinarb.Routing.Store.{RouteStore, build, routes_for_pool}
use robinarb.Routing.Store.Index.{crosses, listed, routes_for_pool-listed}
use robinarb.State.{
  SlotPlan, ChainState, Words, plan, read, plan_slots, add, add_hops, add_routes, add_neighbors,
  slots_of, pool_slots, collect, prefetch, prefetch_neighborhood, advance_to, advance_and_prefetch,
  read_words,
}
use robinarb.State.Prefetch.{mem, prefetch_into-written, prefetch-kept}

-- Every pool of the one set is in the other.
abbrev Within : List ℕ → List ℕ → Type 0
Within xs ys = (p : ℕ) → contains xs p ≡ true → contains ys p ≡ true

pub add-contains : (set : List ℕ) (x y : ℕ) → contains (add set x) y ≡ (contains set y || x == y)
add-contains set x y = elim (Bool-cases (contains set x)) [
  | inl old ↦ elim (Bool-cases (x == y)) [
    | inl e ↦
        let same : x ≡ y = ground arith in
        let old' : contains set y ≡ true = rw same at old in rw old (ground arith)
    | inr ne ↦ rw old (ground arith)
  ]
  | inr new ↦ rw new (ground (arith, contains-append set (x ∷ []) y))
]

add_hops-contains :
    (set : List ℕ) (hops : List Hop) (y : ℕ)
    → contains (add_hops set hops) y ≡ (contains set y || crosses hops y)
add_hops-contains set [] y = ground arith
add_hops-contains set (h ∷ hops) y =
    ground (arith, add_hops-contains (add set h.pool) hops y, add-contains set h.pool y)

collect-contains :
    (set ps : List ℕ) (y : ℕ) → contains (collect set ps) y ≡ (contains set y || contains ps y)
collect-contains set [] y = ground arith
collect-contains set (p ∷ ps) y =
    ground (arith, collect-contains (add set p) ps y, add-contains set p y)

mem-append : (xs ys : List (ℕ × ℕ)) (a s : ℕ) → mem (xs ++ ys) a s ≡ (mem xs a s || mem ys a s)
mem-append [] ys a s = refl
mem-append ((b, t) ∷ xs) ys a s = ground (arith, mem-append xs ys a s)

-- The words of a pool in the set are among those fetched.
pool_slots-mem :
    (st : ChainState) (pools : List ℕ) (q : ℕ) (p : SlotPlan) (a s : ℕ)
    → contains pools q ≡ true
    → plan st q ≡ some p
    → mem (plan_slots p) a s ≡ true
    → mem (pool_slots st pools) a s ≡ true
pool_slots-mem st [] q p a s h e m = cc
pool_slots-mem st (x ∷ pools) q p a s h e m = elim (Bool-cases (x == q)) [
  | inl here ↦
      let same : x ≡ q = ground arith in
      rw (mem-append (slots_of (plan st x)) (pool_slots st pools) a s, same, e) (rw m refl)
  | inr off ↦
      let rest = pool_slots-mem st pools q p a s (ground arith) e m in
      ground (arith, mem-append (slots_of (plan st x)) (pool_slots st pools) a s)
]

module _ (store : RouteStore) where
  -- Every listed id names a route.
  abbrev Named : List ℕ → Type 0
  Named ids = (id : ℕ) → contains ids id ≡ true → (r : Route) × (get_elem? store.routes id ≡ some r)

  -- The pools of the routes with these ids are in the set.
  abbrev Covered : List ℕ → List ℕ → Type 0
  Covered ids set =
      (id : ℕ) (r : Route) (q : ℕ)
      → contains ids id ≡ true
      → get_elem? store.routes id ≡ some r
      → crosses r.hops q ≡ true
      → contains set q ≡ true

  add_routes-Covered :
      (set ids : List ℕ)
      → Named ids
      → (set' : List ℕ) × (add_routes store set ids ≡ done set')
        × Within set set'
        × Covered ids set'
  add_routes-Covered set [] named = (set, refl, λ p h. h, λ id r q h e c. cc)
  add_routes-Covered set (i ∷ ids) named =
      let (r, e) = named i (ground arith) in
      let (set', built, within, covered) =
        add_routes-Covered (add_hops set r.hops) ids (λ id h. named id (ground arith)) in
      (
        set',
        rw e built,
        λ p h. within p (ground (arith, add_hops-contains set r.hops p)),
        λ id r' q h e' c. elim (Bool-cases (i == id)) [
          | inl here ↦
              let same : i ≡ id = ground arith in
              let again : some r ≡ some r' =
                sym e ∙ ap (λ (j : ℕ). get_elem? store.routes j) same ∙ e' in
              let same' : r ≡ r' = cc in
              within q (ground (arith, add_hops-contains set r.hops q, rw (← same') at c))
          | inr off ↦ covered id r' q (ground arith) e' c
        ],
      )

  -- Pools on a route with one of the pools of `dirty`.
  abbrev Neighbor : List ℕ → ℕ → Type 0
  Neighbor dirty q =
      (p : ℕ) × (id : ℕ) × (r : Route) × (contains dirty p ≡ true)
      × (contains (routes_for_pool store p) id ≡ true)
      × (get_elem? store.routes id ≡ some r)
      × (crosses r.hops q ≡ true)

  add_neighbors-covers :
      (set dirty : List ℕ)
      → ((p : ℕ) → contains dirty p ≡ true → Named (routes_for_pool store p))
      → (set' : List ℕ) × (add_neighbors store set dirty ≡ done set')
        × Within set set'
        × ((q : ℕ) → Neighbor dirty q → contains set' q ≡ true)
  add_neighbors-covers set [] named = (set, refl, λ p h. h, λ q n. cc (n.3))
  add_neighbors-covers set (d ∷ dirty) named =
      let (set1, built, within, covered) =
        add_routes-Covered set (routes_for_pool store d) (named d (ground arith)) in
      let (set2, built', within', covers) =
        add_neighbors-covers set1 dirty (λ p h. named p (ground arith)) in
      (
        set2,
        rw built built',
        λ p h. within' p (within p h),
        λ q (p, id, r, h, listed, e, c). elim (Bool-cases (d == p)) [
          | inl here ↦
              let same : d ≡ p = ground arith in within' q (covered id r q (rw same listed) e c)
          | inr off ↦ covers q (p, id, r, ground arith, listed, e, c)
        ],
      )

-- The id of a route is its place.
abbrev pub Numbered : ℕ → List Route → Type 0
Numbered i [] = Unit
Numbered i (r ∷ rs) = (r.id ≡ i) × Numbered (i + 1) rs

-- A listed id is the place of a route that crosses the pool.
listed-place :
    (i : ℕ) (rs : List Route) (p id : ℕ)
    → Numbered i rs
    → listed rs p id ≡ true
    → (j : ℕ) × (r : Route) × (id ≡ i + j) × (get_elem? rs j ≡ some r)
listed-place i [] p id n h = cc
listed-place i (r ∷ rs) p id (e, n) h = elim (Bool-cases (r.id == id)) [
  | inl here ↦ (0, r, ground arith, refl)
  | inr off ↦
      let (j, r', e', at) = listed-place (i + 1) rs p id n (ground arith) in
      (suc j, r', omega arith, at)
]

place-listed :
    (i : ℕ) (rs : List Route) (j : ℕ) (r : Route) (p : ℕ)
    → Numbered i rs
    → get_elem? rs j ≡ some r
    → crosses r.hops p ≡ true
    → listed rs p (i + j) ≡ true
place-listed i [] j r p n h c = cc
place-listed i (x ∷ rs) zero r p (e, n) h c =
    let same : x ≡ r = cc in
    let id : x.id ≡ i + 0 = omega arith in
    let crossed : crosses x.hops p ≡ true = rw same c in ground arith
place-listed i (x ∷ rs) (suc j) r p (e, n) h c =
    let rest = place-listed (i + 1) rs j r p n h c in
    let shift : i + 1 + j ≡ i + suc j = omega arith in
    let rest' : listed rs p (i + suc j) ≡ true = rw shift at rest in ground arith

Named-build :
    (routes : List Route) (n p : ℕ)
    → Numbered 0 routes
    → p < n
    → Named (build routes n) (routes_for_pool (build routes n) p)
unfolding build
Named-build routes n p numbered small id h =
    let (j, r, e, at) =
      listed-place 0 routes p id numbered (sym (routes_for_pool-listed routes n p id small) ∙ h) in
    let same : j ≡ id = omega arith in (r, rw same at at)

pub indexed-build :
    (routes : List Route) (n p id : ℕ) (r : Route)
    → Numbered 0 routes
    → p < n
    → get_elem? routes id ≡ some r
    → crosses r.hops p ≡ true
    → contains (routes_for_pool (build routes n) p) id ≡ true
indexed-build routes n p id r numbered small at c =
    let e : 0 + id ≡ id = omega arith in
    routes_for_pool-listed routes n p id small
    ∙ rw e at (place-listed 0 routes id r p numbered at c)

routes-build : (routes : List Route) (n : ℕ) → (build routes n).routes ≡ routes
unfolding build
routes-build routes n = refl

-- A word that was fetched after the memo was cleared reads as the answer.
read-fetched :
    (rpc : Words) (pairs : List (ℕ × ℕ)) (tip : ℕ) (st : ChainState) (addr slot v : ℕ)
    → mem pairs addr slot ≡ true
    → rpc addr slot ≡ some v
    → read (prefetch rpc pairs (advance_to tip st)) addr slot ≡ v
unfolding read advance_to
read-fetched rpc pairs tip st addr slot v m answer =
    let e = prefetch_into-written rpc pairs false (advance_to tip st) addr slot in
    let fresh : (prefetch rpc pairs (advance_to tip st)).memo addr slot ≡ some v =
      e ∙ rw (m, answer) refl in
    ap
      (λ (o : Option ℕ).
        read_words o ((prefetch rpc pairs (advance_to tip st)).tick_cache addr slot))
      fresh

-- A pool on a route with a changed pool is read afresh: for a store built from numbered routes, when
-- the route `id` crosses the changed pool `p` and the pool `q`, the prefetch of the new block returns,
-- and each word in the plan of `q` that the chain answers reads as the answer, in the new state, whose
-- tip is the block and whose tick cache is the old one.
pub advance_and_prefetch_fresh :
    (rpc : Words) (routes : List Route) (pool_count tip : ℕ) (dirty : List ℕ) (st : ChainState)
    → Numbered 0 routes
    → ((p : ℕ) → contains dirty p ≡ true → p < pool_count)
    → (p id q : ℕ) (r : Route) (sp : SlotPlan) (addr slot v : ℕ) → contains dirty p ≡ true
    → get_elem? routes id ≡ some r
    → crosses r.hops p ≡ true
    → crosses r.hops q ≡ true
    → plan st q ≡ some sp
    → mem (plan_slots sp) addr slot ≡ true
    → rpc addr slot ≡ some v
    → (st' : ChainState) × (advance_and_prefetch rpc (build routes pool_count) tip dirty st
        ≡ done st')
      × (read st' addr slot ≡ v)
      × (st'.tip ≡ tip)
      × (st'.tick_cache ≡ st.tick_cache)
unfolding advance_and_prefetch prefetch_neighborhood advance_to
advance_and_prefetch_fresh rpc routes n tip dirty st numbered small p id q r sp addr slot v dp at cp
      cq e m answer =
    let store = build routes n in
    let moved = advance_to tip st in
    let (set, built, within, covers) =
      add_neighbors-covers store (collect [] dirty) dirty
        (λ p h. Named-build routes n p numbered (small p h)) in
    let inside : contains set q ≡ true = covers q (
      p,
      id,
      r,
      dp,
      indexed-build routes n p id r numbered (small p dp) at cp,
      rw (routes-build routes n) at,
      cq,
    ) in
    let (cache, tip', _) = prefetch-kept rpc (pool_slots moved set) moved in
    (
      prefetch rpc (pool_slots moved set) moved,
      rw built refl,
      read-fetched rpc (pool_slots moved set) tip st addr slot v
          (pool_slots-mem moved set q sp addr slot inside e m) answer,
      tip',
      cache,
    )
