-- ===== src/Routing/Store/Index.antt =====
-- The reverse index of src/routing/store.rs.
use robinarb.Base.{
  ℕ, zero, suc, ◌<◌, ◌≡◌, refl, ap, ◌∙◌, arith, Bool, false, ◌||◌, ◌&&◌, List, [], ◌∷◌, get_elem?,
  length, contains, contains-append, ◌==◌,
}
use robinarb.Routing.{Hop, Route}
use robinarb.Routing.Store.{
  empty_lists, push_at, index_hops, index_routes, build, or_empty, routes_for_pool,
}

-- Some hop of the list swaps over the pool.
abbrev pub crosses : List Hop → ℕ → Bool
crosses [] pool = false
crosses (h ∷ hs) pool = h.pool == pool || crosses hs pool

-- Some route of the list has this id and crosses the pool.
abbrev pub listed : List Route → ℕ → ℕ → Bool
listed [] pool id = false
listed (r ∷ rs) pool id = (r.id == id && crosses r.hops pool) || listed rs pool id

abbrev ids_at : List (List ℕ) → ℕ → List ℕ
ids_at lists pool = or_empty (get_elem? lists pool)

length-push_at : (ls : List (List ℕ)) (p id : ℕ) → length (push_at ls p id) ≡ length ls
length-push_at [] p id = refl
length-push_at (l ∷ ls) zero id = refl
length-push_at (l ∷ ls) (suc p) id = ap suc (length-push_at ls p id)

push_at-contains :
    (ls : List (List ℕ)) (p id q i : ℕ)
    → q < length ls
    → contains (ids_at (push_at ls p id) q) i ≡ (contains (ids_at ls q) i || (p == q && id == i))
push_at-contains [] p id q i h = absurd (omega arith)
push_at-contains (l ∷ ls) zero id zero i h = ground (arith, contains-append l (id ∷ []) i)
push_at-contains (l ∷ ls) zero id (suc q) i h = ground arith
push_at-contains (l ∷ ls) (suc p) id zero i h = ground arith
push_at-contains (l ∷ ls) (suc p) id (suc q) i h =
    ground (arith, push_at-contains ls p id q i (omega arith))

length-index_hops :
    (id : ℕ) (hs : List Hop) (ls : List (List ℕ)) → length (index_hops id hs ls) ≡ length ls
length-index_hops id [] ls = refl
length-index_hops id (h ∷ hs) ls =
    length-index_hops id hs (push_at ls h.pool id) ∙ length-push_at ls h.pool id

index_hops-contains :
    (id : ℕ) (hs : List Hop) (ls : List (List ℕ)) (q i : ℕ)
    → q < length ls
    → contains (ids_at (index_hops id hs ls) q) i
      ≡ (contains (ids_at ls q) i || (id == i && crosses hs q))
index_hops-contains id [] ls q i h = ground arith
index_hops-contains id (hop ∷ hs) ls q i h =
    let e = length-push_at ls hop.pool id in
    ground (
      arith,
      index_hops-contains id hs (push_at ls hop.pool id) q i (omega arith),
      push_at-contains ls hop.pool id q i h,
    )

index_routes-contains :
    (rs : List Route) (ls : List (List ℕ)) (q i : ℕ)
    → q < length ls
    → contains (ids_at (index_routes rs ls) q) i ≡ (contains (ids_at ls q) i || listed rs q i)
index_routes-contains [] ls q i h = ground arith
index_routes-contains (r ∷ rs) ls q i h =
    let e = length-index_hops r.id r.hops ls in
    ground (
      arith,
      index_routes-contains rs (index_hops r.id r.hops ls) q i (omega arith),
      index_hops-contains r.id r.hops ls q i h,
    )

length-empty_lists : (n : ℕ) → length (empty_lists n) ≡ n
length-empty_lists zero = refl
length-empty_lists (suc n) = ap suc (length-empty_lists n)

empty_lists-ids : (n q : ℕ) → ids_at (empty_lists n) q ≡ []
empty_lists-ids zero q = refl
empty_lists-ids (suc n) zero = refl
empty_lists-ids (suc n) (suc q) = empty_lists-ids n q

-- An id is in the index of a registered pool exactly when a route with that id crosses the pool.
pub routes_for_pool-listed :
    (routes : List Route) (pool_count pool id : ℕ)
    → pool < pool_count
    → contains (routes_for_pool (build routes pool_count) pool) id ≡ listed routes pool id
unfolding routes_for_pool build
routes_for_pool-listed routes n pool id h =
    let e = length-empty_lists n in
    index_routes-contains routes (empty_lists n) pool id (omega arith)
    ∙ rw (empty_lists-ids n pool) refl
