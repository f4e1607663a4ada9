-- ===== src/Routing/Store.antt =====
-- src/routing/store.rs: the routes and the reverse index from a pool to the ids of its routes.
pub mod Index
mod Tests
use robinarb.Base.{
  ℕ, zero, suc, ◌+◌, Bool, List, [], ◌∷◌, ◌++◌, Option, none, some, get_elem?, ltb, length,
  if◌then◌else◌,
}
use robinarb.Base.Word.{Run}
use robinarb.Engine.{or_panic}
use robinarb.Routing.{Hop, Route}

pub record RouteStore : Type 0 where
  pub routes : List Route
  pub by_pool : List (List ℕ)

-- `vec![Vec::new(); n]`
abbrev pub empty_lists : ℕ → List (List ℕ)
empty_lists zero = []
empty_lists (suc n) = [] ∷ empty_lists n

-- `if p < by_pool.len() { by_pool[p].push(id) }`
abbrev pub push_at : List (List ℕ) → ℕ → ℕ → List (List ℕ)
push_at [] p id = []
push_at (ids ∷ rest) zero id = (ids ++ id ∷ []) ∷ rest
push_at (ids ∷ rest) (suc p) id = ids ∷ push_at rest p id

abbrev pub index_hops : ℕ → List Hop → List (List ℕ) → List (List ℕ)
index_hops id [] by_pool = by_pool
index_hops id (hop ∷ hops) by_pool = index_hops id hops (push_at by_pool hop.pool id)

abbrev pub index_routes : List Route → List (List ℕ) → List (List ℕ)
index_routes [] by_pool = by_pool
index_routes (r ∷ rs) by_pool = index_routes rs (index_hops r.id r.hops by_pool)

unfoldable pub build : List Route → ℕ → RouteStore
build routes pool_count = record {
  routes = routes;
  by_pool = index_routes routes (empty_lists pool_count);
}

abbrev pub or_empty : Option (List ℕ) → List ℕ
or_empty none = []
or_empty (some ids) = ids

unfoldable pub routes_for_pool : RouteStore → ℕ → List ℕ
routes_for_pool store pool = or_empty (get_elem? store.by_pool pool)

-- `&self.routes[id as usize]`
abbrev pub route : RouteStore → ℕ → Run Route
route store id = or_panic (get_elem? store.routes id)
