-- ===== src/Routing/Graph.antt =====
-- src/routing/graph.rs: the enumeration of the cycles from each anchor token.
pub mod Cycle
pub mod Sound
pub mod Bound
pub mod Build
mod Tests
use robinarb.Base.{
  ℕ, zero, suc, ◌+◌, ◌-◌, ◌*◌, ◌%◌, ◌^◌, Bool, true, false, not, ◌||◌, ◌&&◌, List, [], ◌∷◌, ◌++◌,
  map, Option, none, some, length, take, contains, leb, ◌==◌, if◌then◌else◌,
}
use robinarb.Base.Word.{Run, done, panic, ◌>>=◌}
use robinarb.Engine.{Engine, PoolMeta, meta}
use robinarb.Routing.{Hop, Route}

-- The liquidity proxy is left out: it only ranks the edges, and the ranking is a parameter.
pub record Edge : Type 0 where
  pub pool : ℕ
  pub token0 : ℕ
  pub token1 : ℕ

pub record GraphConfig : Type 0 where
  pub max_hops : ℕ
  pub max_routes : ℕ
  pub pair_fanout : ℕ

-- The list that the search appends to, and the counter of ids.
pub record Found : Type 0 where
  pub routes : List Route
  pub next_id : ℕ

-- A pass over the edges goes on, or returns.
pub data Flow : Type 0 where
  go : Found → Flow
  halt : Found → Flow

abbrev pub unless_halted : Flow → (Found → Found) → Found
unless_halted (go found) more = more found
unless_halted (halt found) more = found

abbrev pub next_token : Edge → ℕ → Option ℕ
next_token edge current =
    if edge.token0 == current
    then some edge.token1
    else if edge.token1 == current
    then some edge.token0
    else none

abbrev pub hop_over : Edge → ℕ → Hop
hop_over edge current = record {
  pool = edge.pool;
  zero_for_one = edge.token0 == current;
  token_in = current;
}

-- The stacks of the search: pushed before a recursive call and popped after it.
pub record Stacks : Type 0 where
  pub path : List Hop
  pub used_pools : List ℕ
  pub visited_tokens : List ℕ

abbrev pub push : Stacks → Hop → ℕ → Stacks
push s hop token = record {
  path = s.path ++ hop ∷ [];
  used_pools = s.used_pools ++ hop.pool ∷ [];
  visited_tokens = s.visited_tokens ++ token ∷ [];
}

module _ (adj : ℕ → List Edge) (start max_routes : ℕ) where
  -- The edge leads back to the start: a route of at least two hops is recorded.
  unfoldable pub close : Stacks → Hop → Found → Flow
  close s hop found =
      let found' : Found = record {
        routes =
            found.routes
            ++ (record { id = found.next_id; anchor = start; hops = s.path ++ hop ∷ [] }) ∷ [];
        next_id = found.next_id + 1;
      } in
      if leb 2 (length s.path + 1)
      then (if leb max_routes (length found'.routes) then halt found' else go found')
      else go found

  -- The rest of the loop body, once the edge's other token is known; `search` is the recursive call.
  unfoldable pub onward : (ℕ → Stacks → Found → Found) → ℕ → Stacks → Edge → Found → Option ℕ → Flow
  onward search current s edge found none = go found
  onward search current s edge found (some token) =
      let hop = hop_over edge current in
      if token == start
      then close s hop found
      else if contains s.visited_tokens token
      then go found
      else go (search token (push s hop token) found)

  -- The body of the loop over the edges.
  unfoldable pub visit : (ℕ → Stacks → Found → Found) → ℕ → Stacks → Edge → Found → Flow
  visit search current s edge found =
      if contains s.used_pools edge.pool
      then go found
      else onward search current s edge found (next_token edge current)

  unfoldable pub each : (ℕ → Stacks → Found → Found) → ℕ → Stacks → List Edge → Found → Found
  each search current s [] found = found
  each search current s (edge ∷ edges) found =
      unless_halted (visit search current s edge found)
        (λ found'. each search current s edges found')

  -- The search with the hops that are left, `max_hops - path.len()`.
  unfoldable pub dfs : ℕ → ℕ → Stacks → Found → Found
  dfs zero current s found = found
  dfs (suc left) current s found =
      let result = each (dfs left) current s (adj current) found in
      if leb max_routes (length found.routes) then found else result

-- The pools in the order in which the iteration over the map gives them.
abbrev pub edges_at : List (ℕ × PoolMeta) → ℕ → List Edge
edges_at [] token = []
edges_at ((idx, m) ∷ pools) token =
    let e : Edge = record { pool = idx; token0 = m.token0; token1 = m.token1 } in
    let rest = edges_at pools token in
    let rest' = if m.token1 == token then e ∷ rest else rest in
    if m.token0 == token then e ∷ rest' else rest'

abbrev pub with_metas : Engine → List (ℕ × ℕ) → Run (List (ℕ × PoolMeta))
with_metas engine [] = done []
with_metas engine ((address, idx) ∷ entries) = do
  m ← meta engine idx
  rest ← with_metas engine entries
  done ((idx, m) ∷ rest)

-- The ranking sorts by liquidity, descending; the cap keeps its first edges.
abbrev pub capped : (List Edge → List Edge) → ℕ → List Edge → List Edge
capped rank pair_fanout edges = take (pair_fanout * 8) (rank edges)

abbrev pub adjacency : (List Edge → List Edge) → ℕ → List (ℕ × PoolMeta) → ℕ → List Edge
adjacency rank pair_fanout pools token = capped rank pair_fanout (edges_at pools token)

unfoldable pub anchor_routes : (ℕ → List Edge) → GraphConfig → ℕ → List Route
unfolding dfs
anchor_routes adj cfg anchor =
    let found =
      dfs adj anchor cfg.max_routes cfg.max_hops anchor
        (record { path = []; used_pools = []; visited_tokens = anchor ∷ [] })
        (record { routes = []; next_id = 0 }) in
    found.routes

abbrev pub all_routes : (ℕ → List Edge) → GraphConfig → List ℕ → List Route
all_routes adj cfg [] = []
all_routes adj cfg (anchor ∷ anchors) = anchor_routes adj cfg anchor ++ all_routes adj cfg anchors

-- `r.id = i as u32`, from the index `i` on.
abbrev pub renumber : ℕ → List Route → List Route
renumber i [] = []
renumber i (r ∷ rs) = record r { id = i % 2 ^ 32 } ∷ renumber (i + 1) rs

unfoldable pub build_routes :
    (List Edge → List Edge) → Engine → List (ℕ × ℕ) → GraphConfig → List ℕ → Run (List Route)
unfolding anchor_routes
build_routes rank engine pool_addresses cfg anchors = do
  pools ← with_metas engine pool_addresses
  done (renumber 0 (all_routes (adjacency rank cfg.pair_fanout pools) cfg anchors))
