-- ===== src/Routing/Graph/Bound.antt =====
-- The number of routes of one anchor in src/routing/graph.rs.
use robinarb.Base.{
  ℕ, zero, suc, ◌+◌, ◌≤◌, ◌<◌, ◌≡◌, arith, List, [], ◌∷◌, ◌++◌, Option, none, some, length,
  contains, leb, ◌==◌, if◌then◌else◌, length-append, Bool-cases, inl, inr,
}
use robinarb.Routing.{Hop, Route}
use robinarb.Routing.Graph.{
  Edge, Found, Flow, go, halt, next_token, hop_over, Stacks, push, close, onward, unless_halted,
  visit, each, dfs, anchor_routes, GraphConfig,
}

module _ (adj : ℕ → List Edge) (start max_routes : ℕ) where
  -- A search with `left` hops left may leave this many routes, less one.
  abbrev Below : ℕ → Found → Type 0
  Below left found = length found.routes + 1 ≤ max_routes + left

  abbrev Keeps : ℕ → (ℕ → Stacks → Found → Found) → Type 0
  Keeps left search =
      (token : ℕ) (s : Stacks) (found : Found)
      → Below left found
      → Below left (search token s found)

  abbrev BelowFlow : ℕ → Flow → Type 0
  BelowFlow left (go f) = Below left f
  BelowFlow left (halt f) = Below (suc left) f

  either_way :
      (left : ℕ) (f : Found)
      → length f.routes ≤ max_routes + left
      → BelowFlow left (if leb max_routes (length f.routes) then halt f else go f)
  either_way left f h = elim (Bool-cases (leb max_routes (length f.routes))) [
    | inl full ↦ rw full (omega arith)
    | inr room ↦ rw room (ground arith)
  ]

  close-Below :
      (left : ℕ) (s : Stacks) (hop : Hop) (found : Found)
      → Below left found
      → BelowFlow left (close adj start max_routes s hop found)
  unfolding close
  close-Below left s hop found h = elim (Bool-cases (leb 2 (length s.path + 1))) [
    | inl two ↦
        let route : Route = record {
          id = found.next_id;
          anchor = start;
          hops = s.path ++ hop ∷ [];
        } in
        let grown : length (found.routes ++ route ∷ []) ≡ length found.routes + 1 =
          length-append found.routes (route ∷ []) in
        rw two (either_way left _ (omega arith))
    | inr short ↦ rw short h
  ]

  module _ (left : ℕ) (search : ℕ → Stacks → Found → Found) (keeps : Keeps left search) where
    onward-Below :
        (current : ℕ) (s : Stacks) (e : Edge) (found : Found) (next : Option ℕ)
        → Below left found
        → BelowFlow left (onward adj start max_routes search current s e found next)
    unfolding onward
    onward-Below current s e found none h = h
    onward-Below current s e found (some token) h = elim (Bool-cases (token == start)) [
      | inl home ↦ rw home (close-Below left s (hop_over e current) found h)
      | inr away ↦ elim (Bool-cases (contains s.visited_tokens token)) [
        | inl seen ↦ rw (away, seen) h
        | inr new ↦ rw (away, new) (keeps token (push s (hop_over e current) token) found h)
      ]
    ]

    visit-Below :
        (current : ℕ) (s : Stacks) (e : Edge) (found : Found)
        → Below left found
        → BelowFlow left (visit adj start max_routes search current s e found)
    unfolding visit
    visit-Below current s e found h = elim (Bool-cases (contains s.used_pools e.pool)) [
      | inl used ↦ rw used h
      | inr fresh ↦ rw fresh (onward-Below current s e found (next_token e current) h)
    ]

    unless_halted-Below :
        (f : Flow) (more : Found → Found)
        → BelowFlow left f
        → ((found : Found) → Below left found → Below (suc left) (more found))
        → Below (suc left) (unless_halted f more)
    unless_halted-Below (go f) more h k = k f h
    unless_halted-Below (halt f) more h k = h

    each-Below :
        (current : ℕ) (s : Stacks) (edges : List Edge) (found : Found)
        → Below left found
        → Below (suc left) (each adj start max_routes search current s edges found)
    unfolding each
    each-Below current s [] found h = omega arith
    each-Below current s (e ∷ edges) found h =
        unless_halted-Below (visit adj start max_routes search current s e found) _
          (visit-Below current s e found h) (λ found' k. each-Below current s edges found' k)

  dfs-Below : (left : ℕ) → Keeps left (dfs adj start max_routes left)
  unfolding dfs
  dfs-Below zero token s found h = h
  dfs-Below (suc left) token s found h = elim (Bool-cases (leb max_routes (length found.routes))) [
    | inl full ↦ rw full h
    | inr room ↦ rw room (
        each-Below left (dfs adj start max_routes left) (dfs-Below left) token s (adj token) found
          (ground arith))
  ]

-- With a limit of at least one route, the enumeration of one anchor returns fewer than
-- `max_routes + max_hops` routes.
pub anchor_routes-lt :
    (adj : ℕ → List Edge) (cfg : GraphConfig) (anchor : ℕ)
    → 0 < cfg.max_routes
    → length (anchor_routes adj cfg anchor) < cfg.max_routes + cfg.max_hops
unfolding anchor_routes
anchor_routes-lt adj cfg anchor h =
    let below =
      dfs-Below adj anchor cfg.max_routes cfg.max_hops anchor
        (record { path = []; used_pools = []; visited_tokens = anchor ∷ [] })
        (record { routes = []; next_id = 0 }) (omega arith) in
    omega arith
