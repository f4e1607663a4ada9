-- ===== src/Routing/Graph/Sound.antt =====
-- The routes that the search of src/routing/graph.rs records.
use robinarb.Base.{
  ℕ, zero, suc, ◌+◌, ◌≤◌, ◌≡◌, refl, sym, ap, ◌∙◌, arith, Bool, true, false, List, [], ◌∷◌, ◌++◌,
  Option, none, some, length, contains, leb, ◌==◌, if◌then◌else◌, All, All-append, Distinct,
  Distinct-concat, length-append, Bool-cases, inl, inr,
}
use robinarb.Routing.{Route}
use robinarb.Routing.Graph.{
  Edge, Found, Flow, go, halt, next_token, hop_over, Stacks, push, close, onward, unless_halted,
  visit, each, dfs, anchor_routes,
}
use robinarb.Routing.Graph.Cycle.{
  pools_of, tokens_of, follow, Cycle, Truthful, pools_of-append, tokens_of-append, follow-append,
  hop_over-end,
}

module _ (tokens : ℕ → Option (ℕ × ℕ)) (adj : ℕ → List Edge)
    (truthful : (t : ℕ) → All (Truthful tokens) (adj t)) (start max_hops max_routes : ℕ) where
  abbrev Good : Found → Type 0
  Good found = All (λ (r : Route). (r.anchor ≡ start) × Cycle tokens max_hops r) found.routes

  record Walked (s : Stacks) (current left : ℕ) : Type 0 where
    reached : follow tokens start s.path ≡ some current
    used : s.used_pools ≡ pools_of s.path
    visited : s.visited_tokens ≡ tokens_of s.path ++ current ∷ []
    distinct_used : Distinct s.used_pools
    distinct_visited : Distinct s.visited_tokens
    budget : length s.path + left ≡ max_hops

  Walked-start :
      Walked (record { path = []; used_pools = []; visited_tokens = start ∷ [] }) start max_hops
  Walked-start = record {
    reached = refl;
    used = refl;
    visited = refl;
    distinct_used = tt;
    distinct_visited = (refl, tt);
    budget = omega arith;
  }

  Walked-push :
      (s : Stacks) (current left token : ℕ) (e : Edge)
      → Walked s current (suc left)
      → Truthful tokens e
      → contains s.used_pools e.pool ≡ false
      → next_token e current ≡ some token
      → contains s.visited_tokens token ≡ false
      → Walked (push s (hop_over e current) token) token left
  Walked-push s current left token e w truth fresh next new =
      let hop = hop_over e current in
      record {
        reached =
            follow-append tokens start s.path hop current token w.reached
              (hop_over-end tokens e current token truth next);
        used = ap (λ (ps : List ℕ). ps ++ e.pool ∷ []) w.used ∙ sym (pools_of-append s.path hop);
        visited =
            ap (λ (ts : List ℕ). ts ++ token ∷ []) (w.visited ∙ sym (tokens_of-append s.path hop));
        distinct_used = Distinct-concat s.used_pools e.pool w.distinct_used fresh;
        distinct_visited = Distinct-concat s.visited_tokens token w.distinct_visited new;
        budget = omega (arith, w.budget, length-append s.path (hop ∷ []));
      }

  close-Cycle :
      (s : Stacks) (current left id : ℕ) (e : Edge)
      → Walked s current (suc left)
      → Truthful tokens e
      → contains s.used_pools e.pool ≡ false
      → next_token e current ≡ some start
      → 2 ≤ length s.path + 1
      → Cycle tokens max_hops
          (record { id = id; anchor = start; hops = s.path ++ hop_over e current ∷ [] })
  close-Cycle s current left id e w truth fresh next two =
      let hop = hop_over e current in
      let grown : length (s.path ++ hop ∷ []) ≡ length s.path + 1 =
        length-append s.path (hop ∷ []) in
      record {
        closes =
            follow-append tokens start s.path hop current start w.reached
              (hop_over-end tokens e current start truth next);
        two = omega arith;
        bounded = omega (arith, w.budget);
        distinct_pools =
            rw (pools_of-append s.path hop, ← w.used)
              (Distinct-concat s.used_pools e.pool w.distinct_used fresh);
        distinct_tokens = rw (tokens_of-append s.path hop, ← w.visited) w.distinct_visited;
      }

  -- What a round over an edge leaves, whether it goes on or returns.
  abbrev left_by : Flow → Found
  left_by (go f) = f
  left_by (halt f) = f

  either_way : (b : Bool) (f : Found) → Good f → Good (left_by (if b then halt f else go f))
  either_way true f h = h
  either_way false f h = h

  close-Good :
      (s : Stacks) (current left : ℕ) (e : Edge) (found : Found)
      → Walked s current (suc left)
      → Truthful tokens e
      → contains s.used_pools e.pool ≡ false
      → next_token e current ≡ some start
      → Good found
      → Good (left_by (close adj start max_routes s (hop_over e current) found))
  unfolding close
  close-Good s current left e found w truth fresh next good =
      elim (Bool-cases (leb 2 (length s.path + 1))) [
        | inl two ↦
            let cycle =
              close-Cycle s current left found.next_id e w truth fresh next (ground arith) in
            let route : Route = record {
              id = found.next_id;
              anchor = start;
              hops = s.path ++ hop_over e current ∷ [];
            } in
            rw two (
              either_way _ _ (
                All-append (λ (r : Route). (r.anchor ≡ start) × Cycle tokens max_hops r)
                  found.routes (route ∷ []) good ((refl, cycle), tt)))
        | inr short ↦ rw short good
      ]

  -- What the recursive call is asked to keep.
  abbrev Keeps : ℕ → (ℕ → Stacks → Found → Found) → Type 0
  Keeps left search =
      (token : ℕ) (s : Stacks) (found : Found)
      → Walked s token left
      → Good found
      → Good (search token s found)

  module _ (left : ℕ) (search : ℕ → Stacks → Found → Found) (keeps : Keeps left search) where
    onward-Good :
        (current : ℕ) (s : Stacks) (e : Edge) (found : Found) (next : Option ℕ)
        → Walked s current (suc left)
        → Truthful tokens e
        → contains s.used_pools e.pool ≡ false
        → next_token e current ≡ next
        → Good found
        → Good (left_by (onward adj start max_routes search current s e found next))
    unfolding onward
    onward-Good current s e found none w truth fresh h good = good
    onward-Good current s e found (some token) w truth fresh h good =
        elim (Bool-cases (token == start)) [
          | inl home ↦
              let e1 : token ≡ start = ground arith in
              rw home (close-Good s current left e found w truth fresh (h ∙ ap some e1) good)
          | inr away ↦ elim (Bool-cases (contains s.visited_tokens token)) [
            | inl seen ↦ rw (away, seen) good
            | inr new ↦
                rw (away, new)
                  (keeps token (push s (hop_over e current) token) found
                    (Walked-push s current left token e w truth fresh h new) good)
          ]
        ]

    visit-Good :
        (current : ℕ) (s : Stacks) (e : Edge) (found : Found)
        → Walked s current (suc left)
        → Truthful tokens e
        → Good found
        → Good (left_by (visit adj start max_routes search current s e found))
    unfolding visit
    visit-Good current s e found w truth good = elim (Bool-cases (contains s.used_pools e.pool)) [
      | inl used ↦ rw used good
      | inr fresh ↦
          rw fresh (onward-Good current s e found (next_token e current) w truth fresh refl good)
    ]

    unless_halted-Good :
        (f : Flow) (more : Found → Found)
        → Good (left_by f)
        → ((found : Found) → Good found → Good (more found))
        → Good (unless_halted f more)
    unless_halted-Good (go f) more h k = k f h
    unless_halted-Good (halt f) more h k = h

    each-Good :
        (current : ℕ) (s : Stacks) (edges : List Edge) (found : Found)
        → Walked s current (suc left)
        → All (Truthful tokens) edges
        → Good found
        → Good (each adj start max_routes search current s edges found)
    unfolding each
    each-Good current s [] found w truths good = good
    each-Good current s (e ∷ edges) found w truths good =
        unless_halted-Good (visit adj start max_routes search current s e found) _
          (visit-Good current s e found w truths.0 good)
          (λ found' h. each-Good current s edges found' w truths.1 h)

  dfs-Good : (left : ℕ) → Keeps left (dfs adj start max_routes left)
  unfolding dfs
  dfs-Good zero token s found w good = good
  dfs-Good (suc left) token s found w good =
      elim (Bool-cases (leb max_routes (length found.routes))) [
        | inl full ↦ rw full good
        | inr room ↦ rw room (
            each-Good left (dfs adj start max_routes left) (dfs-Good left) token s (adj token) found
              w (truthful token) good)
      ]

  pub anchor_routes-Good :
      (fanout : ℕ)
      → All
          (λ (r : Route). (r.anchor ≡ start) × Cycle tokens max_hops r)
          (anchor_routes adj
            (record { max_hops = max_hops; max_routes = max_routes; pair_fanout = fanout })
            start)
  unfolding anchor_routes
  anchor_routes-Good fanout = dfs-Good max_hops start _ _ Walked-start tt
