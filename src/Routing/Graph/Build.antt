-- ===== src/Routing/Graph/Build.antt =====
-- The routes of all anchors in src/routing/graph.rs, and their numbers.
use robinarb.Base.{
  ℕ, zero, suc, ◌+◌, ◌*◌, ◌%◌, ◌^◌, ◌<◌, ◌≡◌, refl, ap, arith, Bool, true, false, List, [], ◌∷◌,
  Option, none, some, length, get_elem?, get_elem?_lt, take, contains, ◌==◌, if◌then◌else◌, All,
  All-append,
}
use robinarb.Base.Word.{done}
use robinarb.Engine.{Engine, PoolMeta}
use robinarb.Routing.{Route}
use robinarb.Routing.Graph.{
  Edge, GraphConfig, edges_at, with_metas, adjacency, anchor_routes, all_routes, renumber,
  build_routes,
}
use robinarb.Routing.Graph.Cycle.{Cycle, Truthful}
use robinarb.Routing.Graph.Sound.{anchor_routes-Good}

abbrev pub tokens_in : Option PoolMeta → Option (ℕ × ℕ)
tokens_in none = none
tokens_in (some m) = some (m.token0, m.token1)

-- The two tokens of a pool of the registry.
abbrev pub pool_tokens : Engine → ℕ → Option (ℕ × ℕ)
pool_tokens engine pool = tokens_in (get_elem? engine.metas pool)

-- A ranking invents no edges: what holds of all edges holds of all ranked ones.
abbrev pub Ranks : (List Edge → List Edge) → Type 1
Ranks rank = (P : Edge → Type 0) (edges : List Edge) → All P edges → All P (rank edges)

All-take : (P : Edge → Type 0) (n : ℕ) (xs : List Edge) → All P xs → All P (take n xs)
All-take P zero xs h = tt
All-take P (suc n) [] h = tt
All-take P (suc n) (x ∷ xs) h = (h.0, All-take P n xs h.1)

-- A route of the enumeration: a cycle from one of the anchors.
abbrev pub Enumerated : Engine → ℕ → List ℕ → Route → Type 0
Enumerated engine max_hops anchors r =
    (contains anchors r.anchor ≡ true) × Cycle (pool_tokens engine) max_hops r

abbrev Agree : Engine → ℕ × PoolMeta → Type 0
Agree engine (idx, m) = get_elem? engine.metas idx ≡ some m

keep :
    (P : Edge → Type 0) (b : Bool) (e : Edge) (es : List Edge)
    → P e
    → All P es
    → All P (if b then e ∷ es else es)
keep P true e es p ps = (p, ps)
keep P false e es p ps = ps

edges_at-Truthful :
    (engine : Engine) (pools : List (ℕ × PoolMeta)) (token : ℕ)
    → All (Agree engine) pools
    → All (Truthful (pool_tokens engine)) (edges_at pools token)
edges_at-Truthful engine [] token h = tt
edges_at-Truthful engine ((idx, m) ∷ pools) token (h, hs) =
    let rest = edges_at-Truthful engine pools token hs in
    let truth = ap tokens_in h in
    keep _ (m.token0 == token) _ _ truth (keep _ (m.token1 == token) _ _ truth rest)

with_metas-Agree :
    (engine : Engine) (entries : List (ℕ × ℕ))
    → All (λ (e : ℕ × ℕ). e.1 < length engine.metas) entries
    → (pools : List (ℕ × PoolMeta)) × (with_metas engine entries ≡ done pools)
      × All (Agree engine) pools
with_metas-Agree engine [] h = ([], refl, tt)
with_metas-Agree engine ((address, idx) ∷ entries) (h, hs) =
    let (m, e) = get_elem?_lt engine.metas idx h in
    let (pools, es, agree) = with_metas-Agree engine entries hs in
    ((idx, m) ∷ pools, rw (e, es) refl, (e, agree))

renumber-All :
    (P : Route → Type 0) (i : ℕ) (rs : List Route)
    → ((r : Route) (id : ℕ) → P r → P (record r { id = id }))
    → All P rs
    → All P (renumber i rs)
renumber-All P i [] keeps h = tt
renumber-All P i (r ∷ rs) keeps (h, hs) = (keeps r _ h, renumber-All P (i + 1) rs keeps hs)

-- The route at place `i` has the id `i`, as a u32.
abbrev pub NumberedFrom : ℕ → List Route → Type 0
NumberedFrom i [] = Unit
NumberedFrom i (r ∷ rs) = (r.id ≡ i % 2 ^ 32) × NumberedFrom (i + 1) rs

renumber-NumberedFrom : (i : ℕ) (rs : List Route) → NumberedFrom i (renumber i rs)
renumber-NumberedFrom i [] = tt
renumber-NumberedFrom i (r ∷ rs) = (refl, renumber-NumberedFrom (i + 1) rs)

All-map : (P Q : Route → Type 0) (rs : List Route) → ((r : Route) → P r → Q r) → All P rs → All Q rs
All-map P Q [] f h = tt
All-map P Q (r ∷ rs) f (h, hs) = (f r h, All-map P Q rs f hs)

module _ (rank : List Edge → List Edge) (ranks : Ranks rank) (engine : Engine) (cfg : GraphConfig)
    (pools : List (ℕ × PoolMeta)) (agree : All (Agree engine) pools) where
  abbrev adj : ℕ → List Edge
  adj = adjacency rank cfg.pair_fanout pools

  adj-Truthful : (t : ℕ) → All (Truthful (pool_tokens engine)) (adj t)
  adj-Truthful t =
      All-take _ (cfg.pair_fanout * 8) _ (ranks _ _ (edges_at-Truthful engine pools t agree))

  all_routes-Enumerated :
      (anchors : List ℕ) → All (Enumerated engine cfg.max_hops anchors) (all_routes adj cfg anchors)
  all_routes-Enumerated [] = tt
  all_routes-Enumerated (anchor ∷ anchors) =
      All-append _ (anchor_routes adj cfg anchor) _
        (All-map _ _ _ (λ r h. (ground (arith, h.0), h.1))
          (anchor_routes-Good (pool_tokens engine) adj adj-Truthful anchor cfg.max_hops
            cfg.max_routes cfg.pair_fanout))
        (All-map _ _ _ (λ r h. (ground (arith, h.0), h.1)) (all_routes-Enumerated anchors))

-- With a ranking that invents no edges, and a map of addresses whose indices are in the registry, the
-- enumeration returns; each of its routes starts at a configured anchor and is a cycle there, and
-- the route at place `i` has the id `i` (as a u32).
pub build_routes-Enumerated :
    (rank : List Edge → List Edge)
    → Ranks rank
    → (engine : Engine) (entries : List (ℕ × ℕ)) (cfg : GraphConfig) (anchors : List ℕ)
    → All (λ (e : ℕ × ℕ). e.1 < length engine.metas) entries
    → (routes : List Route) × (build_routes rank engine entries cfg anchors ≡ done routes)
      × All (Enumerated engine cfg.max_hops anchors) routes
      × NumberedFrom 0 routes
unfolding build_routes
build_routes-Enumerated rank ranks engine entries cfg anchors known =
    let (pools, e, agree) = with_metas-Agree engine entries known in
    let listed = all_routes (adjacency rank cfg.pair_fanout pools) cfg anchors in
    (
      renumber 0 listed,
      rw e refl,
      renumber-All (Enumerated engine cfg.max_hops anchors) 0 listed renumbered
          (all_routes-Enumerated rank ranks engine cfg pools agree anchors),
      renumber-NumberedFrom 0 listed,
    )
  where
    renumbered :
        (r : Route) (id : ℕ)
        → Enumerated engine cfg.max_hops anchors r
        → Enumerated engine cfg.max_hops anchors (record r { id = id })
    renumbered r id (h, c) = (
      h,
      record {
        closes = c.closes;
        two = c.two;
        bounded = c.bounded;
        distinct_pools = c.distinct_pools;
        distinct_tokens = c.distinct_tokens;
      },
    )
