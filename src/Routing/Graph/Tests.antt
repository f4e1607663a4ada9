-- ===== src/Routing/Graph/Tests.antt =====
-- The enumeration over three pools between two tokens.
use robinarb.Base.{
  ℕ, ◌+◌, ◌<◌, ◌≡◌, refl, arith, Bool, true, false, List, [], ◌∷◌, none, length, All,
}
use robinarb.Base.Word.{done}
use robinarb.Engine.{Engine, PoolMeta, uni_v2_fork}
use robinarb.Engine.Registry.{registry_of}
use robinarb.Routing.{Hop, Route}
use robinarb.Routing.Graph.{
  Edge, GraphConfig, anchor_routes, build_routes, each, visit, onward, close,
}
use robinarb.Routing.Graph.Bound.{anchor_routes-lt}
use robinarb.Routing.Graph.Build.{Ranks, Enumerated, NumberedFrom, build_routes-Enumerated}

abbrev pair : ℕ → ℕ → ℕ → PoolMeta
pair idx token0 token1 = record {
  idx = idx;
  address = idx + 11;
  dex = uni_v2_fork;
  factory = 0;
  token0 = token0;
  token1 = token1;
  dec0 = 18;
  dec1 = 6;
  fee_bps = 30;
  fee_pips = 3_000;
  tick_spacing = 1;
  v4 = none;
}

abbrev engine : Engine
engine = registry_of (pair 0 100 200 ∷ pair 1 100 200 ∷ pair 2 200 100 ∷ [])

abbrev cfg : GraphConfig
cfg = record { max_hops = 3; max_routes = 50; pair_fanout = 2 }

abbrev as_is : List Edge → List Edge
as_is edges = edges

as_is-Ranks : Ranks as_is
as_is-Ranks P edges h = h

abbrev hop : ℕ → Bool → ℕ → Hop
hop pool zero_for_one token = record { pool = pool; zero_for_one = zero_for_one; token_in = token }

abbrev route : ℕ → List Hop → Route
route id hops = record { id = id; anchor = 100; hops = hops }

six_cycles :
    build_routes as_is engine engine.by_address cfg (100 ∷ [])
    ≡ done (
        route 0 (hop 0 true 100 ∷ hop 1 false 200 ∷ [])
        ∷ route 1 (hop 0 true 100 ∷ hop 2 true 200 ∷ [])
        ∷ route 2 (hop 1 true 100 ∷ hop 0 false 200 ∷ [])
        ∷ route 3 (hop 1 true 100 ∷ hop 2 true 200 ∷ [])
        ∷ route 4 (hop 2 false 100 ∷ hop 0 false 200 ∷ [])
        ∷ route 5 (hop 2 false 100 ∷ hop 1 false 200 ∷ [])
        ∷ [])
unfolding build_routes each visit onward close
six_cycles = refl

build_routes-Enumerated_example :
    (routes : List Route) × (build_routes as_is engine engine.by_address cfg (100 ∷ [])
      ≡ done routes)
    × All (Enumerated engine 3 (100 ∷ [])) routes
    × NumberedFrom 0 routes
build_routes-Enumerated_example =
    build_routes-Enumerated as_is as_is-Ranks engine engine.by_address cfg (100 ∷ [])
      (omega arith, (omega arith, (omega arith, tt)))

-- Two pools between 100 and 200, 200 and 300, 300 and 100.
abbrev edges : ℕ → List Edge
edges token =
    record { pool = 0; token0 = 100; token1 = 200 }
    ∷ record { pool = 1; token0 = 200; token1 = 300 }
    ∷ record { pool = 2; token0 = 300; token1 = 100 }
    ∷ record { pool = 3; token0 = 200; token1 = 100 }
    ∷ []

abbrev one_route : GraphConfig
one_route = record { max_hops = 3; max_routes = 1; pair_fanout = 2 }

-- With a limit of one route, two are returned.
over_the_limit : length (anchor_routes edges one_route 100) ≡ 2
unfolding anchor_routes each visit onward close
over_the_limit = refl

anchor_routes-lt_example : length (anchor_routes edges one_route 100) < 1 + 3
anchor_routes-lt_example = anchor_routes-lt edges one_route 100 (omega arith)
