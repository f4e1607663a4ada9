-- ===== src/Routing/Store/Tests.antt =====
-- The index of two routes over three pools.
use robinarb.Base.{◌≡◌, refl, arith, true, false, List, [], ◌∷◌, contains}
use robinarb.Routing.{Route}
use robinarb.Routing.Store.{build, routes_for_pool}
use robinarb.Routing.Store.Index.{listed, routes_for_pool-listed}

abbrev two_routes : List Route
two_routes =
    record {
      id = 0;
      anchor = 100;
      hops =
          record { pool = 0; zero_for_one = true; token_in = 100 }
          ∷ record { pool = 1; zero_for_one = false; token_in = 200 }
          ∷ [];
    }
    ∷ record {
      id = 1;
      anchor = 100;
      hops =
          record { pool = 1; zero_for_one = true; token_in = 100 }
          ∷ record { pool = 2; zero_for_one = false; token_in = 200 }
          ∷ [];
    }
    ∷ []

shared_pool : routes_for_pool (build two_routes 3) 1 ≡ 0 ∷ 1 ∷ []
unfolding routes_for_pool build
shared_pool = refl

routes_for_pool-listed_example :
    contains (routes_for_pool (build two_routes 3) 1) 1 ≡ listed two_routes 1 1
routes_for_pool-listed_example = routes_for_pool-listed two_routes 3 1 1 (omega arith)
