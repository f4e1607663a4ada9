-- ===== src/Engine/Tests.antt =====
-- A registry of three pools, and one that the constructor refuses.
use robinarb.Base.{ℕ, ◌≡◌, ◌⊎◌, refl, List, [], ◌∷◌, none}
use robinarb.Base.Word.{done, panic}
use robinarb.Engine.{PoolMeta, uni_v2_fork, uni_v4, new_engine}
use robinarb.Engine.Registry.{Registrable, registry_of, new_engine-Registrable}

abbrev v2_pool : ℕ → ℕ → ℕ → ℕ → PoolMeta
v2_pool idx address token0 token1 = record {
  idx = idx;
  address = address;
  dex = uni_v2_fork;
  factory = 0;
  token0 = token0;
  token1 = token1;
  dec0 = 18;
  dec1 = 6;
  fee_bps = 30;
  fee_pips = 3_000;
  tick_spacing = 1;
  v4 = none;
}

abbrev three_pools : List PoolMeta
three_pools = v2_pool 0 11 100 200 ∷ v2_pool 1 12 100 200 ∷ v2_pool 2 13 200 300 ∷ []

new_engine-Registrable_example :
    (Registrable three_pools × (new_engine three_pools ≡ done (registry_of three_pools)))
    ⊎ (¬ Registrable three_pools × (new_engine three_pools ≡ panic))
new_engine-Registrable_example = new_engine-Registrable three_pools

refuses_twin : new_engine (v2_pool 0 11 100 200 ∷ v2_pool 1 11 100 300 ∷ []) ≡ panic
unfolding new_engine
refuses_twin = refl

refuses_tag : new_engine (record (v2_pool 0 11 100 200) { dex = uni_v4 } ∷ []) ≡ panic
unfolding new_engine
refuses_tag = refl
