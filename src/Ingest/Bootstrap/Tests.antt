-- ===== src/Ingest/Bootstrap/Tests.antt =====
-- Two pools that the filter has left with their old indices.
use robinarb.Base.{ℕ, ◌≡◌, ◌↔◌, refl, arith, [], ◌∷◌, List, none, some}
use robinarb.Base.Word.{done, panic}
use robinarb.Engine.{PoolMeta, Engine, uni_v2_fork, new_engine, register_all, register}
use robinarb.Engine.Registry.{registry_of}
use robinarb.Ingest.Backend.{Log, resolve}
use robinarb.Ingest.Bootstrap.{reindex, reindex_from, decode_u128, from_be}
use robinarb.Ingest.Bootstrap.Resolve.{HasAddress, resolve-HasAddress}

abbrev pool : ℕ → ℕ → PoolMeta
pool idx address = record {
  idx = idx;
  address = address;
  dex = uni_v2_fork;
  factory = 0;
  token0 = 100;
  token1 = 200;
  dec0 = 18;
  dec1 = 6;
  fee_bps = 30;
  fee_pips = 3_000;
  tick_spacing = 1;
  v4 = none;
}

abbrev kept : List PoolMeta
kept = pool 4 11 ∷ pool 9 12 ∷ []

abbrev engine : Engine
engine = registry_of (pool 0 11 ∷ pool 1 12 ∷ [])

built : new_engine (reindex kept) ≡ done engine
unfolding new_engine register_all register reindex reindex_from
built = refl

abbrev log : Log
log = record { address = 12; topics = []; block_number = some 5; log_index = some 0 }

resolve-HasAddress_example : (resolve engine log ≡ some 1) ↔ HasAddress engine.metas 1 12
resolve-HasAddress_example =
    resolve-HasAddress kept engine log 1 built (omega arith) (λ same. omega arith)

-- 32 bytes that no u128 holds.
abbrev wide : List ℕ
wide =
    1 ∷ 0 ∷ 0 ∷ 0 ∷ 0 ∷ 0 ∷ 0 ∷ 0 ∷ 0 ∷ 0 ∷ 0 ∷ 0 ∷ 0 ∷ 0 ∷ 0 ∷ 0 ∷ 0 ∷ 0 ∷ 0 ∷ 0 ∷ 0 ∷ 0 ∷ 0 ∷ 0
    ∷ 0 ∷ 0 ∷ 0 ∷ 0 ∷ 0 ∷ 0 ∷ 0 ∷ 0 ∷ []

wide_panics : decode_u128 wide ≡ panic
unfolding decode_u128 from_be
wide_panics = refl
