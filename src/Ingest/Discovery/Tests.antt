-- ===== src/Ingest/Discovery/Tests.antt =====
-- A factory with a Uniswap V3 pool announced in block 5, scanned from block 0 in chunks of two blocks.
use robinarb.Base.{ℕ, ◌≡◌, refl, true, ◌&&◌, List, [], ◌∷◌, Option, none, some, leb, if◌then◌else◌}
use robinarb.Engine.{uni_v3_fork}
use robinarb.Ingest.Backend.{Log}
use robinarb.Ingest.Multicall.{get_logs_bisect, bisect}
use robinarb.Ingest.Discovery.{
  DiscoveredPool, DexCache, DexConfig, FactoryEvents, kind_v3, announced, decode_pool_log,
  push_logs, start_of, scan_factory_incremental, discover,
}

abbrev dex : DexConfig
dex = record { kind = kind_v3; factory = 9; fee_bps = none }

abbrev events : FactoryEvents
events = record {
  pair_created = λ l. none;
  aero_created = λ l. none;
  v3_created = λ l. some (100, 200, 3_000, 60, 11);
  slipstream_created = λ l. none;
  initialize = λ l. none;
}

abbrev decode : Log → Option (Option DiscoveredPool)
decode log = decode_pool_log dex events log

abbrev creation : Log
creation = record { address = 9; topics = []; block_number = some 5; log_index = some 2 }

abbrev chain : ℕ → ℕ → List Log
chain a b = if leb a 5 && leb 5 b then creation ∷ [] else []

abbrev fetch : ℕ → ℕ → Option (List Log)
fetch a b = some (chain a b)

-- Reads past block 4 fail.
abbrev cut_off : ℕ → ℕ → Option (List Log)
cut_off a b = if leb b 4 then some (chain a b) else none

abbrev empty : DexCache
empty = record { last_synced_block = 0; pools = [] }

abbrev pool : DiscoveredPool
pool = announced dex uni_v3_fork 11 100 200 (some 3_000) (some 60) none

-- The first run saves its first chunk, and fails on the second.
abbrev first_run : DexCache
first_run = record { last_synced_block = 3; pools = [] }

stops : (discover decode cut_off (λ b. true) 2 0 8 empty).0.saved ≡ first_run
unfolding discover scan_factory_incremental get_logs_bisect bisect push_logs start_of
stops = refl
