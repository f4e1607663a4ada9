-- ===== src/Ingest/Discovery/Resumed.antt =====
-- Interrupted scans of src/ingest/discovery.rs.
use robinarb.Base.{ℕ, ◌-◌, ◌≡◌, true, ◌||◌, List, [], Option, some, ltb, leb, ◌==◌, if◌then◌else◌}
use robinarb.Ingest.Backend.{Log}
use robinarb.Ingest.Discovery.{DiscoveredPool, DexCache, push_logs, start_of}

module _ (decode : Log → Option (Option DiscoveredPool)) (logs : ℕ → ℕ → List Log) (first : ℕ) where
  -- The logs from the first block on, below a block.
  abbrev before : ℕ → List Log
  before start = if ltb first start then logs first (start - 1) else []

  -- The pools are those of the logs below a block.
  abbrev pub found : ℕ → Option (List DiscoveredPool)
  found start = push_logs decode (before start) []

  -- The cache's pools are exactly the ones announced up to its block.
  pub record IsSynced (cache : DexCache) : Type 0 where
    pub started : (cache.last_synced_block == 0 || leb first cache.last_synced_block) ≡ true
    pub pools : found (start_of first cache) ≡ some cache.pools
