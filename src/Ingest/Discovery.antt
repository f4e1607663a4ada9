-- ===== src/Ingest/Discovery.antt =====
-- src/ingest/discovery.rs: the pool of a factory's event, and the scan of a factory in chunks of blocks
-- with the cache file that a later scan goes on from. The reads of logs, the decoding of an event's
-- fields and the timer of the saves are parameters; a save succeeds, and a file that does not load is
-- the empty cache. The recursion of the scan has as fuel one more than the blocks to scan.
pub mod Resumed
mod Tests
use robinarb.Base.{
  ℕ, zero, suc, ◌+◌, ◌-◌, ◌/◌, ◌^◌, min, Bool, true, false, not, ◌&&◌, ◌||◌, List, [], ◌∷◌, ◌++◌,
  Option, none, some, ltb, leb, ◌==◌, if◌then◌else◌,
}
use robinarb.Engine.{
  DexTag, uni_v2_fork, aero_volatile, aero_stable, uni_v3_fork, pancake_v3, slipstream, uni_v4,
}
use robinarb.Ingest.Backend.{Log}
use robinarb.Ingest.Multicall.{get_logs_bisect}

pub record DiscoveredPool : Type 0 where
  pub address : ℕ
  pub dex : DexTag
  pub factory : ℕ
  pub token0 : ℕ
  pub token1 : ℕ
  pub fee_pips : Option ℕ
  pub tick_spacing : Option ℕ
  pub fee_bps : Option ℕ
  pub pool_id : Option ℕ
  pub currency0_raw : Option ℕ

abbrev pub weth : ℕ
weth = 0x0bd7d308f8e1639fab988df18a8011f41eacad73

abbrev pub dynamic_fee_flag : ℕ
dynamic_fee_flag = 0x80_0000

abbrev pub max_lp_fee : ℕ
max_lp_fee = 1_000_000

unfoldable pub v4_pool_from_key :
    (pool_manager pool_id currency0 currency1 fee_pips tick_spacing hooks : ℕ)
    → Option DiscoveredPool
v4_pool_from_key pool_manager pool_id currency0 currency1 fee_pips tick_spacing hooks =
    if not (hooks == 0) || (fee_pips == dynamic_fee_flag || ltb max_lp_fee fee_pips)
    then none
    else if currency0 == 0 && currency1 == weth
    then none
    else some (record {
      address = pool_id / 2 ^ 96;
      dex = uni_v4;
      factory = pool_manager;
      token0 = if currency0 == 0 then weth else currency0;
      token1 = currency1;
      fee_pips = some fee_pips;
      tick_spacing = some tick_spacing;
      fee_bps = none;
      pool_id = some pool_id;
      currency0_raw = some currency0;
    })

-- `dex.kind`.
pub data DexKind : Type 0 where
  kind_v2 : DexKind
  kind_aero : DexKind
  kind_v3 : DexKind
  kind_pancake_v3 : DexKind
  kind_slipstream : DexKind
  kind_v4 : DexKind
  kind_other : DexKind

pub record DexConfig : Type 0 where
  pub kind : DexKind
  pub factory : ℕ
  pub fee_bps : Option ℕ

-- The fields of the events that a factory announces a pool with; `none` does not decode.
pub record FactoryEvents : Type 0 where
  pub pair_created : Log → Option (ℕ × ℕ × ℕ)
  pub aero_created : Log → Option (ℕ × ℕ × ℕ × Bool)
  pub v3_created : Log → Option (ℕ × ℕ × ℕ × ℕ × ℕ)
  pub slipstream_created : Log → Option (ℕ × ℕ × ℕ × ℕ)
  pub initialize : Log → Option (ℕ × ℕ × ℕ × ℕ × ℕ × ℕ)

-- `?` on a decoding.
infixl 20 ◌>>=◌
abbrev pub ◌>>=◌ : {A B : Type 0} → Option A → (A → Option B) → Option B
none >>= f = none
some a >>= f = f a

module _ (dex : DexConfig) where
  abbrev pub announced :
      DexTag
      → (pool token0 token1 : ℕ) → (fee_pips tick_spacing fee_bps : Option ℕ) → DiscoveredPool
  announced tag pool token0 token1 fee_pips tick_spacing fee_bps = record {
    address = pool;
    dex = tag;
    factory = dex.factory;
    token0 = token0;
    token1 = token1;
    fee_pips = fee_pips;
    tick_spacing = tick_spacing;
    fee_bps = fee_bps;
    pool_id = none;
    currency0_raw = none;
  }
      -- `none` is an event that does not decode, `some none` one that is passed over.

  unfoldable pub decode_pool_log : FactoryEvents → Log → Option (Option DiscoveredPool)
  decode_pool_log events log = decode_kind dex.kind
    where
      decode_kind : DexKind → Option (Option DiscoveredPool)
      decode_kind kind_v2 = do
        (token0, token1, pair) ← events.pair_created log
        some (some (announced uni_v2_fork pair token0 token1 none none dex.fee_bps))
      decode_kind kind_aero = do
        (token0, token1, pool, stable) ← events.aero_created log
        some (
            some (
              announced (if stable then aero_stable else aero_volatile) pool token0 token1 none none
                none))
      decode_kind kind_v3 = do
        (token0, token1, fee, spacing, pool) ← events.v3_created log
        some (some (announced uni_v3_fork pool token0 token1 (some fee) (some spacing) none))
      decode_kind kind_pancake_v3 = do
        (token0, token1, fee, spacing, pool) ← events.v3_created log
        some (some (announced pancake_v3 pool token0 token1 (some fee) (some spacing) none))
      decode_kind kind_slipstream = do
        (token0, token1, spacing, pool) ← events.slipstream_created log
        some (some (announced slipstream pool token0 token1 none (some spacing) none))
      decode_kind kind_v4 = do
        (id, currency0, currency1, fee, spacing, hooks) ← events.initialize log
        some (v4_pool_from_key dex.factory id currency0 currency1 fee spacing hooks)
      decode_kind kind_other = some none

pub record DexCache : Type 0 where
  pub last_synced_block : ℕ
  pub pools : List DiscoveredPool

-- The cache in memory, and the one in the file.
pub record Scan : Type 0 where
  pub cache : DexCache
  pub saved : DexCache

abbrev pub push_pool : Option DiscoveredPool → List DiscoveredPool → List DiscoveredPool
push_pool none pools = pools
push_pool (some p) pools = pools ++ p ∷ []

-- A chunk's pools go into the cache, and it into the file when a save is due.
abbrev pub checkpoint : Bool → ℕ → List DiscoveredPool → Scan → Scan
checkpoint save end pools s =
    let cache : DexCache = record { last_synced_block = end; pools = pools } in
    record { cache = cache; saved = if save then cache else s.saved }

-- A read or an event that fails ends the scan.
abbrev pub on_chunk :
    Option (List DiscoveredPool) → (List DiscoveredPool → Scan × Bool) → Scan → Scan × Bool
on_chunk none go s = (s, false)
on_chunk (some pools) go s = go pools

-- The first block to scan: the configured one for an empty cache.
unfoldable pub start_of : ℕ → DexCache → ℕ
start_of first cache = if cache.last_synced_block == 0 then first else cache.last_synced_block + 1

module _ (decode : Log → Option (Option DiscoveredPool)) where
  abbrev pub after_decode :
      Option (Option DiscoveredPool)
      → (List DiscoveredPool → Option (List DiscoveredPool))
      → List DiscoveredPool
      → Option (List DiscoveredPool)
  after_decode none go pools = none
  after_decode (some p) go pools = go (push_pool p pools)

  unfoldable pub push_logs : List Log → List DiscoveredPool → Option (List DiscoveredPool)
  push_logs [] pools = some pools
  push_logs (log ∷ logs) pools = after_decode (decode log) (λ ps. push_logs logs ps) pools

  abbrev pub read_chunk : Option (List Log) → List DiscoveredPool → Option (List DiscoveredPool)
  read_chunk none pools = none
  read_chunk (some logs) pools = push_logs logs pools

  module _ (fetch : ℕ → ℕ → Option (List Log)) (due : ℕ → Bool) (chunk : ℕ) where
    unfoldable pub scan_factory_incremental : (fuel start to : ℕ) → Scan → Scan × Bool
    scan_factory_incremental zero start to s = (s, false)
    scan_factory_incremental (suc fuel) start to s =
        let end = min (start + chunk - 1) to in
        let rest =
          on_chunk (read_chunk (get_logs_bisect fetch start end) s.cache.pools)
            (λ pools.
              scan_factory_incremental fuel (end + 1) to
                (checkpoint (due end || end == to) end pools s))
            s in
        if leb start to then rest else (s, true)

    -- One DEX of `discover_all`, from the file's cache: the scan, and whether it got through.
    unfoldable pub discover : (first head : ℕ) → DexCache → Scan × Bool
    discover first head saved =
        let start = start_of first saved in
        let s : Scan = record { cache = saved; saved = saved } in
        if leb start head
        then scan_factory_incremental (head + 2 - start) start head s
        else (s, true)
