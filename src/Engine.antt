-- ===== src/Engine.antt =====
-- src/engine/types.rs, pool_meta.rs and engine.rs: the protocol tags, a pool's metadata, and the
-- registry of pools with the checks of its constructor. An address, a token, a pool id and a pool
-- index are numbers.
pub mod Registry
mod Tests
use robinarb.Base.{
  ℕ, zero, suc, Bool, true, false, not, ◌||◌, ◌&&◌, List, [], ◌∷◌, ◌++◌, Option, none, some,
  get_elem?, contains, length, ◌==◌, if◌then◌else◌,
}
use robinarb.Base.Word.{Run, done, panic, ◌>>=◌}

pub data DexTag : Type 0 where
  uni_v2_fork : DexTag
  aero_volatile : DexTag
  aero_stable : DexTag
  uni_v3_fork : DexTag
  pancake_v3 : DexTag
  slipstream : DexTag
  uni_v4 : DexTag
  algebra : DexTag

abbrev pub is_v3_family : DexTag → Bool
is_v3_family uni_v3_fork = true
is_v3_family pancake_v3 = true
is_v3_family slipstream = true
is_v3_family _ = false

abbrev pub is_v4 : DexTag → Bool
is_v4 uni_v4 = true
is_v4 _ = false

abbrev pub is_algebra : DexTag → Bool
is_algebra algebra = true
is_algebra _ = false

abbrev pub is_v2_family : DexTag → Bool
is_v2_family uni_v2_fork = true
is_v2_family aero_volatile = true
is_v2_family _ = false

-- `dex == DexTag::AeroStable`
abbrev pub is_aero_stable : DexTag → Bool
is_aero_stable aero_stable = true
is_aero_stable _ = false

pub record V4Meta : Type 0 where
  pub pool_id : ℕ
  pub currency0 : ℕ
  pub currency1 : ℕ
  pub fee_pips : ℕ
  pub tick_spacing : ℕ

-- The two fees are atomics that the fee poller overwrites; a quote reads them once.
pub record PoolMeta : Type 0 where
  pub idx : ℕ
  pub address : ℕ
  pub dex : DexTag
  pub factory : ℕ
  pub token0 : ℕ
  pub token1 : ℕ
  pub dec0 : ℕ
  pub dec1 : ℕ
  pub fee_bps : ℕ
  pub fee_pips : ℕ
  pub tick_spacing : ℕ
  pub v4 : Option V4Meta

-- `by_address` holds its entries in the order of insertion.
pub record Engine : Type 0 where
  pub metas : List PoolMeta
  pub by_address : List (ℕ × ℕ)
  pub head_block : ℕ

abbrev pub is_some {ℓ} : {A : Type ℓ} → Option A → Bool
is_some none = false
is_some (some a) = true

abbrev pub eq_Bool : Bool → Bool → Bool
eq_Bool true b = b
eq_Bool false b = not b

-- What the loop of `Engine::new` has gathered.
pub record Registering : Type 0 where
  pub metas : List PoolMeta
  pub by_address : List (ℕ × ℕ)
  pub pool_ids_seen : List ℕ

abbrev pub keys : List (ℕ × ℕ) → List ℕ
keys [] = []
keys ((k, v) ∷ es) = k ∷ keys es

-- The assertion on the pool id of a V4 pool, which inserts it.
abbrev pub see_pool_id : Option V4Meta → List ℕ → Run (List ℕ)
see_pool_id none seen = done seen
see_pool_id (some v4) seen =
    if contains seen v4.pool_id then panic else done (seen ++ v4.pool_id ∷ [])

-- One round of the loop: three assertions, then the push.
unfoldable pub register : Registering → PoolMeta → Run Registering
register r m =
    if contains (keys r.by_address) m.address
    then panic
    else if not (eq_Bool (is_v4 m.dex) (is_some m.v4))
    then panic
    else (do
      seen ← see_pool_id m.v4 r.pool_ids_seen
      done (record {
        metas = r.metas ++ m ∷ [];
        by_address = r.by_address ++ (m.address, m.idx) ∷ [];
        pool_ids_seen = seen;
      }))

unfoldable pub register_all : Registering → List PoolMeta → Run Registering
unfolding register
register_all r [] = done r
register_all r (m ∷ ms) = do next ← register r m; register_all next ms

unfoldable pub new_engine : List PoolMeta → Run Engine
unfolding register_all
new_engine registrations = do
  r ← register_all (record { metas = []; by_address = []; pool_ids_seen = [] }) registrations
  done (record { metas = r.metas; by_address = r.by_address; head_block = 0 })

abbrev pub or_panic {ℓ} : {A : Type ℓ} → Option A → Run A
or_panic none = panic
or_panic (some a) = done a

-- `&self.metas[idx.get()]`, which panics out of range.
abbrev pub meta : Engine → ℕ → Run PoolMeta
meta e idx = or_panic (get_elem? e.metas idx)

abbrev pub set_head : ℕ → Engine → Engine
set_head block e = record e { head_block = block }
