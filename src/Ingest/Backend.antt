-- ===== src/Ingest/Backend.antt =====
-- src/ingest/backend.rs: the pool that a log belongs to, and the ticks that it touched. The decoders of
-- the three events are generated code and parameters.
use robinarb.Base.{ℕ, ◌/◌, ◌^◌, List, [], ◌∷◌, Option, none, some, get_elem?, ◌==◌, if◌then◌else◌}
use robinarb.Base.Int.{ℤ}
use robinarb.Engine.{Engine}
use robinarb.State.Plans.{univ4_pool_manager}

pub record Log : Type 0 where
  pub address : ℕ
  pub topics : List ℕ
  pub block_number : Option ℕ
  pub log_index : Option ℕ

pub record EventDecoders : Type 0 where
  pub mint : Log → Option (ℤ × ℤ)
  pub burn : Log → Option (ℤ × ℤ)
  pub modify_liquidity : Log → Option (ℤ × ℤ)

abbrev pub or_else {ℓ} : {A : Type ℓ} → Option A → Option A → Option A
or_else none next = next
or_else (some a) next = some a

unfoldable pub decode_touched_ticks : EventDecoders → Log → Option (ℤ × ℤ)
decode_touched_ticks events log =
    or_else (events.mint log) (or_else (events.burn log) (events.modify_liquidity log))

-- `by_address.get(&address)`
abbrev pub find_pool : List (ℕ × ℕ) → ℕ → Option ℕ
find_pool [] address = none
find_pool ((a, idx) ∷ rest) address = if a == address then some idx else find_pool rest address

-- The synthetic address of a V4 pool: the first 20 bytes of its 32-byte id.
abbrev pub by_pool_id : Engine → Option ℕ → Option ℕ
by_pool_id engine none = none
by_pool_id engine (some pool_id) = find_pool engine.by_address (pool_id / 2 ^ 96)

unfoldable pub resolve : Engine → Log → Option ℕ
resolve engine log =
    if log.address == univ4_pool_manager
    then by_pool_id engine (get_elem? log.topics 1)
    else find_pool engine.by_address log.address
