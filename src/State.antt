-- ===== src/State.antt =====
-- src/state.rs: the memo of the block, the persistent tick cache, the read recipes and the prefetch.
-- An RPC read of a storage word is the parameter `rpc`, `none` for a failed call; the answers of one
-- batch are those of one function. The counters of reads are left out.
pub mod Prefetch
pub mod Neighborhood
pub mod TickReader
pub mod Windows
pub mod Plans
pub mod TickResync
mod Tests
use robinarb.Base.{
  ℕ, zero, suc, ◌+◌, ◌%◌, ◌^◌, Bool, true, false, ◌&&◌, ◌||◌, List, [], ◌∷◌, ◌++◌, Option, none,
  some, get_elem?, contains, ◌==◌, if◌then◌else◌,
}
use robinarb.Base.Word.{Run, done, panic, add256, ◌>>=◌}
use robinarb.Routing.{Hop, Route}
use robinarb.Routing.Store.{RouteStore, routes_for_pool, route}

pub data TickCodec : Type 0 where
  packed : TickCodec
  two_word : TickCodec

pub data ClFee : Type 0 where
  from_meta : ClFee
  from_word : ℕ → ClFee

-- The fields of `SlotPlan::Cl`.
pub record ClPlan : Type 0 where
  pub addr : ℕ
  pub slot0 : ℕ
  pub liquidity : ℕ
  pub liquidity_shift : ℕ
  pub ticks_base : ℕ
  pub bitmap_base : ℕ
  pub tick_codec : TickCodec
  pub fee : ClFee

pub data SlotPlan : Type 0 where
  v2_packed : ℕ → ℕ → SlotPlan
  v2_two_slot : ℕ → ℕ → SlotPlan
  cl : ClPlan → SlotPlan

-- A map from (address, slot) to the word read there.
abbrev pub Words : Type 0
Words = ℕ → ℕ → Option ℕ

abbrev pub insert : Words → ℕ → ℕ → ℕ → Words
insert m addr slot v = λ a s. if addr == a && slot == s then some v else m a s

pub record ChainState : Type 0 where
  pub tip : ℕ
  pub memo : Words
  pub tick_cache : Words
  pub plans : List (Option SlotPlan)

abbrev pub flat {ℓ} : {A : Type ℓ} → Option (Option A) → Option A
flat none = none
flat (some o) = o

abbrev pub plan : ChainState → ℕ → Option SlotPlan
plan st idx = flat (get_elem? st.plans idx)

abbrev pub read_words : Option ℕ → Option ℕ → ℕ
read_words (some v) _ = v
read_words none (some v) = v
read_words none none = 0

-- The memo first, then the tick cache, then zero.
unfoldable pub read : ChainState → ℕ → ℕ → ℕ
read st addr slot = read_words (st.memo addr slot) (st.tick_cache addr slot)

abbrev pub read_tick_cache_checked : ChainState → ℕ → ℕ → Option ℕ
read_tick_cache_checked st addr slot = st.tick_cache addr slot

-- What a finished call leaves: a failed one leaves the map as it was.
abbrev pub store_answer : ChainState → Bool → ℕ → ℕ → Option ℕ → ChainState
store_answer st into_tick_cache addr slot none = st
store_answer st true addr slot (some v) = record st {
  tick_cache = insert st.tick_cache addr slot v;
}
store_answer st false addr slot (some v) = record st { memo = insert st.memo addr slot v }

unfoldable pub prefetch_into : Words → List (ℕ × ℕ) → Bool → ChainState → ChainState
prefetch_into rpc [] into_tick_cache st = st
prefetch_into rpc ((addr, slot) ∷ pairs) into_tick_cache st =
    prefetch_into rpc pairs into_tick_cache
      (store_answer st into_tick_cache addr slot (rpc addr slot))

abbrev pub prefetch : Words → List (ℕ × ℕ) → ChainState → ChainState
prefetch rpc pairs st = prefetch_into rpc pairs false st

abbrev pub prefetch_ticks : Words → List (ℕ × ℕ) → ChainState → ChainState
prefetch_ticks rpc pairs st = prefetch_into rpc pairs true st

abbrev pub plan_slots : SlotPlan → List (ℕ × ℕ)
plan_slots (v2_packed addr slot) = (addr, slot) ∷ []
plan_slots (v2_two_slot addr r0) = (addr, r0) ∷ (addr, add256 r0 1) ∷ []
plan_slots (cl p) = (p.addr, p.slot0) ∷ (p.addr, p.liquidity) ∷ []

-- `set.insert(x)`; the order of the set is that of the first insertions.
abbrev pub add : List ℕ → ℕ → List ℕ
add set x = if contains set x then set else set ++ x ∷ []

abbrev pub add_hops : List ℕ → List Hop → List ℕ
add_hops set [] = set
add_hops set (hop ∷ hops) = add_hops (add set hop.pool) hops

abbrev pub add_routes : RouteStore → List ℕ → List ℕ → Run (List ℕ)
add_routes store set [] = done set
add_routes store set (id ∷ ids) = do r ← route store id; add_routes store (add_hops set r.hops) ids

abbrev pub add_neighbors : RouteStore → List ℕ → List ℕ → Run (List ℕ)
add_neighbors store set [] = done set
add_neighbors store set (p ∷ dirty) = do
  set' ← add_routes store set (routes_for_pool store p)
  add_neighbors store set' dirty

abbrev pub slots_of : Option SlotPlan → List (ℕ × ℕ)
slots_of none = []
slots_of (some p) = plan_slots p

abbrev pub pool_slots : ChainState → List ℕ → List (ℕ × ℕ)
pool_slots st [] = []
pool_slots st (idx ∷ pools) = slots_of (plan st idx) ++ pool_slots st pools

abbrev pub collect : List ℕ → List ℕ → List ℕ
collect set [] = set
collect set (p ∷ ps) = collect (add set p) ps

unfoldable pub prefetch_neighborhood : Words → RouteStore → List ℕ → ChainState → Run ChainState
prefetch_neighborhood rpc store dirty st = do
  neighborhood ← add_neighbors store (collect [] dirty) dirty
  done (prefetch rpc (pool_slots st neighborhood) st)

unfoldable pub advance_to : ℕ → ChainState → ChainState
advance_to tip st = record st { memo = λ a s. none; tip = tip }

unfoldable pub advance_and_prefetch : Words → RouteStore → ℕ → List ℕ → ChainState → Run ChainState
advance_and_prefetch rpc store tip dirty st =
    prefetch_neighborhood rpc store dirty (advance_to tip st)

-- `prefetch_all`, over the pools of the registry.
unfoldable pub prefetch_all : Words → List ℕ → ChainState → ChainState
prefetch_all rpc pools st = prefetch rpc (pool_slots st pools) st
