-- ===== src/Ingest/Bootstrap/Resolve.antt =====
-- The indices of src/ingest/bootstrap.rs as src/ingest/backend.rs finds them by address.
use robinarb.Base.{
  ℕ, zero, suc, ◌+◌, ◌%◌, ◌^◌, ◌≤◌, ◌≡◌, ◌≢◌, ◌↔◌, refl, sym, ap, ◌∙◌, arith, true, false, List, [],
  ◌∷◌, some, contains, Distinct, length, get_elem?, ◌==◌, ==_iff, Bool-cases, inl, inr,
}
use robinarb.Base.Word.{done, done-injective}
use robinarb.Engine.{PoolMeta, Engine, new_engine}
use robinarb.Engine.Registry.{addresses, entries, registry_of, new_engine-Registrable}
use robinarb.State.Plans.{univ4_pool_manager}
use robinarb.Ingest.Backend.{Log, find_pool, resolve}
use robinarb.Ingest.Bootstrap.{reindex_from, reindex}

some-eq : {a b : ℕ} → some a ≡ some b → a ≡ b
some-eq h = cc

-- The pool at the place `k` has the address.
abbrev pub HasAddress : List PoolMeta → ℕ → ℕ → Type 0
HasAddress ms k a = (m : PoolMeta) × (get_elem? ms k ≡ some m) × (m.address ≡ a)

found_at :
    (ms : List PoolMeta) (i a j : ℕ)
    → i + length ms ≤ 2 ^ 32
    → find_pool (entries (reindex_from i ms)) a ≡ some j
    → (k : ℕ) × (j ≡ i + k) × HasAddress (reindex_from i ms) k a
unfolding reindex_from
found_at [] i a j fits h = cc
found_at (m ∷ ms) i a j fits h = elim (Bool-cases (m.address == a)) [
  | inl same ↦
      let here : i % 2 ^ 32 ≡ j = some-eq (rw same at h) in
      (0, omega arith, (record m { idx = i % 2 ^ 32 }, refl, (==_iff m.address a).0 same))
  | inr other ↦
      let (k, at, held) = found_at ms (i + 1) a j (omega arith) (rw other at h) in
      (suc k, omega arith, held)
]

address_listed :
    (ms : List PoolMeta) (i k a : ℕ)
    → HasAddress (reindex_from i ms) k a
    → contains (addresses (reindex_from i ms)) a ≡ true
unfolding reindex_from
address_listed [] i k a (m', held, addr) = cc
address_listed (m ∷ ms) i zero a (m', held, addr) =
    let same : record m { idx = i % 2 ^ 32 } ≡ m' = cc in
    let at : m.address ≡ a = ap (λ (x : PoolMeta). x.address) same ∙ addr in ground arith
address_listed (m ∷ ms) i (suc k) a held = ground (arith, address_listed ms (i + 1) k a held)

found_by :
    (ms : List PoolMeta) (i k a : ℕ)
    → i + length ms ≤ 2 ^ 32
    → Distinct (addresses (reindex_from i ms))
    → HasAddress (reindex_from i ms) k a
    → find_pool (entries (reindex_from i ms)) a ≡ some (i + k)
unfolding reindex_from
found_by [] i k a fits distinct (m', held, addr) = cc
found_by (m ∷ ms) i zero a fits distinct (m', held, addr) =
    let same : record m { idx = i % 2 ^ 32 } ≡ m' = cc in
    let at : m.address ≡ a = ap (λ (x : PoolMeta). x.address) same ∙ addr in ground arith
found_by (m ∷ ms) i (suc k) a fits distinct held =
    let listed = address_listed ms (i + 1) k a held in
    let next : i + 1 + k ≡ i + suc k = omega arith in
    elim (Bool-cases (m.address == a)) [
      | inl same ↦
          let at : m.address ≡ a = (==_iff m.address a).0 same in
          let fresh : contains (addresses (reindex_from (i + 1) ms)) m.address ≡ false =
            distinct.0 in
          absurd (cc (rw at at fresh))
      | inr other ↦ rw other (found_by ms (i + 1) k a (omega arith) distinct.1 held ∙ ap some next)
    ]

-- In the registry built from at most 2^32 pools with their indices renewed, a log that is not the
-- V4 manager's resolves to an index exactly when the pool at that index has the log's address.
pub resolve-HasAddress :
    (ms : List PoolMeta) (e : Engine) (log : Log) (i : ℕ)
    → new_engine (reindex ms) ≡ done e
    → length ms ≤ 2 ^ 32
    → log.address ≢ univ4_pool_manager
    → ((resolve e log ≡ some i) ↔ HasAddress e.metas i log.address)
unfolding resolve reindex
resolve-HasAddress ms e log i built fits plain = elim (new_engine-Registrable (reindex ms)) [
  | inr (bad, panics) ↦ absurd (cc)
  | inl (good, same) ↦
      let is : e ≡ registry_of (reindex_from 0 ms) = done-injective (sym built ∙ same) in
      let other : (log.address == univ4_pool_manager) ≡ false = ground arith in
      rw (is, other)
        (
          λ h.
              let (k, at, held) = found_at ms 0 log.address i (omega arith) h in
              let here : k ≡ i = omega arith in rw here at held,
          λ held.
              found_by ms 0 i log.address (omega arith) good.unique_addresses held
              ∙ ap some {x = 0 + i} {y = i} (omega arith),
        )
]
