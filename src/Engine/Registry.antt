-- ===== src/Engine/Registry.antt =====
-- The constructor of the registry of src/engine/engine.rs.
use robinarb.Base.{
  append_assoc, append_nil, ℕ, ◌≡◌, refl, sym, ap, ◌∙◌, arith, Bool, true, false, List, [], ◌∷◌,
  ◌++◌, Option, none, some, All, contains, Distinct, contains-append, Distinct-concat, Bool-cases,
  ◌⊎◌, inl, inr,
}
use robinarb.Base.Word.{Run, done, panic, >>=-eq-done, done-injective}
use robinarb.Engine.{
  PoolMeta, V4Meta, Engine, Registering, is_v4, is_some, eq_Bool, keys, see_pool_id, register,
  register_all, new_engine,
}

-- The pool ids of the V4 pools.
abbrev pub pool_ids : List PoolMeta → List ℕ
pool_ids [] = []
pool_ids (m ∷ ms) = elim m.v4 [ none ↦ pool_ids ms | some v4 ↦ v4.pool_id ∷ pool_ids ms ]

abbrev pub addresses : List PoolMeta → List ℕ
addresses [] = []
addresses (m ∷ ms) = m.address ∷ addresses ms

-- What `new_engine` asserts: no address and no V4 pool id occurs twice, and a pool has a V4
-- identity exactly when its tag says so.
pub record Registrable (ms : List PoolMeta) : Type 0 where
  pub unique_addresses : Distinct (addresses ms)
  pub unique_ids : Distinct (pool_ids ms)
  pub tags : All (λ (m : PoolMeta). is_v4 m.dex ≡ is_some m.v4) ms

abbrev to_entry : PoolMeta → ℕ × ℕ
to_entry m = (m.address, m.idx)

-- The map of addresses that the registry ends with.
abbrev pub entries : List PoolMeta → List (ℕ × ℕ)
entries [] = []
entries (m ∷ ms) = (m.address, m.idx) ∷ entries ms

abbrev id_list : Option V4Meta → List ℕ
id_list none = []
id_list (some v4) = v4.pool_id ∷ []

-- What can still be registered after `r`.
record Fits (r : Registering) (ms : List PoolMeta) : Type 0 where
  addresses_left : Distinct (keys r.by_address ++ addresses ms)
  ids_left : Distinct (r.pool_ids_seen ++ pool_ids ms)
  tags_left : All (λ (m : PoolMeta). is_v4 m.dex ≡ is_some m.v4) ms

Distinct-fresh :
    (xs : List ℕ) (a : ℕ) (ys : List ℕ) → Distinct (xs ++ a ∷ ys) → contains xs a ≡ false
Distinct-fresh [] a ys d = refl
Distinct-fresh (x ∷ xs) a ys d =
    ground (arith, contains-append xs (a ∷ ys) x, Distinct-fresh xs a ys d.1)

keys-append : (xs : List (ℕ × ℕ)) (a i : ℕ) → keys (xs ++ (a, i) ∷ []) ≡ keys xs ++ a ∷ []
keys-append [] a i = refl
keys-append ((k, v) ∷ xs) a i = ap (λ (ks : List ℕ). k ∷ ks) (keys-append xs a i)

-- The registry with one more pool in it.
abbrev added : Registering → PoolMeta → Registering
added r m = record {
  metas = r.metas ++ m ∷ [];
  by_address = r.by_address ++ (m.address, m.idx) ∷ [];
  pool_ids_seen = r.pool_ids_seen ++ id_list m.v4;
}

pool_ids-split :
    (m : PoolMeta) (ms : List PoolMeta) → pool_ids (m ∷ ms) ≡ id_list m.v4 ++ pool_ids ms
pool_ids-split m ms = go m.v4
  where
    go :
        (v : Option V4Meta)
        → (elim v [ none ↦ pool_ids ms | some v4 ↦ v4.pool_id ∷ pool_ids ms ])
          ≡ id_list v ++ pool_ids ms
    go none = refl
    go (some v4) = refl

eq_Bool-eq : (a b : Bool) → a ≡ b → eq_Bool a b ≡ true
eq_Bool-eq true true h = refl
eq_Bool-eq true false h = sym h
eq_Bool-eq false true h = h
eq_Bool-eq false false h = refl

see_pool_id-fresh :
    (v : Option V4Meta) (seen rest : List ℕ)
    → Distinct (seen ++ (id_list v ++ rest))
    → see_pool_id v seen ≡ done (seen ++ id_list v)
see_pool_id-fresh none seen rest d = ap done (sym (append_nil seen))
see_pool_id-fresh (some v4) seen rest d = rw (Distinct-fresh seen v4.pool_id rest d) refl

register-Fits :
    (r : Registering) (m : PoolMeta) (ms : List PoolMeta)
    → Fits r (m ∷ ms)
    → (register r m ≡ done (added r m)) × Fits (added r m) ms
unfolding register
register-Fits r m ms fits = (
  rw
      (
        Distinct-fresh (keys r.by_address) m.address (addresses ms) fits.addresses_left,
        eq_Bool-eq _ _ fits.tags_left.0,
        see_pool_id-fresh m.v4 r.pool_ids_seen (pool_ids ms)
            (rw (pool_ids-split m ms) at fits.ids_left),
      )
      refl,
  record {
    addresses_left =
        rw
          (
            keys-append r.by_address m.address m.idx,
            append_assoc (keys r.by_address) (m.address ∷ []) (addresses ms),
          )
          fits.addresses_left;
    ids_left =
        rw (append_assoc r.pool_ids_seen (id_list m.v4) (pool_ids ms), ← pool_ids-split m ms)
          fits.ids_left;
    tags_left = fits.tags_left.1;
  },
)

register_all-Fits :
    (r : Registering) (ms : List PoolMeta)
    → Fits r ms
    → (ids : List ℕ) × (register_all r ms
        ≡ done (record {
          metas = r.metas ++ ms;
          by_address = r.by_address ++ entries ms;
          pool_ids_seen = ids;
        }))
unfolding register_all
register_all-Fits r [] fits =
    (r.pool_ids_seen, rw (append_nil r.metas, append_nil r.by_address) refl)
register_all-Fits r (m ∷ ms) fits =
    let (e, fits') = register-Fits r m ms fits in
    let (ids, e') = register_all-Fits (added r m) ms fits' in
    (
      ids,
      rw
          (
            e,
            e',
            append_assoc r.metas (m ∷ []) ms,
            append_assoc r.by_address ((m.address, m.idx) ∷ []) (entries ms),
          )
          refl,
    )

-- The registry of the given pools.
abbrev pub registry_of : List PoolMeta → Engine
registry_of ms = record { metas = ms; by_address = entries ms; head_block = 0 }

complete : (ms : List PoolMeta) → Registrable ms → new_engine ms ≡ done (registry_of ms)
unfolding new_engine
complete ms h =
    let start : Registering = record { metas = []; by_address = []; pool_ids_seen = [] } in
    let fits : Fits start ms = record {
      addresses_left = h.unique_addresses;
      ids_left = h.unique_ids;
      tags_left = h.tags;
    } in
    let (ids, e) = register_all-Fits start ms fits in rw e refl

record Clean (r : Registering) : Type 0 where
  clean_addresses : Distinct (keys r.by_address)
  clean_ids : Distinct r.pool_ids_seen

eq_Bool-true : (a b : Bool) → eq_Bool a b ≡ true → a ≡ b
eq_Bool-true true true h = refl
eq_Bool-true true false h = sym h
eq_Bool-true false true h = h
eq_Bool-true false false h = refl

-- A pool id that passes the assertion was not there before.
see_pool_id-Distinct :
    (v : Option V4Meta) (seen ids : List ℕ)
    → Distinct seen
    → see_pool_id v seen ≡ done ids
    → (ids ≡ seen ++ id_list v) × Distinct ids
see_pool_id-Distinct none seen ids d h =
    let e : seen ≡ ids = cc in (sym e ∙ sym (append_nil seen), rw (← e) d)
see_pool_id-Distinct (some v4) seen ids d h = elim (Bool-cases (contains seen v4.pool_id)) [
  | inl old ↦ absurd (cc (rw old at h))
  | inr new ↦
      let e : seen ++ v4.pool_id ∷ [] ≡ ids = cc (rw new at h) in
      (sym e, rw (← e) (Distinct-concat seen v4.pool_id d new))
]

register_sound :
    (r : Registering) (m : PoolMeta) (r1 : Registering)
    → Clean r
    → register r m ≡ done r1
    → (r1 ≡ added r m) × (is_v4 m.dex ≡ is_some m.v4) × Clean r1
unfolding register
register_sound r m r1 clean h = elim (Bool-cases (contains (keys r.by_address) m.address)) [
  | inl old ↦ absurd (cc (rw old at h))
  | inr new ↦ elim (Bool-cases (eq_Bool (is_v4 m.dex) (is_some m.v4))) [
    | inr mismatch ↦ absurd (cc (rw (new, mismatch) at h))
    | inl matched ↦
        let (ids, seen, built) =
          >>=-eq-done (see_pool_id m.v4 r.pool_ids_seen) _ (rw (new, matched) at h) in
        let (e, distinct) = see_pool_id-Distinct m.v4 r.pool_ids_seen ids clean.clean_ids seen in
        let same : added r m ≡ r1 =
          ap
            (λ (seen : List ℕ). record {
              metas = r.metas ++ m ∷ [];
              by_address = r.by_address ++ (m.address, m.idx) ∷ [];
              pool_ids_seen = seen;
            })
            (sym e)
          ∙ done-injective built in
        (
          sym same,
          eq_Bool-true _ _ matched,
          rw (← same) (record {
            clean_addresses =
                rw (keys-append r.by_address m.address m.idx)
                  (Distinct-concat (keys r.by_address) m.address clean.clean_addresses new);
            clean_ids = rw (← e) distinct;
          }),
        )
  ]
]

register_all_sound :
    (r : Registering) (ms : List PoolMeta) (r' : Registering)
    → Clean r
    → register_all r ms ≡ done r'
    → Fits r ms
unfolding register_all
register_all_sound r [] r' clean h = record {
  addresses_left = rw (append_nil (keys r.by_address)) clean.clean_addresses;
  ids_left = rw (append_nil r.pool_ids_seen) clean.clean_ids;
  tags_left = tt;
}
register_all_sound r (m ∷ ms) r' clean h =
    let (r1, e, h') = >>=-eq-done (register r m) _ h in
    let (same, tag, clean') = register_sound r m r1 clean e in
    let fits = rw same at (register_all_sound r1 ms r' clean' h') in
    record {
      addresses_left =
          rw
            (
              ← append_assoc (keys r.by_address) (m.address ∷ []) (addresses ms),
              ← keys-append r.by_address m.address m.idx,
            )
            fits.addresses_left;
      ids_left =
          rw (pool_ids-split m ms, ← append_assoc r.pool_ids_seen (id_list m.v4) (pool_ids ms))
            fits.ids_left;
      tags_left = (tag, fits.tags_left);
    }

sound : (ms : List PoolMeta) (e : Engine) → new_engine ms ≡ done e → Registrable ms
unfolding new_engine
sound ms e h =
    let start : Registering = record { metas = []; by_address = []; pool_ids_seen = [] } in
    let (r', h', _) = >>=-eq-done (register_all start ms) _ h in
    let fits =
      register_all_sound start ms r' (record { clean_addresses = tt; clean_ids = tt }) h' in
    record {
      unique_addresses = fits.addresses_left;
      unique_ids = fits.ids_left;
      tags = fits.tags_left;
    }

outcome : (r : Run Engine) → (r ≡ panic) ⊎ ((e : Engine) × (r ≡ done e))
outcome (done e) = inr (e, refl)
outcome panic = inl refl

-- The constructor of the registry returns exactly on the lists of pools with distinct addresses,
-- distinct V4 pool ids, and V4 identities where the tags say so; the registry then holds the pools
-- in their order, and each address with its pool's index. On any other list it panics.
pub new_engine-Registrable :
    (ms : List PoolMeta)
    → (Registrable ms × (new_engine ms ≡ done (registry_of ms)))
      ⊎ (¬ Registrable ms × (new_engine ms ≡ panic))
new_engine-Registrable ms = elim (outcome (new_engine ms)) [
  | inl stuck ↦ inr (λ h. let e = complete ms h in cc, stuck)
  | inr (e, h) ↦ let good = sound ms e h in inl (good, complete ms good)
]
