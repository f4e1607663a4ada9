-- ===== src/Ingest/Fees/Announced.antt =====
-- The fees that a round of src/ingest/fees.rs writes, and the pools that it announces.
use robinarb.Base.{
  ℕ, zero, suc, ◌*◌, ◌/◌, ◌%◌, ◌^◌, ◌≡◌, ◌⊎◌, refl, ap, ◌∙◌, arith, Bool, true, false, not, ◌&&◌,
  ==_iff, List, [], ◌∷◌, ◌++◌, Option, none, some, get_elem?, contains, contains-append, ◌==◌,
  Bool-cases, inl, inr,
}
use robinarb.Base.Word.{done, >>=-eq-done, done-injective}
use robinarb.Engine.{PoolMeta, Engine, or_panic}
use robinarb.Routing.Store.{RouteStore}
use robinarb.State.{
  ChainState, SlotPlan, v2_packed, v2_two_slot, cl, ClFee, from_meta, from_word, plan, Words,
  prefetch_neighborhood,
}
use robinarb.Ingest.Pipeline.{Batch}
use robinarb.Ingest.Fees.{
  is_word_fee, reads_fee, without_word_fee, Poller, Polled, set_at, set_pips, set_bps, on_fee,
  apply_fees, on_answers, flag_again, cl_targets, on_sweep, aero_pools, announce, poll_round,
}

set_at-other :
    (ms : List PoolMeta) (j i : ℕ) (m : PoolMeta)
    → (j == i) ≡ false
    → get_elem? (set_at ms j m) i ≡ get_elem? ms i
set_at-other [] j i m h = refl
set_at-other (x ∷ xs) zero zero m h = cc
set_at-other (x ∷ xs) zero (suc i) m h = refl
set_at-other (x ∷ xs) (suc j) zero m h = refl
set_at-other (x ∷ xs) (suc j) (suc i) m h = set_at-other xs j i m (ground arith)

module _ (old : List PoolMeta) (i : ℕ) where
  -- The metadata at the place is the old one, or the pool is among the changed ones.
  abbrev Tracks : Polled → Type 0
  Tracks p = (get_elem? p.metas i ≡ get_elem? old i) ⊎ (contains p.changed i ≡ true)

  written-Tracks :
      (p : Polled) (j : ℕ) (m : PoolMeta)
      → Tracks p
      → Tracks (record { metas = set_at p.metas j m; changed = p.changed ++ j ∷ [] })
  written-Tracks p j m (inr listed) = inr (ground (arith, contains-append p.changed (j ∷ []) i))
  written-Tracks p j m (inl kept) = elim (Bool-cases (j == i)) [
    | inl same ↦ inr (ground (arith, contains-append p.changed (j ∷ []) i))
    | inr other ↦ inl (set_at-other p.metas j i m other ∙ kept)
  ]

  set_pips-Tracks : (j fee : ℕ) (m : PoolMeta) (p : Polled) → Tracks p → Tracks (set_pips j fee m p)
  unfolding set_pips
  set_pips-Tracks j fee m p h = elim (Bool-cases (m.fee_pips == fee)) [
    | inl same ↦ rw same h
    | inr new ↦ rw new (written-Tracks p j (record m { fee_pips = fee; fee_bps = fee / 100 }) h)
  ]

  set_bps-Tracks : (j fee : ℕ) (m : PoolMeta) (p : Polled) → Tracks p → Tracks (set_bps j fee m p)
  unfolding set_bps
  set_bps-Tracks j fee m p h = elim (Bool-cases (m.fee_bps == fee)) [
    | inl same ↦ rw same h
    | inr new ↦
        rw new (written-Tracks p j (record m { fee_bps = fee; fee_pips = fee * 100 % 2 ^ 32 }) h)
  ]

  module _ (set : ℕ → ℕ → PoolMeta → Polled → Polled)
      (keep : (j fee : ℕ) (m : PoolMeta) (p : Polled) → Tracks p → Tracks (set j fee m p)) where
    on_fee-Tracks :
        (j : ℕ) (answer : Option ℕ) (p p' : Polled)
        → on_fee set j answer p ≡ done p'
        → Tracks p
        → Tracks p'
    on_fee-Tracks j none p p' e h = let same : p ≡ p' = done-injective e in rw (← same) h
    on_fee-Tracks j (some fee) p p' e h =
        let (m, known, e1) = >>=-eq-done (or_panic (get_elem? p.metas j)) _ e in
        let same : set j fee m p ≡ p' = done-injective e1 in rw (← same) (keep j fee m p h)

    apply_fees-Tracks :
        (targets : List ℕ) (answers : List (Option ℕ)) (p p' : Polled)
        → apply_fees set targets answers p ≡ done p'
        → Tracks p
        → Tracks p'
    unfolding apply_fees
    apply_fees-Tracks [] answers p p' e h = let same : p ≡ p' = done-injective e in rw (← same) h
    apply_fees-Tracks (j ∷ js) [] p p' e h = let same : p ≡ p' = done-injective e in rw (← same) h
    apply_fees-Tracks (j ∷ js) (r ∷ rs) p p' e h =
        let (p1, set_one, e1) = >>=-eq-done (on_fee set j r p) _ e in
        apply_fees-Tracks js rs p1 p' e1 (on_fee-Tracks j r p p1 set_one h)

    on_answers-Tracks :
        (targets : List ℕ) (answers : Option (List (Option ℕ))) (p p' : Polled)
        → on_answers set targets answers p ≡ done p'
        → Tracks p
        → Tracks p'
    on_answers-Tracks targets none p p' e h = let same : p ≡ p' = done-injective e in rw (← same) h
    on_answers-Tracks targets (some rs) p p' e h = apply_fees-Tracks targets rs p p' e h

  on_sweep-Tracks :
      (sweep : Bool) (targets : List ℕ) (answers : Option (List (Option ℕ))) (p p' : Polled)
      → on_sweep sweep targets answers p ≡ done p'
      → Tracks p
      → Tracks p'
  on_sweep-Tracks true targets answers p p' e h =
      on_answers-Tracks set_bps set_bps-Tracks targets answers p p' e h
  on_sweep-Tracks false targets answers p p' e h =
      let same : p ≡ p' = done-injective e in rw (← same) h

-- A batch of the head's block that names the pool went out after those sent before.
abbrev pub Announces : List Batch → Engine → ℕ → List Batch → Type 0
Announces before e i after =
    (b : Batch) × (after ≡ before ++ b ∷ [])
    × (b.block ≡ e.head_block)
    × (contains b.pools i ≡ true)

announce-Announces :
    (rpc : Words) (store : RouteStore) (changed : List ℕ) (i : ℕ) (p p' : Poller)
    → announce rpc store changed p ≡ done p'
    → (p'.engine ≡ p.engine)
      × (p'.fee_recheck ≡ p.fee_recheck)
      × (contains changed i ≡ true → Announces p.sent p.engine i p'.sent)
announce-Announces rpc store [] i p p' e =
    let same : p ≡ p' = done-injective e in rw (← same) (refl, refl, λ listed. cc)
announce-Announces rpc store (c ∷ cs) i p p' e =
    let (chain, read, e1) = >>=-eq-done (prefetch_neighborhood rpc store (c ∷ cs) p.chain) _ e in
    let batch : Batch = record { block = p.engine.head_block; pools = c ∷ cs } in
    let same : record p { chain = chain; sent = p.sent ++ batch ∷ [] } ≡ p' = done-injective e1 in
    rw (← same) (refl, refl, λ listed. (batch, refl, refl, listed))

-- The pool's fee is read from a word of its storage.
abbrev pub fee_in_word : Option SlotPlan → Bool
fee_in_word (some (cl p)) = elim p.fee [ from_word shift ↦ true | from_meta ↦ false ]
fee_in_word _ = false

-- Whether a pool is flagged after a round: not when the poll of the CL pools was answered; when it failed,
-- on a sweep each CL pool is, and otherwise each pool that was, unless its fee is read from a word.
abbrev pub IsFlagged :
    Option (List (Option ℕ)) → Bool → List ℕ → (before after : Poller) → ℕ → Type 0
IsFlagged (some answers) sweep cl_pools p p' i = contains p'.fee_recheck i ≡ false
IsFlagged none true cl_pools p p' i = contains p'.fee_recheck i ≡ contains cl_pools i
IsFlagged none false cl_pools p p' i =
    contains p'.fee_recheck i ≡ (contains p.fee_recheck i && not (fee_in_word (plan p.chain i)))

reads_fee_lem : (o : Option SlotPlan) → reads_fee o ≡ fee_in_word o
reads_fee_lem none = refl
reads_fee_lem (some (v2_packed a s)) = refl
reads_fee_lem (some (v2_two_slot a s)) = refl
reads_fee_lem (some (cl p)) = by_fee p.fee
  where
    by_fee : (f : ClFee) → is_word_fee f ≡ elim f [ from_word shift ↦ true | from_meta ↦ false ]
    by_fee (from_word shift) = refl
    by_fee from_meta = refl

contains-without_word_fee :
    (st : ChainState) (is : List ℕ) (i : ℕ)
    → contains (without_word_fee st is) i ≡ (contains is i && not (fee_in_word (plan st i)))
unfolding without_word_fee
contains-without_word_fee st [] i = refl
contains-without_word_fee st (j ∷ js) i =
    let rest = contains-without_word_fee st js i in
    elim (Bool-cases (j == i)) [
      | inr other ↦ elim (Bool-cases (reads_fee (plan st j))) [
        | inl word ↦ rw (word, other) rest
        | inr no_word ↦ rw (no_word, other) rest
      ]
      | inl same ↦
          let at : j ≡ i = (==_iff j i).0 same in
          let kept : reads_fee (plan st j) ≡ fee_in_word (plan st i) =
            reads_fee_lem (plan st j) ∙ ap (λ (k : ℕ). fee_in_word (plan st k)) at in
          elim (Bool-cases (fee_in_word (plan st i))) [
            | inl word ↦
                let w : reads_fee (plan st j) ≡ true = kept ∙ word in
                rw (w, rest, word, same) (ground arith)
            | inr no_word ↦
                let w : reads_fee (plan st j) ≡ false = kept ∙ no_word in rw (w, same, no_word) refl
          ]
    ]

flag_again-IsFlagged :
    (answers : Option (List (Option ℕ))) (sweep : Bool) (cl_pools : List ℕ) (p p' : Poller) (i : ℕ)
    → p'.fee_recheck ≡ flag_again answers (cl_targets sweep cl_pools p)
    → IsFlagged answers sweep cl_pools p p' i
flag_again-IsFlagged (some rs) sweep cl_pools p p' i h = rw h refl
flag_again-IsFlagged none true cl_pools p p' i h = rw h refl
flag_again-IsFlagged none false cl_pools p p' i h =
    rw h (contains-without_word_fee p.chain p.fee_recheck i)

-- After a round of the poller, whatever its polls answered, a pool's metadata is as before, or one new
-- batch of the head's block names the pool. When the poll of the CL pools was answered no pool is
-- flagged for the next round; when it failed, exactly its targets are: on a sweep the CL pools, and
-- otherwise the pools flagged before whose fee is not read from a storage word.
pub poll_round-Announces :
    (rpc : Words) (store : RouteStore) (cl_pools : List ℕ) (sweep : Bool)
    (cl_answers aero_answers : Option (List (Option ℕ))) (p p' : Poller) (i : ℕ)
    → poll_round rpc store cl_pools sweep cl_answers aero_answers p ≡ done p'
    → ((get_elem? p'.engine.metas i ≡ get_elem? p.engine.metas i)
        ⊎ Announces p.sent p.engine i p'.sent)
      × IsFlagged cl_answers sweep cl_pools p p' i
unfolding poll_round
poll_round-Announces rpc store cl_pools sweep cl_answers aero_answers p p' i e =
    let targets = cl_targets sweep cl_pools p in
    let before : Polled = record { metas = p.engine.metas; changed = [] } in
    let (polled, read, e1) = >>=-eq-done (on_answers set_pips targets cl_answers before) _ e in
    let (after, swept, e2) =
      >>=-eq-done (on_sweep sweep (aero_pools p.engine.metas) aero_answers polled) _ e1 in
    let tracked =
      on_sweep-Tracks p.engine.metas i sweep (aero_pools p.engine.metas) aero_answers polled after
        swept
        (on_answers-Tracks p.engine.metas i set_pips (set_pips-Tracks p.engine.metas i) targets
          cl_answers before polled read (inl refl)) in
    let (engine, same, sent) = announce-Announces rpc store after.changed i _ p' e2 in
    let flags = flag_again-IsFlagged cl_answers sweep cl_pools p p' i same in
    elim tracked [
      | inl kept ↦ (inl (ap (λ (e' : Engine). get_elem? e'.metas i) engine ∙ kept), flags)
      | inr listed ↦ (inr (sent listed), flags)
    ]
