-- ===== src/Ingest/Pipeline/Announced.antt =====
-- The pools in the batches of src/ingest/pipeline.rs.
use robinarb.Base.{
  ℕ, ◌≡◌, refl, sym, ap, arith, Bool, true, false, not, ◌&&◌, ◌||◌, List, [], ◌∷◌, ◌++◌, Option,
  none, some, contains, ◌==◌, ltb, Bool-cases, inl, inr,
}
use robinarb.Base.Int.{ℤ}
use robinarb.Base.Word.{done, >>=-eq-done, done-injective}
use robinarb.Engine.{meta}
use robinarb.Routing.Store.{RouteStore}
use robinarb.State.{ChainState, SlotPlan, v2_packed, v2_two_slot, cl, Words, advance_and_prefetch}
use robinarb.State.Windows.{patch_cl_ticks}
use robinarb.State.Neighborhood.{add-contains}
use robinarb.Ingest.Pipeline.{
  new_head, pool_log, resync, Input, event, quiet, Batch, Pipeline, seal_list, seal, seal_if, patch,
  on_head, open_for, on_log, resync_all, on_event, on_quiet, quiet_if, run_inputs, run_pipeline,
}

-- Some batch lists the pool.
abbrev pub announced : List Batch → ℕ → Bool
announced [] q = false
announced (b ∷ bs) q = contains b.pools q || announced bs q

-- The pool waits for a seal or was announced.
abbrev pub kept : Pipeline → ℕ → Bool
kept p q = contains p.dirty q || announced p.sent q

-- Some log among the inputs is of the pool.
abbrev pub logged : List (Words × Input) → ℕ → Bool
logged [] q = false
logged ((rpc, event (new_head number fee)) ∷ inputs) q = logged inputs q
logged ((rpc, event (pool_log block idx ticks)) ∷ inputs) q = idx == q || logged inputs q
logged ((rpc, event resync) ∷ inputs) q = logged inputs q
logged ((rpc, quiet) ∷ inputs) q = logged inputs q

announced-append :
    (bs : List Batch) (b : Batch) (q : ℕ)
    → announced (bs ++ b ∷ []) q ≡ (announced bs q || contains b.pools q)
announced-append [] b q = ground arith
announced-append (c ∷ bs) b q = ground (arith, announced-append bs b q)

module _ (keccak256 : List ℕ → ℕ) (store : RouteStore) (q : ℕ) where
  -- A step from `p` to `p'` forgets no pool, and leaves the flag as it was.
  abbrev Keeps : Pipeline → Pipeline → Type 0
  Keeps p p' = (kept p q ≡ true → kept p' q ≡ true) × (p'.have_open ≡ p.have_open)

  sent-Keeps :
      (p : Pipeline) (chain : ChainState)
      → Keeps p (record p {
        chain = chain;
        dirty = [];
        sent = p.sent ++ (record { block = p.open_block; pools = p.dirty }) ∷ [];
      })
  sent-Keeps p chain =
      let batch : Batch = record { block = p.open_block; pools = p.dirty } in
      (λ h. ground (arith, announced-append p.sent batch q), refl)

  seal_list-Keeps :
      (rpc : Words) (p p' : Pipeline) (ds : List ℕ)
      → p.dirty ≡ ds
      → seal_list keccak256 store rpc p ds ≡ done p'
      → Keeps p p' × (p'.dirty ≡ [])
  seal_list-Keeps rpc p p' [] e h =
      let same : p ≡ p' = done-injective h in rw (← same) ((λ k. k, refl), e)
  seal_list-Keeps rpc p p' (d ∷ ds) e h =
      let (chain, moved, built) =
        >>=-eq-done (advance_and_prefetch rpc store p.open_block p.dirty p.chain) _ h in
      rw (← done-injective built) (sent-Keeps p chain, refl)

  seal-Keeps :
      (rpc : Words) (p p' : Pipeline)
      → seal keccak256 store rpc p ≡ done p'
      → Keeps p p' × (p'.dirty ≡ [])
  unfolding seal
  seal-Keeps rpc p p' h = seal_list-Keeps rpc p p' p.dirty refl h

  seal_if-Keeps :
      (b : Bool) (rpc : Words) (p p' : Pipeline)
      → seal_if keccak256 store b rpc p ≡ done p'
      → Keeps p p'
  seal_if-Keeps true rpc p p' h = (seal-Keeps rpc p p' h).0
  seal_if-Keeps false rpc p p' h =
      let same : p ≡ p' = done-injective h in rw (← same) (λ k. k, refl)

  -- The step remembers what was known before it.
  abbrev Remembers : Pipeline → Pipeline → Type 0
  Remembers p p' = kept p q ≡ true → kept p' q ≡ true

  on_head-kept :
      (rpc : Words) (number fee : ℕ) (p p' : Pipeline)
      → on_head keccak256 store rpc number fee p ≡ done p'
      → Remembers p p'
  unfolding on_head
  on_head-kept rpc number fee p p' h k =
      let (p1, sealed, built) =
        >>=-eq-done (seal_if keccak256 store (p.have_open && ltb p.open_block number) rpc p) _ h in
      rw (← done-injective built) ((seal_if-Keeps _ rpc p p1 sealed).0 k)

  open_for-kept :
      (rpc : Words) (block : ℕ) (p p' : Pipeline)
      → open_for keccak256 store rpc block p ≡ done p'
      → Remembers p p'
  open_for-kept rpc block p p' h k = elim (Bool-cases (ltb p.open_block block)) [
    | inl later ↦
        let (p1, sealed, built) =
          >>=-eq-done (seal_if keccak256 store p.have_open rpc p) _ (rw later at h) in
        rw (← done-injective built) ((seal_if-Keeps _ rpc p p1 sealed).0 k)
    | inr same ↦ let e : p ≡ p' = done-injective (rw same at h) in rw (← e) k
  ]

  unpatched : (p p' : Pipeline) → done p ≡ done p' → (p'.dirty ≡ p.dirty) × (p'.sent ≡ p.sent)
  unpatched p p' h = let e : p ≡ p' = done-injective h in rw (← e) (refl, refl)

  patch-kept :
      (rpc : Words) (idx : ℕ) (ticks : Option (ℤ × ℤ)) (sp : Option SlotPlan) (p p' : Pipeline)
      → patch keccak256 store rpc idx ticks sp p ≡ done p'
      → (p'.dirty ≡ p.dirty) × (p'.sent ≡ p.sent)
  patch-kept rpc idx (some (lo, hi)) (some (cl c)) p p' h =
      let (m, known, h1) = >>=-eq-done (meta p.engine idx) _ h in
      let (chain, patched, built) =
        >>=-eq-done
          (patch_cl_ticks keccak256 rpc c.addr c.ticks_base c.bitmap_base m.tick_spacing
            (lo ∷ hi ∷ []) p.chain)
          _ h1 in
      let e : record p { chain = chain } ≡ p' = done-injective built in
      (ap (λ (s : Pipeline). s.dirty) (sym e), ap (λ (s : Pipeline). s.sent) (sym e))
  patch-kept rpc idx (some (lo, hi)) (some (v2_packed a s)) p p' h = unpatched p p' h
  patch-kept rpc idx (some (lo, hi)) (some (v2_two_slot a s)) p p' h = unpatched p p' h
  patch-kept rpc idx (some (lo, hi)) none p p' h = unpatched p p' h
  patch-kept rpc idx none sp p p' h = unpatched p p' h

  on_log-kept :
      (rpc : Words) (block idx : ℕ) (ticks : Option (ℤ × ℤ)) (p p' : Pipeline)
      → on_log keccak256 store rpc block idx ticks p ≡ done p'
      → Remembers p p' × (idx ≡ q → kept p' q ≡ true)
  unfolding on_log
  on_log-kept rpc block idx ticks p p' h =
      let (p1, opened, h1) = >>=-eq-done (open_for keccak256 store rpc block p) _ h in
      let (dirty, sent) = patch-kept rpc idx ticks _ _ p' h1 in
      let added = add-contains p1.dirty idx q in
      let now : kept p' q ≡ ((contains p1.dirty q || idx == q) || announced p1.sent q) =
        rw (dirty, sent, added) refl in
      (λ k. let old = open_for-kept rpc block p p1 opened k in ground arith, λ e. ground arith)

  more_sent :
      (p : Pipeline) (b : Batch)
      → kept p q ≡ true
      → (contains p.dirty q || announced (p.sent ++ b ∷ []) q) ≡ true
  more_sent p b k = ground (arith, announced-append p.sent b q)

  resync-kept : (rpc : Words) (p : Pipeline) → Remembers p (resync_all keccak256 store rpc p)
  unfolding resync_all
  resync-kept rpc p k = more_sent p _ k

  quiet_if-kept :
      (b : Bool) (rpc : Words) (p p' : Pipeline)
      → quiet_if keccak256 store b rpc p ≡ done p'
      → Remembers p p'
  quiet_if-kept true rpc p p' h k =
      let (p1, sealed, built) = >>=-eq-done (seal keccak256 store rpc p) _ h in
      rw (← done-injective built) ((seal-Keeps rpc p p1 sealed).0.0 k)
  quiet_if-kept false rpc p p' h k = let e : p ≡ p' = done-injective h in rw (← e) k

  run_inputs-kept :
      (inputs : List (Words × Input)) (p p' : Pipeline)
      → run_inputs keccak256 store inputs p ≡ done p'
      → (kept p q || logged inputs q) ≡ true
      → kept p' q ≡ true
  unfolding run_inputs on_event on_quiet
  run_inputs-kept [] p p' h k = let e : p ≡ p' = done-injective h in rw (← e) (ground arith)
  run_inputs-kept ((rpc, event (new_head number fee)) ∷ inputs) p p' h k =
      let (p1, stepped, h1) = >>=-eq-done (on_head keccak256 store rpc number fee p) _ h in
      run_inputs-kept inputs p1 p' h1 (ground (arith, on_head-kept rpc number fee p p1 stepped))
  run_inputs-kept ((rpc, event (pool_log block idx ticks)) ∷ inputs) p p' h k =
      let (p1, stepped, h1) = >>=-eq-done (on_log keccak256 store rpc block idx ticks p) _ h in
      let (old, new) = on_log-kept rpc block idx ticks p p1 stepped in
      run_inputs-kept inputs p1 p' h1 (ground arith)
  run_inputs-kept ((rpc, event resync) ∷ inputs) p p' h k =
      run_inputs-kept inputs (resync_all keccak256 store rpc p) p' h
        (ground (arith, resync-kept rpc p))
  run_inputs-kept ((rpc, quiet) ∷ inputs) p p' h k =
      let (p1, stepped, h1) = >>=-eq-done (on_quiet keccak256 store rpc p) _ h in
      run_inputs-kept inputs p1 p' h1 (ground (arith, quiet_if-kept p.have_open rpc p p1 stepped))

  last_seal :
      (b : Bool) (rpc : Words) (p p' : Pipeline)
      → p.have_open ≡ b
      → seal_if keccak256 store b rpc p ≡ done p'
      → kept p q ≡ true
      → (kept p' q ≡ true) × ((not p'.have_open || announced p'.sent q) ≡ true)
  last_seal true rpc p p' o h k =
      let ((keeps, same), empty) = seal-Keeps rpc p p' h in
      let known : (contains p'.dirty q || announced p'.sent q) ≡ true = keeps k in
      (known, ground (arith, rw empty at known))
  last_seal false rpc p p' o h k =
      let e : p ≡ p' = done-injective h in
      let shut : p'.have_open ≡ false = rw e at o in (rw e at k, ground arith)

-- When the pipeline has run to the close of its channel, each pool with a log among its inputs is in
-- a batch that was sent or still marked dirty; it is in a batch if a block was open at the end.
pub run_pipeline-announces :
    (keccak256 : List ℕ → ℕ) (store : RouteStore) (inputs : List (Words × Input)) (rpc : Words)
    (p p' : Pipeline) (q : ℕ)
    → run_pipeline keccak256 store inputs rpc p ≡ done p'
    → logged inputs q ≡ true
    → (kept p' q ≡ true) × ((not p'.have_open || announced p'.sent q) ≡ true)
unfolding run_pipeline
run_pipeline-announces keccak256 store inputs rpc p p' q h l =
    let (p1, ran, sealed) = >>=-eq-done (run_inputs keccak256 store inputs p) _ h in
    last_seal keccak256 store q p1.have_open rpc p1 p' refl sealed
      (run_inputs-kept keccak256 store q inputs p p1 ran (ground arith))
