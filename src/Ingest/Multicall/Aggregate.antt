-- ===== src/Ingest/Multicall/Aggregate.antt =====
-- src/ingest/multicall.rs, `aggregate3`: calls in batches, each with its attempts. The node is the
-- parameter `call`: the answer to its n-th request, where `none` is an error. The waits between the
-- attempts are left out. The recursion over the batches has as fuel the number of calls.
use robinarb.Base.{
  ℕ, zero, suc, ◌+◌, ◌-◌, ◌≤◌, ◌<◌, max, ◌*◌, append_assoc, length-append, refl, sym, ◌≡◌, ap, ◌∙◌,
  arith, List, [], ◌∷◌, ◌++◌, Option, none, some, length, take, ◌==◌, Bool-cases, Option-cases, inl,
  inr,
}

abbrev pub after_chunk {ℓ} : {A : Type ℓ} → ℕ → List A → List A
after_chunk zero xs = xs
after_chunk (suc n) [] = []
after_chunk (suc n) (x ∷ xs) = after_chunk n xs

module _ {Call Answer : Type 0} (call : ℕ → List Call → Option (List Answer)) where
  -- An answer ends the attempts.
  abbrev pub or_again :
      Option (List Answer) → ℕ → Option (List Answer) × ℕ → Option (List Answer) × ℕ
  or_again (some r) n again = (some r, n + 1)
  or_again none n again = again

  -- The loop over the attempts that are left, and the number of the next request.
  unfoldable pub attempts : ℕ → List Call → ℕ → Option (List Answer) × ℕ
  attempts zero chunk n = (none, n)
  attempts (suc left) chunk n = or_again (call n chunk) n (attempts left chunk (n + 1))

  abbrev pub extend_with : Option (List Answer) → Option (List Answer) → Option (List Answer)
  extend_with none rest = none
  extend_with (some r) none = none
  extend_with (some r) (some rest) = some (r ++ rest)

  unfoldable pub aggregate_chunks : (fuel batch : ℕ) → List Call → ℕ → Option (List Answer)
  aggregate_chunks fuel batch [] n = some []
  aggregate_chunks zero batch (c ∷ cs) n = none
  aggregate_chunks (suc fuel) batch (c ∷ cs) n =
      let tried = attempts 5 (take batch (c ∷ cs)) n in
      extend_with tried.0 (aggregate_chunks fuel batch (after_chunk batch (c ∷ cs)) tried.1)

  unfoldable pub aggregate3 : List Call → (batch n : ℕ) → Option (List Answer)
  aggregate3 calls batch n = aggregate_chunks (length calls) (max batch 1) calls n

  -- Each answer belongs to the call in its place.
  module _ (IsAnswer : Call → Answer → Type 0) where
    abbrev pub Answers : List Call → List Answer → Type 0
    Answers [] [] = Unit
    Answers [] (r ∷ rs) = ⊥
    Answers (c ∷ cs) [] = ⊥
    Answers (c ∷ cs) (r ∷ rs) = IsAnswer c r × Answers cs rs

  -- One batch of the calls, of at least one and at most `size` calls that stand side by side, has
  -- failed five requests in a row, after the `n`-th one and no more than five for each call before the batch.
  pub record FailedBatch (size : ℕ) (calls : List Call) (n : ℕ) : Type 0 where
    pub before : List Call
    pub chunk : List Call
    pub after : List Call
    pub split : calls ≡ before ++ (chunk ++ after)
    pub some_call : 0 < length chunk
    pub few : length chunk ≤ size
    pub first : ℕ
    pub earliest : n ≤ first
    pub latest : first ≤ n + 5 * length before
    pub failed : (i : ℕ) → i < 5 → call (first + i) chunk ≡ none

  abbrev pub Outcome : (Call → Answer → Type 0) → ℕ → List Call → ℕ → Option (List Answer) → Type 0
  Outcome IsAnswer size calls n none = FailedBatch size calls n
  Outcome IsAnswer size calls n (some rs) = Answers IsAnswer calls rs

  module _ (IsAnswer : Call → Answer → Type 0)
      (aligned : (n : ℕ) (chunk : List Call) (rs : List Answer)
        → call n chunk ≡ some rs
        → Answers IsAnswer chunk rs) where
    Answers-append :
        (batch : ℕ) (calls : List Call) (rs rest : List Answer)
        → Answers IsAnswer (take batch calls) rs
        → Answers IsAnswer (after_chunk batch calls) rest
        → Answers IsAnswer calls (rs ++ rest)
    Answers-append zero calls [] rest h k = k
    Answers-append zero calls (r ∷ rs) rest h k = absurd h
    Answers-append (suc n) [] [] rest h k = k
    Answers-append (suc n) [] (r ∷ rs) rest h k = absurd h
    Answers-append (suc n) (c ∷ cs) [] rest h k = absurd h
    Answers-append (suc n) (c ∷ cs) (r ∷ rs) rest h k = (h.0, Answers-append n cs rs rest h.1 k)

    after_chunk-length :
        (n : ℕ) (c : Call) (cs : List Call) → 1 ≤ n → length (after_chunk n (c ∷ cs)) ≤ length cs
    after_chunk-length zero c cs h = absurd (omega arith)
    after_chunk-length (suc zero) c cs h = omega arith
    after_chunk-length (suc (suc n)) c [] h = omega arith
    after_chunk-length (suc (suc n)) c (d ∷ ds) h =
        let shorter = after_chunk-length (suc n) d ds (omega arith) in omega arith

    take-append : (n : ℕ) (cs : List Call) → take n cs ++ after_chunk n cs ≡ cs
    take-append zero cs = refl
    take-append (suc n) [] = refl
    take-append (suc n) (c ∷ cs) = ap (λ (xs : List Call). c ∷ xs) (take-append n cs)

    length-take_le : (n : ℕ) (cs : List Call) → length (take n cs) ≤ n
    length-take_le zero cs = omega arith
    length-take_le (suc n) [] = omega arith
    length-take_le (suc n) (c ∷ cs) = omega (arith, length-take_le n cs)

    take-some : (n : ℕ) (c : Call) (cs : List Call) → 1 ≤ n → 0 < length (take n (c ∷ cs))
    take-some zero c cs h = absurd (omega arith)
    take-some (suc n) c cs h = omega arith

    -- The attempts make at most as many requests as are left.
    attempts-next :
        (left : ℕ) (chunk : List Call) (n : ℕ)
        → (n ≤ (attempts left chunk n).1) × ((attempts left chunk n).1 ≤ n + left)
    unfolding attempts
    attempts-next zero chunk n = (omega arith, omega arith)
    attempts-next (suc left) chunk n = elim (Option-cases (call n chunk)) [
      | inr (r, e) ↦ rw e (omega arith, omega arith)
      | inl failed ↦
          let (lo, hi) = attempts-next left chunk (n + 1) in rw failed (omega arith, omega arith)
    ]

    -- A batch that failed among the calls after a chunk failed among all of them.
    failed_later :
        (size : ℕ) (calls chunk left : List Call) (n m : ℕ)
        → chunk ++ left ≡ calls
        → 0 < length chunk
        → n ≤ m
        → m ≤ n + 5
        → FailedBatch size left m
        → FailedBatch size calls n
    failed_later size calls chunk left n m whole some_call lo hi f =
        let counted = length-append chunk f.before in
        record {
          before = chunk ++ f.before;
          chunk = f.chunk;
          after = f.after;
          split =
              sym whole
              ∙ ap (λ (xs : List Call). chunk ++ xs) f.split
              ∙ sym (append_assoc chunk f.before (f.chunk ++ f.after));
          some_call = f.some_call;
          few = f.few;
          first = f.first;
          earliest = let e = f.earliest in omega arith;
          latest = let l = f.latest in omega (arith, counted);
          failed = f.failed;
        }

    attempts-failed :
        (left : ℕ) (chunk : List Call) (n : ℕ)
        → (attempts left chunk n).0 ≡ none
        → (i : ℕ) → i < left
        → call (n + i) chunk ≡ none
    unfolding attempts
    attempts-failed zero chunk n h i k = absurd (omega arith)
    attempts-failed (suc left) chunk n h i k = elim (Option-cases (call n chunk)) [
      | inr (r, e) ↦ let never : some r ≡ none = rw e at h in absurd (cc)
      | inl failed ↦ elim (Bool-cases (i == 0)) [
        | inl first ↦
            let here : n + i ≡ n = ground arith in ap (λ (m : ℕ). call m chunk) here ∙ failed
        | inr later ↦
            let here : n + i ≡ n + 1 + (i - 1) = ground arith in
            ap (λ (m : ℕ). call m chunk) here
            ∙ attempts-failed left chunk (n + 1) (rw failed at h) (i - 1) (ground arith)
      ]
    ]

    attempts-Answers :
        (left : ℕ) (chunk : List Call) (n : ℕ) (rs : List Answer)
        → (attempts left chunk n).0 ≡ some rs
        → Answers IsAnswer chunk rs
    unfolding attempts
    attempts-Answers zero chunk n rs h = absurd (cc)
    attempts-Answers (suc left) chunk n rs h = elim (Option-cases (call n chunk)) [
      | inr (r, e) ↦ let same : some r ≡ some rs = rw e at h in aligned n chunk rs (e ∙ same)
      | inl failed ↦ attempts-Answers left chunk (n + 1) rs (rw failed at h)
    ]

    aggregate_chunks-Outcome :
        (fuel batch : ℕ) (calls : List Call) (n : ℕ)
        → 1 ≤ batch
        → length calls ≤ fuel
        → Outcome IsAnswer batch calls n (aggregate_chunks fuel batch calls n)
    unfolding aggregate_chunks
    aggregate_chunks-Outcome fuel batch [] n some_batch enough = tt
    aggregate_chunks-Outcome zero batch (c ∷ cs) n some_batch enough = absurd (omega arith)
    aggregate_chunks-Outcome (suc fuel) batch (c ∷ cs) n some_batch enough =
        let chunk = take batch (c ∷ cs) in
        let tried = attempts 5 chunk n in
        let left = after_chunk batch (c ∷ cs) in
        let shorter = after_chunk-length batch c cs some_batch in
        let rest = aggregate_chunks-Outcome fuel batch left tried.1 some_batch (omega arith) in
        elim (Option-cases tried.0) [
          | inl failed ↦ rw failed (record {
            before = [];
            chunk = chunk;
            after = left;
            split = sym (take-append batch (c ∷ cs));
            some_call = take-some batch c cs some_batch;
            few = length-take_le batch (c ∷ cs);
            first = n;
            earliest = omega arith;
            latest = omega arith;
            failed = attempts-failed 5 chunk n failed;
          })
          | inr (r, e) ↦
              let now = attempts-Answers 5 chunk n r e in
              elim (Option-cases (aggregate_chunks fuel batch left tried.1)) [
                | inl stopped ↦
                    let (lo, hi) = attempts-next 5 chunk n in
                    rw (e, stopped)
                      (failed_later batch (c ∷ cs) chunk left n tried.1 (take-append batch (c ∷ cs))
                        (take-some batch c cs some_batch) lo hi (rw stopped at rest))
                | inr (rs, more) ↦
                    rw (e, more) (Answers-append batch (c ∷ cs) r rs now (rw more at rest))
              ]
        ]

    -- When a request that succeeds returns one answer for each call, in their order, the batches return
    -- one answer for each of the calls, in their order, whatever the size of a batch; they end with
    -- an error only when five requests in a row have failed for one batch of the calls, which is not
    -- empty and no larger than the size (or one).
    pub aggregate3-Outcome :
        (calls : List Call) (batch n : ℕ)
        → Outcome IsAnswer (max batch 1) calls n (aggregate3 calls batch n)
    unfolding aggregate3
    aggregate3-Outcome calls batch n =
        aggregate_chunks-Outcome (length calls) (max batch 1) calls n (omega arith) (omega arith)
