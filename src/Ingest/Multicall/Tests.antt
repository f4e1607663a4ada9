-- ===== src/Ingest/Multicall/Tests.antt =====
-- A node that answers for at most two blocks at a time.
use robinarb.Base.{
  ℕ, zero, suc, ◌+◌, ◌*◌, ◌-◌, ◌≤◌, ◌<◌, ◌≡◌, refl, sym, ap, ◌∙◌, arith, List, [], ◌∷◌, ◌++◌,
  Option, none, some, ltb, ◌==◌, if◌then◌else◌, Bool-cases, inl, inr,
}
use mathlib.Core.Option.{some-injective}
use robinarb.Ingest.Multicall.Aggregate.{
  attempts, aggregate_chunks, aggregate3, Answers, Outcome, aggregate3-Outcome,
}
use robinarb.Ingest.Multicall.{Honest, get_logs_bisect, get_logs_bisect-logs, bisect}

-- Each block has one log, its number.
abbrev count : ℕ → ℕ → List ℕ
count a zero = []
count a (suc n) = a ∷ count (a + 1) n

abbrev all_logs : ℕ → ℕ → List ℕ
all_logs a b = count a (b + 1 - a)

abbrev short_reads : ℕ → ℕ → Option (List ℕ)
short_reads a b = if ltb (b - a) 2 then some (all_logs a b) else none

count-append : (a n m : ℕ) → count a n ++ count (a + n) m ≡ count a (n + m)
count-append a zero m =
    let e : a + 0 ≡ a = omega arith in let e' : 0 + m ≡ m = omega arith in rw (e, e') refl
count-append a (suc n) m =
    let e : a + suc n ≡ a + 1 + n = omega arith in
    let e' : suc n + m ≡ suc (n + m) = omega arith in
    rw (e, e') (ap (λ (xs : List ℕ). a ∷ xs) (count-append (a + 1) n m))

joins : (a m b : ℕ) → a ≤ m → m < b → all_logs a m ++ all_logs (m + 1) b ≡ all_logs a b
joins a m b h k =
    let e : m + 1 ≡ a + (m + 1 - a) = omega arith in
    let whole : b + 1 - a ≡ (m + 1 - a) + (b + 1 - (m + 1)) = omega arith in
    ap (λ (x : ℕ). all_logs a m ++ count x (b + 1 - (m + 1))) e
    ∙ count-append a (m + 1 - a) (b + 1 - (m + 1))
    ∙ sym (ap (λ (n : ℕ). count a n) whole)

short_reads-Honest : Honest short_reads all_logs
short_reads-Honest = record {
  exact = λ a b l h. elim (Bool-cases (ltb (b - a) 2)) [
    | inl near ↦ sym (some-injective _ _ (rw near at h))
    | inr far ↦ absurd (cc (rw far at h))
  ];
  single = λ a. let e : a - a ≡ 0 = omega arith in rw e refl;
  joined = λ a m b h k. joins a m b h k;
}

nine_logs : get_logs_bisect short_reads 3 11 ≡ some (3 ∷ 4 ∷ 5 ∷ 6 ∷ 7 ∷ 8 ∷ 9 ∷ 10 ∷ 11 ∷ [])
unfolding get_logs_bisect bisect
nine_logs = refl

get_logs_bisect-logs_example : get_logs_bisect short_reads 3 11 ≡ some (all_logs 3 11)
get_logs_bisect-logs_example =
    get_logs_bisect-logs short_reads all_logs short_reads-Honest 3 11 (omega arith)

-- Each call is answered by its double.
abbrev doubles : List ℕ → List ℕ
doubles [] = []
doubles (x ∷ xs) = x * 2 ∷ doubles xs

abbrev IsDouble : ℕ → ℕ → Type 0
IsDouble c r = r ≡ c * 2

-- The node fails its first request.
abbrev node : ℕ → List ℕ → Option (List ℕ)
node n chunk = if n == 0 then none else some (doubles chunk)

doubles-Answers : (chunk : List ℕ) → Answers node IsDouble chunk (doubles chunk)
doubles-Answers [] = tt
doubles-Answers (x ∷ xs) = (refl, doubles-Answers xs)

node-aligned : (n : ℕ) (chunk rs : List ℕ) → node n chunk ≡ some rs → Answers node IsDouble chunk rs
node-aligned n chunk rs h = elim (Bool-cases (n == 0)) [
  | inl first ↦ let never : none ≡ some rs = rw first at h in absurd (cc)
  | inr later ↦
      let same : doubles chunk ≡ rs = some-injective _ _ (rw later at h) in
      rw (← same) (doubles-Answers chunk)
]

three_doubles : aggregate3 node (1 ∷ 2 ∷ 3 ∷ []) 2 0 ≡ some (2 ∷ 4 ∷ 6 ∷ [])
unfolding aggregate3 aggregate_chunks attempts
three_doubles = refl

aggregate3-Outcome_example :
    Outcome node IsDouble 2 (1 ∷ 2 ∷ 3 ∷ []) 0 (aggregate3 node (1 ∷ 2 ∷ 3 ∷ []) 2 0)
aggregate3-Outcome_example = aggregate3-Outcome node IsDouble node-aligned (1 ∷ 2 ∷ 3 ∷ []) 2 0
