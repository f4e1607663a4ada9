-- ===== src/Ingest/Multicall.antt =====
-- src/ingest/multicall.rs, `get_logs_bisect`: a range of blocks is halved until its reads succeed. A
-- read, with its retries, is the parameter `fetch`; `none` is its final error. The recursion has as
-- fuel the length of the range, which halving cannot use up.
pub mod Aggregate
mod Tests
use native.Mathlib.Decide.{dec_lt}
use robinarb.Base.{
  ℕ, zero, suc, ◌+◌, ◌-◌, ◌/◌, ◌≤◌, ◌<◌, ◌≡◌, refl, sym, ap, ◌∙◌, arith, Bool, true, false, List,
  [], ◌∷◌, ◌++◌, Option, none, some, leb, ◌==◌, if◌then◌else◌, Bool-cases, Option-cases, inl, inr,
}

module _ {A : Type 0} (fetch : ℕ → ℕ → Option (List A)) where
  -- Both halves, or the error of the first that fails.
  abbrev pub both : Option (List A) → Option (List A) → Option (List A)
  both none right = none
  both (some l) none = none
  both (some l) (some r) = some (l ++ r)

  -- The answer of the whole range, or what the halves give; a single block has none.
  abbrev pub or_halves : Option (List A) → Bool → Option (List A) → Option (List A)
  or_halves (some l) single halves = some l
  or_halves none true halves = none
  or_halves none false halves = halves

  unfoldable pub bisect : ℕ → ℕ → ℕ → Option (List A)
  bisect zero from to = none
  bisect (suc fuel) from to =
      let mid = from + (to - from) / 2 in
      or_halves (fetch from to) (leb to from)
        (both (bisect fuel from mid) (bisect fuel (mid + 1) to))

  unfoldable pub get_logs_bisect : ℕ → ℕ → Option (List A)
  unfolding bisect
  get_logs_bisect from to = bisect (suc (to - from)) from to

  -- What a read promises about the logs of the chain.
  pub record Honest (logs : ℕ → ℕ → List A) : Type 0 where
    pub exact : (a b : ℕ) (l : List A) → fetch a b ≡ some l → l ≡ logs a b
    pub single : (a : ℕ) → fetch a a ≡ some (logs a a)
    pub joined : (a m b : ℕ) → a ≤ m → m < b → logs a m ++ logs (m + 1) b ≡ logs a b

  module _ (logs : ℕ → ℕ → List A) (honest : Honest logs) where
    bisect-logs :
        (fuel from to : ℕ)
        → from ≤ to
        → to - from < fuel
        → bisect fuel from to ≡ some (logs from to)
    unfolding bisect
    bisect-logs zero from to h k = absurd (omega arith)
    bisect-logs (suc fuel) from to h k = elim (Option-cases (fetch from to)) [
      | inr (l, e) ↦ rw e (ap some (honest.exact from to l e))
      | inl failed ↦ elim (dec_lt from to) [
        | no top ↦
            let same : to ≡ from = omega arith in
            let one : fetch from to ≡ some (logs from from) = rw same (honest.single from) in
            absurd (cc)
        | yes wide ↦
            let mid = from + (to - from) / 2 in
            let more : leb to from ≡ false = ground arith in
            let left = bisect-logs fuel from mid (omega arith) (omega arith) in
            let right = bisect-logs fuel (mid + 1) to (omega arith) (omega arith) in
            rw (failed, more, left, right)
              (ap some (honest.joined from mid to (omega arith) (omega arith)))
      ]
    ]

    -- When reads that succeed return the logs of their range, and reads of a single block succeed, the
    -- bisection succeeds on every range, and returns its logs in order, whatever wider reads fail.
    pub get_logs_bisect-logs :
        (from to : ℕ) → from ≤ to → get_logs_bisect from to ≡ some (logs from to)
    unfolding get_logs_bisect
    get_logs_bisect-logs from to h = bisect-logs (suc (to - from)) from to h (omega arith)

  module _ (logs : ℕ → ℕ → List A)
      (exact : (a b : ℕ) (l : List A) → fetch a b ≡ some l → l ≡ logs a b)
      (joined : (a m b : ℕ) → a ≤ m → m < b → logs a m ++ logs (m + 1) b ≡ logs a b) where
    bisect-exact :
        (fuel from to : ℕ) (l : List A)
        → from ≤ to
        → bisect fuel from to ≡ some l
        → l ≡ logs from to
    unfolding bisect
    bisect-exact zero from to l le h = absurd (cc)
    bisect-exact (suc fuel) from to l le h = elim (Option-cases (fetch from to)) [
      | inr (read, e) ↦ exact from to l (e ∙ (rw e at h))
      | inl failed ↦ elim (Bool-cases (leb to from)) [
        | inl single ↦ let never : none ≡ some l = rw (failed, single) at h in absurd (cc)
        | inr wide ↦
            let mid = from + (to - from) / 2 in
            elim (Option-cases (bisect fuel from mid)) [
              | inl no_left ↦
                  let never : none ≡ some l = rw (failed, wide, no_left) at h in absurd (cc)
              | inr (left, e1) ↦ elim (Option-cases (bisect fuel (mid + 1) to)) [
                | inl no_right ↦
                    let never : none ≡ some l = rw (failed, wide, e1, no_right) at h in absurd (cc)
                | inr (right, e2) ↦
                    let same : some (left ++ right) ≡ some l = rw (failed, wide, e1, e2) at h in
                    let a : left ≡ logs from mid =
                      bisect-exact fuel from mid left (omega arith) e1 in
                    let b : right ≡ logs (mid + 1) to =
                      bisect-exact fuel (mid + 1) to right (ground arith) e2 in
                    let all = joined from mid to (omega arith) (ground arith) in cc
              ]
            ]
      ]
    ]

    -- When reads that succeed return the logs of their range, so does the bisection, whichever reads
    -- fail.
    pub get_logs_bisect-exact :
        (from to : ℕ) (l : List A) → from ≤ to → get_logs_bisect from to ≡ some l → l ≡ logs from to
    unfolding get_logs_bisect
    get_logs_bisect-exact from to l le h = bisect-exact (suc (to - from)) from to l le h
