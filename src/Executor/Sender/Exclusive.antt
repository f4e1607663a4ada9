-- ===== src/Executor/Sender/Exclusive.antt =====
-- The routes of the tasks that src/executor/sender.rs spawns, against the in-flight set.
use robinarb.Base.{
  ℕ, ◌+◌, ◌≤◌, ◌≡◌, arith, Bool, true, false, List, [], ◌∷◌, ◌++◌, contains, ◌==◌, if◌then◌else◌,
  Bool-cases, inl, inr,
}
use robinarb.Routing.Store.{RouteStore}
use robinarb.Routing.Evaluator.{EvaluatedOpportunity}
use robinarb.Executor.Sender.{
  ExecutionConfig, suppressed, start, Outcome, moves, ends, dies, remove, refresh_own_balances,
  advance,
}
use robinarb.Executor.Sender.Moves.{sender_of, advance-Keeps}
use robinarb.Executor.Sender.System.{
  Task, System, route_of, check_blacklist, enter_in_flight, release, moved, Step, receive, enter,
  task, refresh, Reach, here, next, AnyStep,
}

abbrev pub one_if : Bool → ℕ
one_if true = 1
one_if false = 0

-- How many tasks submit for the route.
abbrev pub tasks_for : ℕ → List Task → ℕ
tasks_for r [] = 0
tasks_for r (t ∷ ts) = one_if (route_of t == r) + tasks_for r ts

-- At most one task submits for a route, and it is in the set.
abbrev pub IsExclusive : System → Type 0
IsExclusive s = (r : ℕ) → tasks_for r s.tasks ≤ one_if (contains s.sender.in_flight r)

pub tasks_for-append :
    (r : ℕ) (xs ys : List Task) → tasks_for r (xs ++ ys) ≡ tasks_for r xs + tasks_for r ys
tasks_for-append r [] ys = omega arith
tasks_for-append r (x ∷ xs) ys = omega (arith, tasks_for-append r xs ys)

pub contains-remove :
    (q r : ℕ) (xs : List ℕ) → contains (remove q xs) r ≡ (if q == r then false else contains xs r)
contains-remove q r [] = ground arith
contains-remove q r (x ∷ xs) = ground (arith, contains-remove q r xs)

module _ (store : RouteStore) (cfg : ExecutionConfig) (anchors : List ℕ) where
  moved-IsExclusive :
      (before : List Task) (t : Task) (after : List Task) (o : Outcome) (s : System)
      → s.tasks ≡ before ++ t ∷ after
      → (sender_of o).in_flight ≡ s.sender.in_flight
      → IsExclusive s
      → IsExclusive (moved before t after o s)
  unfolding moved release
  moved-IsExclusive before t after (moves phase u) s split same ex r =
      let counted = tasks_for-append r before (t ∷ after) in
      let now = tasks_for-append r before (record t { phase = phase } ∷ after) in
      let old : tasks_for r (before ++ t ∷ after) ≤ one_if (contains s.sender.in_flight r) =
        rw (← split) (ex r) in
      rw same (omega (arith, old, counted, now))
  moved-IsExclusive before t after (ends u) s split same ex r =
      let counted = tasks_for-append r before (t ∷ after) in
      let now = tasks_for-append r before after in
      let old : tasks_for r (before ++ t ∷ after) ≤ one_if (contains s.sender.in_flight r) =
        rw (← split) (ex r) in
      rw (contains-remove (route_of t) r u.in_flight, same) (ground (arith, counted, now, old))
  moved-IsExclusive before t after (dies u) s split same ex r =
      let counted = tasks_for-append r before (t ∷ after) in
      let now = tasks_for-append r before after in
      let old : tasks_for r (before ++ t ∷ after) ≤ one_if (contains s.sender.in_flight r) =
        rw (← split) (ex r) in
      rw same (omega (arith, old, counted, now))

  enter-IsExclusive :
      (eval : EvaluatedOpportunity) (s : System)
      → IsExclusive s
      → IsExclusive (enter_in_flight eval s)
  unfolding enter_in_flight
  enter-IsExclusive eval s ex r =
      let fresh : Task = record { eval = eval; phase = start } in
      let added = tasks_for-append r s.tasks (fresh ∷ []) in
      elim (Bool-cases (contains s.sender.in_flight eval.opp.route_id)) [
        | inl busy ↦ rw busy (ex r)
        | inr free ↦ rw free (ground (arith, added, ex r))
      ]

  Step-IsExclusive : {s s' : System} → Step store cfg anchors s s' → IsExclusive s → IsExclusive s'
  unfolding check_blacklist refresh_own_balances
  Step-IsExclusive {s} (receive eval free e) ex r = elim (Bool-cases (suppressed eval s.sender)) [
    | inl blocked ↦ rw (e, blocked) (ex r)
    | inr clear ↦ rw (e, clear) (ex r)
  ]
  Step-IsExclusive {s} (enter eval known e) ex r = rw e (enter-IsExclusive eval s ex r)
  Step-IsExclusive {s} (task w before t after split e) ex r = rw e (
      moved-IsExclusive before t after (advance store cfg anchors w t.eval t.phase s.sender) s split
        (advance-Keeps store cfg anchors r t.eval w t.phase s.sender).0 ex r)
  Step-IsExclusive (refresh w e) ex r = rw e (ex r)

  -- However the steps interleave, from a start with no task at most one task at a time submits for a
  -- route, and the route of every task is in the in-flight set.
  pub Reach-IsExclusive :
      {s t : System}
      → s.tasks ≡ []
      → Reach store cfg anchors (AnyStep store cfg anchors) s t
      → IsExclusive t
  Reach-IsExclusive empty here r = rw empty (omega arith)
  Reach-IsExclusive empty (next reach st ok) r =
      Step-IsExclusive st (Reach-IsExclusive empty reach) r
