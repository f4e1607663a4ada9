-- ===== src/Executor/Sender/Suppressed.antt =====
-- The blacklist of src/executor/sender.rs over the steps that follow a revert.
use robinarb.Base.{
  ℕ, suc, ◌+◌, ◌%◌, ◌^◌, ◌≤◌, ◌<◌, ◌≡◌, refl, ◌∙◌, arith, ==_iff, Bool, true, false, List, [], ◌∷◌,
  ◌++◌, Option, none, some, contains, ◌==◌, Bool-cases, inl, inr,
}
use robinarb.Routing.Store.{RouteStore}
use robinarb.Routing.Evaluator.{EvaluatedOpportunity}
use robinarb.Executor.Sender.{
  ExecutionConfig, World, Phase, start, polling, Outcome, moves, ends, dies, lookup, suppressed,
  before_until, refresh_own_balances, poll, on_receipt, blacklist_route, advance,
}
use robinarb.Executor.Sender.Moves.{sender_of, Keeps, advance-Keeps}
use robinarb.Executor.Sender.Exclusive.{one_if, tasks_for, tasks_for-append, IsExclusive}
use robinarb.Executor.Sender.System.{
  Task, System, route_of, check_blacklist, enter_in_flight, release, moved, Step, receive, enter,
  task, refresh, Reach, here, next,
}

-- The loop has checked an opportunity on the route and not yet entered it.
abbrev pub awaits : ℕ → Option EvaluatedOpportunity → Bool
awaits r none = false
awaits r (some eval) = eval.opp.route_id == r

-- The route is blacklisted until the block, and nothing submits for it.
abbrev pub IsSuppressed : ℕ → ℕ → System → Type 0
IsSuppressed r until s =
    (lookup r s.sender.blacklist ≡ some until)
    × (tasks_for r s.tasks ≡ 0)
    × (awaits r s.checked ≡ false)

module _ (store : RouteStore) (cfg : ExecutionConfig) (anchors : List ℕ) (r until : ℕ) where
  -- An opportunity on the route that the step takes off the queue is of an earlier block.
  abbrev pub Early : (u v : System) → Step store cfg anchors u v → Type 0
  Early u v (receive eval free e) = (eval.opp.route_id == r) ≡ true → eval.block < until
  Early u v _ = Unit

  receive-IsSuppressed :
      (eval : EvaluatedOpportunity) (s : System)
      → ((eval.opp.route_id == r) ≡ true → eval.block < until)
      → IsSuppressed r until s
      → IsSuppressed r until (check_blacklist eval s)
  unfolding check_blacklist suppressed
  receive-IsSuppressed eval s early (listed, none_for, free) =
      elim (Bool-cases (eval.opp.route_id == r)) [
        | inl same ↦
            let at : eval.opp.route_id ≡ r = (==_iff _ r).0 same in
            let earlier = early same in
            let blocked : before_until (lookup eval.opp.route_id s.sender.blacklist) eval.block
                ≡ true =
              rw (at, listed) (ground arith) in
            rw blocked (listed, none_for, free)
        | inr other ↦ elim (Bool-cases (suppressed eval s.sender)) [
          | inl blocked ↦ rw blocked (listed, none_for, free)
          | inr clear ↦ rw clear (listed, none_for, other)
        ]
      ]

  enter-IsSuppressed :
      (eval : EvaluatedOpportunity) (s : System)
      → s.checked ≡ some eval
      → IsSuppressed r until s
      → IsSuppressed r until (enter_in_flight eval s)
  unfolding enter_in_flight
  enter-IsSuppressed eval s known (listed, none_for, free) =
      let other : (eval.opp.route_id == r) ≡ false = rw known at free in
      let added = tasks_for-append r s.tasks ((record { eval = eval; phase = start }) ∷ []) in
      elim (Bool-cases (contains s.sender.in_flight eval.opp.route_id)) [
        | inl busy ↦ rw busy (listed, none_for, refl)
        | inr room ↦ rw room (listed, ground (arith, added), refl)
      ]

  -- Where no task submits for the route, a task that goes on or leaves is of another route.
  unoccupied :
      (before : List Task) (t : Task) (phase : Phase) (after : List Task)
      → tasks_for r (before ++ t ∷ after) ≡ 0
      → ((route_of t == r) ≡ false)
        × (tasks_for r (before ++ after) ≡ 0)
        × (tasks_for r (before ++ record t { phase = phase } ∷ after) ≡ 0)
  unoccupied before t phase after h =
      let counted = tasks_for-append r before (t ∷ after) in
      let left = tasks_for-append r before after in
      let now = tasks_for-append r before (record t { phase = phase } ∷ after) in
      ground (arith, counted, left, now)

  moved-IsSuppressed :
      (before : List Task) (t : Task) (after : List Task) (o : Outcome) (s : System)
      → tasks_for r (before ++ t ∷ after) ≡ 0
      → Keeps r t.eval s.sender (sender_of o)
      → IsSuppressed r until s
      → IsSuppressed r until (moved before t after o s)
  unfolding moved release
  moved-IsSuppressed before t after (moves phase u) s vacant keeps (listed, none_for, free) =
      let (other, left, now) = unoccupied before t phase after vacant in
      (keeps.1 other ∙ listed, now, free)
  moved-IsSuppressed before t after (ends u) s vacant keeps (listed, none_for, free) =
      let (other, left, now) = unoccupied before t start after vacant in
      (keeps.1 other ∙ listed, left, free)
  moved-IsSuppressed before t after (dies u) s vacant keeps (listed, none_for, free) =
      let (other, left, now) = unoccupied before t start after vacant in
      (keeps.1 other ∙ listed, left, free)

  Step-IsSuppressed :
      {s s' : System} (st : Step store cfg anchors s s')
      → Early s s' st
      → IsSuppressed r until s
      → IsSuppressed r until s'
  unfolding refresh_own_balances
  Step-IsSuppressed {s} (receive eval free e) early h = rw e (receive-IsSuppressed eval s early h)
  Step-IsSuppressed {s} (enter eval known e) early h = rw e (enter-IsSuppressed eval s known h)
  Step-IsSuppressed {s} (task w before t after split e) early h = rw e (
      moved-IsSuppressed before t after (advance store cfg anchors w t.eval t.phase s.sender) s
        (rw (← split) h.1) (advance-Keeps store cfg anchors r t.eval w t.phase s.sender) h)
  Step-IsSuppressed (refresh w e) early h = rw e h

  Reach-IsSuppressed :
      {s t : System}
      → IsSuppressed r until s
      → Reach store cfg anchors Early s t
      → IsSuppressed r until t
  Reach-IsSuppressed h here = h
  Reach-IsSuppressed h (next reach st early) =
      Step-IsSuppressed st early (Reach-IsSuppressed h reach)

module _ (store : RouteStore) (cfg : ExecutionConfig) (anchors : List ℕ) where
  -- The block that a revert of the opportunity blacklists its route until.
  abbrev pub until_of : EvaluatedOpportunity → ℕ
  until_of eval = (eval.block + cfg.blacklist_blocks) % 2 ^ 64

  -- After the revert of a submission, while its route's turn in the loop is not already past the
  -- blacklist and every opportunity taken off the queue for the route is of a block before the revert's
  -- opportunity's plus `blacklist_blocks`, no task submits for the route, however the steps interleave.
  pub revert-suppresses :
      (w : World) (before : List Task) (t : Task) (after : List Task) (hash rounds : ℕ)
      (s u : System)
      → IsExclusive s
      → s.tasks ≡ before ++ t ∷ after
      → t.phase ≡ polling hash (suc rounds)
      → w.receipt ≡ some false
      → awaits (route_of t) s.checked ≡ false
      → Reach store cfg anchors
          (Early store cfg anchors (route_of t) (until_of t.eval))
          (moved before t after (advance store cfg anchors w t.eval t.phase s.sender) s)
          u
      → tasks_for (route_of t) u.tasks ≡ 0
  unfolding advance poll on_receipt blacklist_route refresh_own_balances moved release
  revert-suppresses w before t after hash rounds s u ex split at reverted free reach =
      let r = route_of t in
      let alone : tasks_for r (before ++ t ∷ after) ≤ one_if (contains s.sender.in_flight r) =
        rw (← split) (ex r) in
      let left : tasks_for r (before ++ after) ≡ 0 =
        ground
          (arith, alone, tasks_for-append r before (t ∷ after), tasks_for-append r before after) in
      let self : (r == r) ≡ true = ground arith in
      (Reach-IsSuppressed store cfg anchors r (until_of t.eval)
        (rw (at, reverted, self) (refl, left, free)) reach).1
