-- ===== src/Executor/Sender/Nonces.antt =====
-- The nonces of the transactions that src/executor/sender.rs has sent.
use robinarb.Base.{
  ℕ, zero, suc, ◌+◌, ◌%◌, ◌^◌, ◌≤◌, ◌<◌, ◌≡◌, arith, Bool, true, false, contains, List, [], ◌∷◌,
  ◌++◌, leb, ltb, ◌==◌, ◌&&◌, Option, none, some, Bool-cases, inl, inr,
}
use robinarb.Base.Word.{Run, done, panic}
use robinarb.Routing.Store.{RouteStore}
use robinarb.Routing.Evaluator.{EvaluatedOpportunity}
use robinarb.Executor.Encoder.{ExecuteCall}
use robinarb.Executor.Nonce.{reserve}
use robinarb.Executor.Sender.{
  ExecutionConfig, Sender, World, Phase, start, reserved, take_nonce, fanned, polling, Outcome,
  moves, ends, dies, Tx, suppressed, refresh_own_balances, sign_and_send, begin, after_lanes,
  on_receipt, blacklist_route, poll, advance, last_ok, is_stale, calldata, build_tx,
}
use robinarb.Executor.Sender.Exclusive.{one_if}
use robinarb.Executor.Sender.Moves.{sender_of}
use robinarb.Executor.Sender.System.{
  Task, System, check_blacklist, enter_in_flight, release, moved, Step, receive, enter, task,
  refresh, Reach, here, next,
}

-- How many of the transactions have the nonce.
abbrev pub uses : ℕ → List Tx → ℕ
uses n [] = 0
uses n (tx ∷ txs) = one_if (tx.nonce == n) + uses n txs

-- The task has taken the nonce and not sent its transaction yet.
abbrev hold : ℕ → Phase → ℕ
hold n (reserved tx) = one_if (tx.nonce == n)
hold n _ = 0

abbrev pub holds : ℕ → List Task → ℕ
holds n [] = 0
holds n (t ∷ ts) = hold n t.phase + holds n ts

abbrev in_range : ℕ → ℕ → ℕ → ℕ
in_range lo hi n = one_if (leb lo n && ltb n hi)

-- Each nonce from `lo` on and below the counter was sent or taken at most once, and no other at all.
abbrev HasFreshNonce : ℕ → System → Type 0
HasFreshNonce lo s =
    (lo ≤ s.sender.nonce.next)
    × ((n : ℕ) → uses n s.sender.sent + holds n s.tasks ≤ in_range lo s.sender.nonce.next n)

uses-append : (n : ℕ) (xs ys : List Tx) → uses n (xs ++ ys) ≡ uses n xs + uses n ys
uses-append n [] ys = omega arith
uses-append n (x ∷ xs) ys = omega (arith, uses-append n xs ys)

holds-append : (n : ℕ) (xs ys : List Task) → holds n (xs ++ ys) ≡ holds n xs + holds n ys
holds-append n [] ys = omega arith
holds-append n (x ∷ xs) ys = omega (arith, holds-append n xs ys)

abbrev hold_of : ℕ → Outcome → ℕ
hold_of n (moves phase s) = hold n phase
hold_of n (ends s) = 0
hold_of n (dies s) = 0

-- A move sends and holds no more than it held before, but for the nonces that it takes off the counter.
abbrev Spends : ℕ → Sender → Phase → Outcome → Type 0
Spends lo s phase o =
    (s.nonce.next ≤ (sender_of o).nonce.next)
    × ((n : ℕ)
        → uses n (sender_of o).sent + hold_of n o + in_range lo s.nonce.next n
          ≤ uses n s.sent + hold n phase + in_range lo (sender_of o).nonce.next n)

-- The phase ends in a resync: all lanes rejected.
abbrev pub resyncs : World → Phase → Bool
resyncs w (fanned tx) = elim (last_ok none w.lanes) [ none ↦ true | some hash ↦ false ]
resyncs w _ = false

module _ (store : RouteStore) (cfg : ExecutionConfig) (anchors : List ℕ) (lo : ℕ) where
  take_nonce-Spends :
      (w : World) (eval : EvaluatedOpportunity) (s : Sender) (call : Run ExecuteCall)
      → s.nonce.next + 1 < 2 ^ 64
      → lo ≤ s.nonce.next
      → Spends lo s start (take_nonce store cfg anchors w eval s call)
  unfolding reserve build_tx
  take_nonce-Spends w eval s panic room low = (omega arith, λ n. omega arith)
  take_nonce-Spends w eval s (done input) room low =
      let counted : (s.nonce.next + 1) % 2 ^ 64 ≡ s.nonce.next + 1 = omega arith in
      rw counted (omega arith, λ n. ground arith)

  begin-Spends :
      (w : World) (eval : EvaluatedOpportunity) (s : Sender)
      → s.nonce.next + 1 < 2 ^ 64
      → lo ≤ s.nonce.next
      → Spends lo s start (begin store cfg anchors w eval s)
  unfolding begin
  begin-Spends w eval s room low = elim (Bool-cases (is_stale store cfg anchors w)) [
    | inl stale ↦ rw stale (omega arith, λ n. omega arith)
    | inr fresh ↦
        rw fresh (take_nonce-Spends w eval s (calldata store cfg anchors w eval s) room low)
  ]

  sign_and_send-Spends :
      (w : World) (tx : Tx) (s : Sender)
      → Spends lo s (reserved tx) (sign_and_send store cfg anchors w tx s)
  unfolding sign_and_send
  sign_and_send-Spends w tx s = elim (Bool-cases w.signs) [
    | inl signed ↦ rw signed (omega arith, λ n. omega (arith, uses-append n s.sent (tx ∷ [])))
    | inr failed ↦ rw failed (omega arith, λ n. omega arith)
  ]

  after_lanes-Spends :
      (w : World) (any : Option ℕ) (tx : Tx) (s : Sender)
      → (elim any [ none ↦ true | some hash ↦ false ]) ≡ false
      → Spends lo s (fanned tx) (after_lanes store cfg anchors w any s)
  unfolding after_lanes
  after_lanes-Spends w none tx s sound = cc
  after_lanes-Spends w (some hash) tx s sound = (omega arith, λ n. omega arith)

  poll-Spends :
      (w : World) (eval : EvaluatedOpportunity) (hash rounds : ℕ) (answer : Option Bool)
      (s : Sender)
      → Spends lo s (polling hash rounds) (poll store cfg anchors w eval hash rounds answer s)
  unfolding poll on_receipt blacklist_route refresh_own_balances
  poll-Spends w eval hash zero answer s = (omega arith, λ n. omega arith)
  poll-Spends w eval hash (suc rounds) none s = (omega arith, λ n. omega arith)
  poll-Spends w eval hash (suc rounds) (some true) s = (omega arith, λ n. omega arith)
  poll-Spends w eval hash (suc rounds) (some false) s = (omega arith, λ n. omega arith)

  advance-Spends :
      (w : World) (eval : EvaluatedOpportunity) (phase : Phase) (s : Sender)
      → s.nonce.next + 1 < 2 ^ 64
      → lo ≤ s.nonce.next
      → resyncs w phase ≡ false
      → Spends lo s phase (advance store cfg anchors w eval phase s)
  unfolding advance
  advance-Spends w eval start s room low sound = begin-Spends w eval s room low
  advance-Spends w eval (reserved tx) s room low sound = sign_and_send-Spends w tx s
  advance-Spends w eval (fanned tx) s room low sound =
      after_lanes-Spends w (last_ok none w.lanes) tx s sound
  advance-Spends w eval (polling hash rounds) s room low sound =
      poll-Spends w eval hash rounds w.receipt s

  -- The step takes no task through a resync, and the counter is not about to wrap.
  abbrev pub Orderly : (u v : System) → Step store cfg anchors u v → Type 0
  Orderly u v (task w before t after split e) =
      (resyncs w t.phase ≡ false) × (u.sender.nonce.next + 1 < 2 ^ 64)
  Orderly u v _ = Unit

  moved-HasFreshNonce :
      (before : List Task) (t : Task) (after : List Task) (o : Outcome) (s : System)
      → s.tasks ≡ before ++ t ∷ after
      → Spends lo s.sender t.phase o
      → HasFreshNonce lo s
      → HasFreshNonce lo (moved before t after o s)
  unfolding moved release
  moved-HasFreshNonce before t after o s split (grown, spends) (low, fresh) =
      by_outcome o grown (λ n. (spends n, old n))
    where
      old :
          (n : ℕ)
          → uses n s.sender.sent + (holds n before + (hold n t.phase + holds n after))
            ≤ in_range lo s.sender.nonce.next n
      old n =
          let had : uses n s.sender.sent + holds n (before ++ t ∷ after)
              ≤ in_range lo s.sender.nonce.next n =
            rw (← split) (fresh n) in
          omega (arith, had, holds-append n before (t ∷ after))

      by_outcome :
          (o : Outcome)
          → s.sender.nonce.next ≤ (sender_of o).nonce.next
          → ((n : ℕ)
              → (uses n (sender_of o).sent + hold_of n o + in_range lo s.sender.nonce.next n
                  ≤ uses n s.sender.sent + hold n t.phase + in_range lo (sender_of o).nonce.next n)
                × (uses n s.sender.sent + (holds n before + (hold n t.phase + holds n after))
                    ≤ in_range lo s.sender.nonce.next n))
          → HasFreshNonce lo (moved before t after o s)
      by_outcome (moves phase u) up both = (
        omega arith,
        λ n.
            let (a, b) = both n in
            omega (arith, a, b, holds-append n before (record t { phase = phase } ∷ after)),
      )
      by_outcome (ends u) up both = (
        omega arith,
        λ n. let (a, b) = both n in omega (arith, a, b, holds-append n before after),
      )
      by_outcome (dies u) up both = (
        omega arith,
        λ n. let (a, b) = both n in omega (arith, a, b, holds-append n before after),
      )

  enter-HasFreshNonce :
      (eval : EvaluatedOpportunity) (s : System)
      → HasFreshNonce lo s
      → HasFreshNonce lo (enter_in_flight eval s)
  unfolding enter_in_flight
  enter-HasFreshNonce eval s (low, fresh) =
      elim (Bool-cases (contains s.sender.in_flight eval.opp.route_id)) [
        | inl busy ↦ rw busy (low, fresh)
        | inr room ↦ rw room (
          low,
          λ n.
              let had = fresh n in
              omega
                (arith, had, holds-append n s.tasks (record { eval = eval; phase = start } ∷ [])),
        )
      ]

  Step-HasFreshNonce :
      {s s' : System} (st : Step store cfg anchors s s')
      → Orderly s s' st
      → HasFreshNonce lo s
      → HasFreshNonce lo s'
  unfolding check_blacklist refresh_own_balances
  Step-HasFreshNonce {s} (receive eval free e) ok h = elim (Bool-cases (suppressed eval s.sender)) [
    | inl blocked ↦ rw (e, blocked) h
    | inr clear ↦ rw (e, clear) h
  ]
  Step-HasFreshNonce {s} (enter eval known e) ok h = rw e (enter-HasFreshNonce eval s h)
  Step-HasFreshNonce {s} (task w before t after split e) (sound, room) h = rw e (
      moved-HasFreshNonce before t after (advance store cfg anchors w t.eval t.phase s.sender) s
        split (advance-Spends w t.eval t.phase s.sender room h.0 sound) h)
  Step-HasFreshNonce (refresh w e) ok h = rw e h

  Reach-HasFreshNonce_from :
      {s t : System} → HasFreshNonce lo s → Reach store cfg anchors Orderly s t → HasFreshNonce lo t
  Reach-HasFreshNonce_from h here = h
  Reach-HasFreshNonce_from h (next reach st ok) =
      Step-HasFreshNonce st ok (Reach-HasFreshNonce_from h reach)

-- However the tasks interleave, also between taking a nonce and sending with it, as long as no task
-- resyncs the counter and it does not wrap: from a start with nothing sent and no task, each nonce from
-- the counter's first value on and below the counter is sent, or taken by a task that has not sent
-- yet, at most once in all, and no other nonce is.
pub Reach-HasFreshNonce :
    (store : RouteStore) (cfg : ExecutionConfig) (anchors : List ℕ) (s t : System)
    → s.sender.sent ≡ []
    → s.tasks ≡ []
    → Reach store cfg anchors (Orderly store cfg anchors s.sender.nonce.next) s t
    → (n : ℕ)
    → uses n t.sender.sent + holds n t.tasks
      ≤ one_if (leb s.sender.nonce.next n && ltb n t.sender.nonce.next)
Reach-HasFreshNonce store cfg anchors s t unsent idle reach n =
    (Reach-HasFreshNonce_from store cfg anchors s.sender.nonce.next
        (omega arith, λ k. rw (unsent, idle) (omega arith)) reach).1
      n
