-- ===== src/Executor/Sender/Ends.antt =====
-- A spawned task of src/executor/sender.rs from its start to its end: `submit`, and the removal of its
-- route from the in-flight set. Between its moves other tasks may change the shared state at will.
use robinarb.Base.{
  ℕ, zero, suc, ◌+◌, ◌≤◌, ◌<◌, ◌≡◌, refl, arith, Bool, true, false, List, Option, none, some,
  contains, ◌==◌, Bool-cases, inl, inr,
}
use robinarb.Base.Word.{Run, done, panic}
use robinarb.Routing.Store.{RouteStore}
use robinarb.Routing.Evaluator.{EvaluatedOpportunity}
use robinarb.Executor.Encoder.{ExecuteCall}
use robinarb.Executor.Sender.{
  ExecutionConfig, Sender, World, Phase, start, reserved, Tx, take_nonce, fanned, polling, Outcome,
  moves, ends, dies, sign_and_send, begin, after_lanes, poll, advance, last_ok, is_stale, calldata,
}
use robinarb.Executor.Sender.System.{release}
use robinarb.Executor.Sender.Exclusive.{contains-remove}

-- How a task ended, with the state it left.
pub data Ending : Type 0 where
  released : Sender → Ending
  panicked : Sender → Ending

-- The moves that a phase can still take.
abbrev pub moves_left : Phase → ℕ
moves_left start = 14
moves_left (reserved tx) = 13
moves_left (fanned tx) = 12
moves_left (polling hash rounds) = rounds + 1

abbrev pub ending_of :
    (Phase → Sender → Option Ending) → EvaluatedOpportunity → Outcome → Option Ending
ending_of go eval (moves phase s) = go phase s
ending_of go eval (ends s) = some (released (release eval s))
ending_of go eval (dies s) = some (panicked s)

module _ (store : RouteStore) (cfg : ExecutionConfig) (anchors : List ℕ) (worlds : ℕ → World)
    (others : ℕ → Sender → Sender) (eval : EvaluatedOpportunity) where
  -- The task, with as many moves as its fuel.
  unfoldable pub run_task : ℕ → Phase → Sender → Option Ending
  run_task zero phase s = none
  run_task (suc fuel) phase s =
      ending_of (run_task fuel) eval
        (advance store cfg anchors (worlds fuel) eval phase (others fuel s))

  -- An outcome that goes on has fewer moves left.
  abbrev Falls : ℕ → Outcome → Type 0
  Falls n (moves phase s) = moves_left phase < n
  Falls n (ends s) = Unit
  Falls n (dies s) = Unit

  take_nonce-Falls :
      (w : World) (s : Sender) (call : Run ExecuteCall)
      → Falls 14 (take_nonce store cfg anchors w eval s call)
  take_nonce-Falls w s panic = tt
  take_nonce-Falls w s (done input) = omega arith

  sign_and_send-Falls :
      (w : World) (tx : Tx) (s : Sender) → Falls 13 (sign_and_send store cfg anchors w tx s)
  unfolding sign_and_send
  sign_and_send-Falls w tx s = elim (Bool-cases w.signs) [
    | inl signed ↦ rw signed (omega arith)
    | inr failed ↦ rw failed tt
  ]

  begin-Falls : (w : World) (s : Sender) → Falls 14 (begin store cfg anchors w eval s)
  unfolding begin
  begin-Falls w s = elim (Bool-cases (is_stale store cfg anchors w)) [
    | inl stale ↦ rw stale tt
    | inr fresh ↦ rw fresh (take_nonce-Falls w s (calldata store cfg anchors w eval s))
  ]

  after_lanes-Falls :
      (w : World) (any : Option ℕ) (s : Sender) → Falls 12 (after_lanes store cfg anchors w any s)
  unfolding after_lanes
  after_lanes-Falls w none s = tt
  after_lanes-Falls w (some hash) s = omega arith

  poll-Falls :
      (w : World) (hash rounds : ℕ) (answer : Option Bool) (s : Sender)
      → Falls (rounds + 1) (poll store cfg anchors w eval hash rounds answer s)
  unfolding poll
  poll-Falls w hash zero answer s = tt
  poll-Falls w hash (suc rounds) none s = omega arith
  poll-Falls w hash (suc rounds) (some status) s = tt

  advance-Falls :
      (w : World) (phase : Phase) (s : Sender)
      → Falls (moves_left phase) (advance store cfg anchors w eval phase s)
  unfolding advance
  advance-Falls w start s = begin-Falls w s
  advance-Falls w (reserved tx) s = sign_and_send-Falls w tx s
  advance-Falls w (fanned tx) s = after_lanes-Falls w (last_ok none w.lanes) s
  advance-Falls w (polling hash rounds) s = poll-Falls w hash rounds w.receipt s

  -- The task ended, and unless it panicked its route is out of the in-flight set.
  abbrev pub HasEnded : Option Ending → Type 0
  HasEnded none = ⊥
  HasEnded (some (released s)) = contains s.in_flight eval.opp.route_id ≡ false
  HasEnded (some (panicked s)) = Unit

  ending_of-HasEnded :
      (fuel n : ℕ) (o : Outcome)
      → n ≤ suc fuel
      → Falls n o
      → ((phase : Phase) (s : Sender) → moves_left phase ≤ fuel → HasEnded (run_task fuel phase s))
      → HasEnded (ending_of (run_task fuel) eval o)
  unfolding release
  ending_of-HasEnded fuel n (moves phase s) le falls later = later phase s (omega arith)
  ending_of-HasEnded fuel n (ends s) le falls later =
      let self : (eval.opp.route_id == eval.opp.route_id) ≡ true = ground arith in
      rw (contains-remove eval.opp.route_id eval.opp.route_id s.in_flight, self) refl
  ending_of-HasEnded fuel n (dies s) le falls later = tt

  run_task-HasEnded :
      (fuel : ℕ) (phase : Phase) (s : Sender)
      → moves_left phase ≤ fuel
      → HasEnded (run_task fuel phase s)
  unfolding run_task
  run_task-HasEnded zero start s h = omega arith
  run_task-HasEnded zero (reserved tx) s h = omega arith
  run_task-HasEnded zero (fanned tx) s h = omega arith
  run_task-HasEnded zero (polling hash rounds) s h = omega arith
  run_task-HasEnded (suc fuel) phase s h =
      ending_of-HasEnded fuel (moves_left phase)
        (advance store cfg anchors (worlds fuel) eval phase (others fuel s)) h
        (advance-Falls (worlds fuel) phase (others fuel s)) (run_task-HasEnded fuel)

-- Whatever the outside answers and the other tasks do between its moves, a spawned task ends within 14
-- moves, and unless it panicked its route is then out of the in-flight set.
pub run_task-ends :
    (store : RouteStore) (cfg : ExecutionConfig) (anchors : List ℕ) (worlds : ℕ → World)
    (others : ℕ → Sender → Sender) (eval : EvaluatedOpportunity) (s : Sender)
    → HasEnded store cfg anchors worlds others eval
        (run_task store cfg anchors worlds others eval 14 start s)
run_task-ends store cfg anchors worlds others eval s =
    run_task-HasEnded store cfg anchors worlds others eval 14 start s (omega arith)
