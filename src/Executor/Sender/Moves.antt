-- ===== src/Executor/Sender/Moves.antt =====
-- What one move of a submission in src/executor/sender.rs leaves of the shared state.
use robinarb.Base.{
  ℕ, zero, suc, ◌≡◌, refl, arith, Bool, true, false, List, Option, none, some, ◌==◌, Bool-cases,
  inl, inr,
}
use robinarb.Base.Word.{Run, done, panic}
use robinarb.Routing.Store.{RouteStore}
use robinarb.Routing.Evaluator.{EvaluatedOpportunity}
use robinarb.Executor.Encoder.{ExecuteCall}
use robinarb.Executor.Sender.{
  ExecutionConfig, Sender, World, Phase, start, reserved, Tx, take_nonce, fanned, polling, Outcome,
  moves, ends, dies, lookup, refresh_own_balances, sign_and_send, begin, after_lanes, on_receipt,
  blacklist_route, poll, advance, last_ok, is_stale, calldata,
}

-- The sender inside an outcome.
abbrev pub sender_of : Outcome → Sender
sender_of (moves phase s) = s
sender_of (ends s) = s
sender_of (dies s) = s

-- The in-flight set stays as it is, and of the blacklist no entry of another route changes.
abbrev pub Keeps : ℕ → EvaluatedOpportunity → Sender → Sender → Type 0
Keeps r eval s s' =
    (s'.in_flight ≡ s.in_flight)
    × ((eval.opp.route_id == r) ≡ false → lookup r s'.blacklist ≡ lookup r s.blacklist)

module _ (store : RouteStore) (cfg : ExecutionConfig) (anchors : List ℕ) (r : ℕ)
    (eval : EvaluatedOpportunity) where
  take_nonce-Keeps :
      (w : World) (s : Sender) (call : Run ExecuteCall)
      → Keeps r eval s (sender_of (take_nonce store cfg anchors w eval s call))
  take_nonce-Keeps w s panic = (refl, λ other. refl)
  take_nonce-Keeps w s (done input) = (refl, λ other. refl)

  sign_and_send-Keeps :
      (w : World) (tx : Tx) (s : Sender)
      → Keeps r eval s (sender_of (sign_and_send store cfg anchors w tx s))
  unfolding sign_and_send
  sign_and_send-Keeps w tx s = ground arith

  begin-Keeps :
      (w : World) (s : Sender) → Keeps r eval s (sender_of (begin store cfg anchors w eval s))
  unfolding begin
  begin-Keeps w s = elim (Bool-cases (is_stale store cfg anchors w)) [
    | inl stale ↦ rw stale (refl, λ other. refl)
    | inr fresh ↦ rw fresh (take_nonce-Keeps w s (calldata store cfg anchors w eval s))
  ]

  after_lanes-Keeps :
      (w : World) (any : Option ℕ) (s : Sender)
      → Keeps r eval s (sender_of (after_lanes store cfg anchors w any s))
  unfolding after_lanes
  after_lanes-Keeps w none s = (refl, λ other. refl)
  after_lanes-Keeps w (some hash) s = (refl, λ other. refl)

  poll-Keeps :
      (w : World) (hash rounds : ℕ) (answer : Option Bool) (s : Sender)
      → Keeps r eval s (sender_of (poll store cfg anchors w eval hash rounds answer s))
  unfolding poll on_receipt blacklist_route refresh_own_balances
  poll-Keeps w hash zero answer s = (refl, λ other. refl)
  poll-Keeps w hash (suc rounds) none s = (refl, λ other. refl)
  poll-Keeps w hash (suc rounds) (some true) s = (refl, λ other. refl)
  poll-Keeps w hash (suc rounds) (some false) s = (refl, λ other. rw other refl)

  -- No move of a submission changes the in-flight set by itself.
  pub advance-Keeps :
      (w : World) (phase : Phase) (s : Sender)
      → Keeps r eval s (sender_of (advance store cfg anchors w eval phase s))
  unfolding advance
  advance-Keeps w start s = begin-Keeps w s
  advance-Keeps w (reserved tx) s = sign_and_send-Keeps w tx s
  advance-Keeps w (fanned tx) s = after_lanes-Keeps w (last_ok none w.lanes) s
  advance-Keeps w (polling hash rounds) s = poll-Keeps w hash rounds w.receipt s
