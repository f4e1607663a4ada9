-- ===== src/Executor/Sender/System.antt =====
-- src/executor/sender.rs: the loop of `run`, the tasks that it spawns and the refresh of the balances,
-- as steps of one system that may interleave in any order. The loop's look at the blacklist and its
-- entry into the in-flight set are two steps, since other tasks may move between them.
use robinarb.Base.{ℕ, ◌≡◌, List, [], ◌∷◌, ◌++◌, Option, none, some, contains, if◌then◌else◌}
use robinarb.Routing.Store.{RouteStore}
use robinarb.Routing.Evaluator.{EvaluatedOpportunity}
use robinarb.Executor.Sender.{
  ExecutionConfig, Sender, World, Phase, start, Outcome, moves, ends, dies, suppressed, remove,
  refresh_own_balances, advance,
}

pub record Task : Type 0 where
  pub eval : EvaluatedOpportunity
  pub phase : Phase

-- `checked` is the opportunity that the loop has passed by the blacklist and not yet entered.
pub record System : Type 0 where
  pub sender : Sender
  pub checked : Option EvaluatedOpportunity
  pub tasks : List Task

abbrev pub route_of : Task → ℕ
route_of t = t.eval.opp.route_id

unfoldable pub check_blacklist : EvaluatedOpportunity → System → System
check_blacklist eval s = if suppressed eval s.sender then s else record s { checked = some eval }

unfoldable pub enter_in_flight : EvaluatedOpportunity → System → System
enter_in_flight eval s =
    if contains s.sender.in_flight eval.opp.route_id
    then record s { checked = none }
    else record s {
      sender = record s.sender { in_flight = eval.opp.route_id ∷ s.sender.in_flight };
      checked = none;
      tasks = s.tasks ++ record { eval = eval; phase = start } ∷ [];
    }

unfoldable pub release : EvaluatedOpportunity → Sender → Sender
release eval s = record s { in_flight = remove eval.opp.route_id s.in_flight }

-- The system after a move of the task between `before` and `after`. A panic ends the task, and with it
-- the call that would take its route out of the in-flight set.
unfoldable pub moved : List Task → Task → List Task → Outcome → System → System
moved before t after (moves phase sender) s = record s {
  sender = sender;
  tasks = before ++ record t { phase = phase } ∷ after;
}
moved before t after (ends sender) s = record s {
  sender = release t.eval sender;
  tasks = before ++ after;
}
moved before t after (dies sender) s = record s { sender = sender; tasks = before ++ after }

module _ (store : RouteStore) (cfg : ExecutionConfig) (anchors : List ℕ) where
  -- The sender loop takes an opportunity off its queue, or enters the one it has checked; a task
  -- moves; or the balance loop refreshes.
  pub data Step (s s' : System) : Type 0 where
    receive :
        (eval : EvaluatedOpportunity) → s.checked ≡ none → s' ≡ check_blacklist eval s → Step s s'
    enter :
        (eval : EvaluatedOpportunity)
        → s.checked ≡ some eval
        → s' ≡ enter_in_flight eval s
        → Step s s'
    task :
        (w : World) (before : List Task) (t : Task) (after : List Task)
        → s.tasks ≡ before ++ t ∷ after
        → s' ≡ moved before t after (advance store cfg anchors w t.eval t.phase s.sender) s
        → Step s s'
    refresh :
        (w : World) → s' ≡ record s { sender = refresh_own_balances anchors w s.sender } → Step s s'

  -- The systems that steps within `Allowed` lead to.
  pub data Reach (Allowed : (u v : System) → Step u v → Type 0) (s : System) : System → Type 0 where
    here : Reach Allowed s s
    next : {t u : System} → Reach Allowed s t → (st : Step t u) → Allowed t u st → Reach Allowed s u

  abbrev pub AnyStep : (u v : System) → Step u v → Type 0
  AnyStep u v st = Unit
