-- ===== src/Executor/Sender/Tests.antt =====
-- An opportunity that is entered, sent, and reverted.
use robinarb.Base.{
  ◌+◌, ◌&&◌, leb, ltb, ◌≤◌, ◌≡◌, refl, arith, Bool, true, false, [], ◌∷◌, Option, none, some,
  contains,
}
use robinarb.Engine.{Engine, uni_v2_fork}
use robinarb.Engine.Registry.{registry_of}
use robinarb.Routing.Store.{RouteStore, build}
use robinarb.Routing.Evaluator.{EvaluatedOpportunity}
use robinarb.Executor.Encoder.{ExecuteCall, encode, encode_hops}
use robinarb.Executor.Nonce.{reserve}
use robinarb.Executor.Sender.{
  ExecutionConfig, Sender, World, start, reserved, sign_and_send, polling, suppressed, calldata,
  build_tx, is_stale, begin, advance, on_receipt, blacklist_route, refresh_own_balances, poll,
}
use robinarb.Executor.Sender.System.{
  Task, System, check_blacklist, enter_in_flight, release, moved, Step, receive, enter, task, here,
  next,
}
use robinarb.Executor.Sender.Exclusive.{one_if, tasks_for, IsExclusive, Reach-IsExclusive}
use robinarb.Executor.Sender.Suppressed.{revert-suppresses}
use robinarb.Executor.Sender.Nonces.{uses, holds, Reach-HasFreshNonce}
use robinarb.Executor.Sender.Ends.{HasEnded, run_task, run_task-ends}

abbrev engine : Engine
engine = registry_of (
    record {
      idx = 0;
      address = 11;
      dex = uni_v2_fork;
      factory = 0;
      token0 = 100;
      token1 = 200;
      dec0 = 18;
      dec1 = 6;
      fee_bps = 30;
      fee_pips = 3_000;
      tick_spacing = 1;
      v4 = none;
    }
    ∷ [])

abbrev store : RouteStore
store =
    build
      (record {
        id = 0;
        anchor = 100;
        hops = record { pool = 0; zero_for_one = true; token_in = 100 } ∷ [];
      }
        ∷ [])
      1

abbrev cfg : ExecutionConfig
cfg = record {
  use_flashloan = true;
  gas_limit = 2_000_000;
  blacklist_blocks = 50;
  stale_presign_ms = 750;
}

abbrev eval : EvaluatedOpportunity
eval = record {
  opp = record { route_id = 0; amount_in = 10; gross_out = 12; gross_profit = 2 };
  net_profit_wei = 1;
  gas_units = 1;
  gas_cost_wei = 1;
  priority_fee_wei = 3;
  block = 7;
}

-- The signature succeeds, a lane accepts, and the receipt is the one given.
abbrev world : Option Bool → World
world receipt = record {
  engine = engine;
  gas = record { base_fee = 100; per_l1_calldata_unit = 0; min_prio = 0; max_prio = 0 };
  elapsed_ms = 5;
  signs = true;
  lanes = none ∷ some 99 ∷ [];
  pending_count = none;
  receipt = receipt;
  balance_of = λ a. none;
}

abbrev sender : Sender
sender = record {
  nonce = record { next = 41 };
  blacklist = [];
  in_flight = [];
  own_balances = [];
  sent = [];
  opps_dropped_presign = 0;
  txs_sent = 0;
  txs_landed = 0;
  txs_reverted = 0;
}

abbrev idle_system : System
idle_system = record { sender = sender; checked = none; tasks = [] }

abbrev fresh : Task
fresh = record { eval = eval; phase = start }

abbrev checked_system : System
checked_system = record idle_system { checked = some eval }

abbrev entered : System
entered = record {
  sender = record sender { in_flight = 0 ∷ [] };
  checked = none;
  tasks = fresh ∷ [];
}

abbrev after_reserve : System
after_reserve =
    moved [] fresh [] (advance store cfg [] (world none) eval start entered.sender) entered

abbrev call : ExecuteCall
call = record {
  hops = record { kind = 0; pool = 11; zero_for_one = true; fee_bps = 30 } ∷ [];
  v4_keys = [];
  anchor = 100;
  amount_in = 10;
  min_profit = 0;
  use_flashloan = true;
}

-- The transaction with the nonce 41, not yet signed.
abbrev holding : Task
holding = record { eval = eval; phase = reserved (build_tx store cfg [] (world none) eval call 41) }

abbrev after_send : System
after_send =
    moved [] holding [] (advance store cfg [] (world none) eval holding.phase after_reserve.sender)
      after_reserve

received : Step store cfg [] idle_system checked_system
unfolding check_blacklist suppressed
received = receive eval refl refl

put_in : Step store cfg [] checked_system entered
unfolding enter_in_flight
put_in = enter eval refl refl

taking : Step store cfg [] entered after_reserve
taking = task (world none) [] fresh [] refl refl

sending : Step store cfg [] after_reserve after_send
unfolding moved advance begin is_stale calldata build encode encode_hops reserve
sending = task (world none) [] holding [] refl refl

Reach-IsExclusive_example :
    tasks_for 0 after_send.tasks ≤ one_if (contains after_send.sender.in_flight 0)
Reach-IsExclusive_example =
    Reach-IsExclusive store cfg [] {s = idle_system} {t = after_send} refl
      (next (next (next (next here received tt) put_in tt) taking tt) sending tt) 0

Reach-HasFreshNonce_example :
    uses 41 after_send.sender.sent + holds 41 after_send.tasks
    ≤ one_if (leb 41 41 && ltb 41 after_send.sender.nonce.next)
unfolding received put_in taking sending moved advance begin is_stale calldata build encode
    encode_hops reserve
Reach-HasFreshNonce_example =
    Reach-HasFreshNonce store cfg [] idle_system after_send refl refl
      (next (next (next (next here received tt) put_in tt) taking (refl, omega arith)) sending
        (refl, omega arith))
      41

sent_one : after_send.sender.nonce.next ≡ 42
unfolding moved advance begin is_stale calldata build encode encode_hops reserve build_tx
    sign_and_send
sent_one = refl

abbrev waiting : Task
waiting = record { eval = eval; phase = polling 99 10 }

abbrev polled : System
polled = record entered { tasks = waiting ∷ [] }

abbrev reverted : System
reverted =
    moved [] waiting []
      (advance store cfg [] (world (some false)) eval (polling 99 10) polled.sender) polled

polled-IsExclusive : IsExclusive polled
polled-IsExclusive r = ground arith

-- The route comes again in the block of the revert.
again : Step store cfg [] reverted reverted
unfolding moved advance poll on_receipt blacklist_route refresh_own_balances check_blacklist
    suppressed release
again = receive eval refl refl

revert-suppresses_example : tasks_for 0 reverted.tasks ≡ 0
unfolding again
revert-suppresses_example =
    revert-suppresses store cfg [] (world (some false)) [] waiting [] 99 9 polled reverted
      polled-IsExclusive refl refl refl refl (next here again (λ same. omega arith))

run_task-ends_example :
    HasEnded store cfg []
      (λ n. world none)
      (λ n s. s)
      eval
      (run_task store cfg [] (λ n. world none) (λ n s. s) eval 14 start sender)
run_task-ends_example = run_task-ends store cfg [] (λ n. world none) (λ n s. s) eval sender
