-- ===== src/Executor/Sender.antt =====
-- src/executor/sender.rs: the state of `Sender`, and the life of one spawned `submit` as moves. What a move learns of the outside is a parameter: the clock, the signature, the answers of
-- the lanes and of the chain, and the fees and gas prices that other tasks keep. The logged records are
-- left out.
pub mod System
pub mod Moves
pub mod Exclusive
pub mod Suppressed
pub mod Nonces
pub mod Ends
mod Tests
use robinarb.Base.{
  ℕ, zero, suc, ◌+◌, ◌*◌, ◌%◌, ◌^◌, Bool, true, false, ◌&&◌, List, [], ◌∷◌, ◌++◌, Option, none,
  some, ltb, contains, ◌==◌, if◌then◌else◌,
}
use robinarb.Base.Word.{Run, done, panic, ◌>>=◌}
use robinarb.Engine.{Engine}
use robinarb.Gas.{GasStation}
use robinarb.Routing.{Route}
use robinarb.Routing.Store.{RouteStore, route}
use robinarb.Routing.Evaluator.{EvaluatedOpportunity}
use robinarb.Executor.Encoder.{ExecuteCall, encode}
use robinarb.Executor.Nonce.{NonceManager, reserve, resync}

pub record ExecutionConfig : Type 0 where
  pub use_flashloan : Bool
  pub gas_limit : ℕ
  pub blacklist_blocks : ℕ
  pub stale_presign_ms : ℕ

-- The recipient is always the executor contract, the value zero and the access list empty.
pub record Tx : Type 0 where
  pub chain_id : ℕ
  pub nonce : ℕ
  pub gas_limit : ℕ
  pub max_fee_per_gas : ℕ
  pub max_priority_fee_per_gas : ℕ
  pub input : ExecuteCall

-- The fields that change. The blacklist has its newest entry first; `sent` holds what went to the
-- lanes, oldest first.
pub record Sender : Type 0 where
  pub nonce : NonceManager
  pub blacklist : List (ℕ × ℕ)
  pub in_flight : List ℕ
  pub own_balances : List (ℕ × ℕ)
  pub sent : List Tx
  pub opps_dropped_presign : ℕ
  pub txs_sent : ℕ
  pub txs_landed : ℕ
  pub txs_reverted : ℕ

-- What one move learns.
pub record World : Type 0 where
  pub engine : Engine
  pub gas : GasStation
  pub elapsed_ms : ℕ
  pub signs : Bool
  pub lanes : List (Option ℕ)
  pub pending_count : Option ℕ
  pub receipt : Option Bool
  pub balance_of : ℕ → Option ℕ

-- Where a `submit` is between two moves: before it runs, with its nonce taken and the transaction not
-- yet signed (other threads may run in between), waiting for the lanes, or waiting for a receipt
-- with rounds left to poll.
pub data Phase : Type 0 where
  start : Phase
  reserved : Tx → Phase
  fanned : Tx → Phase
  polling : (hash rounds : ℕ) → Phase

-- A move goes on to a phase, ends the call, or ends the task by a panic.
pub data Outcome : Type 0 where
  moves : Phase → Sender → Outcome
  ends : Sender → Outcome
  dies : Sender → Outcome

abbrev pub lookup : ℕ → List (ℕ × ℕ) → Option ℕ
lookup k [] = none
lookup k ((j, v) ∷ m) = if j == k then some v else lookup k m

abbrev pub or_zero : Option ℕ → ℕ
or_zero none = 0
or_zero (some v) = v

-- `eval.block < *until`, for an entry.
abbrev pub before_until : Option ℕ → ℕ → Bool
before_until none block = false
before_until (some until) block = ltb block until

unfoldable pub suppressed : EvaluatedOpportunity → Sender → Bool
suppressed eval s = before_until (lookup eval.opp.route_id s.blacklist) eval.block

-- `self.in_flight.remove`
abbrev pub remove : ℕ → List ℕ → List ℕ
remove r [] = []
remove r (q ∷ qs) = if q == r then remove r qs else q ∷ remove r qs

-- `any_ok`: the hash of the last lane that accepted.
abbrev pub last_ok : Option ℕ → List (Option ℕ) → Option ℕ
last_ok any [] = any
last_ok any (none ∷ rs) = last_ok any rs
last_ok any (some hash ∷ rs) = last_ok (some hash) rs

-- A failed read leaves the old balance.
abbrev pub insert_read : ℕ → Option ℕ → List (ℕ × ℕ) → List (ℕ × ℕ)
insert_read a none own = own
insert_read a (some bal) own = (a, bal) ∷ own

abbrev pub refreshed : (ℕ → Option ℕ) → List ℕ → List (ℕ × ℕ) → List (ℕ × ℕ)
refreshed balance_of [] own = own
refreshed balance_of (a ∷ rest) own = refreshed balance_of rest (insert_read a (balance_of a) own)

unfoldable pub refresh_own_balances : List ℕ → World → Sender → Sender
refresh_own_balances anchors w s = record s {
  own_balances = refreshed w.balance_of anchors s.own_balances;
}

module _ (store : RouteStore) (cfg : ExecutionConfig) (anchors : List ℕ) where
  -- The call, with the balance that the executor holds of the anchor.
  unfoldable pub calldata : World → EvaluatedOpportunity → Sender → Run ExecuteCall
  calldata w eval s = do
    r ← route store eval.opp.route_id
    let own = or_zero (lookup r.anchor s.own_balances)
    encode w.engine store eval.opp.route_id eval.opp.amount_in own cfg.use_flashloan

  unfoldable pub build_tx : World → EvaluatedOpportunity → ExecuteCall → ℕ → Tx
  build_tx w eval input nonce = record {
    chain_id = 4_663;
    nonce = nonce;
    gas_limit = cfg.gas_limit;
    max_fee_per_gas = (w.gas.base_fee * 2 + eval.priority_fee_wei) % 2 ^ 128;
    max_priority_fee_per_gas = eval.priority_fee_wei;
    input = input;
  }

  -- The transaction, for which a nonce is taken.
  abbrev pub take_nonce : World → EvaluatedOpportunity → Sender → Run ExecuteCall → Outcome
  take_nonce w eval s panic = dies s
  take_nonce w eval s (done input) =
      let (nonce, counter) = reserve s.nonce in
      moves (reserved (build_tx w eval input nonce)) (record s { nonce = counter })

  -- The signature and the fan-out. If the signature fails the nonce stays taken.
  unfoldable pub sign_and_send : World → Tx → Sender → Outcome
  sign_and_send w tx s =
      if w.signs
      then moves (fanned tx) (record s { sent = s.sent ++ tx ∷ []; txs_sent = s.txs_sent + 1 })
      else ends s

  unfoldable pub is_stale : World → Bool
  is_stale w = ltb 0 cfg.stale_presign_ms && ltb cfg.stale_presign_ms w.elapsed_ms

  unfoldable pub begin : World → EvaluatedOpportunity → Sender → Outcome
  begin w eval s =
      if is_stale w
      then ends (record s { opps_dropped_presign = s.opps_dropped_presign + 1 })
      else take_nonce w eval s (calldata w eval s)

  -- After the lanes: the monitor, or a resync whose error is dropped.
  unfoldable pub after_lanes : World → Option ℕ → Sender → Outcome
  after_lanes w (some hash) s = moves (polling hash 10) s
  after_lanes w none s = ends (record s { nonce = (resync w.pending_count s.nonce).0 })

  unfoldable pub blacklist_route : EvaluatedOpportunity → Sender → Sender
  blacklist_route eval s =
      let until = (eval.block + cfg.blacklist_blocks) % 2 ^ 64 in
      record s {
        txs_reverted = s.txs_reverted + 1;
        blacklist = (eval.opp.route_id, until) ∷ s.blacklist;
      }

  unfoldable pub on_receipt : EvaluatedOpportunity → Bool → Sender → Sender
  on_receipt eval true s = record s { txs_landed = s.txs_landed + 1 }
  on_receipt eval false s = blacklist_route eval s

  unfoldable pub poll : World → EvaluatedOpportunity → ℕ → ℕ → Option Bool → Sender → Outcome
  poll w eval hash zero answer s = ends s
  poll w eval hash (suc rounds) none s = moves (polling hash rounds) s
  poll w eval hash (suc rounds) (some status) s =
      ends (refresh_own_balances anchors w (on_receipt eval status s))

  -- One move of a `submit`.
  unfoldable pub advance : World → EvaluatedOpportunity → Phase → Sender → Outcome
  advance w eval start s = begin w eval s
  advance w eval (reserved tx) s = sign_and_send w tx s
  advance w eval (fanned tx) s = after_lanes w (last_ok none w.lanes) s
  advance w eval (polling hash rounds) s = poll w eval hash rounds w.receipt s
