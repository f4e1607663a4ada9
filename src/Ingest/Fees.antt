-- ===== src/Ingest/Fees.antt =====
-- src/ingest/fees.rs: one round of the fee poller. The answers of its two multicalls, decoded, are
-- parameters: `none` is a multicall that fails, and in a list a call that fails or does not decode.
pub mod Announced
mod Tests
use robinarb.Base.{
  ℕ, zero, suc, ◌+◌, ◌*◌, ◌/◌, ◌%◌, ◌^◌, Bool, true, false, not, ◌&&◌, List, [], ◌∷◌, ◌++◌, Option,
  none, some, get_elem?, ◌==◌, if◌then◌else◌,
}
use robinarb.Base.Word.{Run, done, ◌>>=◌}
use robinarb.Engine.{Engine, PoolMeta, or_panic, DexTag, aero_volatile, aero_stable}
use robinarb.Routing.Store.{RouteStore}
use robinarb.State.{
  ChainState, SlotPlan, v2_packed, v2_two_slot, cl, ClPlan, ClFee, from_meta, from_word, Words,
  plan, add, prefetch_neighborhood,
}
use robinarb.Ingest.Pipeline.{Batch}

-- The fees of the pools stand in the registry; `fee_recheck` are the pools that other tasks have
-- flagged.
pub record Poller : Type 0 where
  pub engine : Engine
  pub fee_recheck : List ℕ
  pub chain : ChainState
  pub sent : List Batch

-- The registry and the pools changed so far.
pub record Polled : Type 0 where
  pub metas : List PoolMeta
  pub changed : List ℕ

abbrev pub is_word_fee : ClFee → Bool
is_word_fee (from_word shift) = true
is_word_fee from_meta = false

-- `matches!(plan, Some(SlotPlan::Cl { fee: ClFee::Word { .. }, .. }))`
abbrev pub reads_fee : Option SlotPlan → Bool
reads_fee none = false
reads_fee (some (v2_packed a s)) = false
reads_fee (some (v2_two_slot a s)) = false
reads_fee (some (cl p)) = is_word_fee p.fee

unfoldable pub without_word_fee : ChainState → List ℕ → List ℕ
without_word_fee st [] = []
without_word_fee st (i ∷ is) =
    if reads_fee (plan st i) then without_word_fee st is else i ∷ without_word_fee st is

abbrev pub is_aero : DexTag → Bool
is_aero aero_volatile = true
is_aero aero_stable = true
is_aero _ = false

unfoldable pub aero_pools : List PoolMeta → List ℕ
aero_pools [] = []
aero_pools (m ∷ ms) = if is_aero m.dex then m.idx ∷ aero_pools ms else aero_pools ms

abbrev pub set_at : List PoolMeta → ℕ → PoolMeta → List PoolMeta
set_at [] i m = []
set_at (x ∷ xs) zero m = m ∷ xs
set_at (x ∷ xs) (suc i) m = x ∷ set_at xs i m

-- A pool's fee in pips was read.
unfoldable pub set_pips : ℕ → ℕ → PoolMeta → Polled → Polled
set_pips i new_fee m p = if m.fee_pips == new_fee then p else record {
  metas = set_at p.metas i (record m { fee_pips = new_fee; fee_bps = new_fee / 100 });
  changed = p.changed ++ i ∷ [];
}

-- A pool's fee in basis points was read.
unfoldable pub set_bps : ℕ → ℕ → PoolMeta → Polled → Polled
set_bps i fee_bps m p = if m.fee_bps == fee_bps then p else record {
  metas = set_at p.metas i (record m { fee_bps = fee_bps; fee_pips = fee_bps * 100 % 2 ^ 32 });
  changed = p.changed ++ i ∷ [];
}

abbrev pub on_fee : (ℕ → ℕ → PoolMeta → Polled → Polled) → ℕ → Option ℕ → Polled → Run Polled
on_fee set i none p = done p
on_fee set i (some fee) p = do m ← or_panic (get_elem? p.metas i); done (set i fee m p)

-- `targets.iter().zip(results)`
unfoldable pub apply_fees :
    (ℕ → ℕ → PoolMeta → Polled → Polled) → List ℕ → List (Option ℕ) → Polled → Run Polled
apply_fees set [] rs p = done p
apply_fees set (i ∷ is) [] p = done p
apply_fees set (i ∷ is) (r ∷ rs) p = do p' ← on_fee set i r p; apply_fees set is rs p'

abbrev pub on_answers :
    (ℕ → ℕ → PoolMeta → Polled → Polled) → List ℕ → Option (List (Option ℕ)) → Polled → Run Polled
on_answers set targets none p = done p
on_answers set targets (some rs) p = apply_fees set targets rs p

-- A failed poll flags its targets again.
abbrev pub flag_again : Option (List (Option ℕ)) → List ℕ → List ℕ
flag_again none targets = targets
flag_again (some rs) targets = []

abbrev pub cl_targets : Bool → List ℕ → Poller → List ℕ
cl_targets true cl_pools p = cl_pools
cl_targets false cl_pools p = without_word_fee p.chain p.fee_recheck

abbrev pub on_sweep : Bool → List ℕ → Option (List (Option ℕ)) → Polled → Run Polled
on_sweep true targets answers p = on_answers set_bps targets answers p
on_sweep false targets answers p = done p

-- The prefetch and the batch, when a fee has changed.
abbrev pub announce : Words → RouteStore → List ℕ → Poller → Run Poller
announce rpc store [] p = done p
announce rpc store (c ∷ cs) p = do
  chain ← prefetch_neighborhood rpc store (c ∷ cs) p.chain
  let batch : Batch = record { block = p.engine.head_block; pools = c ∷ cs }
  done (record p { chain = chain; sent = p.sent ++ batch ∷ [] })

-- One round of the loop.
unfoldable pub poll_round :
    Words
    → RouteStore
    → (cl_pools : List ℕ) → (sweep : Bool) → (cl_answers aero_answers : Option (List (Option ℕ)))
    → Poller
    → Run Poller
poll_round rpc store cl_pools sweep cl_answers aero_answers p = do
  let targets = cl_targets sweep cl_pools p
  let before : Polled = record { metas = p.engine.metas; changed = [] }
  polled ← on_answers set_pips targets cl_answers before
  after ← on_sweep sweep (aero_pools p.engine.metas) aero_answers polled
  announce rpc store after.changed (record p {
    engine = record p.engine { metas = after.metas };
    fee_recheck = flag_again cl_answers targets;
  })
