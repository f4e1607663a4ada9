-- ===== src/Executor/Encoder.antt =====
-- src/executor/encoder.rs: the arguments of the call that executes a route. Their ABI encoding is left
-- out.
pub mod Keys
mod Tests
use robinarb.Base.{
  ℕ, zero, suc, ◌+◌, ◌-◌, ◌%◌, ◌^◌, Bool, true, false, ◌||◌, List, [], ◌∷◌, ◌++◌, Option, none,
  some, ltb, length, ◌==◌, if◌then◌else◌,
}
use robinarb.Base.Word.{Run, done, panic, ◌>>=◌}
use robinarb.Engine.{
  DexTag, uni_v2_fork, aero_volatile, aero_stable, uni_v3_fork, pancake_v3, slipstream, uni_v4,
  algebra, V4Meta, PoolMeta, Engine, meta,
}
use robinarb.Routing.{Hop, Route}
use robinarb.Routing.Store.{RouteStore, route}

abbrev pub hop_kind : DexTag → ℕ
hop_kind uni_v2_fork = 0
hop_kind aero_volatile = 0
hop_kind aero_stable = 1
hop_kind uni_v3_fork = 2
hop_kind pancake_v3 = 2
hop_kind slipstream = 2
hop_kind uni_v4 = 3
hop_kind algebra = 4

pub record V4Key : Type 0 where
  pub currency0 : ℕ
  pub currency1 : ℕ
  pub fee : ℕ
  pub tick_spacing : ℕ

pub record CallHop : Type 0 where
  pub kind : ℕ
  pub pool : ℕ
  pub zero_for_one : Bool
  pub fee_bps : ℕ

-- The vectors that the loop fills.
pub record Encoded : Type 0 where
  pub hops : List CallHop
  pub v4_keys : List V4Key

abbrev pub key_of : V4Meta → V4Key
key_of v = record {
  currency0 = v.currency0;
  currency1 = v.currency1;
  fee = v.fee_pips;
  tick_spacing = v.tick_spacing;
}

-- A V4 hop pushes its key, and its fee field is the key's index.
abbrev pub push_v4 : Encoded → Hop → Option V4Meta → Run Encoded
push_v4 e h none = panic
push_v4 e h (some v) =
    let hop : CallHop = record {
      kind = 3;
      pool = 0;
      zero_for_one = h.zero_for_one;
      fee_bps = length e.v4_keys % 2 ^ 16;
    } in
    done (record { hops = e.hops ++ hop ∷ []; v4_keys = e.v4_keys ++ key_of v ∷ [] })

abbrev pub push_plain : Encoded → Hop → PoolMeta → ℕ → Run Encoded
push_plain e h m kind =
    let hop : CallHop = record {
      kind = kind;
      pool = m.address;
      zero_for_one = h.zero_for_one;
      fee_bps = m.fee_bps % 2 ^ 16;
    } in
    done (record e { hops = e.hops ++ hop ∷ [] })

abbrev pub push_kind : Encoded → Hop → PoolMeta → ℕ → Run Encoded
push_kind e h m kind = if kind == 3 then push_v4 e h m.v4 else push_plain e h m kind

unfoldable pub encode_hops : Engine → List Hop → Encoded → Run Encoded
encode_hops engine [] e = done e
encode_hops engine (h ∷ hs) e = do
  m ← meta engine h.pool
  e' ← push_kind e h m (hop_kind m.dex)
  encode_hops engine hs e'

pub record ExecuteCall : Type 0 where
  pub hops : List CallHop
  pub v4_keys : List V4Key
  pub anchor : ℕ
  pub amount_in : ℕ
  pub min_profit : ℕ
  pub use_flashloan : Bool

unfoldable pub encode :
    Engine → RouteStore → (route_id amount_in own_balance : ℕ) → Bool → Run ExecuteCall
encode engine store route_id amount_in own_balance force_flashloan = do
  r ← route store route_id
  e ← encode_hops engine r.hops (record { hops = []; v4_keys = [] })
  done (record {
    hops = e.hops;
    v4_keys = e.v4_keys;
    anchor = r.anchor;
    amount_in = amount_in;
    min_profit = 0;
    use_flashloan = force_flashloan || ltb own_balance amount_in;
  })
