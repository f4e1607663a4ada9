-- ===== src/Ingest/Bootstrap.antt =====
-- src/ingest/bootstrap.rs: the filter of the hydrated pools, their indices, and the decoders of the
-- answers of view calls. The depths are f64 and stay a parameter type with their test against an
-- anchor's minimum; the decoding of getReserves is generated code and a parameter.
pub mod Resolve
mod Tests
use robinarb.Base.{
  ℕ, zero, suc, ◌+◌, ◌-◌, ◌*◌, ◌%◌, ◌^◌, min, Bool, true, false, not, ◌&&◌, ◌||◌, List, [], ◌∷◌,
  Option, none, some, ltb, contains, length, take, ◌==◌, if◌then◌else◌,
}
use robinarb.Base.Int.{ℤ, signed32}
use robinarb.Base.Word.{Run, done, panic}
use robinarb.Engine.{
  DexTag, uni_v2_fork, aero_volatile, aero_stable, uni_v3_fork, pancake_v3, slipstream, uni_v4,
  algebra, PoolMeta,
}

pub record FilterConfig : Type 0 where
  pub token_whitelist : List ℕ
  pub token_blacklist : List ℕ

module _ (Depth : Type 0) where
  -- `gate` lists the depth on each side that is an anchor's.
  pub record PoolRegistration : Type 0 where
    pub meta : PoolMeta
    pub gate : Option (List (ℕ × Depth))

  -- The token and the minimum that a depth is tested against.
  pub record AnchorConfig : Type 0 where
    pub token : ℕ
    pub deep_enough : Depth → Bool

  abbrev pub depth_of : ℕ → List (ℕ × Depth) → Depth → Depth
  depth_of t [] zero_depth = zero_depth
  depth_of t ((u, d) ∷ sides) zero_depth = if u == t then d else depth_of t sides zero_depth

  abbrev pub depth_at : Option (List (ℕ × Depth)) → ℕ → Option Depth → Depth → Depth
  depth_at (some sides) t balance zero_depth = depth_of t sides zero_depth
  depth_at none t none zero_depth = zero_depth
  depth_at none t (some d) zero_depth = d

  abbrev pub touches : PoolMeta → AnchorConfig → Bool
  touches m a = m.token0 == a.token || m.token1 == a.token

  -- Among the anchors that the pool touches: none, or one whose depth passes.
  abbrev pub touched : PoolMeta → List AnchorConfig → List AnchorConfig
  touched m [] = []
  touched m (a ∷ as') = if touches m a then a ∷ touched m as' else touched m as'

  abbrev pub any_deep : (AnchorConfig → Bool) → List AnchorConfig → Bool
  any_deep p [] = false
  any_deep p (a ∷ as') = p a || any_deep p as'

  abbrev pub none_or_any : (AnchorConfig → Bool) → List AnchorConfig → Bool
  none_or_any p [] = true
  none_or_any p (a ∷ as') = any_deep p (a ∷ as')

  abbrev pub is_anchor : List AnchorConfig → ℕ → Bool
  is_anchor [] t = false
  is_anchor (a ∷ as') t = a.token == t || is_anchor as' t

  module _ (cl_anchor_bal : ℕ → ℕ → Option Depth) (zero_depth : Depth)
      (anchors : List AnchorConfig) where
    unfoldable pub anchor_liquidity : PoolRegistration → Bool
    anchor_liquidity reg =
        none_or_any
          (λ a.
            a.deep_enough
              (depth_at reg.gate a.token (cl_anchor_bal reg.meta.address a.token) zero_depth))
          (touched reg.meta anchors)

    abbrev pub is_listed : FilterConfig → ℕ → Bool
    is_listed filter t = is_anchor anchors t || contains filter.token_whitelist t

    abbrev pub passes_whitelist : FilterConfig → PoolMeta → List ℕ → Bool
    passes_whitelist filter m [] = true
    passes_whitelist filter m (w ∷ ws) = is_listed filter m.token0 && is_listed filter m.token1

    -- The closure of the filter: its early returns in their order.
    unfoldable pub keeps : FilterConfig → Bool → PoolRegistration → Bool
    keeps filter enforce_liquidity reg =
        if contains filter.token_blacklist reg.meta.token0
          || contains filter.token_blacklist reg.meta.token1
        then false
        else if not (passes_whitelist filter reg.meta filter.token_whitelist)
        then false
        else if enforce_liquidity && not (anchor_liquidity reg)
        then false
        else true

    unfoldable pub apply_filter :
        FilterConfig → Bool → List PoolRegistration → List PoolRegistration
    apply_filter filter enforce [] = []
    apply_filter filter enforce (r ∷ rs) =
        let rest = apply_filter filter enforce rs in
        if keeps filter enforce r then r ∷ rest else rest

-- `reindex`, from the index `i` on, which is cut to 32 bits.
unfoldable pub reindex_from : ℕ → List PoolMeta → List PoolMeta
reindex_from i [] = []
reindex_from i (m ∷ ms) = record m { idx = i % 2 ^ 32 } ∷ reindex_from (i + 1) ms

unfoldable pub reindex : List PoolMeta → List PoolMeta
reindex ms = reindex_from 0 ms

-- A big-endian number.
unfoldable pub from_be : ℕ → List ℕ → ℕ
from_be acc [] = acc
from_be acc (b ∷ bs) = from_be (acc * 256 + b) bs

abbrev pub drop : ℕ → List ℕ → List ℕ
drop zero xs = xs
drop (suc n) [] = []
drop (suc n) (x ∷ xs) = drop n xs

-- The first word, and the low four bytes of the second.
unfoldable pub decode_slot0 : List ℕ → Option (ℕ × ℤ)
decode_slot0 bytes =
    if ltb (length bytes) 64
    then none
    else some (from_be 0 (take 32 bytes), signed32 (from_be 0 (take 4 (drop 60 bytes))))

-- The conversion of a word above u128 panics.
unfoldable pub decode_u128 : List ℕ → Run (Option ℕ)
decode_u128 bytes =
    let w = from_be 0 (take 32 bytes) in
    if ltb (length bytes) 32 then done none else if ltb w (2 ^ 128) then done (some w) else panic

abbrev pub clamp_pair : Option (ℕ × ℕ) → Option (ℕ × ℕ)
clamp_pair none = none
clamp_pair (some (a, b)) = some (min a (2 ^ 128 - 1), min b (2 ^ 128 - 1))

-- `pair` and `aero` decode the answers of the two kinds of getReserves.
unfoldable pub decode_reserves_v2ish :
    (pair aero : List ℕ → Option (ℕ × ℕ)) → DexTag → List ℕ → Option (ℕ × ℕ)
decode_reserves_v2ish pair aero uni_v2_fork bytes = pair bytes
decode_reserves_v2ish pair aero aero_volatile bytes = clamp_pair (aero bytes)
decode_reserves_v2ish pair aero aero_stable bytes = none
decode_reserves_v2ish pair aero uni_v3_fork bytes = none
decode_reserves_v2ish pair aero pancake_v3 bytes = none
decode_reserves_v2ish pair aero slipstream bytes = none
decode_reserves_v2ish pair aero uni_v4 bytes = none
decode_reserves_v2ish pair aero algebra bytes = none
