-- ===== src/Ingest/FeeProbe.antt =====
-- src/ingest/fee_probe.rs: the verdict on a token from simulated transfers, and the pools that they are
-- sent from. A simulated transfer and the cache file are parameters.
pub mod Verdict
mod Tests
use robinarb.Base.{
  ℕ, zero, suc, ◌+◌, ◌-◌, ◌*◌, ◌/◌, ◌^◌, max, min, Bool, true, false, not, ◌&&◌, List, [], ◌∷◌,
  ◌++◌, Option, none, some, ltb, length, contains, ◌==◌, if◌then◌else◌,
}
use robinarb.Engine.{is_v4}
use robinarb.Ingest.Discovery.{DiscoveredPool}
use robinarb.State.Plans.{univ4_pool_manager}

abbrev pub max_holders_per_token : ℕ
max_holders_per_token = 3

abbrev pub tolerance_bps : ℕ
tolerance_bps = 1

-- A thousandth of a token.
unfoldable pub probe_amount : ℕ → ℕ
probe_amount decimals = max (10 ^ min decimals 18 / 1_000) 1

unfoldable pub min_ok : ℕ → ℕ
min_ok amount = amount - amount * tolerance_bps / 10_000

-- `none` is a call that fails: no verdict.
abbrev pub verdict_of : ℕ → Option ℕ → Option Bool
verdict_of amount none = none
verdict_of amount (some received) = some (ltb received (min_ok amount))

-- The answer of a holder: what arrives when the amount is sent from it.
unfoldable pub probe_one : (ℕ → ℕ → Option ℕ) → ℕ → ℕ → Option Bool
probe_one transfer decimals holder =
    let amount = probe_amount decimals in verdict_of amount (transfer holder amount)

abbrev pub conclude : Bool → Option Bool
conclude true = some false
conclude false = none

abbrev pub on_verdict : Option Bool → Option Bool → Option Bool → Option Bool
on_verdict (some true) if_clean otherwise = some true
on_verdict (some false) if_clean otherwise = if_clean
on_verdict none if_clean otherwise = otherwise

-- The loop over the holders, with its flag.
unfoldable pub probe_holders : (ℕ → ℕ → Option ℕ) → ℕ → List ℕ → Bool → Option Bool
probe_holders transfer decimals [] any_conclusive = conclude any_conclusive
probe_holders transfer decimals (h ∷ hs) any_conclusive =
    on_verdict (probe_one transfer decimals h) (probe_holders transfer decimals hs true)
      (probe_holders transfer decimals hs any_conclusive)

unfoldable pub probe_token : (ℕ → ℕ → Option ℕ) → ℕ → List ℕ → Option Bool
probe_token transfer decimals holders = probe_holders transfer decimals holders false

-- The holders of one token, of the map that the loop over the pools builds.
unfoldable pub push_holder : List ℕ → ℕ → List ℕ
push_holder list candidate =
    if not (contains list candidate) && ltb (length list) max_holders_per_token
    then list ++ candidate ∷ []
    else list

abbrev pub candidate : DiscoveredPool → ℕ
candidate p = if is_v4 p.dex then univ4_pool_manager else p.address

-- `for t in [p.token0, p.token1]`, at the entry of the token `t`.
unfoldable pub add_pool : ℕ → List ℕ → DiscoveredPool → List ℕ
add_pool t list p =
    let list' = if p.token0 == t then push_holder list (candidate p) else list in
    if p.token1 == t then push_holder list' (candidate p) else list'

unfoldable pub gather : ℕ → List ℕ → List DiscoveredPool → List ℕ
gather t list [] = list
gather t list (p ∷ ps) = gather t (add_pool t list p) ps

-- An anchor has no holders to probe.
unfoldable pub holders : List ℕ → ℕ → List DiscoveredPool → List ℕ
holders anchors t discovered = if contains anchors t then [] else gather t [] discovered
