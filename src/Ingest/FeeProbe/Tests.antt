-- ===== src/Ingest/FeeProbe/Tests.antt =====
-- A token that taxes transfers from one of its two pools.
use robinarb.Base.{
  ℕ, ◌-◌, ◌/◌, ◌≡◌, refl, true, false, List, [], ◌∷◌, Option, none, some, ◌==◌, if◌then◌else◌,
}
use robinarb.Engine.{uni_v2_fork}
use robinarb.Ingest.Discovery.{DiscoveredPool}
use robinarb.Ingest.FeeProbe.{
  probe_amount, min_ok, probe_one, probe_holders, probe_token, push_holder, add_pool, gather,
  holders,
}
use robinarb.Ingest.FeeProbe.Verdict.{
  is_short, is_conclusive, any_verdict, verdict, probe_token-verdict,
}

-- Holder 7 is exempt, holder 8 pays one percent, and the others have no balance.
abbrev transfer : ℕ → ℕ → Option ℕ
transfer holder amount =
    if holder == 7 then some amount else if holder == 8 then some (amount - amount / 100) else none

probe_token-verdict_example :
    probe_token transfer 18 (6 ∷ 7 ∷ 8 ∷ [])
    ≡ verdict
        (any_verdict is_short (probe_one transfer 18) (6 ∷ 7 ∷ 8 ∷ []))
        (any_verdict is_conclusive (probe_one transfer 18) (6 ∷ 7 ∷ 8 ∷ []))
probe_token-verdict_example = probe_token-verdict transfer 18 (6 ∷ 7 ∷ 8 ∷ [])

taxed : probe_token transfer 18 (6 ∷ 7 ∷ 8 ∷ []) ≡ some true
unfolding probe_token probe_holders probe_one probe_amount min_ok
taxed = refl

clean : probe_token transfer 18 (6 ∷ 7 ∷ []) ≡ some false
unfolding probe_token probe_holders probe_one probe_amount min_ok
clean = refl

abbrev pool : ℕ → ℕ → ℕ → DiscoveredPool
pool address token0 token1 = record {
  address = address;
  dex = uni_v2_fork;
  factory = 1;
  token0 = token0;
  token1 = token1;
  fee_pips = none;
  tick_spacing = none;
  fee_bps = some 30;
  pool_id = none;
  currency0_raw = none;
}

abbrev pools : List DiscoveredPool
pools = pool 6 100 200 ∷ pool 6 200 300 ∷ pool 9 300 200 ∷ []

two_holders : holders (100 ∷ []) 200 pools ≡ 6 ∷ 9 ∷ []
unfolding holders gather add_pool push_holder
two_holders = refl
