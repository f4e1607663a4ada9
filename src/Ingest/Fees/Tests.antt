-- ===== src/Ingest/Fees/Tests.antt =====
-- Two pools: one fee has changed, the other's call fails.
use robinarb.Base.{ℕ, ◌≡◌, ◌⊎◌, refl, true, false, [], ◌∷◌, none, some, get_elem?}
use robinarb.Base.Word.{done}
use robinarb.Engine.{PoolMeta, aero_volatile, slipstream}
use robinarb.Routing.Store.{RouteStore, build, routes_for_pool}
use robinarb.State.{prefetch_neighborhood, prefetch_into}
use robinarb.Ingest.Fees.{
  Poller, set_pips, set_bps, aero_pools, apply_fees, without_word_fee, poll_round,
}
use robinarb.Ingest.Fees.Announced.{IsFlagged, Announces, poll_round-Announces}

abbrev pool : ℕ → PoolMeta
pool i = record {
  idx = i;
  address = 10;
  dex = slipstream;
  factory = 0;
  token0 = 100;
  token1 = 200;
  dec0 = 18;
  dec1 = 6;
  fee_bps = 30;
  fee_pips = 3_000;
  tick_spacing = 1;
  v4 = none;
}

abbrev store : RouteStore
store = build [] 2

abbrev poller : Poller
poller = record {
  engine = record { metas = pool 0 ∷ pool 1 ∷ []; by_address = []; head_block = 9 };
  fee_recheck = 0 ∷ 1 ∷ [];
  chain = record { tip = 9; memo = λ a s. none; tick_cache = λ a s. none; plans = [] };
  sent = [];
}

abbrev polled : Poller
polled = record poller {
  engine = record {
    metas = record (pool 0) { fee_pips = 500; fee_bps = 5 } ∷ pool 1 ∷ [];
    by_address = [];
    head_block = 9;
  };
  fee_recheck = [];
  sent = record { block = 9; pools = 0 ∷ [] } ∷ [];
}

polls :
    poll_round (λ a s. none) store [] false (some (some 500 ∷ none ∷ [])) none poller ≡ done polled
unfolding poll_round apply_fees set_pips without_word_fee prefetch_neighborhood routes_for_pool
    build prefetch_into
polls = refl

-- A sweep whose poll of the CL pools fails, while a volatile pair's fee has changed.
abbrev swept : Poller
swept = record poller {
  engine = record {
    metas = record (pool 0) { dex = aero_volatile } ∷ pool 1 ∷ [];
    by_address = [];
    head_block = 9;
  };
  fee_recheck = 0 ∷ [];
}

abbrev after_sweep : Poller
after_sweep = record swept {
  engine = record {
    metas = record (pool 0) { dex = aero_volatile; fee_bps = 25; fee_pips = 2_500 } ∷ pool 1 ∷ [];
    by_address = [];
    head_block = 9;
  };
  fee_recheck = 1 ∷ [];
  sent = record { block = 9; pools = 0 ∷ [] } ∷ [];
}

sweeps :
    poll_round (λ a s. none) store (1 ∷ []) true none (some (some 25 ∷ [])) swept ≡ done after_sweep
unfolding poll_round apply_fees set_bps aero_pools prefetch_neighborhood routes_for_pool build
    prefetch_into
sweeps = refl

poll_round-Announces_example :
    ((get_elem? after_sweep.engine.metas 1 ≡ get_elem? swept.engine.metas 1)
      ⊎ Announces swept.sent swept.engine 1 after_sweep.sent)
    × IsFlagged none true (1 ∷ []) swept after_sweep 1
poll_round-Announces_example =
    poll_round-Announces (λ a s. none) store (1 ∷ []) true none (some (some 25 ∷ [])) swept
      after_sweep 1 sweeps
