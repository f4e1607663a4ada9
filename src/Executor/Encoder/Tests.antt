-- ===== src/Executor/Encoder/Tests.antt =====
-- A route over a V4 pool and a V2 pool.
use robinarb.Base.{◌≡◌, refl, arith, true, false, List, [], ◌∷◌, none, some, map}
use robinarb.Base.Word.{done}
use robinarb.Engine.{Engine, PoolMeta, uni_v2_fork, uni_v4}
use robinarb.Engine.Registry.{registry_of}
use robinarb.Routing.{Hop}
use robinarb.Executor.Encoder.{Encoded, encode_hops}
use robinarb.Executor.Encoder.Keys.{reads, wanted, encode_hops-reads}

abbrev plain : PoolMeta
plain = record {
  idx = 0;
  address = 11;
  dex = uni_v2_fork;
  factory = 0;
  token0 = 100;
  token1 = 200;
  dec0 = 18;
  dec1 = 6;
  fee_bps = 30;
  fee_pips = 3_000;
  tick_spacing = 1;
  v4 = none;
}

abbrev vanilla : PoolMeta
vanilla = record plain {
  idx = 1;
  address = 12;
  dex = uni_v4;
  v4 =
      some (record {
        pool_id = 77;
        currency0 = 0;
        currency1 = 200;
        fee_pips = 500;
        tick_spacing = 10;
      });
}

abbrev engine : Engine
engine = registry_of (plain ∷ vanilla ∷ [])

abbrev hops : List Hop
hops =
    record { pool = 1; zero_for_one = true; token_in = 100 }
    ∷ record { pool = 0; zero_for_one = false; token_in = 200 }
    ∷ []

abbrev encoded : Encoded
encoded = record {
  hops =
      record { kind = 3; pool = 0; zero_for_one = true; fee_bps = 0 }
      ∷ record { kind = 0; pool = 11; zero_for_one = false; fee_bps = 30 }
      ∷ [];
  v4_keys = record { currency0 = 0; currency1 = 200; fee = 500; tick_spacing = 10 } ∷ [];
}

encodes : encode_hops engine hops (record { hops = []; v4_keys = [] }) ≡ done encoded
unfolding encode_hops
encodes = refl

encode_hops-reads_example : map (reads encoded.v4_keys) encoded.hops ≡ map (wanted engine) hops
encode_hops-reads_example = encode_hops-reads engine hops encoded encodes (omega arith)
