-- ===== src/Executor/Encoder/Keys.antt =====
-- The encoded hops of src/executor/encoder.rs as the executed contract reads them.
use robinarb.Base.{
  append_assoc, append_nil, ℕ, ◌+◌, ◌%◌, ◌^◌, ◌≤◌, ◌≡◌, refl, sym, ap, ◌∙◌, arith, Bool, true,
  false, List, [], ◌∷◌, ◌++◌, map, Option, none, some, get_elem?, get_elem?-append_length, length,
  length-append, ◌==◌, if◌then◌else◌, Bool-cases, inl, inr,
}
use robinarb.Base.Word.{done, >>=-eq-done, done-injective}
use robinarb.Engine.{
  DexTag, uni_v2_fork, aero_volatile, aero_stable, uni_v3_fork, pancake_v3, slipstream, uni_v4,
  algebra, Engine, PoolMeta, V4Meta, meta, or_panic,
}
use robinarb.Routing.{Hop}
use robinarb.Executor.Encoder.{
  hop_kind, V4Key, CallHop, Encoded, key_of, push_v4, push_kind, encode_hops,
}

-- The interface of a pool that has an address.
pub data Interface : Type 0 where
  volatile_pair : Interface
  stable_pair : Interface
  cl_pool : Interface
  algebra_pool : Interface

-- How a hop swaps: its direction, and a pool's interface and address, or the currencies, the fee and the
-- tick spacing under which the pool manager keeps a pool.
pub data Target : Type 0 where
  at_pool : Bool → Interface → ℕ → Target
  at_key : Bool → (currency0 currency1 fee tick_spacing : ℕ) → Target

abbrev pub under : Bool → Option V4Key → Option Target
under dir none = none
under dir (some k) = some (at_key dir k.currency0 k.currency1 k.fee k.tick_spacing)

abbrev pub through : Bool → Option Interface → ℕ → Option Target
through dir none address = none
through dir (some i) address = some (at_pool dir i address)

abbrev pub interface_of_kind : ℕ → Option Interface
interface_of_kind kind =
    if kind == 0
    then some volatile_pair
    else if kind == 1
    then some stable_pair
    else if kind == 2
    then some cl_pool
    else if kind == 4
    then some algebra_pool
    else none

-- How the executed contract reads a hop: kind 3 is an index into the keys.
abbrev pub reads : List V4Key → CallHop → Option Target
reads keys c =
    if c.kind == 3
    then under c.zero_for_one (get_elem? keys c.fee_bps)
    else through c.zero_for_one (interface_of_kind c.kind) c.pool

-- The interface of a DEX's pools; V4 pools have no address.
abbrev pub interface_of_dex : DexTag → Option Interface
interface_of_dex uni_v2_fork = some volatile_pair
interface_of_dex aero_volatile = some volatile_pair
interface_of_dex aero_stable = some stable_pair
interface_of_dex uni_v3_fork = some cl_pool
interface_of_dex pancake_v3 = some cl_pool
interface_of_dex slipstream = some cl_pool
interface_of_dex uni_v4 = none
interface_of_dex algebra = some algebra_pool

abbrev pub v4_target : Bool → Option V4Meta → Option Target
v4_target dir none = none
v4_target dir (some v) = some (at_key dir v.currency0 v.currency1 v.fee_pips v.tick_spacing)

abbrev pub by_interface : Bool → Option Interface → PoolMeta → Option Target
by_interface dir none m = v4_target dir m.v4
by_interface dir (some i) m = some (at_pool dir i m.address)

abbrev pub meta_target : Bool → Option PoolMeta → Option Target
meta_target dir none = none
meta_target dir (some m) = by_interface dir (interface_of_dex m.dex) m

-- The pool of a hop in the registry, with the hop's direction.
abbrev pub wanted : Engine → Hop → Option Target
wanted engine h = meta_target h.zero_for_one (get_elem? engine.metas h.pool)

interface_of_v4 : (d : DexTag) → (hop_kind d == 3) ≡ true → interface_of_dex d ≡ none
interface_of_v4 uni_v2_fork h = cc
interface_of_v4 aero_volatile h = cc
interface_of_v4 aero_stable h = cc
interface_of_v4 uni_v3_fork h = cc
interface_of_v4 pancake_v3 h = cc
interface_of_v4 slipstream h = cc
interface_of_v4 uni_v4 h = refl
interface_of_v4 algebra h = cc

interface_of_plain :
    (d : DexTag) (dir : Bool) (m : PoolMeta)
    → (hop_kind d == 3) ≡ false
    → through dir (interface_of_kind (hop_kind d)) m.address
      ≡ by_interface dir (interface_of_dex d) m
interface_of_plain uni_v2_fork dir m h = refl
interface_of_plain aero_volatile dir m h = refl
interface_of_plain aero_stable dir m h = refl
interface_of_plain uni_v3_fork dir m h = refl
interface_of_plain pancake_v3 dir m h = refl
interface_of_plain slipstream dir m h = refl
interface_of_plain uni_v4 dir m h = cc
interface_of_plain algebra dir m h = refl

or_panic-done : (o : Option PoolMeta) (m : PoolMeta) → or_panic o ≡ done m → o ≡ some m
or_panic-done none m h = cc
or_panic-done (some x) m h = ap some (done-injective h)

-- What one hop appends: itself, its keys, and that a reader with any further keys finds its pool.
abbrev Appends : Encoded → Encoded → Bool → PoolMeta → Type 0
Appends e e' dir m =
    (c : CallHop) × (new : List V4Key) × (e'.hops ≡ e.hops ++ c ∷ [])
    × (e'.v4_keys ≡ e.v4_keys ++ new)
    × ((more : List V4Key)
        → length e'.v4_keys ≤ 2 ^ 16
        → reads (e'.v4_keys ++ more) c ≡ meta_target dir (some m))

push_v4-Appends :
    (e e' : Encoded) (h : Hop) (m : PoolMeta) (v : Option V4Meta)
    → m.v4 ≡ v
    → (hop_kind m.dex == 3) ≡ true
    → push_v4 e h v ≡ done e'
    → Appends e e' h.zero_for_one m
push_v4-Appends e e' h m none o k built = cc
push_v4-Appends e e' h m (some v) o k built =
    let hop : CallHop = record {
      kind = 3;
      pool = 0;
      zero_for_one = h.zero_for_one;
      fee_bps = length e.v4_keys % 2 ^ 16;
    } in
    let same : record { hops = e.hops ++ hop ∷ []; v4_keys = e.v4_keys ++ key_of v ∷ [] } ≡ e' =
      done-injective built in
    rw (← same) (hop, key_of v ∷ [], refl, refl, λ more room. found more room)
  where
    found :
        (more : List V4Key)
        → length (e.v4_keys ++ key_of v ∷ []) ≤ 2 ^ 16
        → under h.zero_for_one
            (get_elem? ((e.v4_keys ++ key_of v ∷ []) ++ more) (length e.v4_keys % 2 ^ 16))
          ≡ meta_target h.zero_for_one (some m)
    found more room =
        let small : length e.v4_keys % 2 ^ 16 ≡ length e.v4_keys =
          omega (arith, length-append e.v4_keys (key_of v ∷ [])) in
        rw
          (
            small,
            append_assoc e.v4_keys (key_of v ∷ []) more,
            get_elem?-append_length e.v4_keys more (key_of v),
            interface_of_v4 m.dex k,
            o,
          )
          refl

push_kind-Appends :
    (e e' : Encoded) (h : Hop) (m : PoolMeta)
    → push_kind e h m (hop_kind m.dex) ≡ done e'
    → Appends e e' h.zero_for_one m
push_kind-Appends e e' h m built = elim (Bool-cases (hop_kind m.dex == 3)) [
  | inl v4 ↦ push_v4-Appends e e' h m m.v4 refl v4 (rw v4 at built)
  | inr plain ↦
      let hop : CallHop = record {
        kind = hop_kind m.dex;
        pool = m.address;
        zero_for_one = h.zero_for_one;
        fee_bps = m.fee_bps % 2 ^ 16;
      } in
      let same : record e { hops = e.hops ++ hop ∷ [] } ≡ e' = done-injective (rw plain at built) in
      rw (← same) (
        hop,
        [],
        refl,
        sym (append_nil e.v4_keys),
        λ more room. rw plain (interface_of_plain m.dex h.zero_for_one m plain),
      )
]

module _ (engine : Engine) where
  encode_hops-from :
      (hs : List Hop) (e e' : Encoded)
      → encode_hops engine hs e ≡ done e'
      → length e'.v4_keys ≤ 2 ^ 16
      → (cs : List CallHop) × (new : List V4Key) × (e'.hops ≡ e.hops ++ cs)
        × (e'.v4_keys ≡ e.v4_keys ++ new)
        × (map (reads e'.v4_keys) cs ≡ map (wanted engine) hs)
  unfolding encode_hops
  encode_hops-from [] e e' h room =
      let same : e ≡ e' = done-injective h in
      rw (← same) ([], [], sym (append_nil e.hops), sym (append_nil e.v4_keys), refl)
  encode_hops-from (x ∷ hs) e e' h room =
      let (m, at, h1) = >>=-eq-done (meta engine x.pool) _ h in
      let (e1, pushed, h2) = >>=-eq-done (push_kind e x m (hop_kind m.dex)) _ h1 in
      let (c, new, hops1, keys1, reads1) = push_kind-Appends e e1 x m pushed in
      let (cs, more, hops2, keys2, reads2) = encode_hops-from hs e1 e' h2 room in
      let grown : length e'.v4_keys ≡ length e1.v4_keys + length more =
        ap length keys2 ∙ length-append e1.v4_keys more in
      let here : reads e'.v4_keys c ≡ wanted engine x =
        ap (λ (ks : List V4Key). reads ks c) keys2
        ∙ reads1 more (omega arith)
        ∙ ap (meta_target x.zero_for_one) (sym (or_panic-done _ m at)) in
      (
        c ∷ cs,
        new ++ more,
        hops2 ∙ ap (λ (xs : List CallHop). xs ++ cs) hops1 ∙ append_assoc e.hops (c ∷ []) cs,
        keys2 ∙ ap (λ (ks : List V4Key). ks ++ more) keys1 ∙ append_assoc e.v4_keys new more,
        rw (here, reads2) refl,
      )

-- When the hops of a route are encoded with at most 65,536 V4 keys, reading the encoded hops in
-- order, each of kind 3 through the key at its index, gives the hops of the route in order: the
-- direction of each, with the interface of its pool's DEX and the pool's address in the registry, or
-- the currencies, the fee and the tick spacing of its V4 identity.
pub encode_hops-reads :
    (engine : Engine) (hops : List Hop) (e : Encoded)
    → encode_hops engine hops (record { hops = []; v4_keys = [] }) ≡ done e
    → length e.v4_keys ≤ 2 ^ 16
    → map (reads e.v4_keys) e.hops ≡ map (wanted engine) hops
encode_hops-reads engine hops e h room =
    let (cs, new, same, _, agree) =
      encode_hops-from engine hops (record { hops = []; v4_keys = [] }) e h room in
    rw same agree
