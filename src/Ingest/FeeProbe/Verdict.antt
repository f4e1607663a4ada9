-- ===== src/Ingest/FeeProbe/Verdict.antt =====
-- The verdicts of src/ingest/fee_probe.rs and the holders that they come from.
use robinarb.Base.{
  ℕ, ◌≤◌, ◌≡◌, refl, arith, Bool, true, false, not, ◌&&◌, ◌||◌, List, [], ◌∷◌, Option, none, some,
  ltb, length, length-append, contains, Distinct, Distinct-concat, ◌==◌, if◌then◌else◌, Bool-cases,
  inl, inr,
}
use robinarb.Ingest.Discovery.{DiscoveredPool}
use robinarb.Ingest.FeeProbe.{
  max_holders_per_token, candidate, probe_one, on_verdict, probe_holders, probe_token, push_holder,
  add_pool, gather, holders,
}

abbrev pub is_short : Option Bool → Bool
is_short (some true) = true
is_short _ = false

abbrev pub is_conclusive : Option Bool → Bool
is_conclusive (some b) = true
is_conclusive none = false

-- Some holder's verdict has the property.
abbrev pub any_verdict : (Option Bool → Bool) → (ℕ → Option Bool) → List ℕ → Bool
any_verdict p probe [] = false
any_verdict p probe (h ∷ hs) = p (probe h) || any_verdict p probe hs

-- The verdict by all holders at once.
abbrev pub verdict : Bool → Bool → Option Bool
verdict true conclusive = some true
verdict false true = some false
verdict false false = none

probe_holders-verdict :
    (transfer : ℕ → ℕ → Option ℕ) (decimals : ℕ) (hs : List ℕ) (any : Bool)
    → probe_holders transfer decimals hs any
      ≡ verdict
          (any_verdict is_short (probe_one transfer decimals) hs)
          (any || any_verdict is_conclusive (probe_one transfer decimals) hs)
unfolding probe_holders
probe_holders-verdict transfer decimals [] any = ground arith
probe_holders-verdict transfer decimals (h ∷ hs) any =
    by_verdict (probe_one transfer decimals h) (probe_holders-verdict transfer decimals hs true)
      (probe_holders-verdict transfer decimals hs any)
  where
    rest_short : Bool
    rest_short = any_verdict is_short (probe_one transfer decimals) hs

    by_verdict :
        (o : Option Bool)
        → probe_holders transfer decimals hs true
          ≡ verdict
              (any_verdict is_short (probe_one transfer decimals) hs)
              (true || any_verdict is_conclusive (probe_one transfer decimals) hs)
        → probe_holders transfer decimals hs any
          ≡ verdict
              (any_verdict is_short (probe_one transfer decimals) hs)
              (any || any_verdict is_conclusive (probe_one transfer decimals) hs)
        → on_verdict o
            (probe_holders transfer decimals hs true)
            (probe_holders transfer decimals hs any)
          ≡ verdict (is_short o || any_verdict is_short (probe_one transfer decimals) hs) (
              any
              || (is_conclusive o || any_verdict is_conclusive (probe_one transfer decimals) hs))
    by_verdict (some true) clean other = ground arith
    by_verdict (some false) clean other = ground arith
    by_verdict none clean other = ground arith

-- The verdict on a token does not depend on the order of its holders: a shortfall at any holder
-- condemns it, one conclusive probe without any shortfall clears it, and with no conclusive probe there
-- is no verdict.
pub probe_token-verdict :
    (transfer : ℕ → ℕ → Option ℕ) (decimals : ℕ) (hs : List ℕ)
    → probe_token transfer decimals hs
      ≡ verdict
          (any_verdict is_short (probe_one transfer decimals) hs)
          (any_verdict is_conclusive (probe_one transfer decimals) hs)
unfolding probe_token
probe_token-verdict transfer decimals hs = probe_holders-verdict transfer decimals hs false

abbrev IsBounded : List ℕ → Type 0
IsBounded list = (length list ≤ max_holders_per_token) × Distinct list

push_holder-IsBounded : (list : List ℕ) (c : ℕ) → IsBounded list → IsBounded (push_holder list c)
unfolding push_holder
push_holder-IsBounded list c (few, distinct) =
    elim (Bool-cases (not (contains list c) && ltb (length list) max_holders_per_token)) [
      | inl room ↦
          let new : contains list c ≡ false = ground arith in
          rw room (ground (arith, length-append list (c ∷ [])), Distinct-concat list c distinct new)
      | inr full ↦ rw full (few, distinct)
    ]

add_pool-IsBounded :
    (t : ℕ) (list : List ℕ) (p : DiscoveredPool) → IsBounded list → IsBounded (add_pool t list p)
unfolding add_pool
add_pool-IsBounded t list p h =
    second (if p.token0 == t then push_holder list (candidate p) else list) (first (p.token0 == t))
  where
    first : (b : Bool) → IsBounded (if b then push_holder list (candidate p) else list)
    first true = push_holder-IsBounded list (candidate p) h
    first false = h

    choose :
        (b : Bool) (l : List ℕ)
        → IsBounded l
        → IsBounded (if b then push_holder l (candidate p) else l)
    choose true l k = push_holder-IsBounded l (candidate p) k
    choose false l k = k

    second :
        (l : List ℕ)
        → IsBounded l
        → IsBounded (if p.token1 == t then push_holder l (candidate p) else l)
    second l k = choose (p.token1 == t) l k

gather-IsBounded :
    (t : ℕ) (list : List ℕ) (ps : List DiscoveredPool)
    → IsBounded list
    → IsBounded (gather t list ps)
unfolding gather
gather-IsBounded t list [] h = h
gather-IsBounded t list (p ∷ ps) h =
    gather-IsBounded t (add_pool t list p) ps (add_pool-IsBounded t list p h)

-- Whatever the pools, at most three holders of a token are probed, all different, and none for an
-- anchor token.
pub holders_bounded :
    (anchors : List ℕ) (t : ℕ) (discovered : List DiscoveredPool)
    → (length (holders anchors t discovered) ≤ max_holders_per_token)
      × Distinct (holders anchors t discovered)
      × (contains anchors t ≡ true → holders anchors t discovered ≡ [])
unfolding holders
holders_bounded anchors t discovered =
    let (few, distinct) = gather-IsBounded t [] discovered (omega arith, tt) in
    elim (Bool-cases (contains anchors t)) [
      | inl anchor ↦ rw anchor (omega arith, tt, λ same. refl)
      | inr other ↦ rw other (few, distinct, λ same. cc)
    ]
