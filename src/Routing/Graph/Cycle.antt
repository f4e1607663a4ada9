-- ===== src/Routing/Graph/Cycle.antt =====
-- Routes of src/routing/graph.rs as cycles over the tokens of the registry.
use robinarb.Base.{
  ℕ, ◌≤◌, ◌≡◌, refl, ap, arith, ◌&&◌, List, [], ◌∷◌, ◌++◌, Option, none, some, length, ◌==◌,
  if◌then◌else◌, Distinct, Option-cases, inl, inr,
}
use robinarb.Routing.{Hop, Route}
use robinarb.Routing.Graph.{Edge, next_token, hop_over}

abbrev pub pools_of : List Hop → List ℕ
pools_of [] = []
pools_of (h ∷ hs) = h.pool ∷ pools_of hs

abbrev pub tokens_of : List Hop → List ℕ
tokens_of [] = []
tokens_of (h ∷ hs) = h.token_in ∷ tokens_of hs

-- Where a swap of `token` over a hop between these tokens ends: nowhere, when the hop does not take it.
abbrev pub end_of : Option (ℕ × ℕ) → ℕ → Hop → Option ℕ
end_of none token h = none
end_of (some (t0, t1)) token h =
    if h.token_in == token && (if h.zero_for_one then t0 == token else t1 == token)
    then (if h.zero_for_one then some t1 else some t0)
    else none

abbrev pub and_then : Option ℕ → (ℕ → Option ℕ) → Option ℕ
and_then none f = none
and_then (some a) f = f a

module _ (tokens : ℕ → Option (ℕ × ℕ)) where
  abbrev pub hop_end : ℕ → Hop → Option ℕ
  hop_end token h = end_of (tokens h.pool) token h

  -- Where the swaps over all the hops end.
  abbrev pub follow : ℕ → List Hop → Option ℕ
  follow token [] = some token
  follow token (h ∷ hs) = and_then (hop_end token h) (λ next. follow next hs)

  -- The route starts and ends at its anchor, each hop taking what the one before it gave, over two
  -- to `max_hops` pools, of which none occurs twice, and no token is spent twice.
  pub record Cycle (max_hops : ℕ) (r : Route) : Type 0 where
    pub closes : follow r.anchor r.hops ≡ some r.anchor
    pub two : 2 ≤ length r.hops
    pub bounded : length r.hops ≤ max_hops
    pub distinct_pools : Distinct (pools_of r.hops)
    pub distinct_tokens : Distinct (tokens_of r.hops)

  abbrev pub Truthful : Edge → Type 0
  Truthful e = tokens e.pool ≡ some (e.token0, e.token1)

pub pools_of-append :
    (hs : List Hop) (h : Hop) → pools_of (hs ++ h ∷ []) ≡ pools_of hs ++ h.pool ∷ []
pools_of-append [] h = refl
pools_of-append (g ∷ hs) h = ap (λ (ps : List ℕ). g.pool ∷ ps) (pools_of-append hs h)

pub tokens_of-append :
    (hs : List Hop) (h : Hop) → tokens_of (hs ++ h ∷ []) ≡ tokens_of hs ++ h.token_in ∷ []
tokens_of-append [] h = refl
tokens_of-append (g ∷ hs) h = ap (λ (ps : List ℕ). g.token_in ∷ ps) (tokens_of-append hs h)

module _ (tokens : ℕ → Option (ℕ × ℕ)) where
  follow-one : (h : Hop) (u v : ℕ) → hop_end tokens u h ≡ some v → follow tokens u (h ∷ []) ≡ some v
  follow-one h u v q = rw q refl

  pub follow-append :
      (t : ℕ) (hs : List Hop) (h : Hop) (u v : ℕ)
      → follow tokens t hs ≡ some u
      → hop_end tokens u h ≡ some v
      → follow tokens t (hs ++ h ∷ []) ≡ some v
  follow-append t [] h u v p q = let e : t ≡ u = cc in rw e (follow-one h u v q)
  follow-append t (g ∷ hs) h u v p q = elim (Option-cases (hop_end tokens t g)) [
    | inl stuck ↦ absurd (cc (rw stuck at p))
    | inr (w, e) ↦ rw e (follow-append w hs h u v (rw e at p) q)
  ]

  pub hop_over-end :
      (e : Edge) (current token : ℕ)
      → Truthful tokens e
      → next_token e current ≡ some token
      → hop_end tokens current (hop_over e current) ≡ some token
  hop_over-end e current token truth next = rw truth (ground arith)
