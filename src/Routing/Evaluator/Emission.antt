-- ===== src/Routing/Evaluator/Emission.antt =====
-- The emission of src/routing/evaluator.rs.
use mathlib.Core.Path.{subst}
use robinarb.Base.{
  ◌⊎◌, ℕ, ◌<◌, length, get_elem?_lt, ◌≡◌, refl, ap, false, List, [], ◌∷◌, Option, none, some,
  get_elem?, All, map, contains, arith, Bool, true, ◌&&◌, ◌||◌, ◌==◌, ◌∙◌, Bool-cases, inl, inr,
}
use robinarb.Base.Word.{done, >>=-eq-done, done-injective}
use robinarb.Engine.{or_panic}
use robinarb.Routing.{Hop, Route}
use robinarb.Routing.Store.{RouteStore, route}
use robinarb.Routing.Evaluator.{EvaluatedOpportunity, any_used, use_all, emit}

abbrev pub hops_in : Option Route → List Hop
hops_in none = []
hops_in (some r) = r.hops

-- The hops of an opportunity's route.
abbrev pub hops_of : RouteStore → EvaluatedOpportunity → List Hop
hops_of store e = hops_in (get_elem? store.routes e.opp.route_id)

-- The pool is on the opportunity's route.
abbrev pub is_on : RouteStore → EvaluatedOpportunity → ℕ → Bool
is_on store e p = contains (map (λ (h : Hop). h.pool) (hops_of store e)) p

-- No pool is on both routes.
abbrev pub SharesNone : RouteStore → EvaluatedOpportunity → EvaluatedOpportunity → Type 0
SharesNone store e f = (p : ℕ) → (is_on store e p && is_on store f p) ≡ false

-- Each two opportunities of the list share no pool.
abbrev pub Disjoint : RouteStore → List EvaluatedOpportunity → Type 0
Disjoint store [] = Unit
Disjoint store (e ∷ es) = All (SharesNone store e) es × Disjoint store es

-- No pool of the list is on the opportunity's route.
abbrev Apart : RouteStore → List ℕ → EvaluatedOpportunity → Type 0
Apart store used e = any_used used (hops_of store e) ≡ false

-- Each opportunity is apart from the pools of all before it.
abbrev Reserved : RouteStore → List ℕ → List EvaluatedOpportunity → Type 0
Reserved store used [] = Unit
Reserved store used (e ∷ es) =
    Apart store used e × Reserved store (use_all used (hops_of store e)) es

or_panic-hops : (o : Option Route) (r : Route) → or_panic o ≡ done r → hops_in o ≡ r.hops
or_panic-hops none r h = cc
or_panic-hops (some r') r h = ap (λ (x : Route). x.hops) (done-injective h)

emit-done :
    (store : RouteStore) (used : List ℕ) (es : List EvaluatedOpportunity)
    → All (λ (e : EvaluatedOpportunity). e.opp.route_id < length store.routes) es
    → (out : List EvaluatedOpportunity) × (emit store used es ≡ done out)
unfolding emit
emit-done store used [] h = ([], refl)
emit-done store used (e ∷ es) (h, hs) =
    let (r, at) = get_elem?_lt store.routes e.opp.route_id h in
    let (out, skipped) = emit-done store used es hs in
    let (rest, later) = emit-done store (use_all used r.hops) es hs in
    elim (Bool-cases (any_used used r.hops)) [
      | inl shared ↦ (out, rw (at, shared) skipped)
      | inr free ↦ (e ∷ rest, rw (at, free, later) refl)
    ]

emit-Reserved :
    (store : RouteStore) (used : List ℕ) (es out : List EvaluatedOpportunity)
    → emit store used es ≡ done out
    → Reserved store used out
unfolding emit
emit-Reserved store used [] out h = let e : [] ≡ out = done-injective h in rw (← e) tt
emit-Reserved store used (e ∷ es) out h =
    let (r, found, h1) = >>=-eq-done (route store e.opp.route_id) _ h in
    let hops : hops_of store e ≡ r.hops = or_panic-hops _ r found in
    elim (Bool-cases (any_used used r.hops)) [
      | inl shared ↦ emit-Reserved store used es out (rw shared at h1)
      | inr free ↦
          let (rest, later, made) =
            >>=-eq-done (emit store (use_all used r.hops) es) _ (rw free at h1) in
          let same : e ∷ rest ≡ out = done-injective made in
          let tail = emit-Reserved store (use_all used r.hops) es rest later in
          rw (← same) (rw hops free, rw hops tail)
    ]

any_used-pools :
    (used : List ℕ) (hops : List Hop) (p : ℕ)
    → any_used used hops ≡ false
    → contains used p ≡ true
    → contains (map (λ (h : Hop). h.pool) hops) p ≡ false
any_used-pools used [] p h k = refl
any_used-pools used (x ∷ xs) p h k = elim (Bool-cases (x.pool == p)) [
  | inl same ↦
      let at : x.pool ≡ p = ground arith in
      let new : contains used x.pool ≡ false = ground arith in
      let never : contains used p ≡ false = rw at at new in absurd (cc)
  | inr other ↦
      let rest : any_used used xs ≡ false = ground arith in
      rw other (any_used-pools used xs p rest k)
]

use_all-pools :
    (used : List ℕ) (hops : List Hop) (p : ℕ)
    → contains (use_all used hops) p
      ≡ (contains (map (λ (h : Hop). h.pool) hops) p || contains used p)
use_all-pools used [] p = refl
use_all-pools used (x ∷ xs) p = ground (arith, use_all-pools (x.pool ∷ used) xs p)

Reserved-All :
    (store : RouteStore) (used : List ℕ) (e : EvaluatedOpportunity) (es : List EvaluatedOpportunity)
    → ((p : ℕ) → is_on store e p ≡ true → contains used p ≡ true)
    → Reserved store used es
    → All (SharesNone store e) es
Reserved-All store used e [] covered h = tt
Reserved-All store used e (f ∷ fs) covered h = (
  λ p. elim (Bool-cases (is_on store e p)) [
    | inr off ↦ rw off refl
    | inl on ↦
        let free = any_used-pools used (hops_of store f) p h.0 (covered p on) in rw (on, free) refl
  ],
  Reserved-All store (use_all used (hops_of store f)) e fs
      (λ p on. let before = covered p on in use_all-pools used (hops_of store f) p ∙ ground arith)
      h.1,
)

Reserved-Disjoint :
    (store : RouteStore) (used : List ℕ) (es : List EvaluatedOpportunity)
    → Reserved store used es
    → Disjoint store es
Reserved-Disjoint store used [] h = tt
Reserved-Disjoint store used (e ∷ es) h = (
  Reserved-All store (use_all used (hops_of store e)) e es
      (λ p on. use_all-pools used (hops_of store e) p ∙ ground arith) h.1,
  Reserved-Disjoint store (use_all used (hops_of store e)) es h.1,
)

-- The candidate is emitted, or shares a pool with an opportunity that is.
abbrev pub IsServed : RouteStore → List EvaluatedOpportunity → EvaluatedOpportunity → Type 0
IsServed store [] e = ⊥
IsServed store (f ∷ fs) e =
    (e ≡ f) ⊎ (((p : ℕ) × ((is_on store e p && is_on store f p) ≡ true)) ⊎ IsServed store fs e)

-- Or one of its pools was used before.
abbrev IsServedOr : RouteStore → List ℕ → List EvaluatedOpportunity → EvaluatedOpportunity → Type 0
IsServedOr store used out e =
    IsServed store out e ⊎ ((p : ℕ) × ((is_on store e p && contains used p) ≡ true))

any_used-shared :
    (used : List ℕ) (hops : List Hop)
    → any_used used hops ≡ true
    → (p : ℕ) × ((contains (map (λ (h : Hop). h.pool) hops) p && contains used p) ≡ true)
any_used-shared used [] h = cc
any_used-shared used (x ∷ xs) h = elim (Bool-cases (contains used x.pool)) [
  | inl here ↦ (x.pool, rw here (ground arith))
  | inr other ↦ let (p, on) = any_used-shared used xs (ground arith) in (p, ground arith)
]

widen :
    (store : RouteStore) (used : List ℕ) (e : EvaluatedOpportunity)
    (out es : List EvaluatedOpportunity)
    → All (IsServedOr store (use_all used (hops_of store e)) out) es
    → All (IsServedOr store used (e ∷ out)) es
widen store used e out [] h = tt
widen store used e out (g ∷ gs) h = (
  elim h.0 [
    | inl served ↦ inl (inr (inr served))
    | inr (p, on) ↦
        let grown = use_all-pools used (hops_of store e) p in
        elim (Bool-cases (is_on store e p)) [
          | inl on_e ↦ inl (inr (inl (p, ground (arith, grown))))
          | inr off_e ↦ inr (p, ground (arith, grown))
        ]
  ],
  widen store used e out gs h.1,
)

emit-IsServed :
    (store : RouteStore) (used : List ℕ) (es out : List EvaluatedOpportunity)
    → emit store used es ≡ done out
    → All (IsServedOr store used out) es
unfolding emit
emit-IsServed store used [] out h = tt
emit-IsServed store used (e ∷ es) out h =
    let (r, found, h1) = >>=-eq-done (route store e.opp.route_id) _ h in
    let hops : hops_of store e ≡ r.hops = or_panic-hops _ r found in
    elim (Bool-cases (any_used used r.hops)) [
      | inl shared ↦
          let on = any_used-shared used (hops_of store e) (rw hops shared) in
          (inr on, emit-IsServed store used es out (rw shared at h1))
      | inr free ↦
          let (rest, later, made) =
            >>=-eq-done (emit store (use_all used r.hops) es) _ (rw free at h1) in
          let same : e ∷ rest ≡ out = done-injective made in
          let tail = emit-IsServed store (use_all used (hops_of store e)) es rest (rw hops later) in
          let served : All (IsServedOr store used (e ∷ rest)) (e ∷ es) =
            (inl (inl refl), widen store used e rest es tail) in
          subst (λ (o : List EvaluatedOpportunity). All (IsServedOr store used o) (e ∷ es)) same
            served
    ]

IsServed-All :
    (store : RouteStore) (out es : List EvaluatedOpportunity)
    → All (IsServedOr store [] out) es
    → All (IsServed store out) es
IsServed-All store out [] h = tt
IsServed-All store out (e ∷ es) h = (
  elim h.0 [ inl served ↦ served | inr (p, on) ↦ absurd (ground arith) ],
  IsServed-All store out es h.1,
)

-- The emission from candidates whose routes are in the store returns, no pool is on the routes of two
-- emitted opportunities, and a candidate that is not emitted shares a pool with one that is.
pub emit-Disjoint :
    (store : RouteStore) (es : List EvaluatedOpportunity)
    → All (λ (e : EvaluatedOpportunity). e.opp.route_id < length store.routes) es
    → (out : List EvaluatedOpportunity) × (emit store [] es ≡ done out)
      × Disjoint store out
      × All (IsServed store out) es
emit-Disjoint store es h =
    let (out, e) = emit-done store [] es h in
    (
      out,
      e,
      Reserved-Disjoint store [] out (emit-Reserved store [] es out e),
      IsServed-All store out es (emit-IsServed store [] es out e),
    )
