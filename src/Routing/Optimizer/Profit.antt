-- ===== src/Routing/Optimizer/Profit.antt =====
-- The opportunities of src/routing/optimizer.rs.
use robinarb.Base.{
  ℕ, ◌+◌, ◌<◌, ◌≡◌, ◌≢◌, sym, ap, ◌∙◌, arith, List, [], ◌∷◌, ◌++◌, Option, none, some, get_elem?,
  ◌==◌, Bool-cases, inl, inr,
}
use robinarb.Base.Word.{done, >>=-eq-done, done-injective}
use robinarb.Engine.{Engine, PoolMeta, meta}
use robinarb.Routing.{Hop, Route}
use robinarb.Routing.Evaluator.{Opportunity}
use robinarb.Math.V3.{SwapMath}
use robinarb.Math.Quote.{quote}
use robinarb.Math.Quote.Unread.{Unread, quote-Unread}
use robinarb.State.{ChainState, plan, slots_of}
use robinarb.Routing.Optimizer.{opportunity, quote_hops, quote_route, optimize}

module _ (swap_math : SwapMath) (keccak256 : List ℕ → ℕ) (engine : Engine) (st : ChainState) where
  opportunity-profit :
      (r : Route) (amount_in : ℕ) (out : Option ℕ) (o : Opportunity)
      → opportunity r amount_in out ≡ some o
      → (o.route_id ≡ r.id)
        × (o.amount_in ≡ amount_in)
        × (out ≡ some o.gross_out)
        × (o.gross_out ≡ o.amount_in + o.gross_profit)
        × (0 < o.gross_profit)
  opportunity-profit r amount_in none o h = cc
  opportunity-profit r amount_in (some gross) o h = ground arith

  -- An opportunity that is returned is of the route, has a nonzero amount, and its output is the exact
  -- chained quote of the route at that amount; the output is the amount and the profit, which is
  -- positive.
  pub optimize-profit :
      (r : Route) (size : Option ℕ) (o : Opportunity)
      → optimize swap_math keccak256 engine st r size ≡ done (some o)
      → (o.route_id ≡ r.id)
        × (0 < o.amount_in)
        × (quote_route swap_math keccak256 engine st r o.amount_in ≡ done (some o.gross_out))
        × (o.gross_out ≡ o.amount_in + o.gross_profit)
        × (0 < o.gross_profit)
  unfolding optimize
  optimize-profit r none o h = cc
  optimize-profit r (some amount_in) o h = elim (Bool-cases (amount_in == 0)) [
    | inl zero_in ↦ cc (rw zero_in at h)
    | inr nonzero ↦
        let (out, quoted, h1) =
          >>=-eq-done (quote_route swap_math keccak256 engine st r amount_in) _ (rw nonzero at h) in
        let (id, amount, gross, sum, positive) =
          opportunity-profit r amount_in out o (done-injective h1) in
        (id, rw amount (ground arith), rw amount (quoted ∙ ap done gross), sum, positive)
  ]

  -- The quote goes through a pool of which nothing is known.
  none_of_Unread :
      (before : List Hop) (h : Hop) (after : List Hop) (m : PoolMeta) (amt : ℕ) (out : Option ℕ)
      → get_elem? engine.metas h.pool ≡ some m
      → Unread st (slots_of (plan st m.idx))
      → quote_hops swap_math keccak256 engine st (before ++ h ∷ after) amt ≡ done out
      → out ≡ none
  unfolding quote_hops
  none_of_Unread [] h after m amt out known unread e =
      let nothing = quote-Unread swap_math keccak256 st m amt h.zero_for_one unread in
      sym (done-injective (rw (known, nothing) at e))
  none_of_Unread (b ∷ before) h after m amt out known unread e =
      let (mb, met, e1) = >>=-eq-done (meta engine b.pool) _ e in
      let (o, quoted, e2) = >>=-eq-done (quote swap_math keccak256 st mb amt b.zero_for_one) _ e1 in
      elim (Bool-cases (o == 0)) [
        | inl dry ↦ sym (done-injective (rw dry at e2))
        | inr wet ↦ none_of_Unread before h after m o out known unread (rw wet at e2)
      ]

  sized-none :
      (r : Route) (before : List Hop) (h : Hop) (after : List Hop) (m : PoolMeta) (size : Option ℕ)
      (found : Option Opportunity)
      → r.hops ≡ before ++ h ∷ after
      → get_elem? engine.metas h.pool ≡ some m
      → Unread st (slots_of (plan st m.idx))
      → optimize swap_math keccak256 engine st r size ≡ done found
      → found ≡ none
  unfolding optimize quote_route
  sized-none r before h after m none found split known unread e = sym (done-injective e)
  sized-none r before h after m (some amount_in) found split known unread e =
      elim (Bool-cases (amount_in == 0)) [
        | inl zero_in ↦ sym (done-injective (rw zero_in at e))
        | inr nonzero ↦
            let (out, quoted, e1) =
              >>=-eq-done (quote_hops swap_math keccak256 engine st r.hops amount_in) _
                (rw nonzero at e) in
            let nothing = none_of_Unread before h after m amount_in out known unread (
              sym (
                ap (λ (hs : List Hop). quote_hops swap_math keccak256 engine st hs amount_in) split)
              ∙ quoted) in
            sym (done-injective (rw nothing at e1))
      ]

  -- No opportunity goes through a registered pool that has no plan, or of whose plan no word was read,
  -- whatever amount the search picks.
  pub optimize-Unread :
      (r : Route) (before : List Hop) (h : Hop) (after : List Hop) (m : PoolMeta) (size : Option ℕ)
      (o : Opportunity)
      → r.hops ≡ before ++ h ∷ after
      → get_elem? engine.metas h.pool ≡ some m
      → Unread st (slots_of (plan st m.idx))
      → optimize swap_math keccak256 engine st r size ≢ done (some o)
  optimize-Unread r before h after m size o split known unread e =
      let nothing = sized-none r before h after m size (some o) split known unread e in cc
