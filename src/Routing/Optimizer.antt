-- ===== src/Routing/Optimizer.antt =====
-- src/routing/optimizer.rs: the exact quote of a route, and the checks of `optimize` on the amount that
-- its search in f64 has picked. That amount, as a whole number of wei, is a parameter; `none` is a
-- search that gives up.
pub mod Profit
mod Tests
use robinarb.Base.{
  ℕ, ◌-◌, Bool, true, false, List, [], ◌∷◌, Option, none, some, leb, ◌==◌, if◌then◌else◌,
}
use robinarb.Base.Word.{Run, done, ◌>>=◌}
use robinarb.Engine.{Engine, meta}
use robinarb.Routing.{Hop, Route}
use robinarb.Routing.Evaluator.{Opportunity}
use robinarb.Math.V3.{SwapMath}
use robinarb.Math.Quote.{quote}
use robinarb.State.{ChainState}

-- A hop that quotes zero ends the chain.
abbrev pub or_zero : ℕ → Run (Option ℕ) → Run (Option ℕ)
or_zero out rest = if out == 0 then done none else rest

abbrev pub opportunity : Route → ℕ → Option ℕ → Option Opportunity
opportunity r amount_in none = none
opportunity r amount_in (some gross_out) =
    if leb gross_out amount_in
    then none
    else some (record {
      route_id = r.id;
      amount_in = amount_in;
      gross_out = gross_out;
      gross_profit = gross_out - amount_in;
    })

module _ (swap_math : SwapMath) (keccak256 : List ℕ → ℕ) (engine : Engine) (st : ChainState) where
  unfoldable pub quote_hops : List Hop → ℕ → Run (Option ℕ)
  quote_hops [] amt = done (some amt)
  quote_hops (h ∷ hs) amt = do
    m ← meta engine h.pool
    out ← quote swap_math keccak256 st m amt h.zero_for_one
    or_zero out (quote_hops hs out)

  unfoldable pub quote_route : Route → ℕ → Run (Option ℕ)
  quote_route r amount_in = quote_hops r.hops amount_in

  abbrev pub verify_if : Bool → Route → ℕ → Run (Option Opportunity)
  verify_if true r amount_in = done none
  verify_if false r amount_in = do
    gross_out ← quote_route r amount_in
    done (opportunity r amount_in gross_out)

  unfoldable pub optimize : Route → Option ℕ → Run (Option Opportunity)
  optimize r none = done none
  optimize r (some amount_in) = verify_if (amount_in == 0) r amount_in
