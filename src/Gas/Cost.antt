-- ===== src/Gas/Cost.antt =====
-- The tip and the gas of a route in src/gas/gas_station.rs.
use robinarb.Base.{ℕ, ◌+◌, ◌*◌, ◌≤◌, ◌≡◌, arith, Bool, true, false, List, [], ◌∷◌, length, max, min}
use robinarb.Base.Word.{done}
use robinarb.Gas.{
  GasStation, HopGasKind, priority_fee, hop_gas, v2, v3, aero_stable, v4, hops_gas, route_gas_units,
}

-- With the floor at most the cap, the tip is found, between them, whatever the profit and the gas.
pub priority_fee_within :
    (budget : ℕ → ℕ → ℕ) (g : GasStation) (profit units : ℕ)
    → g.min_prio ≤ g.max_prio
    → (fee : ℕ) × (priority_fee budget g profit units ≡ done fee)
      × (g.min_prio ≤ fee)
      × (fee ≤ g.max_prio)
unfolding priority_fee
priority_fee_within budget g profit units h =
    let share = budget profit (max units 1) in
    (max g.min_prio (min g.max_prio share), ground arith, omega arith, omega arith)

hop_gas-bounds : (k : HopGasKind) → (90_000 ≤ hop_gas k) × (hop_gas k ≤ 250_000)
hop_gas-bounds v2 = (omega arith, omega arith)
hop_gas-bounds v3 = (omega arith, omega arith)
hop_gas-bounds aero_stable = (omega arith, omega arith)
hop_gas-bounds v4 = (omega arith, omega arith)

hops_gas-bounds :
    (g : ℕ) (ks : List HopGasKind)
    → (g + 90_000 * length ks ≤ hops_gas g ks) × (hops_gas g ks ≤ g + 250_000 * length ks)
hops_gas-bounds g [] = (omega arith, omega arith)
hops_gas-bounds g (k ∷ ks) =
    let (lo, hi) = hop_gas-bounds k in
    let (lo', hi') = hops_gas-bounds (g + hop_gas k) ks in (omega arith, omega arith)

-- A route's gas is the overhead, with or without a flash loan, and 90,000 to 250,000 for each hop.
pub route_gas_units-bounds :
    (ks : List HopGasKind) (flashloan : Bool)
    → (90_000 + 90_000 * length ks ≤ route_gas_units ks flashloan)
      × (route_gas_units ks flashloan ≤ 180_000 + 250_000 * length ks)
unfolding route_gas_units
route_gas_units-bounds ks true =
    let (lo, hi) = hops_gas-bounds 90_000 ks in (omega arith, omega arith)
route_gas_units-bounds ks false =
    let (lo, hi) = hops_gas-bounds 90_000 ks in (omega arith, omega arith)
