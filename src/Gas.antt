-- ===== src/Gas.antt =====
-- src/gas/gas_station.rs: base fee, priority fee and the cost of a transaction. The products with
-- configured f64 factors are parameters.
pub mod Cost
use robinarb.Base.{
  ℕ, zero, suc, ◌+◌, ◌*◌, ◌/◌, ◌%◌, ◌^◌, Bool, List, [], ◌∷◌, max, min, ltb, ◌==◌, if◌then◌else◌,
}
use robinarb.Base.Word.{Run, done, panic}

-- The amounts kept in atomics of u64, and the floor and cap of the tip in wei.
pub record GasStation : Type 0 where
  pub base_fee : ℕ
  pub per_l1_calldata_unit : ℕ
  pub min_prio : ℕ
  pub max_prio : ℕ

pub data HopGasKind : Type 0 where
  v2 : HopGasKind
  v3 : HopGasKind
  aero_stable : HopGasKind
  v4 : HopGasKind

unfoldable pub on_new_head : ℕ → GasStation → GasStation
on_new_head base_fee_per_gas g =
    if ltb 0 base_fee_per_gas then record g { base_fee = base_fee_per_gas % 2 ^ 64 } else g

-- `budget` is the truncated quotient of the profit share by the gas. `clamp` panics when the floor is
-- above the cap.
unfoldable pub priority_fee : (ℕ → ℕ → ℕ) → GasStation → ℕ → ℕ → Run ℕ
priority_fee budget g net_profit_wei gas_units =
    let fee = budget net_profit_wei (max gas_units 1) in
    if ltb g.max_prio g.min_prio then panic else done (max g.min_prio (min g.max_prio fee))

-- `margin` multiplies by `l1_fee_margin`.
unfoldable pub estimate_l1_fee : (ℕ → ℕ) → GasStation → ℕ → ℕ
estimate_l1_fee margin g calldata_len =
    if g.per_l1_calldata_unit == 0
    then 0
    else margin (calldata_len * 16 % 2 ^ 128 * g.per_l1_calldata_unit % 2 ^ 128)

-- u128 throughout.
unfoldable pub total_gas_cost : (ℕ → ℕ) → GasStation → ℕ → ℕ → ℕ → ℕ
total_gas_cost margin g gas_units priority calldata_len =
    let l2_fee_per_gas = (g.base_fee * 9 / 8 + priority) % 2 ^ 128 in
    let l2 = l2_fee_per_gas * gas_units % 2 ^ 128 in
    (l2 + estimate_l1_fee margin g calldata_len) % 2 ^ 128

abbrev pub hop_gas : HopGasKind → ℕ
hop_gas v2 = 90_000
hop_gas v3 = 150_000
hop_gas aero_stable = 120_000
hop_gas v4 = 250_000

abbrev pub hops_gas : ℕ → List HopGasKind → ℕ
hops_gas g [] = g
hops_gas g (k ∷ ks) = hops_gas (g + hop_gas k) ks

unfoldable pub route_gas_units : List HopGasKind → Bool → ℕ
route_gas_units kinds flashloan =
    let g = hops_gas 90_000 kinds in if flashloan then g + 90_000 else g
