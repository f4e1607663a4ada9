-- ===== src/Math/V3/Payout.antt =====
-- What the rounds of the walk of src/math/v3.rs pay out.
use robinarb.Base.{
  ℕ, zero, suc, ◌+◌, ◌*◌, ◌^◌, ◌≤◌, ◌<◌, ◌≡◌, refl, inl, inr, arith, Bool, true, false, ◌==◌,
  if◌then◌else◌, Option, none, some, Bool-cases, Option-cases,
}
use robinarb.Base.Int.{ℤ, pos, ◌-ℤ◌}
use robinarb.Base.Word.{sub256}
use robinarb.Math.V3.{
  Swap, ok, err, fault, ◌>>=◌, SwapMath, TickSource, SwapStep, Walk, next_initialized_tick_src,
  step, finished, walk, settle, advance, crossed_liquidity, price_limit,
}

-- What the crate's words promise. From u160 prices and u128 liquidity a step ends at a u160 price
-- and pays out a difference of reserves, which stays below 2 ^ 224; the price at a tick is a u160,
-- and the liquidity after a tick is a u128.
pub record BoundedSteps (m : SwapMath) : Type 0 where
  pub steps :
      (price target liquidity remaining fee : ℕ) (s : SwapStep)
      → price < 2 ^ 160
      → target < 2 ^ 160
      → liquidity < 2 ^ 128
      → m.compute_swap_step price target liquidity remaining fee ≡ ok s
      → (s.amount_out < 2 ^ 224) × (s.sqrt_price_new < 2 ^ 160)
  pub ratios : (t : ℤ) (price : ℕ) → m.get_sqrt_ratio_at_tick t ≡ ok price → price < 2 ^ 160
  pub deltas :
      (liquidity : ℕ) (net : ℤ) (l : ℕ)
      → liquidity < 2 ^ 128
      → m.add_delta liquidity net ≡ ok l
      → l < 2 ^ 128

-- The variables of the loop keep to their words.
abbrev pub Small : Walk → Type 0
Small s = (s.amount_calculated < 2 ^ 256) × (s.sqrt_price < 2 ^ 160) × (s.liquidity < 2 ^ 128)

pub >>=-eq-ok {ℓ κ} :
    {A : Type ℓ} {B : Type κ} (x : Swap A) (f : A → Swap B) {b : B}
    → (x >>= f) ≡ ok b
    → (a : A) × (x ≡ ok a) × (f a ≡ ok b)
>>=-eq-ok (ok a) f h = (a, refl, h)
>>=-eq-ok err f h = cc
>>=-eq-ok fault f h = cc

-- What has been paid out so far.
abbrev pub paid : Walk → ℕ
paid s = sub256 0 s.amount_calculated

module _ (m : SwapMath) (src : TickSource) (zero_for_one : Bool) (fee_pips spacing : ℕ)
    (bounded : BoundedSteps m) where
  settle_keeps :
      (t : ℤ) (i : Bool) (n o : ℕ) (s s' : Walk)
      → settle m src zero_for_one fee_pips spacing t i n o s ≡ ok s'
      → s'.amount_calculated ≡ s.amount_calculated
  unfolding settle
  settle_keeps t i n o s s' h = ground arith

  crossed-Small :
      (t : ℤ) (i : Bool) (l l' : ℕ)
      → l < 2 ^ 128
      → crossed_liquidity m src zero_for_one fee_pips spacing t i l ≡ ok l'
      → l' < 2 ^ 128
  unfolding crossed_liquidity
  crossed-Small t true l l' small h = bounded.deltas l _ l' small h
  crossed-Small t false l l' small h = let same : l ≡ l' = cc in rw (← same) small

  settle-Small :
      (t : ℤ) (i : Bool) (n o : ℕ) (s s' : Walk)
      → Small s
      → settle m src zero_for_one fee_pips spacing t i n o s ≡ ok s'
      → Small s'
  unfolding settle
  settle-Small t i n o s s' small h = elim (Bool-cases (s.sqrt_price == n)) [
    | inl at_tick ↦
        let (l, crossed, h1) =
          >>=-eq-ok (crossed_liquidity m src zero_for_one fee_pips spacing t i s.liquidity) _
            (rw at_tick at h) in
        let few = crossed-Small t i s.liquidity l small.2 crossed in
        let same : record s { liquidity = l; tick = if zero_for_one then t -ℤ pos 1 else t } ≡ s' =
          cc in
        rw (← same) (small.0, small.1, few)
    | inr off ↦ elim (Bool-cases (s.sqrt_price == o)) [
      | inl still ↦ let same : s ≡ s' = ground arith in rw (← same) small
      | inr moved ↦
          let (tick, at, h1) =
            >>=-eq-ok (m.get_tick_at_sqrt_ratio s.sqrt_price) _ (rw (off, moved) at h) in
          let same : record s { tick = tick } ≡ s' = cc in rw (← same) small
    ]
  ]

  -- The target of a step is a price at a tick or the limit.
  target-Small :
      (next : ℕ) (passes : Bool)
      → next < 2 ^ 160
      → (if passes then price_limit zero_for_one else next) < 2 ^ 160
  target-Small next true h = elim (Bool-cases zero_for_one) [
    | inl down ↦ rw down (omega arith)
    | inr up ↦ rw up (omega arith)
  ]
  target-Small next false h = h

  sub256_lt : (a b : ℕ) → sub256 a b < 2 ^ 256
  unfolding sub256
  sub256_lt a b = omega arith

  abbrev pub Pays : ℕ → Walk → Walk → Type 0
  Pays most s s' = (paid s ≤ paid s') × (paid s' ≤ paid s + most) × Small s'

  pay :
      (s s' : Walk) (out : ℕ)
      → Small s
      → Small s'
      → s'.amount_calculated ≡ sub256 s.amount_calculated out
      → out < 2 ^ 224
      → paid s + 2 ^ 224 < 2 ^ 256
      → Pays (2 ^ 224) s s'
  unfolding sub256
  pay s s' out small small' e h room = (omega (arith, small.0), omega (arith, small.0), small')

  advance-Pays :
      (s : Walk) (next : ℤ × Bool) (s' : Walk)
      → Small s
      → advance m src zero_for_one fee_pips spacing s next ≡ ok s'
      → paid s + 2 ^ 224 < 2 ^ 256
      → Pays (2 ^ 224) s s'
  unfolding advance
  advance-Pays s (found, i) s' small h room =
      let (price, at, h1) = >>=-eq-ok (m.get_sqrt_ratio_at_tick _) _ h in
      let (swap, made, h2) = >>=-eq-ok (m.compute_swap_step _ _ _ _ _) _ h1 in
      let kept = settle_keeps _ _ _ _ _ s' h2 in
      let target = target-Small price _ (bounded.ratios _ price at) in
      let (few, low) = bounded.steps _ _ _ _ _ swap small.1 target small.2 made in
      let small' =
        settle-Small _ _ _ _ _ s' (sub256_lt s.amount_calculated swap.amount_out, low, small.2)
          h2 in
      pay s s' swap.amount_out small small' kept few room

  pub step-Pays :
      (s s' : Walk)
      → Small s
      → step m src zero_for_one fee_pips spacing s ≡ ok (some s')
      → paid s + 2 ^ 224 < 2 ^ 256
      → Pays (2 ^ 224) s s'
  unfolding step
  step-Pays s s' small h room =
      let (found, _, h1) =
        >>=-eq-ok (next_initialized_tick_src m src s.tick spacing zero_for_one) _ h in
      elim (Option-cases found) [
        | inl missing ↦ absurd (cc (rw missing at h1))
        | inr (next, e) ↦
            let (s'', h2, e2) =
              >>=-eq-ok (advance m src zero_for_one fee_pips spacing s next) _ (rw e at h1) in
            let e3 : advance m src zero_for_one fee_pips spacing s next ≡ ok s' = cc in
            advance-Pays s next s' small e3 room
      ]

  -- The rounds that are left pay out no less than nothing and no more than so many bounded steps.
  pub walk-Pays :
      (left : ℕ) (s t : Walk)
      → Small s
      → walk m src zero_for_one fee_pips spacing left s ≡ ok t
      → paid s + left * 2 ^ 224 < 2 ^ 256
      → Pays (left * 2 ^ 224) s t
  unfolding walk
  walk-Pays zero s t small h room = let e : s ≡ t = cc in rw (← e) (omega arith)
  walk-Pays (suc left) s t small h room = elim (Bool-cases (finished zero_for_one s)) [
    | inl stop ↦ let e : s ≡ t = ground arith in rw (← e) (omega arith)
    | inr more ↦
        let (next, stepped, h1) =
          >>=-eq-ok (step m src zero_for_one fee_pips spacing s) _ (rw more at h) in
        walk_on left s t small next stepped h1 room
          (λ s' small' h' room'. walk-Pays left s' t small' h' room')
  ]
    where
      walk_on :
          (left : ℕ) (s t : Walk)
          → Small s
          → (next : Option Walk) → step m src zero_for_one fee_pips spacing s ≡ ok next
          → (elim next [ none ↦ ok s | some s' ↦ walk m src zero_for_one fee_pips spacing left s' ])
            ≡ ok t
          → paid s + suc left * 2 ^ 224 < 2 ^ 256
          → ((s' : Walk)
              → Small s'
              → walk m src zero_for_one fee_pips spacing left s' ≡ ok t
              → paid s' + left * 2 ^ 224 < 2 ^ 256
              → Pays (left * 2 ^ 224) s' t)
          → Pays (suc left * 2 ^ 224) s t
      walk_on left s t small none stepped h room again =
          let e : s ≡ t = cc in rw (← e) (omega arith)
      walk_on left s t small (some s') stepped h room again =
          let (lo, hi, small') = step-Pays s s' small stepped (omega arith) in
          let (lo', hi', end) = again s' small' h (omega arith) in (omega arith, omega arith, end)
