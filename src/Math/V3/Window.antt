-- ===== src/Math/V3/Window.antt =====
-- The walk of src/math/v3.rs over two sources, of which one knows less.
use robinarb.Base.{
  ℕ, zero, suc, ◌+◌, ◌*◌, ◌^◌, ◌≤◌, ◌<◌, ◌≡◌, refl, ap, ◌∙◌, ◌⊎◌, inl, inr, arith, Bool, Option,
  none, some, Bool-cases, Option-cases,
}
use robinarb.Base.Int.{ℤ, pos, ◌+ℤ◌}
use robinarb.Ingest.SlotLayout.{compress_tick}
use robinarb.Base.Word.{Run, done, panic, sub256}
use robinarb.Math.V3.{
  Swap, ok, err, caught, fault, ◌>>=◌, SwapMath, TickSource, Walk, next_initialized_tick_src, step,
  finished, walk, max_rounds, try_swap_src, get_amount_out_src, crossed_liquidity, settle, advance,
  in_word, position, next_below, next_above,
}
use robinarb.Math.V3.Payout.{Small, BoundedSteps, >>=-eq-ok, paid, step-Pays, walk-Pays}

-- `less` knows part of what `more` knows, and they agree on what both know.
pub record KnowsLess (less more : TickSource) : Type 0 where
  pub words : (w : ℤ) (word : ℕ) → less.bitmap_word w ≡ some word → more.bitmap_word w ≡ some word
  pub nets : (t : ℤ) → less.liquidity_net t ≡ more.liquidity_net t

>>=_ext {ℓ κ} :
    {A : Type ℓ} {B : Type κ} (x : Swap A) (f g : A → Swap B)
    → ((a : A) → f a ≡ g a)
    → (x >>= f) ≡ (x >>= g)
>>=_ext (ok a) f g h = h a
>>=_ext err f g h = refl
>>=_ext fault f g h = refl

Run-cases : (r : Run ℤ) → (r ≡ panic) ⊎ ((c : ℤ) × (r ≡ done c))
Run-cases (done c) = inr (c, refl)
Run-cases panic = inl refl

-- The result `w` of a walk has paid out no more than `t`.
abbrev Lower : Walk → Swap Walk → Type 0
Lower t w = (t' : Walk) × (w ≡ ok t') × (paid t' ≤ paid t)

module _ (m : SwapMath) (zero_for_one : Bool) (fee_pips spacing : ℕ) (bounded : BoundedSteps m)
    (less more : TickSource) (knows : KnowsLess less more) where
  in_word-agrees :
      (w : ℤ) (search_word : ℕ → Swap (ℤ × Bool))
      → (in_word m (less.bitmap_word w) search_word ≡ ok none)
        ⊎ (in_word m (less.bitmap_word w) search_word ≡ in_word m (more.bitmap_word w) search_word)
  in_word-agrees w search_word = elim (Option-cases (less.bitmap_word w)) [
    | inl edge ↦ inl (rw edge)
    | inr (word, e) ↦ inr (rw (e, knows.words w word e))
  ]

  next_agrees :
      (tick : ℤ)
      → (next_initialized_tick_src m less tick spacing zero_for_one ≡ ok none)
        ⊎ (next_initialized_tick_src m less tick spacing zero_for_one
            ≡ next_initialized_tick_src m more tick spacing zero_for_one)
  unfolding next_initialized_tick_src
  next_agrees tick = elim (Run-cases (compress_tick tick spacing)) [
    | inl e ↦ inr (rw e)
    | inr (c, e) ↦ rw e (
        ground (
          arith,
          in_word-agrees (position c).0 (next_below m c spacing (position c).1),
          in_word-agrees (position (c +ℤ pos 1)).0
              (next_above m c spacing (position (c +ℤ pos 1)).1),
        ))
  ]

  advance_agrees :
      (s : Walk) (next : ℤ × Bool)
      → advance m less zero_for_one fee_pips spacing s next
        ≡ advance m more zero_for_one fee_pips spacing s next
  unfolding advance settle crossed_liquidity
  advance_agrees s (found, i) = simp knows.nets

  step_agrees :
      (s : Walk)
      → (step m less zero_for_one fee_pips spacing s ≡ ok none)
        ⊎ (step m less zero_for_one fee_pips spacing s
            ≡ step m more zero_for_one fee_pips spacing s)
  unfolding step
  step_agrees s = elim (next_agrees s.tick) [
    | inl edge ↦ inl (rw edge)
    | inr same ↦ inr (rw same (>>=_ext _ _ _ (λ found. go_on s found)))
  ]
    where
      go_on :
          (s : Walk) (found : Option (ℤ × Bool))
          → ◌≡◌ {A = Swap (Option Walk)}
              (elim found [
                | none ↦ ok none
                | some next ↦ (do
                  s' ← advance m less zero_for_one fee_pips spacing s next
                  ok (some s'))
              ])
              (elim found [
                | none ↦ ok none
                | some next ↦ (do
                  s' ← advance m more zero_for_one fee_pips spacing s next
                  ok (some s'))
              ])
      go_on s none = refl
      go_on s (some next) = rw (advance_agrees s next)

  -- While the walk that knows more succeeds, the other one does too, and has paid out no more.
  walk_window :
      (left : ℕ) (s t : Walk)
      → Small s
      → walk m more zero_for_one fee_pips spacing left s ≡ ok t
      → paid s + left * 2 ^ 224 < 2 ^ 256
      → (t' : Walk) × (walk m less zero_for_one fee_pips spacing left s ≡ ok t')
        × (paid t' ≤ paid t)
  unfolding walk
  walk_window zero s t small h room = (s, refl, let e : s ≡ t = cc in rw e (omega arith))
  walk_window (suc left) s t small h room = elim (Bool-cases (finished zero_for_one s)) [
    | inl stop ↦ (s, rw stop, let e : s ≡ t = ground arith in rw e (omega arith))
    | inr run ↦ elim (step_agrees s) [
      | inl edge ↦ (
        s,
        rw (run, edge),
        (walk-Pays m more zero_for_one fee_pips spacing bounded (suc left) s t small h room).0,
      )
      | inr same ↦
          let (next, stepped, h1) =
            >>=-eq-ok (step m more zero_for_one fee_pips spacing s) _ (rw run at h) in
          let (t', e, lower) =
            walk_on left s t small next stepped h1 room
              (λ s' small' h' room'. walk_window left s' t small' h' room') in
          (t', rw (run, same, stepped) e, lower)
    ]
  ]
    where
      walk_on :
          (left : ℕ) (s t : Walk)
          → Small s
          → (next : Option Walk) → step m more zero_for_one fee_pips spacing s ≡ ok next
          → (elim next [
            | none ↦ ok s
            | some s' ↦ walk m more zero_for_one fee_pips spacing left s'
          ])
            ≡ ok t
          → paid s + suc left * 2 ^ 224 < 2 ^ 256
          → ((s' : Walk)
              → Small s'
              → walk m more zero_for_one fee_pips spacing left s' ≡ ok t
              → paid s' + left * 2 ^ 224 < 2 ^ 256
              → Lower t (walk m less zero_for_one fee_pips spacing left s'))
          → Lower t (elim next [
            | none ↦ ok s
            | some s' ↦ walk m less zero_for_one fee_pips spacing left s'
          ])
      walk_on left s t small none stepped h room again =
          (s, refl, let e : s ≡ t = cc in rw e (omega arith))
      walk_on left s t small (some s') stepped h room again =
          let (lo, hi, small') =
            step-Pays m more zero_for_one fee_pips spacing bounded s s' small stepped
              (omega arith) in
          again s' small' h (omega arith)

nothing_paid : sub256 0 0 + max_rounds * 2 ^ 224 < 2 ^ 256
unfolding sub256
nothing_paid = omega arith

-- A nonzero amount runs the walk from the pool's state.
try_swap-walk :
    (m : SwapMath) (a : ℕ) (zfo : Bool) (price : ℕ) (tick : ℤ) (liq fee spacing : ℕ)
    (src : TickSource)
    → try_swap_src m (suc a) zfo price tick liq fee spacing src ≡ (
        walk m src zfo fee spacing max_rounds (record {
          amount_remaining = suc a;
          amount_calculated = 0;
          sqrt_price = price;
          tick = tick;
          liquidity = liq;
        })
        >>= λ (end : Walk). ok (sub256 0 end.amount_calculated))
unfolding try_swap_src
try_swap-walk m a zfo price tick liq fee spacing src = ground arith

swap-quote :
    (m : SwapMath) (a : ℕ) (zfo : Bool) (price : ℕ) (tick : ℤ) (liq fee spacing : ℕ)
    (src : TickSource) (out : ℕ)
    → try_swap_src m a zfo price tick liq fee spacing src ≡ ok out
    → get_amount_out_src m a zfo price tick liq fee spacing src ≡ done out
unfolding get_amount_out_src
swap-quote m a zfo price tick liq fee spacing src out h = ap caught h

-- When a swap step from u160 prices and u128 liquidity ends at a u160 price and pays out less than
-- 2^224, prices at ticks are u160 and liquidity after a tick is u128, and the source `less` holds some
-- of the words of `more` and the same tick nets: if the swap over `more` from a u160 price and u128
-- liquidity succeeds, the quote over `less` returns too, and is no larger.
pub quote_window :
    (m : SwapMath) (less more : TickSource)
    → BoundedSteps m
    → KnowsLess less more
    → (amount_in : ℕ) (zero_for_one : Bool) (sqrt_price : ℕ) (tick : ℤ)
      (liquidity fee_pips spacing out : ℕ)
    → sqrt_price < 2 ^ 160
    → liquidity < 2 ^ 128
    → try_swap_src m amount_in zero_for_one sqrt_price tick liquidity fee_pips spacing more ≡ ok out
    → (out' : ℕ) × (get_amount_out_src m amount_in zero_for_one sqrt_price tick liquidity fee_pips
          spacing less
        ≡ done out')
      × (out' ≤ out)
unfolding try_swap_src
quote_window m less more bounded knows zero zfo price tick liq fee spacing out low few h =
    (0, swap-quote m 0 zfo price tick liq fee spacing less 0 refl, omega arith)
quote_window m less more bounded knows (suc a) zfo price tick liq fee spacing out low few h =
    let start : Walk = record {
      amount_remaining = suc a;
      amount_calculated = 0;
      sqrt_price = price;
      tick = tick;
      liquidity = liq;
    } in
    let (t, walked, e) =
      >>=-eq-ok (walk m more zfo fee spacing max_rounds start)
        (λ (end : Walk). ok (sub256 0 end.amount_calculated))
        (rw (try_swap-walk m a zfo price tick liq fee spacing more) at h) in
    let (t', walked', lower) =
      walk_window m zfo fee spacing bounded less more knows max_rounds start t
        (omega arith, low, few) walked nothing_paid in
    (
      paid t',
      swap-quote m (suc a) zfo price tick liq fee spacing less (paid t')
          (try_swap-walk m a zfo price tick liq fee spacing less ∙ rw walked' refl),
      let same : paid t ≡ out = cc in rw (← same) lower,
    )
