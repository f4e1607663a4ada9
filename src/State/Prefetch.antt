-- ===== src/State/Prefetch.antt =====
-- The maps of src/state.rs after a batch of reads.
use robinarb.Base.{
  ℕ, ◌≡◌, refl, sym, ◌∙◌, arith, Bool, true, false, ◌&&◌, ◌||◌, List, [], ◌∷◌, Option, none, some,
  ◌==◌, if◌then◌else◌, Bool-cases, inl, inr,
}
use robinarb.State.{ChainState, Words, store_answer, prefetch_into, prefetch}

-- The pair (addr, slot) is in the list.
abbrev pub mem : List (ℕ × ℕ) → ℕ → ℕ → Bool
mem [] addr slot = false
mem ((a, s) ∷ pairs) addr slot = (a == addr && s == slot) || mem pairs addr slot

-- The new answer, or the old word when the call failed.
abbrev pub or_else : Option ℕ → Option ℕ → Option ℕ
or_else none old = old
or_else (some v) old = some v

or_else_idem : (o old : Option ℕ) → or_else o (or_else o old) ≡ or_else o old
or_else_idem none old = refl
or_else_idem (some v) old = refl

-- What one batch makes of a word of the map it writes.
abbrev pub updated : Words → List (ℕ × ℕ) → ℕ → ℕ → Option ℕ → Option ℕ
updated rpc pairs addr slot old = if mem pairs addr slot then or_else (rpc addr slot) old else old

-- The map that a batch writes, and the one that it leaves alone.
abbrev pub written : Bool → ChainState → Words
written true st = st.tick_cache
written false st = st.memo

same_either : (b : Bool) (x y : Option ℕ) → x ≡ y → (if b then x else y) ≡ y
same_either true x y h = h
same_either false x y h = refl

store_answer-written :
    (st : ChainState) (into : Bool) (a s : ℕ) (o : Option ℕ) (addr slot : ℕ)
    → written into (store_answer st into a s o) addr slot ≡ (
        if a == addr && s == slot
        then or_else o (written into st addr slot)
        else written into st addr slot)
store_answer-written st into a s none addr slot = sym (same_either _ _ _ refl)
store_answer-written st true a s (some v) addr slot = refl
store_answer-written st false a s (some v) addr slot = refl

absorb :
    (b c : Bool) (o old : Option ℕ)
    → (if b
        then or_else o (if c then or_else o old else old)
        else (if c then or_else o old else old))
      ≡ (if c || b then or_else o old else old)
absorb true true o old = or_else_idem o old
absorb true false o old = refl
absorb false true o old = refl
absorb false false o old = refl

same_answer :
    (rpc : Words) (a s addr slot : ℕ) (old : Option ℕ)
    → (if a == addr && s == slot then or_else (rpc a s) old else old)
      ≡ (if a == addr && s == slot then or_else (rpc addr slot) old else old)
same_answer rpc a s addr slot old = elim (Bool-cases (a == addr && s == slot)) [
  | inl here ↦
      let e : a ≡ addr = ground arith in let e' : s ≡ slot = ground arith in rw (e, e') refl
  | inr off ↦ rw off refl
]

-- After a batch, a word of the map that it writes is the answer for it when it was asked for and
-- answered, and what it was before otherwise.
pub prefetch_into-written :
    (rpc : Words) (pairs : List (ℕ × ℕ)) (into : Bool) (st : ChainState) (addr slot : ℕ)
    → written into (prefetch_into rpc pairs into st) addr slot
      ≡ updated rpc pairs addr slot (written into st addr slot)
unfolding prefetch_into
prefetch_into-written rpc [] into st addr slot = refl
prefetch_into-written rpc ((a, s) ∷ pairs) into st addr slot =
    prefetch_into-written rpc pairs into (store_answer st into a s (rpc a s)) addr slot
    ∙ rw
        (
          store_answer-written st into a s (rpc a s) addr slot,
          same_answer rpc a s addr slot (written into st addr slot),
        )
        (absorb (mem pairs addr slot) (a == addr && s == slot) (rpc addr slot)
          (written into st addr slot))

store_answer-kept :
    (st : ChainState) (a s : ℕ) (o : Option ℕ)
    → ((store_answer st false a s o).tick_cache ≡ st.tick_cache)
      × ((store_answer st false a s o).tip ≡ st.tip)
      × ((store_answer st false a s o).plans ≡ st.plans)
store_answer-kept st a s none = (refl, refl, refl)
store_answer-kept st a s (some v) = (refl, refl, refl)

-- A batch into the memo leaves the tick cache, the tip and the plans alone.
pub prefetch-kept :
    (rpc : Words) (pairs : List (ℕ × ℕ)) (st : ChainState)
    → ((prefetch rpc pairs st).tick_cache ≡ st.tick_cache)
      × ((prefetch rpc pairs st).tip ≡ st.tip)
      × ((prefetch rpc pairs st).plans ≡ st.plans)
unfolding prefetch_into
prefetch-kept rpc [] st = (refl, refl, refl)
prefetch-kept rpc ((a, s) ∷ pairs) st =
    let (c, t, p) = store_answer-kept st a s (rpc a s) in
    let (c', t', p') = prefetch-kept rpc pairs (store_answer st false a s (rpc a s)) in
    (c' ∙ c, t' ∙ t, p' ∙ p)
