-- ===== src/Ingest/SlotLayout/Discovery/Scans.antt =====
-- What the scans of src/ingest/slot_layout.rs find.
use robinarb.Base.{
  ℕ, zero, suc, ◌+◌, ◌<◌, ◌≡◌, refl, sym, ap, ◌∙◌, arith, Bool, true, ◌&&◌, List, [], ◌∷◌, Option,
  none, some, ◌==◌, Bool-cases, inl, inr,
}
use robinarb.Base.Int.{ℤ}
use robinarb.Base.Answer.{Answer, ok, >>=-eq-ok, ok-injective}
use robinarb.Ingest.SlotLayout.{lowest_set_bit}
use robinarb.Ingest.SlotLayout.Discovery.{
  find_index, read_slots, Probe, on_bit, on_word, checked_add, find_probe, find_base, find_pair,
}

-- The slot `k` of the `n` scanned holds a word with the property.
abbrev pub HoldsAt : (ℕ → Answer ℕ) → ℕ → ℕ → (ℕ → Type 0) → Type 0
HoldsAt storage n k P = (w : ℕ) × (storage k ≡ ok w) × (k < n) × P w

some-eq : {a b : ℕ} → some a ≡ some b → a ≡ b
some-eq h = cc

-- The words read are those of the slots from `from` on.
pub find_index-HoldsAt :
    (storage : ℕ → Answer ℕ) (p : ℕ → Bool) (n from k : ℕ) (ws : List ℕ)
    → read_slots storage n from ≡ ok ws
    → find_index p ws from ≡ some k
    → HoldsAt storage (from + n) k (λ w. p w ≡ true)
unfolding read_slots find_index
find_index-HoldsAt storage p zero from k ws read found =
    let e : [] ≡ ws = ok-injective read in cc (rw (← e) at found)
find_index-HoldsAt storage p (suc n) from k ws read found =
    let (w, at, read1) = >>=-eq-ok (storage from) _ read in
    let (ws', later, read2) = >>=-eq-ok (read_slots storage n (from + 1)) _ read1 in
    let e : w ∷ ws' ≡ ws = ok-injective read2 in
    let found' : find_index p (w ∷ ws') from ≡ some k = rw (← e) at found in
    elim (Bool-cases (p w)) [
      | inl hit ↦
          let here : from ≡ k = some-eq (rw hit at found') in (w, rw (← here) at, omega arith, hit)
      | inr miss ↦
          let (x, held, low, good) =
            find_index-HoldsAt storage p n (from + 1) k ws' later (rw miss at found') in
          (x, held, omega arith, good)
    ]

pub find_base-matches :
    (test : ℕ → Answer Bool) (n base k : ℕ)
    → find_base test n base ≡ ok (some k)
    → (test k ≡ ok true) × (k < base + n)
unfolding find_base
find_base-matches test zero base k found = cc
find_base-matches test (suc n) base k found =
    let (hit, tested, rest) = >>=-eq-ok (test base) _ found in
    elim (Bool-cases hit) [
      | inl yes_here ↦
          let here : base ≡ k = some-eq (ok-injective (rw yes_here at rest)) in
          (rw (← here, ← yes_here) tested, omega arith)
      | inr no_match ↦
          let (hit', low) = find_base-matches test n (base + 1) k (rw no_match at rest) in
          (hit', omega arith)
    ]

pub find_probe-bit :
    (view : ℤ → Answer ℕ) (center : ℤ) (ds : List ℤ) (p : Probe)
    → find_probe view center ds ≡ ok (some p)
    → (view p.word ≡ ok p.bits) × (lowest_set_bit p.bits ≡ some p.bit)
unfolding find_probe
find_probe-bit view center [] p found = cc
find_probe-bit view center (d ∷ ds) p found =
    by_word (checked_add center d) (find_probe view center ds) found
      (find_probe-bit view center ds p)
  where
    by_bit :
        (word : ℤ) (bits : ℕ) (rest : Answer (Option Probe)) (bit : Option ℕ)
        → view word ≡ ok bits
        → lowest_set_bit bits ≡ bit
        → on_bit word bits bit rest ≡ ok (some p)
        → (rest ≡ ok (some p) → (view p.word ≡ ok p.bits) × (lowest_set_bit p.bits ≡ some p.bit))
        → (view p.word ≡ ok p.bits) × (lowest_set_bit p.bits ≡ some p.bit)
    by_bit word bits rest none viewed low h later = later h
    by_bit word bits rest (some b) viewed low h later =
        let e : record { word = word; bit = b; bits = bits } ≡ p = cc in rw (← e) (viewed, low)

    by_word :
        (word : Option ℤ) (rest : Answer (Option Probe))
        → on_word view word rest ≡ ok (some p)
        → (rest ≡ ok (some p) → (view p.word ≡ ok p.bits) × (lowest_set_bit p.bits ≡ some p.bit))
        → (view p.word ≡ ok p.bits) × (lowest_set_bit p.bits ≡ some p.bit)
    by_word none rest h later = later h
    by_word (some word) rest h later =
        let (bits, viewed, h1) = >>=-eq-ok (view word) _ h in
        by_bit word bits rest (lowest_set_bit bits) viewed refl h1 later

pub find_pair-HoldsAt :
    (storage : ℕ → Answer ℕ) (r0 r1 n from k : ℕ) (ws : List ℕ)
    → read_slots storage n from ≡ ok ws
    → find_pair r0 r1 ws from ≡ some k
    → (storage k ≡ ok r0) × (storage (k + 1) ≡ ok r1) × (k + 1 < from + n)
unfolding read_slots find_pair
find_pair-HoldsAt storage r0 r1 zero from k ws read found =
    let e : [] ≡ ws = ok-injective read in cc (rw (← e) at found)
find_pair-HoldsAt storage r0 r1 (suc zero) from k ws read found =
    let (w, at, read1) = >>=-eq-ok (storage from) _ read in
    let e : w ∷ [] ≡ ws = ok-injective read1 in cc (rw (← e) at found)
find_pair-HoldsAt storage r0 r1 (suc (suc n)) from k ws read found =
    let (w, at, read1) = >>=-eq-ok (storage from) _ read in
    let (ws', later, read2) = >>=-eq-ok (read_slots storage (suc n) (from + 1)) _ read1 in
    let (w', at', read3) = >>=-eq-ok (storage (from + 1)) _ later in
    let (ws'', later', read4) = >>=-eq-ok (read_slots storage n (from + 1 + 1)) _ read3 in
    let e : w ∷ ws' ≡ ws = ok-injective read2 in
    let e' : w' ∷ ws'' ≡ ws' = ok-injective read4 in
    let found' : find_pair r0 r1 (w ∷ w' ∷ ws'') from ≡ some k =
      ap (λ (l : List ℕ). find_pair r0 r1 l from) (ap (λ (l : List ℕ). w ∷ l) e' ∙ e) ∙ found in
    elim (Bool-cases (w == r0 && w' == r1)) [
      | inl hit ↦
          let here : from ≡ k = some-eq (rw hit at found') in
          let first : w ≡ r0 = ground arith in
          let second : w' ≡ r1 = ground arith in
          (rw (← here, ← first) at, rw (← here, ← second) at', omega arith)
      | inr miss ↦
          let (a, b, low) =
            find_pair-HoldsAt storage r0 r1 (suc n) (from + 1) k (w' ∷ ws'')
              (later ∙ sym (ap ok e')) (rw miss at found') in
          (a, b, omega arith)
    ]
