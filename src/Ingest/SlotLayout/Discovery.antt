-- ===== src/Ingest/SlotLayout/Discovery.antt =====
-- src/ingest/slot_layout.rs: the discovery of the storage layouts. The storage of a pool and its view
-- calls, all at one block, are parameters.
pub mod Scans
pub mod Mapping
pub mod Agreement
mod Tests
use Prim.Native.Nat.{bit_and}
use robinarb.Base.{
  ℕ, zero, suc, ◌+◌, ◌*◌, ◌/◌, ◌%◌, ◌^◌, Bool, true, false, not, ◌&&◌, ◌||◌, List, [], ◌∷◌, ◌++◌,
  Option, none, some, ltb, length, get_or, ◌==◌, if◌then◌else◌,
}
use robinarb.Base.Int.{
  ℤ, pos, negsuc, ◌+ℤ◌, ◌*ℤ◌, ltb_ℤ, eqb_ℤ, floor_div, floor_mod, as_i16, signed32, signed128,
}
use robinarb.Base.Answer.{Answer, ok, err, abort, ◌>>=◌, answer_of}
use robinarb.Engine.{
  DexTag, uni_v2_fork, aero_volatile, aero_stable, uni_v3_fork, pancake_v3, slipstream, uni_v4,
  algebra, PoolMeta, is_v4,
}
use robinarb.State.Plans.{
  SlotLayout, V3Layout, AlgebraLayout, packed_reserves, two_slots, v3_layout, algebra_layout,
}
use robinarb.Ingest.SlotLayout.{
  decode_shifted128, decode_low128, decode_v2_packed, decode_v3_slot0, compress_tick,
  mapping_slot_signed, lowest_set_bit, probe_word_offsets, discover_algebra_fee_shift,
}

abbrev pub scan_slots : ℕ
scan_slots = 24

abbrev pub discovery_samples : ℕ
discovery_samples = 3

abbrev pub tick_mapping_scan : ℕ
tick_mapping_scan = 20

-- A pool at one block: a word of its storage, and its view calls. `slot0` is its price and tick,
-- `ticks` the gross and net liquidity of a tick (Algebra: total and delta), `global_state` the price,
-- the tick and the last fee.
pub record PoolViews : Type 0 where
  pub storage : ℕ → Answer ℕ
  pub reserves : Answer (ℕ × ℕ)
  pub liquidity : Answer ℕ
  pub slot0 : Answer (ℕ × ℤ)
  pub tick_bitmap : ℤ → Answer ℕ
  pub ticks : ℤ → Answer (ℕ × ℤ)
  pub global_state : Answer (ℕ × ℤ × ℕ)
  pub tick_table : ℤ → Answer ℕ
  pub algebra_ticks : ℤ → Answer (ℕ × ℤ)

-- `iter().position(p)`, counted from `i`.
unfoldable pub find_index : (ℕ → Bool) → List ℕ → ℕ → Option ℕ
find_index p [] i = none
find_index p (x ∷ xs) i = if p x then some i else find_index p xs (i + 1)

unfoldable pub read_slots : (ℕ → Answer ℕ) → (n from : ℕ) → Answer (List ℕ)
read_slots storage zero from = ok []
read_slots storage (suc n) from = do
  w ← storage from
  ws ← read_slots storage n (from + 1)
  ok (w ∷ ws)

-- `i16::checked_add`
unfoldable pub checked_add : ℤ → ℤ → Option ℤ
unfolding ◌+ℤ◌
checked_add a b =
    let c = a +ℤ b in if ltb_ℤ c (negsuc 32_767) || ltb_ℤ (pos 32_767) c then none else some c

-- A word of the bitmap with its lowest set bit.
pub record Probe : Type 0 where
  pub word : ℤ
  pub bit : ℕ
  pub bits : ℕ

abbrev pub on_bit : ℤ → ℕ → Option ℕ → Answer (Option Probe) → Answer (Option Probe)
on_bit word bits (some bit) rest = ok (some (record { word = word; bit = bit; bits = bits }))
on_bit word bits none rest = rest

abbrev pub on_word : (ℤ → Answer ℕ) → Option ℤ → Answer (Option Probe) → Answer (Option Probe)
on_word view none rest = rest
on_word view (some word) rest = do bits ← view word; on_bit word bits (lowest_set_bit bits) rest

-- The first word outward from the centre that is not empty.
unfoldable pub find_probe : (ℤ → Answer ℕ) → ℤ → List ℤ → Answer (Option Probe)
find_probe view center [] = ok none
find_probe view center (d ∷ ds) = on_word view (checked_add center d) (find_probe view center ds)

-- The first base slot that matches, of `n` from `base` on.
unfoldable pub find_base : (ℕ → Answer Bool) → (n base : ℕ) → Answer (Option ℕ)
find_base matches zero base = ok none
find_base matches (suc n) base = do
  found ← matches base
  if found then ok (some base) else find_base matches n (base + 1)

-- Two bases are a layout when they are found and differ.
abbrev pub both_bases : Option ℕ → Option ℕ → Option (ℕ × ℕ)
both_bases (some t) (some b) = if t == b then none else some (t, b)
both_bases (some t) none = none
both_bases none b = none

-- `as i32` of a product.
abbrev pub wrap_i32 : ℤ → ℤ
wrap_i32 z = signed32 (floor_mod z (2 ^ 32))

-- `I24::try_from(tick).expect(…)`
unfoldable pub expect_i24 : ℤ → Answer ℤ
expect_i24 t = if ltb_ℤ t (negsuc 8_388_607) || ltb_ℤ (pos 8_388_607) t then abort else ok t

-- The bases, once a probe tick has liquidity.
unfoldable pub match_bases : (ℕ → Answer Bool) → (ℕ → Answer Bool) → ℕ → Answer (Option (ℕ × ℕ))
match_bases tick_matches bitmap_matches gross = if gross == 0 then ok none else (do
  t ← find_base tick_matches tick_mapping_scan 0
  b ← find_base bitmap_matches tick_mapping_scan 0
  ok (both_bases t b))

unfoldable pub v3_probe_tick : ℕ → Probe → ℤ
unfolding ◌+ℤ◌ ◌*ℤ◌
v3_probe_tick spacing p = wrap_i32 ((p.word *ℤ pos 256 +ℤ pos p.bit) *ℤ pos spacing)

unfoldable pub algebra_probe_tick : Probe → ℤ
unfolding ◌+ℤ◌ ◌*ℤ◌
algebra_probe_tick p = p.word *ℤ pos 256 +ℤ pos p.bit

abbrev pub is_slot0 : ℕ → ℤ → ℕ → Bool
is_slot0 sqrt tick w = (decode_v3_slot0 w).0 == sqrt && eqb_ℤ (decode_v3_slot0 w).1 tick

abbrev pub is_liquidity : ℕ → ℕ → Bool
is_liquidity liq w = decode_low128 w == liq

-- The layout over the bases of a mapping.
abbrev pub v3_of : ℕ → ℕ → Option (ℕ × ℕ) → Option SlotLayout
v3_of s0 lq none = none
v3_of s0 lq (some (t, b)) =
    some (v3_layout (record { slot0 = s0; liquidity = lq; ticks = t; tick_bitmap = b }))

-- The first of the two shifts at which the word holds the liquidity.
abbrev pub liquidity_shift_in : ℕ → ℕ → Option ℕ
liquidity_shift_in liq w =
    if decode_shifted128 w 0 == liq
    then some 0
    else if decode_shifted128 w 48 == liq
    then some 48
    else none

abbrev pub pick_at : ℕ → Option ℕ → Option (ℕ × ℕ) → Option (ℕ × ℕ)
pick_at i none rest = rest
pick_at i (some shift) rest = some (i, shift)

abbrev pub is_index : Option ℕ → ℕ → Bool
is_index none i = false
is_index (some k) i = k == i

-- The first word but the global state's that holds the liquidity at a shift.
unfoldable pub liquidity_pick : Option ℕ → ℕ → List ℕ → ℕ → Option (ℕ × ℕ)
liquidity_pick gs liq [] i = none
liquidity_pick gs liq (w ∷ ws) i =
    let rest = liquidity_pick gs liq ws (i + 1) in
    if is_index gs i then rest else pick_at i (liquidity_shift_in liq w) rest

abbrev pub algebra_of : ℕ → ℕ → ℕ → Option ℕ → Option (ℕ × ℕ) → Option SlotLayout
algebra_of gs slot shift fee_shift none = none
algebra_of gs slot shift fee_shift (some (t, b)) = some (
    algebra_layout (record {
      global_state = gs;
      liquidity_slot = slot;
      liquidity_shift = shift;
      ticks = t;
      tick_table = b;
      fee_shift = fee_shift;
    }))

abbrev pub is_packed : ℕ → ℕ → ℕ → Bool
is_packed r0 r1 w = (decode_v2_packed w).0 == r0 && (decode_v2_packed w).1 == r1

abbrev pub packed_at : Option ℕ → Option SlotLayout
packed_at none = none
packed_at (some slot) = some (packed_reserves slot)

-- `windows(2).position(…)`
unfoldable pub find_pair : ℕ → ℕ → List ℕ → ℕ → Option ℕ
find_pair r0 r1 [] i = none
find_pair r0 r1 (w ∷ []) i = none
find_pair r0 r1 (w ∷ w' ∷ ws) i =
    let rest = find_pair r0 r1 (w' ∷ ws) (i + 1) in if w == r0 && w' == r1 then some i else rest

abbrev pub two_at : Option ℕ → Option SlotLayout
two_at none = none
two_at (some slot) = some (two_slots slot)

module _ (keccak256 : List ℕ → ℕ) (v : PoolViews) where
  unfoldable pub word_matches : ℤ → ℕ → ℕ → Answer Bool
  word_matches key want base = do
    word ← v.storage (mapping_slot_signed keccak256 key base)
    ok (word == want)

  -- One word holds the gross liquidity below the net.
  unfoldable pub v3_tick_matches : ℤ → ℕ → ℤ → ℕ → Answer Bool
  v3_tick_matches tick gross net base = do
    word ← v.storage (mapping_slot_signed keccak256 tick base)
    ok (decode_low128 word == gross && eqb_ℤ (signed128 (word / 2 ^ 128)) net)

  -- The total is one word, and the delta the low half of the next.
  abbrev pub delta_matches : ℕ → ℤ → Bool → Answer Bool
  delta_matches slot delta false = ok false
  delta_matches slot delta true = do
    word ← v.storage ((slot + 1) % 2 ^ 256)
    ok (eqb_ℤ (signed128 (decode_low128 word)) delta)

  unfoldable pub algebra_tick_matches : ℤ → ℕ → ℤ → ℕ → Answer Bool
  algebra_tick_matches tick total delta base = do
    let slot = mapping_slot_signed keccak256 tick base
    word ← v.storage slot
    delta_matches slot delta (word == total)

  unfoldable pub v3_mapping_at : ℕ → Option Probe → Answer (Option (ℕ × ℕ))
  v3_mapping_at spacing none = ok none
  v3_mapping_at spacing (some p) = do
    tick ← expect_i24 (v3_probe_tick spacing p)
    (gross, net) ← v.ticks tick
    match_bases (v3_tick_matches tick gross net) (word_matches p.word p.bits) gross

  unfoldable pub discover_v3_tick_mapping : ℤ → ℕ → Answer (Option (ℕ × ℕ))
  discover_v3_tick_mapping current_tick spacing = do
    c ← answer_of (compress_tick current_tick spacing)
    probe ← find_probe v.tick_bitmap (as_i16 (floor_div c 256)) probe_word_offsets
    v3_mapping_at spacing probe

  unfoldable pub algebra_mapping_at : Option Probe → Answer (Option (ℕ × ℕ))
  algebra_mapping_at none = ok none
  algebra_mapping_at (some p) = do
    tick ← expect_i24 (algebra_probe_tick p)
    (total, delta) ← v.algebra_ticks tick
    match_bases (algebra_tick_matches tick total delta) (word_matches p.word p.bits) total

  unfoldable pub discover_algebra_tick_mapping : ℤ → Answer (Option (ℕ × ℕ))
  discover_algebra_tick_mapping current_tick = do
    probe ← find_probe v.tick_table (as_i16 (floor_div current_tick 256)) probe_word_offsets
    algebra_mapping_at probe

  unfoldable pub v3_at : ℤ → ℕ → Option ℕ → Option ℕ → Answer (Option SlotLayout)
  v3_at tick spacing (some s0) (some lq) =
      if s0 == lq
      then ok none
      else (do m ← discover_v3_tick_mapping tick spacing; ok (v3_of s0 lq m))
  v3_at tick spacing (some s0) none = ok none
  v3_at tick spacing none lq = ok none

  -- A dead pool tells nothing.
  abbrev pub v3_if : Bool → ℤ → ℕ → Option ℕ → Option ℕ → Answer (Option SlotLayout)
  v3_if true tick spacing s0 lq = ok none
  v3_if false tick spacing s0 lq = v3_at tick spacing s0 lq

  unfoldable pub discover_v3 : ℕ → List ℕ → Answer (Option SlotLayout)
  discover_v3 spacing words = do
    (sqrt, tick) ← v.slot0
    liq ← v.liquidity
    v3_if (sqrt == 0 || liq == 0) tick spacing (find_index (is_slot0 sqrt tick) words 0)
        (find_index (is_liquidity liq) words 0)

  unfoldable pub algebra_at :
      ℤ → ℕ → List ℕ → Option ℕ → Option (ℕ × ℕ) → Answer (Option SlotLayout)
  algebra_at tick last_fee words (some gs) (some (slot, shift)) = do
    m ← discover_algebra_tick_mapping tick
    ok (algebra_of gs slot shift (discover_algebra_fee_shift (get_or words gs 0) last_fee) m)
  algebra_at tick last_fee words (some gs) none = ok none
  algebra_at tick last_fee words none pick = ok none

  abbrev pub algebra_if :
      Bool → ℤ → ℕ → List ℕ → Option ℕ → Option (ℕ × ℕ) → Answer (Option SlotLayout)
  algebra_if true tick last_fee words gs pick = ok none
  algebra_if false tick last_fee words gs pick = algebra_at tick last_fee words gs pick

  unfoldable pub discover_algebra : List ℕ → Answer (Option SlotLayout)
  discover_algebra words = do
    (price, tick, last_fee) ← v.global_state
    liq ← v.liquidity
    let gs = find_index (is_slot0 price tick) words 0
    algebra_if (price == 0 || liq == 0) tick last_fee words gs (liquidity_pick gs liq words 0)

  unfoldable pub discover_packed : List ℕ → Answer (Option SlotLayout)
  discover_packed words = do
    (r0, r1) ← v.reserves
    if r0 == 0 then ok none else ok (packed_at (find_index (is_packed r0 r1) words 0))

  unfoldable pub discover_two_slots : List ℕ → Answer (Option SlotLayout)
  discover_two_slots words = do
    (r0, r1) ← v.reserves
    if r0 == 0 then ok none else ok (two_at (find_pair r0 r1 words 0))

  unfoldable pub discover_tag : DexTag → ℕ → List ℕ → Answer (Option SlotLayout)
  discover_tag uni_v3_fork spacing words = discover_v3 spacing words
  discover_tag pancake_v3 spacing words = discover_v3 spacing words
  discover_tag slipstream spacing words = discover_v3 spacing words
  discover_tag algebra spacing words = discover_algebra words
  discover_tag uni_v2_fork spacing words = discover_packed words
  discover_tag aero_volatile spacing words = discover_two_slots words
  discover_tag aero_stable spacing words = discover_two_slots words
  discover_tag uni_v4 spacing words = ok none

  unfoldable pub discover_one : PoolMeta → Answer (Option SlotLayout)
  discover_one m = do
    words ← read_slots v.storage scan_slots 0
    discover_tag m.dex m.tick_spacing words

-- The samples of a tag in the order of the registry: an error or no layout goes on to the next.
abbrev pub first_layout : List (Answer (Option SlotLayout)) → Answer (Option SlotLayout)
first_layout [] = ok none
first_layout (ok none ∷ rest) = first_layout rest
first_layout (ok (some layout) ∷ rest) = ok (some layout)
first_layout (err ∷ rest) = first_layout rest
first_layout (abort ∷ rest) = abort

-- The tags as keys of a map.
abbrev pub tag_code : DexTag → ℕ
tag_code uni_v2_fork = 0
tag_code aero_volatile = 1
tag_code aero_stable = 2
tag_code uni_v3_fork = 3
tag_code pancake_v3 = 4
tag_code slipstream = 5
tag_code uni_v4 = 6
tag_code algebra = 7

-- The pools of a tag that are tried, without those of V4.
unfoldable pub samples : DexTag → List PoolMeta → (room : ℕ) → List PoolMeta
samples tag [] room = []
samples tag (m ∷ ms) zero = []
samples tag (m ∷ ms) (suc room) =
    let rest = samples tag ms room in
    let skipped = samples tag ms (suc room) in
    if not (is_v4 m.dex) && tag_code m.dex == tag_code tag then m ∷ rest else skipped

abbrev pub probe_all :
    (PoolMeta → Answer (Option SlotLayout)) → List PoolMeta → List (Answer (Option SlotLayout))
probe_all probe [] = []
probe_all probe (m ∷ ms) = probe m ∷ probe_all probe ms

-- The map of layouts, as a function of the tag. The probes whose results are only logged are left out.
unfoldable pub discover_layouts :
    (List ℕ → ℕ) → (PoolMeta → PoolViews) → List PoolMeta → DexTag → Answer (Option SlotLayout)
discover_layouts keccak256 views metas tag =
    first_layout
      (probe_all (λ m. discover_one keccak256 (views m) m) (samples tag metas discovery_samples))

-- The word of the global state holds the fee that a swap is charged; `fee` is that view call.
unfoldable pub algebra_fee_word_trusted : PoolViews → Answer ℕ → (gs_slot shift : ℕ) → Answer Bool
algebra_fee_word_trusted v fee gs_slot shift = do
  word ← v.storage gs_slot
  charged ← fee
  ok (bit_and (word / 2 ^ shift) 0xffff == charged)
