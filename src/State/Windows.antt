-- ===== src/State/Windows.antt =====
-- src/state.rs: the hydration of tick windows, `prefetch_cl_tick_windows` and `patch_cl_ticks`.
use robinarb.Base.{
  ℕ, zero, suc, ◌+◌, List, [], ◌∷◌, ◌++◌, map, Option, none, some, ◌==◌, if◌then◌else◌, max,
}
use robinarb.Base.Int.{ℤ, pos, negsuc, ◌+ℤ◌, ◌-ℤ◌, ◌*ℤ◌, clamp_ℤ, floor_div, as_i16}
use robinarb.Base.Word.{Run, done, ◌>>=◌}
use robinarb.Base.Bits.{bit_at}
use robinarb.Ingest.SlotLayout.{mapping_slot_signed, compress_tick, decode_v3_slot0}
use robinarb.State.{
  ChainState, Words, SlotPlan, v2_packed, v2_two_slot, cl, packed, two_word, read, prefetch_ticks,
}

-- `word.saturating_add(by)` on i16
abbrev pub saturated : ℤ → ℤ
saturated w = clamp_ℤ w (negsuc 32_767) (pos 32_767)

-- `n` words from `lo` on.
abbrev pub words_from : ℤ → ℕ → List ℤ
words_from lo zero = []
words_from lo (suc n) = lo ∷ words_from (lo +ℤ pos 1) n

-- How many words `lo..=hi` has; saturation cuts the range at the ends of i16.
abbrev pub span : ℤ → ℤ → ℕ
span lo hi = elim (hi -ℤ lo) [ pos n ↦ suc n | negsuc n ↦ 0 ]

abbrev pub window : ℤ → ℕ → List ℤ
window center range =
    let lo = saturated (center -ℤ pos range) in
    let hi = saturated (center +ℤ pos range) in words_from lo (span lo hi)

-- The bitmap word of a tick, its spacing at least 1.
abbrev pub word_of : ℤ → ℕ → Run ℤ
word_of tick spacing = do c ← compress_tick tick (max spacing 1); done (as_i16 (floor_div c 256))

module _ (keccak256 : List ℕ → ℕ) where
  abbrev pub word_slots : ℕ → ℕ → List ℤ → List (ℕ × ℕ)
  word_slots addr base keys = map (λ w. (addr, mapping_slot_signed keccak256 w base)) keys

  -- The ticks of the set bits among `n` bits from `bit` on.
  abbrev pub set_ticks : ℕ → ℤ → ℕ → ℕ → ℕ → List ℤ
  set_ticks bits word spacing bit zero = []
  set_ticks bits word spacing bit (suc n) =
      let rest = set_ticks bits word spacing (bit + 1) n in
      if bit_at bits bit == 1 then ((word *ℤ pos 256 +ℤ pos bit) *ℤ pos spacing) ∷ rest else rest

  -- The ticks that the words' bits mark, read from the state.
  abbrev pub marked_ticks : ChainState → ℕ → ℕ → ℕ → List ℤ → List ℤ
  marked_ticks st addr bitmap_base spacing [] = []
  marked_ticks st addr bitmap_base spacing (w ∷ words) =
      let bits = read st addr (mapping_slot_signed keccak256 w bitmap_base) in
      set_ticks bits w spacing 0 256 ++ marked_ticks st addr bitmap_base spacing words

  -- The words around the touched ticks, one to each side.
  abbrev pub touched_words : ℕ → List ℤ → Run (List ℤ)
  touched_words spacing [] = done []
  touched_words spacing (t ∷ ticks) = do
    word ← word_of t spacing
    rest ← touched_words spacing ticks
    done (window word 1 ++ rest)

  unfoldable pub patch_cl_ticks : Words → ℕ → ℕ → ℕ → ℕ → List ℤ → ChainState → Run ChainState
  patch_cl_ticks rpc addr ticks_base bitmap_base tick_spacing [] st = done st
  patch_cl_ticks rpc addr ticks_base bitmap_base tick_spacing (t ∷ ts) st = do
    let spacing = max tick_spacing 1
    words ← touched_words tick_spacing (t ∷ ts)
    let st' = prefetch_ticks rpc (word_slots addr bitmap_base words) st
    let ticks = (t ∷ ts) ++ marked_ticks st' addr bitmap_base spacing words
    done (prefetch_ticks rpc (word_slots addr ticks_base ticks) st')

  -- One pool's window: its fields, its spacing and its words.
  pub record PoolWindow : Type 0 where
    pub addr : ℕ
    pub ticks_base : ℕ
    pub bitmap_base : ℕ
    pub spacing : ℕ
    pub words : List ℤ

  abbrev pub pool_window : ChainState → ℕ → SlotPlan → ℕ → Run (Option PoolWindow)
  pool_window st range (v2_packed addr slot) tick_spacing = done none
  pool_window st range (v2_two_slot addr r0) tick_spacing = done none
  pool_window st range (cl p) tick_spacing = elim p.tick_codec [
    | two_word ↦ done none
    | packed ↦ (do
      let (_, tick) = decode_v3_slot0 (read st p.addr p.slot0)
      center ← word_of tick tick_spacing
      done (
          some (record {
            addr = p.addr;
            ticks_base = p.ticks_base;
            bitmap_base = p.bitmap_base;
            spacing = max tick_spacing 1;
            words = window center range;
          })))
  ]

  abbrev pub push_window : Option PoolWindow → List PoolWindow → List PoolWindow
  push_window none ws = ws
  push_window (some w) ws = w ∷ ws

  abbrev pub pool_windows : ChainState → ℕ → List (SlotPlan × ℕ) → Run (List PoolWindow)
  pool_windows st range [] = done []
  pool_windows st range ((sp, spacing) ∷ plans) = do
    w ← pool_window st range sp spacing
    ws ← pool_windows st range plans
    done (push_window w ws)

  abbrev pub bitmap_slots : List PoolWindow → List (ℕ × ℕ)
  bitmap_slots [] = []
  bitmap_slots (w ∷ ws) = word_slots w.addr w.bitmap_base w.words ++ bitmap_slots ws

  abbrev pub tick_slots : ChainState → List PoolWindow → List (ℕ × ℕ)
  tick_slots st [] = []
  tick_slots st (w ∷ ws) =
      word_slots w.addr w.ticks_base (marked_ticks st w.addr w.bitmap_base w.spacing w.words)
      ++ tick_slots st ws

  unfoldable pub prefetch_cl_tick_windows :
      Words → List (SlotPlan × ℕ) → ℕ → ChainState → Run ChainState
  prefetch_cl_tick_windows rpc plans word_range st = do
    windows ← pool_windows st word_range plans
    let st' = prefetch_ticks rpc (bitmap_slots windows) st
    done (prefetch_ticks rpc (tick_slots st' windows) st')
