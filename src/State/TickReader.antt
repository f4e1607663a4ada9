-- ===== src/State/TickReader.antt =====
-- src/state.rs, `ClTickReader`: bitmap words and tick nets read from the state, with a cache of one word.
use robinarb.Base.{
  ℕ, ◌/◌, ◌^◌, ◌≡◌, refl, sym, ap, ◌∙◌, Option, none, some, if◌then◌else◌, Bool-cases, inl, inr,
  List,
}
use robinarb.Base.Int.{ℤ, eqb_ℤ, eqb_ℤ-eq, signed128}
use robinarb.Base.Word.{add256}
use robinarb.Ingest.SlotLayout.{mapping_slot_signed, decode_low128}
use robinarb.State.{ChainState, TickCodec, packed, two_word, read, read_tick_cache_checked}
use robinarb.Math.V3.{TickSource}

pub record ClTickReader : Type 0 where
  pub state : ChainState
  pub addr : ℕ
  pub ticks_base : ℕ
  pub bitmap_base : ℕ
  pub codec : TickCodec
  pub last_word : Option (ℤ × ℕ)

module _ (keccak256 : List ℕ → ℕ) where
  abbrev pub rd : ClTickReader → ℕ → ℕ
  rd r slot = read r.state r.addr slot

  -- The word of the map, without the cache of one word.
  abbrev pub stored_word : ClTickReader → ℤ → Option ℕ
  stored_word r word =
      read_tick_cache_checked r.state r.addr (mapping_slot_signed keccak256 word r.bitmap_base)

  -- What the read of the map leaves in the cell.
  abbrev pub keep_word : ClTickReader → ℤ → Option ℕ → Option ℕ × ClTickReader
  keep_word r word none = (none, r)
  keep_word r word (some bits) = (some bits, record r { last_word = some (word, bits) })

  abbrev pub look_up : ClTickReader → ℤ → Option (ℤ × ℕ) → Option ℕ × ClTickReader
  look_up r word none = keep_word r word (stored_word r word)
  look_up r word (some (w, bits)) =
      if eqb_ℤ w word then (some bits, r) else keep_word r word (stored_word r word)

  unfoldable pub bitmap_word : ClTickReader → ℤ → Option ℕ × ClTickReader
  bitmap_word r word = look_up r word r.last_word

  abbrev pub net_of : ClTickReader → TickCodec → ℕ → ℤ
  net_of r packed slot0 = signed128 (rd r slot0 / 2 ^ 128)
  net_of r two_word slot0 = signed128 (decode_low128 (rd r (add256 slot0 1)))

  unfoldable pub liquidity_net : ClTickReader → ℤ → ℤ
  liquidity_net r tick = net_of r r.codec (mapping_slot_signed keccak256 tick r.ticks_base)

  -- The reader as the source of a walk, without its cell.
  abbrev pub source : ClTickReader → TickSource
  source r = record { bitmap_word = λ w. stored_word r w; liquidity_net = λ t. liquidity_net r t }

  -- The cell holds a word of the map.
  abbrev pub Coherent : ClTickReader → Option (ℤ × ℕ) → Type 0
  Coherent r none = Unit
  Coherent r (some (w, bits)) = stored_word r w ≡ some bits

  keep_word_lem :
      (r : ClTickReader) (word : ℤ) (o : Option ℕ)
      → stored_word r word ≡ o
      → Coherent r r.last_word
      → ((keep_word r word o).0 ≡ o)
        × Coherent (keep_word r word o).1 (keep_word r word o).1.last_word
        × ((keep_word r word o).1.state ≡ r.state)
  keep_word_lem r word none h c = (refl, c, refl)
  keep_word_lem r word (some bits) h c = (refl, h, refl)

  look_up_lem :
      (r : ClTickReader) (word : ℤ) (last : Option (ℤ × ℕ))
      → r.last_word ≡ last
      → Coherent r last
      → ((look_up r word last).0 ≡ stored_word r word)
        × Coherent (look_up r word last).1 (look_up r word last).1.last_word
        × ((look_up r word last).1.state ≡ r.state)
  look_up_lem r word none e c = keep_word_lem r word _ refl (rw e c)
  look_up_lem r word (some (w, bits)) e c = elim (Bool-cases (eqb_ℤ w word)) [
    | inl hit ↦
        let same : w ≡ word = eqb_ℤ-eq w word hit in
        rw hit (sym c ∙ ap (λ (x : ℤ). stored_word r x) same, rw e c, refl)
    | inr miss ↦ rw miss (keep_word_lem r word _ refl (rw e c))
  ]

  -- A reader whose cell holds a word of the tick cache answers as the tick cache does, keeps its
  -- state, and its cell holds a word of the tick cache again.
  pub bitmap_word_lem :
      (r : ClTickReader) (word : ℤ)
      → Coherent r r.last_word
      → ((bitmap_word r word).0 ≡ stored_word r word)
        × Coherent (bitmap_word r word).1 (bitmap_word r word).1.last_word
        × ((bitmap_word r word).1.state ≡ r.state)
  unfolding bitmap_word
  bitmap_word_lem r word c = look_up_lem r word r.last_word refl c
