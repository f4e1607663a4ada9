-- ===== src/State/Tests.antt =====
-- A block that changes one of three pools.
use robinarb.Base.{ℕ, ◌+◌, ◌≡◌, ◌<◌, refl, arith, true, false, List, [], ◌∷◌, some, contains}
use robinarb.Base.Int.{pos}
use robinarb.Base.Word.{done}
use robinarb.Routing.{Route}
use robinarb.Routing.Store.{build}
use robinarb.State.{ChainState, Words, v2_packed, packed, read, prefetch_into, advance_and_prefetch}
use robinarb.State.Prefetch.{written, updated, prefetch_into-written}
use robinarb.State.Neighborhood.{advance_and_prefetch_fresh}
use robinarb.State.TickReader.{ClTickReader, bitmap_word, stored_word, Coherent, bitmap_word_lem}

abbrev two_routes : List Route
two_routes =
    record {
      id = 0;
      anchor = 100;
      hops =
          record { pool = 0; zero_for_one = true; token_in = 100 }
          ∷ record { pool = 1; zero_for_one = false; token_in = 200 }
          ∷ [];
    }
    ∷ record {
      id = 1;
      anchor = 100;
      hops =
          record { pool = 1; zero_for_one = true; token_in = 100 }
          ∷ record { pool = 2; zero_for_one = false; token_in = 200 }
          ∷ [];
    }
    ∷ []

abbrev state : ChainState
state = record {
  tip = 7;
  memo = λ a s. some 1;
  tick_cache = λ a s. some 5;
  plans = some (v2_packed 10 8) ∷ some (v2_packed 11 8) ∷ some (v2_packed 12 8) ∷ [];
}

abbrev chain : Words
chain a s = some (a + s)

small : (p : ℕ) → contains (0 ∷ []) p ≡ true → p < 3
small p h = ground arith

advance_and_prefetch_fresh_example :
    (st' : ChainState) × (advance_and_prefetch chain (build two_routes 3) 8 (0 ∷ []) state
      ≡ done st')
    × (read st' 11 8 ≡ 19)
    × (st'.tip ≡ 8)
    × (st'.tick_cache ≡ state.tick_cache)
advance_and_prefetch_fresh_example =
    advance_and_prefetch_fresh chain two_routes 3 8 (0 ∷ []) state (refl, (refl, tt)) small 0 0 1
      (record {
        id = 0;
        anchor = 100;
        hops =
            record { pool = 0; zero_for_one = true; token_in = 100 }
            ∷ record { pool = 1; zero_for_one = false; token_in = 200 }
            ∷ [];
      })
      (v2_packed 11 8) 11 8 19 refl refl refl refl refl refl refl

prefetch_into-written_example :
    written true (prefetch_into chain ((3, 4) ∷ []) true state) 3 4
    ≡ updated chain ((3, 4) ∷ []) 3 4 (some 5)
prefetch_into-written_example = prefetch_into-written chain ((3, 4) ∷ []) true state 3 4

abbrev sum : List ℕ → ℕ
sum [] = 0
sum (x ∷ xs) = x + sum xs

abbrev reader : ClTickReader
reader = record {
  state = state;
  addr = 10;
  ticks_base = 1;
  bitmap_base = 2;
  codec = packed;
  last_word = some (pos 3, 5);
}

bitmap_word_lem_example :
    ((bitmap_word sum reader (pos 3)).0 ≡ stored_word sum reader (pos 3))
    × Coherent sum (bitmap_word sum reader (pos 3)).1 (bitmap_word sum reader (pos 3)).1.last_word
    × ((bitmap_word sum reader (pos 3)).1.state ≡ state)
bitmap_word_lem_example = bitmap_word_lem sum reader (pos 3) refl
