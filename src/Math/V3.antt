-- ===== src/Math/V3.antt =====
-- src/math/v3.rs: the tick walk of a concentrated-liquidity swap over a lazy tick source, and the
-- protocol constants of src/constants.rs that it reads. The crate `uniswap_v3_math` is the parameter
-- `SwapMath`. A 256-bit signed amount is its raw word.
pub mod NextTick
pub mod Payout
pub mod Window
mod Tests
use Prim.Native.Nat.{bit_and}
use robinarb.Base.{
  ℕ, zero, suc, ◌+◌, ◌-◌, ◌*◌, ◌%◌, ◌^◌, Bool, true, false, not, ◌&&◌, ◌||◌, Option, none, some,
  ◌==◌, ltb, if◌then◌else◌,
}
use robinarb.Base.Int.{
  ℤ, pos, negsuc, neg, ◌-ℤ◌, ◌+ℤ◌, ◌*ℤ◌, clamp_ℤ, floor_div, floor_mod, as_i16, eqb_ℤ,
}
use robinarb.Base.Word.{Run, done, panic, add256, sub256}
use robinarb.Ingest.SlotLayout.{compress_tick}

-- `err` is an error of the crate, which the quote turns into zero; a panic is not caught.
pub data Swap {ℓ} (A : Type ℓ) : Type ℓ where
  ok : A → Swap A
  err : Swap A
  fault : Swap A

infixl 5 ◌>>=◌
abbrev pub ◌>>=◌ {ℓ κ} : {A : Type ℓ} {B : Type κ} → Swap A → (A → Swap B) → Swap B
ok a >>= f = f a
err >>= f = err
fault >>= f = fault

abbrev pub lift {ℓ} : {A : Type ℓ} → Run A → Swap A
lift (done a) = ok a
lift panic = fault

abbrev pub min_tick : ℤ
min_tick = negsuc 887_271

abbrev pub max_tick : ℤ
max_tick = pos 887_272

abbrev pub min_sqrt_ratio : ℕ
min_sqrt_ratio = 4_295_128_739

abbrev pub max_sqrt_ratio : ℕ
max_sqrt_ratio = 1_461_446_703_485_210_103_287_273_052_203_988_822_378_723_970_342

-- What `compute_swap_step` returns.
pub record SwapStep : Type 0 where
  pub sqrt_price_new : ℕ
  pub amount_in : ℕ
  pub amount_out : ℕ
  pub fee_amount : ℕ

pub record SwapMath : Type 0 where
  pub most_significant_bit : ℕ → Swap ℕ
  pub least_significant_bit : ℕ → Swap ℕ
  pub get_sqrt_ratio_at_tick : ℤ → Swap ℕ
  pub get_tick_at_sqrt_ratio : ℕ → Swap ℤ
  pub compute_swap_step : ℕ → ℕ → ℕ → ℕ → ℕ → Swap SwapStep
  pub add_delta : ℕ → ℤ → Swap ℕ

-- A word that was never hydrated is `none`.
pub record TickSource : Type 0 where
  pub bitmap_word : ℤ → Option ℕ
  pub liquidity_net : ℤ → ℤ

unfoldable pub position : ℤ → ℤ × ℕ
position compressed = (as_i16 (floor_div compressed 256), floor_mod compressed 256)

-- `a.overflowing_sub(b).0` on u8
abbrev pub sub8 : ℕ → ℕ → ℕ
sub8 a b = (a + 2 ^ 8 - b) % 2 ^ 8

module _ (m : SwapMath) where
  -- The branch `lte`, in a hydrated word. No mask overflows: a bit position is below 256.
  unfoldable pub next_below : ℤ → ℕ → ℕ → ℕ → Swap (ℤ × Bool)
  next_below compressed spacing bit_pos word =
      let mask = 2 ^ bit_pos - 1 + 2 ^ bit_pos in
      let masked = bit_and word mask in
      if masked == 0 then ok ((compressed -ℤ pos bit_pos) *ℤ pos spacing, false) else (do
        msb ← m.most_significant_bit masked
        ok ((compressed -ℤ pos (sub8 bit_pos msb)) *ℤ pos spacing, true))

  -- The other branch; `2 ^ 256 - 2 ^ b` is `!((1 << b) - 1)`.
  unfoldable pub next_above : ℤ → ℕ → ℕ → ℕ → Swap (ℤ × Bool)
  next_above compressed spacing bit_pos word =
      let mask = 2 ^ 256 - 2 ^ bit_pos in
      let masked = bit_and word mask in
      if masked == 0
      then ok ((compressed +ℤ pos 1 +ℤ pos (255 - bit_pos)) *ℤ pos spacing, false)
      else (do
        lsb ← m.least_significant_bit masked
        ok ((compressed +ℤ pos 1 +ℤ pos (sub8 lsb bit_pos)) *ℤ pos spacing, true))

  abbrev pub in_word : Option ℕ → (ℕ → Swap (ℤ × Bool)) → Swap (Option (ℤ × Bool))
  in_word none search_word = ok none
  in_word (some word) search_word = do found ← search_word word; ok (some found)

  unfoldable pub next_initialized_tick_src : TickSource → ℤ → ℕ → Bool → Swap (Option (ℤ × Bool))
  unfolding position next_below next_above
  next_initialized_tick_src src tick tick_spacing lte = do
    compressed ← lift (compress_tick tick tick_spacing)
    let (low_word, low_bit) = position compressed
    let (high_word, high_bit) = position (compressed +ℤ pos 1)
    if lte
        then in_word (src.bitmap_word low_word) (next_below compressed tick_spacing low_bit)
        else in_word (src.bitmap_word high_word) (next_above compressed tick_spacing high_bit)

-- The variables of the loop.
pub record Walk : Type 0 where
  pub amount_remaining : ℕ
  pub amount_calculated : ℕ
  pub sqrt_price : ℕ
  pub tick : ℤ
  pub liquidity : ℕ

abbrev pub price_limit : Bool → ℕ
price_limit zero_for_one = if zero_for_one then min_sqrt_ratio + 1 else max_sqrt_ratio - 1

-- The loop's condition fails: nothing is left to swap, or the price is at its limit.
pub finished : Bool → Walk → Bool
finished zero_for_one s = s.amount_remaining == 0 || s.sqrt_price == price_limit zero_for_one

-- `-x` on i128, which keeps the least value.
abbrev pub neg128 : ℤ → ℤ
neg128 x = if eqb_ℤ x (negsuc (2 ^ 127 - 1)) then x else neg x

module _ (m : SwapMath) (src : TickSource) (zero_for_one : Bool) (fee_pips tick_spacing : ℕ) where
  -- The liquidity after the tick `next_tick` has been crossed.
  crossed_liquidity : ℤ → Bool → ℕ → Swap ℕ
  crossed_liquidity next_tick initialized liquidity =
      let net = src.liquidity_net next_tick in
      if initialized
      then m.add_delta liquidity (if zero_for_one then neg128 net else net)
      else ok liquidity

  -- What follows the swap step in the loop body: the tick and the liquidity.
  settle : ℤ → Bool → ℕ → ℕ → Walk → Swap Walk
  settle next_tick initialized sqrt_price_next sqrt_price_start s =
      if s.sqrt_price == sqrt_price_next
      then (do
        liquidity ← crossed_liquidity next_tick initialized s.liquidity
        ok (record s {
          liquidity = liquidity;
          tick = if zero_for_one then next_tick -ℤ pos 1 else next_tick;
        }))
      else if not (s.sqrt_price == sqrt_price_start)
      then (do tick ← m.get_tick_at_sqrt_ratio s.sqrt_price; ok (record s { tick = tick }))
      else ok s

  -- The loop body once the next tick is known.
  advance : Walk → ℤ × Bool → Swap Walk
  advance s (found, initialized) = do
    let next_tick = clamp_ℤ found min_tick max_tick
    sqrt_price_next ← m.get_sqrt_ratio_at_tick next_tick
    let limit = price_limit zero_for_one
    let passes =
        (zero_for_one && ltb sqrt_price_next limit)
        || (not zero_for_one && ltb limit sqrt_price_next)
    let sqrt_target = if passes then limit else sqrt_price_next
    swap ← m.compute_swap_step s.sqrt_price sqrt_target s.liquidity s.amount_remaining fee_pips
    let consumed = add256 swap.amount_in swap.fee_amount
    settle next_tick initialized sqrt_price_next s.sqrt_price (record s {
      sqrt_price = swap.sqrt_price_new;
      amount_remaining = sub256 s.amount_remaining consumed;
      amount_calculated = sub256 s.amount_calculated swap.amount_out;
    })

  -- `none` is the `break` at the edge of the hydrated words.
  pub step : Walk → Swap (Option Walk)
  unfolding advance settle crossed_liquidity
  step s = do
    found ← next_initialized_tick_src m src s.tick tick_spacing zero_for_one
    elim found [ none ↦ ok none | some next ↦ (do s' ← advance s next; ok (some s')) ]

  -- The loop with the rounds that the guard leaves: after 1024 of them it breaks.
  pub walk : ℕ → Walk → Swap Walk
  unfolding finished
  walk zero s = ok s
  walk (suc left) s =
      let rest = step s >>= λ next. elim next [ none ↦ ok s | some s' ↦ walk left s' ] in
      if finished zero_for_one s then ok s else rest

abbrev pub max_rounds : ℕ
max_rounds = 1024

-- `unwrap_or(ZERO)`
abbrev pub caught : Swap ℕ → Run ℕ
caught (ok out) = done out
caught err = done 0
caught fault = panic

module _ (m : SwapMath) where
  pub try_swap_src : ℕ → Bool → ℕ → ℤ → ℕ → ℕ → ℕ → TickSource → Swap ℕ
  try_swap_src amount_in zero_for_one sqrt_price_x96 tick liquidity fee_pips tick_spacing src =
      let start : Walk = record {
        amount_remaining = amount_in;
        amount_calculated = 0;
        sqrt_price = sqrt_price_x96;
        tick = tick;
        liquidity = liquidity;
      } in
      if amount_in == 0 then ok 0 else (do
        end ← walk m src zero_for_one fee_pips tick_spacing max_rounds start
        ok (sub256 0 end.amount_calculated))

  unfoldable pub get_amount_out_src : ℕ → Bool → ℕ → ℤ → ℕ → ℕ → ℕ → TickSource → Run ℕ
  get_amount_out_src amount_in zero_for_one sqrt_price_x96 tick liquidity fee_pips tick_spacing
        src =
      caught (
        try_swap_src amount_in zero_for_one sqrt_price_x96 tick liquidity fee_pips tick_spacing src)
