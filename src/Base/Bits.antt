-- ===== src/Base/Bits.antt =====
-- `&` with a mask of low or of high bits, `|` of disjoint fields, and single bits, as arithmetic at
-- every width.
use Prim.Native.Nat.{digits, bitwise, bit_and, bit_or, bit_and-bitwise, bit_or-bitwise}
use native.Mathlib.Nat.{
  pow-suc, one-le-pow, div-div-eq-div-mul, div-lt_iff_lt-mul, pow-le-pow_right, mod-mod_of_dvd,
  mul-add-mod_self_left, mod-eq_of_lt, div-add-mod, mul-div_cancel, div-eq_of_lt, div-eq_of_lt-le,
  mod-lt, pow-succ', dvd-mul_right,
}
use robinarb.Base.{
  ℕ, zero, suc, ◌+◌, ◌-◌, ◌*◌, ◌/◌, ◌%◌, ◌^◌, ◌≤◌, ◌<◌, min, max, ◌≡◌, refl, sym, ◌∙◌, ap, arith,
}

-- `bitwise z op` runs `digits` with its first number as fuel; any fuel from that on will do.
module _ (z : ℕ → ℕ) (op : ℕ → ℕ → ℕ) where
  any_fuel : (x y k l : ℕ) → x ≤ k → x ≤ l → digits z op k x y ≡ digits z op l x y
  any_fuel zero y zero zero hk hl = refl
  any_fuel zero y (suc k) zero hk hl = refl
  any_fuel zero y zero (suc l) hk hl = refl
  any_fuel zero y (suc k) (suc l) hk hl = refl
  any_fuel (suc x) y zero l hk hl = absurd (omega arith)
  any_fuel (suc x) y (suc k) zero hk hl = absurd (omega arith)
  any_fuel (suc x) y (suc k) (suc l) hk hl =
      let shorter = any_fuel (suc x / 2) (y / 2) k l (omega arith) (omega arith) in rw shorter

  lowest_digit :
      (x y : ℕ)
      → bitwise z op (suc x) y ≡ op (suc x % 2) (y % 2) + bitwise z op (suc x / 2) (y / 2) * 2
  lowest_digit x y =
      let half = suc x / 2 in
      let refuel = any_fuel half (y / 2) x half (omega arith) (omega arith) in omega (arith, refuel)

pub bit_or_step : (x y : ℕ) → bit_or x y ≡ max (x % 2) (y % 2) + bit_or (x / 2) (y / 2) * 2
bit_or_step zero y = simp bit_or-bitwise (omega arith)
bit_or_step (suc x) y = simp bit_or-bitwise (lowest_digit (λ r. r) max x y)

pub bit_and_step : (x y : ℕ) → bit_and x y ≡ min (x % 2) (y % 2) + bit_and (x / 2) (y / 2) * 2
bit_and_step zero y = simp bit_and-bitwise (omega arith)
bit_and_step (suc x) y = simp bit_and-bitwise (lowest_digit (λ r. 0) min x y)

bit_and-zero : (n a : ℕ) → a ≤ n → bit_and a 0 ≡ 0
bit_and-zero n zero h = refl
bit_and-zero zero (suc a) h = absurd (omega arith)
bit_and-zero (suc n) (suc a) h =
    omega (arith, bit_and_step (suc a) 0, bit_and-zero n (suc a / 2) (omega arith))

zero-bit_or : (b : ℕ) → bit_or 0 b ≡ b
zero-bit_or b = simp bit_or-bitwise

mul-two-pow-suc : (n m : ℕ) → n * 2 ^ suc m ≡ 2 * (n * 2 ^ m)
mul-two-pow-suc n m = let twice = pow-suc 2 m in rw twice (omega arith)

-- The low `m` bits of a number whose higher bits are `high`.
low_bits : (m high low : ℕ) → low < 2 ^ m → bit_and (high * 2 ^ m + low) (2 ^ m - 1) ≡ low
low_bits zero high low small = ground (arith, bit_and-zero (high * 1) (high * 1))
low_bits (suc m) high low small =
    let rest = low_bits m high (low / 2) (omega (arith, pow-suc 2 m)) in
    let digit = bit_and_step (high * 2 ^ suc m + low) (2 ^ suc m - 1) in
    ground (arith, digit, rest, pow-suc 2 m, mul-two-pow-suc high m)

-- `a & ((1 << k) - 1)`
pub bit_and_mask : (k a : ℕ) → bit_and a (2 ^ k - 1) ≡ a % 2 ^ k
bit_and_mask k a =
    let cut = low_bits k (a / 2 ^ k) (a % 2 ^ k) in ground (arith, cut, one-le-pow k 2)

pub two-pow-add : (i j : ℕ) → 2 ^ (i + j) ≡ 2 ^ i * 2 ^ j
two-pow-add zero j = let e : zero + j ≡ j = omega arith in rw e (omega arith)
two-pow-add (suc i) j =
    let e : suc i + j ≡ suc (i + j) = omega arith in
    rw e
      (omega (arith, pow-suc 2 (i + j), two-pow-add i j, ap (λ (t : ℕ). t * 2 ^ j) (pow-suc 2 i)))

-- The power `2 ^ k` is positive.
pub two-pow-pos : (k : ℕ) → 0 < 2 ^ k
two-pow-pos k = one-le-pow k 2 (omega arith)

bit_and_shifted : (k m a : ℕ) → bit_and a ((2 ^ m - 1) * 2 ^ k) ≡ a / 2 ^ k % 2 ^ m * 2 ^ k
bit_and_shifted zero m a =
    let mask : (2 ^ m - 1) * 2 ^ 0 ≡ 2 ^ m - 1 = omega arith in
    let whole : a / 2 ^ 0 ≡ a = omega arith in rw (mask, whole, bit_and_mask m a) (omega arith)
bit_and_shifted (suc k) m a =
    let even : (2 ^ m - 1) * 2 ^ suc k ≡ 2 * ((2 ^ m - 1) * 2 ^ k) =
      mul-two-pow-suc (2 ^ m - 1) k in
    let halved : a / 2 ^ suc k ≡ a / 2 / 2 ^ k =
      rw (pow-succ' 2 k) (sym (div-div-eq-div-mul a 2 (2 ^ k))) in
    let half : 2 * ((2 ^ m - 1) * 2 ^ k) / 2 ≡ (2 ^ m - 1) * 2 ^ k = omega arith in
    rw (even, halved)
      (omega (
        arith,
        bit_and_step a (2 * ((2 ^ m - 1) * 2 ^ k)),
        ap (bit_and (a / 2)) half,
        bit_and_shifted k m (a / 2),
        mul-two-pow-suc (a / 2 / 2 ^ k % 2 ^ m) k,
      ))

pred-mul : (x y : ℕ) → 0 < x → (x - 1) * y + y ≡ x * y
pred-mul x y h = let e : x ≡ (x - 1) + 1 = omega arith in omega (arith, ap (λ (t : ℕ). t * y) e)

-- `a & !((1 << k) - 1)` on a word of 256 bits
pub bit_and_high_mask :
    (k a : ℕ) → k ≤ 256 → a < 2 ^ 256 → bit_and a (2 ^ 256 - 2 ^ k) ≡ a / 2 ^ k * 2 ^ k
bit_and_high_mask k a h fits =
    let m = 256 - k in
    let whole : 2 ^ m * 2 ^ k ≡ 2 ^ 256 =
      sym (two-pow-add m k) ∙ ap (λ (t : ℕ). 2 ^ t) {x = m + k} {y = 256} (omega arith) in
    let mask : 2 ^ 256 - 2 ^ k ≡ (2 ^ m - 1) * 2 ^ k =
      omega (arith, whole, pred-mul (2 ^ m) (2 ^ k) (two-pow-pos m)) in
    rw (
      mask,
      bit_and_shifted k m a,
      mod-eq_of_lt {n = a / 2 ^ k} {m = 2 ^ m}
          ((div-lt_iff_lt-mul (two-pow-pos k)).1 (omega (arith, whole))),
    )

-- `a & (1 << k)`
pub bit_and_bit : (k a : ℕ) → bit_and a (2 ^ k) ≡ a / 2 ^ k % 2 * 2 ^ k
bit_and_bit k a =
    let one : (2 ^ 1 - 1) * 2 ^ k ≡ 2 ^ k = omega arith in rw one at (bit_and_shifted k 1 a)

-- `r | (q << k)` is a sum when `r` fits `k` bits.
pub bit_or_fields : (k q r : ℕ) → r < 2 ^ k → bit_or r (q * 2 ^ k) ≡ r + q * 2 ^ k
bit_or_fields zero q zero fits = rw zero-bit_or (omega arith)
bit_or_fields zero q (suc r) fits = absurd (omega arith)
bit_or_fields (suc k) q r fits = ground (
  arith,
  bit_or_step r (q * 2 ^ suc k),
  mul-two-pow-suc q k,
  pow-suc 2 k,
  bit_or_fields k q (r / 2) (omega (arith, pow-suc 2 k)),
)

half-mod : (w p : ℕ) → 0 < p → w % (2 * p) / 2 ≡ w / 2 % p
half-mod w p h =
    let q = w / (2 * p) in
    let r = w % (2 * p) in
    let small : r < 2 * p = mod-lt w (omega arith) in
    let split : w / 2 ≡ p * q + r / 2 = omega (arith, div-add-mod w (2 * p)) in
    rw (split, mul-add-mod_self_left p q (r / 2)) (sym (mod-eq_of_lt (omega arith)))

-- The bit of `w` at place `i`, as 0 or 1.
unfoldable pub bit_at : ℕ → ℕ → ℕ
bit_at w i = w / 2 ^ i % 2

pub bit_at-zero : (w : ℕ) → bit_at w 0 ≡ w % 2
unfolding bit_at
bit_at-zero w = omega arith

pub bit_at-suc : (w i : ℕ) → bit_at w (suc i) ≡ bit_at (w / 2) i
unfolding bit_at
bit_at-suc w i = rw (pow-succ' 2 i, ← div-div-eq-div-mul w 2 (2 ^ i))

pub bit_at-mod : (k i w : ℕ) → i < k → bit_at (w % 2 ^ k) i ≡ bit_at w i
bit_at-mod zero i w h = absurd (omega arith)
bit_at-mod (suc k) zero w h =
    rw (bit_at-zero, bit_at-zero w, pow-succ' 2 k) (mod-mod_of_dvd 2 w (dvd-mul_right 2 (2 ^ k)))
bit_at-mod (suc k) (suc i) w h =
    rw (bit_at-suc, bit_at-suc w i, pow-succ' 2 k, half-mod w (2 ^ k) (two-pow-pos k))
      (bit_at-mod k i (w / 2) (omega arith))

pub bit_at-clear_low : (k i w : ℕ) → k ≤ i → bit_at (w / 2 ^ k * 2 ^ k) i ≡ bit_at w i
unfolding bit_at
bit_at-clear_low k i w h =
    let e : i ≡ k + (i - k) = omega arith in
    let split : 2 ^ i ≡ 2 ^ k * 2 ^ (i - k) = ap (λ (t : ℕ). 2 ^ t) e ∙ two-pow-add k (i - k) in
    rw (
      split,
      ← div-div-eq-div-mul (w / 2 ^ k * 2 ^ k) (2 ^ k) (2 ^ (i - k)),
      mul-div_cancel (w / 2 ^ k) (two-pow-pos k),
      ← div-div-eq-div-mul w (2 ^ k) (2 ^ (i - k)),
    )

-- Above the highest bit of a number all bits are clear.
pub bit_at-lt : (w m i : ℕ) → w < 2 ^ m → m ≤ i → bit_at w i ≡ 0
unfolding bit_at
bit_at-lt w m i h k =
    let grown : 2 ^ m ≤ 2 ^ i = pow-le-pow_right (omega arith) k in
    rw (div-eq_of_lt {n = w} {m = 2 ^ i} (omega arith)) (omega arith)

pub bit_at-top : (w m : ℕ) → 2 ^ m ≤ w → w < 2 ^ suc m → bit_at w m ≡ 1
unfolding bit_at
bit_at-top w m h k =
    rw (div-eq_of_lt-le {k = 1} (2 ^ m) {m = w} (omega arith) (omega (arith, pow-suc 2 m)))
      (omega arith)
