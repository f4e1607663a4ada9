-- ===== src/Base/Int.antt =====
-- Signed integers over the native numbers. Proofs go by their two parts, which `omega` reads.
use robinarb.Base.{
  ℕ, zero, suc, ◌+◌, ◌-◌, ◌*◌, ◌/◌, ◌%◌, ◌^◌, ◌≤◌, ◌<◌, ◌≡◌, Bool, true, arith, ltb, leb, ◌==◌,
  if◌then◌else◌,
}

-- `negsuc n` is -(n + 1).
pub data ℤ : Type 0 where
  pos : ℕ → ℤ
  negsuc : ℕ → ℤ

abbrev pub pos_part : ℤ → ℕ
pos_part (pos n) = n
pos_part (negsuc n) = 0

abbrev pub neg_part : ℤ → ℕ
neg_part (pos n) = 0
neg_part (negsuc n) = suc n

-- a - b, as an integer.
abbrev pub sub_ℕ : ℕ → ℕ → ℤ
sub_ℕ a b = if leb b a then pos (a - b) else negsuc (b - a - 1)

infixl 65 ◌+ℤ◌ ◌-ℤ◌
infixl 70 ◌*ℤ◌
infix 50 ◌≤ℤ◌ ◌<ℤ◌
unfoldable pub ◌+ℤ◌ : ℤ → ℤ → ℤ
a +ℤ b = sub_ℕ (pos_part a + pos_part b) (neg_part a + neg_part b)

unfoldable pub ◌-ℤ◌ : ℤ → ℤ → ℤ
a -ℤ b = sub_ℕ (pos_part a + neg_part b) (neg_part a + pos_part b)

unfoldable pub ◌*ℤ◌ : ℤ → ℤ → ℤ
a *ℤ b =
    sub_ℕ (pos_part a * pos_part b + neg_part a * neg_part b)
      (pos_part a * neg_part b + neg_part a * pos_part b)

abbrev pub neg : ℤ → ℤ
neg a = sub_ℕ (neg_part a) (pos_part a)

abbrev pub ◌≤ℤ◌ : ℤ → ℤ → Type 0
a ≤ℤ b = pos_part a + neg_part b ≤ pos_part b + neg_part a

abbrev pub ◌<ℤ◌ : ℤ → ℤ → Type 0
a <ℤ b = pos_part a + neg_part b < pos_part b + neg_part a

abbrev pub ltb_ℤ : ℤ → ℤ → Bool
ltb_ℤ a b = ltb (pos_part a + neg_part b) (pos_part b + neg_part a)

abbrev pub eqb_ℤ : ℤ → ℤ → Bool
eqb_ℤ a b = (pos_part a + neg_part b) == (pos_part b + neg_part a)

-- `x.clamp(lo, hi)`
abbrev pub clamp_ℤ : ℤ → ℤ → ℤ → ℤ
clamp_ℤ x lo hi = if ltb_ℤ x lo then lo else if ltb_ℤ hi x then hi else x

-- Rust's `/` and `%` by a positive number: towards zero, and with the sign of the dividend.
abbrev pub quot : ℤ → ℕ → ℤ
quot (pos n) k = pos (n / k)
quot (negsuc n) k = neg (pos (suc n / k))

abbrev pub rem : ℤ → ℕ → ℤ
rem (pos n) k = pos (n % k)
rem (negsuc n) k = neg (pos (suc n % k))

-- Division towards minus infinity, and its remainder: `>> 8` and `& 0xff` at 256.
abbrev pub floor_div : ℤ → ℕ → ℤ
floor_div (pos n) k = pos (n / k)
floor_div (negsuc n) k = negsuc (n / k)

abbrev pub floor_mod : ℤ → ℕ → ℕ
floor_mod (pos n) k = n % k
floor_mod (negsuc n) k = k - 1 - n % k

-- `as i16` of an `i32`.
abbrev pub as_i16 : ℤ → ℤ
as_i16 z = let w = floor_mod z (2 ^ 16) in if ltb w (2 ^ 15) then pos w else sub_ℕ w (2 ^ 16)

-- The two's complement bits of a signed word of 32 or 128 bits, read as a number.
abbrev pub signed32 : ℕ → ℤ
signed32 w = if ltb w (2 ^ 31) then pos w else sub_ℕ w (2 ^ 32)

abbrev pub signed128 : ℕ → ℤ
signed128 w = if ltb w (2 ^ 127) then pos w else sub_ℕ w (2 ^ 128)

pub +ℤ_parts :
    (a b : ℤ)
    → pos_part (a +ℤ b) + neg_part a + neg_part b ≡ neg_part (a +ℤ b) + pos_part a + pos_part b
unfolding ◌+ℤ◌
+ℤ_parts a b = ground arith

pub -ℤ_parts :
    (a b : ℤ)
    → pos_part (a -ℤ b) + neg_part a + pos_part b ≡ neg_part (a -ℤ b) + pos_part a + neg_part b
unfolding ◌-ℤ◌
-ℤ_parts a b = ground arith

pub eq_of_parts : (a b : ℤ) → pos_part a + neg_part b ≡ pos_part b + neg_part a → a ≡ b
eq_of_parts a b h = ground arith

pub ruleset int_laws = (arith, +ℤ_parts, -ℤ_parts, eq_of_parts)

-- A value in the range of i16 is kept by the cast.
pub as_i16_exact : (z : ℤ) → negsuc 32_767 ≤ℤ z → z ≤ℤ pos 32_767 → as_i16 z ≡ z
as_i16_exact (pos n) lo hi = ground arith
as_i16_exact (negsuc n) lo hi = ground arith

-- The quotient and the remainder make up the number, and the remainder is in range.
pub floor_div-floor_mod :
    (z : ℤ) (k : ℕ) → 0 < k → floor_div z k *ℤ pos k +ℤ pos (floor_mod z k) ≡ z
unfolding ◌+ℤ◌ ◌*ℤ◌
floor_div-floor_mod (pos n) k h = ground arith
floor_div-floor_mod (negsuc n) k h = ground arith

pub floor_mod-lt : (z : ℤ) (k : ℕ) → 0 < k → floor_mod z k < k
floor_mod-lt (pos n) k h = omega arith
floor_mod-lt (negsuc n) k h = omega arith

pub eqb_ℤ-eq : (a b : ℤ) → eqb_ℤ a b ≡ true → a ≡ b
eqb_ℤ-eq (pos a) (pos b) h = ground arith
eqb_ℤ-eq (pos a) (negsuc b) h = absurd (ground arith)
eqb_ℤ-eq (negsuc a) (pos b) h = absurd (ground arith)
eqb_ℤ-eq (negsuc a) (negsuc b) h = ground arith
