-- ===== src/Base/Word.antt =====
-- Machine words as native numbers with their wrap-around written out. The `+ - *` of U256 wrap in
-- every build, its `/` panics at zero, and the `-` on u32 wraps in a release build (the profile sets
-- no overflow checks).
use robinarb.Base.{ℕ, ◌+◌, ◌-◌, ◌*◌, ◌/◌, ◌%◌, ◌^◌, ◌≤◌, ◌<◌, ◌≡◌, refl, arith, ◌==◌, if◌then◌else◌}

-- `panic` ends the thread.
pub data Run {ℓ} (A : Type ℓ) : Type ℓ where
  done : A → Run A
  panic : Run A

infixl 5 ◌>>=◌
abbrev pub ◌>>=◌ {ℓ κ} : {A : Type ℓ} {B : Type κ} → Run A → (A → Run B) → Run B
done a >>= f = f a
panic >>= f = panic

unfoldable pub add256 : ℕ → ℕ → ℕ
add256 a b = (a + b) % 2 ^ 256

unfoldable pub sub256 : ℕ → ℕ → ℕ
sub256 a b = (a + 2 ^ 256 - b) % 2 ^ 256

unfoldable pub mul256 : ℕ → ℕ → ℕ
mul256 a b = a * b % 2 ^ 256

unfoldable pub div256 : ℕ → ℕ → Run ℕ
div256 a b = if b == 0 then panic else done (a / b)

unfoldable pub sub32 : ℕ → ℕ → ℕ
sub32 a b = (a + 2 ^ 32 - b) % 2 ^ 32

-- Without overflow the operations are the true ones.
pub add256_exact : (a b : ℕ) → a + b < 2 ^ 256 → add256 a b ≡ a + b
unfolding add256
add256_exact a b h = omega arith

pub sub256_exact : (a b : ℕ) → b ≤ a → a < 2 ^ 256 → sub256 a b ≡ a - b
unfolding sub256
sub256_exact a b h k = omega arith

pub mul256_exact : (a b : ℕ) → a * b < 2 ^ 256 → mul256 a b ≡ a * b
unfolding mul256
mul256_exact a b h = omega arith

pub sub32_exact : (a b : ℕ) → b ≤ a → a < 2 ^ 32 → sub32 a b ≡ a - b
unfolding sub32
sub32_exact a b h k = omega arith

pub div256_exact : (a b : ℕ) → 0 < b → div256 a b ≡ done (a / b)
unfolding div256
div256_exact a b h = ground arith

-- A chain that is done was done at each step.
pub >>=-eq-done {ℓ κ} :
    {A : Type ℓ} {B : Type κ} (x : Run A) (f : A → Run B) {b : B}
    → (x >>= f) ≡ done b
    → (a : A) × (x ≡ done a) × (f a ≡ done b)
>>=-eq-done (done a) f h = (a, refl, h)
>>=-eq-done panic f h = cc

pub done-injective {ℓ} : {A : Type ℓ} {a b : A} → done a ≡ done b → a ≡ b
done-injective h = cc
