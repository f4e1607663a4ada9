-- ===== src/Base/Answer.antt =====
-- `anyhow::Result` of a call that may also panic.
use robinarb.Base.{◌≡◌, refl}
use robinarb.Base.Word.{Run, done, panic}

pub data Answer {ℓ} (A : Type ℓ) : Type ℓ where
  ok : A → Answer A
  err : Answer A
  abort : Answer A

infixl 5 ◌>>=◌
abbrev pub ◌>>=◌ {ℓ κ} : {A : Type ℓ} {B : Type κ} → Answer A → (A → Answer B) → Answer B
ok a >>= f = f a
err >>= f = err
abort >>= f = abort

-- The panics of a computation inside a call.
abbrev pub answer_of {ℓ} : {A : Type ℓ} → Run A → Answer A
answer_of (done a) = ok a
answer_of panic = abort

-- A chain that is `ok` was so at each step.
pub >>=-eq-ok {ℓ κ} :
    {A : Type ℓ} {B : Type κ} (x : Answer A) (f : A → Answer B) {b : B}
    → (x >>= f) ≡ ok b
    → (a : A) × (x ≡ ok a) × (f a ≡ ok b)
>>=-eq-ok (ok a) f h = (a, refl, h)
>>=-eq-ok err f h = cc
>>=-eq-ok abort f h = cc

pub ok-injective {ℓ} : {A : Type ℓ} {a b : A} → ok a ≡ ok b → a ≡ b
ok-injective h = cc
