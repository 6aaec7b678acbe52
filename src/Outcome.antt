-- ===== src/Outcome.antt =====
-- How a call of a method ends: it returns, it throws a C++ exception, or it reads through a null
-- pointer, which is undefined.
use muld.Prelude.{◌≡◌, refl, Option, none, some}

pub data Outcome (A : Type 0) : Type 0 where
  returns : A → Outcome A
  throws : Outcome A
  null_pointer : Outcome A

infixl 5 ◌>>=◌
abbrev pub ◌>>=◌ : {A B : Type 0} → Outcome A → (A → Outcome B) → Outcome B
returns a >>= f = f a
throws >>= f = throws
null_pointer >>= f = null_pointer

abbrev pub or_throw : {A : Type 0} → Option A → Outcome A
or_throw none = throws
or_throw (some a) = returns a

abbrev pub or_null : {A : Type 0} → Option A → Outcome A
or_null none = null_pointer
or_null (some a) = returns a

-- The value of a call that returned.
pub >>=-eq-returns :
    {A B : Type 0} (m : Outcome A) (f : A → Outcome B) (b : B)
    → (m >>= f) ≡ returns b
    → (a : A) × (m ≡ returns a) × (f a ≡ returns b)
>>=-eq-returns (returns a) f b h = (a, refl, h)
>>=-eq-returns throws f b h = absurd (cc)
>>=-eq-returns null_pointer f b h = absurd (cc)

pub returns-eq : {A : Type 0} (a b : A) → returns a ≡ returns b → a ≡ b
returns-eq a b h = cc

pub or_throw-eq-returns : {A : Type 0} (o : Option A) (a : A) → or_throw o ≡ returns a → o ≡ some a
or_throw-eq-returns none a h = absurd (cc)
or_throw-eq-returns (some b) a h = cc
