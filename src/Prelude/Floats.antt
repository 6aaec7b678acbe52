-- ===== src/Prelude/Floats.antt =====
-- The type `double`, whose arithmetic is not the program's: a type with the operations and tests
-- that the code applies. No law is assumed; a theorem that needs one states it.
use Prim.Native.Nat.{ℕ, ◌+◌, ◌-◌, ◌*◌, ◌/◌}
use mathlib.Core.Bool.{Bool}
use muld.Prelude.Tests.{ltb as nat_ltb, leb as nat_leb, ◌==◌, if◌then◌else◌}

pub record Floats : Type 1 where
  pub F : Type 0
  pub add : F → F → F
  pub sub : F → F → F
  pub mul : F → F → F
  pub div : F → F → F
  pub ltb : F → F → Bool
  pub leb : F → F → Bool
  pub eqb : F → F → Bool
  -- The literal or conversion `n / d`.
  pub ratio : ℕ → ℕ → F
  -- `static_cast<size_t>`: the fraction is cut off.
  pub truncate : F → ℕ

module _ (D : Floats) where
  open D use {F, ltb}

  -- `std::max`, `std::min` and `std::clamp` on `double`.
  abbrev pub fmax : F → F → F
  fmax a b = if ltb a b then b else a

  abbrev pub fclamp : F → F → F → F
  fclamp v lo hi = if ltb v lo then lo else if ltb hi v then hi else v

-- Thousandths, cut off at 0: a concrete instance for the tests.
abbrev pub milli : Floats
milli = record {
  F = ℕ;
  add = λ a b. a + b;
  sub = λ a b. a - b;
  mul = λ a b. a * b / 1000;
  div = λ a b. a * 1000 / b;
  ltb = nat_ltb;
  leb = nat_leb;
  eqb = ◌==◌;
  ratio = λ n d. n * 1000 / d;
  truncate = λ a. a / 1000;
}
