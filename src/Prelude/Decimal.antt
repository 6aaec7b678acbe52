-- ===== src/Prelude/Decimal.antt =====
-- Numbers as decimal text: what `std::to_string` prints, and reading it back.
use Prim.Native.Nat.{ℕ, zero, suc, ◌+◌, ◌-◌, ◌*◌, ◌/◌, ◌%◌, ◌≤◌}
use mathlib.Core.Path.{◌≡◌, refl, sym, ap, ◌∙◌}
use mathlib.Core.Logic.{inl, inr}
use mathlib.Core.Bool.{Bool, true, false, ◌&&◌, ◌||◌}
use mathlib.Core.List.{[], ◌∷◌, ◌++◌, append_assoc, append-nil}
use mathlib.Core.Option.{Option, none, some}
use native.Mathlib.Omega.{arith}
use muld.Prelude.Tests.{ltb, leb, ◌==◌, if◌then◌else◌, Bool-cases}
use muld.Prelude.Bytes.{Bytes}

-- The last digit, behind those of the rest of the number; `fuel` is at least the number.
unfoldable pub digits : ℕ → ℕ → Bytes
digits zero n = (48 + n) ∷ []
digits (suc fuel) n =
    let front = digits fuel (n / 10) in
    if ltb n 10 then (48 + n) ∷ [] else front ++ (48 + n % 10) ∷ []

-- `std::to_string` of an unsigned number.
unfoldable pub decimal : ℕ → Bytes
decimal n = digits n n

-- `isdigit`.
abbrev pub is_digit : ℕ → Bool
is_digit c = leb b'0' c && leb c b'9'

-- The number that a text begins with, continued from a value, and the text behind it.
unfoldable pub scan : ℕ → Bytes → ℕ × Bytes
scan value [] = (value, [])
scan value (c ∷ cs) =
    let more = scan (value * 10 + (c - 48)) cs in if is_digit c then more else (value, c ∷ cs)

scan-digit :
    (value d : ℕ) (rest : Bytes) → d ≤ 9 → scan value ((48 + d) ∷ rest) ≡ scan (value * 10 + d) rest
unfolding scan
scan-digit value d rest small =
    let test : is_digit (48 + d) ≡ true = ground arith in
    rw test (ap (λ n. scan n rest) (omega arith))

scan-digits : (fuel n : ℕ) (rest : Bytes) → n ≤ fuel → scan 0 (digits fuel n ++ rest) ≡ scan n rest
unfolding digits
scan-digits zero n rest h = scan-digit 0 n rest (omega arith) ∙ ap (λ m. scan m rest) (omega arith)
scan-digits (suc fuel) n rest h = elim (Bool-cases (ltb n 10)) [
  | inl one ↦ rw one (scan-digit 0 n rest (ground arith) ∙ ap (λ m. scan m rest) (omega arith))
  | inr more ↦ rw more (
      ap (scan 0) (append_assoc (digits fuel (n / 10)) ((48 + n % 10) ∷ []) rest)
      ∙ scan-digits fuel (n / 10) ((48 + n % 10) ∷ rest) (ground arith)
      ∙ scan-digit (n / 10) (n % 10) rest (omega arith)
      ∙ ap (λ m. scan m rest) (omega arith))
]

-- A printed number is read back, and what stands behind it is left for the next reading.
pub scan-decimal : (n : ℕ) (rest : Bytes) → scan 0 (decimal n ++ rest) ≡ scan n rest
unfolding decimal
scan-decimal n rest = scan-digits n n rest (omega arith)

-- `isspace` in the C locale.
abbrev pub is_space : ℕ → Bool
is_space c = c == 32 || (leb 9 c && leb c 13)

unfoldable pub skip_space : Bytes → Bytes
skip_space [] = []
skip_space (c ∷ cs) = let rest = skip_space cs in if is_space c then rest else c ∷ cs

-- What `std::stoull` and `std::stoi` read: space, a sign, digits. None if there is no digit; what
-- stands behind the digits is not read. The sign is true for a minus.
abbrev read_number : Bool → Bytes → Option (Bool × ℕ)
read_number minus [] = none
read_number minus (c ∷ cs) = if is_digit c then some (minus, (scan 0 (c ∷ cs)).0) else none

abbrev read_sign : Bytes → Option (Bool × ℕ)
read_sign [] = none
read_sign (c ∷ cs) =
    if c == b'-'
    then read_number true cs
    else if c == b'+'
    then read_number false cs
    else read_number false (c ∷ cs)

unfoldable pub signed_number : Bytes → Option (Bool × ℕ)
signed_number text = read_sign (skip_space text)

digits-first :
    (fuel n : ℕ)
    → n ≤ fuel
    → (c : ℕ) × (cs : Bytes) × (digits fuel n ≡ c ∷ cs) × (is_digit c ≡ true)
unfolding digits
digits-first zero n h = (48 + n, [], refl, ground arith)
digits-first (suc fuel) n h = elim (Bool-cases (ltb n 10)) [
  | inl one ↦ rw one (48 + n, [], refl, ground arith)
  | inr more ↦
      let (c, cs, e, d) = digits-first fuel (n / 10) (ground arith) in
      rw more (c, cs ++ (48 + n % 10) ∷ [], ap (λ t. t ++ (48 + n % 10) ∷ []) e, d)
]

signed_number-digit :
    (c : ℕ) (cs : Bytes)
    → is_digit c ≡ true
    → signed_number (c ∷ cs) ≡ some (false, (scan 0 (c ∷ cs)).0)
unfolding signed_number skip_space
signed_number-digit c cs d =
    let no_space : is_space c ≡ false = ground arith in
    let no_minus : (c == b'-') ≡ false = ground arith in
    let no_plus : (c == b'+') ≡ false = ground arith in
    rw no_space (rw no_minus (rw no_plus (rw d refl)))

-- What is printed is read as a number without a sign.
pub signed_number-decimal : (n : ℕ) → signed_number (decimal n) ≡ some (false, n)
unfolding decimal
signed_number-decimal n =
    let (c, cs, e, d) = digits-first n n (omega arith) in
    let whole : scan 0 (digits n n) ≡ scan n [] =
      ap (scan 0) (sym (append-nil (digits n n))) ∙ scan-decimal n [] in
    ap signed_number e
    ∙ signed_number-digit c cs d
    ∙ ap (λ t. some (false, (scan 0 t).0)) (sym e)
    ∙ ap (λ r. some (false, r.0)) (whole ∙ scan-nil n)
  where
    scan-nil : (n : ℕ) → scan n [] ≡ (n, [])
    scan-nil n = unfold scan in refl
