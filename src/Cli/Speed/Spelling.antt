-- ===== src/Cli/Speed/Spelling.antt =====
-- How a speed limit may be spelled.
use muld.Prelude.{
  ℕ, zero, suc, ◌+◌, ◌%◌, ◌/◌, ◌≡◌, ◌≤◌, refl, ap, ◌∙◌, Bool, true, false, not, ◌&&◌, ◌||◌, Option,
  some, [], ◌∷◌, ◌++◌, All, if_both, if_true, if_false, ltb, ◌==◌, is_empty, arith, Bool-cases, inl,
  inr,
}
use muld.Prelude.Bytes.{Bytes}
use muld.Prelude.Decimal.{decimal, digits, is_digit, is_space}
use muld.Prelude.Floats.{Floats}
use muld.Cli.Speed.{
  to_upper, normalise, split_number, trim_unit, multiplier, scaled, with_value, with_parts,
  parse_speed_limit,
}

abbrev AllDigits : Bytes → Type 0
AllDigits = All (λ c. is_digit c ≡ true)

All-append : (s t : Bytes) → AllDigits s → AllDigits t → AllDigits (s ++ t)
All-append [] t p q = q
All-append (c ∷ s) t p q = (p.0, All-append s t p.1 q)

digits-AllDigits : (fuel n : ℕ) → n ≤ fuel → AllDigits (digits fuel n)
unfolding digits
digits-AllDigits zero n h = (ground arith, tt)
digits-AllDigits (suc fuel) n h = elim (Bool-cases (ltb n 10)) [
  | inl one ↦ rw one (ground arith, tt)
  | inr more ↦ rw more (
      All-append (digits fuel (n / 10)) ((48 + n % 10) ∷ [])
        (digits-AllDigits fuel (n / 10) (ground arith)) (ground arith, tt))
]

-- Digits are left as they are, and are not a unit.
normalise-digits : (s t : Bytes) → AllDigits s → normalise (s ++ t) ≡ s ++ normalise t
unfolding normalise
normalise-digits [] t h = refl
normalise-digits (c ∷ s) t h =
    if_false (is_space c) _ _ (ground arith)
    ∙ ap (λ x. x ∷ normalise (s ++ t)) (ground arith)
    ∙ ap (λ r. c ∷ r) (normalise-digits s t h.1)

-- A text that no number begins.
abbrev pub IsUnit : Bytes → Type 0
IsUnit [] = Unit
IsUnit (c ∷ cs) = (is_digit c ≡ false) × ((c == b'.') ≡ false)

split_number-unit : (unit : Bytes) → IsUnit unit → split_number false unit ≡ ([], unit)
unfolding split_number
split_number-unit [] h = refl
split_number-unit (c ∷ cs) h = if_false (is_digit c || (c == b'.' && true)) _ _ (ground arith)

split_number-digits :
    (s unit : Bytes) → AllDigits s → IsUnit unit → split_number false (s ++ unit) ≡ (s, unit)
unfolding split_number
split_number-digits [] unit h u = split_number-unit unit u
split_number-digits (c ∷ s) unit h u =
    let no_dot : (c == b'.') ≡ false = ground arith in
    if_true (is_digit c || (c == b'.' && true)) _ _ (ground arith)
    ∙ ap (λ b. let more = split_number b (s ++ unit) in (c ∷ more.0, more.1)) no_dot
    ∙ ap (λ more. (c ∷ more.0, more.1)) (split_number-digits s unit h.1 u)

normalise-normalise : (s : Bytes) → normalise (normalise s) ≡ normalise s
unfolding normalise
normalise-normalise [] = refl
normalise-normalise (c ∷ s) = elim (Bool-cases (is_space c)) [
  | inl blank ↦ rw blank (normalise-normalise s)
  | inr solid ↦ rw solid (
      if_false (is_space (to_upper c)) _ _ (ground arith)
      ∙ ap (λ x. x ∷ normalise (normalise s)) (ground arith)
      ∙ ap (λ r. to_upper c ∷ r) (normalise-normalise s))
]

append_one : (s : Bytes) (c : ℕ) → is_empty (s ++ c ∷ []) ≡ false
append_one [] c = refl
append_one (x ∷ s) c = refl

digits-nonempty : (fuel n : ℕ) → is_empty (digits fuel n) ≡ false
unfolding digits
digits-nonempty zero n = refl
digits-nonempty (suc fuel) n =
    if_both (λ (s : Bytes). is_empty s ≡ false) (ltb n 10) _ _ refl
      (append_one (digits fuel (n / 10)) (48 + n % 10))

module _ (D L : Floats) (stod : Bytes → Option D.F) (is_finite : D.F → Bool)
    (widen : D.F → L.F) where
  -- Space and the case of letters do not matter in a speed limit. A whole number and a unit behind it,
  -- however written, is the number times the unit's factor, cut off to a whole number, where `stod` reads
  -- the digits as a finite number that is not negative and the product is a 64-bit number; and it is
  -- refused where there is no such unit.
  pub parse_speed_limit_lem :
      (n : ℕ) (unit input : Bytes) (value : D.F)
      → IsUnit (normalise unit)
      → stod (decimal n) ≡ some value
      → is_finite value ≡ true
      → D.ltb value (D.ratio 0 1) ≡ false
      → (parse_speed_limit D L stod is_finite widen (normalise input)
          ≡ parse_speed_limit D L stod is_finite widen input)
        × (parse_speed_limit D L stod is_finite widen (decimal n ++ unit)
            ≡ scaled D L stod is_finite widen value (multiplier (trim_unit (normalise unit))))
  unfolding parse_speed_limit decimal
  parse_speed_limit_lem n unit input value u read finite positive =
      let all = digits-AllDigits n n (omega arith) in
      (
        ap (λ t. with_parts D L stod is_finite widen (split_number false t))
            (normalise-normalise input),
        ap (λ t. with_parts D L stod is_finite widen (split_number false t))
              (normalise-digits (decimal n) unit all)
            ∙ ap (with_parts D L stod is_finite widen)
                (split_number-digits (decimal n) (normalise unit) all u)
            ∙ if_false (is_empty (decimal n)) _ _ (digits-nonempty n n)
            ∙ ap (with_value D L stod is_finite widen (normalise unit)) read
            ∙ if_false (not (is_finite value) || D.ltb value (D.ratio 0 1)) _ _ (ground arith),
      )
