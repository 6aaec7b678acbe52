-- ===== src/Cli/Speed.antt =====
-- src/muld_cli_async.cpp: ParseSpeedLimit. `double` and `long double` are two types of numbers with
-- their operations; `stod` is the library's, on digits with at most one dot, none where it throws.
use muld.Prelude.{
  ℕ, suc, ◌+◌, ◌-◌, ◌*◌, ◌^◌, ◌≡◌, refl, ap, ◌∙◌, Bool, true, false, not, ◌&&◌, ◌||◌, Option, none,
  some, List, [], ◌∷◌, ◌++◌, length, take, drop, map, if◌then◌else◌, ltb, leb, ◌==◌, eq_bytes,
  is_empty, arith,
}
use muld.Prelude.Bytes.{Bytes, codes, u64_mod}
use muld.Prelude.Decimal.{is_digit, is_space}
use muld.Prelude.Floats.{Floats}
pub mod Spelling

abbrev pub to_upper : ℕ → ℕ
to_upper c = if leb b'a' c && leb c b'z' then c - 32 else c

-- The text without space, in capitals.
unfoldable pub normalise : Bytes → Bytes
normalise [] = []
normalise (c ∷ cs) = let rest = normalise cs in if is_space c then rest else to_upper c ∷ rest

-- The digits with at most one dot that the text begins with, and what is behind.
unfoldable pub split_number : Bool → Bytes → Bytes × Bytes
split_number dot_seen [] = ([], [])
split_number dot_seen (c ∷ cs) =
    let more = split_number (dot_seen || c == b'.') cs in
    if is_digit c || (c == b'.' && not dot_seen) then (c ∷ more.0, more.1) else ([], c ∷ cs)

-- The unit without "/S", and without "PS".
unfoldable pub trim_unit : Bytes → Bytes
trim_unit unit =
    if eq_bytes without (codes "PS")
    then []
    else if eq_bytes without (codes "BPS")
    then codes "B"
    else without
  where
    without : Bytes
    without =
        if leb 2 (length unit) && eq_bytes (drop (length unit - 2) unit) (codes "/S")
        then take (length unit - 2) unit
        else unit

abbrev pub is_one_of : Bytes → Bytes → Bytes → Bytes → Bytes → Bool
is_one_of unit a b c d = eq_bytes unit a || eq_bytes unit b || eq_bytes unit c || eq_bytes unit d

unfoldable pub multiplier : Bytes → Option ℕ
multiplier unit =
    if is_empty unit || eq_bytes unit (codes "B")
    then some 1
    else if is_one_of unit (codes "K") (codes "KB") (codes "KI") (codes "KIB")
    then some 1024
    else if is_one_of unit (codes "M") (codes "MB") (codes "MI") (codes "MIB")
    then some (1024 * 1024)
    else if is_one_of unit (codes "G") (codes "GB") (codes "GI") (codes "GIB")
    then some (1024 * 1024 * 1024)
    else if is_one_of unit (codes "T") (codes "TB") (codes "TI") (codes "TIB")
    then some (1024 * 1024 * 1024 * 1024)
    else none

module _ (D L : Floats) (stod : Bytes → Option D.F) (is_finite : D.F → Bool)
    (widen : D.F → L.F) where
  abbrev pub scaled : D.F → Option ℕ → Option ℕ
  scaled value none = none
  scaled value (some factor) =
      let product = L.mul (widen value) (L.ratio factor 1) in
      if L.ltb product (L.ratio 0 1) || L.ltb (L.ratio (u64_mod - 1) 1) product
      then none
      else some (L.truncate product)

  abbrev pub with_value : Bytes → Option D.F → Option ℕ
  with_value unit none = none
  with_value unit (some value) =
      if not (is_finite value) || D.ltb value (D.ratio 0 1)
      then none
      else scaled value (multiplier (trim_unit unit))

  abbrev pub with_parts : Bytes × Bytes → Option ℕ
  with_parts (number, unit) = if is_empty number then none else with_value unit (stod number)

  -- `ParseSpeedLimit`: the limit, or none for `false`.
  unfoldable pub parse_speed_limit : Bytes → Option ℕ
  parse_speed_limit input = with_parts (split_number false (normalise input))
