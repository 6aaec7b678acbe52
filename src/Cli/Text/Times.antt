-- ===== src/Cli/Text/Times.antt =====
-- Times as the tools print them.
use muld.Prelude.{
  ℕ, ◌+◌, ◌*◌, ◌/◌, ◌%◌, ◌≡◌, ◌<◌, refl, sym, ap, ◌∙◌, Option, none, some, [], ◌∷◌, ◌++◌,
  if◌then◌else◌, ltb, ◌==◌, arith, if_both,
}
use mathlib.Core.List.{append-nil}
use muld.Prelude.Bytes.{Bytes}
use muld.Prelude.Decimal.{decimal, scan, scan-decimal}
use muld.Cli.Text.{two_digits, format_time}

-- Reading hours, minutes and seconds between colons, as seconds.
abbrev seconds_of : ℕ → ℕ → ℕ × Bytes → Option ℕ
seconds_of h m (s, []) = some (h * 3600 + m * 60 + s)
seconds_of h m (s, c ∷ cs) = none

abbrev minutes_of : ℕ → ℕ × Bytes → Option ℕ
minutes_of h (m, []) = none
minutes_of h (m, c ∷ cs) = if c == b':' then seconds_of h m (scan 0 cs) else none

abbrev hours_of : ℕ × Bytes → Option ℕ
hours_of (h, []) = none
hours_of (h, c ∷ cs) = if c == b':' then minutes_of h (scan 0 cs) else none

unfoldable pub read_time : Bytes → Option ℕ
read_time text = hours_of (scan 0 text)

scan-zero : (text : Bytes) → scan 0 (b'0' ∷ text) ≡ scan 0 text
unfolding scan
scan-zero text = refl

scan-two_digits : (n : ℕ) (rest : Bytes) → scan 0 (two_digits n ++ rest) ≡ scan n rest
unfolding two_digits
scan-two_digits n rest =
    if_both (λ t. scan 0 (t ++ rest) ≡ scan n rest) (ltb n 10) _ _
      (scan-zero (decimal n ++ rest) ∙ scan-decimal n rest) (scan-decimal n rest)

scan-colon : (n : ℕ) (cs : Bytes) → scan n (b':' ∷ cs) ≡ (n, b':' ∷ cs)
unfolding scan
scan-colon n cs = refl

scan-nil : (n : ℕ) → scan n [] ≡ (n, [])
unfolding scan
scan-nil n = refl

-- A time that is printed for a whole number of seconds reads back as that number: hours without a
-- bound, and minutes and seconds below sixty.
pub read_time-format_time :
    (s : ℕ) → (read_time (format_time (some s)) ≡ some s) × (s % 3600 / 60 < 60) × (s % 60 < 60)
unfolding read_time format_time
read_time-format_time s =
    let m = s % 3600 / 60 in
    let tail = two_digits m ++ (b':' ∷ two_digits (s % 60)) in
    let last : scan 0 (two_digits (s % 60)) ≡ (s % 60, []) =
      ap (scan 0) (sym (append-nil (two_digits (s % 60))))
      ∙ scan-two_digits (s % 60) []
      ∙ scan-nil (s % 60) in
    (
      ap hours_of (scan-two_digits (s / 3600) (b':' ∷ tail) ∙ scan-colon (s / 3600) tail)
          ∙ ap (minutes_of (s / 3600))
              (scan-two_digits m (b':' ∷ two_digits (s % 60)) ∙ scan-colon m (two_digits (s % 60)))
          ∙ ap (seconds_of (s / 3600) m) last
          ∙ ap some (omega arith),
      omega arith,
      omega arith,
    )
