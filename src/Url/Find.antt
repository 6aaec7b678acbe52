-- ===== src/Url/Find.antt =====
-- Searching a text, as `std::string::find` does.
use muld.Prelude.{
  ℕ, zero, suc, ◌+◌, ◌≡◌, refl, Bool, true, false, ◌&&◌, Option, none, some, [], ◌∷◌, ◌++◌, length,
  All, if◌then◌else◌, ◌==◌, arith,
}
use muld.Prelude.Bytes.{Bytes}

-- `s[i]`, 0 past the end.
abbrev pub char_at : Bytes → ℕ → ℕ
char_at [] i = 0
char_at (c ∷ s) zero = c
char_at (c ∷ s) (suc i) = char_at s i

abbrev pub shift : Option ℕ → Option ℕ
shift none = none
shift (some i) = some (suc i)

-- `s.find(c, pos)`.
unfoldable pub find_char : ℕ → ℕ → Bytes → Option ℕ
find_char c pos [] = none
find_char c zero (b ∷ s) = let rest = find_char c zero s in if b == c then some 0 else shift rest
find_char c (suc pos) (b ∷ s) = shift (find_char c pos s)

unfoldable pub is_prefix : Bytes → Bytes → Bool
is_prefix [] s = true
is_prefix (t ∷ ts) [] = false
is_prefix (t ∷ ts) (b ∷ s) = b == t && is_prefix ts s

-- `s.find(text)` for a text that is not empty.
unfoldable pub find_text : Bytes → Bytes → Option ℕ
find_text text [] = none
find_text text (b ∷ s) =
    let rest = find_text text s in if is_prefix text (b ∷ s) then some 0 else shift rest

-- The byte does not occur.
abbrev pub Lacks : ℕ → Bytes → Type 0
Lacks c = All (λ b. (b == c) ≡ false)

pub find_char-none : (c : ℕ) (s : Bytes) → Lacks c s → find_char c 0 s ≡ none
unfolding find_char
find_char-none c [] h = refl
find_char-none c (b ∷ s) h = ground (arith, find_char-none c s h.1)

pub find_char_first :
    (c : ℕ) (s t : Bytes) → Lacks c s → find_char c 0 (s ++ c ∷ t) ≡ some (length s)
unfolding find_char
find_char_first c [] t h = ground arith
find_char_first c (b ∷ s) t h = ground (arith, find_char_first c s t h.1)

abbrev pub shift_by : ℕ → Option ℕ → Option ℕ
shift_by n none = none
shift_by n (some i) = some (n + i)

shift_zero : (o : Option ℕ) → o ≡ shift_by 0 o
shift_zero none = refl
shift_zero (some i) = ground arith

shift-shift_by : (n : ℕ) (o : Option ℕ) → shift (shift_by n o) ≡ shift_by (suc n) o
shift-shift_by n none = refl
shift-shift_by n (some i) = ground arith

-- A search that begins behind a prefix, and one over a prefix that lacks the byte.
pub find_char_behind :
    (c : ℕ) (s t : Bytes) → find_char c (length s) (s ++ t) ≡ shift_by (length s) (find_char c 0 t)
unfolding find_char
find_char_behind c [] t = shift_zero (find_char c 0 t)
find_char_behind c (b ∷ s) t =
    rw (find_char_behind c s t) (shift-shift_by (length s) (find_char c 0 t))

pub find_char_over :
    (c : ℕ) (s t : Bytes)
    → Lacks c s
    → find_char c 0 (s ++ t) ≡ shift_by (length s) (find_char c 0 t)
unfolding find_char
find_char_over c [] t h = shift_zero (find_char c 0 t)
find_char_over c (b ∷ s) t h =
    rw (h.0, find_char_over c s t h.1) (shift-shift_by (length s) (find_char c 0 t))

pub char_at-append : (s t : Bytes) (c : ℕ) → char_at (s ++ c ∷ t) (length s) ≡ c
char_at-append [] t c = refl
char_at-append (b ∷ s) t c = char_at-append s t c

-- A text that begins with `first` is not found in bytes that lack it.
pub find_text_first :
    (first : ℕ) (text s t : Bytes)
    → Lacks first s
    → find_text (first ∷ text) (s ++ first ∷ (text ++ t)) ≡ some (length s)
unfolding find_text is_prefix
find_text_first first text [] t h = ground (arith, is_prefix-append text t)
  where
    is_prefix-append : (xs ys : Bytes) → is_prefix xs (xs ++ ys) ≡ true
    is_prefix-append [] ys = refl
    is_prefix-append (x ∷ xs) ys = ground (arith, is_prefix-append xs ys)
find_text_first first text (b ∷ s) t h = ground (arith, find_text_first first text s t h.1)
