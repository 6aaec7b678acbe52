-- ===== src/Cli/Text/FileName.antt =====
-- The name of the output file that is taken from an address.
use mathlib.Core.Path.{subst}
use muld.Prelude.{
  ℕ, zero, suc, ◌+◌, ◌-◌, ◌≡◌, ◌≢◌, ◌<◌, refl, sym, Bool, true, false, Option, none, some, [], ◌∷◌,
  length, take, drop, if◌then◌else◌, ◌==◌, arith, if_either,
}
use muld.Prelude.Bytes.{Bytes}
use muld.Url.Find.{find_char, shift, Lacks}
use muld.Cli.Text.{find_last, last_or, cut_at, name_behind, extract_filename}

Lacks-drop : (c n : ℕ) (s : Bytes) → Lacks c s → Lacks c (drop n s)
Lacks-drop c zero s h = h
Lacks-drop c (suc n) [] h = tt
Lacks-drop c (suc n) (x ∷ s) h = Lacks-drop c n s h.1

drop-nonempty : (n : ℕ) (s : Bytes) → n < length s → drop n s ≢ []
drop-nonempty n [] h = absurd (omega arith)
drop-nonempty zero (x ∷ s) h = λ e. absurd (cc)
drop-nonempty (suc n) (x ∷ s) h = drop-nonempty n s (omega arith)

find_char-missing : (c : ℕ) (s : Bytes) → find_char c 0 s ≡ none → Lacks c s
unfolding find_char
find_char-missing c [] h = tt
find_char-missing c (x ∷ s) h = go (x == c) (find_char c 0 s) refl refl h (find_char-missing c s)
  where
    go :
        (b : Bool) (o : Option ℕ)
        → (x == c) ≡ b
        → find_char c 0 s ≡ o
        → (if b then some 0 else shift o) ≡ none
        → (find_char c 0 s ≡ none → Lacks c s)
        → Lacks c (x ∷ s)
    go true o e f k ih = absurd (cc)
    go false none e f k ih = (e, ih f)
    go false (some j) e f k ih = absurd (cc)

-- Before the first occurrence there is none.
find_char-Lacks : (c i : ℕ) (s : Bytes) → find_char c 0 s ≡ some i → Lacks c (take i s)
unfolding find_char
find_char-Lacks c i [] h = absurd (cc)
find_char-Lacks c zero (x ∷ s) h = tt
find_char-Lacks c (suc i) (x ∷ s) h =
    go (x == c) (find_char c 0 s) refl refl h (find_char-Lacks c i s)
  where
    go :
        (b : Bool) (o : Option ℕ)
        → (x == c) ≡ b
        → find_char c 0 s ≡ o
        → (if b then some 0 else shift o) ≡ some (suc i)
        → (find_char c 0 s ≡ some i → Lacks c (take i s))
        → Lacks c (x ∷ take i s)
    go true o e f k ih = absurd (ground arith)
    go false none e f k ih = absurd (cc)
    go false (some j) e f k ih = (e, ih (ground arith))

last_or-none : (b : Bool) (o : Option ℕ) → last_or b o ≡ none → (b ≡ false) × (o ≡ none)
last_or-none true none h = absurd (cc)
last_or-none false none h = (refl, refl)
last_or-none b (some i) h = absurd (cc)

find_last-none : (c : ℕ) (s : Bytes) → find_last c s ≡ none → Lacks c s
unfolding find_last
find_last-none c [] h = tt
find_last-none c (x ∷ s) h =
    let (e, f) = last_or-none (x == c) (find_last c s) h in (e, find_last-none c s f)

-- Behind the last occurrence there is none.
abbrev IsLast : ℕ → ℕ → Bytes → Type 0
IsLast c p s = (p < length s) × Lacks c (drop (p + 1) s)

find_last-IsLast : (c p : ℕ) (s : Bytes) → find_last c s ≡ some p → IsLast c p s
unfolding find_last
find_last-IsLast c p [] h = absurd (cc)
find_last-IsLast c p (x ∷ s) h = go (x == c) (find_last c s) refl h (λ q. find_last-IsLast c q s)
  where
    go :
        (b : Bool) (o : Option ℕ)
        → find_last c s ≡ o
        → last_or b o ≡ some p
        → ((q : ℕ) → find_last c s ≡ some q → IsLast c q s)
        → IsLast c p (x ∷ s)
    go b (some q) f k ih =
        let same : suc q ≡ p = ground arith in
        let (below, lacks) = ih q f in
        let e : p + 1 ≡ suc (q + 1) = omega arith in
        (omega arith, subst (λ n. Lacks c (drop n (x ∷ s))) (sym e) lacks)
    go true none f k ih =
        let same : 0 ≡ p = ground arith in
        let e : p + 1 ≡ suc 0 = omega arith in
        (omega arith, subst (λ n. Lacks c (drop n (x ∷ s))) (sym e) (find_last-none c s f))
    go false none f k ih = absurd (cc)

-- What a name may be: not empty, and without a slash or a question mark.
abbrev pub IsFileName : Bytes → Type 0
IsFileName name = (name ≢ []) × Lacks b'/' name × Lacks b'?' name

name_behind-IsFileName :
    (default_name s : Bytes)
    → IsFileName default_name
    → Lacks b'?' s
    → IsFileName (name_behind default_name s (find_last b'/' s))
name_behind-IsFileName default_name s fallback no_query = go (find_last b'/' s) refl
  where
    go : (o : Option ℕ) → find_last b'/' s ≡ o → IsFileName (name_behind default_name s o)
    go none e = fallback
    go (some p) e =
        let (below, lacks) = find_last-IsLast b'/' p s e in
        if_either IsFileName (p == length s - 1) _ _ (λ _. fallback)
          (λ more.
            (drop-nonempty (p + 1) s (ground arith), lacks, Lacks-drop b'?' (p + 1) s no_query))

-- Whatever address is given to a tool, the name of the output file that it takes from it, for a name
-- to fall back to that is one itself, is not empty and has no slash and no question mark in it.
pub extract_filename-IsFileName :
    (default_name url : Bytes)
    → IsFileName default_name
    → IsFileName (extract_filename default_name url)
unfolding extract_filename
extract_filename-IsFileName default_name url fallback = go (find_char b'?' 0 url) refl
  where
    go :
        (o : Option ℕ)
        → find_char b'?' 0 url ≡ o
        → IsFileName (name_behind default_name (cut_at o url) (find_last b'/' (cut_at o url)))
    go none e = name_behind-IsFileName default_name url fallback (find_char-missing b'?' url e)
    go (some i) e =
        name_behind-IsFileName default_name (take i url) fallback (find_char-Lacks b'?' i url e)
