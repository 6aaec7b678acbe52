-- ===== src/Url/RoundTrip.antt =====
-- Printing an address and reading it again.
use mathlib.Core.List.{append_assoc, append-nil}
use native.Mathlib.Nat.{suc-add}
use muld.Prelude.{
  ℕ, ◌+◌, ◌-◌, ◌<◌, ◌≡◌, refl, sym, ap, ◌∙◌, true, false, ◌||◌, Option, none, some, [], ◌∷◌, ◌++◌,
  length, take, drop, is_empty, eq_bytes, eq_bytes-eq, ◌==◌, arith, Bool-cases, inl, inr,
  length-append, take-length-append, drop-length-append,
}
use muld.Prelude.Bytes.{Bytes, codes}
use muld.Types.{Url}
use muld.Url.Find.{
  find_char, find_text, char_at, Lacks, shift_by, find_char-none, find_char_first, find_char_behind,
  find_char_over, char_at-append, find_text_first,
}
use muld.Url.{
  earlier, cut_host, cut_port, host_end, split_path, default_port, split_port, parse_from,
  parse_nonempty, parse_url, is_default_port, port_suffix, url_string,
}

-- An address as `ParseUrl` is meant to give it: a scheme with no colon, a host and a port, neither
-- of them empty or with a byte that ends them, and a path from the root.
pub record IsPlain (url : Url) : Type 0 where
  pub scheme_some : is_empty url.scheme ≡ false
  pub scheme_colon : Lacks b':' url.scheme
  pub host_some : is_empty url.host ≡ false
  pub host_colon : Lacks b':' url.host
  pub host_slash : Lacks b'/' url.host
  pub host_query : Lacks b'?' url.host
  pub host_fragment : Lacks b'#' url.host
  pub port_some : is_empty url.port ≡ false
  pub port_slash : Lacks b'/' url.port
  pub port_query : Lacks b'?' url.port
  pub port_fragment : Lacks b'#' url.port
  pub path_root : char_at url.path 0 ≡ b'/'

Lacks-append : (c : ℕ) (s t : Bytes) → Lacks c s → Lacks c t → Lacks c (s ++ t)
Lacks-append c [] t hs ht = ht
Lacks-append c (b ∷ s) t hs ht = (hs.0, Lacks-append c s t hs.1 ht)

-- The search for the end of the host finds the first slash.
host_end_lem :
    (slash : ℕ) (query fragment : Option ℕ)
    → earlier (earlier (some slash) (shift_by slash query)) (shift_by slash fragment) ≡ some slash
host_end_lem slash none none = refl
host_end_lem slash none (some f) = ground arith
host_end_lem slash (some q) none = ground arith
host_end_lem slash (some q) (some f) = ground arith

shift_by_twice : (a b : ℕ) (o : Option ℕ) → shift_by a (shift_by b o) ≡ shift_by (a + b) o
shift_by_twice a b none = refl
shift_by_twice a b (some i) = ground arith

find_char_past :
    (c : ℕ) (pre s t : Bytes)
    → Lacks c s
    → find_char c (length pre) (pre ++ (s ++ t))
      ≡ shift_by (length pre + length s) (find_char c 0 t)
find_char_past c pre s t h =
    rw (find_char_behind c pre (s ++ t), find_char_over c s t h)
      (shift_by_twice (length pre) (length s) (find_char c 0 t))

find_slash :
    (pre s t : Bytes)
    → Lacks b'/' s
    → find_char b'/' (length pre) (pre ++ (s ++ b'/' ∷ t)) ≡ some (length pre + length s)
find_slash pre s t h = rw (find_char_behind b'/' pre (s ++ b'/' ∷ t), find_char_first b'/' s t h)

char_at-slash : (pre s t : Bytes) → char_at (pre ++ (s ++ b'/' ∷ t)) (length pre + length s) ≡ b'/'
char_at-slash pre s t =
    rw (← length-append pre s, ← append_assoc pre s (b'/' ∷ t)) (char_at-append (pre ++ s) t b'/')

drop-slash : (pre s t : Bytes) → drop (length pre + length s) (pre ++ (s ++ b'/' ∷ t)) ≡ b'/' ∷ t
drop-slash pre s t =
    rw (← length-append pre s, ← append_assoc pre s (b'/' ∷ t))
      (drop-length-append (pre ++ s) (b'/' ∷ t))

length-pos : (s : Bytes) → is_empty s ≡ false → 0 < length s
length-pos [] h = absurd (cc)
length-pos (b ∷ s) h = omega arith

-- Where the text from `pre` on is a host and port that end in no way before the slash, they and the
-- path are split there.
split_path-append :
    (pre host_port path : Bytes)
    → is_empty host_port ≡ false
    → Lacks b'/' host_port
    → Lacks b'?' host_port
    → Lacks b'#' host_port
    → split_path (length pre) (pre ++ (host_port ++ b'/' ∷ path))
      ≡ record { host_port = host_port; path = b'/' ∷ path }
unfolding cut_host host_end
split_path-append pre host_port path some_host slash query fragment =
    rw
      (
        find_slash pre host_port path slash,
        find_char_past b'?' pre host_port (b'/' ∷ path) query,
        find_char_past b'#' pre host_port (b'/' ∷ path) fragment,
        host_end_lem (length pre + length host_port) _ _,
        char_at-slash pre host_port path,
        drop-slash pre host_port path,
        drop-length-append pre (host_port ++ b'/' ∷ path),
      )
      (ground (arith, length-pos host_port some_host, cut))
  where
    cut : take (length pre + length host_port - length pre) (host_port ++ b'/' ∷ path) ≡ host_port
    cut =
        let n : length pre + length host_port - length pre ≡ length host_port = omega arith in
        rw n (take-length-append host_port (b'/' ∷ path))

-- The port comes back: it was printed, or it is the default that the reader fills in.
default_port_lem : (url : Url) → is_default_port url ≡ true → default_port url.scheme ≡ url.port
unfolding eq_bytes
default_port_lem url h = ground (
  arith,
  eq_bytes-eq url.scheme (codes "http"),
  eq_bytes-eq url.port (codes "80"),
  eq_bytes-eq url.scheme (codes "https"),
  eq_bytes-eq url.port (codes "443"),
)

drop-append_suc : (s t : Bytes) (c : ℕ) → drop (length s + 1) (s ++ c ∷ t) ≡ t
drop-append_suc [] t c = refl
drop-append_suc (b ∷ s) t c = rw (suc-add (length s) 1) (drop-append_suc s t c)

split_port-suffix :
    (url : Url) (path : Bytes)
    → IsPlain url
    → split_port url.scheme (record { host_port = url.host ++ port_suffix url; path = path })
      ≡ record url { path = path }
unfolding cut_port
split_port-suffix url path h = elim (Bool-cases (is_default_port url)) [
  | inl default ↦ rw (
    h.port_some,
    default,
    append-nil url.host,
    find_char-none b':' url.host h.host_colon,
    default_port_lem url default,
  )
  | inr custom ↦ rw (
    h.port_some,
    custom,
    find_char_first b':' url.host url.port h.host_colon,
    take-length-append url.host (b':' ∷ url.port),
    drop-append_suc url.host url.port b':',
  )
]

Lacks-port_suffix :
    (c : ℕ) (url : Url) → Lacks c url.port → (b':' == c) ≡ false → Lacks c (port_suffix url)
Lacks-port_suffix c url h colon = elim (Bool-cases (is_empty url.port || is_default_port url)) [
  | inl none_shown ↦ rw none_shown tt
  | inr shown ↦ rw shown (colon, h)
]

is_empty-append : (s t : Bytes) → is_empty s ≡ false → is_empty (s ++ t) ≡ false
is_empty-append [] t h = absurd (cc)
is_empty-append (b ∷ s) t h = refl

root_path : (s : Bytes) → char_at s 0 ≡ b'/' → (p : Bytes) × (s ≡ b'/' ∷ p)
root_path [] h = absurd (omega arith)
root_path (c ∷ s) h = (s, ap (λ x. x ∷ s) h)

url_string_plain :
    (url : Url) (p : Bytes)
    → IsPlain url
    → url.path ≡ b'/' ∷ p
    → url_string url ≡ (url.scheme ++ codes "://") ++ ((url.host ++ port_suffix url) ++ b'/' ∷ p)
unfolding url_string
url_string_plain url p h e =
    rw (h.scheme_some, e, append_assoc url.host (port_suffix url) (b'/' ∷ p))

parse_nonempty_plain :
    (url : Url) (p : Bytes)
    → IsPlain url
    → url.path ≡ b'/' ∷ p
    → parse_nonempty ((url.scheme ++ codes "://") ++ ((url.host ++ port_suffix url) ++ b'/' ∷ p))
      ≡ url
unfolding parse_from
parse_nonempty_plain url p h e =
    let host_port = url.host ++ port_suffix url in
    let rest = host_port ++ b'/' ∷ p in
    let slash =
      Lacks-append b'/' url.host (port_suffix url) h.host_slash
        (Lacks-port_suffix b'/' url h.port_slash refl) in
    let query =
      Lacks-append b'?' url.host (port_suffix url) h.host_query
        (Lacks-port_suffix b'?' url h.port_query refl) in
    let fragment =
      Lacks-append b'#' url.host (port_suffix url) h.host_fragment
        (Lacks-port_suffix b'#' url h.port_fragment refl) in
    let text = (url.scheme ++ codes "://") ++ rest in
    let found : find_text (codes "://") text ≡ some (length url.scheme) =
      rw (append_assoc url.scheme (codes "://") rest)
        (find_text_first b':' (codes "//") url.scheme rest h.scheme_colon) in
    let scheme : take (length url.scheme) text ≡ url.scheme =
      rw (append_assoc url.scheme (codes "://") rest)
        (take-length-append url.scheme (codes "://" ++ rest)) in
    let pos : length url.scheme + 3 ≡ length (url.scheme ++ codes "://") =
      omega (arith, length-append url.scheme (codes "://")) in
    rw
      (
        found,
        scheme,
        pos,
        split_path-append (url.scheme ++ codes "://") host_port p
            (is_empty-append url.host (port_suffix url) h.host_some) slash query fragment,
      )
      (split_port-suffix url (b'/' ∷ p) h ∙ ap (λ x. record url { path = x }) (sym e))

some_text :
    (url : Url) (rest : Bytes)
    → IsPlain url
    → is_empty ((url.scheme ++ codes "://") ++ rest) ≡ false
some_text url rest h =
    is_empty-append (url.scheme ++ codes "://") rest
      (is_empty-append url.scheme (codes "://") h.scheme_some)

-- For every address with a scheme, a host and a port of their proper form and a path from the root,
-- `ParseUrl` of what `GetUrlString` prints is the address: the default port that printing leaves out
-- is filled in again.
pub parse_url-url_string : (url : Url) → IsPlain url → parse_url (url_string url) ≡ some url
unfolding parse_url
parse_url-url_string url h =
    let (p, e) = root_path url.path h.path_root in
    rw (
      url_string_plain url p h e,
      some_text url ((url.host ++ port_suffix url) ++ b'/' ∷ p) h,
      parse_nonempty_plain url p h e,
    )
