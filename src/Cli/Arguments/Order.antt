-- ===== src/Cli/Arguments/Order.antt =====
-- What the options of the two tools come to.
use muld.Prelude.{
  Bool-cases, ◌⊎◌, inl, inr, ◌∙◌, ◌++◌, ◌<◌, ◌^◌, ◌==◌, ℕ, ◌≡◌, ◌≢◌, refl, ap, false, Option, none,
  some, List, [], ◌∷◌, if◌then◌else◌, eq_bytes, is_empty, if_both, if_either, arith,
}
use muld.Prelude.Int.{ℤ, pos}
use muld.Prelude.Bytes.{Bytes, codes}
use muld.Prelude.Decimal.{decimal, signed_number-decimal}
use muld.Prelude.Table.{eq_bytes_iff}
use muld.Cli.Text.{extract_filename, async_default, polling_default}
use muld.Cli.Text.FileName.{IsFileName, extract_filename-IsFileName}
use muld.Cli.Arguments.{
  stoi, Options, default_options, Parsed, accepted, rejected, helped, thrown, Awaited, nothing,
  output, threads, speed, Kind, help, unknown, positional, waits_for, kind_of, polling_kind_of,
  Taken, goes_on, stops, or_stop, by_kind, with_speed, take_argument, with_connections,
  with_threads, parse_rest, parse_args, need_url, async_options, polling_take, polling_missing,
  polling_from, polling_finish, polling_options,
}

-- The texts of accepted options.
abbrev pub IsComplete : Parsed → Type 0
IsComplete (accepted o) = (is_empty o.url ≡ false) × (is_empty o.out ≡ false)
IsComplete (rejected message) = Unit
IsComplete helped = Unit
IsComplete thrown = Unit

is_empty-ne : (s : Bytes) → s ≢ [] → is_empty s ≡ false
is_empty-ne [] h = absurd (h refl)
is_empty-ne (c ∷ s) h = refl

pub async_default-IsFileName : IsFileName async_default
async_default-IsFileName = ground arith

pub polling_default-IsFileName : IsFileName polling_default
polling_default-IsFileName = ground arith

named-IsComplete :
    (default_name : Bytes) (o : Options)
    → IsFileName default_name
    → is_empty o.url ≡ false
    → IsComplete (
        accepted
          (if is_empty o.out then record o { out = extract_filename default_name o.url } else o))
named-IsComplete default_name o fallback url =
    if_either (λ (o' : Options). IsComplete (accepted o')) (is_empty o.out) _ _
      (λ _. (
        url,
        is_empty-ne (extract_filename default_name o.url)
            (extract_filename-IsFileName default_name o.url fallback).0,
      ))
      (λ given. (url, given))

need_url-IsComplete : (p : Parsed) → IsComplete (need_url p)
need_url-IsComplete (accepted o) =
    if_either IsComplete (is_empty o.url) _ _ (λ _. tt)
      (named-IsComplete async_default o async_default-IsFileName)
need_url-IsComplete (rejected message) = tt
need_url-IsComplete helped = tt
need_url-IsComplete thrown = tt

polling_finish-IsComplete :
    (p : Parsed) → IsComplete (polling_finish p) × (p ≢ thrown → polling_finish p ≢ thrown)
polling_finish-IsComplete (accepted o) = (
  if_either IsComplete (is_empty o.url) _ _ (λ _. tt)
      (named-IsComplete polling_default o polling_default-IsFileName),
  λ _.
      if_both (λ (p : Parsed). p ≢ thrown) (is_empty o.url) _ _ (λ e. absurd (cc))
        (λ e. absurd (cc)),
)
polling_finish-IsComplete (rejected message) = (tt, λ h. h)
polling_finish-IsComplete helped = (tt, λ h. h)
polling_finish-IsComplete thrown = (tt, λ h. h)

abbrev NeverThrows : Taken → Type 0
NeverThrows (goes_on w o) = Unit {0}
NeverThrows (stops p) = p ≢ thrown

by_kind-NeverThrows : (o : Options) (a : Bytes) (k : Kind) → NeverThrows (by_kind o a k)
by_kind-NeverThrows o a help = λ e. absurd (cc)
by_kind-NeverThrows o a unknown = λ e. absurd (cc)
by_kind-NeverThrows o a positional = tt
by_kind-NeverThrows o a (waits_for w) = tt

with_connections-NeverThrows : (o : Options) (n : Option ℤ) → NeverThrows (with_connections o n)
with_connections-NeverThrows o none = λ e. absurd (cc)
with_connections-NeverThrows o (some n) = tt

polling_take-NeverThrows :
    (w : Awaited) (o : Options) (a : Bytes) → NeverThrows (polling_take w o a)
polling_take-NeverThrows nothing o a = by_kind-NeverThrows o a (polling_kind_of a)
polling_take-NeverThrows output o a = tt
polling_take-NeverThrows threads o a = with_connections-NeverThrows o (stoi a)
polling_take-NeverThrows speed o a = tt

polling_missing-ne : (w : Awaited) (o : Options) → polling_missing w o ≢ thrown
polling_missing-ne nothing o = λ e. absurd (cc)
polling_missing-ne output o = λ e. absurd (cc)
polling_missing-ne threads o = λ e. absurd (cc)
polling_missing-ne speed o = λ e. absurd (cc)

or_stop-ne :
    (t : Taken) (rest : Awaited → Options → Parsed)
    → NeverThrows t
    → ((w : Awaited) (o : Options) → rest w o ≢ thrown)
    → or_stop t rest ≢ thrown
or_stop-ne (goes_on w o) rest h k = k w o
or_stop-ne (stops p) rest h k = h

polling_from-ne : (as_ : List Bytes) (w : Awaited) (o : Options) → polling_from as_ w o ≢ thrown
unfolding polling_from
polling_from-ne [] w o = polling_missing-ne w o
polling_from-ne (a ∷ as_) w o =
    or_stop-ne (polling_take w o a) (λ w' o'. polling_from as_ w' o')
      (polling_take-NeverThrows w o a) (λ w' o'. polling_from-ne as_ w' o')

-- What follows `-c` is read by a function that throws where it is not a number, and nothing catches that.
async_options-threads :
    (parse_speed : Bytes → Option ℕ) (as_ : List Bytes) (a : Bytes)
    → stoi a ≡ none
    → async_options parse_speed (codes "-c" ∷ a ∷ as_) ≡ thrown
unfolding async_options parse_args parse_rest kind_of eq_bytes
async_options-threads parse_speed as_ a bad =
    ap
      (λ n.
        need_url (or_stop (with_threads default_options n) (λ w o. parse_rest parse_speed as_ w o)))
      bad

abbrev pub IsThreads : Bytes → Type 0
IsThreads flag = (flag ≡ codes "-c") ⊎ ((flag ≡ codes "--threads") ⊎ (flag ≡ codes "--conn"))

-- Somewhere among the arguments an option for the threads stands before what is not a number.
abbrev pub HasBadNumber : List Bytes → Type 0
HasBadNumber as_ =
    (before : List Bytes) × (flag : Bytes) × (value : Bytes) × (after : List Bytes) × (as_
      ≡ before ++ flag ∷ value ∷ after)
    × IsThreads flag
    × (stoi value ≡ none)

abbrev StartsBad : List Bytes → Type 0
StartsBad as_ = (value : Bytes) × (after : List Bytes) × (as_ ≡ value ∷ after) × (stoi value ≡ none)

cons-HasBadNumber : (a : Bytes) (as_ : List Bytes) → HasBadNumber as_ → HasBadNumber (a ∷ as_)
cons-HasBadNumber a as_ (before, flag, value, after, e, f, bad) =
    (a ∷ before, flag, value, after, ap (λ l. a ∷ l) e, f, bad)

kind_of-IsThreads : (a : Bytes) → kind_of a ≡ waits_for threads → IsThreads a
unfolding kind_of
kind_of-IsThreads a h = elim (Bool-cases (eq_bytes a (codes "-c"))) [
  | inl e ↦ inl ((eq_bytes_iff a (codes "-c")).0 e)
  | inr n ↦ elim (Bool-cases (eq_bytes a (codes "--threads"))) [
    | inl e ↦ inr (inl ((eq_bytes_iff a (codes "--threads")).0 e))
    | inr n' ↦ inr (inr ((eq_bytes_iff a (codes "--conn")).0 (ground arith)))
  ]
]

module _ (parse_speed : Bytes → Option ℕ) where
  parse_rest-thrown :
      (as_ : List Bytes) (w : Awaited) (o : Options)
      → parse_rest parse_speed as_ w o ≡ thrown
      → ((w ≡ threads) × StartsBad as_) ⊎ HasBadNumber as_
  unfolding parse_rest
  parse_rest-thrown [] nothing o h = absurd (cc)
  parse_rest-thrown [] output o h = absurd (cc)
  parse_rest-thrown [] threads o h = absurd (cc)
  parse_rest-thrown [] speed o h = absurd (cc)
  parse_rest-thrown (a ∷ as_) w o h = go w h (λ w' o'. parse_rest-thrown as_ w' o')
    where
      later :
          (o' : Options)
          → parse_rest parse_speed as_ nothing o' ≡ thrown
          → ((w' : Awaited) (o' : Options)
              → parse_rest parse_speed as_ w' o' ≡ thrown
              → ((w' ≡ threads) × StartsBad as_) ⊎ HasBadNumber as_)
          → HasBadNumber (a ∷ as_)
      later o' q ih = elim (ih nothing o' q) [
        | inl wrong ↦ absurd (let e = wrong.0 in cc)
        | inr bad ↦ cons-HasBadNumber a as_ bad
      ]

      of_kind :
          (k : Kind)
          → kind_of a ≡ k
          → or_stop (by_kind o a k) (λ w' o'. parse_rest parse_speed as_ w' o') ≡ thrown
          → ((w' : Awaited) (o' : Options)
              → parse_rest parse_speed as_ w' o' ≡ thrown
              → ((w' ≡ threads) × StartsBad as_) ⊎ HasBadNumber as_)
          → HasBadNumber (a ∷ as_)
      of_kind help e q ih = absurd (cc)
      of_kind unknown e q ih = absurd (cc)
      of_kind positional e q ih = later (record o { url = a }) q ih
      of_kind (waits_for w') e q ih = elim (ih w' o q) [
        | inl (is, (value, after, split, bad)) ↦ (
          [],
          a,
          value,
          after,
          ap (λ l. a ∷ l) split,
          kind_of-IsThreads a (e ∙ ap waits_for is),
          bad,
        )
        | inr bad ↦ cons-HasBadNumber a as_ bad
      ]

      of_number :
          (n : Option ℤ)
          → stoi a ≡ n
          → or_stop (with_threads o n) (λ w' o'. parse_rest parse_speed as_ w' o') ≡ thrown
          → ((w' : Awaited) (o' : Options)
              → parse_rest parse_speed as_ w' o' ≡ thrown
              → ((w' ≡ threads) × StartsBad as_) ⊎ HasBadNumber as_)
          → StartsBad (a ∷ as_) ⊎ HasBadNumber (a ∷ as_)
      of_number none e q ih = inl (a, as_, refl, e)
      of_number (some n) e q ih = inr (later (record o { max_threads = n }) q ih)

      of_speed :
          (limit : Option ℕ)
          → or_stop (with_speed o a limit) (λ w' o'. parse_rest parse_speed as_ w' o') ≡ thrown
          → ((w' : Awaited) (o' : Options)
              → parse_rest parse_speed as_ w' o' ≡ thrown
              → ((w' ≡ threads) × StartsBad as_) ⊎ HasBadNumber as_)
          → HasBadNumber (a ∷ as_)
      of_speed none q ih = absurd (cc)
      of_speed (some limit) q ih = later (record o { speed_limit_bps = limit }) q ih

      go :
          (w : Awaited)
          → or_stop (take_argument parse_speed w o a) (λ w' o'. parse_rest parse_speed as_ w' o')
            ≡ thrown
          → ((w' : Awaited) (o' : Options)
              → parse_rest parse_speed as_ w' o' ≡ thrown
              → ((w' ≡ threads) × StartsBad as_) ⊎ HasBadNumber as_)
          → ((w ≡ threads) × StartsBad (a ∷ as_)) ⊎ HasBadNumber (a ∷ as_)
      go nothing q ih = inr (of_kind (kind_of a) refl q ih)
      go output q ih = inr (later (record o { out = a }) q ih)
      go threads q ih = elim (of_number (stoi a) refl q ih) [
        | inl bad ↦ inl (refl, bad)
        | inr bad ↦ inr bad
      ]
      go speed q ih = inr (of_speed (parse_speed a) q ih)

-- The only way to an exception is a number of threads that is not one.
need_url-thrown : (p : Parsed) → need_url p ≡ thrown → p ≡ thrown
need_url-thrown (accepted o) h =
    if_both (λ (q : Parsed). q ≡ thrown → accepted o ≡ thrown) (is_empty o.url) _ _
      (λ q. absurd (cc)) (λ q. absurd (cc)) h
need_url-thrown (rejected message) h = h
need_url-thrown helped h = h
need_url-thrown thrown h = h

throws-or-not :
    (parse_speed : Bytes → Option ℕ) (as_ : List Bytes)
    → (async_options parse_speed as_ ≢ thrown) ⊎ HasBadNumber as_
unfolding async_options parse_args
throws-or-not parse_speed as_ = go (parse_rest parse_speed as_ nothing default_options) refl
  where
    go :
        (p : Parsed)
        → parse_rest parse_speed as_ nothing default_options ≡ p
        → (need_url p ≢ thrown) ⊎ HasBadNumber as_
    go (accepted o) e = inl (λ h. absurd (let q = need_url-thrown (accepted o) h in cc))
    go (rejected message) e = inl (λ h. absurd (cc))
    go helped e = inl (λ h. absurd (cc))
    go thrown e = elim (parse_rest-thrown parse_speed as_ nothing default_options e) [
      | inl wrong ↦ absurd (let q = wrong.0 in cc)
      | inr bad ↦ inr bad
    ]

stoi-decimal : (n : ℕ) → n < 2 ^ 31 → stoi (decimal n) ≡ some (pos n)
unfolding stoi
stoi-decimal n h = rw (signed_number-decimal n) (ground arith)

positional_kind : (c : ℕ) (cs : Bytes) → c ≢ b'-' → kind_of (c ∷ cs) ≡ positional
unfolding kind_of eq_bytes
positional_kind c cs h = let other : (c == b'-') ≡ false = ground arith in rw other refl

positional_kind_polling : (c : ℕ) (cs : Bytes) → c ≢ b'-' → polling_kind_of (c ∷ cs) ≡ positional
unfolding polling_kind_of eq_bytes
positional_kind_polling c cs h = let other : (c == b'-') ≡ false = ground arith in rw other refl

plain_options :
    (parse_speed : Bytes → Option ℕ) (n c : ℕ) (cs : Bytes)
    → n < 2 ^ 31
    → c ≢ b'-'
    → async_options parse_speed (codes "-c" ∷ decimal n ∷ (c ∷ cs) ∷ [])
      ≡ accepted (record {
        url = c ∷ cs;
        out = extract_filename async_default (c ∷ cs);
        max_threads = pos n;
        speed_limit_bps = 0;
      })
unfolding async_options parse_args parse_rest
plain_options parse_speed n c cs h k =
    let dash : kind_of (codes "-c") ≡ waits_for threads =
      unfold kind_of in unfold eq_bytes in refl in
    rw dash (rw (stoi-decimal n h) (rw (positional_kind c cs k) refl))

plain_options_polling :
    (n c : ℕ) (cs : Bytes)
    → n < 2 ^ 31
    → c ≢ b'-'
    → polling_options (codes "-c" ∷ decimal n ∷ (c ∷ cs) ∷ [])
      ≡ accepted (record {
        url = c ∷ cs;
        out = extract_filename polling_default (c ∷ cs);
        max_threads = pos n;
        speed_limit_bps = 0;
      })
unfolding polling_options polling_from
plain_options_polling n c cs h k =
    let dash : polling_kind_of (codes "-c") ≡ waits_for threads =
      unfold polling_kind_of in unfold eq_bytes in refl in
    rw dash (rw (stoi-decimal n h) (rw (positional_kind_polling c cs k) refl))

-- Whatever the arguments are: options that a tool accepts have an address and an output file, which
-- are not empty; the polling tool never ends with an exception, and the asynchronous tool does only if
-- somewhere an option for the threads stands before what is not a number. A printed number of threads
-- below 2 ^ 31 and an address that is not empty and does not start with a dash are accepted by both
-- tools as they are, with the output file named after the address.
pub async_options-IsComplete :
    (parse_speed : Bytes → Option ℕ) (as_ : List Bytes) (n c : ℕ) (cs : Bytes)
    → n < 2 ^ 31
    → c ≢ b'-'
    → IsComplete (async_options parse_speed as_)
      × IsComplete (polling_options as_)
      × (polling_options as_ ≢ thrown)
      × ((async_options parse_speed as_ ≢ thrown) ⊎ HasBadNumber as_)
      × (async_options parse_speed (codes "-c" ∷ decimal n ∷ (c ∷ cs) ∷ [])
          ≡ accepted (record {
            url = c ∷ cs;
            out = extract_filename async_default (c ∷ cs);
            max_threads = pos n;
            speed_limit_bps = 0;
          }))
      × (polling_options (codes "-c" ∷ decimal n ∷ (c ∷ cs) ∷ [])
          ≡ accepted (record {
            url = c ∷ cs;
            out = extract_filename polling_default (c ∷ cs);
            max_threads = pos n;
            speed_limit_bps = 0;
          }))
unfolding async_options polling_options
async_options-IsComplete parse_speed as_ n c cs h k = (
  need_url-IsComplete (parse_args parse_speed as_),
  (polling_finish-IsComplete (polling_from as_ nothing default_options)).0,
  (polling_finish-IsComplete (polling_from as_ nothing default_options)).1
      (polling_from-ne as_ nothing default_options),
  throws-or-not parse_speed as_,
  plain_options parse_speed n c cs h k,
  plain_options_polling n c cs h k,
)
