-- ===== src/Downloader/Told.antt =====
-- FetchFileInfo against a description of what a server can tell of a file.
use mathlib.Core.Path.{subst}
use muld.Prelude.{
  ℕ, ◌≡◌, ◌<◌, ◌↔◌, ◌⊎◌, inl, inr, refl, sym, ap, ◌∙◌, Bool, true, false, ◌==◌, Option, none, some,
  List, [], ◌∷◌, arith, Bool-cases, if_true, if_false, eq_bytes,
}
use muld.Prelude.Bytes.{Bytes, codes, u64_mod}
use muld.Prelude.Decimal.{decimal, signed_number-decimal}
use muld.Prelude.Table.{eq_bytes_iff}
use muld.Types.{Url, is_ok}
use muld.Manager.{FileInfo, FetchResult, fetch_failed, redirect, successful, is_supported}
use muld.Downloader.Request.{Exception}
use muld.Downloader.Fetch.{
  Head, text_of, file_info, stoull, create_file_info, is_redirection, Exchange, replied, redirected,
  close_socket, fetch_file_info_impl, fetch_file_info,
}
use muld.Downloader.Found.{IsTruthful, fetch_file_info-IsTruthful}

-- The text of a field of a response: empty if the field is missing.
abbrev pub IsField : Option Bytes → Bytes → Type 0
IsField none text = text ≡ []
IsField (some given) text = text ≡ given

abbrev pub OneOf : ℕ → List ℕ → Type 0
OneOf n [] = ⊥
OneOf n (m ∷ ms) = (n ≡ m) ⊎ OneOf n ms

-- What the fields of a response say of a file.
pub record Describes (head : Head) (info : FileInfo) : Type 0 where
  pub valid : info.is_valid ≡ true
  pub sized :
      (text : Bytes) × IsField head.content_length text × (stoull text ≡ some info.total_size)
  pub ranged : (info.supports_range ≡ true) ↔ (head.accept_ranges ≡ some (codes "bytes"))
  pub tagged : IsField head.etag info.etag
  pub dated : IsField head.last_modified info.last_modified

abbrev pub IsWeb : Url → Type 0
IsWeb url = (url.scheme ≡ codes "http") ⊎ (url.scheme ≡ codes "https")

-- Nothing was thrown, and the server answered.
abbrev pub Replies : Url → Option Exception → Option Exception → Exchange → Head → Type 0
Replies url resolving connecting exchange head =
    IsWeb url × (resolving ≡ none) × (connecting ≡ none) × (exchange ≡ replied head none)

abbrev pub Finds : Url → Option Exception → Option Exception → Exchange → FileInfo → Type 0
Finds url resolving connecting exchange info =
    (head : Head) × Replies url resolving connecting exchange head
    × (head.status ≡ 200)
    × Describes head info

abbrev pub Moves : Url → Option Exception → Option Exception → Exchange → Bytes → Type 0
Moves url resolving connecting exchange location =
    (head : Head) × Replies url resolving connecting exchange head
    × OneOf head.status (301 ∷ 302 ∷ 303 ∷ 307 ∷ 308 ∷ [])
    × (head.location ≡ some location)

-- A failure has a code that is not the one for success.
abbrev pub HasCode : FetchResult → Type 0
HasCode (fetch_failed e) = is_ok e.error_code ≡ false
HasCode (successful info) = Unit
HasCode (redirect location) = Unit

pub stoull-decimal : (n : ℕ) → n < u64_mod → stoull (decimal n) ≡ some n
unfolding stoull
stoull-decimal n h = rw (signed_number-decimal n) (ground arith)

IsField-text_of : (o : Option Bytes) → IsField o (text_of o)
IsField-text_of none = refl
IsField-text_of (some text) = refl

IsField-eq : (o : Option Bytes) (text : Bytes) → IsField o text → text ≡ text_of o
IsField-eq none text h = h
IsField-eq (some given) text h = h

bytes_iff :
    (o : Option Bytes) → (eq_bytes (text_of o) (codes "bytes") ≡ true) ↔ (o ≡ some (codes "bytes"))
bytes_iff none =
    (λ h. absurd (let e = (eq_bytes_iff [] (codes "bytes")).0 h in cc), λ h. absurd (cc))
bytes_iff (some text) =
    let iff = eq_bytes_iff text (codes "bytes") in (λ h. ap some (iff.0 h), λ h. iff.1 (cc))

same-truth : (b c : Bool) → ((b ≡ true) → (c ≡ true)) → ((c ≡ true) → (b ≡ true)) → b ≡ c
same-truth true c h k = sym (h refl)
same-truth false true h k = k refl
same-truth false false h k = refl

file_info-Describes :
    (head : Head) (n : ℕ)
    → stoull (text_of head.content_length) ≡ some n
    → Describes head (file_info head n)
file_info-Describes head n e = record {
  valid = refl;
  sized = (text_of head.content_length, IsField-text_of head.content_length, e);
  ranged = bytes_iff head.accept_ranges;
  tagged = IsField-text_of head.etag;
  dated = IsField-text_of head.last_modified;
}

Describes-file_info :
    (head : Head) (info : FileInfo)
    → Describes head info
    → (stoull (text_of head.content_length) ≡ some info.total_size)
      × (info ≡ file_info head info.total_size)
Describes-file_info head info d =
    let (text, field, e) = d.sized in
    let iff = bytes_iff head.accept_ranges in
    let range =
      same-truth info.supports_range (eq_bytes (text_of head.accept_ranges) (codes "bytes"))
        (λ h. iff.1 (d.ranged.0 h)) (λ h. d.ranged.1 (iff.0 h)) in
    let valid = d.valid in
    let etag = IsField-eq head.etag info.etag d.tagged in
    let date = IsField-eq head.last_modified info.last_modified d.dated in
    (ap stoull (sym (IsField-eq head.content_length text field)) ∙ e, cc)

IsWeb-iff : (url : Url) → IsWeb url ↔ (is_supported url ≡ true)
IsWeb-iff url =
    let http = eq_bytes_iff url.scheme (codes "http") in
    let https = eq_bytes_iff url.scheme (codes "https") in
    (
      λ web. elim web [
        | inl e ↦ let h = http.1 e in ground arith
        | inr e ↦ let h = https.1 e in ground arith
      ],
      λ h. elim (Bool-cases (eq_bytes url.scheme (codes "http"))) [
        | inl e ↦ inl (http.0 e)
        | inr e ↦ inr (https.0 (ground arith))
      ],
    )

OneOf-iff : (n : ℕ) → OneOf n (301 ∷ 302 ∷ 303 ∷ 307 ∷ 308 ∷ []) ↔ (is_redirection n ≡ true)
OneOf-iff n = (λ h. ground (arith, h), λ h. ground (arith, h))

module _ (what : Bytes) (url : Url) where
  answered :
      (head : Head)
      → is_supported url ≡ true
      → fetch_file_info what url none none (replied head none)
        ≡ fetch_file_info_impl what (replied head none)
  unfolding fetch_file_info
  answered head h = if_true (is_supported url) _ _ h

  finding :
      (head : Head) (n : ℕ)
      → is_supported url ≡ true
      → head.status ≡ 200
      → stoull (text_of head.content_length) ≡ some n
      → fetch_file_info what url none none (replied head none) ≡ successful (file_info head n)
  unfolding fetch_file_info_impl create_file_info
  finding head n h ok size =
      answered head h ∙ (if_true (head.status == 200) _ _ (ground arith) ∙ rw size refl)

  moving :
      (head : Head) (location : Bytes)
      → is_supported url ≡ true
      → is_redirection head.status ≡ true
      → head.location ≡ some location
      → fetch_file_info what url none none (replied head none) ≡ redirect location
  unfolding fetch_file_info_impl
  moving head location h moved at =
      answered head h
      ∙ (if_false (head.status == 200) _ _ (ground arith)
          ∙ (if_true (is_redirection head.status) _ _ moved
              ∙ ap (λ o. close_socket none (redirected head.status o)) at))

  module _ (resolving connecting : Option Exception) (exchange : Exchange) where
    no_trouble :
        (head : Head)
        → Replies url resolving connecting exchange head
        → fetch_file_info what url resolving connecting exchange
          ≡ fetch_file_info what url none none (replied head none)
    no_trouble head (_, r, c, e) =
        ap (λ x. fetch_file_info what url x connecting exchange) r
        ∙ ap (λ x. fetch_file_info what url none x exchange) c
        ∙ ap (fetch_file_info what url none none) e

    success-Finds :
        (info : FileInfo)
        → (fetch_file_info what url resolving connecting exchange ≡ successful info)
          ↔ Finds url resolving connecting exchange info
    success-Finds info = (
      λ e.
          let (head, (r, c, x, web), (ok, size, sized, is)) =
            subst (λ t. IsTruthful t url resolving connecting exchange) e
              (fetch_file_info-IsTruthful what url resolving connecting exchange) in
          (
            head,
            ((IsWeb-iff url).1 web, r, c, x),
            ok,
            subst (Describes head) (sym is) (file_info-Describes head size sized),
          ),
      λ found.
          let (head, replies, ok, described) = found in
          let (sized, is) = Describes-file_info head info described in
          no_trouble head replies
          ∙ (finding head info.total_size ((IsWeb-iff url).0 replies.0) ok sized
              ∙ ap successful (sym is)),
    )

    redirect-Moves :
        (location : Bytes)
        → (fetch_file_info what url resolving connecting exchange ≡ redirect location)
          ↔ Moves url resolving connecting exchange location
    redirect-Moves location = (
      λ e.
          let (head, (r, c, x, web), (moved, at)) =
            subst (λ t. IsTruthful t url resolving connecting exchange) e
              (fetch_file_info-IsTruthful what url resolving connecting exchange) in
          (head, ((IsWeb-iff url).1 web, r, c, x), (OneOf-iff head.status).1 moved, at),
      λ moves.
          let (head, replies, one, at) = moves in
          no_trouble head replies
          ∙ moving head location ((IsWeb-iff url).0 replies.0) ((OneOf-iff head.status).0 one) at,
    )

    failure-HasCode : HasCode (fetch_file_info what url resolving connecting exchange)
    failure-HasCode =
        go (fetch_file_info what url resolving connecting exchange)
          (fetch_file_info-IsTruthful what url resolving connecting exchange)
      where
        go : (r : FetchResult) → IsTruthful r url resolving connecting exchange → HasCode r
        go (fetch_failed e) h = h
        go (successful info) h = tt
        go (redirect location) h = tt

-- FetchFileInfo finds a file exactly where the scheme is http or https, nothing is thrown on the way,
-- the status is 200 and the fields of the response describe that file: its size is what stoull reads
-- from Content-Length, it has ranges exactly if Accept-Ranges is "bytes", and its validators are those
-- of the response. It finds a redirection exactly for one of the five redirecting statuses, to the
-- Location of the response. Every other result is a failure with a code that is not the one for success.
-- A printed number below 2 ^ 64 is read by stoull as that number.
pub fetch_file_info_lem :
    (what : Bytes) (url : Url) (resolving connecting : Option Exception) (exchange : Exchange)
    (n : ℕ)
    → n < u64_mod
    → let r = fetch_file_info what url resolving connecting exchange in
      ((info : FileInfo) → (r ≡ successful info) ↔ Finds url resolving connecting exchange info)
      × ((location : Bytes)
          → (r ≡ redirect location) ↔ Moves url resolving connecting exchange location)
      × HasCode r
      × (stoull (decimal n) ≡ some n)
fetch_file_info_lem what url resolving connecting exchange n h = (
  success-Finds what url resolving connecting exchange,
  redirect-Moves what url resolving connecting exchange,
  failure-HasCode what url resolving connecting exchange,
  stoull-decimal n h,
)
