-- ===== src/Downloader/Found.antt =====
-- When FetchFileInfo finds a file, a redirection, or fails.
use muld.Prelude.{ℕ, ◌≡◌, refl, ap, true, false, Option, none, some, ◌==◌, arith, if_either}
use muld.Prelude.Bytes.{Bytes}
use muld.Types.{Url, http_error, is_ok}
use muld.Manager.{FetchResult, fetch_failed, redirect, successful, is_supported}
use muld.Downloader.Request.{
  Exception, http_exception, disk_exception, system_exception, other_exception,
}
use muld.Downloader.Fetch.{
  Head, text_of, file_info, stoull, create_file_info, is_redirection, Exchange, broken, replied,
  fetch_caught, setup_caught, catch_setup, close_socket, failure, found_file, redirected,
  fetch_file_info_impl, fetch_file_info,
}

-- No exception, and an answer.
abbrev pub Answered : Url → Option Exception → Option Exception → Exchange → Head → Type 0
Answered url resolving connecting exchange head =
    (resolving ≡ none)
    × (connecting ≡ none)
    × (exchange ≡ replied head none)
    × (is_supported url ≡ true)

-- What a result says of the answer that it was made from.
abbrev pub Says : FetchResult → Head → Type 0
Says (successful info) head =
    (head.status ≡ 200)
    × (size : ℕ) × (stoull (text_of head.content_length) ≡ some size)
    × (info ≡ file_info head size)
Says (redirect location) head =
    (is_redirection head.status ≡ true) × (head.location ≡ some location)
Says (fetch_failed e) head = is_ok e.error_code ≡ false

-- A result: a failure, or one that says what was answered.
abbrev pub IsTruthful : FetchResult → Url → Option Exception → Option Exception → Exchange → Type 0
IsTruthful (fetch_failed e) url resolving connecting exchange = is_ok e.error_code ≡ false
IsTruthful (successful info) url resolving connecting exchange =
    (head : Head) × Answered url resolving connecting exchange head × Says (successful info) head
IsTruthful (redirect location) url resolving connecting exchange =
    (head : Head) × Answered url resolving connecting exchange head × Says (redirect location) head

module _ (url : Url) (resolving connecting : Option Exception) (exchange : Exchange) where
  abbrev Truthful : FetchResult → Type 0
  Truthful r = IsTruthful r url resolving connecting exchange

  fetch_caught-Truthful : (e : Exception) → Truthful (fetch_caught e)
  unfolding fetch_caught
  fetch_caught-Truthful (http_exception s w) = refl
  fetch_caught-Truthful (disk_exception w) = refl
  fetch_caught-Truthful (system_exception w) = refl
  fetch_caught-Truthful (other_exception w) = refl

  setup_caught-Truthful : (e : Exception) → Truthful (setup_caught e)
  unfolding setup_caught
  setup_caught-Truthful (http_exception s w) = refl
  setup_caught-Truthful (disk_exception w) = refl
  setup_caught-Truthful (system_exception w) = refl
  setup_caught-Truthful (other_exception w) = refl

  found_file-Truthful :
      (what : Bytes) (head : Head) (closing : Option Exception) (size : Option ℕ)
      → stoull (text_of head.content_length) ≡ size
      → head.status ≡ 200
      → (closing ≡ none → Answered url resolving connecting exchange head)
      → Truthful (found_file what (create_file_info head) closing)
  unfolding create_file_info
  found_file-Truthful what head closing none e s h =
      rw e (fetch_caught-Truthful (other_exception what))
  found_file-Truthful what head none (some n) e s h = rw e (head, h refl, (s, n, e, refl))
  found_file-Truthful what head (some x) (some n) e s h = rw e (fetch_caught-Truthful x)

  redirected-Truthful :
      (head : Head) (closing : Option Exception) (location : Option Bytes)
      → head.location ≡ location
      → is_redirection head.status ≡ true
      → (closing ≡ none → Answered url resolving connecting exchange head)
      → Truthful (close_socket closing (redirected head.status location))
  redirected-Truthful head (some x) location e s h = fetch_caught-Truthful x
  redirected-Truthful head none none e s h = refl
  redirected-Truthful head none (some l) e s h = (head, h refl, (s, e))

  refused-Truthful :
      (closing : Option Exception) (status : ℕ) (text : Bytes)
      → Truthful (close_socket closing (failure http_error status text))
  refused-Truthful (some x) status text = fetch_caught-Truthful x
  refused-Truthful none status text = refl

-- A result is made from what the server sent.
pub fetch_file_info-IsTruthful :
    (what : Bytes) (url : Url) (resolving connecting : Option Exception) (exchange : Exchange)
    → IsTruthful
        (fetch_file_info what url resolving connecting exchange)
        url
        resolving
        connecting
        exchange
unfolding fetch_file_info fetch_file_info_impl
fetch_file_info-IsTruthful what url (some x) connecting exchange =
    setup_caught-Truthful url (some x) connecting exchange x
fetch_file_info-IsTruthful what url none connecting exchange =
    if_either (λ r. IsTruthful r url none connecting exchange) (is_supported url) _ _
      (λ supported. go connecting exchange supported) (λ _. refl)
  where
    go :
        (connecting : Option Exception) (exchange : Exchange)
        → is_supported url ≡ true
        → IsTruthful
            (catch_setup connecting (fetch_file_info_impl what exchange))
            url
            none
            connecting
            exchange
    go (some x) exchange supported = setup_caught-Truthful url none (some x) exchange x
    go none (broken x) supported = fetch_caught-Truthful url none none (broken x) x
    go none (replied head closing) supported =
        let answered = λ (e : closing ≡ none).
          let tuple : Answered url none none (replied head closing) head =
            (refl, refl, ap (replied head) e, supported) in
          tuple in
        if_either (λ r. IsTruthful r url none none (replied head closing)) (head.status == 200) _ _
          (λ ok.
            found_file-Truthful url none none (replied head closing) what head closing _ refl
              (ground arith) answered)
          (λ _.
            if_either (λ r. IsTruthful r url none none (replied head closing))
              (is_redirection head.status) _ _
              (λ moved.
                redirected-Truthful url none none (replied head closing) head closing head.location
                  refl moved answered)
              (λ _. refused-Truthful url none none (replied head closing) closing head.status _))
