-- ===== src/Manager/Requests/Answered.antt =====
-- The dispatcher's loop over the queue: no request for a download is left without an answer.
use mathlib.Core.Path.{subst}
use muld.Prelude.{
  ℕ, zero, suc, ◌≡◌, refl, sym, ap, ◌∙◌, List, [], ◌∷◌, length, elem_at, set, All,
  get_elem?-set_self, length-set,
}
use muld.Prelude.Bytes.{Bytes}
use muld.Prelude.Floats.{Floats}
use muld.Types.{Url}
use muld.Outcome.{Outcome, returns, ◌>>=◌, or_null}
use muld.Disk.{Disk}
use muld.Engine.{Engine}
use muld.Handler.{Handler}
use muld.Manager.{FetchResult}
use muld.Manager.Load.{Jobs}
use muld.Manager.Requests.Served.{IsAnswered, NeverEmpty, AreDownloads, AnsweredAt, serve-Answers}
use muld.Manager.Requests.{PendingRequest, RequestKind, download, serve, serve_all}

module _ (D : Floats) (drained started : Engine D.F → Engine D.F) (now unix : ℕ) where
  open D use {F}

  -- Answering one handle leaves no other unanswered.
  set-AnsweredAt :
      (hs : List (Handler F)) (i j : ℕ) (h : Handler F)
      → IsAnswered h
      → AnsweredAt hs j
      → AnsweredAt (set hs i h) j
  set-AnsweredAt [] i j h a was = was
  set-AnsweredAt (x ∷ hs) zero zero h a was = (h, refl, a)
  set-AnsweredAt (x ∷ hs) zero (suc j) h a was = was
  set-AnsweredAt (x ∷ hs) (suc i) zero h a was = was
  set-AnsweredAt (x ∷ hs) (suc i) (suc j) h a was = set-AnsweredAt hs i j h a was

  -- The handles after the loop, as many as before.
  abbrev AnswersAll :
      Outcome (List (Handler F) × Jobs F × Disk) → List (Handler F) → List PendingRequest → Type 0
  AnswersAll o hs requests =
      (hs' : List (Handler F)) × (m : Jobs F) × (d : Disk) × (o ≡ returns (hs', m, d))
      × (length hs' ≡ length hs)
      × ((j : ℕ) → AnsweredAt hs j → AnsweredAt hs' j)
      × All (λ r. AnsweredAt hs' r.handler) requests

  -- A queue of requests for downloads, whose handles are there, on a server that never redirects to an
  -- empty address: the dispatcher's rounds for them return, and then the handle of each request has failed
  -- or has its engine, as has every handle that was so before.
  pub serve_all-AnswersAll :
      (what : Bytes) (allocation : ℕ) (fetch : ℕ → Url → FetchResult)
      (requests : List PendingRequest) (hs : List (Handler F)) (m : Jobs F) (d : Disk)
      → NeverEmpty fetch
      → AreDownloads (length hs) requests
      → (hs' : List (Handler F)) × (m' : Jobs F) × (d' : Disk) × (serve_all D drained started now
            unix what allocation fetch requests hs m d
          ≡ returns (hs', m', d'))
        × (length hs' ≡ length hs)
        × ((j : ℕ) → AnsweredAt hs j → AnsweredAt hs' j)
        × All (λ r. AnsweredAt hs' r.handler) requests
  unfolding serve_all
  serve_all-AnswersAll what allocation fetch [] hs m d never all =
      (hs, m, d, refl, refl, λ j a. a, tt)
  serve_all-AnswersAll what allocation fetch (r ∷ rs) hs m d never
        (((url, destination, limit, kind), there), all) =
      let (h, at) = elem_at hs r.handler there in
      let (h', m', d', one, a) =
        serve-Answers D drained started now unix what allocation fetch r.callbacks url destination
          limit r.handler h m d never in
      let same : r ≡ record {
        kind = download url destination limit;
        callbacks = r.callbacks;
        handler = r.handler;
      } =
        ap
          (λ (k : RequestKind).
            let q : PendingRequest = record {
              kind = k;
              callbacks = r.callbacks;
              handler = r.handler;
            } in
            q)
          kind in
      let long = length-set hs r.handler h' in
      let (hs'', m'', d'', rest, len, kept, answered) =
        serve_all-AnswersAll what allocation fetch rs (set hs r.handler h') m' d' never
          (subst (λ n. AreDownloads n rs) (sym long) all) in
      (
        hs'',
        m'',
        d'',
        ap
              (λ o. or_null o >>= λ h.
                serve D drained started now unix what allocation fetch r h m d >>= λ s.
                serve_all D drained started now unix what allocation fetch rs (set hs r.handler s.0)
                  s.1 s.2)
              at
            ∙ ap
                (λ o. o >>= λ s.
                  serve_all D drained started now unix what allocation fetch rs
                    (set hs r.handler s.0) s.1 s.2)
                (ap (λ q. serve D drained started now unix what allocation fetch q h m d) same
                  ∙ one)
            ∙ rest,
        len ∙ long,
        λ j was. kept j (set-AnsweredAt hs r.handler j h' a was),
        (kept r.handler (h', get_elem?-set_self hs r.handler h' there, a), answered),
      )
