-- ===== src/Manager/Requests/Served.antt =====
-- One round of the dispatcher's loop, for a download: it returns, with an answer.
use mathlib.Core.Option
use muld.Prelude.{
  ℕ, zero, suc, ◌+◌, ◌≡◌, ◌≢◌, ◌<◌, ◌⊎◌, inl, inr, refl, ap, ◌∙◌, Option, none, some, List, [], ◌∷◌,
  ◌++◌, get_elem?, All, if_either,
}
use muld.Prelude.Int.{ℤ, pos_part}
use muld.Prelude.Bytes.{Bytes}
use muld.Prelude.Floats.{Floats}
use muld.Types.{
  Url, DownloadCallbacks, disk_write_failed, failed, paused, queued, canceled, initialized,
  downloading, completed, DownloadState, CallbackEvent,
}
use muld.Outcome.{Outcome, returns, ◌>>=◌, or_throw}
use muld.Url.{parse_url}
use muld.Disk.{Disk, open_writer}
use muld.Engine.{Engine, identity_key}
use muld.Engine.Control.{cancel, pause}
use muld.Engine.Launch.{new_engine, fresh, reset_speed, resume}
use muld.Handler.{
  Handler, note, deliver, deliver_all, settle, fail_before_engine_start, attach_engine, catch_up,
}
use muld.Manager.{
  FileInfo, FetchResult, successful, redirect, fetch_failed, Probe, found, refused, probe,
  probe_answer, max_redirect_allow, is_supported, plan_chunks,
}
use muld.Manager.Load.{Jobs, Loaded, attached}
use muld.Manager.Requests.{
  PendingRequest, download, serve, make_download, set_up_download, plan_download, answer_download,
  no_callbacks, connections_for, answer_handler, validated,
}

-- A handle that failed or has its engine.
abbrev pub IsAnswered : {F : Type 0} → Handler F → Type 0
IsAnswered {F} h = (h.state ≡ failed) ⊎ ((e : Engine F) × (h.engine ≡ some e))

-- No redirection of the server is to an empty address.
abbrev pub NeverEmpty : (ℕ → Url → FetchResult) → Type 0
NeverEmpty fetch = (attempt : ℕ) (url : Url) → fetch attempt url ≢ redirect []

-- The requests of a queue are for downloads, and their handles are there.
abbrev pub IsDownload : PendingRequest → Type 0
IsDownload r =
    (url : Url) × (destination : Bytes) × (limit : ℕ) × (r.kind ≡ download url destination limit)

abbrev pub AreDownloads : ℕ → List PendingRequest → Type 0
AreDownloads n requests = All (λ r. IsDownload r × (r.handler < n)) requests

-- The handle at a place is there and answered.
abbrev pub AnsweredAt : {F : Type 0} → List (Handler F) → ℕ → Type 0
AnsweredAt {F} handlers i = (h : Handler F) × (get_elem? handlers i ≡ some h) × IsAnswered h

module _ {F : Type 0} where
  deliver_all-engine :
      (h : Handler F) (events : List (CallbackEvent F)) → (deliver_all h events).engine ≡ h.engine
  unfolding deliver_all deliver
  deliver_all-engine h [] = refl
  deliver_all-engine h (event ∷ events) = deliver_all-engine (deliver h event) events ∙ kept event
    where
      kept : (event : CallbackEvent F) → (note h event).engine ≡ h.engine
      kept (CallbackEvent.on_progress p) = refl
      kept (CallbackEvent.on_chunk_progress e) = refl
      kept (CallbackEvent.on_state_change s) = refl
      kept CallbackEvent.on_finish = refl
      kept (CallbackEvent.on_error e) = refl

  settle-IsAnswered : (h : Handler F) (e : Engine F) → IsAnswered (settle h e)
  unfolding settle
  settle-IsAnswered h e = inr (
    record e { events = [] },
    deliver_all-engine (record h { engine = some (record e { events = [] }) }) e.events,
  )

module _ (D : Floats) (drained started : Engine D.F → Engine D.F) (now unix : ℕ) where
  open D use {F}

  catch_up-IsAnswered :
      (s : DownloadState) (h : Handler F) (d : Disk) (e : Engine F)
      → h.engine ≡ some e
      → IsAnswered (catch_up D drained started now s h d e).0
  catch_up-IsAnswered canceled h d e has = settle-IsAnswered h (cancel e d).1
  catch_up-IsAnswered paused h d e has = settle-IsAnswered h (pause e).1
  catch_up-IsAnswered queued h d e has = settle-IsAnswered h (resume D drained started now e).1
  catch_up-IsAnswered initialized h d e has = inr (e, has)
  catch_up-IsAnswered downloading h d e has = inr (e, has)
  catch_up-IsAnswered completed h d e has = inr (e, has)
  catch_up-IsAnswered failed h d e has = inr (e, has)

  answer_handler-IsAnswered :
      (h : Handler F) (d : Disk) (l : Loaded F)
      → IsAnswered (answer_handler D drained started now unix h d l).0
  unfolding answer_handler fail_before_engine_start attach_engine
  answer_handler-IsAnswered h d (Loaded.refused code message) = inl refl
  answer_handler-IsAnswered h d (attached e) = catch_up-IsAnswered h.desired_state _ d _ refl

  validated-IsAnswered :
      (p : Probe) (h : Handler F)
      → IsAnswered h
      → IsAnswered (validated D drained started now unix p h)
  validated-IsAnswered (refused code message) h a = a
  validated-IsAnswered (found info url) h (inl s) = inl s
  validated-IsAnswered (found info url) h (inr (e, has)) = inr (_, ap (Option.map _) has)

  -- How a round ends: it returns, and the handle is answered.
  abbrev pub Answers : Outcome (Handler F × Jobs F × Disk) → Type 0
  Answers o = (h : Handler F) × (m : Jobs F) × (d : Disk) × (o ≡ returns (h, m, d)) × IsAnswered h

  probe-returns :
      (fetch : ℕ → Url → FetchResult) (left attempt : ℕ) (url : Url)
      → NeverEmpty fetch
      → (p : Probe) × (probe fetch left attempt url ≡ returns p)
  unfolding probe
  probe-returns fetch zero attempt url never = (_, refl)
  probe-returns fetch (suc left) attempt url never =
      if_either (λ o. (p : Probe) × (o ≡ returns p)) (is_supported url) _ _
        (λ _.
          answer (fetch attempt url) refl
            (λ url'. probe-returns fetch left (attempt + 1) url' never))
        (λ _. (_, refl))
    where
      answer :
          (r : FetchResult)
          → fetch attempt url ≡ r
          → ((url' : Url) → (p : Probe) × (probe fetch left (attempt + 1) url' ≡ returns p))
          → (p : Probe) × (probe_answer url r (λ url'. probe fetch left (attempt + 1) url')
              ≡ returns p)
      answer (successful info) h again = (_, refl)
      answer (fetch_failed e) h again = (_, refl)
      answer (redirect []) h again = absurd (never attempt url h)
      answer (redirect (c ∷ cs)) h again = unfold parse_url in again _

  make_download-Answers :
      (what : Bytes) (m : Jobs F) (info : FileInfo) (url : Url) (limit : ℕ) (d : Disk)
      (h : Handler F) (destination : Bytes) (n : ℕ) (most : ℤ)
      → Answers (
          make_download D drained started now unix what m info limit d (
            new_engine D url destination most info.total_size info.supports_range n no_callbacks now
              unix d)
          >>= answer_download D drained started now unix (found info url) h)
  unfolding make_download new_engine
  make_download-Answers what m info url limit d h destination n most =
      go (open_writer d destination info.total_size)
    where
      answered :
          (d' : Disk) (l : Loaded F) (m' : Jobs F)
          → Answers (answer_download D drained started now unix (found info url) h (l, m', d'))
      answered d' l m' = (
        validated D drained started now unix (found info url)
            (answer_handler D drained started now unix h d' l).0,
        m',
        (answer_handler D drained started now unix h d' l).1,
        refl,
        validated-IsAnswered (found info url) (answer_handler D drained started now unix h d' l).0
            (answer_handler-IsAnswered h d' l),
      )

      go :
          (o : Option Disk)
          → Answers (
              make_download D drained started now unix what m info limit d (
                or_throw o >>= λ d'. returns (
                  reset_speed D
                      (fresh D url destination most info.total_size info.supports_range n
                        no_callbacks now unix)
                      now,
                  d',
                ))
              >>= answer_download D drained started now unix (found info url) h)
      go none = answered d (Loaded.refused disk_write_failed what) m
      go (some d') =
          let job = set_up_download D drained started now unix m info limit (
            reset_speed D
              (fresh D url destination most info.total_size info.supports_range n no_callbacks now
                unix)
              now) in
          answered d' (attached job)
            (record m { jobs = m.jobs ++ job ∷ []; identities = identity_key job ∷ m.identities })

  pub serve-Answers :
      (what : Bytes) (allocation : ℕ) (fetch : ℕ → Url → FetchResult)
      (callbacks : DownloadCallbacks) (url : Url) (destination : Bytes) (limit place : ℕ)
      (h : Handler F) (m : Jobs F) (d : Disk)
      → NeverEmpty fetch
      → Answers (
          serve D drained started now unix what allocation fetch
            (record {
              kind = download url destination limit;
              callbacks = callbacks;
              handler = place;
            })
            h
            m
            d)
  unfolding serve
  serve-Answers what allocation fetch callbacks url destination limit place h m d never =
      let (p, probed) = probe-returns fetch max_redirect_allow 0 url never in
      let K = λ (q : Probe).
        plan_download D drained started now unix what m destination limit d q
        >>= answer_download D drained started now unix q h in
      let (h', m', d', e, a) = go p in (h', m', d', ap (λ q. q >>= K) probed ∙ e, a)
    where
      go :
          (p : Probe)
          → Answers (
              plan_download D drained started now unix what m destination limit d p
              >>= answer_download D drained started now unix p h)
      go (refused code message) =
          (_, _, _, refl, answer_handler-IsAnswered h d (Loaded.refused code message))
      go (found info url') =
          make_download-Answers what m info url' limit d h destination
            (plan_chunks info (pos_part (connections_for m info limit)))
            (connections_for m info limit)
