-- ===== src/Manager/Requests/Started.antt =====
-- A download from the call to the workers that are planned for it.
use muld.Prelude.{ℕ, ◌≡◌, refl, ap, ◌∙◌, Bool, true, false, some, [], ◌∷◌, ◌++◌, arith}
use muld.Prelude.Int.{ℤ, pos, negsuc, pos_part, ◌≤ℤ◌, ◌+ℤ◌, ◌-ℤ◌}
use muld.Prelude.Bytes.{Bytes}
use muld.Prelude.Floats.{Floats}
use muld.Types.{Url, DownloadCallbacks, queued}
use muld.Outcome.{returns, ◌>>=◌}
use muld.Disk.{Disk, open_writer}
use muld.Chunk.{make_chunks, build_pending_work}
use muld.Connections.{new_connections, set_desired, set_bounds, plan_new_workers}
use muld.Engine.{
  Engine, identity_key, set_connection_bounds, set_desired_connections, set_validators,
  attach_callbacks, set_state,
}
use muld.Engine.Control.{build_work}
use muld.Engine.Launch.{fresh, new_engine, set_limit, resume, prepare, reset_speed}
use muld.Rate.{set_speed_limit}
use muld.Handler.{
  Handler, new_handler, resume_handler, set_speed_limit_handler, attach_engine, settle, deliver_all,
  deliver, all_callbacks,
}
use muld.Manager.{
  FileInfo, FetchResult, found, probe, max_redirect_allow, compute_initial_desired_connections,
  plan_chunks,
}
use muld.Manager.Plan.{compute_connections_lem}
use muld.Manager.Control.{enqueue_tasks}
use muld.Manager.Load.{Jobs, attached}
use muld.Manager.Requests.{
  PendingRequest, download, serve, set_up_download, make_download, connections_for, answer_handler,
  validated, no_callbacks, plan_download, answer_download,
}

-- The counters of a new job, once its workers are planned.
fresh_counters :
    (ranged : Bool) (most initial max_threads : ℤ)
    → pos 1 ≤ℤ initial
    → initial ≤ℤ most
    → most ≤ℤ max_threads
    → (ranged ≡ false → most ≡ pos 1)
    → let c = set_desired (set_bounds ranged (new_connections ranged most) (pos 1) most) initial in
      let (n, c') = plan_new_workers queued (record c { release_budget = pos 0 }) max_threads in
      (n ≡ initial)
      × (c'.desired ≡ initial)
      × (c'.scheduled ≡ initial)
      × (c'.max_connections ≡ most)
unfolding set_desired set_bounds new_connections plan_new_workers ◌+ℤ◌ ◌-ℤ◌
fresh_counters true most (pos i) max_threads one le cap single = ground arith
fresh_counters false most (pos i) max_threads one le cap single = ground (arith, single refl)
fresh_counters ranged most (negsuc i) max_threads one le cap single = absurd (omega arith)

abbrev pub planned_chunks : {F : Type 0} → Jobs F → FileInfo → ℕ → ℕ
planned_chunks m info limit = plan_chunks info (pos_part (connections_for m info limit))

abbrev pub start_in : {F : Type 0} → ℤ → Engine F → Engine F
start_in max_threads e = (enqueue_tasks max_threads e).1

module _ (D : Floats) (now unix : ℕ) where
  open D use {F}

  -- The handle that `Download` returns.
  abbrev pub queued_handler : ℤ → Url → Bytes → ℕ → DownloadCallbacks → Handler F
  queued_handler max_threads url destination limit callbacks =
      set_speed_limit_handler D
        (resume_handler D (λ e. e) (start_in max_threads) now
          (new_handler D url destination callbacks))
        limit now

  new_engine-returns :
      (url : Url) (destination : Bytes) (most : ℤ) (size : ℕ) (ranged : Bool) (n_chunks : ℕ)
      (callbacks : DownloadCallbacks) (d d' : Disk)
      → open_writer d destination size ≡ some d'
      → new_engine D url destination most size ranged n_chunks callbacks now unix d
        ≡ returns (
          reset_speed D (fresh D url destination most size ranged n_chunks callbacks now unix) now,
          d',
        )
  unfolding new_engine
  new_engine-returns url destination most size ranged n_chunks callbacks d d' opened =
      rw opened refl

  -- The round, for a server that has the file and a new engine.
  serve-found :
      (drained started : Engine F → Engine F) (what : Bytes) (allocation : ℕ)
      (fetch : ℕ → Url → FetchResult) (callbacks : DownloadCallbacks) (url url' : Url)
      (destination : Bytes) (limit place : ℕ) (h : Handler F) (m : Jobs F) (d d' : Disk)
      (info : FileInfo) (e : Engine F)
      → probe fetch max_redirect_allow 0 url ≡ returns (found info url')
      → new_engine D url' destination
          (connections_for m info limit)
          info.total_size
          info.supports_range
          (planned_chunks m info limit)
          no_callbacks
          now
          unix
          d
        ≡ returns (e, d')
      → let request : PendingRequest = record {
        kind = download url destination limit;
        callbacks = callbacks;
        handler = place;
      } in
        let job = set_up_download D drained started now unix m info limit e in
        let answered = answer_handler D drained started now unix h d' (attached job) in
        serve D drained started now unix what allocation fetch request h m d
        ≡ returns (
          validated D drained started now unix (found info url') answered.0,
          record m { jobs = m.jobs ++ job ∷ []; identities = identity_key job ∷ m.identities },
          answered.1,
        )
  unfolding serve make_download
  serve-found drained started what allocation fetch callbacks url url' destination limit place h m d
        d' info e probed made =
      ap
        (λ q. q >>= λ p.
          plan_download D drained started now unix what m destination limit d p
          >>= answer_download D drained started now unix p h)
        probed
      ∙ ap
          (λ o.
            make_download D drained started now unix what m info limit d o
            >>= answer_download D drained started now unix (found info url') h)
          made

  -- A download that nothing is asked of after the call, with at least one thread, a server that the
  -- probe finds the file on, and an output file that can be opened: the round returns, the handle has an
  -- engine, and both are queued. The engine has the address that the redirections led to, the output path
  -- of the call, the planned chunks and the work for all their missing bytes, the validators of the
  -- response and the speed limit of the call; as many workers are scheduled as it wishes, which is the
  -- planned first number. Its identity joins the index.
  pub serve-download :
      (what : Bytes) (allocation : ℕ) (fetch : ℕ → Url → FetchResult)
      (callbacks : DownloadCallbacks) (url url' : Url) (destination : Bytes) (limit place : ℕ)
      (m : Jobs F) (d d' : Disk) (info : FileInfo)
      → pos 1 ≤ℤ m.max_threads
      → probe fetch max_redirect_allow 0 url ≡ returns (found info url')
      → open_writer d destination info.total_size ≡ some d'
      → let request : PendingRequest = record {
        kind = download url destination limit;
        callbacks = callbacks;
        handler = place;
      } in
        let chunks = make_chunks info.total_size (planned_chunks m info limit) in
        let initial = compute_initial_desired_connections limit (connections_for m info limit) in
        (h : Handler F) × (m' : Jobs F) × (e : Engine F) × (serve D
            (λ e. e)
            (start_in m.max_threads)
            now
            unix
            what
            allocation
            fetch
            request
            (queued_handler m.max_threads url destination limit callbacks)
            m
            d
          ≡ returns (h, m', d'))
        × (h.engine ≡ some e)
        × (h.state ≡ queued)
        × (e.state ≡ queued)
        × (e.url ≡ url')
        × (e.output_path ≡ destination)
        × (e.chunks ≡ chunks)
        × (e.pending_work ≡ (build_pending_work chunks).0)
        × (e.etag ≡ info.etag)
        × (e.last_modified ≡ info.last_modified)
        × (e.rate.speed_limit_bps ≡ limit)
        × (e.connections.desired ≡ initial)
        × (e.connections.scheduled ≡ initial)
        × (m'.identities ≡ identity_key e ∷ m.identities)
  unfolding serve make_download fresh answer_handler attach_engine set_up_download resume_handler
      set_speed_limit_handler new_handler settle deliver_all deliver resume set_state prepare
      reset_speed build_work set_limit set_connection_bounds set_desired_connections set_validators
      attach_callbacks enqueue_tasks identity_key set_speed_limit
  serve-download what allocation fetch callbacks url url' destination limit place m d d' info
        some_threads probed opened =
      let most = connections_for m info limit in
      let initial = compute_initial_desired_connections limit most in
      let bounds = compute_connections_lem info.supports_range limit m.max_threads some_threads in
      let counters =
        fresh_counters info.supports_range most initial m.max_threads bounds.4 bounds.6 bounds.2
          bounds.3 in
      let made =
        fresh D url' destination most info.total_size info.supports_range
          (planned_chunks m info limit) no_callbacks now unix in
      let job =
        set_up_download D (λ e. e) (start_in m.max_threads) now unix m info limit
          (reset_speed D made now) in
      let m' : Jobs F = record m {
        jobs = m.jobs ++ job ∷ [];
        identities = identity_key job ∷ m.identities;
      } in
      let waiting = queued_handler m.max_threads url destination limit callbacks in
      let h =
        validated D (λ e. e) (start_in m.max_threads) now unix (found info url')
          (answer_handler D (λ e. e) (start_in m.max_threads) now unix waiting d'
            (attached job)).0 in
      let e =
        set_validators
          (start_in m.max_threads (
            prepare D
              (set_state queued (set_limit D (attach_callbacks job all_callbacks) limit now)).1
              now))
          info.etag info.last_modified in
      (
        h,
        m',
        record e { events = [] },
        serve-found (λ e. e) (start_in m.max_threads) what allocation fetch callbacks url url'
            destination limit place waiting m d d' info (reset_speed D made now) probed
            (new_engine-returns url' destination most info.total_size info.supports_range
              (planned_chunks m info limit) no_callbacks d d' opened),
        refl,
        refl,
        refl,
        refl,
        refl,
        refl,
        refl,
        refl,
        refl,
        refl,
        counters.1,
        counters.2,
        refl,
      )
