-- ===== src/Engine/Follows/Operations.antt =====
-- Cancelling, failing, storing, the notifications of connections and the last chunk.
use muld.Prelude.{
  ℕ, ◌+◌, ◌≡◌, refl, sym, ap, ◌∙◌, Bool, true, false, ◌&&◌, not, ◌-◌, ◌==◌, if◌then◌else◌, arith,
  if_both,
}
use muld.Prelude.Bytes.{u64, u64_mod}
use muld.Types.{
  MuldError, DownloadState, initialized, queued, downloading, completed, failed, paused, canceled,
  on_state_change, on_finish, on_error, calls,
}
use muld.Outcome.{Outcome, returns, ◌>>=◌, >>=-eq-returns, returns-eq}
use muld.Disk.{Disk}
use muld.Connections.{open_connection, close_connection}
use muld.Engine.{Engine, emit, set_state, is_zero_ℤ, is_queued, is_canceled}
use muld.Engine.Storage.{store, cleanup}
use muld.Engine.Control.{cancel, notify_connection_open, notify_connection_close, fail, fail_stored}
use muld.Engine.Tally.{store-kept}
use muld.Engine.Receive.{can_complete, finish_job, finish_stored, count_chunk}
use muld.Engine.States.{finishes, is_completed}
use muld.Engine.Follows.{
  Follows, Follows-log, Follows-trans, cleanup-log, emit-Follows, finishes-append, finishes-finish,
  log, log_of, set_state-Follows, state-Follows,
}

module _ {F : Type 0} where
  pub cancel-Follows : (e : Engine F) (d : Disk) → Follows e ((cancel e d).1)
  unfolding cancel
  cancel-Follows e d =
      let changed = set_state canceled e in
      let f = set_state-Follows canceled e refl refl in
      if_both (λ (r : Bool × Engine F × Disk). Follows e r.1) (not changed.0) _ _
        (Follows-log _ _ refl)
        (if_both (λ (r : Bool × Engine F × Disk). Follows e r.1)
          (is_zero_ℤ changed.1.connections.n_connections) _ _
          (Follows-trans _ _ _ f (Follows-log _ _ ((cleanup-log changed.1 d true)))) f)

  pub open-Follows : (e : Engine F) → Follows e ((notify_connection_open e))
  unfolding notify_connection_open
  open-Follows e = go (is_queued e.state) (queued-open e.state)
    where
      opened : Engine F
      opened = record e { connections = open_connection e.connections }

      queued-open : (s : DownloadState) → is_queued s ≡ true → is_completed s ≡ false
      queued-open completed h = absurd (cc)
      queued-open initialized h = refl
      queued-open queued h = refl
      queued-open downloading h = refl
      queued-open failed h = refl
      queued-open paused h = refl
      queued-open canceled h = refl

      go :
          (b : Bool)
          → (b ≡ true → is_completed e.state ≡ false)
          → Follows e (
              (if b
                then emit (record opened { state = downloading }) (on_state_change downloading)
                else opened))
      go true open_job = Follows-trans e opened _ (Follows-log e opened refl) (
          Follows-trans opened _ _ (state-Follows downloading opened refl (open_job refl)) (
            emit-Follows (record opened { state = downloading }) (on_state_change downloading)
              refl))
      go false open_job = Follows-log _ _ refl

  pub close-Follows : (e : Engine F) (d : Disk) → Follows e ((notify_connection_close e d).0)
  unfolding notify_connection_close
  close-Follows e d =
      let closed : Engine F = record e { connections = close_connection e.connections } in
      if_both (λ (r : Engine F × Disk). Follows e r.0)
        (is_zero_ℤ closed.connections.n_connections && is_canceled e.state) _ _
        (Follows-log _ _ ((cleanup-log closed d true))) (Follows-log _ _ refl)

  pub store-Follows :
      (e : Engine F) (d : Disk) (unix : ℕ) (r : Engine F × Disk)
      → store e d unix ≡ returns r
      → Follows e r.0
  store-Follows e d unix r h = Follows-log _ _ ((ap log_of (store-kept e d unix r h)))

  pub fail-Follows :
      (e : Engine F) (d : Disk) (unix : ℕ) (error : MuldError) (r : Engine F × Disk)
      → fail e d unix error ≡ returns r
      → Follows e r.0
  unfolding fail fail_stored
  fail-Follows e d unix error r h =
      if_both (λ (m : Outcome (Engine F × Disk)). m ≡ returns r → Follows e r.0) changed.0 _ _
        failing
        (λ done.
          Follows-log e r.0
            (ap (λ (s : Engine F × Disk). log s.0) (sym (returns-eq (e, d) r done))))
        h
    where
      changed : Bool × Engine F
      changed = set_state failed e

      failing :
          (store changed.1 d unix >>= λ saved. returns (fail_stored error saved)) ≡ returns r
          → Follows e r.0
      failing q =
          let (saved, stored, done) = >>=-eq-returns (store changed.1 d unix) _ r q in
          let failed_at : Engine F = record (saved.0) { error = error } in
          let told = emit-Follows failed_at (on_error error) refl in
          let same : emit failed_at (on_error error) ≡ r.0 =
            ap (λ (s : Engine F × Disk). s.0) (returns-eq (fail_stored error saved) r done) in
          let f = set_state-Follows failed e refl refl in
          let g = store-Follows changed.1 d unix saved stored in
          Follows-trans e changed.1 r.0 f (
            Follows-trans changed.1 saved.0 r.0 g (
              Follows-trans saved.0 failed_at r.0 (Follows-log saved.0 failed_at refl) (
                Follows-trans failed_at (emit failed_at (on_error error)) r.0 told
                  (Follows-log (emit failed_at (on_error error)) r.0 (sym (ap log same))))))

  pub finished-Follows :
      (e c : Engine F)
      → is_completed e.state ≡ false
      → log c ≡ (completed, e.callbacks, e.events)
      → Follows e (emit c on_finish)
  finished-Follows e c open_job k = record {
    count = rw (ap (λ l. l.0) k) (
        ground (
          arith,
          open_job,
          finishes-append c.events (calls c.callbacks on_finish),
          finishes-finish F c.callbacks,
          ap (λ l. finishes l.2) k,
          ap (λ l. l.1.has_finish) k,
        ));
    final = λ h. absurd (cc);
    same = ap (λ l. l.1) k;
  }

  pub finish-Follows :
      (e : Engine F) (d : Disk) (unix : ℕ) (r : Engine F × Disk)
      → is_completed e.state ≡ false
      → finish_job e d unix ≡ returns r
      → Follows e r.0
  unfolding finish_job finish_stored
  finish-Follows e d unix r open_job h =
      let (saved, stored, done) =
        >>=-eq-returns (store (record e { state = completed }) d unix)
          (λ s. returns (finish_stored s)) r h in
      let k : log saved.0 ≡ (completed, e.callbacks, e.events) =
        ap log_of (store-kept (record e { state = completed }) d unix saved stored) in
      let cleaned = (cleanup saved.0 saved.1 false).0 in
      let c : log cleaned ≡ (completed, e.callbacks, e.events) =
        cleanup-log saved.0 saved.1 false ∙ k in
      let same : emit cleaned on_finish ≡ r.0 =
        ap (λ (s : Engine F × Disk). s.0) (returns-eq (finish_stored saved) r done) in
      Follows-trans e (emit cleaned on_finish) r.0 (finished-Follows e cleaned open_job c)
        (Follows-log (emit cleaned on_finish) r.0 (sym (ap log same)))

  pub count-Follows :
      (e : Engine F) (d : Disk) (unix : ℕ) (r : Engine F × Disk)
      → count_chunk e d unix ≡ returns r
      → Follows e r.0
  unfolding count_chunk
  count-Follows e d unix r h =
      go (e.downloaded_chunks == u64 (e.n_chunks + u64_mod - 1)) (can_complete e.state)
        (completable e.state) h
    where
      counted : Engine F
      counted = record e { downloaded_chunks = u64 (e.downloaded_chunks + 1) }

      completable : (s : DownloadState) → can_complete s ≡ true → is_completed s ≡ false
      completable completed h = absurd (cc)
      completable initialized h = refl
      completable queued h = refl
      completable downloading h = refl
      completable failed h = refl
      completable paused h = refl
      completable canceled h = refl

      same : returns (counted, d) ≡ returns r → Follows e r.0
      same q =
          Follows-log e r.0
            (ap (λ (s : Engine F × Disk). log s.0) (sym (returns-eq (counted, d) r q)))

      go :
          (last able : Bool)
          → (able ≡ true → is_completed e.state ≡ false)
          → (if last && able then finish_job counted d unix else returns (counted, d)) ≡ returns r
          → Follows e r.0
      go true true open_job q =
          Follows-trans e counted r.0 (Follows-log e counted refl)
            (finish-Follows counted d unix r (open_job refl) q)
      go true false open_job q = same q
      go false able open_job q = same q
