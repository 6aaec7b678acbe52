-- ===== src/Engine/Canceled.antt =====
-- A canceled job: its files, and what a resumption of it finds.
use muld.Prelude.{
  ℕ, ◌≡◌, refl, ap, ◌∙◌, Bool, true, false, not, Option, none, ◌++◌, if◌then◌else◌, if_true,
  if_false, if_both, eq_bytes, eq_bytes_refl,
}
use muld.Prelude.Bytes.{Bytes}
use muld.Prelude.Floats.{Floats}
use muld.Types.{on_state_change, queued, canceled}
use muld.Outcome.{null_pointer}
use muld.Disk.{Disk, read_file, remove_file, read-remove_file}
use muld.Connections.{Connections}
use muld.Engine.{Engine, emit, allows, set_state, is_zero_ℤ, image_suffix}
use muld.Engine.Storage.{store, cleanup}
use muld.Engine.Control.{build_work, cancel}
use muld.Engine.Launch.{reset_speed, prepare, resume}
use muld.Engine.States.{on_connections}

module _ {F : Type 0} where
  canceled_job : Engine F → Engine F
  canceled_job e = emit (record e { state = canceled }) (on_state_change canceled)

  cancel_idle :
      (e : Engine F) (d : Disk)
      → allows canceled e.state ≡ true
      → is_zero_ℤ e.connections.n_connections ≡ true
      → e.artifacts_cleaned ≡ false
      → cancel e d ≡ (
        true,
        record (canceled_job e) { writer = none; artifacts_cleaned = true },
        remove_file (remove_file d (e.output_path ++ image_suffix)) e.output_path,
      )
  unfolding cancel set_state canceled_job cleanup
  cancel_idle e d allowed idle present =
      ap (λ (r : Bool × Engine F). finished r)
        (if_true (allows canceled e.state) (true, canceled_job e) (false, e) allowed)
      ∙ if_true (is_zero_ℤ e.connections.n_connections) (true, cleaned.0, cleaned.1)
          (true, canceled_job e, d) idle
      ∙ ap (λ (r : Engine F × Disk). (true, r.0, r.1))
          (if_false e.artifacts_cleaned (canceled_job e, d) _ present)
    where
      cleaned : Engine F × Disk
      cleaned = cleanup (canceled_job e) d true

      finished : Bool × Engine F → Bool × Engine F × Disk
      finished r =
          if not r.0
          then (false, e, d)
          else if is_zero_ℤ r.1.connections.n_connections
          then (true, (cleanup r.1 d true).0, (cleanup r.1 d true).1)
          else (true, r.1, d)

  -- Canceling a job in a state that allows it, with no open connection and its artifacts still there,
  -- closes the output file and removes it and the image file; every other file stays.
  pub cancel-removes :
      (e : Engine F) (d : Disk) (other : Bytes)
      → allows canceled e.state ≡ true
      → is_zero_ℤ e.connections.n_connections ≡ true
      → e.artifacts_cleaned ≡ false
      → let r = cancel e d in
        (r.1.state ≡ canceled)
        × (r.1.writer ≡ none)
        × (read_file r.2 e.output_path ≡ none)
        × (read_file r.2 (e.output_path ++ image_suffix) ≡ none)
        × (eq_bytes e.output_path other ≡ false
            → eq_bytes (e.output_path ++ image_suffix) other ≡ false
            → read_file r.2 other ≡ read_file d other)
  unfolding canceled_job
  cancel-removes e d other allowed idle present =
      let image = e.output_path ++ image_suffix in
      let d1 = remove_file d image in
      rw (cancel_idle e d allowed idle present) (
        refl,
        refl,
        read-remove_file d1 e.output_path e.output_path
            ∙ if_true (eq_bytes e.output_path e.output_path) _ _ (eq_bytes_refl e.output_path),
        read-remove_file d1 e.output_path image
            ∙ if_both (λ (o : Option Bytes). o ≡ none) (eq_bytes e.output_path image) _ _ refl
                (read-remove_file d image image
                  ∙ if_true (eq_bytes image image) _ _ (eq_bytes_refl image)),
        λ apart apart'.
            read-remove_file d1 e.output_path other
            ∙ if_false (eq_bytes e.output_path other) _ _ apart
            ∙ read-remove_file d image other
            ∙ if_false (eq_bytes image other) _ _ apart',
      )

module _ (D : Floats) where
  open D use {F}

  -- After such a cancellation `Resume` accepts the job and queues it again, but its output file stays
  -- closed, and a store reads through a null pointer.
  pub resume_canceled :
      (e : Engine F) (d : Disk) (drained started : Connections → Connections) (now unix : ℕ)
      → allows canceled e.state ≡ true
      → is_zero_ℤ e.connections.n_connections ≡ true
      → e.artifacts_cleaned ≡ false
      → let r = resume D (on_connections drained) (on_connections started) now (cancel e d).1 in
        (r.0 ≡ true)
        × (r.1.state ≡ queued)
        × (r.1.writer ≡ none)
        × (store r.1 (cancel e d).2 unix ≡ null_pointer)
  unfolding resume prepare reset_speed build_work set_state store canceled_job
  resume_canceled e d drained started now unix allowed idle present =
      rw (cancel_idle e d allowed idle present) (refl, refl, refl, refl)
