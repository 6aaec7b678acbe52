-- ===== src/Rate/Budget.antt =====
-- What a reader may read.
use muld.Prelude.{ℕ, ◌+◌, ◌≤◌, ◌<◌, ◌≡◌, ◌≢◌, ◌⊎◌, false, none, some, List, [], ◌∷◌, arith}
use muld.Prelude.Floats.{Floats}
use muld.Rate.{Rate, Round, is_downloading, refill, acquire_rounds, acquire_read_budget}

module _ (D : Floats) where
  open D use {F, leb, ratio, truncate}

  -- Some round saw the job not downloading.
  abbrev Seen : List (Round F) → Type 0
  Seen [] = ⊥
  Seen (round ∷ rounds) = (is_downloading round.state ≡ false) ⊎ Seen rounds

  acquire_rounds_lem :
      (requested total : ℕ) (rounds : List (Round F)) (r : Rate F) (n : ℕ) (r' : Rate F)
      → 0 < requested
      → acquire_rounds D requested total rounds r ≡ some (n, r')
      → ((0 < n) × (n ≤ requested)) ⊎ ((n ≡ 0) × Seen rounds)
  unfolding acquire_rounds
  acquire_rounds_lem requested total [] r n r' h e = absurd (cc)
  acquire_rounds_lem requested total (round ∷ rounds) r n r' h e = ground (
    arith,
    acquire_rounds_lem requested (total + round.wait_ns) rounds
        (round.others (refill D r round.now)) n r' h,
  )

  acquire_rounds_ends :
      (requested total : ℕ) (rounds : List (Round F)) (r : Rate F)
      → Seen rounds
      → acquire_rounds D requested total rounds r ≢ none
  unfolding acquire_rounds
  acquire_rounds_ends requested total [] r h = absurd h
  acquire_rounds_ends requested total (round ∷ rounds) r h = ground (
    arith,
    acquire_rounds_ends requested (total + round.wait_ns) rounds
        (round.others (refill D r round.now)),
  )

  -- A reader that asks for bytes gets at least one and at most what it asked for; it gets none only if
  -- the job was seen not to be downloading. Without a limit it gets all it asked for at once.
  pub acquire_read_budget_lem :
      (requested : ℕ) (rounds : List (Round F)) (r : Rate F) (n : ℕ) (r' : Rate F)
      → 0 < requested
      → acquire_read_budget D requested rounds r ≡ some (n, r')
      → (n ≤ requested)
        × ((0 < n) ⊎ Seen rounds)
        × (r.speed_limit_bps ≡ 0 → (n ≡ requested) × (r' ≡ r))
  unfolding acquire_read_budget
  acquire_read_budget_lem requested rounds r n r' h e =
      let loop = acquire_rounds_lem requested 0 rounds r n r' h in
      (ground (arith, loop), ground (arith, loop), λ z. ground arith)

  -- The loop ends at the latest in the first round that sees the job not downloading.
  pub acquire_read_budget_ends :
      (requested : ℕ) (rounds : List (Round F)) (r : Rate F)
      → Seen rounds
      → acquire_read_budget D requested rounds r ≢ none
  unfolding acquire_read_budget
  acquire_read_budget_ends requested rounds r h =
      ground (arith, acquire_rounds_ends requested 0 rounds r h)
