-- ===== src/Connections/Budget.antt =====
-- The release budget: how many workers are told to end after the wish was lowered.
use muld.Prelude.{ℕ, zero, suc, ◌+◌, ◌≡◌, arith, if◌then◌else◌, min}
use muld.Prelude.Int.{ℤ, pos, pos_part, ◌-ℤ◌, ◌≤ℤ◌, +ℤ_parts, -ℤ_parts, clamp_ℤ}
use muld.Connections.{Connections, set_desired, should_release}

-- How many of the next `n` calls of `ShouldReleaseConnection` return true.
pub releases : ℕ → Connections → ℕ
unfolding should_release
releases zero c = 0
releases (suc n) c =
    let (released, c') = should_release c in if released then suc (releases n c') else releases n c'

releases_lem : (n : ℕ) (c : Connections) → releases n c ≡ min n (pos_part c.release_budget)
unfolding releases should_release
releases_lem zero c = omega arith
releases_lem (suc n) c = ground (
  arith,
  -ℤ_parts c.release_budget (pos 1),
  releases_lem n c,
  releases_lem n (record c { release_budget = c.release_budget -ℤ pos 1 }),
)

-- After the wish is set, the next calls of `ShouldReleaseConnection` tell exactly as many workers to
-- end as the wish fell by, besides those that were still owed; setting it no lower tells none more.
pub releases-set_desired :
    (n : ℕ) (c : Connections) (wish : ℤ)
    → pos 0 ≤ℤ c.release_budget
    → releases n (set_desired c wish)
      ≡ min n (pos_part c.release_budget + pos_part (c.desired -ℤ (set_desired c wish).desired))
unfolding set_desired
releases-set_desired n c wish h =
    let d = clamp_ℤ wish c.min_connections c.max_connections in
    rw (releases_lem n (set_desired c wish))
      (ground (arith, -ℤ_parts c.desired d, +ℤ_parts c.release_budget (c.desired -ℤ d)))
