-- ===== src/Controller/Shrink.antt =====
-- The loop that takes connections away until the jobs fit the capacity.
use muld.Prelude.{
  ℕ, zero, suc, ◌+◌, ◌-◌, ◌≤◌, ◌<◌, ◌≡◌, ap, ◌⊎◌, inl, inr, true, false, List, [], ◌∷◌, arith,
  get_elem?, ◌==◌, if◌then◌else◌, some, Bool-cases,
}
use muld.Prelude.Int.{ℤ, pos, pos_part, neg_part, ◌-ℤ◌, ◌≤ℤ◌, +ℤ_parts, -ℤ_parts}
use muld.Prelude.Table.{nat_eq, contains}
use muld.Controller.{
  MutableDecision, is_reducible, lower, lower_at, reduce_pass, shrink, desired_total,
}

-- `a - b` and `c - d` are the same difference, for integers `a`, `c` and numbers `b`, `d`.
abbrev pub SameGap : ℤ → ℕ → ℤ → ℕ → Type 0
SameGap a b c d = pos_part a + neg_part c + d ≡ pos_part c + neg_part a + b

module _ {F : Type 0} where
  -- The second item is the first with a smaller wish, which is not below the minimum.
  abbrev pub IsLowered : MutableDecision F → MutableDecision F → Type 0
  IsLowered x y =
      (y.decision.job_id ≡ x.decision.job_id)
      × (y.min_connections ≡ x.min_connections)
      × (x.min_connections ≤ℤ y.decision.desired_connections)
      × (y.decision.desired_connections ≤ℤ x.decision.desired_connections)

  abbrev pub AllLowered : List (MutableDecision F) → List (MutableDecision F) → Type 0
  AllLowered [] [] = Unit {0}
  AllLowered [] (y ∷ ys) = ⊥
  AllLowered (x ∷ xs) [] = ⊥
  AllLowered (x ∷ xs) (y ∷ ys) = IsLowered x y × AllLowered xs ys

  lower-IsLowered :
      (x y : MutableDecision F)
      → is_reducible (some y) ≡ true
      → IsLowered x y
      → IsLowered x (lower y)
  unfolding lower
  lower-IsLowered x y r h = ground (arith, -ℤ_parts y.decision.desired_connections (pos 1))

  pub lower_at-AllLowered :
      (xs ys : List (MutableDecision F)) (i : ℕ)
      → is_reducible (get_elem? ys i) ≡ true
      → AllLowered xs ys
      → AllLowered xs (lower_at ys i)
  unfolding lower_at
  lower_at-AllLowered [] [] i r h = h
  lower_at-AllLowered [] (y ∷ ys) i r h = absurd h
  lower_at-AllLowered (x ∷ xs) [] i r h = absurd h
  lower_at-AllLowered (x ∷ xs) (y ∷ ys) zero r h = (lower-IsLowered x y r h.0, h.1)
  lower_at-AllLowered (x ∷ xs) (y ∷ ys) (suc i) r h = (h.0, lower_at-AllLowered xs ys i r h.1)

  desired_total-lower_at :
      (xs : List (MutableDecision F)) (i : ℕ)
      → is_reducible (get_elem? xs i) ≡ true
      → SameGap (desired_total xs) 1 (desired_total (lower_at xs i)) 0
  unfolding desired_total lower_at lower
  desired_total-lower_at [] i r = absurd (cc)
  desired_total-lower_at (x ∷ xs) zero r =
      let d = x.decision.desired_connections in
      omega (
        arith,
        -ℤ_parts d (pos 1),
        +ℤ_parts d (desired_total xs),
        +ℤ_parts (d -ℤ pos 1) (desired_total xs),
      )
  desired_total-lower_at (x ∷ xs) (suc i) r =
      let d = x.decision.desired_connections in
      omega (
        arith,
        +ℤ_parts d (desired_total xs),
        +ℤ_parts d (desired_total (lower_at xs i)),
        desired_total-lower_at xs i r,
      )

  reduce_pass-AllLowered :
      (base : List (MutableDecision F)) (order : List ℕ) (xs : List (MutableDecision F)) (e : ℕ)
      → AllLowered base xs
      → AllLowered base (reduce_pass order xs e).items
  unfolding reduce_pass
  reduce_pass-AllLowered base [] xs e h = h
  reduce_pass-AllLowered base (i ∷ order) xs e h =
      elim (Bool-cases (is_reducible (get_elem? xs i))) [
        | inl r ↦ rw r (elim (Bool-cases (e - 1 == 0)) [
          | inl z ↦ rw z (lower_at-AllLowered base xs i r h)
          | inr z ↦ rw z (
              reduce_pass-AllLowered base order (lower_at xs i) (e - 1)
                (lower_at-AllLowered base xs i r h))
        ])
        | inr r ↦ rw r (reduce_pass-AllLowered base order xs e h)
      ]

  reduce_pass-SameGap :
      (order : List ℕ) (xs : List (MutableDecision F)) (e : ℕ)
      → 0 < e
      → let p = reduce_pass order xs e in
        SameGap (desired_total xs) e (desired_total p.items) p.excess
  unfolding reduce_pass
  reduce_pass-SameGap [] xs e h = omega arith
  reduce_pass-SameGap (i ∷ order) xs e h = ground (
    arith,
    desired_total-lower_at xs i,
    reduce_pass-SameGap order (lower_at xs i) (e - 1),
    reduce_pass-SameGap order xs e h,
  )

  -- A pass lowers the excess, or reduces nothing and leaves all as it is.
  reduce_pass_progress :
      (order : List ℕ) (xs : List (MutableDecision F)) (e : ℕ)
      → 0 < e
      → let p = reduce_pass order xs e in
        ((p.reduced ≡ true) × (p.excess < e))
        ⊎ ((p.reduced ≡ false) × (p.items ≡ xs) × (p.excess ≡ e))
  unfolding reduce_pass
  reduce_pass_progress [] xs e h = ground arith
  reduce_pass_progress (i ∷ order) xs e h =
      ground (
        arith,
        reduce_pass_progress order (lower_at xs i) (e - 1),
        reduce_pass_progress order xs e h,
      )

  reduce_pass_settled :
      (order : List ℕ) (xs : List (MutableDecision F)) (e i : ℕ)
      → (reduce_pass order xs e).reduced ≡ false
      → contains order i ≡ true
      → is_reducible (get_elem? xs i) ≡ false
  unfolding reduce_pass contains
  reduce_pass_settled [] xs e i r c = absurd (cc)
  reduce_pass_settled (j ∷ order) xs e i r c =
      ground (arith, ap (get_elem? xs) {x = i} {y = j}, reduce_pass_settled order xs e i)

  -- No item that the order names can be reduced.
  abbrev pub IsSettled : List ℕ → List (MutableDecision F) → Type 0
  IsSettled order xs = (i : ℕ) → contains order i ≡ true → is_reducible (get_elem? xs i) ≡ false

  pub shrink-AllLowered :
      (fuel : ℕ) (base : List (MutableDecision F)) (order : List ℕ) (xs : List (MutableDecision F))
      (e : ℕ)
      → AllLowered base xs
      → AllLowered base (shrink fuel order xs e)
  unfolding shrink
  shrink-AllLowered zero base order xs e h = h
  shrink-AllLowered (suc fuel) base order xs e h =
      let p = reduce_pass order xs e in
      let now = reduce_pass-AllLowered base order xs e h in
      elim (Bool-cases (e == 0)) [
        | inl z ↦ rw z h
        | inr z ↦ rw z (elim (Bool-cases p.reduced) [
          | inl r ↦ rw r (shrink-AllLowered fuel base order p.items p.excess now)
          | inr r ↦ rw r now
        ])
      ]

  abbrev pub Ends : List ℕ → List (MutableDecision F) → ℕ → List (MutableDecision F) → Type 0
  Ends order xs e ys =
      SameGap (desired_total xs) e (desired_total ys) 0
      ⊎ (IsSettled order ys × ((k : ℕ) × SameGap (desired_total xs) e (desired_total ys) k))

  shrink_step :
      (fuel : ℕ) (order : List ℕ) (xs : List (MutableDecision F)) (e : ℕ)
      → e ≤ suc fuel
      → 0 < e
      → ((ys : List (MutableDecision F)) (d : ℕ)
          → d ≤ fuel
          → Ends order ys d (shrink fuel order ys d))
      → let p = reduce_pass order xs e in
        Ends order xs e (if p.reduced then shrink fuel order p.items p.excess else p.items)
  shrink_step fuel order xs e h pos_e loop =
      let p = reduce_pass order xs e in
      let gap = reduce_pass-SameGap order xs e pos_e in
      elim (reduce_pass_progress order xs e pos_e) [
        | inl (r, less) ↦ rw r (elim (loop p.items p.excess (omega arith)) [
          | inl done ↦ inl (omega arith)
          | inr (settled, k) ↦ inr (settled, (k.0, omega (arith, k.1)))
        ])
        | inr (r, same, _) ↦
            rw r (inr (rw same (λ i c. reduce_pass_settled order xs e i r c), (p.excess, gap)))
      ]

  -- With the excess as fuel the loop ends for one of its own reasons: the excess is used up, or
  -- nothing that the order names can be reduced.
  pub shrink_lem :
      (fuel : ℕ) (order : List ℕ) (xs : List (MutableDecision F)) (e : ℕ)
      → e ≤ fuel
      → Ends order xs e (shrink fuel order xs e)
  unfolding shrink
  shrink_lem zero order xs e h = inl (omega arith)
  shrink_lem (suc fuel) order xs e h = elim (Bool-cases (e == 0)) [
    | inl z ↦ rw z (inl (ground arith))
    | inr z ↦ rw z (shrink_step fuel order xs e h (ground arith) (shrink_lem fuel order))
  ]
