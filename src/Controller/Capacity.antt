-- ===== src/Controller/Capacity.antt =====
-- What `Tick` promises about all jobs together: the capacity, and each job's bounds.
use muld.Prelude.{
  ℕ, zero, suc, ◌+◌, ◌<◌, ◌≡◌, refl, ap, ◌∙◌, ◌⊎◌, inl, inr, true, false, List, [], ◌∷◌, arith,
  length, get_elem?, All, ltb, leb, ◌==◌, ◌&&◌, if◌then◌else◌, Bool-cases,
}
use muld.Prelude.Int.{ℤ, pos_part, ◌-ℤ◌, ◌≤ℤ◌, ltb_ℤ}
use muld.Prelude.Table.{nat_eq, contains}
use muld.Prelude.Floats.{Floats}
use muld.Controller.{
  MutableDecision, is_reducible, desired_total, shrink, indices, insert_sorted, sort, fit_capacity,
}
use muld.Controller.Shrink.{AllLowered, IsSettled, SameGap, shrink-AllLowered, shrink_lem}

contains-indices : (i n k : ℕ) → contains (indices i n) k ≡ (leb i k && ltb k (i + n))
unfolding contains indices
contains-indices i zero k = ground arith
contains-indices i (suc n) k = ground (arith, contains-indices (i + 1) n k)

excess_gap : (c t : ℤ) → ltb_ℤ c t ≡ true → SameGap t (pos_part (t -ℤ c)) c 0
unfolding ◌-ℤ◌
excess_gap c t h = ground arith

module _ (D : Floats) where
  open D use {F}

  contains-insert_sorted :
      (items : List (MutableDecision F)) (i : ℕ) (order : List ℕ) (k : ℕ)
      → contains (insert_sorted D items i order) k ≡ (if i == k then true else contains order k)
  unfolding contains insert_sorted
  contains-insert_sorted items i [] k = refl
  contains-insert_sorted items i (j ∷ order) k =
      ground (arith, contains-insert_sorted items i order k)

  -- Sorting loses no index.
  contains-sort :
      (items : List (MutableDecision F)) (order : List ℕ) (k : ℕ)
      → contains (sort D items order) k ≡ contains order k
  unfolding contains sort
  contains-sort items [] k = refl
  contains-sort items (i ∷ order) k =
      ground
        (arith, contains-insert_sorted items i (sort D items order) k, contains-sort items order k)

  abbrev pub IsFit : MutableDecision F → Type 0
  IsFit item = item.min_connections ≤ℤ item.decision.desired_connections

  abbrev pub IsLeast : MutableDecision F → Type 0
  IsLeast item = item.decision.desired_connections ≤ℤ item.min_connections

  AllLowered-refl : (xs : List (MutableDecision F)) → All IsFit xs → AllLowered xs xs
  AllLowered-refl [] h = tt
  AllLowered-refl (x ∷ xs) h = ((refl, refl, h.0, omega arith), AllLowered-refl xs h.1)

  length-AllLowered : (xs ys : List (MutableDecision F)) → AllLowered xs ys → length ys ≡ length xs
  length-AllLowered [] [] h = refl
  length-AllLowered [] (y ∷ ys) h = absurd h
  length-AllLowered (x ∷ xs) [] h = absurd h
  length-AllLowered (x ∷ xs) (y ∷ ys) h = ap suc (length-AllLowered xs ys h.1)

  IsLeast-All :
      (ys : List (MutableDecision F))
      → ((i : ℕ) → i < length ys → is_reducible (get_elem? ys i) ≡ false)
      → All IsLeast ys
  IsLeast-All [] h = tt
  IsLeast-All (y ∷ ys) h = (ground (arith, h 0), IsLeast-All ys (λ i l. h (suc i) (omega arith)))

  abbrev pub FitsCapacity : ℤ → List (MutableDecision F) → List (MutableDecision F) → Type 0
  FitsCapacity capacity xs ys =
      AllLowered xs ys
      × ((desired_total ys ≤ℤ capacity) ⊎ All IsLeast ys)
      × ((capacity ≤ℤ desired_total ys) ⊎ (ys ≡ xs))

  settled-IsLeast :
      (xs ys : List (MutableDecision F))
      → AllLowered xs ys
      → IsSettled (sort D xs (indices 0 (length xs))) ys
      → All IsLeast ys
  settled-IsLeast xs ys l settled = IsLeast-All ys λ i h.
      settled i
        (contains-sort xs (indices 0 (length xs)) i ∙ contains-indices 0 (length xs) i ∙ within i h)
    where
      within : (i : ℕ) → i < length ys → (leb 0 i && ltb i (0 + length xs)) ≡ true
      within i h = ground (arith, length-AllLowered xs ys l)

  -- The jobs keep their order, identity and minimum, and none rises or falls below its minimum.
  -- Their total is within the capacity, or every job is at its minimum. It is lowered only to the
  -- capacity and not below.
  pub fit_capacity_lem :
      (capacity : ℤ) (xs : List (MutableDecision F))
      → All IsFit xs
      → FitsCapacity capacity xs (fit_capacity D capacity xs)
  unfolding fit_capacity
  fit_capacity_lem capacity xs h = elim (Bool-cases (ltb_ℤ capacity (desired_total xs))) [
    | inl over ↦
        let excess = pos_part (desired_total xs -ℤ capacity) in
        let order = sort D xs (indices 0 (length xs)) in
        let ys = shrink excess order xs excess in
        let low = shrink-AllLowered excess xs order xs excess (AllLowered-refl xs h) in
        let gap = excess_gap capacity (desired_total xs) over in
        rw over (
          low,
          elim (shrink_lem excess order xs excess (omega arith)) [
            | inl done ↦ inl (omega (arith, gap, done))
            | inr (settled, k) ↦ inr (settled-IsLeast xs ys low settled)
          ],
          elim (shrink_lem excess order xs excess (omega arith)) [
            | inl done ↦ inl (omega (arith, gap, done))
            | inr (settled, k) ↦ inl (omega (arith, gap, k.1))
          ],
        )
    | inr fits ↦ rw fits (AllLowered-refl xs h, inl (ground arith), inr refl)
  ]
