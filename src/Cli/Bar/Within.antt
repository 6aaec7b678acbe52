-- ===== src/Cli/Bar/Within.antt =====
-- The progress bars never write outside of their places.
use native.Mathlib.Nat.{
  mul-le-mul_right, mul-div_cancel_left, mul-div-le, le-div_iff_mul-le, mul_comm,
}
use muld.Prelude.{
  ℕ, zero, suc, ◌+◌, ◌-◌, ◌*◌, ◌/◌, ◌^◌, ◌≡◌, ◌≤◌, ◌<◌, refl, sym, ap, ◌∙◌, ◌||◌, Option, none,
  some, List, [], ◌∷◌, set, length, length-set, length-replicate, if_both, if_either, ltb, ◌==◌,
  arith,
}
use muld.Prelude.Int.{ℤ, pos, pos_part, ltb_ℤ, min_ℤ, ◌-ℤ◌}
use muld.Prelude.Bytes.{Bytes, u64}
use muld.Prelude.Floats.{Floats}
use muld.Types.{ChunkProgress}
use muld.Cli.Bar.{
  blank, to_int, fill, paint, put, is_partial, put_tip, put_tip_or_not, with_tip, or_none, draw,
  place_in, build_progress_bar, global_place, build_global_progress_bar,
}

length-fill : (start count : ℕ) (bar : Bytes) → length (fill start count bar) ≡ length bar
unfolding fill
length-fill start count [] = refl
length-fill zero zero (x ∷ bar) = refl
length-fill zero (suc count) (x ∷ bar) = ap suc (length-fill zero count bar)
length-fill (suc start) count (x ∷ bar) = ap suc (length-fill start count bar)

-- A drawing that stays inside of the bar.
abbrev Draws : ℕ → Option Bytes → Type 0
Draws w o = (bar : Bytes) × (o ≡ some bar) × (length bar ≡ w)

paint-Draws :
    (w s e : ℕ) (bar : Bytes) → e ≤ w → length bar ≡ w → Draws w (paint (pos s) (pos e) bar)
unfolding paint
paint-Draws w s e bar inside long =
    if_both (Draws w) (ltb_ℤ (pos s) (pos e)) _ _
      (if_either (Draws w) (ltb_ℤ (pos s) (pos 0) || ltb (length bar) e) none _
        (λ out. absurd (ground (arith, long)))
        (λ _. (fill s (pos_part (pos e -ℤ pos s)) bar, refl, length-fill s _ bar ∙ long)))
      (bar, refl, long)

put-Draws : (w i c : ℕ) (bar : Bytes) → i < w → length bar ≡ w → Draws w (put bar i c)
put-Draws w i c bar inside long =
    if_either (Draws w) (ltb i (length bar)) _ none
      (λ _. (set bar i c, refl, length-set bar i c ∙ long)) (λ out. absurd (ground (arith, long)))

-- Chunks that have not received more than they are long, and that end inside the file.
unfoldable pub AreWithin : ℕ → ℕ → List ChunkProgress → Type 0
AreWithin tot off [] = off ≤ tot
AreWithin tot off (c ∷ chunks) =
    (c.downloaded_bytes ≤ c.total_bytes) × AreWithin tot (off + c.total_bytes) chunks

pub AreWithin-le :
    (tot off : ℕ) (chunks : List ChunkProgress) → AreWithin tot off chunks → off ≤ tot
unfolding AreWithin
AreWithin-le tot off [] h = h
AreWithin-le tot off (c ∷ chunks) h =
    omega (arith, AreWithin-le tot (off + c.total_bytes) chunks h.1)

or_none-Draws :
    (w : ℕ) (o : Option Bytes) (rest : Bytes → Option Bytes)
    → Draws w o
    → ((bar : Bytes) → length bar ≡ w → Draws w (rest bar))
    → Draws w (or_none (λ n. pos n) (λ e bar. none) o rest)
or_none-Draws w none rest (bar, e, long) h = absurd (cc)
or_none-Draws w (some b) rest (bar, e, long) h =
    let same : bar ≡ b = ground arith in h b (ap length (sym same) ∙ long)

module _ (w tot : ℕ) (place : ℕ → ℤ) (tip : ℤ → Bytes → Option Bytes) where
  with_tip-Draws :
      (c : ChunkProgress) (e : ℕ) (o : Option Bytes)
      → ((bar : Bytes) → length bar ≡ w → Draws w (tip (pos e) bar))
      → Draws w o
      → Draws w (with_tip place tip c (pos e) o)
  with_tip-Draws c e none tipped (bar, same, long) = absurd (cc)
  with_tip-Draws c e (some b) tipped (bar, same, long) =
      let eq : bar ≡ b = ground arith in
      let long' : length b ≡ w = ap length (sym eq) ∙ long in
      if_both (Draws w) (is_partial c) _ _ (tipped b long') (b, refl, long')

  draw-Draws :
      tot < 2 ^ 64
      → ((n : ℕ) → n ≤ tot → (p : ℕ) × (place n ≡ pos p) × (p ≤ w))
      → ((e : ℕ) (bar : Bytes) → length bar ≡ w → Draws w (tip (pos e) bar))
      → (chunks : List ChunkProgress) (off : ℕ) (bar : Bytes) → AreWithin tot off chunks
      → length bar ≡ w
      → Draws w (draw place tip chunks off bar)
  unfolding draw AreWithin
  draw-Draws small placed tipped [] off bar h long = (bar, refl, long)
  draw-Draws small placed tipped (c ∷ chunks) off bar h long =
      let inside = AreWithin-le tot (off + c.total_bytes) chunks h.1 in
      let u : u64 (off + c.downloaded_bytes) ≡ off + c.downloaded_bytes = omega arith in
      let u' : u64 (off + c.total_bytes) ≡ off + c.total_bytes = omega arith in
      let (p, from, _) = placed off (omega arith) in
      let (q, to, q_inside) = placed (off + c.downloaded_bytes) (omega arith) in
      let rest = λ (n : ℕ) (b : Bytes). draw place tip chunks n b in
      let here =
        or_none-Draws w (with_tip place tip c (pos q) (paint (pos p) (pos q) bar))
          (rest (off + c.total_bytes))
          (with_tip-Draws c q (paint (pos p) (pos q) bar) (tipped q)
            (paint-Draws w p q bar q_inside long))
          (λ b long'. draw-Draws small placed tipped chunks (off + c.total_bytes) b h.1 long') in
      rw (u, u', from, to) here

pub div_mono : (a b t : ℕ) → 0 < t → a ≤ b → a / t ≤ b / t
div_mono a b t some_t h =
    (le-div_iff_mul-le some_t).1 (omega (arith, mul-div-le a t, mul_comm t (a / t)))

-- A place in the bar, as long as nothing wraps around.
pub place_in-pos :
    (w tot n : ℕ)
    → 0 < tot
    → tot * w < 2 ^ 64
    → w < 2 ^ 31
    → n ≤ tot
    → (place_in w tot n ≡ pos (n * w / tot)) × (n * w / tot ≤ w)
place_in-pos w tot n some_tot small narrow h =
    let below : n * w ≤ tot * w = mul-le-mul_right w h in
    let e : u64 (n * w) ≡ n * w = omega arith in
    let full : tot * w / tot ≡ w = mul-div_cancel_left w some_tot in
    let fits : n * w / tot ≤ w =
      omega (arith, div_mono (n * w) (tot * w) tot some_tot below, full) in
    let cast : to_int (n * w / tot) ≡ pos (n * w / tot) = ground arith in
    (ap (λ x. min_ℤ (pos w) (to_int (x / tot))) e ∙ ap (min_ℤ (pos w)) cast ∙ ground arith, fits)

global_place-inside :
    (D : Floats) (w tot n : ℕ) → (p : ℕ) × (global_place D w tot n ≡ pos p) × (p ≤ w)
global_place-inside D w tot n =
    let q = D.truncate (D.mul (D.div (D.ratio n 1) (D.ratio tot 1)) (D.ratio w 1)) in
    if_either (λ (z : ℤ). (p : ℕ) × (z ≡ pos p) × (p ≤ w)) (ltb_ℤ (pos w) (pos q)) _ _
      (λ _. (w, refl, omega arith)) (λ low. (q, refl, ground arith))

put_tip-Draws : (w e : ℕ) (bar : Bytes) → 0 < w → length bar ≡ w → Draws w (put_tip w (pos e) bar)
put_tip-Draws w e bar some_w long =
    if_either (Draws w) (ltb_ℤ (pos e) (pos w)) _ _
      (λ inside.
        if_either (Draws w) (ltb_ℤ (pos e) (pos 0)) none _ (λ below. absurd (ground arith))
          (λ _. put-Draws w e b'>' bar (ground arith) long))
      (λ _.
        if_either (Draws w) (w == 0) none _ (λ empty. absurd (ground arith))
          (λ _. put-Draws w (w - 1) b'>' bar (omega arith) long))

put_tip_or_not-Draws :
    (w e : ℕ) (bar : Bytes) → length bar ≡ w → Draws w (put_tip_or_not w (pos e) bar)
put_tip_or_not-Draws w e bar long =
    if_either (Draws w) (ltb_ℤ (pos e) (pos w)) _ _
      (λ inside.
        if_either (Draws w) (ltb_ℤ (pos e) (pos 0)) none _ (λ below. absurd (ground arith))
          (λ _. put-Draws w e b'>' bar (ground arith) long))
      (λ _.
        if_either (Draws w) (ltb 0 w) _ _
          (λ some_place. put-Draws w (w - 1) b'>' bar (ground arith) long) (λ _. (bar, refl, long)))

blank-length : (w : ℕ) → length (blank w) ≡ w
blank-length w = length-replicate w b' '

-- A bar of at least one place, for chunks that have received at most what they are long and lie inside
-- the file, and numbers that do not wrap around: both tools write inside of the bar only, and leave it
-- as wide as it was.
pub build_progress_bar-Draws :
    (D : Floats) (chunks : List ChunkProgress) (tot w : ℕ)
    → AreWithin tot 0 chunks
    → 0 < w
    → w < 2 ^ 31
    → tot * w < 2 ^ 64
    → tot < 2 ^ 64
    → ((bar : Bytes) × (build_progress_bar chunks tot w ≡ some bar) × (length bar ≡ w))
      × ((bar : Bytes) × (build_global_progress_bar D chunks tot w ≡ some bar) × (length bar ≡ w))
unfolding build_progress_bar build_global_progress_bar
build_progress_bar-Draws D chunks tot w within some_w narrow small fits = (
  if_either (Draws w) (tot == 0) _ _ (λ _. (blank w, refl, blank-length w))
      (λ more.
        let some_tot : 0 < tot = ground arith in
        draw-Draws w tot (place_in w tot) (put_tip w) fits
          (λ n h.
            let (at, inside) = place_in-pos w tot n some_tot small narrow h in
            (n * w / tot, at, inside))
          (λ e bar long. put_tip-Draws w e bar some_w long) chunks 0 (blank w) within
          (blank-length w)),
  if_either (Draws w) (tot == 0) _ _ (λ _. (blank w, refl, blank-length w))
      (λ _.
        draw-Draws w tot (global_place D w tot) (put_tip_or_not w) fits
          (λ n _. global_place-inside D w tot n) (λ e bar long. put_tip_or_not-Draws w e bar long)
          chunks 0 (blank w) within (blank-length w)),
)
