-- ===== src/Cli/Bar/Full.antt =====
-- The progress bar of a download that is complete.
use mathlib.Core.List.{append-nil}
use native.Mathlib.Nat.{mul-le-mul_right, mul-div_cancel_left, zero-mul, zero-div}
use muld.Prelude.{
  ℕ, zero, suc, ◌+◌, ◌-◌, ◌*◌, ◌/◌, ◌^◌, ◌≡◌, ◌≤◌, ◌<◌, refl, sym, ap, ◌∙◌, false, Option, some,
  List, [], ◌∷◌, ◌++◌, replicate, length, length-append, length-replicate, ◌||◌, ltb, if_false,
  if_either, ◌==◌, arith,
}
use muld.Prelude.Int.{ℤ, pos, pos_part, ltb_ℤ, ◌-ℤ◌, sub_ℕ}
use muld.Prelude.Bytes.{Bytes, u64}
use muld.Types.{ChunkProgress}
use muld.Cli.Bar.Within.{AreWithin, AreWithin-le, div_mono, place_in-pos}
use muld.Cli.Bar.{
  blank, fill, paint, is_partial, put_tip, or_none, draw, place_in, build_progress_bar,
}

-- A block of `=` behind others.
abbrev solid : ℕ → Bytes
solid p = replicate p b'='

fill-blank : (k r : ℕ) → k ≤ r → fill zero k (blank r) ≡ solid k ++ blank (r - k)
unfolding fill
fill-blank zero zero h = refl
fill-blank zero (suc r) h = let e : suc r ≡ suc r - zero = omega arith in ap blank e
fill-blank (suc k) zero h = absurd (omega arith)
fill-blank (suc k) (suc r) h =
    let e : r - k ≡ suc r - suc k = omega arith in
    ap (λ t. b'=' ∷ t) (fill-blank k r (omega arith) ∙ ap (λ n. solid k ++ blank n) e)

fill-solid : (p k r : ℕ) → k ≤ r → fill p k (solid p ++ blank r) ≡ solid (p + k) ++ blank (r - k)
unfolding fill
fill-solid zero k r h =
    let e : k ≡ zero + k = omega arith in fill-blank k r h ∙ ap (λ n. solid n ++ blank (r - k)) e
fill-solid (suc p) k r h =
    let e : suc (p + k) ≡ suc p + k = omega arith in
    ap (λ t. b'=' ∷ t) (fill-solid p k r h) ∙ ap (λ n. solid n ++ blank (r - k)) e

-- A bar that is filled up to a place.
abbrev filled : ℕ → ℕ → Bytes
filled w p = solid p ++ blank (w - p)

paint-filled : (w p q : ℕ) → p ≤ q → q ≤ w → paint (pos p) (pos q) (filled w p) ≡ some (filled w q)
unfolding paint ◌-ℤ◌
paint-filled w p q h k =
    if_either (λ (o : Option Bytes). o ≡ some (filled w q)) (ltb_ℤ (pos p) (pos q)) _ _
      (λ more.
        let e : pos_part (sub_ℕ (q + 0) (0 + p)) ≡ q - p = ground arith in
        let e1 : p + (q - p) ≡ q = omega arith in
        let e2 : w - p - (q - p) ≡ w - q = omega arith in
        let long : length (filled w p) ≡ w = omega (
          arith,
          length-append (solid p) (blank (w - p)),
          length-replicate {A = ℕ} p b'=',
          length-replicate {A = ℕ} (w - p) b' ',
        ) in
        if_false (ltb_ℤ (pos p) (pos 0) || ltb (length (filled w p)) q) _ _ (ground (arith, long))
        ∙ ap (λ n. some (fill p n (filled w p))) e
        ∙ ap some (fill-solid p (q - p) (w - p) (omega arith))
        ∙ ap (λ n. some (solid n ++ blank (w - p - (q - p)))) e1
        ∙ ap (λ n. some (solid q ++ blank n)) e2)
      (λ none_more. let e : p ≡ q = ground arith in ap (λ n. some (filled w n)) e)

-- Chunks that have received all their bytes, and end at the end of the file.
unfoldable pub AreComplete : ℕ → ℕ → List ChunkProgress → Type 0
AreComplete tot off [] = off ≡ tot
AreComplete tot off (c ∷ chunks) =
    (c.downloaded_bytes ≡ c.total_bytes) × AreComplete tot (off + c.total_bytes) chunks

AreComplete-AreWithin :
    (tot off : ℕ) (chunks : List ChunkProgress)
    → AreComplete tot off chunks
    → AreWithin tot off chunks
unfolding AreComplete AreWithin
AreComplete-AreWithin tot off [] h = omega arith
AreComplete-AreWithin tot off (c ∷ chunks) h =
    (omega arith, AreComplete-AreWithin tot (off + c.total_bytes) chunks h.1)

draw-step :
    (place : ℕ → ℤ) (tip : ℤ → Bytes → Option Bytes) (c : ChunkProgress)
    (chunks : List ChunkProgress) (off : ℕ) (bar bar' : Bytes) (p q : ℤ) (next : ℕ)
    → place off ≡ p
    → place (u64 (off + c.downloaded_bytes)) ≡ q
    → u64 (off + c.total_bytes) ≡ next
    → paint p q bar ≡ some bar'
    → is_partial c ≡ false
    → draw place tip (c ∷ chunks) off bar ≡ draw place tip chunks next bar'
unfolding draw
draw-step place tip c chunks off bar bar' p q next from to behind painted no_tip =
    rw (from, to, behind, painted)
      (ap (λ o. or_none place tip o (λ b. draw place tip chunks next b))
        (if_false (is_partial c) _ _ no_tip))

draw-filled :
    (w tot : ℕ)
    → 0 < tot
    → tot * w < 2 ^ 64
    → w < 2 ^ 31
    → tot < 2 ^ 64
    → (chunks : List ChunkProgress) (off : ℕ) → AreComplete tot off chunks
    → draw (place_in w tot) (put_tip w) chunks off (filled w (off * w / tot))
      ≡ some (filled w (tot * w / tot))
unfolding draw AreComplete
draw-filled w tot some_tot small narrow fits [] off h = ap (λ n. some (filled w (n * w / tot))) h
draw-filled w tot some_tot small narrow fits (c ∷ chunks) off h =
    let next = off + c.total_bytes in
    let inside = AreWithin-le tot next chunks (AreComplete-AreWithin tot next chunks h.1) in
    let u : u64 (off + c.downloaded_bytes) ≡ next = omega arith in
    let u' : u64 next ≡ next = omega arith in
    let (from, p_fits) = place_in-pos w tot off some_tot small narrow (omega arith) in
    let (to, q_fits) = place_in-pos w tot next some_tot small narrow inside in
    let rises = div_mono (off * w) (next * w) tot some_tot (mul-le-mul_right w (omega arith)) in
    let painted = paint-filled w (off * w / tot) (next * w / tot) rises q_fits in
    let no_tip : is_partial c ≡ false = ground arith in
    draw-step (place_in w tot) (put_tip w) c chunks off (filled w (off * w / tot))
      (filled w (next * w / tot)) (pos (off * w / tot)) (pos (next * w / tot)) next from
      (ap (place_in w tot) u ∙ to) u' painted no_tip
    ∙ draw-filled w tot some_tot small narrow fits chunks next h.1

-- For chunks that have all their bytes and end at the end of the file, the bar of the asynchronous tool
-- is full.
build_progress_bar-full :
    (chunks : List ChunkProgress) (tot w : ℕ)
    → w < 2 ^ 31
    → tot * w < 2 ^ 64
    → tot < 2 ^ 64
    → 0 < tot
    → AreComplete tot 0 chunks
    → build_progress_bar chunks tot w ≡ some (replicate w b'=')
unfolding build_progress_bar
build_progress_bar-full chunks tot w narrow small fits some_tot complete =
    let first : 0 * w / tot ≡ 0 = ap (λ n. n / tot) (zero-mul w) ∙ zero-div tot in
    let none_gone : w - 0 ≡ w = omega arith in
    let all_gone : w - w ≡ 0 = omega arith in
    let last : tot * w / tot ≡ w = mul-div_cancel_left w some_tot in
    if_false (tot == 0) _ _ (ground arith)
    ∙ ap (draw (place_in w tot) (put_tip w) chunks 0)
        (sym (ap (filled w) first ∙ ap blank none_gone))
    ∙ draw-filled w tot some_tot small narrow fits chunks 0 complete
    ∙ ap (λ n. some (filled w n)) last
    ∙ ap (λ n. some (solid w ++ blank n)) all_gone
    ∙ ap some (append-nil (solid w))
