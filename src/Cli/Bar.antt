-- ===== src/Cli/Bar.antt =====
-- The progress bars: BuildProgressBar of src/muld_cli_async.cpp and BuildGlobalProgressBar of
-- src/muld_cli_polling.cpp, over the sizes of the chunks. A write outside of the bar is undefined; it is
-- `none` here. The tools ask for bars of 40 places.
use muld.Prelude.{
  ℕ, zero, suc, ◌+◌, ◌-◌, ◌*◌, ◌/◌, ◌%◌, ◌^◌, Bool, true, false, ◌&&◌, ◌||◌, length, Option, none,
  some, List, [], ◌∷◌, set, replicate, if◌then◌else◌, ltb, ◌==◌,
}
use muld.Prelude.Int.{ℤ, pos, negsuc, pos_part, ltb_ℤ, min_ℤ, ◌-ℤ◌}
use muld.Prelude.Bytes.{Bytes, u64, u32_mod}
use muld.Prelude.Floats.{Floats}
use muld.Types.{ChunkProgress}
pub mod Within
pub mod Full

-- A bar of spaces, as long as it is wide.
abbrev pub blank : ℕ → Bytes
blank w = replicate w b' '

-- The cast of a `std::size_t` to a 32-bit `int`.
abbrev pub to_int : ℕ → ℤ
to_int n =
    if ltb (n % u32_mod) (2 * 1024 * 1024 * 1024)
    then pos (n % u32_mod)
    else negsuc (u32_mod - n % u32_mod - 1)

-- `count` places from a place on.
unfoldable pub fill : ℕ → ℕ → Bytes → Bytes
fill start count [] = []
fill zero zero (x ∷ bar) = x ∷ bar
fill zero (suc count) (x ∷ bar) = b'=' ∷ fill zero count bar
fill (suc start) count (x ∷ bar) = x ∷ fill start count bar

-- `bar[i] = c`, for a place that is not negative.
abbrev pub put : Bytes → ℕ → ℕ → Option Bytes
put bar i c = if ltb i (length bar) then some (set bar i c) else none

-- The inner loop. Its last write is the one furthest out.
unfoldable pub paint : ℤ → ℤ → Bytes → Option Bytes
paint s e bar =
    if ltb_ℤ s e
    then (if ltb_ℤ s (pos 0) || ltb (length bar) (pos_part e)
        then none
        else some (fill (pos_part s) (pos_part (e -ℤ s)) bar))
    else some bar

abbrev pub is_partial : ChunkProgress → Bool
is_partial c = ltb 0 c.downloaded_bytes && ltb c.downloaded_bytes c.total_bytes

-- `bar[e < w ? e : w - 1] = '>'`.
abbrev pub put_tip : ℕ → ℤ → Bytes → Option Bytes
put_tip w e bar =
    if ltb_ℤ e (pos w)
    then (if ltb_ℤ e (pos 0) then none else put bar (pos_part e) b'>')
    else if w == 0
    then none
    else put bar (w - 1) b'>'

-- In the other tool a bar without places gets none.
abbrev pub put_tip_or_not : ℕ → ℤ → Bytes → Option Bytes
put_tip_or_not w e bar =
    if ltb_ℤ e (pos w)
    then (if ltb_ℤ e (pos 0) then none else put bar (pos_part e) b'>')
    else if ltb 0 w
    then put bar (w - 1) b'>'
    else some bar

module _ (place : ℕ → ℤ) (tip : ℤ → Bytes → Option Bytes) where
  abbrev pub with_tip : ChunkProgress → ℤ → Option Bytes → Option Bytes
  with_tip c e none = none
  with_tip c e (some bar) = if is_partial c then tip e bar else some bar

  abbrev pub or_none : Option Bytes → (Bytes → Option Bytes) → Option Bytes
  or_none none rest = none
  or_none (some bar) rest = rest bar

  -- The loop over the chunks.
  unfoldable pub draw : List ChunkProgress → ℕ → Bytes → Option Bytes
  draw [] off bar = some bar
  draw (c ∷ chunks) off bar =
      let e = place (u64 (off + c.downloaded_bytes)) in
      or_none (with_tip c e (paint (place off) e bar))
        (λ bar'. draw chunks (u64 (off + c.total_bytes)) bar')

abbrev pub place_in : ℕ → ℕ → ℕ → ℤ
place_in w tot off = min_ℤ (pos w) (to_int (u64 (off * w) / tot))

-- `BuildProgressBar`.
unfoldable pub build_progress_bar : List ChunkProgress → ℕ → ℕ → Option Bytes
build_progress_bar chunks tot w =
    let drawn = draw (place_in w tot) (put_tip w) chunks 0 (blank w) in
    if tot == 0 then some (blank w) else drawn

module _ (D : Floats) where
  -- Positions by `double`, which are not negative.
  abbrev pub global_place : ℕ → ℕ → ℕ → ℤ
  global_place width total byte =
      let p =
        pos (D.truncate (D.mul (D.div (D.ratio byte 1) (D.ratio total 1)) (D.ratio width 1))) in
      if ltb_ℤ (pos width) p then pos width else p

  -- `BuildGlobalProgressBar`.
  unfoldable pub build_global_progress_bar : List ChunkProgress → ℕ → ℕ → Option Bytes
  build_global_progress_bar chunks total width =
      let drawn = draw (global_place width total) (put_tip_or_not width) chunks 0 (blank width) in
      if total == 0 then some (blank width) else drawn
