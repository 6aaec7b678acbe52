-- ===== src/Downloader/Body.antt =====
-- What a streamed body leaves in the file.
use mathlib.Core.List.{append_assoc, append-nil}
use muld.Prelude.{
  ℕ, ◌+◌, ◌-◌, ◌≡◌, ◌≢◌, ◌≤◌, refl, sym, ap, ◌∙◌, Option, none, some, Bool, true, false, not, List,
  [], ◌∷◌, ◌++◌, length, take, drop, replicate, if◌then◌else◌, ◌==◌, arith, length-append,
  length-replicate, length-take_le, drop-append, drop-drop, take-length-append,
}
use muld.Prelude.Bytes.{Bytes}
use muld.Rate.{is_downloading}
use muld.Downloader.{
  ReadEnd, goes_on, interrupted, fatal, Piece, Ending, stopped, raised, finished, disk_failed,
  Streamed, pwrite, notify, ended, go_on, with_bytes, failing_write, unless_failed, stream_body,
}

-- A write behind a prefix and a text that was just written.
write_behind :
    (before a b after : Bytes) (o : ℕ)
    → length before ≡ o
    → take (o + length a) (before ++ (a ++ after))
        ++ (b ++ drop (o + length a + length b) (before ++ (a ++ after)))
      ≡ before ++ (a ++ (b ++ drop (length b) after))
write_behind before a b after o e =
    let both : length (before ++ a) ≡ o + length a =
      length-append before a ∙ ap (λ n. n + length a) e in
    let group : before ++ (a ++ after) ≡ (before ++ a) ++ after = simp append_assoc in
    let front : take (o + length a) (before ++ (a ++ after)) ≡ before ++ a =
      ap (λ n. take n (before ++ (a ++ after))) (sym both)
      ∙ ap (take (length (before ++ a))) group
      ∙ take-length-append (before ++ a) after in
    let back : drop (o + length a + length b) (before ++ (a ++ after)) ≡ drop (length b) after =
      ap (λ n. drop (n + length b) (before ++ (a ++ after))) (sym both)
      ∙ ap (drop (length (before ++ a) + length b)) group
      ∙ drop-append (length b) (before ++ a) after in
    rw (front, back) (simp append_assoc)

pwrite-append :
    (o : ℕ) (a b file : Bytes) → pwrite (o + length a) b (pwrite o a file) ≡ pwrite o (a ++ b) file
unfolding pwrite
pwrite-append o a b file =
    let before = take o (file ++ replicate (o - length file) 0) in
    let after = drop (o + length a) file in
    let long : length before ≡ o = length-take_le o (file ++ replicate (o - length file) 0) (
      omega (
        arith,
        length-append file (replicate (o - length file) 0),
        length-replicate {A = ℕ} (o - length file) 0,
      )) in
    let no_gap : o + length a - length (before ++ (a ++ after)) ≡ 0 =
      omega (arith, long, length-append before (a ++ after), length-append a after) in
    let same : drop (length b) after ≡ drop (o + length (a ++ b)) file =
      drop-drop (length b) (o + length a) file
      ∙ ap (λ n. drop n file) (omega (arith, length-append a b)) in
    rw (no_gap, append-nil) (write_behind before a b after o long ∙ rw same (simp append_assoc))

abbrev behind : ReadEnd → Bytes → Bytes
behind goes_on rest = rest
behind interrupted rest = []
behind (fatal what) rest = []

abbrev block : Option ℕ → Piece → Bytes → Bytes
block none p rest = p.bytes ++ behind p.read_end rest
block (some k) p rest = take k p.bytes

-- The bytes that the rounds that ran wrote.
unfoldable pub received : List Piece → Bytes
received [] = []
received (p ∷ ps) =
    let here = block (failing_write p.bytes p.write_fails) p (received ps) in
    if not (is_downloading p.state) then [] else if p.allowed_bytes == 0 then [] else here

unfoldable pub total : List ℕ → ℕ
total [] = 0
total (n ∷ ns) = n + total ns

pub with_bytes-some : (o x : ℕ) (a file : Bytes) → with_bytes o (x ∷ a) file ≡ pwrite o (x ∷ a) file
with_bytes-some o x a file = ground arith

pub with_bytes-append :
    (o : ℕ) (a b file : Bytes)
    → with_bytes (o + length a) b (with_bytes o a file) ≡ with_bytes o (a ++ b) file
with_bytes-append o [] b file = ap (λ n. with_bytes n b file) (omega arith)
with_bytes-append o (x ∷ a) [] file = simp append-nil
with_bytes-append o (x ∷ a) (y ∷ b) file =
    with_bytes-some (o + length (x ∷ a)) y b (with_bytes o (x ∷ a) file)
    ∙ ap (pwrite (o + length (x ∷ a)) (y ∷ b)) (with_bytes-some o x a file)
    ∙ pwrite-append o (x ∷ a) (y ∷ b) file
    ∙ sym (with_bytes-some o x (a ++ y ∷ b) file)

-- What a call leaves: the file, the offset and the counts that the job was told.
abbrev Leaves : Streamed → Bytes → ℕ → Bytes → Type 0
Leaves s got offset file =
    (s.file ≡ with_bytes offset got file)
    × (s.current_offset ≡ offset + length got)
    × (total s.notified ≤ length got)
    × (s.ending ≢ disk_failed → total s.notified ≡ length got)

ended-Leaves :
    (ending : Ending) (offset : ℕ) (file : Bytes) → Leaves (ended ending file offset) [] offset file
unfolding total
ended-Leaves ending offset file = (refl, omega arith, omega arith, λ n. refl)

notify-total : (n : ℕ) (calls : List ℕ) → total (notify n calls) ≡ n + total calls
unfolding total
notify-total n calls = ground arith

go_on-Leaves :
    (r : ReadEnd) (got file : Bytes) (offset : ℕ) (rest : Streamed)
    → Leaves rest got offset file
    → Leaves (go_on r file offset rest) (behind r got) offset file
go_on-Leaves goes_on got file offset rest h = h
go_on-Leaves interrupted got file offset rest h = ended-Leaves stopped offset _
go_on-Leaves (fatal what) got file offset rest h = ended-Leaves (raised what) offset _

piece-Leaves :
    (a got file : Bytes) (offset : ℕ) (s : Streamed)
    → Leaves s got (offset + length a) (with_bytes offset a file)
    → Leaves (record s { notified = notify (length a) s.notified }) (a ++ got) offset file
piece-Leaves a got file offset s (file_is, offset_is, at_most, total_is) = (
  file_is ∙ with_bytes-append offset a got file,
  omega (arith, offset_is, length-append a got),
  omega (arith, notify-total (length a) s.notified, at_most, length-append a got),
  λ n. omega (arith, notify-total (length a) s.notified, total_is n, length-append a got),
)

unless_failed-Leaves :
    (w : Option ℕ) (p : Piece) (got file : Bytes) (offset : ℕ) (rest : Streamed)
    → Leaves rest got (offset + length p.bytes) (with_bytes offset p.bytes file)
    → Leaves (unless_failed w p offset file rest) (block w p got) offset file
unfolding total
unless_failed-Leaves none p got file offset rest h =
    piece-Leaves p.bytes (behind p.read_end got) file offset
      (go_on p.read_end (with_bytes offset p.bytes file) (offset + length p.bytes) rest)
      (go_on-Leaves p.read_end got (with_bytes offset p.bytes file) (offset + length p.bytes) rest
        h)
unless_failed-Leaves (some k) p got file offset rest h =
    (refl, refl, omega arith, λ n. absurd (n refl))

-- However the reads and writes go, a call of `StreamBodyToDisk` leaves in the file exactly the bytes
-- that were written, one after the other from the offset on, and everything else as it was; it moves
-- the offset behind them. The counts that it tells the job sum up to at most their number, and to just
-- their number unless a write failed.
pub stream_body_lem :
    (ps : List Piece) (offset : ℕ) (file : Bytes)
    → let s = stream_body ps offset file in
      let got = received ps in
      (s.file ≡ with_bytes offset got file)
      × (s.current_offset ≡ offset + length got)
      × (total s.notified ≤ length got)
      × (s.ending ≢ disk_failed → total s.notified ≡ length got)
unfolding stream_body received
stream_body_lem [] offset file = ended-Leaves finished offset file
stream_body_lem (p ∷ ps) offset file =
    let written = with_bytes offset p.bytes file in
    let next = offset + length p.bytes in
    let w = failing_write p.bytes p.write_fails in
    go (not (is_downloading p.state)) (p.allowed_bytes == 0)
      (unless_failed w p offset file (stream_body ps next written)) (block w p (received ps))
      (unless_failed-Leaves w p (received ps) file offset (stream_body ps next written)
        (stream_body_lem ps next written))
  where
    stop : Streamed
    stop = ended stopped file offset

    go :
        (b c : Bool) (s : Streamed) (got : Bytes)
        → Leaves s got offset file
        → Leaves
            (if b then stop else if c then stop else s)
            (if b then [] else if c then [] else got)
            offset
            file
    go true c s got h = ended-Leaves stopped offset file
    go false true s got h = ended-Leaves stopped offset file
    go false false s got h = h
