-- ===== src/JobImage/Stream.antt =====
-- `std::ifstream` in binary mode, as src/job_image.h reads from it.
use muld.Prelude.{
  ℕ, ◌^◌, ◌<◌, ◌≡◌, Bool, true, false, [], ◌++◌, length, take, drop, if◌then◌else◌, leb, arith,
  length-append, take-length-append, drop-length-append,
}
use muld.Prelude.Bytes.{Bytes, le_bytes, le_value, length-le_bytes, le_value-le_bytes}

pub record InStream : Type 0 where
  pub rest : Bytes
  pub good : Bool

-- `in.read(buffer, k)`: what reaches the buffer. A short read takes what there is and ends `good()`.
unfoldable pub read : ℕ → InStream → Bytes × InStream
read k s =
    if s.good
    then (if leb k (length s.rest)
        then (take k s.rest, record s { rest = drop k s.rest })
        else (s.rest, record { rest = []; good = false }))
    else ([], s)

-- A number that was 0 before its bytes were read over it.
unfoldable pub read_value : ℕ → InStream → ℕ × InStream
unfolding read
read_value k s = let (bytes, s') = read k s in (le_value bytes, s')

abbrev pub ready : Bytes → InStream
ready bytes = record { rest = bytes; good = true }

pub read-append :
    (xs ys : Bytes) (k : ℕ) → length xs ≡ k → read k (ready (xs ++ ys)) ≡ (xs, ready ys)
unfolding read
read-append xs ys k h =
    rw (← h)
      (ground (arith, length-append xs ys, take-length-append xs ys, drop-length-append xs ys))

pub read_value-append :
    (k n : ℕ) (ys : Bytes) → n < 256 ^ k → read_value k (ready (le_bytes k n ++ ys)) ≡ (n, ready ys)
unfolding read_value
read_value-append k n ys h =
    rw (read-append (le_bytes k n) ys k (length-le_bytes k n), le_value-le_bytes k n h)
