-- ===== src/Downloader/Segment.antt =====
-- A worker's chunk and the bytes of the server's file.
use mathlib.Core.Path.{subst}
use mathlib.Core.List.{append_assoc}
use muld.Prelude.{
  ℕ, zero, suc, ◌+◌, ◌-◌, ◌≡◌, refl, sym, ap, ◌∙◌, Bool, true, false, not, Option, none, some, List,
  [], ◌∷◌, ◌++◌, length, take, drop, arith, length-append, if_both, drop-length-append, drop-drop,
}
use muld.Prelude.Bytes.{Bytes}
use muld.Types.{Url}
use muld.Rate.{is_downloading}
use muld.Downloader.{
  Piece, Ending, finished, stopped, disk_failed, raised, Streamed, stream_body, with_bytes,
}
use muld.Downloader.Body.{received, stream_body_lem, with_bytes-append}
use muld.Downloader.Request.{
  Request, build_request, asked_range, asked_range-range_value, Exception, validate_response,
}
use muld.Downloader.Worker.{
  Attempt, ChunkEnding, chunk_finished, returned, ChunkRun, run_ends, after_body, receive_body,
  unless_thrown, connect_first, download_chunk,
}

-- The bytes from one offset to another, the last included.
abbrev pub segment : Bytes → ℕ → ℕ → Bytes
segment content first last = take (suc last - first) (drop first content)

abbrev served_range : Bytes → Option (ℕ × ℕ) → Bytes
served_range content none = content
served_range content (some (first, last)) = segment content first last

abbrev ranges : Option Bytes → Option (ℕ × ℕ)
ranges none = none
ranges (some value) = asked_range value

-- What a server that has a file sends for a request: the range that it asks for, or the whole file.
unfoldable pub served : Bytes → Request → Bytes
served content request = served_range content (ranges request.range)

-- The reads of a body are those of the server's answer to the request: they got a first part of it,
-- and all of it if they came to its end.
unfoldable pub Answers : Bytes → Request → List Piece → Type 0
Answers content request pieces =
    (rest : Bytes) × (received pieces ++ rest ≡ served content request)
    × ((offset : ℕ) (file : Bytes) → (stream_body pieces offset file).ending ≡ finished → rest ≡ [])

-- Every request that the rounds of a chunk can send is answered so.
unfoldable pub IsHonest : Bytes → Url → Bool → ℕ → ℕ → List Attempt → Type 0
IsHonest content url ranged last offset [] = Unit {0}
IsHonest content url ranged last offset (a ∷ rounds) =
    Answers content (build_request url offset last ranged) a.pieces
    × IsHonest content url ranged last (offset + length (received a.pieces)) rounds

-- A run has written a first part of some bytes, and all of them if the chunk is finished.
abbrev pub Writes : ChunkRun → Bytes → ℕ → Bytes → Type 0
Writes run bytes offset file =
    (got : Bytes) × (rest : Bytes) × (got ++ rest ≡ bytes)
    × (run.file ≡ with_bytes offset got file)
    × (run.current_offset ≡ offset + length got)
    × (run.ending ≡ chunk_finished → rest ≡ [])

take-nil {ℓ} : {A : Type ℓ} (n : ℕ) → take {A = A} n [] ≡ []
take-nil zero = refl
take-nil (suc n) = refl

drop-take {ℓ} : {A : Type ℓ} (n m : ℕ) (l : List A) → drop n (take m l) ≡ take (m - n) (drop n l)
drop-take zero m l = let e : m ≡ m - 0 = omega arith in ap (λ k. take k l) e
drop-take (suc n) zero l =
    let e : 0 ≡ 0 - suc n = omega arith in ap (λ k. take k (drop (suc n) l)) e
drop-take (suc n) (suc m) [] = sym (take-nil (suc m - suc n))
drop-take (suc n) (suc m) (x ∷ l) =
    let e : m - n ≡ suc m - suc n = omega arith in drop-take n m l ∙ ap (λ k. take k (drop n l)) e

-- What is left of a segment behind its first part is the segment from there on.
segment-rest :
    (content got rest : Bytes) (first last : ℕ)
    → got ++ rest ≡ segment content first last
    → rest ≡ segment content (first + length got) last
segment-rest content got rest first last e =
    sym (drop-length-append got rest)
    ∙ ap (drop (length got)) e
    ∙ drop-take (length got) (suc last - first) (drop first content)
    ∙ ap (take (suc last - first - length got)) (drop-drop (length got) first content)
    ∙ ap (λ k. take k (drop (first + length got) content)) (omega arith)

pub served-build_request :
    (content : Bytes) (url : Url) (first last : ℕ)
    → served content (build_request url first last true) ≡ segment content first last
unfolding served build_request
served-build_request content url first last =
    ap (served_range content) (asked_range-range_value first last)

nothing-Writes :
    (ending : ChunkEnding) (connected : Bool) (bytes : Bytes) (offset : ℕ) (file : Bytes)
    → (ending ≡ chunk_finished → bytes ≡ [])
    → Writes (run_ends ending file offset connected) bytes offset file
nothing-Writes ending connected bytes offset file h = ([], bytes, refl, refl, omega arith, h)

-- The body of one answer, and the rounds behind it.
module _ (bytes g rest file : Bytes) (offset : ℕ) (s : Streamed) (again : ChunkRun)
    (cut : g ++ rest ≡ bytes) (file_is : s.file ≡ with_bytes offset g file)
    (offset_is : s.current_offset ≡ offset + length g) where
  again-Writes : Writes again rest s.current_offset s.file → Writes again bytes offset file
  again-Writes (got, left, whole, f, o, all) = (
    g ++ got,
    left,
    append_assoc g got left ∙ ap (λ t. g ++ t) whole ∙ cut,
    f
        ∙ ap (λ n. with_bytes n got s.file) offset_is
        ∙ ap (with_bytes (offset + length g) got) file_is
        ∙ with_bytes-append offset g got file,
    omega (arith, o, offset_is, length-append g got),
    all,
  )

  after_body-Writes :
      (keep_alive : Bool) (e : Ending)
      → (e ≡ finished → rest ≡ [])
      → Writes again rest s.current_offset s.file
      → Writes (after_body true keep_alive e s again) bytes offset file
  after_body-Writes keep_alive finished all next = (g, rest, cut, file_is, offset_is, λ h. all refl)
  after_body-Writes keep_alive stopped all next = again-Writes next
  after_body-Writes keep_alive disk_failed all next =
      (g, rest, cut, file_is, offset_is, λ h. absurd (cc))
  after_body-Writes keep_alive (raised what) all next =
      (g, rest, cut, file_is, offset_is, λ h. absurd (cc))

unless_thrown-Writes :
    (e : Option Exception) (bytes file : Bytes) (offset : ℕ) (run : ChunkRun)
    → Writes run bytes offset file
    → Writes (unless_thrown e file offset run) bytes offset file
unless_thrown-Writes none bytes file offset run h = h
unless_thrown-Writes (some x) bytes file offset run h =
    nothing-Writes _ true bytes offset file (λ p. absurd (cc))

-- For a job with ranges and a server that has a file and answers each request with the range that it
-- asks for: however often the connection breaks, wherever a write fails and whatever the statuses are,
-- a worker on the bytes of a chunk that are missing has written a first part of them in their place in
-- the output file, changed nothing else there, and stands behind what it has written; if it counts the
-- chunk as finished it has written all of them.
pub download_chunk-Writes :
    (content : Bytes) (url : Url) (last : ℕ) (rounds : List Attempt) (first : ℕ) (connected : Bool)
    (file : Bytes)
    → IsHonest content url true last first rounds
    → Writes
        (download_chunk url true last rounds first connected file)
        (segment content first last)
        first
        file
unfolding download_chunk IsHonest Answers
download_chunk-Writes content url last [] first connected file honest =
    nothing-Writes _ connected _ first file (λ p. absurd (cc))
download_chunk-Writes content url last (a ∷ rounds) first connected file
      ((rest, cut, all), honest) =
    let s = stream_body a.pieces first file in
    let g = received a.pieces in
    let body = stream_body_lem a.pieces first file in
    let again = download_chunk url true last rounds s.current_offset false s.file in
    let cut' : g ++ rest ≡ segment content first last =
      cut ∙ served-build_request content url first last in
    let here : rest ≡ segment content s.current_offset last =
      segment-rest content g rest first last cut' ∙ ap (λ n. segment content n last) (sym body.1) in
    let next : Writes again (segment content s.current_offset last) s.current_offset s.file =
      download_chunk-Writes content url last rounds s.current_offset false s.file
        (subst (λ n. IsHonest content url true last n rounds) (sym body.1) honest) in
    let next' : Writes again rest s.current_offset s.file =
      subst (λ t. Writes again t s.current_offset s.file) (sym here) next in
    let done =
      after_body-Writes (segment content first last) g rest file first s again cut' body.0 body.1
        a.keep_alive s.ending (all first file) next' in
    let stop =
      nothing-Writes returned connected (segment content first last) first file
        (λ p. absurd (cc)) in
    let fate = λ (r : ChunkRun). Writes r (segment content first last) first file in
    if_both fate a.release _ _ stop (
      if_both fate (not (is_downloading a.state)) _ _ stop (
        unless_thrown-Writes (connect_first connected a.connecting) (segment content first last)
          file first _
          (unless_thrown-Writes a.exchange (segment content first last) file first _ (
            unless_thrown-Writes (validate_response a.response true) (segment content first last)
              file first (receive_body true a s again) done))))
