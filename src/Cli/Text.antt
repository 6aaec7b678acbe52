-- ===== src/Cli/Text.antt =====
-- The texts that the two tools make: the name of the output file, times and cut lines.
use muld.Prelude.{
  ℕ, zero, suc, ◌+◌, ◌-◌, ◌*◌, ◌/◌, ◌%◌, ◌≡◌, ◌≢◌, ◌≤◌, ◌<◌, refl, ap, ◌∙◌, Bool, true, false, not,
  ◌&&◌, ◌||◌, Option, none, some, List, [], ◌∷◌, ◌++◌, length, take, drop, All, if◌then◌else◌, ltb,
  ◌==◌, arith, Bool-cases, inl, inr, if_both, if_either, length-append, length-take_le,
}
use muld.Prelude.Bytes.{Bytes, codes}
use muld.Prelude.Decimal.{decimal, scan, scan-decimal}
use muld.Url.Find.{find_char}
pub mod FileName
pub mod Times

-- `find_last_of` for one character; none is `npos`.
abbrev pub last_or : Bool → Option ℕ → Option ℕ
last_or here (some i) = some (suc i)
last_or here none = if here then some 0 else none

unfoldable pub find_last : ℕ → Bytes → Option ℕ
find_last c [] = none
find_last c (x ∷ xs) = last_or (x == c) (find_last c xs)

-- `url.erase(url.find('?'))`, where there is one.
abbrev pub cut_at : Option ℕ → Bytes → Bytes
cut_at none s = s
cut_at (some i) s = take i s

abbrev pub name_behind : Bytes → Bytes → Option ℕ → Bytes
name_behind default_name s none = default_name
name_behind default_name s (some p) = if p == length s - 1 then default_name else drop (p + 1) s

-- `ExtractFilenameFromUrl` of both tools, which differ in the name that they fall back to.
unfoldable pub extract_filename : Bytes → Bytes → Bytes
extract_filename default_name url = name_behind default_name s (find_last b'/' s)
  where
    s : Bytes
    s = cut_at (find_char b'?' 0 url) url

abbrev pub async_default : Bytes
async_default = codes "download.out"

abbrev pub polling_default : Bytes
polling_default = codes "downloaded_file.out"

-- `%02d`, and `setw(2)` with the fill `0`.
unfoldable pub two_digits : ℕ → Bytes
two_digits n = if ltb n 10 then b'0' ∷ decimal n else decimal n

-- `FormatTime` of both tools, for seconds that the cast to `int` gave, or none where the test before it
-- found them negative, not a number or infinite.
unfoldable pub format_time : Option ℕ → Bytes
format_time none = codes "--:--:--"
format_time (some s) =
    two_digits (s / 3600) ++ (b':' ∷ two_digits (s % 3600 / 60) ++ (b':' ∷ two_digits (s % 60)))

-- A line that is longer than `most` is cut and ends in dots: 100 in one tool, 80 in the other.
unfoldable pub cut_line : ℕ → Bytes → Bytes
cut_line most line = if ltb most (length line) then take (most - 3) line ++ codes "..." else line
