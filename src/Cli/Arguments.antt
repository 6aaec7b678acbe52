-- ===== src/Cli/Arguments.antt =====
-- The arguments of the two tools: parseArgs of src/muld_cli_async.cpp, and the loop and the tests behind
-- it in main of src/muld_cli_polling.cpp. An argument that an option waits for is a state of the loop.
use muld.Prelude.{
  ℕ, ◌+◌, ◌-◌, ◌*◌, ◌≡◌, Bool, true, false, ◌||◌, Option, none, some, List, [], ◌∷◌, ◌++◌,
  if◌then◌else◌, ltb, leb, ◌==◌, eq_bytes, is_empty,
}
use muld.Prelude.Int.{ℤ, pos, negsuc}
use muld.Prelude.Bytes.{Bytes, codes}
use muld.Prelude.Decimal.{signed_number}
use muld.Url.Find.{char_at}
use muld.Cli.Text.{extract_filename, async_default, polling_default}
pub mod Order

-- `std::stoi` of 32 bits; none where it throws.
abbrev pub int_of : Option (Bool × ℕ) → Option ℤ
int_of none = none
int_of (some (false, n)) = if ltb n (2 * 1024 * 1024 * 1024) then some (pos n) else none
int_of (some (true, n)) =
    if leb n (2 * 1024 * 1024 * 1024) then some (if n == 0 then pos 0 else negsuc (n - 1)) else none

unfoldable pub stoi : Bytes → Option ℤ
stoi text = int_of (signed_number text)

pub record Options : Type 0 where
  pub url : Bytes
  pub out : Bytes
  pub max_threads : ℤ
  pub speed_limit_bps : ℕ

abbrev pub default_options : Options
default_options = record { url = []; out = []; max_threads = pos 8; speed_limit_bps = 0 }

-- How the arguments are taken: with the options, with a message, with the help text, or with an
-- exception that nothing catches.
pub data Parsed : Type 0 where
  accepted : Options → Parsed
  rejected : Bytes → Parsed
  helped thrown : Parsed

pub data Awaited : Type 0 where
  nothing output threads speed : Awaited

abbrev pub missing_value : Awaited → Options → Parsed
missing_value nothing o = accepted o
missing_value output o = rejected (codes "Missing -o arg\n")
missing_value threads o = rejected (codes "Missing -c arg\n")
missing_value speed o = rejected (codes "Missing -s arg\n")

pub data Kind : Type 0 where
  help unknown positional : Kind
  waits_for : Awaited → Kind

-- What an argument is to the asynchronous tool.
unfoldable pub kind_of : Bytes → Kind
kind_of a =
    if eq_bytes a (codes "-h") || eq_bytes a (codes "--help")
    then help
    else if eq_bytes a (codes "-o") || eq_bytes a (codes "--output")
    then waits_for output
    else if eq_bytes a (codes "-c") || eq_bytes a (codes "--threads") || eq_bytes a (codes "--conn")
    then waits_for threads
    else if eq_bytes a (codes "-s") || eq_bytes a (codes "--speed")
    then waits_for speed
    else if char_at a 0 == b'-'
    then unknown
    else positional

-- The text behind an option, or the end of the loop.
pub data Taken : Type 0 where
  goes_on : Awaited → Options → Taken
  stops : Parsed → Taken

abbrev pub with_threads : Options → Option ℤ → Taken
with_threads o none = stops thrown
with_threads o (some n) = goes_on nothing (record o { max_threads = n })

abbrev pub with_speed : Options → Bytes → Option ℕ → Taken
with_speed o a none = stops (rejected (codes "Invalid speed format: " ++ (a ++ codes "\n")))
with_speed o a (some limit) = goes_on nothing (record o { speed_limit_bps = limit })

abbrev pub by_kind : Options → Bytes → Kind → Taken
by_kind o a help = stops helped
by_kind o a unknown = stops (rejected (codes "Unknown option: " ++ (a ++ codes "\n")))
by_kind o a positional = goes_on nothing (record o { url = a })
by_kind o a (waits_for w) = goes_on w o

abbrev pub or_stop : Taken → (Awaited → Options → Parsed) → Parsed
or_stop (goes_on w o) rest = rest w o
or_stop (stops p) rest = p

abbrev pub name_output : Options → Options
name_output o =
    if is_empty o.out then record o { out = extract_filename async_default o.url } else o

abbrev pub need_url : Parsed → Parsed
need_url (accepted o) =
    if is_empty o.url
    then rejected (codes "Error: No URL provided.\n")
    else accepted (name_output o)
need_url (rejected message) = rejected message
need_url helped = helped
need_url thrown = thrown

module _ (parse_speed : Bytes → Option ℕ) where
  abbrev pub take_argument : Awaited → Options → Bytes → Taken
  take_argument nothing o a = by_kind o a (kind_of a)
  take_argument output o a = goes_on nothing (record o { out = a })
  take_argument threads o a = with_threads o (stoi a)
  take_argument speed o a = with_speed o a (parse_speed a)

  unfoldable pub parse_rest : List Bytes → Awaited → Options → Parsed
  parse_rest [] w o = missing_value w o
  parse_rest (a ∷ as_) w o = or_stop (take_argument w o a) (λ w' o'. parse_rest as_ w' o')

  -- `parseArgs`, for the arguments behind the name of the program.
  unfoldable pub parse_args : List Bytes → Parsed
  parse_args as_ = parse_rest as_ nothing default_options

  -- The first lines of `main` of the asynchronous tool.
  unfoldable pub async_options : List Bytes → Parsed
  async_options as_ = need_url (parse_args as_)

-- The same for the polling tool, which has no limit of the speed and catches what `stoi` throws.
unfoldable pub polling_kind_of : Bytes → Kind
polling_kind_of a =
    if eq_bytes a (codes "-h") || eq_bytes a (codes "--help")
    then help
    else if eq_bytes a (codes "-o") || eq_bytes a (codes "--output")
    then waits_for output
    else if eq_bytes a (codes "-c") || eq_bytes a (codes "--connections")
    then waits_for threads
    else if char_at a 0 == b'-'
    then unknown
    else positional

abbrev pub with_connections : Options → Option ℤ → Taken
with_connections o none = stops (rejected (codes "Error: Invalid number for connections\n"))
with_connections o (some n) = goes_on nothing (record o { max_threads = n })

abbrev pub polling_take : Awaited → Options → Bytes → Taken
polling_take nothing o a = by_kind o a (polling_kind_of a)
polling_take output o a = goes_on nothing (record o { out = a })
polling_take threads o a = with_connections o (stoi a)
polling_take speed o a = goes_on nothing o

abbrev pub polling_missing : Awaited → Options → Parsed
polling_missing nothing o = accepted o
polling_missing output o = rejected (codes "Error: Missing argument for -o/--output\n")
polling_missing threads o = rejected (codes "Error: Missing argument for -c/--connections\n")
polling_missing speed o = accepted o

unfoldable pub polling_from : List Bytes → Awaited → Options → Parsed
polling_from [] w o = polling_missing w o
polling_from (a ∷ as_) w o = or_stop (polling_take w o a) (λ w' o'. polling_from as_ w' o')

abbrev pub polling_finish : Parsed → Parsed
polling_finish (accepted o) =
    if is_empty o.url
    then rejected (codes "Error: No URL provided.\n")
    else accepted
        (if is_empty o.out then record o { out = extract_filename polling_default o.url } else o)
polling_finish (rejected message) = rejected message
polling_finish helped = helped
polling_finish thrown = thrown

unfoldable pub polling_options : List Bytes → Parsed
polling_options as_ = polling_finish (polling_from as_ nothing default_options)
