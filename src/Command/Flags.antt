-- ===== src/Command/Flags.antt =====
-- cmd/phylax/main.go: parseFlags on the arguments, by flag.Parse, and main.
pub mod Settings
pub mod Readings
pub mod Exits
use phylax.Base.{
  ℕ, eqb, if◌then◌else◌, Bool, true, false, ◌||◌, Text, text_eq, codes, lookup, List, [], ◌∷◌,
  Option, none, some, Error, Res, ok, err, panic, ◌>>=◌, Chan, ◌==◌, text_beq, Map,
}
use phylax.Change.{Change}
use phylax.Cdc.{Cdc}
use phylax.Command.{Options, checked_flags, Effect, run}

-- The flags of a text, and those of a Boolean, which need no value.
pub data TextFlag : Type 0 where
  dsn tables webhook slot outbox_table publication addr : TextFlag

pub data BoolFlag : Type 0 where
  no_http verbose : BoolFlag

pub data Flag : Type 0 where
  string_var : TextFlag → Flag
  bool_var : BoolFlag → Flag

abbrev pub name_of : Flag → Text
name_of (string_var dsn) = codes "dsn"
name_of (string_var tables) = codes "tables"
name_of (string_var webhook) = codes "webhook"
name_of (string_var slot) = codes "slot"
name_of (string_var outbox_table) = codes "outbox-table"
name_of (string_var publication) = codes "publication"
name_of (string_var addr) = codes "addr"
name_of (bool_var no_http) = codes "no-http"
name_of (bool_var verbose) = codes "v"

abbrev pub set_text : TextFlag → Text → Options → Options
set_text dsn value opts = record opts { dsn = value }
set_text tables value opts = record opts { tables = value }
set_text webhook value opts = record opts { webhook = value }
set_text slot value opts = record opts { slot = value }
set_text outbox_table value opts = record opts { outbox_table = value }
set_text publication value opts = record opts { publication = value }
set_text addr value opts = record opts { addr = value }

abbrev pub set_bool : BoolFlag → Bool → Options → Options
set_bool no_http value opts = record opts { no_http = value }
set_bool verbose value opts = record opts { verbose = value }

abbrev pub default_options : Options
default_options = record {
  dsn = [];
  tables = [];
  webhook = [];
  slot = [];
  publication = [];
  outbox_table = [];
  addr = codes ":8080";
  no_http = false;
  verbose = false;
}

abbrev all_flags : List Flag
all_flags =
    string_var dsn
    ∷ string_var tables
    ∷ string_var webhook
    ∷ string_var slot
    ∷ string_var outbox_table
    ∷ string_var publication
    ∷ string_var addr
    ∷ bool_var no_http
    ∷ bool_var verbose
    ∷ []

abbrev flag_in : List Flag → Text → Option Flag
flag_in [] name = none
flag_in (f ∷ fs) name = if name == name_of f then some f else flag_in fs name

unfoldable pub flag_named : Text → Option Flag
flag_named name = flag_in all_flags name

-- A name, and the value after its first equals sign.
abbrev with_byte : ℕ → Text × Option Text → Text × Option Text
with_byte c (name, value) = (c ∷ name, value)

unfoldable pub cut : Text → Text × Option Text
cut [] = ([], none)
cut (c ∷ cs) = let rest = cut cs in if eqb c b'=' then ([], some cs) else with_byte c rest

-- An argument of flag.Parse: the first that is not a flag, or "--", ends the flags.
pub data Argument : Type 0 where
  ends malformed : Argument
  flag : Text × Option Text → Argument

abbrev named_argument : ℕ → Text → Argument
named_argument c cs = if eqb c b'-' || eqb c b'=' then malformed else flag (cut (c ∷ cs))

abbrev second_dash : Text → Argument
second_dash [] = ends
second_dash (c ∷ cs) = named_argument c cs

unfoldable pub argument_of : Text → Argument
unfolding cut
argument_of [] = ends
argument_of (c ∷ []) = ends
argument_of (c ∷ d ∷ cs) =
    if eqb c b'-' then (if eqb d b'-' then second_dash cs else named_argument d cs) else ends

-- strconv.ParseBool.
unfoldable pub parse_bool : Text → Option Bool
parse_bool text =
    let is : List Text → Bool = is_among text in
    if is (codes "1" ∷ codes "t" ∷ codes "T" ∷ codes "TRUE" ∷ codes "true" ∷ codes "True" ∷ [])
    then some true
    else if is
        (codes "0" ∷ codes "f" ∷ codes "F" ∷ codes "FALSE" ∷ codes "false" ∷ codes "False" ∷ [])
    then some false
    else none
  where
    is_among : Text → List Text → Bool
    is_among text [] = false
    is_among text (t ∷ ts) = (text == t) || is_among text ts

-- The options, or the status that the process exits with.
pub data Parsed : Type 0 where
  parsed : Options → Parsed
  exits : ℕ → Parsed

abbrev is_help : Text → Bool
is_help name = (name == codes "help") || (name == codes "h")

-- What a flag comes to, with the arguments that are left to `next`: a text flag with no value of its own
-- takes the next argument.
unfoldable pub set_flag :
    (Option TextFlag → Options → Parsed) → Text → Option Text → Option Flag → Options → Parsed
set_flag next name value none opts = if is_help name then exits 0 else exits 2
set_flag next name none (some (string_var f)) opts = next (some f) opts
set_flag next name (some value) (some (string_var f)) opts = next none (set_text f value opts)
set_flag next name none (some (bool_var f)) opts = next none (set_bool f true opts)
set_flag next name (some value) (some (bool_var f)) opts = elim (parse_bool value) [
  | none ↦ exits 2
  | some b ↦ next none (set_bool f b opts)
]

-- flag.Parse, with the flag that waits for its value.
unfoldable pub parse : List Text → Option TextFlag → Options → Parsed
unfolding argument_of flag_named set_flag
parse [] none opts = parsed opts
parse [] (some f) opts = exits 2
parse (arg ∷ args) (some f) opts = parse args none (set_text f arg opts)
parse (arg ∷ args) none opts = elim (argument_of arg) [
  | ends ↦ parsed opts
  | malformed ↦ exits 2
  | flag (name, value) ↦ set_flag (parse args) name value (flag_named name) opts
]

abbrev pub required : Option Options → Parsed
required none = exits 2
required (some opts) = parsed opts

abbrev pub checked : Parsed → Parsed
checked (exits status) = exits status
checked (parsed opts) = required (checked_flags opts)

unfoldable pub parse_flags : List Text → Parsed
unfolding parse
parse_flags args = checked (parse args none default_options)

-- The status of the process.
abbrev pub status : Option Error → ℕ
status none = 0
status (some e) = 1

abbrev pub exit_status : Option (Res (Option Error)) → Option (Res ℕ)
exit_status none = none
exit_status (some r) = some do e ← r; ok (status e)

module _ (listen : Text → Option Error) (start : Cdc → Option (Res (Option Error × Cdc))) where
  abbrev pub run_parsed : List (Chan Change) → Parsed → List Effect × Option (Res ℕ)
  run_parsed heap (exits n) = ([], some (ok n))
  run_parsed heap (parsed opts) =
      let (effects, r) = run listen start heap opts in (effects, exit_status r)

  -- main on its arguments: the effects, and the status that the process exits with, if it does.
  unfoldable pub main : List (Chan Change) → List Text → List Effect × Option (Res ℕ)
  unfolding parse_flags run
  main heap args = run_parsed heap (parse_flags args)
