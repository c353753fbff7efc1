-- ===== src/Command/Flags/Settings.antt =====
-- The arguments that a user writes, in each form that flag.Parse takes.
use phylax.Base.{
  eqb, Bool, true, false, not, ◌&&◌, Text, text_eq, text_beq, codes, List, [], ◌∷◌, ◌++◌,
  append-nil, Option, none, some, ◌≡◌, refl, sym, ◌∙◌, ap, arith,
}
use phylax.Command.{Options}
use phylax.Command.Flags.{
  TextFlag, BoolFlag, dsn, tables, webhook, slot, outbox_table, publication, addr, no_http, verbose,
  Flag, string_var, bool_var, set_text, set_bool, flag_named, cut, ends, flag, argument_of,
  parse_bool, parsed, set_flag, parse, default_options, checked, parse_flags,
}

-- The names of the flags, as the command's usage has them.
abbrev pub spelled : Flag → Text
spelled (string_var dsn) = codes "dsn"
spelled (string_var tables) = codes "tables"
spelled (string_var webhook) = codes "webhook"
spelled (string_var slot) = codes "slot"
spelled (string_var publication) = codes "publication"
spelled (string_var outbox_table) = codes "outbox-table"
spelled (string_var addr) = codes "addr"
spelled (bool_var no_http) = codes "no-http"
spelled (bool_var verbose) = codes "v"

-- A text after its flag, joined by an equals sign or as the next argument; a Boolean flag alone, or joined
-- with its value. The first Boolean is whether there are two dashes.
pub data Setting : Type 0 where
  joins spaces : Bool → TextFlag → Text → Setting
  raises : Bool → BoolFlag → Setting
  chooses : Bool → BoolFlag → Bool → Setting

abbrev pub dashed : Bool → Text → Text
dashed false name = b'-' ∷ name
dashed true name = b'-' ∷ b'-' ∷ name

abbrev pub joined : Bool → Flag → Text → Text
joined two f value = dashed two (spelled f ++ b'=' ∷ value)

abbrev pub print_bool : Bool → Text
print_bool true = codes "true"
print_bool false = codes "false"

abbrev pub args_of : List Setting → List Text
args_of [] = []
args_of (joins two f value ∷ ss) = joined two (string_var f) value ∷ args_of ss
args_of (spaces two f value ∷ ss) = dashed two (spelled (string_var f)) ∷ value ∷ args_of ss
args_of (raises two f ∷ ss) = dashed two (spelled (bool_var f)) ∷ args_of ss
args_of (chooses two f b ∷ ss) = joined two (bool_var f) (print_bool b) ∷ args_of ss

abbrev pub applied : List Setting → Options → Options
applied [] opts = opts
applied (joins two f value ∷ ss) opts = applied ss (set_text f value opts)
applied (spaces two f value ∷ ss) opts = applied ss (set_text f value opts)
applied (raises two f ∷ ss) opts = applied ss (set_bool f true opts)
applied (chooses two f b ∷ ss) opts = applied ss (set_bool f b opts)

-- Names with no equals sign that do not start with a dash.
unfoldable has_no_equals : Text → Bool
has_no_equals [] = true
has_no_equals (c ∷ cs) = not (eqb c b'=') && has_no_equals cs

abbrev is_plain : Text → Bool
is_plain [] = false
is_plain (c ∷ cs) = not (eqb c b'-') && has_no_equals (c ∷ cs)

spelled-plain : (f : Flag) → (is_plain (spelled f) ≡ true) × (flag_named (spelled f) ≡ some f)
unfolding has_no_equals flag_named text_beq
spelled-plain (string_var dsn) = (refl, refl)
spelled-plain (string_var tables) = (refl, refl)
spelled-plain (string_var webhook) = (refl, refl)
spelled-plain (string_var slot) = (refl, refl)
spelled-plain (string_var outbox_table) = (refl, refl)
spelled-plain (string_var publication) = (refl, refl)
spelled-plain (string_var addr) = (refl, refl)
spelled-plain (bool_var no_http) = (refl, refl)
spelled-plain (bool_var verbose) = (refl, refl)

cut-joined :
    (name value : Text)
    → has_no_equals name ≡ true
    → cut (name ++ b'=' ∷ value) ≡ (name, some value)
unfolding cut has_no_equals
cut-joined [] value h = refl
cut-joined (c ∷ cs) value h = ground (arith, cut-joined cs value)

cut-alone : (name : Text) → has_no_equals name ≡ true → cut name ≡ (name, none)
unfolding cut has_no_equals
cut-alone [] h = refl
cut-alone (c ∷ cs) h = ground (arith, cut-alone cs)

argument_of-dashed :
    (two : Bool) (name rest : Text)
    → is_plain name ≡ true
    → argument_of (dashed two (name ++ rest)) ≡ flag (cut (name ++ rest))
unfolding argument_of has_no_equals
argument_of-dashed two [] rest h = absurd (cc)
argument_of-dashed true (c ∷ cs) rest h = ground arith
argument_of-dashed false (c ∷ cs) rest h = ground arith

plain-has_no_equals : (name : Text) → is_plain name ≡ true → has_no_equals name ≡ true
plain-has_no_equals [] h = absurd (cc)
plain-has_no_equals (c ∷ cs) h = ground arith

argument_of-joined :
    (two : Bool) (f : Flag) (value : Text)
    → argument_of (joined two f value) ≡ flag (spelled f, some value)
argument_of-joined two f value =
    let plain = (spelled-plain f).0 in
    argument_of-dashed two (spelled f) (b'=' ∷ value) plain
    ∙ ap flag (cut-joined (spelled f) value (plain-has_no_equals (spelled f) plain))

argument_of-alone :
    (two : Bool) (f : Flag) → argument_of (dashed two (spelled f)) ≡ flag (spelled f, none)
argument_of-alone two f =
    let plain = (spelled-plain f).0 in
    ap (λ name. argument_of (dashed two name)) (sym (append-nil (spelled f)))
    ∙ argument_of-dashed two (spelled f) [] plain
    ∙ ap (λ name. flag (cut name)) (append-nil (spelled f))
    ∙ ap flag (cut-alone (spelled f) (plain-has_no_equals (spelled f) plain))

parse-print_bool : (b : Bool) → parse_bool (print_bool b) ≡ some b
unfolding parse_bool text_beq
parse-print_bool true = refl
parse-print_bool false = refl

parse-flag :
    (arg : Text) (args : List Text) (f : Flag) (value : Option Text) (opts : Options)
    → argument_of arg ≡ flag (spelled f, value)
    → parse (arg ∷ args) none opts ≡ set_flag (parse args) (spelled f) value (some f) opts
unfolding parse set_flag
parse-flag arg args f value opts h = rw (h, (spelled-plain f).1, parse) refl

-- The settings are read in their order, whatever follows them.
parse-args_of :
    (ss : List Setting) (rest : List Text) (opts : Options)
    → parse (args_of ss ++ rest) none opts ≡ parse rest none (applied ss opts)
unfolding parse set_flag
parse-args_of [] rest opts = refl
parse-args_of (joins two f value ∷ ss) rest opts =
    parse-flag (joined two (string_var f) value) (args_of ss ++ rest) (string_var f) (some value)
      opts (argument_of-joined two (string_var f) value)
    ∙ parse-args_of ss rest (set_text f value opts)
parse-args_of (spaces two f value ∷ ss) rest opts =
    parse-flag (dashed two (spelled (string_var f))) (value ∷ args_of ss ++ rest) (string_var f)
      none opts (argument_of-alone two (string_var f))
    ∙ parse-args_of ss rest (set_text f value opts)
parse-args_of (raises two f ∷ ss) rest opts =
    parse-flag (dashed two (spelled (bool_var f))) (args_of ss ++ rest) (bool_var f) none opts
      (argument_of-alone two (bool_var f))
    ∙ parse-args_of ss rest (set_bool f true opts)
parse-args_of (chooses two f b ∷ ss) rest opts =
    parse-flag (joined two (bool_var f) (print_bool b)) (args_of ss ++ rest) (bool_var f)
      (some (print_bool b)) opts (argument_of-joined two (bool_var f) (print_bool b))
    ∙ rw (parse-print_bool b, set_flag) (parse-args_of ss rest (set_bool f b opts))

-- What ends the flags: nothing, or an argument that is no flag, with whatever follows it.
abbrev pub EndsFlags : List Text → Type 0
EndsFlags [] = Unit
EndsFlags (arg ∷ args) = argument_of arg ≡ ends

-- A command line of any settings, each in any of the forms that flag.Parse takes, and then either nothing
-- or an argument that is no flag and anything after it, is read as the defaults with the settings in
-- their order, so that a later setting of a flag wins; and parseFlags exits with status 2 where that
-- leaves the DSN or the tables empty.
pub parse_flags-args_of :
    (ss : List Setting) (rest : List Text)
    → EndsFlags rest
    → parse_flags (args_of ss ++ rest) ≡ checked (parsed (applied ss default_options))
unfolding parse_flags
parse_flags-args_of ss rest h =
    ap checked
      (parse-args_of ss rest default_options ∙ operands rest (applied ss default_options) h)
  where
    operands :
        (rest : List Text) (opts : Options) → EndsFlags rest → parse rest none opts ≡ parsed opts
    operands [] opts h = unfold parse in refl
    operands (arg ∷ args) opts h = rw (h, parse) refl
