-- ===== src/Command/Flags/Readings.antt =====
-- parseFlags: the options that a command line gives, field by field.
use phylax.Base.{
  if◌then◌else◌, ◌||◌, ◌==◌, Bool, true, false, Text, text_eq, text_beq, codes, List, [], ◌∷◌, ◌++◌,
  none, some, ◌≡◌, ◌≢◌, refl, ◌∙◌, ap, ◌⊎◌, inl, inr,
}
use phylax.Command.{Options, is_empty, checked_flags}
use phylax.Command.Flags.{
  TextFlag, BoolFlag, dsn, tables, webhook, slot, outbox_table, publication, addr, no_http, verbose,
  string_var, bool_var, set_text, set_bool, parsed, exits, required, checked, default_options,
  parse_flags,
}
use phylax.Command.Flags.Settings.{
  Setting, joins, spaces, raises, chooses, spelled, args_of, applied, EndsFlags,
  parse_flags-args_of,
}

-- The last text that is given for a name, or else the default.
abbrev pub text_given : Text → Text → List Setting → Text
text_given name default [] = default
text_given name default (joins two f value ∷ ss) =
    text_given name (if spelled (string_var f) == name then value else default) ss
text_given name default (spaces two f value ∷ ss) =
    text_given name (if spelled (string_var f) == name then value else default) ss
text_given name default (raises two f ∷ ss) = text_given name default ss
text_given name default (chooses two f b ∷ ss) = text_given name default ss

-- The last Boolean, where a flag alone is true.
abbrev pub bool_given : Text → Bool → List Setting → Bool
bool_given name default [] = default
bool_given name default (joins two f value ∷ ss) = bool_given name default ss
bool_given name default (spaces two f value ∷ ss) = bool_given name default ss
bool_given name default (raises two f ∷ ss) =
    bool_given name (if spelled (bool_var f) == name then true else default) ss
bool_given name default (chooses two f b ∷ ss) =
    bool_given name (if spelled (bool_var f) == name then b else default) ss

-- Every field, over what it was.
abbrev given_over : Options → List Setting → Options
given_over opts ss = record {
  dsn = text_given (codes "dsn") opts.dsn ss;
  tables = text_given (codes "tables") opts.tables ss;
  webhook = text_given (codes "webhook") opts.webhook ss;
  slot = text_given (codes "slot") opts.slot ss;
  publication = text_given (codes "publication") opts.publication ss;
  outbox_table = text_given (codes "outbox-table") opts.outbox_table ss;
  addr = text_given (codes "addr") opts.addr ss;
  no_http = bool_given (codes "no-http") opts.no_http ss;
  verbose = bool_given (codes "v") opts.verbose ss;
}

-- The options of a command line: nothing is the default, but for the address ":8080".
abbrev pub given : List Setting → Options
given ss = record {
  dsn = text_given (codes "dsn") [] ss;
  tables = text_given (codes "tables") [] ss;
  webhook = text_given (codes "webhook") [] ss;
  slot = text_given (codes "slot") [] ss;
  publication = text_given (codes "publication") [] ss;
  outbox_table = text_given (codes "outbox-table") [] ss;
  addr = text_given (codes "addr") (codes ":8080") ss;
  no_http = bool_given (codes "no-http") false ss;
  verbose = bool_given (codes "v") false ss;
}

given-set_text :
    (two : Bool) (f : TextFlag) (value : Text) (ss : List Setting) (opts : Options)
    → given_over (set_text f value opts) ss ≡ given_over opts (joins two f value ∷ ss)
unfolding text_beq
given-set_text two dsn value ss opts = refl
given-set_text two tables value ss opts = refl
given-set_text two webhook value ss opts = refl
given-set_text two slot value ss opts = refl
given-set_text two outbox_table value ss opts = refl
given-set_text two publication value ss opts = refl
given-set_text two addr value ss opts = refl

given-set_bool :
    (two : Bool) (f : BoolFlag) (b : Bool) (ss : List Setting) (opts : Options)
    → given_over (set_bool f b opts) ss ≡ given_over opts (chooses two f b ∷ ss)
unfolding text_beq
given-set_bool two no_http b ss opts = refl
given-set_bool two verbose b ss opts = refl

applied-given : (ss : List Setting) (opts : Options) → applied ss opts ≡ given_over opts ss
applied-given [] opts = refl
applied-given (joins two f value ∷ ss) opts =
    applied-given ss (set_text f value opts) ∙ given-set_text two f value ss opts
applied-given (spaces two f value ∷ ss) opts =
    applied-given ss (set_text f value opts) ∙ given-set_text two f value ss opts
applied-given (raises two f ∷ ss) opts =
    applied-given ss (set_bool f true opts) ∙ given-set_bool two f true ss opts
applied-given (chooses two f b ∷ ss) opts =
    applied-given ss (set_bool f b opts) ∙ given-set_bool two f b ss opts

pub List-cases {ℓ} : {A : Type ℓ} (xs : List A) → (xs ≡ []) ⊎ (xs ≢ [])
List-cases [] = inl refl
List-cases (x ∷ xs) = inr (λ e. cc)

pub checked-empty :
    (opts : Options) → (opts.dsn ≡ []) ⊎ (opts.tables ≡ []) → checked (parsed opts) ≡ exits 2
unfolding checked_flags
checked-empty opts h = by_fields opts.dsn opts.tables h
  where
    by_fields :
        (d t : Text)
        → (d ≡ []) ⊎ (t ≡ [])
        → required (if is_empty d || is_empty t then none else some opts) ≡ exits 2
    by_fields [] t h = refl
    by_fields (c ∷ cs) [] h = refl
    by_fields (c ∷ cs) (e ∷ es) (inl h) = absurd (cc)
    by_fields (c ∷ cs) (e ∷ es) (inr h) = absurd (cc)

pub checked-full :
    (opts : Options) → opts.dsn ≢ [] → opts.tables ≢ [] → checked (parsed opts) ≡ parsed opts
unfolding checked_flags
checked-full opts d t = by_fields opts.dsn opts.tables d t
  where
    by_fields :
        (d t : Text)
        → d ≢ []
        → t ≢ []
        → required (if is_empty d || is_empty t then none else some opts) ≡ parsed opts
    by_fields [] t h k = absurd (h refl)
    by_fields (c ∷ cs) [] h k = absurd (k refl)
    by_fields (c ∷ cs) (e ∷ es) h k = refl

-- What parseFlags makes of a command line that gives these options.
abbrev pub IsReadAs : List Text → Options → Type 0
IsReadAs args opts =
    (((opts.dsn ≡ []) ⊎ (opts.tables ≡ [])) × (parse_flags args ≡ exits 2))
    ⊎ ((opts.dsn ≢ []) × (opts.tables ≢ []) × (parse_flags args ≡ parsed opts))

-- A command line of any settings, each in any of the forms that flag.Parse takes, and then either nothing
-- or an argument that is no flag and anything after it, is read field by field: each of the nine options
-- is the last value given for its own flag, or else its default, which is empty, false, and ":8080" for
-- the address; and parseFlags exits with status 2 exactly where that leaves the DSN or the tables empty.
pub parse_flags_lem :
    (ss : List Setting) (rest : List Text)
    → EndsFlags rest
    → IsReadAs (args_of ss ++ rest) (given ss)
parse_flags_lem ss rest h =
    let opts = given ss in
    let read =
      parse_flags-args_of ss rest h
      ∙ ap (λ opts. checked (parsed opts)) (applied-given ss default_options) in
    elim (List-cases opts.dsn) [
      | inl d ↦ inl (inl d, read ∙ checked-empty opts (inl d))
      | inr d ↦ elim (List-cases opts.tables) [
        | inl t ↦ inl (inr t, read ∙ checked-empty opts (inr t))
        | inr t ↦ inr (d, t, read ∙ checked-full opts d t)
      ]
    ]
