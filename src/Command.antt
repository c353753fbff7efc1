-- ===== src/Command.antt =====
-- cmd/phylax/main.go: the options, the tables of a flag, and run. flag.Parse, net.Listen and the client's
-- Start are parameters, by what they return.
pub mod Tables
pub mod Semaphores
pub mod Runs
pub mod Flags
mod Examples
use phylax.Base.{
  ℕ, zero, suc, ltb, leb, eqb, if◌then◌else◌, Bool, true, false, ◌&&◌, ◌||◌, Text, codes, List, [],
  ◌∷◌, ◌++◌, Option, none, some, Error, wrap, Res, ok, err, panic, ◌>>=◌, pos, Chan, ◌⊎◌, inl, inr,
}
use phylax.Change.{Change}
use phylax.Cdc.{Config, Cdc, new, on_change}

pub record Options : Type 0 where
  pub dsn : Text
  pub tables : Text
  pub webhook : Text
  pub slot : Text
  pub publication : Text
  pub outbox_table : Text
  pub addr : Text
  pub no_http : Bool
  pub verbose : Bool

abbrev pub is_empty : Text → Bool
is_empty [] = true
is_empty (c ∷ cs) = false

-- What parseFlags returns for the flags that were read; `none` is the exit with status 2.
unfoldable pub checked_flags : Options → Option Options
checked_flags opts = if is_empty opts.dsn || is_empty opts.tables then none else some opts

abbrev pub comma : ℕ
comma = 44

abbrev pub before_first : ℕ → List Text → List Text
before_first c [] = (c ∷ []) ∷ []
before_first c (part ∷ parts) = (c ∷ part) ∷ parts

-- strings.Split at a comma.
unfoldable pub split : Text → List Text
split [] = [] ∷ []
split (c ∷ cs) = let parts = split cs in if eqb c comma then [] ∷ parts else before_first c parts

abbrev between : ℕ → ℕ → ℕ → Bool
between a b c = leb a c && leb c b

-- unicode.IsSpace, of a rune by its UTF-8 bytes.
abbrev pub is_blank : ℕ → Bool
is_blank a = between 9 13 a || eqb a 32

abbrev pub is_space2 : ℕ → ℕ → Bool
is_space2 a b = eqb a 194 && (eqb b 133 || eqb b 160)

abbrev is_general_space : ℕ → Bool
is_general_space c = between 128 138 c || eqb c 168 || eqb c 169 || eqb c 175

abbrev pub is_space3 : ℕ → ℕ → ℕ → Bool
is_space3 a b c =
    eqb a 225 && eqb b 154 && eqb c 128
    || eqb a 226 && eqb b 128 && is_general_space c
    || eqb a 226 && eqb b 129 && eqb c 159
    || eqb a 227 && eqb b 128 && eqb c 128

-- How many bytes of white space a text starts with, for one rune, and how many a reversed one does.
abbrev pub first_space : Text → ℕ
first_space [] = 0
first_space (a ∷ []) = if is_blank a then 1 else 0
first_space (a ∷ b ∷ []) = if is_blank a then 1 else if is_space2 a b then 2 else 0
first_space (a ∷ b ∷ c ∷ cs) =
    if is_blank a then 1 else if is_space2 a b then 2 else if is_space3 a b c then 3 else 0

abbrev pub last_space : Text → ℕ
last_space [] = 0
last_space (a ∷ []) = if is_blank a then 1 else 0
last_space (a ∷ b ∷ []) = if is_blank a then 1 else if is_space2 b a then 2 else 0
last_space (a ∷ b ∷ c ∷ cs) =
    if is_blank a then 1 else if is_space2 b a then 2 else if is_space3 c b a then 3 else 0

-- A text without the white space it starts with, past the bytes of a rune that was found.
unfoldable pub trim_by : (Text → ℕ) → ℕ → Text → Text
trim_by space skipped [] = []
trim_by space (suc skipped) (c ∷ cs) = trim_by space skipped cs
trim_by space zero (c ∷ cs) = elim (space (c ∷ cs)) [
  | zero ↦ c ∷ cs
  | suc more ↦ trim_by space more cs
]

unfoldable pub backwards : Text → Text
backwards [] = []
backwards (c ∷ cs) = backwards cs ++ c ∷ []

-- strings.TrimSpace.
unfoldable pub trim_space : Text → Text
unfolding trim_by backwards
trim_space text = backwards (trim_by last_space 0 (backwards (trim_by first_space 0 text)))

unfoldable pub named : List Text → List Text
unfolding trim_space
named [] = []
named (part ∷ parts) = elim (trim_space part) [ [] ↦ named parts | c ∷ cs ↦ (c ∷ cs) ∷ named parts ]

unfoldable pub split_tables : Text → List Text
unfolding split named
split_tables text = named (split text)

-- The line that stdoutHandler prints, if json.Marshal returns one.
unfoldable pub stdout_handler : (Change → Error ⊎ Text) → Change → Option Text
stdout_handler marshal change = elim (marshal change) [ inl e ↦ none | inr line ↦ some line ]

-- strings.HasPrefix of ":".
abbrev is_port : Text → Bool
is_port [] = false
is_port (c ∷ cs) = eqb c b':'

unfoldable pub dashboard_url : Text → Text
dashboard_url addr =
    let host = if is_port addr then codes "localhost" ++ addr else addr in
    codes "http://" ++ host ++ codes "/dashboard"

unfoldable pub config_of : Options → Config
unfolding split_tables
config_of opts = record {
  dsn = opts.dsn;
  tables = split_tables opts.tables;
  slot_name = opts.slot;
  publication_name = opts.publication;
  change_buffer_size = pos 0;
  outbox_table = opts.outbox_table;
}

-- The registration with a webhook's URL, or for the standard output; the console's listener, its warning
-- and its URL in the log; Start; the console's Shutdown.
pub data Effect : Type 0 where
  registers : Option Text → Effect
  listens : Text → Effect
  warns : Error → Effect
  announces : Text → Effect
  starts shuts_down : Effect

abbrev consumer : Text → Option Text
consumer [] = none
consumer (c ∷ cs) = some (c ∷ cs)

-- With net.Listen's error, if any: what is logged, and whether there is a console.
abbrev pub console : Text → Option Error → List Effect × Bool
console addr (some e) = (listens addr ∷ warns (wrap (codes "listen " ++ addr) e) ∷ [], false)
console addr none = (listens addr ∷ announces (dashboard_url addr) ∷ [], true)

-- Start's result, or that it has not returned; the deferred Shutdown follows it, on a panic too.
abbrev pub closing {ℓ} : {A : Type ℓ} → Bool → Option A → List Effect
closing up none = []
closing up (some r) = if up then shuts_down ∷ [] else []

abbrev pub returned : Option (Res (Option Error × Cdc)) → Option (Res (Option Error))
returned none = none
returned (some r) = some do p ← r; ok p.0

abbrev pub served :
    Options
    → List Effect × Bool
    → Option (Res (Option Error × Cdc))
    → List Effect × Option (Res (Option Error))
served opts (effects, up) r =
    (registers (consumer opts.webhook) ∷ (effects ++ starts ∷ closing up r), returned r)

module _ (listen : Text → Option Error) (start : Cdc → Option (Res (Option Error × Cdc))) where
  abbrev pub run_client : Options → Res (ℕ × Cdc) → List Effect × Option (Res (Option Error))
  run_client opts (ok (ch, c)) =
      served opts (if opts.no_http then ([], false) else console opts.addr (listen opts.addr))
        (start c)
  run_client opts (err e) = ([], some (ok (some e)))
  run_client opts panic = ([], some panic)

  -- The effects, and what run returns, if it does. `heap` is the memory of the channels.
  unfoldable pub run : List (Chan Change) → Options → List Effect × Option (Res (Option Error))
  unfolding new on_change config_of
  run heap opts = run_client opts do c ← new heap (config_of opts); on_change c
