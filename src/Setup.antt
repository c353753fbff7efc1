-- ===== src/Setup.antt =====
-- slot.go and publication.go: the slot's existence and saved position, and the two idempotent
-- creations. The database, pgx's quoting of identifiers, `%q` and pglogrepl.ParseLSN are parameters.
pub mod Ensures
pub mod Examples
use phylax.Base.{
  ℕ, if◌then◌else◌, Bool, true, false, ◌||◌, Text, codes, ◌==◌, text_eq, List, [], ◌∷◌, ◌++◌,
  Option, none, some, Error, no_rows, message, wrap, pg_error, canceled, deadline_exceeded, Res, ok,
  err, panic, ◌>>=◌, wrapped, ◌≡◌,
}

-- `strings.Join(texts, ", ")`.
abbrev joined : List Text → Text
joined [] = []
joined (t ∷ []) = t
joined (t ∷ u ∷ ts) = t ++ codes ", " ++ joined (u ∷ ts)

abbrev sanitized : (Text → Text) → List Text → List Text
sanitized sanitize [] = []
sanitized sanitize (t ∷ ts) = sanitize t ∷ sanitized sanitize ts

unfoldable pub create_statement : (Text → Text) → Text → List Text → Text
create_statement sanitize name tables =
    codes "CREATE PUBLICATION "
    ++ sanitize name
    ++ codes " FOR TABLE "
    ++ joined (sanitized sanitize tables)
    ++ codes ";"

-- A query for one row scans it into a text, or returns no_rows where there is none. The laws: a
-- slot and a publication whose creation returned no error are found from then on.
pub record Database : Type 1 where
  pub State : Type 0
  pub slot_row : Text → State → Res Text
  pub confirmed_row : Text → State → Res Text
  pub publication_row : Text → State → Res Text
  pub create_slot : Text → State → State × Res (Unit {0})
  pub exec : Text → State → State × Res (Unit {0})
  pub sanitize : Text → Text
  pub quote : Text → Text
  pub parse_lsn : Text → Res ℕ
  pub slot_created :
      (name : Text) (s s' : State) → create_slot name s ≡ (s', ok tt) → slot_row name s' ≡ ok name
  pub publication_created :
      (name : Text) (tables : List Text) (s s' : State)
      → exec (create_statement sanitize name tables) s ≡ (s', ok tt)
      → publication_row name s' ≡ ok name

-- The switch on the error of a query; the comparison with ErrNoRows does not unwrap.
abbrev found : Text → Res Text → Res Bool
found text (ok row) = ok true
found text (err no_rows) = ok false
found text (err e) = err (wrap text e)
found text panic = panic

abbrev created {ℓ} : {State : Type ℓ} → Text → State × Res (Unit {0}) → State × Res Bool
created text (s, ok done) = (s, ok true)
created text (s, err e) = (s, err (wrap text e))
created text (s, panic) = (s, panic)

-- Create what was looked for, unless it exists or the look failed.
abbrev pub ensured {ℓ} :
    {State : Type ℓ} → Text → (State → State × Res (Unit {0})) → State → Res Bool → State × Res Bool
ensured text create s (ok true) = (s, ok false)
ensured text create s (ok false) = created text (create s)
ensured text create s (err e) = (s, err e)
ensured text create s panic = (s, panic)

module _ (db : Database) where
  unfoldable pub slot_exists : Text → db.State → Res Bool
  slot_exists name s = found (codes "checking slot existence") (db.slot_row name s)

  abbrev confirmed : Res Text → Res (Option ℕ)
  confirmed (ok text) =
      if (text == []) || (text == codes "0/0")
      then ok none
      else (wrapped (codes "parsing slot confirmed flush LSN " ++ db.quote text) (db.parse_lsn text)
          >>= λ lsn. ok (some lsn))
  confirmed (err no_rows) = ok none
  confirmed (err e) = err (wrap (codes "checking slot confirmed flush LSN") e)
  confirmed panic = panic

  -- `none` is the false of the source's second result.
  unfoldable pub slot_confirmed_flush_lsn : Text → db.State → Res (Option ℕ)
  slot_confirmed_flush_lsn name s = confirmed (db.confirmed_row name s)

  unfoldable pub ensure_replication_slot : Text → db.State → db.State × Res Bool
  ensure_replication_slot name s =
      ensured (codes "creating replication slot " ++ db.quote name) (db.create_slot name) s
        (slot_exists name s)

  unfoldable pub publication_exists : Text → db.State → Res Bool
  publication_exists name s =
      found (codes "checking publication existence") (db.publication_row name s)

  unfoldable pub ensure_publication : Text → List Text → db.State → db.State × Res Bool
  ensure_publication name tables s =
      ensured (codes "creating publication " ++ db.quote name)
        (db.exec (create_statement db.sanitize name tables)) s (publication_exists name s)
