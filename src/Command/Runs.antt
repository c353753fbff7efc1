-- ===== src/Command/Runs.antt =====
-- run: the client that it makes and starts, and its console.
use phylax.Base.{
  ℕ, suc, if◌then◌else◌, Bool, true, false, ◌&&◌, not, Text, codes, get_elem?, List, [], ◌∷◌,
  Option, none, some, Error, message, Res, ok, Chan, ◌≡◌, ◌≢◌,
}
use phylax.Change.{Change}
use phylax.Broadcast.Valid.{IsValid}
use phylax.Broadcast.Entries.{HasEntry}
use phylax.Cdc.{Config, Cdc, contains, ids_of}
use phylax.Cdc.Configs.{Completes}
use phylax.Command.{Options, split_tables, config_of, Effect, shuts_down, returned, run}

abbrev pub shutdowns : List Effect → ℕ
shutdowns [] = 0
shutdowns (shuts_down ∷ effects) = suc (shutdowns effects)
shutdowns (effect ∷ effects) = shutdowns effects

abbrev pub is_none {ℓ} : {A : Type ℓ} → Option A → Bool
is_none none = true
is_none (some a) = false

-- The console is up: it is not disabled, and its address could be bound.
abbrev pub has_console : Options → Option Error → Bool
has_console opts e = not opts.no_http && is_none e

-- The client that run starts: its configuration is completed, and it has one consumer of changes, whose
-- channel is open and empty and has room.
pub record IsReady (cfg : Config) (c : Cdc) : Type 0 where
  pub completes : Completes cfg c.cfg
  pub valid : IsValid c.broadcaster
  pub id : Text
  pub ch : ℕ
  pub room : ℕ
  pub known : contains (ids_of c.sub_ids) id ≡ true
  pub entry : HasEntry c.broadcaster id ch
  pub opened :
      get_elem? c.broadcaster.heap ch
      ≡ some (record { capacity = suc room; buffer = []; is_closed = false })

abbrev pub RunResult : List (Chan Change) → Options → Type 0
RunResult heap opts =
    (opts.dsn ≡ []
      → (listen : Text → Option Error) (start : Cdc → Option (Res (Option Error × Cdc)))
      → run listen start heap opts
        ≡ ([], some (ok (some (message (codes "phylax: Config.DSN is required"))))))
    × (opts.dsn ≢ []
        → split_tables opts.tables ≡ []
        → (listen : Text → Option Error) (start : Cdc → Option (Res (Option Error × Cdc)))
        → run listen start heap opts ≡ (
          [],
          some (ok (some (message (codes "phylax: Config.Tables must list at least one table")))),
        ))
    × (opts.dsn ≢ []
        → split_tables opts.tables ≢ []
        → (c : Cdc) × IsReady (config_of opts) c
          × ((listen : Text → Option Error) (start : Cdc → Option (Res (Option Error × Cdc)))
              → ((run listen start heap opts).1 ≡ returned (start c))
                × (shutdowns (run listen start heap opts).0 ≡ (
                    if has_console opts (listen opts.addr) && not (is_none (start c))
                    then 1
                    else 0))))
