-- ===== src/Command/Flags/Exits.antt =====
-- main: with what status a command line ends.
use phylax.Base.{Text, List, [], Option, some, Error, Res, ok, Chan, ◌≡◌, ◌≢◌, ◌⊎◌}
use phylax.Change.{Change}
use phylax.Cdc.{Cdc}
use phylax.Command.{Options, split_tables, config_of, returned}
use phylax.Command.Runs.{IsReady}
use phylax.Command.Flags.{exit_status, main}

-- What main comes to, by the options that its command line gives.
abbrev pub MainResult : List (Chan Change) → Options → List Text → Type 0
MainResult heap opts args =
    (((opts.dsn ≡ []) ⊎ (opts.tables ≡ []))
      × ((listen : Text → Option Error) (start : Cdc → Option (Res (Option Error × Cdc)))
          → main listen start heap args ≡ ([], some (ok 2))))
    ⊎ ((opts.dsn ≢ [])
        × (opts.tables ≢ [])
        × (split_tables opts.tables ≡ [])
        × ((listen : Text → Option Error) (start : Cdc → Option (Res (Option Error × Cdc)))
            → main listen start heap args ≡ ([], some (ok 1))))
    ⊎ ((opts.dsn ≢ [])
        × (split_tables opts.tables ≢ [])
        × ((c : Cdc) × IsReady (config_of opts) c
            × ((listen : Text → Option Error) (start : Cdc → Option (Res (Option Error × Cdc)))
                → (main listen start heap args).1 ≡ exit_status (returned (start c)))))
