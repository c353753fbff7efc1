-- ===== src/Cdc/Configs.antt =====
-- New of cdc.go: which configurations it accepts, and what it fills in.
use phylax.Base.{
  ℕ, zero, suc, Text, codes, List, [], ◌∷◌, message, ok, err, ℤ, pos, negsuc, Chan, ◌≡◌, ◌≢◌, refl,
}
use phylax.Change.{Change}
use phylax.Broadcast.{new_broadcaster}
use phylax.Broadcast.Valid.{IsValid}
use phylax.Cdc.{
  Config, Cdc, new, or_default, or_default_size, default_slot_name, default_publication_name,
  default_change_buffer_size,
}

-- A name that is given is kept, and an empty one is replaced.
abbrev pub Named : Text → Text → Text → Type 0
Named given default name = (given ≢ [] → name ≡ given) × (given ≡ [] → name ≡ default)

-- A size that is positive is kept, and any other is replaced.
abbrev pub Sized : ℤ → ℤ → Type 0
Sized (pos (suc n)) size = size ≡ pos (suc n)
Sized given size = size ≡ default_change_buffer_size

pub record Completes (cfg cfg' : Config) : Type 0 where
  pub dsn : cfg'.dsn ≡ cfg.dsn
  pub tables : cfg'.tables ≡ cfg.tables
  pub slot_name : Named cfg.slot_name default_slot_name cfg'.slot_name
  pub publication_name : Named cfg.publication_name default_publication_name cfg'.publication_name
  pub size : Sized cfg.change_buffer_size cfg'.change_buffer_size
  pub positive : (n : ℕ) × (cfg'.change_buffer_size ≡ pos (suc n))
  pub outbox_table : cfg'.outbox_table ≡ cfg.outbox_table

or_default-Named : (given default : Text) → Named given default (or_default given default)
or_default-Named [] default = (λ h. absurd (h refl), λ h. refl)
or_default-Named (c ∷ cs) default = (λ h. refl, λ h. absurd (cc))

or_default_size-Sized : (size : ℤ) → Sized size (or_default_size size)
or_default_size-Sized (pos zero) = refl
or_default_size-Sized (pos (suc n)) = refl
or_default_size-Sized (negsuc n) = refl

or_default_size-pos : (size : ℤ) → (n : ℕ) × (or_default_size size ≡ pos (suc n))
or_default_size-pos (pos zero) = (99, refl)
or_default_size-pos (pos (suc n)) = (n, refl)
or_default_size-pos (negsuc n) = (99, refl)

abbrev pub NewResult : List (Chan Change) → Config → Type 0
NewResult heap cfg =
    (cfg.dsn ≡ [] → new heap cfg ≡ err (message (codes "phylax: Config.DSN is required")))
    × (cfg.dsn ≢ []
        → cfg.tables ≡ []
        → new heap cfg ≡ err (message (codes "phylax: Config.Tables must list at least one table")))
    × (cfg.dsn ≢ []
        → cfg.tables ≢ []
        → (c : Cdc) × (new heap cfg ≡ ok c)
          × Completes cfg c.cfg
          × IsValid c.broadcaster
          × (c.sub_ids ≡ []))

-- New rejects an empty DSN, and after that an empty list of tables, each with its error. Every
-- other configuration it accepts: the DSN, the tables, the outbox table, names that are not empty
-- and a positive buffer size are kept, empty names become "my_slot" and "my_publication", any
-- other size becomes 100, so that the size of a client is always positive, its broadcaster is valid,
-- and it has no registration.
pub new_lem : (heap : List (Chan Change)) (cfg : Config) → NewResult heap cfg
unfolding new new_broadcaster
new_lem heap cfg = by_fields cfg.dsn cfg.tables refl refl
  where
    by_fields :
        (dsn : Text) (tables : List Text) → cfg.dsn ≡ dsn → cfg.tables ≡ tables → NewResult heap cfg
    by_fields [] tables d t = (λ h. rw d refl, λ h. absurd (h d), λ h. absurd (h d))
    by_fields (x ∷ xs) [] d t = (λ h. absurd (cc), λ h k. rw (d, t) refl, λ h k. absurd (k t))
    by_fields (x ∷ xs) (y ∷ ys) d t = (
      λ h. absurd (cc),
      λ h k. absurd (cc),
      λ h k. (
        record {
          cfg = record cfg {
            slot_name = or_default cfg.slot_name default_slot_name;
            publication_name = or_default cfg.publication_name default_publication_name;
            change_buffer_size = or_default_size cfg.change_buffer_size;
          };
          broadcaster = new_broadcaster heap;
          sub_ids = [];
          next_sub_id = 0;
        },
        rw (d, t) refl,
        record {
          dsn = refl;
          tables = refl;
          slot_name = or_default-Named cfg.slot_name default_slot_name;
          publication_name = or_default-Named cfg.publication_name default_publication_name;
          size = or_default_size-Sized cfg.change_buffer_size;
          positive = or_default_size-pos cfg.change_buffer_size;
          outbox_table = refl;
        },
        tt,
        refl,
      ),
    )
