-- ===== src/Cdc/Sessions/Starts.antt =====
-- runOnce of cdc.go: when it starts replication, from where, and what it leaves open.
use phylax.Base.{
  ℕ, Bool, true, List, [], ◌∷◌, ◌++◌, append_assoc, Option, Res, ok, err, panic, ◌≡◌, ◌≢◌, refl, ap,
  ◌⊎◌, inl, inr,
}
use phylax.Setup.{
  Database, slot_exists, publication_exists, slot_confirmed_flush_lsn, ensure_replication_slot,
  ensure_publication,
}
use phylax.Stream.{plugin_args}
use phylax.Setup.Ensures.{ensure_replication_slot_lem, ensure_publication_lem}
use phylax.Cdc.{Config}
use phylax.Cdc.Sessions.{
  Driver, Event, opens, closes, starts, replication, admin, outbox, resume_position, run_once,
  with_outbox, after_publication, after_slot, after_position, after_identify, with_admin,
  with_replication, open_admin_connection, identify_system, client_config,
}

module _ (db : Database) (d : Driver) (cfg : Config) where
  -- The session's events between its deferred closes, where it starts replication: the position is
  -- the slot's saved one or else the server's, the slot and the publication were seen to exist, and
  -- only the outbox's connection is opened.
  pub record Started (s s' : db.State) (events : List Event) : Type 0 where
    pub x_log_pos : ℕ
    pub saved : Option ℕ
    pub identified : identify_system d ≡ ok x_log_pos
    pub saved_in : slot_confirmed_flush_lsn db cfg.slot_name s ≡ ok saved
    pub with_slot : db.State
    pub slot_there : slot_exists db cfg.slot_name with_slot ≡ ok true
    pub publication_there : publication_exists db cfg.publication_name s' ≡ ok true
    pub are :
        events
        ≡ opens outbox
          ∷ starts cfg.slot_name
              (resume_position x_log_pos saved)
              (plugin_args cfg.publication_name)
          ∷ []

  -- Either nothing was opened or started, and the session failed, or replication was started.
  abbrev pub Inner : db.State → List Event × db.State × Res (Unit {0}) → Type 0
  Inner s (events, s', r) = ((events ≡ []) × (r ≢ ok tt)) ⊎ Started s s' events

  with_outbox-cases :
      (lsn : ℕ) (r : Res (Unit {0}))
      → (((with_outbox db d cfg lsn r).0 ≡ []) × ((with_outbox db d cfg lsn r).1 ≢ ok tt))
        ⊎ ((with_outbox db d cfg lsn r).0
            ≡ opens outbox ∷ starts cfg.slot_name lsn (plugin_args cfg.publication_name) ∷ [])
  unfolding client_config
  with_outbox-cases lsn (ok done) = inr refl
  with_outbox-cases lsn (err e) = inl (refl, λ x. cc)
  with_outbox-cases lsn panic = inl (refl, λ x. cc)

  module _ (s : db.State) (x : ℕ) (saved : Option ℕ) (i : identify_system d ≡ ok x)
      (c : slot_confirmed_flush_lsn db cfg.slot_name s ≡ ok saved) where
    after_publication-Inner :
        (s1 : db.State)
        → slot_exists db cfg.slot_name s1 ≡ ok true
        → (p : db.State × Res Bool) → ensure_publication db cfg.publication_name cfg.tables s1 ≡ p
        → Inner s (after_publication db d cfg (resume_position x saved) p)
    after_publication-Inner s1 there (s2, ok made) e =
        elim (with_outbox-cases (resume_position x saved)
          (open_admin_connection d.connect_outbox cfg.dsn)) [
            | inl h ↦ inl h
            | inr h ↦ inr (record {
              x_log_pos = x;
              saved = saved;
              identified = i;
              saved_in = c;
              with_slot = s1;
              slot_there = there;
              publication_there =
                  (ensure_publication_lem db cfg.publication_name cfg.tables s1 s2 made e).there;
              are = h;
            })
          ]
    after_publication-Inner s1 there (s2, err f) e = inl (refl, λ x. cc)
    after_publication-Inner s1 there (s2, panic) e = inl (refl, λ x. cc)

    after_slot-Inner :
        (p : db.State × Res Bool)
        → ensure_replication_slot db cfg.slot_name s ≡ p
        → Inner s (after_slot db d cfg (resume_position x saved) p)
    after_slot-Inner (s1, ok made) e =
        after_publication-Inner s1 (ensure_replication_slot_lem db cfg.slot_name s s1 made e).there
          (ensure_publication db cfg.publication_name cfg.tables s1) refl
    after_slot-Inner (s1, err f) e = inl (refl, λ x. cc)
    after_slot-Inner (s1, panic) e = inl (refl, λ x. cc)

  after_position-Inner :
      (s : db.State) (x : ℕ) (r : Res (Option ℕ))
      → identify_system d ≡ ok x
      → slot_confirmed_flush_lsn db cfg.slot_name s ≡ r
      → Inner s (after_position db d cfg s x r)
  after_position-Inner s x (ok saved) i e = after_slot-Inner s x saved i e _ refl
  after_position-Inner s x (err f) i e = inl (refl, λ x. cc)
  after_position-Inner s x panic i e = inl (refl, λ x. cc)

  after_identify-Inner :
      (s : db.State) (r : Res ℕ) → identify_system d ≡ r → Inner s (after_identify db d cfg s r)
  after_identify-Inner s (ok x) e = after_position-Inner s x _ e refl
  after_identify-Inner s (err f) e = inl (refl, λ x. cc)
  after_identify-Inner s panic e = inl (refl, λ x. cc)

  -- What a session did, by how far it came.
  abbrev pub SessionShape : db.State → List Event × db.State × Res (Unit {0}) → Type 0
  SessionShape s (events, s', r) =
      ((events ≡ []) × (r ≢ ok tt))
      ⊎ ((events ≡ opens replication ∷ closes replication ∷ []) × (r ≢ ok tt))
      ⊎ ((inner : List Event) × (events
            ≡ opens replication ∷ opens admin ∷ inner ++ closes admin ∷ closes replication ∷ [])
          × Inner s (inner, s', r))

  with_admin-SessionShape :
      (s : db.State) (r : Res (Unit {0}))
      → let (events, s', q) = with_admin db d cfg s r in
        SessionShape s (opens replication ∷ events ++ closes replication ∷ [], s', q)
  with_admin-SessionShape s (ok done) = inr (
      inr (
        (after_identify db d cfg s (identify_system d)).0,
        ap (λ l. opens replication ∷ opens admin ∷ l)
            (append_assoc (after_identify db d cfg s (identify_system d)).0 (closes admin ∷ [])
              (closes replication ∷ [])),
        after_identify-Inner s (identify_system d) refl,
      ))
  with_admin-SessionShape s (err e) = inr (inl (refl, λ x. cc))
  with_admin-SessionShape s panic = inr (inl (refl, λ x. cc))

  with_replication-SessionShape :
      (s : db.State) (r : Res (Unit {0})) → SessionShape s (with_replication db d cfg s r)
  with_replication-SessionShape s (ok done) =
      with_admin-SessionShape s (open_admin_connection d.connect_admin cfg.dsn)
  with_replication-SessionShape s (err e) = inl (refl, λ x. cc)
  with_replication-SessionShape s panic = inl (refl, λ x. cc)

  -- On every way out runOnce has closed the replication and the admin connection, if it opened them,
  -- in the reverse order. It starts replication at most once, with the configured slot and
  -- publication, after both were seen to exist, from the slot's saved position if it had one and
  -- from the server's otherwise. The connection that it opens for the outbox is then still open.
  -- Where it does not start replication, it does not return nil.
  pub run_once_lem : (s : db.State) → SessionShape s (run_once db d cfg s)
  unfolding run_once
  run_once_lem s = with_replication-SessionShape s _
