-- ===== src/Setup/Ensures.antt =====
-- EnsureReplicationSlot and EnsurePublication are idempotent.
use phylax.Base.{
  Bool, true, false, Text, codes, List, Res, ok, err, panic, ◌≡◌, refl, sym, ap, subst, ◌++◌,
}
use phylax.Setup.{
  Database, ensured, slot_exists, publication_exists, ensure_replication_slot, ensure_publication,
  create_statement, created,
}

-- After a creation that succeeded, what was created exists, another one changes nothing and says
-- so, and one that says so changed nothing.
pub record Settled {State : Type 0} (exists : State → Res Bool) (ensure : State → State × Res Bool)
    (s s' : State) (was_created : Bool) : Type 0 where
  pub there : exists s' ≡ ok true
  pub again : ensure s' ≡ (s', ok false)
  pub unchanged : was_created ≡ false → s' ≡ s

created-cases :
    {State : Type 0} (text : Text) (exists : State → Res Bool) (s s' : State) (b : Bool)
    (p : State × Res (Unit {0}))
    → ((t : State) → p ≡ (t, ok tt) → exists t ≡ ok true)
    → created text p ≡ (s', ok b)
    → (exists s' ≡ ok true) × (b ≡ false → s' ≡ s)
created-cases text exists s s' b (t, ok done) law h =
    (subst (λ x. exists x ≡ ok true) (ap (λ p. p.0) h) (law t refl), λ f. absurd (cc))
created-cases text exists s s' b (t, err e) law h = absurd (cc)
created-cases text exists s s' b (t, panic) law h = absurd (cc)

module _ {State : Type 0} (text : Text) (create : State → State × Res (Unit {0}))
    (exists : State → Res Bool) where
  ensured-cases :
      (s s' : State) (b : Bool) (r : Res Bool)
      → ((t : State) → create s ≡ (t, ok tt) → exists t ≡ ok true)
      → exists s ≡ r
      → ensured text create s r ≡ (s', ok b)
      → (exists s' ≡ ok true) × (b ≡ false → s' ≡ s)
  ensured-cases s s' b (ok true) law e h =
      (subst (λ t. exists t ≡ ok true) (ap (λ p. p.0) h) e, λ f. sym (ap (λ p. p.0) h))
  ensured-cases s s' b (ok false) law e h = created-cases text exists s s' b (create s) law h
  ensured-cases s s' b (err f) law e h = absurd (cc)
  ensured-cases s s' b panic law e h = absurd (cc)

  abbrev ensure : State → State × Res Bool
  ensure s = ensured text create s (exists s)

  ensure-Settled :
      (s s' : State) (b : Bool)
      → ((t : State) → create s ≡ (t, ok tt) → exists t ≡ ok true)
      → ensure s ≡ (s', ok b)
      → Settled exists ensure s s' b
  ensure-Settled s s' b law h =
      let (there, unchanged) = ensured-cases s s' b (exists s) law refl h in
      record { there = there; again = rw there refl; unchanged = unchanged }

module _ (db : Database) where
  -- EnsureReplicationSlot: where it returns without an error the slot exists, and calling it again
  -- changes nothing and returns false; where it returned false it had changed nothing. This rests on
  -- the law that a slot that was created is found.
  pub ensure_replication_slot_lem :
      (name : Text) (s s' : db.State) (b : Bool)
      → ensure_replication_slot db name s ≡ (s', ok b)
      → Settled (slot_exists db name) (ensure_replication_slot db name) s s' b
  unfolding slot_exists ensure_replication_slot
  ensure_replication_slot_lem name s s' b h =
      ensure-Settled (codes "creating replication slot " ++ db.quote name) (db.create_slot name)
        (slot_exists db name) s s' b (λ t e. rw (db.slot_created name s t e) refl) h

  -- EnsurePublication: the same, for the publication and any list of tables, under the law that a
  -- publication that was created is found.
  pub ensure_publication_lem :
      (name : Text) (tables : List Text) (s s' : db.State) (b : Bool)
      → ensure_publication db name tables s ≡ (s', ok b)
      → Settled (publication_exists db name) (ensure_publication db name tables) s s' b
  unfolding publication_exists ensure_publication
  ensure_publication_lem name tables s s' b h =
      ensure-Settled (codes "creating publication " ++ db.quote name)
        (db.exec (create_statement db.sanitize name tables)) (publication_exists db name) s s' b
        (λ t e. rw (db.publication_created name tables s t e) refl) h
