-- ===== src/Setup/Examples.antt =====
-- slot.go and publication.go against a small database.
use phylax.Base.{
  Bool, true, false, Text, codes, text_beq, [], ◌∷◌, some, no_rows, Res, ok, err, ◌≡◌, refl, ap,
  sym,
}
use phylax.Setup.{
  Database, slot_exists, slot_confirmed_flush_lsn, ensure_replication_slot, create_statement,
}
use phylax.Setup.Ensures.{Settled, ensure_replication_slot_lem}

abbrev row_of : Bool → Text → Res Text
row_of true name = ok name
row_of false name = err no_rows

-- Every slot exists, or none; so does every publication. A slot is confirmed at position 7.
abbrev pub two_flags : Database
two_flags = record {
  State = Bool × Bool;
  slot_row = λ name s. row_of s.0 name;
  confirmed_row = λ name s. row_of s.0 (codes "0/7");
  publication_row = λ name s. row_of s.1 name;
  create_slot = λ name s. ((true, s.1), ok tt);
  exec = λ statement s. ((s.0, true), ok tt);
  sanitize = λ name. name;
  quote = λ name. name;
  parse_lsn = λ text. ok 7;
  slot_created = λ name s s' e. ap (λ p. row_of p.0.0 name) (sym e);
  publication_created = λ name tables s s' e. ap (λ p. row_of p.0.1 name) (sym e);
}

created_test :
    (ensure_replication_slot two_flags (codes "s") (false, false) ≡ ((true, false), ok true))
    × (slot_confirmed_flush_lsn two_flags (codes "s") (true, false) ≡ ok (some 7))
unfolding ensure_replication_slot slot_exists slot_confirmed_flush_lsn text_beq
created_test = (refl, refl)

create_statement_test :
    create_statement (λ t. t) (codes "p") (codes "a" ∷ codes "b" ∷ [])
    ≡ codes "CREATE PUBLICATION p FOR TABLE a, b;"
unfolding create_statement
create_statement_test = refl

ensure_replication_slot_lem_example :
    Settled
      (slot_exists two_flags (codes "s"))
      (ensure_replication_slot two_flags (codes "s"))
      (false, false)
      (true, false)
      true
unfolding ensure_replication_slot slot_exists
ensure_replication_slot_lem_example =
    ensure_replication_slot_lem two_flags (codes "s") (false, false) (true, false) true refl
