-- ===== src/Decode/Examples.antt =====
-- decode.go on concrete messages: the theorems at inputs, and tests.
use phylax.Base.{
  ℕ, zero, suc, Text, codes, lookup, insert, List, [], ◌∷◌, map, none, some, Res, ok, err, ◌≡◌,
  refl, arith, nat_eq, text_eq,
}
use phylax.Change.{Row, string, insert_op, update_op, delete_op}
use phylax.Decode.{
  RelationMessage, TupleColumn, Decoder, Message, relation, inserted, updated, deleted, truncated,
  unrelated, decode_message, decode, tuple_to_map, fill_row, set_column, relation_for, emit,
  counted, no_relation,
}
use phylax.Decode.Rows.{Distinct, ReadsAs, counted_one, decode_row_changes}
use phylax.Decode.Counting.{Accounts, decode_counts, decode_truncated, truncation, first_missing}
use phylax.Decode.Cache.{decode_all, latest, or_else, lookup-decode_all}

abbrev users : RelationMessage
users = record {
  relation_id = 16384;
  relation_name = codes "users";
  columns = codes "id" ∷ codes "name" ∷ [];
}

abbrev id_7 : TupleColumn
id_7 = record { data_type = b't'; bytes = codes "7" }

abbrev unchanged : TupleColumn
unchanged = record { data_type = b'u'; bytes = [] }

abbrev warm : Decoder
warm = record { relations = (16384, users) ∷ []; metrics = some 4 }

-- The updated column under its name, the unchanged TOAST column left out.
update_test : decode_message warm (updated 16384 none (some (id_7 ∷ unchanged ∷ []))) ≡ (
  counted_one warm,
  ok (
      record {
        table = codes "users";
        operation = update_op;
        old_row = none;
        new_row = some ((codes "id", string (codes "7")) ∷ []);
      }
      ∷ []),
)
unfolding decode_message emit counted relation_for lookup tuple_to_map fill_row set_column insert
update_test = refl

users-Distinct : Distinct users.columns
users-Distinct zero zero n p q = refl
users-Distinct zero (suc zero) n p q = ground arith
users-Distinct zero (suc (suc j)) n p q = cc
users-Distinct (suc zero) zero n p q = ground arith
users-Distinct (suc zero) (suc zero) n p q = refl
users-Distinct (suc zero) (suc (suc j)) n p q = cc
users-Distinct (suc (suc i)) j n p q = cc

decode_row_changes_example :
    (o n : Row) × ReadsAs users none o
    × ReadsAs users (some (id_7 ∷ unchanged ∷ [])) n
    × (decode_message warm (inserted 16384 (some (id_7 ∷ unchanged ∷ []))) ≡ (
      counted_one warm,
      ok (
          record { table = codes "users"; operation = insert_op; old_row = none; new_row = n }
          ∷ []),
    ))
    × (decode_message warm (updated 16384 none (some (id_7 ∷ unchanged ∷ []))) ≡ (
      counted_one warm,
      ok (record { table = codes "users"; operation = update_op; old_row = o; new_row = n } ∷ []),
    ))
    × (decode_message warm (deleted 16384 none) ≡ (
      counted_one warm,
      ok (
          record { table = codes "users"; operation = delete_op; old_row = o; new_row = none }
          ∷ []),
    ))
unfolding lookup
decode_row_changes_example =
    decode_row_changes warm 16384 users none (some (id_7 ∷ unchanged ∷ [])) refl users-Distinct tt
      (omega arith)

-- A parser that reads everything as one message.
abbrev reads : Message → Text → Res Message
reads m wal_data = ok m

decode_counts_example :
    Accounts warm (decode (reads (truncated (16384 ∷ 16384 ∷ []))) warm (codes "T"))
decode_counts_example =
    decode_counts (reads (truncated (16384 ∷ 16384 ∷ []))) warm (codes "T") (omega arith)

decode_truncated_example :
    (first_missing warm.relations (16384 ∷ 9 ∷ []) ≡ none
      → decode_message warm (truncated (16384 ∷ 9 ∷ []))
        ≡ (record warm { metrics = some 6 }, ok (map (truncation warm.relations) (16384 ∷ 9 ∷ []))))
    × ((id : ℕ)
        → first_missing warm.relations (16384 ∷ 9 ∷ []) ≡ some id
        → decode_message warm (truncated (16384 ∷ 9 ∷ [])) ≡ (warm, err (no_relation id)))
decode_truncated_example = decode_truncated warm (16384 ∷ 9 ∷ []) (omega arith)

abbrev history : List Message
history = unrelated ∷ relation users ∷ inserted 16384 none ∷ []

lookup-decode_all_example :
    lookup 16384 (decode_all warm history).relations
    ≡ or_else (latest 16384 history) (lookup 16384 warm.relations)
lookup-decode_all_example = lookup-decode_all warm history 16384
