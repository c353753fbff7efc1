-- ===== src/Decode.antt =====
-- decode.go: WAL bytes to changes. pglogrepl.Parse is the parameter `parse`; of its message types
-- there are the fields that the source reads.
pub mod Rows
pub mod Counting
pub mod Cache
mod Examples
use phylax.Base.{
  ℕ, suc, ◌+◌, Text, codes, print_ℕ, Map, lookup, insert, ◌==◌, if◌then◌else◌, get_elem?, length,
  add64, List, [], ◌∷◌, ◌++◌, Option, none, some, Error, Res, ok, err, panic, ◌>>=◌, wrapped,
  nat_eq, text_eq,
}
use phylax.Change.{Change, Row, Value, null, string, insert_op, update_op, delete_op, truncate_op}

pub record RelationMessage : Type 0 where
  pub relation_id : ℕ
  pub relation_name : Text
  -- The names of `Columns`.
  pub columns : List Text

-- A byte that says how the value is sent, and the value.
pub record TupleColumn : Type 0 where
  pub data_type : ℕ
  pub bytes : Text

-- `*pglogrepl.TupleData`; `none` is nil.
abbrev pub TupleData : Type 0
TupleData = Option (List TupleColumn)

-- `unrelated` is every other message: begin, commit, type, origin.
pub data Message : Type 0 where
  relation : RelationMessage → Message
  inserted : ℕ → TupleData → Message
  updated : ℕ → TupleData → TupleData → Message
  deleted : ℕ → TupleData → Message
  truncated : List ℕ → Message
  unrelated : Message

abbrev pub Relations : Type 0
Relations = Map ℕ RelationMessage

-- What Decode reads and writes through its pointers: the relation cache, and
-- metrics.ChangesProcessed, `none` for a nil `*Metrics`.
pub record Decoder : Type 0 where
  pub relations : Relations
  pub metrics : Option ℕ

-- One round of the loop of tupleToMap.
unfoldable pub set_column : Text → TupleColumn → Map Text Value → Map Text Value
set_column name col result =
    if col.data_type == b'n'
    then insert name null result
    else if col.data_type == b'u'
    then result
    else if col.data_type == b't'
    then insert name (string col.bytes) result
    else result

-- `rel.Columns[i]` panics where the relation has no column i.
unfoldable pub fill_row : List Text → ℕ → List TupleColumn → Map Text Value → Res (Map Text Value)
fill_row names i [] result = ok result
fill_row names i (col ∷ cols) result = elim (get_elem? names i) [
  | none ↦ panic
  | some name ↦ fill_row names (suc i) cols (set_column name col result)
]

unfoldable pub tuple_to_map : TupleData → RelationMessage → Res Row
unfolding fill_row
tuple_to_map none rel = ok none
tuple_to_map (some cols) rel = do row ← fill_row rel.columns 0 cols []; ok (some row)

pub no_relation : ℕ → Error
no_relation relation_id =
    Error.message (codes "no cached relation metadata for relation ID " ++ print_ℕ relation_id)

unfoldable pub relation_for : Relations → ℕ → Res RelationMessage
relation_for relations relation_id = elim (lookup relation_id relations) [
  | none ↦ err (no_relation relation_id)
  | some rel ↦ ok rel
]

abbrev pub add_processed : Option ℕ → ℕ → Option ℕ
add_processed none n = none
add_processed (some processed) n = some (add64 processed n)

unfoldable pub counted : Decoder → Change → Decoder × Res (List Change)
counted d change = (record d { metrics = add_processed d.metrics 1 }, ok (change ∷ []))

-- A row change is counted once its relation is found and its tuples are read.
unfoldable pub emit : Decoder → Res Change → Decoder × Res (List Change)
unfolding counted
emit d (ok change) = counted d change
emit d (err e) = (d, err e)
emit d panic = (d, panic)

unfoldable pub truncate_changes : Relations → List ℕ → Res (List Change)
unfolding relation_for
truncate_changes relations [] = ok []
truncate_changes relations (id ∷ ids) = do
  rel ← relation_for relations id
  rest ← truncate_changes relations ids
  ok (
      record { table = rel.relation_name; operation = truncate_op; old_row = none; new_row = none }
      ∷ rest)

unfoldable pub emit_all : Decoder → Res (List Change) → Decoder × Res (List Change)
emit_all d (ok changes) =
    (record d { metrics = add_processed d.metrics (length changes) }, ok changes)
emit_all d (err e) = (d, err e)
emit_all d panic = (d, panic)

-- The type switch of Decode.
unfoldable pub decode_message : Decoder → Message → Decoder × Res (List Change)
unfolding emit emit_all
decode_message d (relation m) = (record d { relations = insert m.relation_id m d.relations }, ok [])
decode_message d (inserted id tuple) = emit d do
  rel ← relation_for d.relations id
  new_row ← tuple_to_map tuple rel
  ok (record {
    table = rel.relation_name;
    operation = insert_op;
    old_row = none;
    new_row = new_row;
  })
decode_message d (updated id old_tuple new_tuple) = emit d do
  rel ← relation_for d.relations id
  old_row ← tuple_to_map old_tuple rel
  new_row ← tuple_to_map new_tuple rel
  ok (record {
    table = rel.relation_name;
    operation = update_op;
    old_row = old_row;
    new_row = new_row;
  })
decode_message d (deleted id old_tuple) = emit d do
  rel ← relation_for d.relations id
  old_row ← tuple_to_map old_tuple rel
  ok (record {
    table = rel.relation_name;
    operation = delete_op;
    old_row = old_row;
    new_row = none;
  })
decode_message d (truncated []) = (d, ok [])
decode_message d (truncated (id ∷ ids)) = emit_all d (truncate_changes d.relations (id ∷ ids))
decode_message d unrelated = (d, ok [])

abbrev decode_parsed : Decoder → Res Message → Decoder × Res (List Change)
decode_parsed d (ok msg) = decode_message d msg
decode_parsed d (err e) = (d, err e)
decode_parsed d panic = (d, panic)

unfoldable pub decode : (Text → Res Message) → Decoder → Text → Decoder × Res (List Change)
decode parse d wal_data = decode_parsed d (wrapped (codes "parsing WAL data") (parse wal_data))
