-- ===== src/Decode/Rows.antt =====
-- What tupleToMap of decode.go makes of a tuple, and the changes that carry its rows.
use phylax.Base.{
  ℕ, zero, suc, ◌+◌, ◌≤◌, ◌<◌, Text, Map, lookup, lookup-insert_self, lookup-insert_ne,
  if◌then◌else◌, get_elem?, get_elem?-some, get_elem?-none, dec_lt, get_elem?-at, length, List, [],
  ◌∷◌, Option, none, some, Option-cases, ok, panic, nat_eq, text_eq, ◌≡◌, ◌≢◌, ◌↔◌, refl, ◌∙◌, ap,
  inl, inr, arith, eqb,
}
use phylax.Change.{Row, Value, null, string, insert_op, update_op, delete_op}
use phylax.Decode.{
  RelationMessage, TupleColumn, Decoder, Message, inserted, set_column, fill_row, tuple_to_map,
  relation_for, decode_message, add_processed,
}

-- What a column says of its name: nil, its text, or nothing (unchanged TOAST, binary).
abbrev pub cell : TupleColumn → Option Value → Option Value
cell col old =
    if eqb col.data_type b'n'
    then some null
    else if eqb col.data_type b't'
    then some (string col.bytes)
    else old

-- No two columns share a name.
abbrev pub Distinct : List Text → Type 0
Distinct names =
    (i j : ℕ) (n : Text) → get_elem? names i ≡ some n → get_elem? names j ≡ some n → i ≡ j

lookup-set_column_self :
    (n : Text) (col : TupleColumn) (m : Map Text Value)
    → lookup n (set_column n col m) ≡ cell col (lookup n m)
unfolding set_column
lookup-set_column_self n col m =
    ground (arith, lookup-insert_self n null m, lookup-insert_self n (string col.bytes) m)

lookup-set_column_ne :
    (n k : Text) (col : TupleColumn) (m : Map Text Value)
    → n ≢ k
    → lookup k (set_column n col m) ≡ lookup k m
unfolding set_column
lookup-set_column_ne n k col m h =
    ground (arith, lookup-insert_ne n k null m h, lookup-insert_ne n k (string col.bytes) m h)

-- Past its columns the loop panics, and within them it ends.
fill_row_total :
    (names : List Text) (i : ℕ) (cols : List TupleColumn) (m : Map Text Value)
    → i + length cols ≤ length names
    → (r : Map Text Value) × (fill_row names i cols m ≡ ok r)
unfolding fill_row
fill_row_total names i [] m h = (m, refl)
fill_row_total names i (c ∷ cols) m h =
    let (name, e) = get_elem?-some names i (omega arith) in
    rw (e, fill_row) (fill_row_total names (suc i) cols (set_column name c m) (omega arith))

fill_row_panics :
    (names : List Text) (i : ℕ) (cols : List TupleColumn) (m : Map Text Value)
    → length names < i + length cols
    → i ≤ length names
    → fill_row names i cols m ≡ panic
unfolding fill_row
fill_row_panics names i [] m h k = absurd (omega arith)
fill_row_panics names i (c ∷ cols) m h k = elim (dec_lt i (length names)) [
  | yes p ↦
      let (name, e) = get_elem?-some names i p in
      rw (e, fill_row)
        (fill_row_panics names (suc i) cols (set_column name c m) (omega arith) (omega arith))
  | no p ↦ rw (get_elem?-none names i (omega arith), fill_row)
]

-- A call that ends has found the name of its first column and goes on with the rest.
fill_row_step :
    (names : List Text) (i : ℕ) (c : TupleColumn) (cols : List TupleColumn) (m : Map Text Value)
    {r : Map Text Value}
    → fill_row names i (c ∷ cols) m ≡ ok r
    → (name : Text) × (get_elem? names i ≡ some name)
      × (fill_row names (suc i) cols (set_column name c m) ≡ ok r)
unfolding fill_row
fill_row_step names i c cols m h = elim (Option-cases (get_elem? names i)) [
  | inl e ↦ ground (arith, e)
  | inr (name, e) ↦ (name, e, ground (arith, e))
]

-- What stands under a name that no column has.
fill_row_keeps :
    (names : List Text) (i : ℕ) (cols : List TupleColumn) (m r : Map Text Value) (n : Text)
    → fill_row names i cols m ≡ ok r
    → ((k : ℕ) → k < length cols → get_elem? names (i + k) ≢ some n)
    → lookup n r ≡ lookup n m
unfolding fill_row
fill_row_keeps names i [] m r n h fresh = ground arith
fill_row_keeps names i (c ∷ cols) m r n h fresh =
    let (name, e, rest) = fill_row_step names i c cols m h in
    fill_row_keeps names (suc i) cols (set_column name c m) r n rest (λ k lt f.
      fresh (suc k) (omega arith) (get_elem?-at names (suc i + k) (i + suc k) (omega arith) f))
    ∙ lookup-set_column_ne name n c m λ same.
      fresh 0 (omega arith) (get_elem?-at names i (i + 0) (omega arith) (e ∙ ap some same))

-- What stands under the name of column k, if the names are distinct.
fill_row_sets :
    (names : List Text) (i : ℕ) (cols : List TupleColumn) (m r : Map Text Value) (k : ℕ)
    (col : TupleColumn) (n : Text)
    → Distinct names
    → fill_row names i cols m ≡ ok r
    → get_elem? cols k ≡ some col
    → get_elem? names (i + k) ≡ some n
    → lookup n r ≡ cell col (lookup n m)
fill_row_sets names i [] m r k col n d h at named = cc
fill_row_sets names i (c ∷ cols) m r zero col n d h at named =
    let (name, e, rest) = fill_row_step names i c cols m h in
    let here : get_elem? names i ≡ some n = get_elem?-at names (i + 0) i (omega arith) named in
    fill_row_keeps names (suc i) cols (set_column name c m) r n rest
      (λ j lt f. absurd (omega (arith, d (suc i + j) i n f here)))
    ∙ cc (lookup-set_column_self name c m)
fill_row_sets names i (c ∷ cols) m r (suc k) col n d h at named =
    let (name, e, rest) = fill_row_step names i c cols m h in
    let there : get_elem? names (suc i + k) ≡ some n =
      get_elem?-at names (i + suc k) (suc i + k) (omega arith) named in
    let kept : lookup n (set_column name c m) ≡ lookup n m =
      lookup-set_column_ne name n c m
        λ same. absurd (omega (arith, d i (suc i + k) n (e ∙ ap some same) there)) in
    fill_row_sets names (suc i) cols (set_column name c m) r k col n d rest at there
    ∙ ap (cell col) kept

-- `row` holds exactly what the columns of the tuple say, under the relation's names for them.
pub record Holds (names : List Text) (cols : List TupleColumn) (row : Map Text Value) : Type 0 where
  pub filled :
      (k : ℕ) (col : TupleColumn) (n : Text)
      → get_elem? cols k ≡ some col
      → get_elem? names k ≡ some n
      → lookup n row ≡ cell col none
  pub only :
      (n : Text) → ((k : ℕ) → k < length cols → get_elem? names k ≢ some n) → lookup n row ≡ none

-- A tuple that is not sent gives the nil map.
abbrev pub ReadsAs : RelationMessage → Option (List TupleColumn) → Row → Type 0
ReadsAs rel none row = row ≡ none
ReadsAs rel (some cols) row = (m : Map Text Value) × (row ≡ some m) × Holds rel.columns cols m

-- The relation names every column of the tuple.
abbrev pub Fits : RelationMessage → Option (List TupleColumn) → Type 0
Fits rel none = Unit {0}
Fits rel (some cols) = length cols ≤ length rel.columns

fill_row-Holds :
    (names : List Text) (cols : List TupleColumn) (r : Map Text Value)
    → Distinct names
    → fill_row names 0 cols [] ≡ ok r
    → Holds names cols r
unfolding lookup
fill_row-Holds names cols r d h = record {
  filled = λ k col n at named.
      fill_row_sets names 0 cols [] r k col n d h at
        (get_elem?-at names k (0 + k) (omega arith) named);
  only = λ n fresh.
      fill_row_keeps names 0 cols [] r n h
        λ k lt f. fresh k lt (get_elem?-at names (0 + k) k (omega arith) f);
}

tuple_to_map-ReadsAs :
    (t : Option (List TupleColumn)) (rel : RelationMessage)
    → Distinct rel.columns
    → Fits rel t
    → (row : Row) × (tuple_to_map t rel ≡ ok row) × ReadsAs rel t row
unfolding tuple_to_map
tuple_to_map-ReadsAs none rel d f = (none, refl, refl)
tuple_to_map-ReadsAs (some cols) rel d f =
    let (m, e) = fill_row_total rel.columns 0 cols [] (omega arith) in
    (some m, rw (e, tuple_to_map), (m, refl, fill_row-Holds rel.columns cols m d e))

-- tupleToMap panics exactly on a tuple with more columns than its relation names; otherwise it
-- returns.
pub tuple_to_map_panics :
    (cols : List TupleColumn) (rel : RelationMessage)
    → (tuple_to_map (some cols) rel ≡ panic) ↔ (length rel.columns < length cols)
unfolding tuple_to_map
tuple_to_map_panics cols rel = elim (dec_lt (length rel.columns) (length cols)) [
  | yes p ↦ (
    λ _. p,
    λ _. rw (fill_row_panics rel.columns 0 cols [] (omega arith) (omega arith), tuple_to_map),
  )
  | no p ↦
      let (m, e) = fill_row_total rel.columns 0 cols [] (omega arith) in
      (λ q. absurd (ground (arith, e)), λ lt. absurd (omega arith))
]

abbrev pub counted_one : Decoder → Decoder
counted_one d = record d { metrics = add_processed d.metrics 1 }

-- Where the relation is cached under distinct column names that cover the tuples, an insert, an
-- update and a delete message each decode to one change on that table, counted once, whose rows
-- hold exactly what the tuples say: nil for 'n', the text for 't', and no entry for 'u', for a
-- column of another kind, for a column that was not sent and for any other name.
pub decode_row_changes :
    (d : Decoder) (id : ℕ) (rel : RelationMessage) (old new : Option (List TupleColumn))
    → lookup id d.relations ≡ some rel
    → Distinct rel.columns
    → Fits rel old
    → Fits rel new
    → (o n : Row) × ReadsAs rel old o
      × ReadsAs rel new n
      × (decode_message d (inserted id new) ≡ (
        counted_one d,
        ok (
            record { table = rel.relation_name; operation = insert_op; old_row = none; new_row = n }
            ∷ []),
      ))
      × (decode_message d (Message.updated id old new) ≡ (
        counted_one d,
        ok (
            record { table = rel.relation_name; operation = update_op; old_row = o; new_row = n }
            ∷ []),
      ))
      × (decode_message d (Message.deleted id old) ≡ (
        counted_one d,
        ok (
            record { table = rel.relation_name; operation = delete_op; old_row = o; new_row = none }
            ∷ []),
      ))
unfolding decode_message relation_for
decode_row_changes d id rel old new cached distinct fo fn =
    let (o, eo, ro) = tuple_to_map-ReadsAs old rel distinct fo in
    let (n, en, rn) = tuple_to_map-ReadsAs new rel distinct fn in
    (o, n, ro, rn, ground (arith, en), ground (arith, eo, en), ground (arith, eo))
