-- ===== src/Outbox/Rows.antt =====
-- ToOutboxRow and Handle of outbox.go: which changes become which rows.
use phylax.Base.{
  Text, codes, true, Bool-cases, text_eq, text_beq, text_beq_iff, text_ne, some, Error, wrapped,
  Res, ok, err, panic, >>=-eq-ok, wrapped-eq-ok, >>=-ne-panic, wrapped-ne-panic, ℤ, ◌≡◌, ◌≢◌, ◌↔◌,
  ◌⊎◌, inl, inr, refl, sym, ◌∙◌, ap, arith,
}
use phylax.Change.{Change, Row, string, insert_op}
use phylax.Outbox.{
  OutboxRow, Relevance, not_ours, ours, column, text_column, read_row, to_outbox_row, handle,
  parse_int, relevance, from_json,
}
use phylax.Outbox.Numbers.{
  InInt64, print_ℤ, parse_int-print_ℤ, parse_int-InInt64, parse_int-ne-panic,
}

-- An insert on the outbox table.
abbrev pub IsOutboxInsert : Change → Text → Type 0
IsOutboxInsert c table_name = (c.table ≡ table_name) × (c.operation ≡ insert_op)

text_column-string :
    (row : Row) (name : Text) {s : Text} → column row name ≡ string s → text_column row name ≡ ok s
unfolding text_column
text_column-string row name h = ground (arith, h)

text_column-eq_ok :
    (row : Row) (name : Text) {s : Text} → text_column row name ≡ ok s → column row name ≡ string s
unfolding text_column
text_column-eq_ok row name h = ground arith

module _ {Payload : Type 0} (unmarshal : Text → Error ⊎ Payload) (c : Change)
    (table_name : Text) where
  -- Inserts on the table go through the checks of the columns, and nothing else does.
  to_outbox_row-insert :
      IsOutboxInsert c table_name
      → to_outbox_row unmarshal c table_name ≡ relevance (read_row unmarshal c.new_row)
  unfolding to_outbox_row
  to_outbox_row-insert h =
      rw ((text_beq_iff c.table table_name).1 h.0, (text_beq_iff c.operation insert_op).1 h.1)

  to_outbox_row-other :
      ¬ IsOutboxInsert c table_name → to_outbox_row unmarshal c table_name ≡ not_ours
  unfolding to_outbox_row
  to_outbox_row-other h = elim (Bool-cases (text_beq c.table table_name)) [
    | inr ne ↦ rw ne
    | inl same ↦ elim (Bool-cases (text_beq c.operation insert_op)) [
      | inr ne ↦ rw (same, ne)
      | inl insert ↦ absurd (
          h (
            (text_beq_iff c.table table_name).0 same,
            (text_beq_iff c.operation insert_op).0 insert,
          ))
    ]
  ]

-- An insert on the outbox table whose id column is the decimal print of an int64, whose topic is a
-- text and whose payload is a text that unmarshals becomes the row with that id, that topic and the
-- unmarshalled payload.
pub to_outbox_row_reads :
    {Payload : Type 0} (unmarshal : Text → Error ⊎ Payload) (c : Change) (table_name : Text)
    (id : ℤ) (topic payload_str : Text) (payload : Payload)
    → IsOutboxInsert c table_name
    → InInt64 id
    → column c.new_row (codes "id") ≡ string (print_ℤ id)
    → column c.new_row (codes "topic") ≡ string topic
    → column c.new_row (codes "payload") ≡ string payload_str
    → unmarshal payload_str ≡ inr payload
    → to_outbox_row unmarshal c table_name
      ≡ ours (record { id = id; topic = topic; payload = payload })
unfolding read_row
to_outbox_row_reads unmarshal c table_name id topic payload_str payload ins range i t p u =
    to_outbox_row-insert unmarshal c table_name ins
    ∙ rw (
      text_column-string c.new_row (codes "id") i,
      parse_int-print_ℤ id range,
      text_column-string c.new_row (codes "topic") t,
      text_column-string c.new_row (codes "payload") p,
      u,
    )

-- What the checks of the columns establish.
abbrev pub Reads : {Payload : Type 0} → (Text → Error ⊎ Payload) → Row → OutboxRow Payload → Type 0
Reads unmarshal new_row row =
    (id_str payload_str : Text) × (column new_row (codes "id") ≡ string id_str)
    × (parse_int id_str ≡ ok row.id)
    × InInt64 row.id
    × (column new_row (codes "topic") ≡ string row.topic)
    × (column new_row (codes "payload") ≡ string payload_str)
    × (unmarshal payload_str ≡ inr row.payload)

from_json-eq-ok :
    {Payload : Type 0} (r : Error ⊎ Payload) {p : Payload} → from_json r ≡ ok p → r ≡ inr p
from_json-eq-ok (inl e) h = absurd (cc)
from_json-eq-ok (inr q) h = ap inr (cc)

read_row-Reads :
    {Payload : Type 0} (unmarshal : Text → Error ⊎ Payload) (new_row : Row)
    (row : OutboxRow Payload)
    → read_row unmarshal new_row ≡ ok row
    → Reads unmarshal new_row row
unfolding read_row
read_row-Reads unmarshal new_row row h =
    let (id_str, i, h1) = >>=-eq-ok (text_column new_row (codes "id")) _ h in
    let (id, n, h2) = >>=-eq-ok (wrapped (codes "parsing outbox id") (parse_int id_str)) _ h1 in
    let (topic, t, h3) = >>=-eq-ok (text_column new_row (codes "topic")) _ h2 in
    let (payload_str, p, h4) = >>=-eq-ok (text_column new_row (codes "payload")) _ h3 in
    let (payload, u, h5) =
      >>=-eq-ok (wrapped (codes "parsing outbox payload") (from_json (unmarshal payload_str))) _
        h4 in
    let same_id : id ≡ row.id = cc in
    let same_topic : topic ≡ row.topic = cc in
    let same_payload : payload ≡ row.payload = cc in
    let number : parse_int id_str ≡ ok row.id = wrapped-eq-ok _ _ n ∙ ap ok same_id in
    (
      id_str,
      payload_str,
      text_column-eq_ok new_row (codes "id") i,
      number,
      parse_int-InInt64 id_str number,
      text_column-eq_ok new_row (codes "topic") t ∙ ap string same_topic,
      text_column-eq_ok new_row (codes "payload") p,
      from_json-eq-ok (unmarshal payload_str) (wrapped-eq-ok _ _ u ∙ ap ok same_payload),
    )

IsOutboxInsert-dec : (c : Change) (table_name : Text) → Dec (IsOutboxInsert c table_name)
IsOutboxInsert-dec c table_name = elim (Bool-cases (text_beq c.table table_name)) [
  | inr ne ↦ no (λ h. absurd (text_ne c.table table_name ne (sym h.0)))
  | inl same ↦ elim (Bool-cases (text_beq c.operation insert_op)) [
    | inr ne ↦ no (λ h. absurd (text_ne c.operation insert_op ne (sym h.1)))
    | inl insert ↦
        yes
          ((text_beq_iff c.table table_name).0 same, (text_beq_iff c.operation insert_op).0 insert)
  ]
]

not_ours-ne-ours :
    {Payload : Type 0} {row : OutboxRow Payload}
    → ◌≡◌ {A = Relevance Payload} not_ours (ours row)
    → ⊥
not_ours-ne-ours h = cc

relevance-eq-ours :
    {Payload : Type 0} (r : Res (OutboxRow Payload)) {row : OutboxRow Payload}
    → relevance r ≡ ours row
    → r ≡ ok row
relevance-eq-ours (ok row') h = ap ok (cc)
relevance-eq-ours (err e) h = absurd (cc)
relevance-eq-ours panic h = absurd (cc)

-- A row comes only of an insert on the outbox table, whose id column is a text that reads as that
-- int64, whose topic is that text, and whose payload is a text that unmarshals to that payload.
pub to_outbox_row-Reads :
    {Payload : Type 0} (unmarshal : Text → Error ⊎ Payload) (c : Change) (table_name : Text)
    (row : OutboxRow Payload)
    → to_outbox_row unmarshal c table_name ≡ ours row
    → IsOutboxInsert c table_name × Reads unmarshal c.new_row row
to_outbox_row-Reads unmarshal c table_name row h = elim (IsOutboxInsert-dec c table_name) [
  | yes ins ↦ (
    ins,
    read_row-Reads unmarshal c.new_row row
        (relevance-eq-ours _ (sym (to_outbox_row-insert unmarshal c table_name ins) ∙ h)),
  )
  | no other_ ↦
      absurd (not_ours-ne-ours (sym (to_outbox_row-other unmarshal c table_name other_) ∙ h))
]

Reads-to_outbox_row :
    {Payload : Type 0} (unmarshal : Text → Error ⊎ Payload) (c : Change) (table_name : Text)
    (row : OutboxRow Payload)
    → IsOutboxInsert c table_name × Reads unmarshal c.new_row row
    → to_outbox_row unmarshal c table_name ≡ ours row
unfolding read_row
Reads-to_outbox_row unmarshal c table_name row (ins, (id_str, payload_str, i, number, _, t, p, u)) =
    to_outbox_row-insert unmarshal c table_name ins
    ∙ rw
        (
          text_column-string c.new_row (codes "id") i,
          number,
          text_column-string c.new_row (codes "topic") t,
          text_column-string c.new_row (codes "payload") p,
          u,
        )
        refl

text_column-ne-panic : (row : Row) (name : Text) → text_column row name ≢ panic
unfolding text_column
text_column-ne-panic row name h = ground arith

from_json-ne-panic : {Payload : Type 0} (r : Error ⊎ Payload) → from_json r ≢ panic
from_json-ne-panic (inl e) h = cc
from_json-ne-panic (inr p) h = cc

read_row-ne-panic :
    {Payload : Type 0} (unmarshal : Text → Error ⊎ Payload) (new_row : Row)
    → read_row unmarshal new_row ≢ panic
unfolding read_row
read_row-ne-panic unmarshal new_row =
    >>=-ne-panic _ _ (text_column-ne-panic new_row (codes "id")) λ id_str.
      >>=-ne-panic _ _ (wrapped-ne-panic _ _ (parse_int-ne-panic id_str)) λ id.
        >>=-ne-panic _ _ (text_column-ne-panic new_row (codes "topic")) λ topic.
          >>=-ne-panic _ _ (text_column-ne-panic new_row (codes "payload")) λ payload_str.
            >>=-ne-panic _ _ (wrapped-ne-panic _ _ (from_json-ne-panic (unmarshal payload_str)))
              λ p h. cc

claims :
    {Payload : Type 0} (unmarshal : Text → Error ⊎ Payload) (c : Change) (table_name : Text)
    (r : Res (OutboxRow Payload))
    → to_outbox_row unmarshal c table_name ≡ relevance r
    → r ≢ panic
    → (handle unmarshal c table_name).0 ≡ true
unfolding handle
claims unmarshal c table_name (ok row) e h = rw (e, handle)
claims unmarshal c table_name (err e') e h = rw (e, handle)
claims unmarshal c table_name panic e h = absurd (h refl)

-- Handle claims exactly the inserts on the outbox table, the malformed ones among them, and leaves
-- every other change to the subscribers. A row is enqueued exactly of such an insert whose id column
-- is a text that reads as the row's int64, whose topic is the row's text, and whose payload is a text
-- that unmarshals to the row's payload.
pub handle_claims :
    {Payload : Type 0} (unmarshal : Text → Error ⊎ Payload) (c : Change) (table_name : Text)
    → (((handle unmarshal c table_name).0 ≡ true) ↔ IsOutboxInsert c table_name)
      × ((row : OutboxRow Payload)
          → ((handle unmarshal c table_name).1 ≡ some row)
            ↔ (IsOutboxInsert c table_name × Reads unmarshal c.new_row row))
unfolding handle
handle_claims unmarshal c table_name = (
  (
    λ h. elim (IsOutboxInsert-dec c table_name) [
      | yes ins ↦ ins
      | no other_ ↦ absurd (ground (arith, to_outbox_row-other unmarshal c table_name other_, h))
    ],
    λ ins.
        claims unmarshal c table_name _ (to_outbox_row-insert unmarshal c table_name ins)
          (read_row-ne-panic unmarshal c.new_row),
  ),
  λ row. (
    λ h. to_outbox_row-Reads unmarshal c table_name row (ground arith),
    λ h. rw (Reads-to_outbox_row unmarshal c table_name row h, handle),
  ),
)
