-- ===== src/Change.antt =====
-- decode.go, the Change struct, and metrics.go: what the decoder hands on and what it counts.
use phylax.Base.{ℕ, Text, codes, Map, Option}

-- A column's value, an `any`: nil, a string, or a value of another type, by that type's name (`%T`).
pub data Value : Type 0 where
  null : Value
  string : Text → Value
  other : Text → Value

-- `map[string]any`; `none` is the nil map.
abbrev pub Row : Type 0
Row = Option (Map Text Value)

pub record Change : Type 0 where
  pub table : Text
  pub operation : Text
  pub old_row : Row
  pub new_row : Row

abbrev pub insert_op : Text
insert_op = codes "insert"

abbrev pub update_op : Text
update_op = codes "update"

abbrev pub delete_op : Text
delete_op = codes "delete"

abbrev pub truncate_op : Text
truncate_op = codes "truncate"

-- The counters are int64, kept as residues modulo 2^64; Subscribers is an int.
pub record MetricsSnapshot : Type 0 where
  pub changes_processed : ℕ
  pub changes_dropped : ℕ
  pub subscribers : ℕ
  pub replication_lag : ℕ
  pub outbox_delivered : ℕ
  pub outbox_inflight : ℕ
  pub outbox_failed : ℕ
