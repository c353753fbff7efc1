-- ===== src/Decode/Counting.antt =====
-- What Decode of decode.go counts, what a failure leaves, and TRUNCATE.
use phylax.Base.{
  ℕ, ◌<◌, Text, lookup, length, length-map, word_mod, List, [], ◌∷◌, map, Option, none, some, Res,
  ok, err, panic, ◌≡◌, refl, ap, arith, nat_eq,
}
use phylax.Change.{Change, truncate_op}
use phylax.Decode.{
  Relations, Decoder, Message, relation, inserted, updated, deleted, truncated, unrelated,
  truncate_changes, emit, emit_all, decode_message, decode, add_processed, no_relation,
}

abbrev pub changes_of : Res (List Change) → List Change
changes_of (ok changes) = changes
changes_of (err e) = []
changes_of panic = []

-- The counter is a 64-bit word.
abbrev pub CountsInWord : Option ℕ → Type 0
CountsInWord none = Unit {0}
CountsInWord (some n) = n < word_mod

-- The counter grows by the changes returned, and a failure leaves the decoder as it was.
abbrev pub Accounts : Decoder → Decoder × Res (List Change) → Type 0
Accounts d (d', ok changes) = d'.metrics ≡ add_processed d.metrics (length changes)
Accounts d (d', err e) = d' ≡ d
Accounts d (d', panic) = d' ≡ d

add_processed_zero : (m : Option ℕ) → CountsInWord m → m ≡ add_processed m 0
add_processed_zero none w = refl
add_processed_zero (some n) w = ap some (omega arith)

emit-Accounts : (d : Decoder) (r : Res Change) → Accounts d (emit d r)
unfolding emit
emit-Accounts d (ok change) = refl
emit-Accounts d (err e) = refl
emit-Accounts d panic = refl

emit_all-Accounts : (d : Decoder) (r : Res (List Change)) → Accounts d (emit_all d r)
unfolding emit_all
emit_all-Accounts d (ok changes) = refl
emit_all-Accounts d (err e) = refl
emit_all-Accounts d panic = refl

decode_message-Accounts :
    (d : Decoder) (m : Message) → CountsInWord d.metrics → Accounts d (decode_message d m)
unfolding decode_message
decode_message-Accounts d (relation m) w = add_processed_zero d.metrics w
decode_message-Accounts d (inserted id tuple) w = emit-Accounts d _
decode_message-Accounts d (updated id old new) w = emit-Accounts d _
decode_message-Accounts d (deleted id old) w = emit-Accounts d _
decode_message-Accounts d (truncated []) w = add_processed_zero d.metrics w
decode_message-Accounts d (truncated (id ∷ ids)) w = emit_all-Accounts d _
decode_message-Accounts d unrelated w = add_processed_zero d.metrics w

-- Decode adds to ChangesProcessed, modulo 2^64, exactly the number of changes that it returns, if
-- the counter is a 64-bit word; where it returns an error or panics, neither the counter nor the
-- relation cache has changed.
pub decode_counts :
    (parse : Text → Res Message) (d : Decoder) (wal_data : Text)
    → CountsInWord d.metrics
    → Accounts d (decode parse d wal_data)
unfolding decode
decode_counts parse d wal_data w = go (parse wal_data)
  where
    go : (r : Res Message) → Accounts d (decode (λ _. r) d wal_data)
    go (ok m) = decode_message-Accounts d m w
    go (err e) = refl
    go panic = refl

-- The first relation of a TRUNCATE that was never announced.
pub first_missing : Relations → List ℕ → Option ℕ
first_missing relations [] = none
first_missing relations (id ∷ ids) = elim (lookup id relations) [
  | none ↦ some id
  | some rel ↦ first_missing relations ids
]

pub truncation : Relations → ℕ → Change
truncation relations id = record {
  table = elim (lookup id relations) [ none ↦ [] | some rel ↦ rel.relation_name ];
  operation = truncate_op;
  old_row = none;
  new_row = none;
}

truncate_changes_all :
    (relations : Relations) (ids : List ℕ)
    → first_missing relations ids ≡ none
    → truncate_changes relations ids ≡ ok (map (truncation relations) ids)
unfolding first_missing truncate_changes truncation
truncate_changes_all relations [] h = refl
truncate_changes_all relations (id ∷ ids) h = ground (arith, truncate_changes_all relations ids)

truncate_changes_missing :
    (relations : Relations) (ids : List ℕ) (id : ℕ)
    → first_missing relations ids ≡ some id
    → truncate_changes relations ids ≡ err (no_relation id)
unfolding first_missing truncate_changes
truncate_changes_missing relations [] id h = cc
truncate_changes_missing relations (i ∷ ids) id h =
    ground (arith, truncate_changes_missing relations ids id)

-- A TRUNCATE message whose relations are all cached decodes to one truncate change per relation,
-- in the order of the message, without rows, all counted (the counter being a 64-bit word); if one
-- is not cached, the first such is named in the error, nothing is returned and nothing counted.
pub decode_truncated :
    (d : Decoder) (ids : List ℕ)
    → CountsInWord d.metrics
    → (first_missing d.relations ids ≡ none
        → decode_message d (truncated ids) ≡ (
          record d { metrics = add_processed d.metrics (length ids) },
          ok (map (truncation d.relations) ids),
        ))
      × ((id : ℕ)
          → first_missing d.relations ids ≡ some id
          → decode_message d (truncated ids) ≡ (d, err (no_relation id)))
unfolding decode_message emit_all first_missing
decode_truncated d [] w = (
  λ h. ap (λ m. (record d { metrics = m }, ok [])) (add_processed_zero d.metrics w),
  λ id h. absurd (cc),
)
decode_truncated d (id ∷ ids) w = (
  λ h. rw (
    truncate_changes_all d.relations (id ∷ ids) h,
    emit_all,
    length-map (truncation d.relations) ids,
  ),
  λ i h. rw (truncate_changes_missing d.relations (id ∷ ids) i h, emit_all),
)
