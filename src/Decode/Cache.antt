-- ===== src/Decode/Cache.antt =====
-- The relation cache of decode.go against the history of messages.
use phylax.Base.{
  ℕ, lookup, lookup-insert, if◌then◌else◌, List, [], ◌∷◌, Option, none, some, Res, ok, err, ◌≡◌,
  refl, ap, ◌∙◌, arith, nat_eq, eqb,
}
use phylax.Change.{Change}
use phylax.Decode.{
  RelationMessage, Decoder, Message, relation, inserted, updated, deleted, truncated, unrelated,
  decode_message, emit, emit_all,
}

-- The decoder after a history of messages, whatever came of each.
pub decode_all : Decoder → List Message → Decoder
decode_all d [] = d
decode_all d (m ∷ ms) = decode_all (decode_message d m).0 ms

-- What a message announces of a relation.
abbrev pub announces : ℕ → Message → Option RelationMessage
announces id (relation m) = if eqb m.relation_id id then some m else none
announces id _ = none

abbrev pub or_else {ℓ} : {A : Type ℓ} → Option A → Option A → Option A
or_else (some a) b = some a
or_else none b = b

-- The last announcement of a relation in a history.
pub latest : ℕ → List Message → Option RelationMessage
latest id [] = none
latest id (m ∷ ms) = or_else (latest id ms) (announces id m)

emit-relations : (d : Decoder) (r : Res Change) → (emit d r).0.relations ≡ d.relations
unfolding emit
emit-relations d (ok change) = refl
emit-relations d (err e) = refl
emit-relations d Res.panic = refl

emit_all-relations :
    (d : Decoder) (r : Res (List Change)) → (emit_all d r).0.relations ≡ d.relations
unfolding emit_all
emit_all-relations d (ok changes) = refl
emit_all-relations d (err e) = refl
emit_all-relations d Res.panic = refl

lookup-decode_message :
    (d : Decoder) (m : Message) (id : ℕ)
    → lookup id (decode_message d m).0.relations ≡ or_else (announces id m) (lookup id d.relations)
unfolding decode_message
lookup-decode_message d (relation m) id =
    ground (arith, lookup-insert m.relation_id id m d.relations)
lookup-decode_message d (inserted i t) id = ap (lookup id) (emit-relations d _)
lookup-decode_message d (updated i o n) id = ap (lookup id) (emit-relations d _)
lookup-decode_message d (deleted i o) id = ap (lookup id) (emit-relations d _)
lookup-decode_message d (truncated []) id = refl
lookup-decode_message d (truncated (i ∷ ids)) id = ap (lookup id) (emit_all-relations d _)
lookup-decode_message d unrelated id = refl

-- After any history of messages the cache holds, for each relation ID, the last relation message
-- of the history for that ID, and where there is none what it held before.
pub lookup-decode_all :
    (d : Decoder) (ms : List Message) (id : ℕ)
    → lookup id (decode_all d ms).relations ≡ or_else (latest id ms) (lookup id d.relations)
unfolding decode_all latest
lookup-decode_all d [] id = refl
lookup-decode_all d (m ∷ ms) id =
    lookup-decode_all (decode_message d m).0 ms id ∙ ground (arith, lookup-decode_message d m id)
