-- ===== src/Stream/Positions.antt =====
-- handleCopyData of stream.go: the position that it stores.
use phylax.Base.{
  ℕ, ◌+◌, ◌%◌, word_mod, Bool-cases, if◌then◌else◌, eqb, Text, length, List, [], ◌∷◌, Error, Res,
  ok, err, panic, ◌≡◌, refl, ◌∙◌, ◌⊎◌, inl, inr, arith,
}
use phylax.Change.{Change}
use phylax.Decode.{decode}
use phylax.Broadcast.{Broadcaster, publish}
use phylax.Outbox.{handle}
use phylax.Stream.{
  ReplicationStream, Pglogrepl, XLogData, Keepalive, and_then, route, route_all, published,
  on_decoded, on_keepalive, on_xlog_data, handle_copy_data,
}

-- A record's end; the position stays where a record does not parse.
abbrev pub end_of : Res XLogData → ℕ → ℕ
end_of (ok x) lsn = (x.wal_start + length x.wal_data) % word_mod
end_of _ lsn = lsn

-- The position after a CopyData message.
abbrev pub position_after : Pglogrepl → Text → ℕ → ℕ
position_after lib [] lsn = lsn
position_after lib (id ∷ rest) lsn =
    if eqb id b'w' then end_of (lib.parse_xlog_data rest) lsn else lsn

module _ {Payload State : Type 0} (unmarshal : Text → Error ⊎ Payload) (outbox_table : Text)
    (handler : Change → State → State × Res (Unit {0})) where
  abbrev KeepsLsn :
      ReplicationStream Payload State → ReplicationStream Payload State × Res (Unit {0}) → Type 0
  KeepsLsn s (s', r) = s'.last_lsn ≡ s.last_lsn

  published-last_lsn :
      (c : Change) (s : ReplicationStream Payload State) (r : Res Broadcaster)
      → KeepsLsn s (published unmarshal outbox_table handler c s r)
  published-last_lsn c s (ok b) = refl
  published-last_lsn c s (err e) = refl
  published-last_lsn c s panic = refl

  route-last_lsn :
      (c : Change) (s : ReplicationStream Payload State)
      → KeepsLsn s (route unmarshal outbox_table handler c s)
  unfolding route
  route-last_lsn c s = elim (Bool-cases (handle unmarshal c outbox_table).0) [
    | inl h ↦ rw h refl
    | inr h ↦ rw h (published-last_lsn c s (publish c s.broadcaster))
  ]

  and_then-last_lsn :
      (s : ReplicationStream Payload State) (p : ReplicationStream Payload State × Res (Unit {0}))
      (next : ReplicationStream Payload State → ReplicationStream Payload State × Res (Unit {0}))
      → KeepsLsn s p
      → ((s' : ReplicationStream Payload State) → KeepsLsn s' (next s'))
      → KeepsLsn s (and_then p next)
  and_then-last_lsn s (s', ok done) next h k = k s' ∙ h
  and_then-last_lsn s (s', err e) next h k = h
  and_then-last_lsn s (s', panic) next h k = h

  route_all-last_lsn :
      (cs : List Change) (s : ReplicationStream Payload State)
      → KeepsLsn s (route_all unmarshal outbox_table handler cs s)
  unfolding route_all
  route_all-last_lsn [] s = refl
  route_all-last_lsn (c ∷ cs) s =
      and_then-last_lsn s _ _ (route-last_lsn c s) (λ s'. route_all-last_lsn cs s')

  on_decoded-last_lsn :
      (s : ReplicationStream Payload State) (r : Res (List Change))
      → KeepsLsn s (on_decoded unmarshal outbox_table handler s r)
  on_decoded-last_lsn s (ok cs) = route_all-last_lsn cs s
  on_decoded-last_lsn s (err e) = refl
  on_decoded-last_lsn s panic = refl

  module _ (lib : Pglogrepl) where
    on_xlog_data-last_lsn :
        (now : ℕ) (s : ReplicationStream Payload State) (r : Res XLogData)
        → (on_xlog_data unmarshal outbox_table handler lib now s r).0.last_lsn ≡ end_of r s.last_lsn
    unfolding on_xlog_data
    on_xlog_data-last_lsn now s (ok x) =
        on_decoded-last_lsn _ (decode lib.parse s.decoder x.wal_data).1
    on_xlog_data-last_lsn now s (err e) = refl
    on_xlog_data-last_lsn now s panic = refl

    on_keepalive-last_lsn :
        (s : ReplicationStream Payload State) (r : Res Keepalive)
        → KeepsLsn s (on_keepalive unmarshal outbox_table handler s r)
    on_keepalive-last_lsn s (ok k) = refl
    on_keepalive-last_lsn s (err e) = refl
    on_keepalive-last_lsn s panic = refl

    -- After a CopyData message the position is the end of its record (the start plus the length,
    -- modulo 2^64) where it is XLogData that parses, whatever the position was before, so also
    -- where that is lower, and also where the decoding, the routing or the handler then fails.
    -- Every other message leaves the position as it is.
    pub handle_copy_data-last_lsn :
        (now : ℕ) (bytes : Text) (s : ReplicationStream Payload State)
        → (handle_copy_data unmarshal outbox_table handler lib now bytes s).0.last_lsn
          ≡ position_after lib bytes s.last_lsn
    unfolding handle_copy_data
    handle_copy_data-last_lsn now [] s = refl
    handle_copy_data-last_lsn now (id ∷ rest) s = ground (
      arith,
      on_keepalive-last_lsn s (lib.parse_keepalive rest),
      on_xlog_data-last_lsn now s (lib.parse_xlog_data rest),
    )
