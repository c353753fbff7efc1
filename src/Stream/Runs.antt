-- ===== src/Stream/Runs.antt =====
-- stream.go: how Run returns, what a keepalive that asks for a reply does, and the order of the
-- status updates.
use phylax.Base.{
  ℕ, ◌≤◌, Bool, true, false, Option-cases, if◌then◌else◌, ◌||◌, Text, List, [], ◌∷◌, ◌++◌, Option,
  none, some, some_inj, Error, Res, ok, err, panic, ◌≡◌, ◌≢◌, sym, subst, ◌⊎◌, inl, inr, arith,
}
use phylax.Change.{Change}
use phylax.Stream.{ReplicationStream, Pglogrepl, Keepalive, handle_copy_data}
use phylax.Stream.Sessions.{
  Session, Action, checks, receives, receive_fails, ticks, replies, stops, cancels, Position,
  checking, receiving, returned, Heartbeat, waiting, stopped, failed, copy_data, on_message,
  after_message, check_heartbeat, heartbeat_step, reply_step, stop_step, is_over, run_step, step,
  run, new_session,
}
use phylax.Stream.Status.{moves, sends, reported, run_reports}

-- From `low` on, no number is less than the one before it.
abbrev pub Ascending : ℕ → List ℕ → Type 0
Ascending low [] = Unit
Ascending low (x ∷ xs) = (low ≤ x) × Ascending x xs

-- Every record that is received ends at or after the position before it.
abbrev pub InOrder : Pglogrepl → ℕ → List Action → Type 0
InOrder lib lsn [] = Unit
InOrder lib lsn (a ∷ as_) = (lsn ≤ moves lib a lsn) × InOrder lib (moves lib a lsn) as_

Ascending-le : (low high : ℕ) (xs : List ℕ) → low ≤ high → Ascending high xs → Ascending low xs
Ascending-le low high [] h a = tt
Ascending-le low high (x ∷ xs) h a = (omega (arith, a.0), a.1)

Ascending-sends :
    (lib : Pglogrepl) (a : Action) (lsn : ℕ) (xs : List ℕ)
    → lsn ≤ moves lib a lsn
    → Ascending (moves lib a lsn) xs
    → Ascending lsn (sends a lsn ++ xs)
Ascending-sends lib (ticks none) lsn xs h p = (omega arith, p)
Ascending-sends lib (replies none) lsn xs h p = (omega arith, p)
Ascending-sends lib a lsn xs h p = Ascending-le lsn (moves lib a lsn) xs h p

reported-Ascending :
    (lib : Pglogrepl) (actions : List Action) (lsn : ℕ)
    → InOrder lib lsn actions
    → Ascending lsn (reported lib actions lsn)
unfolding reported
reported-Ascending lib [] lsn h = tt
reported-Ascending lib (a ∷ as_) lsn h =
    Ascending-sends lib a lsn _ h.0 (reported-Ascending lib as_ (moves lib a lsn) h.1)

-- Run has not returned nil.
abbrev NotNil : Position → Type 0
NotNil (returned r) = r ≢ ok tt
NotNil _ = Unit

module _ {Payload State : Type 0} (unmarshal : Text → Error ⊎ Payload) (outbox_table : Text)
    (handler : Change → State → State × Res (Unit {0})) (lib : Pglogrepl) where
  -- Where the records of a stream come in the order of their ends, the positions that a session
  -- reports to the server never go back, in any interleaving.
  pub reports-Ascending :
      (actions : List Action) (s : ReplicationStream Payload State) (w : Session Payload State)
      → InOrder lib s.last_lsn actions
      → run unmarshal outbox_table handler lib actions (new_session s) ≡ some w
      → Ascending s.last_lsn w.sent
  unfolding new_session
  reports-Ascending actions s w h e =
      subst (Ascending s.last_lsn)
        (sym (run_reports unmarshal outbox_table handler lib actions (new_session s) w e))
        (reported-Ascending lib actions s.last_lsn h)

  after_message-NotNil :
      (w : Session Payload State) (p : ReplicationStream Payload State × Res (Unit {0}))
      → NotNil (after_message w p).position
  after_message-NotNil w (s, ok done) = tt
  after_message-NotNil w (s, err e) = λ x. cc
  after_message-NotNil w (s, panic) = λ x. cc

  abbrev KeepsNotNil : Session Payload State → Option (Session Payload State) → Type 0
  KeepsNotNil w none = Unit
  KeepsNotNil w (some w') = NotNil w.position → NotNil w'.position

  heartbeat-NotNil :
      (h : Heartbeat) (answer : Option Error) (w : Session Payload State)
      → KeepsNotNil w (heartbeat_step h answer w)
  unfolding heartbeat_step
  heartbeat-NotNil waiting none w = λ n. n
  heartbeat-NotNil waiting (some e) w = λ n. n
  heartbeat-NotNil stopped answer w = tt
  heartbeat-NotNil (failed e) answer w = tt

  pick-NotNil :
      (w : Session Payload State) (b : Bool) (o : Option (Session Payload State))
      → KeepsNotNil w o
      → KeepsNotNil w (if b then o else none)
  pick-NotNil w true o h = h
  pick-NotNil w false o h = tt

  stop-NotNil : (h : Heartbeat) (w : Session Payload State) → KeepsNotNil w (stop_step h w)
  unfolding stop_step
  stop-NotNil waiting w = pick-NotNil w (w.is_done || is_over w.position) _ (λ n. n)
  stop-NotNil stopped w = tt
  stop-NotNil (failed e) w = tt

  check-NotNil : (h : Heartbeat) (w : Session Payload State) → NotNil (check_heartbeat h w).position
  check-NotNil waiting w = tt
  check-NotNil stopped w = tt
  check-NotNil (failed e) w = λ x. cc

  run_step-NotNil :
      (p : Position) (a : Action) (w : Session Payload State)
      → KeepsNotNil w (run_step unmarshal outbox_table handler lib p a w)
  unfolding run_step
  run_step-NotNil checking checks w = λ n. check-NotNil w.heartbeat w
  run_step-NotNil receiving (receives now m) w = λ n. after_message-NotNil w _
  run_step-NotNil receiving (receive_fails e) w = λ n x. cc
  run_step-NotNil p a w = tt

  step-NotNil :
      (a : Action) (w : Session Payload State)
      → KeepsNotNil w (step unmarshal outbox_table handler lib a w)
  unfolding step reply_step
  step-NotNil (ticks answer) w = heartbeat-NotNil w.heartbeat answer w
  step-NotNil (replies answer) w = pick-NotNil w w.stream.reply_now _ (
      heartbeat-NotNil w.heartbeat answer
        (record w { stream = record w.stream { reply_now = false } }))
  step-NotNil stops w = stop-NotNil w.heartbeat w
  step-NotNil cancels w = λ n. n
  step-NotNil checks w = run_step-NotNil w.position checks w
  step-NotNil (receives now m) w = run_step-NotNil w.position (receives now m) w
  step-NotNil (receive_fails e) w = run_step-NotNil w.position (receive_fails e) w

  run-NotNil :
      (actions : List Action) (w w' : Session Payload State)
      → NotNil w.position
      → run unmarshal outbox_table handler lib actions w ≡ some w'
      → NotNil w'.position
  unfolding run
  run-NotNil [] w w' n e = subst (λ v. NotNil v.position) (some_inj e) n
  run-NotNil (a ∷ as_) w w' n e =
      elim (Option-cases (step unmarshal outbox_table handler lib a w)) [
        | inl stuck ↦ absurd (ground (arith, stuck, e))
        | inr (w1, taken) ↦ run-NotNil as_ w1 w' (subst (KeepsNotNil w) taken (step-NotNil a w) n) (
            subst
              (λ o.
                elim o [ none ↦ none | some v ↦ run unmarshal outbox_table handler lib as_ v ]
                ≡ some w')
              taken e)
      ]

  -- Run never returns nil: whatever the interleaving, a session that has returned did so with an
  -- error or by a panic.
  pub run_never_nil :
      (actions : List Action) (s : ReplicationStream Payload State) (w : Session Payload State)
      (r : Res (Unit {0}))
      → run unmarshal outbox_table handler lib actions (new_session s) ≡ some w
      → w.position ≡ returned r
      → r ≢ ok tt
  unfolding new_session
  run_never_nil actions s w r e p = subst NotNil p (run-NotNil actions (new_session s) w tt e)

  -- A keepalive that asks for a reply wakes the heartbeat goroutine, if that has not returned: it
  -- can then take the token without waiting for a tick, and the status update that it sends
  -- reports the position, which the keepalive left as it was. The loop goes on to its next round.
  pub requested_reply :
      (now : ℕ) (rest : Text) (k : Keepalive) (w : Session Payload State)
      → w.position ≡ receiving
      → w.heartbeat ≡ waiting
      → lib.parse_keepalive rest ≡ ok k
      → k.reply_requested ≡ true
      → let actions = receives now (copy_data (b'k' ∷ rest)) ∷ replies none ∷ [] in
        run unmarshal outbox_table handler lib actions w
        ≡ some (record w {
          stream = record w.stream { server_wal_end = k.server_wal_end; reply_now = false };
          position = checking;
          sent = w.sent ++ w.stream.last_lsn ∷ [];
        })
  unfolding run step run_step on_message handle_copy_data reply_step heartbeat_step
  requested_reply now rest k w p h e r = ground (arith, p, h, e, r)
