-- ===== src/Stream/Status.antt =====
-- stream.go: the status updates, and the positions that they report.
use phylax.Base.{
  ℕ, true, false, Bool-cases, Option-cases, ◌||◌, Text, List, [], ◌∷◌, ◌++◌, append_assoc,
  append-nil, Option, none, some, some_inj, Error, Res, ok, err, panic, ◌≡◌, refl, sym, ◌∙◌, subst,
  ◌⊎◌, inl, inr, arith,
}
use phylax.Change.{Change}
use phylax.Stream.{ReplicationStream, Pglogrepl}
use phylax.Stream.Sessions.{
  Session, Action, checks, receives, receive_fails, ticks, replies, stops, cancels, Position,
  checking, receiving, Heartbeat, waiting, stopped, failed, BackendMessage, copy_data,
  error_response, unexpected, on_message, after_message, check_heartbeat, is_over, heartbeat_step,
  reply_step, stop_step, run_step, step, run,
}
use phylax.Stream.Positions.{position_after, handle_copy_data-last_lsn}

-- The position after an action, and the positions that an action reports.
abbrev pub moves : Pglogrepl → Action → ℕ → ℕ
moves lib (receives now (copy_data bytes)) lsn = position_after lib bytes lsn
moves lib _ lsn = lsn

abbrev sent_by : Option Error → ℕ → List ℕ
sent_by none lsn = lsn ∷ []
sent_by (some e) lsn = []

abbrev pub sends : Action → ℕ → List ℕ
sends (ticks answer) lsn = sent_by answer lsn
sends (replies answer) lsn = sent_by answer lsn
sends _ lsn = []

unfoldable pub reported : Pglogrepl → List Action → ℕ → List ℕ
reported lib [] lsn = []
reported lib (a ∷ as_) lsn = sends a lsn ++ reported lib as_ (moves lib a lsn)

module _ {Payload State : Type 0} (unmarshal : Text → Error ⊎ Payload) (outbox_table : Text)
    (handler : Change → State → State × Res (Unit {0})) (lib : Pglogrepl) where
  abbrev Follows : Action → Session Payload State → Session Payload State → Type 0
  Follows a w w' =
      (w'.stream.last_lsn ≡ moves lib a w.stream.last_lsn)
      × (w'.sent ≡ w.sent ++ sends a w.stream.last_lsn)

  after_message-Follows :
      (w : Session Payload State) (p : ReplicationStream Payload State × Res (Unit {0})) (lsn : ℕ)
      → p.0.last_lsn ≡ lsn
      → ((after_message w p).stream.last_lsn ≡ lsn) × ((after_message w p).sent ≡ w.sent ++ [])
  after_message-Follows w (s, ok done) lsn e = (e, sym (append-nil w.sent))
  after_message-Follows w (s, err f) lsn e = (e, sym (append-nil w.sent))
  after_message-Follows w (s, panic) lsn e = (e, sym (append-nil w.sent))

  receives-Follows :
      (now : ℕ) (m : BackendMessage) (w : Session Payload State)
      → Follows
          (receives now m)
          w
          (after_message w (on_message unmarshal outbox_table handler lib now m w.stream))
  unfolding on_message
  receives-Follows now (copy_data bytes) w =
      after_message-Follows w _ _
        (handle_copy_data-last_lsn unmarshal outbox_table handler lib now bytes w.stream)
  receives-Follows now (error_response m d c) w = (refl, sym (append-nil w.sent))
  receives-Follows now unexpected w = (refl, sym (append-nil w.sent))

  heartbeat-Follows :
      (h : Heartbeat) (answer : Option Error) (w w' : Session Payload State)
      → heartbeat_step h answer w ≡ some w'
      → (w'.stream.last_lsn ≡ w.stream.last_lsn)
        × (w'.sent ≡ w.sent ++ sends (ticks answer) w.stream.last_lsn)
  unfolding heartbeat_step
  heartbeat-Follows waiting none w w' e =
      subst
        (λ v. (v.stream.last_lsn ≡ w.stream.last_lsn) × (v.sent ≡ w.sent ++ w.stream.last_lsn ∷ []))
        (some_inj e) (refl, refl)
  heartbeat-Follows waiting (some f) w w' e =
      subst (λ v. (v.stream.last_lsn ≡ w.stream.last_lsn) × (v.sent ≡ w.sent ++ [])) (some_inj e)
        (refl, sym (append-nil w.sent))
  heartbeat-Follows stopped answer w w' e = absurd (cc)
  heartbeat-Follows (failed f) answer w w' e = absurd (cc)

  reply_step-pending :
      (answer : Option Error) (w : Session Payload State)
      → w.stream.reply_now ≡ true
      → heartbeat_step w.heartbeat answer
          (record w { stream = record w.stream { reply_now = false } })
        ≡ reply_step answer w
  unfolding reply_step
  reply_step-pending answer w r = rw r refl

  reply_step-none :
      (answer : Option Error) (w : Session Payload State)
      → w.stream.reply_now ≡ false
      → reply_step answer w ≡ none
  unfolding reply_step
  reply_step-none answer w r = rw r refl

  reply-Follows :
      (answer : Option Error) (w w' : Session Payload State)
      → reply_step answer w ≡ some w'
      → Follows (replies answer) w w'
  unfolding reply_step
  reply-Follows answer w w' e = elim (Bool-cases w.stream.reply_now) [
    | inl r ↦
        heartbeat-Follows w.heartbeat answer
          (record w { stream = record w.stream { reply_now = false } }) w'
          (reply_step-pending answer w r ∙ e)
    | inr r ↦ absurd (cc (sym (reply_step-none answer w r) ∙ e))
  ]

  stop_step-done :
      (w : Session Payload State)
      → (w.is_done || is_over w.position) ≡ true
      → some (record w { heartbeat = stopped }) ≡ stop_step waiting w
  unfolding stop_step
  stop_step-done w b = rw b refl

  stop-Follows :
      (h : Heartbeat) (w w' : Session Payload State) → stop_step h w ≡ some w' → Follows stops w w'
  unfolding stop_step
  stop-Follows waiting w w' e = elim (Bool-cases (w.is_done || is_over w.position)) [
    | inl b ↦
        subst (Follows stops w) (some_inj (stop_step-done w b ∙ e)) (refl, sym (append-nil w.sent))
    | inr b ↦ absurd (ground (arith, b, e))
  ]
  stop-Follows stopped w w' e = absurd (cc)
  stop-Follows (failed f) w w' e = absurd (cc)

  check-Follows :
      (h : Heartbeat) (w : Session Payload State) → Follows checks w (check_heartbeat h w)
  check-Follows waiting w = (refl, sym (append-nil w.sent))
  check-Follows stopped w = (refl, sym (append-nil w.sent))
  check-Follows (failed f) w = (refl, sym (append-nil w.sent))

  run_step-Follows :
      (p : Position) (a : Action) (w w' : Session Payload State)
      → run_step unmarshal outbox_table handler lib p a w ≡ some w'
      → Follows a w w'
  unfolding run_step
  run_step-Follows checking checks w w' e =
      subst (Follows checks w) (some_inj e) (check-Follows w.heartbeat w)
  run_step-Follows receiving (receives now m) w w' e =
      subst (Follows (receives now m) w) (some_inj e) (receives-Follows now m w)
  run_step-Follows receiving (receive_fails f) w w' e =
      subst (Follows (receive_fails f) w) (some_inj e) (refl, sym (append-nil w.sent))
  run_step-Follows p a w w' e = absurd (cc)

  step-Follows :
      (a : Action) (w w' : Session Payload State)
      → step unmarshal outbox_table handler lib a w ≡ some w'
      → Follows a w w'
  unfolding step
  step-Follows (ticks answer) w w' e = heartbeat-Follows w.heartbeat answer w w' e
  step-Follows (replies answer) w w' e = reply-Follows answer w w' e
  step-Follows stops w w' e = stop-Follows w.heartbeat w w' e
  step-Follows cancels w w' e =
      subst (Follows cancels w) (some_inj e) (refl, sym (append-nil w.sent))
  step-Follows checks w w' e = run_step-Follows w.position checks w w' e
  step-Follows (receives now m) w w' e = run_step-Follows w.position (receives now m) w w' e
  step-Follows (receive_fails f) w w' e = run_step-Follows w.position (receive_fails f) w w' e

  -- In every interleaving of the receive loop, the heartbeat goroutine and the context, each
  -- status update that is sent reports the end of the last record that was received before it,
  -- or the start position if there was none; in the order in which they are sent.
  pub run_reports :
      (actions : List Action) (w w' : Session Payload State)
      → run unmarshal outbox_table handler lib actions w ≡ some w'
      → w'.sent ≡ w.sent ++ reported lib actions w.stream.last_lsn
  unfolding run reported
  run_reports [] w w' e = subst (λ v. v.sent ≡ w.sent ++ []) (some_inj e) (sym (append-nil w.sent))
  run_reports (a ∷ as_) w w' e = elim (Option-cases (step unmarshal outbox_table handler lib a w)) [
    | inl stuck ↦ absurd (ground (arith, stuck, e))
    | inr (w1, taken) ↦
        let (l, m) = step-Follows a w w1 taken in
        run_reports as_ w1 w' (
          subst
            (λ o.
              elim o [ none ↦ none | some v ↦ run unmarshal outbox_table handler lib as_ v ]
              ≡ some w')
            taken e)
        ∙ rw (m, l) (append_assoc w.sent _ _)
  ]
