-- ===== src/Sse/Runs.antt =====
-- sse.go: any number of handlers of /events beside other users of the broadcaster.
use phylax.Base.{
  ℕ, suc, ◌+◌, ◌<◌, ◌≤◌, Text, lookup, text_eq, add64, word_mod, length, length-append, get_elem?,
  get_elem?-lt, get_elem?-append_inv, All, List, [], ◌∷◌, ◌++◌, Option-cases, Error, Res, ok, ◌≡◌,
  refl, ◌∙◌, ◌⊎◌, inl, inr, arith,
}
use phylax.Change.{Change}
use phylax.Broadcast.{entries}
use phylax.Broadcast.Valid.{Live-lookup}
use phylax.Broadcast.Entries.{subscribe-Keeps, unsubscribe-Keeps, publish-Keeps, receive-Keeps}
use phylax.Sse.Connections.{
  opening, Connection, Handlers, Action, connects, refuses, greets, sends, pings, disconnects,
  unsubscribes, subscribes, drops, publishes, reads, subscriber_id, connect, handler_at, channel_of,
  step, run,
}
use phylax.Sse.Safety.{
  AreSound, IsForeign, subscriber_id-injective, IsSound-Keeps, AreSound-Keeps, handler-Runs,
}

-- A step, and what the number of connections is after it.
abbrev pub Steps : Handlers → Res Handlers → Type 0
Steps w r =
    (w' : Handlers) × (r ≡ ok w') × AreSound w' × (length w'.connections ≤ length w.connections + 1)

connect-Steps :
    (w : Handlers) → AreSound w → length w.connections + 1 < word_mod → Steps w (connect w)
unfolding connect
connect-Steps w h small =
    let n = suc (length w.connections) in
    let next : add64 w.next_subscriber_id 1 ≡ n = omega (arith, h.numbered) in
    let (b, done, keeps, entry) = subscribe-Keeps (subscriber_id n) 10 w.broadcaster h.valid in
    let c : Connection = record {
      id = subscriber_id n;
      ch = length w.broadcaster.heap;
      phase = opening;
      written = [];
    } in
    (
      record { broadcaster = b; next_subscriber_id = n; connections = w.connections ++ c ∷ [] },
      rw (next, done) refl,
      record {
        valid = keeps.valid;
        numbered = omega (arith, length-append w.connections (c ∷ []));
        each = λ k d at. elim (get_elem?-append_inv w.connections k c d at) [
          | inl (last, e) ↦
              rw (e, last)
                (record { known = refl; live = λ p. entry; gone = λ p. absurd (cc); real = tt })
          | inr before ↦
              let g = h.each k d before in
              IsSound-Keeps keeps k d
                (λ same. absurd (
                  omega (
                    arith,
                    get_elem?-lt w.connections k before,
                    subscriber_id-injective n (suc k) (same ∙ g.known),
                  )))
                g
        ];
      },
      omega (arith, length-append w.connections (c ∷ [])),
    )

module _ (marshal : Change → Error ⊎ Text) where
  handler-Steps :
      (a : Action) (i : ℕ) (w : Handlers)
      → AreSound w
      → Steps w (handler_at marshal a i w (get_elem? w.connections i))
  handler-Steps a i w h = elim (Option-cases (get_elem? w.connections i)) [
    | inl e ↦ rw e (w, refl, h, omega arith)
    | inr (c, e) ↦
        let (w', done, h', same) = handler-Runs marshal a i c c.phase w h (h.each i c e) refl in
        rw e (w', done, h', omega (arith, same))
  ]

  reads-Steps : (id : Text) (w : Handlers) → AreSound w → Steps w (step marshal (reads id) w)
  unfolding step
  reads-Steps id w h = elim (Option-cases (lookup id (entries w.broadcaster.subscribers))) [
    | inl e ↦ rw (e, channel_of) (w, refl, h, omega arith)
    | inr (sub, e) ↦
        let (b, r, done, keeps, _) =
          receive-Keeps sub.ch w.broadcaster h.valid
            (Live-lookup w.broadcaster.heap id sub (entries w.broadcaster.subscribers) h.valid e) in
        (
          record w { broadcaster = b },
          rw (e, channel_of, done) refl,
          AreSound-Keeps keeps w refl (λ n. tt) h,
          omega arith,
        )
  ]

  pub step-Steps :
      (a : Action) (w : Handlers)
      → AreSound w
      → IsForeign a
      → length w.connections + 1 < word_mod
      → Steps w (step marshal a w)
  unfolding step
  step-Steps connects w h f small = connect-Steps w h small
  step-Steps refuses w h f small = (w, refl, h, omega arith)
  step-Steps (greets i answer) w h f small = handler-Steps (greets i answer) i w h
  step-Steps (sends i answer) w h f small = handler-Steps (sends i answer) i w h
  step-Steps (pings i answer) w h f small = handler-Steps (pings i answer) i w h
  step-Steps (disconnects i) w h f small = handler-Steps (disconnects i) i w h
  step-Steps (unsubscribes i) w h f small = handler-Steps (unsubscribes i) i w h
  step-Steps (subscribes id size) w h f small =
      let (b, done, keeps, _) = subscribe-Keeps id size w.broadcaster h.valid in
      (record w { broadcaster = b }, rw done refl, AreSound-Keeps keeps w refl f h, omega arith)
  step-Steps (drops id) w h f small =
      let (b, done, keeps, _) = unsubscribe-Keeps id w.broadcaster h.valid in
      (record w { broadcaster = b }, rw done refl, AreSound-Keeps keeps w refl f h, omega arith)
  step-Steps (publishes x) w h f small =
      let (b, done, keeps) = publish-Keeps x w.broadcaster h.valid in
      (
        record w { broadcaster = b },
        rw done refl,
        AreSound-Keeps keeps w refl (λ n. tt) h,
        omega arith,
      )
  step-Steps (reads id) w h f small = reads-Steps id w h

  -- Any number of handlers of /events run beside calls of other users of the broadcaster, whose ids
  -- are not of the form "sse-n", in any order and with any failures of writes and of json.Marshal:
  -- nothing panics, and in the end every handler that has not run its deferred Unsubscribe is
  -- registered under its own id with its own channel, every other one is not registered, none was
  -- sent a nil change, and the broadcaster is valid. The requests have to be less than 2^64.
  pub run_sound :
      (actions : List Action) (w : Handlers)
      → AreSound w
      → All IsForeign actions
      → length w.connections + length actions < word_mod
      → (w' : Handlers) × (run marshal actions w ≡ ok w') × AreSound w'
  unfolding run
  run_sound [] w h f small = (w, refl, h)
  run_sound (a ∷ actions) w h f small =
      let (w1, e1, h1, few) = step-Steps a w h f.0 (omega (arith, small)) in
      let (w2, e2, h2) = run_sound actions w1 h1 f.1 (omega (arith, few, small)) in
      (w2, rw e1 e2, h2)
