-- ===== src/Sse/Marshals.antt =====
-- NewSSEHandler of sse.go: the JSON that a connection is sent.
use phylax.Base.{
  ℕ, Text, text_eq, length, get_elem?, get_elem?-lt, get_elem?-set_inv, get_elem?-append_inv, All,
  All-append, List, [], ◌∷◌, Option, none, some, Error, Res, ok, err, panic, ◌>>=◌, ◌≡◌, refl,
  subst, sym, ◌⊎◌, inl, inr, Option-cases, arith,
}
use phylax.Change.{Change}
use phylax.Broadcast.{Broadcaster, subscribe, unsubscribe, publish, receive, Received}
use phylax.Sse.{Item, greeting, ping, change, nil_change}
use phylax.Sse.Connections.{
  Phase, opening, streaming, leaving, Connection, Handlers, Action, connects, refuses, greets,
  sends, pings, disconnects, unsubscribes, subscribes, drops, publishes, reads, connect, put, wrote,
  marshalled, received, handler_step, handler_at, read_by, channel_of, step, run,
}

module _ (marshal : Change → Error ⊎ Text) where
  -- The text of a change is what json.Marshal returned for it.
  abbrev pub IsMarshalled : Item → Type 0
  IsMarshalled (change x json) = marshal x ≡ inr json
  IsMarshalled item = Unit

  abbrev pub IsMarshalledAt : ℕ → Handlers → Type 0
  IsMarshalledAt i w =
      (c : Connection) → get_elem? w.connections i ≡ some c → All IsMarshalled c.written

  -- What a call leaves, if it returns.
  abbrev Leaves : ℕ → Res Handlers → Type 0
  Leaves i (ok w) = IsMarshalledAt i w
  Leaves i (err e) = Unit
  Leaves i panic = Unit

  >>=-Leaves :
      {A : Type 0} (i : ℕ) (m : Res A) (next : A → Res Handlers)
      → ((a : A) → Leaves i (next a))
      → Leaves i (m >>= next)
  >>=-Leaves i (ok a) next h = h a
  >>=-Leaves i (err e) next h = tt
  >>=-Leaves i panic next h = tt

  put-IsMarshalledAt :
      (i j : ℕ) (w : Handlers) (c : Connection)
      → IsMarshalledAt i w
      → (j ≡ i → All IsMarshalled c.written)
      → IsMarshalledAt i (put w j c)
  put-IsMarshalledAt i j w c h new d at = elim (get_elem?-set_inv w.connections j i c d at) [
    | inl (same, e) ↦ subst (λ x. All IsMarshalled x.written) (sym e) (new same)
    | inr (_, before) ↦ h d before
  ]

  wrote-IsMarshalled :
      (c : Connection) (item : Item) (answer : Option Error)
      → IsMarshalled item
      → All IsMarshalled c.written
      → All IsMarshalled (wrote c item answer).written
  wrote-IsMarshalled c item none m h = All-append IsMarshalled c.written (item ∷ []) h (m, tt)
  wrote-IsMarshalled c item (some e) m h = h

  marshalled-IsMarshalled :
      (c : Connection) (x : Change) (answer : Option Error) (json : Error ⊎ Text)
      → marshal x ≡ json
      → All IsMarshalled c.written
      → All IsMarshalled (marshalled c (change x) answer json).written
  marshalled-IsMarshalled c x answer (inl e) m h = h
  marshalled-IsMarshalled c x answer (inr json) m h =
      wrote-IsMarshalled c (change x json) answer m h

  received-IsMarshalledAt :
      (i j : ℕ) (w : Handlers) (c : Connection) (answer : Option Error) (r : Broadcaster × Received)
      → IsMarshalledAt i w
      → (j ≡ i → All IsMarshalled c.written)
      → IsMarshalledAt i (received marshal w j c answer r)
  received-IsMarshalledAt i j w c answer (b, Received.change x) h own =
      put-IsMarshalledAt i j (record w { broadcaster = b }) _ h
        (λ same. marshalled-IsMarshalled c x answer (marshal x) refl (own same))
  received-IsMarshalledAt i j w c answer (b, Received.finished) h own =
      put-IsMarshalledAt i j (record w { broadcaster = b }) _ h
        (λ same. wrote-IsMarshalled c nil_change answer tt (own same))
  received-IsMarshalledAt i j w c answer (b, Received.blocked) h own = h

  handler-Leaves :
      (a : Action) (i j : ℕ) (w : Handlers) (c : Connection) (phase : Phase)
      → IsMarshalledAt i w
      → (j ≡ i → All IsMarshalled c.written)
      → Leaves i (handler_step marshal a j c phase w)
  unfolding handler_step
  handler-Leaves (greets k answer) i j w c opening h own =
      put-IsMarshalledAt i j w _ h (λ same. wrote-IsMarshalled c greeting answer tt (own same))
  handler-Leaves (sends k answer) i j w c streaming h own =
      >>=-Leaves i (receive c.ch w.broadcaster) _
        (λ r. received-IsMarshalledAt i j w c answer r h own)
  handler-Leaves (pings k answer) i j w c streaming h own =
      put-IsMarshalledAt i j w _ h (λ same. wrote-IsMarshalled c ping answer tt (own same))
  handler-Leaves (disconnects k) i j w c streaming h own = put-IsMarshalledAt i j w _ h own
  handler-Leaves (unsubscribes k) i j w c leaving h own =
      >>=-Leaves i (unsubscribe c.id w.broadcaster) _
        (λ b. put-IsMarshalledAt i j (record w { broadcaster = b }) _ h own)
  handler-Leaves a i j w c phase h own = h

  at-Leaves :
      (a : Action) (i j : ℕ) (w : Handlers)
      → IsMarshalledAt i w
      → Leaves i (handler_at marshal a j w (get_elem? w.connections j))
  at-Leaves a i j w h = elim (Option-cases (get_elem? w.connections j)) [
    | inl e ↦ rw e h
    | inr (c, e) ↦ rw e (
        handler-Leaves a i j w c c.phase h
          (λ same. h c (subst (λ k. get_elem? w.connections k ≡ some c) same e)))
  ]

  read_by-Leaves :
      (i : ℕ) (w : Handlers) (ch : Option ℕ) → IsMarshalledAt i w → Leaves i (read_by marshal w ch)
  read_by-Leaves i w none h = h
  read_by-Leaves i w (some ch) h = >>=-Leaves i (receive ch w.broadcaster) _ (λ r. h)

  pub step-Leaves :
      (a : Action) (i : ℕ) (w : Handlers) → IsMarshalledAt i w → Leaves i (step marshal a w)
  unfolding step connect
  step-Leaves connects i w h = >>=-Leaves i (subscribe _ _ w.broadcaster) _ (λ r d at.
      elim (get_elem?-append_inv w.connections i _ d at) [
        | inl (_, e) ↦ subst (λ x. All IsMarshalled x.written) (sym e) tt
        | inr before ↦ h d before
      ])
  step-Leaves refuses i w h = h
  step-Leaves (greets j answer) i w h = at-Leaves (greets j answer) i j w h
  step-Leaves (sends j answer) i w h = at-Leaves (sends j answer) i j w h
  step-Leaves (pings j answer) i w h = at-Leaves (pings j answer) i j w h
  step-Leaves (disconnects j) i w h = at-Leaves (disconnects j) i j w h
  step-Leaves (unsubscribes j) i w h = at-Leaves (unsubscribes j) i j w h
  step-Leaves (subscribes id size) i w h = >>=-Leaves i (subscribe _ _ w.broadcaster) _ (λ r. h)
  step-Leaves (drops id) i w h = >>=-Leaves i (unsubscribe id w.broadcaster) _ (λ b. h)
  step-Leaves (publishes x) i w h = >>=-Leaves i (publish x w.broadcaster) _ (λ b. h)
  step-Leaves (reads id) i w h = read_by-Leaves i w (channel_of marshal id w.broadcaster) h

  run-Leaves :
      (actions : List Action) (i : ℕ) (w : Handlers)
      → IsMarshalledAt i w
      → Leaves i (run marshal actions w)
  unfolding run
  run-Leaves [] i w h = h
  run-Leaves (a ∷ actions) i w h =
      rest (λ w' h'. run-Leaves actions i w' h') (step marshal a w) (step-Leaves a i w h)
    where
      rest :
          ((w' : Handlers) → IsMarshalledAt i w' → Leaves i (run marshal actions w'))
          → (r : Res Handlers) → Leaves i r
          → Leaves i (r >>= run marshal actions)
      rest next (ok w') h' = next w' h'
      rest next (err e) h' = tt
      rest next panic h' = tt

  -- The next connection, over any run from its request on or from before.
  pub run-IsMarshalledAt :
      (actions : List Action) (w w' : Handlers)
      → run marshal actions w ≡ ok w'
      → IsMarshalledAt (length w.connections) w'
  run-IsMarshalledAt actions w w' e = subst (Leaves (length w.connections)) e (
      run-Leaves actions (length w.connections) w
        (λ c at. absurd (omega (arith, get_elem?-lt w.connections (length w.connections) at))))
