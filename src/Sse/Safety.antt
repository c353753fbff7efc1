-- ===== src/Sse/Safety.antt =====
-- sse.go: every handler of /events has its own open channel while it runs, and leaves none behind.
use phylax.Base.{
  ℕ, suc, Text, codes, print_ℕ-injective, append-cancel_left, text_eq, length, length-set,
  get_elem?, get_elem?-set_inv, All, All-append, List, [], ◌∷◌, ◌++◌, Option, none, some, Error,
  Res, ok, ◌≡◌, ◌≢◌, refl, sym, ◌∙◌, subst, ◌⊎◌, inl, inr, arith,
}
use phylax.Change.{Change}
use phylax.Broadcast.{Broadcaster, entries, Received}
use phylax.Broadcast.Valid.{IsOpen, IsValid, Live-lookup}
use phylax.Broadcast.Entries.{HasEntry, NoEntry, Keeps, unsubscribe-Keeps, receive-Keeps}
use phylax.Sse.{Item, greeting, ping, change, nil_change}
use phylax.Sse.Connections.{
  Phase, opening, streaming, leaving, ended, Connection, Handlers, Action, greets, sends, pings,
  disconnects, unsubscribes, subscribes, drops, subscriber_id, put, wrote, marshalled, received,
  handler_step,
}

-- The i-th connection: its id is its own, it is registered with its channel exactly until its
-- handler has run the deferred Unsubscribe, and it was never sent a nil change.
pub record IsSound (b : Broadcaster) (i : ℕ) (c : Connection) : Type 0 where
  pub known : c.id ≡ subscriber_id (suc i)
  pub live : c.phase ≢ ended → HasEntry b c.id c.ch
  pub gone : c.phase ≡ ended → NoEntry b c.id
  pub real : All (λ item. item ≢ nil_change) c.written

pub record AreSound (w : Handlers) : Type 0 where
  pub valid : IsValid w.broadcaster
  pub numbered : w.next_subscriber_id ≡ length w.connections
  pub each :
      (i : ℕ) (c : Connection) → get_elem? w.connections i ≡ some c → IsSound w.broadcaster i c

-- Other users of the broadcaster have ids of their own.
abbrev pub IsForeign : Action → Type 0
IsForeign (subscribes id size) = (n : ℕ) → id ≢ subscriber_id n
IsForeign (drops id) = (n : ℕ) → id ≢ subscriber_id n
IsForeign a = Unit

pub subscriber_id-injective : (m n : ℕ) → subscriber_id m ≡ subscriber_id n → m ≡ n
subscriber_id-injective m n e = print_ℕ-injective m n (append-cancel_left (codes "sse-") e)

module _ {Spared : Text → Type 0} {b b' : Broadcaster} (k : Keeps Spared b b') where
  pub IsSound-Keeps : (i : ℕ) (c : Connection) → Spared c.id → IsSound b i c → IsSound b' i c
  IsSound-Keeps i c s g = record {
    known = g.known;
    live = λ h. k.entry c.id c.ch s (g.live h);
    gone = λ h. k.absent c.id s (g.gone h);
    real = g.real;
  }

  -- A call that spares every connection.
  pub AreSound-Keeps :
      (w : Handlers)
      → w.broadcaster ≡ b
      → ((n : ℕ) → Spared (subscriber_id n))
      → AreSound w
      → AreSound (record w { broadcaster = b' })
  AreSound-Keeps w e s h = record {
    valid = k.valid;
    numbered = h.numbered;
    each = λ i c at.
        let g = h.each i c at in
        IsSound-Keeps i c (subst Spared (sym g.known) (s (suc i))) (subst (λ x. IsSound x i c) e g);
  }

-- A handler's step: its connection is sound after it, and so are the others.
AreSound-put :
    (w : Handlers) (b : Broadcaster) (i : ℕ) (c : Connection)
    → AreSound w
    → IsValid b
    → IsSound b i c
    → ((k : ℕ) (d : Connection) → i ≢ k → IsSound w.broadcaster k d → IsSound b k d)
    → AreSound (put (record w { broadcaster = b }) i c)
AreSound-put w b i c h v g others = record {
  valid = v;
  numbered = h.numbered ∙ sym (length-set w.connections i c);
  each = λ k d at. elim (get_elem?-set_inv w.connections i k c d at) [
    | inl (same, e) ↦ subst (λ x. IsSound b x d) same (subst (IsSound b i) (sym e) g)
    | inr (ne, before) ↦ others k d ne (h.each k d before)
  ];
}

-- A connection whose handler goes on, with its id and channel, and with what it wrote.
IsSound-same :
    (b : Broadcaster) (i : ℕ) (c : Connection) (phase : Phase) (written : List Item)
    → IsSound b i c
    → c.phase ≢ ended
    → phase ≢ ended
    → All (λ item. item ≢ nil_change) written
    → IsSound b i (record c { phase = phase; written = written })
IsSound-same b i c phase written g on still real = record {
  known = g.known;
  live = λ h. g.live on;
  gone = λ h. absurd (still h);
  real = real;
}

IsSound-wrote :
    (b : Broadcaster) (i : ℕ) (c : Connection) (item : Item) (answer : Option Error)
    → IsSound b i c
    → c.phase ≢ ended
    → item ≢ nil_change
    → IsSound b i (wrote c item answer)
IsSound-wrote b i c item none g on real =
    IsSound-same b i c streaming (c.written ++ item ∷ []) g on (λ h. cc)
      (All-append (λ x. x ≢ nil_change) c.written (item ∷ []) g.real (real, tt))
IsSound-wrote b i c item (some e) g on real =
    IsSound-same b i c leaving c.written g on (λ h. cc) g.real

IsSound-marshalled :
    (b : Broadcaster) (i : ℕ) (c : Connection) (x : Change) (answer : Option Error)
    (json : Error ⊎ Text)
    → IsSound b i c
    → c.phase ≢ ended
    → IsSound b i (marshalled c (change x) answer json)
IsSound-marshalled b i c x answer (inl e) g on =
    IsSound-same b i c leaving c.written g on (λ h. cc) g.real
IsSound-marshalled b i c x answer (inr json) g on =
    IsSound-wrote b i c (change x json) answer g on (λ h. cc)

module _ (marshal : Change → Error ⊎ Text) where
  abbrev pub Runs : Handlers → Res Handlers → Type 0
  Runs w r =
      (w' : Handlers) × (r ≡ ok w') × AreSound w' × (length w'.connections ≡ length w.connections)

  -- A handler's step that leaves the broadcaster as it is.
  Runs-put :
      (w : Handlers) (i : ℕ) (c : Connection)
      → AreSound w
      → IsSound w.broadcaster i c
      → Runs w (ok (put w i c))
  Runs-put w i c h g = (
    put w i c,
    refl,
    AreSound-put w w.broadcaster i c h h.valid g (λ k d ne s. s),
    length-set w.connections i c,
  )

  sends-Runs :
      (w : Handlers) (i j : ℕ) (c : Connection) (answer : Option Error)
      → AreSound w
      → IsSound w.broadcaster i c
      → c.phase ≡ streaming
      → Runs w (handler_step marshal (sends j answer) i c streaming w)
  unfolding handler_step
  sends-Runs w i j c answer h g p =
      let (sub, e, q) = g.live (λ r. cc) in
      let open_ : IsOpen w.broadcaster.heap c.ch =
        subst (IsOpen w.broadcaster.heap) q
          (Live-lookup w.broadcaster.heap c.id sub (entries w.broadcaster.subscribers) h.valid e) in
      let (b, r, done, keeps, not_finished) = receive-Keeps c.ch w.broadcaster h.valid open_ in
      rw done (by_result b keeps r not_finished)
    where
      by_result :
          (b : Broadcaster)
          → Keeps (λ id. Unit {0}) w.broadcaster b
          → (r : Received) → r ≢ Received.finished
          → Runs w (ok (received marshal w i c answer (b, r)))
      by_result b keeps (Received.change x) n = (
        _,
        refl,
        AreSound-put w b i _ h keeps.valid
            (IsSound-marshalled b i c x answer (marshal x) (IsSound-Keeps keeps i c tt g) (λ s. cc))
            (λ k d ne s. IsSound-Keeps keeps k d tt s),
        length-set w.connections i _,
      )
      by_result b keeps Received.finished n = absurd (n refl)
      by_result b keeps Received.blocked n = (w, refl, h, refl)

  unsubscribes-Runs :
      (w : Handlers) (i j : ℕ) (c : Connection)
      → AreSound w
      → IsSound w.broadcaster i c
      → Runs w (handler_step marshal (unsubscribes j) i c leaving w)
  unfolding handler_step
  unsubscribes-Runs w i j c h g =
      let (b, done, keeps, absent) = unsubscribe-Keeps c.id w.broadcaster h.valid in
      (
        put (record w { broadcaster = b }) i (record c { phase = ended }),
        rw done refl,
        AreSound-put w b i (record c { phase = ended }) h keeps.valid
            (record {
              known = g.known;
              live = λ n. absurd (n refl);
              gone = λ n. absent;
              real = g.real;
            })
            (λ k d ne s.
              IsSound-Keeps keeps k d
                (λ same. ne (
                  omega (
                    arith,
                    subscriber_id-injective (suc i) (suc k) (sym g.known ∙ same ∙ s.known),
                  )))
                s),
        length-set w.connections i _,
      )

  pub handler-Runs :
      (a : Action) (i : ℕ) (c : Connection) (phase : Phase) (w : Handlers)
      → AreSound w
      → IsSound w.broadcaster i c
      → c.phase ≡ phase
      → Runs w (handler_step marshal a i c phase w)
  unfolding handler_step
  handler-Runs (greets j answer) i c opening w h g p =
      Runs-put w i _ h (IsSound-wrote w.broadcaster i c greeting answer g (λ r. cc) (λ r. cc))
  handler-Runs (sends j answer) i c streaming w h g p = sends-Runs w i j c answer h g p
  handler-Runs (pings j answer) i c streaming w h g p =
      Runs-put w i _ h (IsSound-wrote w.broadcaster i c ping answer g (λ r. cc) (λ r. cc))
  handler-Runs (disconnects j) i c streaming w h g p =
      Runs-put w i _ h
        (IsSound-same w.broadcaster i c leaving c.written g (λ r. cc) (λ r. cc) g.real)
  handler-Runs (unsubscribes j) i c leaving w h g p = unsubscribes-Runs w i j c h g
  handler-Runs a i c phase w h g p = (w, refl, h, refl)
