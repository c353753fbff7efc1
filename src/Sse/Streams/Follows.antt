-- ===== src/Sse/Streams/Follows.antt =====
-- The steps of the handlers, as a connection follows what is published.
use phylax.Base.{
  length, ℕ, ==_ne, Text, text_eq, lookup, lookup-delete, delete, List, [], ◌∷◌, ◌++◌, append-nil,
  Option, none, some, Error, ok, ◌≡◌, ◌≢◌, refl, sym, ◌∙◌, ap, subst, ◌⊎◌, inl, inr, pos,
}
use phylax.Change.{Change}
use phylax.Broadcast.{Broadcaster, entries, subscribe, unsubscribe, publish, receive, Received}
use phylax.Broadcast.Valid.{IsOpen, IsValid, Live-lookup, Fresh-lookup, Fresh-delete_self}
use phylax.Broadcast.Entries.{HasEntry}
use phylax.Broadcast.History
use phylax.Broadcast.History.{Op, World}
use phylax.Broadcast.History.Fates.{
  Fates, published_of, published_of-append, taken_from, taken_from-last, taken_from-other, IsExact,
  IsExact-append, Leaves, publications,
}
use phylax.Broadcast.History.Fates.Tracking.{run-Tracks}
use phylax.Sse.{Item, greeting, ping, change, nil_change}
use phylax.Sse.Connections.{Connection, wrote, marshalled}
use phylax.Sse.Streams.{IsTracked, sent_of, IsRunning, Follows}

-- Entries of different ids have different channels.
apart :
    (b : Broadcaster) (id j : Text) (a x : ℕ)
    → IsValid b
    → HasEntry b id a
    → HasEntry b j x
    → j ≢ id
    → x ≢ a
apart b id j a x v (sub, e, at) (s, e', at') ne same =
    let subs = entries b.subscribers in
    let still : lookup id (delete j subs) ≡ some sub =
      lookup-delete j id subs ∙ rw (==_ne j id ne) e in
    Fresh-lookup s.ch id sub (delete j subs) (Fresh-delete_self b.heap j s subs v e') still
      (at' ∙ same ∙ sym at)

-- What a step of the broadcaster does to a connection's subscription.
op-Tracks :
    (op : Op) (c : Connection) (b b' : Broadcaster) (taken taken' : List (ℕ × Change))
    (published : List Change)
    → IsValid b
    → Leaves c.id (op ∷ [])
    → History.run (op ∷ []) (record { broadcaster = b; taken = taken })
      ≡ ok (record { broadcaster = b'; taken = taken' })
    → Follows c b taken published
    → (fates : Fates) × IsTracked 10 c.id c.ch (record { broadcaster = b'; taken = taken' }) fates
      × (published_of fates ≡ published ++ publications (op ∷ []))
op-Tracks op c b b' taken taken' published v l e (fates, t, p, s) =
    let (w, more, e', (t', (x, size)), p') =
      run-Tracks (op ∷ []) c.id c.ch (record { broadcaster = b; taken = taken }) fates v t.tracks
        l in
    let exact =
      IsExact-append 10 0 (length t.tracks.ch.buffer) (length t'.ch.buffer) fates more t.exact
        (subst (λ n. IsExact n (length t.tracks.ch.buffer) more (length t'.ch.buffer)) t.sized x) in
    let at : w ≡ record { broadcaster = b'; taken = taken' } = cc (e, e') in
    (
      fates ++ more,
      subst (λ w. IsTracked 10 c.id c.ch w (fates ++ more)) at
          (record { tracks = t'; exact = exact; sized = size ∙ t.sized }),
      published_of-append fates more ∙ rw (p, p') refl,
    )

-- A step that is not the connection's own.
pub op-Follows :
    (op : Op) (c : Connection) (b b' : Broadcaster) (taken taken' : List (ℕ × Change))
    (published : List Change)
    → IsValid b
    → Leaves c.id (op ∷ [])
    → History.run (op ∷ []) (record { broadcaster = b; taken = taken })
      ≡ ok (record { broadcaster = b'; taken = taken' })
    → taken_from c.ch taken' ≡ taken_from c.ch taken
    → Follows c b taken published
    → Follows c b' taken' (published ++ publications (op ∷ []))
op-Follows op c b b' taken taken' published v l e same f =
    let (fates, t, p) = op-Tracks op c b b' taken taken' published v l e f in
    let (_, _, _, s) = f in (fates, t, p, s ∙ sym same)

-- What was read, after another read.
abbrev pub noted : List (ℕ × Change) → ℕ → Received → List (ℕ × Change)
noted taken a (Received.change x) = taken ++ (a, x) ∷ []
noted taken a r = taken

receives-History :
    (a : ℕ) (b b' : Broadcaster) (r : Received) (taken : List (ℕ × Change))
    → IsOpen b.heap a
    → receive a b ≡ ok (b', r)
    → History.run (Op.receives a ∷ []) (record { broadcaster = b; taken = taken })
      ≡ ok (record { broadcaster = b'; taken = noted taken a r })
unfolding History.run History.step
receives-History a b b' (Received.change x) taken (ch, at, o) e =
    rw (History.run, History.step, at, e) refl
receives-History a b b' Received.finished taken (ch, at, o) e =
    rw (History.run, History.step, at, e) refl
receives-History a b b' Received.blocked taken (ch, at, o) e =
    rw (History.run, History.step, at, e) refl

noted-other :
    (a x : ℕ) (r : Received) (taken : List (ℕ × Change))
    → x ≢ a
    → taken_from a (noted taken x r) ≡ taken_from a taken
noted-other a x (Received.change c) taken ne = taken_from-other a x c taken ne
noted-other a x Received.finished taken ne = refl
noted-other a x Received.blocked taken ne = refl

-- A read of another entry's channel.
pub other_read :
    (c : Connection) (b b' : Broadcaster) (j : Text) (x : ℕ) (r : Received)
    (taken : List (ℕ × Change)) (published : List Change)
    → IsValid b
    → HasEntry b j x
    → j ≢ c.id
    → receive x b ≡ ok (b', r)
    → Follows c b taken published
    → Follows c b' (noted taken x r) (published ++ [])
other_read c b b' j x r taken published v (sub, e, at) ne done (fates, t, p, s) =
    let open_ : IsOpen b.heap x =
      subst (IsOpen b.heap) at (Live-lookup b.heap j sub (entries b.subscribers) v e) in
    op-Follows (Op.receives x) c b b' taken (noted taken x r) published v tt
      (receives-History x b b' r taken open_ done)
      (noted-other c.ch x r taken
        (apart b c.id j c.ch x v (t.tracks.sub, t.tracks.found, t.tracks.address) (sub, e, at) ne))
      (fates, t, p, s)

sent_of-append : (xs ys : List Item) → sent_of (xs ++ ys) ≡ sent_of xs ++ sent_of ys
sent_of-append [] ys = refl
sent_of-append (greeting ∷ xs) ys = sent_of-append xs ys
sent_of-append (ping ∷ xs) ys = sent_of-append xs ys
sent_of-append (change c json ∷ xs) ys = ap (λ cs. c ∷ cs) (sent_of-append xs ys)
sent_of-append (nil_change ∷ xs) ys = sent_of-append xs ys

-- A write that is no change.
pub wrote-Follows :
    (c : Connection) (item : Item) (answer : Option Error) (b : Broadcaster)
    (taken : List (ℕ × Change)) (published : List Change)
    → sent_of (item ∷ []) ≡ []
    → Follows c b taken published
    → IsRunning (wrote c item answer).phase
    → Follows (wrote c item answer) b taken (published ++ [])
wrote-Follows c item none b taken published e (fates, t, p, s) run_ = (
  fates,
  t,
  p ∙ sym (append-nil published),
  sent_of-append c.written (item ∷ []) ∙ rw e (append-nil (sent_of c.written)) ∙ s,
)
wrote-Follows c item (some x) b taken published e f run_ = absurd run_

-- The read of the connection's own channel, and the write of the change.
pub marshalled-Follows :
    (c : Connection) (x : Change) (answer : Option Error) (json : Error ⊎ Text) (b b' : Broadcaster)
    (taken : List (ℕ × Change)) (published : List Change)
    → IsValid b
    → IsOpen b.heap c.ch
    → receive c.ch b ≡ ok (b', Received.change x)
    → Follows c b taken published
    → IsRunning (marshalled c (change x) answer json).phase
    → Follows (marshalled c (change x) answer json) b' (taken ++ (c.ch, x) ∷ []) (published ++ [])
marshalled-Follows c x answer (inl e) b b' taken published v o done f run_ = absurd run_
marshalled-Follows c x (some e) (inr json) b b' taken published v o done f run_ = absurd run_
marshalled-Follows c x none (inr json) b b' taken published v o done f run_ =
    let (fates, t, p) =
      op-Tracks (Op.receives c.ch) c b b' taken (taken ++ (c.ch, x) ∷ []) published v tt
        (receives-History c.ch b b' (Received.change x) taken o done) f in
    let (_, _, _, s) = f in
    (
      fates,
      t,
      p,
      sent_of-append c.written (change x json ∷ [])
          ∙ ap (λ cs. cs ++ x ∷ []) s
          ∙ sym (taken_from-last c.ch x taken),
    )

-- The calls of the broadcaster as histories of one step.
pub subscribes-History :
    (id : Text) (size a : ℕ) (b b' : Broadcaster) (taken : List (ℕ × Change))
    → subscribe id (pos size) b ≡ ok (a, b')
    → History.run (Op.subscribes id size ∷ []) (record { broadcaster = b; taken = taken })
      ≡ ok (record { broadcaster = b'; taken = taken })
unfolding History.run History.step
subscribes-History id size a b b' taken e = rw e refl

pub unsubscribes-History :
    (id : Text) (b b' : Broadcaster) (taken : List (ℕ × Change))
    → unsubscribe id b ≡ ok b'
    → History.run (Op.unsubscribes id ∷ []) (record { broadcaster = b; taken = taken })
      ≡ ok (record { broadcaster = b'; taken = taken })
unfolding History.run History.step
unsubscribes-History id b b' taken e = rw e refl

pub publishes-History :
    (x : Change) (b b' : Broadcaster) (taken : List (ℕ × Change))
    → publish x b ≡ ok b'
    → History.run (Op.publishes x ∷ []) (record { broadcaster = b; taken = taken })
      ≡ ok (record { broadcaster = b'; taken = taken })
unfolding History.run History.step
publishes-History x b b' taken e = rw e refl
