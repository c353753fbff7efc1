-- ===== src/Broadcast/Entries.antt =====
-- broadcast.go: what each call leaves of the entries, by the id and the channel of each.
use phylax.Base.{
  ℕ, Text, lookup, insert, lookup-insert_self, lookup-insert_ne, ==_refl, ==_ne, text_eq,
  Option-cases, length, set, List, [], ◌∷◌, ◌++◌, none, some, false, ok, pos, ◌≡◌, ◌≢◌, refl, ◌∙◌,
  subst, inl, inr, arith,
}
use phylax.Change.{Change}
use phylax.Broadcast.{
  Subscription, Broadcaster, entries, subscribe, unsubscribe, publish, receive, Received,
}
use phylax.Broadcast.Valid.{IsOpen, IsValid, Live-keep, Live-lookup, subscribe-IsValid}
use phylax.Broadcast.Publish.{charged, publish_lem, unsubscribe_lem}
use phylax.Broadcast.History.{set-IsOpen}

-- An id is registered with the channel at an address, or not registered.
abbrev pub HasEntry : Broadcaster → Text → ℕ → Type 0
HasEntry b id a =
    (sub : Subscription) × (lookup id (entries b.subscribers) ≡ some sub) × (sub.ch ≡ a)

abbrev pub NoEntry : Broadcaster → Text → Type 0
NoEntry b id = lookup id (entries b.subscribers) ≡ none

-- A call that keeps the broadcaster valid, and the entries of the ids that it spares.
pub record Keeps (Spared : Text → Type 0) (b b' : Broadcaster) : Type 0 where
  pub valid : IsValid b'
  pub entry : (id : Text) (a : ℕ) → Spared id → HasEntry b id a → HasEntry b' id a
  pub absent : (id : Text) → Spared id → NoEntry b id → NoEntry b' id

pub subscribe-Keeps :
    (j : Text) (size : ℕ) (b : Broadcaster)
    → IsValid b
    → (b' : Broadcaster) × (subscribe j (pos size) b ≡ ok (length b.heap, b'))
      × Keeps (λ id. j ≢ id) b b'
      × HasEntry b' j (length b.heap)
unfolding subscribe
subscribe-Keeps j size b v =
    let b' : Broadcaster = record {
      heap = b.heap ++ record { capacity = size; buffer = []; is_closed = false } ∷ [];
      subscribers =
          some (insert j (record { ch = length b.heap; dropped = 0 }) (entries b.subscribers));
    } in
    let (b1, done, valid) = subscribe-IsValid j size b v in
    let same : b1 ≡ b' = cc done in
    (
      b',
      refl,
      record {
        valid = subst IsValid same valid;
        entry = λ id a ne (sub, e, at).
            (sub, lookup-insert_ne j id _ (entries b.subscribers) ne ∙ e, at);
        absent = λ id ne e. lookup-insert_ne j id _ (entries b.subscribers) ne ∙ e;
      },
      (_, lookup-insert_self j _ (entries b.subscribers), refl),
    )

pub unsubscribe-Keeps :
    (j : Text) (b : Broadcaster)
    → IsValid b
    → (b' : Broadcaster) × (unsubscribe j b ≡ ok b') × Keeps (λ id. j ≢ id) b b' × NoEntry b' j
unsubscribe-Keeps j b v = elim (Option-cases (lookup j (entries b.subscribers))) [
  | inl e ↦ (
    b,
    (unsubscribe_lem j b v).0 e,
    record { valid = v; entry = λ id a ne h. h; absent = λ id ne h. h },
    e,
  )
  | inr (sub, e) ↦
      let (ch, at, _) = Live-lookup b.heap j sub (entries b.subscribers) v e in
      let (b', done, valid, _, _, left) = (unsubscribe_lem j b v).1 sub ch e at in
      (
        b',
        done,
        record {
          valid = valid;
          entry = λ id a ne (s, q, r). (s, left id ∙ rw (==_ne j id ne) q, r);
          absent = λ id ne q. left id ∙ rw (==_ne j id ne) q;
        },
        left j ∙ rw (==_refl j) refl,
      )
]

pub publish-Keeps :
    (x : Change) (b : Broadcaster)
    → IsValid b
    → (b' : Broadcaster) × (publish x b ≡ ok b') × Keeps (λ id. Unit {0}) b b'
publish-Keeps x b v =
    let (b', done, valid, delivers, _, same_ids) = publish_lem x b v in
    (
      b',
      done,
      record {
        valid = valid;
        entry = λ id a u (sub, e, q).
            let (ch, at, _) = Live-lookup b.heap id sub (entries b.subscribers) v e in
            (charged ch sub, (delivers id sub ch e at).0, ground (arith, q));
        absent = λ id u e. same_ids id e;
      },
    )

-- A read of an open channel does not find it finished.
pub receive-Keeps :
    (a : ℕ) (b : Broadcaster)
    → IsValid b
    → IsOpen b.heap a
    → (b' : Broadcaster) × (r : Received) × (receive a b ≡ ok (b', r))
      × Keeps (λ id. Unit {0}) b b'
      × (r ≢ Received.finished)
receive-Keeps a b v (ch, at, open_) = by_buffer ch.buffer refl
  where
    by_buffer :
        (buffer : List Change)
        → ch.buffer ≡ buffer
        → (b' : Broadcaster) × (r : Received) × (receive a b ≡ ok (b', r))
          × Keeps (λ id. Unit {0}) b b'
          × (r ≢ Received.finished)
    by_buffer [] e = (
      b,
      Received.blocked,
      unfold receive in ground (arith, at, e, open_),
      record { valid = v; entry = λ id a u h. h; absent = λ id u h. h },
      λ q. cc,
    )
    by_buffer (x ∷ rest) e = (
      record b { heap = set b.heap a (record ch { buffer = rest }) },
      Received.change x,
      unfold receive in ground (arith, at, e),
      record {
        valid =
            Live-keep b.heap _ (entries b.subscribers)
              (set-IsOpen b.heap a ch (record ch { buffer = rest }) at refl) v;
        entry = λ id a u h. h;
        absent = λ id u h. h;
      },
      λ q. cc,
    )
