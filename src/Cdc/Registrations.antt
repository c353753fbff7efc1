-- ===== src/Cdc/Registrations.antt =====
-- OnChange, unsubscribeAll and publishChange of cdc.go.
use phylax.Base.{
  ℕ, ◌+◌, ◌≤◌, if◌then◌else◌, Bool, true, false, Bool-cases, Option-cases, Text, codes,
  print_ℕ-injective, append-cancel_left, Map, lookup, insert, lookup-insert_self,
  get_elem?-append_last, length, ◌==◌, ==_refl, text_eq, text_beq, text_beq_iff, List, [], ◌∷◌,
  ◌++◌, get_elem?, none, some, some_inj, ok, Chan, pos, ◌≡◌, refl, sym, ◌∙◌, ap, subst, inl, inr,
  arith, ℕ_discrete,
}
use phylax.Change.{Change}
use phylax.Broadcast.{Subscription, Broadcaster, entries, subscribe, unsubscribe}
use phylax.Broadcast.Valid.{IsValid, Live-lookup, subscribe-IsValid}
use phylax.Broadcast.Publish.{unsubscribe_lem}
use phylax.Cdc.{Cdc, on_change, registration_id, ids_of, unsubscribe_ids, unsubscribe_all, contains}

-- Different registrations have different ids.
pub registration_id-injective : (m n : ℕ) → registration_id m ≡ registration_id n → m ≡ n
registration_id-injective m n e = print_ℕ-injective m n (append-cancel_left (codes "onchange-") e)

-- The channel of a subscription is closed.
abbrev pub Closed : Broadcaster → ℕ → Type 0
Closed b a = (ch : Chan Change) × (get_elem? b.heap a ≡ some ch) × (ch.is_closed ≡ true)

-- What one Unsubscribe leaves: the other ids, closed channels closed, and what the channels hold.
pub record Removed (removed : Text → Bool) (b b' : Broadcaster) : Type 0 where
  pub valid : IsValid b'
  pub left :
      (j : Text)
      → lookup j (entries b'.subscribers)
        ≡ (if removed j then none else lookup j (entries b.subscribers))
  pub closes :
      (j : Text) (sub : Subscription)
      → removed j ≡ true
      → lookup j (entries b.subscribers) ≡ some sub
      → Closed b' sub.ch
  pub keeps : (a : ℕ) → Closed b a → Closed b' a
  pub buffers :
      (a : ℕ) (ch : Chan Change)
      → get_elem? b.heap a ≡ some ch
      → (closed : Bool) × (get_elem? b'.heap a ≡ some (record ch { is_closed = closed }))

Removed-absent :
    (id : Text) (b : Broadcaster)
    → IsValid b
    → lookup id (entries b.subscribers) ≡ none
    → Removed (λ j. id == j) b b
Removed-absent id b v e = record {
  valid = v;
  left = λ j. elim (Bool-cases (text_beq id j)) [
    | inl same ↦
        rw same
          (subst (λ i. lookup i (entries b.subscribers) ≡ none) ((text_beq_iff id j).0 same) e)
    | inr ne ↦ rw ne refl
  ];
  closes = λ j sub same e'.
      absurd (cc (e, e', ap (λ i. lookup i (entries b.subscribers)) ((text_beq_iff id j).0 same)));
  keeps = λ a h. h;
  buffers = λ a ch e. (ch.is_closed, e);
}

same_sub :
    (id j : Text) (sub sub' : Subscription) (b : Broadcaster)
    → text_beq id j ≡ true
    → lookup id (entries b.subscribers) ≡ some sub
    → lookup j (entries b.subscribers) ≡ some sub'
    → sub ≡ sub'
same_sub id j sub sub' b same e e' =
    cc (e, e', ap (λ i. lookup i (entries b.subscribers)) ((text_beq_iff id j).0 same))

unsubscribe-Removed :
    (id : Text) (b : Broadcaster)
    → IsValid b
    → (b' : Broadcaster) × (unsubscribe id b ≡ ok b') × Removed (λ j. id == j) b b'
unsubscribe-Removed id b v = elim (Option-cases (lookup id (entries b.subscribers))) [
  | inl e ↦ (b, (unsubscribe_lem id b v).0 e, Removed-absent id b v e)
  | inr (sub, e) ↦
      let (ch, at, open_) = Live-lookup b.heap id sub (entries b.subscribers) v e in
      let (b', done, valid, closed, others, left) = (unsubscribe_lem id b v).1 sub ch e at in
      (
        b',
        done,
        record {
          valid = valid;
          left = left;
          closes = λ j sub' same e'.
              subst (λ s. Closed b' s.ch) (same_sub id j sub sub' b same e e')
                (record ch { is_closed = true }, closed, refl);
          keeps = λ a (c, at_a, shut). elim (ℕ_discrete sub.ch a) [
            | yes p ↦ subst (Closed b') p (record ch { is_closed = true }, closed, refl)
            | no n ↦ (c, others a n ∙ at_a, shut)
          ];
          buffers = λ a c at_a. elim (ℕ_discrete sub.ch a) [
            | yes p ↦ (
              true,
              subst (λ i. get_elem? b'.heap i ≡ some (record c { is_closed = true })) p
                  (closed
                    ∙ ap (λ (d : Chan Change). some (record d { is_closed = true }))
                        (some_inj (sym at ∙ ap (get_elem? b.heap) p ∙ at_a))),
            )
            | no n ↦ (c.is_closed, others a n ∙ at_a)
          ];
        },
      )
]

-- Every id of a list unregistered, in any order.
unsubscribe_ids-Removed :
    (ids : List Text) (b : Broadcaster)
    → IsValid b
    → (b' : Broadcaster) × (unsubscribe_ids ids b ≡ ok b') × Removed (contains ids) b b'
unfolding unsubscribe_ids
unsubscribe_ids-Removed [] b v = (
  b,
  refl,
  record {
    valid = v;
    left = λ j. refl;
    closes = λ j sub h e. absurd (cc);
    keeps = λ a h. h;
    buffers = λ a ch e. (ch.is_closed, e);
  },
)
unsubscribe_ids-Removed (id ∷ ids) b v =
    let (b1, e1, r1) = unsubscribe-Removed id b v in
    let (b2, e2, r2) = unsubscribe_ids-Removed ids b1 r1.valid in
    (
      b2,
      rw e1 e2,
      record {
        valid = r2.valid;
        left = λ j. r2.left j ∙ ground (arith, r1.left j);
        closes = λ j sub h e. elim (Bool-cases (text_beq id j)) [
          | inl same ↦ r2.keeps sub.ch (r1.closes j sub same e)
          | inr ne ↦ r2.closes j sub (ground (arith, h, ne)) (r1.left j ∙ rw ne e)
        ];
        keeps = λ a h. r2.keeps a (r1.keeps a h);
        buffers = λ a ch e.
            let (closed, e1) = r1.buffers a ch e in
            r2.buffers a (record ch { is_closed = closed }) e1;
      },
    )

-- When Start shuts down a client with a valid broadcaster, unsubscribeAll returns: the channel of
-- every registration of the client is closed, so that its goroutine ends, the ids of the client
-- and no other are removed from the broadcaster, which stays valid, no channel
-- loses a change that it holds, and the client has no registration left.
pub unsubscribe_all_lem :
    (c : Cdc)
    → IsValid c.broadcaster
    → (c' : Cdc) × (unsubscribe_all c ≡ ok c')
      × Removed (contains (ids_of c.sub_ids)) c.broadcaster c'.broadcaster
      × (c'.sub_ids ≡ [])
unfolding unsubscribe_all
unsubscribe_all_lem c v =
    let (b, e, r) = unsubscribe_ids-Removed (ids_of c.sub_ids) c.broadcaster v in
    (record c { broadcaster = b; sub_ids = [] }, rw e refl, r, refl)

-- The ids of a client are those of its registrations so far.
pub record Registered (c : Cdc) : Type 0 where
  pub known :
      (id : Text)
      → contains (ids_of c.sub_ids) id ≡ true
      → (n : ℕ) × (n ≤ c.next_sub_id) × (id ≡ registration_id n)
  pub valid : IsValid c.broadcaster

contains-insert :
    (id j : Text) (m : Map Text (Unit {0}))
    → contains (ids_of (insert id tt m)) j ≡ (if id == j then true else contains (ids_of m) j)
unfolding insert
contains-insert id j [] = ground arith
contains-insert id j ((i, u) ∷ m) =
    ground (arith, contains-insert id j m, text_beq_iff id j, text_beq_iff i id, text_beq_iff i j)

Registered-new :
    (c : Cdc)
    → Registered c
    → contains (ids_of c.sub_ids) (registration_id (c.next_sub_id + 1)) ≡ false
Registered-new c r =
    elim (Bool-cases (contains (ids_of c.sub_ids) (registration_id (c.next_sub_id + 1)))) [
      | inl there ↦
          let (n, h, e) = r.known (registration_id (c.next_sub_id + 1)) there in
          absurd (omega (arith, h, registration_id-injective (c.next_sub_id + 1) n e))
      | inr new ↦ new
    ]

known-insert :
    (c : Cdc)
    → Registered c
    → (id : Text)
    → contains (ids_of (insert (registration_id (c.next_sub_id + 1)) tt c.sub_ids)) id ≡ true
    → (n : ℕ) × (n ≤ c.next_sub_id + 1) × (id ≡ registration_id n)
known-insert c r id h = elim (Bool-cases (text_beq (registration_id (c.next_sub_id + 1)) id)) [
  | inl same ↦ (
    c.next_sub_id + 1,
    omega arith,
    sym ((text_beq_iff (registration_id (c.next_sub_id + 1)) id).0 same),
  )
  | inr ne ↦
      let (n, l, e) = r.known id (
        sym (contains-insert (registration_id (c.next_sub_id + 1)) id c.sub_ids ∙ rw ne refl)
        ∙ h) in
      (n, omega (arith, l), e)
]

-- OnChange of a client with a buffer size that is not negative returns: it registers a new channel,
-- which is open, empty and of that size, under an id that none of the client's registrations had
-- before. What makes this so is kept: the ids are those of the registrations so far, and the
-- broadcaster is valid.
pub on_change_lem :
    (c : Cdc) (size : ℕ)
    → c.cfg.change_buffer_size ≡ pos size
    → Registered c
    → let id = registration_id (c.next_sub_id + 1) in
      (ch : ℕ) × (c' : Cdc) × (on_change c ≡ ok (ch, c'))
      × (contains (ids_of c.sub_ids) id ≡ false)
      × (contains (ids_of c'.sub_ids) id ≡ true)
      × (lookup id (entries c'.broadcaster.subscribers) ≡ some (record { ch = ch; dropped = 0 }))
      × (get_elem? c'.broadcaster.heap ch
          ≡ some (record { capacity = size; buffer = []; is_closed = false }))
      × (c'.cfg ≡ c.cfg)
      × Registered c'
unfolding on_change subscribe
on_change_lem c size e r =
    let id : Text = registration_id (c.next_sub_id + 1) in
    let b = c.broadcaster in
    let ch : Chan Change = record { capacity = size; buffer = []; is_closed = false } in
    let b' : Broadcaster = record {
      heap = b.heap ++ ch ∷ [];
      subscribers =
          some (insert id (record { ch = length b.heap; dropped = 0 }) (entries b.subscribers));
    } in
    let (b1, done, valid) = subscribe-IsValid id size b r.valid in
    let c' : Cdc = record c {
      broadcaster = b';
      sub_ids = insert id tt c.sub_ids;
      next_sub_id = c.next_sub_id + 1;
    } in
    let same : b1 ≡ b' = cc done in
    (
      length b.heap,
      c',
      rw e refl,
      Registered-new c r,
      contains-insert id id c.sub_ids ∙ rw (==_refl {K = Text} id) refl,
      lookup-insert_self id _ (entries b.subscribers),
      get_elem?-append_last b.heap ch,
      refl,
      record { known = known-insert c r; valid = subst IsValid same valid },
    )
