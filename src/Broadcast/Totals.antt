-- ===== src/Broadcast/Totals.antt =====
-- broadcast.go: every change that is offered to a subscriber is in a buffer, was read, or is counted.
use phylax.Base.{
  ℕ, zero, load, try_send, ◌+◌, ◌%◌, suc, word_mod, add64, Text, Map, length, length-append,
  get_elem?, set, All, List, [], ◌∷◌, ◌++◌, Option, Option-cases, none, some, ok, panic, >>=-eq-ok,
  Chan, push_back, ◌≡◌, refl, sym, ◌∙◌, ap, inl, inr, arith,
}
use phylax.Change.{Change}
use phylax.Broadcast.{
  Subscription, Broadcaster, entries, sent, deliver, deliver_all, publish, subscriber_count,
  changes_dropped, total_dropped,
}
use phylax.Broadcast.Valid.{IsValid}
use phylax.Broadcast.History.{
  Op, subscribes, unsubscribes, publishes, receives, World, step, run, receives_lem, step-IsValid,
}
use phylax.Broadcast.Views.Counts.{sum_dropped, total-sum_dropped}

-- The changes that wait in any buffer.
abbrev pub stored : List (Chan Change) → ℕ
stored [] = 0
stored (ch ∷ heap) = length ch.buffer + stored heap

stored-set :
    (heap : List (Chan Change)) (a : ℕ) (ch ch' : Chan Change)
    → get_elem? heap a ≡ some ch
    → stored (set heap a ch') + length ch.buffer ≡ stored heap + length ch'.buffer
stored-set [] a ch ch' e = absurd (cc)
stored-set (x ∷ heap) zero ch ch' e = let same : x ≡ ch = cc e in rw same (omega arith)
stored-set (x ∷ heap) (suc a) ch ch' e = omega (arith, stored-set heap a ch ch' e)

load-eq-ok :
    (heap : List (Chan Change)) (a : ℕ) (ch : Chan Change)
    → load heap a ≡ ok ch
    → get_elem? heap a ≡ some ch
load-eq-ok heap a ch e = by_entry (get_elem? heap a) e
  where
    by_entry :
        (o : Option (Chan Change)) → elim o [ none ↦ panic | some ch ↦ ok ch ] ≡ ok ch → o ≡ some ch
    by_entry none e = absurd (cc)
    by_entry (some c) e = cc

-- Each offer ends in a buffer or in the counter.
deliver-stored :
    (change : Change) (heap heap' : List (Chan Change)) (sub sub' : Subscription)
    → deliver change heap sub ≡ ok (heap', sub')
    → (stored heap' + sub'.dropped) % word_mod ≡ (stored heap + sub.dropped + 1) % word_mod
unfolding deliver
deliver-stored change heap heap' sub sub' e =
    let (ch, loaded, e1) = >>=-eq-ok (load heap sub.ch) _ e in
    let (outcome, offered_, e2) = >>=-eq-ok (try_send change ch) _ e1 in
    by_outcome ch (load-eq-ok heap sub.ch ch loaded) outcome offered_ e2
  where
    by_outcome :
        (ch : Chan Change)
        → get_elem? heap sub.ch ≡ some ch
        → (outcome : Option (Chan Change)) → try_send change ch ≡ ok outcome
        → ok (sent heap sub outcome) ≡ ok (heap', sub')
        → (stored heap' + sub'.dropped) % word_mod ≡ (stored heap + sub.dropped + 1) % word_mod
    by_outcome ch at none t e =
        let h : heap ≡ heap' = cc e in
        let s : record sub { dropped = add64 sub.dropped 1 } ≡ sub' = cc e in
        omega (arith, ap stored h, ap (λ x. x.dropped) s)
    by_outcome ch at (some ch') t e =
        let h : set heap sub.ch ch' ≡ heap' = cc e in
        let s : sub ≡ sub' = cc e in
        let p : ch' ≡ push_back change ch = ground arith in
        omega (
          arith,
          ap stored h,
          ap (λ x. x.dropped) s,
          stored-set heap sub.ch ch ch' at,
          ap (λ c. length c.buffer) p,
          length-append ch.buffer (change ∷ []),
        )

deliver_all-stored :
    (change : Change) (heap heap' : List (Chan Change)) (subs subs' : Map Text Subscription)
    → deliver_all change heap subs ≡ ok (heap', subs')
    → (length subs' ≡ length subs)
      × ((stored heap' + sum_dropped subs') % word_mod
          ≡ (stored heap + sum_dropped subs + length subs) % word_mod)
unfolding deliver_all sum_dropped
deliver_all-stored change heap heap' [] subs' e =
    let h : heap ≡ heap' = cc e in
    let s : [] ≡ subs' = cc e in (ap length (sym s), omega (arith, ap stored h, ap sum_dropped s))
deliver_all-stored change heap heap' ((id, sub) ∷ subs) subs' e =
    let ((heap1, sub1), e1, rest) = >>=-eq-ok (deliver change heap sub) _ e in
    let ((heap2, subs2), e2, last) = >>=-eq-ok (deliver_all change heap1 subs) _ rest in
    let h : heap2 ≡ heap' = cc last in
    let s : ((id, sub1) ∷ subs2) ≡ subs' = cc last in
    let (n, d) = deliver_all-stored change heap1 heap2 subs subs2 e2 in
    (
      ap length (sym s) ∙ ap suc n,
      omega (arith, d, deliver-stored change heap heap1 sub sub1 e1, ap stored h, ap sum_dropped s),
    )

-- What is accounted for: in buffers, or counted as dropped.
abbrev pub accounted : Broadcaster → ℕ
accounted b = stored b.heap + changes_dropped b

publish-stored :
    (change : Change) (b b' : Broadcaster)
    → publish change b ≡ ok b'
    → (subscriber_count b' ≡ subscriber_count b)
      × (accounted b' % word_mod ≡ (accounted b + subscriber_count b) % word_mod)
unfolding publish subscriber_count changes_dropped
publish-stored change b b' e = by_map b.subscribers e
  where
    by_map :
        (s : Option (Map Text Subscription))
        → publish change (record b { subscribers = s }) ≡ ok b'
        → (subscriber_count b' ≡ length (entries s))
          × (accounted b' % word_mod
              ≡ (stored b.heap + total_dropped (entries s) 0 + length (entries s)) % word_mod)
    by_map none e =
        let same : record b { subscribers = none } ≡ b' = cc e in
        (ap subscriber_count (sym same), omega (arith, ap accounted same))
    by_map (some subs) e =
        let ((heap, subs'), done, last) = >>=-eq-ok (deliver_all change b.heap subs) _ e in
        let same : record { heap = heap; subscribers = some subs' } ≡ b' = cc last in
        let (n, d) = deliver_all-stored change b.heap heap subs subs' done in
        (
          ap subscriber_count (sym same) ∙ n,
          omega (
            arith,
            ap accounted same,
            d,
            total-sum_dropped subs 0 (omega arith),
            total-sum_dropped subs' 0 (omega arith),
          ),
        )

-- Publications and reads.
abbrev pub IsTraffic : Op → Type 0
IsTraffic (publishes c) = Unit
IsTraffic (receives a) = Unit
IsTraffic op = ⊥

-- With what was read.
abbrev pub accounted_in : World → ℕ
accounted_in w = accounted w.broadcaster + length w.taken

receives-stored :
    (a : ℕ) (w w' : World)
    → step (receives a) w ≡ ok w'
    → (subscriber_count w'.broadcaster ≡ subscriber_count w.broadcaster)
      × (accounted_in w' ≡ accounted_in w)
unfolding step subscriber_count changes_dropped
receives-stored a w w' e = elim (Option-cases (get_elem? w.broadcaster.heap a)) [
  | inl absent ↦
      let unread : step (receives a) w ≡ ok w = rw (absent, step) refl in
      let same : w ≡ w' = cc (e, unread) in
      (ap (λ x. subscriber_count x.broadcaster) (sym same), ap accounted_in (sym same))
  | inr (ch, at) ↦ by_buffer ch ch.buffer at refl
]
  where
    by_buffer :
        (ch : Chan Change) (buffer : List Change)
        → get_elem? w.broadcaster.heap a ≡ some ch
        → ch.buffer ≡ buffer
        → (subscriber_count w'.broadcaster ≡ subscriber_count w.broadcaster)
          × (accounted_in w' ≡ accounted_in w)
    by_buffer ch [] at b =
        let same : w ≡ w' = cc (e, receives_lem a w ch [] at b) in
        (ap (λ x. subscriber_count x.broadcaster) (sym same), ap accounted_in (sym same))
    by_buffer ch (c ∷ rest) at b =
        let front : Chan Change = record ch { buffer = rest } in
        let next : World = record {
          broadcaster = record w.broadcaster { heap = set w.broadcaster.heap a front };
          taken = w.taken ++ (a, c) ∷ [];
        } in
        let same : next ≡ w' = cc (e, receives_lem a w ch (c ∷ rest) at b) in
        (
          ap (λ x. subscriber_count x.broadcaster) (sym same),
          omega (
            arith,
            ap accounted_in same,
            stored-set w.broadcaster.heap a ch front at,
            ap length b,
            length-append w.taken ((a, c) ∷ []),
          ),
        )

-- What a number of subscribers is offered.
abbrev pub offers : ℕ → List Op → ℕ
offers n [] = 0
offers n (publishes c ∷ ops) = n + offers n ops
offers n (op ∷ ops) = offers n ops

step-stored :
    (op : Op) (w w' : World)
    → IsTraffic op
    → step op w ≡ ok w'
    → (subscriber_count w'.broadcaster ≡ subscriber_count w.broadcaster)
      × (accounted_in w' % word_mod
          ≡ (accounted_in w + offers (subscriber_count w.broadcaster) (op ∷ [])) % word_mod)
unfolding step
step-stored (subscribes id size) w w' t e = elim t [ ]
step-stored (unsubscribes id) w w' t e = elim t [ ]
step-stored (receives a) w w' t e = let (n, q) = receives-stored a w w' e in (n, omega (arith, q))
step-stored (publishes c) w w' t e =
    let (b, done, last) = >>=-eq-ok (publish c w.broadcaster) _ e in
    let same : record w { broadcaster = b } ≡ w' = cc last in
    let (n, q) = publish-stored c w.broadcaster b done in
    (
      ap (λ x. subscriber_count x.broadcaster) (sym same) ∙ n,
      omega (arith, ap accounted_in same, q),
    )

offers-cons :
    (n : ℕ) (op : Op) (ops : List Op) → offers n (op ∷ ops) ≡ offers n (op ∷ []) + offers n ops
offers-cons n (subscribes id size) ops = omega arith
offers-cons n (unsubscribes id) ops = omega arith
offers-cons n (publishes c) ops = omega arith
offers-cons n (receives a) ops = omega arith

-- In any history of publications and reads on a valid broadcaster, every change that was offered to a
-- subscriber is accounted for, once: what waits in the buffers, what was read and ChangesDropped grow
-- together, modulo 2^64, by SubscriberCount for each publication, and SubscriberCount stays the same.
pub run-accounted :
    (ops : List Op) (w : World)
    → IsValid w.broadcaster
    → All IsTraffic ops
    → (w' : World) × (run ops w ≡ ok w')
      × (subscriber_count w'.broadcaster ≡ subscriber_count w.broadcaster)
      × (accounted_in w' % word_mod
          ≡ (accounted_in w + offers (subscriber_count w.broadcaster) ops) % word_mod)
unfolding run
run-accounted [] w v t = (w, refl, refl, omega arith)
run-accounted (op ∷ ops) w v t =
    let (w1, e1, v1) = step-IsValid op w v in
    let (n1, q1) = step-stored op w w1 t.0 e1 in
    let (w2, e2, n2, q2) = run-accounted ops w1 v1 t.1 in
    (
      w2,
      rw e1 e2,
      n2 ∙ n1,
      omega (
        arith,
        q1,
        q2,
        ap (λ n. offers n ops) n1,
        offers-cons (subscriber_count w.broadcaster) op ops,
      ),
    )
