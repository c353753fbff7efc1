-- ===== src/Broadcast/History/Fates/Tracking.antt =====
-- broadcast.go: one subscriber over any history of calls and reads.
use phylax.Base.{
  ℕ, Text, lookup, lookup-insert_ne, lookup-delete, delete, ==_ne, Option-cases, length, get_elem?,
  set, get_elem?-set_self, get_elem?-set_ne, get_elem?-lt, get_elem?-append_left, List, [], ◌∷◌,
  ◌++◌, append-nil, append_assoc, some, ok, text_eq, nat_eq, Chan, ◌≡◌, ◌≢◌, refl, sym, ◌∙◌, ap,
  inl, inr, arith, ℕ_discrete, subst,
}
use phylax.Change.{Change}
use phylax.Broadcast.{entries, subscribe}
use phylax.Broadcast.Valid.{IsValid, Fresh-delete_self, Fresh-lookup, Live-lookup}
use phylax.Broadcast.Publish.{charged, offered, publish_lem, unsubscribe_lem}
use phylax.Broadcast.History.{
  Op, subscribes, unsubscribes, publishes, receives, World, step, run, receives_lem, step-IsValid,
}
use phylax.Broadcast.History.Fates.{
  Fates, leaves, published_of, kept_of, taken_from, publications, Leaves, Tracks, lost_of-append,
  taken_from-last, taken_from-other, kept_of-offered, fits-offered, kept_of-append,
  published_of-append, fate_of, Extends, Goes-nil, Goes-append, lost_of-offered, IsExact-offered,
  capacity-offered, published_of-fate,
}

module _ (id : Text) (a : ℕ) (w : World) (fates : Fates) (t : Tracks id a w fates)
    (v : IsValid w.broadcaster) where
  -- These fates have come to the subscriber since.
  abbrev Goes : World → Fates → Type 0
  Goes w' more = (t' : Tracks id a w' (fates ++ more)) × Extends more t.ch t'.ch

  stays : (w' : World) → (t' : Tracks id a w' fates) → t'.ch ≡ t.ch → Goes w' []
  stays w' t' e = Goes-nil t.ch id a w' fates t' e

  -- Publishing extends the fates by one.
  publishes-Tracks :
      (change : Change)
      → (w' : World) × (step (publishes change) w ≡ ok w') × Goes w' (fate_of change t.ch ∷ [])
  unfolding step
  publishes-Tracks change =
      let (b, e, _, delivers, _, _) = publish_lem change w.broadcaster v in
      let (l, h) = delivers id t.sub t.ch t.found (rw t.address t.at) in
      (
        record w { broadcaster = b },
        rw e,
        (
          record {
            sub = charged t.ch t.sub;
            ch = offered change t.ch;
            found = l;
            address = ground (arith, t.address);
            at = rw (← t.address) h;
            kept = kept_of-offered change t.ch (taken_from a w.taken) fates t.kept;
            lost = lost_of-offered change t.ch t.sub fates t.lost;
            fits = ground (arith, fits-offered change t.ch t.fits);
          },
          (IsExact-offered change t.ch t.fits, capacity-offered change t.ch),
        ),
      )

  -- Another subscription goes to another address.
  subscribes-Tracks :
      (j : Text) (size : ℕ)
      → j ≢ id
      → (w' : World) × (step (subscribes j size) w ≡ ok w') × Goes w' []
  unfolding step subscribe
  subscribes-Tracks j size ne = (
    _,
    refl,
    stays _
        (record {
          sub = t.sub;
          ch = t.ch;
          found = lookup-insert_ne j id _ (entries w.broadcaster.subscribers) ne ∙ t.found;
          address = t.address;
          at =
              get_elem?-append_left w.broadcaster.heap _ a (get_elem?-lt w.broadcaster.heap a t.at)
              ∙ t.at;
          kept = t.kept;
          lost = t.lost;
          fits = t.fits;
        })
        refl,
  )

  unsubscribes-Tracks :
      (j : Text) → j ≢ id → (w' : World) × (step (unsubscribes j) w ≡ ok w') × Goes w' []
  unfolding step
  unsubscribes-Tracks j ne = elim (Option-cases (lookup j (entries w.broadcaster.subscribers))) [
    | inl e ↦ (w, rw ((unsubscribe_lem j w.broadcaster v).0 e), stays w t refl)
    | inr (s, e) ↦
        let subs = entries w.broadcaster.subscribers in
        let (ch, at, o) = Live-lookup w.broadcaster.heap j s subs v e in
        let (b, done, v', closed, others, ids) = (unsubscribe_lem j w.broadcaster v).1 s ch e at in
        let still : lookup id (delete j subs) ≡ some t.sub =
          lookup-delete j id subs ∙ rw (==_ne j id ne) t.found in
        let apart : s.ch ≢ t.sub.ch =
          Fresh-lookup s.ch id t.sub (delete j subs)
            (Fresh-delete_self w.broadcaster.heap j s subs v e) still in
        (
          record w { broadcaster = b },
          rw done,
          stays (record w { broadcaster = b })
              (record {
                sub = t.sub;
                ch = t.ch;
                found = ids id ∙ rw (==_ne j id ne) t.found;
                address = t.address;
                at = others a (λ q. apart (q ∙ sym t.address)) ∙ t.at;
                kept = t.kept;
                lost = t.lost;
                fits = t.fits;
              })
              refl,
        )
  ]

  -- A read of this address moves the front of the buffer to what was read.
  reads_self :
      (c : Change) (rest : List Change)
      → t.ch.buffer ≡ c ∷ rest
      → Tracks id a
          (record {
            broadcaster = record w.broadcaster {
              heap = set w.broadcaster.heap a (record t.ch { buffer = rest });
            };
            taken = w.taken ++ (a, c) ∷ [];
          })
          (fates ++ leaves ∷ [])
  reads_self c rest e = record {
    sub = t.sub;
    ch = record t.ch { buffer = rest };
    found = t.found;
    address = t.address;
    at = get_elem?-set_self w.broadcaster.heap a _ (get_elem?-lt w.broadcaster.heap a t.at);
    kept =
        ap (λ l. l ++ rest) (taken_from-last a c w.taken)
        ∙ append_assoc (taken_from a w.taken) (c ∷ []) rest
        ∙ ap (λ l. taken_from a w.taken ++ l) (sym e)
        ∙ t.kept
        ∙ sym (append-nil (kept_of fates))
        ∙ sym (kept_of-append fates (leaves ∷ []));
    lost = omega (arith, t.lost, lost_of-append fates (leaves ∷ []));
    fits = omega (arith, ap (length {A = Change}) e, t.fits);
  }

  reads_other :
      (x : ℕ) (ch : Chan Change) (c : Change)
      → x ≢ a
      → Tracks id a
          (record {
            broadcaster = record w.broadcaster { heap = set w.broadcaster.heap x ch };
            taken = w.taken ++ (x, c) ∷ [];
          })
          fates
  reads_other x ch c ne = record {
    sub = t.sub;
    ch = t.ch;
    found = t.found;
    address = t.address;
    at = get_elem?-set_ne w.broadcaster.heap x a ch ne ∙ t.at;
    kept = ap (λ l. l ++ t.ch.buffer) (taken_from-other a x c w.taken ne) ∙ t.kept;
    lost = t.lost;
    fits = t.fits;
  }

  receives-Tracks :
      (x : ℕ)
      → (w' : World) × (more : Fates) × (step (receives x) w ≡ ok w')
        × Goes w' more
        × (published_of more ≡ [])
  unfolding step reads_self reads_other
  receives-Tracks x = elim (Option-cases (get_elem? w.broadcaster.heap x)) [
    | inl e ↦ (w, [], rw (e, step), stays w t refl, refl)
    | inr (ch, at) ↦ go ch ch.buffer at refl
  ]
    where
      Ends : ℕ → Type 0
      Ends y =
          (w' : World) × (more : Fates) × (step (receives y) w ≡ ok w')
          × Goes w' more
          × (published_of more ≡ [])

      go :
          (ch : Chan Change) (buffer : List Change)
          → get_elem? w.broadcaster.heap x ≡ some ch
          → ch.buffer ≡ buffer
          → Ends x
      go ch [] at e = (w, [], receives_lem x w ch [] at e, stays w t refl, refl)
      go ch (c ∷ rest) at e = elim (ℕ_discrete x a) [
        | yes p ↦
            let same : ch ≡ t.ch = ground (arith, at, p, t.at) in
            let e' : t.ch.buffer ≡ c ∷ rest = ap (λ k. k.buffer) (sym same) ∙ e in
            subst Ends (sym p) (
              _,
              leaves ∷ [],
              receives_lem a w t.ch (c ∷ rest) t.at e',
              (reads_self c rest e', (rw e' refl, refl)),
              refl,
            )
        | no ne ↦ (
          _,
          [],
          receives_lem x w ch (c ∷ rest) at e,
          stays _ (reads_other x (record ch { buffer = rest }) c ne) refl,
          refl,
        )
      ]

IsValid-after :
    (op : Op) (w w' : World) → IsValid w.broadcaster → step op w ≡ ok w' → IsValid w'.broadcaster
IsValid-after op w w' v e =
    let (w1, e1, v1) = step-IsValid op w v in
    let same : w1 ≡ w' = cc in subst (λ (u : World). IsValid u.broadcaster) same v1

-- While an id stays registered, in a valid broadcaster and over any history of calls and reads, its
-- fates grow by exactly the changes published and the reads of its channel: what its goroutine read and
-- what waits in its buffer are together the kept changes, in the order of publication, the counter of its
-- subscription is the number lost modulo 2^64, and its buffer stays within its capacity, which is what
-- it was. A published change is lost exactly when as many changes wait as the buffer holds, and is kept
-- when fewer do.
pub run-Tracks :
    (ops : List Op) (id : Text) (a : ℕ) (w : World) (fates : Fates)
    → IsValid w.broadcaster
    → (t : Tracks id a w fates) → Leaves id ops
    → (w' : World) × (more : Fates) × (run ops w ≡ ok w')
      × ((t' : Tracks id a w' (fates ++ more)) × Extends more t.ch t'.ch)
      × (published_of more ≡ publications ops)
unfolding run
run-Tracks [] id a w fates v t l = (w, [], refl, Goes-nil t.ch id a w fates t refl, refl)
run-Tracks (subscribes j size ∷ ops) id a w fates v t l =
    let (w1, e, (t1, x1)) = subscribes-Tracks id a w fates t v j size l.0 in
    let (w2, more, e2, (t2, x2), p) =
      run-Tracks ops id a w1 (fates ++ []) (IsValid-after (subscribes j size) w w1 v e) t1 l.1 in
    (w2, more, rw e e2, Goes-append id a w2 fates [] more t.ch t1.ch t2 x1 x2, p)
run-Tracks (unsubscribes j ∷ ops) id a w fates v t l =
    let (w1, e, (t1, x1)) = unsubscribes-Tracks id a w fates t v j l.0 in
    let (w2, more, e2, (t2, x2), p) =
      run-Tracks ops id a w1 (fates ++ []) (IsValid-after (unsubscribes j) w w1 v e) t1 l.1 in
    (w2, more, rw e e2, Goes-append id a w2 fates [] more t.ch t1.ch t2 x1 x2, p)
run-Tracks (receives x ∷ ops) id a w fates v t l =
    let (w1, first, e, (t1, x1), none_) = receives-Tracks id a w fates t v x in
    let (w2, more, e2, (t2, x2), p) =
      run-Tracks ops id a w1 (fates ++ first) (IsValid-after (receives x) w w1 v e) t1 l in
    (
      w2,
      first ++ more,
      rw e e2,
      Goes-append id a w2 fates first more t.ch t1.ch t2 x1 x2,
      published_of-append first more ∙ rw (none_, p) refl,
    )
run-Tracks (publishes c ∷ ops) id a w fates v t l =
    let first : Fates = fate_of c t.ch ∷ [] in
    let (w1, e, (t1, x1)) = publishes-Tracks id a w fates t v c in
    let (w2, more, e2, (t2, x2), p) =
      run-Tracks ops id a w1 (fates ++ first) (IsValid-after (publishes c) w w1 v e) t1 l in
    (
      w2,
      first ++ more,
      rw e e2,
      Goes-append id a w2 fates first more t.ch t1.ch t2 x1 x2,
      published_of-append first more ∙ rw (published_of-fate c t.ch, p) refl,
    )
