-- ===== src/Broadcast/Views/Counts.antt =====
-- SubscriberCount and ChangesDropped do not depend on the order of the map.
use phylax.Base.{
  ℕ, suc, ◌+◌, ◌%◌, ◌<◌, word_mod, add64, Text, Map, lookup, lookup-delete, delete, text_eq,
  text_beq, ==_refl, text_beq_iff, Bool-cases, length, List, [], ◌∷◌, some, none, Chan, ◌≡◌, refl,
  sym, ◌∙◌, ap, subst, inl, inr, arith,
}
use phylax.Change.{Change}
use phylax.Broadcast.{
  Subscription, Broadcaster, entries, subscriber_count, changes_dropped, total_dropped,
}
use phylax.Broadcast.Valid.{Live, Live-delete, IsValid, found_first}
use phylax.Broadcast.Views.{SameEntries, SameView}

unfoldable pub sum_dropped : Map Text Subscription → ℕ
sum_dropped [] = 0
sum_dropped ((id, sub) ∷ subs) = sub.dropped + sum_dropped subs

pub total-sum_dropped :
    (subs : Map Text Subscription) (t : ℕ)
    → t < word_mod
    → total_dropped subs t ≡ (t + sum_dropped subs) % word_mod
unfolding sum_dropped
total-sum_dropped [] t h = omega (arith, h)
total-sum_dropped ((id, sub) ∷ subs) t h =
    total-sum_dropped subs (add64 t sub.dropped) (omega arith) ∙ omega arith

delete-absent :
    (id : Text) (subs : Map Text Subscription) → lookup id subs ≡ none → delete id subs ≡ subs
unfolding lookup delete
delete-absent id [] e = refl
delete-absent id ((j, w) ∷ subs) e = elim (Bool-cases (text_beq j id)) [
  | inl same ↦ absurd (cc (e, same))
  | inr ne ↦ rw ne (ap (λ l. (j, w) ∷ l) (delete-absent id subs (ground (arith, e, ne))))
]

-- What the entry of an id adds to the two counts.
delete-counts :
    (heap : List (Chan Change)) (id : Text) (sub : Subscription) (subs : Map Text Subscription)
    → Live heap subs
    → lookup id subs ≡ some sub
    → (length subs ≡ suc (length (delete id subs)))
      × (sum_dropped subs ≡ sub.dropped + sum_dropped (delete id subs))
unfolding lookup delete sum_dropped
delete-counts heap id sub [] v e = absurd (cc)
delete-counts heap id sub ((j, w) ∷ subs) v e = elim (Bool-cases (text_beq j id)) [
  | inl same ↦
      let gone : delete id subs ≡ subs =
        delete-absent id subs
          (subst (λ t. lookup t subs ≡ none) ((text_beq_iff j id).0 same) v.2) in
      let at : w ≡ sub = found_first w sub _ e same in rw (same, gone, at) (refl, refl)
  | inr ne ↦
      let (n, d) = delete-counts heap id sub subs v.3 (ground (arith, e, ne)) in
      rw ne (omega (arith, n), omega (arith, d))
]

SameEntries-counts :
    (heap : List (Chan Change)) (m m' : Map Text Subscription)
    → Live heap m
    → Live heap m'
    → SameEntries m m'
    → (length m ≡ length m') × (sum_dropped m ≡ sum_dropped m')
unfolding lookup sum_dropped
SameEntries-counts heap [] [] v v' h = (refl, refl)
SameEntries-counts heap [] ((id, sub) ∷ m') v v' h = absurd (cc (h id, ==_refl {K = Text} id))
SameEntries-counts heap ((id, sub) ∷ m) m' v v' h =
    let at : lookup id m' ≡ some sub = sym (h id) ∙ rw (==_refl {K = Text} id) refl in
    let (n, d) = delete-counts heap id sub m' v' at in
    let (n', d') = SameEntries-counts heap m (delete id m') v.3 (Live-delete heap id m' v') (λ j.
      elim (Bool-cases (text_beq id j)) [
        | inl same ↦
            subst (λ t. lookup t m ≡ none) ((text_beq_iff id j).0 same) v.2
            ∙ sym (lookup-delete id j m' ∙ rw same refl)
        | inr ne ↦
            let later : lookup j m ≡ lookup j m' = ground (arith, h j, ne) in
            later ∙ sym (lookup-delete id j m' ∙ rw ne refl)
      ]) in
    (omega (arith, n, n'), omega (arith, d, d'))

-- The two counts of a broadcaster.
pub counts-SameView :
    (b b' : Broadcaster)
    → IsValid b
    → IsValid b'
    → SameView b b'
    → (subscriber_count b ≡ subscriber_count b') × (changes_dropped b ≡ changes_dropped b')
unfolding subscriber_count changes_dropped
counts-SameView b b' v v' h =
    let (n, d) =
      SameEntries-counts b.heap (entries b.subscribers) (entries b'.subscribers) v
        (subst (λ heap. Live heap (entries b'.subscribers)) (sym h.heap) v') h.same in
    (
      n,
      total-sum_dropped (entries b.subscribers) 0 (omega arith)
          ∙ rw d (sym (total-sum_dropped (entries b'.subscribers) 0 (omega arith))),
    )
