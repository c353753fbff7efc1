-- ===== src/Broadcast/Views/Quotients.antt =====
-- The broadcasters as a quotient by the order of their maps, and unsubscribeAll of cdc.go, which collects
-- the ids of a client from a map too.
use mathlib.Core.Quot
use mathlib.Core.Quot.{Quot, Quot-set}
use mathlib.Core.Logic.{∥∥₁_elim}
use mathlib.Core.List.{Perm, Permᴰ}
use phylax.Base.{
  ℕ, false, eqb, nat_eq, text_beq_iff, arith, Text, text_eq, lookup, get_elem?, get_elem?-ext,
  if◌then◌else◌, ◌==◌, text_beq, Bool-cases, Option-cases, List, [], ◌∷◌, Option, none, some, ok,
  ◌≡◌, refl, sym, ◌∙◌, ap, subst, inl, inr, ℕ_discrete, true, Chan,
}
use phylax.Change.{Change}
use phylax.Broadcast.{Subscription, Broadcaster, entries, unsubscribe}
use phylax.Broadcast.Valid.{IsValid, Live-lookup}
use phylax.Broadcast.Entries.{unsubscribe-Keeps}
use phylax.Broadcast.Publish.{unsubscribe_lem}
use phylax.Broadcast.Views.{SameView, unsubscribe-SameView}

-- A broadcaster that is valid.
abbrev pub Valid : Type 0
Valid = (b : Broadcaster) × IsValid b

-- A valid broadcaster up to the order of its map.
abbrev pub View : Type 0
View = Quot (λ (x y : Valid). SameView x.0 y.0)

abbrev pub view : (b : Broadcaster) → IsValid b → View
view b v = Quot.mk (b, v)

abbrev pub unsubscribed : Text → Valid → Valid
unsubscribed id (b, v) = let (b', _, keeps, _) = unsubscribe-Keeps id b v in (b', keeps.valid)

pub unsubscribed-SameView :
    (id : Text) (x y : Valid)
    → SameView x.0 y.0
    → SameView (unsubscribed id x).0 (unsubscribed id y).0
unsubscribed-SameView id (b, v) (c, u) h =
    let (b', e, _, _) = unsubscribe-Keeps id b v in
    let (c', e', _, _) = unsubscribe-Keeps id c u in unsubscribe-SameView b c v u h id b' c' e e'

unfoldable pub unsubscribe_view : Text → View → View
unsubscribe_view id =
    Quot.lift Quot-set (λ x. Quot.mk (unsubscribed id x))
      (λ x y h. Quot.sound (unsubscribed-SameView id x y h))

-- What Unsubscribe does to the entries and to the channel at an address.
abbrev closed : Option (Chan Change) → Option (Chan Change)
closed none = none
closed (some ch) = some (record ch { is_closed = true })

abbrev closed_at : Option Subscription → ℕ → Option (Chan Change) → Option (Chan Change)
closed_at none a ch = ch
closed_at (some sub) a ch = if eqb sub.ch a then closed ch else ch

closed_at_comm :
    (s t : Option Subscription) (a : ℕ) (ch : Option (Chan Change))
    → closed_at s a (closed_at t a ch) ≡ closed_at t a (closed_at s a ch)
closed_at_comm none t a ch = refl
closed_at_comm (some s) none a ch = refl
closed_at_comm (some s) (some t) a none = ground arith
closed_at_comm (some s) (some t) a (some ch) = ground arith

record Unsubscribed (id : Text) (b b' : Broadcaster) : Type 0 where
  left :
      (j : Text)
      → lookup j (entries b'.subscribers)
        ≡ (if id == j then none else lookup j (entries b.subscribers))
  at :
      (a : ℕ)
      → get_elem? b'.heap a ≡ closed_at (lookup id (entries b.subscribers)) a (get_elem? b.heap a)

unsubscribe-Unsubscribed :
    (id : Text) (b b' : Broadcaster) → IsValid b → unsubscribe id b ≡ ok b' → Unsubscribed id b b'
unsubscribe-Unsubscribed id b b' v e = elim (Option-cases (lookup id (entries b.subscribers))) [
  | inl absent ↦
      let same : b ≡ b' = cc ((unsubscribe_lem id b v).0 absent, e) in
      subst (Unsubscribed id b) same (record {
        left = λ j. elim (Bool-cases (text_beq id j)) [
          | inl q ↦
              rw q (
                ap (λ i. lookup i (entries b.subscribers)) (sym ((text_beq_iff id j).0 q)) ∙ absent)
          | inr ne ↦ rw ne refl
        ];
        at = λ a. rw absent refl;
      })
  | inr (sub, found) ↦
      let (ch, at, _) = Live-lookup b.heap id sub (entries b.subscribers) v found in
      let (c, q, _, shut, others, left) = (unsubscribe_lem id b v).1 sub ch found at in
      let same : c ≡ b' = cc (q, e) in
      subst (Unsubscribed id b) same (record {
        left = left;
        at = λ a. elim (ℕ_discrete sub.ch a) [
          | yes p ↦ rw found (
              subst (λ i. get_elem? c.heap i ≡ closed_at (some sub) i (get_elem? b.heap i)) p
                (shut ∙ rw at (ground arith)))
          | no n ↦ rw found (others a n ∙ ground (arith, n))
        ];
      })
]

-- The entry of an id after a call for another id, and after one for the same.
left_other :
    (id j : Text) (b b' : Broadcaster)
    → Unsubscribed id b b'
    → text_beq id j ≡ false
    → lookup j (entries b'.subscribers) ≡ lookup j (entries b.subscribers)
left_other id j b b' u ne = u.left j ∙ rw ne refl

left_self :
    (id j : Text) (b b' : Broadcaster)
    → Unsubscribed id b b'
    → id ≡ j
    → lookup j (entries b'.subscribers) ≡ none
left_self id j b b' u e = u.left j ∙ rw ((text_beq_iff id j).1 e) refl

-- Two calls in either order.
unsubscribe_comm :
    (id j : Text) (b b1 b12 b2 b21 : Broadcaster)
    → Unsubscribed id b b1
    → Unsubscribed j b1 b12
    → Unsubscribed j b b2
    → Unsubscribed id b2 b21
    → SameView b12 b21
unsubscribe_comm id j b b1 b12 b2 b21 u u' x x' = record {
  heap = get_elem?-ext b12.heap b21.heap λ a.
      u'.at a
      ∙ ap (closed_at (lookup j (entries b1.subscribers)) a) (u.at a)
      ∙ swapped a
      ∙ sym (x'.at a ∙ ap (closed_at (lookup id (entries b2.subscribers)) a) (x.at a));
  same = λ k. u'.left k ∙ ground (arith, u.left k, x.left k) ∙ sym (x'.left k);
}
  where
    swapped :
        (a : ℕ)
        → closed_at
            (lookup j (entries b1.subscribers))
            a
            (closed_at (lookup id (entries b.subscribers)) a (get_elem? b.heap a))
          ≡ closed_at
              (lookup id (entries b2.subscribers))
              a
              (closed_at (lookup j (entries b.subscribers)) a (get_elem? b.heap a))
    swapped a = elim (Bool-cases (text_beq id j)) [
      | inl q ↦
          let e : id ≡ j = (text_beq_iff id j).0 q in
          rw (left_self id j b b1 u e, left_self j id b b2 x (sym e))
            (ap (λ i. closed_at (lookup i (entries b.subscribers)) a (get_elem? b.heap a)) e)
      | inr ne ↦
          let ne' : text_beq j id ≡ false =
            ground (arith, ne, text_beq_iff id j, text_beq_iff j id) in
          rw (left_other id j b b1 u ne, left_other j id b b2 x ne')
            (closed_at_comm (lookup j (entries b.subscribers)) (lookup id (entries b.subscribers)) a
              (get_elem? b.heap a))
    ]

unsubscribed-Unsubscribed : (id : Text) (x : Valid) → Unsubscribed id x.0 (unsubscribed id x).0
unsubscribed-Unsubscribed id (b, v) =
    let (b', e, _, _) = unsubscribe-Keeps id b v in unsubscribe-Unsubscribed id b b' v e

unsubscribe_view_comm :
    (id j : Text) (q : View)
    → unsubscribe_view j (unsubscribe_view id q) ≡ unsubscribe_view id (unsubscribe_view j q)
unfolding unsubscribe_view
unsubscribe_view_comm id j =
    Quot.ind (λ q. Quot-set _ _)
      λ x. Quot.sound (
        unsubscribe_comm id j x.0 (unsubscribed id x).0 (unsubscribed j (unsubscribed id x)).0
          (unsubscribed j x).0 (unsubscribed id (unsubscribed j x)).0
          (unsubscribed-Unsubscribed id x) (unsubscribed-Unsubscribed j (unsubscribed id x))
          (unsubscribed-Unsubscribed j x) (unsubscribed-Unsubscribed id (unsubscribed j x)))

-- Calls one after the other.
unfoldable pub unsubscribe_views : List Text → View → View
unsubscribe_views [] q = q
unsubscribe_views (id ∷ ids) q = unsubscribe_views ids (unsubscribe_view id q)

unsubscribe_views-Permᴰ :
    (ids ids' : List Text)
    → Permᴰ ids ids'
    → (q : View) → unsubscribe_views ids q ≡ unsubscribe_views ids' q
unfolding unsubscribe_views
unsubscribe_views-Permᴰ _ _ Permᴰ.nil q = refl
unsubscribe_views-Permᴰ (id ∷ ids) (id' ∷ ids') (Permᴰ.cons e p) q =
    rw e (unsubscribe_views-Permᴰ ids ids' p (unsubscribe_view id' q))
unsubscribe_views-Permᴰ (a ∷ b ∷ ids) (c ∷ d ∷ _) (Permᴰ.swap e e') q =
    rw (e, e') (ap (unsubscribe_views ids) (unsubscribe_view_comm d c q))
unsubscribe_views-Permᴰ ids ids' (Permᴰ.trans p p') q =
    unsubscribe_views-Permᴰ ids _ p q ∙ unsubscribe_views-Permᴰ _ ids' p' q

-- On views, the order of the ids is forgotten.
pub unsubscribe_views-Perm :
    (ids ids' : List Text)
    → Perm ids ids'
    → (q : View) → unsubscribe_views ids q ≡ unsubscribe_views ids' q
unsubscribe_views-Perm ids ids' p q =
    ∥∥₁_elim p (Quot-set _ _) (λ d. unsubscribe_views-Permᴰ ids ids' d q)

-- The result of a call, as the view after it.
pub unsubscribe-view :
    (id : Text) (b : Broadcaster) (v : IsValid b)
    → (b' : Broadcaster) × (v' : IsValid b') × (unsubscribe id b ≡ ok b')
      × (unsubscribe_view id (view b v) ≡ view b' v')
unfolding unsubscribe_view
unsubscribe-view id b v =
    let (b', e, keeps, _) = unsubscribe-Keeps id b v in (b', keeps.valid, e, refl)
