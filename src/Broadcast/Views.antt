-- ===== src/Broadcast/Views.antt =====
-- broadcast.go keeps its subscribers in a Go map, over which a loop runs in any order. What a broadcaster
-- is up to that order: its channels, and the subscription of each id.
pub mod Counts
pub mod Runs
pub mod Quotients
mod Examples
use phylax.Base.{
  ℕ, Text, Map, lookup, insert, lookup-insert, lookup-delete, delete, ◌==◌, text_eq, text_beq,
  ==_refl, text_beq_iff, Bool-cases, if◌then◌else◌, Option-cases, length, get_elem?, get_elem?-ext,
  set, List, [], ◌∷◌, ◌++◌, Option, none, some, true, false, ok, Chan, ◌≡◌, ◌≢◌, refl, sym, ◌∙◌, ap,
  subst, ◌⊎◌, inl, inr, ℕ_discrete, pos, arith, Res, ◌>>=◌,
}
use phylax.Change.{Change}
use phylax.Broadcast.{Subscription, Broadcaster, entries, subscribe, unsubscribe, publish, receive}
use phylax.Broadcast.Valid.{Fresh, Live, IsValid, Live-lookup, Fresh-lookup}
use phylax.Broadcast.Publish.{charged, offered, publish_lem, unsubscribe_lem}

abbrev pub SameEntries : Map Text Subscription → Map Text Subscription → Type 0
SameEntries m m' = (id : Text) → lookup id m ≡ lookup id m'

pub record SameView (b b' : Broadcaster) : Type 0 where
  pub heap : b.heap ≡ b'.heap
  pub same : SameEntries (entries b.subscribers) (entries b'.subscribers)

pub SameView-refl : (b : Broadcaster) → SameView b b
SameView-refl b = record { heap = refl; same = λ id. refl }

pub SameView-sym : (b b' : Broadcaster) → SameView b b' → SameView b' b
SameView-sym b b' h = record { heap = sym h.heap; same = λ id. sym (h.same id) }

pub SameView-trans : (b b' b'' : Broadcaster) → SameView b b' → SameView b' b'' → SameView b b''
SameView-trans b b' b'' h k = record { heap = h.heap ∙ k.heap; same = λ id. h.same id ∙ k.same id }

-- A channel is of no entry, or of the entry of some id.
Fresh-cases :
    (heap : List (Chan Change)) (a : ℕ) (subs : Map Text Subscription)
    → Live heap subs
    → Fresh a subs
      ⊎ ((id : Text) × (sub : Subscription) × (lookup id subs ≡ some sub) × (sub.ch ≡ a))
unfolding lookup
Fresh-cases heap a [] v = inl tt
Fresh-cases heap a ((id, sub) ∷ subs) v = elim (ℕ_discrete sub.ch a) [
  | yes p ↦ inr (id, sub, rw (==_refl {K = Text} id) refl, p)
  | no n ↦ elim (Fresh-cases heap a subs v.3) [
    | inl f ↦ inl (λ e. n (sym e), f)
    | inr (j, s, e, p) ↦ inr (
      j,
      s,
      elim (Bool-cases (text_beq id j)) [
        | inl same ↦ absurd (cc (e, v.2, ap (λ i. lookup i subs) ((text_beq_iff id j).0 same)))
        | inr ne ↦ rw ne e
      ],
      p,
    )
  ]
]

-- A channel of no entry of one is of no entry of the other.
Fresh-SameEntries :
    (heap : List (Chan Change)) (a : ℕ) (m m' : Map Text Subscription)
    → Live heap m'
    → SameEntries m m'
    → Fresh a m
    → Fresh a m'
Fresh-SameEntries heap a m m' v h f = elim (Fresh-cases heap a m' v) [
  | inl g ↦ g
  | inr (id, sub, e, p) ↦ absurd (Fresh-lookup a id sub m f (h id ∙ e) (sym p))
]

module _ (b b' : Broadcaster) (v : IsValid b) (v' : IsValid b') (h : SameView b b') where
  pub publish-SameView :
      (change : Change) (c c' : Broadcaster)
      → publish change b ≡ ok c
      → publish change b' ≡ ok c'
      → SameView c c'
  publish-SameView change c c' e e' =
      let (d, q, _, delivers, spares, ids) = publish_lem change b v in
      let (d', q', _, delivers', spares', ids') = publish_lem change b' v' in
      let first : d ≡ c = cc (q, e) in
      let second : d' ≡ c' = cc (q', e') in
      subst (λ x. SameView x c') first
        (subst (SameView d) second (record {
          heap = get_elem?-ext d.heap d'.heap λ a.
              elim (Fresh-cases b.heap a (entries b.subscribers) v) [
                | inl f ↦
                    spares a f
                    ∙ ap (λ heap. get_elem? heap a) h.heap
                    ∙ sym (
                        spares' a (
                          Fresh-SameEntries b'.heap a (entries b.subscribers)
                            (entries b'.subscribers) v' h.same f))
                | inr (id, sub, at, p) ↦
                    let (ch, found, _) = Live-lookup b.heap id sub (entries b.subscribers) v at in
                    let (_, x) = delivers id sub ch at found in
                    let (_, x') =
                      delivers' id sub ch (sym (h.same id) ∙ at)
                        (ap (λ heap. get_elem? heap sub.ch) (sym h.heap) ∙ found) in
                    subst (λ i. get_elem? d.heap i ≡ get_elem? d'.heap i) p (x ∙ sym x')
              ];
          same = λ id. elim (Option-cases (lookup id (entries b.subscribers))) [
            | inl absent ↦ ids id absent ∙ sym (ids' id (sym (h.same id) ∙ absent))
            | inr (sub, at) ↦
                let (ch, found, _) = Live-lookup b.heap id sub (entries b.subscribers) v at in
                let (x, _) = delivers id sub ch at found in
                let (x', _) =
                  delivers' id sub ch (sym (h.same id) ∙ at)
                    (ap (λ heap. get_elem? heap sub.ch) (sym h.heap) ∙ found) in
                x ∙ sym x'
          ];
        }))

  pub unsubscribe-SameView :
      (id : Text) (c c' : Broadcaster)
      → unsubscribe id b ≡ ok c
      → unsubscribe id b' ≡ ok c'
      → SameView c c'
  unsubscribe-SameView id c c' e e' = elim (Option-cases (lookup id (entries b.subscribers))) [
    | inl absent ↦
        let first : b ≡ c = cc ((unsubscribe_lem id b v).0 absent, e) in
        let second : b' ≡ c' = cc ((unsubscribe_lem id b' v').0 (sym (h.same id) ∙ absent), e') in
        subst (λ x. SameView x c') first (subst (SameView b) second h)
    | inr (sub, at) ↦
        let (ch, found, _) = Live-lookup b.heap id sub (entries b.subscribers) v at in
        let (d, q, _, closed, others, ids) = (unsubscribe_lem id b v).1 sub ch at found in
        let (d', q', _, closed', others', ids') =
          (unsubscribe_lem id b' v').1 sub ch (sym (h.same id) ∙ at)
            (ap (λ heap. get_elem? heap sub.ch) (sym h.heap) ∙ found) in
        let first : d ≡ c = cc (q, e) in
        let second : d' ≡ c' = cc (q', e') in
        subst (λ x. SameView x c') first
          (subst (SameView d) second (record {
            heap = get_elem?-ext d.heap d'.heap λ a. elim (ℕ_discrete sub.ch a) [
              | yes p ↦
                  subst (λ i. get_elem? d.heap i ≡ get_elem? d'.heap i) p (closed ∙ sym closed')
              | no n ↦ others a n ∙ ap (λ heap. get_elem? heap a) h.heap ∙ sym (others' a n)
            ];
            same = λ j. ids j ∙ rw (h.same j) (sym (ids' j));
          }))
  ]

  pub subscribe-SameView :
      (id : Text) (size a a' : ℕ) (c c' : Broadcaster)
      → subscribe id (pos size) b ≡ ok (a, c)
      → subscribe id (pos size) b' ≡ ok (a', c')
      → SameView c c'
  unfolding subscribe
  subscribe-SameView id size a a' c c' e e' =
      let ch : Chan Change = record { capacity = size; buffer = []; is_closed = false } in
      let d : Broadcaster = record {
        heap = b.heap ++ ch ∷ [];
        subscribers =
            some (insert id (record { ch = length b.heap; dropped = 0 }) (entries b.subscribers));
      } in
      let d' : Broadcaster = record {
        heap = b'.heap ++ ch ∷ [];
        subscribers =
            some (insert id (record { ch = length b'.heap; dropped = 0 }) (entries b'.subscribers));
      } in
      let first : d ≡ c = cc e in
      let second : d' ≡ c' = cc e' in
      subst (λ x. SameView x c') first
        (subst (SameView d) second (record {
          heap = ap (λ heap. heap ++ ch ∷ []) h.heap;
          same = λ j.
              lookup-insert id j _ (entries b.subscribers)
              ∙ rw (h.same j, h.heap) (sym (lookup-insert id j _ (entries b'.subscribers)));
        }))
