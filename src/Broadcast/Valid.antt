-- ===== src/Broadcast/Valid.antt =====
-- broadcast.go: every registered channel is open and belongs to one subscriber, whatever
-- Subscribe, Unsubscribe and the subscribers do.
use phylax.Base.{
  ℕ, Text, Map, lookup, insert, delete, lookup-insert_ne, lookup-delete, text_beq_iff, text_beq,
  text_ne, subst, if◌then◌else◌, Bool-cases, length, get_elem?, get_elem?-lt, get_elem?-append_left,
  get_elem?-append_last, List, [], ◌∷◌, ◌++◌, Option, none, some, Bool, true, false, ok, text_eq,
  pos, Chan, ◌≡◌, ◌≢◌, refl, sym, ◌∙◌, ap, inl, inr, arith,
}
use phylax.Change.{Change}
use phylax.Broadcast.{Subscription, Broadcaster, entries, new_broadcaster, subscribe}

abbrev pub IsOpen : List (Chan Change) → ℕ → Type 0
IsOpen heap a = (ch : Chan Change) × (get_elem? heap a ≡ some ch) × (ch.is_closed ≡ false)

-- No entry has this channel.
abbrev pub Fresh : ℕ → Map Text Subscription → Type 0
Fresh a [] = Unit {0}
Fresh a ((id, sub) ∷ subs) = (a ≢ sub.ch) × Fresh a subs

-- Each entry's channel is open and no other entry's, and each id has one entry.
abbrev pub Live : List (Chan Change) → Map Text Subscription → Type 0
Live heap [] = Unit {0}
Live heap ((id, sub) ∷ subs) =
    IsOpen heap sub.ch × Fresh sub.ch subs × (lookup id subs ≡ none) × Live heap subs

abbrev pub IsValid : Broadcaster → Type 0
IsValid b = Live b.heap (entries b.subscribers)

-- A change of the memory that leaves every registered channel open.
pub Live-keep :
    (heap heap' : List (Chan Change)) (subs : Map Text Subscription)
    → ((a : ℕ) → IsOpen heap a → IsOpen heap' a)
    → Live heap subs
    → Live heap' subs
Live-keep heap heap' [] keep v = tt
Live-keep heap heap' ((id, sub) ∷ subs) keep v =
    (keep sub.ch v.0, v.1, v.2, Live-keep heap heap' subs keep v.3)

-- A change of one channel that no entry has.
pub Live-except :
    (heap heap' : List (Chan Change)) (x : ℕ) (subs : Map Text Subscription)
    → ((a : ℕ) → x ≢ a → get_elem? heap' a ≡ get_elem? heap a)
    → Fresh x subs
    → Live heap subs
    → Live heap' subs
Live-except heap heap' x [] keep f v = tt
Live-except heap heap' x ((id, sub) ∷ subs) keep f v = (
  ((v.0).0, keep sub.ch f.0 ∙ (v.0).1, (v.0).2),
  v.1,
  v.2,
  Live-except heap heap' x subs keep f.1 v.3,
)

Live-Fresh_end :
    (heap : List (Chan Change)) (subs : Map Text Subscription)
    → Live heap subs
    → Fresh (length heap) subs
Live-Fresh_end heap [] v = tt
Live-Fresh_end heap ((id, sub) ∷ subs) v =
    (λ e. absurd (omega (arith, get_elem?-lt heap sub.ch (v.0).1)), Live-Fresh_end heap subs v.3)

Fresh-insert :
    (a : ℕ) (id : Text) (sub : Subscription) (subs : Map Text Subscription)
    → a ≢ sub.ch
    → Fresh a subs
    → Fresh a (insert id sub subs)
unfolding insert
Fresh-insert a id sub [] h f = (h, tt)
Fresh-insert a id sub ((j, w) ∷ subs) h f = ground (arith, Fresh-insert a id sub subs h f.1)

Fresh-delete :
    (a : ℕ) (id : Text) (subs : Map Text Subscription) → Fresh a subs → Fresh a (delete id subs)
unfolding delete
Fresh-delete a id [] f = tt
Fresh-delete a id ((j, w) ∷ subs) f = ground (arith, Fresh-delete a id subs f.1)

Live-insert :
    (heap : List (Chan Change)) (id : Text) (sub : Subscription) (subs : Map Text Subscription)
    → IsOpen heap sub.ch
    → Fresh sub.ch subs
    → Live heap subs
    → Live heap (insert id sub subs)
unfolding insert lookup
Live-insert heap id sub [] o f v = (o, tt, refl, tt)
Live-insert heap id sub ((j, w) ∷ subs) o f v = elim (Bool-cases (text_beq j id)) [
  | inl same ↦
      rw same (o, f.1, subst (λ t. lookup t subs ≡ none) ((text_beq_iff j id).0 same) v.2, v.3)
  | inr ne ↦ rw ne (
    v.0,
    Fresh-insert w.ch id sub subs (λ e. f.0 (sym e)) v.1,
    lookup-insert_ne id j sub subs (text_ne j id ne) ∙ v.2,
    Live-insert heap id sub subs o f.1 v.3,
  )
]

pub Live-delete :
    (heap : List (Chan Change)) (id : Text) (subs : Map Text Subscription)
    → Live heap subs
    → Live heap (delete id subs)
unfolding delete
Live-delete heap id [] v = tt
Live-delete heap id ((j, w) ∷ subs) v = elim (Bool-cases (text_beq j id)) [
  | inl same ↦ rw same (Live-delete heap id subs v.3)
  | inr ne ↦ rw ne (
    v.0,
    Fresh-delete w.ch id subs v.1,
    ground (arith, lookup-delete id j subs, v.2),
    Live-delete heap id subs v.3,
  )
]

pub found_first :
    (w sub : Subscription) (rest : Option Subscription) {b : Bool}
    → (if b then some w else rest) ≡ some sub
    → b ≡ true
    → w ≡ sub
found_first w sub rest e h = ground arith

pub Fresh-lookup :
    (a : ℕ) (id : Text) (sub : Subscription) (subs : Map Text Subscription)
    → Fresh a subs
    → lookup id subs ≡ some sub
    → a ≢ sub.ch
unfolding lookup
Fresh-lookup a id sub [] f e = absurd (cc)
Fresh-lookup a id sub ((j, w) ∷ subs) f e = elim (Bool-cases (text_beq j id)) [
  | inl same ↦ λ q. f.0 (q ∙ ap (λ s. s.ch) (sym (found_first w sub _ e same)))
  | inr ne ↦ Fresh-lookup a id sub subs f.1 (ground arith)
]

-- The deleted entry's channel is no other entry's.
pub Fresh-delete_self :
    (heap : List (Chan Change)) (id : Text) (sub : Subscription) (subs : Map Text Subscription)
    → Live heap subs
    → lookup id subs ≡ some sub
    → Fresh sub.ch (delete id subs)
unfolding delete lookup
Fresh-delete_self heap id sub [] v e = tt
Fresh-delete_self heap id sub ((j, w) ∷ subs) v e = elim (Bool-cases (text_beq j id)) [
  | inl same ↦ rw same (
      Fresh-delete sub.ch id subs
        (subst (λ (s : Subscription). Fresh s.ch subs) (found_first w sub _ e same) v.1))
  | inr ne ↦ rw ne (
      let later : lookup id subs ≡ some sub = ground arith in
      (
        λ q. Fresh-lookup w.ch id sub subs v.1 later (sym q),
        Fresh-delete_self heap id sub subs v.3 later,
      ))
]

-- A found entry's channel is open.
pub Live-lookup :
    (heap : List (Chan Change)) (id : Text) (sub : Subscription) (subs : Map Text Subscription)
    → Live heap subs
    → lookup id subs ≡ some sub
    → IsOpen heap sub.ch
unfolding lookup
Live-lookup heap id sub [] v e = absurd (cc)
Live-lookup heap id sub ((j, w) ∷ subs) v e = elim (Bool-cases (text_beq j id)) [
  | inl same ↦ subst (λ (s : Subscription). IsOpen heap s.ch) (found_first w sub _ e same) v.0
  | inr ne ↦ Live-lookup heap id sub subs v.3 (ground arith)
]

pub new_broadcaster-IsValid : (heap : List (Chan Change)) → IsValid (new_broadcaster heap)
unfolding new_broadcaster
new_broadcaster-IsValid heap = tt

-- Subscribe with a size that is not negative registers a new channel at an address that no other
-- entry has.
pub subscribe-IsValid :
    (id : Text) (size : ℕ) (b : Broadcaster)
    → IsValid b
    → (b' : Broadcaster) × (subscribe id (pos size) b ≡ ok (length b.heap, b')) × IsValid b'
unfolding subscribe
subscribe-IsValid id size b v =
    let ch : Chan Change = record { capacity = size; buffer = []; is_closed = false } in
    (
      _,
      refl,
      Live-insert (b.heap ++ ch ∷ []) id (record { ch = length b.heap; dropped = 0 })
          (entries b.subscribers) (ch, get_elem?-append_last b.heap ch, refl)
          (Live-Fresh_end b.heap (entries b.subscribers) v)
          (Live-keep b.heap (b.heap ++ ch ∷ []) (entries b.subscribers)
            (λ a o. (
              o.0,
              get_elem?-append_left b.heap (ch ∷ []) a (get_elem?-lt b.heap a o.1) ∙ o.1,
              o.2,
            ))
            v),
    )
