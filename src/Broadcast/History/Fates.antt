-- ===== src/Broadcast/History/Fates.antt =====
-- broadcast.go: what one subscriber gets of everything that is published while it is registered.
pub mod Tracking
use phylax.Base.{
  zero, ◌<◌, ℕ, suc, ◌+◌, ◌%◌, ◌≤◌, word_mod, Text, lookup, lookup-insert_ne, lookup-delete, delete,
  ==_ne, ==_refl, if◌then◌else◌, Option-cases, Bool-cases, length, get_elem?, set,
  get_elem?-set_self, get_elem?-set_ne, get_elem?-lt, get_elem?-append_left, length-append, List,
  [], ◌∷◌, ◌++◌, append-nil, append_assoc, some, Bool, true, false, ok, text_eq, nat_eq, eqb, Chan,
  has_room, ◌≡◌, ◌≢◌, refl, sym, ◌∙◌, ap, inl, inr, arith, ℕ_discrete, subst,
}
use phylax.Change.{Change}
use phylax.Broadcast.{Subscription, entries, subscribe}
use phylax.Broadcast.Valid.{IsValid, Fresh-delete_self, Fresh-lookup, Live-lookup}
use phylax.Broadcast.Publish.{charged, offered, publish_lem, unsubscribe_lem}
use phylax.Broadcast.History.{
  Op, subscribes, unsubscribes, publishes, receives, World, step, run, receives_lem, step-IsValid,
}

-- What happens to a subscriber: a published change enters its buffer or misses it, or the change at the
-- front leaves the buffer, by a read.
pub data Fate : Type 0 where
  enters misses : Change → Fate
  leaves : Fate

abbrev pub Fates : Type 0
Fates = List Fate

abbrev pub published_of : Fates → List Change
published_of [] = []
published_of (enters c ∷ fates) = c ∷ published_of fates
published_of (misses c ∷ fates) = c ∷ published_of fates
published_of (leaves ∷ fates) = published_of fates

abbrev pub kept_of : Fates → List Change
kept_of [] = []
kept_of (enters c ∷ fates) = c ∷ kept_of fates
kept_of (misses c ∷ fates) = kept_of fates
kept_of (leaves ∷ fates) = kept_of fates

abbrev pub lost_of : Fates → ℕ
lost_of [] = 0
lost_of (enters c ∷ fates) = lost_of fates
lost_of (misses c ∷ fates) = suc (lost_of fates)
lost_of (leaves ∷ fates) = lost_of fates

-- A buffer of this capacity in which n changes wait, until m do: a change enters it while fewer wait than
-- fit, and misses it only when it is full.
abbrev pub IsExact : ℕ → ℕ → Fates → ℕ → Type 0
IsExact capacity n [] m = n ≡ m
IsExact capacity n (enters c ∷ fates) m = (n < capacity) × IsExact capacity (suc n) fates m
IsExact capacity n (misses c ∷ fates) m = (n ≡ capacity) × IsExact capacity n fates m
IsExact capacity zero (leaves ∷ fates) m = ⊥
IsExact capacity (suc n) (leaves ∷ fates) m = IsExact capacity n fates m

pub IsExact-append :
    (capacity n m k : ℕ) (fs gs : Fates)
    → IsExact capacity n fs m
    → IsExact capacity m gs k
    → IsExact capacity n (fs ++ gs) k
IsExact-append capacity n m k [] gs h g = subst (λ x. IsExact capacity x gs k) (sym h) g
IsExact-append capacity n m k (enters c ∷ fs) gs h g =
    (h.0, IsExact-append capacity (suc n) m k fs gs h.1 g)
IsExact-append capacity n m k (misses c ∷ fs) gs h g =
    (h.0, IsExact-append capacity n m k fs gs h.1 g)
IsExact-append capacity zero m k (leaves ∷ fs) gs h g = elim h [ ]
IsExact-append capacity (suc n) m k (leaves ∷ fs) gs h g = IsExact-append capacity n m k fs gs h g

-- What a channel that is offered a change makes of it.
abbrev pub fate_of : Change → Chan Change → Fate
fate_of change ch = if has_room ch then enters change else misses change

-- What was read from an address.
abbrev pub taken_from : ℕ → List (ℕ × Change) → List Change
taken_from a [] = []
taken_from a ((x, c) ∷ taken) = if eqb x a then c ∷ taken_from a taken else taken_from a taken

-- The changes that a history publishes.
abbrev pub publications : List Op → List Change
publications [] = []
publications (publishes c ∷ ops) = c ∷ publications ops
publications (_ ∷ ops) = publications ops

-- A history that neither subscribes nor unsubscribes this id.
abbrev pub Leaves : Text → List Op → Type 0
Leaves id [] = Unit {0}
Leaves id (subscribes j size ∷ ops) = (j ≢ id) × Leaves id ops
Leaves id (unsubscribes j ∷ ops) = (j ≢ id) × Leaves id ops
Leaves id (_ ∷ ops) = Leaves id ops

-- A subscriber, by id and address: what it read and what waits in its buffer are together what was
-- kept for it, in the order of publication; its counter holds what was lost; its buffer fits.
pub record Tracks (id : Text) (a : ℕ) (w : World) (fates : Fates) : Type 0 where
  pub sub : Subscription
  pub ch : Chan Change
  pub found : lookup id (entries w.broadcaster.subscribers) ≡ some sub
  pub address : sub.ch ≡ a
  pub at : get_elem? w.broadcaster.heap a ≡ some ch
  pub kept : taken_from a w.taken ++ ch.buffer ≡ kept_of fates
  pub lost : sub.dropped ≡ lost_of fates % word_mod
  pub fits : length ch.buffer ≤ ch.capacity

pub kept_of-append : (fs gs : Fates) → kept_of (fs ++ gs) ≡ kept_of fs ++ kept_of gs
kept_of-append [] gs = refl
kept_of-append (enters c ∷ fs) gs = ap (λ cs. c ∷ cs) (kept_of-append fs gs)
kept_of-append (misses c ∷ fs) gs = kept_of-append fs gs
kept_of-append (leaves ∷ fs) gs = kept_of-append fs gs

pub lost_of-append : (fs gs : Fates) → lost_of (fs ++ gs) ≡ lost_of fs + lost_of gs
lost_of-append [] gs = omega arith
lost_of-append (enters c ∷ fs) gs = lost_of-append fs gs
lost_of-append (misses c ∷ fs) gs = omega (arith, lost_of-append fs gs)
lost_of-append (leaves ∷ fs) gs = lost_of-append fs gs

pub published_of-append :
    (fs gs : Fates) → published_of (fs ++ gs) ≡ published_of fs ++ published_of gs
published_of-append [] gs = refl
published_of-append (enters c ∷ fs) gs = ap (λ cs. c ∷ cs) (published_of-append fs gs)
published_of-append (misses c ∷ fs) gs = ap (λ cs. c ∷ cs) (published_of-append fs gs)
published_of-append (leaves ∷ fs) gs = published_of-append fs gs

pub taken_from-append :
    (a : ℕ) (xs ys : List (ℕ × Change))
    → taken_from a (xs ++ ys) ≡ taken_from a xs ++ taken_from a ys
taken_from-append a [] ys = refl
taken_from-append a ((x, c) ∷ xs) ys = ground (arith, taken_from-append a xs ys)

pub taken_from-last :
    (a : ℕ) (c : Change) (taken : List (ℕ × Change))
    → taken_from a (taken ++ (a, c) ∷ []) ≡ taken_from a taken ++ c ∷ []
taken_from-last a c taken = taken_from-append a taken ((a, c) ∷ []) ∙ rw (==_refl a)

pub taken_from-other :
    (a x : ℕ) (c : Change) (taken : List (ℕ × Change))
    → x ≢ a
    → taken_from a (taken ++ (x, c) ∷ []) ≡ taken_from a taken
taken_from-other a x c taken ne =
    taken_from-append a taken ((x, c) ∷ []) ∙ rw (==_ne x a ne) (append-nil (taken_from a taken))

pub kept_of-offered :
    (change : Change) (ch : Chan Change) (read : List Change) (fates : Fates)
    → read ++ ch.buffer ≡ kept_of fates
    → read ++ (offered change ch).buffer ≡ kept_of (fates ++ fate_of change ch ∷ [])
kept_of-offered change ch read fates e = elim (Bool-cases (has_room ch)) [
  | inl room ↦ rw room (
      sym (append_assoc read ch.buffer (change ∷ []))
      ∙ ap (λ l. l ++ change ∷ []) e
      ∙ sym (kept_of-append fates (enters change ∷ [])))
  | inr full ↦
      rw full
        (e ∙ sym (append-nil (kept_of fates)) ∙ sym (kept_of-append fates (misses change ∷ [])))
]

pub lost_of-offered :
    (change : Change) (ch : Chan Change) (sub : Subscription) (fates : Fates)
    → sub.dropped ≡ lost_of fates % word_mod
    → (charged ch sub).dropped ≡ lost_of (fates ++ fate_of change ch ∷ []) % word_mod
lost_of-offered change ch sub fates e = elim (Bool-cases (has_room ch)) [
  | inl room ↦ rw room (omega (arith, e, lost_of-append fates (enters change ∷ [])))
  | inr full ↦ rw full (omega (arith, e, lost_of-append fates (misses change ∷ [])))
]

pub IsExact-offered :
    (change : Change) (ch : Chan Change)
    → length ch.buffer ≤ ch.capacity
    → IsExact ch.capacity
        (length ch.buffer)
        (fate_of change ch ∷ [])
        (length (offered change ch).buffer)
IsExact-offered change ch h = elim (Bool-cases (has_room ch)) [
  | inl room ↦ rw room (ground (arith, room), omega (arith, length-append ch.buffer (change ∷ [])))
  | inr full ↦ rw full (ground (arith, full, h), refl)
]

pub fits-offered :
    (change : Change) (ch : Chan Change)
    → length ch.buffer ≤ ch.capacity
    → length (offered change ch).buffer ≤ ch.capacity
fits-offered change ch h = ground (arith, length-append ch.buffer (change ∷ []))

pub capacity-offered :
    (change : Change) (ch : Chan Change) → (offered change ch).capacity ≡ ch.capacity
capacity-offered change ch = ground arith

pub published_of-fate :
    (change : Change) (ch : Chan Change) → published_of (fate_of change ch ∷ []) ≡ change ∷ []
published_of-fate change ch = ground arith

-- What a channel comes to by fates: exactly these, with the same capacity.
abbrev pub Extends : Fates → Chan Change → Chan Change → Type 0
Extends more ch ch' =
    IsExact ch.capacity (length ch.buffer) more (length ch'.buffer) × (ch'.capacity ≡ ch.capacity)

pub Goes-nil :
    (ch : Chan Change) (id : Text) (a : ℕ) (w : World) (fates : Fates) (t : Tracks id a w fates)
    → t.ch ≡ ch
    → (t' : Tracks id a w (fates ++ [])) × Extends [] ch t'.ch
Goes-nil ch id a w fates t e =
    subst (λ f. (t' : Tracks id a w f) × Extends [] ch t'.ch) (sym (append-nil fates))
      (
        t,
        (ap (λ (c : Chan Change). length c.buffer) (sym e), ap (λ (c : Chan Change). c.capacity) e),
      )

pub Goes-append :
    (id : Text) (a : ℕ) (w : World) (fates first more : Fates) (ch ch1 : Chan Change)
    → (t : Tracks id a w ((fates ++ first) ++ more)) → Extends first ch ch1
    → Extends more ch1 t.ch
    → (t' : Tracks id a w (fates ++ (first ++ more))) × Extends (first ++ more) ch t'.ch
Goes-append id a w fates first more ch ch1 t (x, p) (y, q) =
    subst (λ f. (t' : Tracks id a w f) × Extends (first ++ more) ch t'.ch)
      (append_assoc fates first more)
      (
        t,
        (
          IsExact-append ch.capacity (length ch.buffer) (length ch1.buffer) (length t.ch.buffer)
              first more x
              (subst (λ n. IsExact n (length ch1.buffer) more (length t.ch.buffer)) p y),
          q ∙ p,
        ),
      )
