-- ===== src/Broadcast/Views/Examples.antt =====
-- broadcast.go on a broadcaster with two subscribers, whose map a call finds in another order.
use phylax.Base.{
  ℕ, Text, codes, lookup, text_eq, text_beq, text_beq_iff, Bool-cases, subst, List, [], ◌∷◌, none,
  some, false, ok, Chan, ◌≡◌, refl, inl, inr, arith, ◌==◌, if◌then◌else◌,
}
use phylax.Change.{Change, insert_op}
use phylax.Broadcast.{Subscription, publish, subscriber_count, changes_dropped}
use phylax.Broadcast.History.{publishes, World, step, run}
use phylax.Broadcast.Views.Runs.{SameWorld, SameWorld-refl, Runs, Runs-agree}

abbrev order : Change
order = record { table = codes "orders"; operation = insert_op; old_row = none; new_row = none }

abbrev chan : List Change → Chan Change
chan buffer = record { capacity = 1; buffer = buffer; is_closed = false }

abbrev at_chan : ℕ → ℕ → Subscription
at_chan ch dropped = record { ch = ch; dropped = dropped }

-- The buffer of the second subscriber is full.
abbrev start : World
start = record {
  broadcaster = record {
    heap = chan [] ∷ chan (order ∷ []) ∷ [];
    subscribers = some ((codes "a", at_chan 0 0) ∷ (codes "b", at_chan 1 0) ∷ []);
  };
  taken = [];
}

abbrev swapped : World
swapped = record {
  broadcaster = record {
    heap = chan [] ∷ chan (order ∷ []) ∷ [];
    subscribers = some ((codes "b", at_chan 1 0) ∷ (codes "a", at_chan 0 0) ∷ []);
  };
  taken = [];
}

abbrev end : World
end = record {
  broadcaster = record {
    heap = chan (order ∷ []) ∷ chan (order ∷ []) ∷ [];
    subscribers = some ((codes "b", at_chan 1 1) ∷ (codes "a", at_chan 0 0) ∷ []);
  };
  taken = [];
}

swapped_entries :
    (id : Text) {A : Type 0} (x y : A)
    → (if codes "a" == id then some x else if codes "b" == id then some y else none)
      ≡ (if codes "b" == id then some y else if codes "a" == id then some x else none)
unfolding text_beq
swapped_entries id x y = elim (Bool-cases (codes "a" == id)) [
  | inl same ↦
      let other : codes "b" == id ≡ false =
        subst (λ i. (codes "b" == i) ≡ false) ((text_beq_iff (codes "a") id).0 same) refl in
      rw (same, other) refl
  | inr ne ↦ rw ne refl
]

start-swapped : SameWorld start swapped
unfolding lookup
start-swapped = record {
  view = record { heap = refl; same = λ id. swapped_entries id (at_chan 0 0) (at_chan 1 0) };
  taken = refl;
}

start-Runs : Runs (publishes order ∷ []) start end
unfolding step publish lookup text_beq
start-Runs = (
  swapped,
  end,
  start-swapped,
  ((_, refl, refl), (λ e. omega arith, tt), refl, ((_, refl, refl), tt, refl, tt)),
  refl,
  (
    SameWorld-refl end,
    ((_, refl, refl), (λ e. omega arith, tt), refl, ((_, refl, refl), tt, refl, tt)),
  ),
)

Runs-agree_example :
    (w' : World) × (run (publishes order ∷ []) start ≡ ok w')
    × SameWorld w' end
    × (subscriber_count w'.broadcaster ≡ subscriber_count end.broadcaster)
    × (changes_dropped w'.broadcaster ≡ changes_dropped end.broadcaster)
unfolding lookup text_beq
Runs-agree_example =
    Runs-agree (publishes order ∷ []) start end
      ((_, refl, refl), (λ e. omega arith, tt), refl, ((_, refl, refl), tt, refl, tt)) start-Runs
