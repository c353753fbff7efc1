-- ===== src/Command/Semaphores/Ends.antt =====
-- webhookChangeHandler delivers every change once, at most five at a time, and ends.
use phylax.Base.{
  ℕ, zero, suc, ◌+◌, ◌*◌, ◌≤◌, ltb, if◌then◌else◌, Bool, true, false, length, get_elem?, set, All,
  List, [], ◌∷◌, ◌++◌, append_assoc, Option, none, some, some_inj, ◌≡◌, refl, sym, ◌∙◌, ap, subst,
  ◌≢◌, Bool-cases, ltb→lt, lt→ltb, ◌⊎◌, inl, inr, arith,
}
use phylax.Change.{Change}
use phylax.Command.Semaphores.{
  webhook_concurrency, Deliveries, Action, calls, ends, fresh, acquire, release, end_at, step, run,
  in_flight, changes_of,
}

in_flight-append :
    (posts : List (Change × Bool)) (change : Change)
    → in_flight (posts ++ (change, false) ∷ []) ≡ suc (in_flight posts)
unfolding in_flight
in_flight-append [] change = refl
in_flight-append ((c, true) ∷ posts) change = in_flight-append posts change
in_flight-append ((c, false) ∷ posts) change = ap suc (in_flight-append posts change)

changes_of-append :
    (posts : List (Change × Bool)) (change : Change)
    → changes_of (posts ++ (change, false) ∷ []) ≡ changes_of posts ++ change ∷ []
changes_of-append [] change = refl
changes_of-append (p ∷ posts) change = ap (λ cs. p.0 ∷ cs) (changes_of-append posts change)

in_flight-set :
    (posts : List (Change × Bool)) (i : ℕ) (change : Change)
    → get_elem? posts i ≡ some (change, false)
    → suc (in_flight (set posts i (change, true))) ≡ in_flight posts
unfolding in_flight
in_flight-set [] i change e = absurd (cc)
in_flight-set ((c, true) ∷ posts) zero change e = absurd (cc)
in_flight-set ((c, false) ∷ posts) zero change e = refl
in_flight-set ((c, true) ∷ posts) (suc i) change e = in_flight-set posts i change e
in_flight-set ((c, false) ∷ posts) (suc i) change e = ap suc (in_flight-set posts i change e)

changes_of-set :
    (posts : List (Change × Bool)) (i : ℕ) (change : Change)
    → get_elem? posts i ≡ some (change, false)
    → changes_of (set posts i (change, true)) ≡ changes_of posts
changes_of-set [] i change e = absurd (cc)
changes_of-set (p ∷ posts) zero change e =
    ap (λ (q : Change × Bool). q.0 ∷ changes_of posts) (sym (some_inj e))
changes_of-set (p ∷ posts) (suc i) change e = ap (λ cs. p.0 ∷ cs) (changes_of-set posts i change e)

abbrev pub IsEnded : Change × Bool → Type 0
IsEnded post = post.1 ≡ true

-- All goroutines have ended, or one of them has not.
in_flight-cases :
    (posts : List (Change × Bool))
    → ((in_flight posts ≡ 0) × All IsEnded posts)
      ⊎ ((i : ℕ) × (change : Change) × (get_elem? posts i ≡ some (change, false)))
unfolding in_flight
in_flight-cases [] = inl (refl, tt)
in_flight-cases ((c, false) ∷ posts) = inr (0, c, refl)
in_flight-cases ((c, true) ∷ posts) = elim (in_flight-cases posts) [
  | inl (e, h) ↦ inl (e, (refl, h))
  | inr (i, change, e) ↦ inr (suc i, change, e)
]

-- The slots that are taken are those of the goroutines that have not ended.
pub record IsCounted (changes : List Change) (w : Deliveries) : Type 0 where
  pub counted : w.held ≡ in_flight w.posts
  pub bounded : w.held ≤ webhook_concurrency
  pub order : changes_of w.posts ++ w.pending ≡ changes

abbrev pub left : Deliveries → ℕ
left w = 2 * length w.pending + in_flight w.posts

abbrev Counts : List Change → Deliveries → Deliveries → Type 0
Counts changes w w' = IsCounted changes w' × (suc (left w') ≡ left w)

none-ne-some {ℓ} : {A : Type ℓ} {a : A} → none ≢ some a
none-ne-some = λ e. cc

acquire-Counts :
    (changes pending : List Change) (w w' : Deliveries)
    → IsCounted changes w
    → w.pending ≡ pending
    → acquire pending w ≡ some w'
    → Counts changes w w'
acquire-Counts changes [] w w' h p e = absurd (cc)
acquire-Counts changes (c ∷ pending) w w' h p e =
    let taken : Deliveries = record {
      pending = pending;
      posts = w.posts ++ (c, false) ∷ [];
      held = suc w.held;
    } in
    elim (Bool-cases (ltb w.held webhook_concurrency)) [
      | inl free ↦
          let e' : some taken ≡ some w' =
            subst (λ b. (if b then some taken else none) ≡ some w') free e in
          subst (Counts changes w) (some_inj e') (
            record {
              counted = omega (arith, h.counted, in_flight-append w.posts c);
              bounded = ltb→lt w.held webhook_concurrency free;
              order = rw (changes_of-append w.posts c) (
                  append_assoc (changes_of w.posts) (c ∷ []) pending
                  ∙ subst (λ cs. changes_of w.posts ++ cs ≡ changes) p h.order);
            },
            omega (arith, in_flight-append w.posts c, ap length p),
          )
      | inr full ↦
          absurd (none-ne-some (subst (λ b. (if b then some taken else none) ≡ some w') full e))
    ]

release-Counts :
    (changes : List Change) (i : ℕ) (change : Change) (held : ℕ) (w w' : Deliveries)
    → IsCounted changes w
    → get_elem? w.posts i ≡ some (change, false)
    → w.held ≡ held
    → release i change held w ≡ some w'
    → Counts changes w w'
release-Counts changes i change zero w w' h at p e = absurd (cc)
release-Counts changes i change (suc held) w w' h at p e = subst (Counts changes w) (some_inj e) (
  record {
    counted = omega (arith, p, h.counted, in_flight-set w.posts i change at);
    bounded = omega (arith, p, h.bounded);
    order = rw (changes_of-set w.posts i change at) h.order;
  },
  omega (arith, in_flight-set w.posts i change at),
)

step-Counts :
    (changes : List Change) (a : Action) (w w' : Deliveries)
    → IsCounted changes w
    → step a w ≡ some w'
    → Counts changes w w'
unfolding step
step-Counts changes calls w w' h e = acquire-Counts changes w.pending w w' h refl e
step-Counts changes (ends i) w w' h e = by_post (get_elem? w.posts i) refl e
  where
    by_post :
        (post : Option (Change × Bool))
        → get_elem? w.posts i ≡ post
        → end_at i post w ≡ some w'
        → Counts changes w w'
    by_post (some (change, false)) at e = release-Counts changes i change w.held w w' h at refl e
    by_post (some (change, true)) at e = absurd (cc)
    by_post none at e = absurd (cc)

run-Counts :
    (changes : List Change) (actions : List Action) (w w' : Deliveries)
    → IsCounted changes w
    → run actions w ≡ some w'
    → IsCounted changes w' × (length actions + left w' ≡ left w)
unfolding run
run-Counts changes [] w w' h e =
    subst (λ w'. IsCounted changes w' × (0 + left w' ≡ left w)) (some_inj e) (h, omega arith)
run-Counts changes (a ∷ actions) w w' h e =
    by_step (step a w) refl (λ w1 h1 e1. run-Counts changes actions w1 w' h1 e1) e
  where
    by_step :
        (r : Option Deliveries)
        → step a w ≡ r
        → ((w1 : Deliveries)
            → IsCounted changes w1
            → run actions w1 ≡ some w'
            → IsCounted changes w' × (length actions + left w' ≡ left w1))
        → elim r [ none ↦ none | some w1 ↦ run actions w1 ] ≡ some w'
        → IsCounted changes w' × (suc (length actions) + left w' ≡ left w)
    by_step none s rest e = absurd (cc)
    by_step (some w1) s rest e =
        let (h1, n1) = step-Counts changes a w w1 h s in
        let (h2, n2) = rest w1 h1 e in (h2, omega (arith, n1, n2))

-- Every change was taken, and its goroutine has ended.
abbrev pub IsFinished : Deliveries → Type 0
IsFinished w = (w.pending ≡ []) × All IsEnded w.posts

abbrev pub CanStep : Deliveries → Type 0
CanStep w = (a : Action) × (w' : Deliveries) × (step a w ≡ some w')

ends-CanStep :
    (changes : List Change) (w : Deliveries) (i : ℕ) (change : Change)
    → IsCounted changes w
    → get_elem? w.posts i ≡ some (change, false)
    → CanStep w
unfolding step
ends-CanStep changes w i change h at = by_held w.held refl
  where
    by_held : (held : ℕ) → w.held ≡ held → CanStep w
    by_held zero e = absurd (omega (arith, e, h.counted, in_flight-set w.posts i change at))
    by_held (suc held) e =
        (ends i, record w { posts = set w.posts i (change, true); held = held }, rw (at, e) refl)

calls-CanStep :
    (w : Deliveries) (change : Change) (pending : List Change)
    → w.pending ≡ change ∷ pending
    → ltb w.held webhook_concurrency ≡ true
    → CanStep w
unfolding step
calls-CanStep w change pending p free = (
  calls,
  record { pending = pending; posts = w.posts ++ (change, false) ∷ []; held = suc w.held },
  rw (p, acquire, free) refl,
)

IsFinished-or_CanStep :
    (changes : List Change) (w : Deliveries) → IsCounted changes w → IsFinished w ⊎ CanStep w
IsFinished-or_CanStep changes w h = elim (in_flight-cases w.posts) [
  | inr (i, change, at) ↦ inr (ends-CanStep changes w i change h at)
  | inl (idle, ended) ↦ by_pending w.pending refl idle ended
]
  where
    by_pending :
        (pending : List Change)
        → w.pending ≡ pending
        → in_flight w.posts ≡ 0
        → All IsEnded w.posts
        → IsFinished w ⊎ CanStep w
    by_pending [] p idle ended = inl (p, ended)
    by_pending (change ∷ pending) p idle ended = inr (
        calls-CanStep w change pending p
          (lt→ltb w.held webhook_concurrency (omega (arith, h.counted, idle))))

-- However the calls of the callback and the ends of the goroutines interleave, at most five goroutines
-- are in flight; those that were started and the changes that are pending are, in this order, the
-- changes, so that none is lost or delivered by two goroutines; each step brings the end one step
-- nearer, which is reached after exactly two steps for each change; and as long as it is not
-- reached, with every change taken and every goroutine ended, some step can be taken.
pub run_ends :
    (changes : List Change) (actions : List Action) (w : Deliveries)
    → run actions (fresh changes) ≡ some w
    → (in_flight w.posts ≤ webhook_concurrency)
      × (changes_of w.posts ++ w.pending ≡ changes)
      × (length actions + left w ≡ 2 * length changes)
      × (IsFinished w ⊎ CanStep w)
      × (left w ≡ 0 → IsFinished w)
unfolding fresh in_flight
run_ends changes actions w e =
    let (h, n) =
      run-Counts changes actions (fresh changes) w
        (record { counted = refl; bounded = omega arith; order = refl }) e in
    (
      omega (arith, h.counted, h.bounded),
      h.order,
      omega (arith, n),
      IsFinished-or_CanStep changes w h,
      λ z. elim (IsFinished-or_CanStep changes w h) [
        | inl finished ↦ finished
        | inr (a, w', s) ↦ absurd (omega (arith, z, (step-Counts changes a w w' h s).1))
      ],
    )
