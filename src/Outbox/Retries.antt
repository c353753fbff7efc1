-- ===== src/Outbox/Retries.antt =====
-- deliverWithRetry of outbox.go: how often the handler is called, when, and what is counted.
use phylax.Base.{
  ℕ, zero, suc, ◌+◌, ◌<◌, true, false, Bool-cases, Option-cases, add64, sub64, sub64-add64,
  word_mod, List, [], ◌∷◌, ◌++◌, append_assoc, none, some, Error, subst, ◌≡◌, refl, sym, ap, ◌∙◌,
  ◌⊎◌, inl, inr, ℤ, arith,
}
use phylax.Outbox.{
  Answers, Event, waits, calls, acks, Ended, succeeded, exhausted, cancelled, Counters, wait_events,
  may_proceed, retry, settle, deliver_with_retry, ack_statement,
}

-- The waits and calls of the attempts from one on, `n` of them.
pub attempts : ℕ → ℕ → List Event
attempts from zero = []
attempts from (suc n) = wait_events from ++ calls from ∷ attempts (suc from) n

-- Attempts that are made and fail.
pub record FailsAt (w : Answers) (attempt : ℕ) : Type 0 where
  pub proceeds : may_proceed w attempt ≡ true
  pub error : Error
  pub failed : w.deliver attempt ≡ some error

abbrev pub Fails : Answers → ℕ → ℕ → Type 0
Fails w from n = (i : ℕ) → i < n → FailsAt w (from + i)

-- The three ways in which `left` attempts from one on can end.
abbrev pub EndsWell : Answers → ℤ → ℕ → ℕ → List Event × Ended → Type 0
EndsWell w id from left r =
    (n : ℕ) × (n < left)
    × Fails w from n
    × (may_proceed w (from + n) ≡ true)
    × (w.deliver (from + n) ≡ none)
    × (r ≡ (attempts from (suc n) ++ acks ack_statement id ∷ [], succeeded))

abbrev pub EndsFailed : Answers → ℕ → ℕ → List Event × Ended → Type 0
EndsFailed w from left r = Fails w from left × (r ≡ (attempts from left, exhausted))

abbrev pub EndsEarly : Answers → ℕ → ℕ → List Event × Ended → Type 0
EndsEarly w from left r =
    (n : ℕ) × (n < left)
    × Fails w from n
    × (may_proceed w (from + n) ≡ false)
    × (r ≡ (attempts from n, cancelled))

Fails-zero : (w : Answers) (from : ℕ) → Fails w from 0
Fails-zero w from i h = elim h [ ]

Fails-suc :
    (w : Answers) (from n : ℕ) → FailsAt w from → Fails w (suc from) n → Fails w from (suc n)
Fails-suc w from n f fs zero h = subst (FailsAt w) (omega arith) f
Fails-suc w from n f fs (suc i) h = subst (FailsAt w) (omega arith) (fs i (omega arith))

retry_stop :
    (w : Answers) (id : ℤ) (left from : ℕ)
    → may_proceed w from ≡ false
    → retry w id (suc left) from ≡ ([], cancelled)
unfolding retry
retry_stop w id left from stop = rw stop

retry_good :
    (w : Answers) (id : ℤ) (left from : ℕ)
    → may_proceed w from ≡ true
    → w.deliver from ≡ none
    → retry w id (suc left) from ≡ (attempts from 1 ++ acks ack_statement id ∷ [], succeeded)
unfolding retry attempts
retry_good w id left from go good =
    rw (go, good)
      (ap (λ l. (l, succeeded))
        (sym (append_assoc (wait_events from) (calls from ∷ []) (acks ack_statement id ∷ []))))

retry_again :
    (w : Answers) (id : ℤ) (left from : ℕ) (e : Error) (events : List Event) (end : Ended)
    → may_proceed w from ≡ true
    → w.deliver from ≡ some e
    → retry w id left (suc from) ≡ (events, end)
    → retry w id (suc left) from ≡ (wait_events from ++ calls from ∷ events, end)
unfolding retry
retry_again w id left from e events end go bad r = rw (go, bad, r)

retry_ends :
    (w : Answers) (id : ℤ) (left from : ℕ)
    → EndsWell w id from left (retry w id left from)
      ⊎ EndsFailed w from left (retry w id left from)
      ⊎ EndsEarly w from left (retry w id left from)
retry_ends w id zero from = inr (inl (Fails-zero w from, unfold retry attempts in refl))
retry_ends w id (suc left) from = elim (Bool-cases (may_proceed w from)) [
  | inr stop ↦ inr (
      inr (
        0,
        omega arith,
        Fails-zero w from,
        rw (← here) stop,
        retry_stop w id left from stop ∙ unfold attempts in refl,
      ))
  | inl go ↦ elim (Option-cases (w.deliver from)) [
    | inl good ↦ inl (
      0,
      omega arith,
      Fails-zero w from,
      rw (← here) go,
      rw (← here) good,
      retry_good w id left from go good,
    )
    | inr (e, bad) ↦
        let f : FailsAt w from = record { proceeds = go; error = e; failed = bad } in
        elim (retry_ends w id left (suc from)) [
          | inl (n, lt, fs, p, d, r) ↦ inl (
            suc n,
            omega arith,
            Fails-suc w from n f fs,
            rw (shift n) p,
            rw (shift n) d,
            retry_again w id left from e _ succeeded go bad r
                ∙ unfold attempts in
                  ap (λ l. (l, succeeded))
                    (sym (
                      append_assoc (wait_events from) (calls from ∷ attempts (suc from) (suc n))
                        (acks ack_statement id ∷ []))),
          )
          | inr (inl (fs, r)) ↦ inr (
              inl (
                Fails-suc w from left f fs,
                retry_again w id left from e _ exhausted go bad r ∙ unfold attempts in refl,
              ))
          | inr (inr (n, lt, fs, p, r)) ↦ inr (
              inr (
                suc n,
                omega arith,
                Fails-suc w from n f fs,
                rw (shift n) p,
                retry_again w id left from e _ cancelled go bad r ∙ unfold attempts in refl,
              ))
        ]
  ]
]
  where
    here : from ≡ from + 0
    here = omega arith

    shift : (n : ℕ) → from + suc n ≡ suc from + n
    shift n = omega arith

settled : Answers → ℤ → Counters → List Event × Ended → Counters × List Event
settled w id c (events, end) =
    let s = settle end (record c { inflight = add64 c.inflight 1 }) in
    (record s { inflight = sub64 s.inflight 1 }, events)

deliver_with_retry-settled :
    (w : Answers) (id : ℤ) (c : Counters) (r : List Event × Ended)
    → retry w id 6 0 ≡ r
    → deliver_with_retry w id c ≡ settled w id c r
unfolding deliver_with_retry settled
deliver_with_retry-settled w id c r e = rw e

lowered : (c : Counters) → c.inflight < word_mod → sub64 (add64 c.inflight 1) 1 ≡ c.inflight
lowered c h = sub64-add64 c.inflight 1 h (omega arith)

-- Every delivery ends in one of three ways, the gauge of rows in flight being a 64-bit word that is
-- back at its value in each. After n < 6 failed attempts one succeeds: the handler was called n + 1
-- times, with the backoffs between, the row is acked once (whatever the ack returns) and only
-- `delivered` grows, by one. Or six attempts fail: only `failed` grows, by one, and nothing is
-- acked. Or the context ends the wait after n < 6 failed attempts: no counter changes, no ack.
pub deliver_with_retry_ends :
    (w : Answers) (id : ℤ) (c : Counters)
    → c.inflight < word_mod
    → ((n : ℕ) × (n < 6)
        × Fails w 0 n
        × (w.deliver (0 + n) ≡ none)
        × (deliver_with_retry w id c ≡ (
          record c { delivered = add64 c.delivered 1 },
          attempts 0 (suc n) ++ acks ack_statement id ∷ [],
        )))
      ⊎ (Fails w 0 6
          × (deliver_with_retry w id c ≡ (record c { failed = add64 c.failed 1 }, attempts 0 6)))
      ⊎ ((n : ℕ) × (n < 6)
          × Fails w 0 n
          × (may_proceed w (0 + n) ≡ false)
          × (deliver_with_retry w id c ≡ (c, attempts 0 n)))
unfolding settled
deliver_with_retry_ends w id c h = elim (retry_ends w id 6 0) [
  | inl (n, lt, fs, p, d, r) ↦ inl (
    n,
    lt,
    fs,
    d,
    deliver_with_retry-settled w id c _ r
        ∙ ap
            (λ i. (
              record c { delivered = add64 c.delivered 1; inflight = i },
              attempts 0 (suc n) ++ acks ack_statement id ∷ [],
            ))
            (lowered c h),
  )
  | inr (inl (fs, r)) ↦ inr (
      inl (
        fs,
        deliver_with_retry-settled w id c _ r
            ∙ ap (λ i. (record c { failed = add64 c.failed 1; inflight = i }, attempts 0 6))
                (lowered c h),
      ))
  | inr (inr (n, lt, fs, p, r)) ↦ inr (
      inr (
        n,
        lt,
        fs,
        p,
        deliver_with_retry-settled w id c _ r
            ∙ ap (λ i. (record c { inflight = i }, attempts 0 n)) (lowered c h),
      ))
]

abbrev pub calls_in : List Event → ℕ
calls_in [] = 0
calls_in (calls n ∷ events) = suc (calls_in events)
calls_in (waits d ∷ events) = calls_in events
calls_in (acks s id ∷ events) = calls_in events

-- The nanoseconds that the backoffs of a trace take.
abbrev pub waited_in : List Event → ℕ
waited_in [] = 0
waited_in (waits d ∷ events) = d + waited_in events
waited_in (calls n ∷ events) = waited_in events
waited_in (acks s id ∷ events) = waited_in events

-- A row whose every attempt fails, with no wait cut short, is handed to the handler six times,
-- after backoffs of 1, 2, 4, 8 and 16 seconds (31 in all), and is never acked; it is counted as
-- failed once, the gauge being a 64-bit word.
pub exhausted_row :
    (w : Answers) (id : ℤ) (c : Counters)
    → c.inflight < word_mod
    → Fails w 0 6
    → let (c', events) = deliver_with_retry w id c in
      (calls_in events ≡ 6)
      × (waited_in events ≡ 31_000_000_000)
      × (c' ≡ record c { failed = add64 c.failed 1 })
unfolding attempts
exhausted_row w id c h fs = elim (deliver_with_retry_ends w id c h) [
  | inl (n, lt, _, d, r) ↦ ground (arith, d, fs n lt)
  | inr (inl (_, r)) ↦ rw r (refl, refl, refl)
  | inr (inr (n, lt, _, p, r)) ↦ ground (arith, p, fs n lt)
]
