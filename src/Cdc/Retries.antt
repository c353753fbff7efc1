-- ===== src/Cdc/Retries.antt =====
-- Start and retryable of cdc.go: what is retried, after which waits, and what Start returns.
use phylax.Base.{
  codes, text_beq_iff, ap, ◌||◌, ◌==◌, sym, ℕ, zero, suc, ◌*◌, ◌^◌, ◌<◌, Bool, true, false,
  Bool-cases, Text, text_eq, List, [], ◌∷◌, get_elem?, length, All, All-get_elem?, >>=-eq-ok,
  Option, some, some_inj, Error, message, wrap, pg_error, canceled, deadline_exceeded, no_rows, ok,
  ◌≡◌, refl, ◌∙◌, subst, ◌⊎◌, inl, inr, arith,
}
use phylax.Stream.Sessions.{server_error}
use phylax.Cdc.{
  Cdc, transient_codes, contains, retryable, initial_backoff, max_backoff, min, Round, Loop,
  retrying, ended, stops, retry_loop, start, finish, unsubscribe_all,
}

-- The error at the bottom of a chain of `%w`.
abbrev pub cause : Error → Error
cause (wrap text e) = cause e
cause e = e

-- A SQLSTATE after which the server may be there again: the connection exceptions 08000, 08001, 08003 and
-- 08006, 53300 (too many connections), and 57P01 to 57P04 (shut down, crashed, not up yet, dropped).
abbrev pub IsPassing : Text → Type 0
IsPassing code =
    (code ≡ codes "08000")
    ⊎ (code ≡ codes "08001")
    ⊎ (code ≡ codes "08003")
    ⊎ (code ≡ codes "08006")
    ⊎ (code ≡ codes "53300")
    ⊎ (code ≡ codes "57P01")
    ⊎ (code ≡ codes "57P02")
    ⊎ (code ≡ codes "57P03")
    ⊎ (code ≡ codes "57P04")

-- An error that is no cancellation, and no error of the server with another SQLSTATE.
abbrev pub IsTransient : Error → Type 0
IsTransient canceled = ⊥
IsTransient deadline_exceeded = ⊥
IsTransient (pg_error code) = IsPassing code
IsTransient e = Unit

-- The equations of a list's members.
abbrev OneOf : List Text → Text → Type 0
OneOf [] code = ⊥
OneOf (c ∷ []) code = code ≡ c
OneOf (c ∷ d ∷ cs) code = (code ≡ c) ⊎ OneOf (d ∷ cs) code

contains-OneOf : (cs : List Text) (code : Text) → contains cs code ≡ true → OneOf cs code
contains-OneOf [] code h = absurd (cc)
contains-OneOf (c ∷ []) code h = elim (Bool-cases (c == code)) [
  | inl e ↦ sym ((text_beq_iff c code).0 e)
  | inr ne ↦ absurd (ground (arith, ne, h))
]
contains-OneOf (c ∷ d ∷ cs) code h = elim (Bool-cases (c == code)) [
  | inl e ↦ inl (sym ((text_beq_iff c code).0 e))
  | inr ne ↦ inr (contains-OneOf (d ∷ cs) code (ground (arith, ne, h)))
]

OneOf-contains : (cs : List Text) (code : Text) → OneOf cs code → contains cs code ≡ true
OneOf-contains [] code h = elim h [ ]
OneOf-contains (c ∷ []) code h = ap (λ b. b || false) ((text_beq_iff c code).1 (sym h))
OneOf-contains (c ∷ d ∷ cs) code (inl e) =
    ap (λ b. b || contains (d ∷ cs) code) ((text_beq_iff c code).1 (sym e))
OneOf-contains (c ∷ d ∷ cs) code (inr h) = ground (arith, OneOf-contains (d ∷ cs) code h)

-- However often an error is wrapped, it is retried exactly where what the chain of `%w` ends in is neither
-- of the two errors of a context, and is no error of the server unless its SQLSTATE is one of 08000,
-- 08001, 08003, 08006, 53300, 57P01, 57P02, 57P03 and 57P04; every other error always is.
pub retryable_lem :
    (e : Error)
    → (retryable (some e) ≡ true → IsTransient (cause e))
      × (IsTransient (cause e) → retryable (some e) ≡ true)
unfolding retryable
retryable_lem (wrap text e) = unfold retryable in retryable_lem e
retryable_lem (message text) = (λ h. tt, λ h. refl)
retryable_lem (pg_error code) =
    (contains-OneOf transient_codes code, OneOf-contains transient_codes code)
retryable_lem canceled = (λ h. absurd (cc), λ h. elim h [ ])
retryable_lem deadline_exceeded = (λ h. absurd (cc), λ h. elim h [ ])
retryable_lem no_rows = (λ h. tt, λ h. refl)

-- The backoff before the retry that follows n others.
abbrev pub backoff_at : ℕ → ℕ
backoff_at n = min (initial_backoff * 2 ^ n) max_backoff

min-next : (n : ℕ) → min (backoff_at n * 2) max_backoff ≡ backoff_at (suc n)
min-next n = ground (arith)

-- The backoffs from the k-th on, n of them.
unfoldable pub backoffs : ℕ → ℕ → List ℕ
backoffs k zero = []
backoffs k (suc n) = backoff_at k ∷ backoffs (suc k) n

-- A round that fails in a way to be retried, whose wait is not cut short.
abbrev pub IsRetried : Round → Type 0
IsRetried r = (stops r ≡ false) × (r.slept ≡ true)

abbrev pub AllRetried : List Round → ℕ → Type 0
AllRetried rounds n = (i : ℕ) → i < n → (r : Round) × (get_elem? rounds i ≡ some r) × IsRetried r

-- The round after n others is the last: it stops, or its wait is cut short.
abbrev pub EndsAt : List Round → ℕ → ℕ → List ℕ × Loop → Type 0
EndsAt rounds k n result =
    (r : Round) × (get_elem? rounds n ≡ some r)
    × (((stops r ≡ true) × (result ≡ (backoffs k n, ended r.result)))
        ⊎ ((stops r ≡ false) × (r.slept ≡ false) × (result ≡ (backoffs k (suc n), ended r.result))))

AllRetried-zero : (rounds : List Round) → AllRetried rounds 0
AllRetried-zero rounds i h = elim h [ ]

AllRetried-suc :
    (r : Round) (rounds : List Round) (n : ℕ)
    → IsRetried r
    → AllRetried rounds n
    → AllRetried (r ∷ rounds) (suc n)
AllRetried-suc r rounds n h a zero l = (r, refl, h)
AllRetried-suc r rounds n h a (suc i) l = a i (omega arith)

loop_stop :
    (r : Round) (rs : List Round) (b : ℕ)
    → stops r ≡ true
    → retry_loop (r ∷ rs) b ≡ ([], ended r.result)
unfolding retry_loop
loop_stop r rs b h = rw h refl

loop_cut :
    (r : Round) (rs : List Round) (b : ℕ)
    → stops r ≡ false
    → r.slept ≡ false
    → retry_loop (r ∷ rs) b ≡ (b ∷ [], ended r.result)
unfolding retry_loop
loop_cut r rs b h s = rw (h, s) refl

loop_next :
    (r : Round) (rs : List Round) (k : ℕ) (slept : List ℕ) (end : Loop)
    → IsRetried r
    → retry_loop rs (backoff_at (suc k)) ≡ (slept, end)
    → retry_loop (r ∷ rs) (backoff_at k) ≡ (backoff_at k ∷ slept, end)
unfolding retry_loop
loop_next r rs k slept end (h, s) e = rw (h, s, min-next k, e) refl

retry_loop_from :
    (rounds : List Round) (k : ℕ)
    → (AllRetried rounds (length rounds)
        × (retry_loop rounds (backoff_at k) ≡ (backoffs k (length rounds), retrying)))
      ⊎ ((n : ℕ) × AllRetried rounds n × EndsAt rounds k n (retry_loop rounds (backoff_at k)))
retry_loop_from [] k = inl (AllRetried-zero [], unfold retry_loop backoffs in refl)
retry_loop_from (r ∷ rs) k = elim (Bool-cases (stops r)) [
  | inl stop ↦ inr (
    0,
    AllRetried-zero (r ∷ rs),
    (r, refl, inl (stop, loop_stop r rs _ stop ∙ unfold backoffs in refl)),
  )
  | inr go ↦ elim (Bool-cases r.slept) [
    | inr cut ↦ inr (
      0,
      AllRetried-zero (r ∷ rs),
      (r, refl, inr (go, cut, loop_cut r rs _ go cut ∙ unfold backoffs in refl)),
    )
    | inl slept ↦ elim (retry_loop_from rs (suc k)) [
      | inl (a, e) ↦ inl (
        AllRetried-suc r rs (length rs) (go, slept) a,
        loop_next r rs k _ retrying (go, slept) e ∙ unfold backoffs in refl,
      )
      | inr (n, a, (q, at, inl (st, e))) ↦ inr (
        suc n,
        AllRetried-suc r rs n (go, slept) a,
        (q, at, inl (st, loop_next r rs k _ _ (go, slept) e ∙ unfold backoffs in refl)),
      )
      | inr (n, a, (q, at, inr (st, c, e))) ↦ inr (
        suc n,
        AllRetried-suc r rs n (go, slept) a,
        (q, at, inr (st, c, loop_next r rs k _ _ (go, slept) e ∙ unfold backoffs in refl)),
      )
    ]
  ]
]

pub retry_loop_lem :
    (rounds : List Round)
    → (AllRetried rounds (length rounds)
        × (retry_loop rounds initial_backoff ≡ (backoffs 0 (length rounds), retrying)))
      ⊎ ((n : ℕ) × AllRetried rounds n × EndsAt rounds 0 n (retry_loop rounds initial_backoff))
retry_loop_lem rounds = retry_loop_from rounds 0

-- An error response of the server that ends a session is always retried, whatever its SQLSTATE: it
-- is not kept as an error of the server.
pub server_error_retried :
    (m detail code : Text) → retryable (some (server_error m detail code)) ≡ true
unfolding retryable server_error
server_error_retried m detail code = refl

-- The rounds and the last look agree on the context: once it is done, it stays so.
abbrev pub Agrees : Bool → Round → Type 0
Agrees done r = (r.is_done ≡ true → done ≡ true) × (r.slept ≡ false → done ≡ true)

-- What the loop ended with, where the context is not done.
last_error :
    (r : Round) (e : Error)
    → Agrees false r
    → r.result ≡ some e
    → (stops r ≡ true) ⊎ (r.slept ≡ false)
    → retryable (some e) ≡ false
last_error r e (d, s) h (inl st) = elim (Bool-cases r.is_done) [
  | inl done ↦ absurd (cc (d done))
  | inr open_ ↦ ground (arith, h, st, open_)
]
last_error r e (d, s) h (inr cut) = absurd (cc (s cut))

finish-some :
    (done : Bool) (e : Error) (l : Loop) (c c' : Cdc)
    → finish done l c ≡ some (ok (some e, c'))
    → (done ≡ false) × (l ≡ ended (some e))
unfolding finish
finish-some done e retrying c c' h = absurd (cc)
finish-some done e (ended last) c c' h =
    let (c1, _, q) = >>=-eq-ok (unsubscribe_all c) _ (some_inj h) in
    elim (Bool-cases done) [
      | inl d ↦ absurd (ground (arith, d, q))
      | inr d ↦ (d, ground (arith, d, q))
    ]

ended-same :
    (p : List ℕ × Loop) (waits : List ℕ) (a b : Option Error)
    → p ≡ (waits, ended a)
    → p.1 ≡ ended b
    → a ≡ b
ended-same p waits a b h k = cc

-- Where Start returns an error, the context is not done, and the error is what some session
-- returned and is not to be retried. So a client that is shut down returns nil, and an error that
-- is retryable is never returned.
pub start_returns :
    (rounds : List Round) (done : Bool) (c c' : Cdc) (e : Error)
    → All (Agrees done) rounds
    → start rounds done c ≡ some (ok (some e, c'))
    → (done ≡ false)
      × (retryable (some e) ≡ false)
      × ((n : ℕ) × (r : Round) × (get_elem? rounds n ≡ some r) × (r.result ≡ some e))
unfolding start
start_returns rounds done c c' e a h =
    let (d, l) = finish-some done e _ c c' h in
    elim (retry_loop_lem rounds) [
      | inl (_, q) ↦ absurd (ground (arith, q, l))
      | inr (n, _, (r, at, w)) ↦
          let agrees : Agrees false r =
            subst (λ b. Agrees b r) d (All-get_elem? (Agrees done) rounds n r a at) in
          elim w [
            | inl (st, q) ↦
                let same = ended-same _ _ r.result (some e) q l in
                (d, last_error r e agrees same (inl st), (n, r, at, same))
            | inr (st, cut, q) ↦
                let same = ended-same _ _ r.result (some e) q l in
                (d, last_error r e agrees same (inr cut), (n, r, at, same))
          ]
    ]
