-- ===== src/Sse/Lifecycle/Closing.antt =====
-- sse.go: none of the calls of Serve accepts after a Shutdown.
use phylax.Base.{
  ℕ, Bool, true, length, get_elem?, get_elem?-lt, get_elem?-set_self, set, All-get_elem?, List, [],
  ◌∷◌, ◌++◌, none, some, ◌≡◌, ◌≢◌, refl, subst, inl, inr,
}
use phylax.Sse.Lifecycle.{
  Server, obtained, serving, closed, Lifecycle, Action, runs, marks, accepted, run_call, mark, step,
  run, started,
}
use phylax.Sse.Lifecycle.Shared.{
  Agrees, IsShared, Goes, IsKnown, mark-IsShared, step-Goes, step-IsUnused,
}

module _ {Caster Provider : Type 0} (caster : Caster) (zero_metrics : Provider) where
  run-IsKnown :
      (actions : List Action) (w : Lifecycle Caster Provider)
      → IsKnown w
      → IsKnown (run caster zero_metrics actions w)
  unfolding run
  run-IsKnown [] w h = h
  run-IsKnown (a ∷ actions) w (inl u) =
      run-IsKnown actions (step caster zero_metrics a w) (step-IsUnused caster zero_metrics a w u)
  run-IsKnown (a ∷ actions) w (inr (flag, h)) =
      let (flag', h', _) = step-Goes caster zero_metrics flag a w h in
      run-IsKnown actions (step caster zero_metrics a w) (inr (flag', h'))

  run-Goes :
      (actions : List Action) (flag : Bool) (w : Lifecycle Caster Provider)
      → IsShared flag w
      → Goes flag (run caster zero_metrics actions w)
  unfolding run
  run-Goes [] flag w h = (flag, h, λ p. p)
  run-Goes (a ∷ actions) flag w h =
      let (flag1, h1, k1) = step-Goes caster zero_metrics flag a w h in
      let (flag2, h2, k2) = run-Goes actions flag1 (step caster zero_metrics a w) h1 in
      (flag2, h2, λ p. k2 (k1 p))

  run-append :
      (xs ys : List Action) (w : Lifecycle Caster Provider)
      → run caster zero_metrics (xs ++ ys) w
        ≡ run caster zero_metrics ys (run caster zero_metrics xs w)
  unfolding run
  run-append [] ys w = refl
  run-append (a ∷ xs) ys w = run-append xs ys (step caster zero_metrics a w)

  marks-IsShared :
      (w : Lifecycle Caster Provider)
      → IsKnown w
      → w.asked ≢ []
      → IsShared true (step caster zero_metrics marks w)
  unfolding step
  marks-IsShared w (inl u) k = absurd (k u.no_asked)
  marks-IsShared w (inr (flag, h)) k = marked w.asked refl
    where
      marked : (asked : List ℕ) → w.asked ≡ asked → IsShared true (mark caster zero_metrics asked w)
      marked [] e = absurd (k e)
      marked (a ∷ asked) e = mark-IsShared caster zero_metrics flag a asked w h e

  run_call-closed :
      (i a : ℕ) (w : Lifecycle Caster Provider)
      → IsShared true w
      → get_elem? w.calls i ≡ some (obtained a)
      → get_elem? (run_call caster zero_metrics i (get_elem? w.calls i) w).calls i ≡ some closed
  run_call-closed i a w h at =
      let zero_at : a ≡ 0 = All-get_elem? (Agrees true) w.calls i (obtained a) h.agree at in
      rw (at, zero_at, h.one, accepted)
        (get_elem?-set_self w.calls i closed (get_elem?-lt w.calls i at))

  -- Let any calls of Serve, ListenAndServe, Shutdown and the handlers run on a fresh Server, in any order, until a
  -- Shutdown that has its http.Server shuts it down, and any calls after that. Then one http.Server
  -- was made for all of them, none of the calls of Serve accepts connections, and a call that has
  -- yet to start with the http.Server returns ErrServerClosed at once.
  pub run_closes :
      (s : Server Caster Provider) (before after : List Action)
      → s.srv ≡ none
      → (run caster zero_metrics before (started s)).asked ≢ []
      → let w : Lifecycle Caster Provider =
          run caster zero_metrics (before ++ marks ∷ after) (started s) in
        (length w.flags ≡ 1)
        × ((i a : ℕ) → get_elem? w.calls i ≢ some (serving a))
        × ((i a : ℕ)
            → get_elem? w.calls i ≡ some (obtained a)
            → get_elem? (step caster zero_metrics (runs i) w).calls i ≡ some closed)
  unfolding run started step
  run_closes s before after e k =
      let w0 = run caster zero_metrics before (started s) in
      let known =
        run-IsKnown before (started s)
          (inl (record { none_yet = e; no_flags = refl; no_calls = refl; no_asked = refl })) in
      let w1 = step caster zero_metrics marks w0 in
      let (flag, h, set) = run-Goes after true w1 (marks-IsShared w0 known k) in
      let end : IsShared true (run caster zero_metrics after w1) =
        subst (λ f. IsShared f (run caster zero_metrics after w1)) (set refl) h in
      rw (run-append before (marks ∷ after) (started s)) (
        rw end.one refl,
        λ i a at.
            let (_, q) = All-get_elem? (Agrees true) _ i (serving a) end.agree at in absurd (cc),
        λ i a at. run_call-closed i a _ end at,
      )
