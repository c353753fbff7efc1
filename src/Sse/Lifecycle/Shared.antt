-- ===== src/Sse/Lifecycle/Shared.antt =====
-- sse.go: one http.Server for all calls.
use phylax.Base.{
  ℕ, Bool, true, false, get_elem?, All, All-append, All-get_elem?, All-set, All-map, List, [], ◌∷◌,
  Option, none, some, ◌≡◌, refl, ◌∙◌, ap, subst, ◌⊎◌, inl, inr, arith,
}
use phylax.Sse.Lifecycle.{
  Server, Call, obtained, serving, closed, Lifecycle, Action, serves, listens, serve, runs, asks,
  marks, handles, close_call, ensure_init, http_server_of, http_server, accepted, run_call, mark,
  step,
}

-- A call has the one http.Server, and accepts only while its flag is not set.
abbrev pub Agrees : Bool → Call → Type 0
Agrees flag (obtained a) = a ≡ 0
Agrees flag (serving a) = (a ≡ 0) × (flag ≡ false)
Agrees flag closed = Unit

module _ {Caster Provider : Type 0} where
  -- No http.Server was made yet.
  pub record IsUnused (w : Lifecycle Caster Provider) : Type 0 where
    pub none_yet : w.server.srv ≡ none
    pub no_flags : w.flags ≡ []
    pub no_calls : w.calls ≡ []
    pub no_asked : w.asked ≡ []

  -- One was made, and all calls have it.
  pub record IsShared (flag : Bool) (w : Lifecycle Caster Provider) : Type 0 where
    pub made : w.server.srv ≡ some 0
    pub one : w.flags ≡ flag ∷ []
    pub agree : All (Agrees flag) w.calls
    pub same : All (λ a. a ≡ 0) w.asked

  -- What a step makes of a shared http.Server: its flag is never cleared.
  abbrev pub Goes : Bool → Lifecycle Caster Provider → Type 0
  Goes flag w = (flag' : Bool) × IsShared flag' w × (flag ≡ true → flag' ≡ true)

  abbrev pub IsKnown : Lifecycle Caster Provider → Type 0
  IsKnown w = IsUnused w ⊎ ((flag : Bool) × IsShared flag w)

  module _ (caster : Caster) (zero_metrics : Provider) where
    http_server-IsUnused :
        (w : Lifecycle Caster Provider)
        → IsUnused w
        → IsShared false (http_server caster zero_metrics w).0
          × ((http_server caster zero_metrics w).1 ≡ 0)
    unfolding http_server
    http_server-IsUnused w u =
        rw (u.none_yet, http_server_of)
          (
            record {
              made = rw u.no_flags refl;
              one = rw u.no_flags refl;
              agree = rw u.no_calls tt;
              same = rw u.no_asked tt;
            },
            rw u.no_flags refl,
          )

    http_server-IsShared :
        (flag : Bool) (w : Lifecycle Caster Provider)
        → IsShared flag w
        → http_server caster zero_metrics w ≡ (w, 0)
    unfolding http_server
    http_server-IsShared flag w h = rw (h.made, http_server_of) refl

    accepted-Agrees : (flag : Bool) → Agrees flag (accepted caster zero_metrics 0 (some flag))
    accepted-Agrees true = tt
    accepted-Agrees false = (refl, refl)

    close_call-Agrees : (flag : Bool) (c : Call) → Agrees flag c → Agrees true (close_call 0 c)
    close_call-Agrees flag (obtained a) h = h
    close_call-Agrees flag (serving a) h = rw h.0 tt
    close_call-Agrees flag closed h = tt

    run_call-IsShared :
        (flag : Bool) (i : ℕ) (c : Option Call) (w : Lifecycle Caster Provider)
        → IsShared flag w
        → get_elem? w.calls i ≡ c
        → IsShared flag (run_call caster zero_metrics i c w)
    run_call-IsShared flag i (some (obtained a)) w h e =
        let zero_at : a ≡ 0 = All-get_elem? (Agrees flag) w.calls i (obtained a) h.agree e in
        record {
          made = h.made;
          one = h.one;
          agree =
              All-set (Agrees flag) w.calls i _ h.agree
                (rw (zero_at, h.one) (accepted-Agrees flag));
          same = h.same;
        }
    run_call-IsShared flag i (some (serving a)) w h e = h
    run_call-IsShared flag i (some closed) w h e = h
    run_call-IsShared flag i none w h e = h

    -- A Shutdown that has its http.Server sets the flag.
    pub mark-IsShared :
        (flag : Bool) (a : ℕ) (asked : List ℕ) (w : Lifecycle Caster Provider)
        → IsShared flag w
        → w.asked ≡ a ∷ asked
        → IsShared true (mark caster zero_metrics (a ∷ asked) w)
    mark-IsShared flag a asked w h e =
        let (first, rest) = subst (All (λ (a : ℕ). a ≡ 0)) e h.same in
        record {
          made = h.made;
          one = rw (first, h.one) refl;
          agree = rw first (
              All-map (Agrees flag) (Agrees true) (close_call 0) w.calls (close_call-Agrees flag)
                h.agree);
          same = rest;
        }

    mark-Goes :
        (flag : Bool) (asked : List ℕ) (w : Lifecycle Caster Provider)
        → IsShared flag w
        → w.asked ≡ asked
        → Goes flag (mark caster zero_metrics asked w)
    mark-Goes flag [] w h e = (flag, h, λ p. p)
    mark-Goes flag (a ∷ asked) w h e = (true, mark-IsShared flag a asked w h e, λ p. refl)

    ensure_init-srv : (s : Server Caster Provider) → (ensure_init caster zero_metrics s).srv ≡ s.srv
    unfolding ensure_init
    ensure_init-srv s = ground arith

    serve-Goes :
        (flag : Bool) (w : Lifecycle Caster Provider)
        → IsShared flag w
        → Goes flag (serve caster zero_metrics (http_server caster zero_metrics w))
    serve-Goes flag w h = rw (http_server-IsShared flag w h) (
      flag,
      record {
        made = h.made;
        one = h.one;
        agree = All-append (Agrees flag) w.calls (obtained 0 ∷ []) h.agree (refl, tt);
        same = h.same;
      },
      λ p. p,
    )

    serve-IsUnused :
        (w : Lifecycle Caster Provider)
        → IsUnused w
        → IsKnown (serve caster zero_metrics (http_server caster zero_metrics w))
    serve-IsUnused w u =
        let (h, e) = http_server-IsUnused w u in
        inr (
          false,
          record {
            made = h.made;
            one = h.one;
            agree = All-append (Agrees false) _ _ h.agree (e, tt);
            same = h.same;
          },
        )

    pub step-Goes :
        (flag : Bool) (a : Action) (w : Lifecycle Caster Provider)
        → IsShared flag w
        → Goes flag (step caster zero_metrics a w)
    unfolding step
    step-Goes flag serves w h = serve-Goes flag w h
    step-Goes flag (listens (some e)) w h = (flag, h, λ p. p)
    step-Goes flag (listens none) w h = serve-Goes flag w h
    step-Goes flag (runs i) w h = (flag, run_call-IsShared flag i _ w h refl, λ p. p)
    step-Goes flag asks w h = rw (http_server-IsShared flag w h) (
      flag,
      record {
        made = h.made;
        one = h.one;
        agree = h.agree;
        same = All-append (λ a. a ≡ 0) w.asked (0 ∷ []) h.same (refl, tt);
      },
      λ p. p,
    )
    step-Goes flag marks w h = mark-Goes flag w.asked w h refl
    step-Goes flag handles w h = (
      flag,
      record {
        made = ensure_init-srv w.server ∙ h.made;
        one = h.one;
        agree = h.agree;
        same = h.same;
      },
      λ p. p,
    )

    pub step-IsUnused :
        (a : Action) (w : Lifecycle Caster Provider)
        → IsUnused w
        → IsKnown (step caster zero_metrics a w)
    unfolding step
    step-IsUnused serves w u = serve-IsUnused w u
    step-IsUnused (listens (some e)) w u = inl u
    step-IsUnused (listens none) w u = serve-IsUnused w u
    step-IsUnused (runs i) w u = inl (rw (ap (λ calls. get_elem? calls i) u.no_calls, run_call) u)
    step-IsUnused asks w u =
        let (h, e) = http_server-IsUnused w u in
        inr (
          false,
          record {
            made = h.made;
            one = h.one;
            agree = h.agree;
            same = All-append (λ a. a ≡ 0) _ _ h.same (e, tt);
          },
        )
    step-IsUnused marks w u = inl (simp (u.no_asked, mark) u)
    step-IsUnused handles w u = inl (record {
      none_yet = ensure_init-srv w.server ∙ u.none_yet;
      no_flags = u.no_flags;
      no_calls = u.no_calls;
      no_asked = u.no_asked;
    })
