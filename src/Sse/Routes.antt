-- ===== src/Sse/Routes.antt =====
-- Handler of sse.go and serveDashboard of dashboard.go: which request gets which answer. The paths are
-- those that http.ServeMux does not redirect first; the embedded file is a parameter, by what ReadFile
-- returns, and the headers of http.ServeContent for a cached or partial page are not modelled.
use phylax.Base.{
  ℕ, if◌then◌else◌, Bool, true, false, Text, codes, ◌==◌, text_eq, text_beq, text_beq_iff, not,
  Bool-cases, Error, ◌≡◌, ◌≢◌, refl, sym, ◌∙◌, subst, ◌↔◌, ◌⊎◌, inl, inr, arith,
}

-- The streams are NewSSEHandler and NewMetricsHandler of Connections; a page has its status, whether it is
-- `no-store`, and its body.
pub data Answer : Type 0 where
  events metrics : Answer
  page : ℕ → Bool → Text → Answer

abbrev pub not_found : Answer
not_found = page 404 false (codes "404 page not found\n")

unfoldable pub serve_dashboard : Error ⊎ Text → Text → Answer
serve_dashboard file path = if not (path == codes "/dashboard") then not_found else elim file [
  | inl e ↦ page 404 true (codes "dashboard not found\n")
  | inr body ↦ page 200 true body
]

unfoldable pub handler : Error ⊎ Text → Text → Answer
unfolding serve_dashboard
handler file path =
    if path == codes "/events"
    then events
    else if path == codes "/metrics/stream"
    then metrics
    else if path == codes "/dashboard"
    then serve_dashboard file path
    else not_found

handler_dashboard :
    (file : Error ⊎ Text)
    → handler file (codes "/dashboard") ≡ serve_dashboard file (codes "/dashboard")
unfolding handler text_beq
handler_dashboard file = refl

handler_other :
    (body path : Text) (no_store : Bool)
    → text_beq path (codes "/dashboard") ≡ false
    → handler (inr body) path ≢ page 200 no_store body
unfolding handler
handler_other body path no_store ne e = ground (arith, ne, e)

-- The embedded page is the answer to exactly the requests for /dashboard, and it is never to be stored.
pub handler_page :
    (body path : Text) (no_store : Bool)
    → (handler (inr body) path ≡ page 200 no_store body)
      ↔ ((path ≡ codes "/dashboard") × (no_store ≡ true))
unfolding serve_dashboard text_beq
handler_page body path no_store = (
  λ e. elim (Bool-cases (text_beq path (codes "/dashboard"))) [
    | inl same ↦
        let at : path ≡ codes "/dashboard" = (text_beq_iff path (codes "/dashboard")).0 same in
        let shown : page 200 true body ≡ page 200 no_store body =
          sym (handler_dashboard (inr body))
          ∙ subst (λ p. handler (inr body) p ≡ page 200 no_store body) at e in
        (at, cc)
    | inr ne ↦ absurd (handler_other body path no_store ne e)
  ],
  λ (at, kept). rw (at, kept) (handler_dashboard (inr body)),
)
