-- ===== src/Site/Guarded.antt =====
-- Which requests reach the handlers behind the admin gate.
use mobile_db.Prelude.{
  ltb, Bool-cases, ◌==◌, nat_eq, pair_eq, ℤ_eq, Str, codes, str_eq, str_eq_iff, str_eq_inst, length,
  ◌≡◌, refl, sym, ap, ◌∙◌, ◌≢◌, ◌⊎◌, inl, inr, Bool, true, false, ◌&&◌, ◌||◌, not, Option, List, [],
  ◌∷◌, ◌++◌, arith,
}
use mobile_db.Server.AdminGate.{
  Buckets, Attempt, Verdict, admitted, forbidden, too_many, unauthorized, has_password,
  require_admin_auth, ip_of, ip_allowed, rate_limited,
}
use mobile_db.Server.Requests.{Response, after_prefix}
use mobile_db.Admin.Router.{Stores, Pages, Moment, has_prefix}
use mobile_db.Site.{
  Incoming, World, AppHandlers, MainRoute, to_admin_slash, admin_pages, health_check,
  exported_metrics, app_pages, main_route, gated, inside, behind_gate, admin_handler, serve_route,
  serve_main,
}

-- The paths of the admin pages and of the exported metrics.
abbrev pub is_guarded : Str → Bool
is_guarded path = has_prefix (codes "/admin/") path || path == codes "/metrics"

abbrev behind : MainRoute → Bool
behind admin_pages = true
behind exported_metrics = true
behind _ = false

false≢true : false ≡ true → ⊥
false≢true h = cc

metrics_behind : behind (main_route (codes "/metrics")) ≡ true
unfolding main_route has_prefix str_eq after_prefix
metrics_behind = refl

admin_no_prefix : has_prefix (codes "/admin/") (codes "/admin") ≡ false
unfolding has_prefix after_prefix
admin_no_prefix = refl

main_route-behind : (path : Str) → is_guarded path ≡ true → behind (main_route path) ≡ true
unfolding main_route
main_route-behind path h = elim (Bool-cases (path == codes "/metrics")) [
  | inl e ↦ rw ((str_eq_iff path (codes "/metrics")).0 e) metrics_behind
  | inr e ↦
      let below : has_prefix (codes "/admin/") path ≡ true = ground (arith, h, e) in
      elim (Bool-cases (path == codes "/admin")) [
        | inl a ↦
            let same = (str_eq_iff path (codes "/admin")).0 a in
            elim (false≢true
              (sym admin_no_prefix ∙ ap (has_prefix (codes "/admin/")) (sym same) ∙ below)) [ ]
        | inr a ↦ rw (a, below) refl
      ]
]

-- An answer of the gate: a status with the text for it, and nothing else.
abbrev pub IsRefusal : Response → Type 0
IsRefusal out =
    (out ≡ record { status = 401; body = codes "unauthorized" ++ (10 ∷ []) })
    ⊎ ((out ≡ record { status = 403; body = codes "forbidden" ++ (10 ∷ []) })
        ⊎ (out ≡ record { status = 429; body = codes "too many attempts" ++ (10 ∷ []) }))

gated-refuses :
    {S : Type 0} (v : Verdict) (next : S → Response × S) (s : S)
    → v ≢ admitted
    → IsRefusal (gated v next s).0 × ((gated v next s).1 ≡ s)
unfolding gated
gated-refuses admitted next s h = absurd (h refl)
gated-refuses forbidden next s h = (inr (inl refl), refl)
gated-refuses too_many next s h = (inr (inr refl), refl)
gated-refuses unauthorized next s h = (inl refl, refl)

module _ (split_host : Str → Option Str) (trim_space : Str → Str) (matches : Str → Str → Bool)
    (password_hash : Str) (allowed_ips : List Str) where
  not_admitted :
      (r : Attempt) (buckets : Buckets)
      → has_password split_host trim_space matches password_hash allowed_ips r.password ≡ false
      → (require_admin_auth split_host trim_space matches password_hash allowed_ips r buckets).0
        ≢ admitted
  unfolding require_admin_auth
  not_admitted r buckets h =
      let ip = ip_of split_host trim_space matches password_hash allowed_ips r.remote_addr in
      elim (Bool-cases (ltb 0 (length allowed_ips) && not (ip_allowed trim_space ip allowed_ips))) [
        | inl e ↦ rw e (λ k. cc)
        | inr e ↦ elim (Bool-cases (rate_limited r.at_limit ip buckets).0) [
          | inl l ↦ rw (e, l) (λ k. cc)
          | inr l ↦ rw (e, l, h) (λ k. cc)
        ]
      ]

  module _ {S : Type 0} where
    behind_gate-refuses :
        (next : Stores × S → Response × (Stores × S)) (r : Attempt) (w : World S)
        → has_password split_host trim_space matches password_hash allowed_ips r.password ≡ false
        → let out = behind_gate split_host trim_space matches password_hash allowed_ips next r w in
          IsRefusal out.0 × (out.1.stores ≡ w.stores) × (out.1.rest ≡ w.rest)
    unfolding behind_gate inside
    behind_gate-refuses next r w wrong =
        let v =
          (require_admin_auth split_host trim_space matches password_hash allowed_ips r
            w.buckets).0 in
        let (refusal, same) =
          gated-refuses v next (w.stores, w.rest) (not_admitted r w.buckets wrong) in
        (refusal, ap (λ p. p.0) same, ap (λ p. p.1) same)

  module _ {F S : Type 0} (pages : Pages F) (now : Moment F) (h : AppHandlers (Stores × S)) where
    route-refuses :
        (route : MainRoute) (r : Incoming) (w : World S)
        → behind route ≡ true
        → has_password split_host trim_space matches password_hash allowed_ips r.attempt.password
          ≡ false
        → let out =
            serve_route split_host trim_space matches password_hash allowed_ips pages now h route r
              w in
          IsRefusal out.0 × (out.1.stores ≡ w.stores) × (out.1.rest ≡ w.rest)
    unfolding serve_route
    route-refuses admin_pages r w g wrong =
        behind_gate-refuses (admin_handler pages now r.page) r.attempt w wrong
    route-refuses exported_metrics r w g wrong =
        behind_gate-refuses (h.metrics r.request) r.attempt w wrong
    route-refuses to_admin_slash r w g wrong = cc
    route-refuses health_check r w g wrong = cc
    route-refuses app_pages r w g wrong = cc

    -- A request for an admin page or for the exported metrics whose password is missing or wrong is
    -- answered with 401, 403 or 429 and the text for that status alone, and changes nothing but the
    -- buckets of the gate.
    pub serve_main-refuses :
        (r : Incoming) (w : World S)
        → is_guarded r.page.path ≡ true
        → has_password split_host trim_space matches password_hash allowed_ips r.attempt.password
          ≡ false
        → let out =
            serve_main split_host trim_space matches password_hash allowed_ips pages now h r w in
          IsRefusal out.0 × (out.1.stores ≡ w.stores) × (out.1.rest ≡ w.rest)
    unfolding serve_main
    serve_main-refuses r w guarded wrong =
        route-refuses (main_route r.page.path) r w (main_route-behind r.page.path guarded) wrong
