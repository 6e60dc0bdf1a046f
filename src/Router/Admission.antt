-- ===== src/Router/Admission.antt =====
-- Which requests reach a handler.
use finch_daemon.Prelude.{
  ◌≡◌, refl, ◌∙◌, ◌⊎◌, inl, inr, String, Bool, true, false, Option, none, some, Option-cases,
  Bool-cases,
}
use finch_daemon.Act.{Result, ok, Result-cases}
use finch_daemon.Http.{Writer, fresh, send_error_response}
use finch_daemon.Router.{
  Versions, default_api_version, minimum_api_version, RouteRequest, InputRegoRequest,
  version_middleware, rego_middleware, routed,
}

-- The version that the request is served with is within the bounds, if the request names it.
abbrev pub IsServed : Versions → Option String → String → Type 0
IsServed vs none v = v ≡ default_api_version
IsServed vs (some named) v =
    (v ≡ named)
    × (vs.less_than named minimum_api_version ≡ false)
    × (vs.greater_than named default_api_version ≡ false)

-- The policy allows the method and the path.
abbrev pub IsAllowed : Option (InputRegoRequest → Result Bool) → RouteRequest → Type 0
IsAllowed none r = Unit
IsAllowed (some eval) r = eval (record { method = r.method; path = r.path }) ≡ ok true

abbrev pub Refused : {A : Type 0} → Writer A → Type 0
Refused w = (w.code ≡ some 400) ⊎ ((w.code ≡ some 403) ⊎ (w.code ≡ some 500))

module _ {A : Type 0} (vs : Versions) (next : String → Writer A → Writer A) where
  rego_admission :
      (eval : InputRegoRequest → Result Bool) (r : RouteRequest) (v : String)
      → (IsAllowed (some eval) r × (rego_middleware eval (next v) r fresh ≡ next v fresh))
        ⊎ Refused (rego_middleware eval (next v) r fresh)
  unfolding rego_middleware send_error_response
  rego_admission eval r v =
      elim (Result-cases (eval (record { method = r.method; path = r.path }))) [
        | inr (e, failed) ↦ inr (inr (inr (rw failed refl)))
        | inl (true, yes_) ↦ inl (yes_, rw yes_ refl)
        | inl (false, no_) ↦ inr (inr (inl (rw no_ refl)))
      ]

  version_admission :
      (after : String → Writer A → Writer A) (r : RouteRequest)
      → ((v : String) × IsServed vs r.version v
          × (version_middleware vs after r fresh ≡ after v fresh))
        ⊎ Refused (version_middleware vs after r fresh)
  unfolding version_middleware send_error_response
  version_admission after r = elim (Option-cases r.version) [
    | inl missing ↦ inl (default_api_version, rw missing refl, rw missing refl)
    | inr (named, given) ↦ elim (Bool-cases (vs.less_than named minimum_api_version)) [
      | inl old ↦ inr (inl (rw (given, old) refl))
      | inr recent ↦ elim (Bool-cases (vs.greater_than named default_api_version)) [
        | inl new ↦ inr (inl (rw (given, recent, new) refl))
        | inr known ↦ inl (named, rw given (refl, recent, known), rw (given, recent, known) refl)
      ]
    ]
  ]

  -- A request reaches its handler only with a version within the bounds and with the policy's
  -- consent, if there is one, and the handler's answer is then the answer. Every other request is
  -- refused with 400, 403 or 500, and no handler sees it.
  pub routed_admission :
      (policy : Option (InputRegoRequest → Result Bool)) (r : RouteRequest)
      → ((v : String) × IsServed vs r.version v
          × IsAllowed policy r
          × (routed vs policy next r fresh ≡ next v fresh))
        ⊎ Refused (routed vs policy next r fresh)
  unfolding routed
  routed_admission none r = elim (version_admission next r) [
    | inl (v, served, same) ↦ inl (v, served, tt, same)
    | inr refused ↦ inr refused
  ]
  routed_admission (some eval) r =
      elim (version_admission (λ v. rego_middleware eval (next v) r) r) [
        | inr refused ↦ inr refused
        | inl (v, served, same) ↦ elim (rego_admission eval r v) [
          | inl (allowed, reached) ↦ inl (v, served, allowed, same ∙ reached)
          | inr refused ↦ inr (rw same refused)
        ]
      ]
