-- ===== src/Auth/Oidc/Acceptance.antt =====
-- auth.py: what `OIDCAuthenticator.authenticate` accepts, and how it refuses.
use ai_agent_security_lab.Prelude.{
  ◌⊎◌, [], ◌∷◌, true, ap, ℕ, ◌≡◌, refl, false, List, Option, none, some, Text, text, Result, ok,
  err, Error, ◌>>=◌, arith, inl, inr, ok-bind, Result-split, Bool-cases,
}
use ai_agent_security_lab.Auth.Roles.{Principal, principal}
use ai_agent_security_lab.Domain.Entities.{tenant_context, validate_identifier}
use ai_agent_security_lab.Auth.Tokens.{bearer_token, invalid_credentials}
use ai_agent_security_lab.Auth.Oidc.{
  array, other, is_refusal, texts_of, role_of, ClaimValue, string, Claims, OidcAuthenticator,
  is_lab_token, claim_of, string_of, list_of, roles_of, principal_of_claims, concealed, decoded,
  authenticate,
}

bearer_token_refuses :
    (h : Option Text) (e : Error) → bearer_token h ≡ err e → e ≡ invalid_credentials
unfolding bearer_token
bearer_token_refuses none e r = ground arith
bearer_token_refuses (some h) e r = ground arith

string_of_lem : (v : ClaimValue) (s : Text) → string_of v ≡ ok s → v ≡ string s
unfolding string_of
string_of_lem v s h = ground arith

-- The principal is that of the claims.
abbrev pub Speaks : OidcAuthenticator → Claims → Principal → Type 0
Speaks o claims p =
    (claim_of (text "sub") claims ≡ ok (string p.subject))
    × (claim_of o.tenant_claim claims ≡ ok (string p.tenant_id))
    × ((claim_of o.roles_claim claims >>= (λ v. list_of v >>= roles_of)) ≡ ok p.roles)
    × (p.auth_method ≡ text "oidc")

principal_same : (p q : Principal) → principal p ≡ ok q → q ≡ p
unfolding principal
principal_same p q h = ground arith

principal_of_claims-Speaks :
    (o : OidcAuthenticator) (claims : Claims) (p : Principal)
    → principal_of_claims o claims ≡ ok p
    → Speaks o claims p
unfolding principal_of_claims
principal_of_claims-Speaks o claims p h =
    let (sv, a, h1) = ok-bind (claim_of (text "sub") claims) _ p h in
    let (tv, b, h2) = ok-bind (claim_of o.tenant_claim claims) _ p h1 in
    let (rv, c, h3) = ok-bind (claim_of o.roles_claim claims) _ p h2 in
    let (s, x, h4) = ok-bind (string_of sv) _ p h3 in
    let (t, y, h5) = ok-bind (string_of tv) _ p h4 in
    let (names, z, h6) = ok-bind (list_of rv) _ p h5 in
    let (roles, r, h7) = ok-bind (roles_of names) _ p h6 in
    let same =
      principal_same
        (record { subject = s; tenant_id = t; roles = roles; auth_method = text "oidc" }) p h7 in
    ground (arith, same, string_of_lem sv s x, string_of_lem tv t y)

-- What the body raises is among the exceptions that are concealed.
abbrev RefusedOnly : {A : Type 0} → Result A → Type 0
RefusedOnly r = (e : Error) → r ≡ err e → is_refusal e ≡ true

bind-RefusedOnly :
    {A B : Type 0} (r : Result A) (next : A → Result B)
    → RefusedOnly r
    → ((a : A) → RefusedOnly (next a))
    → RefusedOnly (r >>= next)
bind-RefusedOnly (ok a) next h k = k a
bind-RefusedOnly (err x) next h k = λ e p. h e (ground (arith, p))

claim_of-RefusedOnly : (name : Text) (claims : Claims) → RefusedOnly (claim_of name claims)
unfolding claim_of is_refusal
claim_of-RefusedOnly name [] = λ e p. ground (arith, p)
claim_of-RefusedOnly name ((n, v) ∷ claims) =
    λ e p. let ih = claim_of-RefusedOnly name claims e in ground (arith, p, ih)

string_of-RefusedOnly : (v : ClaimValue) → RefusedOnly (string_of v)
unfolding string_of is_refusal
string_of-RefusedOnly v = λ e p. ground (arith, p)

texts_of-RefusedOnly : (values : List (Option Text)) → RefusedOnly (texts_of values)
unfolding texts_of is_refusal
texts_of-RefusedOnly [] = λ e p. ground (arith, p)
texts_of-RefusedOnly (none ∷ values) = λ e p. ground (arith, p)
texts_of-RefusedOnly (some t ∷ values) =
    λ e p. let ih = texts_of-RefusedOnly values e in ground (arith, p, ih)

list_of-RefusedOnly : (v : ClaimValue) → RefusedOnly (list_of v)
unfolding list_of is_refusal
list_of-RefusedOnly (array values) = texts_of-RefusedOnly values
list_of-RefusedOnly (string s) = λ e p. ground (arith, p)
list_of-RefusedOnly other = λ e p. ground (arith, p)

role_of-RefusedOnly : (name : Text) → RefusedOnly (role_of name)
unfolding role_of is_refusal
role_of-RefusedOnly name = λ e p. ground (arith, p)

roles_of-RefusedOnly : (names : List Text) → RefusedOnly (roles_of names)
unfolding roles_of
roles_of-RefusedOnly [] = λ e p. absurd (ground (arith, p))
roles_of-RefusedOnly (name ∷ names) = λ e p.
    let ih = roles_of-RefusedOnly names e in
    let first = role_of-RefusedOnly name e in ground (arith, p, ih, first)

principal-RefusedOnly : (p : Principal) → RefusedOnly (principal p)
unfolding principal tenant_context validate_identifier is_refusal
principal-RefusedOnly p = λ e q. ground (arith, q)

principal_of_claims-RefusedOnly :
    (o : OidcAuthenticator) (claims : Claims) → RefusedOnly (principal_of_claims o claims)
unfolding principal_of_claims
principal_of_claims-RefusedOnly o claims =
    bind-RefusedOnly _ _ (claim_of-RefusedOnly (text "sub") claims) (λ subject.
      bind-RefusedOnly _ _ (claim_of-RefusedOnly o.tenant_claim claims) (λ tenant.
        bind-RefusedOnly _ _ (claim_of-RefusedOnly o.roles_claim claims) (λ values.
          bind-RefusedOnly _ _ (string_of-RefusedOnly subject) (λ s.
            bind-RefusedOnly _ _ (string_of-RefusedOnly tenant) (λ t.
              bind-RefusedOnly _ _ (list_of-RefusedOnly values) (λ names.
                bind-RefusedOnly _ _ (roles_of-RefusedOnly names)
                  (λ roles. principal-RefusedOnly _)))))))

ok_of_concealed : (r : Result Principal) (p : Principal) → concealed r ≡ ok p → r ≡ ok p
unfolding concealed
ok_of_concealed r p h = ground arith

err_of_concealed :
    (r : Result Principal) (e : Error)
    → concealed r ≡ err e
    → (e ≡ invalid_credentials) ⊎ ((r ≡ err e) × (is_refusal e ≡ false))
unfolding concealed
err_of_concealed (ok p) e h = absurd (ground (arith, h))
err_of_concealed (err x) e h = elim (Bool-cases (is_refusal x)) [
  | inl c ↦ inl (ground (arith, rw c at h))
  | inr c ↦ let same : x ≡ e = ground (arith, rw c at h) in inr (ap err same, rw (← same) c)
]

module _ (decode : Text → Text → List Text → Text → Text → ℕ → Result Claims) where
  decoded_lem :
      (o : OidcAuthenticator) (found : Result Claims)
      → ((p : Principal)
          → decoded decode o found ≡ ok p
          → (claims : Claims) × (found ≡ ok claims) × Speaks o claims p)
        × ((e : Error)
            → decoded decode o found ≡ err e
            → (e ≡ invalid_credentials) ⊎ ((found ≡ err e) × (is_refusal e ≡ false)))
  unfolding decoded
  decoded_lem o (err x) = (
    (λ p h. absurd (let bad = ok_of_concealed (err x) p h in ground (arith, bad))),
    (λ e h. elim (err_of_concealed (err x) e h) [
      | inl c ↦ inl c
      | inr (same, c) ↦ inr (let y : x ≡ e = ground (arith, same) in ap err y, c)
    ]),
  )
  decoded_lem o (ok claims) = (
    (λ p h. (
      claims,
      refl,
      principal_of_claims-Speaks o claims p (ok_of_concealed (principal_of_claims o claims) p h),
    )),
    (λ e h. elim (err_of_concealed (principal_of_claims o claims) e h) [
      | inl c ↦ inl c
      | inr (same, c) ↦
          let kept = principal_of_claims-RefusedOnly o claims e same in
          absurd (ground (arith, kept, c))
    ]),
  )

  -- A token of an OIDC issuer is accepted only if it does not have the form of an API key and
  -- `jwt.decode` gave claims for it under the configuration; the principal then has the subject,
  -- the tenant and the roles of those claims. Every refusal is the same authentication error,
  -- except for what `jwt.decode` itself raised that is neither an InvalidTokenError nor a KeyError,
  -- a TypeError or a ValueError, which goes on as it is.
  pub oidc_accepts_claims_only :
      (o : OidcAuthenticator) (header : Option Text)
      → ((p : Principal)
          → authenticate decode o header ≡ ok p
          → (token : Text) × (claims : Claims) × (bearer_token header ≡ ok token)
            × (is_lab_token token ≡ false)
            × (decode token o.verification_key o.algorithms o.audience o.issuer o.leeway_seconds
                ≡ ok claims)
            × Speaks o claims p)
        × ((e : Error)
            → authenticate decode o header ≡ err e
            → (e ≡ invalid_credentials)
              ⊎ ((token : Text) × (bearer_token header ≡ ok token)
                  × (decode token o.verification_key o.algorithms o.audience o.issuer
                        o.leeway_seconds
                      ≡ err e)
                  × (is_refusal e ≡ false)))
  unfolding authenticate
  oidc_accepts_claims_only o header = elim (Result-split (bearer_token header)) [
    | inr (x, b) ↦ (
      (λ p h. absurd (ground arith)),
      λ e h. let same = bearer_token_refuses header x b in inl (ground arith),
    )
    | inl (token, b) ↦ elim (Bool-cases (is_lab_token token)) [
      | inl l ↦ ((λ p h. absurd (ground arith)), λ e h. inl (ground arith))
      | inr l ↦
          let found =
            decode token o.verification_key o.algorithms o.audience o.issuer o.leeway_seconds in
          let (accepts, refuses) = decoded_lem o found in
          (
            (λ p h.
                let (claims, given, speaks) = accepts p (ground arith) in
                (token, claims, b, l, given, speaks)),
            λ e h. elim (refuses e (rw (b, l) at h)) [
              | inl same ↦ inl same
              | inr (raised, c) ↦ inr (token, b, raised, c)
            ],
          )
    ]
  ]
