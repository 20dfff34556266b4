-- ===== src/Auth/Examples.antt =====
-- Tokens of an issuer, with functions in the place of `jwt.decode` and of HMAC.
use ai_agent_security_lab.Prelude.{
  ◌⊎◌, Result, ℕ, ◌≡◌, true, false, List, [], ◌∷◌, Option, some, Text, text, Timestamp, ok, err,
  Error, if◌then◌else◌,
}
use ai_agent_security_lab.Auth.Roles.{Principal}
use ai_agent_security_lab.Auth.Tokens.{bearer_token, invalid_credentials}
use ai_agent_security_lab.Auth.Keys
use ai_agent_security_lab.Auth.Oidc
use ai_agent_security_lab.Auth.Oidc.{
  Claims, string, array, OidcAuthenticator, is_lab_token, is_refusal,
}
use ai_agent_security_lab.Auth.Oidc.Acceptance.{Speaks, oidc_accepts_claims_only}
use ai_agent_security_lab.Auth.Composite
use ai_agent_security_lab.Auth.Composite.Routing.{composite_routes_by_prefix}
use ai_agent_security_lab.Storage.Database.{empty}

-- An issuer that takes every token for the same subject's.
abbrev toy_decode : Text → Text → List Text → Text → Text → ℕ → Result Claims
toy_decode token key algorithms audience issuer leeway = ok (
    (text "sub", string (text "ann"))
    ∷ (text "tenant_id", string (text "acme"))
    ∷ (text "roles", array (some (text "viewer") ∷ []))
    ∷ [])

abbrev toy_hmac : List ℕ → List ℕ → Text
toy_hmac key message = message

abbrev oidc : OidcAuthenticator
oidc = record {
  issuer = text "https://issuer.example";
  audience = text "lab";
  verification_key = text "key";
  algorithms = text "RS256" ∷ [];
  tenant_claim = text "tenant_id";
  roles_claim = text "roles";
  leeway_seconds = 30;
}

abbrev header : Option Text
header = some (text "Bearer abc")

abbrev now : Timestamp
now = record { micros = 7; aware = true }

oidc_accepts_claims_only_example :
    ((p : Principal)
      → Oidc.authenticate toy_decode oidc header ≡ ok p
      → (token : Text) × (claims : Claims) × (bearer_token header ≡ ok token)
        × (is_lab_token token ≡ false)
        × (toy_decode token oidc.verification_key oidc.algorithms oidc.audience oidc.issuer 30
            ≡ ok claims)
        × Speaks oidc claims p)
    × ((e : Error)
        → Oidc.authenticate toy_decode oidc header ≡ err e
        → (e ≡ invalid_credentials)
          ⊎ ((token : Text) × (bearer_token header ≡ ok token)
              × (toy_decode token oidc.verification_key oidc.algorithms oidc.audience oidc.issuer 30
                  ≡ err e)
              × (is_refusal e ≡ false)))
oidc_accepts_claims_only_example = oidc_accepts_claims_only toy_decode oidc header

composite_routes_by_prefix_example :
    Composite.authenticate toy_hmac toy_decode (1 ∷ []) oidc header now empty
    ≡ elim (bearer_token header) [
      | err e ↦ (err e, empty)
      | ok token ↦
          if is_lab_token token
          then Keys.authenticate toy_hmac (1 ∷ []) header now empty
          else (Oidc.authenticate toy_decode oidc header, empty)
    ]
composite_routes_by_prefix_example =
    composite_routes_by_prefix toy_hmac toy_decode (1 ∷ []) oidc header now empty
