-- ===== src/Auth/Composite/Routing.antt =====
-- auth.py: which authenticator `CompositeAuthenticator` asks.
use ai_agent_security_lab.Prelude.{
  Result, ℕ, ◌≡◌, refl, ◌≤◌, true, List, ◌++◌, Option, none, some, Text, text, truthy, ok, err,
  length, if◌then◌else◌, arith, Timestamp, Bool-cases, Result-split, inl, inr,
}
use ai_agent_security_lab.Auth.Tokens.{
  bearer_token, bearer_token_lem, free_of, max_bearer_token_length,
}
use ai_agent_security_lab.Auth.Keys
use ai_agent_security_lab.Auth.Oidc
use ai_agent_security_lab.Auth.Oidc.{Claims, OidcAuthenticator, is_lab_token}
use ai_agent_security_lab.Auth.Composite.{authenticate}
use ai_agent_security_lab.Storage.Database.{Database}

token_is_plain :
    (h : Option Text) (token : Text)
    → bearer_token h ≡ ok token
    → (truthy token ≡ true) × (free_of b' ' token ≡ true) × (length token ≤ max_bearer_token_length)
unfolding bearer_token
token_is_plain none token e = absurd (ground arith)
token_is_plain (some h) token e = ground arith

-- A token that a header was read for is read again from the header that is built of it.
again :
    (h : Option Text) (token : Text)
    → bearer_token h ≡ ok token
    → bearer_token (some (text "Bearer " ++ token)) ≡ ok token
again h token e = let (t, f, l) = token_is_plain h token e in bearer_token_lem token t f l

module _ (hmac_sha256 : List ℕ → List ℕ → Text)
    (decode : Text → Text → List Text → Text → Text → ℕ → Result Claims) where
  -- For a header that holds a token, the composite authenticator answers as the authenticator of
  -- API keys does for a token that begins with `lab.`, and as the one of OIDC for any other; for
  -- all other headers it raises what reading the token raises. The second changes no database.
  pub composite_routes_by_prefix :
      (pepper : List ℕ) (o : OidcAuthenticator) (h : Option Text) (now : Timestamp) (d : Database)
      → authenticate hmac_sha256 decode pepper o h now d ≡ elim (bearer_token h) [
        | err e ↦ (err e, d)
        | ok token ↦
            if is_lab_token token
            then Keys.authenticate hmac_sha256 pepper h now d
            else (Oidc.authenticate decode o h, d)
      ]
  unfolding authenticate Keys.authenticate Oidc.authenticate
  composite_routes_by_prefix pepper o h now d = elim (Result-split (bearer_token h)) [
    | inr (e, b) ↦ rw b refl
    | inl (token, b) ↦
        let twice = again h token b in
        elim (Bool-cases (is_lab_token token)) [ inl l ↦ ground arith | inr l ↦ ground arith ]
  ]
