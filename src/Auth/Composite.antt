-- ===== src/Auth/Composite.antt =====
-- auth.py: `CompositeAuthenticator`, which sends a token to one of the two authenticators, and
-- `StaticAuthenticator`.
pub mod Routing
use ai_agent_security_lab.Prelude.{
  ℕ, Bool, true, false, List, ◌++◌, Option, some, Text, text, Result, ok, err, Timestamp,
  if◌then◌else◌,
}
use ai_agent_security_lab.Auth.Roles.{Principal}
use ai_agent_security_lab.Auth.Tokens.{bearer_token}
use ai_agent_security_lab.Auth.Keys
use ai_agent_security_lab.Auth.Oidc.{Claims, OidcAuthenticator, is_lab_token}
use ai_agent_security_lab.Auth.Oidc
use ai_agent_security_lab.Storage.Database.{Database, Action, pure, lift, ◌>>=◌}

module _ (hmac_sha256 : List ℕ → List ℕ → Text)
    (decode : Text → Text → List Text → Text → Text → ℕ → Result Claims) where
  -- the authenticator that is selected, with the token put into a header again
  selected : List ℕ → OidcAuthenticator → Timestamp → Text → Action Principal
  unfolding is_lab_token
  selected pepper o now token =
      if is_lab_token token
      then Keys.authenticate hmac_sha256 pepper (some (text "Bearer " ++ token)) now
      else lift (Oidc.authenticate decode o (some (text "Bearer " ++ token)))

  unfoldable pub authenticate :
      List ℕ → OidcAuthenticator → Option Text → Timestamp → Action Principal
  unfolding selected
  authenticate pepper o authorization now = do
    token ← lift (bearer_token authorization)
    selected pepper o now token

unfoldable pub static_authenticate : Principal → Option Text → Result Principal
static_authenticate p authorization = ok p
