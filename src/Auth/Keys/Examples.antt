-- ===== src/Auth/Keys/Examples.antt =====
-- A key that is issued, presented and revoked, with a function in the place of HMAC.
use ai_agent_security_lab.Prelude.{
  ℕ, ◌+◌, ◌≡◌, refl, ◌||◌, not, true, List, [], ◌∷◌, ◌++◌, some, Text, text, text_eq, strip, truthy,
  is_space, ok, err, Timestamp, minutes, arith, leb,
}
use ai_agent_security_lab.Domain.Entities.{Tenant, tenant_context, validate_identifier}
use ai_agent_security_lab.Domain.Artifacts.{is_hex}
use ai_agent_security_lab.Auth.Roles.{Role, viewer, operator}
use ai_agent_security_lab.Auth.Tokens.{is_key_id, utf8, invalid_credentials}
use ai_agent_security_lab.Auth.Keys.{
  IssuedApiKey, Random, scopes, digest, token_of, issued_row, issue, authenticate, revoke,
}
use ai_agent_security_lab.Auth.Keys.RoundTrip.{Drawn, issued_key_authenticates}
use ai_agent_security_lab.Auth.Keys.Refusals.{revoked_key_is_refused, expired_or_forged_is_refused}
use ai_agent_security_lab.Storage.Database.{Database, empty}

abbrev at : ℕ → Timestamp
at n = record { micros = n; aware = true }

-- The digest is the message.
abbrev toy_hmac : List ℕ → List ℕ → Text
toy_hmac key message = message

abbrev random : Random
random = record {
  key_id = text "0123456789abcdef0123456789abcdef";
  secret = text "secret-secret-secret-secret-secret";
  salt = 7 ∷ 255 ∷ [];
}

abbrev forged : Random
forged = record random { secret = text "guessed-secret-secret-secret-secret" }

abbrev tenant : Tenant
tenant = record {
  id = text "t";
  name = text "Tenant";
  status = text "active";
  retention_days = 30;
  created_at = at 0;
  updated_at = at 0;
  version = 1;
}

abbrev before : Database
before = record empty { tenants = tenant ∷ [] }

abbrev pepper : List ℕ
pepper = 1 ∷ 2 ∷ []

abbrev asked : List Role
asked = viewer ∷ operator ∷ []

abbrev ttl : ℕ
ttl = minutes 5

abbrev issued : IssuedApiKey
issued = record {
  key_id = random.key_id;
  token = token_of toy_hmac random;
  tenant_id = text "t";
  roles = asked;
  expires_at = at (1000 + ttl);
}

abbrev after : Database
after = record before {
  api_keys =
      record (issued_row toy_hmac pepper random (text "t") asked (text "root") ttl (at 1000)) {
        roles = scopes asked;
      }
      ∷ [];
}

issuing :
    issue toy_hmac pepper random (text "t") asked (text "root") ttl (at 1000) before
    ≡ (ok issued, after)
unfolding issue issued_row scopes text text_eq tenant_context validate_identifier strip truthy
    is_space
issuing = refl

random-Drawn : Drawn random
unfolding is_key_id is_hex text
random-Drawn = (refl, refl, refl, refl, refl, (omega arith, (omega arith, tt)))

forged-Drawn : Drawn forged
unfolding is_key_id is_hex text
forged-Drawn = (refl, refl, refl, refl, refl, (omega arith, (omega arith, tt)))

issued_key_authenticates_example :
    authenticate toy_hmac pepper (some (text "Bearer " ++ issued.token)) (at 5000) after ≡ (
      ok (record {
        subject = text "api_key:" ++ random.key_id;
        tenant_id = text "t";
        roles = scopes asked;
        auth_method = text "api_key";
      }),
      after,
    )
issued_key_authenticates_example =
    issued_key_authenticates toy_hmac pepper random (text "t") asked (text "root") ttl (at 1000)
      (at 5000) issued before after random-Drawn issuing (omega arith)

revoked_key_is_refused_example :
    (authenticate toy_hmac pepper
      (some (text "Bearer " ++ token_of toy_hmac random))
      (at 5000)
      (revoke random.key_id (at 2000) after).1).0
    ≡ err invalid_credentials
revoked_key_is_refused_example =
    revoked_key_is_refused toy_hmac pepper random (at 2000) (at 5000) after random-Drawn

different :
    (leb (1000 + ttl) 5000
      || not (
          text_eq
            (digest toy_hmac pepper random.salt forged.secret)
            (digest toy_hmac pepper random.salt random.secret)))
    ≡ true
unfolding digest text text_eq utf8
different = refl

expired_or_forged_is_refused_example :
    authenticate toy_hmac pepper (some (text "Bearer " ++ token_of toy_hmac forged)) (at 5000) after
    ≡ (err invalid_credentials, after)
expired_or_forged_is_refused_example =
    expired_or_forged_is_refused toy_hmac pepper random forged (text "t") asked (text "root") ttl
      (at 1000) (at 5000) issued before after random-Drawn forged-Drawn refl issuing different
