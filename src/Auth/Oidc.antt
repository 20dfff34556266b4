-- ===== src/Auth/Oidc.antt =====
-- auth.py: `OIDCAuthenticator`. `decode` is `jwt.decode` for a token, a key, the algorithms, the
-- audience, the issuer and the leeway: the claims of a token that it accepts, or what it raises.
pub mod Acceptance
use ai_agent_security_lab.Prelude.{
  ℕ, ◌||◌, ◌&&◌, not, Bool, true, false, List, [], ◌∷◌, Option, none, some, Text, text, text_eq,
  truthy, Result, ok, err, value_error, type_error, key_error, Error, invalid_token_error, any, all,
  length, leb, ◌==◌, first_where, map_option, take, ◌>>=◌, ◌>>◌, raise_if, if◌then◌else◌,
}
use ai_agent_security_lab.Auth.Roles.{Role, viewer, operator, admin, auditor, Principal, principal}
use ai_agent_security_lab.Auth.Tokens.{bearer_token, invalid_credentials}

-- A value of a claim: a text, a list of values of which each is a text or not, or something else.
pub data ClaimValue : Type 0 where
  string : Text → ClaimValue
  array : List (Option Text) → ClaimValue
  other : ClaimValue

abbrev pub Claims : Type 0
Claims = List (Text × ClaimValue)

pub record OidcAuthenticator : Type 0 where
  pub issuer : Text
  pub audience : Text
  pub verification_key : Text
  pub algorithms : List Text
  pub tenant_claim : Text
  pub roles_claim : Text
  pub leeway_seconds : ℕ

-- `allowed`
abbrev pub allowed : List Text
allowed =
    text "RS256"
    ∷ text "RS384"
    ∷ text "RS512"
    ∷ text "ES256"
    ∷ text "ES384"
    ∷ text "ES512"
    ∷ text "EdDSA"
    ∷ []

-- The checks of the constructor. A leeway below 0 is not in the type.
unfoldable pub oidc_authenticator : OidcAuthenticator → Result OidcAuthenticator
oidc_authenticator o = do
  raise_if (not (truthy o.issuer) || not (truthy o.audience) || not (truthy o.verification_key))
      (value_error "OIDC issuer, audience, and verification key are required")
  raise_if (length o.algorithms == 0 || not (all (λ a. any (text_eq a) allowed) o.algorithms))
      (value_error "OIDC algorithms must use an approved asymmetric algorithm")
  raise_if (not (truthy o.tenant_claim) || not (truthy o.roles_claim))
      (value_error "OIDC claim names cannot be empty")
  raise_if (not (leb o.leeway_seconds 300))
      (value_error "OIDC leeway must be between 0 and 300 seconds")
  ok o

-- `token.startswith("lab.")`
unfoldable pub is_lab_token : Text → Bool
is_lab_token token = text_eq (take 4 token) (text "lab.")

-- `claims[name]`
unfoldable pub claim_of : Text → Claims → Result ClaimValue
claim_of name [] = err (key_error "claim")
claim_of name ((n, value) ∷ claims) = if text_eq n name then ok value else claim_of name claims

string_of : ClaimValue → Result Text
string_of (string s) = ok s
string_of (array _) = err (type_error "invalid principal claims")
string_of other = err (type_error "invalid principal claims")

texts_of : List (Option Text) → Result (List Text)
texts_of [] = ok []
texts_of (none ∷ values) = err (type_error "invalid roles claim")
texts_of (some t ∷ values) = elim (texts_of values) [ err e ↦ err e | ok ts ↦ ok (t ∷ ts) ]

unfoldable pub list_of : ClaimValue → Result (List Text)
unfolding texts_of
list_of (array values) = texts_of values
list_of (string _) = err (type_error "invalid roles claim")
list_of other = err (type_error "invalid roles claim")

-- `Role(role)`
unfoldable pub role_of : Text → Result Role
role_of name =
    if text_eq name (text "viewer")
    then ok viewer
    else if text_eq name (text "operator")
    then ok operator
    else if text_eq name (text "admin")
    then ok admin
    else if text_eq name (text "auditor")
    then ok auditor
    else err (value_error "is not a valid Role")

unfoldable pub roles_of : List Text → Result (List Role)
unfolding role_of
roles_of [] = ok []
roles_of (name ∷ names) = elim (role_of name) [
  | err e ↦ err e
  | ok r ↦ elim (roles_of names) [ err e ↦ err e | ok rs ↦ ok (r ∷ rs) ]
]

-- the body of the `try`, after `jwt.decode`
principal_of_claims : OidcAuthenticator → Claims → Result Principal
unfolding claim_of string_of list_of roles_of
principal_of_claims o claims = do
  subject ← claim_of (text "sub") claims
  tenant_id ← claim_of o.tenant_claim claims
  role_values ← claim_of o.roles_claim claims
  subject' ← string_of subject
  tenant_id' ← string_of tenant_id
  names ← list_of role_values
  roles ← roles_of names
  principal (record {
    subject = subject';
    tenant_id = tenant_id';
    roles = roles;
    auth_method = text "oidc";
  })

-- `except (InvalidTokenError, KeyError, TypeError, ValueError)`
unfoldable pub is_refusal : Error → Bool
is_refusal (invalid_token_error s) = true
is_refusal (key_error s) = true
is_refusal (type_error s) = true
is_refusal (value_error s) = true
is_refusal _ = false

-- `raise AuthenticationError` from an exception of the tuple; any other goes on
concealed : Result Principal → Result Principal
unfolding is_refusal
concealed (ok p) = ok p
concealed (err e) = if is_refusal e then err invalid_credentials else err e

module _ (decode : Text → Text → List Text → Text → Text → ℕ → Result Claims) where
  decoded : OidcAuthenticator → Result Claims → Result Principal
  unfolding principal_of_claims concealed
  decoded o (err e) = concealed (err e)
  decoded o (ok claims) = concealed (principal_of_claims o claims)

  unfoldable pub authenticate : OidcAuthenticator → Option Text → Result Principal
  unfolding decoded is_lab_token
  authenticate o authorization = do
    token ← bearer_token authorization
    raise_if (is_lab_token token) invalid_credentials
    decoded o (decode token o.verification_key o.algorithms o.audience o.issuer o.leeway_seconds)
