-- ===== src/Auth/Keys.antt =====
-- auth.py and storage/auth_repository.py: API keys. `hmac_sha256` is the key and the message to the
-- hexadecimal digest; what `secrets` draws is an argument, `Random`.
pub mod RoundTrip
pub mod Refusals
mod Examples
use ai_agent_security_lab.Prelude.{
  ℕ, ◌+◌, ◌≡◌, refl, ◌||◌, ◌&&◌, not, Bool, true, false, List, [], ◌∷◌, ◌++◌, Option, none, some,
  Text, text, text_eq, strip, truthy, length, Result, ok, err, value_error, any, select,
  first_where, count_where, update_where, Timestamp, add_micros, minutes, days, as_utc, leb, ltb,
  ◌==◌, if◌then◌else◌, map_option, is_some,
}
use ai_agent_security_lab.Domain.Entities.{TenantContext, tenant_context}
use ai_agent_security_lab.Auth.Roles.{
  Role, viewer, operator, admin, auditor, role_eq, Principal, principal,
}
use ai_agent_security_lab.Auth.Tokens.{
  split, is_key_id, bearer_token, hex, from_hex, utf8, invalid_credentials,
}
use ai_agent_security_lab.Storage.Database.{
  StoredApiKey, Database, Action, pure, raise, lift, gets, modify, transaction, ◌>>=◌, ◌>>◌,
  raise_when, insert_api_key,
}

-- The constructor of `APIKeyManager`, which `APIKeyAuthenticator`'s calls too: the bytes of the pepper.
unfoldable pub pepper_bytes : Text → Result (List ℕ)
unfolding utf8
pepper_bytes pepper =
    if ltb (length (utf8 pepper)) 32
    then err (value_error "API key pepper must contain at least 32 bytes")
    else ok (utf8 pepper)

pub record IssuedApiKey : Type 0 where
  pub key_id : Text
  pub token : Text
  pub tenant_id : Text
  pub roles : List Role
  pub expires_at : Timestamp

-- `token_hex(16)`, `token_urlsafe(32)` and `token_bytes(32)`
pub record Random : Type 0 where
  pub key_id : Text
  pub secret : Text
  pub salt : List ℕ

-- `sorted(str(role) for role in key.roles)`, of a set: the roles in the order of their names.
unfoldable pub scopes : List Role → List Role
scopes roles = select (λ r. any (role_eq r) roles) (admin ∷ auditor ∷ operator ∷ viewer ∷ [])

-- `APIKeyRepository.add`
unfoldable pub add_key : StoredApiKey → Action (Unit {0})
unfolding insert_api_key
add_key k = insert_api_key (record k { roles = scopes k.roles })

-- `_from_row` of auth_repository.py
abbrev pub key_of_row : StoredApiKey → StoredApiKey
key_of_row k = record k {
  created_at = as_utc k.created_at;
  expires_at = as_utc k.expires_at;
  revoked_at = map_option as_utc k.revoked_at;
}

abbrev pub has_key : Text → StoredApiKey → Bool
has_key key_id k = text_eq k.key_id key_id

-- `APIKeyRepository.get`
unfoldable pub get_key : Text → Action (Option StoredApiKey)
get_key key_id = gets (λ d. map_option key_of_row (first_where (has_key key_id) d.api_keys))

abbrev pub revocable : Text → StoredApiKey → Bool
revocable key_id k = has_key key_id k && not (is_some k.revoked_at)

abbrev pub revoked : Timestamp → StoredApiKey → StoredApiKey
revoked now k = record k { revoked_at = some now }

-- `APIKeyRepository.revoke`, and `APIKeyManager.revoke`, which calls it in a transaction
unfoldable pub revoke : Text → Timestamp → Action Bool
revoke key_id now = transaction (do
  rowcount ← gets (λ d. count_where (revocable key_id) d.api_keys)
  modify (λ d. record d { api_keys = update_where (revocable key_id) (revoked now) d.api_keys })
  pure (rowcount == 1))

module _ (hmac_sha256 : List ℕ → List ℕ → Text) where
  -- `_digest`
  unfoldable pub digest : List ℕ → List ℕ → Text → Text
  unfolding utf8
  digest pepper salt secret = hmac_sha256 pepper (salt ++ utf8 secret)

  -- the token's text, `f"lab.{key_id}.{secret}"`
  abbrev pub token_of : Random → Text
  token_of random = text "lab" ++ b'.' ∷ (random.key_id ++ b'.' ∷ random.secret)

  -- the row that `issue` adds
  unfoldable pub issued_row :
      List ℕ → Random → Text → List Role → Text → ℕ → Timestamp → StoredApiKey
  issued_row pepper random tenant_id roles created_by ttl now = record {
    key_id = random.key_id;
    tenant_id = tenant_id;
    digest = digest pepper random.salt random.secret;
    salt = hex random.salt;
    roles = roles;
    created_by = created_by;
    created_at = now;
    expires_at = add_micros now ttl;
    revoked_at = none;
  }

  -- `APIKeyManager.issue`. `roles` holds roles by its type; a `ttl` is a number of microseconds.
  unfoldable pub issue :
      List ℕ → Random → Text → List Role → Text → ℕ → Timestamp → Action IssuedApiKey
  unfolding add_key
  issue pepper random tenant_id roles created_by ttl now = do
    context ← lift (tenant_context tenant_id)
    raise_when (length roles == 0) (value_error "API key must have at least one role")
    raise_when (not (truthy (strip created_by)) || ltb 128 (length created_by))
        (value_error "created_by must be 1-128 characters")
    raise_when (not (leb (minutes 1) ttl) || not (leb ttl (days 365)))
        (value_error "API key ttl must be between 1 minute and 365 days")
    transaction (add_key (issued_row pepper random tenant_id roles created_by ttl now))
    pure (record {
      key_id = random.key_id;
      token = token_of random;
      tenant_id = tenant_id;
      roles = roles;
      expires_at = add_micros now ttl;
    })

  -- the checks of the secret and the principal
  check_secret : List ℕ → Text → StoredApiKey → Option (List ℕ) → Result Principal
  check_secret pepper secret record' none = err (value_error "non-hexadecimal number found")
  check_secret pepper secret record' (some salt) =
      if not (text_eq (digest pepper salt secret) record'.digest)
      then err invalid_credentials
      else principal (record {
        subject = text "api_key:" ++ record'.key_id;
        tenant_id = record'.tenant_id;
        roles = record'.roles;
        auth_method = text "api_key";
      })

  unfoldable pub check_record : List ℕ → Text → Timestamp → Option StoredApiKey → Result Principal
  unfolding check_secret
  check_record pepper secret now none = err invalid_credentials
  check_record pepper secret now (some record') =
      if is_some record'.revoked_at || leb record'.expires_at.micros now.micros
      then err invalid_credentials
      else check_secret pepper secret record' (from_hex record'.salt)

  -- The token's parts: `lab`, the key's id and the secret.
  check_parts : List ℕ → Timestamp → List Text → Action Principal
  unfolding check_record get_key
  check_parts pepper now (prefix ∷ key_id ∷ secret ∷ []) =
      if not (text_eq prefix (text "lab"))
        || not (is_key_id key_id)
        || not (leb 32 (length secret) && leb (length secret) 64)
      then raise invalid_credentials
      else do record' ← get_key key_id; lift (check_record pepper secret now record')
  check_parts pepper now _ = raise invalid_credentials

  -- `APIKeyAuthenticator.authenticate`
  unfoldable pub authenticate : List ℕ → Option Text → Timestamp → Action Principal
  unfolding check_parts
  authenticate pepper authorization now = do
    token ← lift (bearer_token authorization)
    check_parts pepper now (split b'.' token)
