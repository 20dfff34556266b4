-- ===== src/Auth/Keys/Refusals.antt =====
-- auth.py: what `authenticate` refuses.
use ai_agent_security_lab.Prelude.{
  ℕ, ◌+◌, ◌≡◌, refl, ◌||◌, not, true, List, [], ◌∷◌, ◌++◌, Option, none, some, Text, text, text_eq,
  ok, err, first_where, Timestamp, leb, arith, map_option, update_where, is_some,
}
use ai_agent_security_lab.Auth.Roles.{Role}
use ai_agent_security_lab.Auth.Tokens.{from_hex-hex, invalid_credentials}
use ai_agent_security_lab.Auth.Keys.{
  IssuedApiKey, Random, has_key, key_of_row, digest, token_of, issued_row, issue, check_record,
  authenticate, revoke, revocable, revoked,
}
use ai_agent_security_lab.Auth.Keys.RoundTrip.{Drawn, authenticate_row, issued_row-found}
use ai_agent_security_lab.Storage.Database.{StoredApiKey, Database}

-- The first row with the identifier, if there is one, is revoked.
abbrev Dead : Text → List StoredApiKey → Type 0
Dead key_id rows =
    (k : StoredApiKey) → first_where (has_key key_id) rows ≡ some k → is_some k.revoked_at ≡ true

revoked-Dead :
    (key_id : Text) (now : Timestamp) (rows : List StoredApiKey)
    → Dead key_id (update_where (revocable key_id) (revoked now) rows)
revoked-Dead key_id now [] k h = ground arith
revoked-Dead key_id now (row ∷ rows) k h = ground (arith, revoked-Dead key_id now rows k)

module _ (hmac_sha256 : List ℕ → List ℕ → Text) where
  check_dead :
      (pepper : List ℕ) (secret : Text) (later : Timestamp) (row : Option StoredApiKey)
      → ((k : StoredApiKey) → row ≡ some k → is_some k.revoked_at ≡ true)
      → check_record hmac_sha256 pepper secret later (map_option key_of_row row)
        ≡ err invalid_credentials
  unfolding check_record
  check_dead pepper secret later none h = refl
  check_dead pepper secret later (some k) h = ground (arith, h k refl)

  -- Once `revoke` was called for the identifier of a token with generated randomness, whatever it
  -- returned, the token is refused at all times and with every pepper.
  pub revoked_key_is_refused :
      (pepper : List ℕ) (random : Random) (now later : Timestamp) (d : Database)
      → Drawn random
      → (authenticate hmac_sha256 pepper
          (some (text "Bearer " ++ token_of hmac_sha256 random))
          later
          (revoke random.key_id now d).1).0
        ≡ err invalid_credentials
  unfolding revoke
  revoked_key_is_refused pepper random now later d drawn =
      rw (authenticate_row hmac_sha256 pepper random later (revoke random.key_id now d).1 drawn) (
        check_dead pepper random.secret later
          (first_where (has_key random.key_id)
            (update_where (revocable random.key_id) (revoked now) d.api_keys))
          (revoked-Dead random.key_id now d.api_keys))

  -- After `issue` with generated randomness, a token with the key's identifier is refused from the
  -- key's expiry on, and before it too when its secret has another digest.
  pub expired_or_forged_is_refused :
      (pepper : List ℕ) (random forged : Random) (tenant_id : Text) (roles : List Role)
      (created_by : Text) (ttl : ℕ) (now later : Timestamp) (issued : IssuedApiKey)
      (d d' : Database)
      → Drawn random
      → Drawn forged
      → forged.key_id ≡ random.key_id
      → issue hmac_sha256 pepper random tenant_id roles created_by ttl now d ≡ (ok issued, d')
      → (leb (now.micros + ttl) later.micros
          || not (
              text_eq
                (digest hmac_sha256 pepper random.salt forged.secret)
                (digest hmac_sha256 pepper random.salt random.secret)))
        ≡ true
      → authenticate hmac_sha256 pepper
          (some (text "Bearer " ++ token_of hmac_sha256 forged))
          later
          d'
        ≡ (err invalid_credentials, d')
  unfolding check_record issued_row
  expired_or_forged_is_refused pepper random forged tenant_id roles created_by ttl now later issued
        d d' (_, _, _, _, _, salt) forged_drawn same h late =
      rw
        (
          authenticate_row hmac_sha256 pepper forged later d' forged_drawn,
          same,
          issued_row-found hmac_sha256 pepper random tenant_id roles created_by ttl now issued d d'
              h,
          from_hex-hex random.salt salt,
        )
        (ground arith)
