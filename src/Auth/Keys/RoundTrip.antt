-- ===== src/Auth/Keys/RoundTrip.antt =====
-- auth.py and storage/auth_repository.py: a token that `issue` returns, presented to
-- `authenticate`.
use ai_agent_security_lab.Prelude.{
  ℕ, ◌+◌, ◌<◌, ◌≤◌, ◌≡◌, refl, ◌≢◌, ◌∙◌, ap, not, true, false, List, [], ◌∷◌, ◌++◌, some, Text,
  text, text_eq, text_eq_refl, strip_visible, truthy, length, length-append, ok, any, all,
  first_where, first_where_of_any, first_where-snoc, Timestamp, leb, ◌==◌, all-append, arith,
  is_space, map_option, inl, inr,
}
use ai_agent_security_lab.Domain.Entities.{tenant_context, tenant_context-cases}
use ai_agent_security_lab.Domain.Artifacts.{is_hex}
use ai_agent_security_lab.Auth.Roles.{Role, viewer, operator, admin, auditor, Principal, principal}
use ai_agent_security_lab.Auth.Tokens.{
  split, is_key_id, bearer_token_lem, from_hex-hex, Bytes, free_of, split-free, split-append,
}
use ai_agent_security_lab.Auth.Keys.{
  IssuedApiKey, Random, scopes, get_key, has_key, key_of_row, digest, token_of, issued_row, issue,
  check_record, check_parts, authenticate,
}
use ai_agent_security_lab.Storage.Database.{StoredApiKey, Database}

-- What the generators of `secrets` return: an identifier of 32 hexadecimal digits, a text of the
-- URL-safe alphabet of base64, and bytes.
abbrev pub Drawn : Random → Type 0
Drawn random =
    (is_key_id random.key_id ≡ true)
    × (leb 32 (length random.secret) ≡ true)
    × (leb (length random.secret) 64 ≡ true)
    × (free_of b'.' random.secret ≡ true)
    × (free_of b' ' random.secret ≡ true)
    × Bytes random.salt

hex-free_of : (sep : ℕ) (s : Text) → is_hex sep ≡ false → all is_hex s ≡ true → free_of sep s ≡ true
unfolding is_hex
hex-free_of sep [] n h = refl
hex-free_of sep (c ∷ s) n h = ground (arith, hex-free_of sep s n)

scopes_nonempty : (roles : List Role) → length roles ≢ 0 → (length (scopes roles) == 0) ≡ false
unfolding scopes
scopes_nonempty [] h = absurd (h refl)
scopes_nonempty (viewer ∷ roles) h = ground arith
scopes_nonempty (operator ∷ roles) h = ground arith
scopes_nonempty (admin ∷ roles) h = ground arith
scopes_nonempty (auditor ∷ roles) h = ground arith

-- The principal that a row of the table stands for.
abbrev pub principal_of : StoredApiKey → Principal
principal_of k = record {
  subject = text "api_key:" ++ k.key_id;
  tenant_id = k.tenant_id;
  roles = k.roles;
  auth_method = text "api_key";
}

principal_lem :
    (k : StoredApiKey)
    → tenant_context k.tenant_id ≡ ok (record { tenant_id = k.tenant_id })
    → (length k.roles == 0) ≡ false
    → length k.key_id ≡ 32
    → principal (principal_of k) ≡ ok (principal_of k)
unfolding principal text text_eq is_space
principal_lem k c r l = ground (arith, strip_visible b'a' (text "pi_key:" ++ k.key_id) refl)

module _ (hmac_sha256 : List ℕ → List ℕ → Text) where
  issue_lem :
      (pepper : List ℕ) (random : Random) (tenant_id : Text) (roles : List Role) (created_by : Text)
      (ttl : ℕ) (now : Timestamp) (issued : IssuedApiKey) (d d' : Database)
      → issue hmac_sha256 pepper random tenant_id roles created_by ttl now d ≡ (ok issued, d')
      → (issued.token ≡ token_of hmac_sha256 random)
        × (length roles ≢ 0)
        × (any (has_key random.key_id) d.api_keys ≡ false)
        × (tenant_context tenant_id ≡ ok (record { tenant_id = tenant_id }))
        × (d' ≡ record d {
          api_keys =
              d.api_keys
              ++ record (issued_row hmac_sha256 pepper random tenant_id roles created_by ttl now) {
                roles = scopes roles;
              }
                ∷ [];
        })
  unfolding issue issued_row
  issue_lem pepper random tenant_id roles created_by ttl now issued d d' h =
      elim (tenant_context-cases tenant_id) [ inl c ↦ ground arith | inr (e, c) ↦ ground arith ]

  token_no_space :
      (random : Random) → Drawn random → free_of b' ' (token_of hmac_sha256 random) ≡ true
  unfolding text is_key_id is_hex
  token_no_space random (key, _, _, _, clean, _) = ground (
    arith,
    all-append (λ c. not (c == b' ')) random.key_id (b'.' ∷ random.secret),
    hex-free_of b' ' random.key_id refl,
  )

  token_length : (random : Random) → Drawn random → length (token_of hmac_sha256 random) ≤ 101
  unfolding text is_key_id
  token_length random (key, _, short, _, _, _) =
      ground (arith, length-append random.key_id (b'.' ∷ random.secret))

  token_parts :
      (random : Random)
      → Drawn random
      → split b'.' (token_of hmac_sha256 random) ≡ text "lab" ∷ random.key_id ∷ random.secret ∷ []
  unfolding is_key_id is_hex text
  token_parts random (key, _, _, clean, _, _) =
      rw
        (
          split-append b'.' (text "lab") (random.key_id ++ b'.' ∷ random.secret) refl,
          split-append b'.' random.key_id random.secret
              (hex-free_of b'.' random.key_id refl (ground arith)),
          split-free b'.' random.secret clean,
        )
        refl

  check_parts_lem :
      (pepper : List ℕ) (random : Random) (now : Timestamp) (d : Database)
      → Drawn random
      → check_parts hmac_sha256 pepper now (text "lab" ∷ random.key_id ∷ random.secret ∷ []) d ≡ (
        check_record hmac_sha256 pepper random.secret now
            (map_option key_of_row (first_where (has_key random.key_id) d.api_keys)),
        d,
      )
  unfolding check_parts get_key text text_eq
  check_parts_lem pepper random now d (key, long, short, _, _, _) = ground arith

  -- The secret is checked against the row that the table has for the token's identifier.
  pub authenticate_row :
      (pepper : List ℕ) (random : Random) (now : Timestamp) (d : Database)
      → Drawn random
      → authenticate hmac_sha256 pepper (some (text "Bearer " ++ token_of hmac_sha256 random)) now d
        ≡ (
          check_record hmac_sha256 pepper random.secret now
              (map_option key_of_row (first_where (has_key random.key_id) d.api_keys)),
          d,
        )
  unfolding authenticate text truthy
  authenticate_row pepper random now d drawn =
      rw
        (bearer_token_lem (token_of hmac_sha256 random) (ground arith) (token_no_space random drawn)
          (omega (arith, token_length random drawn)))
        (rw (token_parts random drawn) (check_parts_lem pepper random now d drawn))

  pub issued_row-found :
      (pepper : List ℕ) (random : Random) (tenant_id : Text) (roles : List Role) (created_by : Text)
      (ttl : ℕ) (now : Timestamp) (issued : IssuedApiKey) (d d' : Database)
      → issue hmac_sha256 pepper random tenant_id roles created_by ttl now d ≡ (ok issued, d')
      → first_where (has_key random.key_id) d'.api_keys
        ≡ some (record (issued_row hmac_sha256 pepper random tenant_id roles created_by ttl now) {
          roles = scopes roles;
        })
  unfolding issued_row
  issued_row-found pepper random tenant_id roles created_by ttl now issued d d' h =
      let (_, _, fresh, _, e) =
        issue_lem pepper random tenant_id roles created_by ttl now issued d d' h in
      rw e (
        first_where-snoc (has_key random.key_id) d.api_keys
          (record (issued_row hmac_sha256 pepper random tenant_id roles created_by ttl now) {
            roles = scopes roles;
          })
          (first_where_of_any (has_key random.key_id) d.api_keys fresh)
        ∙ rw (text_eq_refl random.key_id) refl)

  -- the row that the table has after `issue`
  abbrev pub stored_row : List ℕ → Random → Text → List Role → Text → ℕ → Timestamp → StoredApiKey
  stored_row pepper random tenant_id roles created_by ttl now =
      record (issued_row hmac_sha256 pepper random tenant_id roles created_by ttl now) {
        roles = scopes roles;
      }

  check_issued :
      (pepper : List ℕ) (random : Random) (tenant_id : Text) (roles : List Role) (created_by : Text)
      (ttl : ℕ) (now later : Timestamp) (d : Database)
      → Drawn random
      → length roles ≢ 0
      → tenant_context tenant_id ≡ ok (record { tenant_id = tenant_id })
      → later.micros < now.micros + ttl
      → check_record hmac_sha256 pepper random.secret later
          (some (key_of_row (stored_row pepper random tenant_id roles created_by ttl now)))
        ≡ ok (principal_of (stored_row pepper random tenant_id roles created_by ttl now))
  unfolding check_record issued_row is_key_id
  check_issued pepper random tenant_id roles created_by ttl now later d (key, _, _, _, _, salt) r c
        l =
      rw
        (
          from_hex-hex random.salt salt,
          text_eq_refl (digest hmac_sha256 pepper random.salt random.secret),
        )
        (ground (
          arith,
          principal_lem (stored_row pepper random tenant_id roles created_by ttl now) c
              (scopes_nonempty roles r),
        ))

  -- A token that `issue` returned with generated randomness authenticates until its expiry, as the
  -- principal of its tenant with the roles that were asked for, and leaves the database as it is.
  pub issued_key_authenticates :
      (pepper : List ℕ) (random : Random) (tenant_id : Text) (roles : List Role) (created_by : Text)
      (ttl : ℕ) (now later : Timestamp) (issued : IssuedApiKey) (d d' : Database)
      → Drawn random
      → issue hmac_sha256 pepper random tenant_id roles created_by ttl now d ≡ (ok issued, d')
      → later.micros < now.micros + ttl
      → authenticate hmac_sha256 pepper (some (text "Bearer " ++ issued.token)) later d' ≡ (
        ok (record {
          subject = text "api_key:" ++ random.key_id;
          tenant_id = tenant_id;
          roles = scopes roles;
          auth_method = text "api_key";
        }),
        d',
      )
  unfolding issued_row
  issued_key_authenticates pepper random tenant_id roles created_by ttl now later issued d d' drawn
        h l =
      let (token, some_role, _, context, _) =
        issue_lem pepper random tenant_id roles created_by ttl now issued d d' h in
      rw
        (
          token,
          authenticate_row pepper random later d' drawn,
          issued_row-found pepper random tenant_id roles created_by ttl now issued d d' h,
        )
        (ap (λ r. (r, d'))
          (check_issued pepper random tenant_id roles created_by ttl now later d' drawn some_role
            context l))
