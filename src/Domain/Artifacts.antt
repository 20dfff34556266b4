-- ===== src/Domain/Artifacts.antt =====
-- domain/artifacts.py: the metadata of a report artifact.
use ai_agent_security_lab.Prelude.{
  ℕ, ◌||◌, ◌&&◌, not, Bool, true, Option, none, some, Text, text, text_eq, within, length, Result,
  ok, value_error, ◌>>◌, raise_if, all, Timestamp, leb, ◌==◌,
}

pub record ReportArtifact : Type 0 where
  pub id : Text
  pub tenant_id : Text
  pub run_id : Text
  pub format : Text
  pub object_key : Text
  pub sha256 : Text
  pub size_bytes : ℕ
  pub content_type : Text
  pub expires_at : Timestamp
  pub created_at : Timestamp
  pub deleted_at : Option Timestamp

-- `character in "0123456789abcdef"`
unfoldable pub is_hex : ℕ → Bool
is_hex c = (leb b'0' c && leb c b'9') || (leb b'a' c && leb c b'f')

aware_or_none : Option Timestamp → Bool
aware_or_none none = true
aware_or_none (some t) = t.aware

-- `__post_init__`. A size is the length of a file, so it is a natural and the test that it is not
-- negative is left out.
unfoldable pub post_init : ReportArtifact → Result ReportArtifact
unfolding is_hex aware_or_none
post_init a = do
  raise_if (not (within 512 a.id)) (value_error "artifact id must be non-empty and bounded")
  raise_if (not (within 512 a.tenant_id)) (value_error "tenant_id must be non-empty and bounded")
  raise_if (not (within 512 a.run_id)) (value_error "run_id must be non-empty and bounded")
  raise_if (not (within 512 a.object_key)) (value_error "object_key must be non-empty and bounded")
  raise_if (not (text_eq a.format (text "json") || text_eq a.format (text "markdown")))
      (value_error "artifact format must be json or markdown")
  raise_if (not (length a.sha256 == 64) || not (all is_hex a.sha256))
      (value_error "artifact sha256 must be lowercase hexadecimal")
  raise_if (not a.created_at.aware || not a.expires_at.aware || not (aware_or_none a.deleted_at))
      (value_error "artifact timestamps must be timezone-aware")
  raise_if (leb a.expires_at.micros a.created_at.micros)
      (value_error "artifact expiration must follow creation")
  ok a
