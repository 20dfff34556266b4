-- ===== src/Domain/Entities.antt =====
-- domain/entities.py: tenants, projects and the checks of their constructors. A record is the
-- object's fields, and its `post_init` the
-- constructor's call: the object, or what it raises.
use ai_agent_security_lab.Prelude.{
  ℕ, ◌||◌, not, List, String, Text, text, text_eq, strip, truthy, length, Result, ok, value_error,
  ◌>>◌, raise_if, Timestamp, ◌≡◌, refl, ◌⊎◌, inl, inr, Error, err, Result-cases, leb, ltb,
}

-- `_validate_identifier` and `_validate_name`, for the two bounds of their lengths.
validate_text : ℕ → Text → String → Result (Unit {0})
unfolding strip truthy
validate_text bound value message =
    raise_if (not (truthy (strip value)) || ltb bound (length value)) (value_error message)

unfoldable pub validate_identifier : Text → String → Result (Unit {0})
unfolding validate_text
validate_identifier value message = validate_text 128 value message

unfoldable pub validate_name : Text → String → Result (Unit {0})
unfolding validate_text
validate_name value message = validate_text 200 value message

-- `_validate_version_and_time`. A version below 1 is 0 here.
unfoldable pub validate_version_and_time : ℕ → Timestamp → Timestamp → Result (Unit {0})
validate_version_and_time version created updated = do
  raise_if (ltb version 1) (value_error "version must be positive")
  raise_if (not created.aware || not updated.aware)
      (value_error "entity timestamps must be timezone-aware")
  raise_if (ltb updated.micros created.micros) (value_error "updated_at cannot precede created_at")

pub record TenantContext : Type 0 where
  pub tenant_id : Text

unfoldable pub tenant_context : Text → Result TenantContext
tenant_context tenant_id = do
  validate_identifier tenant_id "tenant_id must be a non-empty string up to 128 chars"
  ok (record { tenant_id = tenant_id })

pub tenant_context-cases :
    (tenant_id : Text)
    → (tenant_context tenant_id ≡ ok (record { tenant_id = tenant_id }))
      ⊎ ((e : Error) × (tenant_context tenant_id ≡ err e))
unfolding tenant_context
tenant_context-cases tenant_id =
    elim (Result-cases
      (validate_identifier tenant_id "tenant_id must be a non-empty string up to 128 chars")) [
        | inl h ↦ inl (rw h refl)
        | inr (e, h) ↦ inr (e, rw h refl)
      ]

pub record Tenant : Type 0 where
  pub id : Text
  pub name : Text
  pub status : Text
  pub retention_days : ℕ
  pub created_at : Timestamp
  pub updated_at : Timestamp
  pub version : ℕ

unfoldable pub tenant_post_init : Tenant → Result Tenant
unfolding validate_identifier validate_name validate_version_and_time
tenant_post_init t = do
  validate_identifier t.id "tenant id must be a non-empty string up to 128 chars"
  validate_name t.name "tenant name must be a non-empty string up to 200 chars"
  raise_if (not (text_eq t.status (text "active") || text_eq t.status (text "suspended")))
      (value_error "tenant status must be active or suspended")
  raise_if (not (leb 1 t.retention_days) || not (leb t.retention_days 3650))
      (value_error "retention_days must be between 1 and 3650")
  validate_version_and_time t.version t.created_at t.updated_at
  ok t

-- A `target_policy` is a JSON object: its keys, with the text of each value.
pub record Project : Type 0 where
  pub id : Text
  pub tenant_id : Text
  pub name : Text
  pub created_by : Text
  pub target_policy : List (Text × Text)
  pub created_at : Timestamp
  pub updated_at : Timestamp
  pub version : ℕ

unfoldable pub project_post_init : Project → Result Project
unfolding validate_identifier validate_name validate_version_and_time
project_post_init p = do
  validate_identifier p.id "project id must be a non-empty string up to 128 chars"
  validate_identifier p.tenant_id "tenant_id must be a non-empty string up to 128 chars"
  validate_identifier p.created_by "created_by must be a non-empty string up to 128 chars"
  validate_name p.name "project name must be a non-empty string up to 200 chars"
  validate_version_and_time p.version p.created_at p.updated_at
  ok p
