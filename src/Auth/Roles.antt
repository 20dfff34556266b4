-- ===== src/Auth/Roles.antt =====
-- auth.py: roles, permissions and principals. A `frozenset` is a list here, of which only
-- membership is read.
use ai_agent_security_lab.Prelude.{
  ◌||◌, not, Bool, true, false, List, [], ◌∷◌, Text, text, text_eq, strip, truthy, length, Result,
  ok, value_error, authorization_error, ◌>>=◌, ◌>>◌, raise_if, any, ltb, ◌==◌,
}
use ai_agent_security_lab.Domain.Entities.{tenant_context}

pub data Role : Type 0 where
  viewer operator admin auditor : Role

pub data Permission : Type 0 where
  project_read project_create run_read run_create run_cancel report_read : Permission
  audit_read api_key_manage : Permission

abbrev pub role_eq : Role → Role → Bool
role_eq viewer viewer = true
role_eq operator operator = true
role_eq admin admin = true
role_eq auditor auditor = true
role_eq _ _ = false

abbrev pub permission_eq : Permission → Permission → Bool
permission_eq project_read project_read = true
permission_eq project_create project_create = true
permission_eq run_read run_read = true
permission_eq run_create run_create = true
permission_eq run_cancel run_cancel = true
permission_eq report_read report_read = true
permission_eq audit_read audit_read = true
permission_eq api_key_manage api_key_manage = true
permission_eq _ _ = false

-- `_ROLE_PERMISSIONS`
unfoldable pub role_permissions : Role → List Permission
role_permissions viewer = project_read ∷ run_read ∷ report_read ∷ []
role_permissions operator = project_read ∷ run_read ∷ run_create ∷ run_cancel ∷ report_read ∷ []
role_permissions admin =
    project_read ∷ project_create ∷ run_read ∷ run_create ∷ run_cancel ∷ report_read ∷ audit_read
    ∷ api_key_manage ∷ []
role_permissions auditor = audit_read ∷ []

pub record Principal : Type 0 where
  pub subject : Text
  pub tenant_id : Text
  pub roles : List Role
  pub auth_method : Text

-- `__post_init__`. A role of the list is a `Role` by its type, so that test is left out.
unfoldable pub principal : Principal → Result Principal
principal p = do
  context ← tenant_context p.tenant_id
  raise_if (not (truthy (strip p.subject)) || ltb 128 (length p.subject))
      (value_error "principal subject must be 1-128 characters")
  raise_if (length p.roles == 0) (value_error "principal must have at least one role")
  raise_if
      (not (
        text_eq p.auth_method (text "api_key")
        || text_eq p.auth_method (text "oidc")
        || text_eq p.auth_method (text "local")))
      (value_error "unsupported authentication method")
  ok p

unfoldable pub permits : Principal → Permission → Bool
unfolding role_permissions
permits p permission = any (λ role. any (permission_eq permission) (role_permissions role)) p.roles

unfoldable pub require_permission : Principal → Permission → Result (Unit {0})
unfolding permits
require_permission p permission =
    raise_if (not (permits p permission)) (authorization_error "permission denied")
