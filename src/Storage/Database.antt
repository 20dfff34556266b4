-- ===== src/Storage/Database.antt =====
-- storage/models.py and storage/database.py: the tables with the constraints of their columns, and
-- a session as state passing. A row is kept as the domain object that it stores: `_to_row` copies
-- the fields, and `_from_row` calls the constructor on them again. The database itself is the
-- list of rows of each table; an insert raises where a constraint of models.py would.
use ai_agent_security_lab.Prelude.{
  ℕ, ◌&&◌, not, Bool, true, false, List, [], ◌∷◌, ◌++◌, Option, Text, text_eq, Error, Result, ok,
  err, integrity_error, any, count_where, update_where, Timestamp, ltb,
}
use ai_agent_security_lab.Domain.Entities.{Tenant, Project}
use ai_agent_security_lab.Domain.Runs.{EvaluationRun}
use ai_agent_security_lab.Domain.Artifacts.{ReportArtifact}
use ai_agent_security_lab.Auth.Roles.{Role}

-- storage/auth_repository.py: `StoredAPIKey`, and the row `APIKeyRow`.
pub record StoredApiKey : Type 0 where
  pub key_id : Text
  pub tenant_id : Text
  pub digest : Text
  pub salt : Text
  pub roles : List Role
  pub created_by : Text
  pub created_at : Timestamp
  pub expires_at : Timestamp
  pub revoked_at : Option Timestamp

pub record Database : Type 0 where
  pub tenants : List Tenant
  pub projects : List Project
  pub runs : List EvaluationRun
  pub artifacts : List ReportArtifact
  pub api_keys : List StoredApiKey

abbrev pub empty : Database
empty = record { tenants = []; projects = []; runs = []; artifacts = []; api_keys = [] }

-- Work in a session: what was written before a raise is still there until the rollback.
abbrev pub Action : Type 0 → Type 0
Action A = Database → Result A × Database

module _ {A : Type 0} where
  abbrev pub pure : A → Action A
  pure a d = (ok a, d)

  abbrev pub raise : Error → Action A
  raise e d = (err e, d)

  abbrev pub lift : Result A → Action A
  lift r d = (r, d)

  abbrev pub gets : (Database → A) → Action A
  gets f d = (ok (f d), d)

  abbrev pub roll_back : Database → Result A × Database → Result A × Database
  roll_back d (ok a, d') = (ok a, d')
  roll_back d (err e, d') = (err e, d)

  -- `with sessions.begin() as session:` commits, or rolls back when the body raises.
  abbrev pub transaction : Action A → Action A
  transaction m d = roll_back d (m d)

infixl 5 ◌>>=◌ ◌>>◌
abbrev pub ◌>>=◌ : {A B : Type 0} → Action A → (A → Action B) → Action B
◌>>=◌ m f d = let (r, d') = m d in elim r [ ok a ↦ f a d' | err e ↦ (err e, d') ]

abbrev pub ◌>>◌ : {A B : Type 0} → Action A → Action B → Action B
m >> k = m >>= λ _. k

abbrev pub raise_when : Bool → Error → Action (Unit {0})
raise_when true e d = (err e, d)
raise_when false e d = (ok tt, d)

abbrev pub modify : (Database → Database) → Action (Unit {0})
modify f d = (ok tt, f d)

tenant_exists : Text → Database → Bool
tenant_exists id d = any (λ (t : Tenant). text_eq t.id id) d.tenants

-- `TenantRow`: the primary key and `name` are unique, `retention_days` and `version` positive.
unfoldable pub insert_tenant : Tenant → Action (Unit {0})
insert_tenant t = do
  d ← gets (λ d. d)
  raise_when (any (λ (u : Tenant). text_eq u.id t.id) d.tenants) (integrity_error "pk_tenants")
  raise_when (any (λ (u : Tenant). text_eq u.name t.name) d.tenants)
      (integrity_error "uq_tenants_name")
  raise_when (ltb t.retention_days 1) (integrity_error "ck_tenants_retention_positive")
  raise_when (ltb t.version 1) (integrity_error "ck_tenants_version_positive")
  modify (λ d. record d { tenants = d.tenants ++ t ∷ [] })

-- `ProjectRow`
unfoldable pub insert_project : Project → Action (Unit {0})
unfolding tenant_exists
insert_project p = do
  d ← gets (λ d. d)
  raise_when (any (λ (q : Project). text_eq q.id p.id) d.projects) (integrity_error "pk_projects")
  raise_when
      (any (λ (q : Project). text_eq q.tenant_id p.tenant_id && text_eq q.name p.name) d.projects)
      (integrity_error "uq_projects_tenant_name")
  raise_when (not (tenant_exists p.tenant_id d)) (integrity_error "fk_projects_tenant_id_tenants")
  raise_when (ltb p.version 1) (integrity_error "ck_projects_version_positive")
  modify (λ d. record d { projects = d.projects ++ p ∷ [] })

-- `APIKeyRow`
unfoldable pub insert_api_key : StoredApiKey → Action (Unit {0})
unfolding tenant_exists
insert_api_key k = do
  d ← gets (λ d. d)
  raise_when (any (λ (j : StoredApiKey). text_eq j.key_id k.key_id) d.api_keys)
      (integrity_error "pk_api_keys")
  raise_when (not (tenant_exists k.tenant_id d)) (integrity_error "fk_api_keys_tenant_id_tenants")
  modify (λ d. record d { api_keys = d.api_keys ++ k ∷ [] })

-- `EvaluationRunRow`
unfoldable pub insert_run : EvaluationRun → Action (Unit {0})
unfolding tenant_exists
insert_run r = do
  d ← gets (λ d. d)
  raise_when (any (λ (s : EvaluationRun). text_eq s.id r.id) d.runs)
      (integrity_error "pk_evaluation_runs")
  raise_when
      (any
        (λ (s : EvaluationRun).
          text_eq s.tenant_id r.tenant_id && text_eq s.idempotency_key r.idempotency_key)
        d.runs)
      (integrity_error "uq_runs_tenant_idempotency")
  raise_when (not (tenant_exists r.tenant_id d))
      (integrity_error "fk_evaluation_runs_tenant_id_tenants")
  raise_when (not (any (λ (p : Project). text_eq p.id r.project_id) d.projects))
      (integrity_error "fk_evaluation_runs_project_id_projects")
  raise_when r.seed.negative (integrity_error "ck_evaluation_runs_seed_non_negative")
  raise_when (ltb r.version 1) (integrity_error "ck_evaluation_runs_version_positive")
  modify (λ d. record d { runs = d.runs ++ r ∷ [] })

-- `ReportArtifactRow`
unfoldable pub insert_artifact : ReportArtifact → Action (Unit {0})
unfolding tenant_exists
insert_artifact a = do
  d ← gets (λ d. d)
  raise_when (any (λ (b : ReportArtifact). text_eq b.id a.id) d.artifacts)
      (integrity_error "pk_report_artifacts")
  raise_when
      (any
        (λ (b : ReportArtifact).
          text_eq b.tenant_id a.tenant_id && text_eq b.object_key a.object_key)
        d.artifacts)
      (integrity_error "uq_artifacts_tenant_key")
  raise_when (not (tenant_exists a.tenant_id d))
      (integrity_error "fk_report_artifacts_tenant_id_tenants")
  raise_when (not (any (λ (r : EvaluationRun). text_eq r.id a.run_id) d.runs))
      (integrity_error "fk_report_artifacts_run_id_evaluation_runs")
  modify (λ d. record d { artifacts = d.artifacts ++ a ∷ [] })

-- `UPDATE evaluation_runs WHERE p SET f`, with the number of the rows that it changed.
unfoldable pub update_runs : (EvaluationRun → Bool) → (EvaluationRun → EvaluationRun) → Action ℕ
update_runs p f = do
  matched ← gets (λ d. count_where p d.runs)
  modify (λ d. record d { runs = update_where p f d.runs })
  pure matched
