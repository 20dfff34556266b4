-- ===== src/Storage/Repositories.antt =====
-- storage/repositories.py: tenants, and the projects of one tenant. Each method of the repository
-- of projects takes the tenant of its context first.
pub mod Rename
pub mod Deletion
mod Examples
use ai_agent_security_lab.Prelude.{
  ℕ, ◌+◌, ◌||◌, ◌&&◌, not, Bool, true, false, List, [], ◌∷◌, Option, none, some, Text, text_eq,
  Result, ok, err, value_error, integrity_error, any, take, drop, select, count_where, first_where,
  update_where, Timestamp, as_utc, leb, ltb, ◌==◌, if◌then◌else◌,
}
use ai_agent_security_lab.Domain.Entities.{Tenant, tenant_post_init, Project, project_post_init}
use ai_agent_security_lab.Domain.Runs.{EvaluationRun}
use ai_agent_security_lab.Domain.Artifacts.{ReportArtifact}
use ai_agent_security_lab.Storage.Database.{
  Database, Action, pure, lift, gets, modify, ◌>>=◌, ◌>>◌, raise_when, insert_tenant,
  insert_project,
}
use ai_agent_security_lab.Storage.RunRepository.{text_lt}

-- `_tenant_from_row` and `_project_from_row`: the constructors' checks run again.
unfoldable pub tenant_from_row : Tenant → Result Tenant
tenant_from_row t =
    tenant_post_init
      (record t { created_at = as_utc t.created_at; updated_at = as_utc t.updated_at })

abbrev pub project_utc : Project → Project
project_utc p = record p { created_at = as_utc p.created_at; updated_at = as_utc p.updated_at }

unfoldable pub project_from_row : Project → Result Project
project_from_row p = project_post_init (project_utc p)

-- `TenantRepository`
unfoldable pub add_tenant : Tenant → Action (Unit {0})
unfolding insert_tenant
add_tenant t = insert_tenant t

found_tenant : Option Tenant → Action (Option Tenant)
unfolding tenant_from_row
found_tenant none = pure none
found_tenant (some row) = do tenant ← lift (tenant_from_row row); pure (some tenant)

unfoldable pub get_tenant : Text → Action (Option Tenant)
unfolding found_tenant
get_tenant tenant_id = do
  row ← gets (λ d. first_where (λ (t : Tenant). text_eq t.id tenant_id) d.tenants)
  found_tenant row

-- `ProjectRepository`
unfoldable pub add_project : Text → Project → Action (Unit {0})
unfolding insert_project
add_project tenant p = do
  raise_when (not (text_eq p.tenant_id tenant))
      (value_error "project tenant does not match repository context")
  insert_project p

abbrev pub is_project : Text → Text → Project → Bool
is_project tenant project_id p = text_eq p.id project_id && text_eq p.tenant_id tenant

unfoldable pub found_project : Option Project → Action (Option Project)
found_project none = pure none
found_project (some row) = do p ← lift (project_from_row row); pure (some p)

unfoldable pub get_project : Text → Text → Action (Option Project)
unfolding found_project
get_project tenant project_id = do
  row ← gets (λ d. first_where (is_project tenant project_id) d.projects)
  found_project row

-- `ORDER BY created_at, id`
abbrev pub project_precedes : Project → Project → Bool
project_precedes p q =
    ltb p.created_at.micros q.created_at.micros
    || (p.created_at.micros == q.created_at.micros && text_lt p.id q.id)

insert_in_order : Project → List Project → List Project
unfolding text_lt
insert_in_order p [] = p ∷ []
insert_in_order p (q ∷ rows) =
    let rest = insert_in_order p rows in if project_precedes q p then q ∷ rest else p ∷ q ∷ rows

unfoldable pub in_order : List Project → List Project
unfolding insert_in_order
in_order [] = []
in_order (p ∷ rows) = insert_in_order p (in_order rows)

from_rows : List Project → Result (List Project)
unfolding project_from_row
from_rows [] = ok []
from_rows (row ∷ rows) = elim (project_from_row row) [
  | err e ↦ err e
  | ok p ↦ elim (from_rows rows) [ err e ↦ err e | ok ps ↦ ok (p ∷ ps) ]
]

-- An offset below 0, which raises, is not in the type.
unfoldable pub list_projects : Text → ℕ → ℕ → Action (List Project)
unfolding in_order from_rows
list_projects tenant limit offset = do
  raise_when (not (leb 1 limit && leb limit 100)) (value_error "limit must be between 1 and 100")
  rows ← gets (λ d. in_order (select (λ (p : Project). text_eq p.tenant_id tenant) d.projects))
  lift (from_rows (take limit (drop offset rows)))

-- The rows of the UPDATE of `rename`, and what it sets.
abbrev pub at_version : Text → Text → ℕ → Project → Bool
at_version tenant project_id expected p = is_project tenant project_id p && p.version == expected

abbrev pub renamed : Text → Timestamp → Project → Project
renamed name now p = record p { name = name; updated_at = now; version = p.version + 1 }

-- the constraint of the tenant's names: a row that is not updated has the name
abbrev name_taken : Text → Text → Text → List Project → Bool
name_taken tenant project_id name rows =
    any
      (λ (p : Project).
        text_eq p.tenant_id tenant && text_eq p.name name && not (text_eq p.id project_id))
      rows

rename_from : Text → Text → Text → ℕ → Timestamp → Option Project → Action Bool
rename_from tenant project_id name expected now none = pure false
rename_from tenant project_id name expected now (some existing) = do
  validated ← lift (project_post_init (record existing { name = name; updated_at = now }))
  rowcount ← gets (λ d. count_where (at_version tenant project_id expected) d.projects)
  taken ← gets (λ d. name_taken tenant project_id name d.projects)
  raise_when (leb 1 rowcount && taken) (integrity_error "uq_projects_tenant_name")
  modify (λ d. record d {
    projects = update_where (at_version tenant project_id expected) (renamed name now) d.projects;
  })
  pure (rowcount == 1)

unfoldable pub rename : Text → Text → Text → ℕ → Timestamp → Action Bool
unfolding get_project rename_from
rename tenant project_id name expected now = do
  existing ← get_project tenant project_id
  rename_from tenant project_id name expected now existing

-- `ON DELETE CASCADE` of the foreign keys: the runs of the projects that are deleted go with them,
-- and the artifacts of those runs.
abbrev pub run_gone : (Project → Bool) → List Project → EvaluationRun → Bool
run_gone p projects r = any (λ (q : Project). p q && text_eq q.id r.project_id) projects

abbrev pub artifact_gone : (EvaluationRun → Bool) → List EvaluationRun → ReportArtifact → Bool
artifact_gone p runs a = any (λ (r : EvaluationRun). p r && text_eq r.id a.run_id) runs

abbrev pub without : (Project → Bool) → Database → Database
without p d = record d {
  projects = select (λ q. not (p q)) d.projects;
  runs = select (λ r. not (run_gone p d.projects r)) d.runs;
  artifacts = select (λ a. not (artifact_gone (run_gone p d.projects) d.runs a)) d.artifacts;
}

unfoldable pub delete_project : Text → Text → Action Bool
delete_project tenant project_id = do
  rowcount ← gets (λ d. count_where (is_project tenant project_id) d.projects)
  modify (without (is_project tenant project_id))
  pure (rowcount == 1)
