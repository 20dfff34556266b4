-- ===== src/Application/Authorized/Examples.antt =====
-- Requests of an auditor and of an operator.
use ai_agent_security_lab.Prelude.{
  ok, text_eq, truthy, strip, is_space, ok, strip, is_space, ℕ, ◌≡◌, refl, true, false, List, [],
  ◌∷◌, none, Text, text, within, truthy, Timestamp, arith,
}
use ai_agent_security_lab.Domain.Entities.{tenant_context, validate_identifier, Tenant, Project}
use ai_agent_security_lab.Domain.Runs.{Seed, EvaluationRun, queued, is_aware, has_owner, terminal}
use ai_agent_security_lab.Domain.Runs.Lifecycle.{IsValid}
use ai_agent_security_lab.Auth.Roles.{principal, Role, operator, auditor, Principal}
use ai_agent_security_lab.Storage.RunRepository.Invariant.{RunsValid}
use ai_agent_security_lab.Storage.RunRepository.Isolation.{others}
use ai_agent_security_lab.Application.Work.{Lab}
use ai_agent_security_lab.Application.Authorized.{
  authorized_create_project, authorized_list_projects, authorized_create_run, authorized_get_run,
  authorized_cancel_run, authorized_read_report,
}
use ai_agent_security_lab.Application.Authorized.Access.{
  Denied, roles_decide_calls, requests_stay_in_tenant,
}

abbrev at : ℕ → Timestamp
at n = record { micros = n; aware = true }

abbrev acme : Text
acme = text "acme"

abbrev tenant : Tenant
tenant = record {
  id = acme;
  name = text "Acme";
  status = text "active";
  retention_days = 90;
  created_at = at 0;
  updated_at = at 0;
  version = 1;
}

abbrev project : Project
project = record {
  id = text "prj";
  tenant_id = acme;
  name = text "Red team";
  created_by = text "ann";
  target_policy = [];
  created_at = at 0;
  updated_at = at 0;
  version = 1;
}

abbrev fresh_run : Text → Text → ℕ → EvaluationRun
fresh_run id key created = record {
  id = id;
  tenant_id = acme;
  project_id = text "prj";
  suite_version = text "v1";
  seed = record { negative = false; magnitude = 7 };
  idempotency_key = key;
  status = queued;
  attempt = 0;
  fencing_token = 0;
  lease_owner = none;
  lease_expires_at = none;
  created_at = at created;
  updated_at = at created;
  version = 1;
}

abbrev someone : Role → Principal
someone role = record {
  subject = text "ann";
  tenant_id = acme;
  roles = role ∷ [];
  auth_method = text "local";
}

abbrev lab : Lab
lab = record {
  database = record {
    tenants = tenant ∷ [];
    projects = project ∷ [];
    runs = fresh_run (text "run_a") (text "key_a") 10 ∷ [];
    artifacts = [];
    api_keys = [];
  };
  reports = record { max_bytes = 10; dirs = []; files = []; temporaries = [] };
}

-- a digest, for reports that the calls do not reach
abbrev no_digest : List ℕ → Text
no_digest content = []

auditor-principal : principal (someone auditor) ≡ ok (someone auditor)
unfolding principal tenant_context validate_identifier text text_eq truthy strip is_space
auditor-principal = refl

roles_decide_calls_example :
    ((id name : Text) (policy : List (Text × Text)) (now : Timestamp)
      → Denied (authorized_create_project (someone auditor) id name policy now))
    × Denied (authorized_list_projects (someone auditor))
    × ((id project_id suite key : Text) (seed : Seed) (now : Timestamp)
        → Denied (authorized_create_run (someone auditor) id project_id suite seed key now))
    × ((run_id : Text) → Denied (authorized_get_run (someone auditor) run_id))
    × ((run_id : Text) (now : Timestamp)
        → Denied (authorized_cancel_run (someone auditor) run_id now))
    × ((run_id format_name : Text)
        → Denied (authorized_read_report no_digest (someone auditor) run_id format_name))
roles_decide_calls_example = roles_decide_calls (someone auditor) no_digest auditor-principal

run-IsValid :
    (id key : Text) (n : ℕ)
    → within 128 id ≡ true
    → within 128 key ≡ true
    → IsValid (fresh_run id key n)
unfolding within text truthy has_owner is_aware terminal
run-IsValid id key n h k = ground arith

lab-RunsValid : RunsValid lab.database
unfolding text within truthy
lab-RunsValid = record {
  distinct = (refl, tt);
  rows = (run-IsValid (text "run_a") (text "key_a") 10 refl refl, tt);
}

requests_stay_in_tenant_example :
    ((id project_id suite key : Text) (seed : Seed) (now : Timestamp)
      → others acme
          (authorized_create_run (someone operator) id project_id suite seed key now lab).1.database
        ≡ others acme lab.database)
    × ((run_id : Text) (now : Timestamp)
        → others acme (authorized_cancel_run (someone operator) run_id now lab).1.database
          ≡ others acme lab.database)
requests_stay_in_tenant_example = requests_stay_in_tenant (someone operator) lab lab-RunsValid
