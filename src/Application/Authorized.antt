-- ===== src/Application/Authorized.antt =====
-- application/authorized.py: `AuthorizedLabApplicationService`. The principal of the request comes
-- first; the other arguments are those of the method of application/service.py.
pub mod Access
mod Examples
use ai_agent_security_lab.Prelude.{
  ℕ, List, Option, Text, Bool, true, false, Result, ok, err, Timestamp,
}
use ai_agent_security_lab.Domain.Entities.{TenantContext, tenant_context, Project}
use ai_agent_security_lab.Domain.Runs.{Seed, EvaluationRun}
use ai_agent_security_lab.Auth.Roles.{
  Principal, Permission, project_create, project_read, run_create, run_read, run_cancel,
  report_read, require_permission,
}
use ai_agent_security_lab.Application.Work.{Work, of_result, ◌>>=◌, ◌>>◌}
use ai_agent_security_lab.Application.Service.{
  create_project, projects_of, create_run, get_run, cancel_run, read_report,
}

-- `require_permission`, and `principal.tenant_context`
unfoldable pub context_for : Principal → Permission → Work TenantContext
context_for principal permission = do
  of_result (require_permission principal permission)
  of_result (tenant_context principal.tenant_id)

unfoldable pub authorized_create_project :
    Principal → Text → Text → List (Text × Text) → Timestamp → Work Project
unfolding context_for
authorized_create_project principal id name policy now = do
  context ← context_for principal project_create
  create_project id context.tenant_id name principal.subject policy now

unfoldable pub authorized_list_projects : Principal → Work (List Project)
unfolding context_for
authorized_list_projects principal = do
  context ← context_for principal project_read
  projects_of context.tenant_id

unfoldable pub authorized_create_run :
    Principal → Text → Text → Text → Seed → Text → Timestamp → Work (EvaluationRun × Bool)
unfolding context_for
authorized_create_run principal id project_id suite_version seed idempotency_key now = do
  context ← context_for principal run_create
  create_run id context.tenant_id project_id suite_version seed idempotency_key now

unfoldable pub authorized_get_run : Principal → Text → Work (Option EvaluationRun)
unfolding context_for
authorized_get_run principal run_id = do
  context ← context_for principal run_read
  get_run context.tenant_id run_id

unfoldable pub authorized_cancel_run : Principal → Text → Timestamp → Work Bool
unfolding context_for
authorized_cancel_run principal run_id now = do
  context ← context_for principal run_cancel
  cancel_run context.tenant_id run_id now

unfoldable pub authorized_read_report :
    (List ℕ → Text) → Principal → Text → Text → Work (Option (List ℕ × Text))
unfolding context_for
authorized_read_report sha256 principal run_id format_name = do
  context ← context_for principal report_read
  read_report sha256 context.tenant_id run_id format_name
