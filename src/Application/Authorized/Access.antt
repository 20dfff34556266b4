-- ===== src/Application/Authorized/Access.antt =====
-- application/authorized.py: who may do what, and on whose data.
use ai_agent_security_lab.Prelude.{
  true, Bool-cases, ℕ, ◌≡◌, refl, ◌||◌, Bool, false, List, [], ◌∷◌, none, Text, Result, ok, err,
  any, Timestamp, arith, authorization_error, ap, inl, inr, ◌⊎◌, ◌∙◌, Error, Result-cases,
}
use ai_agent_security_lab.Domain.Entities.{TenantContext, tenant_context, tenant_context-cases}
use ai_agent_security_lab.Domain.Runs.{Seed, EvaluationRun, queued, post_init}
use ai_agent_security_lab.Auth.Roles.{
  Role, viewer, operator, admin, auditor, role_eq, Principal, principal, Permission, permission_eq,
  project_create, project_read, run_create, run_read, run_cancel, report_read, api_key_manage,
  audit_read, permits, role_permissions, require_permission,
}
use ai_agent_security_lab.Storage.RunRepository.Invariant.{RunsValid}
use ai_agent_security_lab.Storage.RunRepository.Isolation.{others, tenants_are_isolated}
use ai_agent_security_lab.Application.Work.{Lab, Work, of_result, in_transaction, ◌>>=◌}
use ai_agent_security_lab.Application.Service.{
  create_project, projects_of, create_run, get_run, cancel_run, read_report,
}
use ai_agent_security_lab.Storage.Database.{transaction}
use ai_agent_security_lab.Storage.RunRepository.{create_idempotent}
use ai_agent_security_lab.Storage.RunRepository.History.{submit, stop, perform}
use ai_agent_security_lab.Application.Authorized.{
  context_for, authorized_create_project, authorized_list_projects, authorized_create_run,
  authorized_get_run, authorized_cancel_run, authorized_read_report,
}

abbrev pub Denied : {A : Type 0} → Work A → Type 0
Denied call = (w : Lab) → call w ≡ (err (authorization_error "permission denied"), w)

-- Two predicates that agree on the four roles.
abbrev Agree : (Role → Bool) → (Role → Bool) → Type 0
Agree f g =
    (f viewer ≡ g viewer)
    × (f operator ≡ g operator)
    × (f admin ≡ g admin)
    × (f auditor ≡ g auditor)

any_same : (f g : Role → Bool) (roles : List Role) → Agree f g → any f roles ≡ any g roles
any_same f g [] h = refl
any_same f g (viewer ∷ roles) h = ground (arith, any_same f g roles h)
any_same f g (operator ∷ roles) h = ground (arith, any_same f g roles h)
any_same f g (admin ∷ roles) h = ground (arith, any_same f g roles h)
any_same f g (auditor ∷ roles) h = ground (arith, any_same f g roles h)

abbrev pub reader : Role → Bool
reader r = role_eq r viewer || role_eq r operator || role_eq r admin

abbrev pub worker : Role → Bool
worker r = role_eq r operator || role_eq r admin

-- The principals that have each permission: administrators have all, operators and viewers read
-- projects, runs and reports, operators create and cancel runs, and auditors read the audit.
permits_lem :
    (p : Principal)
    → (permits p project_read ≡ any reader p.roles)
      × (permits p run_read ≡ any reader p.roles)
      × (permits p report_read ≡ any reader p.roles)
      × (permits p run_create ≡ any worker p.roles)
      × (permits p run_cancel ≡ any worker p.roles)
      × (permits p project_create ≡ any (λ r. role_eq r admin) p.roles)
      × (permits p api_key_manage ≡ any (λ r. role_eq r admin) p.roles)
      × (permits p audit_read ≡ any (λ r. role_eq r auditor || role_eq r admin) p.roles)
unfolding permits role_permissions
permits_lem p = (
  any_same (λ r. any (permission_eq project_read) (role_permissions r)) reader p.roles
      (refl, refl, refl, refl),
  any_same (λ r. any (permission_eq run_read) (role_permissions r)) reader p.roles
      (refl, refl, refl, refl),
  any_same (λ r. any (permission_eq report_read) (role_permissions r)) reader p.roles
      (refl, refl, refl, refl),
  any_same (λ r. any (permission_eq run_create) (role_permissions r)) worker p.roles
      (refl, refl, refl, refl),
  any_same (λ r. any (permission_eq run_cancel) (role_permissions r)) worker p.roles
      (refl, refl, refl, refl),
  any_same (λ r. any (permission_eq project_create) (role_permissions r)) (λ r. role_eq r admin)
      p.roles (refl, refl, refl, refl),
  any_same (λ r. any (permission_eq api_key_manage) (role_permissions r)) (λ r. role_eq r admin)
      p.roles (refl, refl, refl, refl),
  any_same (λ r. any (permission_eq audit_read) (role_permissions r))
      (λ r. role_eq r auditor || role_eq r admin) p.roles (refl, refl, refl, refl),
)

-- A call that is granted is the call of the service; one that is not is denied.
abbrev pub Decides : {A : Type 0} → Bool → Work A → Work A → Type 0
Decides true call service = (w : Lab) → call w ≡ service w
Decides false call service = Denied call

tenant_of_principal :
    (p : Principal)
    → principal p ≡ ok p
    → tenant_context p.tenant_id ≡ ok (record { tenant_id = p.tenant_id })
unfolding principal
tenant_of_principal p built = elim (tenant_context-cases p.tenant_id) [
  | inl c ↦ c
  | inr (e, c) ↦ absurd (ground (arith, rw c at built))
]

permission-Decides :
    {A : Type 0} (p : Principal) (permission : Permission) (grants : Role → Bool)
    (call : TenantContext → Work A)
    → principal p ≡ ok p
    → permits p permission ≡ any grants p.roles
    → Decides
        (any grants p.roles)
        (context_for p permission >>= call)
        (call (record { tenant_id = p.tenant_id }))
unfolding context_for require_permission
permission-Decides p permission grants call built h = elim (Bool-cases (any grants p.roles)) [
  | inl given ↦ rw given (λ w. rw (h, given, tenant_of_principal p built) refl)
  | inr lacking ↦ rw lacking (λ w. rw (h, lacking) refl)
]

-- Of a principal that the constructor accepts, the roles decide each of the six calls. With a role
-- that grants it, the call is the service's for the principal's own tenant: to create a project
-- takes an administrator, to create or to cancel a run an operator or an administrator, and to read
-- projects, runs and reports a viewer, an operator or an administrator. Without one the call raises
-- the authorization error, and changes neither the database nor the reports.
pub roles_decide_calls :
    (p : Principal) (sha256 : List ℕ → Text)
    → principal p ≡ ok p
    → ((id name : Text) (policy : List (Text × Text)) (now : Timestamp)
        → Decides
            (any (λ r. role_eq r admin) p.roles)
            (authorized_create_project p id name policy now)
            (create_project id p.tenant_id name p.subject policy now))
      × Decides (any reader p.roles) (authorized_list_projects p) (projects_of p.tenant_id)
      × ((id project_id suite key : Text) (seed : Seed) (now : Timestamp)
          → Decides
              (any worker p.roles)
              (authorized_create_run p id project_id suite seed key now)
              (create_run id p.tenant_id project_id suite seed key now))
      × ((run_id : Text)
          → Decides (any reader p.roles) (authorized_get_run p run_id) (get_run p.tenant_id run_id))
      × ((run_id : Text) (now : Timestamp)
          → Decides
              (any worker p.roles)
              (authorized_cancel_run p run_id now)
              (cancel_run p.tenant_id run_id now))
      × ((run_id format_name : Text)
          → Decides
              (any reader p.roles)
              (authorized_read_report sha256 p run_id format_name)
              (read_report sha256 p.tenant_id run_id format_name))
unfolding authorized_create_project authorized_list_projects authorized_create_run
    authorized_get_run authorized_cancel_run authorized_read_report
roles_decide_calls p sha256 built =
    let (reads_projects, reads_runs, reads_reports, creates, cancels, makes, _, _) =
      permits_lem p in
    (
      (λ id name policy now.
          permission-Decides p project_create (λ r. role_eq r admin)
            (λ c. create_project id c.tenant_id name p.subject policy now) built makes),
      permission-Decides p project_read reader (λ c. projects_of c.tenant_id) built reads_projects,
      (λ id project_id suite key seed now.
          permission-Decides p run_create worker
            (λ c. create_run id c.tenant_id project_id suite seed key now) built creates),
      (λ run_id.
          permission-Decides p run_read reader (λ c. get_run c.tenant_id run_id) built reads_runs),
      (λ run_id now.
          permission-Decides p run_cancel worker (λ c. cancel_run c.tenant_id run_id now) built
            cancels),
      (λ run_id format_name.
          permission-Decides p report_read reader
            (λ c. read_report sha256 c.tenant_id run_id format_name) built reads_reports),
    )

context-cases :
    (p : Principal) (permission : Permission) (w : Lab)
    → (context_for p permission w ≡ (ok (record { tenant_id = p.tenant_id }), w))
      ⊎ ((e : Error) × (context_for p permission w ≡ (err e, w)))
unfolding context_for
context-cases p permission w = elim (Result-cases (require_permission p permission)) [
  | inr (e, h) ↦ inr (e, rw h refl)
  | inl h ↦ elim (tenant_context-cases p.tenant_id) [
    | inl c ↦ inl (rw (h, c) refl)
    | inr (e, c) ↦ inr (e, rw (h, c) refl)
  ]
]

-- A call that has a context stays in the tenant if the call of the service does.
stays :
    {A : Type 0} (p : Principal) (permission : Permission) (call : TenantContext → Work A) (w : Lab)
    → others p.tenant_id (call (record { tenant_id = p.tenant_id }) w).1.database
      ≡ others p.tenant_id w.database
    → others p.tenant_id ((context_for p permission >>= call) w).1.database
      ≡ others p.tenant_id w.database
stays p permission call w h = elim (context-cases p permission w) [
  | inl c ↦ ap (λ m. others p.tenant_id (((λ (_ : Lab). m) >>= call) w).1.database) c ∙ h
  | inr (e, c) ↦ ap (λ m. others p.tenant_id (((λ (_ : Lab). m) >>= call) w).1.database) c
]

create_run-stays :
    (id tenant project_id suite key : Text) (seed : Seed) (now : Timestamp) (w : Lab)
    → RunsValid w.database
    → others tenant (create_run id tenant project_id suite seed key now w).1.database
      ≡ others tenant w.database
unfolding create_run perform
create_run-stays id tenant project_id suite key seed now w v =
    ap (others tenant) (go (post_init run)) ∙ tenants_are_isolated (submit tenant run) w.database v
  where
    run : EvaluationRun
    run = record {
      id = id;
      tenant_id = tenant;
      project_id = project_id;
      suite_version = suite;
      seed = seed;
      idempotency_key = key;
      status = queued;
      attempt = 0;
      fencing_token = 0;
      lease_owner = none;
      lease_expires_at = none;
      created_at = now;
      updated_at = now;
      version = 1;
    }

    go :
        (r : Result EvaluationRun)
        → ((of_result r >>= λ b. in_transaction (create_idempotent tenant b)) w).1.database
          ≡ (transaction {A = EvaluationRun × Bool}
              (λ d. elim r [ ok b ↦ create_idempotent tenant b d | err e ↦ (err e, d) ])
              w.database).1
    go (ok b) = refl
    go (err e) = refl

-- Over a valid table of runs, a request to create or to cancel a run changes no run of a tenant
-- other than the principal's, whatever the principal is allowed.
pub requests_stay_in_tenant :
    (p : Principal) (w : Lab)
    → RunsValid w.database
    → ((id project_id suite key : Text) (seed : Seed) (now : Timestamp)
        → others p.tenant_id (authorized_create_run p id project_id suite seed key now w).1.database
          ≡ others p.tenant_id w.database)
      × ((run_id : Text) (now : Timestamp)
          → others p.tenant_id (authorized_cancel_run p run_id now w).1.database
            ≡ others p.tenant_id w.database)
unfolding authorized_create_run authorized_cancel_run cancel_run perform
requests_stay_in_tenant p w v = (
  (λ id project_id suite key seed now.
      stays p run_create (λ context. create_run id context.tenant_id project_id suite seed key now)
        w (create_run-stays id p.tenant_id project_id suite key seed now w v)),
  (λ run_id now.
      stays p run_cancel (λ context. cancel_run context.tenant_id run_id now) w
        (tenants_are_isolated (stop p.tenant_id run_id now) w.database v)),
)
