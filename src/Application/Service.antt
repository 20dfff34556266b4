-- ===== src/Application/Service.antt =====
-- application/service.py: `LabApplicationService`. What the clock, `new_id` and the evaluation of
-- the benchmark give is an argument, and so is what other processes do to the database between
-- the transactions of a call, at each of four points. `sha256` is the digest of the store.
pub mod Removal
pub mod Rollback
pub mod Rows
pub mod Atomicity
mod Examples
use ai_agent_security_lab.Prelude.{
  ℕ, ◌+◌, ◌*◌, ◌||◌, ◌&&◌, not, Bool, true, false, List, [], ◌∷◌, Option, none, some, Text, text,
  text_eq, Result, ok, err, Error, value_error, any, all, Timestamp, add_micros, days, leb,
  if◌then◌else◌,
}
use ai_agent_security_lab.Domain.Entities.{Project, project_post_init}
use ai_agent_security_lab.Domain.Runs.{Seed, EvaluationRun, post_init, queued, LeaseClaim}
use ai_agent_security_lab.Domain.Artifacts.{ReportArtifact, post_init as artifact_post_init}
use ai_agent_security_lab.Storage.Database.{Database}
use ai_agent_security_lab.Storage.RunRepository.{create_idempotent, get, cancel}
use ai_agent_security_lab.Storage.Repositories.{add_project, list_projects}
use ai_agent_security_lab.Storage.ArtifactRepository.{get_for_run}
use ai_agent_security_lab.Storage.ArtifactStore.{
  FileStore, WriteFault, put, read, delete, build_artifact_key,
}
use ai_agent_security_lab.Application.Work.{
  Lab, Work, done, of_result, in_transaction, in_session, in_store, ◌>>=◌, ◌>>◌,
}
use ai_agent_security_lab.Application.Sessions.{claim_and_start, to_evaluating, complete, fail}

-- The check of the constructor.
unfoldable pub retention : ℕ → Result ℕ
retention n =
    if not (leb 1 n && leb n 3650)
    then err (value_error "artifact retention must be between 1 and 3650 days")
    else ok n

abbrev policy_field : Text → Bool
policy_field field =
    text_eq field (text "network")
    || text_eq field (text "allowed_targets")
    || text_eq field (text "max_iterations")

-- `raise ValueError` in the body of a call
abbrev raise_unless : Bool → Error → Work (Unit {0})
raise_unless true e w = (ok tt, w)
raise_unless false e w = (err e, w)

unfoldable pub create_project :
    Text → Text → Text → Text → List (Text × Text) → Timestamp → Work Project
create_project id tenant name created_by policy now = do
  raise_unless (all (λ (f : Text × Text). policy_field f.0) policy)
      (value_error "target policy contains an unsupported field")
  project ← of_result (
      project_post_init (record {
        id = id;
        tenant_id = tenant;
        name = name;
        created_by = created_by;
        target_policy = policy;
        created_at = now;
        updated_at = now;
        version = 1;
      }))
  in_transaction (add_project tenant project)
  done project

-- `list_projects`
unfoldable pub projects_of : Text → Work (List Project)
projects_of tenant = in_session (list_projects tenant 100 0)

unfoldable pub create_run :
    Text → Text → Text → Text → Seed → Text → Timestamp → Work (EvaluationRun × Bool)
create_run id tenant project_id suite_version seed idempotency_key now = do
  run ← of_result (
      post_init (record {
        id = id;
        tenant_id = tenant;
        project_id = project_id;
        suite_version = suite_version;
        seed = seed;
        idempotency_key = idempotency_key;
        status = queued;
        attempt = 0;
        fencing_token = 0;
        lease_owner = none;
        lease_expires_at = none;
        created_at = now;
        updated_at = now;
        version = 1;
      }))
  in_transaction (create_idempotent tenant run)

unfoldable pub get_run : Text → Text → Work (Option EvaluationRun)
get_run tenant run_id = in_session (get tenant run_id)

unfoldable pub cancel_run : Text → Text → Timestamp → Work Bool
cancel_run tenant run_id now = in_transaction (cancel tenant run_id now)

-- One of the payloads: its format, the identifier drawn for its artifact, its bytes, and what the
-- system refuses when they are written.
pub record Payload : Type 0 where
  pub format : Text
  pub artifact_id : Text
  pub content : List ℕ
  pub write_fault : Option WriteFault

-- What one call of `process_next` meets: the readings of the clock, and what the database raises when
-- the run is read again at the end.
pub record Course : Type 0 where
  pub started : Timestamp
  pub generated_at : Timestamp
  pub completed_at : Timestamp
  pub failed_at : Timestamp
  pub reread_fault : Option Error

module _ (sha256 : List ℕ → Text) where
  -- A stored report, or what storing it raised, with the keys that were stored and the lab.
  abbrev pub Stored : Type 0
  Stored = Result (List ReportArtifact) × List Text × Lab

  abbrev content_type : Text → Text
  content_type format =
      if text_eq format (text "json")
      then text "application/json"
      else text "text/markdown; charset=utf-8"

  -- the artifact of a payload that was put at `key`
  abbrev pub artifact_of : Text → Text → ℕ → Timestamp → Payload → Text → ℕ × Text → ReportArtifact
  artifact_of tenant run_id days_kept generated_at payload key written = record {
    id = payload.artifact_id;
    tenant_id = tenant;
    run_id = run_id;
    format = payload.format;
    object_key = key;
    sha256 = written.1;
    size_bytes = written.0;
    content_type = content_type payload.format;
    expires_at = add_micros generated_at (days days_kept);
    created_at = generated_at;
    deleted_at = none;
  }

  -- one more key before those of the rest of the loop
  after_key : Text → Result ReportArtifact → Stored → Lab → Stored
  after_key key (err e) rest w = (err e, key ∷ [], w)
  after_key key (ok a) (ok artifacts, keys, w') w = (ok (a ∷ artifacts), key ∷ keys, w')
  after_key key (ok a) (err e, keys, w') w = (err e, key ∷ keys, w')

  -- The body of the loop for one payload: `rest` is what the loop does after it.
  after_put :
      Text
      → Text
      → ℕ
      → Timestamp
      → Payload
      → Text
      → Result (ℕ × Text) × Lab
      → (Lab → Stored)
      → Stored
  unfolding after_key
  after_put tenant run_id days_kept generated_at payload key (err e, w) rest = (err e, [], w)
  after_put tenant run_id days_kept generated_at payload key (ok sized, w) rest =
      after_key key
        (artifact_post_init (artifact_of tenant run_id days_kept generated_at payload key sized))
        (rest w) w

  with_key : Text → Text → ℕ → Timestamp → Payload → Result Text → (Lab → Stored) → Lab → Stored
  unfolding after_put
  with_key tenant run_id days_kept generated_at payload (err e) rest w = (err e, [], w)
  with_key tenant run_id days_kept generated_at payload (ok key) rest w =
      after_put tenant run_id days_kept generated_at payload key
        (in_store (put sha256 key payload.content payload.write_fault) w) rest

  -- The loop over the payloads. Its keys are the list `keys` of the source.
  unfoldable pub store_all : Text → Text → ℕ → Timestamp → List Payload → Lab → Stored
  unfolding with_key
  store_all tenant run_id days_kept generated_at [] w = (ok [], [], w)
  store_all tenant run_id days_kept generated_at (payload ∷ payloads) w =
      with_key tenant run_id days_kept generated_at payload
        (build_artifact_key tenant run_id payload.artifact_id payload.format)
        (store_all tenant run_id days_kept generated_at payloads) w

  unfoldable pub delete_all : List Text → Work (Unit {0})
  delete_all [] = done tt
  delete_all (key ∷ keys) = do in_store (delete key); delete_all keys

  -- What other processes do at the four points: before the run is evaluated, before it is completed,
  -- before it is read again and before it is failed.
  module _ (others : ℕ → Database → Database) where
    meanwhile : ℕ → Work (Unit {0})
    meanwhile n w = (ok tt, record w { database = others n w.database })

    reread : Text → Text → Option Error → Work (Option EvaluationRun)
    unfolding get_run
    reread tenant run_id none = get_run tenant run_id
    reread tenant run_id (some e) = of_result (err e)

    -- the `try` block after the artifacts are stored
    publish :
        Text
        → LeaseClaim
        → Timestamp
        → Option Error
        → List ReportArtifact
        → Work (Option EvaluationRun)
    unfolding meanwhile reread
    publish tenant claim completed_at fault artifacts = do
      meanwhile 1
      in_transaction (complete tenant claim artifacts completed_at)
      meanwhile 2
      reread tenant claim.run.id fault

    -- the handler: the reports go, the run fails, and the exception goes on
    handle : Text → LeaseClaim → Timestamp → Error → List Text → Work (Option EvaluationRun)
    unfolding meanwhile delete_all
    handle tenant claim failed_at e keys = do
      delete_all keys
      meanwhile 3
      in_transaction (fail tenant claim failed_at)
      of_result (err e)

    handled :
        Text
        → LeaseClaim
        → Timestamp
        → List Text
        → Result (Option EvaluationRun) × Lab
        → Result (Option EvaluationRun) × Lab
    unfolding handle
    handled tenant claim failed_at keys (ok run, w) = (ok run, w)
    handled tenant claim failed_at keys (err e, w) = handle tenant claim failed_at e keys w

    after_store : Text → LeaseClaim → Course → Stored → Result (Option EvaluationRun) × Lab
    unfolding handled publish
    after_store tenant claim course (err e, keys, w) =
        handled tenant claim course.failed_at keys (err e, w)
    after_store tenant claim course (ok artifacts, keys, w) =
        handled tenant claim course.failed_at keys
          (publish tenant claim course.completed_at course.reread_fault artifacts w)

    prepare : Text → LeaseClaim → Timestamp → Work (Unit {0})
    unfolding meanwhile
    prepare tenant claim generated_at = do
      meanwhile 0
      in_transaction (to_evaluating tenant claim generated_at)

    after_prepare :
        Text
        → ℕ
        → LeaseClaim
        → Course
        → List Payload
        → Result (Unit {0}) × Lab
        → Result (Option EvaluationRun) × Lab
    unfolding after_store handled store_all
    after_prepare tenant days_kept claim course payloads (err e, w) =
        handled tenant claim course.failed_at [] (err e, w)
    after_prepare tenant days_kept claim course payloads (ok _, w) =
        after_store tenant claim course
          (store_all tenant claim.run.id days_kept course.generated_at payloads w)

    evaluate_run :
        Text → ℕ → LeaseClaim → Course → Result (List Payload) → Work (Option EvaluationRun)
    unfolding after_prepare prepare handled
    evaluate_run tenant days_kept claim course (err e) w =
        handled tenant claim course.failed_at [] (err e, w)
    evaluate_run tenant days_kept claim course (ok payloads) w =
        after_prepare tenant days_kept claim course payloads
          (prepare tenant claim course.generated_at w)

    run_claim :
        Text
        → ℕ
        → Course
        → (Seed → Result (List Payload))
        → Option LeaseClaim
        → Work (Option EvaluationRun)
    unfolding evaluate_run
    run_claim tenant days_kept course render none = done none
    run_claim tenant days_kept course render (some claim) =
        evaluate_run tenant days_kept claim course (render claim.run.seed)

    -- `process_next`. `render` evaluates the benchmark for a seed and renders its two reports.
    unfoldable pub process_next :
        Text → ℕ → Text → Course → (Seed → Result (List Payload)) → Work (Option EvaluationRun)
    unfolding run_claim
    process_next tenant days_kept owner course render = do
      claim ← in_transaction (claim_and_start tenant owner course.started)
      run_claim tenant days_kept course render claim

  report_of : Option ReportArtifact → Work (Option (List ℕ × Text))
  report_of none w = (ok none, w)
  report_of (some a) w = elim (read sha256 a.object_key (some a.sha256) w.reports) [
    | err e ↦ (err e, w)
    | ok content ↦ (ok (some (content, a.content_type)), w)
  ]

  unfoldable pub read_report : Text → Text → Text → Work (Option (List ℕ × Text))
  unfolding report_of
  read_report tenant run_id format_name = do
    artifact ← in_session (get_for_run tenant run_id format_name)
    report_of artifact
