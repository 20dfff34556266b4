-- ===== src/Application/Service/Examples.antt =====
-- A call of `process_next` that stores one report, and raises at the next.
use ai_agent_security_lab.Prelude.{
  arith, ℕ, ◌≡◌, refl, true, false, List, [], ◌∷◌, none, Text, text, text_eq, within, truthy,
  Result, ok, Timestamp, is_ok,
}
use ai_agent_security_lab.Domain.Entities.{Tenant, Project}
use ai_agent_security_lab.Domain.Runs.{
  Seed, EvaluationRun, queued, is_aware, has_owner, terminal, post_init, require_transition,
  transitions,
}
use ai_agent_security_lab.Domain.Artifacts.{post_init as artifact_post_init, is_hex}
use ai_agent_security_lab.Storage.Database.{Database}
use ai_agent_security_lab.Storage.RunRepository.{claim_next, transition, from_row, text_lt}
use ai_agent_security_lab.Storage.ArtifactStore.{
  Parts, contents, path, put, delete, build_artifact_key, is_key_part, is_key_char, parts_of,
  is_absolute,
}
use ai_agent_security_lab.Application.Work.{Lab}
use ai_agent_security_lab.Application.Sessions.{claim_and_start, to_evaluating, fail}
use ai_agent_security_lab.Application.Service.{Payload, Course, process_next}
use ai_agent_security_lab.Domain.Runs.Lifecycle.{IsValid}
use ai_agent_security_lab.Storage.RunRepository.Invariant.{RunsValid}
use ai_agent_security_lab.Application.Service.Rows.{Intact}
use ai_agent_security_lab.Application.Service.Atomicity.{process_next_restores_rows}
use ai_agent_security_lab.Application.Service.Rollback.{process_next_restores_reports}

abbrev at : ℕ → Timestamp
at n = record { micros = n; aware = true }

abbrev acme : Text
acme = text "acme"

abbrev tenant : Tenant
tenant = record {
  id = acme;
  name = text "Acme";
  status = text "active";
  retention_days = 90;
  created_at = at 0;
  updated_at = at 0;
  version = 1;
}

abbrev project : Project
project = record {
  id = text "prj";
  tenant_id = acme;
  name = text "Red team";
  created_by = text "ann";
  target_policy = [];
  created_at = at 0;
  updated_at = at 0;
  version = 1;
}

abbrev fresh_run : Text → Text → ℕ → EvaluationRun
fresh_run id key created = record {
  id = id;
  tenant_id = acme;
  project_id = text "prj";
  suite_version = text "v1";
  seed = record { negative = false; magnitude = 7 };
  idempotency_key = key;
  status = queued;
  attempt = 0;
  fencing_token = 0;
  lease_owner = none;
  lease_expires_at = none;
  created_at = at created;
  updated_at = at created;
  version = 1;
}

abbrev lab : Lab
lab = record {
  database = record {
    tenants = tenant ∷ [];
    projects = project ∷ [];
    runs = fresh_run (text "run_a") (text "key_a") 10 ∷ [];
    artifacts = [];
    api_keys = [];
  };
  reports = record { max_bytes = 10; dirs = []; files = []; temporaries = [] };
}

-- a digest of the right form
abbrev toy_sha256 : List ℕ → Text
toy_sha256 content = text "0000000000000000000000000000000000000000000000000000000000000000"

abbrev course : Course
course = record {
  started = at 1000;
  generated_at = at 5000;
  completed_at = at 6000;
  failed_at = at 7000;
  reread_fault = none;
}

abbrev nobody : ℕ → Database → Database
nobody n d = d

-- The second identifier is not one that a key can have.
abbrev render : Seed → Result (List Payload)
render seed = ok (
    record {
      format = text "json";
      artifact_id = text "art_1";
      content = 1 ∷ 2 ∷ [];
      write_fault = none;
    }
    ∷ record {
      format = text "markdown";
      artifact_id = text "art/2";
      content = 3 ∷ [];
      write_fault = none;
    }
    ∷ [])

raises : is_ok (process_next toy_sha256 nobody acme 30 (text "worker") course render lab).0 ≡ false
unfolding process_next claim_and_start claim_next transition to_evaluating from_row text_lt text
    text_eq within truthy post_init require_transition transitions terminal has_owner is_aware put
    path parts_of is_absolute is_key_part is_key_char build_artifact_key artifact_post_init is_hex
    delete fail
raises = refl

abbrev first_report : Parts
first_report = acme ∷ text "run_a" ∷ text "art_1.json" ∷ []

process_next_restores_reports_example :
    contents first_report
      (process_next toy_sha256 nobody acme 30 (text "worker") course render lab).1.reports.files
    ≡ contents first_report lab.reports.files
process_next_restores_reports_example =
    process_next_restores_reports toy_sha256 nobody acme 30 (text "worker") course render lab raises
      first_report

run-IsValid :
    (id key : Text) (n : ℕ)
    → within 128 id ≡ true
    → within 128 key ≡ true
    → IsValid (fresh_run id key n)
unfolding within text truthy has_owner is_aware terminal
run-IsValid id key n h k = ground arith

lab-RunsValid : RunsValid lab.database
unfolding text within truthy
lab-RunsValid = record {
  distinct = (refl, tt);
  rows = (run-IsValid (text "run_a") (text "key_a") 10 refl refl, tt);
}

process_next_restores_rows_example :
    Intact [] (process_next toy_sha256 nobody acme 30 (text "worker") course render lab).1.database
process_next_restores_rows_example =
    process_next_restores_rows toy_sha256 nobody acme 30 (text "worker") course render lab
      (λ n d v. (v, refl)) lab-RunsValid refl raises
