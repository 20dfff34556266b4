-- ===== src/Storage/Repositories/Examples.antt =====
-- A project that is renamed, and one that is deleted with its run and its report.
use ai_agent_security_lab.Prelude.{
  ℕ, ◌≡◌, refl, ◌≢◌, true, false, [], ◌∷◌, none, Text, text, text_eq, truthy, strip, is_space, ok,
  Timestamp,
}
use ai_agent_security_lab.Domain.Entities.{Tenant, Project, project_post_init}
use ai_agent_security_lab.Domain.Runs.{EvaluationRun, queued}
use ai_agent_security_lab.Domain.Artifacts.{ReportArtifact}
use ai_agent_security_lab.Storage.Database.{Database}
use ai_agent_security_lab.Storage.Repositories.{rename, delete_project, project_from_row}
use ai_agent_security_lab.Storage.Repositories.Rename.{rename_wins_once}
use ai_agent_security_lab.Storage.Repositories.Deletion.{Linked, delete_project-Linked}

abbrev at : ℕ → Timestamp
at n = record { micros = n; aware = true }

abbrev acme : Text
acme = text "acme"

abbrev tenant : Tenant
tenant = record {
  id = acme;
  name = text "Acme";
  status = text "active";
  retention_days = 90;
  created_at = at 0;
  updated_at = at 0;
  version = 1;
}

abbrev project : Project
project = record {
  id = text "prj";
  tenant_id = acme;
  name = text "Red team";
  created_by = text "ann";
  target_policy = [];
  created_at = at 0;
  updated_at = at 0;
  version = 1;
}

abbrev fresh_run : Text → Text → ℕ → EvaluationRun
fresh_run id key created = record {
  id = id;
  tenant_id = acme;
  project_id = text "prj";
  suite_version = text "v1";
  seed = record { negative = false; magnitude = 7 };
  idempotency_key = key;
  status = queued;
  attempt = 0;
  fencing_token = 0;
  lease_owner = none;
  lease_expires_at = none;
  created_at = at created;
  updated_at = at created;
  version = 1;
}

abbrev report : ReportArtifact
report = record {
  id = text "art";
  tenant_id = acme;
  run_id = text "run_a";
  format = text "json";
  object_key = text "acme/run_a/art.json";
  sha256 = text "";
  size_bytes = 3;
  content_type = text "application/json";
  expires_at = at 90;
  created_at = at 20;
  deleted_at = none;
}

abbrev table : Database
table = record {
  tenants = tenant ∷ [];
  projects = project ∷ [];
  runs = fresh_run (text "run_a") (text "key_a") 10 ∷ [];
  artifacts = report ∷ [];
  api_keys = [];
}

abbrev renamed_table : Database
renamed_table = record table {
  projects = record project { name = text "Blue team"; updated_at = at 50; version = 2 } ∷ [];
}

renaming : rename acme (text "prj") (text "Blue team") 1 (at 50) table ≡ (ok true, renamed_table)
unfolding rename project_from_row project_post_init text text_eq strip truthy is_space
renaming = refl

rename_wins_once_example :
    ((rename acme (text "prj") (text "Green team") 1 (at 60) renamed_table).0 ≢ ok true)
    × ((rename acme (text "prj") (text "Green team") 1 (at 60) renamed_table).1 ≡ renamed_table)
rename_wins_once_example =
    rename_wins_once acme (text "prj") 1 (text "Blue team") (text "Green team") (at 50) (at 60)
      table renamed_table renaming

table-Linked : Linked table
unfolding text text_eq
table-Linked = (refl, refl)

delete_project-Linked_example : Linked (delete_project acme (text "prj") table).1
delete_project-Linked_example = delete_project-Linked acme (text "prj") table table-Linked
