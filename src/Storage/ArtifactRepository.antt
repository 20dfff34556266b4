-- ===== src/Storage/ArtifactRepository.antt =====
-- storage/artifact_repository.py: the metadata of the reports of one tenant's runs. Each method
-- takes the tenant of the repository's context first.
use ai_agent_security_lab.Prelude.{
  ◌&&◌, not, Bool, Option, none, some, Text, text_eq, Result, value_error, any, is_some,
  count_where, first_where, update_where, map_option, Timestamp, as_utc, ◌==◌,
}
use ai_agent_security_lab.Domain.Runs.{EvaluationRun}
use ai_agent_security_lab.Domain.Artifacts.{ReportArtifact, post_init}
use ai_agent_security_lab.Storage.Database.{
  Action, pure, lift, gets, modify, ◌>>=◌, ◌>>◌, raise_when, insert_artifact,
}

-- `_from_row`
abbrev pub artifact_utc : ReportArtifact → ReportArtifact
artifact_utc a = record a {
  expires_at = as_utc a.expires_at;
  created_at = as_utc a.created_at;
  deleted_at = map_option as_utc a.deleted_at;
}

unfoldable pub from_row : ReportArtifact → Result ReportArtifact
from_row a = post_init (artifact_utc a)

-- The two tests of `add`. The session does not flush by itself, so the row is inserted at the
-- commit: `insert_artifact`.
unfoldable pub check_add : Text → ReportArtifact → Action (Unit {0})
check_add tenant a = do
  raise_when (not (text_eq a.tenant_id tenant))
      (value_error "artifact tenant does not match repository context")
  run_exists ←
      gets (λ d.
        any (λ (r : EvaluationRun). text_eq r.id a.run_id && text_eq r.tenant_id tenant) d.runs)
  raise_when (not run_exists) (value_error "run was not found in tenant context")

-- `add` in a session of its own
unfoldable pub add : Text → ReportArtifact → Action (Unit {0})
unfolding check_add insert_artifact
add tenant a = do check_add tenant a; insert_artifact a

abbrev pub live : Text → Text → ReportArtifact → Bool
live tenant artifact_id a =
    text_eq a.id artifact_id && text_eq a.tenant_id tenant && not (is_some a.deleted_at)

abbrev pub for_run : Text → Text → Text → ReportArtifact → Bool
for_run tenant run_id format_name a =
    text_eq a.run_id run_id
    && text_eq a.tenant_id tenant
    && text_eq a.format format_name
    && not (is_some a.deleted_at)

found : Option ReportArtifact → Action (Option ReportArtifact)
unfolding from_row
found none = pure none
found (some row) = do a ← lift (from_row row); pure (some a)

unfoldable pub get : Text → Text → Action (Option ReportArtifact)
unfolding found
get tenant artifact_id = do
  row ← gets (λ d. first_where (live tenant artifact_id) d.artifacts)
  found row

unfoldable pub get_for_run : Text → Text → Text → Action (Option ReportArtifact)
unfolding found
get_for_run tenant run_id format_name = do
  row ← gets (λ d. first_where (for_run tenant run_id format_name) d.artifacts)
  found row

unfoldable pub mark_deleted : Text → Text → Timestamp → Action Bool
mark_deleted tenant artifact_id now = do
  rowcount ← gets (λ d. count_where (live tenant artifact_id) d.artifacts)
  modify (λ d. record d {
    artifacts =
        update_where (live tenant artifact_id) (λ a. record a { deleted_at = some now })
          d.artifacts;
  })
  pure (rowcount == 1)
