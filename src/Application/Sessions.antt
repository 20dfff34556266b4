-- ===== src/Application/Sessions.antt =====
-- application/service.py: the units of work of `process_next`, each of them one transaction.
use ai_agent_security_lab.Prelude.{
  not, Bool, List, [], ◌∷◌, Option, none, some, Text, Result, ok, err, value_error, runtime_error,
  Timestamp, add_micros, if◌then◌else◌,
}
use ai_agent_security_lab.Domain.Runs.{
  running, evaluating, completed, failed, terminal, EvaluationRun, LeaseClaim,
}
use ai_agent_security_lab.Domain.Artifacts.{ReportArtifact}
use ai_agent_security_lab.Storage.Database.{
  Database, Action, pure, ◌>>=◌, ◌>>◌, raise_when, insert_artifact,
}
use ai_agent_security_lab.Storage.RunRepository.{claim_next, transition, get}
use ai_agent_security_lab.Storage.ArtifactRepository.{check_add}

unfoldable pub start : Text → Timestamp → Option LeaseClaim → Action (Option LeaseClaim)
start tenant started none = pure none
start tenant started (some claim) = do
  moved ← transition tenant claim running (add_micros started 1000)
  pure (if moved then some claim else none)

-- the first transaction of `process_next`; `none` where it returns None
unfoldable pub claim_and_start : Text → Text → Timestamp → Action (Option LeaseClaim)
unfolding start
claim_and_start tenant owner started = do
  claim ← claim_next tenant owner started 300
  start tenant started claim

-- the second: the run is evaluated
unfoldable pub to_evaluating : Text → LeaseClaim → Timestamp → Action (Unit {0})
to_evaluating tenant claim generated_at = do
  moved ← transition tenant claim evaluating generated_at
  raise_when (not moved) (runtime_error "run lease was lost before evaluation")

unfoldable pub check_all : Text → List ReportArtifact → Action (Unit {0})
check_all tenant [] = pure tt
check_all tenant (a ∷ artifacts) = do check_add tenant a; check_all tenant artifacts

unfoldable pub insert_all : List ReportArtifact → Action (Unit {0})
insert_all [] = pure tt
insert_all (a ∷ artifacts) = do insert_artifact a; insert_all artifacts

-- the third: the rows of the artifacts are inserted at the commit, after the transition
unfoldable pub complete : Text → LeaseClaim → List ReportArtifact → Timestamp → Action (Unit {0})
unfolding check_all insert_all
complete tenant claim artifacts now = do
  check_all tenant artifacts
  moved ← transition tenant claim completed now
  raise_when (not moved) (runtime_error "run lease was lost before completion")
  insert_all artifacts

-- `contextlib.suppress(ValueError)`
unfoldable pub suppressed : Result Bool × Database → Result (Unit {0}) × Database
suppressed (ok _, d) = (ok tt, d)
suppressed (err (value_error _), d) = (ok tt, d)
suppressed (err e, d) = (err e, d)

unfoldable pub fail_current :
    Text → LeaseClaim → Timestamp → Option EvaluationRun → Action (Unit {0})
unfolding suppressed
fail_current tenant claim now none = pure tt
fail_current tenant claim now (some current) = if terminal current.status then pure tt else λ d.
    suppressed (transition tenant claim failed now d)

-- the transaction of the handler of exceptions
unfoldable pub fail : Text → LeaseClaim → Timestamp → Action (Unit {0})
unfolding fail_current
fail tenant claim now = do current ← get tenant claim.run.id; fail_current tenant claim now current
