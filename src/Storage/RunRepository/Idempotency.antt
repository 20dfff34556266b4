-- ===== src/Storage/RunRepository/Idempotency.antt =====
-- storage/run_repository.py: a request to create a run that is sent again.
use ai_agent_security_lab.Prelude.{Bool, Text, text_eq, ◌&&◌}
use ai_agent_security_lab.Domain.Runs.{EvaluationRun}
use ai_agent_security_lab.Storage.Database.{Database}

-- The rows of a tenant with one idempotency key.
abbrev keyed : Text → Text → EvaluationRun → Bool
keyed tenant key r = text_eq r.tenant_id tenant && text_eq r.idempotency_key key
