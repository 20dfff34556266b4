-- ===== src/Domain/Runs/Lifecycle.antt =====
-- domain/runs.py: what the table of transitions allows, and what the constructor guarantees.
use ai_agent_security_lab.Prelude.{
  ℕ, ◌+◌, ◌≤◌, ◌≡◌, ◌≢◌, ◌⊎◌, ◌↔◌, true, false, none, within, ok, arith, is_some,
}
use ai_agent_security_lab.Domain.Runs.{
  RunStatus, queued, preparing, running, evaluating, completed, failed, cancelled, terminal,
  require_transition, status_eq, EvaluationRun, post_init, has_owner, is_aware,
}

-- How far a run has come.
abbrev pub stage : RunStatus → ℕ
stage queued = 0
stage preparing = 1
stage running = 2
stage evaluating = 3
stage completed = 4
stage failed = 4
stage cancelled = 4

-- A transition is accepted exactly when the run is not over and the target is the next stage of
-- the work, a failure or a cancellation.
transition_iff :
    (s t : RunStatus)
    → (require_transition s t ≡ ok tt) ↔ (
        (terminal s ≡ false)
        × ((t ≡ failed)
            ⊎ (t ≡ cancelled)
            ⊎ ((stage t ≡ stage s + 1) × (t ≢ failed) × (t ≢ cancelled))))
unfolding require_transition terminal
transition_iff queued t = ground arith
transition_iff _ t = ground arith

-- What the constructor checks, as an invariant of a run.
pub record IsValid (r : EvaluationRun) : Type 0 where
  pub id_ok : within 128 r.id ≡ true
  pub tenant_ok : within 128 r.tenant_id ≡ true
  pub project_ok : within 128 r.project_id ≡ true
  pub suite_ok : within 128 r.suite_version ≡ true
  pub key_ok : within 128 r.idempotency_key ≡ true
  pub seed_ok : r.seed.negative ≡ false
  pub version_ok : 1 ≤ r.version
  pub created_ok : r.created_at.aware ≡ true
  pub updated_ok : r.updated_at.aware ≡ true
  pub expiry_ok : is_aware r.lease_expires_at ≡ true
  pub lease_ok : has_owner r.lease_owner ≡ is_some r.lease_expires_at
  pub released : terminal r.status ≡ true → r.lease_expires_at ≡ none

-- A run that the constructor accepts is valid, and the constructor returns it as it is.
pub post_init-IsValid : (r u : EvaluationRun) → post_init r ≡ ok u → IsValid r × (u ≡ r)
unfolding post_init
post_init-IsValid r u h = ground arith

pub post_init_of_IsValid : (r : EvaluationRun) → IsValid r → post_init r ≡ ok r
unfolding post_init
post_init_of_IsValid r v = ground arith

pub transition_from_live : (s t : RunStatus) → require_transition s t ≡ ok tt → terminal s ≡ false
transition_from_live s t h = ((transition_iff s t).0 h).0

pub status_eq→eq : (s t : RunStatus) → status_eq s t ≡ true → s ≡ t
status_eq→eq s t h = ground arith
