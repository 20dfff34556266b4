-- ===== src/Domain/Runs.antt =====
-- domain/runs.py: the statuses of an evaluation run, the table of transitions and the run itself.
pub mod Lifecycle
use ai_agent_security_lab.Prelude.{
  ℕ, ◌≤◌, ◌≡◌, ◌||◌, ◌&&◌, not, true, false, Bool, List, [], ◌∷◌, Option, none, some, String, Text,
  within, truthy, Result, ok, err, value_error, ◌>>=◌, ◌>>◌, raise_if, any, Timestamp, ltb, is_some,
}

pub data RunStatus : Type 0 where
  queued preparing running evaluating completed failed cancelled : RunStatus

unfoldable pub terminal : RunStatus → Bool
terminal completed = true
terminal failed = true
terminal cancelled = true
terminal _ = false

abbrev pub status_eq : RunStatus → RunStatus → Bool
status_eq queued queued = true
status_eq preparing preparing = true
status_eq running running = true
status_eq evaluating evaluating = true
status_eq completed completed = true
status_eq failed failed = true
status_eq cancelled cancelled = true
status_eq _ _ = false

-- `_TRANSITIONS`
unfoldable pub transitions : RunStatus → List RunStatus
transitions queued = preparing ∷ failed ∷ cancelled ∷ []
transitions preparing = running ∷ failed ∷ cancelled ∷ []
transitions running = evaluating ∷ failed ∷ cancelled ∷ []
transitions evaluating = completed ∷ failed ∷ cancelled ∷ []
transitions completed = []
transitions failed = []
transitions cancelled = []

unfoldable pub require_transition : RunStatus → RunStatus → Result (Unit {0})
unfolding transitions
require_transition current target =
    raise_if (not (any (status_eq target) (transitions current)))
      (value_error "invalid run transition")

-- `attempt` and `fencing_token` begin at 0 and are only added to, so they are naturals, and the
-- test that they are not negative is left out. `seed` may be any integer: its sign is kept.
pub record Seed : Type 0 where
  pub negative : Bool
  pub magnitude : ℕ

pub record EvaluationRun : Type 0 where
  pub id : Text
  pub tenant_id : Text
  pub project_id : Text
  pub suite_version : Text
  pub seed : Seed
  pub idempotency_key : Text
  pub status : RunStatus
  pub attempt : ℕ
  pub fencing_token : ℕ
  pub lease_owner : Option Text
  pub lease_expires_at : Option Timestamp
  pub created_at : Timestamp
  pub updated_at : Timestamp
  pub version : ℕ

-- Python's truth of `lease_owner`.
unfoldable pub has_owner : Option Text → Bool
has_owner none = false
has_owner (some owner) = truthy owner

unfoldable pub is_aware : Option Timestamp → Bool
is_aware none = true
is_aware (some t) = t.aware

abbrev pub differ : Bool → Bool → Bool
differ true b = not b
differ false b = b

-- `__post_init__`
unfoldable pub post_init : EvaluationRun → Result EvaluationRun
unfolding terminal has_owner is_aware
post_init r = do
  raise_if (not (within 128 r.id)) (value_error "run id must be non-empty and at most 128 chars")
  raise_if (not (within 128 r.tenant_id))
      (value_error "tenant_id must be non-empty and at most 128 chars")
  raise_if (not (within 128 r.project_id))
      (value_error "project_id must be non-empty and at most 128 chars")
  raise_if (not (within 128 r.suite_version))
      (value_error "suite_version must be non-empty and at most 128 chars")
  raise_if (not (within 128 r.idempotency_key))
      (value_error "idempotency_key must be non-empty and at most 128 chars")
  raise_if r.seed.negative (value_error "seed, attempt, and fencing_token must be non-negative")
  raise_if (ltb r.version 1) (value_error "version must be positive")
  raise_if (not r.created_at.aware || not r.updated_at.aware)
      (value_error "run timestamps must be timezone-aware")
  raise_if (not (is_aware r.lease_expires_at))
      (value_error "lease expiration must be timezone-aware")
  raise_if (differ (has_owner r.lease_owner) (is_some r.lease_expires_at))
      (value_error "lease owner and expiration must be set together")
  raise_if (terminal r.status && has_owner r.lease_owner)
      (value_error "terminal run cannot retain a lease")
  ok r

pub record LeaseClaim : Type 0 where
  pub run : EvaluationRun
  pub owner : Text
  pub fencing_token : ℕ
