-- ===== src/Storage/RunRepository.antt =====
-- storage/run_repository.py: evaluation runs with leases and fencing tokens. Each method takes the
-- tenant of the repository's context first, and is one unit of work of a session.
pub mod Rows
pub mod Invariant
pub mod Steps
pub mod History
pub mod Exact
pub mod Claims
pub mod Isolation
pub mod Idempotency
mod Examples
use ai_agent_security_lab.Prelude.{
  ℕ, ◌+◌, ◌||◌, ◌&&◌, not, Bool, true, false, List, [], ◌∷◌, Option, none, some, Text, text_eq,
  within, Result, value_error, any, first_where, Timestamp, add_micros, seconds, as_utc, leb, ltb,
  ◌==◌, if◌then◌else◌, map_option,
}
use ai_agent_security_lab.Domain.Entities.{Project}
use ai_agent_security_lab.Domain.Runs.{
  RunStatus, queued, preparing, running, evaluating, cancelled, terminal, status_eq,
  require_transition, EvaluationRun, post_init, LeaseClaim,
}
use ai_agent_security_lab.Storage.Database.{
  Action, pure, lift, gets, ◌>>=◌, ◌>>◌, raise_when, insert_run, update_runs,
}

-- `_ACTIVE`
abbrev pub active : RunStatus → Bool
active queued = true
active preparing = true
active running = true
active evaluating = true
active _ = false

-- `_from_row`: the constructor's checks run again.
abbrev pub utc : EvaluationRun → EvaluationRun
utc r = record r {
  lease_expires_at = map_option as_utc r.lease_expires_at;
  created_at = as_utc r.created_at;
  updated_at = as_utc r.updated_at;
}

unfoldable pub from_row : EvaluationRun → Result EvaluationRun
from_row r = post_init (utc r)

from_found : Option EvaluationRun → Action (Option EvaluationRun)
unfolding from_row
from_found none = pure none
from_found (some row) = do run ← lift (from_row row); pure (some run)

-- `_validate_lease`. A negative number of seconds is refused as 0 is.
unfoldable pub validate_lease : Text → Timestamp → ℕ → Action (Unit {0})
validate_lease owner now lease_seconds = do
  raise_when (not (within 128 owner))
      (value_error "lease owner must be non-empty and at most 128 chars")
  raise_when (not now.aware) (value_error "lease timestamp must be timezone-aware")
  raise_when (not (leb 1 lease_seconds) || not (leb lease_seconds 3600))
      (value_error "lease_seconds must be between 1 and 3600")

-- The conditions of the WHERE clauses. A comparison with NULL holds of no row.
abbrev pub is_run : Text → Text → EvaluationRun → Bool
is_run tenant run_id r = text_eq r.id run_id && text_eq r.tenant_id tenant

abbrev pub owned_by : Text → Option Text → Bool
owned_by owner none = false
owned_by owner (some o) = text_eq o owner

abbrev pub expired : Timestamp → Option Timestamp → Bool
expired now none = false
expired now (some t) = leb t.micros now.micros

abbrev pub unexpired : Timestamp → Option Timestamp → Bool
unexpired now none = false
unexpired now (some t) = ltb now.micros t.micros

-- The lease of `claim` is the run's, and is live at `now`.
abbrev pub holds : Text → LeaseClaim → Timestamp → EvaluationRun → Bool
holds tenant claim now r =
    is_run tenant claim.run.id r
    && owned_by claim.owner r.lease_owner
    && r.fencing_token == claim.fencing_token
    && unexpired now r.lease_expires_at

same_key : Text → EvaluationRun → EvaluationRun → Bool
same_key tenant run r = text_eq r.tenant_id tenant && text_eq r.idempotency_key run.idempotency_key

-- the two queries of `create_idempotent` after the one for an existing run
insert_new : Text → EvaluationRun → Action (EvaluationRun × Bool)
unfolding insert_run
insert_new tenant run = do
  known ← gets (λ d.
      any (λ (p : Project). text_eq p.id run.project_id && text_eq p.tenant_id tenant) d.projects)
  raise_when (not known) (value_error "project was not found in tenant context")
  insert_run run
  pure (run, true)

create_or_existing : Text → EvaluationRun → Option EvaluationRun → Action (EvaluationRun × Bool)
unfolding insert_new from_row
create_or_existing tenant run none = insert_new tenant run
create_or_existing tenant run (some row) = do existing ← lift (from_row row); pure (existing, false)

unfoldable pub create_idempotent : Text → EvaluationRun → Action (EvaluationRun × Bool)
unfolding create_or_existing same_key
create_idempotent tenant run = do
  raise_when (not (text_eq run.tenant_id tenant))
      (value_error "run tenant does not match repository context")
  existing ← gets (λ d. first_where (same_key tenant run) d.runs)
  create_or_existing tenant run existing

unfoldable pub get : Text → Text → Action (Option EvaluationRun)
unfolding from_found
get tenant run_id = do row ← gets (λ d. first_where (is_run tenant run_id) d.runs); from_found row

-- the rows that `claim_next` may take
abbrev pub claimable : Text → Timestamp → EvaluationRun → Bool
claimable tenant now r =
    text_eq r.tenant_id tenant
    && active r.status
    && (status_eq r.status queued || expired now r.lease_expires_at)

-- The order of texts by code points.
unfoldable pub text_lt : Text → Text → Bool
text_lt [] [] = false
text_lt [] (b ∷ bs) = true
text_lt (a ∷ as') [] = false
text_lt (a ∷ as') (b ∷ bs) = ltb a b || (a == b && text_lt as' bs)

-- `ORDER BY created_at, id`
abbrev pub precedes : EvaluationRun → EvaluationRun → Bool
precedes r s =
    ltb r.created_at.micros s.created_at.micros
    || (r.created_at.micros == s.created_at.micros && text_lt r.id s.id)

-- the better of a candidate and the best of the later rows
prefer : EvaluationRun → Option EvaluationRun → EvaluationRun
prefer r none = r
prefer r (some s) = if precedes s r then s else r

-- `ORDER BY … LIMIT 1`
unfoldable pub first_in_order : (EvaluationRun → Bool) → List EvaluationRun → Option EvaluationRun
unfolding prefer text_lt
first_in_order p [] = none
first_in_order p (r ∷ rows) =
    let best = first_in_order p rows in if p r then some (prefer r best) else best

-- the assignments of `claim_next` to the row
abbrev pub claimed : Text → Timestamp → ℕ → EvaluationRun → EvaluationRun
claimed owner now lease_seconds r = record r {
  status = preparing;
  lease_owner = some owner;
  lease_expires_at = some (add_micros now (seconds lease_seconds));
  attempt = r.attempt + 1;
  fencing_token = r.fencing_token + 1;
  version = r.version + 1;
  updated_at = now;
}

claim_row : Text → Timestamp → ℕ → Option EvaluationRun → Action (Option LeaseClaim)
unfolding from_row update_runs
claim_row owner now lease_seconds none = pure none
claim_row owner now lease_seconds (some row) = do
  update_runs (λ r. text_eq r.id row.id) (claimed owner now lease_seconds)
  run ← lift (from_row (claimed owner now lease_seconds row))
  pure (some (record { run = run; owner = owner; fencing_token = row.fencing_token + 1 }))

unfoldable pub claim_next : Text → Text → Timestamp → ℕ → Action (Option LeaseClaim)
unfolding validate_lease first_in_order claim_row
claim_next tenant owner now lease_seconds = do
  validate_lease owner now lease_seconds
  row ← gets (λ d. first_in_order (claimable tenant now) d.runs)
  claim_row owner now lease_seconds row

-- the values that `heartbeat` sets
abbrev pub extended : Timestamp → ℕ → EvaluationRun → EvaluationRun
extended now lease_seconds r = record r {
  lease_expires_at = some (add_micros now (seconds lease_seconds));
  updated_at = now;
  version = r.version + 1;
}

unfoldable pub heartbeat : Text → LeaseClaim → Timestamp → ℕ → Action Bool
unfolding validate_lease update_runs
heartbeat tenant claim now lease_seconds = do
  validate_lease claim.owner now lease_seconds
  rowcount ←
      update_runs (λ r. holds tenant claim now r && active r.status) (extended now lease_seconds)
  pure (rowcount == 1)

-- the values that `transition` sets
abbrev pub moved : RunStatus → Timestamp → EvaluationRun → EvaluationRun
moved target now r = record r {
  status = target;
  lease_owner = if terminal target then none else r.lease_owner;
  lease_expires_at = if terminal target then none else r.lease_expires_at;
  updated_at = now;
  version = r.version + 1;
}

transition_from : Text → LeaseClaim → RunStatus → Timestamp → Option EvaluationRun → Action Bool
unfolding require_transition terminal update_runs
transition_from tenant claim target now none = pure false
transition_from tenant claim target now (some current) = do
  lift (require_transition current.status target)
  rowcount ←
      update_runs (λ r. holds tenant claim now r && status_eq r.status current.status)
        (moved target now)
  pure (rowcount == 1)

unfoldable pub transition : Text → LeaseClaim → RunStatus → Timestamp → Action Bool
unfolding get transition_from
transition tenant claim target now = do
  current ← get tenant claim.run.id
  transition_from tenant claim target now current

abbrev pub stopped : Timestamp → EvaluationRun → EvaluationRun
stopped now r = record r {
  status = cancelled;
  lease_owner = none;
  lease_expires_at = none;
  updated_at = now;
  version = r.version + 1;
}

cancel_from : Text → Text → Timestamp → Option EvaluationRun → Action Bool
unfolding terminal update_runs
cancel_from tenant run_id now none = pure false
cancel_from tenant run_id now (some current) =
    if status_eq current.status cancelled
    then pure true
    else if terminal current.status
    then pure false
    else do
      rowcount ← update_runs (λ r. is_run tenant run_id r && active r.status) (stopped now)
      pure (rowcount == 1)

unfoldable pub cancel : Text → Text → Timestamp → Action Bool
unfolding get cancel_from
cancel tenant run_id now = do current ← get tenant run_id; cancel_from tenant run_id now current
