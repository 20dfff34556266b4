-- ===== src/Storage/RunRepository/Examples.antt =====
-- storage/run_repository.py: tests on a small table, and the theorems at inputs that meet their
-- hypotheses.
use ai_agent_security_lab.Prelude.{
  ℕ, ◌≡◌, ◌≢◌, refl, true, false, [], ◌∷◌, none, some, Text, text, text_eq, within, truthy,
  first_where, Timestamp, arith, ok, if◌then◌else◌, is_ok, ◌>>◌, ◌&&◌,
}
use ai_agent_security_lab.Domain.Entities.{Tenant, Project}
use ai_agent_security_lab.Domain.Runs.{
  queued, preparing, running, cancelled, terminal, require_transition, EvaluationRun, LeaseClaim,
  post_init, has_owner, is_aware,
}
use ai_agent_security_lab.Domain.Runs.Lifecycle.{IsValid}
use ai_agent_security_lab.Storage.Database.{Database}
use ai_agent_security_lab.Storage.RunRepository.{
  is_run, holds, active, claimed, extended, claim_next, heartbeat, moved, transition,
  validate_lease, text_lt,
}
use ai_agent_security_lab.Storage.RunRepository.Invariant.{RunsValid, Keeps}
use ai_agent_security_lab.Storage.RunRepository.Exact.{transition_lem, heartbeat_lem}
use ai_agent_security_lab.Storage.RunRepository.History.{
  acquire, stop, perform, Reach, here, next, Reach-Keeps, Stale, fenced_claim_is_inert,
}
use ai_agent_security_lab.Storage.RunRepository.Claims.{
  Claimed, claim_next-Claimed, claims_exclusive,
}
use ai_agent_security_lab.Storage.RunRepository.Isolation.{others, tenants_are_isolated}

abbrev at : ℕ → Timestamp
at n = record { micros = n; aware = true }

abbrev acme : Text
acme = text "acme"

abbrev tenant : Tenant
tenant = record {
  id = acme;
  name = text "Acme";
  status = text "active";
  retention_days = 90;
  created_at = at 0;
  updated_at = at 0;
  version = 1;
}

abbrev project : Project
project = record {
  id = text "prj";
  tenant_id = acme;
  name = text "Red team";
  created_by = text "ann";
  target_policy = [];
  created_at = at 0;
  updated_at = at 0;
  version = 1;
}

abbrev fresh_run : Text → Text → ℕ → EvaluationRun
fresh_run id key created = record {
  id = id;
  tenant_id = acme;
  project_id = text "prj";
  suite_version = text "v1";
  seed = record { negative = false; magnitude = 7 };
  idempotency_key = key;
  status = queued;
  attempt = 0;
  fencing_token = 0;
  lease_owner = none;
  lease_expires_at = none;
  created_at = at created;
  updated_at = at created;
  version = 1;
}

abbrev first_run : EvaluationRun
first_run = fresh_run (text "run_a") (text "key_a") 10

abbrev second_run : EvaluationRun
second_run = fresh_run (text "run_b") (text "key_b") 5

abbrev table : Database
table = record {
  tenants = tenant ∷ [];
  projects = project ∷ [];
  runs = first_run ∷ second_run ∷ [];
  artifacts = [];
  api_keys = [];
}

fresh_run-IsValid :
    (id key : Text) (n : ℕ)
    → within 128 id ≡ true
    → within 128 key ≡ true
    → IsValid (fresh_run id key n)
unfolding within text truthy has_owner is_aware terminal
fresh_run-IsValid id key n h k = ground arith

table-RunsValid : RunsValid table
unfolding text text_eq within truthy
table-RunsValid = record {
  distinct = (refl, (refl, tt));
  rows = (
    fresh_run-IsValid (text "run_a") (text "key_a") 10 refl refl,
    (fresh_run-IsValid (text "run_b") (text "key_b") 5 refl refl, tt),
  );
}

abbrev worker : Text
worker = text "w1"

-- The older of the two runs is claimed.
abbrev leased_run : EvaluationRun
leased_run = claimed worker (at 100) 60 second_run

abbrev leased : Database
leased = record table { runs = first_run ∷ leased_run ∷ [] }

abbrev granted : LeaseClaim
granted = record { run = leased_run; owner = worker; fencing_token = 1 }

claim_oldest : claim_next acme worker (at 100) 60 table ≡ (ok (some granted), leased)
unfolding claim_next text text_eq within truthy post_init text_lt
claim_oldest = refl

claim_next-Claimed_example : Claimed acme worker (at 100) 60 granted table leased
claim_next-Claimed_example =
    claim_next-Claimed acme worker (at 100) 60 table leased granted table-RunsValid claim_oldest

abbrev other_worker : Text
other_worker = text "w2"

abbrev granted_other : LeaseClaim
granted_other = record {
  run = claimed other_worker (at 200) 60 first_run;
  owner = other_worker;
  fencing_token = 1;
}

abbrev both_leased : Database
both_leased = record table { runs = claimed other_worker (at 200) 60 first_run ∷ leased_run ∷ [] }

claim_other :
    claim_next acme other_worker (at 200) 60 leased ≡ (ok (some granted_other), both_leased)
unfolding claim_next text text_eq within truthy post_init text_lt
claim_other = refl

claims_exclusive_example : text "run_a" ≢ text "run_b"
claims_exclusive_example =
    claims_exclusive acme worker other_worker (at 100) (at 200) 60 60 table leased both_leased
      granted granted_other table-RunsValid claim_oldest claim_other (omega arith)

leased-Reach : Reach table leased
unfolding perform claim_next text text_eq within truthy post_init text_lt
leased-Reach = next {d' = table} here (acquire acme worker (at 100) 60)

Reach-Keeps_example : Keeps table leased
Reach-Keeps_example = Reach-Keeps table-RunsValid leased-Reach

leased-RunsValid : RunsValid leased
leased-RunsValid = Reach-Keeps_example.valid

-- The lease runs out, and another worker takes the run over.
abbrev retaken_run : EvaluationRun
retaken_run = claimed other_worker (at 60000200) 60 leased_run

abbrev retaken : Database
retaken = record table { runs = first_run ∷ retaken_run ∷ [] }

retaken-RunsValid : RunsValid retaken
unfolding text text_eq within truthy has_owner is_aware terminal
retaken-RunsValid = record {
  distinct = (refl, (refl, tt));
  rows = (fresh_run-IsValid (text "run_a") (text "key_a") 10 refl refl, (ground arith, tt));
}

granted-Stale : Stale granted retaken
unfolding text text_eq
granted-Stale = record { row = retaken_run; found = refl; behind = omega arith }

fenced_claim_is_inert_example :
    ((transition acme granted running (at 60000300) retaken).1 ≡ retaken)
    × ((transition acme granted running (at 60000300) retaken).0 ≢ ok true)
    × ((heartbeat acme granted (at 60000300) 60 retaken).1 ≡ retaken)
    × ((heartbeat acme granted (at 60000300) 60 retaken).0 ≢ ok true)
fenced_claim_is_inert_example =
    fenced_claim_is_inert granted retaken-RunsValid granted-Stale here acme (at 60000300) running 60

transition_lem_example :
    let (result, d') = transition acme granted running (at 150) leased in
    let legal = require_transition preparing running in
    (result ≡ (legal >> ok (holds acme granted (at 150) leased_run)))
    × (first_where (is_run acme (text "run_b")) d'.runs
        ≡ some (
            if is_ok legal && holds acme granted (at 150) leased_run
            then moved running (at 150) leased_run
            else leased_run))
unfolding text text_eq
transition_lem_example =
    transition_lem acme granted running (at 150) leased leased_run leased-RunsValid refl

heartbeat_lem_example :
    let (result, d') = heartbeat acme granted (at 150) 60 leased in
    let live = holds acme granted (at 150) leased_run && active preparing in
    (result ≡ ok live)
    × (first_where (is_run acme (text "run_b")) d'.runs
        ≡ some (if live then extended (at 150) 60 leased_run else leased_run))
unfolding text text_eq validate_lease within truthy
heartbeat_lem_example =
    heartbeat_lem acme granted (at 150) 60 leased leased_run leased-RunsValid refl refl

-- A transition by the holder goes through.
run_started :
    transition acme granted running (at 150) leased
    ≡ (ok true, record table { runs = first_run ∷ moved running (at 150) leased_run ∷ [] })
unfolding transition text text_eq within truthy post_init
run_started = refl

abbrev cancelled_run : EvaluationRun
cancelled_run = record second_run { status = cancelled; version = 2; updated_at = at 20 }

abbrev cancelled_table : Database
cancelled_table = record table { runs = first_run ∷ cancelled_run ∷ [] }

cancelled_table-RunsValid : RunsValid cancelled_table
unfolding text text_eq within truthy has_owner is_aware terminal
cancelled_table-RunsValid = record {
  distinct = (refl, (refl, tt));
  rows = (fresh_run-IsValid (text "run_a") (text "key_a") 10 refl refl, (ground arith, tt));
}

tenants_are_isolated_example :
    others (text "umbrella") (perform (stop (text "umbrella") (text "run_a") (at 30)) table)
    ≡ others (text "umbrella") table
tenants_are_isolated_example =
    tenants_are_isolated (stop (text "umbrella") (text "run_a") (at 30)) table table-RunsValid

abbrev third_run : EvaluationRun
third_run = fresh_run (text "run_c") (text "key_c") 30

abbrev grown : Database
grown = record table { runs = first_run ∷ second_run ∷ third_run ∷ [] }
