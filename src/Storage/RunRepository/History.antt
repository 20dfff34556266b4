-- ===== src/Storage/RunRepository/History.antt =====
-- storage/run_repository.py: what holds over every sequence of the operations, whoever makes them.
use ai_agent_security_lab.Prelude.{
  ℕ, ◌<◌, ◌≡◌, ◌≢◌, refl, sym, ap, ◌∙◌, inl, inr, Bool, true, false, some, Text, first_where,
  Timestamp, arith, Option-cases, Result, ok, err, ◌&&◌, subst,
}
use ai_agent_security_lab.Domain.Runs.{
  RunStatus, status_eq, EvaluationRun, LeaseClaim, post_init, is_aware,
}
use ai_agent_security_lab.Domain.Runs.Lifecycle.{IsValid, post_init-IsValid}
use ai_agent_security_lab.Storage.Database.{Database, Action, transaction, lift, ◌>>=◌}
use ai_agent_security_lab.Storage.RunRepository.{
  utc, is_run, holds, active, create_idempotent, claim_next, heartbeat, extended, transition, moved,
  cancel,
}
use ai_agent_security_lab.Storage.RunRepository.Rows.{by_id, Later-trans}
use ai_agent_security_lab.Storage.RunRepository.Invariant.{
  RunsValid, Keeps, Keeps-refl, Keeps-transaction,
}
use ai_agent_security_lab.Storage.RunRepository.Steps.{
  create-Keeps, claim-Keeps, heartbeat-Keeps, transition-Keeps, cancel-Keeps, transition_effect,
  heartbeat_effect, goes_from, get_total, validate-cases,
}
use ai_agent_security_lab.Storage.RunRepository.Exact.{
  update_nothing, update_one, holds_id, find_in_tenant, transition_lem,
}

-- One unit of work, with the tenant of the repository that does it.
pub data Op : Type 0 where
  submit : Text → EvaluationRun → Op
  acquire : Text → Text → Timestamp → ℕ → Op
  beat : Text → LeaseClaim → Timestamp → ℕ → Op
  move : Text → LeaseClaim → RunStatus → Timestamp → Op
  stop : Text → Text → Timestamp → Op

-- the constructor's call, then the repository's method, as `LabApplicationService.create_run` has it
abbrev pub create_built : Text → EvaluationRun → Action (EvaluationRun × Bool)
create_built tenant run = do built ← lift (post_init run); create_idempotent tenant built

unfoldable pub perform : Op → Database → Database
perform (submit tenant run) d = (transaction (create_built tenant run) d).1
perform (acquire tenant owner now n) d = (transaction (claim_next tenant owner now n) d).1
perform (beat tenant c now n) d = (transaction (heartbeat tenant c now n) d).1
perform (move tenant c target now) d = (transaction (transition tenant c target now) d).1
perform (stop tenant run_id now) d = (transaction (cancel tenant run_id now) d).1

-- The databases that a history leads to.
pub data Reach (d : Database) : Database → Type 0 where
  here : Reach d d
  next : {d' : Database} → Reach d d' → (op : Op) → Reach d (perform op d')

utc-IsValid : (r : EvaluationRun) → IsValid r → IsValid (utc r)
unfolding is_aware
utc-IsValid r v = ground arith

built-Keeps :
    (tenant : Text) (run : EvaluationRun) (d : Database)
    → RunsValid d
    → Keeps d (create_built tenant run d).1
built-Keeps tenant run d v = go (post_init run) refl
  where
    go :
        (made : Result EvaluationRun)
        → post_init run ≡ made
        → Keeps d ((lift made >>= create_idempotent tenant) d).1
    go (err e) p = Keeps-refl d v
    go (ok built) p =
        let (good, same) = post_init-IsValid run built p in
        create-Keeps tenant built d v (utc-IsValid built (subst IsValid (sym same) good))

perform-Keeps : (op : Op) (d : Database) → RunsValid d → Keeps d (perform op d)
unfolding perform
perform-Keeps (submit tenant run) d v =
    Keeps-transaction (create_built tenant run) d v (built-Keeps tenant run d v)
perform-Keeps (acquire tenant owner now n) d v =
    Keeps-transaction (claim_next tenant owner now n) d v (claim-Keeps tenant owner now n d v)
perform-Keeps (beat tenant c now n) d v =
    Keeps-transaction (heartbeat tenant c now n) d v (heartbeat-Keeps tenant c now n d v)
perform-Keeps (move tenant c target now) d v =
    Keeps-transaction (transition tenant c target now) d v
      (transition-Keeps tenant c target now d v)
perform-Keeps (stop tenant run_id now) d v =
    Keeps-transaction (cancel tenant run_id now) d v (cancel-Keeps tenant run_id now d v)

-- From a valid table every history keeps the table valid, and leaves every run in a later state of
-- itself.
pub Reach-Keeps : {d d' : Database} → RunsValid d → Reach d d' → Keeps d d'
Reach-Keeps {d} v here = Keeps-refl d v
Reach-Keeps {d} v (next {d'} r op) =
    let before = Reach-Keeps v r in
    let after = perform-Keeps op d' before.valid in
    record {
      valid = after.valid;
      later = Later-trans d.runs d'.runs (perform op d').runs before.later after.later;
    }

-- A claim whose token the run has left behind, on a run of the table.
pub record Stale (claim : LeaseClaim) (d : Database) : Type 0 where
  pub row : EvaluationRun
  pub found : first_where (by_id claim.run.id) d.runs ≡ some row
  pub behind : claim.fencing_token < row.fencing_token

pub Stale-later :
    {d d' : Database} (claim : LeaseClaim)
    → RunsValid d
    → Reach d d'
    → Stale claim d
    → Stale claim d'
Stale-later claim v h s =
    let (row', found', e) = (Reach-Keeps v h).later claim.run.id s.row s.found in
    let grows = e.token_grows in
    let behind = s.behind in record { row = row'; found = found'; behind = omega arith }

Stale-holds :
    (claim : LeaseClaim) (d : Database) (s : Stale claim d) (tenant : Text) (now : Timestamp)
    (b : Bool)
    → (holds tenant claim now s.row && b) ≡ false
Stale-holds claim d s tenant now b = ground (arith, s.behind)

module _ (claim : LeaseClaim) (d : Database) (v : RunsValid d) (s : Stale claim d) (tenant : Text)
    (now : Timestamp) where
  stale_move_nothing : (target : RunStatus) → (transition tenant claim target now d).1 ≡ d
  stale_move_nothing target = elim (transition_effect tenant claim target now d v) [
    | inl e ↦ e
    | inr (c, found, legal, e) ↦
        e
        ∙ ap (λ rows. record d { runs = rows })
            (update_nothing claim.run.id (goes_from tenant claim now c.status) (moved target now)
              (λ r. holds_id tenant claim now r (status_eq r.status c.status)) d.runs s.row
              v.distinct s.found
              (Stale-holds claim d s tenant now (status_eq s.row.status c.status)))
  ]

  stale_beat_nothing : (n : ℕ) → (heartbeat tenant claim now n d).1 ≡ d
  stale_beat_nothing n = elim (heartbeat_effect tenant claim now n d) [
    | inl e ↦ e
    | inr (w, e) ↦
        e
        ∙ ap (λ rows. record d { runs = rows })
            (update_nothing claim.run.id (λ r. holds tenant claim now r && active r.status)
              (extended now n) (λ r. holds_id tenant claim now r (active r.status)) d.runs s.row
              v.distinct s.found (Stale-holds claim d s tenant now (active s.row.status)))
  ]

  stale_move_fails : (target : RunStatus) → (transition tenant claim target now d).0 ≢ ok true
  unfolding transition
  stale_move_fails target h =
      elim (Option-cases (first_where (is_run tenant claim.run.id) d.runs)) [
        | inl nothing ↦ ground (arith, get_total tenant claim.run.id d v)
        | inr (c, found) ↦
            let in_table = find_in_tenant tenant claim.run.id d.runs c v.distinct found in
            let row_same : s.row ≡ c = ground (arith, s.found, in_table) in
            let lost =
              subst (λ r. (holds tenant claim now r && true) ≡ false) row_same
                (Stale-holds claim d s tenant now true) in
            ground (arith, (transition_lem tenant claim target now d c v found).0)
      ]

  stale_beat_fails : (n : ℕ) → (heartbeat tenant claim now n d).0 ≢ ok true
  unfolding heartbeat
  stale_beat_fails n h = elim (validate-cases claim.owner now n d) [
    | inl (accepted, w) ↦ ground (
      arith,
      update_one claim.run.id (λ r. holds tenant claim now r && active r.status) (extended now n)
          (λ r. holds_id tenant claim now r (active r.status)) d.runs s.row v.distinct s.found,
      Stale-holds claim d s tenant now (active s.row.status),
    )
    | inr refused ↦ ground arith
  ]

-- Fencing. Once a run of a valid table carries a larger token than a claim, then after every history,
-- whatever tenant and time the claim is used with, a transition and a heartbeat by that claim do
-- not succeed and leave the whole database as it is.
pub fenced_claim_is_inert :
    {d d' : Database} (claim : LeaseClaim)
    → RunsValid d
    → Stale claim d
    → Reach d d'
    → (tenant : Text) (now : Timestamp) (target : RunStatus) (n : ℕ)
    → ((transition tenant claim target now d').1 ≡ d')
      × ((transition tenant claim target now d').0 ≢ ok true)
      × ((heartbeat tenant claim now n d').1 ≡ d')
      × ((heartbeat tenant claim now n d').0 ≢ ok true)
fenced_claim_is_inert {d} {d'} claim v s h tenant now target n =
    let v' = (Reach-Keeps v h).valid in
    let s' = Stale-later claim v h s in
    (
      stale_move_nothing claim d' v' s' tenant now target,
      stale_move_fails claim d' v' s' tenant now target,
      stale_beat_nothing claim d' v' s' tenant now n,
      stale_beat_fails claim d' v' s' tenant now n,
    )
