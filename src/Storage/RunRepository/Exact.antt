-- ===== src/Storage/RunRepository/Exact.antt =====
-- storage/run_repository.py: the exact result of an update of one run, and of the methods that
-- take a lease.
use ai_agent_security_lab.Prelude.{
  ℕ, ◌≡◌, refl, inl, inr, Bool, true, false, List, [], ◌∷◌, none, some, Text, text_eq, text_eq_iff,
  any, first_where, update_where, count_where, first_where-update_where, Timestamp, arith,
  if◌then◌else◌, ok, Result-cases, ◌>>◌, ◌&&◌, subst, is_ok,
}
use ai_agent_security_lab.Domain.Runs.{
  RunStatus, EvaluationRun, LeaseClaim, require_transition, status_eq,
}
use ai_agent_security_lab.Storage.Database.{Database}
use ai_agent_security_lab.Storage.RunRepository.{
  is_run, holds, active, extended, heartbeat, moved, transition, validate_lease,
}
use ai_agent_security_lab.Storage.RunRepository.Rows.{by_id, IdsDistinct}
use ai_agent_security_lab.Storage.RunRepository.Invariant.{RunsValid}
use ai_agent_security_lab.Storage.RunRepository.Steps.{get_total, goes_from}

no_other :
    (k : Text) (r : EvaluationRun) (rows : List EvaluationRun)
    → any (λ (s : EvaluationRun). text_eq s.id r.id) rows ≡ false
    → text_eq r.id k ≡ true
    → any (by_id k) rows ≡ false
no_other k r rows h e =
    subst (λ j. any (λ (s : EvaluationRun). text_eq s.id j) rows ≡ false) ((text_eq_iff r.id k).0 e)
      h

-- Updates whose condition asks for the id `k`.
module _ (k : Text) (p : EvaluationRun → Bool) (f : EvaluationRun → EvaluationRun)
    (narrow : (r : EvaluationRun) → p r ≡ true → text_eq r.id k ≡ true) where
  absent :
      (rows : List EvaluationRun)
      → any (by_id k) rows ≡ false
      → (update_where p f rows ≡ rows) × (count_where p rows ≡ 0)
  absent [] h = (refl, refl)
  absent (r ∷ rows) h = ground (arith, absent rows, narrow r)

  -- On a table with distinct ids such an update changes the row of that id or nothing.
  pub update_one :
      (rows : List EvaluationRun) (s : EvaluationRun)
      → IdsDistinct rows
      → first_where (by_id k) rows ≡ some s
      → count_where p rows ≡ (if p s then 1 else 0)
  update_one [] s d h = cc
  update_one (r ∷ rows) s d h =
      ground (arith, update_one rows s d.1, absent rows, narrow r, no_other k r rows d.0)

  pub update_nothing :
      (rows : List EvaluationRun) (s : EvaluationRun)
      → IdsDistinct rows
      → first_where (by_id k) rows ≡ some s
      → p s ≡ false
      → update_where p f rows ≡ rows
  update_nothing [] s d h e = cc
  update_nothing (r ∷ rows) s d h e =
      ground (arith, update_nothing rows s d.1, absent rows, narrow r, no_other k r rows d.0)

pub holds_id :
    (tenant : Text) (claim : LeaseClaim) (now : Timestamp) (r : EvaluationRun) (b : Bool)
    → (holds tenant claim now r && b) ≡ true
    → text_eq r.id claim.run.id ≡ true
holds_id tenant claim now r b h = ground arith

nowhere :
    (tenant k : Text) (rows : List EvaluationRun)
    → any (by_id k) rows ≡ false
    → first_where (is_run tenant k) rows ≡ none
nowhere tenant k [] h = refl
nowhere tenant k (r ∷ rows) h = ground (arith, nowhere tenant k rows)

-- The row of the claim's id, and that row in the tenant.
pub find_in_tenant :
    (tenant k : Text) (rows : List EvaluationRun) (s : EvaluationRun)
    → IdsDistinct rows
    → first_where (is_run tenant k) rows ≡ some s
    → first_where (by_id k) rows ≡ some s
find_in_tenant tenant k [] s d h = cc
find_in_tenant tenant k (r ∷ rows) s d h =
    ground (arith, find_in_tenant tenant k rows s d.1, nowhere tenant k rows, no_other k r rows d.0)

status_eq_refl : (s : RunStatus) → status_eq s s ≡ true
status_eq_refl s = ground arith

-- The run after an update that is made to it alone, under a condition.
found_after :
    (tenant k : Text) (p : EvaluationRun → Bool) (f : EvaluationRun → EvaluationRun)
    (rows : List EvaluationRun) (c : EvaluationRun)
    → ((r : EvaluationRun) → is_run tenant k (f r) ≡ is_run tenant k r)
    → first_where (is_run tenant k) rows ≡ some c
    → first_where (is_run tenant k) (update_where p f rows) ≡ some (if p c then f c else c)
found_after tenant k p f rows c same found =
    rw (first_where-update_where (is_run tenant k) p f rows same, found)

-- In a valid table a transition of a run that the tenant has gives exactly this: an illegal one
-- raises, and a legal one succeeds if and only if the claim still holds the run's lease, in which
-- case the run takes the new status; else nothing of the run changes.
pub transition_lem :
    (tenant : Text) (claim : LeaseClaim) (target : RunStatus) (now : Timestamp) (d : Database)
    (c : EvaluationRun)
    → RunsValid d
    → first_where (is_run tenant claim.run.id) d.runs ≡ some c
    → let (result, d') = transition tenant claim target now d in
      let legal = require_transition c.status target in
      (result ≡ (legal >> ok (holds tenant claim now c)))
      × (first_where (is_run tenant claim.run.id) d'.runs
          ≡ some (if is_ok legal && holds tenant claim now c then moved target now c else c))
unfolding transition
transition_lem tenant claim target now d c v found =
    let in_table = find_in_tenant tenant claim.run.id d.runs c v.distinct found in
    let p = goes_from tenant claim now c.status in
    let narrow = λ (r : EvaluationRun). holds_id tenant claim now r (status_eq r.status c.status) in
    let counted =
      update_one claim.run.id p (moved target now) narrow d.runs c v.distinct in_table in
    let after = found_after tenant claim.run.id p (moved target now) d.runs c (λ r. refl) found in
    elim (Result-cases (require_transition c.status target)) [
      | inl legal ↦
          ground (arith, get_total tenant claim.run.id d v, counted, after, status_eq_refl c.status)
      | inr (x, illegal) ↦ ground (arith, get_total tenant claim.run.id d v)
    ]

-- In a valid table a heartbeat with valid arguments succeeds if and only if the claim holds the
-- lease of a run that is not over, and then only the lease, the time and the version change.
pub heartbeat_lem :
    (tenant : Text) (claim : LeaseClaim) (now : Timestamp) (n : ℕ) (d : Database)
    (c : EvaluationRun)
    → RunsValid d
    → validate_lease claim.owner now n d ≡ (ok tt, d)
    → first_where (is_run tenant claim.run.id) d.runs ≡ some c
    → let (result, d') = heartbeat tenant claim now n d in
      let live = holds tenant claim now c && active c.status in
      (result ≡ ok live)
      × (first_where (is_run tenant claim.run.id) d'.runs
          ≡ some (if live then extended now n c else c))
unfolding heartbeat
heartbeat_lem tenant claim now n d c v valid found =
    let in_table = find_in_tenant tenant claim.run.id d.runs c v.distinct found in
    let p = λ (r : EvaluationRun). holds tenant claim now r && active r.status in
    let narrow = λ (r : EvaluationRun). holds_id tenant claim now r (active r.status) in
    let counted = update_one claim.run.id p (extended now n) narrow d.runs c v.distinct in_table in
    let after = found_after tenant claim.run.id p (extended now n) d.runs c (λ r. refl) found in
    ground (arith, counted, after)
