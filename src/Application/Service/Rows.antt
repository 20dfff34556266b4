-- ===== src/Application/Service/Rows.antt =====
-- application/service.py: the rows of the artifacts when a call of `process_next` raises.
use ai_agent_security_lab.Prelude.{
  ℕ, ◌≡◌, refl, sym, subst, ◌∙◌, ap, not, Bool, true, false, List, [], ◌∷◌, Option, none, some,
  Text, Result, ok, err, Error, runtime_error, is_ok, if◌then◌else◌, arith, inl, inr, Bool-cases,
  Timestamp, add_micros, All,
}
use ai_agent_security_lab.Domain.Runs.{
  RunStatus, EvaluationRun, LeaseClaim, running, evaluating, completed, failed, terminal,
}
use ai_agent_security_lab.Domain.Artifacts.{ReportArtifact}
use ai_agent_security_lab.Storage.Database.{
  Database, Action, transaction, roll_back, raise_when, insert_artifact,
}
use ai_agent_security_lab.Storage.Database.{◌>>=◌ as ◌>>=d◌}
use ai_agent_security_lab.Storage.RunRepository.{claim_next, transition, get, utc}
use ai_agent_security_lab.Storage.RunRepository.Rows.{IdsDistinct}
use ai_agent_security_lab.Domain.Runs.Lifecycle.{IsValid}
use ai_agent_security_lab.Storage.ArtifactRepository.{check_add}
use ai_agent_security_lab.Storage.RunRepository.Invariant.{RunsValid}
use ai_agent_security_lab.Storage.RunRepository.Steps.{
  claim-Keeps, transition-Keeps, claim_effect, transition_effect,
}
use ai_agent_security_lab.Application.Sessions.{
  claim_and_start, start, to_evaluating, complete, check_all, insert_all, fail, fail_current,
  suppressed,
}

-- The invariant of the call: the runs are valid, and the artifacts those of the beginning.
pub record Intact (rows : List ReportArtifact) (d : Database) : Type 0 where
  pub valid : RunsValid d
  pub same : d.artifacts ≡ rows

get-same : (tenant k : Text) (d : Database) → (get tenant k d).1 ≡ d
unfolding get
get-same tenant k d = ground arith

module _ (rows : List ReportArtifact) where
  transition-Intact :
      (tenant : Text) (claim : LeaseClaim) (target : RunStatus) (now : Timestamp) (d : Database)
      → Intact rows d
      → Intact rows (transition tenant claim target now d).1
  transition-Intact tenant claim target now d h = record {
    valid = (transition-Keeps tenant claim target now d h.valid).valid;
    same =
        elim (transition_effect tenant claim target now d h.valid) [
          | inl e ↦ ap (λ (x : Database). x.artifacts) e
          | inr (c, _, _, e) ↦ ap (λ (x : Database). x.artifacts) e
        ]
        ∙ h.same;
  }

  claim_next-Intact :
      (tenant owner : Text) (now : Timestamp) (n : ℕ) (d : Database)
      → Intact rows d
      → Intact rows (claim_next tenant owner now n d).1
  claim_next-Intact tenant owner now n d h = record {
    valid = (claim-Keeps tenant owner now n d h.valid).valid;
    same =
        elim (claim_effect tenant owner now n d) [
          | inl e ↦ ap (λ (x : Database). x.artifacts) e
          | inr (row, _, _, e) ↦ ap (λ (x : Database). x.artifacts) e
        ]
        ∙ h.same;
  }

  -- A transaction that keeps it when it succeeds keeps it.
  transaction-Intact :
      {A : Type 0} (d : Database) (m : Result A × Database)
      → Intact rows d
      → (is_ok m.0 ≡ true → Intact rows m.1)
      → Intact rows (roll_back d m).1
  transaction-Intact d (ok a, d') h k = k refl
  transaction-Intact d (err e, d') h k = h

  abbrev pub Preserves : {A : Type 0} → Action A → Type 0
  Preserves m = (d : Database) → Intact rows d → Intact rows (m d).1

  bound-Intact :
      {A B : Type 0} (f : A → Action B) (m : Result A × Database)
      → ((a : A) → Preserves (f a))
      → Intact rows m.1
      → Intact rows (((λ (_ : Database). m) >>=d f) m.1).1
  bound-Intact f (ok a, d) k h = k a d h
  bound-Intact f (err e, d) k h = h

  bind-Preserves :
      {A B : Type 0} (m : Action A) (f : A → Action B)
      → Preserves m
      → ((a : A) → Preserves (f a))
      → Preserves (m >>=d f)
  bind-Preserves m f k l = λ d h. bound-Intact f (m d) l (k d h)

  raise_when-Preserves : (b : Bool) (e : Error) → Preserves (raise_when b e)
  raise_when-Preserves true e d h = h
  raise_when-Preserves false e d h = h

  start-Preserves :
      (tenant : Text) (started : Timestamp) (found : Option LeaseClaim)
      → Preserves (start tenant started found)
  unfolding start
  start-Preserves tenant started none d h = h
  start-Preserves tenant started (some claim) d h =
      bind-Preserves (transition tenant claim running (add_micros started 1000))
        (λ moved d. (ok (if moved then some claim else none), d))
        (transition-Intact tenant claim running (add_micros started 1000)) (λ moved d h. h) d h

  pub claim_and_start-Preserves :
      (tenant owner : Text) (started : Timestamp) → Preserves (claim_and_start tenant owner started)
  unfolding claim_and_start
  claim_and_start-Preserves tenant owner started =
      bind-Preserves (claim_next tenant owner started 300) (start tenant started)
        (claim_next-Intact tenant owner started 300) (start-Preserves tenant started)

  pub to_evaluating-Preserves :
      (tenant : Text) (claim : LeaseClaim) (at : Timestamp)
      → Preserves (to_evaluating tenant claim at)
  unfolding to_evaluating
  to_evaluating-Preserves tenant claim at =
      bind-Preserves (transition tenant claim evaluating at)
        (λ moved. raise_when (not moved) (runtime_error "run lease was lost before evaluation"))
        (transition-Intact tenant claim evaluating at)
        (λ moved.
          raise_when-Preserves (not moved) (runtime_error "run lease was lost before evaluation"))

  suppressed-same : (m : Result Bool × Database) → (suppressed m).1 ≡ m.1
  unfolding suppressed
  suppressed-same m = ground arith

  fail_current-Preserves :
      (tenant : Text) (claim : LeaseClaim) (at : Timestamp) (found : Option EvaluationRun)
      → Preserves (fail_current tenant claim at found)
  unfolding fail_current
  fail_current-Preserves tenant claim at none d h = h
  fail_current-Preserves tenant claim at (some c) d h = elim (Bool-cases (terminal c.status)) [
    | inl e ↦ rw e h
    | inr e ↦ rw e (
        subst (Intact rows) (sym (suppressed-same (transition tenant claim failed at d)))
          (transition-Intact tenant claim failed at d h))
  ]

  pub fail-Preserves :
      (tenant : Text) (claim : LeaseClaim) (at : Timestamp) → Preserves (fail tenant claim at)
  unfolding fail
  fail-Preserves tenant claim at =
      bind-Preserves (get tenant claim.run.id) (fail_current tenant claim at)
        (λ d h. subst (Intact rows) (sym (get-same tenant claim.run.id d)) h)
        (fail_current-Preserves tenant claim at)

  pub transaction-Preserves : {A : Type 0} (m : Action A) → Preserves m → Preserves (transaction m)
  transaction-Preserves m k d h = transaction-Intact d (m d) h (λ _. k d h)

pub RunsValid-runs : (d d' : Database) → d.runs ≡ d'.runs → RunsValid d → RunsValid d'
RunsValid-runs d d' e v = record {
  distinct = subst IdsDistinct e v.distinct;
  rows = subst (All (λ r. IsValid (utc r))) e v.rows;
}

abbrev pub KeepsValid : {A : Type 0} → Action A → Type 0
KeepsValid m = (d : Database) → RunsValid d → RunsValid (m d).1

bind-KeepsValid :
    {A B : Type 0} (m : Action A) (f : A → Action B)
    → KeepsValid m
    → ((a : A) → KeepsValid (f a))
    → KeepsValid (m >>=d f)
bind-KeepsValid {A} {B} m f k l d h = go (m d) (k d h)
  where
    go : (r : Result A × Database) → RunsValid r.1 → RunsValid (((λ (_ : Database). r) >>=d f) d).1
    go (ok a, e) h = l a e h
    go (err x, e) h = h

check_add-same : (tenant : Text) (a : ReportArtifact) (d : Database) → (check_add tenant a d).1 ≡ d
unfolding check_add
check_add-same tenant a d = ground arith

check_all-KeepsValid :
    (tenant : Text) (artifacts : List ReportArtifact) → KeepsValid (check_all tenant artifacts)
unfolding check_all
check_all-KeepsValid tenant [] = λ d h. h
check_all-KeepsValid tenant (a ∷ artifacts) =
    bind-KeepsValid (check_add tenant a) (λ _. check_all tenant artifacts)
      (λ d h. subst RunsValid (sym (check_add-same tenant a d)) h)
      (λ _. check_all-KeepsValid tenant artifacts)

insert_artifact-runs : (a : ReportArtifact) (d : Database) → (insert_artifact a d).1.runs ≡ d.runs
unfolding insert_artifact
insert_artifact-runs a d = ground arith

insert_all-KeepsValid : (artifacts : List ReportArtifact) → KeepsValid (insert_all artifacts)
unfolding insert_all
insert_all-KeepsValid [] = λ d h. h
insert_all-KeepsValid (a ∷ artifacts) =
    bind-KeepsValid (insert_artifact a) (λ _. insert_all artifacts)
      (λ d h. RunsValid-runs d (insert_artifact a d).1 (sym (insert_artifact-runs a d)) h)
      (λ _. insert_all-KeepsValid artifacts)

raise_when-KeepsValid : (b : Bool) (e : Error) → KeepsValid (raise_when b e)
raise_when-KeepsValid true e d h = h
raise_when-KeepsValid false e d h = h

-- the rest of `complete` after the transition, and after the checks
abbrev after_move : List ReportArtifact → Bool → Action (Unit {0})
after_move artifacts moved =
    raise_when (not moved) (runtime_error "run lease was lost before completion") >>=d λ _.
    insert_all artifacts

abbrev after_checks : Text → LeaseClaim → List ReportArtifact → Timestamp → Action (Unit {0})
after_checks tenant claim artifacts at =
    transition tenant claim completed at >>=d after_move artifacts

pub complete-KeepsValid :
    (tenant : Text) (claim : LeaseClaim) (artifacts : List ReportArtifact) (at : Timestamp)
    → KeepsValid (complete tenant claim artifacts at)
unfolding complete
complete-KeepsValid tenant claim artifacts at =
    bind-KeepsValid (check_all tenant artifacts) (λ _. after_checks tenant claim artifacts at)
      (check_all-KeepsValid tenant artifacts)
      (λ _.
        bind-KeepsValid (transition tenant claim completed at) (after_move artifacts)
          (λ d h. (transition-Keeps tenant claim completed at d h).valid)
          (λ moved.
            bind-KeepsValid
              (raise_when (not moved) (runtime_error "run lease was lost before completion"))
              (λ _. insert_all artifacts)
              (raise_when-KeepsValid (not moved)
                (runtime_error "run lease was lost before completion"))
              (λ _. insert_all-KeepsValid artifacts)))
