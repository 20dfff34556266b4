-- ===== src/Storage/RunRepository/Isolation.antt =====
-- storage/run_repository.py: the runs of the other tenants under a repository's operations.
use ai_agent_security_lab.Prelude.{
  ℕ, ◌≡◌, refl, sym, ◌∙◌, ap, inl, inr, Bool, true, false, not, ◌&&◌, List, [], ◌∷◌, ◌++◌, some,
  Text, text_eq, text_eq_iff, any, All, select, first_where, update_where, Timestamp, arith,
  Bool-cases, Result, ok, err, subst,
}
use ai_agent_security_lab.Domain.Runs.{EvaluationRun, post_init}
use ai_agent_security_lab.Storage.Database.{Database, Action, transaction, roll_back, lift, ◌>>=◌}
use ai_agent_security_lab.Storage.RunRepository.{
  is_run, holds, active, claimable, claimed, claim_next, create_idempotent, extended, heartbeat,
  moved, transition, stopped, cancel,
}
use ai_agent_security_lab.Storage.RunRepository.Rows.{by_id, IdsDistinct}
use ai_agent_security_lab.Storage.RunRepository.Invariant.{RunsValid, first_in_order-found}
use ai_agent_security_lab.Storage.RunRepository.Steps.{
  create_effect, claim_effect, heartbeat_effect, transition_effect, cancel_effect, goes_from,
}
use ai_agent_security_lab.Storage.RunRepository.History.{
  Op, submit, acquire, beat, move, stop, perform, create_built,
}

abbrev pub tenant_of : Op → Text
tenant_of (submit tenant run) = tenant
tenant_of (acquire tenant owner now n) = tenant
tenant_of (beat tenant c now n) = tenant
tenant_of (move tenant c target now) = tenant
tenant_of (stop tenant run_id now) = tenant

-- The runs of all tenants but one.
abbrev pub others : Text → Database → List EvaluationRun
others tenant d = select (λ r. not (text_eq r.tenant_id tenant)) d.runs

abbrev Own : Text → (EvaluationRun → Bool) → List EvaluationRun → Type 0
Own tenant p rows = All (λ r. p r ≡ true → text_eq r.tenant_id tenant ≡ true) rows

Own-all :
    (tenant : Text) (p : EvaluationRun → Bool) (rows : List EvaluationRun)
    → ((r : EvaluationRun) → p r ≡ true → text_eq r.tenant_id tenant ≡ true)
    → Own tenant p rows
Own-all tenant p [] h = tt
Own-all tenant p (r ∷ rows) h = (h r, Own-all tenant p rows h)

others-update :
    (tenant : Text) (p : EvaluationRun → Bool) (f : EvaluationRun → EvaluationRun)
    (rows : List EvaluationRun)
    → ((r : EvaluationRun) → (f r).tenant_id ≡ r.tenant_id)
    → Own tenant p rows
    → select (λ r. not (text_eq r.tenant_id tenant)) (update_where p f rows)
      ≡ select (λ r. not (text_eq r.tenant_id tenant)) rows
others-update tenant p f [] same own = refl
others-update tenant p f (r ∷ rows) same own =
    ground (arith, same r, own.0, others-update tenant p f rows same own.1)

others-append :
    (tenant : Text) (rows : List EvaluationRun) (r : EvaluationRun)
    → text_eq r.tenant_id tenant ≡ true
    → select (λ r. not (text_eq r.tenant_id tenant)) (rows ++ r ∷ [])
      ≡ select (λ r. not (text_eq r.tenant_id tenant)) rows
others-append tenant [] r h = ground arith
others-append tenant (x ∷ rows) r h = ground (arith, others-append tenant rows r h)

absent-Own :
    (tenant k : Text) (rows : List EvaluationRun)
    → any (by_id k) rows ≡ false
    → Own tenant (by_id k) rows
absent-Own tenant k [] h = tt
absent-Own tenant k (r ∷ rows) h = (λ e. ground arith, absent-Own tenant k rows (ground arith))

-- Of distinct ids, the one that is found is the tenant's.
found-Own :
    (tenant : Text) (rows : List EvaluationRun) (row : EvaluationRun)
    → IdsDistinct rows
    → first_where (by_id row.id) rows ≡ some row
    → text_eq row.tenant_id tenant ≡ true
    → Own tenant (by_id row.id) rows
found-Own tenant [] row d h t = tt
found-Own tenant (r ∷ rows) row d h t = elim (Bool-cases (text_eq r.id row.id)) [
  | inl e ↦
      let same : r ≡ row = ground arith in
      (
        λ _. subst (λ s. text_eq s.tenant_id tenant ≡ true) (sym same) t,
        absent-Own tenant row.id rows (
            subst (λ k. any (λ (s : EvaluationRun). text_eq s.id k) rows ≡ false)
              ((text_eq_iff r.id row.id).0 e) d.0),
      )
  | inr e ↦ (λ q. cc, found-Own tenant rows row d.1 (ground arith) t)
]

create_own :
    (tenant : Text) (run : EvaluationRun) (d : Database)
    → others tenant (create_idempotent tenant run d).1 ≡ others tenant d
unfolding create_idempotent
create_own tenant run d = elim (Bool-cases (text_eq run.tenant_id tenant)) [
  | inl own ↦ elim (create_effect tenant run d) [
    | inl e ↦ ap (others tenant) e
    | inr (e, fresh) ↦ ap (others tenant) e ∙ others-append tenant d.runs run own
  ]
  | inr foreign ↦ ground arith
]

transaction_own :
    {A : Type 0} (tenant : Text) (m : Action A) (d : Database)
    → others tenant (m d).1 ≡ others tenant d
    → others tenant (transaction m d).1 ≡ others tenant d
transaction_own {A} tenant m d h = go (m d) h
  where
    go :
        (r : Result A × Database)
        → others tenant r.1 ≡ others tenant d
        → others tenant (roll_back d r).1 ≡ others tenant d
    go (ok a, d') h = h
    go (err e, d') h = refl

claim_own :
    (tenant owner : Text) (now : Timestamp) (n : ℕ) (d : Database)
    → RunsValid d
    → others tenant (claim_next tenant owner now n d).1 ≡ others tenant d
claim_own tenant owner now n d v = elim (claim_effect tenant owner now n d) [
  | inl e ↦ ap (others tenant) e
  | inr (row, found, w, e) ↦
      let (in_table, ready) =
        first_in_order-found (claimable tenant now) d.runs row v.distinct found in
      ap (others tenant) e
      ∙ others-update tenant (by_id row.id) (claimed owner now n) d.runs (λ r. refl)
          (found-Own tenant d.runs row v.distinct in_table (ground arith))
]

-- In a valid database no unit of work of a repository changes, adds or removes a run of a tenant
-- other than the repository's own.
pub tenants_are_isolated :
    (op : Op) (d : Database)
    → RunsValid d
    → others (tenant_of op) (perform op d) ≡ others (tenant_of op) d
unfolding perform
tenants_are_isolated (submit tenant run) d v =
    transaction_own tenant (create_built tenant run) d (go (post_init run))
  where
    go :
        (made : Result EvaluationRun)
        → others tenant ((lift made >>= create_idempotent tenant) d).1 ≡ others tenant d
    go (ok built) = create_own tenant built d
    go (err e) = refl
tenants_are_isolated (acquire tenant owner now n) d v =
    transaction_own tenant (claim_next tenant owner now n) d (claim_own tenant owner now n d v)
tenants_are_isolated (beat tenant c now n) d v =
    transaction_own tenant (heartbeat tenant c now n) d (elim (heartbeat_effect tenant c now n d) [
      | inl e ↦ ap (others tenant) e
      | inr (w, e) ↦
          ap (others tenant) e
          ∙ others-update tenant (λ r. holds tenant c now r && active r.status) (extended now n)
              d.runs (λ r. refl)
              (Own-all tenant (λ r. holds tenant c now r && active r.status) d.runs
                (λ r p. ground arith))
    ])
tenants_are_isolated (move tenant c target now) d v =
    transaction_own tenant (transition tenant c target now) d
      (elim (transition_effect tenant c target now d v) [
        | inl e ↦ ap (others tenant) e
        | inr (row, found, legal, e) ↦
            ap (others tenant) e
            ∙ others-update tenant (goes_from tenant c now row.status) (moved target now) d.runs
                (λ r. refl)
                (Own-all tenant (goes_from tenant c now row.status) d.runs (λ r p. ground arith))
      ])
tenants_are_isolated (stop tenant run_id now) d v =
    transaction_own tenant (cancel tenant run_id now) d
      (elim (cancel_effect tenant run_id now d v) [
        | inl e ↦ ap (others tenant) e
        | inr e ↦
            ap (others tenant) e
            ∙ others-update tenant (λ r. is_run tenant run_id r && active r.status) (stopped now)
                d.runs (λ r. refl)
                (Own-all tenant (λ r. is_run tenant run_id r && active r.status) d.runs
                  (λ r p. ground arith))
      ])
