-- ===== src/Storage/RunRepository/Steps.antt =====
-- storage/run_repository.py: what each method does to the invariant and to the runs.
use ai_agent_security_lab.Prelude.{
  ℕ, ◌≡◌, ◌⊎◌, refl, sym, ◌∙◌, inl, inr, Bool, true, false, List, [], ◌∷◌, ◌++◌, none, some, Text,
  text_eq, text_eq_iff, within, any, first_where, update_where, All-append, All-first_where,
  first_where-holds, Timestamp, arith, Bool-cases, Option-cases, Result-cases, ok, subst, ◌&&◌,
  is_ok,
}
use ai_agent_security_lab.Domain.Runs.{
  RunStatus, EvaluationRun, LeaseClaim, terminal, has_owner, is_aware, require_transition,
  status_eq,
}
use ai_agent_security_lab.Domain.Runs.Lifecycle.{
  IsValid, post_init_of_IsValid, transition_from_live, status_eq→eq,
}
use ai_agent_security_lab.Storage.Database.{Database}
use ai_agent_security_lab.Storage.RunRepository.{
  utc, from_row, validate_lease, is_run, holds, claimable, first_in_order, claimed, claim_row,
  claim_next, create_idempotent, get, heartbeat, extended, moved, transition, stopped, cancel,
  active,
}
use ai_agent_security_lab.Storage.RunRepository.Rows.{
  by_id, Evolves, Later-append, IdsDistinct-append,
}
use ai_agent_security_lab.Storage.RunRepository.Invariant.{
  RunsValid, Keeps, Keeps-refl, update-Keeps, first_in_order-found,
}

-- In a valid table the constructor accepts every row.
pub from_row_ok : (r : EvaluationRun) → IsValid (utc r) → from_row r ≡ ok (utc r)
unfolding from_row
from_row_ok r v = post_init_of_IsValid (utc r) v

-- In a valid table a lookup of a run never raises and changes nothing: it returns the tenant's row
-- of that id, with its times in UTC, if there is one.
pub get_total :
    (tenant run_id : Text) (d : Database)
    → RunsValid d
    → get tenant run_id d ≡ (
      ok (elim (first_where (is_run tenant run_id) d.runs) [ none ↦ none | some r ↦ some (utc r) ]),
      d,
    )
unfolding get
get_total tenant run_id d v = elim (Option-cases (first_where (is_run tenant run_id) d.runs)) [
  | inl e ↦ ground arith
  | inr (r, e) ↦ ground (
    arith,
    from_row_ok r (All-first_where (λ r. IsValid (utc r)) (is_run tenant run_id) d.runs r v.rows e),
  )
]

pub create_effect :
    (tenant : Text) (run : EvaluationRun) (d : Database)
    → ((create_idempotent tenant run d).1 ≡ d)
      ⊎ (((create_idempotent tenant run d).1 ≡ record d { runs = d.runs ++ run ∷ [] })
          × (any (by_id run.id) d.runs ≡ false))
unfolding create_idempotent
create_effect tenant run d = ground arith

pub create-Keeps :
    (tenant : Text) (run : EvaluationRun) (d : Database)
    → RunsValid d
    → IsValid (utc run)
    → Keeps d (create_idempotent tenant run d).1
create-Keeps tenant run d v good = elim (create_effect tenant run d) [
  | inl e ↦ rw e (Keeps-refl d v)
  | inr (e, fresh) ↦ rw e (record {
    valid = record {
      distinct = IdsDistinct-append d.runs run v.distinct fresh;
      rows = All-append (λ r. IsValid (utc r)) d.runs (run ∷ []) v.rows (good, tt);
    };
    later = Later-append d.runs (run ∷ []);
  })
]

pub claimed-IsValid :
    (owner : Text) (now : Timestamp) (n : ℕ) (r : EvaluationRun)
    → within 128 owner ≡ true
    → IsValid (utc r)
    → IsValid (utc (claimed owner now n r))
unfolding has_owner within terminal is_aware
claimed-IsValid owner now n r w v = ground arith

claimed-Evolves :
    (tenant owner : Text) (now : Timestamp) (n : ℕ) (r : EvaluationRun)
    → claimable tenant now r ≡ true
    → Evolves r (claimed owner now n r)
unfolding terminal
claimed-Evolves tenant owner now n r h = ground arith

-- A lease is refused with the tables as they were, or its owner's name is in bounds.
pub validate-cases :
    (owner : Text) (now : Timestamp) (n : ℕ) (d : Database)
    → ((validate_lease owner now n d ≡ (ok tt, d)) × (within 128 owner ≡ true))
      ⊎ ((validate_lease owner now n d).1 ≡ d) × (is_ok (validate_lease owner now n d).0 ≡ false)
unfolding validate_lease
validate-cases owner now n d = ground arith

pub claim_effect :
    (tenant owner : Text) (now : Timestamp) (n : ℕ) (d : Database)
    → ((claim_next tenant owner now n d).1 ≡ d)
      ⊎ ((row : EvaluationRun) × (first_in_order (claimable tenant now) d.runs ≡ some row)
          × (within 128 owner ≡ true)
          × ((claim_next tenant owner now n d).1 ≡ record d {
            runs = update_where (λ r. text_eq r.id row.id) (claimed owner now n) d.runs;
          }))
unfolding claim_row claim_next
claim_effect tenant owner now n d = elim (validate-cases owner now n d) [
  | inr refused ↦ inl (ground arith)
  | inl (accepted, w) ↦ elim (Option-cases (first_in_order (claimable tenant now) d.runs)) [
    | inl nothing ↦ inl (ground arith)
    | inr (row, found) ↦ inr (row, found, w, ground arith)
  ]
]

same_row :
    (rows : List EvaluationRun) (k : Text) (r row : EvaluationRun)
    → first_where (by_id k) rows ≡ some r
    → text_eq r.id row.id ≡ true
    → first_where (by_id row.id) rows ≡ some row
    → row ≡ r
same_row rows k r row h p h' =
    let at_k : r.id ≡ k = (text_eq_iff r.id k).0 (first_where-holds (by_id k) rows r h) in
    let at_row : r.id ≡ row.id = (text_eq_iff r.id row.id).0 p in
    let found : first_where (by_id row.id) rows ≡ some r =
      subst (λ j. first_where (by_id j) rows ≡ some r) (sym at_k ∙ at_row) h in
    cc

pub claim-Keeps :
    (tenant owner : Text) (now : Timestamp) (n : ℕ) (d : Database)
    → RunsValid d
    → Keeps d (claim_next tenant owner now n d).1
claim-Keeps tenant owner now n d v = elim (claim_effect tenant owner now n d) [
  | inl e ↦ rw e (Keeps-refl d v)
  | inr (row, found, w, e) ↦ rw e (
      update-Keeps (λ r. text_eq r.id row.id) (claimed owner now n) d v (λ r. refl)
        (λ k r h p.
          let (found', ready) =
            first_in_order-found (claimable tenant now) d.runs row v.distinct found in
          claimed-Evolves tenant owner now n r
            (subst (λ s. claimable tenant now s ≡ true) (same_row d.runs k r row h p found') ready))
        (λ r good p. claimed-IsValid owner now n r w good))
]

pub heartbeat_effect :
    (tenant : Text) (claim : LeaseClaim) (now : Timestamp) (n : ℕ) (d : Database)
    → ((heartbeat tenant claim now n d).1 ≡ d)
      ⊎ ((within 128 claim.owner ≡ true)
          × ((heartbeat tenant claim now n d).1 ≡ record d {
            runs =
                update_where
                  (λ r. holds tenant claim now r && active r.status)
                  (extended now n)
                  d.runs;
          }))
unfolding heartbeat validate_lease
heartbeat_effect tenant claim now n d = ground arith

extended-IsValid :
    (tenant : Text) (claim : LeaseClaim) (now : Timestamp) (n : ℕ) (r : EvaluationRun)
    → within 128 claim.owner ≡ true
    → IsValid (utc r)
    → (holds tenant claim now r && active r.status) ≡ true
    → IsValid (utc (extended now n r))
unfolding has_owner within terminal is_aware
extended-IsValid tenant claim now n r w v p = ground arith

extended-Evolves :
    (now : Timestamp) (n : ℕ) (r : EvaluationRun)
    → active r.status ≡ true
    → Evolves r (extended now n r)
unfolding terminal
extended-Evolves now n r h = ground arith

pub heartbeat-Keeps :
    (tenant : Text) (claim : LeaseClaim) (now : Timestamp) (n : ℕ) (d : Database)
    → RunsValid d
    → Keeps d (heartbeat tenant claim now n d).1
heartbeat-Keeps tenant claim now n d v = elim (heartbeat_effect tenant claim now n d) [
  | inl e ↦ rw e (Keeps-refl d v)
  | inr (w, e) ↦ rw e (
      update-Keeps (λ r. holds tenant claim now r && active r.status) (extended now n) d v
        (λ r. refl) (λ k r h p. extended-Evolves now n r (ground arith))
        (λ r good p. extended-IsValid tenant claim now n r w good p))
]

-- The row that a transition starts from.
abbrev pub goes_from : Text → LeaseClaim → Timestamp → RunStatus → EvaluationRun → Bool
goes_from tenant claim now current r = holds tenant claim now r && status_eq r.status current

pub transition_effect :
    (tenant : Text) (claim : LeaseClaim) (target : RunStatus) (now : Timestamp) (d : Database)
    → RunsValid d
    → ((transition tenant claim target now d).1 ≡ d)
      ⊎ ((c : EvaluationRun) × (first_where (is_run tenant claim.run.id) d.runs ≡ some c)
          × (require_transition c.status target ≡ ok tt)
          × ((transition tenant claim target now d).1 ≡ record d {
            runs = update_where (goes_from tenant claim now c.status) (moved target now) d.runs;
          }))
unfolding transition
transition_effect tenant claim target now d v =
    elim (Option-cases (first_where (is_run tenant claim.run.id) d.runs)) [
      | inl nothing ↦ inl (ground (arith, get_total tenant claim.run.id d v))
      | inr (c, found) ↦ elim (Result-cases (require_transition c.status target)) [
        | inl legal ↦ inr (c, found, legal, ground (arith, get_total tenant claim.run.id d v))
        | inr (x, illegal) ↦ inl (ground (arith, get_total tenant claim.run.id d v))
      ]
    ]

moved-IsValid :
    (target : RunStatus) (now : Timestamp) (r : EvaluationRun)
    → IsValid (utc r)
    → IsValid (utc (moved target now r))
unfolding has_owner is_aware
moved-IsValid target now r v = elim (Bool-cases (terminal target)) [
  | inl t ↦ rw t (ground arith)
  | inr f ↦ rw f (ground arith)
]

moved-Evolves :
    (current target : RunStatus) (now : Timestamp) (r : EvaluationRun)
    → require_transition current target ≡ ok tt
    → status_eq r.status current ≡ true
    → Evolves r (moved target now r)
moved-Evolves current target now r legal e =
    let live : terminal r.status ≡ false =
      rw (status_eq→eq r.status current e) (transition_from_live current target legal) in
    ground arith

pub transition-Keeps :
    (tenant : Text) (claim : LeaseClaim) (target : RunStatus) (now : Timestamp) (d : Database)
    → RunsValid d
    → Keeps d (transition tenant claim target now d).1
transition-Keeps tenant claim target now d v =
    elim (transition_effect tenant claim target now d v) [
      | inl e ↦ rw e (Keeps-refl d v)
      | inr (c, found, legal, e) ↦ rw e (
          update-Keeps (goes_from tenant claim now c.status) (moved target now) d v (λ r. refl)
            (λ k r h p. moved-Evolves c.status target now r legal (ground arith))
            (λ r good p. moved-IsValid target now r good))
    ]

pub cancel_effect :
    (tenant run_id : Text) (now : Timestamp) (d : Database)
    → RunsValid d
    → ((cancel tenant run_id now d).1 ≡ d)
      ⊎ ((cancel tenant run_id now d).1 ≡ record d {
        runs = update_where (λ r. is_run tenant run_id r && active r.status) (stopped now) d.runs;
      })
unfolding cancel
cancel_effect tenant run_id now d v =
    elim (Option-cases (first_where (is_run tenant run_id) d.runs)) [
      | inl nothing ↦ inl (ground (arith, get_total tenant run_id d v))
      | inr (c, found) ↦ ground (arith, get_total tenant run_id d v)
    ]

stopped-IsValid :
    (now : Timestamp) (r : EvaluationRun) → IsValid (utc r) → IsValid (utc (stopped now r))
unfolding has_owner is_aware
stopped-IsValid now r v = ground arith

stopped-Evolves :
    (now : Timestamp) (r : EvaluationRun) → active r.status ≡ true → Evolves r (stopped now r)
unfolding terminal
stopped-Evolves now r h = ground arith

pub cancel-Keeps :
    (tenant run_id : Text) (now : Timestamp) (d : Database)
    → RunsValid d
    → Keeps d (cancel tenant run_id now d).1
cancel-Keeps tenant run_id now d v = elim (cancel_effect tenant run_id now d v) [
  | inl e ↦ rw e (Keeps-refl d v)
  | inr e ↦ rw e (
      update-Keeps (λ r. is_run tenant run_id r && active r.status) (stopped now) d v (λ r. refl)
        (λ k r h p. stopped-Evolves now r (ground arith)) (λ r good p. stopped-IsValid now r good))
]
