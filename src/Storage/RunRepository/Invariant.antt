-- ===== src/Storage/RunRepository/Invariant.antt =====
-- storage/run_repository.py: the invariant of the table of runs, and updates under it.
use ai_agent_security_lab.Prelude.{
  ◌≡◌, Bool, true, false, List, [], ◌∷◌, some, Text, text_eq, text_eq_iff, text_eq_refl, any,
  first_where, update_where, All, All-update_where, arith, Result, ok, err,
}
use ai_agent_security_lab.Domain.Runs.{EvaluationRun}
use ai_agent_security_lab.Domain.Runs.Lifecycle.{IsValid}
use ai_agent_security_lab.Storage.Database.{Database, Action, transaction, roll_back}
use ai_agent_security_lab.Storage.RunRepository.{utc, first_in_order}
use ai_agent_security_lab.Storage.RunRepository.Rows.{
  by_id, Evolves, Later, Later-refl, Later-update, IdsDistinct, IdsDistinct-update,
}

pub record RunsValid (d : Database) : Type 0 where
  pub distinct : IdsDistinct d.runs
  pub rows : All (λ r. IsValid (utc r)) d.runs

-- What an operation does to the runs.
pub record Keeps (d d' : Database) : Type 0 where
  pub valid : RunsValid d'
  pub later : Later d.runs d'.runs

pub Keeps-refl : (d : Database) → RunsValid d → Keeps d d
Keeps-refl d v = record { valid = v; later = Later-refl d.runs }

pub Keeps-transaction :
    {A : Type 0} (m : Action A) (d : Database)
    → RunsValid d
    → Keeps d (m d).1
    → Keeps d (transaction m d).1
Keeps-transaction {A} m d v k = go (m d) k
  where
    go : (r : Result A × Database) → Keeps d r.1 → Keeps d (roll_back d r).1
    go (ok a, d') k = k
    go (err e, d') k = Keeps-refl d v

pub update-Keeps :
    (p : EvaluationRun → Bool) (f : EvaluationRun → EvaluationRun) (d : Database)
    → RunsValid d
    → ((r : EvaluationRun) → (f r).id ≡ r.id)
    → ((k : Text) (r : EvaluationRun)
        → first_where (by_id k) d.runs ≡ some r
        → p r ≡ true
        → Evolves r (f r))
    → ((r : EvaluationRun) → IsValid (utc r) → p r ≡ true → IsValid (utc (f r)))
    → Keeps d (record d { runs = update_where p f d.runs })
update-Keeps p f d v same fine good = record {
  valid = record {
    distinct = IdsDistinct-update p f d.runs same v.distinct;
    rows = All-update_where (λ r. IsValid (utc r)) p f d.runs good v.rows;
  };
  later = Later-update p f d.runs same fine;
}

-- The row that `ORDER BY … LIMIT 1` returns satisfies the condition and is found under its id.
first_where-any :
    (j k : Text) (rows : List EvaluationRun) (s : EvaluationRun)
    → first_where (by_id j) rows ≡ some s
    → any (by_id k) rows ≡ false
    → text_eq s.id k ≡ false
first_where-any j k [] s h e = cc
first_where-any j k (r ∷ rows) s h e = ground (arith, first_where-any j k rows s)

pub first_in_order-found :
    (p : EvaluationRun → Bool) (rows : List EvaluationRun) (s : EvaluationRun)
    → IdsDistinct rows
    → first_in_order p rows ≡ some s
    → (first_where (by_id s.id) rows ≡ some s) × (p s ≡ true)
unfolding first_in_order
first_in_order-found p [] s d h = (cc, cc)
first_in_order-found p (r ∷ rows) s d h = ground (
  arith,
  first_in_order-found p rows s d.1,
  first_where-any s.id r.id rows s,
  text_eq_refl s.id,
  text_eq_iff r.id s.id,
  text_eq_iff s.id r.id,
)
