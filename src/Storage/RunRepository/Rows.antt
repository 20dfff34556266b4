-- ===== src/Storage/RunRepository/Rows.antt =====
-- storage/run_repository.py: what an operation may do to a row, and how updates act on the table.
use ai_agent_security_lab.Prelude.{
  ◌≤◌, ◌≡◌, refl, inl, inr, Bool, true, false, List, [], ◌∷◌, ◌++◌, some, Text, text_eq,
  text_eq_iff, any, first_where, update_where, first_where-update_where, first_where-append, arith,
  if◌then◌else◌, Bool-cases, map_option,
}
use ai_agent_security_lab.Domain.Runs.{EvaluationRun, terminal}

abbrev pub by_id : Text → EvaluationRun → Bool
by_id k r = text_eq r.id k

-- A later state of one run: its identity is kept, its counters do not fall, and a run that is over
-- is not touched.
pub record Evolves (r s : EvaluationRun) : Type 0 where
  pub id_same : s.id ≡ r.id
  pub tenant_same : s.tenant_id ≡ r.tenant_id
  pub key_same : s.idempotency_key ≡ r.idempotency_key
  pub created_same : s.created_at ≡ r.created_at
  pub token_grows : r.fencing_token ≤ s.fencing_token
  pub version_grows : r.version ≤ s.version
  pub over : terminal r.status ≡ true → s ≡ r

pub Evolves-refl : (r : EvaluationRun) → Evolves r r
Evolves-refl r = ground arith

pub Evolves-trans : (r s t : EvaluationRun) → Evolves r s → Evolves s t → Evolves r t
Evolves-trans r s t p q = record {
  id_same = cc (p.id_same, q.id_same);
  tenant_same = cc (p.tenant_same, q.tenant_same);
  key_same = cc (p.key_same, q.key_same);
  created_same = cc (p.created_same, q.created_same);
  token_grows = omega arith;
  version_grows = omega arith;
  over = λ h. rw (q.over (rw (p.over h) h)) (p.over h);
}

-- Every run of the first table is in the second, in a later state.
abbrev pub Later : List EvaluationRun → List EvaluationRun → Type 0
Later rows rows' =
    (k : Text) (r : EvaluationRun)
    → first_where (by_id k) rows ≡ some r
    → (s : EvaluationRun) × (first_where (by_id k) rows' ≡ some s) × Evolves r s

pub Later-refl : (rows : List EvaluationRun) → Later rows rows
Later-refl rows k r h = (r, h, Evolves-refl r)

pub Later-trans :
    (rows rows' rows'' : List EvaluationRun)
    → Later rows rows'
    → Later rows' rows''
    → Later rows rows''
Later-trans rows rows' rows'' p q k r h =
    let (s, hs, es) = p k r h in let (t, ht, et) = q k s hs in (t, ht, Evolves-trans r s t es et)

pub Later-append : (rows more : List EvaluationRun) → Later rows (rows ++ more)
Later-append rows more k r h = (r, first_where-append (by_id k) rows more r h, Evolves-refl r)

-- An update is fine if it is fine at the rows that are found under their own id.
pub Later-update :
    (p : EvaluationRun → Bool) (f : EvaluationRun → EvaluationRun) (rows : List EvaluationRun)
    → ((r : EvaluationRun) → (f r).id ≡ r.id)
    → ((k : Text) (r : EvaluationRun)
        → first_where (by_id k) rows ≡ some r
        → p r ≡ true
        → Evolves r (f r))
    → Later rows (update_where p f rows)
Later-update p f rows same fine k r h = elim (Bool-cases (p r)) [
  | inl t ↦ (f r, rw (found, h, t), fine k r h t)
  | inr e ↦ (r, rw (found, h, e), Evolves-refl r)
]
  where
    found :
        first_where (by_id k) (update_where p f rows)
        ≡ map_option (λ r. if p r then f r else r) (first_where (by_id k) rows)
    found = first_where-update_where (by_id k) p f rows (λ r. rw (same r))

-- No two rows have the same id.
abbrev pub IdsDistinct : List EvaluationRun → Type 0
IdsDistinct [] = Unit
IdsDistinct (r ∷ rows) =
    (any (λ (s : EvaluationRun). text_eq s.id r.id) rows ≡ false) × IdsDistinct rows

any-append :
    (p : EvaluationRun → Bool) (rows more : List EvaluationRun)
    → any p rows ≡ false
    → any p more ≡ false
    → any p (rows ++ more) ≡ false
any-append p [] more h k = k
any-append p (r ∷ rows) more h k = ground (arith, any-append p rows more)

pub IdsDistinct-append :
    (rows : List EvaluationRun) (r : EvaluationRun)
    → IdsDistinct rows
    → any (λ (s : EvaluationRun). text_eq s.id r.id) rows ≡ false
    → IdsDistinct (rows ++ r ∷ [])
IdsDistinct-append [] r h fresh = (refl, tt)
IdsDistinct-append (x ∷ rows) r h fresh = (
  any-append (λ (s : EvaluationRun). text_eq s.id x.id) rows (r ∷ []) h.0
      (ground (arith, text_eq_iff x.id r.id, text_eq_iff r.id x.id)),
  IdsDistinct-append rows r h.1 (ground arith),
)

any-update :
    (k : Text) (p : EvaluationRun → Bool) (f : EvaluationRun → EvaluationRun)
    (rows : List EvaluationRun)
    → ((r : EvaluationRun) → (f r).id ≡ r.id)
    → any (by_id k) (update_where p f rows) ≡ any (by_id k) rows
any-update k p f [] same = refl
any-update k p f (r ∷ rows) same = ground (arith, same r, any-update k p f rows same)

pub IdsDistinct-update :
    (p : EvaluationRun → Bool) (f : EvaluationRun → EvaluationRun) (rows : List EvaluationRun)
    → ((r : EvaluationRun) → (f r).id ≡ r.id)
    → IdsDistinct rows
    → IdsDistinct (update_where p f rows)
IdsDistinct-update p f [] same h = h
IdsDistinct-update p f (r ∷ rows) same h = (
  elim (Bool-cases (p r)) [
    | inl t ↦ rw (t, same r, any-update r.id p f rows same) h.0
    | inr e ↦ rw (e, any-update r.id p f rows same) h.0
  ],
  IdsDistinct-update p f rows same h.1,
)
