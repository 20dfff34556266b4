-- ===== src/Storage/RunRepository/Claims.antt =====
-- storage/run_repository.py: the runs that `claim_next` hands out.
use ai_agent_security_lab.Prelude.{
  ℕ, ◌+◌, ◌<◌, ◌≡◌, ◌≢◌, refl, sym, ◌∙◌, inl, inr, Bool, true, false, List, [], ◌∷◌, none, some,
  Text, text_eq, text_eq_refl, within, All, first_where, update_where, first_where-update_where,
  All-first_where, Timestamp, arith, Bool-cases, Option-cases, ok, subst, seconds, is_ok, ap,
}
use ai_agent_security_lab.Domain.Runs.{preparing, EvaluationRun, LeaseClaim}
use ai_agent_security_lab.Domain.Runs.Lifecycle.{IsValid}
use ai_agent_security_lab.Storage.Database.{Database}
use ai_agent_security_lab.Storage.RunRepository.{
  utc, validate_lease, claimable, text_lt, precedes, first_in_order, claimed, claim_row, claim_next,
}
use ai_agent_security_lab.Storage.RunRepository.Rows.{by_id}
use ai_agent_security_lab.Storage.RunRepository.Invariant.{RunsValid, first_in_order-found}
use ai_agent_security_lab.Storage.RunRepository.Steps.{
  from_row_ok, claimed-IsValid, validate-cases, claim-Keeps,
}

text_lt_weak : (a b c : Text) → text_lt a b ≡ false → text_lt b c ≡ false → text_lt a c ≡ false
unfolding text_lt
text_lt_weak [] [] [] h k = refl
text_lt_weak [] [] (z ∷ c) h k = cc
text_lt_weak [] (y ∷ b) c h k = cc
text_lt_weak (x ∷ a) [] [] h k = refl
text_lt_weak (x ∷ a) [] (z ∷ c) h k = cc
text_lt_weak (x ∷ a) (y ∷ b) [] h k = refl
text_lt_weak (x ∷ a) (y ∷ b) (z ∷ c) h k = ground (arith, text_lt_weak a b c)

text_lt_asymm : (a b : Text) → text_lt a b ≡ true → text_lt b a ≡ false
unfolding text_lt
text_lt_asymm [] [] h = refl
text_lt_asymm [] (y ∷ b) h = refl
text_lt_asymm (x ∷ a) [] h = cc
text_lt_asymm (x ∷ a) (y ∷ b) h = ground (arith, text_lt_asymm a b)

precedes_weak :
    (r s t : EvaluationRun) → precedes r s ≡ false → precedes s t ≡ false → precedes r t ≡ false
precedes_weak r s t h k = ground (arith, text_lt_weak r.id s.id t.id)

precedes_asymm : (r s : EvaluationRun) → precedes r s ≡ true → precedes s r ≡ false
precedes_asymm r s h = ground (arith, text_lt_asymm r.id s.id)

text_lt_irrefl : (a : Text) → text_lt a a ≡ false
unfolding text_lt
text_lt_irrefl [] = refl
text_lt_irrefl (x ∷ a) = ground (arith, text_lt_irrefl a)

-- No row that satisfies the condition comes before `s`.
abbrev pub NoneBefore : (EvaluationRun → Bool) → EvaluationRun → List EvaluationRun → Type 0
NoneBefore p s rows = All (λ r. p r ≡ true → precedes r s ≡ false) rows

NoneBefore-weaken :
    (p : EvaluationRun → Bool) (s t : EvaluationRun) (rows : List EvaluationRun)
    → precedes s t ≡ false
    → NoneBefore p s rows
    → NoneBefore p t rows
NoneBefore-weaken p s t [] h k = tt
NoneBefore-weaken p s t (r ∷ rows) h k =
    (λ e. precedes_weak r s t (k.0 e) h, NoneBefore-weaken p s t rows h k.1)

NoneBefore-empty :
    (p : EvaluationRun → Bool) (s : EvaluationRun) (rows : List EvaluationRun)
    → first_in_order p rows ≡ none
    → NoneBefore p s rows
unfolding first_in_order
NoneBefore-empty p s [] h = tt
NoneBefore-empty p s (r ∷ rows) h = (λ e. ground arith, NoneBefore-empty p s rows (ground arith))

first_in_order_least :
    (p : EvaluationRun → Bool) (rows : List EvaluationRun) (s : EvaluationRun)
    → first_in_order p rows ≡ some s
    → NoneBefore p s rows
unfolding first_in_order
first_in_order_least p [] s h = tt
first_in_order_least p (r ∷ rows) s h = elim (Option-cases (first_in_order p rows)) [
  | inl e ↦ (λ q. ground (arith, text_lt_irrefl r.id), NoneBefore-empty p s rows e)
  | inr (t, e) ↦ elim (Bool-cases (p r)) [
    | inr off ↦ (λ q. cc, first_in_order_least p rows s (ground arith))
    | inl on ↦ elim (Bool-cases (precedes t r)) [
      | inl before ↦
          let same : t ≡ s = ground arith in
          (
            λ q. subst (λ u. precedes r u ≡ false) same (precedes_asymm t r before),
            subst (λ u. NoneBefore p u rows) same (first_in_order_least p rows t e),
          )
      | inr after ↦
          let same : r ≡ s = ground arith in
          (
            λ q. ground (arith, text_lt_irrefl r.id, same),
            subst (λ u. NoneBefore p u rows) same
                (NoneBefore-weaken p t r rows after (first_in_order_least p rows t e)),
          )
    ]
  ]
]

-- What a successful `claim_next` has done.
pub record Claimed (tenant owner : Text) (now : Timestamp) (n : ℕ) (c : LeaseClaim)
    (d d' : Database) : Type 0 where
  -- the row as it was
  pub row : EvaluationRun
  pub found : first_where (by_id row.id) d.runs ≡ some row
  pub ready : claimable tenant now row ≡ true
  pub least : NoneBefore (claimable tenant now) row d.runs
  -- the row as it is, and what the claim says of it
  pub stored : first_where (by_id row.id) d'.runs ≡ some (claimed owner now n row)
  pub handed : c.run ≡ utc (claimed owner now n row)
  pub token : c.fencing_token ≡ row.fencing_token + 1
  pub holder : c.owner ≡ owner
  pub advanced : c.run.fencing_token ≡ row.fencing_token + 1
  pub prepared : c.run.status ≡ preparing
  pub leased : c.run.lease_owner ≡ some owner

claim_run :
    (tenant owner : Text) (now : Timestamp) (n : ℕ) (d : Database) (row : EvaluationRun)
    → RunsValid d
    → validate_lease owner now n d ≡ (ok tt, d)
    → within 128 owner ≡ true
    → first_in_order (claimable tenant now) d.runs ≡ some row
    → claim_next tenant owner now n d ≡ (
      ok (
          some (record {
            run = utc (claimed owner now n row);
            owner = owner;
            fencing_token = row.fencing_token + 1;
          })),
      record d { runs = update_where (λ r. text_eq r.id row.id) (claimed owner now n) d.runs },
    )
unfolding claim_next claim_row
claim_run tenant owner now n d row v valid w found =
    let (in_table, ready) =
      first_in_order-found (claimable tenant now) d.runs row v.distinct found in
    let good = All-first_where (λ r. IsValid (utc r)) (by_id row.id) d.runs row v.rows in_table in
    let made = from_row_ok (claimed owner now n row) (claimed-IsValid owner now n row w good) in
    ground (arith, made)

claim_nothing :
    (tenant owner : Text) (now : Timestamp) (n : ℕ) (d : Database)
    → validate_lease owner now n d ≡ (ok tt, d)
    → first_in_order (claimable tenant now) d.runs ≡ none
    → claim_next tenant owner now n d ≡ (ok none, d)
unfolding claim_next claim_row
claim_nothing tenant owner now n d valid nothing = ground arith

claim_refused :
    (tenant owner : Text) (now : Timestamp) (n : ℕ) (d : Database)
    → is_ok (validate_lease owner now n d).0 ≡ false
    → is_ok (claim_next tenant owner now n d).0 ≡ false
unfolding claim_next claim_row
claim_refused tenant owner now n d h = ground arith

stored_row :
    (owner : Text) (now : Timestamp) (n : ℕ) (rows : List EvaluationRun) (row : EvaluationRun)
    → first_where (by_id row.id) rows ≡ some row
    → first_where
        (by_id row.id)
        (update_where (λ r. text_eq r.id row.id) (claimed owner now n) rows)
      ≡ some (claimed owner now n row)
stored_row owner now n rows row h = rw (
  first_where-update_where (by_id row.id) (λ r. text_eq r.id row.id) (claimed owner now n) rows
      (λ r. refl),
  h,
  text_eq_refl row.id,
)

-- In a valid table a claim that is granted takes the first claimable run of the tenant in the
-- order of creation, puts it into `preparing` under a lease of the caller, and carries the token
-- that the run has from then on, one more than before.
pub claim_next-Claimed :
    (tenant owner : Text) (now : Timestamp) (n : ℕ) (d d' : Database) (c : LeaseClaim)
    → RunsValid d
    → claim_next tenant owner now n d ≡ (ok (some c), d')
    → Claimed tenant owner now n c d d'
claim_next-Claimed tenant owner now n d d' c v e = elim (validate-cases owner now n d) [
  | inr refused ↦ absurd (ground (arith, claim_refused tenant owner now n d refused.1))
  | inl (valid, w) ↦ elim (Option-cases (first_in_order (claimable tenant now) d.runs)) [
    | inl nothing ↦ absurd (ground (arith, claim_nothing tenant owner now n d valid nothing))
    | inr (row, found) ↦
        let (in_table, ready) =
          first_in_order-found (claimable tenant now) d.runs row v.distinct found in
        let result = sym e ∙ claim_run tenant owner now n d row v valid w found in
        let table : record d {
          runs = update_where (λ r. text_eq r.id row.id) (claimed owner now n) d.runs;
        }
            ≡ d' =
          ground (arith, result) in
        record {
          row = row;
          found = in_table;
          ready = ready;
          least = first_in_order_least (claimable tenant now) d.runs row found;
          stored = rw (← table) (stored_row owner now n d.runs row in_table);
          handed = ground (arith, result);
          token = ground (arith, result);
          holder = ground (arith, result);
          advanced = ground (arith, result);
          prepared = ground (arith, result);
          leased = ground (arith, result);
        }
  ]
]

-- A granted lease is exclusive: in a valid table a second claim, by any owner, that is granted
-- before the first one's lease ends gets another run.
pub claims_exclusive :
    (tenant owner owner' : Text) (now now' : Timestamp) (n n' : ℕ) (d d' d'' : Database)
    (c c' : LeaseClaim)
    → RunsValid d
    → claim_next tenant owner now n d ≡ (ok (some c), d')
    → claim_next tenant owner' now' n' d' ≡ (ok (some c'), d'')
    → now'.micros < now.micros + seconds n
    → c'.run.id ≢ c.run.id
claims_exclusive tenant owner owner' now now' n n' d d' d'' c c' v e e' early same =
    let first = claim_next-Claimed tenant owner now n d d' c v e in
    let v' : RunsValid d' =
      subst (λ r. RunsValid (r.1)) e (claim-Keeps tenant owner now n d v).valid in
    let second = claim_next-Claimed tenant owner' now' n' d' d'' c' v' e' in
    let ids : second.row.id ≡ first.row.id = cc (
      same,
      ap (λ (r : EvaluationRun). r.id) first.handed,
      ap (λ (r : EvaluationRun). r.id) second.handed,
    ) in
    let leased = claimed owner now n first.row in
    let row_same : second.row ≡ leased = ground (
      arith,
      subst (λ k. first_where (by_id k) d'.runs ≡ some second.row) ids second.found,
      first.stored,
    ) in
    let ready : claimable tenant now' leased ≡ true =
      subst (λ r. claimable tenant now' r ≡ true) row_same second.ready in
    ground arith
