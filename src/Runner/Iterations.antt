-- ===== src/Runner/Iterations.antt =====
-- runner.py: the iterations of a technique, for any samples that the generator draws.
use ai_agent_security_lab.Prelude.{
  ok-bind, not, length-take, ok-raise_if, ok-injective, append_nil, append_assoc, take-append,
  Option, is_some, ℕ, zero, suc, ◌+◌, ◌≤◌, ◌≡◌, refl, ◌&&◌, List, [], ◌∷◌, ◌++◌, map, Text, Bool,
  length, take, length-append, arith, Bool-cases, inl, inr, leb, ltb, Result, ok, ap, sym,
}
use ai_agent_security_lab.Datatypes.{Trace}
use ai_agent_security_lab.Judge.{JudgeResult}
use ai_agent_security_lab.Target.{TargetAgent}
use ai_agent_security_lab.Atlas.Registry.{AtlasTactic, Registry, get_tactic}
use ai_agent_security_lab.Runner.{
  select_payloads, selected_payloads, AtlasIterationRecord, AtlasRun, iterate, run_atlas_tactic,
  get_atlas_target,
}

-- `n` samples, one after the other, from the k-th on
unfoldable pub samples : (ℕ → List Text) → ℕ → ℕ → List Text
samples draws k zero = []
samples draws k (suc n) = draws k ++ samples draws (suc k) n

module _ (draws : ℕ → List Text) (not_empty : (k : ℕ) → 1 ≤ length (draws k)) (iterations : ℕ) where
  -- The loop ends with enough payloads, which are those of the samples in their order.
  select-samples :
      (fuel k : ℕ) (selected : List Text)
      → iterations ≤ length selected + fuel
      → (take iterations (select_payloads draws iterations fuel k selected)
          ≡ take iterations (selected ++ samples draws k fuel))
        × (iterations ≤ length (select_payloads draws iterations fuel k selected))
  unfolding select_payloads samples
  select-samples zero k selected h = (rw (append_nil selected) refl, omega arith)
  select-samples (suc fuel) k selected h = elim (Bool-cases (ltb (length selected) iterations)) [
    | inl e ↦
        let grown : iterations ≤ length (selected ++ draws k) + fuel =
          omega (arith, length-append selected (draws k), not_empty k) in
        let (same, enough) = select-samples fuel (suc k) (selected ++ draws k) grown in
        rw e (rw (append_assoc selected (draws k) (samples draws (suc k) fuel)) at same, enough)
    | inr e ↦
        let enough : iterations ≤ length selected = ground (arith, e) in
        rw e (
          sym (take-append iterations selected (draws k ++ samples draws (suc k) fuel) enough),
          enough,
        )
  ]

  selected-samples :
      (selected_payloads draws iterations ≡ take iterations (samples draws 0 iterations))
      × (length (selected_payloads draws iterations) ≡ iterations)
  unfolding selected_payloads
  selected-samples =
      let (same, enough) = select-samples iterations 0 [] (omega arith) in
      (same, length-take iterations _ enough)

abbrev pub numbers_from : ℕ → ℕ → List ℕ
numbers_from k zero = []
numbers_from k (suc n) = k ∷ numbers_from (suc k) n

-- One record for each payload, numbered from `k`.
abbrev pub Covers : List AtlasIterationRecord → ℕ → List Text → Type 0
Covers records k payloads =
    (map (λ (r : AtlasIterationRecord). r.payload) records ≡ payloads)
    × (map (λ (r : AtlasIterationRecord). r.iteration) records ≡ numbers_from k (length payloads))

iterate-Covers :
    (tactic : AtlasTactic) (target : TargetAgent) (judge : Trace → Result JudgeResult) (k : ℕ)
    (payloads : List Text)
    → Covers (iterate tactic target judge k payloads) k payloads
unfolding iterate
iterate-Covers tactic target judge k [] = (refl, refl)
iterate-Covers tactic target judge k (p ∷ payloads) =
    let (a, b) = iterate-Covers tactic target judge (suc k) payloads in
    (ap (λ ps. p ∷ ps) a, ap (λ ns. k ∷ ns) b)

records_of :
    (registry : Registry) (tactic_id agent : Text) (iterations : ℕ)
    (judge : Trace → Result JudgeResult) (rng : Bool) (seed : Option ℕ) (draws : ℕ → List Text)
    (r : AtlasRun)
    → run_atlas_tactic registry tactic_id agent iterations judge rng seed draws ≡ ok r
    → (target : TargetAgent) × (r.records
        ≡ iterate r.tactic target judge 1 (selected_payloads draws iterations))
unfolding run_atlas_tactic
records_of registry tactic_id agent iterations judge rng seed draws r e =
    let (in_range, e1) = ok-raise_if (not (leb 1 iterations && leb iterations 100)) _ _ r e in
    let (one_source, e2) = ok-raise_if (rng && is_some seed) _ _ r e1 in
    let (tactic, _, e3) = ok-bind (get_tactic tactic_id registry) _ r e2 in
    let (target, _, e4) = ok-bind (get_atlas_target agent) _ r e3 in
    let same = ok-injective _ r e4 in (target, rw (← same) refl)

-- A run that is accepted makes exactly the iterations that were asked for, numbered from 1: the loop
-- that selects payloads ends for any samples that are not empty, and the payloads are the samples
-- of the generator one after the other.
pub accepted_run-Covers :
    (registry : Registry) (tactic_id agent : Text) (iterations : ℕ)
    (judge : Trace → Result JudgeResult) (rng : Bool) (seed : Option ℕ) (draws : ℕ → List Text)
    (r : AtlasRun)
    → ((k : ℕ) → 1 ≤ length (draws k))
    → run_atlas_tactic registry tactic_id agent iterations judge rng seed draws ≡ ok r
    → Covers r.records 1 (take iterations (samples draws 0 iterations))
      × (length (take iterations (samples draws 0 iterations)) ≡ iterations)
accepted_run-Covers registry tactic_id agent iterations judge rng seed draws r h e =
    let (target, same) = records_of registry tactic_id agent iterations judge rng seed draws r e in
    let (payloads, enough) = selected-samples draws h iterations in
    rw (same, ← payloads)
      (iterate-Covers r.tactic target judge 1 (selected_payloads draws iterations), enough)
