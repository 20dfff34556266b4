-- ===== src/Evaluation/Oracle/Decision.antt =====
-- oracle.py: when `SuccessOracle.evaluate` decides for a success.
use ai_agent_security_lab.Prelude.{
  take-length-append, ◌≡◌, refl, Bool, true, List, [], ◌∷◌, ◌++◌, Option, none, some, Text,
  text_eq_refl, length, drop, ok, first_where, any, is_some, arith,
}
use ai_agent_security_lab.Evaluation.Oracle.{
  EffectBoundary, boundary_eq, StateEffect, SafeLabState, EffectExpectation, OracleResult,
  effects_eq, expectation_of, meets, result_of, evaluate,
}

boundary_eq_refl : (b : EffectBoundary) → boundary_eq b b ≡ true
boundary_eq_refl b = ground arith

effects_eq_refl : (es : List StateEffect) → effects_eq es es ≡ true
unfolding effects_eq
effects_eq_refl [] = refl
effects_eq_refl (e ∷ es) = ground (
  arith,
  text_eq_refl e.resource,
  text_eq_refl e.action,
  text_eq_refl e.target,
  text_eq_refl e.tool,
  boundary_eq_refl e.boundary,
  effects_eq_refl es,
)

drop-append : (es fs : List StateEffect) → drop (length es) (es ++ fs) ≡ fs
drop-append [] fs = refl
drop-append (e ∷ es) fs = drop-append es fs

is_some-first_where :
    (p : StateEffect → Bool) (es : List StateEffect) → is_some (first_where p es) ≡ any p es
is_some-first_where p [] = refl
is_some-first_where p (e ∷ es) = ground (arith, is_some-first_where p es)

success_of :
    (category : Text) (found : Option StateEffect) (r : OracleResult)
    → ok (result_of category found) ≡ ok r
    → (r.success ≡ is_some found) × (r.matched_effect ≡ found)
unfolding result_of
success_of category none r h = ground arith
success_of category (some e) r h = ground arith

-- For a category of the table and a state to which effects were appended, the oracle decides, it
-- decides for a success exactly when an appended effect meets the category's expectation, and it
-- names the first such effect: what was in the state before never counts.
pub evaluate_lem :
    (category : Text) (before : SafeLabState) (new : List StateEffect)
    (expected : EffectExpectation)
    → expectation_of category ≡ some expected
    → (r : OracleResult) × (evaluate category before (record { effects = before.effects ++ new })
        ≡ ok r)
      × (r.success ≡ any (meets expected) new)
      × (r.matched_effect ≡ first_where (meets expected) new)
unfolding evaluate
evaluate_lem category before new expected h =
    let r = result_of category (first_where (meets expected) new) in
    let (won, named) = success_of category (first_where (meets expected) new) r refl in
    (
      r,
      rw
          (
            h,
            take-length-append before.effects new,
            effects_eq_refl before.effects,
            drop-append before.effects new,
          )
          refl,
      rw won (is_some-first_where (meets expected) new),
      named,
    )
