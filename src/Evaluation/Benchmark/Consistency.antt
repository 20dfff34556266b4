-- ===== src/Evaluation/Benchmark/Consistency.antt =====
-- benchmark_metrics.py: how the counts of a summary fit together.
use ai_agent_security_lab.Prelude.{
  ◌+◌, ◌≤◌, ◌≡◌, refl, ap, ◌&&◌, not, Bool, false, List, [], ◌∷◌, text, text_eq, text_eq_iff,
  length, length-select, select, count_where, count_where-le, is_some, arith, Bool-cases, inl, inr,
}
use ai_agent_security_lab.Evaluation.Benchmark.{
  BenchmarkRecord, is_attack, is_benign, agrees, summarize_benchmark,
}

count_split :
    (p q : BenchmarkRecord → Bool) (items : List BenchmarkRecord)
    → count_where (λ r. p r && q r) items + count_where (λ r. p r && not (q r)) items
      ≡ count_where p items
count_split p q [] = refl
count_split p q (r ∷ items) = ground (arith, count_split p q items)

count_not :
    (p : BenchmarkRecord → Bool) (items : List BenchmarkRecord)
    → count_where p items + count_where (λ r. not (p r)) items ≡ length items
count_not p [] = refl
count_not p (r ∷ items) = ground (arith, count_not p items)

count-select :
    (p q : BenchmarkRecord → Bool) (items : List BenchmarkRecord)
    → count_where q (select p items) ≡ count_where (λ r. p r && q r) items
count-select p q [] = refl
count-select p q (r ∷ items) = ground (arith, count-select p q items)

count_apart :
    (p q : BenchmarkRecord → Bool) (items : List BenchmarkRecord)
    → ((r : BenchmarkRecord) → (p r && q r) ≡ false)
    → count_where p items + count_where q items ≤ length items
count_apart p q [] h = omega arith
count_apart p q (r ∷ items) h = ground (arith, h r, count_apart p q items h)

kinds_apart : (r : BenchmarkRecord) → (is_attack r && is_benign r) ≡ false
unfolding text text_eq
kinds_apart r = elim (Bool-cases (is_attack r)) [
  | inl e ↦
      ap (λ k. text_eq k (text "attack") && text_eq k (text "benign"))
        ((text_eq_iff r.kind (text "attack")).0 e)
  | inr e ↦ rw e refl
]

-- In every summary the four counts of the detector partition the tasks, and two of them those
-- whose attack succeeded; a benign task is either completed or a false refusal; no task is both
-- an attack and benign; and the judge's agreements are among the tasks that were judged.
pub summary_is_consistent :
    (items : List BenchmarkRecord)
    → let s = summarize_benchmark items in
      (s.detector_tp + s.detector_fn
        ≡ count_where (λ (r : BenchmarkRecord). r.attack_success) items)
      × (s.detector_tp + s.detector_fn + (s.detector_fp + s.detector_tn) ≡ s.dimension.total)
      × (s.false_refusals + s.dimension.benign_completed ≡ s.dimension.benign_total)
      × (s.dimension.attack_total + s.dimension.benign_total ≤ s.dimension.total)
      × (s.dimension.attack_successes ≤ s.dimension.attack_total)
      × (s.judge_agreements ≤ s.judge_total)
      × (s.judge_total ≤ s.dimension.total)
unfolding summarize_benchmark
summary_is_consistent items =
    let success = λ (r : BenchmarkRecord). r.attack_success in
    let hit = λ (r : BenchmarkRecord). r.detector_hit in
    let complete = λ (r : BenchmarkRecord). r.task_completed in
    let judged = λ (r : BenchmarkRecord). not (is_some r.judge_error) in
    (
      count_split success hit items,
      omega (
        arith,
        count_split success hit items,
        count_split (λ r. not (success r)) hit items,
        count_not success items,
      ),
      omega (
        arith,
        count-select is_benign complete items,
        count_split is_benign complete items,
        length-select is_benign items,
      ),
      omega (
        arith,
        length-select is_attack items,
        length-select is_benign items,
        count_apart is_attack is_benign items kinds_apart,
      ),
      count_where-le success (select is_attack items),
      count_where-le agrees (select judged items),
      omega (arith, length-select judged items, count_where-le judged items),
    )
