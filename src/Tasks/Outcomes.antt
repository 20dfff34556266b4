-- ===== src/Tasks/Outcomes.antt =====
-- A judge never stops the benchmark, and changes no field of a record but its own.
use ai_agent_security_lab.Prelude.{
  ◌≡◌, refl, sym, ap, ◌∙◌, inl, inr, List, [], ◌∷◌, ◌++◌, map, false, none, Result, ok, err,
  Result-split, ◌>>=◌,
}
use ai_agent_security_lab.Datatypes.{Trace}
use ai_agent_security_lab.Detector.{Detection}
use ai_agent_security_lab.Evaluation.Benchmark.{BenchmarkRecord}
use ai_agent_security_lab.Tasks.{AgentTask, AgentTaskSuite, run_task}
use ai_agent_security_lab.Tasks.Benchmark.{
  LabJudge, record_of, benchmark_task, benchmark_tasks, evaluate_task_benchmark,
}

-- A record without what the judge said.
abbrev pub without_judge : BenchmarkRecord → BenchmarkRecord
without_judge r = record r {
  judge_positive = false;
  judge_verdict = [];
  judge_mode = [];
  judge_error = none;
}

-- Two results that are the same but for the judge's fields: both raise the same, or both are records.
abbrev pub SameButJudge : Result (List BenchmarkRecord) → Result (List BenchmarkRecord) → Type 0
SameButJudge (ok r) (ok s) = map without_judge r ≡ map without_judge s
SameButJudge (err e) (err f) = e ≡ f
SameButJudge _ _ = ⊥

abbrev SameTask : Result BenchmarkRecord → Result BenchmarkRecord → Type 0
SameTask (ok r) (ok s) = without_judge r ≡ without_judge s
SameTask (err e) (err f) = e ≡ f
SameTask _ _ = ⊥

map-append :
    (xs ys : List BenchmarkRecord)
    → map without_judge (xs ++ ys) ≡ map without_judge xs ++ map without_judge ys
map-append [] ys = refl
map-append (x ∷ xs) ys = ap (λ zs. without_judge x ∷ zs) (map-append xs ys)

cons-SameButJudge :
    (a b : Result BenchmarkRecord) (r s : Result (List BenchmarkRecord))
    → SameTask a b
    → SameButJudge r s
    → SameButJudge (do x ← a; xs ← r; ok (x ∷ xs)) (do y ← b; ys ← s; ok (y ∷ ys))
cons-SameButJudge (ok x) (ok y) (ok xs) (ok ys) h g =
    ap (λ z. z ∷ map without_judge xs) h ∙ ap (λ zs. without_judge y ∷ zs) g
cons-SameButJudge (ok x) (ok y) (err e) (err f) h g = g
cons-SameButJudge (ok x) (ok y) (ok xs) (err f) h g = g
cons-SameButJudge (ok x) (ok y) (err e) (ok ys) h g = g
cons-SameButJudge (err e) (err f) r s h g = h
cons-SameButJudge (ok x) (err f) r s h g = absurd h
cons-SameButJudge (err e) (ok y) r s h g = absurd h

append-SameButJudge :
    (a b r s : Result (List BenchmarkRecord))
    → SameButJudge a b
    → SameButJudge r s
    → SameButJudge (do xs ← a; ys ← r; ok (xs ++ ys)) (do xs ← b; ys ← s; ok (xs ++ ys))
append-SameButJudge (ok x) (ok y) (ok xs) (ok ys) h g =
    map-append x xs
    ∙ (ap (λ z. z ++ map without_judge xs) h
        ∙ (ap (λ z. map without_judge y ++ z) g ∙ sym (map-append y ys)))
append-SameButJudge (ok x) (ok y) (err e) (err f) h g = g
append-SameButJudge (ok x) (ok y) (ok xs) (err f) h g = g
append-SameButJudge (ok x) (ok y) (err e) (ok ys) h g = g
append-SameButJudge (err e) (err f) r s h g = h
append-SameButJudge (ok x) (err f) r s h g = absurd h
append-SameButJudge (err e) (ok y) r s h g = absurd h

module _ (detect_trace : Trace → Result Detection) (j k : LabJudge) where
  task-SameTask :
      (task : AgentTask)
      → SameTask (benchmark_task detect_trace j task) (benchmark_task detect_trace k task)
  unfolding benchmark_task record_of
  task-SameTask task = elim (Result-split (run_task task)) [
    | inr (raised, e) ↦ rw e refl
    | inl (execution, e) ↦ elim (Result-split (detect_trace execution.trace)) [
      | inr (raised, f) ↦ rw (e, f) refl
      | inl (detection, f) ↦ rw (e, f) refl
    ]
  ]

  tasks-SameButJudge :
      (tasks : List AgentTask)
      → SameButJudge (benchmark_tasks detect_trace j tasks) (benchmark_tasks detect_trace k tasks)
  unfolding benchmark_tasks
  tasks-SameButJudge [] = refl
  tasks-SameButJudge (task ∷ tasks) =
      cons-SameButJudge _ _ _ _ (task-SameTask task) (tasks-SameButJudge tasks)

  -- Two judges, whatever they answer or raise, give the same benchmark but for the judge's own
  -- fields: the same records, or the same exception.
  pub benchmark-SameButJudge :
      (suites : List AgentTaskSuite)
      → SameButJudge
          (evaluate_task_benchmark detect_trace j suites)
          (evaluate_task_benchmark detect_trace k suites)
  unfolding evaluate_task_benchmark
  benchmark-SameButJudge [] = refl
  benchmark-SameButJudge (s ∷ suites) =
      append-SameButJudge _ _ _ _ (tasks-SameButJudge (s.benign_tasks ++ s.attack_tasks))
        (benchmark-SameButJudge suites)
