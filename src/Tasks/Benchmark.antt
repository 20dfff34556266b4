-- ===== src/Tasks/Benchmark.antt =====
-- benchmark_metrics.py: `evaluate_task_benchmark`, which runs the suites under a detector and a judge.
use ai_agent_security_lab.Prelude.{
  Bool, true, false, List, [], ◌∷◌, ◌++◌, Option, none, some, Text, text, Result, ok, err, Error,
  value_error, key_error, type_error, runtime_error, attribute_error, invalid_token_error,
  invalid_key_error, overflow_error, recursion_error, authentication_error, authorization_error,
  file_exists_error, file_not_found_error, os_error, artifact_integrity_error, integrity_error,
  ◌>>=◌,
}
use mathlib.Core.Option
use ai_agent_security_lab.Datatypes.{Verdict, safe, value, Trace}
use ai_agent_security_lab.Detector.{Detection}
use ai_agent_security_lab.Judge.{JudgeResult}
use ai_agent_security_lab.Evaluation.Oracle.{OracleResult, StateEffect}
use ai_agent_security_lab.Evaluation.Benchmark.{BenchmarkRecord}
use ai_agent_security_lab.Tasks.{
  AgentTask, AgentTaskSuite, TaskExecution, attack_success, kind_value, run_task,
}

abbrev pub not_safe : Verdict → Bool
not_safe safe = false
not_safe _ = true

-- `type(exc).__name__`
unfoldable pub error_class : Error → Text
error_class (value_error s) = text "ValueError"
error_class (key_error s) = text "KeyError"
error_class (type_error s) = text "TypeError"
error_class (runtime_error s) = text "RuntimeError"
error_class (attribute_error s) = text "AttributeError"
error_class (invalid_token_error s) = text "InvalidTokenError"
error_class (invalid_key_error s) = text "InvalidKeyError"
error_class (overflow_error s) = text "OverflowError"
error_class (recursion_error s) = text "RecursionError"
error_class (authentication_error s) = text "AuthenticationError"
error_class (authorization_error s) = text "AuthorizationError"
error_class (file_exists_error s) = text "FileExistsError"
error_class file_not_found_error = text "FileNotFoundError"
error_class (os_error s) = text "OSError"
error_class (artifact_integrity_error s) = text "ArtifactIntegrityError"
error_class (integrity_error s) = text "IntegrityError"

-- A judge, with the name of its mode.
pub record LabJudge : Type 0 where
  pub mode : Text
  pub judge : Trace → Result JudgeResult

-- What the record of a task keeps of the judge's answer.
pub record Judged : Type 0 where
  pub positive : Bool
  pub verdict : Text
  pub mode : Text
  pub error : Option Text

unfoldable pub judged_of : Text → Result JudgeResult → Judged
judged_of mode (ok r) = record {
  positive = not_safe r.verdict;
  verdict = value r.verdict;
  mode = r.mode;
  error = none;
}
judged_of mode (err e) = record {
  positive = false;
  verdict = text "unavailable";
  mode = mode;
  error = some (error_class e);
}

effect_of : Option OracleResult → Option StateEffect
effect_of none = none
effect_of (some r) = r.matched_effect

unfoldable pub record_of : AgentTask → TaskExecution → Detection → Judged → BenchmarkRecord
unfolding effect_of
record_of task execution detection judged = record {
  agent = task.agent;
  task_id = task.id;
  kind = kind_value task.kind;
  category = task.category;
  strategy = task.strategy;
  task_completed = execution.task_completed;
  attack_success = attack_success execution;
  detector_hit = not_safe detection.verdict;
  detector_verdict = value detection.verdict;
  judge_positive = judged.positive;
  judge_verdict = judged.verdict;
  judge_mode = judged.mode;
  judge_error = judged.error;
  tool = execution.trace.tool_call.name;
  objective_reason = Option.map (λ (r : OracleResult). r.reason) execution.oracle;
  state_effect = effect_of execution.oracle;
}

module _ (detect_trace : Trace → Result Detection) (judge : LabJudge) where
  unfoldable pub benchmark_task : AgentTask → Result BenchmarkRecord
  benchmark_task task = do
    execution ← run_task task
    detection ← detect_trace execution.trace
    ok (record_of task execution detection (judged_of judge.mode (judge.judge execution.trace)))

  unfoldable pub benchmark_tasks : List AgentTask → Result (List BenchmarkRecord)
  benchmark_tasks [] = ok []
  benchmark_tasks (task ∷ tasks) = do
    r ← benchmark_task task
    records ← benchmark_tasks tasks
    ok (r ∷ records)

  -- `evaluate_task_benchmark`
  unfoldable pub evaluate_task_benchmark : List AgentTaskSuite → Result (List BenchmarkRecord)
  evaluate_task_benchmark [] = ok []
  evaluate_task_benchmark (s ∷ suites) = do
    own ← benchmark_tasks (s.benign_tasks ++ s.attack_tasks)
    records ← evaluate_task_benchmark suites
    ok (own ++ records)
