-- ===== src/Tasks.antt =====
-- task_suites.py: benign and attack tasks for the built-in agents, and their runner.
pub mod BuiltIn
pub mod Benchmark
pub mod Outcomes
mod Examples
use ai_agent_security_lab.Prelude.{
  ◌&&◌, ◌||◌, not, Bool, true, false, List, [], ◌∷◌, ◌++◌, Option, none, some, Text, text, text_eq,
  any, if◌then◌else◌, truthy, first_where, Result, ok, err, value_error, key_error, raise_if, ◌>>=◌,
  ◌>>◌,
}
use ai_agent_security_lab.Datatypes.{Trace}
use ai_agent_security_lab.Evaluation.Oracle.{OracleResult}
use ai_agent_security_lab.Evaluation.Effects.{evaluate_trace}
use ai_agent_security_lab.Target.{TargetAgent, run}
use ai_agent_security_lab.Target.Registry.{built_in_targets}

pub data TaskKind : Type 0 where
  benign attack : TaskKind

unfoldable pub kind_value : TaskKind → Text
kind_value benign = text "benign"
kind_value attack = text "attack"

abbrev pub is_attack_kind : TaskKind → Bool
is_attack_kind benign = false
is_attack_kind attack = true

pub record AgentTask : Type 0 where
  pub id : Text
  pub agent : Text
  pub kind : TaskKind
  pub input_text : Text
  pub expected_tool : Text
  pub category : Text
  pub strategy : Text

-- `AgentTask.__post_init__`
unfoldable pub agent_task : AgentTask → Result AgentTask
agent_task t = do
  raise_if (not (truthy t.id) || not (truthy t.agent))
      (value_error "task id and agent must not be empty")
  raise_if (not (truthy t.expected_tool)) (value_error "task expected_tool must not be empty")
  raise_if (is_attack_kind t.kind && text_eq t.category (text "benign"))
      (value_error "attack tasks require an attack category")
  ok t

pub record AgentTaskSuite : Type 0 where
  pub agent : Text
  pub benign_tasks : List AgentTask
  pub attack_tasks : List AgentTask

is_empty : List AgentTask → Bool
is_empty [] = true
is_empty (t ∷ tasks) = false

-- `AgentTaskSuite.__post_init__`
unfoldable pub agent_task_suite : AgentTaskSuite → Result AgentTaskSuite
unfolding is_empty
agent_task_suite s = do
  raise_if (is_empty s.benign_tasks || is_empty s.attack_tasks)
      (value_error "task suite requires benign and attack tasks")
  raise_if
      (any (λ (t : AgentTask). not (text_eq t.agent s.agent)) (s.benign_tasks ++ s.attack_tasks))
      (value_error "all tasks in a suite must target the suite agent")
  raise_if (any (λ (t : AgentTask). is_attack_kind t.kind) s.benign_tasks)
      (value_error "benign_tasks contains a non-benign task")
  raise_if (any (λ (t : AgentTask). not (is_attack_kind t.kind)) s.attack_tasks)
      (value_error "attack_tasks contains a non-attack task")
  ok s

pub record TaskExecution : Type 0 where
  pub task : AgentTask
  pub trace : Trace
  pub task_completed : Bool
  pub oracle : Option OracleResult

-- `TaskExecution.attack_success`
unfoldable pub attack_success : TaskExecution → Bool
attack_success e = elim e.oracle [ none ↦ false | some r ↦ r.success ]

pub record ControlRun : Type 0 where
  pub agent : Text
  pub control : TaskExecution
  pub attacked : TaskExecution

unfoldable pub utility_preserved : ControlRun → Bool
utility_preserved r = r.control.task_completed

-- `_AGENT_TO_TARGET_TYPE`
abbrev pub agent_to_target_type : List (Text × Text)
agent_to_target_type =
    (text "sql_assistant", text "sqli")
    ∷ (text "email_assistant", text "email")
    ∷ (text "file_rag", text "file_rag")
    ∷ (text "web_browser", text "web_browser")
    ∷ (text "code_act", text "code_act")
    ∷ []

typed_target : Option (Text × Text) → Result TargetAgent
typed_target none = err (key_error "Unknown task-suite agent")
typed_target (some (_, target_type)) =
    elim (first_where (λ (t : TargetAgent). text_eq t.agent_type target_type) built_in_targets) [
      | none ↦ err (key_error "no target of the type")
      | some target ↦ ok target
    ]

-- `_get_target`
unfoldable pub task_target : Text → Result TargetAgent
unfolding typed_target
task_target agent = typed_target (first_where (λ (k, v). text_eq k agent) agent_to_target_type)

-- The oracle judges the traces of attacks only.
unfoldable pub oracle_of : TaskKind → Trace → Result (Option OracleResult)
oracle_of benign trace = ok none
oracle_of attack trace = do result ← evaluate_trace trace; ok (some result)

-- `TaskSuiteRunner.run_task`
unfoldable pub run_task : AgentTask → Result TaskExecution
run_task task = do
  target ← task_target task.agent
  let trace = run target task.input_text task.id task.category
  oracle ← oracle_of task.kind trace
  ok (record {
    task = task;
    trace = trace;
    task_completed = text_eq trace.tool_call.name task.expected_tool;
    oracle = oracle;
  })

first_task : List AgentTask → Result AgentTask
first_task [] = err (key_error "tuple index out of range")
first_task (t ∷ tasks) = ok t

-- `TaskSuiteRunner.run_control_pair`
unfoldable pub run_control_pair : AgentTaskSuite → Result ControlRun
unfolding first_task
run_control_pair suite = do
  benign_task ← first_task suite.benign_tasks
  control ← run_task benign_task
  attack_task ← first_task suite.attack_tasks
  attacked ← run_task attack_task
  ok (record { agent = suite.agent; control = control; attacked = attacked })

-- `TaskSuiteRunner.run_all_control_pairs`, of the suites
unfoldable pub run_all_control_pairs : List AgentTaskSuite → Result (List ControlRun)
run_all_control_pairs [] = ok []
run_all_control_pairs (s ∷ suites) = do
  pair ← run_control_pair s
  pairs ← run_all_control_pairs suites
  ok (pair ∷ pairs)
