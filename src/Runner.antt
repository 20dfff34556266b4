-- ===== src/Runner.antt =====
-- runner.py: scenarios, and the iterations of a technique of the registry. The samples that the
-- random generator draws, each an order of the variants, are an argument.
pub mod Iterations
mod Examples
use ai_agent_security_lab.Prelude.{
  ℕ, zero, suc, ◌+◌, ◌&&◌, ◌||◌, not, Bool, true, false, List, [], ◌∷◌, ◌++◌, map, Option, none,
  some, Text, text, text_eq, length, take, leb, ltb, ◌==◌, if◌then◌else◌, Result, ok, err,
  value_error, key_error, Error, raise_if, ◌>>=◌, ◌>>◌, select, any, is_some,
}
use ai_agent_security_lab.Datatypes.{Trace, Verdict, safe}
use ai_agent_security_lab.Values.{Json}
use ai_agent_security_lab.Target.{TargetAgent, run}
use ai_agent_security_lab.Target.Registry.{resolve_agent, legacy_agent}
use ai_agent_security_lab.Attacks.{Scenario}
use ai_agent_security_lab.Attacks.Scenarios.{built_in_scenarios}
use ai_agent_security_lab.Detector.{Detection}
use ai_agent_security_lab.Detector.Fusion.{Detector, LlmDetector, Reply, detect, is_detected}
use ai_agent_security_lab.Atlas.Registry.{AtlasTactic, Registry, get_tactic}
use ai_agent_security_lab.Judge.{Float, JudgeResult}

pub record RunResult : Type 0 where
  pub scenario_name : Text
  pub category : Text
  pub trace : Trace
  pub detection : Detection
  pub expected_detection : Verdict
  pub detected : Bool

pub record Runner : Type 0 where
  pub target : TargetAgent
  pub detector : Detector

module _ (loads : Text → Option Json) where
  -- `Runner.run_scenario`
  unfoldable pub run_scenario : Runner → Scenario → Result RunResult
  run_scenario runner scenario =
      let trace = run runner.target scenario.payload scenario.name scenario.category in
      do
        detection ← detect loads runner.detector trace
        ok (record {
          scenario_name = scenario.name;
          category = scenario.category;
          trace = trace;
          detection = detection;
          expected_detection = scenario.expected_detection;
          detected = is_detected detection scenario.expected_detection;
        })

  -- `Runner.run_all`
  unfoldable pub run_all : Runner → List Scenario → Result (List RunResult)
  run_all runner [] = ok []
  run_all runner (s ∷ scenarios) = do
    result ← run_scenario runner s
    results ← run_all runner scenarios
    ok (result ∷ results)

  -- `run_demo`
  unfoldable pub run_demo : Option (Trace → Result Reply) → Result (List RunResult)
  unfolding run_all run_scenario text
  run_demo router =
      run_all
        (record {
          target = legacy_agent;
          detector = record {
            heuristic = text "heuristic";
            llm = some (record { name = text "llm"; router = router });
          };
        })
        built_in_scenarios

-- The loop that selects payloads: `draws k` is the k-th sample of the generator.
unfoldable pub select_payloads :
    (draws : ℕ → List Text) (iterations fuel k : ℕ) (selected : List Text) → List Text
select_payloads draws iterations zero k selected = selected
select_payloads draws iterations (suc fuel) k selected =
    let more = select_payloads draws iterations fuel (suc k) (selected ++ draws k) in
    if ltb (length selected) iterations then more else selected

-- `selected[:iterations]`; a round for each iteration is enough
unfoldable pub selected_payloads : (ℕ → List Text) → ℕ → List Text
selected_payloads draws iterations =
    take iterations (select_payloads draws iterations iterations 0 [])

pub record AtlasIterationRecord : Type 0 where
  pub iteration : ℕ
  pub payload_index : ℕ
  pub payload : Text
  pub trace : Trace
  pub judge : Result JudgeResult

pub record AtlasRun : Type 0 where
  pub tactic : AtlasTactic
  pub agent : Text
  pub records : List AtlasIterationRecord
  pub seed : Option ℕ

-- `tactic.payloads.index(payload)`, of a payload that is in the list
index_of : Text → List Text → ℕ
index_of payload [] = 0
index_of payload (p ∷ payloads) =
    let rest = suc (index_of payload payloads) in if text_eq p payload then 0 else rest

-- the loop over the selected payloads; an exception of the judge is kept in its record
unfoldable pub iterate :
    AtlasTactic
    → TargetAgent
    → (Trace → Result JudgeResult)
    → ℕ
    → List Text
    → List AtlasIterationRecord
unfolding index_of
iterate tactic target judge iteration [] = []
iterate tactic target judge iteration (payload ∷ payloads) =
    let trace = run target payload tactic.id (text "mitre_atlas") in
    record {
      iteration = iteration;
      payload_index = index_of payload tactic.payloads;
      payload = payload;
      trace = trace;
      judge = judge trace;
    }
    ∷ iterate tactic target judge (suc iteration) payloads

target_or_error : Option TargetAgent → Result TargetAgent
target_or_error none = err (key_error "Unknown lab agent")
target_or_error (some target) = ok target

-- `_get_atlas_target`
unfoldable pub get_atlas_target : Text → Result TargetAgent
unfolding target_or_error
get_atlas_target agent = do target ← resolve_agent agent; target_or_error target

-- `run_atlas_tactic`: `rng` tells whether a generator is passed, whose samples are `draws`
unfoldable pub run_atlas_tactic :
    Registry
    → Text
    → Text
    → ℕ
    → (Trace → Result JudgeResult)
    → (rng : Bool) → (seed : Option ℕ) → (ℕ → List Text)
    → Result AtlasRun
run_atlas_tactic registry tactic_id agent iterations judge rng seed draws = do
  raise_if (not (leb 1 iterations && leb iterations 100))
      (value_error "iterations must be between 1 and 100")
  raise_if (rng && is_some seed) (value_error "pass either rng or seed, not both")
  tactic ← get_tactic tactic_id registry
  target ← get_atlas_target agent
  ok (record {
    tactic = tactic;
    agent = agent;
    records = iterate tactic target judge 1 (selected_payloads draws iterations);
    seed = seed;
  })

-- What a finding of an iteration tells; its identifier and its texts are left out.
pub record AtlasFinding : Type 0 where
  pub severity : Text
  pub confidence : Float
  pub title : Text
  pub evidence : List Text
  pub tags : List Text
  pub attack : Text
  pub agent : Text
  pub iteration : ℕ
  pub payload_variant : ℕ
  pub judge : JudgeResult
  pub mitre_url : Text

-- The envelope; an error is told by the number of its iteration and its exception.
pub record AtlasEnvelope : Type 0 where
  pub findings : List AtlasFinding
  pub errors : List (ℕ × Error)
  pub attack_id : Text
  pub agent : Text
  pub iterations : ℕ
  pub judge_modes : List Text
  pub seed : Option ℕ

atlas_finding : AtlasRun → AtlasIterationRecord → JudgeResult → AtlasFinding
atlas_finding run' r judge = record {
  severity = run'.tactic.severity_default;
  confidence = judge.confidence;
  title = run'.tactic.id ++ text " - " ++ run'.tactic.name;
  evidence = judge.reason ∷ [];
  tags = text "mitre-atlas" ∷ run'.tactic.id ∷ [];
  attack = run'.tactic.id;
  agent = run'.agent;
  iteration = r.iteration;
  payload_variant = r.payload_index;
  judge = judge;
  mitre_url = run'.tactic.mitre_url;
}

unfoldable pub findings_of : AtlasRun → List AtlasIterationRecord → List AtlasFinding
unfolding atlas_finding
findings_of run' [] = []
findings_of run' (r ∷ records) =
    let rest = findings_of run' records in
    elim r.judge [
      | ok judge ↦ elim judge.verdict [ safe ↦ rest | _ ↦ atlas_finding run' r judge ∷ rest ]
      | err _ ↦ rest
    ]

unfoldable pub errors_of : List AtlasIterationRecord → List (ℕ × Error)
errors_of [] = []
errors_of (r ∷ records) =
    let rest = errors_of records in elim r.judge [ ok _ ↦ rest | err e ↦ (r.iteration, e) ∷ rest ]

unfoldable pub judge_modes_of : List AtlasIterationRecord → List Text
judge_modes_of [] = []
judge_modes_of (r ∷ records) =
    let rest = judge_modes_of records in
    elim r.judge [ ok judge ↦ judge.mode ∷ rest | err _ ↦ rest ]

-- `atlas_run_to_envelope`, with the modes of every judgement
unfoldable pub atlas_run_to_envelope : AtlasRun → AtlasEnvelope
atlas_run_to_envelope run' = record {
  findings = findings_of run' run'.records;
  errors = errors_of run'.records;
  attack_id = run'.tactic.id;
  agent = run'.agent;
  iterations = length run'.records;
  judge_modes = judge_modes_of run'.records;
  seed = run'.seed;
}
