-- ===== src/Runner/Examples.antt =====
-- A run of a technique on concrete payloads.
use ai_agent_security_lab.Prelude.{
  false, some, ℕ, ◌≡◌, refl, List, [], ◌∷◌, Text, text, Result, ok, err, runtime_error, take,
  length, arith, text_eq, lower, strip, truthy,
}
use ai_agent_security_lab.Datatypes.{Trace}
use ai_agent_security_lab.Judge.{JudgeResult}
use ai_agent_security_lab.Atlas.Registry.{AtlasTactic, Registry, get_tactic, lookup, upper}
use ai_agent_security_lab.Target.Registry.{
  resolve_agent, agent_aliases, add_targets, set_alias, alias_of, get_target, named_target,
}
use ai_agent_security_lab.Runner.{AtlasRun, run_atlas_tactic, get_atlas_target}
use ai_agent_security_lab.Runner.Iterations.{samples, Covers, accepted_run-Covers}

abbrev variants : List Text
variants = text "[1]" ∷ text "[2]" ∷ text "[3]" ∷ text "[4]" ∷ text "[5]" ∷ []

abbrev tactic : AtlasTactic
tactic = record {
  id = text "AML.T0051";
  name = text "LLM Prompt Injection";
  description = text "Instructions in untrusted input";
  payloads = variants;
  severity_default = text "high";
  mitre_url = text "https://atlas.mitre.org/techniques/AML.T0051";
}

abbrev registry : Registry
registry = (text "AML.T0051", tactic) ∷ []

abbrev no_judge : Trace → Result JudgeResult
no_judge trace = err (runtime_error "offline")

abbrev draws : ℕ → List Text
draws k = variants

seven_iterations :
    (r : AtlasRun) × (run_atlas_tactic registry
        (text "aml.t0051")
        (text "sqli")
        7
        no_judge
        false
        (some 3)
        draws
      ≡ ok r)
unfolding run_atlas_tactic get_tactic lookup text_eq text upper strip get_atlas_target resolve_agent
    alias_of agent_aliases add_targets truthy set_alias lower get_target named_target
seven_iterations = (_, refl)

accepted_run-Covers_example :
    Covers seven_iterations.0.records 1 (take 7 (samples draws 0 7))
    × (length (take 7 (samples draws 0 7)) ≡ 7)
accepted_run-Covers_example =
    accepted_run-Covers registry (text "aml.t0051") (text "sqli") 7 no_judge false (some 3) draws
      seven_iterations.0 (λ k. omega arith) seven_iterations.1
