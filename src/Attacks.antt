-- ===== src/Attacks.antt =====
-- attacks.py: scenarios of attacks, and benign samples.
pub mod Scenarios
pub mod Benign
mod Examples
use ai_agent_security_lab.Prelude.{
  List, [], ◌∷◌, Option, none, some, Text, text, text_eq, if◌then◌else◌, Result, ok, err, key_error,
  Bool, first_where,
}
use ai_agent_security_lab.Datatypes.{Verdict}

pub record Scenario : Type 0 where
  pub name : Text
  pub category : Text
  pub payload : Text
  pub expected_detection : Verdict
  pub description : Text
  pub detector_modes : List Text

pub record BenignSample : Type 0 where
  pub name : Text
  pub payload : Text
  pub near_miss : Text
  pub description : Text

scenario_or : Text → List Scenario → Option Scenario → Result Scenario
scenario_or name scenarios (some s) = ok s
scenario_or name [] none = err (key_error "Unknown scenario")
scenario_or name (s ∷ scenarios) none =
    if text_eq name (text "demo") then ok s else err (key_error "Unknown scenario")

-- `get_scenario`, of the built-in scenarios: `demo` is the first one
unfoldable pub get_scenario : List Scenario → Text → Result Scenario
unfolding scenario_or
get_scenario scenarios name =
    scenario_or name scenarios (first_where (λ (s : Scenario). text_eq s.name name) scenarios)
