-- ===== src/Defender.antt =====
-- defender/pipeline.py: every component's decision on a trace. A component is its `check`.
pub mod Policy
pub mod Components
pub mod Containment
pub mod Obeys
mod Examples
use ai_agent_security_lab.Prelude.{
  Result, ok, err, ◌>>=◌, not, Bool, List, [], ◌∷◌, map, Option, Text, any, select, first_where,
}
use ai_agent_security_lab.Datatypes.{Trace, GuardDecision}
use Policy.{UrlLibrary}
use Components.{
  input_filter, plan_validator, tool_guard, output_auditor, default_input_filter,
  default_plan_validator, default_tool_guard, default_output_auditor,
}

pub record DefenseResult : Type 0 where
  pub trace : Trace
  pub decisions : List GuardDecision

abbrev pub refuses : GuardDecision → Bool
refuses decision = not decision.allowed

-- the properties of a result
unfoldable pub blocked : DefenseResult → Bool
blocked result = any refuses result.decisions

unfoldable pub blocked_by : DefenseResult → List Text
blocked_by result = map (λ (d : GuardDecision). d.component) (select refuses result.decisions)

unfoldable pub first_block : DefenseResult → Option GuardDecision
first_block result = first_where refuses result.decisions

abbrev pub GuardComponent : Type 0
GuardComponent = Trace → Result GuardDecision

-- `default_components`
abbrev pub default_components : UrlLibrary → List GuardComponent
default_components urls =
    (λ trace. ok (input_filter default_input_filter trace))
    ∷ (λ trace. ok (plan_validator default_plan_validator trace))
    ∷ tool_guard urls default_tool_guard
    ∷ (λ trace. ok (output_auditor default_output_auditor trace))
    ∷ []

unfoldable pub decisions_of : List GuardComponent → Trace → Result (List GuardDecision)
decisions_of [] trace = ok []
decisions_of (check ∷ components) trace = do
  decision ← check trace
  decisions ← decisions_of components trace
  ok (decision ∷ decisions)

-- `DefenderPipeline.evaluate`
unfoldable pub defend : List GuardComponent → Trace → Result DefenseResult
defend components trace = do
  decisions ← decisions_of components trace
  ok (record { trace = trace; decisions = decisions })

-- `DefenderPipeline.evaluate_all`
unfoldable pub defend_all : List GuardComponent → List Trace → Result (List DefenseResult)
defend_all components [] = ok []
defend_all components (trace ∷ traces) = do
  result ← defend components trace
  results ← defend_all components traces
  ok (result ∷ results)
