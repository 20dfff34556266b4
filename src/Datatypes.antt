-- ===== src/Datatypes.antt =====
-- datatypes.py: verdicts, traces, and what detectors and guards say of them.
-- A detection keeps of its `raw` data what the program reads again, the usage of tokens, apart.
use ai_agent_security_lab.Prelude.{Bool, Text, text}
use ai_agent_security_lab.Values.{Json, string, object, Fields, field, no_fields}

pub data Verdict : Type 0 where
  safe suspicious malicious : Verdict

-- `verdict.value`
unfoldable pub value : Verdict → Text
unfolding text
value safe = text "safe"
value suspicious = text "suspicious"
value malicious = text "malicious"

pub record ToolCall : Type 0 where
  pub name : Text
  pub args : Fields
  pub result : Text

pub record Trace : Type 0 where
  pub user_input : Text
  pub tool_call : ToolCall
  pub scenario_name : Text
  pub category : Text

-- `to_dict` of a tool call and of a trace
abbrev pub tool_call_to_dict : ToolCall → Json
tool_call_to_dict call = object (
    field (text "name") (string call.name) (
      field (text "args") (object call.args)
        (field (text "result") (string call.result) no_fields)))

abbrev pub trace_to_dict : Trace → Json
trace_to_dict trace = object (
    field (text "user_input") (string trace.user_input) (
      field (text "tool_call") (tool_call_to_dict trace.tool_call) (
        field (text "scenario_name") (string trace.scenario_name)
          (field (text "category") (string trace.category) no_fields))))

pub record GuardDecision : Type 0 where
  pub allowed : Bool
  pub component : Text
  pub reason : Text
  pub evidence : Text
