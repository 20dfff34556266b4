-- ===== src/Judge/Examples.antt =====
-- Runs of the judges on concrete replies.
use ai_agent_security_lab.Prelude.{◌≡◌, refl, Option, some, Text, text, Result, ok, false, []}
use ai_agent_security_lab.Values.{Json, object, field, no_fields, string}
use ai_agent_security_lab.Datatypes.{Trace}
use ai_agent_security_lab.Judge.{Float, finite, JudgeReply, router_judge}
use ai_agent_security_lab.Judge.Scan.{recovered_span, scan}
use ai_agent_security_lab.Judge.Range.{Judges, judgement-InRange}

braces_in_a_string :
    recovered_span (text "Sure: {\"reason\": \"use {} well\"} bye")
    ≡ some (text "{\"reason\": \"use {} well\"}")
unfolding recovered_span scan text
braces_in_a_string = refl

abbrev reply : JudgeReply
reply = record { content = some (text "I am very sure"); raw = no_fields }

abbrev simulation : Trace
simulation = record {
  user_input = text "simulate";
  tool_call = record { name = []; args = no_fields; result = [] };
  scenario_name = [];
  category = [];
}

abbrev loads : Text → Result Json
loads s = ok (object (field (text "confidence") (string (text "1.5")) no_fields))

-- every confidence is 3/2
abbrev float : Option Json → Result Float
float v = ok (finite false 3 1)

judgement-InRange_example :
    Judges loads float reply (router_judge loads float (λ trace. ok reply) simulation)
judgement-InRange_example = judgement-InRange loads float (λ trace. ok reply) simulation reply refl
