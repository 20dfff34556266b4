-- ===== src/Target/Examples.antt =====
-- Runs of the agents on concrete texts.
use ai_agent_security_lab.Prelude.{◌≡◌, refl, text, text_eq, is_space, lower, strip, truthy}
use ai_agent_security_lab.Values.{string, field, no_fields}
use ai_agent_security_lab.Datatypes.{ToolCall}
use ai_agent_security_lab.Regex.Notation.{lit, word_or}
use ai_agent_security_lab.Regex.{search, group_text}
use ai_agent_security_lab.Target.{
  route, first_step, call_or, first_call, or_call, call_of, read_call, group_is_inside_url,
  if_offered, text_or,
}
use ai_agent_security_lab.Target.Registry.{
  legacy_agent, resolve_agent, agent_aliases, add_targets, set_alias, alias_of,
}

abbrev read_call_result : ToolCall
read_call_result = record {
  name = text "read_file";
  args = field (text "path") (string (text "../../etc/passwd")) no_fields;
  result = text "[mock] would read ../../etc/passwd";
}

read_is_routed : route legacy_agent (text "Please read ../../etc/passwd now") ≡ read_call_result
unfolding route first_step call_or first_call or_call call_of search text lit word_or read_call
    group_is_inside_url if_offered text_or group_text
read_is_routed = refl

alias_is_resolved : resolve_agent (text " SQL_Assistant ") ≡ resolve_agent (text "sqli-helper")
unfolding resolve_agent agent_aliases add_targets set_alias alias_of text text_eq lower strip
    is_space truthy
alias_is_resolved = refl
