-- ===== src/Detector/Rules.antt =====
-- detector.py: the rules of the heuristic detector, and the severity of what they find.
mod Fragments
mod Prompts
mod Tools
mod Leaks
pub use Prompts.{
  ignore_previous, disregard_above, you_are_now, content_says_ignore, retrieved_override,
  history_override, role_override, scratchpad_override,
}
use Tools.{
  rm_rf, exec_shell_call, exec_shell_payload, sudo_privileged, delete_unconfirmed,
  tautology_or_drop, union_select, metadata_url, repeat_count, endless_output,
}
use Leaks.{
  post_sensitive, post_then_sensitive, evil_url, access_etc, etc_outbound, token_assigned,
  token_shipped, forward_smtp, exec_nested_shell, quoted_shell, exec_python_privileged,
  traversal_sensitive,
}
use ai_agent_security_lab.Prelude.{List, [], ◌∷◌, Text, text}
use ai_agent_security_lab.Regex.{Regex}
use ai_agent_security_lab.Regex.Notation.{◌⨾◌, ◌∣◌, lit, opt, some_of, visible}

-- `_HEURISTIC_RULES`
abbrev pub heuristic_rules : List (Text × Regex)
heuristic_rules =
    (text "prompt_injection", ignore_previous)
    ∷ (text "prompt_injection", disregard_above)
    ∷ (text "prompt_injection", you_are_now)
    ∷ (text "tool_misuse", rm_rf)
    ∷ (text "tool_misuse", exec_shell_call)
    ∷ (text "tool_misuse", exec_shell_payload)
    ∷ (text "tool_misuse", sudo_privileged)
    ∷ (text "tool_misuse", delete_unconfirmed)
    ∷ (text "data_exfiltration", post_sensitive)
    ∷ (text "data_exfiltration", post_then_sensitive)
    ∷ (text "data_exfiltration", evil_url)
    ∷ (text "data_exfiltration", access_etc)
    ∷ (text "data_exfiltration", etc_outbound)
    ∷ (text "indirect_prompt_injection", content_says_ignore)
    ∷ (text "token_theft", token_assigned)
    ∷ (text "token_theft", token_shipped)
    ∷ (text "shell_escape", exec_nested_shell)
    ∷ (text "shell_escape", quoted_shell)
    ∷ (text "sql_injection", tautology_or_drop)
    ∷ (text "sql_injection", union_select)
    ∷ (text "rag_poisoning", retrieved_override)
    ∷ (text "email_exfiltration", forward_smtp)
    ∷ (text "browser_ssrf", metadata_url)
    ∷ (text "code_act_privilege_escalation", exec_python_privileged)
    ∷ (text "path_traversal", traversal_sensitive)
    ∷ (text "memory_poison", history_override)
    ∷ (text "plan_hijack", role_override)
    ∷ (text "plan_hijack", scratchpad_override)
    ∷ (text "model_dos", repeat_count)
    ∷ (text "model_dos", endless_output)
    ∷ []

-- `_ATTACK_TYPE_TO_MODE`
abbrev pub attack_type_to_mode : List (Text × Text)
attack_type_to_mode =
    (text "prompt_injection", text "prompt_injection")
    ∷ (text "indirect_prompt_injection", text "prompt_injection")
    ∷ (text "rag_poisoning", text "prompt_injection")
    ∷ (text "memory_poison", text "prompt_injection")
    ∷ (text "plan_hijack", text "prompt_injection")
    ∷ (text "tool_misuse", text "tool_misuse")
    ∷ (text "sql_injection", text "tool_misuse")
    ∷ (text "browser_ssrf", text "tool_misuse")
    ∷ (text "model_dos", text "tool_misuse")
    ∷ (text "data_exfiltration", text "data_exfiltration")
    ∷ (text "token_theft", text "data_exfiltration")
    ∷ (text "email_exfiltration", text "data_exfiltration")
    ∷ (text "shell_escape", text "privilege_escalation")
    ∷ (text "path_traversal", text "privilege_escalation")
    ∷ (text "code_act_privilege_escalation", text "privilege_escalation")
    ∷ []

-- `_HIGH_SEVERITY`
abbrev pub high_severity : List Text
high_severity = text "rm -rf" ∷ text "evil.example.com" ∷ text "without confirmation" ∷ []

-- `_HIGH_SEVERITY_CATEGORIES`
abbrev pub high_severity_categories : List Text
high_severity_categories =
    text "indirect_prompt_injection"
    ∷ text "token_theft"
    ∷ text "shell_escape"
    ∷ text "sql_injection"
    ∷ text "rag_poisoning"
    ∷ text "browser_ssrf"
    ∷ text "email_exfiltration"
    ∷ text "code_act_privilege_escalation"
    ∷ text "path_traversal"
    ∷ text "memory_poison"
    ∷ text "plan_hijack"
    ∷ text "model_dos"
    ∷ []

-- `_SENSITIVE_PATH`
abbrev pub sensitive_path : Regex
sensitive_path = lit "/etc/" ⨾ (lit "passwd" ∣ lit "shadow" ∣ lit "hosts" ∣ lit "sudoers")

-- `_OUTBOUND_URL`
abbrev pub outbound_url : Regex
outbound_url = lit "http" ⨾ opt (lit "s") ⨾ lit "://" ⨾ some_of visible
