-- ===== src/Target/Registry.antt =====
-- target.py: the built-in agents, and their names.
use ai_agent_security_lab.Prelude.{
  List, [], ◌∷◌, Option, none, some, Text, text, text_eq, lower, strip, truthy, if◌then◌else◌,
  Result, ok, err, key_error,
}
use ai_agent_security_lab.Target.{TargetAgent}

abbrev target_of : Text → Text → Text → Text → List Text → TargetAgent
target_of agent_type api_name name description available_tools = record {
  name = name;
  description = description;
  available_tools = available_tools;
  agent_type = agent_type;
  api_name = api_name;
}

-- `TargetAgent()`
abbrev pub legacy_agent : TargetAgent
legacy_agent =
    target_of (text "legacy") [] (text "naive-file-agent")
      (text "PoC vulnerable agent: blindly routes user input to tools.")
      (text "read_file"
        ∷ text "read_document"
        ∷ text "rag_search"
        ∷ text "http_fetch"
        ∷ text "playwright_open"
        ∷ text "sql_query"
        ∷ text "read_smtp"
        ∷ text "search_email"
        ∷ text "send_email"
        ∷ text "delete_email"
        ∷ text "exec_shell"
        ∷ text "exec_python"
        ∷ [])

-- `_BUILT_IN_TARGETS`, and `built_in_targets`
abbrev pub built_in_targets : List TargetAgent
built_in_targets =
    target_of (text "sqli") (text "sql_assistant") (text "sqli-helper")
      (text "Vulnerable SQL helper: sends raw user text to the SQL tool.") (text "sql_query" ∷ [])
    ∷ target_of (text "email") (text "email_assistant") (text "email-assistant")
        (text "Vulnerable email assistant: trusts SMTP content and forwards secrets.")
        (text "read_smtp" ∷ text "search_email" ∷ text "send_email" ∷ text "delete_email" ∷ [])
    ∷ target_of (text "file_rag") (text "file_rag") (text "file-rag-agent")
        (text "Vulnerable file RAG agent: trusts DOCX/PDF text and unsafe paths.")
        (text "rag_search" ∷ text "read_document" ∷ text "read_file" ∷ [])
    ∷ target_of (text "web_browser") (text "web_browser") (text "web-browser-agent")
        (text "Vulnerable Playwright browser: treats page content as instructions.")
        (text "playwright_open" ∷ [])
    ∷ target_of (text "code_act") (text "code_act") (text "code-act-agent")
        (text "Vulnerable Code-Act agent: executes generated Python without approval.")
        (text "exec_python" ∷ [])
    ∷ []

unfoldable pub named_target : Text → List TargetAgent → Result TargetAgent
named_target name [] = err (key_error "Unknown target")
named_target name (target ∷ targets) =
    let rest = named_target name targets in if text_eq target.name name then ok target else rest

-- `get_target`
unfoldable pub get_target : Text → Result TargetAgent
get_target name = named_target name built_in_targets

abbrev pub Aliases : Type 0
Aliases = List (Text × Text)

-- `aliases[spelling.lower()] = name`, unless the spelling is empty
unfoldable pub set_alias : Text → Text → Aliases → Aliases
set_alias key name [] = (key, name) ∷ []
set_alias key name ((k, v) ∷ aliases) =
    let rest = set_alias key name aliases in
    if text_eq k key then (k, name) ∷ aliases else (k, v) ∷ rest

add_spelling : Text → Text → Aliases → Aliases
add_spelling spelling name aliases =
    if truthy spelling then set_alias (lower spelling) name aliases else aliases

unfoldable pub add_targets : List TargetAgent → Aliases → Aliases
unfolding add_spelling
add_targets [] aliases = aliases
add_targets (t ∷ targets) aliases = add_targets targets (
    add_spelling t.api_name t.name
      (add_spelling t.agent_type t.name (add_spelling t.name t.name aliases)))

-- `agent_aliases`
unfoldable pub agent_aliases : Aliases
agent_aliases = add_targets built_in_targets []

unfoldable pub alias_of : Text → Aliases → Option Text
alias_of key [] = none
alias_of key ((k, v) ∷ aliases) =
    let rest = alias_of key aliases in if text_eq k key then some v else rest

resolved : Option Text → Result (Option TargetAgent)
resolved none = ok none
resolved (some name) = elim (get_target name) [ err e ↦ err e | ok target ↦ ok (some target) ]

-- `resolve_agent` of a text; of another object it is none
unfoldable pub resolve_agent : Text → Result (Option TargetAgent)
unfolding resolved
resolve_agent value = resolved (alias_of (lower (strip value)) agent_aliases)

-- `external_agent_name`
unfoldable pub external_agent_name : TargetAgent → Text
external_agent_name target = if truthy target.api_name then target.api_name else target.name
