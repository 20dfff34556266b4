-- ===== src/Defender/Examples.antt =====
-- Runs of the defender on concrete traces.
use ai_agent_security_lab.Prelude.{
  ok, ◌≡◌, refl, ◌↔◌, false, [], none, Text, text, text_eq, lower, truthy, starts_with, contains,
  is_space,
}
use ai_agent_security_lab.Values.{string, field, no_fields, get, str_or}
use ai_agent_security_lab.Storage.RunRepository.{text_lt}
use ai_agent_security_lab.Regex.{search, found}
use ai_agent_security_lab.Regex.Notation.{lit}
use ai_agent_security_lab.Datatypes.{Trace}
use ai_agent_security_lab.Defender.{
  DefenseResult, decisions_of, blocked, defend, default_components,
}
use ai_agent_security_lab.Defender.Policy.{
  UrlLibrary, escapes_workspace, normalised, has_drive, falls_out, posix_parts,
}
use ai_agent_security_lab.Defender.Components.{
  arg, input_filter, deny_match, plan_validator, tool_guard, guard_path, output_auditor, audit,
  sorted, insert_text, traffic,
}
use ai_agent_security_lab.Defender.Containment.{Contained, escapes_workspace_iff_Contained}
use ai_agent_security_lab.Defender.Obeys.{Obeys, unblocked_read-Obeys}

abbrev no_urls : UrlLibrary
no_urls = record { hostname = λ url. ok []; query_names = λ url. ok []; ip_address = λ host. none }

abbrev read_of : Text → Trace
read_of path = record {
  user_input = text "Please read the notes";
  tool_call = record {
    name = text "read_file";
    args = field (text "path") (string path) no_fields;
    result = text "[mock] would read";
  };
  scenario_name = [];
  category = [];
}

escapes_workspace_iff_Contained_example :
    (escapes_workspace (text "docs/../notes.txt") ≡ false) ↔ Contained (text "docs/../notes.txt")
unfolding text truthy
escapes_workspace_iff_Contained_example =
    escapes_workspace_iff_Contained (text "docs/../notes.txt") refl

notes_are_read :
    (result : DefenseResult) × (defend
        (default_components no_urls)
        (read_of (text "docs/notes.txt"))
      ≡ ok result)
    × (blocked result ≡ false)
unfolding blocked defend decisions_of input_filter deny_match search lit plan_validator truthy
    tool_guard guard_path escapes_workspace str_or get found starts_with normalised has_drive
    falls_out posix_parts text text_eq output_auditor audit sorted insert_text traffic contains
    lower is_space text_lt
notes_are_read = (_, refl, refl)

unblocked_read-Obeys_example :
    Contained (arg (text "path") (read_of (text "docs/notes.txt")))
    × Obeys (read_of (text "docs/notes.txt"))
unfolding text text_eq truthy str_or get
unblocked_read-Obeys_example =
    unblocked_read-Obeys no_urls (read_of (text "docs/notes.txt")) refl refl refl notes_are_read.0
      notes_are_read.1 notes_are_read.2
