-- ===== src/Target.antt =====
-- target.py: the deterministic agents, which route a text to a tool.
pub mod Patterns
pub mod Registry
pub mod Offered
mod Examples
use mathlib.Core.Option
use ai_agent_security_lab.Prelude.{
  ℕ, ◌&&◌, ◌||◌, not, Bool, true, false, List, [], ◌∷◌, ◌++◌, map, Option, none, some, Text, text,
  text_eq, lower, strip, any, leb, ltb, if◌then◌else◌, truthy, first_where, Result, ok, err,
  key_error,
}
use ai_agent_security_lab.Values.{string, Fields, field, no_fields}
use ai_agent_security_lab.Datatypes.{Trace, ToolCall}
use ai_agent_security_lab.Regex.{
  Regex, Match, Group, search, found, whole, group_of, group_text, has_group, find_all,
}
use Patterns.{
  read_patterns, shell_patterns, http_patterns, playwright_patterns, sql_patterns, email_patterns,
  rag_patterns, document_patterns, python_patterns, url, post,
}

pub record TargetAgent : Type 0 where
  pub name : Text
  pub description : Text
  pub available_tools : List Text
  pub agent_type : Text
  pub api_name : Text

abbrev pub offers : TargetAgent → Text → Bool
offers agent tool = any (text_eq tool) agent.available_tools

-- The text of a group that took part in the match.
unfoldable pub text_or : Text → Option Text → Text
text_or otherwise none = otherwise
text_or otherwise (some s) = s

abbrev group_value : Text → Match → Text
group_value name m = text_or [] (group_text name m)

starts_inside : ℕ → Match → Bool
starts_inside start_at m = leb m.from.index start_at && ltb start_at m.to.index

inside_any : List Match → Option Group → Bool
unfolding starts_inside
inside_any urls none = false
inside_any urls (some g) = any (starts_inside g.start_at) urls

-- `_group_is_inside_url`
unfoldable pub group_is_inside_url : Text → Match → Text → Bool
unfolding inside_any find_all group_of
group_is_inside_url s m name = inside_any (find_all url s) (group_of name m)

unfoldable pub call_of : (Match → Option ToolCall) → Option Match → Option ToolCall
call_of call none = none
call_of call (some m) = call m

unfoldable pub or_call : Option ToolCall → Option ToolCall → Option ToolCall
or_call none rest = rest
or_call (some call) rest = some call

-- A loop over patterns: the first one whose match gives a call.
unfoldable pub first_call : (Regex → Match → Option ToolCall) → Text → List Regex → Option ToolCall
first_call call s [] = none
first_call call s (r ∷ patterns) =
    or_call (call_of (call r) (search r s)) (first_call call s patterns)

abbrev tool_call : Text → Fields → Text → ToolCall
tool_call name args result = record { name = name; args = args; result = result }

-- The call, where the agent offers its tool.
unfoldable pub if_offered : TargetAgent → ToolCall → Option ToolCall
if_offered agent call = if offers agent call.name then some call else none

abbrev one_arg : Text → Text → Fields
one_arg name value = field name (string value) no_fields

-- The nine steps of `_route`: the call of a match.
unfoldable pub playwright_call : TargetAgent → Text → Regex → Match → Option ToolCall
playwright_call agent s r m = if_offered agent (
    tool_call (text "playwright_open") (one_arg (text "url") (group_value (text "url") m))
      (text "[mock] Playwright opened " ++ group_value (text "url") m ++ text " (no real browser)"))

unfoldable pub http_call : TargetAgent → Text → Regex → Match → Option ToolCall
http_call agent s r m = if_offered agent (
    tool_call (text "http_fetch")
      (field (text "method") (string (if found post s then text "POST" else text "GET")) (
        field (text "url") (string (group_value (text "url") m))
          (field (text "body") (string s) no_fields)))
      (text "[mock] fetched " ++ group_value (text "url") m ++ text " (no real network)"))

unfoldable pub or_else_text : Text → Text → Text
unfolding truthy
or_else_text s otherwise = if truthy s then s else otherwise

unfoldable pub email_call : TargetAgent → Text → Regex → Match → Option ToolCall
email_call agent s r m =
    if has_group (text "message_id") r && offers agent (text "delete_email")
    then some (
        tool_call (text "delete_email")
          (one_arg (text "message_id") (group_value (text "message_id") m))
          (text "[mock] email deleted"))
    else if has_group (text "recipient") r && offers agent (text "send_email")
    then some (
        tool_call (text "send_email")
          (field (text "recipient") (string (group_value (text "recipient") m)) (
            field (text "body") (string (or_else_text (strip (group_value (text "body") m)) s))
              no_fields))
          (text "[mock] email sent"))
    else none

unfoldable pub sql_call : TargetAgent → Text → Regex → Match → Option ToolCall
sql_call agent s r m = if_offered agent (
    tool_call (text "sql_query") (one_arg (text "query") (strip (group_value (text "query") m)))
      (text "[mock] SQL query accepted"))

unfoldable pub rag_call : TargetAgent → Text → Regex → Match → Option ToolCall
rag_call agent s r m = if_offered agent (
    tool_call (text "rag_search") (one_arg (text "query") (strip (group_value (text "query") m)))
      (text "[mock] untrusted document returned"))

unfoldable pub document_call : TargetAgent → Text → Regex → Match → Option ToolCall
document_call agent s r m =
    if group_is_inside_url s m (text "path")
    then none
    else if_offered agent (
        tool_call (text "read_document") (one_arg (text "path") (group_value (text "path") m))
          (text "[mock] extracted untrusted text from " ++ group_value (text "path") m))

unfoldable pub python_call : TargetAgent → Text → Regex → Match → Option ToolCall
python_call agent s r m = if_offered agent (
    tool_call (text "exec_python") (one_arg (text "code") (strip (group_value (text "code") m)))
      (text "[mock] Python not executed"))

unfoldable pub shell_call : TargetAgent → Text → Regex → Match → Option ToolCall
shell_call agent s r m = if_offered agent (
    tool_call (text "exec_shell")
      (one_arg (text "command") (strip (or_else_text (group_value (text "cmd") m) (whole m))))
      (text "[mock] shell not executed"))

unfoldable pub read_call : TargetAgent → Text → Regex → Match → Option ToolCall
read_call agent s r m =
    if group_is_inside_url s m (text "path")
    then none
    else if_offered agent (
        tool_call (text "read_file") (one_arg (text "path") (group_value (text "path") m))
          (text "[mock] would read " ++ group_value (text "path") m))

-- The steps, with their patterns, in the order of the code.
abbrev pub steps : TargetAgent → Text → List (List Regex × (Regex → Match → Option ToolCall))
steps agent s =
    (playwright_patterns, playwright_call agent s)
    ∷ (http_patterns, http_call agent s)
    ∷ (email_patterns, email_call agent s)
    ∷ (sql_patterns, sql_call agent s)
    ∷ (rag_patterns, rag_call agent s)
    ∷ (document_patterns, document_call agent s)
    ∷ (python_patterns, python_call agent s)
    ∷ (shell_patterns, shell_call agent s)
    ∷ (read_patterns, read_call agent s)
    ∷ []

unfoldable pub no_call : ToolCall
unfolding text
no_call = record { name = []; args = no_fields; result = text "[mock] no tool matched" }

unfoldable pub call_or : ToolCall → Option ToolCall → ToolCall
call_or otherwise none = otherwise
call_or otherwise (some call) = call

unfoldable pub first_step : Text → List (List Regex × (Regex → Match → Option ToolCall)) → ToolCall
first_step s [] = no_call
first_step s ((patterns, call) ∷ rest) =
    let otherwise = first_step s rest in call_or otherwise (first_call call s patterns)

-- `TargetAgent._route`
unfoldable pub route : TargetAgent → Text → ToolCall
route agent s = first_step s (steps agent s)

-- `TargetAgent.run`
unfoldable pub run : TargetAgent → Text → Text → Text → Trace
run agent user_input scenario_name category = record {
  user_input = user_input;
  tool_call = route agent user_input;
  scenario_name = scenario_name;
  category = category;
}
