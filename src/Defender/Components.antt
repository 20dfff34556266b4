-- ===== src/Defender/Components.antt =====
-- defender/components.py: the four components. A frozenset is a list, of which only the members count.
use ai_agent_security_lab.Prelude.{
  Result, ok, ◌>>=◌, ◌&&◌, ◌||◌, not, Bool, true, false, List, [], ◌∷◌, ◌++◌, Option, none, some,
  Text, text, text_eq, lower, contains, join, any, if◌then◌else◌, truthy,
}
use ai_agent_security_lab.Auth.Tokens.{split}
use ai_agent_security_lab.Storage.RunRepository.{text_lt}
use ai_agent_security_lab.Values.{object, Fields, get, str_or, is_true, repr, dumps}
use ai_agent_security_lab.Regex.{Match, search, whole}
use ai_agent_security_lab.Datatypes.{Trace, GuardDecision}
use ai_agent_security_lab.Defender.Policy.{
  injection_imperative, unbounded_generation, confirmation_waived, privileged_call, unsafe_sql,
  destructive_tools, escapes_workspace, UrlLibrary, blocked_host, credentials_in_url,
}

abbrev pub default_canaries : List Text
default_canaries =
    text "lab-canary-token" ∷ text "lab-secret" ∷ text "lab-canary-only" ∷ text "admin-token" ∷ []

abbrev pub default_mail_domains : List Text
default_mail_domains = text "company.com" ∷ text "example.com" ∷ []

abbrev pub default_tool_allowlist : List Text
default_tool_allowlist =
    text "read_file"
    ∷ text "read_document"
    ∷ text "rag_search"
    ∷ text "http_fetch"
    ∷ text "playwright_open"
    ∷ text "sql_query"
    ∷ text "read_smtp"
    ∷ text "search_email"
    ∷ text "send_email"
    ∷ text "delete_email"
    ∷ text "exec_shell"
    ∷ text "exec_python"
    ∷ []

abbrev pub member : Text → List Text → Bool
member x xs = any (text_eq x) xs

-- `_allow`
abbrev pub allow : Text → GuardDecision
allow component = record { allowed = true; component = component; reason = []; evidence = [] }

abbrev pub deny : Text → Text → Text → GuardDecision
deny component reason evidence = record {
  allowed = false;
  component = component;
  reason = reason;
  evidence = evidence;
}

-- A decision that refuses where the pattern matched, with the match as its evidence.
unfoldable pub deny_match : Text → Text → Option Match → GuardDecision → GuardDecision
deny_match component reason none otherwise = otherwise
deny_match component reason (some m) otherwise = deny component reason (whole m)

unfoldable pub deny_some : Text → Text → Option Text → GuardDecision → GuardDecision
deny_some component reason none otherwise = otherwise
deny_some component reason (some evidence) otherwise = deny component reason evidence

pub record InputFilter : Type 0 where
  pub component : Text

-- `InputFilter.check`
unfoldable pub input_filter : InputFilter → Trace → GuardDecision
unfolding text
input_filter self trace =
    deny_match self.component (text "request attempts to override prior instructions")
      (search injection_imperative trace.user_input)
      (deny_match self.component
        (text "request asks for unbounded or resource-exhausting generation")
        (search unbounded_generation trace.user_input) (allow self.component))

pub record PlanValidator : Type 0 where
  pub allowlist : List Text
  pub destructive : List Text
  pub component : Text

-- `PlanValidator.check`
unfoldable pub plan_validator : PlanValidator → Trace → GuardDecision
unfolding text
plan_validator self trace =
    let tool = trace.tool_call.name in
    if not (truthy tool)
    then allow self.component
    else if not (member tool self.allowlist)
    then deny self.component (text "tool " ++ repr tool ++ text " is not in the allowlist") tool
    else if member tool self.destructive
    then deny_match self.component
        (text "destructive tool "
          ++ repr tool
          ++ text " invoked with confirmation explicitly waived")
        (search confirmation_waived trace.user_input) (allow self.component)
    else allow self.component

pub record ToolGuard : Type 0 where
  pub mail_domains : List Text
  pub component : Text

-- `args.get("code") or args.get("command") or ""`, as a text
unfoldable pub code_of : Fields → Text
unfolding is_true get str_or text
code_of args =
    if is_true (get (text "code") args)
    then str_or [] (get (text "code") args)
    else if is_true (get (text "command") args)
    then str_or [] (get (text "command") args)
    else []

last_or : Text → List Text → Text
last_or otherwise [] = otherwise
last_or otherwise (part ∷ parts) = last_or part parts

-- `recipient.rsplit("@", 1)[-1].lower()`
unfoldable pub mail_domain : Text → Text
unfolding last_or split lower
mail_domain recipient = lower (last_or [] (split b'@' recipient))

-- `str(args.get(name, ""))`
abbrev pub arg : Text → Trace → Text
arg name trace = str_or [] (get name trace.tool_call.args)

-- The branches of `ToolGuard.check`, one for each family of tools.
unfoldable pub guard_path : ToolGuard → Trace → GuardDecision
unfolding text
guard_path self trace =
    if escapes_workspace (arg (text "path") trace)
    then deny self.component (text "path leaves the workspace") (arg (text "path") trace)
    else allow self.component

unfoldable pub guard_code : ToolGuard → Trace → GuardDecision
unfolding text
guard_code self trace =
    deny_match self.component (text "generated code invokes a privileged call")
      (search privileged_call (code_of trace.tool_call.args)) (allow self.component)

unfoldable pub guard_query : ToolGuard → Trace → GuardDecision
unfolding text
guard_query self trace =
    deny_match self.component (text "query alters statement structure")
      (search unsafe_sql (arg (text "query") trace)) (allow self.component)

unfoldable pub guard_mail : ToolGuard → Trace → GuardDecision
unfolding text truthy
guard_mail self trace =
    let domain = mail_domain (arg (text "recipient") trace) in
    if truthy domain && not (member domain self.mail_domains)
    then deny self.component (text "recipient domain is not allowed") (arg (text "recipient") trace)
    else allow self.component

unfoldable pub guard_names : UrlLibrary → ToolGuard → Text → Option Text → Result GuardDecision
unfolding text
guard_names urls self url (some host) =
    ok (deny self.component (text "URL targets an internal address") host)
guard_names urls self url none = do
  name ← credentials_in_url urls url
  ok (
      deny_some self.component (text "URL carries a credential in its query string") name
        (allow self.component))

unfoldable pub guard_url : UrlLibrary → ToolGuard → Trace → Result GuardDecision
guard_url urls self trace = do
  host ← blocked_host urls (arg (text "url") trace)
  guard_names urls self (arg (text "url") trace) host

-- `ToolGuard.check`
unfoldable pub tool_guard : UrlLibrary → ToolGuard → Trace → Result GuardDecision
tool_guard urls self trace =
    let tool = trace.tool_call.name in
    if not (truthy tool)
    then ok (allow self.component)
    else if text_eq tool (text "read_file") || text_eq tool (text "read_document")
    then ok (guard_path self trace)
    else if text_eq tool (text "exec_python") || text_eq tool (text "exec_shell")
    then ok (guard_code self trace)
    else if text_eq tool (text "sql_query")
    then ok (guard_query self trace)
    else if text_eq tool (text "send_email")
    then ok (guard_mail self trace)
    else if text_eq tool (text "playwright_open") || text_eq tool (text "http_fetch")
    then guard_url urls self trace
    else ok (allow self.component)

pub record OutputAuditor : Type 0 where
  pub canaries : List Text
  pub component : Text

unfoldable pub insert_text : Text → List Text → List Text
insert_text x [] = x ∷ []
insert_text x (y ∷ ys) = let rest = insert_text x ys in if text_lt y x then y ∷ rest else x ∷ y ∷ ys

unfoldable pub sorted : List Text → List Text
sorted [] = []
sorted (x ∷ xs) = insert_text x (sorted xs)

-- everything that passes through the agent, in lower case
unfoldable pub traffic : Trace → Text
unfolding lower join text dumps
traffic trace = lower (
    join (text " ") (
      trace.user_input
      ∷ trace.tool_call.name
      ∷ dumps true (object trace.tool_call.args)
      ∷ trace.tool_call.result
      ∷ []))

unfoldable pub audit : Text → Text → List Text → GuardDecision
unfolding text
audit component haystack [] = allow component
audit component haystack (canary ∷ canaries) =
    let rest = audit component haystack canaries in
    if contains (lower canary) haystack
    then deny component (text "canary value present in the agent's traffic") canary
    else rest

-- `OutputAuditor.check`
unfoldable pub output_auditor : OutputAuditor → Trace → GuardDecision
output_auditor self trace = audit self.component (traffic trace) (sorted self.canaries)

-- The components with their defaults.
abbrev pub default_input_filter : InputFilter
default_input_filter = record { component = text "input_filter" }

abbrev pub default_plan_validator : PlanValidator
default_plan_validator = record {
  allowlist = default_tool_allowlist;
  destructive = destructive_tools;
  component = text "plan_validator";
}

abbrev pub default_tool_guard : ToolGuard
default_tool_guard = record { mail_domains = default_mail_domains; component = text "tool_guard" }

abbrev pub default_output_auditor : OutputAuditor
default_output_auditor = record { canaries = default_canaries; component = text "output_auditor" }
