-- ===== src/Target/Offered.antt =====
-- What an agent routes to.
use ai_agent_security_lab.Prelude.{
  ◌≡◌, refl, ◌⊎◌, inl, inr, ◌&&◌, Bool, true, false, List, [], ◌∷◌, Option, none, some, Text, text,
  Bool-cases, if◌then◌else◌, All,
}
use ai_agent_security_lab.Datatypes.{ToolCall}
use ai_agent_security_lab.Regex.{Regex, Match, search, has_group}
use ai_agent_security_lab.Target.{
  TargetAgent, offers, first_call, call_of, or_call, call_or, if_offered, playwright_call,
  http_call, email_call, sql_call, rag_call, document_call, python_call, shell_call, read_call,
  group_is_inside_url, steps, first_step, route, no_call,
}

-- The call, if there is one, is of a tool that the agent offers.
abbrev Offered : TargetAgent → Option ToolCall → Type 0
Offered agent none = Unit
Offered agent (some call) = offers agent call.name ≡ true

if_offered-Offered : (agent : TargetAgent) (call : ToolCall) → Offered agent (if_offered agent call)
unfolding if_offered
if_offered-Offered agent call = elim (Bool-cases (offers agent call.name)) [
  | inl e ↦ rw e e
  | inr e ↦ rw e tt
]

outside_url-Offered :
    (agent : TargetAgent) (inside : Bool) (call : ToolCall)
    → Offered agent (if inside then none else if_offered agent call)
outside_url-Offered agent true call = tt
outside_url-Offered agent false call = if_offered-Offered agent call

abbrev AlwaysOffered : TargetAgent → (Regex → Match → Option ToolCall) → Type 0
AlwaysOffered agent call = (r : Regex) (m : Match) → Offered agent (call r m)

or_call-Offered :
    (agent : TargetAgent) (call rest : Option ToolCall)
    → Offered agent call
    → Offered agent rest
    → Offered agent (or_call call rest)
unfolding or_call
or_call-Offered agent none rest h g = g
or_call-Offered agent (some call) rest h g = h

call_of-Offered :
    (agent : TargetAgent) (call : Match → Option ToolCall) (o : Option Match)
    → ((m : Match) → Offered agent (call m))
    → Offered agent (call_of call o)
unfolding call_of
call_of-Offered agent call none h = tt
call_of-Offered agent call (some m) h = h m

first_call-Offered :
    (agent : TargetAgent) (call : Regex → Match → Option ToolCall) (s : Text)
    (patterns : List Regex)
    → AlwaysOffered agent call
    → Offered agent (first_call call s patterns)
unfolding first_call
first_call-Offered agent call s [] h = tt
first_call-Offered agent call s (r ∷ patterns) h =
    or_call-Offered agent (call_of (call r) (search r s)) (first_call call s patterns)
      (call_of-Offered agent (call r) (search r s) (h r))
      (first_call-Offered agent call s patterns h)

both-Offered :
    (agent : TargetAgent) (named : Bool) (call : ToolCall) (rest : Option ToolCall)
    → Offered agent rest
    → Offered agent (if named && offers agent call.name then some call else rest)
both-Offered agent false call rest h = h
both-Offered agent true call rest h = elim (Bool-cases (offers agent call.name)) [
  | inl e ↦ rw e e
  | inr e ↦ rw e h
]

email_call-Offered : (agent : TargetAgent) (s : Text) → AlwaysOffered agent (email_call agent s)
unfolding email_call
email_call-Offered agent s r m =
    both-Offered agent (has_group (text "message_id") r) _ _
      (both-Offered agent (has_group (text "recipient") r) _ none tt)

-- The steps of the router.
steps-Offered :
    (agent : TargetAgent) (s : Text) → All (λ step. AlwaysOffered agent step.1) (steps agent s)
unfolding playwright_call http_call sql_call rag_call document_call python_call shell_call read_call
steps-Offered agent s = (
  λ r m. if_offered-Offered agent _,
  (
    λ r m. if_offered-Offered agent _,
    (
      email_call-Offered agent s,
      (
        λ r m. if_offered-Offered agent _,
        (
          λ r m. if_offered-Offered agent _,
          (
            λ r m. outside_url-Offered agent (group_is_inside_url s m (text "path")) _,
            (
              λ r m. if_offered-Offered agent _,
              (
                λ r m. if_offered-Offered agent _,
                (λ r m. outside_url-Offered agent (group_is_inside_url s m (text "path")) _, tt),
              ),
            ),
          ),
        ),
      ),
    ),
  ),
)

call_or-Offered :
    (agent : TargetAgent) (otherwise : ToolCall) (call : Option ToolCall)
    → Offered agent call
    → (otherwise ≡ no_call) ⊎ (offers agent otherwise.name ≡ true)
    → (call_or otherwise call ≡ no_call) ⊎ (offers agent (call_or otherwise call).name ≡ true)
unfolding call_or
call_or-Offered agent otherwise none h g = g
call_or-Offered agent otherwise (some call) h g = inr h

first_step-Offered :
    (agent : TargetAgent) (s : Text) (xs : List (List Regex × (Regex → Match → Option ToolCall)))
    → All (λ step. AlwaysOffered agent step.1) xs
    → (first_step s xs ≡ no_call) ⊎ (offers agent (first_step s xs).name ≡ true)
unfolding first_step
first_step-Offered agent s [] h = inl refl
first_step-Offered agent s ((patterns, call) ∷ xs) h =
    call_or-Offered agent (first_step s xs) (first_call call s patterns)
      (first_call-Offered agent call s patterns h.0) (first_step-Offered agent s xs h.1)

-- An agent routes a text to no tool, or to one of the tools that it offers.
routed_tool_is_offered :
    (agent : TargetAgent) (s : Text)
    → (route agent s ≡ no_call) ⊎ (offers agent (route agent s).name ≡ true)
unfolding route
routed_tool_is_offered agent s = first_step-Offered agent s (steps agent s) (steps-Offered agent s)
