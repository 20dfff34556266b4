-- ===== src/Defender/Obeys.antt =====
-- What a call that the pipeline does not block obeys.
use ai_agent_security_lab.Prelude.{
  ok, ok-injective, Result-split, ◌≡◌, inl, inr, ◌||◌, true, false, List, [], ◌∷◌, Text, text,
  text_eq, truthy, All, contains, lower, arith, Bool-cases, Option-cases,
}
use ai_agent_security_lab.Storage.RunRepository.{text_lt}
use ai_agent_security_lab.Regex.{Regex, search}
use ai_agent_security_lab.Regex.Occurrence.{Occurs, search-none}
use ai_agent_security_lab.Datatypes.{Trace, GuardDecision}
use ai_agent_security_lab.Defender.{
  DefenseResult, decisions_of, blocked, defend, default_components,
}
use ai_agent_security_lab.Defender.Policy.{
  UrlLibrary, injection_imperative, unbounded_generation, escapes_workspace,
}
use ai_agent_security_lab.Defender.Components.{
  InputFilter, PlanValidator, ToolGuard, input_filter, plan_validator, tool_guard, guard_path,
  output_auditor, deny_match, member, arg, audit, sorted, insert_text, traffic, default_canaries,
  default_tool_allowlist, default_input_filter, default_plan_validator, default_tool_guard,
  default_output_auditor,
}
use ai_agent_security_lab.Defender.Containment.{Contained, escapes_workspace_iff_Contained}

deny_match-allowed :
    (component reason : Text) (pattern : Regex) (s : Text) (otherwise : GuardDecision)
    → (deny_match component reason (search pattern s) otherwise).allowed ≡ true
    → (¬ Occurs pattern s) × (otherwise.allowed ≡ true)
unfolding deny_match
deny_match-allowed component reason pattern s otherwise h = elim (Option-cases (search pattern s)) [
  | inl e ↦ ((search-none pattern s).0 e, rw e at h)
  | inr (m, e) ↦ absurd (ground (arith, rw e at h))
]

insert_text-All {ℓ} :
    (P : Text → Type ℓ) (x : Text) (xs : List Text) → All P (insert_text x xs) → P x × All P xs
unfolding insert_text
insert_text-All P x [] h = h
insert_text-All P x (y ∷ ys) h = elim (Bool-cases (text_lt y x)) [
  | inl e ↦
      let g : All P (y ∷ insert_text x ys) = rw e at h in
      let (p, ps) = insert_text-All P x ys g.1 in (p, (g.0, ps))
  | inr e ↦ rw e at h
]

sorted-All {ℓ} : (P : Text → Type ℓ) (xs : List Text) → All P (sorted xs) → All P xs
unfolding sorted
sorted-All P [] h = tt
sorted-All P (x ∷ xs) h = let (p, ps) = insert_text-All P x (sorted xs) h in (p, sorted-All P xs ps)

audit-allowed :
    (component haystack : Text) (canaries : List Text)
    → (audit component haystack canaries).allowed ≡ true
    → All (λ canary. contains (lower canary) haystack ≡ false) canaries
unfolding audit
audit-allowed component haystack [] h = tt
audit-allowed component haystack (canary ∷ canaries) h =
    elim (Bool-cases (contains (lower canary) haystack)) [
      | inl e ↦ absurd (ground (arith, rw e at h))
      | inr e ↦ (e, audit-allowed component haystack canaries (rw e at h))
    ]

-- Every component allows what the pipeline does not block.
default-allows :
    (urls : UrlLibrary) (trace : Trace) (result : DefenseResult)
    → defend (default_components urls) trace ≡ ok result
    → blocked result ≡ false
    → ((input_filter default_input_filter trace).allowed ≡ true)
      × ((plan_validator default_plan_validator trace).allowed ≡ true)
      × ((d : GuardDecision) × (tool_guard urls default_tool_guard trace ≡ ok d)
          × (d.allowed ≡ true))
      × ((output_auditor default_output_auditor trace).allowed ≡ true)
unfolding defend decisions_of blocked
default-allows urls trace result e h =
    elim (Result-split (tool_guard urls default_tool_guard trace)) [
      | inr (raised, f) ↦ absurd (ground (arith, rw f at e))
      | inl (d, f) ↦
          let same = ok-injective _ result (rw f at e) in
          let open_decisions = rw (← same) at h in
          (
            ground (arith, open_decisions),
            ground (arith, open_decisions),
            (d, f, ground (arith, open_decisions)),
            ground (arith, open_decisions),
          )
    ]

-- What holds of every call that the pipeline does not block.
pub record Obeys (trace : Trace) : Type 0 where
  pub no_override : ¬ Occurs injection_imperative trace.user_input
  pub bounded : ¬ Occurs unbounded_generation trace.user_input
  pub permitted : member trace.tool_call.name default_tool_allowlist ≡ true
  pub no_canary : All (λ canary. contains (lower canary) (traffic trace) ≡ false) default_canaries

input_filter-allowed :
    (self : InputFilter) (trace : Trace)
    → (input_filter self trace).allowed ≡ true
    → (¬ Occurs injection_imperative trace.user_input)
      × (¬ Occurs unbounded_generation trace.user_input)
unfolding input_filter
input_filter-allowed self trace h =
    let (no_override, rest) = deny_match-allowed _ _ injection_imperative trace.user_input _ h in
    (no_override, (deny_match-allowed _ _ unbounded_generation trace.user_input _ rest).0)

plan_validator-allowed :
    (self : PlanValidator) (trace : Trace)
    → truthy trace.tool_call.name ≡ true
    → (plan_validator self trace).allowed ≡ true
    → member trace.tool_call.name self.allowlist ≡ true
unfolding plan_validator
plan_validator-allowed self trace visible h =
    elim (Bool-cases (member trace.tool_call.name self.allowlist)) [
      | inl e ↦ e
      | inr e ↦ absurd (ground (arith, h, e, visible))
    ]

tool_guard-contained :
    (urls : UrlLibrary) (self : ToolGuard) (trace : Trace)
    → truthy trace.tool_call.name ≡ true
    → (text_eq trace.tool_call.name (text "read_file")
        || text_eq trace.tool_call.name (text "read_document"))
      ≡ true
    → (d : GuardDecision) → tool_guard urls self trace ≡ ok d
    → d.allowed ≡ true
    → escapes_workspace (arg (text "path") trace) ≡ false
unfolding tool_guard guard_path
tool_guard-contained urls self trace visible reads d given h =
    elim (Bool-cases (escapes_workspace (arg (text "path") trace))) [
      | inl e ↦ absurd (ground (arith, given, h, e, reads, visible))
      | inr e ↦ e
    ]

-- A file is read with the default pipeline's consent only along a path that stays in the workspace,
-- by a tool of the allowlist, in a trace that neither overrides instructions nor asks for unbounded
-- output nor carries a planted secret.
pub unblocked_read-Obeys :
    (urls : UrlLibrary) (trace : Trace)
    → truthy trace.tool_call.name ≡ true
    → (text_eq trace.tool_call.name (text "read_file")
        || text_eq trace.tool_call.name (text "read_document"))
      ≡ true
    → truthy (arg (text "path") trace) ≡ true
    → (result : DefenseResult) → defend (default_components urls) trace ≡ ok result
    → blocked result ≡ false
    → Contained (arg (text "path") trace) × Obeys trace
unfolding output_auditor
unblocked_read-Obeys urls trace visible reads path result answered h =
    let (a, p, (d, given, t), o) = default-allows urls trace result answered h in
    let (no_override, bounded) = input_filter-allowed default_input_filter trace a in
    (
      (escapes_workspace_iff_Contained _ path).0
          (tool_guard-contained urls default_tool_guard trace visible reads d given t),
      record {
        no_override = no_override;
        bounded = bounded;
        permitted = plan_validator-allowed default_plan_validator trace visible p;
        no_canary =
            sorted-All _ default_canaries
              (audit-allowed _ (traffic trace) (sorted default_canaries) o);
      },
    )
