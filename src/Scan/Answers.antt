-- ===== src/Scan/Answers.antt =====
-- scan.py: that a scan answers, since the tables cover the built-in agents, attacks and scenarios.
use ai_agent_security_lab.Prelude.{
  false, ◌⊎◌, answer_of, ℕ, zero, suc, ◌≡◌, refl, ◌&&◌, Bool, true, all, List, [], ◌∷◌, Option,
  none, some, Text, text, text_eq, is_some, is_ok, Result, ok, err, Error, arith, Bool-cases,
  Option-cases, inl, inr, Result-split, lower, strip, truthy, leb, length, not,
}
use ai_agent_security_lab.Values.{Json, null, boolean, number, string, array, object, Fields, get}
use ai_agent_security_lab.Datatypes.{Trace}
use ai_agent_security_lab.Detector.{Detection}
use ai_agent_security_lab.Judge.{caught}
use ai_agent_security_lab.Target.{TargetAgent, run}
use ai_agent_security_lab.Target.Registry.{
  Aliases, built_in_targets, named_target, get_target, set_alias, add_targets, agent_aliases,
  alias_of, resolve_agent,
}
use ai_agent_security_lab.Attacks.{Scenario}
use ai_agent_security_lab.Attacks.Scenarios.{built_in_scenarios}
use ai_agent_security_lab.Scan.{
  resolve_scenario, entry, entry_of, resolve_target, resolve_attack, iterations_of, in_range,
  resolve_iterations, payload_for, Tally, tally, Finding, finding_title, finding_of, scan_scenario,
  scan_resolved, scan_payload,
}
use ai_agent_security_lab.Scan.Envelope.{Envelope, scan-Envelope}
use ai_agent_security_lab.Scan.Tables.{
  Table, attack_aliases, severity_of_attack, display_names, action_by_agent,
}

-- What holds of every value of a table holds of an entry.
entry-all :
    (p : Text → Bool) (key : Text) (table : Table) (v : Text)
    → all (λ (k, w). p w) table ≡ true
    → entry key table ≡ some v
    → p v ≡ true
unfolding entry
entry-all p key [] v h e = absurd (ground (arith, e))
entry-all p key ((k, w) ∷ table) v h e = elim (Bool-cases (text_eq k key)) [
  | inl same ↦ let found : some w ≡ some v = rw same at e in ground (arith, h, found)
  | inr other ↦ entry-all p key table v (ground (arith, h)) (rw other at e)
]

alias_of-all :
    (p : Text → Bool) (key : Text) (aliases : Aliases) (v : Text)
    → all (λ (k, w). p w) aliases ≡ true
    → alias_of key aliases ≡ some v
    → p v ≡ true
unfolding alias_of
alias_of-all p key [] v h e = absurd (ground (arith, e))
alias_of-all p key ((k, w) ∷ aliases) v h e = elim (Bool-cases (text_eq k key)) [
  | inl same ↦ let found : some w ≡ some v = rw same at e in ground (arith, h, found)
  | inr other ↦ alias_of-all p key aliases v (ground (arith, h)) (rw other at e)
]

named_target-all :
    (p : TargetAgent → Bool) (name : Text) (targets : List TargetAgent) (t : TargetAgent)
    → all p targets ≡ true
    → named_target name targets ≡ ok t
    → p t ≡ true
unfolding named_target
named_target-all p name [] t h e = absurd (ground (arith, e))
named_target-all p name (u ∷ targets) t h e = elim (Bool-cases (text_eq u.name name)) [
  | inl same ↦ let found : ok u ≡ ok t = rw same at e in ground (arith, h, found)
  | inr other ↦ named_target-all p name targets t (ground (arith, h)) (rw other at e)
]

-- Every alias is that of a built-in agent.
aliases_are_known : all (λ (k, name). is_ok (get_target name)) agent_aliases ≡ true
unfolding get_target named_target agent_aliases add_targets set_alias text text_eq truthy lower
aliases_are_known = refl

abbrev has_action : TargetAgent → Bool
has_action t = is_some (entry t.agent_type action_by_agent)

targets_have_actions : all has_action built_in_targets ≡ true
unfolding entry text text_eq
targets_have_actions = refl

abbrev has_texts : Text → Bool
has_texts attack = is_some (entry attack severity_of_attack) && is_some (entry attack display_names)

attacks_have_texts : all (λ (k, attack). has_texts attack) attack_aliases ≡ true
unfolding entry text text_eq
attacks_have_texts = refl

agent-answers :
    (s : Text)
    → (o : Option TargetAgent) × (resolve_agent s ≡ ok o)
      × ((t : TargetAgent) → o ≡ some t → has_action t ≡ true)
unfolding resolve_agent get_target named_target text_eq text
agent-answers s = elim (Option-cases (alias_of (lower (strip s)) agent_aliases)) [
  | inl f ↦ (none, rw f refl, λ t e. absurd (ground (arith, e)))
  | inr (name, f) ↦ elim (Result-split (get_target name)) [
    | inl (t, g) ↦ (
      some t,
      rw (f, g) refl,
      λ u e.
          let same : t ≡ u = ground (arith, e) in
          rw (← same) (named_target-all has_action name built_in_targets t targets_have_actions g),
    )
    | inr (raised, g) ↦
        let known =
          alias_of-all (λ name. is_ok (get_target name)) (lower (strip s)) agent_aliases name
            aliases_are_known f in
        absurd (ground (arith, rw g at known))
  ]
]

target-answers :
    (v : Option Json)
    → (o : Option TargetAgent) × (resolve_target v ≡ ok o)
      × ((t : TargetAgent) → o ≡ some t → has_action t ≡ true)
unfolding resolve_target
target-answers none = (none, refl, λ t e. absurd (ground (arith, e)))
target-answers (some (string s)) = agent-answers s
target-answers (some null) = (none, refl, λ t e. absurd (ground (arith, e)))
target-answers (some (boolean b)) = (none, refl, λ t e. absurd (ground (arith, e)))
target-answers (some (number n)) = (none, refl, λ t e. absurd (ground (arith, e)))
target-answers (some (array xs)) = (none, refl, λ t e. absurd (ground (arith, e)))
target-answers (some (object xs)) = (none, refl, λ t e. absurd (ground (arith, e)))

attack-texts :
    (v : Option Json) (attack : Text) → resolve_attack v ≡ some attack → has_texts attack ≡ true
unfolding resolve_attack
attack-texts none attack e = absurd (ground (arith, e))
attack-texts (some (string s)) attack e =
    entry-all has_texts (lower (strip s)) attack_aliases attack attacks_have_texts e
attack-texts (some null) attack e = absurd (ground (arith, e))
attack-texts (some (boolean b)) attack e = absurd (ground (arith, e))
attack-texts (some (number n)) attack e = absurd (ground (arith, e))
attack-texts (some (array xs)) attack e = absurd (ground (arith, e))
attack-texts (some (object xs)) attack e = absurd (ground (arith, e))

-- The number of iterations is read, or `int` raised an exception that is not caught.
abbrev Reads : (Json → Result ℕ) → Option Json → Result (Option ℕ) → Type 0
Reads int given r =
    ((o : Option ℕ) × (r ≡ ok o))
    ⊎ ((v : Json) × (e : Error) × (given ≡ some v)
        × (int v ≡ err e)
        × (caught e ≡ false)
        × (r ≡ err e))

iterations_of-Reads :
    (int : Json → Result ℕ) (v : Json) → Reads int (some v) (iterations_of (int v))
unfolding iterations_of
iterations_of-Reads int v = elim (Result-split (int v)) [
  | inl (n, f) ↦ inl (in_range n, rw f refl)
  | inr (e, f) ↦ elim (Bool-cases (caught e)) [
    | inl h ↦ inl (none, rw (f, h) refl)
    | inr h ↦ inr (v, e, refl, f, h, rw (f, h) refl)
  ]
]

iterations-Reads :
    (int : Json → Result ℕ) (v : Option Json) → Reads int v (resolve_iterations int v)
unfolding resolve_iterations
iterations-Reads int none = inl (some 1, refl)
iterations-Reads int (some (boolean b)) = inl (none, refl)
iterations-Reads int (some null) = iterations_of-Reads int null
iterations-Reads int (some (number n)) = iterations_of-Reads int (number n)
iterations-Reads int (some (string s)) = iterations_of-Reads int (string s)
iterations-Reads int (some (array xs)) = iterations_of-Reads int (array xs)
iterations-Reads int (some (object xs)) = iterations_of-Reads int (object xs)

entry_of-answers : (o : Option Text) → is_some o ≡ true → (v : Text) × (entry_of o ≡ ok v)
unfolding entry_of
entry_of-answers none h = absurd (ground (arith, h))
entry_of-answers (some v) h = (v, refl)

payload-answers :
    (t : TargetAgent) (s : Scenario) → has_action t ≡ true → is_ok (payload_for t s) ≡ true
unfolding payload_for
payload-answers t s h =
    let (action, g) = entry_of-answers (entry t.agent_type action_by_agent) h in
    elim (Bool-cases (not (text_eq s.category (text "indirect_prompt_injection")))) [
      | inl f ↦ rw f refl
      | inr f ↦ rw (f, g) refl
    ]

title-answers :
    (t : TargetAgent) (attack : Text)
    → has_texts attack ≡ true
    → is_ok (finding_title t attack) ≡ true
unfolding finding_title
title-answers t attack h =
    let (name, g) = entry_of-answers (entry attack display_names) (ground (arith, h)) in
    elim (Bool-cases
      (text_eq t.agent_type (text "sqli") && text_eq attack (text "indirect_prompt_injection"))) [
        | inl f ↦ rw f refl
        | inr f ↦ rw (f, g) refl
      ]

finding-answers :
    (t : TargetAgent) (attack : Text) (n : ℕ) (counts : Tally)
    → has_texts attack ≡ true
    → is_ok (finding_of t attack n counts) ≡ true
unfolding finding_of
finding-answers t attack n counts h =
    let (severity, f) = entry_of-answers (entry attack severity_of_attack) (ground (arith, h)) in
    let (title, g) = answer_of (finding_title t attack) (title-answers t attack h) in
    elim (Bool-cases (leb (length counts.detections) 0)) [
      | inl e ↦ rw e refl
      | inr e ↦ rw (e, f, g) refl
    ]

module _ (detect_trace : Trace → Result Detection)
    (detects : (trace : Trace) → (d : Detection) × (detect_trace trace ≡ ok d)) where
  tally-answers :
      (t : TargetAgent) (s : Scenario) (n : ℕ)
      → has_action t ≡ true
      → is_ok (tally detect_trace t s n) ≡ true
  unfolding tally
  tally-answers t s zero h = refl
  tally-answers t s (suc n) h =
      let (p, f) = answer_of (payload_for t s) (payload-answers t s h) in
      let (d, g) = detects (run t p s.name s.category) in
      let (rest, k) = answer_of (tally detect_trace t s n) (tally-answers t s n h) in
      rw (f, g, k) refl

  resolved-answers :
      (target : Option TargetAgent) (attack : Option Text) (iterations : Option ℕ)
      → ((t : TargetAgent) → target ≡ some t → has_action t ≡ true)
      → ((a : Text) → attack ≡ some a → has_texts a ≡ true)
      → is_ok (scan_resolved detect_trace built_in_scenarios target attack iterations) ≡ true
  unfolding scan_resolved scan_scenario
  resolved-answers none attack iterations h k = refl
  resolved-answers (some t) none iterations h k = refl
  resolved-answers (some t) (some attack) none h k = refl
  resolved-answers (some t) (some attack) (some n) h k =
      elim (Option-cases (resolve_scenario built_in_scenarios attack)) [
        | inl f ↦ rw f refl
        | inr (s, f) ↦
            let (counts, g) =
              answer_of (tally detect_trace t s n) (tally-answers t s n (h t refl)) in
            rw (f, g) (finding-answers t attack n counts (k attack refl))
      ]

  -- A scan answers with an envelope, or raises what `int` of the iterations raised, uncaught.
  abbrev pub Answers : (Json → Result ℕ) → Fields → Result (List Finding) → Type 0
  Answers int payload scan =
      ((findings : List Finding) × (scan ≡ ok findings) × Envelope findings)
      ⊎ ((v : Json) × (e : Error) × (get (text "iterations") payload ≡ some v)
          × (int v ≡ err e)
          × (caught e ≡ false)
          × (scan ≡ err e))

  -- With a detector that answers for every trace, a scan over the built-in scenarios raises nothing
  -- but an exception of `int` of the iterations that is neither a TypeError nor a ValueError,
  -- whatever the request holds. Else it gives at most one finding, whose counts are within its
  -- iterations, of which there are 1 to 100, and which quotes at most three pieces of evidence.
  pub scan-Answers :
      (int : Json → Result ℕ) (payload : Fields)
      → Answers int payload (scan_payload detect_trace int built_in_scenarios payload)
  unfolding scan_payload
  scan-Answers int payload =
      let (target, f, acts) = target-answers (get (text "agent") payload) in
      let attack = resolve_attack (get (text "attack") payload) in
      elim (iterations-Reads int (get (text "iterations") payload)) [
        | inr (v, e, given, raised, other, g) ↦ inr (v, e, given, raised, other, rw (f, g) refl)
        | inl (n, g) ↦
            let (findings, h) =
              answer_of (scan_resolved detect_trace built_in_scenarios target attack n) (
                resolved-answers target attack n acts
                  (attack-texts (get (text "attack") payload))) in
            let scanned : scan_payload detect_trace int built_in_scenarios payload ≡ ok findings =
              rw (f, g) h in
            inl (
              findings,
              scanned,
              scan-Envelope int detect_trace built_in_scenarios payload findings scanned,
            )
      ]
