-- ===== src/Scan/Explained.antt =====
-- scan.py: what `explain_empty_scan` tells of a scan.
use ai_agent_security_lab.Prelude.{
  ◌≤◌, ◌∙◌, ap, ℕ, ◌≡◌, refl, ◌⊎◌, ◌≢◌, inl, inr, List, [], ◌∷◌, ◌++◌, Option, none, some, Text,
  text, Result, ok, ok-bind, ok-injective, arith,
}
use ai_agent_security_lab.Values.{Json, Fields, get}
use ai_agent_security_lab.Datatypes.{Trace}
use ai_agent_security_lab.Detector.{Detection}
use ai_agent_security_lab.Target.{TargetAgent}
use ai_agent_security_lab.Attacks.{Scenario}
use ai_agent_security_lab.Scan.Envelope.{resolved-in_range}
use ai_agent_security_lab.Scan.{
  Reason, detector_safe, bad_iterations, scenario_reasons, agent_reasons, attack_reasons,
  iteration_reasons, reasons_or_safe, explain_empty_scan, resolve_target, resolve_attack,
  resolve_iterations, resolve_scenario, scan_resolved, scan_scenario, scan_payload,
}

-- The request resolves: to an agent, an attack with a scenario, and 1 to 100 iterations, which the
-- scan runs.
abbrev pub Runs : (Json → Result ℕ) → List Scenario → Fields → Type 0
Runs int scenarios payload =
    (t : TargetAgent) × (attack : Text) × (n : ℕ) × (s : Scenario) × (resolve_target
        (get (text "agent") payload)
      ≡ ok (some t))
    × (resolve_attack (get (text "attack") payload) ≡ some attack)
    × (resolve_iterations int (get (text "iterations") payload) ≡ ok (some n))
    × (resolve_scenario scenarios attack ≡ some s)
    × (1 ≤ n)
    × (n ≤ 100)
    × ((detect_trace : Trace → Result Detection)
        → scan_payload detect_trace int scenarios payload
          ≡ scan_scenario detect_trace t attack n (some s))

-- The scan has nothing to run.
abbrev pub Idle : (Json → Result ℕ) → List Scenario → Fields → Type 0
Idle int scenarios payload =
    (detect_trace : Trace → Result Detection)
    → scan_payload detect_trace int scenarios payload ≡ ok []

abbrev pub Explains : (Json → Result ℕ) → List Scenario → Fields → List Reason → Type 0
Explains int scenarios payload reasons =
    ((reasons ≡ detector_safe ∷ []) × Runs int scenarios payload)
    ⊎ ((reasons ≢ detector_safe ∷ []) × Idle int scenarios payload)

-- What the reasons of a request tell of its parts.
abbrev Told : List Scenario → Option TargetAgent → Option Text → Option ℕ → List Reason → Type 0
Told scenarios target attack iterations reasons =
    ((reasons ≡ detector_safe ∷ [])
      × ((t : TargetAgent) × (a : Text) × (n : ℕ) × (s : Scenario) × (target ≡ some t)
          × (attack ≡ some a)
          × (iterations ≡ some n)
          × (resolve_scenario scenarios a ≡ some s)))
    ⊎ ((reasons ≢ detector_safe ∷ [])
        × ((detect_trace : Trace → Result Detection)
            → scan_resolved detect_trace scenarios target attack iterations ≡ ok []))

scenario_reasons-cases :
    (o : Option Scenario)
    → ((reasons_or_safe (scenario_reasons o ++ []) ≡ detector_safe ∷ [])
        × ((s : Scenario) × (o ≡ some s)))
      ⊎ ((reasons_or_safe (scenario_reasons o ++ []) ≢ detector_safe ∷ []) × (o ≡ none))
unfolding reasons_or_safe scenario_reasons
scenario_reasons-cases none = inr (λ e. absurd (ground (arith, e)), refl)
scenario_reasons-cases (some s) = inl (refl, (s, refl))

not_safe_of_iterations :
    (o : Option Scenario)
    → reasons_or_safe (scenario_reasons o ++ (bad_iterations ∷ [])) ≢ detector_safe ∷ []
unfolding reasons_or_safe scenario_reasons
not_safe_of_iterations none e = absurd (ground (arith, e))
not_safe_of_iterations (some s) e = absurd (ground (arith, e))

reasons-Told :
    (scenarios : List Scenario) (target : Option TargetAgent) (attack : Option Text)
    (iterations : Option ℕ)
    → Told scenarios target attack iterations (
        reasons_or_safe (
          agent_reasons target
          ++ (attack_reasons scenarios attack ++ iteration_reasons iterations)))
unfolding reasons_or_safe agent_reasons attack_reasons iteration_reasons scan_resolved scan_scenario
reasons-Told scenarios none attack iterations = inr (λ e. absurd (ground (arith, e)), λ d. refl)
reasons-Told scenarios (some t) none iterations = inr (λ e. absurd (ground (arith, e)), λ d. refl)
reasons-Told scenarios (some t) (some attack) none =
    inr (not_safe_of_iterations (resolve_scenario scenarios attack), λ d. refl)
reasons-Told scenarios (some t) (some attack) (some n) =
    elim (scenario_reasons-cases (resolve_scenario scenarios attack)) [
      | inl (safe, (s, same)) ↦ inl (safe, (t, attack, n, s, refl, refl, refl, same))
      | inr (other, same) ↦ inr (other, λ d. rw same refl)
    ]

-- An explanation says that the inputs were valid exactly when the request resolves to an agent, to
-- an attack that has a scenario, and to 1 to 100 iterations, which the scan then runs; with any
-- other reasons the scan gives no finding, whatever the detector is.
pub explanation_lem :
    (int : Json → Result ℕ) (scenarios : List Scenario) (payload : Fields) (reasons : List Reason)
    → explain_empty_scan int scenarios payload ≡ ok reasons
    → Explains int scenarios payload reasons
unfolding explain_empty_scan scan_payload scan_resolved
explanation_lem int scenarios payload reasons e =
    let (target, f, e1) = ok-bind (resolve_target (get (text "agent") payload)) _ reasons e in
    let given = get (text "iterations") payload in
    let (iterations, g, e2) = ok-bind (resolve_iterations int given) _ reasons e1 in
    let attack = resolve_attack (get (text "attack") payload) in
    let told : Told scenarios target attack iterations reasons =
      rw (← ok-injective _ reasons e2) (reasons-Told scenarios target attack iterations) in
    elim told [
      | inl (safe, (t, a, n, s, x, y, z, found)) ↦
          let (low, high) = resolved-in_range int given n (g ∙ ap ok z) in
          inl (
            safe,
            (
              t,
              a,
              n,
              s,
              f ∙ ap ok x,
              y,
              g ∙ ap ok z,
              found,
              low,
              high,
              λ d. rw (f, g, x, y, z, found) refl,
            ),
          )
      | inr (other, idle) ↦ inr (other, λ d. rw (f, g) (idle d))
    ]
