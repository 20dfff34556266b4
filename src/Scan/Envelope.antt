-- ===== src/Scan/Envelope.antt =====
-- scan.py: what a finding counts.
use ai_agent_security_lab.Prelude.{
  err, ap, ◌∙◌, ok-bind, ok-injective, length-take-le, ℕ, zero, suc, ◌≤◌, ◌≡◌, refl, inl, inr, List,
  Option, none, some, Text, length, Result, ok, Option-cases, Bool-cases, arith, leb, All, ◌&&◌,
  text,
}
use ai_agent_security_lab.Values.{Json, null, boolean, number, string, array, object, Fields, get}
use ai_agent_security_lab.Datatypes.{Trace}
use ai_agent_security_lab.Scan.Tables.{severity_of_attack}
use ai_agent_security_lab.Detector.{Detection}
use ai_agent_security_lab.Target.{TargetAgent, run}
use ai_agent_security_lab.Attacks.{Scenario}
use ai_agent_security_lab.Scan.{
  Tally, tally, payload_for, Finding, finding_of, finding_title, entry, entry_of, scan_resolved,
  scan_scenario, scan_payload, resolve_scenario, resolve_target, resolve_iterations, in_range,
  iterations_of,
}

-- Neither count passes the number of iterations.
tally-bounded :
    (detect_trace : Trace → Result Detection) (target : TargetAgent) (s : Scenario) (n : ℕ)
    (t : Tally)
    → tally detect_trace target s n ≡ ok t
    → (t.successes ≤ n) × (length t.detections ≤ n)
unfolding tally
tally-bounded detect_trace target s zero t e = rw (← ok-injective _ t e) (omega arith, omega arith)
tally-bounded detect_trace target s (suc n) t e =
    let (p, _, e1) = ok-bind (payload_for target s) _ t e in
    let (d, _, e2) = ok-bind (detect_trace (run target p s.name s.category)) _ t e1 in
    let (rest, h, e3) = ok-bind (tally detect_trace target s n) _ t e2 in
    let (a, b) = tally-bounded detect_trace target s n rest h in
    rw (← ok-injective _ t e3) (ground (arith, a), ground (arith, b))

-- The numbers of a finding agree with each other.
abbrev pub Bounded : Finding → Type 0
Bounded x =
    (1 ≤ x.detector_hits)
    × (x.detector_hits ≤ x.iterations)
    × (x.attack_successes ≤ x.iterations)
    × (1 ≤ x.iterations)
    × (x.iterations ≤ 100)
    × (length x.evidence ≤ 3)

abbrev pub Envelope : List Finding → Type 0
Envelope findings = All Bounded findings × (length findings ≤ 1)

finding_of-Envelope :
    (target : TargetAgent) (attack : Text) (n : ℕ) (t : Tally) (findings : List Finding)
    → 1 ≤ n
    → n ≤ 100
    → t.successes ≤ n
    → length t.detections ≤ n
    → finding_of target attack n t ≡ ok findings
    → Envelope findings
unfolding finding_of
finding_of-Envelope target attack n t findings low high wins hits e =
    elim (Bool-cases (leb (length t.detections) 0)) [
      | inl f ↦ rw (← ok-injective _ findings (rw f at e)) (tt, omega arith)
      | inr f ↦
          let (_, _, e1) =
            ok-bind (entry_of (entry attack severity_of_attack)) _ findings (rw f at e) in
          let (_, _, e2) = ok-bind (finding_title target attack) _ findings e1 in
          let some_hits : 1 ≤ length t.detections = ground (arith, f) in
          rw (← ok-injective _ findings e2)
            (((some_hits, hits, wins, low, high, length-take-le 3 _), tt), omega arith)
    ]

in_range_lem : (m n : ℕ) → in_range m ≡ some n → (1 ≤ n) × (n ≤ 100)
unfolding in_range
in_range_lem m n e = elim (Bool-cases (leb 1 m && leb m 100)) [
  | inl f ↦
      let same : some m ≡ some n = rw f at e in (ground (arith, same, f), ground (arith, same, f))
  | inr f ↦ absurd (ground (arith, rw f at e))
]

iterations-in_range : (o : Result ℕ) (n : ℕ) → iterations_of o ≡ ok (some n) → (1 ≤ n) × (n ≤ 100)
unfolding iterations_of
iterations-in_range (ok m) n e = in_range_lem m n (ok-injective _ _ e)
iterations-in_range (err raised) n e = absurd (ground (arith, e))

pub resolved-in_range :
    (int : Json → Result ℕ) (v : Option Json) (n : ℕ)
    → resolve_iterations int v ≡ ok (some n)
    → (1 ≤ n) × (n ≤ 100)
unfolding resolve_iterations
resolved-in_range int none n e = (ground (arith, e), ground (arith, e))
resolved-in_range int (some (boolean v)) n e = cc
resolved-in_range int (some null) n e = iterations-in_range (int null) n e
resolved-in_range int (some (number v)) n e = iterations-in_range (int (number v)) n e
resolved-in_range int (some (string v)) n e = iterations-in_range (int (string v)) n e
resolved-in_range int (some (array v)) n e = iterations-in_range (int (array v)) n e
resolved-in_range int (some (object v)) n e = iterations-in_range (int (object v)) n e

scan_resolved-Envelope :
    (detect_trace : Trace → Result Detection) (scenarios : List Scenario)
    (target : Option TargetAgent) (attack : Option Text) (iterations : Option ℕ)
    (findings : List Finding)
    → ((n : ℕ) → iterations ≡ some n → (1 ≤ n) × (n ≤ 100))
    → scan_resolved detect_trace scenarios target attack iterations ≡ ok findings
    → Envelope findings
unfolding scan_resolved scan_scenario
scan_resolved-Envelope detect_trace scenarios (some target) (some attack) (some n) findings h e =
    elim (Option-cases (resolve_scenario scenarios attack)) [
      | inl f ↦ rw (← ok-injective _ findings (rw f at e)) (tt, omega arith)
      | inr (s, f) ↦
          let (t, g, e1) = ok-bind (tally detect_trace target s n) _ findings (rw f at e) in
          let (wins, hits) = tally-bounded detect_trace target s n t g in
          let (low, high) = h n refl in
          finding_of-Envelope target attack n t findings low high wins hits e1
    ]
scan_resolved-Envelope detect_trace scenarios none attack iterations findings h e =
    rw (← ok-injective _ findings e) (tt, omega arith)
scan_resolved-Envelope detect_trace scenarios (some target) none iterations findings h e =
    rw (← ok-injective _ findings e) (tt, omega arith)
scan_resolved-Envelope detect_trace scenarios (some target) (some attack) none findings h e =
    rw (← ok-injective _ findings e) (tt, omega arith)

-- A request gives at most one finding, whose counts are within its iterations, of which there are 1 to
-- 100, and which quotes at most three pieces of evidence.
pub scan-Envelope :
    (int : Json → Result ℕ) (detect_trace : Trace → Result Detection) (scenarios : List Scenario)
    (payload : Fields) (findings : List Finding)
    → scan_payload detect_trace int scenarios payload ≡ ok findings
    → Envelope findings
unfolding scan_payload
scan-Envelope int detect_trace scenarios payload findings e =
    let (target, _, e1) = ok-bind (resolve_target (get (text "agent") payload)) _ findings e in
    let (iterations, f, e2) =
      ok-bind (resolve_iterations int (get (text "iterations") payload)) _ findings e1 in
    scan_resolved-Envelope detect_trace scenarios target _ iterations findings
      (λ n same. resolved-in_range int (get (text "iterations") payload) n (f ∙ ap ok same)) e2
