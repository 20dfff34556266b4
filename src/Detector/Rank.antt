-- ===== src/Detector/Rank.antt =====
-- The order of verdicts, along the loops of the heuristic detector.
use ai_agent_security_lab.Prelude.{
  ◌≤◌, ◌≡◌, refl, List, [], ◌∷◌, Text, Bool, true, false, inl, inr, Bool-cases, arith, lower,
  contains, any, text_eq, text_eq_iff,
}
use ai_agent_security_lab.Datatypes.{Verdict, safe, suspicious, malicious}
use ai_agent_security_lab.Detector.{
  verdict_rank, max_verdict, hits_verdict, groups_verdict, Groups, heuristic_verdict, one_of,
  has_key, bump, combo_injection_path, combo_exfil_outbound,
}
use ai_agent_security_lab.Detector.Rules.{high_severity, high_severity_categories}

infix 50 ◌⊑◌
abbrev pub ◌⊑◌ : Verdict → Verdict → Type 0
v ⊑ w = verdict_rank v ≤ verdict_rank w

pub max-left : (a b : Verdict) → a ⊑ max_verdict a b
unfolding max_verdict verdict_rank
max-left a b = ground arith

pub max-right : (a b : Verdict) → b ⊑ max_verdict a b
unfolding max_verdict verdict_rank
max-right a b = ground arith

-- The maximum is one of the two, so that it is the least upper bound.
pub max-least : (a b c : Verdict) → a ⊑ c → b ⊑ c → max_verdict a b ⊑ c
unfolding max_verdict verdict_rank
max-least a b c h g = ground arith

pub malicious_lem : (v : Verdict) → malicious ⊑ v → v ≡ malicious
unfolding verdict_rank
malicious_lem safe h = absurd (omega arith)
malicious_lem suspicious h = absurd (omega arith)
malicious_lem malicious h = refl

bump-⊑ : (b : Bool) (v : Verdict) → v ⊑ bump b v
bump-⊑ true v = max-left v malicious
bump-⊑ false v = omega arith

bump-malicious : (b : Bool) (v : Verdict) → b ≡ true → malicious ⊑ bump b v
bump-malicious true v h = max-right v malicious
bump-malicious false v h = cc

hits-⊑ : (hits : List Text) (v : Verdict) → v ⊑ hits_verdict hits v
unfolding hits_verdict
hits-⊑ [] v = omega arith
hits-⊑ (hit ∷ hits) v =
    let raised = bump (any (λ token. contains token (lower hit)) high_severity) v in
    omega (
      arith,
      bump-⊑ (any (λ token. contains token (lower hit)) high_severity) v,
      hits-⊑ hits raised,
    )

groups-⊑ : (groups : Groups) (v : Verdict) → v ⊑ groups_verdict groups v
unfolding groups_verdict
groups-⊑ [] v = omega arith
groups-⊑ ((category, hits) ∷ groups) v =
    let raised = bump (one_of high_severity_categories category) v in
    omega (
      arith,
      bump-⊑ (one_of high_severity_categories category) v,
      hits-⊑ hits raised,
      groups-⊑ groups (hits_verdict hits raised),
    )

-- A category of high severity makes the verdict malicious, wherever it stands.
groups-malicious :
    (category : Text) (groups : Groups) (v : Verdict)
    → one_of high_severity_categories category ≡ true
    → has_key category groups ≡ true
    → malicious ⊑ groups_verdict groups v
unfolding groups_verdict
groups-malicious category [] v h k = cc
groups-malicious category ((c, hits) ∷ groups) v h k =
    let severe = one_of high_severity_categories in
    let next = hits_verdict hits (bump (severe c) v) in
    elim (Bool-cases (text_eq c category)) [
      | inl e ↦
          let same = (text_eq_iff c category).0 e in
          let raised = bump-malicious (severe c) v (rw same h) in
          omega (arith, raised, hits-⊑ hits (bump (severe c) v), groups-⊑ groups next)
      | inr e ↦ groups-malicious category groups next h (rw e at k)
    ]

pub heuristic_verdict-suspicious :
    (groups : Groups) (hays : List Text) → suspicious ⊑ heuristic_verdict groups hays
unfolding heuristic_verdict
heuristic_verdict-suspicious groups hays =
    let v = groups_verdict groups suspicious in
    let w = bump (combo_injection_path groups hays) v in
    omega (
      arith,
      groups-⊑ groups suspicious,
      bump-⊑ (combo_injection_path groups hays) v,
      bump-⊑ (combo_exfil_outbound hays) w,
    )

pub heuristic_verdict-malicious :
    (category : Text) (groups : Groups) (hays : List Text)
    → one_of high_severity_categories category ≡ true
    → has_key category groups ≡ true
    → heuristic_verdict groups hays ≡ malicious
unfolding heuristic_verdict
heuristic_verdict-malicious category groups hays h k =
    let v = groups_verdict groups suspicious in
    let w = bump (combo_injection_path groups hays) v in
    malicious_lem _ (
      omega (
        arith,
        groups-malicious category groups suspicious h k,
        bump-⊑ (combo_injection_path groups hays) v,
        bump-⊑ (combo_exfil_outbound hays) w,
      ))
