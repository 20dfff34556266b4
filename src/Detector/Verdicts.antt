-- ===== src/Detector/Verdicts.antt =====
-- What the heuristic detector says, by the patterns that occur in a trace.
use ai_agent_security_lab.Prelude.{
  ◌≡◌, refl, ◌↔◌, List, [], ◌∷◌, Text, text, text_eq, text_eq_refl, Bool, true, false, inl, inr,
  Bool-cases, Option-cases, none, arith, All, if◌then◌else◌, is_some, Result, ok, subst, sym, ap,
  map, ◌∙◌,
}
use ai_agent_security_lab.Datatypes.{Verdict, safe, suspicious, malicious, Trace}
use ai_agent_security_lab.Regex.{Regex, search}
use ai_agent_security_lab.Regex.Decides.{Among}
use ai_agent_security_lab.Regex.Occurrence.{Occurs, search-none, search-some}
use ai_agent_security_lab.Detector.{
  Detection, Groups, verdict_rank, extend, has_key, one_of, haystacks, hit_or, first_hit, add_hit,
  match_rules, value_at, modes_of, heuristic_verdict, heuristic_detection, heuristic_detect,
}
use ai_agent_security_lab.Detector.Rules.{
  heuristic_rules, attack_type_to_mode, high_severity_categories,
}
use ai_agent_security_lab.Detector.Rank.{
  ◌⊑◌, heuristic_verdict-suspicious, heuristic_verdict-malicious,
}

-- No pattern of the list occurs in a haystack.
abbrev pub Quiet : List Text → List (Text × Regex) → Type 0
Quiet hays rules = All (λ (c, r). All (λ hay. ¬ Occurs r hay) hays) rules

first_hit-none :
    (r : Regex) (hays : List Text) → (first_hit r hays ≡ none) ↔ All (λ hay. ¬ Occurs r hay) hays
unfolding first_hit hit_or
first_hit-none r [] = (λ e. tt, λ h. refl)
first_hit-none r (hay ∷ hays) =
    let (there, back) = first_hit-none r hays in
    elim (Option-cases (search r hay)) [
      | inl e ↦ (λ h. ((search-none r hay).0 e, there (rw e at h)), λ h. rw e (back h.1))
      | inr (m, e) ↦ (λ h. cc, λ h. absurd (h.0 (search-some r hay m e)))
    ]

-- A category that was matched stays matched.
extend-has_key :
    (name other : Text) (hits : List Text) (groups : Groups)
    → has_key name groups ≡ true
    → has_key name (extend other hits groups) ≡ true
unfolding extend
extend-has_key name other hits [] h = cc
extend-has_key name other hits ((k, old) ∷ groups) h =
    ground (arith, extend-has_key name other hits groups)

extend-own_key :
    (name : Text) (hits : List Text) (groups : Groups)
    → has_key name (extend name hits groups) ≡ true
unfolding extend
extend-own_key name hits [] = ground (arith, text_eq_refl name)
extend-own_key name hits ((k, old) ∷ groups) = ground (arith, extend-own_key name hits groups)

match_rules-keeps :
    (name : Text) (rules : List (Text × Regex)) (hays : List Text) (groups : Groups)
    → has_key name groups ≡ true
    → has_key name (match_rules rules hays groups) ≡ true
unfolding match_rules add_hit
match_rules-keeps name [] hays groups h = h
match_rules-keeps name ((c, r) ∷ rules) hays groups h = elim (Option-cases (first_hit r hays)) [
  | inl e ↦ rw e (match_rules-keeps name rules hays groups h)
  | inr (hit, e) ↦ rw e (
      match_rules-keeps name rules hays (extend c (hit ∷ []) groups)
        (extend-has_key name c (hit ∷ []) groups h))
]

-- A category one of whose patterns occurs is matched.
match_rules-has_key :
    (name : Text) (r : Regex) (rules : List (Text × Regex)) (hays : List Text) (groups : Groups)
    → Among (name, r) rules
    → ¬ All (λ hay. ¬ Occurs r hay) hays
    → has_key name (match_rules rules hays groups) ≡ true
unfolding match_rules add_hit
match_rules-has_key name r [] hays groups m h = absurd m
match_rules-has_key name r ((c, s) ∷ rules) hays groups (inr m) h =
    match_rules-has_key name r rules hays (add_hit c (first_hit s hays) groups) m h
match_rules-has_key name r ((c, s) ∷ rules) hays groups (inl e) h =
    let same : name ≡ c = ap (λ x. x.0) e in
    let pattern' : r ≡ s = ap (λ x. x.1) e in
    elim (Option-cases (first_hit s hays)) [
      | inl f ↦ absurd (h ((first_hit-none r hays).0 (rw pattern' f)))
      | inr (hit, f) ↦
          rw (f, same)
            (match_rules-keeps c rules hays (extend c (hit ∷ []) groups)
              (extend-own_key c (hit ∷ []) groups))
    ]

abbrev is_empty : Groups → Bool
is_empty [] = true
is_empty (g ∷ groups) = false

extend-not_empty :
    (name : Text) (hits : List Text) (groups : Groups) → is_empty (extend name hits groups) ≡ false
unfolding extend
extend-not_empty name hits [] = refl
extend-not_empty name hits ((k, old) ∷ groups) = ground arith

match_rules-not_empty :
    (rules : List (Text × Regex)) (hays : List Text) (groups : Groups)
    → is_empty groups ≡ false
    → is_empty (match_rules rules hays groups) ≡ false
unfolding match_rules add_hit
match_rules-not_empty [] hays groups h = h
match_rules-not_empty ((c, r) ∷ rules) hays groups h = elim (Option-cases (first_hit r hays)) [
  | inl e ↦ rw e (match_rules-not_empty rules hays groups h)
  | inr (hit, e) ↦ rw e (
      match_rules-not_empty rules hays (extend c (hit ∷ []) groups)
        (extend-not_empty c (hit ∷ []) groups))
]

match_rules-Quiet :
    (rules : List (Text × Regex)) (hays : List Text)
    → (is_empty (match_rules rules hays []) ≡ true) ↔ Quiet hays rules
unfolding match_rules add_hit
match_rules-Quiet [] hays = (λ e. tt, λ h. refl)
match_rules-Quiet ((c, r) ∷ rules) hays =
    let (silent, back) = first_hit-none r hays in
    let (there, again) = match_rules-Quiet rules hays in
    elim (Option-cases (first_hit r hays)) [
      | inl e ↦ (λ h. (silent e, there (rw e at h)), λ h. rw e (again h.1))
      | inr (hit, e) ↦ (
        λ h. absurd (
            ground (
              arith,
              match_rules-not_empty rules hays (extend c (hit ∷ []) [])
                  (extend-not_empty c (hit ∷ []) []),
              h,
              e,
            )),
        λ h. absurd (ground (arith, back h.0, e)),
      )
    ]

-- Every category has a mode.
abbrev HasModes : List Text → Type 0
HasModes names = All (λ name. is_some (value_at name attack_type_to_mode) ≡ true) names

abbrev keys : Groups → List Text
keys groups = map (λ g. g.0) groups

extend-HasModes :
    (name : Text) (hits : List Text) (groups : Groups)
    → is_some (value_at name attack_type_to_mode) ≡ true
    → HasModes (keys groups)
    → HasModes (keys (extend name hits groups))
unfolding extend
extend-HasModes name hits [] h g = (h, tt)
extend-HasModes name hits ((k, old) ∷ groups) h g = elim (Bool-cases (text_eq k name)) [
  | inl e ↦ rw e g
  | inr e ↦ rw e (g.0, extend-HasModes name hits groups h g.1)
]

match_rules-HasModes :
    (rules : List (Text × Regex)) (hays : List Text) (groups : Groups)
    → HasModes (map (λ rule. rule.0) rules)
    → HasModes (keys groups)
    → HasModes (keys (match_rules rules hays groups))
unfolding match_rules add_hit
match_rules-HasModes [] hays groups h g = g
match_rules-HasModes ((c, r) ∷ rules) hays groups h g = elim (Option-cases (first_hit r hays)) [
  | inl e ↦ rw e (match_rules-HasModes rules hays groups h.1 g)
  | inr (hit, e) ↦ rw e (
      match_rules-HasModes rules hays (extend c (hit ∷ []) groups) h.1
        (extend-HasModes c (hit ∷ []) groups h.0 g))
]

modes_of-ok :
    (groups modes : Groups)
    → HasModes (keys groups)
    → (found : Groups) × (modes_of groups modes ≡ ok found)
unfolding modes_of value_at extend text_eq text
modes_of-ok [] modes h = (modes, refl)
modes_of-ok ((c, hits) ∷ groups) modes h = elim (Option-cases (value_at c attack_type_to_mode)) [
  | inl e ↦ absurd (ground (arith, h.0, e))
  | inr (mode, e) ↦
      let (found, same) = modes_of-ok groups (extend mode hits modes) h.1 in (found, rw e same)
]

-- What is left to say of a detection: it exists, and its verdict is `v`.
abbrev Gives : Result Detection → Verdict → Type 0
Gives r v = (d : Detection) × (r ≡ ok d) × (d.verdict ≡ v)

detection-Gives :
    (name : Text) (groups : Groups) (hays : List Text)
    → HasModes (keys groups)
    → Gives
        (heuristic_detection name groups hays)
        (if is_empty groups then safe else heuristic_verdict groups hays)
unfolding heuristic_detection
detection-Gives name [] hays h = (_, refl, refl)
detection-Gives name (g ∷ groups) hays h =
    let (modes, e) = modes_of-ok (g ∷ groups) [] h in rw e (_, refl, refl)

not_safe : ¬ (suspicious ⊑ safe)
unfolding verdict_rank
not_safe h = omega arith

safe_iff :
    {P : Type 0} (groups : Groups) (hays : List Text)
    → (is_empty groups ≡ true) ↔ P
    → ((if is_empty groups then safe else heuristic_verdict groups hays) ≡ safe) ↔ P
safe_iff [] hays h = (λ e. h.0 refl, λ p. refl)
safe_iff (g ∷ groups) hays h = (
  λ e.
      absurd
        (not_safe (subst (λ v. suspicious ⊑ v) e (heuristic_verdict-suspicious (g ∷ groups) hays))),
  λ p. absurd (ground (arith, h.1 p)),
)

severe_verdict :
    (category : Text) (groups : Groups) (hays : List Text)
    → one_of high_severity_categories category ≡ true
    → has_key category groups ≡ true
    → (if is_empty groups then safe else heuristic_verdict groups hays) ≡ malicious
severe_verdict category [] hays h k = cc
severe_verdict category (g ∷ groups) hays h k =
    heuristic_verdict-malicious category (g ∷ groups) hays h k

All-Among {κ} : {A : Type 0} (P : A → Type κ) (x : A) (xs : List A) → All P xs → Among x xs → P x
All-Among P x [] h m = absurd m
All-Among P x (y ∷ xs) h (inl e) = subst P (sym e) h.0
All-Among P x (y ∷ xs) h (inr m) = All-Among P x xs h.1 m

rules-HasModes : HasModes (map (λ rule. rule.0) heuristic_rules)
unfolding value_at text_eq text
rules-HasModes = ground arith

heuristic-Gives :
    (name : Text) (trace : Trace)
    → Gives (heuristic_detect name trace) (
        let groups = match_rules heuristic_rules (haystacks trace) [] in
        if is_empty groups then safe else heuristic_verdict groups (haystacks trace))
unfolding heuristic_detect
heuristic-Gives name trace =
    detection-Gives name _ (haystacks trace)
      (match_rules-HasModes heuristic_rules (haystacks trace) [] (rules-HasModes) tt)

-- The heuristic detector always answers, for every trace. It answers safe exactly when none of its
-- patterns occurs in the user's input, the name of the tool and its arguments.
pub heuristic_safe_iff_Quiet :
    (name : Text) (trace : Trace)
    → (d : Detection) × (heuristic_detect name trace ≡ ok d)
      × ((d.verdict ≡ safe) ↔ Quiet (haystacks trace) heuristic_rules)
heuristic_safe_iff_Quiet name trace =
    let (d, e, v) = heuristic-Gives name trace in
    (
      d,
      e,
      subst (λ w. (w ≡ safe) ↔ Quiet (haystacks trace) heuristic_rules) (sym v)
          (safe_iff _ (haystacks trace) (match_rules-Quiet heuristic_rules (haystacks trace))),
    )

-- A pattern of a category of high severity that occurs in a trace makes the verdict malicious.
pub severe_pattern_is_malicious :
    (name : Text) (trace : Trace) (category : Text) (pattern : Regex) (hay : Text)
    → Among (category, pattern) heuristic_rules
    → one_of high_severity_categories category ≡ true
    → Among hay (haystacks trace)
    → Occurs pattern hay
    → (d : Detection) × (heuristic_detect name trace ≡ ok d) × (d.verdict ≡ malicious)
severe_pattern_is_malicious name trace category pattern hay rule severe m o =
    let (d, e, v) = heuristic-Gives name trace in
    let matched =
      match_rules-has_key category pattern heuristic_rules (haystacks trace) [] rule
        (λ quiet. All-Among _ hay (haystacks trace) quiet m o) in
    (d, e, v ∙ severe_verdict category _ (haystacks trace) severe matched)
