-- ===== src/Attacks/Examples.antt =====
-- Built-in samples and scenarios, under the rules of the heuristic detector.
use ai_agent_security_lab.Prelude.{
  ◌≡◌, refl, Bool, true, false, all, is_space, take, text, text_eq, [], ◌∷◌,
}
use ai_agent_security_lab.Attacks.{Scenario, BenignSample}
use ai_agent_security_lab.Attacks.Scenarios.{built_in_scenarios}
use ai_agent_security_lab.Attacks.Benign.{benign_corpus}
use ai_agent_security_lab.Regex.Notation.{lit, among, word_or}
use ai_agent_security_lab.Detector.{match_rules, has_key}
use ai_agent_security_lab.Detector.Rules.{heuristic_rules}

abbrev is_quiet : BenignSample → Bool
is_quiet s = elim (match_rules heuristic_rules (s.payload ∷ []) []) [ [] ↦ true | _ ∷ _ ↦ false ]

abbrev is_caught : Scenario → Bool
is_caught s = has_key s.category (match_rules heuristic_rules (s.payload ∷ []) [])

samples_are_quiet : all is_quiet (take 5 benign_corpus) ≡ true
unfolding match_rules text lit is_space among word_or
samples_are_quiet = refl

scenarios_are_caught : all is_caught (take 5 built_in_scenarios) ≡ true
unfolding match_rules text lit is_space among word_or text_eq
scenarios_are_caught = refl
