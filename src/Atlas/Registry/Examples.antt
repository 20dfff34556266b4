-- ===== src/Atlas/Registry/Examples.antt =====
-- A pack of two techniques.
use ai_agent_security_lab.Prelude.{◌≡◌, refl, true, List, [], ◌∷◌, Text, text, text_eq, is_ok}
use ai_agent_security_lab.Atlas.Registry.{AtlasTactic, Registry, lookup, register_tactics}

abbrev technique : Text → AtlasTactic
technique id = record {
  id = id;
  name = text "technique";
  description = text "";
  payloads = text "a" ∷ text "b" ∷ text "c" ∷ text "d" ∷ text "e" ∷ [];
  severity_default = text "high";
  mitre_url = text "https://atlas.mitre.org/techniques/";
}

abbrev known : Registry
known = (text "AML.T0020", technique (text "AML.T0020")) ∷ []

abbrev packs : List AtlasTactic
packs = technique (text "AML.T0051") ∷ technique (text "AML.T0051.001") ∷ []

registering : is_ok (register_tactics packs known).0 ≡ true
unfolding register_tactics lookup text text_eq
registering = refl
