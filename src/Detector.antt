-- ===== src/Detector.antt =====
-- detector.py: the heuristic detector, the detector that asks a model, and their fusion. The reply
-- of the router is a function of the trace, and `json.loads` a function into an option.
pub mod Rules
pub mod Fusion
pub mod Rank
pub mod Verdicts
pub mod Fused
mod Examples
use ai_agent_security_lab.Prelude.{
  ℕ, ◌+◌, ◌&&◌, ◌||◌, not, Bool, true, false, List, [], ◌∷◌, ◌++◌, map, Option, none, some, Text,
  text, text_eq, lower, strip, starts_with, contains, join, strip_chars, take, drop, any, leb, ◌==◌,
  if◌then◌else◌, truthy, Result, ok, err, key_error, Error, ◌>>=◌, select,
}
use ai_agent_security_lab.Values.{
  Json, null, number, string, array, object, Items, no_items, item, Fields, no_fields, field, get,
  str_or, repr,
}
use ai_agent_security_lab.Regex.{Regex, Match, search, found, whole}
use ai_agent_security_lab.Datatypes.{Verdict, safe, suspicious, malicious, value, Trace}
use ai_agent_security_lab.Values.{dumps}
use Rules.{
  heuristic_rules, attack_type_to_mode, high_severity, high_severity_categories, sensitive_path,
  outbound_url,
}

pub record Detection : Type 0 where
  pub detector : Text
  pub verdict : Verdict
  pub evidence : Text
  pub raw : Fields

-- `detection.to_dict()`
abbrev pub detection_to_dict : Detection → Json
detection_to_dict d = object (
    field (text "detector") (string d.detector) (
      field (text "verdict") (string (value d.verdict)) (
        field (text "evidence") (string d.evidence) (field (text "raw") (object d.raw) no_fields))))

unfoldable pub verdict_rank : Verdict → ℕ
verdict_rank safe = 0
verdict_rank suspicious = 1
verdict_rank malicious = 2

unfoldable pub max_verdict : Verdict → Verdict → Verdict
unfolding verdict_rank
max_verdict a b = if leb (verdict_rank b) (verdict_rank a) then a else b

-- A dict from names to lists, its entries in the order of their insertion.
abbrev pub Groups : Type 0
Groups = List (Text × List Text)

-- `groups.setdefault(name, []).extend(hits)`
unfoldable pub extend : Text → List Text → Groups → Groups
extend name hits [] = (name, hits) ∷ []
extend name hits ((k, old) ∷ groups) =
    let rest = extend name hits groups in
    if text_eq k name then (k, old ++ hits) ∷ groups else (k, old) ∷ rest

unfoldable pub value_at : Text → List (Text × Text) → Option Text
value_at key [] = none
value_at key ((k, v) ∷ entries) =
    let rest = value_at key entries in if text_eq k key then some v else rest

items_of : List Text → Items
items_of [] = no_items
items_of (hit ∷ hits) = item (string hit) (items_of hits)

groups_to_dict : Groups → Fields
unfolding items_of
groups_to_dict [] = no_fields
groups_to_dict ((name, hits) ∷ groups) = field name (array (items_of hits)) (groups_to_dict groups)

abbrev pub has_key : Text → Groups → Bool
has_key name groups = any (λ (k, hits). text_eq k name) groups

abbrev pub one_of : List Text → Text → Bool
one_of names name = any (text_eq name) names

-- the haystacks of a trace
unfoldable pub haystacks : Trace → List Text
unfolding truthy
haystacks trace =
    trace.user_input
    ∷ (if truthy trace.tool_call.name
        then trace.tool_call.name ∷ dumps true (object trace.tool_call.args) ∷ []
        else [])

unfoldable pub hit_or : Option Match → Option Text → Option Text
hit_or none rest = rest
hit_or (some m) rest = some (whole m)

-- the loop over the haystacks, which stops at the first match
unfoldable pub first_hit : Regex → List Text → Option Text
unfolding hit_or search
first_hit pattern [] = none
first_hit pattern (hay ∷ hays) = hit_or (search pattern hay) (first_hit pattern hays)

unfoldable pub add_hit : Text → Option Text → Groups → Groups
unfolding extend
add_hit category none groups = groups
add_hit category (some hit) groups = extend category (hit ∷ []) groups

-- the loop over the rules, to `matched_categories`
unfoldable pub match_rules : List (Text × Regex) → List Text → Groups → Groups
unfolding add_hit first_hit
match_rules [] hays groups = groups
match_rules ((category, pattern) ∷ rules) hays groups =
    match_rules rules hays (add_hit category (first_hit pattern hays) groups)

-- the loop to `matched_modes`; a category without a mode is the KeyError
unfoldable pub modes_of : Groups → Groups → Result Groups
modes_of [] modes = ok modes
modes_of ((category, hits) ∷ groups) modes =
    let add : Text → Result Groups = λ mode. modes_of groups (extend mode hits modes) in
    elim (value_at category attack_type_to_mode) [
      | none ↦ err (key_error "attack type without a mode")
      | some mode ↦ add mode
    ]

-- the verdict in the loop over the hits of a category, and over the categories
unfoldable pub hits_verdict : List Text → Verdict → Verdict
unfolding max_verdict contains lower
hits_verdict [] verdict = verdict
hits_verdict (hit ∷ hits) verdict = hits_verdict hits (
    if any (λ token. contains token (lower hit)) high_severity
    then max_verdict verdict malicious
    else verdict)

unfoldable pub groups_verdict : Groups → Verdict → Verdict
unfolding hits_verdict max_verdict text_eq
groups_verdict [] verdict = verdict
groups_verdict ((category, hits) ∷ groups) verdict = groups_verdict groups (
    hits_verdict hits
      (if one_of high_severity_categories category then max_verdict verdict malicious else verdict))

mode_or_empty : Option Text → Text
mode_or_empty none = []
mode_or_empty (some mode) = mode

-- `evidence_bits` of the loop
bits_of : Groups → List Text
unfolding value_at mode_or_empty repr text
bits_of [] = []
bits_of ((category, hits) ∷ groups) =
    map
      (λ hit.
        mode_or_empty (value_at category attack_type_to_mode)
        ++ text "/"
        ++ category
        ++ text ": "
        ++ repr hit)
      hits
    ++ bits_of groups

-- the two combinations that make a trace malicious
unfoldable pub combo_injection_path : Groups → List Text → Bool
unfolding text_eq found
combo_injection_path groups hays =
    has_key (text "prompt_injection") groups && any (found sensitive_path) hays

unfoldable pub combo_exfil_outbound : List Text → Bool
unfolding found
combo_exfil_outbound hays = any (found sensitive_path) hays && any (found outbound_url) hays

abbrev pub bump : Bool → Verdict → Verdict
bump b verdict = if b then max_verdict verdict malicious else verdict

unfoldable pub heuristic_verdict : Groups → List Text → Verdict
unfolding groups_verdict combo_injection_path combo_exfil_outbound
heuristic_verdict groups hays =
    bump (combo_exfil_outbound hays)
      (bump (combo_injection_path groups hays) (groups_verdict groups suspicious))

all_bits : Groups → List Text → List Text
unfolding bits_of combo_injection_path combo_exfil_outbound text
all_bits groups hays =
    bits_of groups
    ++ (if combo_injection_path groups hays
        then text "combo: prompt_injection + sensitive_path" ∷ []
        else [])
    ++ (if combo_exfil_outbound hays then text "combo: sensitive_path + outbound_url" ∷ [] else [])

-- what `detect` returns, once the categories are matched
unfoldable pub heuristic_detection : Text → Groups → List Text → Result Detection
unfolding modes_of heuristic_verdict all_bits groups_to_dict items_of join text
heuristic_detection name [] hays = ok (record {
  detector = name;
  verdict = safe;
  evidence = [];
  raw =
      field (text "matched") (object no_fields) (field (text "modes") (object no_fields) no_fields);
})
heuristic_detection name (g ∷ groups) hays = do
  modes ← modes_of (g ∷ groups) []
  let bits = all_bits (g ∷ groups) hays
  ok (record {
    detector = name;
    verdict = heuristic_verdict (g ∷ groups) hays;
    evidence = join (text "; ") (take 5 bits);
    raw = field (text "matched") (object (groups_to_dict (g ∷ groups))) (
        field (text "modes") (object (groups_to_dict modes))
          (field (text "all_evidence") (array (items_of bits)) no_fields));
  })

-- `HeuristicDetector.detect`
unfoldable pub heuristic_detect : Text → Trace → Result Detection
unfolding heuristic_detection match_rules haystacks
heuristic_detect name trace =
    heuristic_detection name (match_rules heuristic_rules (haystacks trace) []) (haystacks trace)
