-- ===== src/Detector/Fusion.antt =====
-- detector.py: the detector that asks a model, and the fusion of the two.
use ai_agent_security_lab.Prelude.{
  ℕ, ◌&&◌, not, Bool, [], ◌∷◌, ◌++◌, Option, none, some, Text, text, text_eq, lower, strip,
  starts_with, join, strip_chars, take, drop, leb, ◌==◌, if◌then◌else◌, truthy, Result, ok, err,
  attribute_error, ◌>>=◌, select,
}
use ai_agent_security_lab.Values.{
  Json, null, number, string, array, object, no_items, item, Fields, no_fields, field, get, str_or,
  repr, decimal,
}
use ai_agent_security_lab.Datatypes.{Verdict, safe, suspicious, malicious, value, Trace}
use ai_agent_security_lab.Detector.{
  Detection, verdict_rank, max_verdict, heuristic_detect, detection_to_dict,
}

-- The usage that a router reports; a count is None or the text of a number.
pub record Usage : Type 0 where
  pub prompt_tokens : Option ℕ
  pub completion_tokens : Option ℕ
  pub total_tokens : Option ℕ

pub record Reply : Type 0 where
  pub content : Text
  pub usage : Option Usage

abbrev pub count : Option ℕ → ℕ
count none = 0
count (some n) = n

-- the three counts, or nothing where all are zero
unfoldable pub usage_of : Reply → Option (ℕ × ℕ × ℕ)
usage_of reply = elim reply.usage [
  | none ↦ none
  | some u ↦
      let p = count u.prompt_tokens in
      let c = count u.completion_tokens in
      let t = count u.total_tokens in if p == 0 && c == 0 && t == 0 then none else some (p, c, t)
]

-- `_strip_json_fence`
unfoldable pub strip_json_fence : Text → Text
unfolding strip starts_with strip_chars text
strip_json_fence s =
    let stripped = strip s in
    let inner = strip_chars (text "`") stripped in
    if not (starts_with (text "```") stripped)
    then stripped
    else strip (if starts_with (text "json") inner then drop 4 inner else inner)

-- `Verdict(verdict_str)`, and suspicious for another value
unfoldable pub verdict_of : Text → Verdict
unfolding text_eq value text
verdict_of s =
    if text_eq s (value safe)
    then safe
    else if text_eq s (value malicious)
    then malicious
    else suspicious

-- `{**data, "usage": usage}`
unfoldable pub with_field : Text → Json → Fields → Fields
unfolding text_eq
with_field key v no_fields = field key v no_fields
with_field key v (field k old fields) =
    let rest = with_field key v fields in
    if text_eq k key then field k v fields else field k old rest

usage_to_dict : Option (ℕ × ℕ × ℕ) → Json
unfolding decimal text
usage_to_dict none = object no_fields
usage_to_dict (some (p, c, t)) = object (
    field (text "prompt_tokens") (number (decimal p)) (
      field (text "completion_tokens") (number (decimal c))
        (field (text "total_tokens") (number (decimal t)) no_fields)))

-- What the detector reads of the decoded reply. A value that is no dict has no `get`.
unfoldable pub classified : Text → Json → Json → Result Detection
unfolding verdict_of lower strip str_or with_field text get
classified name usage (object reply) = ok (record {
  detector = name;
  verdict = verdict_of (strip (lower (str_or (text "safe") (get (text "verdict") reply))));
  evidence = str_or [] (get (text "reason") reply);
  raw = with_field (text "usage") usage reply;
})
classified name usage _ = err (attribute_error "the reply has no attribute 'get'")

undecoded : Text → Json → Text → Detection
unfolding repr text
undecoded name usage content = record {
  detector = name;
  verdict = suspicious;
  evidence = text "LLM returned non-JSON: " ++ repr (take 120 content);
  raw = field (text "raw_text") (string content) (field (text "usage") usage no_fields);
}

without_router : Text → Detection
unfolding text
without_router name = record {
  detector = name;
  verdict = suspicious;
  evidence = text "no router configured";
  raw = no_fields;
}

-- `LLMDetector`, and the fields of `Detector`
pub record LlmDetector : Type 0 where
  pub name : Text
  pub router : Option (Trace → Result Reply)

pub record Detector : Type 0 where
  pub heuristic : Text
  pub llm : Option LlmDetector

-- the evidence of one signal
signal_of : Detection → Text
unfolding strip_chars value text
signal_of d =
    strip_chars (text ": ") (d.detector ++ text "=" ++ value d.verdict ++ text ": " ++ d.evidence)

-- the end of `Detector.detect`
unfoldable pub combine : Detection → Option Detection → Detection
unfolding max_verdict signal_of join truthy text
combine h none = record {
  detector = text "combined";
  verdict = h.verdict;
  evidence = join (text " | ") (select truthy (signal_of h ∷ []));
  raw = field (text "heuristic") (detection_to_dict h) (
      field (text "llm") null
        (field (text "methods") (array (item (string h.detector) no_items)) no_fields));
}
combine h (some d) = record {
  detector = text "combined";
  verdict = max_verdict h.verdict d.verdict;
  evidence = join (text " | ") (select truthy (signal_of h ∷ signal_of d ∷ []));
  raw = field (text "heuristic") (detection_to_dict h) (
      field (text "llm") (detection_to_dict d) (
        field (text "methods")
          (array (item (string h.detector) (item (string d.detector) no_items))) no_fields));
}

module _ (loads : Text → Option Json) where
  answered : Text → Reply → Result Detection
  unfolding classified undecoded strip_json_fence usage_of usage_to_dict
  answered name reply =
      let usage = usage_to_dict (usage_of reply) in
      elim (loads (strip_json_fence reply.content)) [
        | none ↦ ok (undecoded name usage reply.content)
        | some decoded ↦ classified name usage decoded
      ]

  -- `LLMDetector.detect`
  unfoldable pub llm_detect : LlmDetector → Trace → Result Detection
  unfolding answered without_router
  llm_detect llm trace = elim llm.router [
    | none ↦ ok (without_router llm.name)
    | some chat ↦ chat trace >>= answered llm.name
  ]

  unfoldable pub optional_detect : Option LlmDetector → Trace → Result (Option Detection)
  optional_detect none trace = ok none
  optional_detect (some llm) trace = do d ← llm_detect llm trace; ok (some d)

  -- `Detector.detect`
  unfoldable pub detect : Detector → Trace → Result Detection
  unfolding optional_detect
  detect detector trace = do
    h ← heuristic_detect detector.heuristic trace
    d ← optional_detect detector.llm trace
    ok (combine h d)

-- `is_detected`
unfoldable pub is_detected : Detection → Verdict → Bool
unfolding verdict_rank
is_detected d minimum = leb (verdict_rank minimum) (verdict_rank d.verdict)
