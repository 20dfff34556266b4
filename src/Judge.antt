-- ===== src/Judge.antt =====
-- judge.py: the offline judge, and the judge that asks a model. `json.loads` and `float` are
-- arguments, the reply of the router is a function of the trace.
pub mod Scan
pub mod Range
mod Examples
use ai_agent_security_lab.Prelude.{
  ℕ, suc, ◌&&◌, ◌||◌, not, Bool, true, false, List, [], ◌∷◌, ◌++◌, Option, none, some, Text, text,
  text_eq, lower, strip, starts_with, strip_chars, take, drop, leb, ltb, if◌then◌else◌, truthy,
  Result, ok, err, value_error, type_error, Error, raise_if, ◌>>=◌, ◌>>◌,
}
use ai_agent_security_lab.Values.{Json, object, string, Fields, field, no_fields, get, str_or, repr}
use ai_agent_security_lab.Datatypes.{Verdict, safe, suspicious, malicious, value, Trace}
use ai_agent_security_lab.Detector.{Detection, detection_to_dict, heuristic_detect}
use ai_agent_security_lab.Detector.Fusion.{verdict_of}
use Scan.{recovered_span}

-- A float: `finite negative n d` is n / (d + 1), or minus that.
pub data Float : Type 0 where
  nan minus_infinity plus_infinity : Float
  finite : (negative : Bool) (n : ℕ) (d : ℕ) → Float

-- `0.0 < x`, `0.0 <= x`, `x < 1.0` and `x <= 1.0`
unfoldable pub above_zero : Float → Bool
above_zero (finite negative n d) = not negative && ltb 0 n
above_zero plus_infinity = true
above_zero _ = false

unfoldable pub from_zero : Float → Bool
from_zero (finite negative n d) = not negative || leb n 0
from_zero plus_infinity = true
from_zero _ = false

unfoldable pub below_one : Float → Bool
below_one (finite negative n d) = negative || ltb n (suc d)
below_one minus_infinity = true
below_one _ = false

unfoldable pub to_one : Float → Bool
to_one (finite negative n d) = negative || leb n (suc d)
to_one minus_infinity = true
to_one _ = false

unfoldable pub is_nan : Float → Bool
is_nan nan = true
is_nan _ = false

abbrev pub float_zero : Float
float_zero = finite false 0 0

abbrev pub float_one : Float
float_one = finite false 1 0

-- n hundredths
abbrev pub hundredths : ℕ → Float
hundredths n = finite false n 99

pub record JudgeResult : Type 0 where
  pub verdict : Verdict
  pub confidence : Float
  pub reason : Text
  pub mode : Text
  pub raw : Fields

-- `JudgeResult.__post_init__`
unfoldable pub judge_result : JudgeResult → Result JudgeResult
judge_result r = do
  raise_if (not (from_zero r.confidence && to_one r.confidence))
      (value_error "judge confidence must be between 0 and 1")
  ok r

-- `min(1.0, max(0.0, confidence))`, and the default of a value that is not a number
unfoldable pub clamp : Float → Float
clamp x =
    let raised = if above_zero x then x else float_zero in
    if below_one raised then raised else float_one

unfoldable pub clamp_number : Float → Float
unfolding is_nan clamp
clamp_number x = if is_nan x then hundredths 50 else clamp x

-- The exceptions that `_coerce_confidence` catches.
unfoldable pub caught : Error → Bool
caught (value_error s) = true
caught (type_error s) = true
caught _ = false

unfoldable pub coerced : Result Float → Result Float
coerced (ok x) = ok (clamp_number x)
coerced (err e) = if caught e then ok (hundredths 50) else err e

-- `_coerce_confidence`
unfoldable pub coerce_confidence : (Option Json → Result Float) → Option Json → Result Float
coerce_confidence float value = coerced (float value)

or_text : Text → Text → Text
unfolding truthy
or_text s otherwise = if truthy s then s else otherwise

offline_result : Trace → Detection → JudgeResult
unfolding or_text text text_eq
offline_result trace detection =
    let raw = field (text "detector") (detection_to_dict detection) no_fields in
    if text_eq trace.category (text "mitre_atlas")
    then record {
      verdict = suspicious;
      confidence = hundredths 75;
      reason = text "Known safe ATLAS simulation template evaluated offline.";
      mode = text "stub";
      raw = raw;
    }
    else record {
      verdict = detection.verdict;
      confidence = elim detection.verdict [ malicious ↦ hundredths 90 | _ ↦ hundredths 60 ];
      reason = or_text detection.evidence (text "No heuristic security signal.");
      mode = text "stub";
      raw = raw;
    }

-- `StubLabJudge.judge`
unfoldable pub stub_judge : Trace → Result JudgeResult
unfolding offline_result judge_result text
stub_judge trace = do
  detection ← heuristic_detect (text "heuristic") trace
  judge_result (offline_result trace detection)

-- `_strip_json_fence`
unfoldable pub judge_strip_json_fence : Text → Text
unfolding strip starts_with strip_chars text
judge_strip_json_fence s =
    let stripped = strip s in
    let inner = strip (strip_chars (text "`") stripped) in
    if not (starts_with (text "```") stripped)
    then stripped
    else strip (if starts_with (text "json") inner then drop 4 inner else inner)

-- `except ValueError`
unfoldable pub is_value_error : Error → Bool
is_value_error (value_error s) = true
is_value_error _ = false

-- What `json.loads` gives, if it is a dict; an exception that is no ValueError goes on.
unfoldable pub parsed_of : Result Json → Result (Option Fields)
parsed_of (ok (object fields)) = ok (some fields)
parsed_of (ok _) = ok none
parsed_of (err e) = if is_value_error e then ok none else err e

unfoldable pub loaded_span : (Text → Result Json) → Option Text → Result (Option Fields)
loaded_span loads none = ok none
loaded_span loads (some span) = parsed_of (loads span)

unfoldable pub parsed_or_span :
    (Text → Result Json) → Option Text → Option Fields → Result (Option Fields)
parsed_or_span loads span (some fields) = ok (some fields)
parsed_or_span loads span none = loaded_span loads span

-- `_parse_judge_payload`; none is a content that is no text
unfoldable pub parse_judge_payload : (Text → Result Json) → Option Text → Result (Option Fields)
unfolding truthy strip judge_strip_json_fence
parse_judge_payload loads none = ok none
parse_judge_payload loads (some raw_text) =
    let candidate = judge_strip_json_fence raw_text in
    if not (truthy (strip raw_text)) then ok none else do
      parsed ← parsed_of (loads candidate)
      parsed_or_span loads (recovered_span candidate) parsed

-- The reply of the router; `raw` holds its id, its model and its usage.
pub record JudgeReply : Type 0 where
  pub content : Option Text
  pub raw : Fields

unfoldable pub unparsed_result : JudgeReply → Text → JudgeResult
unparsed_result reply raw_text = record {
  verdict = suspicious;
  confidence = hundredths 50;
  reason = text "judge returned unparseable output: " ++ repr (take 160 raw_text);
  mode = text "live";
  raw = field (text "unparsed") (string raw_text) reply.raw;
}

unfoldable pub parsed_result : JudgeReply → Fields → Float → JudgeResult
parsed_result reply parsed confidence = record {
  verdict = verdict_of (lower (str_or (text "suspicious") (get (text "verdict") parsed)));
  confidence = confidence;
  reason = str_or [] (get (text "reason") parsed);
  mode = text "live";
  raw = field (text "content") (object parsed) reply.raw;
}

module _ (loads : Text → Result Json) (float : Option Json → Result Float) where
  -- `raw_text[:160]` raises for a content that is no text
  unfoldable pub unparsed : JudgeReply → Option Text → Result JudgeResult
  unparsed reply none = err (type_error "'NoneType' object is not subscriptable")
  unparsed reply (some raw_text) = judge_result (unparsed_result reply raw_text)

  unfoldable pub judged : JudgeReply → Option Fields → Result JudgeResult
  judged reply none = unparsed reply reply.content
  judged reply (some parsed) = do
    confidence ← coerce_confidence float (get (text "confidence") parsed)
    judge_result (parsed_result reply parsed confidence)

  -- `RouterLabJudge.judge`
  unfoldable pub router_judge : (Trace → Result JudgeReply) → Trace → Result JudgeResult
  router_judge chat trace = do
    reply ← chat trace
    parsed ← parse_judge_payload loads reply.content
    judged reply parsed

-- `build_lab_judge`: the stub, unless the environment's key is not blank
unfoldable pub build_lab_judge : {A : Type 0} (lab_llm_key : Option Text) (stub live : A) → A
unfolding truthy strip
build_lab_judge none stub live = stub
build_lab_judge (some key) stub live = if truthy (strip key) then live else stub
