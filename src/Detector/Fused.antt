-- ===== src/Detector/Fused.antt =====
-- What the fusion of the two detectors detects.
use ai_agent_security_lab.Prelude.{
  ok-injective, ◌≡◌, ◌||◌, Bool, false, Option, none, some, Text, Result, ok, err, Result-split,
  inl, inr, arith, ◌>>=◌,
}
use ai_agent_security_lab.Values.{Json}
use ai_agent_security_lab.Datatypes.{Verdict, Trace}
use ai_agent_security_lab.Detector.{Detection, verdict_rank, max_verdict, heuristic_detect}
use ai_agent_security_lab.Detector.Fusion.{
  LlmDetector, Detector, llm_detect, optional_detect, combine, detect, is_detected,
}
use ai_agent_security_lab.Detector.Verdicts.{heuristic_safe_iff_Quiet}

-- What one signal detects, an exception being no detection.
abbrev pub detects : Result Detection → Verdict → Bool
detects (ok d) minimum = is_detected d minimum
detects (err e) minimum = false

abbrev pub model_detects : (Text → Option Json) → Option LlmDetector → Trace → Verdict → Bool
model_detects loads none trace minimum = false
model_detects loads (some llm) trace minimum = detects (llm_detect loads llm trace) minimum

combine-detects :
    (h : Detection) (d : Detection) (minimum : Verdict)
    → is_detected (combine h (some d)) minimum ≡ (is_detected h minimum || is_detected d minimum)
unfolding combine is_detected verdict_rank max_verdict
combine-detects h d minimum = ground arith

combine-alone :
    (h : Detection) (minimum : Verdict)
    → is_detected (combine h none) minimum ≡ (is_detected h minimum || false)
unfolding combine is_detected
combine-alone h minimum = ground arith

module _ (loads : Text → Option Json) (h : Detection) (trace : Trace) where
  with_model :
      (llm : Option LlmDetector) (d : Detection) (minimum : Verdict)
      → (do o ← optional_detect loads llm trace; ok (combine h o)) ≡ ok d
      → is_detected d minimum ≡ (is_detected h minimum || model_detects loads llm trace minimum)
  unfolding optional_detect
  with_model none d minimum e = rw (← ok-injective _ _ e) (combine-alone h minimum)
  with_model (some llm) d minimum e = elim (Result-split (llm_detect loads llm trace)) [
    | inl (l, f) ↦ rw (f, ← ok-injective _ _ (rw f at e)) (combine-detects h l minimum)
    | inr (raised, f) ↦ absurd (ground (arith, e, f))
  ]

-- When the fused detector answers, it detects a trace, at any threshold, exactly when the heuristic
-- detector or the model's does.
pub fusion_detects_either :
    (loads : Text → Option Json) (detector : Detector) (trace : Trace) (d : Detection)
    (minimum : Verdict)
    → detect loads detector trace ≡ ok d
    → is_detected d minimum ≡ (
        detects (heuristic_detect detector.heuristic trace) minimum
        || model_detects loads detector.llm trace minimum)
unfolding detect
fusion_detects_either loads detector trace d minimum e =
    let (h, f, _) = heuristic_safe_iff_Quiet detector.heuristic trace in
    rw f (with_model loads h trace detector.llm d minimum (rw f at e))
