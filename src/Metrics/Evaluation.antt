-- ===== src/Metrics/Evaluation.antt =====
-- metrics.py: the loops that run the corpora. A detector and a pipeline are functions of a trace.
use ai_agent_security_lab.Prelude.{
  ◌+◌, ℕ, ◌-◌, List, [], ◌∷◌, ◌++◌, Option, none, some, Text, text, length, count_where, Result, ok,
  ◌>>=◌, truthy, if◌then◌else◌,
}
use ai_agent_security_lab.Values.{no_fields}
use ai_agent_security_lab.Datatypes.{Verdict, value, Trace, GuardDecision}
use ai_agent_security_lab.Detector.{Detection}
use ai_agent_security_lab.Detector.Fusion.{is_detected}
use ai_agent_security_lab.Defender.{DefenseResult, blocked, blocked_by, first_block}
use ai_agent_security_lab.Target.{TargetAgent, run}
use ai_agent_security_lab.Attacks.{Scenario, BenignSample}
use ai_agent_security_lab.Metrics.{
  MetricRecord, BenignRecord, DetectionQuality, DefenseRecord, RecordKind, attack_kind, benign_kind,
}

reason_of : Option GuardDecision → Text
reason_of none = []
reason_of (some d) = d.reason

defense_record : Text → RecordKind → DefenseResult → DefenseRecord
unfolding reason_of
defense_record name kind result = record {
  name = name;
  kind = kind;
  is_blocked = blocked result;
  blocked_by = blocked_by result;
  reason = reason_of (first_block result);
}

unfoldable pub attack_trace : TargetAgent → Scenario → Trace
attack_trace target s = run target s.payload s.name s.category

module _ (defend_trace : Trace → Result DefenseResult) (target : TargetAgent) where
  unfoldable pub defend_scenarios : List Scenario → Result (List DefenseRecord)
  unfolding defense_record
  defend_scenarios [] = ok []
  defend_scenarios (s ∷ scenarios) = do
    result ← defend_trace (attack_trace target s)
    records ← defend_scenarios scenarios
    ok (defense_record s.name attack_kind result ∷ records)

  unfoldable pub defend_samples : List BenignSample → Result (List DefenseRecord)
  unfolding defense_record
  defend_samples [] = ok []
  defend_samples (s ∷ samples) = do
    result ← defend_trace (run target s.payload [] [])
    records ← defend_samples samples
    ok (defense_record s.name benign_kind result ∷ records)

  -- `evaluate_defense`
  unfoldable pub evaluate_defense : List Scenario → List BenignSample → Result (List DefenseRecord)
  evaluate_defense scenarios samples = do
    attacks ← defend_scenarios scenarios
    others ← defend_samples samples
    ok (attacks ++ others)

-- The counts of the first loop of `evaluate_detection_quality`.
pub record AttackCounts : Type 0 where
  pub detected : ℕ
  pub missed : List Text

unfoldable pub sample_trace : BenignSample → Trace
sample_trace s = record {
  user_input = s.payload;
  tool_call = record { name = []; args = no_fields; result = [] };
  scenario_name = s.name;
  category = text "benign";
}

module _ (detect_trace : Trace → Result Detection) where
  unfoldable pub score_scenarios : TargetAgent → List Scenario → Result AttackCounts
  score_scenarios target [] = ok (record { detected = 0; missed = [] })
  score_scenarios target (s ∷ scenarios) = do
    detection ← detect_trace (attack_trace target s)
    counts ← score_scenarios target scenarios
    ok (
        if is_detected detection s.expected_detection
        then record counts { detected = 1 + counts.detected }
        else record counts { missed = s.name ∷ counts.missed })

  unfoldable pub score_samples : Verdict → List BenignSample → Result (List BenignRecord)
  score_samples threshold [] = ok []
  score_samples threshold (s ∷ samples) = do
    detection ← detect_trace (sample_trace s)
    records ← score_samples threshold samples
    ok (
        record {
          name = s.name;
          near_miss = s.near_miss;
          flagged = is_detected detection threshold;
          verdict = value detection.verdict;
          evidence = detection.evidence;
        }
        ∷ records)

  -- `evaluate_detection_quality`
  unfoldable pub evaluate_detection_quality :
      TargetAgent → Verdict → List Scenario → List BenignSample → Result DetectionQuality
  evaluate_detection_quality target threshold scenarios samples = do
    counts ← score_scenarios target scenarios
    records ← score_samples threshold samples
    let false_positives = count_where (λ (r : BenignRecord). r.flagged) records
    ok (record {
      true_positives = counts.detected;
      false_negatives = length counts.missed;
      false_positives = false_positives;
      true_negatives = length records - false_positives;
      alarm_threshold = threshold;
      benign_records = records;
      missed_attacks = counts.missed;
    })

  module _ (modes : Detection → List Text) where
    metric_record : TargetAgent → Scenario → Trace → Detection → MetricRecord
    metric_record target s trace detection = record {
      agent = target.name;
      attack = s.name;
      category = s.category;
      success = truthy trace.tool_call.name;
      tool = trace.tool_call.name;
      detector = detection.detector;
      detector_verdict = value detection.verdict;
      detector_modes = modes detection;
    }

    unfoldable pub attack_target : TargetAgent → List Scenario → Result (List MetricRecord)
    unfolding metric_record
    attack_target target [] = ok []
    attack_target target (s ∷ scenarios) = do
      let trace = attack_trace target s
      detection ← detect_trace trace
      records ← attack_target target scenarios
      ok (metric_record target s trace detection ∷ records)

    -- the loops of `evaluate_asr`
    unfoldable pub evaluate_asr : List TargetAgent → List Scenario → Result (List MetricRecord)
    evaluate_asr [] scenarios = ok []
    evaluate_asr (target ∷ targets) scenarios = do
      own ← attack_target target scenarios
      records ← evaluate_asr targets scenarios
      ok (own ++ records)
