-- ===== src/Metrics/Matrix.antt =====
-- metrics.py: how the counts of the reports add up.
use ai_agent_security_lab.Prelude.{
  ◌-◌, Bool, not, select, length-select, count_where-not, count_where-map, length-map, ℕ, ◌+◌, ◌≡◌,
  refl, inl, inr, List, [], ◌∷◌, map, Text, text_eq, length, length-append, count_where,
  count_where-le, count_where-append, Result, ok, arith, Bool-cases, if◌then◌else◌, ap,
}
use ai_agent_security_lab.Datatypes.{value, Verdict, Trace}
use ai_agent_security_lab.Detector.{Detection}
use ai_agent_security_lab.Detector.Fusion.{is_detected}
use ai_agent_security_lab.Target.{TargetAgent}
use ai_agent_security_lab.Attacks.{Scenario, BenignSample}
use ai_agent_security_lab.Metrics.{
  RateSummary, MetricRecord, BenignRecord, DetectionQuality, summarise, add_record, group_records,
  group_summaries,
}
use ai_agent_security_lab.Metrics.Evaluation.{
  AttackCounts, attack_trace, sample_trace, score_scenarios, score_samples,
  evaluate_detection_quality,
}

module _ (detect_trace : Trace → Result Detection)
    (detects : (trace : Trace) → (d : Detection) × (detect_trace trace ≡ ok d)) where
  -- What the detector answers for an attack and for a benign sample.
  abbrev pub detects_attack : TargetAgent → Scenario → Bool
  detects_attack target s = is_detected (detects (attack_trace target s)).0 s.expected_detection

  abbrev pub flags_sample : Verdict → BenignSample → Bool
  flags_sample threshold s = is_detected (detects (sample_trace s)).0 threshold

  abbrev pub record_of_sample : Verdict → BenignSample → BenignRecord
  record_of_sample threshold s = record {
    name = s.name;
    near_miss = s.near_miss;
    flagged = flags_sample threshold s;
    verdict = value (detects (sample_trace s)).0.verdict;
    evidence = (detects (sample_trace s)).0.evidence;
  }

  abbrev counts : ℕ → List Text → AttackCounts
  counts n names = record { detected = n; missed = names }

  abbrev counts_of : TargetAgent → List Scenario → AttackCounts
  counts_of target scenarios = record {
    detected = count_where (detects_attack target) scenarios;
    missed = map (λ (s : Scenario). s.name) (select (λ s. not (detects_attack target s)) scenarios);
  }

  zero_plus : (n : ℕ) → n ≡ 0 + n
  zero_plus n = omega arith

  score_scenarios-counts :
      (target : TargetAgent) (scenarios : List Scenario)
      → score_scenarios detect_trace target scenarios ≡ ok (counts_of target scenarios)
  unfolding score_scenarios
  score_scenarios-counts target [] = refl
  score_scenarios-counts target (s ∷ scenarios) =
      let f = (detects (attack_trace target s)).1 in
      let g = score_scenarios-counts target scenarios in
      elim (Bool-cases (detects_attack target s)) [
        | inl h ↦ rw (f, g, h) refl
        | inr h ↦
            rw (f, g, h)
              (ap (λ n. ok (counts n (s.name ∷ (counts_of target scenarios).missed)))
                (zero_plus (count_where (detects_attack target) scenarios)))
      ]

  score_samples-records :
      (threshold : Verdict) (samples : List BenignSample)
      → score_samples detect_trace threshold samples ≡ ok (map (record_of_sample threshold) samples)
  unfolding score_samples
  score_samples-records threshold [] = refl
  score_samples-records threshold (s ∷ samples) =
      rw ((detects (sample_trace s)).1, score_samples-records threshold samples) refl

  -- The matrix of the detector's answers: each attack is detected or named, each sample has a record.
  abbrev pub Partitions :
      TargetAgent → Verdict → List Scenario → List BenignSample → DetectionQuality → Type 0
  Partitions target threshold scenarios samples q =
      (q.true_positives ≡ count_where (detects_attack target) scenarios)
      × (q.missed_attacks
          ≡ map (λ (s : Scenario). s.name) (select (λ s. not (detects_attack target s)) scenarios))
      × (q.false_negatives ≡ length q.missed_attacks)
      × (q.true_positives + q.false_negatives ≡ length scenarios)
      × (q.benign_records ≡ map (record_of_sample threshold) samples)
      × (q.false_positives ≡ count_where (flags_sample threshold) samples)
      × (q.false_positives + q.true_negatives ≡ length samples)

  -- With a detector that answers for every trace there is a report. Its true positives are the
  -- attacks whose detection reaches what the scenario expects, and all other attacks are named as
  -- missed; its false positives are the benign samples whose detection reaches the threshold. Every
  -- sample has a record of its detection, and the four counts partition the attacks and the samples.
  pub quality-Partitions :
      (target : TargetAgent) (threshold : Verdict) (scenarios : List Scenario)
      (samples : List BenignSample)
      → (q : DetectionQuality) × (evaluate_detection_quality detect_trace target threshold scenarios
            samples
          ≡ ok q)
        × Partitions target threshold scenarios samples q
  unfolding evaluate_detection_quality
  quality-Partitions target threshold scenarios samples =
      let records = map (record_of_sample threshold) samples in
      let all_attacks = count_where-not (detects_attack target) scenarios in
      let flagged =
        count_where-map (λ (r : BenignRecord). r.flagged) (record_of_sample threshold) samples in
      let some_flagged = count_where-le (λ (r : BenignRecord). r.flagged) records in
      (
        record {
          true_positives = count_where (detects_attack target) scenarios;
          false_negatives = length (counts_of target scenarios).missed;
          false_positives = count_where (λ (r : BenignRecord). r.flagged) records;
          true_negatives = length records - count_where (λ (r : BenignRecord). r.flagged) records;
          alarm_threshold = threshold;
          benign_records = records;
          missed_attacks = (counts_of target scenarios).missed;
        },
        rw (score_scenarios-counts target scenarios, score_samples-records threshold samples) refl,
        (
          refl,
          refl,
          refl,
          omega (
            arith,
            all_attacks,
            length-map (λ (s : Scenario). s.name)
                (select (λ s. not (detects_attack target s)) scenarios),
            length-select (λ s. not (detects_attack target s)) scenarios,
          ),
          refl,
          flagged,
          omega (arith, some_flagged, length-map (record_of_sample threshold) samples),
        ),
      )

-- the sums of the successes and of the totals of groups
abbrev successes_of : List (Text × RateSummary) → ℕ
successes_of [] = 0
successes_of ((name, s) ∷ groups) = s.successes + successes_of groups

abbrev totals_of : List (Text × RateSummary) → ℕ
totals_of [] = 0
totals_of ((name, s) ∷ groups) = s.total + totals_of groups

abbrev sums : List (Text × List MetricRecord) → ℕ × ℕ
sums groups = (
  successes_of (map (λ (name, items). (name, summarise items)) groups),
  totals_of (map (λ (name, items). (name, summarise items)) groups),
)

abbrev wins : MetricRecord → ℕ
wins r = if r.success then 1 else 0

add_record-sums :
    (name : Text) (r : MetricRecord) (groups : List (Text × List MetricRecord))
    → ((sums (add_record name r groups)).0 ≡ wins r + (sums groups).0)
      × ((sums (add_record name r groups)).1 ≡ 1 + (sums groups).1)
unfolding add_record summarise
add_record-sums name r [] = (omega arith, omega arith)
add_record-sums name r ((other, items) ∷ groups) =
    let (a, b) = add_record-sums name r groups in
    let won = count_where-append (λ (x : MetricRecord). x.success) items (r ∷ []) in
    let longer = length-append items (r ∷ []) in
    elim (Bool-cases (text_eq other name)) [
      | inl e ↦ rw e (omega (arith, won), omega (arith, longer))
      | inr e ↦ rw e (omega (arith, a), omega (arith, b))
    ]

group_records-sums :
    (key : MetricRecord → Text) (records : List MetricRecord)
    (groups : List (Text × List MetricRecord))
    → ((sums (group_records key records groups)).0
        ≡ count_where (λ (r : MetricRecord). r.success) records + (sums groups).0)
      × ((sums (group_records key records groups)).1 ≡ length records + (sums groups).1)
unfolding group_records
group_records-sums key [] groups = (omega arith, omega arith)
group_records-sums key (r ∷ records) groups =
    let (a, b) = group_records-sums key records (add_record (key r) r groups) in
    let (c, d) = add_record-sums (key r) r groups in (omega (arith, a, c), omega (arith, b, d))

-- By any key, the successes and the totals of the groups add up to those of the whole report.
groups_add_up :
    (key : MetricRecord → Text) (records : List MetricRecord)
    → (successes_of (group_summaries key records) ≡ (summarise records).successes)
      × (totals_of (group_summaries key records) ≡ (summarise records).total)
unfolding group_summaries summarise
groups_add_up key records =
    let (a, b) = group_records-sums key records [] in (omega (arith, a), omega (arith, b))
