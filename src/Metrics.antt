-- ===== src/Metrics.antt =====
-- metrics.py: the success rate of attacks, the quality of the detector and of the defender, and the
-- cost. A rate, which is a float, is the pair of its counts; the latencies are left out.
pub mod Evaluation
pub mod Matrix
mod Examples
use ai_agent_security_lab.Prelude.{
  ℕ, ◌+◌, ◌-◌, ◌&&◌, ◌||◌, not, Bool, true, false, List, [], ◌∷◌, ◌++◌, map, Option, none, some,
  Text, text, text_eq, length, select, count_where, if◌then◌else◌, ◌==◌,
}
use ai_agent_security_lab.Datatypes.{Verdict}
use ai_agent_security_lab.Storage.RunRepository.{text_lt}

pub record RateSummary : Type 0 where
  pub successes : ℕ
  pub total : ℕ

pub record MetricRecord : Type 0 where
  pub agent : Text
  pub attack : Text
  pub category : Text
  pub success : Bool
  pub tool : Text
  pub detector : Text
  pub detector_verdict : Text
  pub detector_modes : List Text

pub record BenignRecord : Type 0 where
  pub name : Text
  pub near_miss : Text
  pub flagged : Bool
  pub verdict : Text
  pub evidence : Text

pub record DetectionQuality : Type 0 where
  pub true_positives : ℕ
  pub false_negatives : ℕ
  pub false_positives : ℕ
  pub true_negatives : ℕ
  pub alarm_threshold : Verdict
  pub benign_records : List BenignRecord
  pub missed_attacks : List Text

pub record CostSummary : Type 0 where
  pub llm_calls : ℕ
  pub prompt_tokens : ℕ
  pub completion_tokens : ℕ

unfoldable pub total_tokens : CostSummary → ℕ
total_tokens c = c.prompt_tokens + c.completion_tokens

-- `summarise_cost`, of the usage that each detection carries: the counts of prompt and completion
unfoldable pub summarise_cost : List (Option (ℕ × ℕ)) → CostSummary → CostSummary
summarise_cost [] c = c
summarise_cost (none ∷ usages) c = summarise_cost usages c
summarise_cost (some (p, q) ∷ usages) c = summarise_cost usages (record {
  llm_calls = c.llm_calls + 1;
  prompt_tokens = c.prompt_tokens + p;
  completion_tokens = c.completion_tokens + q;
})

pub data RecordKind : Type 0 where
  attack_kind benign_kind : RecordKind

pub record DefenseRecord : Type 0 where
  pub name : Text
  pub kind : RecordKind
  pub is_blocked : Bool
  pub blocked_by : List Text
  pub reason : Text

abbrev pub is_attack_record : DefenseRecord → Bool
is_attack_record r = elim r.kind [ attack_kind ↦ true | benign_kind ↦ false ]

abbrev pub is_benign_record : DefenseRecord → Bool
is_benign_record r = elim r.kind [ attack_kind ↦ false | benign_kind ↦ true ]

-- the properties of `DefenseReport`, of its records
unfoldable pub attacks : List DefenseRecord → List DefenseRecord
attacks records = select is_attack_record records

unfoldable pub benign : List DefenseRecord → List DefenseRecord
benign records = select is_benign_record records

unfoldable pub blocked_attacks : List DefenseRecord → ℕ
blocked_attacks records = count_where (λ (r : DefenseRecord). r.is_blocked) (attacks records)

unfoldable pub completed_benign : List DefenseRecord → ℕ
completed_benign records = count_where (λ (r : DefenseRecord). not r.is_blocked) (benign records)

unfoldable pub missed_attacks_of : List DefenseRecord → List Text
missed_attacks_of records =
    map (λ (r : DefenseRecord). r.name)
      (select (λ (r : DefenseRecord). not r.is_blocked) (attacks records))

unfoldable pub blocked_benign : List DefenseRecord → List DefenseRecord
blocked_benign records = select (λ (r : DefenseRecord). r.is_blocked) (benign records)

-- `_summarise`
unfoldable pub summarise : List MetricRecord → RateSummary
summarise items = record {
  successes = count_where (λ (r : MetricRecord). r.success) items;
  total = length items;
}

-- `grouped.setdefault(name, []).append(record)`
unfoldable pub add_record :
    Text → MetricRecord → List (Text × List MetricRecord) → List (Text × List MetricRecord)
add_record name r [] = (name, r ∷ []) ∷ []
add_record name r ((other, items) ∷ groups) =
    let rest = add_record name r groups in
    if text_eq other name then (other, items ++ r ∷ []) ∷ groups else (other, items) ∷ rest

unfoldable pub group_records :
    (MetricRecord → Text)
    → List MetricRecord
    → List (Text × List MetricRecord)
    → List (Text × List MetricRecord)
group_records key [] groups = groups
group_records key (r ∷ records) groups = group_records key records (add_record (key r) r groups)

-- `_group_summaries`, for `by_agent` and `by_attack`
unfoldable pub group_summaries :
    (MetricRecord → Text) → List MetricRecord → List (Text × RateSummary)
group_summaries key records =
    map (λ (name, items). (name, summarise items)) (group_records key records [])
