-- ===== src/Observability/Counts.antt =====
-- observability.py: what the counters are after any sequence of calls.
use ai_agent_security_lab.Prelude.{ℕ, Bool, not, ◌&&◌, List, [], ◌∷◌}
use ai_agent_security_lab.Observability.{Labels, labels_eq, request_eq, Request, labels_of}

module _ {D : Type 0} (zero_duration : D) (plus : D → D → D) (is_negative : D → Bool) where
  -- The durations are added to `total` one after the other.
  abbrev pub add_durations : D → List (Request D) → D
  add_durations total [] = total
  add_durations total (r ∷ requests) = add_durations (plus total r.duration) requests

  -- The calls of these labels that do not raise.
  abbrev pub is_counted : Labels → Request D → Bool
  is_counted labels r = not (is_negative r.duration) && labels_eq (labels_of r) labels

  abbrev pub is_answered : Labels → ℕ → Request D → Bool
  is_answered labels status r =
      not (is_negative r.duration) && request_eq (labels_of r, r.status_code) (labels, status)
