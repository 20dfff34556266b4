-- ===== src/Observability/Examples.antt =====
-- Two requests of one route, with exact durations.
use ai_agent_security_lab.Prelude.{ℕ, Bool, false, List, [], ◌∷◌, text}
use ai_agent_security_lab.Observability.{Labels, Request}

abbrev get_runs : ℕ → Request ℕ
get_runs status = record {
  method = text "get";
  route = text "/runs";
  status_code = status;
  duration = 12;
}

abbrev requests : List (Request ℕ)
requests = get_runs 200 ∷ get_runs 404 ∷ []

abbrev runs_labels : Labels
runs_labels = (text "GET", text "/runs")

abbrev never : ℕ → Bool
never d = false
