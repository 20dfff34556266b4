-- ===== src/Observability.antt =====
-- observability.py: the registry of metrics and the hash of a tenant. The durations are those of a
-- type `D` with a zero, an addition and a test for a negative one, which in the source are the
-- floats: the addition need not be exact. The lock makes each call one step.
pub mod Counts
mod Examples
use ai_agent_security_lab.Prelude.{
  ℕ, ◌+◌, ◌-◌, ◌||◌, ◌&&◌, not, Bool, true, false, List, [], ◌∷◌, ◌++◌, Text, text, text_eq, truthy,
  take, Result, ok, err, value_error, leb, ◌==◌, if◌then◌else◌, map,
}
use ai_agent_security_lab.Auth.Tokens.{utf8}
use ai_agent_security_lab.Atlas.Registry.{upper}

-- `sha256` is the hexadecimal digest.
unfoldable pub tenant_hash : (List ℕ → Text) → Text → Text → Result Text
tenant_hash sha256 tenant_id salt =
    if not (truthy tenant_id) || not (truthy salt)
    then err (value_error "tenant_id and salt are required")
    else ok (take 16 (sha256 (utf8 (salt ++ b':' ∷ tenant_id))))

abbrev pub Labels : Type 0
Labels = Text × Text

abbrev pub labels_eq : Labels → Labels → Bool
labels_eq a b = text_eq a.0 b.0 && text_eq a.1 b.1

abbrev pub request_eq : Labels × ℕ → Labels × ℕ → Bool
request_eq a b = labels_eq a.0 b.0 && a.1 == b.1

-- `MetricsRegistry`, and `MetricsSnapshot`, which copies the three dictionaries.
pub record MetricsRegistry (D : Type 0) : Type 0 where
  pub requests_total : List ((Labels × ℕ) × ℕ)
  pub duration_total : List (Labels × D)
  pub duration_count : List (Labels × ℕ)

abbrev pub no_metrics : {D : Type 0} → MetricsRegistry D
no_metrics = record { requests_total = []; duration_total = []; duration_count = [] }

module _ {K V : Type 0} (same : K → K → Bool) (start : V) (plus : V → V → V) where
  -- `counters[key] += n` of a `defaultdict`, whose new values are `start`
  abbrev pub add_at : K → V → List (K × V) → List (K × V)
  add_at key n [] = (key, plus start n) ∷ []
  add_at key n ((k, m) ∷ counters) =
      if same k key then (k, plus m n) ∷ counters else (k, m) ∷ add_at key n counters

module _ {K V : Type 0} (same : K → K → Bool) (start : V) where
  -- the counter's value, `start` for a key that it does not have
  abbrev pub count_at : K → List (K × V) → V
  count_at key [] = start
  count_at key ((k, m) ∷ counters) = if same k key then m else count_at key counters

pub record Request (D : Type 0) : Type 0 where
  pub method : Text
  pub route : Text
  pub status_code : ℕ
  pub duration : D

abbrev pub labels_of : {D : Type 0} → Request D → Labels
labels_of r = (upper r.method, r.route)

abbrev pub plus_count : ℕ → ℕ → ℕ
plus_count m n = m + n

module _ {D : Type 0} (zero_duration : D) (plus : D → D → D) (is_negative : D → Bool) where
  unfoldable pub observe_request :
      Request D → MetricsRegistry D → Result (Unit {0}) × MetricsRegistry D
  observe_request r metrics =
      if is_negative r.duration
      then (err (value_error "duration_ms cannot be negative"), metrics)
      else (
        ok tt,
        record {
          requests_total =
              add_at request_eq 0 plus_count (labels_of r, r.status_code) 1 metrics.requests_total;
          duration_total =
              add_at labels_eq zero_duration plus (labels_of r) r.duration metrics.duration_total;
          duration_count = add_at labels_eq 0 plus_count (labels_of r) 1 metrics.duration_count;
        },
      )

  -- The calls of a history, the first one first.
  unfoldable pub observe_all : List (Request D) → MetricsRegistry D → MetricsRegistry D
  observe_all [] metrics = metrics
  observe_all (r ∷ requests) metrics = observe_all requests (observe_request r metrics).1
