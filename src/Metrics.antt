-- ===== src/Metrics.antt =====
-- internal/observability/metrics.go: what is counted. A sample is kept as the duration, of which the
-- code keeps the seconds; the page for Prometheus is not modelled.
pub mod Samples
use pixrail_go_payment_switc.Prelude.{
  ℕ, ◌-◌, Bool, List, [], ◌∷◌, ◌++◌, Text, str, ℤ, pos, Map, Option, none, some, lookup, insert,
  inc64, wrap64, ◌+ℤ◌, ltb, length, drop, if◌then◌else◌,
}
use pixrail_go_payment_switc.Rail.Request.{decimal}

pub record Metrics : Type 0 where
  pub requests : Map ℤ
  pub latency : Map (List ℤ)
  pub decisions : Map ℤ
  pub events : Map ℤ

abbrev pub new_metrics : Metrics
new_metrics = record { requests = []; latency = []; decisions = []; events = [] }

-- `maxLatencySamplesPerRoute`
abbrev pub max_latency_samples : ℕ
max_latency_samples = 1024

-- `m[key]` of a map of numbers.
abbrev pub count_of : Text → Map ℤ → ℤ
count_of key m = elim (lookup key m) [ none ↦ pos 0 | some n ↦ n ]

abbrev pub samples_of : Text → Map (List ℤ) → List ℤ
samples_of key m = elim (lookup key m) [ none ↦ [] | some samples ↦ samples ]

-- `method="…",route="…"`
unfoldable pub latency_key : Text → Text → Text
latency_key method route = str "method=\"" ++ (method ++ (str "\",route=\"" ++ (route ++ str "\"")))

unfoldable pub request_key : Text → Text → ℕ → Text
unfolding latency_key
request_key method route status =
    latency_key method route ++ (str ",status=\"" ++ (decimal (pos status) ++ str "\""))

-- The last samples, when there are too many.
unfoldable pub keep_last : List ℤ → List ℤ
keep_last samples =
    if ltb max_latency_samples (length samples)
    then drop (length samples - max_latency_samples) samples
    else samples

-- `ObserveRequest`
unfoldable pub observe_request : Metrics → Text → Text → ℕ → ℤ → Metrics
unfolding keep_last
observe_request m method route status elapsed =
    let key = request_key method route status in
    let timed = latency_key method route in
    record m {
      requests = insert key (inc64 (count_of key m.requests)) m.requests;
      latency = insert timed (keep_last (samples_of timed m.latency ++ (elapsed ∷ []))) m.latency;
    }

-- `ObserveDecision`
unfoldable pub observe_decision : Metrics → Text → Metrics
observe_decision m status = record m {
  decisions = insert status (inc64 (count_of status m.decisions)) m.decisions;
}

-- `ObserveEvents`
unfoldable pub observe_events : Metrics → ℕ → Metrics
observe_events m count =
    let key = str "outbox_inserted" in
    record m { events = insert key (wrap64 (count_of key m.events +ℤ pos count)) m.events }
