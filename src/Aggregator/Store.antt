-- ===== src/Aggregator/Store.antt =====
-- internal/aggregator/incident_store.go: the records of incidents in memory, the status written
-- to an incident's object for a record, and the records recovered from the objects.
pub mod Status
pub mod Sync
pub mod Counting
pub mod History
pub mod Recovery
pub mod Loading
pub mod Uploading
pub mod Restart
mod Tests
use kube_diagnose.Common.{
  ℕ, zero, suc, ◌+◌, ◌<◌, List, [], ◌∷◌, ◌++◌, map, Bool, true, false, Option, none, some, Text,
  Text-discrete, codes, Float64, ite, ltb, if◌then◌else◌, lookup, insert,
}
use kube_diagnose.Api.{
  IncidentPhase, detecting, analyzing, resolved, AffectedResource, RecommendedAction, AiAnalysis,
  IncidentStatus, Incident,
}

-- A Go map to empty structs.
abbrev pub PodSet : Type 0
PodSet = List {0} (Text × Unit)

pub record AnalysisResultData : Type 0 where
  pub root_cause : Text
  pub confidence : Float64
  pub impact : Text
  pub severity : Text
  pub recommended_actions : List Text
  pub related_runbooks : List Text
  pub analysis_source : Text
  pub tokens_used : ℕ

pub record IncidentRecord : Type 0 where
  pub fingerprint : Text
  pub pattern : Text
  pub sample_message : Text
  pub namespace : Text
  pub policy_name : Text
  pub count : ℕ
  pub affected_pods : PodSet
  pub first_seen : ℕ
  pub last_seen : ℕ
  pub severity : Text
  pub is_resolved : Bool
  pub crd_name : Text
  pub frequency_windows : List (Text × List ℕ)
  pub analysis : Option AnalysisResultData

abbrev pub Records : Type 0
Records = List (Text × IncidentRecord)

-- The arguments of RecordEvent.
pub record Event : Type 0 where
  pub namespace : Text
  pub policy_name : Text
  pub fingerprint : Text
  pub pattern : Text
  pub sample_msg : Text
  pub pod_name : Text

abbrev pub severity_low : Text
severity_low = codes "low"

abbrev pub new_record : Event → ℕ → IncidentRecord
new_record e now = record {
  fingerprint = e.fingerprint;
  pattern = e.pattern;
  sample_message = e.sample_msg;
  namespace = e.namespace;
  policy_name = e.policy_name;
  count = 0;
  affected_pods = [];
  first_seen = now;
  last_seen = now;
  severity = severity_low;
  is_resolved = false;
  crd_name = [];
  frequency_windows = [];
  analysis = none;
}

unfoldable pub add_pod : Text → PodSet → PodSet
add_pod [] pods = pods
add_pod (c ∷ cs) pods = insert Text-discrete (c ∷ cs) tt pods

abbrev pub window_labels : List Text
window_labels = codes "1m" ∷ codes "5m" ∷ codes "15m" ∷ []

abbrev pub events_at : Text → List (Text × List ℕ) → List ℕ
events_at label windows = elim (lookup Text-discrete label windows) [ none ↦ [] | some ts ↦ ts ]

unfoldable pub append_windows : List Text → ℕ → List (Text × List ℕ) → List (Text × List ℕ)
append_windows [] now windows = windows
append_windows (label ∷ labels) now windows =
    append_windows labels now
      (insert Text-discrete label (events_at label windows ++ (now ∷ [])) windows)

-- The fields that every event updates.
unfoldable pub update_record : Event → ℕ → IncidentRecord → IncidentRecord
update_record e now rec = record rec {
  count = rec.count + 1;
  last_seen = now;
  affected_pods = add_pod e.pod_name rec.affected_pods;
  frequency_windows = append_windows window_labels now rec.frequency_windows;
}

-- The record that the event is added to, and whether it is new.
abbrev pub found_or_new : Event → ℕ → Option IncidentRecord → IncidentRecord × Bool
found_or_new e now (some rec) = (rec, false)
found_or_new e now none = (new_record e now, true)

-- The new records, the record returned and whether it is new.
unfoldable pub record_event : Event → ℕ → Records → Records × IncidentRecord × Bool
record_event e now s =
    let found = found_or_new e now (lookup Text-discrete e.fingerprint s) in
    let rec = update_record e now found.0 in
    (insert Text-discrete e.fingerprint rec s, rec, found.1)

abbrev pub placeholder : Text → ℕ → IncidentRecord
placeholder fp now = record {
  fingerprint = fp;
  pattern = [];
  sample_message = [];
  namespace = [];
  policy_name = [];
  count = 0;
  affected_pods = [];
  first_seen = now;
  last_seen = now;
  severity = [];
  is_resolved = false;
  crd_name = [];
  frequency_windows = [];
  analysis = none;
}

unfoldable pub get_or_create : Text → ℕ → Records → Records × IncidentRecord
get_or_create fp now s = elim (lookup Text-discrete fp s) [
  | some rec ↦ (s, rec)
  | none ↦ (insert Text-discrete fp (placeholder fp now) s, placeholder fp now)
]

abbrev pub get : Text → Records → Option IncidentRecord
get fp s = lookup Text-discrete fp s

unfoldable pub with_severity : Text → IncidentRecord → IncidentRecord
with_severity [] rec = rec
with_severity (c ∷ cs) rec = record rec { severity = c ∷ cs }

unfoldable pub update_severity_and_analysis :
    Text → Text → Option AnalysisResultData → Records → Records
update_severity_and_analysis fp severity none s = s
update_severity_and_analysis fp severity (some analysis) s = elim (lookup Text-discrete fp s) [
  | none ↦ s
  | some rec ↦
      insert Text-discrete fp (record (with_severity severity rec) { analysis = some analysis }) s
]
