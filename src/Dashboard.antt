-- ===== src/Dashboard.antt =====
-- internal/dashboard/handlers.go: what the handlers show of the store and of the analyzer. The
-- sorting of records and of texts, and the formats of times and percentages, are parameters; the
-- JSON and the HTML that the values are put into are left out.
pub mod Counts
mod Tests
use kube_diagnose.Common.{
  ℕ, zero, suc, ◌+◌, List, [], ◌∷◌, ◌++◌, map, Bool, true, false, Option, none, some, Text,
  Text-discrete, codes, ite, leb, if◌then◌else◌, length, take, Float64,
}
use kube_diagnose.Aggregator.Store.{IncidentRecord, Records, AnalysisResultData}
use kube_diagnose.Aggregator.Store
use kube_diagnose.Llm.Analyzer.{Analyzer}
use kube_diagnose.Llm.Cache.{len}

-- List: the records of the map, in the order that the map gives them.
abbrev pub list_records : Records → List IncidentRecord
list_records s = map (λ entry. entry.1) s

pub record IncidentItem : Type 0 where
  pub fingerprint : Text
  pub pattern : Text
  pub namespace : Text
  pub count : ℕ
  pub severity : Text
  pub is_resolved : Bool
  pub first_seen : ℕ
  pub last_seen : ℕ
  pub affected_pods : ℕ
  pub root_cause : Text
  pub confidence : Float64

abbrev pub root_cause_of : Option AnalysisResultData → Text
root_cause_of none = []
root_cause_of (some a) = a.root_cause

-- The zero of a float64 without an analysis.
abbrev pub confidence_of : Option AnalysisResultData → Float64
confidence_of none = 0
confidence_of (some a) = a.confidence

abbrev pub incident_item : IncidentRecord → IncidentItem
incident_item rec = record {
  fingerprint = rec.fingerprint;
  pattern = rec.pattern;
  namespace = rec.namespace;
  count = rec.count;
  severity = rec.severity;
  is_resolved = rec.is_resolved;
  first_seen = rec.first_seen;
  last_seen = rec.last_seen;
  affected_pods = length rec.affected_pods;
  root_cause = root_cause_of rec.analysis;
  confidence = confidence_of rec.analysis;
}

unfoldable pub api_list_incidents :
    (List IncidentRecord → List IncidentRecord) → Records → List IncidentItem
api_list_incidents sort s = map incident_item (sort (list_records s))

pub record Detail : Type 0 where
  pub fingerprint : Text
  pub pattern : Text
  pub namespace : Text
  pub policy_name : Text
  pub count : ℕ
  pub severity : Text
  pub is_resolved : Bool
  pub first_seen : ℕ
  pub last_seen : ℕ
  pub sample_message : Text
  pub affected_pods : List Text
  pub analysis : Option AnalysisResultData

-- none is the answer 404.
unfoldable pub api_get_incident : (List Text → List Text) → Text → Records → Option Detail
api_get_incident sort fp s = elim (Store.get fp s) [
  | none ↦ none
  | some rec ↦ some (record {
    fingerprint = rec.fingerprint;
    pattern = rec.pattern;
    namespace = rec.namespace;
    policy_name = rec.policy_name;
    count = rec.count;
    severity = rec.severity;
    is_resolved = rec.is_resolved;
    first_seen = rec.first_seen;
    last_seen = rec.last_seen;
    sample_message = rec.sample_message;
    affected_pods = sort (map (λ entry. entry.0) rec.affected_pods);
    analysis = rec.analysis;
  })
]

pub record AnalyzerStats : Type 0 where
  pub llm_calls_this_hour : ℕ
  pub max_calls_per_hour : ℕ
  pub cache_size : ℕ
  pub cache_hits_total : ℕ
  pub rag_shortcuts_total : ℕ
  pub llm_calls_total : ℕ

-- Stats of internal/llm/analyzer.go.
abbrev pub stats : Analyzer → AnalyzerStats
stats a = record {
  llm_calls_this_hour = a.calls_this_hour;
  max_calls_per_hour = a.max_calls_per_hour;
  cache_size = len a.cache;
  cache_hits_total = a.cache_hits;
  rag_shortcuts_total = a.rag_shortcuts;
  llm_calls_total = a.llm_calls;
}

pub record PlatformStats : Type 0 where
  pub total_incidents : ℕ
  pub active_incidents : ℕ
  pub resolved_incidents : ℕ
  pub analyzer : Option AnalyzerStats

-- The active and the resolved records of the loop.
unfoldable pub count_states : List IncidentRecord → ℕ → ℕ → ℕ × ℕ
count_states [] active resolved = (active, resolved)
count_states (rec ∷ recs) active resolved =
    if rec.is_resolved
    then count_states recs active (suc resolved)
    else count_states recs (suc active) resolved

abbrev pub stats_of : Option Analyzer → Option AnalyzerStats
stats_of none = none
stats_of (some a) = some (stats a)

unfoldable pub api_stats : Records → Option Analyzer → PlatformStats
api_stats s analyzer =
    let counts = count_states (list_records s) 0 0 in
    record {
      total_incidents = length (list_records s);
      active_incidents = counts.0;
      resolved_incidents = counts.1;
      analyzer = stats_of analyzer;
    }

pub record IndexData : Type 0 where
  pub active_incidents : ℕ
  pub critical_incidents : ℕ
  pub total_incidents : ℕ

-- The active records and, of these, the critical ones.
unfoldable pub count_critical : List IncidentRecord → ℕ → ℕ → ℕ × ℕ
count_critical [] active critical = (active, critical)
count_critical (rec ∷ recs) active critical =
    if rec.is_resolved
    then count_critical recs active critical
    else count_critical recs (suc active)
        (ite (Text-discrete rec.severity (codes "critical")) (suc critical) critical)

-- none is the answer 404, for any path but the root.
unfoldable pub index_page : Text → Records → Option IndexData
index_page path s =
    let counts = count_critical (list_records s) 0 0 in
    ite (Text-discrete path (codes "/"))
      (some (record {
        active_incidents = counts.0;
        critical_incidents = counts.1;
        total_incidents = length (list_records s);
      }))
      none

unfoldable pub severity_class : Text → Text
severity_class s = ite (Text-discrete s (codes "critical")) (codes "severity-critical") (
    ite (Text-discrete s (codes "high")) (codes "severity-high")
      (ite (Text-discrete s (codes "medium")) (codes "severity-medium") (codes "severity-low")))

-- The ellipsis is three bytes of UTF-8; the text is cut between bytes.
unfoldable pub truncate : Text → ℕ → Text
truncate s n = if leb (length s) n then s else take n s ++ (0xE2 ∷ 0x80 ∷ 0xA6 ∷ [])

pub record Row : Type 0 where
  pub fingerprint : Text
  pub pattern : Text
  pub namespace : Text
  pub count : ℕ
  pub severity : Text
  pub severity_class : Text
  pub affected_pods : ℕ
  pub last_seen : Text
  pub is_resolved : Bool
  pub root_cause : Text
  pub confidence : Text
  pub impact : Text
  pub recommended_actions : List Text

abbrev pub not_available : Text
not_available = codes "N/A"

-- `percent` is `%.0f%%` of a hundred times the confidence.
abbrev pub row_of : (ℕ → Text) → (Float64 → Text) → IncidentRecord → Row
row_of format_time percent rec = record {
  fingerprint = rec.fingerprint;
  pattern = truncate rec.pattern 80;
  namespace = rec.namespace;
  count = rec.count;
  severity = rec.severity;
  severity_class = severity_class rec.severity;
  affected_pods = length rec.affected_pods;
  last_seen = format_time rec.last_seen;
  is_resolved = rec.is_resolved;
  root_cause = elim rec.analysis [ none ↦ codes "No analysis" | some a ↦ a.root_cause ];
  confidence = elim rec.analysis [ none ↦ not_available | some a ↦ percent a.confidence ];
  impact = elim rec.analysis [ none ↦ not_available | some a ↦ a.impact ];
  recommended_actions = elim rec.analysis [ none ↦ [] | some a ↦ a.recommended_actions ];
}

unfoldable pub incidents_page :
    (List IncidentRecord → List IncidentRecord) → (ℕ → Text) → (Float64 → Text) → Records → List Row
incidents_page sort format_time percent s = map (row_of format_time percent) (sort (list_records s))

pub record DetailPage : Type 0 where
  pub rec : IncidentRecord
  pub affected_pods : List Text
  pub first_seen : Text
  pub last_seen : Text
  pub severity_class : Text

-- none is the answer 404.
unfoldable pub incident_detail_page :
    (List Text → List Text) → (ℕ → Text) → Text → Records → Option DetailPage
incident_detail_page sort format_time fp s = elim (Store.get fp s) [
  | none ↦ none
  | some rec ↦ some (record {
    rec = rec;
    affected_pods = sort (map (λ entry. entry.0) rec.affected_pods);
    first_seen = format_time rec.first_seen;
    last_seen = format_time rec.last_seen;
    severity_class = severity_class rec.severity;
  })
]
