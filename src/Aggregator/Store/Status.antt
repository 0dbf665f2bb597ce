-- ===== src/Aggregator/Store/Status.antt =====
-- internal/aggregator/incident_store.go: the status written to an object for a record, and the
-- records recovered from objects. A Go map is iterated in the order of its entries. Times are those
-- that the code writes; what the encoding of an object keeps of them is `reread` in Recovery.
use kube_diagnose.Common.{
  ℕ, ◌+◌, List, [], ◌∷◌, map, Bool, true, false, Option, none, some, Text, Text-discrete, codes,
  ite, ltb, if◌then◌else◌, insert,
}
use kube_diagnose.Api.{
  IncidentPhase, detecting, analyzing, resolved, AffectedResource, RecommendedAction, AiAnalysis,
  IncidentStatus, Incident,
}
use kube_diagnose.Aggregator.Store.{PodSet, AnalysisResultData, IncidentRecord, Records}

abbrev pub pod_kind : Text
pod_kind = codes "Pod"

unfoldable pub affected_pods_to_resources : Text → PodSet → List AffectedResource
affected_pods_to_resources namespace [] = []
affected_pods_to_resources namespace (pod ∷ pods) =
    record { kind = pod_kind; name = pod.0; namespace = namespace; container = [] }
    ∷ affected_pods_to_resources namespace pods

unfoldable pub numbered_actions : ℕ → List Text → List RecommendedAction
numbered_actions step [] = []
numbered_actions step (act ∷ acts) =
    record { step = step; action = act; command = []; priority = [] }
    ∷ numbered_actions (step + 1) acts

unfoldable pub crd_analysis : Option AnalysisResultData → Option AiAnalysis
crd_analysis none = none
crd_analysis (some a) = some (record {
  root_cause = a.root_cause;
  confidence = a.confidence;
  impact = a.impact;
  severity = a.severity;
  recommended_actions = numbered_actions 1 a.recommended_actions;
  related_runbooks = a.related_runbooks;
  analysis_source = a.analysis_source;
  analyzed_at = none;
  tokens_used = a.tokens_used;
})

-- "Determine phase from resolved flag and count."
unfoldable pub phase_of : Bool → ℕ → IncidentPhase
phase_of is_resolved count =
    if is_resolved then resolved else (if ltb 1 count then analyzing else detecting)

-- The status that the patch of syncStatus leads to, from the one read.
unfoldable pub sync_status : IncidentRecord → IncidentStatus → IncidentStatus
sync_status rec status = record status {
  phase = phase_of rec.is_resolved rec.count;
  fingerprint = rec.fingerprint;
  pattern = rec.pattern;
  count = rec.count;
  sample_log_message = rec.sample_message;
  affected_resources = affected_pods_to_resources rec.namespace rec.affected_pods;
  first_seen = some rec.first_seen;
  last_seen = some rec.last_seen;
  severity = rec.severity;
  is_resolved = rec.is_resolved;
  policy_ref = rec.policy_name;
  analysis = crd_analysis rec.analysis;
}

unfoldable pub pods_of : List AffectedResource → PodSet → PodSet
pods_of [] pods = pods
pods_of (res ∷ rest) pods =
    pods_of rest
      (ite (Text-discrete res.kind pod_kind) (insert Text-discrete res.name tt pods) pods)

abbrev pub actions_of : List RecommendedAction → List Text
actions_of = map (λ act. act.action)

unfoldable pub stored_analysis : Option AiAnalysis → Option AnalysisResultData
stored_analysis none = none
stored_analysis (some a) = some (record {
  root_cause = a.root_cause;
  confidence = a.confidence;
  impact = a.impact;
  severity = a.severity;
  recommended_actions = actions_of a.recommended_actions;
  related_runbooks = a.related_runbooks;
  analysis_source = a.analysis_source;
  tokens_used = a.tokens_used;
})

-- A nil time pointer gives Go's zero time.
unfoldable pub time_or_zero : Option ℕ → ℕ
time_or_zero none = 0
time_or_zero (some t) = t

unfoldable pub recovered : Incident → IncidentRecord
recovered item = record {
  fingerprint = item.status.fingerprint;
  pattern = item.status.pattern;
  sample_message = item.status.sample_log_message;
  namespace = item.namespace;
  policy_name = item.status.policy_ref;
  count = item.status.count;
  affected_pods = pods_of item.status.affected_resources [];
  first_seen = time_or_zero item.status.first_seen;
  last_seen = time_or_zero item.status.last_seen;
  severity = item.status.severity;
  is_resolved = item.status.is_resolved;
  crd_name = item.name;
  frequency_windows = [];
  analysis = stored_analysis item.status.analysis;
}

-- Resolved items, and those without a fingerprint, are skipped.
unfoldable pub is_skipped : Incident → Bool
is_skipped item =
    if item.status.is_resolved
    then true
    else ite (Text-discrete item.status.fingerprint []) true false

unfoldable pub load_items : List Incident → Records → Records
load_items [] s = s
load_items (item ∷ items) s =
    load_items items (
      if is_skipped item
      then s
      else insert Text-discrete item.status.fingerprint (recovered item) s)

-- LoadExistingIncidents on the answer of the list call; the flag is an error.
unfoldable pub load_existing_incidents : Option (List Incident) → Records → Records × Bool
load_existing_incidents none s = (s, true)
load_existing_incidents (some items) s = (load_items items s, false)
