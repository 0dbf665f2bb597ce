-- ===== src/Controller/Policy.antt =====
-- internal/controller/logwatchpolicy_controller.go: which containers a policy has streamed. The
-- label selectors, their parser and the API server's answers are parameters.
pub mod Namespaces
pub mod Coverage
mod Tests
use kube_diagnose.Common.{
  ℕ, ◌+◌, ◌*◌, List, [], ◌∷◌, ◌++◌, Bool, true, false, not, Option, none, some, Text, Text-discrete,
  codes, contains, decimal, ite, if◌then◌else◌, keep,
}
use kube_diagnose.Api.{Condition}
use kube_diagnose.LogWatcher.Stream.{PodPhase, running, pending, succeeded, failed, unknown, second}
use kube_diagnose.LogWatcher.Watcher.{WatcherKey, Watcher, start_watching_pod}

pub record OwnerReference : Type 0 where
  pub kind : Text
  pub name : Text

-- Of a pod: what the reconciler reads.
pub record ListedPod : Type 0 where
  pub namespace : Text
  pub name : Text
  pub phase : PodPhase
  pub containers : List Text
  pub owner_references : List OwnerReference

-- `L` is the type of label selectors.
pub record WorkloadSelector (L : Type 0) : Type 0 where
  pub namespaces : List Text
  pub exclude_namespaces : List Text
  pub label_selector : Option L
  pub deployment_names : List Text

pub record PolicyStatus : Type 0 where
  pub ready : Bool
  pub watched_pods : ℕ
  pub conditions : List Condition
  pub last_reconcile_time : Option ℕ

-- Of the policy: its metadata, the fields of the spec that the reconciler reads, and its status.
pub record Policy (L : Type 0) : Type 0 where
  pub namespace : Text
  pub name : Text
  pub enabled : Bool
  pub workload_selector : Option (WorkloadSelector L)
  pub status : PolicyStatus

abbrev pub listed_or_own : Text → List Text → List Text → List Text
listed_or_own own [] excluded = own ∷ []
listed_or_own own (ns ∷ rest) excluded = keep (λ n. not (contains n excluded)) (ns ∷ rest)

unfoldable pub resolve_namespaces : {L : Type 0} → Policy L → List Text
resolve_namespaces policy = elim policy.workload_selector [
  | none ↦ policy.namespace ∷ []
  | some sel ↦ listed_or_own policy.namespace sel.namespaces sel.exclude_namespaces
]

-- The first owner that is a ReplicaSet, a StatefulSet or a DaemonSet.
unfoldable pub owner_name : List OwnerReference → Text
owner_name [] = []
owner_name (ref ∷ refs) = ite (Text-discrete ref.kind (codes "ReplicaSet")) ref.name (
    ite (Text-discrete ref.kind (codes "StatefulSet")) ref.name
      (ite (Text-discrete ref.kind (codes "DaemonSet")) ref.name (owner_name refs)))

abbrev pub owner_deployment_name : ListedPod → Text
owner_deployment_name pod = owner_name pod.owner_references

abbrev pub key_of : ListedPod → Text → WatcherKey
key_of pod container = record { namespace = pod.namespace; pod = pod.name; container = container }

-- The watcher and the number of containers so far.
abbrev pub Synced : Type 0
Synced = Watcher × ℕ

unfoldable pub start_containers : ListedPod → List Text → Synced → Synced
start_containers pod [] s = s
start_containers pod (c ∷ cs) s =
    start_containers pod cs (start_watching_pod s.0 (key_of pod c), s.1 + 1)

abbrev pub is_running : PodPhase → Bool
is_running running = true
is_running _ = false

unfoldable pub sync_pods : List ListedPod → Synced → Synced
sync_pods [] s = s
sync_pods (pod ∷ pods) s =
    sync_pods pods (if is_running pod.phase then start_containers pod pod.containers s else s)

pub data SyncError : Type 0 where
  bad_selector : SyncError
  list_failed : Text → SyncError

-- The watcher and the count when the loop ended, and the error that ended it.
unfoldable pub sync_namespaces :
    (Text → Option (List ListedPod)) → List Text → Synced → Synced × Option SyncError
sync_namespaces list [] s = (s, none)
sync_namespaces list (ns ∷ rest) s = elim (list ns) [
  | none ↦ (s, some (list_failed ns))
  | some pods ↦ sync_namespaces list rest (sync_pods pods s)
]

-- The calls on the API server: `none` is an error.
pub record Cluster (L S : Type 0) : Type 0 where
  pub as_selector : L → Option S
  pub list_pods : Text → Option S → Option (List ListedPod)

-- The parsed selector, or none for an error.
unfoldable pub selector_of :
    {L S : Type 0} → Cluster L S → Option (WorkloadSelector L) → Option (Option S)
selector_of c none = some none
selector_of c (some sel) = elim sel.label_selector [
  | none ↦ some none
  | some l ↦ elim (c.as_selector l) [ none ↦ none | some s ↦ some (some s) ]
]

unfoldable pub sync_watchers :
    {L S : Type 0} → Cluster L S → Policy L → Watcher → Synced × Option SyncError
sync_watchers c policy w = elim (selector_of c policy.workload_selector) [
  | none ↦ ((w, 0), some bad_selector)
  | some sel ↦ sync_namespaces (λ ns. c.list_pods ns sel) (resolve_namespaces policy) (w, 0)
]

-- What a reconciliation asks for: another pass after some nanoseconds, and whether it failed.
pub record PolicyOutcome : Type 0 where
  pub requeue_after : ℕ
  pub failed_with : Option SyncError

-- `Sprintf` of the error, which stands in the condition's message.
abbrev pub ready_condition : Option SyncError → (SyncError → Text) → ℕ → ℕ → Condition
ready_condition none error_text watched now = record {
  kind = codes "Ready";
  status = true;
  reason = codes "Watching";
  message = codes "Watching " ++ (decimal watched ++ codes " pod containers");
  last_transition_time = now;
}
ready_condition (some e) error_text watched now = record {
  kind = codes "Ready";
  status = false;
  reason = codes "Error";
  message = error_text e;
  last_transition_time = now;
}

abbrev pub is_none {ℓ} : {A : Type ℓ} → Option A → Bool
is_none none = true
is_none (some a) = false

-- The status that is sent, and the outcome, whether the server takes the status or not.
unfoldable pub update_policy_status :
    (SyncError → Text) → ℕ → Option SyncError → ℕ → PolicyStatus × PolicyOutcome
update_policy_status error_text watched e now = (
  record {
    ready = is_none e;
    watched_pods = watched;
    conditions = ready_condition e error_text watched now ∷ [];
    last_reconcile_time = some now;
  },
  record { requeue_after = (if is_none e then 120 * second else 30 * second); failed_with = e },
)

-- The answer to the fetch of the policy.
pub data FetchedPolicy (L : Type 0) : Type 0 where
  not_found : FetchedPolicy L
  fetch_error : FetchedPolicy L
  found : Policy L → FetchedPolicy L

pub data Pass : Type 0 where
  -- Nothing more to do, or the fetch failed.
  stops : Pass
  fails : Pass
  -- The policy is disabled, or the platform is not there yet: come back after some time.
  waits : ℕ → Pass
  reports : PolicyStatus → PolicyOutcome → Pass

abbrev pub synced_pass : (SyncError → Text) → ℕ → Synced × Option SyncError → Option Watcher × Pass
synced_pass error_text now r =
    let u = update_policy_status error_text r.0.1 r.1 now in (some r.0.0, reports u.0 u.1)

-- One pass: the platform's watcher, if there is one, before and after it.
unfoldable pub reconcile_policy :
    {L S : Type 0}
    → Cluster L S
    → (SyncError → Text)
    → ℕ
    → FetchedPolicy L
    → Option Watcher
    → Option Watcher × Pass
reconcile_policy c error_text now not_found platform = (platform, stops)
reconcile_policy c error_text now fetch_error platform = (platform, fails)
reconcile_policy c error_text now (found policy) platform =
    if policy.enabled
    then elim platform [
      | none ↦ (none, waits (15 * second))
      | some w ↦ synced_pass error_text now (sync_watchers c policy w)
    ]
    else (platform, waits (300 * second))
