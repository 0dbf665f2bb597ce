-- ===== src/Controller/Policy/Tests.antt =====
-- internal/controller/logwatchpolicy_controller.go: policies at concrete inputs.
use kube_diagnose.Common.{
  List, [], ◌∷◌, true, false, Option, none, some, Text, Text-discrete, codes, contains, ◌≡◌, refl,
  All,
}
use kube_diagnose.LogWatcher.Stream.{running, pending}
use kube_diagnose.LogWatcher.Watcher.{Watcher, new_watcher, start_watching_pod}
use kube_diagnose.Controller.Policy.{
  ListedPod, WorkloadSelector, Policy, resolve_namespaces, key_of, is_running, SyncError,
  sync_namespaces, Cluster, selector_of, sync_watchers, found, reconcile_policy,
  owner_deployment_name, owner_name,
}
use kube_diagnose.Controller.Policy.Coverage.{
  Watched, Extends, sync_watchers-Listed, reconcile_policy-Extends,
}

abbrev web : ListedPod
web = record {
  namespace = codes "shop";
  name = codes "web";
  phase = running;
  containers = codes "app" ∷ codes "log" ∷ [];
  owner_references = record { kind = codes "ReplicaSet"; name = codes "web-5d4" } ∷ [];
}

abbrev job : ListedPod
job = record web { name = codes "job"; phase = pending }

-- A selector is a text, which the parser takes as it is.
abbrev cluster : Cluster Text Text
cluster = record { as_selector = λ l. some l; list_pods = λ ns sel. some (web ∷ job ∷ []) }

abbrev selector : WorkloadSelector Text
selector = record {
  namespaces = codes "shop" ∷ codes "kube-system" ∷ [];
  exclude_namespaces = codes "kube-system" ∷ [];
  label_selector = some (codes "tier=web");
  deployment_names = [];
}

abbrev policy : Policy Text
policy = record {
  namespace = codes "ops";
  name = codes "all";
  enabled = true;
  workload_selector = some selector;
  status = record { ready = false; watched_pods = 0; conditions = []; last_reconcile_time = none };
}

owner_deployment_name-web : owner_deployment_name web ≡ codes "web-5d4"
unfolding owner_name Text-discrete
owner_deployment_name-web = refl

synced : (sync_watchers cluster policy new_watcher).1 ≡ none
unfolding sync_watchers selector_of resolve_namespaces sync_namespaces contains Text-discrete
synced = refl

sync_watchers-Listed_example :
    (sel : Option Text) × (selector_of cluster policy.workload_selector ≡ some sel)
    × All
        (λ ns.
          (pods : List ListedPod) × (cluster.list_pods ns sel ≡ some pods)
          × All
              (λ pod.
                is_running pod.phase ≡ true
                → All
                    (λ con. Watched (sync_watchers cluster policy new_watcher).0.0 (key_of pod con))
                    pod.containers)
              pods)
        (resolve_namespaces policy)
sync_watchers-Listed_example = sync_watchers-Listed cluster policy new_watcher synced

abbrev watching : Watcher
watching = start_watching_pod new_watcher (key_of web (codes "app"))

abbrev message : SyncError → Text
message e = codes "list pods"

reconcile_policy-Extends_example :
    (v : Watcher) × ((reconcile_policy cluster message 7
        (found (record policy { enabled = false }))
        (some watching)).0
      ≡ some v)
    × Extends watching v
reconcile_policy-Extends_example =
    reconcile_policy-Extends cluster message 7 (found (record policy { enabled = false })) watching
