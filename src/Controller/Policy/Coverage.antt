-- ===== src/Controller/Policy/Coverage.antt =====
-- internal/controller/logwatchpolicy_controller.go: what a pass does to the watched containers.
use kube_diagnose.Common.{
  ℕ, ◌+◌, List, [], ◌∷◌, ◌++◌, append_assoc, true, false, Option, none, some, Text, ◌≡◌, refl, sym,
  ◌∙◌, ap, subst, arith, inl, inr, lookup, insert, lookup-insert, lookup-insert_self, All,
  Bool-cases, Option-cases, if◌then◌else◌,
}
use kube_diagnose.LogWatcher.Watcher.{
  WatcherKey, WatcherKey-discrete, Goroutine, Watcher, start_watching_pod,
}
use kube_diagnose.LogWatcher.Watcher.Orphans.{start_absent, start_present}
use kube_diagnose.Controller.Policy.{
  ListedPod, Policy, resolve_namespaces, key_of, Synced, start_containers, is_running, sync_pods,
  SyncError, sync_namespaces, Cluster, selector_of, sync_watchers, FetchedPolicy, not_found,
  fetch_error, found, reconcile_policy,
}

-- The container has an entry in the watcher's map.
abbrev pub Watched : Watcher → WatcherKey → Type 0
Watched w key = (id : ℕ) × (lookup WatcherKey-discrete key w.watchers ≡ some id)

-- Goroutines are only added, and every entry of the map stays.
pub record Extends (w v : Watcher) : Type 0 where
  pub added : List Goroutine
  pub keeps : v.goroutines ≡ added ++ w.goroutines
  pub entries :
      (key : WatcherKey) (id : ℕ)
      → lookup WatcherKey-discrete key w.watchers ≡ some id
      → lookup WatcherKey-discrete key v.watchers ≡ some id

Extends-refl : (w : Watcher) → Extends w w
Extends-refl w = record { added = []; keeps = refl; entries = λ key id h. h }

Extends-trans : {u v w : Watcher} → Extends u v → Extends v w → Extends u w
Extends-trans {u} a b = record {
  added = b.added ++ a.added;
  keeps =
      b.keeps ∙ ap (λ gs. b.added ++ gs) a.keeps ∙ sym (append_assoc b.added a.added u.goroutines);
  entries = λ key id h. b.entries key id (a.entries key id h);
}

Watched-Extends : {v w : Watcher} (key : WatcherKey) → Extends v w → Watched v key → Watched w key
Watched-Extends key x (id, e) = (id, x.entries key id e)

start-Extends : (w : Watcher) (key : WatcherKey) → Extends w (start_watching_pod w key)
start-Extends w key = elim (Option-cases (lookup WatcherKey-discrete key w.watchers)) [
  | inl e ↦ subst (Extends w) (sym (start_absent w key e)) (record {
    added = record { id = w.next_id; key = key; is_cancelled = false } ∷ [];
    keeps = refl;
    entries = λ asked id h. still asked id e h;
  })
  | inr (id, e) ↦ subst (Extends w) (sym (start_present w key id e)) (Extends-refl w)
]
  where
    still :
        (asked : WatcherKey) (id : ℕ)
        → lookup WatcherKey-discrete key w.watchers ≡ none
        → lookup WatcherKey-discrete asked w.watchers ≡ some id
        → lookup WatcherKey-discrete asked (insert WatcherKey-discrete key w.next_id w.watchers)
          ≡ some id
    still asked id e h =
        ground (arith, lookup-insert WatcherKey-discrete key asked w.next_id w.watchers)

start-Watched : (w : Watcher) (key : WatcherKey) → Watched (start_watching_pod w key) key
start-Watched w key = elim (Option-cases (lookup WatcherKey-discrete key w.watchers)) [
  | inl e ↦
      rw (start_absent w key e)
        (w.next_id, lookup-insert_self WatcherKey-discrete key w.next_id w.watchers)
  | inr (id, e) ↦ rw (start_present w key id e) (id, e)
]

start_containers-Extends :
    (pod : ListedPod) (cs : List Text) (s : Synced) → Extends s.0 (start_containers pod cs s).0
unfolding start_containers
start_containers-Extends pod [] s = Extends-refl s.0
start_containers-Extends pod (c ∷ cs) s =
    Extends-trans (start-Extends s.0 (key_of pod c))
      (start_containers-Extends pod cs (start_watching_pod s.0 (key_of pod c), s.1 + 1))

start_containers-Watched :
    (pod : ListedPod) (cs : List Text) (s : Synced)
    → All (λ c. Watched (start_containers pod cs s).0 (key_of pod c)) cs
unfolding start_containers
start_containers-Watched pod [] s = tt
start_containers-Watched pod (c ∷ cs) s =
    let after : Synced = (start_watching_pod s.0 (key_of pod c), s.1 + 1) in
    (
      Watched-Extends (key_of pod c) (start_containers-Extends pod cs after)
          (start-Watched s.0 (key_of pod c)),
      start_containers-Watched pod cs after,
    )

-- A running pod has all its containers watched.
abbrev pub PodWatched : Watcher → ListedPod → Type 0
PodWatched w pod = is_running pod.phase ≡ true → All (λ c. Watched w (key_of pod c)) pod.containers

All-Extends :
    {v w : Watcher} (pod : ListedPod) (cs : List Text)
    → Extends v w
    → All (λ c. Watched v (key_of pod c)) cs
    → All (λ c. Watched w (key_of pod c)) cs
All-Extends pod [] x h = tt
All-Extends pod (c ∷ cs) x h = (Watched-Extends (key_of pod c) x h.0, All-Extends pod cs x h.1)

abbrev sync_pod : ListedPod → Synced → Synced
sync_pod pod s = if is_running pod.phase then start_containers pod pod.containers s else s

sync_pod-Extends : (pod : ListedPod) (s : Synced) → Extends s.0 (sync_pod pod s).0
sync_pod-Extends pod s = elim (Bool-cases (is_running pod.phase)) [
  | inl e ↦ simp e (start_containers-Extends pod pod.containers s)
  | inr e ↦ simp e (Extends-refl s.0)
]

sync_pod-PodWatched : (pod : ListedPod) (s : Synced) → PodWatched (sync_pod pod s).0 pod
sync_pod-PodWatched pod s run = simp run (start_containers-Watched pod pod.containers s)

sync_pods-Extends : (pods : List ListedPod) (s : Synced) → Extends s.0 (sync_pods pods s).0
unfolding sync_pods
sync_pods-Extends [] s = Extends-refl s.0
sync_pods-Extends (pod ∷ pods) s =
    Extends-trans (sync_pod-Extends pod s) (sync_pods-Extends pods (sync_pod pod s))

sync_pods-PodWatched :
    (pods : List ListedPod) (s : Synced) → All (PodWatched (sync_pods pods s).0) pods
unfolding sync_pods
sync_pods-PodWatched [] s = tt
sync_pods-PodWatched (pod ∷ pods) s = (
  λ run.
      All-Extends pod pod.containers (sync_pods-Extends pods (sync_pod pod s))
        (sync_pod-PodWatched pod s run),
  sync_pods-PodWatched pods (sync_pod pod s),
)

module _ (list : Text → Option (List ListedPod)) where
  sync_namespaces-Extends :
      (nss : List Text) (s : Synced) → Extends s.0 (sync_namespaces list nss s).0.0
  unfolding sync_namespaces
  sync_namespaces-Extends [] s = Extends-refl s.0
  sync_namespaces-Extends (ns ∷ nss) s = elim (Option-cases (list ns)) [
    | inl e ↦ rw (e, sync_namespaces) (Extends-refl s.0)
    | inr (pods, e) ↦
        rw (e, sync_namespaces)
          (Extends-trans (sync_pods-Extends pods s)
            (sync_namespaces-Extends nss (sync_pods pods s)))
  ]

  -- The namespace was listed, and its running pods are watched.
  abbrev pub Listed : Watcher → Text → Type 0
  Listed w ns = (pods : List ListedPod) × (list ns ≡ some pods) × All (PodWatched w) pods

  PodWatched-Extends :
      {v w : Watcher} (pods : List ListedPod)
      → Extends v w
      → All (PodWatched v) pods
      → All (PodWatched w) pods
  PodWatched-Extends [] x h = tt
  PodWatched-Extends (pod ∷ pods) x h =
      (λ run. All-Extends pod pod.containers x (h.0 run), PodWatched-Extends pods x h.1)

  sync_namespaces-Listed :
      (nss : List Text) (s : Synced)
      → (sync_namespaces list nss s).1 ≡ none
      → All (Listed (sync_namespaces list nss s).0.0) nss
  unfolding sync_namespaces
  sync_namespaces-Listed [] s h = tt
  sync_namespaces-Listed (ns ∷ nss) s h = elim (Option-cases (list ns)) [
    | inl e ↦ absurd (failed e h)
    | inr (pods, e) ↦
        let ok : (sync_namespaces list nss (sync_pods pods s)).1 ≡ none =
          sym (ap (λ r. r.1) (listed pods e)) ∙ h in
        subst (λ r. All (Listed r.0.0) (ns ∷ nss)) (sym (listed pods e))
          (
            (
              pods,
              e,
              PodWatched-Extends pods (sync_namespaces-Extends nss (sync_pods pods s))
                  (sync_pods-PodWatched pods s),
            ),
            sync_namespaces-Listed nss (sync_pods pods s) ok,
          )
  ]
    where
      listed :
          (pods : List ListedPod)
          → list ns ≡ some pods
          → sync_namespaces list (ns ∷ nss) s ≡ sync_namespaces list nss (sync_pods pods s)
      listed pods e = rw (e, sync_namespaces) refl

      failed : list ns ≡ none → (sync_namespaces list (ns ∷ nss) s).1 ≡ none → ⊥
      failed e h = ground arith

module _ {L S : Type 0} (c : Cluster L S) where
  sync_watchers_listed :
      (policy : Policy L) (w : Watcher) (sel : Option S)
      → selector_of c policy.workload_selector ≡ some sel
      → sync_watchers c policy w
        ≡ sync_namespaces (λ ns. c.list_pods ns sel) (resolve_namespaces policy) (w, 0)
  unfolding sync_watchers
  sync_watchers_listed policy w sel e = rw (e, sync_watchers) refl

  -- When the synchronisation of a policy ends without an error, the pods of each of its namespaces
  -- were listed with its selector, and every container of the running ones is watched.
  pub sync_watchers-Listed :
      (policy : Policy L) (w : Watcher)
      → (sync_watchers c policy w).1 ≡ none
      → (sel : Option S) × (selector_of c policy.workload_selector ≡ some sel)
        × All
            (λ ns.
              (pods : List ListedPod) × (c.list_pods ns sel ≡ some pods)
              × All
                  (λ pod.
                    is_running pod.phase ≡ true
                    → All
                        (λ con. Watched (sync_watchers c policy w).0.0 (key_of pod con))
                        pod.containers)
                  pods)
            (resolve_namespaces policy)
  unfolding sync_watchers
  sync_watchers-Listed policy w h = elim (Option-cases (selector_of c policy.workload_selector)) [
    | inl e ↦ absurd (failed e h)
    | inr (sel, e) ↦ (
      sel,
      e,
      rw (sync_watchers_listed policy w sel e) (
          sync_namespaces-Listed (λ ns. c.list_pods ns sel) (resolve_namespaces policy) (w, 0)
            (sym (ap (λ r. r.1) (sync_watchers_listed policy w sel e)) ∙ h)),
    )
  ]
    where
      failed :
          selector_of c policy.workload_selector ≡ none → (sync_watchers c policy w).1 ≡ none → ⊥
      failed e h = ground arith

  sync_watchers-Extends :
      (policy : Policy L) (w : Watcher) → Extends w (sync_watchers c policy w).0.0
  unfolding sync_watchers
  sync_watchers-Extends policy w = elim (Option-cases (selector_of c policy.workload_selector)) [
    | inl e ↦ rw (e, sync_watchers) (Extends-refl w)
    | inr (sel, e) ↦
        rw (sync_watchers_listed policy w sel e)
          (sync_namespaces-Extends (λ ns. c.list_pods ns sel) (resolve_namespaces policy) (w, 0))
  ]

  -- No pass stops a stream: whether the policy is gone, disabled or changed, every goroutine
  -- goes on as it was, and every container that was watched stays so with its goroutine.
  pub reconcile_policy-Extends :
      (error_text : SyncError → Text) (now : ℕ) (fetched : FetchedPolicy L) (w : Watcher)
      → (v : Watcher) × ((reconcile_policy c error_text now fetched (some w)).0 ≡ some v)
        × Extends w v
  unfolding reconcile_policy
  reconcile_policy-Extends error_text now not_found w = (w, refl, Extends-refl w)
  reconcile_policy-Extends error_text now fetch_error w = (w, refl, Extends-refl w)
  reconcile_policy-Extends error_text now (found policy) w = elim (Bool-cases policy.enabled) [
    | inl e ↦ ((sync_watchers c policy w).0.0, simp e refl, sync_watchers-Extends policy w)
    | inr e ↦ (w, simp e refl, Extends-refl w)
  ]
