-- ===== src/Aggregator/Store/Recovery.antt =====
-- internal/aggregator/incident_store.go: what a restart recovers from one object that was synced.
use kube_diagnose.Common.{
  ℕ, ◌+◌, List, [], ◌∷◌, ◌++◌, Option, none, some, Text, ◌≡◌, refl, ap, sym, ◌∙◌, arith, if_pos,
  if_neg, Text-discrete, lookup, insert, Distinct, append-nil, append_assoc,
}
use kube_diagnose.Api.{Incident, AffectedResource}
use kube_diagnose.Aggregator.Store.{PodSet, AnalysisResultData, IncidentRecord}
use kube_diagnose.Aggregator.Store.Status.{
  pod_kind, affected_pods_to_resources, numbered_actions, crd_analysis, sync_status, pods_of,
  actions_of, stored_analysis, time_or_zero, recovered,
}

-- The object of a record after a sync, whatever status it had.
abbrev synced : IncidentRecord → Incident → Incident
synced rec item = record item { status = sync_status rec item.status }

insert_absent :
    (k : Text) (v : Unit) (m : PodSet)
    → lookup Text-discrete k m ≡ none
    → insert Text-discrete k v m ≡ m ++ ((k, v) ∷ [])
unfolding insert lookup
insert_absent k v [] e = refl
insert_absent k v (entry ∷ m) e = ground (arith, insert_absent k v m)

lookup-append_absent :
    (k : Text) (a b : PodSet)
    → lookup Text-discrete k a ≡ none
    → lookup Text-discrete k (a ++ b) ≡ lookup Text-discrete k b
unfolding lookup
lookup-append_absent k [] b e = refl
lookup-append_absent k (entry ∷ a) b e = ground (arith, lookup-append_absent k a b)

actions_of-numbered_actions :
    (step : ℕ) (acts : List Text) → actions_of (numbered_actions step acts) ≡ acts
unfolding numbered_actions
actions_of-numbered_actions step [] = refl
actions_of-numbered_actions step (act ∷ acts) =
    ap (λ rest. act ∷ rest) (actions_of-numbered_actions (step + 1) acts)

stored-crd_analysis : (a : Option AnalysisResultData) → stored_analysis (crd_analysis a) ≡ a
unfolding stored_analysis crd_analysis
stored-crd_analysis none = refl
stored-crd_analysis (some a) = rw (actions_of-numbered_actions 1 a.recommended_actions) refl

middle_absent :
    (k : Text) (a b : PodSet)
    → Distinct Text-discrete (a ++ ((k, tt) ∷ b))
    → lookup Text-discrete k a ≡ none
unfolding lookup
middle_absent k [] b d = refl
middle_absent k (entry ∷ a) b d = elim (Text-discrete entry.0 k) [
  | yes same ↦
      absurd (holds same (lookup-append_absent k a ((k, tt) ∷ b) (middle_absent k a b d.1)) d.0)
  | no differ ↦ rw (if_neg _ differ) (middle_absent k a b d.1)
]
  where
    holds :
        {j : Text}
        → j ≡ k
        → lookup Text-discrete k (a ++ ((k, tt) ∷ b)) ≡ lookup Text-discrete k ((k, tt) ∷ b)
        → lookup Text-discrete j (a ++ ((k, tt) ∷ b)) ≡ none
        → ⊥
    holds e h l = ground arith

none_left : (done : PodSet) → pods_of [] done ≡ done ++ []
unfolding pods_of
none_left done = sym (append-nil done)

pods_of_pod :
    (name namespace : Text) (rest : List AffectedResource) (done : PodSet)
    → pods_of
        (record { kind = pod_kind; name = name; namespace = namespace; container = [] } ∷ rest)
        done
      ≡ pods_of rest (insert Text-discrete name tt done)
unfolding pods_of
pods_of_pod name namespace rest done =
    ap (pods_of rest)
      (if_pos (Text-discrete pod_kind pod_kind) refl (insert Text-discrete name tt done) done)

-- The pods of the resources go into the set in the order of the set they came from.
pods_of-resources :
    (namespace : Text) (done pods : PodSet)
    → Distinct Text-discrete (done ++ pods)
    → pods_of (affected_pods_to_resources namespace pods) done ≡ done ++ pods
unfolding affected_pods_to_resources
pods_of-resources namespace done [] d = none_left done
pods_of-resources namespace done (pod ∷ pods) d =
    let fresh = middle_absent pod.0 done pods d in
    rw
      (
        pods_of_pod pod.0 namespace (affected_pods_to_resources namespace pods) done,
        insert_absent pod.0 tt done fresh,
      )
      (pods_of-resources namespace (done ++ ((pod.0, tt) ∷ [])) pods
          (rw (append_assoc done ((pod.0, tt) ∷ []) pods) d)
        ∙ append_assoc done ((pod.0, tt) ∷ []) pods)

-- What the API server gives back of an object whose status was written: a metav1.Time is encoded to
-- the second, and the texts that come from log lines are encoded as JSON, which changes what is not
-- UTF-8. The other texts are names of objects, hexadecimal or were decoded from JSON before.
abbrev pub reread : (ℕ → ℕ) → (Text → Text) → Incident → Incident
reread kept_time kept_text o = record o {
  status = record o.status {
    pattern = kept_text o.status.pattern;
    sample_log_message = kept_text o.status.sample_log_message;
    first_seen = elim o.status.first_seen [ none ↦ none | some t ↦ some (kept_time t) ];
    last_seen = elim o.status.last_seen [ none ↦ none | some t ↦ some (kept_time t) ];
  };
}

-- What a restart recovers of a record: not the event times of its windows, and the rest as the
-- encoding gives it back.
abbrev pub remembered : (ℕ → ℕ) → (Text → Text) → Text → IncidentRecord → IncidentRecord
remembered kept_time kept_text name rec = record rec {
  pattern = kept_text rec.pattern;
  sample_message = kept_text rec.sample_message;
  first_seen = kept_time rec.first_seen;
  last_seen = kept_time rec.last_seen;
  frequency_windows = [];
  crd_name = name;
}

-- The record recovered from an object that a sync has written, if its pods stand once each and the
-- object is in its namespace.
pub recovered-sync_status :
    (kept_time : ℕ → ℕ) (kept_text : Text → Text) (rec : IncidentRecord) (item : Incident)
    → Distinct Text-discrete rec.affected_pods
    → item.namespace ≡ rec.namespace
    → recovered (reread kept_time kept_text (record item { status = sync_status rec item.status }))
      ≡ remembered kept_time kept_text item.name rec
unfolding recovered sync_status time_or_zero
recovered-sync_status kept_time kept_text rec item d e =
    rw (stored-crd_analysis rec.analysis, pods_of-resources rec.namespace [] rec.affected_pods d, e)
      refl
