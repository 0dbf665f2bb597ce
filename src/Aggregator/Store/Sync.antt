-- ===== src/Aggregator/Store/Sync.antt =====
-- internal/aggregator/incident_store.go: SyncToKubernetes over the objects of the cluster. Which
-- calls of the API server fail is a parameter; a read sees the writes before it. No call of the
-- store comes in between: `syncRecord` reads one record under the lock.
pub mod Written
mod Tests
use kube_diagnose.Common.{
  ℕ, List, [], ◌∷◌, ◌++◌, map, Bool, true, false, ◌||◌, Option, none, some, Text, Text-discrete,
  codes, if◌then◌else◌, lookup, insert,
}
use kube_diagnose.Api.{Incident, IncidentSpec, IncidentStatus, empty_status}
use kube_diagnose.Aggregator.Slug.{incident_crd_name}
use kube_diagnose.Aggregator.Store.{IncidentRecord, Records}
use kube_diagnose.Aggregator.Store.Status.{sync_status}

pub record ObjectKey : Type 0 where
  pub namespace : Text
  pub name : Text

unfoldable pub ObjectKey-discrete : Discrete ObjectKey
unfolding Text-discrete
ObjectKey-discrete = hlevel Text-discrete

abbrev pub Objects : Type 0
Objects = List (ObjectKey × Incident)

pub record Faults : Type 0 where
  pub create_or_patch : ObjectKey → Bool
  pub get : ObjectKey → Bool
  pub patch_status : ObjectKey → Bool

abbrev pub empty_spec : IncidentSpec
empty_spec = record { acknowledged = false; acknowledged_by = []; notes = [] }

-- The object that was there, or one with its name and namespace alone.
abbrev pub existing : ObjectKey → Option Incident → Incident
existing key none = record {
  name = key.name;
  namespace = key.namespace;
  labels = [];
  spec = empty_spec;
  status = empty_status;
}
existing key (some o) = o

unfoldable pub labelled : IncidentRecord → Incident → Incident
labelled rec o = record o {
  labels = insert Text-discrete (codes "diagnose.diagnose.k8s.io/namespace") rec.namespace (
      insert Text-discrete (codes "diagnose.diagnose.k8s.io/policy") rec.policy_name (
        insert Text-discrete (codes "diagnose.diagnose.k8s.io/fingerprint") rec.fingerprint
          o.labels));
}

abbrev pub with_status : IncidentRecord → Incident → Incident
with_status rec o = record o { status = sync_status rec o.status }

-- CreateOrPatch and the patch of the status, by whether they fail.
abbrev pub write_object : Bool → Bool → ObjectKey → Incident → Incident → Objects → Objects × Bool
write_object true status_fails key placed final objects = (objects, true)
write_object false true key placed final objects =
    (insert ObjectKey-discrete key placed objects, true)
write_object false false key placed final objects =
    (insert ObjectKey-discrete key final (insert ObjectKey-discrete key placed objects), false)

module _ (unicode_lower : Text → Text) (f : Faults) where
  abbrev pub object_key : IncidentRecord → ObjectKey
  object_key rec = record {
    namespace = rec.namespace;
    name = incident_crd_name unicode_lower rec.pattern rec.fingerprint;
  }

  -- syncRecord and syncStatus; the flag is an error.
  unfoldable pub sync_record : IncidentRecord → Objects → Objects × Bool
  sync_record rec objects =
      let key = object_key rec in
      let placed = labelled rec (existing key (lookup ObjectKey-discrete key objects)) in
      write_object (f.create_or_patch key) (f.get key || f.patch_status key) key placed
        (with_status rec placed) objects

  -- The loop goes on after an error; the flag says whether there was one.
  unfoldable pub sync_records : List IncidentRecord → Objects → Objects × Bool
  sync_records [] objects = (objects, false)
  sync_records (rec ∷ recs) objects =
      let r = sync_record rec objects in let rest = sync_records recs r.0 in (rest.0, r.1 || rest.1)

  abbrev pub with_crd_name : IncidentRecord → Text → IncidentRecord
  with_crd_name rec [] = record rec { crd_name = (object_key rec).name }
  with_crd_name rec (c ∷ cs) = rec

  -- The records keep the names of their objects.
  unfoldable pub sync_to_kubernetes : Records → Objects → Records × Objects × Bool
  sync_to_kubernetes s objects =
      let r = sync_records (map (λ entry. entry.1) s) objects in
      (map (λ entry. (entry.0, with_crd_name entry.1 entry.1.crd_name)) s, r.0, r.1)
