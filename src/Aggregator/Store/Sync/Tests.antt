-- ===== src/Aggregator/Store/Sync/Tests.antt =====
-- internal/aggregator/incident_store.go: a synchronisation at concrete inputs.
use kube_diagnose.Common.{
  [], ◌∷◌, false, none, some, Text-discrete, codes, contains, lookup, ◌≡◌, ◌≢◌, refl, ap, arith,
}
use kube_diagnose.Aggregator.Slug.{
  incident_crd_name, slugify, to_lower, trim_right, trim_left, dash_runs, before_dashes,
}
use kube_diagnose.Aggregator.Store.{IncidentRecord, Records, placeholder}
use kube_diagnose.Aggregator.Store.Sync.{ObjectKey, Faults, existing, sync_to_kubernetes}
use kube_diagnose.Aggregator.Store.Sync.Written.{
  written, at, is_faulty, any_faulty, sync_to_kubernetes-written,
}

abbrev refused : IncidentRecord
refused = record (placeholder (codes "f1f1f1f1f1") 1) {
  pattern = codes "refused";
  namespace = codes "shop";
}

abbrev timeout : IncidentRecord
timeout = record (placeholder (codes "f2f2f2f2f2") 2) {
  pattern = codes "timeout";
  namespace = codes "bank";
}

abbrev two : Records
two = (codes "f1f1f1f1f1", timeout) ∷ (codes "f2f2f2f2f2", refused) ∷ []

abbrev key : IncidentRecord → ObjectKey
key rec = record {
  namespace = rec.namespace;
  name = incident_crd_name (λ t. t) rec.pattern rec.fingerprint;
}

-- Creating the first object fails.
abbrev faults : Faults
faults = record {
  create_or_patch = λ k. contains (codes "timeout-f2f2f2f2") (k.name ∷ []);
  get = λ k. false;
  patch_status = λ k. false;
}

keys_differ : key timeout ≢ key refused
keys_differ h = let e : codes "bank" ≡ codes "shop" = ap (λ k. k.namespace) h in ground arith

fine : is_faulty (λ t. t) faults (key refused) ≡ false
unfolding incident_crd_name slugify to_lower trim_right trim_left dash_runs before_dashes contains
    Text-discrete
fine = refl

sync_to_kubernetes-written_example :
    let r = sync_to_kubernetes (λ t. t) faults two [] in
    (at (λ t. t) faults (key refused) r.1 ≡ some (written refused (existing (key refused) none)))
    × (r.2 ≡ any_faulty (λ t. t) faults (timeout ∷ refused ∷ []))
unfolding lookup
sync_to_kubernetes-written_example =
    sync_to_kubernetes-written (λ t. t) faults two (timeout ∷ []) [] refused [] refl fine
      (keys_differ, tt) tt
