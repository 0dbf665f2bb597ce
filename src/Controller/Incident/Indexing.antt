-- ===== src/Controller/Incident/Indexing.antt =====
-- internal/controller/incident_controller.go: what the reconciler sends to the knowledge base.
use kube_diagnose.Common.{ℕ, [], Bool, ◌≡◌, refl, arith}
use kube_diagnose.Api.{IncidentPhase, detecting, analyzing, Incident}
use kube_diagnose.Controller.Incident.{
  Fetched, found, not_found, failed, index_calls, archive, progress, reconcile,
}

progress-spawned :
    (i : Incident) (p : IncidentPhase) (now : ℕ) (patch_ok : Bool)
    → (progress i p now patch_ok []).spawned ≡ []
unfolding progress
progress-spawned i detecting now patch_ok = ground arith
progress-spawned i analyzing now patch_ok = ground arith
progress-spawned i _ now patch_ok = refl

archive-spawned : (i : Incident) (now : ℕ) (patch_ok : Bool) → (archive i now patch_ok).spawned ≡ []
unfolding archive
archive-spawned i now patch_ok = ground arith

-- No reconciliation starts the goroutine that indexes a resolved incident, whatever the object,
-- the clock, the state of the platform and the fate of the patch: a resolved incident that is
-- not archived returns before the guard, and the guard asks for the phase Resolved.
pub reconcile_never_indexes :
    (f : Fetched) (platform_ready patch_ok : Bool) (now : ℕ)
    → (reconcile f platform_ready patch_ok now).spawned ≡ []
unfolding reconcile index_calls
reconcile_never_indexes not_found platform_ready patch_ok now = refl
reconcile_never_indexes failed platform_ready patch_ok now = refl
reconcile_never_indexes (found i) platform_ready patch_ok now =
    ground (arith, archive-spawned i now patch_ok, progress-spawned i i.status.phase now patch_ok)
