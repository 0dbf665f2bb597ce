-- ===== src/Controller/Incident/Tests.antt =====
-- Runs of the incident reconciler, and its theorems at an input.
use kube_diagnose.Common.{
  ℕ, ◌+◌, ◌*◌, [], ◌∷◌, List, Bool, true, false, none, some, ◌≡◌, refl, codes, length, ◌≤◌,
}
use kube_diagnose.Api.{AiAnalysis, Incident, empty_status, detecting, resolved, archived}
use kube_diagnose.Controller.Incident.{found, hour, minute, with_phase, reconcile}
use kube_diagnose.Controller.Incident.Indexing.{reconcile_never_indexes}
use kube_diagnose.Controller.Incident.Phases.{Moves, reconcile-Moves, passes, passes_bounded, rank}

abbrev diagnosis : AiAnalysis
diagnosis = record {
  root_cause = codes "oom";
  confidence = 0;
  impact = [];
  severity = codes "high";
  recommended_actions = [];
  related_runbooks = [];
  analysis_source = codes "rag";
  analyzed_at = none;
  tokens_used = 0;
}

abbrev fresh : Incident
fresh = record {
  name = codes "oom-0123";
  namespace = codes "prod";
  labels = [];
  spec = record { acknowledged = false; acknowledged_by = []; notes = [] };
  status = record empty_status { phase = detecting; analysis = some diagnosis };
}

abbrev closed : Incident
closed = record fresh {
  status = record empty_status {
    phase = resolved;
    analysis = some diagnosis;
    is_resolved = true;
    resolved_at = some (5 * hour);
  };
}

-- A fresh incident with an analysis is patched to Analyzing and looked at again in a minute.
fresh_pass : (reconcile (found fresh) true true hour).requeue_after ≡ minute
unfolding reconcile
fresh_pass = refl

-- A day later the resolved incident is archived.
closed_pass :
    (reconcile (found closed) true true (30 * hour)).stored
    ≡ some (with_phase closed archived (30 * hour))
unfolding reconcile
closed_pass = refl

reconcile_never_indexes_example : (reconcile (found closed) true true (6 * hour)).spawned ≡ []
reconcile_never_indexes_example = reconcile_never_indexes (found closed) true true (6 * hour)

reconcile-Moves_example : Moves fresh hour (reconcile (found fresh) true true hour).stored
reconcile-Moves_example = reconcile-Moves fresh true true hour

abbrev history : List (Bool × Bool × ℕ)
history = (true, true, hour) ∷ (true, false, 2 * hour) ∷ []

passes_bounded_example :
    (rank fresh.status.phase ≤ rank (passes fresh history).status.phase)
    × (length (passes fresh history).status.conditions + rank fresh.status.phase
        ≤ length fresh.status.conditions + rank (passes fresh history).status.phase)
passes_bounded_example = passes_bounded fresh history
