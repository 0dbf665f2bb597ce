-- ===== src/Controller/Incident.antt =====
-- internal/controller/incident_controller.go: one reconciliation of an Incident object.
-- The cluster enters as the result of `Get` and the fate of the status patch; the clock as `now`.
-- The goroutine that indexes an incident is an entry of `spawned`.
pub mod Phases
pub mod Indexing
mod Tests
use kube_diagnose.Common.{
  ℕ, ◌+◌, ◌*◌, List, [], ◌∷◌, ◌++◌, Bool, true, false, ◌&&◌, not, Option, none, some, Text, codes,
  ltb, if◌then◌else◌,
}
use kube_diagnose.Api.{
  IncidentPhase, unset, detecting, analyzing, notified, acknowledged, resolved, archived,
  RecommendedAction, AiAnalysis, Condition, IncidentStatus, Incident,
}

abbrev pub second : ℕ
second = 1000000000

abbrev pub minute : ℕ
minute = 60 * second

abbrev pub hour : ℕ
hour = 60 * minute

-- What `r.Get` returns.
pub data Fetched : Type 0 where
  found : Incident → Fetched
  not_found failed : Fetched

pub data Error : Type 0 where
  get_failed patch_failed : Error

-- The arguments of a call of `Engine.IndexResolvedIncident`.
pub record IndexCall : Type 0 where
  pub fingerprint : Text
  pub pattern : Text
  pub root_cause : Text
  pub resolution : Text
  pub namespace : Text

-- `stored` is the object as the cluster holds it afterwards, if this pass changed it.
pub record Outcome : Type 0 where
  pub requeue_after : ℕ
  pub error : Option Error
  pub stored : Option Incident
  pub spawned : List IndexCall

abbrev pub requeue : ℕ → List IndexCall → Outcome
requeue d calls = record { requeue_after = d; error = none; stored = none; spawned = calls }

pub phase_text : IncidentPhase → Text
phase_text unset = []
phase_text detecting = codes "Detecting"
phase_text analyzing = codes "Analyzing"
phase_text notified = codes "Notified"
phase_text acknowledged = codes "Acknowledged"
phase_text resolved = codes "Resolved"
phase_text archived = codes "Archived"

pub phase_condition : IncidentPhase → ℕ → Condition
phase_condition phase now = record {
  kind = phase_text phase;
  status = true;
  reason = codes "PhaseTransition";
  message = codes "Incident transitioned to " ++ phase_text phase;
  last_transition_time = now;
}

abbrev pub with_phase : Incident → IncidentPhase → ℕ → Incident
with_phase incident phase now = record incident {
  status = record s { phase = phase; conditions = s.conditions ++ phase_condition phase now ∷ [] };
}
  where
    s : IncidentStatus
    s = incident.status

-- `patch_ok` is the fate of `r.Status().Patch`.
unfoldable pub transition_phase : Incident → IncidentPhase → ℕ → Bool → List IndexCall → Outcome
transition_phase incident phase now patch_ok calls =
    if patch_ok
    then record {
      requeue_after = minute;
      error = none;
      stored = some (with_phase incident phase now);
      spawned = calls;
    }
    else record { requeue_after = 0; error = some patch_failed; stored = none; spawned = calls }

unfoldable pub action_text : RecommendedAction → Text
action_text act = elim act.command [
  | [] ↦ act.action
  | c ∷ cs ↦ act.action ++ codes " (Run: " ++ (c ∷ cs) ++ codes ")"
]

unfoldable pub join_actions : List RecommendedAction → Text
join_actions [] = []
join_actions (a ∷ []) = action_text a
join_actions (a ∷ b ∷ rest) = action_text a ++ codes "; " ++ join_actions (b ∷ rest)

unfoldable pub index_call : Incident → AiAnalysis → IndexCall
index_call incident a = record {
  fingerprint = incident.status.fingerprint;
  pattern = incident.status.pattern;
  root_cause = a.root_cause;
  resolution = join_actions a.recommended_actions;
  namespace = incident.namespace;
}

unfoldable pub is_archived : IncidentPhase → Bool
is_archived archived = true
is_archived _ = false

unfoldable pub is_resolved_phase : IncidentPhase → Bool
is_resolved_phase resolved = true
is_resolved_phase _ = false

-- The branch that auto-archives: `time.Since(resolvedAt) > 24h`.
unfoldable pub archive : Incident → ℕ → Bool → Outcome
unfolding transition_phase
archive incident now patch_ok = elim incident.status.resolved_at [
  | none ↦ requeue hour []
  | some t ↦
      if ltb (t + 24 * hour) now
      then transition_phase incident archived now patch_ok []
      else requeue hour []
]

-- The goroutine that indexes a resolved incident is started under this guard.
unfoldable pub index_calls : Incident → Bool → List IndexCall
unfolding is_resolved_phase
index_calls incident platform_ready = elim incident.status.analysis [
  | none ↦ []
  | some a ↦
      if incident.status.is_resolved && (platform_ready && is_resolved_phase incident.status.phase)
      then index_call incident a ∷ []
      else []
]

-- The `switch` on the phase. The SLA warning of the Notified case is only logged.
unfoldable pub progress : Incident → IncidentPhase → ℕ → Bool → List IndexCall → Outcome
unfolding transition_phase
progress incident detecting now patch_ok calls = elim incident.status.analysis [
  | some _ ↦ transition_phase incident analyzing now patch_ok calls
  | none ↦ requeue (5 * minute) calls
]
progress incident analyzing now patch_ok calls =
    if incident.status.is_notified
    then transition_phase incident notified now patch_ok calls
    else requeue (5 * minute) calls
progress incident _ now patch_ok calls = requeue (5 * minute) calls

unfoldable pub reconcile : Fetched → Bool → Bool → ℕ → Outcome
unfolding archive index_calls progress is_archived
reconcile not_found platform_ready patch_ok now = requeue 0 []
reconcile failed platform_ready patch_ok now = record {
  requeue_after = 0;
  error = some get_failed;
  stored = none;
  spawned = [];
}
reconcile (found incident) platform_ready patch_ok now =
    if incident.status.is_resolved && not (is_archived incident.status.phase)
    then archive incident now patch_ok
    else progress incident incident.status.phase now patch_ok (index_calls incident platform_ready)
