-- ===== src/Controller/Incident/Phases.antt =====
-- internal/controller/incident_controller.go: the life of an incident, pass after pass.
use kube_diagnose.Common.{
  ℕ, ◌+◌, ◌*◌, ◌≤◌, ◌<◌, List, [], ◌∷◌, Bool, true, false, Option, none, some, ◌≡◌, refl, ◌≢◌, ◌⊎◌,
  inl, inr, arith, length, length-append, Bool-cases, Option-cases, ltb,
}
use mathlib.Core.Option.{get_or}
use kube_diagnose.Api.{
  IncidentPhase, unset, detecting, analyzing, notified, acknowledged, resolved, archived,
  AiAnalysis, Incident,
}
use kube_diagnose.Controller.Incident.{
  found, with_phase, archive, progress, reconcile, hour, index_calls, is_archived, IndexCall,
  phase_condition,
}

-- The moves that an incident may make, with what each one wants.
pub data Advance (i : Incident) (now : ℕ) : IncidentPhase → Type 0 where
  analyze :
      (a : AiAnalysis)
      → i.status.phase ≡ detecting
      → i.status.is_resolved ≡ false
      → i.status.analysis ≡ some a
      → Advance i now analyzing
  notify :
      i.status.phase ≡ analyzing
      → i.status.is_resolved ≡ false
      → i.status.is_notified ≡ true
      → Advance i now notified
  expire :
      (t : ℕ)
      → i.status.phase ≢ archived
      → i.status.is_resolved ≡ true
      → i.status.resolved_at ≡ some t
      → t + 24 * hour < now
      → Advance i now archived

abbrev pub Moves : Incident → ℕ → Option Incident → Type 0
Moves i now o =
    (o ≡ none) ⊎ ((p : IncidentPhase) × Advance i now p × (o ≡ some (with_phase i p now)))

progress-Moves :
    (i : Incident) (p : IncidentPhase) (now : ℕ) (patch_ok : Bool) (calls : List IndexCall)
    → i.status.phase ≡ p
    → (i.status.is_resolved ≡ false) ⊎ (p ≡ archived)
    → Moves i now (progress i p now patch_ok calls).stored
unfolding progress
progress-Moves i detecting now false calls e h = inl (ground arith)
progress-Moves i detecting now true calls e h = elim (Option-cases i.status.analysis) [
  | inl none_yet ↦ inl (ground arith)
  | inr (a, given) ↦ inr (analyzing, analyze a e (ground arith) given, ground arith)
]
progress-Moves i analyzing now false calls e h = inl (ground arith)
progress-Moves i analyzing now true calls e h = elim (Bool-cases i.status.is_notified) [
  | inl sent ↦ inr (notified, notify e (ground arith) sent, ground arith)
  | inr unsent ↦ inl (ground arith)
]
progress-Moves i _ now patch_ok calls e h = inl refl

archive-Moves :
    (i : Incident) (now : ℕ) (patch_ok : Bool)
    → i.status.is_resolved ≡ true
    → i.status.phase ≢ archived
    → Moves i now (archive i now patch_ok).stored
unfolding archive
archive-Moves i now false r h = inl (ground arith)
archive-Moves i now true r h = elim (Option-cases i.status.resolved_at) [
  | inl open_end ↦ inl (ground arith)
  | inr (t, e) ↦ elim (Bool-cases (ltb (t + 24 * hour) now)) [
    | inl late ↦ inr (archived, expire t h r e (ground arith), ground arith)
    | inr early ↦ inl (ground arith)
  ]
]

archived-or-not :
    (p : IncidentPhase)
    → ((is_archived p ≡ true) × (p ≡ archived)) ⊎ ((is_archived p ≡ false) × (p ≢ archived))
unfolding is_archived
archived-or-not archived = inl (refl, refl)
archived-or-not _ = inr (refl, λ e. cc)

reconcile_closed :
    (i : Incident) (platform_ready patch_ok : Bool) (now : ℕ)
    → i.status.is_resolved ≡ true
    → is_archived i.status.phase ≡ false
    → reconcile (found i) platform_ready patch_ok now ≡ archive i now patch_ok
unfolding reconcile
reconcile_closed i r ok now closed live = ground arith

reconcile_open :
    (i : Incident) (platform_ready patch_ok : Bool) (now : ℕ)
    → (i.status.is_resolved ≡ false) ⊎ (is_archived i.status.phase ≡ true)
    → reconcile (found i) platform_ready patch_ok now
      ≡ progress i i.status.phase now patch_ok (index_calls i platform_ready)
unfolding reconcile
reconcile_open i r ok now (inl e) = ground arith
reconcile_open i r ok now (inr e) = ground arith

-- Every pass over an incident that was found leaves the stored object alone, or makes one of the
-- three moves: Detecting to Analyzing for an unresolved incident with an analysis, Analyzing to
-- Notified for an unresolved one whose notification was sent, and any phase but Archived to
-- Archived for one resolved more than 24 hours ago; a move sets the phase and adds one condition.
pub reconcile-Moves :
    (i : Incident) (platform_ready patch_ok : Bool) (now : ℕ)
    → Moves i now (reconcile (found i) platform_ready patch_ok now).stored
reconcile-Moves i r ok now = elim (Bool-cases i.status.is_resolved) [
  | inr e ↦
      rw (reconcile_open i r ok now (inl e))
        (progress-Moves i i.status.phase now ok (index_calls i r) refl (inl e))
  | inl closed ↦ elim (archived-or-not i.status.phase) [
    | inl (t, e) ↦
        rw (reconcile_open i r ok now (inr t))
          (progress-Moves i i.status.phase now ok (index_calls i r) refl (inr e))
    | inr (f, h) ↦ rw (reconcile_closed i r ok now closed f) (archive-Moves i now ok closed h)
  ]
]

-- How far an incident has come.
pub rank : IncidentPhase → ℕ
rank unset = 0
rank detecting = 1
rank analyzing = 2
rank notified = 3
rank acknowledged = 4
rank resolved = 5
rank archived = 6

-- A history of passes over one object, each with the platform's state, the patch's fate and the
-- clock; nothing else writes the object in between.
pub passes : Incident → List (Bool × Bool × ℕ) → Incident
passes i [] = i
passes i ((platform_ready, patch_ok, now) ∷ rest) =
    passes (get_or (reconcile (found i) platform_ready patch_ok now).stored i) rest

rank_lt : (p : IncidentPhase) → p ≢ archived → rank p < rank archived
unfolding rank
rank_lt archived h = absurd (h refl)
rank_lt _ h = omega arith

Advance-rank :
    (i : Incident) (now : ℕ) (p : IncidentPhase) → Advance i now p → rank i.status.phase < rank p
unfolding rank
Advance-rank i now _ (analyze a e _ _) = rw e (omega arith)
Advance-rank i now _ (notify e _ _) = rw e (omega arith)
Advance-rank i now _ (expire t h _ _ _) = rank_lt i.status.phase h

conditions_of : Incident → ℕ
conditions_of i = length i.status.conditions

step_bound :
    (i : Incident) (now : ℕ) (o : Option Incident)
    → Moves i now o
    → conditions_of (get_or o i) + rank i.status.phase
      ≤ conditions_of i + rank (get_or o i).status.phase
unfolding conditions_of
step_bound i now o (inl e) = rw e (omega arith)
step_bound i now o (inr (p, a, e)) = rw e (
    omega (
      arith,
      Advance-rank i now p a,
      length-append {0} i.status.conditions (phase_condition p now ∷ []),
    ))

step_rank :
    (i : Incident) (now : ℕ) (o : Option Incident)
    → Moves i now o
    → rank i.status.phase ≤ rank (get_or o i).status.phase
step_rank i now o (inl e) = rw e (omega arith)
step_rank i now o (inr (p, a, e)) = rw e (omega (arith, Advance-rank i now p a))

-- Over any history of passes the phase never goes back, and the object gains at most one
-- condition for each phase that it has advanced.
pub passes_bounded :
    (i : Incident) (history : List (Bool × Bool × ℕ))
    → (rank i.status.phase ≤ rank (passes i history).status.phase)
      × (length (passes i history).status.conditions + rank i.status.phase
          ≤ length i.status.conditions + rank (passes i history).status.phase)
unfolding passes conditions_of
passes_bounded i [] = (omega arith, omega arith)
passes_bounded i ((r, ok, now) ∷ rest) =
    let o = (reconcile (found i) r ok now).stored in
    let j = get_or o i in
    omega (
      arith,
      passes_bounded j rest,
      step_bound i now o (reconcile-Moves i r ok now),
      step_rank i now o (reconcile-Moves i r ok now),
    )
