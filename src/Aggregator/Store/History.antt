-- ===== src/Aggregator/Store/History.antt =====
-- internal/aggregator/incident_store.go: the records after any calls on the store.
use kube_diagnose.Common.{
  ℕ, List, [], ◌∷◌, false, Option, none, some, Text, ◌≡◌, ◌≢◌, inl, inr, refl, arith, if_pos,
  if_neg, Text-discrete, ltb, if◌then◌else◌, lookup, insert, Distinct, insert-Distinct, insert-All,
  lookup-All, All, Bool-cases, Option-cases,
}
use kube_diagnose.Api.{analyzing, detecting, Incident, IncidentStatus, AffectedResource}
use kube_diagnose.Aggregator.Store.{
  PodSet, AnalysisResultData, IncidentRecord, Records, Event, add_pod, update_record, found_or_new,
  record_event, get_or_create, placeholder, with_severity, update_severity_and_analysis,
}
use kube_diagnose.Aggregator.Store.Status.{
  sync_status, phase_of, pods_of, recovered, is_skipped, load_items, load_existing_incidents,
  pod_kind,
}

-- A record stands at its fingerprint, which is not empty, is unresolved, and has each pod once.
abbrev pub Sound : Text × IncidentRecord → Type 0
Sound entry =
    (entry.1.fingerprint ≡ entry.0)
    × (entry.0 ≢ [])
    × (entry.1.is_resolved ≡ false)
    × Distinct Text-discrete entry.1.affected_pods

abbrev pub AllSound : Records → Type 0
AllSound s = Distinct Text-discrete s × All Sound s

add_pod-Distinct :
    (pod : Text) (pods : PodSet)
    → Distinct Text-discrete pods
    → Distinct Text-discrete (add_pod pod pods)
unfolding add_pod
add_pod-Distinct [] pods d = d
add_pod-Distinct (c ∷ cs) pods d = insert-Distinct Text-discrete (c ∷ cs) tt pods d

pods_of-Distinct :
    (res : List AffectedResource) (pods : PodSet)
    → Distinct Text-discrete pods
    → Distinct Text-discrete (pods_of res pods)
unfolding pods_of
pods_of-Distinct [] pods d = d
pods_of-Distinct (r ∷ res) pods d = elim (Text-discrete r.kind pod_kind) [
  | yes e ↦
      rw (if_pos _ e) (pods_of-Distinct res _ (insert-Distinct Text-discrete r.name tt pods d))
  | no n ↦ rw (if_neg _ n) (pods_of-Distinct res pods d)
]

put-AllSound :
    (k : Text) (rec : IncidentRecord) (s : Records)
    → Sound (k, rec)
    → AllSound s
    → AllSound (insert Text-discrete k rec s)
put-AllSound k rec s p h =
    (insert-Distinct Text-discrete k rec s h.0, insert-All Text-discrete Sound k rec s p h.1)

event-Sound :
    (e : Event) (t : ℕ) (o : Option IncidentRecord)
    → e.fingerprint ≢ []
    → ((rec : IncidentRecord) → o ≡ some rec → Sound (e.fingerprint, rec))
    → Sound (e.fingerprint, update_record e t (found_or_new e t o).0)
unfolding update_record
event-Sound e t none n h = (refl, n, refl, add_pod-Distinct e.pod_name [] tt)
event-Sound e t (some rec) n h =
    let p = h rec refl in (p.0, n, p.2, add_pod-Distinct e.pod_name rec.affected_pods p.3)

record_event-AllSound :
    (e : Event) (t : ℕ) (s : Records)
    → e.fingerprint ≢ []
    → AllSound s
    → AllSound (record_event e t s).0
unfolding record_event
record_event-AllSound e t s n h =
    put-AllSound e.fingerprint _ s
      (event-Sound e t _ n (λ rec eq. lookup-All Text-discrete Sound e.fingerprint rec s eq h.1)) h

get_or_create-AllSound :
    (fp : Text) (t : ℕ) (s : Records) → fp ≢ [] → AllSound s → AllSound (get_or_create fp t s).0
unfolding get_or_create
get_or_create-AllSound fp t s n h = elim (Option-cases (lookup Text-discrete fp s)) [
  | inl e ↦ rw (e, get_or_create) (put-AllSound fp (placeholder fp t) s (refl, n, refl, tt) h)
  | inr (rec, e) ↦ rw (e, get_or_create) h
]

with_severity-Sound :
    (fp severity : Text) (analysis : Option AnalysisResultData) (rec : IncidentRecord)
    → Sound (fp, rec)
    → Sound (fp, record (with_severity severity rec) { analysis = analysis })
unfolding with_severity
with_severity-Sound fp [] analysis rec p = p
with_severity-Sound fp (c ∷ cs) analysis rec p = p

update-AllSound :
    (fp severity : Text) (analysis : Option AnalysisResultData) (s : Records)
    → AllSound s
    → AllSound (update_severity_and_analysis fp severity analysis s)
unfolding update_severity_and_analysis
update-AllSound fp severity none s h = h
update-AllSound fp severity (some a) s h = elim (Option-cases (lookup Text-discrete fp s)) [
  | inl e ↦ rw (e, update_severity_and_analysis) h
  | inr (rec, e) ↦
      rw (e, update_severity_and_analysis)
        (put-AllSound fp _ s
          (with_severity-Sound fp severity (some a) rec
            (lookup-All Text-discrete Sound fp rec s e h.1))
          h)
]

recovered-Sound :
    (item : Incident) → is_skipped item ≡ false → Sound (item.status.fingerprint, recovered item)
unfolding is_skipped recovered
recovered-Sound item e =
    (refl, ground arith, ground arith, pods_of-Distinct item.status.affected_resources [] tt)

load_items-AllSound :
    (items : List Incident) (s : Records) → AllSound s → AllSound (load_items items s)
unfolding load_items
load_items-AllSound [] s h = h
load_items-AllSound (item ∷ items) s h = elim (Bool-cases (is_skipped item)) [
  | inl e ↦ rw e (load_items-AllSound items s h)
  | inr e ↦ rw e (
      load_items-AllSound items _
        (put-AllSound item.status.fingerprint (recovered item) s (recovered-Sound item e) h))
]

load-AllSound :
    (answer : Option (List Incident)) (s : Records)
    → AllSound s
    → AllSound (load_existing_incidents answer s).0
unfolding load_existing_incidents
load-AllSound none s h = h
load-AllSound (some items) s h = load_items-AllSound items s h

-- The calls that change the records.
pub data Step : Records → Records → Type 0 where
  records : (e : Event) (t : ℕ) (s : Records) → e.fingerprint ≢ [] → Step s (record_event e t s).0
  creates : (fp : Text) (t : ℕ) (s : Records) → fp ≢ [] → Step s (get_or_create fp t s).0
  assesses :
      (fp severity : Text) (analysis : Option AnalysisResultData) (s : Records)
      → Step s (update_severity_and_analysis fp severity analysis s)
  loads :
      (answer : Option (List Incident)) (s : Records) → Step s (load_existing_incidents answer s).0

pub data Reach : Records → Type 0 where
  here : Reach []
  next : {s t : Records} → Reach s → Step s t → Reach t

Step-AllSound : {s t : Records} → Step s t → AllSound s → AllSound t
Step-AllSound (records e t s n) h = record_event-AllSound e t s n h
Step-AllSound (creates fp t s n) h = get_or_create-AllSound fp t s n h
Step-AllSound (assesses fp severity a s) h = update-AllSound fp severity a s h
Step-AllSound (loads answer s) h = load-AllSound answer s h

pub Reach-AllSound : {s : Records} → Reach s → AllSound s
Reach-AllSound here = (tt, tt)
Reach-AllSound (next r st) = Step-AllSound st (Reach-AllSound r)

-- After any calls on an empty store, a sync of any of its records makes the object unresolved
-- and its phase Analyzing or Detecting, whatever the object's status was.
pub sync_sets_back :
    {s : Records}
    → Reach s
    → (fp : Text) (rec : IncidentRecord) (status : IncidentStatus)
    → lookup Text-discrete fp s ≡ some rec
    → ((sync_status rec status).is_resolved ≡ false)
      × ((sync_status rec status).phase ≡ (if ltb 1 rec.count then analyzing else detecting))
unfolding sync_status phase_of
sync_sets_back r fp rec status e =
    let p = lookup-All Text-discrete Sound fp rec _ e (Reach-AllSound r).1 in (p.2, rw p.2 refl)
