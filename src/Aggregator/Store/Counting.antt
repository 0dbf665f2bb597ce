-- ===== src/Aggregator/Store/Counting.antt =====
-- internal/aggregator/incident_store.go: what a record holds after the events of its pattern.
use kube_diagnose.Common.{
  ℕ, ◌+◌, List, [], ◌∷◌, Bool, true, false, Option, none, some, Text, ◌≡◌, ◌↔◌, refl, ap, ◌∙◌,
  arith, if_pos, if_neg, Text-discrete, ite, length, lookup, lookup-insert, lookup-insert_self,
}
use kube_diagnose.Aggregator.Store.{
  IncidentRecord, Records, Event, new_record, placeholder, update_record, found_or_new,
  record_event, get_or_create, severity_low,
}

-- RecordEvent called with one event after another, each at its time.
abbrev pub record_events : List (Event × ℕ) → Records → Records
record_events [] s = s
record_events (e ∷ es) s = record_events es (record_event e.0 e.1 s).0

abbrev pub matching : Text → List (Event × ℕ) → List (Event × ℕ)
matching fp [] = []
matching fp (e ∷ es) = ite (Text-discrete e.0.fingerprint fp) (e ∷ matching fp es) (matching fp es)

abbrev updates : List (Event × ℕ) → IncidentRecord → IncidentRecord
updates [] rec = rec
updates (e ∷ es) rec = updates es (update_record e.0 e.1 rec)

abbrev changed : List (Event × ℕ) → Option IncidentRecord → Option IncidentRecord
changed [] o = o
changed (e ∷ es) o = some (updates es (update_record e.0 e.1 (found_or_new e.0 e.1 o).0))

abbrev pub last_time : ℕ → List (Event × ℕ) → ℕ
last_time t [] = t
last_time t (e ∷ es) = last_time e.1 es

changed-some :
    (es : List (Event × ℕ)) (rec : IncidentRecord) → changed es (some rec) ≡ some (updates es rec)
changed-some [] rec = refl
changed-some (e ∷ es) rec = refl

pub lookup-record_event :
    (e : Event) (t : ℕ) (fp : Text) (s : Records)
    → lookup Text-discrete fp (record_event e t s).0
      ≡ ite
          (Text-discrete e.fingerprint fp)
          (some (update_record e t (found_or_new e t (lookup Text-discrete e.fingerprint s)).0))
          (lookup Text-discrete fp s)
unfolding record_event
lookup-record_event e t fp s = lookup-insert Text-discrete e.fingerprint fp _ s

lookup-record_events :
    (es : List (Event × ℕ)) (fp : Text) (s : Records)
    → lookup Text-discrete fp (record_events es s)
      ≡ changed (matching fp es) (lookup Text-discrete fp s)
lookup-record_events [] fp s = refl
lookup-record_events (e ∷ es) fp s =
    let ih = lookup-record_events es fp (record_event e.0 e.1 s).0 in
    elim (Text-discrete e.0.fingerprint fp) [
      | yes same ↦
          rw (if_pos _ same, ih, lookup-record_event e.0 e.1 fp s, if_pos _ same, same)
            (changed-some (matching fp es) _)
      | no differ ↦ rw (if_neg _ differ, ih, lookup-record_event e.0 e.1 fp s, if_neg _ differ) refl
    ]

updates-count :
    (es : List (Event × ℕ)) (rec : IncidentRecord) → (updates es rec).count ≡ rec.count + length es
unfolding update_record
updates-count [] rec = omega arith
updates-count (e ∷ es) rec = omega (arith, updates-count es (update_record e.0 e.1 rec))

updates-last_seen :
    (es : List (Event × ℕ)) (rec : IncidentRecord)
    → (updates es rec).last_seen ≡ last_time rec.last_seen es
unfolding update_record
updates-last_seen [] rec = refl
updates-last_seen (e ∷ es) rec = updates-last_seen es (update_record e.0 e.1 rec)

-- The fields that no event changes.
abbrev pub origin : IncidentRecord → Text × Text × Text × Text × Text × ℕ × Text × Bool
origin rec = (
  rec.fingerprint, rec.pattern, rec.sample_message, rec.namespace, rec.policy_name, rec.first_seen,
  rec.severity, rec.is_resolved,
)

updates-origin :
    (es : List (Event × ℕ)) (rec : IncidentRecord) → origin (updates es rec) ≡ origin rec
unfolding update_record
updates-origin [] rec = refl
updates-origin (e ∷ es) rec = updates-origin es (update_record e.0 e.1 rec)

-- After any events from an empty store, a fingerprint that one of them has holds a record with
-- the texts and the time of the first of its events, the time of the last one and their number,
-- with low severity and unresolved.
pub recorded :
    (fp : Text) (es more : List (Event × ℕ)) (first : Event × ℕ)
    → matching fp es ≡ first ∷ more
    → (rec : IncidentRecord) × (lookup Text-discrete fp (record_events es []) ≡ some rec)
      × (rec.count ≡ length more + 1)
      × (rec.last_seen ≡ last_time first.1 more)
      × (origin rec ≡ (
        first.0.fingerprint, first.0.pattern, first.0.sample_msg, first.0.namespace,
        first.0.policy_name, first.1, severity_low, false,
      ))
unfolding update_record lookup
recorded fp es more first h =
    let start = update_record first.0 first.1 (new_record first.0 first.1) in
    (
      updates more start,
      lookup-record_events es fp [] ∙ ap (λ ms. changed ms none) h,
      omega (arith, updates-count more start),
      updates-last_seen more start,
      updates-origin more start,
    )

-- RecordEvent calls an event new exactly when no earlier event had its fingerprint.
pub new_iff :
    (es : List (Event × ℕ)) (e : Event) (t : ℕ)
    → ((record_event e t (record_events es [])).2 ≡ true) ↔ (matching e.fingerprint es ≡ [])
unfolding record_event lookup
new_iff es e t = rw (lookup-record_events es e.fingerprint []) (go (matching e.fingerprint es))
  where
    go : (ms : List (Event × ℕ)) → ((found_or_new e t (changed ms none)).1 ≡ true) ↔ (ms ≡ [])
    go [] = (λ _. refl, λ _. refl)
    go (m ∷ ms) = (λ h. ground arith, λ h. ground arith)

lookup-get_or_create :
    (fp : Text) (t : ℕ) (s : Records)
    → lookup Text-discrete fp s ≡ none
    → lookup Text-discrete fp (get_or_create fp t s).0 ≡ some (placeholder fp t)
unfolding get_or_create
lookup-get_or_create fp t s e =
    rw (e, get_or_create) (lookup-insert_self Text-discrete fp (placeholder fp t) s)

-- A placeholder that GetOrCreate made is never filled in: after any events its record has no
-- pattern, sample, namespace, policy or severity, while it counts the events of its fingerprint.
pub placeholder_stays_empty :
    (fp : Text) (t : ℕ) (s : Records) (es : List (Event × ℕ))
    → lookup Text-discrete fp s ≡ none
    → (rec : IncidentRecord) × (lookup Text-discrete fp (record_events es (get_or_create fp t s).0)
        ≡ some rec)
      × (rec.count ≡ length (matching fp es))
      × (origin rec ≡ (fp, [], [], [], [], t, [], false))
placeholder_stays_empty fp t s es h =
    let ms = matching fp es in
    (
      updates ms (placeholder fp t),
      lookup-record_events es fp _
          ∙ ap (changed ms) (lookup-get_or_create fp t s h)
          ∙ changed-some ms _,
      omega (arith, updates-count ms (placeholder fp t)),
      updates-origin ms (placeholder fp t),
    )
