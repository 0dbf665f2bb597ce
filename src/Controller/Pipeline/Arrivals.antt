-- ===== src/Controller/Pipeline/Arrivals.antt =====
-- internal/controller/logintelligenceplatform_controller.go: what an entry starts.
use kube_diagnose.Common.{
  ℕ, ◌+◌, List, [], ◌∷◌, ◌++◌, Bool, true, false, Option, none, some, Text, ◌≡◌, ◌≢◌, refl, ◌∙◌,
  arith, if◌then◌else◌, if_neg, Text-discrete, lookup, lookup-insert_ne,
}
use kube_diagnose.Aggregator.Store.{
  IncidentRecord, Records, Event, AnalysisResultData, update_severity_and_analysis, with_severity,
  update_record, found_or_new, new_record,
}
use kube_diagnose.Aggregator.Store
use kube_diagnose.LogWatcher.Lines.{LogEntry}
use kube_diagnose.Controller.Pipeline.{started, Job, Pipeline, event_of, arrive}
use kube_diagnose.Controller.Pipeline.Jobs.{
  same, jobs_of, same_yes, same_no, jobs_of-append, Once, lookup-insert_same, none_more,
}

abbrev started_job : Text → Job
started_job fp = record { fingerprint = fp; stage = started }

abbrev with_job : Bool → Text → List Job → List Job
with_job is_new fp js = if is_new then js ++ (started_job fp ∷ []) else js

with_job_other :
    (is_new : Bool) (own fp : Text) (js : List Job)
    → own ≢ fp
    → jobs_of fp (with_job is_new own js) ≡ jobs_of fp js
with_job_other true own fp js h =
    jobs_of-append fp js (started_job own ∷ []) ∙ rw (if_neg (Text-discrete own fp) h) (omega arith)
with_job_other false own fp js h = refl

-- An event of the fingerprint itself.
Once-event :
    (e : Event) (u : ℕ) (fp : Text) (js : List Job) (seen : ℕ) (o : Option IncidentRecord)
    → Once seen o (jobs_of fp js)
    → Once
        (1 + seen)
        (some (update_record e u (found_or_new e u o).0))
        (jobs_of fp (with_job (found_or_new e u o).1 fp js))
unfolding update_record
Once-event e u fp js seen none w =
    let own_job : same fp fp ≡ 1 = same_yes fp fp refl in
    record {
      number = omega (arith, w.number);
      is_there = omega arith;
      one_analysis = omega (
        arith,
        jobs_of-append fp js (started_job fp ∷ []),
        own_job,
        w.number,
        w.is_there,
        w.one_analysis,
      );
    }
Once-event e u fp js seen (some rec) w = record {
  number = omega (arith, w.number);
  is_there = omega arith;
  one_analysis = omega (arith, w.is_there, w.one_analysis);
}

-- The events of an entry: one for its own fingerprint.
pub Once-arrive :
    (fingerprint_of : Text → Text) (fp : Text) (entry : LogEntry) (t u : ℕ) (p : Pipeline)
    (seen : ℕ)
    → Once seen (lookup Text-discrete fp p.records) (jobs_of fp p.jobs)
    → let q = arrive fingerprint_of entry t u p in
      Once
        (same (fingerprint_of entry.log.message) fp + seen)
        (lookup Text-discrete fp q.records)
        (jobs_of fp q.jobs)
unfolding arrive Store.record_event
Once-arrive fingerprint_of fp entry t u p seen w =
    let own : Text = fingerprint_of entry.log.message in
    let e : Event = event_of entry own in
    let old : IncidentRecord × Bool = found_or_new e u (lookup Text-discrete own p.records) in
    let rec : IncidentRecord = update_record e u old.0 in
    elim (Text-discrete own fp) [
      | yes is_own ↦
          rw (lookup-insert_same own fp rec p.records is_own, same_yes own fp is_own, is_own)
            (Once-event (event_of entry fp) u fp p.jobs seen (lookup Text-discrete fp p.records) w)
      | no other ↦
          rw
            (
              lookup-insert_ne Text-discrete own fp rec p.records other,
              same_no own fp other,
              none_more seen,
              with_job_other old.1 own fp p.jobs other,
            )
            w
    ]
