-- ===== src/Controller/Pipeline/Once.antt =====
-- internal/controller/logintelligenceplatform_controller.go: one analysis for each fingerprint.
use kube_diagnose.Common.{
  ℕ, ◌+◌, List, [], ◌∷◌, Option, none, some, Text, Float64, ◌≡◌, refl, ◌∙◌, arith, inl, inr,
  get_elem?, Text-discrete, lookup, insert, lookup-insert_ne, Option-cases,
}
use kube_diagnose.Aggregator.Store.{
  IncidentRecord, Records, AnalysisResultData, update_severity_and_analysis, with_severity,
}
use kube_diagnose.Llm.Result.{Provider}
use kube_diagnose.Llm.Analyzer.{Clock}
use kube_diagnose.Rag.Engine.{Services, RetrievalResult}
use kube_diagnose.Controller.Pipeline.{
  Stage, started, retrieved, analysed, Job, Pipeline, analysis_data, replace_at, arrive, run_stage,
  job_at, advance, Step, arrives, advances, step, run_log_pipeline,
}
use kube_diagnose.Controller.Pipeline.Jobs.{
  same, jobs_of, same_yes, present, jobs_of-replace_at, Once, lookup-insert_same, none_more,
  Once-other,
}
use kube_diagnose.Controller.Pipeline.Arrivals.{Once-arrive}

with_severity-count :
    (severity : Text) (rec : IncidentRecord) → (with_severity severity rec).count ≡ rec.count
unfolding with_severity
with_severity-count [] rec = refl
with_severity-count (c ∷ cs) rec = refl

-- The job of the fingerprint ends, and its result is attached.
Once-ended :
    (fp : Text) (i : ℕ) (js : List Job) (job : Job) (seen : ℕ) (rec : IncidentRecord)
    (severity : Text) (attached : AnalysisResultData)
    → get_elem? js i ≡ some job
    → job.fingerprint ≡ fp
    → Once seen (some rec) (jobs_of fp js)
    → Once seen
        (some (record (with_severity severity rec) { analysis = some attached }))
        (jobs_of fp (replace_at i none js))
unfolding with_severity
Once-ended fp i js job seen rec severity attached at_i own w = record {
  number = with_severity-count severity rec ∙ w.number;
  is_there = w.is_there;
  one_analysis = omega (
    arith,
    w.one_analysis,
    (jobs_of-replace_at fp i js job job at_i refl).1,
    same_yes job.fingerprint fp own,
  );
}

updated :
    (own severity : Text) (attached : AnalysisResultData) (rec : IncidentRecord) (s : Records)
    → lookup Text-discrete own s ≡ some rec
    → update_severity_and_analysis own severity (some attached) s
      ≡ insert Text-discrete own
          (record (with_severity severity rec) { analysis = some attached })
          s
unfolding update_severity_and_analysis
updated own severity attached rec s e = rw (e, update_severity_and_analysis) refl

-- A result that is written back.
Once-written :
    (fp : Text) (i : ℕ) (js : List Job) (job : Job) (seen : ℕ) (rec : IncidentRecord) (s : Records)
    (severity : Text) (attached : AnalysisResultData)
    → get_elem? js i ≡ some job
    → lookup Text-discrete job.fingerprint s ≡ some rec
    → Once seen (lookup Text-discrete fp s) (jobs_of fp js)
    → Once seen
        (lookup Text-discrete fp
          (update_severity_and_analysis job.fingerprint severity (some attached) s))
        (jobs_of fp (replace_at i none js))
Once-written fp i js job seen rec s severity attached at_i found w =
    let new : IncidentRecord = record (with_severity severity rec) { analysis = some attached } in
    elim (Text-discrete job.fingerprint fp) [
      | yes own ↦
          let found' : lookup Text-discrete fp s ≡ some rec = rw own at found in
          rw
            (
              updated job.fingerprint severity attached rec s found,
              lookup-insert_same job.fingerprint fp new s own,
            )
            (Once-ended fp i js job seen rec severity attached at_i own (rw found' at w))
      | no other ↦
          rw
            (
              updated job.fingerprint severity attached rec s found,
              lookup-insert_ne Text-discrete job.fingerprint fp new s other,
            )
            (Once-other fp i js job seen (lookup Text-discrete fp s) at_i other w)
    ]

module _ {V Q : Type 0} (percent : Float64 → Text)
    (sort : List RetrievalResult → List RetrievalResult) (s : Services V Q)
    (providers : List Provider) (clock : Clock) where
  -- A job that goes on.
  Once-goes_on :
      (fp : Text) (i : ℕ) (js : List Job) (job next : Job) (seen : ℕ) (o : Option IncidentRecord)
      → get_elem? js i ≡ some job
      → job.fingerprint ≡ next.fingerprint
      → Once seen o (jobs_of fp js)
      → Once seen o (jobs_of fp (replace_at i (some next) js))
  Once-goes_on fp i js job next seen o at_i e w =
      rw ((jobs_of-replace_at fp i js job next at_i e).0) w

  Once-gone :
      (fp : Text) (i : ℕ) (p : Pipeline) (job : Job) (seen : ℕ)
      → get_elem? p.jobs i ≡ some job
      → lookup Text-discrete job.fingerprint p.records ≡ none
      → Once seen (lookup Text-discrete fp p.records) (jobs_of fp p.jobs)
      → Once seen (lookup Text-discrete fp p.records) (jobs_of fp (replace_at i none p.jobs))
  Once-gone fp i p job seen at_i gone w = elim (Text-discrete job.fingerprint fp) [
    | yes own ↦
        let none_there : present (lookup Text-discrete fp p.records) ≡ 0 = rw (← own, gone) refl in
        absurd (
          omega (
            arith,
            none_there,
            w.is_there,
            w.one_analysis,
            (jobs_of-replace_at fp i p.jobs job job at_i refl).1,
            same_yes job.fingerprint fp own,
          ))
    | no other ↦ Once-other fp i p.jobs job seen (lookup Text-discrete fp p.records) at_i other w
  ]

  Once-stage :
      (fp : Text) (i : ℕ) (p : Pipeline) (own : Text) (stage : Stage) (rec : IncidentRecord)
      (seen : ℕ)
      → get_elem? p.jobs i ≡ some (record { fingerprint = own; stage = stage })
      → lookup Text-discrete own p.records ≡ some rec
      → Once seen (lookup Text-discrete fp p.records) (jobs_of fp p.jobs)
      → let out = run_stage percent sort s providers clock p own stage rec in
        Once seen
          (lookup Text-discrete fp out.0.records)
          (jobs_of fp (replace_at i (job_at percent sort s providers clock own out.1) p.jobs))
  unfolding run_stage update_severity_and_analysis
  Once-stage fp i p own started rec seen at_i found w =
      Once-goes_on fp i p.jobs (record { fingerprint = own; stage = started }) _ seen
        (lookup Text-discrete fp p.records) at_i refl w
  Once-stage fp i p own (retrieved pods context confidence) rec seen at_i found w =
      Once-goes_on fp i p.jobs
        (record { fingerprint = own; stage = retrieved pods context confidence }) _ seen
        (lookup Text-discrete fp p.records) at_i refl w
  Once-stage fp i p own (analysed result) rec seen at_i found w =
      Once-written fp i p.jobs (record { fingerprint = own; stage = analysed result }) seen rec
        p.records result.severity (analysis_data result) at_i found w

  Once-advance :
      (fp : Text) (i : ℕ) (p : Pipeline) (seen : ℕ)
      → Once seen (lookup Text-discrete fp p.records) (jobs_of fp p.jobs)
      → let q = advance percent sort s providers clock i p in
        Once seen (lookup Text-discrete fp q.records) (jobs_of fp q.jobs)
  unfolding advance
  Once-advance fp i p seen w = elim (Option-cases (get_elem? p.jobs i)) [
    | inl e ↦ rw (e, advance) w
    | inr (job, at_i) ↦ elim (Option-cases (lookup Text-discrete job.fingerprint p.records)) [
      | inl gone ↦ rw (at_i, gone, advance) (Once-gone fp i p job seen at_i gone w)
      | inr (rec, found) ↦
          rw (at_i, found, advance)
            (Once-stage fp i p job.fingerprint job.stage rec seen at_i found w)
    ]
  ]

module _ (fingerprint_of : Text → Text) (percent : Float64 → Text)
    (sort : List RetrievalResult → List RetrievalResult) {V Q : Type 0} where
  -- The entries with a fingerprint.
  abbrev pub arrivals : Text → List (Step V Q) → ℕ
  arrivals fp [] = 0
  arrivals fp (arrives entry t u ∷ xs) = same (fingerprint_of entry.log.message) fp + arrivals fp xs
  arrivals fp (advances i s providers clock ∷ xs) = arrivals fp xs

  Once-run :
      (fp : Text) (xs : List (Step V Q)) (p : Pipeline) (seen : ℕ)
      → Once seen (lookup Text-discrete fp p.records) (jobs_of fp p.jobs)
      → let q = run_log_pipeline fingerprint_of percent sort p xs in
        Once (arrivals fp xs + seen) (lookup Text-discrete fp q.records) (jobs_of fp q.jobs)
  unfolding run_log_pipeline step
  Once-run fp [] p seen w = rw (none_more seen) w
  Once-run fp (arrives entry t u ∷ xs) p seen w =
      rw (moved (same (fingerprint_of entry.log.message) fp) (arrivals fp xs) seen) (
        Once-run fp xs (arrive fingerprint_of entry t u p)
          (same (fingerprint_of entry.log.message) fp + seen)
          (Once-arrive fingerprint_of fp entry t u p seen w))
    where
      moved : (a b c : ℕ) → a + b + c ≡ b + (a + c)
      moved a b c = omega arith
  Once-run fp (advances i s providers clock ∷ xs) p seen w =
      Once-run fp xs (advance percent sort s providers clock i p) seen
        (Once-advance percent sort s providers clock fp i p seen w)

  -- In whatever order the entries and the stages of the jobs interleave, a fingerprint that the
  -- store and the jobs did not have before holds a record once an entry has it, which counts these
  -- entries, and has started one analysis in all: it is under way, or its result is on the record.
  pub run_log_pipeline-Once :
      (fp : Text) (xs : List (Step V Q)) (p : Pipeline)
      → lookup Text-discrete fp p.records ≡ none
      → jobs_of fp p.jobs ≡ 0
      → let q = run_log_pipeline fingerprint_of percent sort p xs in
        Once (arrivals fp xs) (lookup Text-discrete fp q.records) (jobs_of fp q.jobs)
  run_log_pipeline-Once fp xs p unknown_before idle = rw (zero_more (arrivals fp xs)) at (
      Once-run fp xs p 0 (
        rw (unknown_before, idle) (record { number = refl; is_there = refl; one_analysis = refl })))
    where
      zero_more : (n : ℕ) → n + 0 ≡ n
      zero_more n = omega arith
