-- ===== src/Controller/Pipeline.antt =====
-- internal/controller/logintelligenceplatform_controller.go: the log pipeline. The loop over the
-- channel and the goroutine of each new incident are steps that may interleave. A goroutine is a
-- job with three stages, since it works on the live record: it retrieves, it has the context
-- analysed, it writes the result back. Outside parts may answer differently at each step.
pub mod Jobs
pub mod Arrivals
pub mod Once
pub mod End
mod Tests
use kube_diagnose.Common.{
  ℕ, zero, suc, ◌+◌, List, [], ◌∷◌, ◌++◌, map, Bool, true, false, Option, none, some, Text, Float64,
  if◌then◌else◌, get_elem?, float_zero, pos,
}
use kube_diagnose.Aggregator.Patterns.{PatternDetector}
use kube_diagnose.Aggregator.Patterns
use kube_diagnose.Aggregator.Store.{
  IncidentRecord, Records, Event, AnalysisResultData, update_severity_and_analysis,
}
use kube_diagnose.Aggregator.Store
use kube_diagnose.Llm.Result.{AnalysisRequest, AnalysisResult, Provider}
use kube_diagnose.Llm.Analyzer.{Analyzer, Clock, analyze}
use kube_diagnose.LogWatcher.Lines.{LogEntry}
use kube_diagnose.Rag.Engine.{Services, Retrieved, RetrievalResult, retrieve, format_context}

pub data Stage : Type 0 where
  started : Stage
  retrieved : List Text → Text → Float64 → Stage
  analysed : AnalysisResult → Stage

-- The goroutine of a new incident, by the fingerprint of its record.
pub record Job : Type 0 where
  pub fingerprint : Text
  pub stage : Stage

pub record Pipeline : Type 0 where
  pub detector : PatternDetector
  pub records : Records
  pub analyzer : Analyzer
  pub jobs : List Job

abbrev pub event_of : LogEntry → Text → Event
event_of entry fp = record {
  namespace = entry.log.namespace;
  policy_name = entry.policy_name;
  fingerprint = fp;
  pattern = entry.log.message;
  sample_msg = entry.log.message;
  pod_name = entry.log.pod;
}

abbrev pub request_of : IncidentRecord → List Text → AnalysisRequest
request_of rec pods = record {
  pattern = rec.pattern;
  namespace = rec.namespace;
  sample_log = rec.sample_message;
  context = [];
  affected_pods = pods;
  occurrence_count = rec.count;
}

abbrev pub analysis_data : AnalysisResult → AnalysisResultData
analysis_data r = record {
  root_cause = r.root_cause;
  confidence = r.confidence;
  impact = r.impact;
  severity = r.severity;
  recommended_actions = r.recommended_actions;
  related_runbooks = r.related_runbooks;
  analysis_source = r.analysis_source;
  tokens_used = r.tokens_used;
}

-- The job at an index replaced, or taken out when it has ended.
unfoldable pub replace_at : ℕ → Option Job → List Job → List Job
replace_at i o [] = []
replace_at zero none (j ∷ js) = js
replace_at zero (some k) (j ∷ js) = k ∷ js
replace_at (suc i) o (j ∷ js) = j ∷ replace_at i o js

module _ (fingerprint_of : Text → Text) where
  -- One entry of the channel: the detector and the store read the clock one after the other.
  unfoldable pub arrive : LogEntry → ℕ → ℕ → Pipeline → Pipeline
  arrive entry seen_at stored_at p =
      let fp = fingerprint_of entry.log.message in
      let r = Store.record_event (event_of entry fp) stored_at p.records in
      record {
        detector = Patterns.record_event p.detector fp seen_at;
        records = r.0;
        analyzer = p.analyzer;
        jobs =
            if r.2 then p.jobs ++ (record { fingerprint = fp; stage = started } ∷ []) else p.jobs;
      }

module _ (percent : Float64 → Text) (sort : List RetrievalResult → List RetrievalResult)
    {V Q : Type 0} (s : Services V Q) (providers : List Provider) (clock : Clock) where
  abbrev pub retrieved_stage : List Text → Option Retrieved → Stage
  retrieved_stage pods none = retrieved pods [] float_zero
  retrieved_stage pods (some r) = retrieved pods (format_context percent r.results) r.max_confidence

  -- One stage of a job on the live record; `none` is its end.
  unfoldable pub run_stage : Pipeline → Text → Stage → IncidentRecord → Pipeline × Option Stage
  run_stage p fp started rec =
      let pods = map (λ entry. entry.0) rec.affected_pods in
      (p, some (retrieved_stage pods (retrieve s sort rec.pattern (pos 5))))
  run_stage p fp (retrieved pods context confidence) rec =
      let a =
        analyze providers clock p.analyzer (request_of rec pods) context confidence rec.severity in
      (record p { analyzer = a.after }, some (analysed a.result))
  run_stage p fp (analysed result) rec = (
    record p {
      records =
          update_severity_and_analysis fp result.severity (some (analysis_data result)) p.records;
    },
    none,
  )

  abbrev pub job_at : Text → Option Stage → Option Job
  job_at fp none = none
  job_at fp (some stage) = some (record { fingerprint = fp; stage = stage })

  -- A job holds a pointer to its record, so the record is there.
  unfoldable pub advance : ℕ → Pipeline → Pipeline
  advance i p = elim (get_elem? p.jobs i) [
    | none ↦ p
    | some job ↦ elim (Store.get job.fingerprint p.records) [
      | none ↦ record p { jobs = replace_at i none p.jobs }
      | some rec ↦
          let out = run_stage p job.fingerprint job.stage rec in
          record out.0 { jobs = replace_at i (job_at job.fingerprint out.1) p.jobs }
    ]
  ]

-- One step: an entry of the channel, or the next stage of the job at an index.
pub data Step (V Q : Type 0) : Type 0 where
  arrives : LogEntry → ℕ → ℕ → Step V Q
  advances : ℕ → Services V Q → List Provider → Clock → Step V Q

module _ (fingerprint_of : Text → Text) (percent : Float64 → Text)
    (sort : List RetrievalResult → List RetrievalResult) {V Q : Type 0} where
  unfoldable pub step : Pipeline → Step V Q → Pipeline
  step p (arrives entry seen_at stored_at) = arrive fingerprint_of entry seen_at stored_at p
  step p (advances i s providers clock) = advance percent sort s providers clock i p

  unfoldable pub run_log_pipeline : Pipeline → List (Step V Q) → Pipeline
  run_log_pipeline p [] = p
  run_log_pipeline p (x ∷ xs) = run_log_pipeline (step p x) xs
