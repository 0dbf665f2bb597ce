-- ===== src/Controller/Pipeline/Tests.antt =====
-- internal/controller/logintelligenceplatform_controller.go: the pipeline at concrete inputs.
use kube_diagnose.Common.{
  ℕ, min, List, [], ◌∷◌, ◌++◌, none, Text, Text-discrete, false, codes, insert, ◌≡◌, refl, arith,
  length, lookup, float_zero, pos,
}
use kube_diagnose.Aggregator.Patterns.{new_pattern_detector}
use kube_diagnose.Aggregator.Store.{record_event}
use kube_diagnose.Llm.Analyzer.{Clock, new_analyzer}
use kube_diagnose.Rag.Engine.{Services, retrieve}
use kube_diagnose.LogWatcher.Lines.{LogEntry}
use kube_diagnose.Controller.Pipeline.{
  Pipeline, Step, arrives, advances, arrive, advance, run_stage, replace_at, step, run_log_pipeline,
}
use kube_diagnose.Controller.Pipeline.Jobs.{Once, jobs_of, results}
use kube_diagnose.Controller.Pipeline.Once.{arrivals, run_log_pipeline-Once}
use kube_diagnose.Controller.Pipeline.End.{run_log_pipeline_ends}

abbrev line : Text → Text → LogEntry
line pod message = record {
  log = record {
    cluster = [];
    namespace = codes "shop";
    deployment = codes "web";
    pod = pod;
    container = codes "app";
    timestamp = 5;
    level = codes "ERROR";
    message = message;
    raw = message;
  };
  policy_namespace = codes "ops";
  policy_name = codes "all";
}

-- No text can be embedded.
abbrev silent : Services ℕ ℕ
silent = record {
  embed = λ t. none;
  upsert = λ collection points q. (q, false);
  search = λ collection vec limit. none;
}

abbrev clock : Clock
clock = record { at_lookup = 1; at_gate = 2; at_store = 3 }

abbrev idle : Pipeline
idle = record {
  detector = new_pattern_detector;
  records = [];
  analyzer = new_analyzer float_zero float_zero (pos 0) (pos 0) 0;
  jobs = [];
}

abbrev go : Step ℕ ℕ
go = advances 0 silent [] clock

-- An entry, its analysis begun, the same message again and another one.
abbrev entries : List (Step ℕ ℕ)
entries =
    arrives (line (codes "web-0") (codes "refused")) 10 11
    ∷ go
    ∷ arrives (line (codes "web-1") (codes "refused")) 20 21
    ∷ arrives (line (codes "web-1") (codes "timeout")) 30 31
    ∷ []

abbrev six : List (Step ℕ ℕ)
six = go ∷ go ∷ go ∷ go ∷ go ∷ go ∷ []

abbrev run : List (Step ℕ ℕ) → Pipeline
run = run_log_pipeline (λ m. m) (λ x. []) (λ rs. rs) idle

refused_arrivals : arrivals (λ m. m) (λ x. []) (λ rs. rs) (codes "refused") entries ≡ 2
unfolding Text-discrete
refused_arrivals = refl

run_log_pipeline-Once_example :
    Once
      (arrivals (λ m. m) (λ x. []) (λ rs. rs) (codes "refused") entries)
      (lookup Text-discrete (codes "refused") (run entries).records)
      (jobs_of (codes "refused") (run entries).jobs)
unfolding lookup
run_log_pipeline-Once_example =
    run_log_pipeline-Once (λ m. m) (λ x. []) (λ rs. rs) (codes "refused") entries idle refl refl

two_jobs : length (run entries).jobs ≡ 2
unfolding run_log_pipeline step arrive advance run_stage replace_at record_event lookup insert
    Text-discrete retrieve new_analyzer
two_jobs = refl

run_log_pipeline_ends_example :
    ((run (entries ++ six)).jobs ≡ [])
    × (results (lookup Text-discrete (codes "refused") (run (entries ++ six)).records)
        ≡ min 1 (arrivals (λ m. m) (λ x. []) (λ rs. rs) (codes "refused") entries))
unfolding lookup
run_log_pipeline_ends_example =
    run_log_pipeline_ends (λ m. m) (λ x. []) (λ rs. rs) (codes "refused") entries six idle refl refl
      (refl, (refl, (refl, (refl, (refl, (refl, tt)))))) (omega (arith, two_jobs))
