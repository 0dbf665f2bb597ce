-- ===== src/Controller/Pipeline/End.antt =====
-- internal/controller/logintelligenceplatform_controller.go: the jobs of the pipeline end.
use kube_diagnose.Common.{
  ℕ, suc, ◌+◌, ◌*◌, ◌-◌, ◌≤◌, min, List, [], ◌∷◌, ◌++◌, map, Option, none, some, Text,
  Text-discrete, Float64, ◌≡◌, refl, ap, arith, inl, inr, length, lookup, pos, Option-cases, All,
}
use kube_diagnose.Aggregator.Store.{IncidentRecord}
use kube_diagnose.Llm.Result.{Provider}
use kube_diagnose.Llm.Analyzer.{Clock}
use kube_diagnose.Rag.Engine.{Services, Retrieved, RetrievalResult, retrieve}
use kube_diagnose.Controller.Pipeline.{
  Stage, started, retrieved, analysed, Job, Pipeline, replace_at, retrieved_stage, run_stage,
  job_at, advance, Step, arrives, advances, step, run_log_pipeline,
}
use kube_diagnose.Controller.Pipeline.Jobs.{jobs_of, same, results}
use kube_diagnose.Controller.Pipeline.Once.{arrivals, run_log_pipeline-Once}

-- The stages that a job has before it.
abbrev stages : Stage → ℕ
stages started = 3
stages (retrieved pods context confidence) = 2
stages (analysed result) = 1

abbrev pub work : List Job → ℕ
work [] = 0
work (j ∷ js) = stages j.stage + work js

stages_positive : (s : Stage) → 1 ≤ stages s
stages_positive started = omega arith
stages_positive (retrieved pods context confidence) = omega arith
stages_positive (analysed result) = omega arith

work_bound : (js : List Job) → work js ≤ 3 * length js
work_bound [] = omega arith
work_bound (j ∷ js) = omega (arith, work_bound js, stages_bound j.stage)
  where
    stages_bound : (s : Stage) → stages s ≤ 3
    stages_bound started = omega arith
    stages_bound (retrieved pods context confidence) = omega arith
    stages_bound (analysed result) = omega arith

work_none : (js : List Job) → work js ≡ 0 → js ≡ []
work_none [] h = refl
work_none (j ∷ js) h = absurd (omega (arith, h, stages_positive j.stage))

-- A step of the job at the head of the list.
abbrev pub IsFirst : {V Q : Type 0} → Step V Q → Type 0
IsFirst (arrives entry t u) = ⊥
IsFirst (advances i s providers clock) = i ≡ 0

module _ (percent : Float64 → Text) (sort : List RetrievalResult → List RetrievalResult)
    {V Q : Type 0} (s : Services V Q) (providers : List Provider) (clock : Clock) where
  -- The stage of the first job is done.
  stage_done :
      (p : Pipeline) (fp : Text) (stage : Stage) (js : List Job) (rec : IncidentRecord)
      → let out = run_stage percent sort s providers clock p fp stage rec in
        suc (
          work (
            replace_at 0
              (job_at percent sort s providers clock fp out.1)
              (record { fingerprint = fp; stage = stage } ∷ js)))
        ≡ work (record { fingerprint = fp; stage = stage } ∷ js)
  unfolding run_stage replace_at
  stage_done p fp started js rec = omega (
    arith,
    after_retrieval (map (λ entry. entry.0) rec.affected_pods)
        (retrieve s sort rec.pattern (pos 5)),
  )
    where
      after_retrieval :
          (pods : List Text) (o : Option Retrieved)
          → stages (retrieved_stage percent sort s providers clock pods o) ≡ 2
      after_retrieval pods none = refl
      after_retrieval pods (some r) = refl
  stage_done p fp (retrieved pods context confidence) js rec = omega arith
  stage_done p fp (analysed result) js rec = omega arith

  first_advanced :
      (p : Pipeline) (js : List Job)
      → p.jobs ≡ js
      → work (advance percent sort s providers clock 0 p).jobs ≤ work js - 1
  unfolding advance replace_at
  first_advanced p [] e = rw (e, advance) (rw e (omega arith))
  first_advanced p (j ∷ js) e = elim (Option-cases (lookup Text-discrete j.fingerprint p.records)) [
    | inl gone ↦ rw (e, gone, advance) (rw e (omega (arith, stages_positive j.stage)))
    | inr (rec, found) ↦
        rw (e, found, advance) (simp e (omega (arith, stage_done p j.fingerprint j.stage js rec)))
  ]

module _ (fingerprint_of : Text → Text) (percent : Float64 → Text)
    (sort : List RetrievalResult → List RetrievalResult) {V Q : Type 0} where
  work_run :
      (xs : List (Step V Q)) (p : Pipeline)
      → All IsFirst xs
      → work (run_log_pipeline fingerprint_of percent sort p xs).jobs ≤ work p.jobs - length xs
  unfolding run_log_pipeline step
  work_run [] p f = omega arith
  work_run (arrives entry t u ∷ xs) p f = absurd f.0
  work_run (advances i s providers clock ∷ xs) p f = rw f.0 (
      omega (
        arith,
        work_run xs (advance percent sort s providers clock 0 p) f.1,
        first_advanced percent sort s providers clock p p.jobs refl,
      ))

  run_append :
      (xs ys : List (Step V Q)) (p : Pipeline)
      → run_log_pipeline fingerprint_of percent sort p (xs ++ ys)
        ≡ run_log_pipeline fingerprint_of percent sort
            (run_log_pipeline fingerprint_of percent sort p xs)
            ys
  unfolding run_log_pipeline
  run_append [] ys p = refl
  run_append (x ∷ xs) ys p = run_append xs ys (step fingerprint_of percent sort p x)

  arrivals_first :
      (fp : Text) (xs last : List (Step V Q))
      → All IsFirst last
      → arrivals fingerprint_of percent sort fp (xs ++ last)
        ≡ arrivals fingerprint_of percent sort fp xs
  arrivals_first fp [] [] f = refl
  arrivals_first fp [] (arrives entry t u ∷ last) f = absurd f.0
  arrivals_first fp [] (advances i s providers clock ∷ last) f = arrivals_first fp [] last f.1
  arrivals_first fp (arrives entry t u ∷ xs) last f =
      ap (λ n. same (fingerprint_of entry.log.message) fp + n) (arrivals_first fp xs last f)
  arrivals_first fp (advances i s providers clock ∷ xs) last f = arrivals_first fp xs last f

  -- Three stages for each job under way end all of them, whatever the outside parts answer, and
  -- every fingerprint that some entry has then has a result on its record.
  pub run_log_pipeline_ends :
      (fp : Text) (xs last : List (Step V Q)) (p : Pipeline)
      → lookup Text-discrete fp p.records ≡ none
      → jobs_of fp p.jobs ≡ 0
      → All IsFirst last
      → 3 * length (run_log_pipeline fingerprint_of percent sort p xs).jobs ≤ length last
      → let q = run_log_pipeline fingerprint_of percent sort p (xs ++ last) in
        (q.jobs ≡ [])
        × (results (lookup Text-discrete fp q.records)
            ≡ min 1 (arrivals fingerprint_of percent sort fp xs))
  run_log_pipeline_ends fp xs last p unknown_before idle first enough =
      let before : Pipeline = run_log_pipeline fingerprint_of percent sort p xs in
      let q : Pipeline = run_log_pipeline fingerprint_of percent sort p (xs ++ last) in
      let ended : q.jobs ≡ [] = work_none q.jobs (
        rw (run_append xs last p)
          (omega (arith, enough, work_bound before.jobs, work_run last before first))) in
      let once =
        run_log_pipeline-Once fingerprint_of percent sort fp (xs ++ last) p unknown_before idle in
      (ended, omega (arith, rw ended at once.one_analysis, arrivals_first fp xs last first))
