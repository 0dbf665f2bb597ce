-- ===== src/Llm/Result.antt =====
-- internal/llm/provider.go: requests, results and providers. A provider's answer to one prompt is
-- a function of what the prompt is built from; it may differ from call to call.
use kube_diagnose.Common.{ℕ, List, Text, Float64}

pub record AnalysisResult : Type 0 where
  pub root_cause : Text
  pub confidence : Float64
  pub impact : Text
  pub severity : Text
  pub recommended_actions : List Text
  pub related_runbooks : List Text
  pub tokens_used : ℕ
  pub analysis_source : Text

pub record AnalysisRequest : Type 0 where
  pub pattern : Text
  pub namespace : Text
  pub sample_log : Text
  pub context : Text
  pub affected_pods : List Text
  pub occurrence_count : ℕ

pub data Answer : Type 0 where
  succeeded : AnalysisResult → Answer
  failed : Text → Answer

pub record Provider : Type 0 where
  pub name : Text
  pub answer : AnalysisRequest → Text → Answer
