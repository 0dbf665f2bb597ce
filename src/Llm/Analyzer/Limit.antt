-- ===== src/Llm/Analyzer/Limit.antt =====
-- internal/llm/analyzer.go: the hourly limit, for analyses that run one after the other.
use kube_diagnose.Common.{ℕ, ◌+◌, ◌*◌, ◌≤◌, List, [], ◌∷◌, Text, ◌≡◌, Float64}
use kube_diagnose.Llm.Result.{AnalysisRequest, Provider}
use kube_diagnose.Llm.Cache.{hour}
use kube_diagnose.Llm.Cache
use kube_diagnose.Llm.Analyzer.{Analyzer, Clock, analyze}

-- One analysis and everything that it is given.
pub record Call : Type 0 where
  pub providers : List Provider
  pub clock : Clock
  pub request : AnalysisRequest
  pub rag_context : Text
  pub confidence : Float64
  pub severity : Text

abbrev pub gate_time : Call → ℕ
gate_time c = c.clock.at_gate

unfoldable pub run : Analyzer → List Call → Analyzer
run a [] = a
run a (c ∷ cs) =
    run (analyze c.providers c.clock a c.request c.rag_context c.confidence c.severity).after cs

-- The clock does not go back from one analysis to the next, and stays at `last` or before.
abbrev pub Timeline : ℕ → List Call → ℕ → Type 0
Timeline now [] last = now ≤ last
Timeline now (c ∷ cs) last = (now ≤ gate_time c) × Timeline (gate_time c) cs last

-- After `r` resets of the hour since `start`.
pub record Within (start max r now : ℕ) (a : Analyzer) : Type 0 where
  pub limit : a.max_calls_per_hour ≡ max
  pub in_hour : a.calls_this_hour ≤ max
  pub total : a.llm_calls ≤ max * r + a.calls_this_hour
  pub spaced : start + r * hour + hour ≤ a.hour_reset_at
  pub recent : a.hour_reset_at ≤ now + hour
