-- ===== src/Llm/Analyzer/Gate.antt =====
-- internal/llm/analyzer.go: when the providers are called, and which answer is taken.
use kube_diagnose.Common.{
  ℕ, suc, ◌<◌, List, [], ◌∷◌, ◌++◌, true, false, Option, none, some, Text, ◌≡◌, refl, ◌⊎◌, ◌↔◌,
  arith, length, All, Float64, inl, inr, ap,
}
use kube_diagnose.Llm.Result.{AnalysisResult, AnalysisRequest, Answer, succeeded, failed, Provider}
use kube_diagnose.Llm.Cache
use kube_diagnose.Llm.Analyzer.{
  Analyzer, Clock, cache_key, should_use_llm, reset_hour, at_limit, invoke, call_providers, analyze,
}

-- A provider that fails on the prompt.
abbrev pub Fails : AnalysisRequest → Text → Provider → Type 0
Fails req rag_context p = (e : Text) × (p.answer req rag_context ≡ failed e)

-- How the chain of providers ends.
pub data Chain (req : AnalysisRequest) (rag_context : Text) (ps : List Provider)
    : Option AnalysisResult → ℕ → Type 0 where
  exhausted : All (Fails req rag_context) ps → Chain req rag_context ps none (length ps)
  answered :
      (before rest : List Provider) (p : Provider) (r : AnalysisResult)
      → ps ≡ before ++ p ∷ rest
      → All (Fails req rag_context) before
      → p.answer req rag_context ≡ succeeded r
      → Chain req rag_context ps (some r) (suc (length before))

Answer-cases :
    (x : Answer) → ((r : AnalysisResult) × (x ≡ succeeded r)) ⊎ ((e : Text) × (x ≡ failed e))
Answer-cases (succeeded r) = inl (r, refl)
Answer-cases (failed e) = inr (e, refl)

Chain-skip :
    (req : AnalysisRequest) (rag_context : Text) (p : Provider) (ps : List Provider)
    (o : Option AnalysisResult) (n : ℕ)
    → Fails req rag_context p
    → Chain req rag_context ps o n
    → Chain req rag_context (p ∷ ps) o (suc n)
Chain-skip req rag_context p ps _ _ f (exhausted all) = exhausted (f, all)
Chain-skip req rag_context p ps _ _ f (answered before rest q r e all s) =
    answered (p ∷ before) rest q r (ap (◌∷◌ p) e) (f, all) s

-- The providers are called in order up to the first that succeeds, whose result is taken; none
-- behind it is called, and there is no result only when all of them were called and failed.
pub invoke-Chain :
    (ps : List Provider) (req : AnalysisRequest) (rag_context : Text) (last_error : Option Text)
    → Chain req rag_context ps
        (invoke ps req rag_context last_error).0
        (invoke ps req rag_context last_error).2
unfolding invoke
invoke-Chain [] req rag_context last_error = exhausted tt
invoke-Chain (p ∷ ps) req rag_context last_error = elim (Answer-cases (p.answer req rag_context)) [
  | inl (r, e) ↦ rw (e, invoke) (answered [] ps p r refl tt e)
  | inr (err, e) ↦
      rw (e, invoke)
        (Chain-skip req rag_context p ps _ _ (err, e) (invoke-Chain ps req rag_context (some err)))
]

invoke_calls :
    (p : Provider) (ps : List Provider) (req : AnalysisRequest) (rag_context : Text)
    (last_error : Option Text)
    → 0 < (invoke (p ∷ ps) req rag_context last_error).2
unfolding invoke
invoke_calls p ps req rag_context last_error = ground arith

called-call_providers :
    (ps : List Provider) (clock : Clock) (a : Analyzer) (req : AnalysisRequest) (rag_context : Text)
    (confidence : Float64) (severity : Text)
    → (call_providers ps clock a req rag_context confidence severity).called
      ≡ (invoke ps req rag_context none).2
unfolding call_providers
called-call_providers ps clock a req rag_context confidence severity = ground arith

-- With a provider configured, an analysis calls a provider exactly when the cache holds no live
-- entry for the request, the retrieved confidence is below the threshold for the severity, and the
-- calls of the current hour are below the limit.
pub analyze_calls_iff :
    (p : Provider) (ps : List Provider) (clock : Clock) (a : Analyzer) (req : AnalysisRequest)
    (rag_context : Text) (confidence : Float64) (severity : Text)
    → (0 < (analyze (p ∷ ps) clock a req rag_context confidence severity).called) ↔ (
        (Cache.get a.cache (cache_key req) clock.at_lookup ≡ none)
        × (should_use_llm a confidence severity ≡ true)
        × (at_limit (reset_hour a clock.at_gate) ≡ false))
unfolding analyze
analyze_calls_iff p ps clock a req rag_context confidence severity = ground (
  arith,
  called-call_providers (p ∷ ps) clock (reset_hour a clock.at_gate) req rag_context confidence
      severity,
  invoke_calls p ps req rag_context none,
)
