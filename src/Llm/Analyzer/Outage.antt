-- ===== src/Llm/Analyzer/Outage.antt =====
-- internal/llm/analyzer.go: the hourly limit while every provider fails.
use kube_diagnose.Common.{
  ℕ, suc, ◌+◌, ◌≤◌, List, [], ◌∷◌, true, false, Option, none, some, Text, ◌≡◌, refl, ap, ◌∙◌, arith,
  Bool-cases, inl, inr, All, length, ltb,
}
use kube_diagnose.Llm.Result.{AnalysisRequest, Provider, failed}
use kube_diagnose.Llm.Cache.{hour}
use kube_diagnose.Llm.Cache
use kube_diagnose.Llm.Analyzer.{
  Analyzer, cache_key, should_use_llm, reset_hour, at_limit, invoke, call_providers, analyze_miss,
  analyze,
}
use kube_diagnose.Llm.Analyzer.Limit.{Call, run}

-- Every provider fails on the call.
abbrev pub AllFail : List Provider → AnalysisRequest → Text → Type 0
AllFail providers req rag_context =
    All (λ p. (e : Text) × (p.answer req rag_context ≡ failed e)) providers

-- A call that the cache does not answer and that is below the threshold of confidence.
pub record Asks (a : Analyzer) (c : Call) : Type 0 where
  pub is_missed : Cache.get a.cache (cache_key c.request) c.clock.at_lookup ≡ none
  pub is_needed : should_use_llm a c.confidence c.severity ≡ true
  pub all_fail : AllFail c.providers c.request c.rag_context

-- The calls of providers that some analyses make, one after the other.
unfoldable pub calls_made : Analyzer → List Call → ℕ
calls_made a [] = 0
calls_made a (c ∷ cs) =
    let r = analyze c.providers c.clock a c.request c.rag_context c.confidence c.severity in
    r.called + calls_made r.after cs

abbrev pub providers_asked : List Call → ℕ
providers_asked [] = 0
providers_asked (c ∷ cs) = length c.providers + providers_asked cs

invoke-AllFail :
    (ps : List Provider) (req : AnalysisRequest) (rag_context : Text) (last_error : Option Text)
    → AllFail ps req rag_context
    → ((invoke ps req rag_context last_error).0 ≡ none)
      × ((invoke ps req rag_context last_error).2 ≡ length ps)
unfolding invoke
invoke-AllFail [] req rag_context last_error h = (refl, refl)
invoke-AllFail (p ∷ ps) req rag_context last_error ((e, is_failed), h) =
    let rest = invoke-AllFail ps req rag_context (some e) h in
    rw (is_failed, invoke) (rest.0, ap suc rest.1)

-- The gate changes the count and the end of the hour at most, and never adds to the count.
reset_cases :
    (a : Analyzer) (now : ℕ)
    → (n : ℕ) × (until : ℕ) × (n ≤ a.calls_this_hour)
      × (reset_hour a now ≡ record a { calls_this_hour = n; hour_reset_at = until })
unfolding reset_hour
reset_cases a now = elim (Bool-cases (ltb a.hour_reset_at now)) [
  | inl old ↦ (0, now + hour, omega arith, simp old refl)
  | inr young ↦ (a.calls_this_hour, a.hour_reset_at, omega arith, simp young refl)
]

analyze-AllFail :
    (a : Analyzer) (c : Call)
    → Asks a c
    → at_limit (reset_hour a c.clock.at_gate) ≡ false
    → let r = analyze c.providers c.clock a c.request c.rag_context c.confidence c.severity in
      (r.after ≡ reset_hour a c.clock.at_gate) × (r.called ≡ length c.providers)
unfolding analyze analyze_miss call_providers
analyze-AllFail a c w below =
    let silent = invoke-AllFail c.providers c.request c.rag_context none w.all_fail in
    rw (w.is_missed, w.is_needed, below, silent.0, analyze, call_providers) (refl, silent.1)

module _ (a : Analyzer) where
  abbrev counted : ℕ → ℕ → Analyzer
  counted n until = record a { calls_this_hour = n; hour_reset_at = until }

  run-counted :
      (n until : ℕ) (cs : List Call)
      → at_limit (counted n until) ≡ false
      → All (Asks a) cs
      → (calls_made (counted n until) cs ≡ providers_asked cs)
        × ((run (counted n until) cs).llm_calls ≡ a.llm_calls)
        × ((run (counted n until) cs).calls_this_hour ≤ n)
  unfolding calls_made run should_use_llm
  run-counted n until [] below h = (refl, refl, omega arith)
  run-counted n until (c ∷ cs) below h =
      let (m, later, fewer, e) = reset_cases (counted n until) c.clock.at_gate in
      let still : at_limit (counted m later) ≡ false = ground arith in
      let first =
        analyze-AllFail (counted n until) c
          (record { is_missed = h.0.is_missed; is_needed = h.0.is_needed; all_fail = h.0.all_fail })
          (rw e still) in
      let rest = run-counted m later cs still h.1 in
      let moved = first.0 ∙ e in
      (
        rw (moved, first.1, calls_made) (ap (λ x. length c.providers + x) rest.0),
        rw (moved, run) rest.1,
        rw (moved, run) (omega (arith, fewer, rest.2)),
      )

  -- The limit does not hold failures back: from below the limit, analyses that run one after the
  -- other while all providers fail, and that neither the cache nor the retrieved context answers,
  -- call every provider each time, however many analyses there are, and none of these calls is
  -- counted.
  pub run_outage :
      (cs : List Call)
      → at_limit a ≡ false
      → All (Asks a) cs
      → (calls_made a cs ≡ providers_asked cs)
        × ((run a cs).llm_calls ≡ a.llm_calls)
        × ((run a cs).calls_this_hour ≤ a.calls_this_hour)
  run_outage = run-counted a.calls_this_hour a.hour_reset_at
