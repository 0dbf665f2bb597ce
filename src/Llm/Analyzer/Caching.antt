-- ===== src/Llm/Analyzer/Caching.antt =====
-- internal/llm/analyzer.go: what the cache remembers of an analysis.
use kube_diagnose.Common.{
  ℕ, ◌+◌, ◌≤◌, List, true, false, none, some, Text, codes, ◌≡◌, ◌⊎◌, refl, arith, Float64,
  Bool-cases, inl, inr,
}
use kube_diagnose.Llm.Result.{AnalysisResult, AnalysisRequest, Provider}
use kube_diagnose.Llm.Cache.{get-set}
use kube_diagnose.Llm.Cache
use kube_diagnose.Llm.Analyzer.{
  Analyzer, Clock, Analyzed, cache_key, should_use_llm, reset_hour, at_limit, invoke, store,
  count_call, call_providers, rag_only_result, analyze,
}

cache-reset_hour : (a : Analyzer) (now : ℕ) → (reset_hour a now).cache ≡ a.cache
unfolding reset_hour
cache-reset_hour a now = ground arith

call_providers_answered :
    (providers : List Provider) (clock : Clock) (a : Analyzer) (req : AnalysisRequest)
    (rag_context : Text) (confidence : Float64) (severity : Text) (r : AnalysisResult)
    → (invoke providers req rag_context none).0 ≡ some r
    → call_providers providers clock a req rag_context confidence severity ≡ record {
      after = store (count_call a) (cache_key req) r clock.at_store;
      result = r;
      called = (invoke providers req rag_context none).2;
    }
unfolding call_providers
call_providers_answered providers clock a req rag_context confidence severity r e =
    rw (e, call_providers)

module _ (providers later_providers : List Provider) (clock later : Clock) (a : Analyzer)
    (req later_req : AnalysisRequest) (rag_context later_context : Text)
    (confidence later_confidence : Float64) (severity later_severity : Text) where
  abbrev first : Analyzed
  first = analyze providers clock a req rag_context confidence severity

  abbrev second : Analyzed
  second =
      analyze later_providers later first.after later_req later_context later_confidence
        later_severity

  hit :
      (b : Analyzer) (r : AnalysisResult)
      → Cache.get b.cache (cache_key later_req) later.at_lookup ≡ some r
      → let again =
          analyze later_providers later b later_req later_context later_confidence later_severity in
        (again.result ≡ record r { analysis_source = codes "cache" }) × (again.called ≡ 0)
  unfolding analyze
  hit b r e = (ground arith, ground arith)

  abbrev Stores : Type 0
  Stores =
      (should_use_llm a confidence severity ≡ false)
      ⊎ ((at_limit (reset_hour a clock.at_gate) ≡ false)
          × ((r : AnalysisResult) × ((invoke providers req rag_context none).0 ≡ some r)))

  provided :
      should_use_llm a confidence severity ≡ true
      → Stores
      → (at_limit (reset_hour a clock.at_gate) ≡ false)
        × ((r : AnalysisResult) × ((invoke providers req rag_context none).0 ≡ some r))
  provided low (inl above) = absurd (cc)
  provided low (inr stores) = stores

  by_provider :
      Cache.get a.cache (cache_key req) clock.at_lookup ≡ none
      → should_use_llm a confidence severity ≡ true
      → (at_limit (reset_hour a clock.at_gate) ≡ false)
        × ((r : AnalysisResult) × ((invoke providers req rag_context none).0 ≡ some r))
      → later.at_lookup ≤ clock.at_store + a.cache.ttl
      → Cache.get first.after.cache (cache_key req) later.at_lookup ≡ some first.result
  unfolding analyze count_call
  by_provider miss low (below, (r, e)) soon =
      rw (miss, low, below, analyze)
        (rw
          (call_providers_answered providers clock (reset_hour a clock.at_gate) req rag_context
            confidence severity r e)
          (ground (
            arith,
            cache-reset_hour a clock.at_gate,
            get-set (reset_hour a clock.at_gate).cache (cache_key req) (cache_key req) r
                clock.at_store later.at_lookup,
          )))

  stored :
      Cache.get a.cache (cache_key req) clock.at_lookup ≡ none
      → Stores
      → later.at_lookup ≤ clock.at_store + a.cache.ttl
      → Cache.get first.after.cache (cache_key req) later.at_lookup ≡ some first.result
  unfolding analyze
  stored miss stores soon = elim (Bool-cases (should_use_llm a confidence severity)) [
    | inr above ↦
        rw (miss, above, analyze)
          (ground (
            arith,
            get-set a.cache (cache_key req) (cache_key req)
                (rag_only_result rag_context confidence severity) clock.at_store later.at_lookup,
          ))
    | inl low ↦ by_provider miss low (provided low stores) soon
  ]

  same_key :
      later_req.pattern ≡ req.pattern
      → later_req.namespace ≡ req.namespace
      → cache_key req ≡ cache_key later_req
  same_key p n = rw (p, n) refl

  -- An analysis that missed the cache and was answered, by the retrieved context alone or by a
  -- provider below the limit, is remembered: a second analysis of a request with the same pattern
  -- and namespace, whatever else it asks, looked up before the cache's time to live is over, calls
  -- no provider and returns the same result marked as coming from the cache, with the token count of
  -- the first.
  pub analyze_again :
      later_req.pattern ≡ req.pattern
      → later_req.namespace ≡ req.namespace
      → Cache.get a.cache (cache_key req) clock.at_lookup ≡ none
      → (should_use_llm a confidence severity ≡ false)
        ⊎ ((at_limit (reset_hour a clock.at_gate) ≡ false)
            × ((r : AnalysisResult) × ((invoke providers req rag_context none).0 ≡ some r)))
      → later.at_lookup ≤ clock.at_store + a.cache.ttl
      → (second.result ≡ record first.result { analysis_source = codes "cache" })
        × (second.called ≡ 0)
  analyze_again p n miss stores soon =
      hit first.after first.result (rw (same_key p n) at (stored miss stores soon))
