-- ===== src/Llm/Analyzer/Tests.antt =====
-- Runs of the analyzer, and its theorems at an input.
use kube_diagnose.Common.{
  ℕ, ◌+◌, ◌*◌, ◌≤◌, ◌<◌, [], ◌∷◌, true, false, none, some, codes, ◌≡◌, refl, ◌↔◌, arith, inr,
  Text-discrete, float_lt, lookup,
}
use kube_diagnose.Llm.Result.{AnalysisResult, AnalysisRequest, Provider, succeeded, failed}
use kube_diagnose.Llm.Cache
use kube_diagnose.Llm.Cache.{hour, new_analysis_cache, set, get, get-purge, purge, IsValid}
use kube_diagnose.Llm.Analyzer.{
  Analyzer, Clock, should_use_llm, is_critical, reset_hour, at_limit, invoke, analyze, cache_key,
}
use kube_diagnose.Llm.Analyzer.Gate.{analyze_calls_iff}
use kube_diagnose.Llm.Analyzer.Caching.{analyze_again}
use kube_diagnose.Llm.Analyzer.Outage.{Asks, calls_made, run_outage}
use kube_diagnose.Llm.Analyzer.Limit.{Call, run}
use kube_diagnose.Llm.Analyzer.Race.{
  Shared, shared, Reach, here, next, pass, Reach-bounded, limit_overshot,
}

abbrev request : AnalysisRequest
request = record {
  pattern = codes "oom";
  namespace = codes "prod";
  sample_log = [];
  context = [];
  affected_pods = [];
  occurrence_count = 1;
}

abbrev diagnosis : AnalysisResult
diagnosis = record {
  root_cause = codes "heap";
  confidence = 0;
  impact = [];
  severity = codes "high";
  recommended_actions = [];
  related_runbooks = [];
  tokens_used = 42;
  analysis_source = codes "openai";
}

abbrev down : Provider
down = record { name = codes "openai"; answer = λ req context. failed (codes "503") }

abbrev up : Provider
up = record { name = codes "anthropic"; answer = λ req context. succeeded diagnosis }

abbrev analyzer : Analyzer
analyzer = record {
  cache = record { entries = []; ttl = 24 * hour };
  rag_confidence_threshold = 0x3FE8000000000000;
  critical_rag_confidence_threshold = 0x3FECCCCCCCCCCCCD;
  max_calls_per_hour = 2;
  calls_this_hour = 0;
  hour_reset_at = hour;
  cache_hits = 0;
  rag_shortcuts = 0;
  llm_calls = 0;
}

abbrev clock : Clock
clock = record { at_lookup = 10; at_gate = 11; at_store = 12 }

abbrev afterwards : Clock
afterwards = record { at_lookup = 20; at_gate = 21; at_store = 22 }

-- 0.5 and 0.8 against the thresholds 0.75 and 0.90.
needs_llm : should_use_llm analyzer 0x3FE0000000000000 (codes "high") ≡ true
unfolding should_use_llm is_critical float_lt Text-discrete
needs_llm = refl

critical_needs_llm : should_use_llm analyzer 0x3FE999999999999A (codes "CRITICAL") ≡ true
unfolding should_use_llm is_critical float_lt Text-discrete
critical_needs_llm = refl

shortcut : should_use_llm analyzer 0x3FE999999999999A (codes "high") ≡ false
unfolding should_use_llm is_critical float_lt Text-discrete
shortcut = refl

miss : get analyzer.cache (cache_key request) 10 ≡ none
unfolding get lookup
miss = refl

free : at_limit (reset_hour analyzer 11) ≡ false
unfolding reset_hour
free = refl

second_answers : (invoke (down ∷ up ∷ []) request [] none).0 ≡ some diagnosis
unfolding invoke
second_answers = refl

analyze_calls_iff_example :
    (0 < (analyze (down ∷ up ∷ []) clock analyzer request [] 0 (codes "high")).called) ↔ (
      (get analyzer.cache (cache_key request) 10 ≡ none)
      × (should_use_llm analyzer 0 (codes "high") ≡ true)
      × (at_limit (reset_hour analyzer 11) ≡ false))
analyze_calls_iff_example =
    analyze_calls_iff down (up ∷ []) clock analyzer request [] 0 (codes "high")

abbrev half : ℕ
half = 0x3FE0000000000000

-- The same pattern and namespace, and another line.
abbrev other_request : AnalysisRequest
other_request = record request {
  sample_log = codes "out of memory";
  affected_pods = codes "web" ∷ [];
}

analyze_again_example :
    (analyze [] afterwards
      (analyze (down ∷ up ∷ []) clock analyzer request [] half (codes "high")).after
      other_request
      []
      half
      (codes "low")).called
    ≡ 0
analyze_again_example =
    (analyze_again (down ∷ up ∷ []) [] clock afterwards analyzer request other_request [] [] half
      half (codes "high") (codes "low") refl refl miss (inr (free, (diagnosis, second_answers)))
      (omega arith)).1

abbrev call : Call
call = record {
  providers = up ∷ [];
  clock = clock;
  request = request;
  rag_context = [];
  confidence = half;
  severity = codes "high";
}

-- Three analyses of one incident, each with two providers that fail; two calls are the limit.
abbrev failing : Call
failing = record call { providers = down ∷ down ∷ [] }

failing-Asks : Asks analyzer failing
failing-Asks = record {
  is_missed = miss;
  is_needed = needs_llm;
  all_fail = ((codes "503", refl), ((codes "503", refl), tt));
}

run_outage_example :
    (calls_made analyzer (failing ∷ failing ∷ failing ∷ []) ≡ 6)
    × ((run analyzer (failing ∷ failing ∷ failing ∷ [])).llm_calls ≡ 0)
    × ((run analyzer (failing ∷ failing ∷ failing ∷ [])).calls_this_hour ≤ 0)
run_outage_example =
    run_outage analyzer (failing ∷ failing ∷ failing ∷ []) refl
      (failing-Asks, (failing-Asks, (failing-Asks, tt)))

limit_overshot_example :
    (t : Shared) × Reach 5 (shared (reset_hour analyzer 11) 0) t
    × (t.analyzer.calls_this_hour ≡ (reset_hour analyzer 11).calls_this_hour + 5)
    × (t.analyzer.hour_reset_at ≡ (reset_hour analyzer 11).hour_reset_at)
limit_overshot_example = limit_overshot 5 analyzer 11 free

one_passed : Reach 3 (shared analyzer 0) (shared (reset_hour analyzer 11) 1)
one_passed = next here (pass analyzer 0 11 (omega arith) free)

Reach-bounded_example : (reset_hour analyzer 11).calls_this_hour + 1 + 1 ≤ 2 + 3
Reach-bounded_example = Reach-bounded 2 (omega arith) one_passed (refl, omega arith, omega arith)

abbrev stale_cache : Cache.AnalysisCache
stale_cache = record {
  entries = (codes "k", record { result = diagnosis; expires_at = 5 }) ∷ [];
  ttl = 24 * hour;
}
