-- ===== src/Llm/Analyzer.antt =====
-- internal/llm/analyzer.go: the orchestrator. `Analyze` is cut where it takes and gives back its
-- locks: the lookup, the gate, the providers' calls and the commit; one call reads the clock at
-- the lookup, at the gate and when it stores the result.
pub mod Gate
pub mod Caching
pub mod Limit
pub mod Outage
pub mod Race
mod Tests
use kube_diagnose.Common.{
  ℕ, zero, suc, ◌+◌, ◌-◌, List, [], ◌∷◌, ◌++◌, Bool, true, false, Option, none, some, Text, codes,
  ltb, leb, ◌==◌, if◌then◌else◌, map, ite, Text-discrete, Float64, float_lt, float_le, float_zero,
  ℤ, pos, negsuc,
}
use kube_diagnose.Llm.Result.{AnalysisResult, AnalysisRequest, Answer, succeeded, failed, Provider}
use kube_diagnose.Llm.Cache.{AnalysisCache, new_analysis_cache, hour}
use kube_diagnose.Llm.Cache

pub record Analyzer : Type 0 where
  pub cache : AnalysisCache
  pub rag_confidence_threshold : Float64
  pub critical_rag_confidence_threshold : Float64
  pub max_calls_per_hour : ℕ
  pub calls_this_hour : ℕ
  pub hour_reset_at : ℕ
  pub cache_hits : ℕ
  pub rag_shortcuts : ℕ
  pub llm_calls : ℕ

-- 0.75 and 0.90.
abbrev pub default_rag_threshold : Float64
default_rag_threshold = 0x3FE8000000000000

abbrev pub default_critical_threshold : Float64
default_critical_threshold = 0x3FECCCCCCCCCCCCD

abbrev default_max_calls : ℤ → ℕ
default_max_calls (pos n) = if n == 0 then 60 else n
default_max_calls (negsuc n) = 60

unfoldable pub new_analyzer : Float64 → Float64 → ℤ → ℤ → ℕ → Analyzer
unfolding new_analysis_cache
new_analyzer rag_threshold critical_threshold max_calls cache_ttl now = record {
  cache = new_analysis_cache cache_ttl;
  rag_confidence_threshold =
      if float_le rag_threshold float_zero then default_rag_threshold else rag_threshold;
  critical_rag_confidence_threshold =
      if float_le critical_threshold float_zero
      then default_critical_threshold
      else critical_threshold;
  max_calls_per_hour = default_max_calls max_calls;
  calls_this_hour = 0;
  hour_reset_at = now + hour;
  cache_hits = 0;
  rag_shortcuts = 0;
  llm_calls = 0;
}

-- strings.EqualFold with "critical", whose letters fold only to their ASCII counterparts.
abbrev lower_ascii : ℕ → ℕ
lower_ascii c = if ltb c b'A' then c else if ltb b'Z' c then c else c + 32

unfoldable pub is_critical : Text → Bool
is_critical severity = ite (Text-discrete (map lower_ascii severity) (codes "critical")) true false

unfoldable pub should_use_llm : Analyzer → Float64 → Text → Bool
should_use_llm a rag_confidence severity =
    let threshold =
      if is_critical severity
      then a.critical_rag_confidence_threshold
      else a.rag_confidence_threshold in
    float_lt rag_confidence threshold

abbrev or_default : Text → Text → Text
or_default [] default = default
or_default (c ∷ s) default = c ∷ s

unfoldable pub rag_only_result : Text → Float64 → Text → AnalysisResult
rag_only_result rag_context rag_confidence severity = record {
  root_cause = elim rag_context [
    | [] ↦ codes "No matching runbooks found. Consider adding runbooks for this error pattern."
    | c ∷ cs ↦ codes "Analysis based on knowledge-base retrieval (no LLM call required)."
  ];
  confidence = rag_confidence;
  impact = codes "See retrieved runbook context for impact details.";
  severity = or_default severity (codes "medium");
  recommended_actions =
      codes "Review the knowledge-base context attached to this incident for remediation steps."
      ∷ [];
  related_runbooks = [];
  tokens_used = 0;
  analysis_source = codes "rag";
}

-- The dash is three bytes of UTF-8.
abbrev rate_limit_note : Text
rate_limit_note =
    codes "(Rate limit reached " ++ 0xE2 ∷ 0x80 ∷ 0x94 ∷ codes " using best available RAG context) "

abbrev error_text : Option Text → Text
error_text none = codes "<nil>"
error_text (some e) = e

unfoldable pub rate_limited_result : Text → Float64 → Text → AnalysisResult
unfolding rag_only_result
rate_limited_result rag_context rag_confidence severity =
    let r = rag_only_result rag_context rag_confidence severity in
    record r { root_cause = rate_limit_note ++ r.root_cause }

unfoldable pub unavailable_result : Option Text → Text → Float64 → Text → AnalysisResult
unfolding rag_only_result
unavailable_result last_error rag_context rag_confidence severity =
    let r = rag_only_result rag_context rag_confidence severity in
    record r {
      root_cause =
          codes "(LLM unavailable: "
          ++ (error_text last_error ++ codes ") Using RAG context only.");
    }

abbrev pub cache_key : AnalysisRequest → Text
cache_key req = req.pattern ++ b'|' ∷ req.namespace

-- Step 3, under the lock: a new hour resets the count; then the count is held to the limit. The
-- source reads the clock once more for the end of the new hour.
unfoldable pub reset_hour : Analyzer → ℕ → Analyzer
reset_hour a now =
    if ltb a.hour_reset_at now
    then record a { calls_this_hour = 0; hour_reset_at = now + hour }
    else a

abbrev pub at_limit : Analyzer → Bool
at_limit a = leb a.max_calls_per_hour a.calls_this_hour

-- Step 4: the providers in order, until one succeeds. The second part is the last error, the
-- third the number of providers that were called.
unfoldable pub invoke :
    List Provider → AnalysisRequest → Text → Option Text → Option AnalysisResult × Option Text × ℕ
invoke [] req rag_context last_error = (none, last_error, 0)
invoke (p ∷ ps) req rag_context last_error = elim (p.answer req rag_context) [
  | succeeded r ↦ (some r, last_error, 1)
  | failed e ↦ let rest = invoke ps req rag_context (some e) in (rest.0, rest.1, suc rest.2)
]

-- The count after a success, under the lock.
unfoldable pub count_call : Analyzer → Analyzer
count_call a = record a { calls_this_hour = a.calls_this_hour + 1; llm_calls = a.llm_calls + 1 }

pub record Clock : Type 0 where
  pub at_lookup : ℕ
  pub at_gate : ℕ
  pub at_store : ℕ

-- The state afterwards, the result, and the number of providers that were called.
pub record Analyzed : Type 0 where
  pub after : Analyzer
  pub result : AnalysisResult
  pub called : ℕ

abbrev pub store : Analyzer → Text → AnalysisResult → ℕ → Analyzer
store a key r now = record a { cache = Cache.set a.cache key r now }

unfoldable pub call_providers :
    List Provider → Clock → Analyzer → AnalysisRequest → Text → Float64 → Text → Analyzed
call_providers providers clock a req rag_context rag_confidence severity =
    let (answer, last_error, called) = invoke providers req rag_context none in
    elim answer [
      | none ↦ record {
        after = a;
        result = unavailable_result last_error rag_context rag_confidence severity;
        called = called;
      }
      | some r ↦ record {
        after = store (count_call a) (cache_key req) r clock.at_store;
        result = r;
        called = called;
      }
    ]

-- Steps 2 to 5, after a miss of the cache.
unfoldable pub analyze_miss :
    List Provider → Clock → Analyzer → AnalysisRequest → Text → Float64 → Text → Analyzed
unfolding call_providers
analyze_miss providers clock a req rag_context rag_confidence severity =
    let r = rag_only_result rag_context rag_confidence severity in
    let gated = reset_hour a clock.at_gate in
    if should_use_llm a rag_confidence severity
    then if at_limit gated
      then record {
        after = gated;
        result = rate_limited_result rag_context rag_confidence severity;
        called = 0;
      }
      else call_providers providers clock gated req rag_context rag_confidence severity
    else record {
      after =
          store (record a { rag_shortcuts = a.rag_shortcuts + 1 }) (cache_key req) r clock.at_store;
      result = r;
      called = 0;
    }

unfoldable pub analyze :
    List Provider → Clock → Analyzer → AnalysisRequest → Text → Float64 → Text → Analyzed
unfolding analyze_miss
analyze providers clock a req rag_context rag_confidence severity =
    elim (Cache.get a.cache (cache_key req) clock.at_lookup) [
      | some cached ↦ record {
        after = record a { cache_hits = a.cache_hits + 1 };
        result = record cached { analysis_source = codes "cache" };
        called = 0;
      }
      | none ↦ analyze_miss providers clock a req rag_context rag_confidence severity
    ]
