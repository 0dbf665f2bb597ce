-- ===== src/Controller/Platform/Pass.antt =====
-- internal/controller/logintelligenceplatform_controller.go: what a pass leaves behind.
use kube_diagnose.Common.{
  ℕ, ◌+◌, ◌*◌, [], Bool, true, false, Option, none, some, Text, ◌≡◌, refl, ◌⊎◌, inl, inr, ℤ, pos,
  negsuc,
}
use kube_diagnose.Aggregator.Patterns.{new_pattern_detector, minute, second}
use kube_diagnose.Aggregator.Store.Status.{load_existing_incidents}
use kube_diagnose.Llm.Analyzer.{new_analyzer}
use kube_diagnose.Llm.Cache.{hour, new_analysis_cache}
use kube_diagnose.LogWatcher.Watcher.{new_watcher}
use kube_diagnose.Rag.Embedder.{Embedder, Made-cases}
use kube_diagnose.Controller.Platform.{
  Platform, PlatformStatus, PlatformComponents, Outside, tear_down, clients, fresh_components,
  analyzer_settings, ensure_platform_components, found, PlatformPass, reports, reconcile_platform,
}
use kube_diagnose.Controller.Platform.Config.{QdrantClient}

-- Components that nothing has used yet: empty but for the recovered_store incidents.
pub record Fresh {Q : Type 0} (o : Outside Q) (now : ℕ) (c : PlatformComponents) : Type 0 where
  pub is_live : c.is_cancelled ≡ false
  pub no_streams : c.watcher ≡ new_watcher
  pub no_patterns : c.pattern_detector ≡ new_pattern_detector
  pub recovered_store : c.incident_store ≡ (load_existing_incidents o.listed_incidents []).0
  pub no_calls : c.analyzer.calls_this_hour ≡ 0
  pub whole_hour : c.analyzer.hour_reset_at ≡ now + hour
  pub no_results : c.analyzer.cache.entries ≡ []

-- The answer of a pass, by the error that it ended with.
pub record Answers (error : Option Text) (ready : Bool) (delay now : ℕ) (pass : PlatformPass)
    : Type 0 where
  pub status : PlatformStatus
  pub is_reported : pass ≡ reports status delay error
  pub says_ready : status.ready ≡ ready
  pub at_time : status.last_reconcile_time ≡ some now

-- The components of before, cancelled.
abbrev pub Cancelled : Option PlatformComponents → Option PlatformComponents → Type 0
Cancelled none after = after ≡ none
Cancelled (some c) after = after ≡ some (record c { is_cancelled = true })

tear_down-Cancelled : (old : Option PlatformComponents) → Cancelled old (tear_down old)
tear_down-Cancelled none = refl
tear_down-Cancelled (some c) = refl

cache-empty : (ttl : ℤ) → (new_analysis_cache ttl).entries ≡ []
unfolding new_analysis_cache
cache-empty (pos n) = refl
cache-empty (negsuc n) = refl

module _ {Q : Type 0} (o : Outside Q) where
  fresh :
      (p : Platform) (key : Text) (embedder : Embedder) (qdrant : QdrantClient) (now : ℕ)
      → Fresh o now (fresh_components o p.spec key embedder qdrant now)
  unfolding new_analyzer
  fresh p key embedder qdrant now = record {
    is_live = refl;
    no_streams = refl;
    no_patterns = refl;
    recovered_store = refl;
    no_calls = refl;
    whole_hour = refl;
    no_results = cache-empty (analyzer_settings o p.spec.analysis).cache_ttl;
  }

  -- A pass over a platform either leaves components in the global variable that nothing has used,
  -- with no call counted and no result cached whatever the ones before held, and asks to come back in
  -- five minutes; or it returns the error, beside a delay of thirty seconds, reports it in the status,
  -- does not touch the vector store and leaves the components of before in the variable, cancelled.
  pub reconcile_platform-outcome :
      (p : Platform) (now : ℕ) (old : Option PlatformComponents) (q : Q)
      → let r = reconcile_platform o (found p) now old q in
        ((c : PlatformComponents) × (r.components ≡ some c)
          × Fresh o now c
          × Answers none true (5 * minute) now r.pass)
        ⊎ ((e : Text) × Cancelled old r.components
            × (r.vectors ≡ q)
            × Answers (some e) false (30 * second) now r.pass)
  unfolding reconcile_platform ensure_platform_components
  reconcile_platform-outcome p now old q = elim (Made-cases (clients o p)) [
    | inl (c, e) ↦
        rw (e, ensure_platform_components)
          (inl (
            _,
            refl,
            fresh p c.0 c.1 c.2 now,
            record { status = _; is_reported = refl; says_ready = refl; at_time = refl },
          ))
    | inr (t, e) ↦
        rw (e, ensure_platform_components)
          (inr (
            t,
            tear_down-Cancelled old,
            refl,
            record { status = _; is_reported = refl; says_ready = refl; at_time = refl },
          ))
  ]
