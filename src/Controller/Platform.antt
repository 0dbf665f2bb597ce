-- ===== src/Controller/Platform.antt =====
-- internal/controller/logintelligenceplatform_controller.go: the platform's components and the
-- global variable that holds them. strconv.ParseFloat and time.ParseDuration are parameters, and so
-- are the API server's secrets and list of incidents, and the vector store, whose state is `Q`.
pub mod Config
pub mod Pass
pub mod Embedding
mod Tests
use kube_diagnose.Common.{
  ℕ, zero, suc, ◌+◌, ◌*◌, List, [], ◌∷◌, ◌++◌, Bool, true, false, Option, none, some, Text, codes,
  if◌then◌else◌, ℤ, pos, negsuc, Float64,
}
use kube_diagnose.Api.{Condition, Incident}
use kube_diagnose.Aggregator.Patterns.{PatternDetector, new_pattern_detector, minute, second}
use kube_diagnose.Aggregator.Store.{Records}
use kube_diagnose.Aggregator.Store.Status.{load_existing_incidents}
use kube_diagnose.Llm.Analyzer.{
  Analyzer, new_analyzer, default_rag_threshold, default_critical_threshold,
}
use kube_diagnose.Llm.Cache.{hour}
use kube_diagnose.LogWatcher.Filter.{Filter, Library, new_filter}
use kube_diagnose.LogWatcher.Watcher.{Watcher, new_watcher}
use kube_diagnose.Rag.Document.{Document}
use kube_diagnose.Rag.Chunks.{chunk_document}
use kube_diagnose.Rag.Embedder.{Embedder, OpenAiModels, Made, made, refused, or_else}
use kube_diagnose.Rag.Engine.{
  Services, Indexed, index_documents, collection_runbooks, collection_incidents,
  collection_metadata,
}
use kube_diagnose.Controller.Platform.Config.{
  SecretKeyRef, LlmConfig, AnalysisConfig, KnowledgeBaseConfig, PlatformSpec, ProviderSettings,
  QdrantClient, Secrets, wrap, then_made, key_of, positive_or, build_llm_provider, build_embedder,
  build_qdrant_client,
}

pub record PlatformStatus : Type 0 where
  pub ready : Bool
  pub conditions : List Condition
  pub last_reconcile_time : Option ℕ

pub record Platform : Type 0 where
  pub namespace : Text
  pub name : Text
  pub spec : PlatformSpec
  pub status : PlatformStatus

-- The components; the context that `cancel` ends is a flag.
pub record PlatformComponents : Type 0 where
  pub watcher : Watcher
  pub filter : Option Filter
  pub incident_store : Records
  pub pattern_detector : PatternDetector
  pub embedder : Embedder
  pub qdrant : QdrantClient
  pub providers : List ProviderSettings
  pub analyzer : Analyzer
  pub dashboard : Option ℤ
  pub is_cancelled : Bool

-- The analyzer's settings: the thresholds, the calls in an hour and the time that results are kept.
pub record AnalyzerSettings : Type 0 where
  pub rag_threshold : Float64
  pub critical_threshold : Float64
  pub max_calls_per_hour : ℤ
  pub cache_ttl : ℤ

pub record Outside (Q : Type 0) : Type 0 where
  pub quote : Text → Text
  pub secrets : Secrets
  pub models : OpenAiModels
  pub parse_float : Text → Option Float64
  pub parse_duration : Text → Option ℤ
  pub library : Library
  pub listed_incidents : Option (List Incident)
  pub ensure_collection : QdrantClient → Text → ℕ → Q → Q × Bool

abbrev pub parsed_or : {A : Type 0} → Option A → A → A
parsed_or none default = default
parsed_or (some a) default = a

abbrev pub filter_levels : List Text
filter_levels = codes "ERROR" ∷ codes "FATAL" ∷ codes "CRITICAL" ∷ codes "PANIC" ∷ []

-- Initialize: the three collections, up to the first that fails.
unfoldable pub initialize : {Q : Type 0} → (Text → ℕ → Q → Q × Bool) → List Text → ℕ → Q → Q × Bool
initialize ensure [] dimensions q = (q, false)
initialize ensure (name ∷ names) dimensions q =
    let r = ensure name dimensions q in
    if r.1 then (r.0, true) else initialize ensure names dimensions r.0

abbrev pub tear_down : Option PlatformComponents → Option PlatformComponents
tear_down none = none
tear_down (some c) = some (record c { is_cancelled = true })

-- The components, or the ones before and an error.
pub record Ensured (Q : Type 0) : Type 0 where
  pub components : Option PlatformComponents
  pub vectors : Q
  pub error : Option Text

module _ {Q : Type 0} (o : Outside Q) where
  abbrev pub analyzer_settings : Option AnalysisConfig → AnalyzerSettings
  analyzer_settings none = record {
    rag_threshold = default_rag_threshold;
    critical_threshold = default_critical_threshold;
    max_calls_per_hour = pos 60;
    cache_ttl = pos (24 * hour);
  }
  analyzer_settings (some cfg) = record {
    rag_threshold = parsed_or (o.parse_float cfg.rag_confidence_threshold) default_rag_threshold;
    critical_threshold =
        parsed_or (o.parse_float cfg.critical_rag_confidence_threshold) default_critical_threshold;
    max_calls_per_hour = positive_or cfg.max_llm_calls_per_hour (pos 60);
    cache_ttl = parsed_or (o.parse_duration cfg.llm_cache_ttl) (pos (24 * hour));
  }

  -- A provider that cannot be built is left out.
  abbrev pub providers_of : Option LlmConfig → Text → List ProviderSettings
  providers_of none key = []
  providers_of (some cfg) key = elim (build_llm_provider cfg key) [
    | made p ↦ p ∷ []
    | refused e ↦ []
  ]

  abbrev pub llm_key : Text → Option LlmConfig → Made Text
  llm_key namespace none = made []
  llm_key namespace (some cfg) =
      wrap (codes "resolve LLM API key: ")
        (key_of o.quote o.secrets namespace cfg.api_key_secret_ref)

  abbrev pub fresh_components :
      PlatformSpec → Text → Embedder → QdrantClient → ℕ → PlatformComponents
  fresh_components spec key embedder qdrant now =
      let a = analyzer_settings spec.analysis in
      record {
        watcher = new_watcher;
        filter = new_filter o.library filter_levels [];
        incident_store = (load_existing_incidents o.listed_incidents []).0;
        pattern_detector = new_pattern_detector;
        embedder = embedder;
        qdrant = qdrant;
        providers = providers_of spec.llm key;
        analyzer =
            new_analyzer a.rag_threshold a.critical_threshold a.max_calls_per_hour a.cache_ttl now;
        dashboard =
            if spec.dashboard_enabled
            then some (positive_or spec.dashboard_port (pos 8080))
            else none;
        is_cancelled = false;
      }

  -- The key of the LLM, the embedder and the client of the vector store, or the first error.
  abbrev pub clients : Platform → Made (Text × Embedder × QdrantClient)
  clients p = then_made (llm_key p.namespace p.spec.llm) (λ key.
      then_made
        (wrap (codes "create embedder: ")
          (build_embedder o.quote o.secrets o.models p.namespace p.spec key))
        (λ embedder.
          then_made
            (wrap (codes "create qdrant client: ")
              (build_qdrant_client o.quote o.secrets p.namespace p.spec))
            (λ qdrant. made (key, embedder, qdrant))))

  unfoldable pub ensure_platform_components :
      Platform → ℕ → Option PlatformComponents → Q → Ensured Q
  ensure_platform_components p now old q = elim (clients p) [
    | refused e ↦ record { components = tear_down old; vectors = q; error = some e }
    | made c ↦ record {
      components = some (fresh_components p.spec c.0 c.1 c.2 now);
      vectors =
          (initialize (o.ensure_collection c.2)
            (collection_runbooks ∷ collection_incidents ∷ collection_metadata ∷ []) c.1.dimensions
            q).0;
      error = none;
    }
  ]

  abbrev pub ready_condition : Option Text → ℕ → Condition
  ready_condition none now = record {
    kind = codes "Ready";
    status = true;
    reason = codes "Reconciled";
    message = codes "Platform components initialised successfully";
    last_transition_time = now;
  }
  ready_condition (some e) now = record {
    kind = codes "Ready";
    status = false;
    reason = codes "Error";
    message = e;
    last_transition_time = now;
  }

  abbrev pub is_ready : Option Text → Bool
  is_ready none = true
  is_ready (some e) = false

  -- The status, and when to come back.
  abbrev pub update_status : Option Text → ℕ → PlatformStatus × ℕ
  update_status error now = (
    record {
      ready = is_ready error;
      conditions = ready_condition error now ∷ [];
      last_reconcile_time = some now;
    },
    if is_ready error then 5 * minute else 30 * second,
  )

pub data FetchedPlatform : Type 0 where
  not_found : FetchedPlatform
  fetch_error : FetchedPlatform
  found : Platform → FetchedPlatform

pub data PlatformPass : Type 0 where
  stops : PlatformPass
  fails : PlatformPass
  reports : PlatformStatus → ℕ → Option Text → PlatformPass

-- What a pass leaves: the global variable, the vector store and the answer.
pub record Reconciled (Q : Type 0) : Type 0 where
  pub components : Option PlatformComponents
  pub vectors : Q
  pub pass : PlatformPass

unfoldable pub reconcile_platform :
    {Q : Type 0} → Outside Q → FetchedPlatform → ℕ → Option PlatformComponents → Q → Reconciled Q
reconcile_platform o not_found now old q = record { components = old; vectors = q; pass = stops }
reconcile_platform o fetch_error now old q = record { components = old; vectors = q; pass = fails }
reconcile_platform o (found p) now old q =
    let r = ensure_platform_components o p now old q in
    let u = update_status o r.error now in
    record { components = r.components; vectors = r.vectors; pass = reports u.0 u.1 r.error }

abbrev pub runbooks_path : Option KnowledgeBaseConfig → Text
runbooks_path none = codes "/etc/kube-diagnose/runbooks"
runbooks_path (some cfg) = or_else cfg.runbooks_path (codes "/etc/kube-diagnose/runbooks")

abbrev pub chunk_all : List Document → List Document
chunk_all [] = []
chunk_all (doc ∷ docs) = chunk_document doc (pos 512) (pos 50) ++ chunk_all docs

-- The background indexing; `load` reads a directory.
unfoldable pub index_knowledge_base :
    {V Q : Type 0}
    → Services V Q
    → (Text → Option (List Document))
    → (ℕ → Bool)
    → PlatformSpec
    → Q
    → Q
index_knowledge_base s load cancelled spec q = elim (load (runbooks_path spec.knowledge_base)) [
  | none ↦ q
  | some docs ↦ (index_documents s cancelled (chunk_all docs) q).0
]
