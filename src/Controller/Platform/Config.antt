-- ===== src/Controller/Platform/Config.antt =====
-- internal/controller/logintelligenceplatform_controller.go: the platform's specification, of which
-- the fields are kept that the reconciler reads, and the clients that it builds from it. The texts
-- of errors are kept, since the status shows them. The API server's secrets are a parameter.
use kube_diagnose.Common.{
  List, [], ◌∷◌, ◌++◌, Bool, true, false, Option, none, some, Text, Text-discrete, codes, ite,
  if◌then◌else◌, ◌==◌, lookup, ℤ, pos, negsuc,
}
use kube_diagnose.Rag.Embedder.{Embedder, OpenAiModels, Made, made, refused, new_embedder, or_else}

pub record SecretKeyRef : Type 0 where
  pub name : Text
  pub key : Text

pub record LlmConfig : Type 0 where
  pub provider : Text
  pub model : Text
  pub api_key_secret_ref : Option SecretKeyRef
  pub endpoint : Text
  pub max_tokens : ℤ

pub record EmbeddingConfig : Type 0 where
  pub provider : Text
  pub model : Text
  pub api_key_secret_ref : Option SecretKeyRef
  pub endpoint : Text

pub record QdrantConfig : Type 0 where
  pub host : Text
  pub http_port : ℤ
  pub api_key_secret_ref : Option SecretKeyRef
  pub collection_prefix : Text

pub record AnalysisConfig : Type 0 where
  pub rag_confidence_threshold : Text
  pub critical_rag_confidence_threshold : Text
  pub llm_cache_ttl : Text
  pub max_llm_calls_per_hour : ℤ

pub record KnowledgeBaseConfig : Type 0 where
  pub runbooks_path : Text

pub record PlatformSpec : Type 0 where
  pub llm : Option LlmConfig
  pub embedding : Option EmbeddingConfig
  pub qdrant : Option QdrantConfig
  pub analysis : Option AnalysisConfig
  pub knowledge_base : Option KnowledgeBaseConfig
  pub dashboard_enabled : Bool
  pub dashboard_port : ℤ

pub data ProviderKind : Type 0 where
  openai anthropic google : ProviderKind

-- A provider as it is constructed; an empty endpoint is the client's own.
pub record ProviderSettings : Type 0 where
  pub kind : ProviderKind
  pub api_key : Text
  pub model : Text
  pub endpoint : Text
  pub max_tokens : ℤ

pub record QdrantClient : Type 0 where
  pub host : Text
  pub http_port : ℤ
  pub api_key : Text
  pub collection_prefix : Text

abbrev pub positive_or : ℤ → ℤ → ℤ
positive_or (pos n) default = if n == 0 then default else pos n
positive_or (negsuc n) default = default

unfoldable pub build_llm_provider : LlmConfig → Text → Made ProviderSettings
build_llm_provider cfg api_key =
    let settings : ProviderKind → Text → Text → ProviderSettings = λ kind model endpoint. record {
      kind = kind;
      api_key = api_key;
      model = or_else cfg.model model;
      endpoint = endpoint;
      max_tokens = positive_or cfg.max_tokens (pos 2048);
    } in
    ite (Text-discrete cfg.provider (codes "openai"))
      (made (settings openai (codes "gpt-4o-mini") []))
      (ite (Text-discrete cfg.provider (codes "anthropic"))
        (made (settings anthropic (codes "claude-3-5-haiku-latest") []))
        (ite (Text-discrete cfg.provider (codes "vllm"))
          (made (record (settings openai [] (or_else cfg.endpoint (codes "http://vllm:8000"))) {
            model = cfg.model;
          }))
          (ite (Text-discrete cfg.provider (codes "google"))
            (elim api_key [
              | [] ↦ refused (codes "google gemini provider requires a non-empty apiKey")
              | c ∷ cs ↦ made (settings google (codes "gemini-3.5-flash") [])
            ])
            (refused (codes "unsupported LLM provider: " ++ cfg.provider)))))

abbrev pub wrap : {A : Type 0} → Text → Made A → Made A
wrap what (made a) = made a
wrap what (refused e) = refused (what ++ e)

abbrev pub then_made : {A B : Type 0} → Made A → (A → Made B) → Made B
then_made (made a) f = f a
then_made (refused e) f = refused e

-- The data of a secret by its namespace and name, or the error of the API server.
abbrev pub Secrets : Type 0
Secrets = Text → Text → Made (List (Text × Text))

module _ (quote : Text → Text) (secrets : Secrets) where
  unfoldable pub resolve_secret_key : Text → SecretKeyRef → Made Text
  resolve_secret_key namespace ref =
      let ns = or_else namespace (codes "default") in
      elim (secrets ns ref.name) [
        | refused e ↦
            refused (codes "get secret " ++ (ns ++ (codes "/" ++ (ref.name ++ (codes ": " ++ e)))))
        | made entries ↦ elim (lookup Text-discrete ref.key entries) [
          | none ↦ refused (
              codes "key "
              ++ (quote ref.key
                  ++ (codes " not found in secret " ++ (ns ++ (codes "/" ++ ref.name)))))
          | some value ↦ made value
        ]
      ]

  -- Without a reference there is no key, and no error.
  abbrev pub key_of : Text → Option SecretKeyRef → Made Text
  key_of namespace none = made []
  key_of namespace (some ref) = resolve_secret_key namespace ref

  abbrev pub is_google : Option LlmConfig → Bool
  is_google none = false
  is_google (some cfg) = ite (Text-discrete cfg.provider (codes "google")) true false

  -- The LLM's key, when the embedding has none and the providers agree.
  abbrev pub shared_key : Option LlmConfig → Text → Text → Text → Text
  shared_key llm provider llm_api_key (c ∷ cs) = c ∷ cs
  shared_key none provider llm_api_key [] = []
  shared_key (some cfg) provider llm_api_key [] =
      ite (Text-discrete cfg.provider provider) llm_api_key []

  abbrev pub default_embedding_provider : Option LlmConfig → Text
  default_embedding_provider llm = if is_google llm then codes "google" else codes "openai"

  abbrev pub default_embedding_model : Option LlmConfig → Text
  default_embedding_model llm =
      if is_google llm then codes "gemini-embedding-001" else codes "text-embedding-3-small"

  unfoldable pub build_embedder : OpenAiModels → Text → PlatformSpec → Text → Made Embedder
  build_embedder models namespace spec llm_api_key = elim spec.embedding [
    | none ↦
        let provider = default_embedding_provider spec.llm in
        new_embedder quote models provider (shared_key spec.llm provider llm_api_key [])
          (default_embedding_model spec.llm)
    | some cfg ↦
        then_made
          (wrap (codes "resolve embedding API key: ") (key_of namespace cfg.api_key_secret_ref))
          (λ key.
            new_embedder quote models cfg.provider
              (shared_key spec.llm cfg.provider llm_api_key key)
              (or_else cfg.model (default_embedding_model spec.llm)))
  ]

  unfoldable pub build_qdrant_client : Text → PlatformSpec → Made QdrantClient
  build_qdrant_client namespace spec = elim spec.qdrant [
    | none ↦ made (record {
      host = codes "qdrant";
      http_port = pos 6333;
      api_key = [];
      collection_prefix = codes "kube-diagnose";
    })
    | some cfg ↦
        then_made
          (wrap (codes "resolve Qdrant API key: ") (key_of namespace cfg.api_key_secret_ref))
          (λ key. made (record {
            host = or_else cfg.host (codes "qdrant");
            http_port = positive_or cfg.http_port (pos 6333);
            api_key = key;
            collection_prefix = or_else cfg.collection_prefix (codes "kube-diagnose");
          }))
  ]
