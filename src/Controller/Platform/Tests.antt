-- ===== src/Controller/Platform/Tests.antt =====
-- internal/controller/logintelligenceplatform_controller.go: the platform at concrete inputs.
use kube_diagnose.Common.{
  ℕ, ◌+◌, ◌*◌, [], ◌∷◌, true, false, none, some, Text, Text-discrete, codes, lookup, ◌≡◌, ◌≢◌, refl,
  ◌⊎◌, pos, if◌then◌else◌,
}
use kube_diagnose.Aggregator.Patterns.{minute, second}
use kube_diagnose.Rag.Embedder.{Embedder, openai, OpenAiModels, made, or_else, new_embedder}
use kube_diagnose.Controller.Platform.Config.{
  SecretKeyRef, LlmConfig, EmbeddingConfig, PlatformSpec, Secrets, key_of, is_google,
  resolve_secret_key, build_embedder,
}
use kube_diagnose.Controller.Platform.{
  Platform, PlatformComponents, Outside, found, reconcile_platform,
}
use kube_diagnose.Controller.Platform.Pass.{Cancelled, Fresh, Answers, reconcile_platform-outcome}
use kube_diagnose.Controller.Platform.Embedding.{kind_text, KeyOf, build_embedder-configured}

abbrev models : OpenAiModels
models = record {
  small_embedding3 = codes "text-embedding-3-small";
  large_embedding3 = codes "text-embedding-3-large";
  ada_embedding_v2 = codes "text-embedding-ada-002";
}

-- One secret, whatever is asked for.
abbrev one_secret : Secrets
one_secret namespace name = made ((codes "key", codes "sk-1") ∷ [])

abbrev ref : SecretKeyRef
ref = record { name = codes "llm"; key = codes "key" }

abbrev gemini : LlmConfig
gemini = record {
  provider = codes "google";
  model = [];
  api_key_secret_ref = some ref;
  endpoint = [];
  max_tokens = pos 0;
}

-- OpenAI's embeddings beside Google's LLM, without a model.
abbrev openai_embedding : EmbeddingConfig
openai_embedding = record {
  provider = codes "openai";
  model = [];
  api_key_secret_ref = some ref;
  endpoint = [];
}

abbrev mixed : PlatformSpec
mixed = record {
  llm = some gemini;
  embedding = some openai_embedding;
  qdrant = none;
  analysis = none;
  knowledge_base = none;
  dashboard_enabled = true;
  dashboard_port = pos 0;
}

abbrev mixed_embedder : Embedder
mixed_embedder = record {
  kind = openai;
  api_key = codes "sk-1";
  model = codes "gemini-embedding-001";
  dimensions = 1536;
}

mixed_built :
    build_embedder (λ t. t) one_secret models [] mixed (codes "sk-1") ≡ made mixed_embedder
unfolding build_embedder resolve_secret_key new_embedder Text-discrete lookup
mixed_built = refl

build_embedder-configured_example :
    (kind_text openai ≡ codes "openai")
    × (codes "sk-1" ≢ [])
    × ((own : Text) × (key_of (λ t. t) one_secret [] (some ref) ≡ made own)
        × KeyOf
            (λ t. t)
            one_secret
            (some gemini)
            (codes "openai")
            (codes "sk-1")
            own
            (codes "sk-1"))
    × (codes "gemini-embedding-001"
        ≡ or_else [] (
            if is_google (λ t. t) one_secret (some gemini)
            then codes "gemini-embedding-001"
            else codes "text-embedding-3-small"))
build_embedder-configured_example =
    build_embedder-configured (λ t. t) one_secret models [] mixed (codes "sk-1") openai_embedding
      mixed_embedder refl mixed_built

abbrev outside : Outside ℕ
outside = record {
  quote = λ t. t;
  secrets = one_secret;
  models = models;
  parse_float = λ t. none;
  parse_duration = λ t. none;
  library = record { unicode_trim = λ t. t; unicode_upper = λ t. t; compile = λ t. none };
  listed_incidents = none;
  ensure_collection = λ client name dimensions q. (q + 1, false);
}

abbrev platform : Platform
platform = record {
  namespace = codes "ops";
  name = codes "main";
  spec = mixed;
  status = record { ready = false; conditions = []; last_reconcile_time = none };
}

reconcile_platform-outcome_example :
    let r = reconcile_platform outside (found platform) 7 none 0 in
    ((c : PlatformComponents) × (r.components ≡ some c)
      × Fresh outside 7 c
      × Answers none true (5 * minute) 7 r.pass)
    ⊎ ((e : Text) × Cancelled none r.components
        × (r.vectors ≡ 0)
        × Answers (some e) false (30 * second) 7 r.pass)
reconcile_platform-outcome_example = reconcile_platform-outcome outside platform 7 none 0
