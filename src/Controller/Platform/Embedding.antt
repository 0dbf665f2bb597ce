-- ===== src/Controller/Platform/Embedding.antt =====
-- internal/controller/logintelligenceplatform_controller.go: the embedder that a platform gets.
use kube_diagnose.Common.{
  [], ◌∷◌, Bool-cases, Option, none, some, Text, Text-discrete, codes, ◌≡◌, ◌≢◌, refl, sym, ap,
  arith, if_pos, if_neg, ◌⊎◌, inl, inr, if◌then◌else◌,
}
use kube_diagnose.Rag.Embedder.{
  Embedder, EmbedderKind, openai, google, OpenAiModels, made, refused, Made-cases, or_else,
  new_embedder, with_key,
}
use kube_diagnose.Controller.Platform.Config.{
  LlmConfig, EmbeddingConfig, PlatformSpec, Secrets, key_of, is_google, shared_key,
  default_embedding_model, build_embedder,
}

abbrev pub kind_text : EmbedderKind → Text
kind_text openai = codes "openai"
kind_text google = codes "google"

-- What a name, a key and a model make of an embedder.
pub record Embeds (provider key model : Text) (e : Embedder) : Type 0 where
  pub of_kind : kind_text e.kind ≡ provider
  pub with_api_key : (e.api_key ≡ key) × (key ≢ [])
  pub with_model : e.model ≡ model

keyed : (name key : Text) (e d : Embedder) → with_key name key e ≡ made d → (key ≢ []) × (e ≡ d)
keyed name [] e d h = ground arith
keyed name (c ∷ cs) e d h = (λ n. ground arith, ap (λ m. elim m [ made x ↦ x | refused t ↦ d ]) h)

or_else_given : (t d : Text) → t ≢ [] → or_else t d ≡ t
or_else_given [] d h = absurd (h refl)
or_else_given (c ∷ cs) d h = refl

new_embedder-Embeds :
    (quote : Text → Text) (models : OpenAiModels) (provider key model : Text) (e : Embedder)
    → model ≢ []
    → new_embedder quote models provider key model ≡ made e
    → Embeds provider key model e
unfolding new_embedder
new_embedder-Embeds quote models provider key model e m h =
    elim (Text-discrete provider (codes "openai")) [
      | yes is ↦
          let k =
            keyed (codes "openai") key _ e
              (rw (if_pos (Text-discrete provider (codes "openai")) is) at h) in
          rw (← k.1) (record {
            of_kind = sym is;
            with_api_key = (refl, k.0);
            with_model = or_else_given model models.small_embedding3 m;
          })
      | no other ↦
          let h' = rw (if_neg (Text-discrete provider (codes "openai")) other) at h in
          elim (Text-discrete provider (codes "google")) [
            | yes is ↦
                let k =
                  keyed (codes "google") key _ e
                    (rw (if_pos (Text-discrete provider (codes "google")) is) at h') in
                rw (← k.1) (record {
                  of_kind = sym is;
                  with_api_key = (refl, k.0);
                  with_model = or_else_given model _ m;
                })
            | no neither ↦
                let h'' = rw (if_neg (Text-discrete provider (codes "google")) neither) at h' in
                ground arith
          ]
    ]

or_else_nonempty : (t d : Text) → d ≢ [] → or_else t d ≢ []
or_else_nonempty [] d h = h
or_else_nonempty (c ∷ cs) d h = λ n. ground arith

module _ (quote : Text → Text) (secrets : Secrets) where
  default_nonempty : (llm : Option LlmConfig) → default_embedding_model quote secrets llm ≢ []
  default_nonempty llm = elim (Bool-cases (is_google quote secrets llm)) [
    | inl e ↦ rw e (λ n. ground arith)
    | inr e ↦ rw e (λ n. ground arith)
  ]

  -- A key that is not empty is the embedding's own, or the LLM's for the same provider.
  abbrev pub KeyOf : Option LlmConfig → Text → Text → Text → Text → Type 0
  KeyOf llm provider llm_api_key own key =
      (key ≡ own)
      ⊎ ((cfg : LlmConfig) × (llm ≡ some cfg) × (cfg.provider ≡ provider) × (key ≡ llm_api_key))

  shared_key-KeyOf :
      (llm : Option LlmConfig) (provider llm_api_key own : Text)
      → KeyOf llm provider llm_api_key own (shared_key quote secrets llm provider llm_api_key own)
  shared_key-KeyOf llm provider llm_api_key (c ∷ cs) = inl refl
  shared_key-KeyOf none provider llm_api_key [] = inl refl
  shared_key-KeyOf (some cfg) provider llm_api_key [] = elim (Text-discrete cfg.provider provider) [
    | yes e ↦ inr (cfg, refl, e, if_pos (Text-discrete cfg.provider provider) e llm_api_key [])
    | no h ↦ inl (if_neg (Text-discrete cfg.provider provider) h llm_api_key [])
  ]

  -- An embedder that is built for a configuration is of the configured provider and has a key, which
  -- is the configured one or the LLM's for the same provider; without a configured model its model
  -- is the one that the LLM's provider decides, Google's for Google and OpenAI's otherwise, whatever
  -- the embedder's own provider is.
  pub build_embedder-configured :
      (models : OpenAiModels) (namespace : Text) (spec : PlatformSpec) (llm_api_key : Text)
      (cfg : EmbeddingConfig) (e : Embedder)
      → spec.embedding ≡ some cfg
      → build_embedder quote secrets models namespace spec llm_api_key ≡ made e
      → (kind_text e.kind ≡ cfg.provider)
        × (e.api_key ≢ [])
        × ((own : Text) × (key_of quote secrets namespace cfg.api_key_secret_ref ≡ made own)
            × KeyOf spec.llm cfg.provider llm_api_key own e.api_key)
        × (e.model
            ≡ or_else cfg.model (
                if is_google quote secrets spec.llm
                then codes "gemini-embedding-001"
                else codes "text-embedding-3-small"))
  unfolding build_embedder
  build_embedder-configured models namespace spec llm_api_key cfg e is_set h =
      elim (Made-cases (key_of quote secrets namespace cfg.api_key_secret_ref)) [
        | inr (t, r) ↦ let h' = rw (is_set, r, build_embedder) at h in ground arith
        | inl (own, r) ↦
            let h' = rw (is_set, r, build_embedder) at h in
            let key : Text = shared_key quote secrets spec.llm cfg.provider llm_api_key own in
            let w : Embeds cfg.provider key
                (or_else cfg.model (default_embedding_model quote secrets spec.llm)) e =
              new_embedder-Embeds quote models cfg.provider key
                (or_else cfg.model (default_embedding_model quote secrets spec.llm)) e
                (or_else_nonempty cfg.model _ (default_nonempty spec.llm)) h' in
            (
              w.of_kind,
              rw (w.with_api_key.0) (w.with_api_key.1),
              (
                own,
                r,
                rw (w.with_api_key.0) (shared_key-KeyOf spec.llm cfg.provider llm_api_key own),
              ),
              w.with_model,
            )
      ]
