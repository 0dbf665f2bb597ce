-- ===== src/Rag/Embedder.antt =====
-- internal/rag/embedder.go: the retries of an embedding call, and which embedder a configuration
-- gives. The names of OpenAI's models and the calls themselves are parameters.
pub mod Retry
mod Tests
use kube_diagnose.Common.{
  ℕ, zero, suc, ◌+◌, ◌-◌, ◌*◌, List, [], ◌∷◌, ◌++◌, Option, none, some, Text, Text-discrete, codes,
  ite, ◌==◌, if◌then◌else◌, lookup, ◌≡◌, refl, ◌⊎◌, inl, inr,
}

abbrev pub max_retries : ℕ
max_retries = 3

abbrev pub millisecond : ℕ
millisecond = 1000000

abbrev pub retry_base_delay : ℕ
retry_base_delay = 500 * millisecond

pub data RetryOutcome : Type 0 where
  succeeded : RetryOutcome
  cancelled_before : ℕ → Text → RetryOutcome
  cancelled_in_backoff : Text → RetryOutcome
  all_failed : Text → RetryOutcome

-- The outcome, the calls made and the delays waited for.
pub record Retried : Type 0 where
  pub outcome : RetryOutcome
  pub calls : ℕ
  pub delays : List ℕ

abbrev pub after_delay : ℕ → Retried → Retried
after_delay delay r = record r { delays = delay ∷ r.delays }

-- The error of the context before an attempt and in the backoff after it, and that of the call.
pub record Attempts : Type 0 where
  pub context_before : ℕ → Option Text
  pub call : ℕ → Option Text
  pub context_after : ℕ → Option Text

-- The loop from an attempt on, of which `remaining` are left.
unfoldable pub retry_from : Attempts → ℕ → ℕ → ℕ → Text → Retried
retry_from a zero attempt delay last_error = record {
  outcome = all_failed last_error;
  calls = max_retries;
  delays = [];
}
retry_from a (suc remaining) attempt delay last_error = elim (a.context_before attempt) [
  | some e ↦ record { outcome = cancelled_before attempt e; calls = attempt - 1; delays = [] }
  | none ↦ elim (a.call attempt) [
    | none ↦ record { outcome = succeeded; calls = attempt; delays = [] }
    | some e ↦
        if attempt == max_retries
        then record { outcome = all_failed e; calls = attempt; delays = [] }
        else elim (a.context_after attempt) [
          | some c ↦ record { outcome = cancelled_in_backoff c; calls = attempt; delays = [] }
          | none ↦ after_delay delay (retry_from a remaining (attempt + 1) (delay * 2) e)
        ]
  ]
]

unfoldable pub with_retry : Attempts → Retried
unfolding retry_from
with_retry a = retry_from a max_retries 1 retry_base_delay []

pub data EmbedderKind : Type 0 where
  openai google : EmbedderKind

pub record Embedder : Type 0 where
  pub kind : EmbedderKind
  pub api_key : Text
  pub model : Text
  pub dimensions : ℕ

-- The names of the models of github.com/sashabaranov/go-openai.
pub record OpenAiModels : Type 0 where
  pub small_embedding3 : Text
  pub large_embedding3 : Text
  pub ada_embedding_v2 : Text

abbrev pub or_else : Text → Text → Text
or_else [] default = default
or_else (c ∷ cs) default = c ∷ cs

abbrev pub model_dimensions : OpenAiModels → List (Text × ℕ)
model_dimensions m =
    (m.small_embedding3, 1536) ∷ (m.large_embedding3, 3072) ∷ (m.ada_embedding_v2, 1536) ∷ []

-- An unknown model has the dimensions of the default one.
abbrev pub known_dimensions : Option ℕ → ℕ
known_dimensions none = 1536
known_dimensions (some n) = n

abbrev pub new_openai_embedder : OpenAiModels → Text → Text → Embedder
new_openai_embedder models api_key model =
    let chosen = or_else model models.small_embedding3 in
    record {
      kind = openai;
      api_key = api_key;
      model = chosen;
      dimensions = known_dimensions (lookup Text-discrete chosen (model_dimensions models));
    }

abbrev pub new_google_embedder : Text → Text → Embedder
new_google_embedder api_key model = record {
  kind = google;
  api_key = api_key;
  model = or_else model (codes "gemini-embedding-001");
  dimensions = 768;
}

-- A value, or the text of an error.
pub data Made (A : Type 0) : Type 0 where
  made : A → Made A
  refused : Text → Made A

pub Made-cases :
    {A : Type 0} (m : Made A) → ((a : A) × (m ≡ made a)) ⊎ ((e : Text) × (m ≡ refused e))
Made-cases (made a) = inl (a, refl)
Made-cases (refused e) = inr (e, refl)

abbrev pub with_key : Text → Text → Embedder → Made Embedder
with_key name [] e = refused (name ++ codes " embedder requires a non-empty apiKey")
with_key name (c ∷ cs) e = made e

-- `quote` is the verb %q.
unfoldable pub new_embedder : (Text → Text) → OpenAiModels → Text → Text → Text → Made Embedder
new_embedder quote models provider api_key model =
    ite (Text-discrete provider (codes "openai"))
      (with_key (codes "openai") api_key (new_openai_embedder models api_key model))
      (ite (Text-discrete provider (codes "google"))
        (with_key (codes "google") api_key (new_google_embedder api_key model))
        (refused (
          codes "unsupported embedder provider "
          ++ (quote provider ++ codes ": must be one of [openai, google]"))))
