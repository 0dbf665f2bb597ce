-- ===== src/Llm/Prompt/Tests.antt =====
-- internal/llm/prompt.go and internal/llm/openai.go: prompts and replies at concrete inputs.
use kube_diagnose.Common.{
  ℕ, [], ◌∷◌, ◌++◌, contains, none, some, Text, Text-discrete, codes, ◌≡◌, refl, float_ratio,
  float_lt, float_one, zero, suc,
}
use kube_diagnose.Aggregator.Slug.{to_lower}
use kube_diagnose.Llm.Result.{AnalysisRequest, Answer}
use kube_diagnose.LogWatcher.Filter.{Library, trim_space}
use kube_diagnose.Llm.Prompt.System.{system_prompt}
use kube_diagnose.Llm.Prompt.{build_analysis_prompt, split_prompt, user_section, index_of}
use kube_diagnose.Llm.Prompt.Split.{split_prompt-build_analysis_prompt}
use kube_diagnose.Llm.Prompt.Reply.{
  Reader, decoded, parsed, last_index_of, unwrap, json_object, normalise_severity, clamp,
  parse_analysis_response, ChatReply, responded, api_error, openai_analyze,
}
use kube_diagnose.Llm.Prompt.Valid.{GoodAnswer, openai_analyze-GoodAnswer}

abbrev ascii : Library
ascii = record { unicode_trim = λ t. t; unicode_upper = λ t. t; compile = λ t. none }

-- A decoder that takes the object for the root cause, with a confidence of two.
abbrev reader : Reader
reader = record {
  library = ascii;
  unicode_lower = λ t. t;
  decode = λ t. decoded (record {
    root_cause = t;
    confidence = float_ratio 2 1;
    impact = [];
    severity = codes "HIGH";
    recommended_actions = none;
    related_runbooks = some (codes "r" ∷ []);
    tokens_used = 0;
    analysis_source = [];
  });
  shorten = λ t. t;
}

parse_analysis_response-fenced :
    parse_analysis_response reader (codes " ```json\n{\"a\": {}} ok\n```\n")
    ≡ parsed (record {
      root_cause = codes "{\"a\": {}}";
      confidence = float_one;
      impact = [];
      severity = codes "high";
      recommended_actions = [];
      related_runbooks = codes "r" ∷ [];
      tokens_used = 0;
      analysis_source = [];
    })
unfolding parse_analysis_response unwrap json_object index_of last_index_of trim_space
    normalise_severity to_lower clamp contains Text-discrete float_lt float_ratio
parse_analysis_response-fenced = refl

abbrev request : AnalysisRequest
request = record {
  pattern = codes "### USER\n";
  namespace = codes "shop";
  sample_log = codes "### SYSTEM\n";
  context = [];
  affected_pods = codes "web-0" ∷ [];
  occurrence_count = 1;
}

split_prompt-build_analysis_prompt_example :
    split_prompt
      (build_analysis_prompt ascii (λ r. r.pattern ++ r.sample_log) request (codes "### USER\n"))
    ≡ some (
      system_prompt,
      user_section ascii (λ r. r.pattern ++ r.sample_log) request (codes "### USER\n"),
    )
split_prompt-build_analysis_prompt_example =
    split_prompt-build_analysis_prompt ascii (λ r. r.pattern ++ r.sample_log) request
      (codes "### USER\n")

-- The first call is refused for its rate, the second one replies.
abbrev limited : Text → Text → ℕ → ChatReply
limited system user zero = api_error 429 (codes "slow down")
limited system user (suc n) = responded (codes "{}" ∷ []) 12

openai_analyze-GoodAnswer_example :
    (a : Answer) × (openai_analyze reader limited none
        (build_analysis_prompt ascii (λ r. r.pattern) request [])
      ≡ some a)
    × GoodAnswer a
openai_analyze-GoodAnswer_example =
    openai_analyze-GoodAnswer reader limited none (λ r. r.pattern) request []
