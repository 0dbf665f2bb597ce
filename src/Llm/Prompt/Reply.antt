-- ===== src/Llm/Prompt/Reply.antt =====
-- internal/llm/prompt.go and internal/llm/openai.go: the analysis read from a model's reply, and the
-- provider's call with its one retry. The chat API, json.Unmarshal, the verb %.200s and the lower
-- case of texts with a byte that is not ASCII are parameters.
use kube_diagnose.Common.{
  ℕ, suc, ◌+◌, ◌-◌, List, [], ◌∷◌, ◌++◌, Option, none, some, Text, codes, contains, ◌==◌, ltb,
  if◌then◌else◌, take, drop, length, Float64, float_lt, float_zero, float_one,
}
use kube_diagnose.Aggregator.Slug.{to_lower}
use kube_diagnose.Llm.Result.{AnalysisResult, Answer, succeeded, failed}
use kube_diagnose.LogWatcher.Filter.{Library, trim_space}
use kube_diagnose.Llm.Prompt.{starts_with, index_of, split_prompt}

-- What json.Unmarshal leaves in the struct; a nil slice is none.
pub record Decoded : Type 0 where
  pub root_cause : Text
  pub confidence : Float64
  pub impact : Text
  pub severity : Text
  pub recommended_actions : Option (List Text)
  pub related_runbooks : Option (List Text)
  pub tokens_used : ℕ
  pub analysis_source : Text

pub data Decoding : Type 0 where
  decoded : Decoded → Decoding
  decode_error : Text → Decoding

pub data Parsed : Type 0 where
  parsed : AnalysisResult → Parsed
  parse_error : Text → Parsed

pub record Reader : Type 0 where
  pub library : Library
  pub unicode_lower : Text → Text
  pub decode : Text → Decoding
  pub shorten : Text → Text

-- The last place of a text in another one.
unfoldable pub last_index_of : Text → Text → Option ℕ
last_index_of [] sub = if length sub == 0 then some 0 else none
last_index_of (c ∷ cs) sub = elim (last_index_of cs sub) [
  | some i ↦ some (suc i)
  | none ↦ if starts_with sub (c ∷ cs) then some 0 else none
]

abbrev pub fence : Text
fence = codes "```"

abbrev pub after_index : Option ℕ → Text → Text
after_index none s = s
after_index (some i) s = drop (i + 1) s

abbrev pub before_index : Option ℕ → Text → Text
before_index none s = s
before_index (some i) s = take i s

-- The text between the fences of a block of code.
unfoldable pub unwrap : Library → Text → Text
unwrap lib cleaned =
    let opened = after_index (index_of cleaned (codes "\n")) cleaned in
    if starts_with fence cleaned
    then trim_space lib (before_index (last_index_of opened fence) opened)
    else cleaned

abbrev pub between : Text → Option ℕ → Option ℕ → Option Text
between s none end = none
between s (some i) none = none
between s (some i) (some j) = if ltb j i then none else some (take (j + 1 - i) (drop i s))

-- From the first opening brace to the last closing one.
unfoldable pub json_object : Text → Option Text
json_object s = between s (index_of s (codes "{")) (last_index_of s (codes "}"))

abbrev pub severities : List Text
severities = codes "critical" ∷ codes "high" ∷ codes "medium" ∷ codes "low" ∷ []

unfoldable pub normalise_severity : Reader → Text → Text
normalise_severity r s =
    let lower = to_lower r.unicode_lower s in
    if contains lower severities then lower else codes "medium"

-- The two tests one after the other.
unfoldable pub clamp : Float64 → Float64
clamp c =
    let low = if float_lt c float_zero then float_zero else c in
    if float_lt float_one low then float_one else low

abbrev pub list_of : Option (List Text) → List Text
list_of none = []
list_of (some ts) = ts

abbrev pub completed : Reader → Decoded → AnalysisResult
completed r d = record {
  root_cause = d.root_cause;
  confidence = clamp d.confidence;
  impact = d.impact;
  severity = normalise_severity r d.severity;
  recommended_actions = list_of d.recommended_actions;
  related_runbooks = list_of d.related_runbooks;
  tokens_used = d.tokens_used;
  analysis_source = d.analysis_source;
}

abbrev pub of_decoding : Reader → Text → Decoding → Parsed
of_decoding r raw (decode_error e) = parse_error (
    codes "failed to unmarshal LLM response as AnalysisResult: "
    ++ (e ++ (codes " (raw: " ++ (r.shorten raw ++ codes ")"))))
of_decoding r raw (decoded d) = parsed (completed r d)

abbrev pub read_object : Reader → Text → Option Text → Parsed
read_object r raw none =
    parse_error (codes "no JSON object found in LLM response: " ++ r.shorten raw)
read_object r raw (some json) = of_decoding r raw (r.decode json)

unfoldable pub parse_analysis_response : Reader → Text → Parsed
parse_analysis_response r [] = parse_error (codes "llm returned empty response")
parse_analysis_response r (c ∷ cs) =
    read_object r (c ∷ cs) (json_object (unwrap r.library (trim_space r.library (c ∷ cs))))

-- A reply of the chat API: its choices and tokens, an error with an HTTP status, or another one.
pub data ChatReply : Type 0 where
  responded : List Text → ℕ → ChatReply
  api_error : ℕ → Text → ChatReply
  other_error : Text → ChatReply

pub data Chat : Type 0 where
  chat : List Text → ℕ → Chat
  chat_error : Text → Chat

-- The result and the calls made; `cancelled` is the context's error during the backoff.
pub record Chatted : Type 0 where
  pub result : Chat
  pub calls : ℕ

abbrev pub after_retry : ChatReply → Chat
after_retry (responded choices tokens) = chat choices tokens
after_retry (api_error code e) = chat_error (codes "openai retry after rate limit: " ++ e)
after_retry (other_error e) = chat_error (codes "openai retry after rate limit: " ++ e)

unfoldable pub do_with_rate_limit_retry : (ℕ → ChatReply) → Option Text → Chatted
do_with_rate_limit_retry call cancelled = elim (call 0) [
  | responded choices tokens ↦ record { result = chat choices tokens; calls = 1 }
  | other_error e ↦ record { result = chat_error e; calls = 1 }
  | api_error code e ↦
      if code == 429
      then elim cancelled [
        | some c ↦ record { result = chat_error c; calls = 1 }
        | none ↦ record { result = after_retry (call 1); calls = 2 }
      ]
      else record { result = chat_error e; calls = 1 }
]

abbrev pub answer_of : ℕ → Parsed → Answer
answer_of tokens (parse_error e) = failed (codes "parse openai response: " ++ e)
answer_of tokens (parsed result) =
    succeeded (record result { tokens_used = tokens; analysis_source = codes "openai" })

abbrev pub read_chat : Reader → Chat → Answer
read_chat r (chat_error e) = failed (codes "openai chat completion: " ++ e)
read_chat r (chat [] tokens) = failed (codes "openai returned no choices")
read_chat r (chat (raw ∷ more) tokens) = answer_of tokens (parse_analysis_response r raw)

-- A panic of splitPrompt is none.
unfoldable pub openai_analyze :
    Reader → (Text → Text → ℕ → ChatReply) → Option Text → Text → Option Answer
openai_analyze r call cancelled prompt = elim (split_prompt prompt) [
  | none ↦ none
  | some messages ↦
      some (read_chat r (do_with_rate_limit_retry (call messages.0 messages.1) cancelled).result)
]
