-- ===== src/Llm/Prompt/Valid.antt =====
-- internal/llm/prompt.go and internal/llm/openai.go: what an analysis from a model always holds.
use kube_diagnose.Common.{
  ℕ, [], ◌∷◌, true, false, Option, none, some, Text, Text-discrete, codes, contains, ◌≡◌, refl, inl,
  inr, Bool-cases, Float64, float_lt, float_zero, float_one, float_lt_irrefl,
}
use kube_diagnose.Aggregator.Slug.{to_lower}
use kube_diagnose.Llm.Result.{AnalysisRequest, AnalysisResult, Answer, succeeded, failed}
use kube_diagnose.Llm.Prompt.{build_analysis_prompt, user_section}
use kube_diagnose.Llm.Prompt.System.{system_prompt}
use kube_diagnose.Llm.Prompt.Split.{split_prompt-build_analysis_prompt}
use kube_diagnose.Llm.Prompt.Reply.{
  Reader, Decoded, Decoding, decoded, decode_error, Parsed, parsed, parse_error, severities,
  normalise_severity, clamp, completed, of_decoding, read_object, parse_analysis_response,
  ChatReply, Chat, chat, chat_error, read_chat, answer_of, do_with_rate_limit_retry, openai_analyze,
}

-- A confidence that is not outside [0, 1], and one of the four severities.
pub record Valid (r : AnalysisResult) : Type 0 where
  pub not_below : float_lt r.confidence float_zero ≡ false
  pub not_above : float_lt float_one r.confidence ≡ false
  pub severity : contains r.severity severities ≡ true

one_zero : float_lt float_one float_zero ≡ false
unfolding float_lt
one_zero = refl

abbrev pub Sound : Parsed → Type 0
Sound (parsed r) = Valid r
Sound (parse_error e) = Unit

clamp-InRange :
    (c : Float64) → (float_lt (clamp c) float_zero ≡ false) × (float_lt float_one (clamp c) ≡ false)
unfolding clamp
clamp-InRange c = elim (Bool-cases (float_lt c float_zero)) [
  | inl low ↦ rw (low, one_zero) (float_lt_irrefl float_zero, one_zero)
  | inr fine ↦ elim (Bool-cases (float_lt float_one c)) [
    | inl high ↦ rw (fine, high) (one_zero, float_lt_irrefl float_one)
    | inr ok ↦ rw (fine, ok) (fine, ok)
  ]
]

known_medium : contains (codes "medium") severities ≡ true
unfolding contains Text-discrete
known_medium = refl

normalise_severity_known :
    (r : Reader) (s : Text) → contains (normalise_severity r s) severities ≡ true
unfolding normalise_severity
normalise_severity_known r s =
    elim (Bool-cases (contains (to_lower r.unicode_lower s) severities)) [
      | inl e ↦ rw e e
      | inr e ↦ rw e known_medium
    ]

completed-Valid : (r : Reader) (d : Decoded) → Valid (completed r d)
completed-Valid r d = record {
  not_below = (clamp-InRange d.confidence).0;
  not_above = (clamp-InRange d.confidence).1;
  severity = normalise_severity_known r d.severity;
}

of_decoding-Sound : (r : Reader) (raw : Text) (d : Decoding) → Sound (of_decoding r raw d)
of_decoding-Sound r raw (decode_error e) = tt
of_decoding-Sound r raw (decoded d) = completed-Valid r d

read_object-Sound : (r : Reader) (raw : Text) (o : Option Text) → Sound (read_object r raw o)
read_object-Sound r raw none = tt
read_object-Sound r raw (some json) = of_decoding-Sound r raw (r.decode json)

parse_analysis_response-Sound : (r : Reader) (raw : Text) → Sound (parse_analysis_response r raw)
unfolding parse_analysis_response
parse_analysis_response-Sound r [] = tt
parse_analysis_response-Sound r (c ∷ cs) = read_object-Sound r (c ∷ cs) _

-- What an answer of the provider holds.
abbrev pub GoodAnswer : Answer → Type 0
GoodAnswer (failed e) = Unit
GoodAnswer (succeeded r) = Valid r × (r.analysis_source ≡ codes "openai")

answer_of-GoodAnswer : (tokens : ℕ) (p : Parsed) → Sound p → GoodAnswer (answer_of tokens p)
answer_of-GoodAnswer tokens (parse_error e) w = tt
answer_of-GoodAnswer tokens (parsed r) w =
    (record { not_below = w.not_below; not_above = w.not_above; severity = w.severity }, refl)

read_chat-GoodAnswer : (r : Reader) (c : Chat) → GoodAnswer (read_chat r c)
read_chat-GoodAnswer r (chat_error e) = tt
read_chat-GoodAnswer r (chat [] tokens) = tt
read_chat-GoodAnswer r (chat (raw ∷ more) tokens) =
    answer_of-GoodAnswer tokens (parse_analysis_response r raw)
      (parse_analysis_response-Sound r raw)

-- On a prompt that was built, the provider does not panic: it fails, or it gives an analysis of its
-- own source with a confidence that is not outside [0, 1] and one of the four severities, whatever
-- the API replies and the decoder makes of it.
pub openai_analyze-GoodAnswer :
    (r : Reader) (call : Text → Text → ℕ → ChatReply) (cancelled : Option Text)
    (incident_json : AnalysisRequest → Text) (req : AnalysisRequest) (rag_context : Text)
    → (a : Answer) × (openai_analyze r call cancelled
          (build_analysis_prompt r.library incident_json req rag_context)
        ≡ some a)
      × GoodAnswer a
unfolding openai_analyze
openai_analyze-GoodAnswer r call cancelled incident_json req rag_context = (
  _,
  rw (split_prompt-build_analysis_prompt r.library incident_json req rag_context, openai_analyze)
      refl,
  read_chat-GoodAnswer r
      (do_with_rate_limit_retry
        (call system_prompt (user_section r.library incident_json req rag_context))
        cancelled).result,
)
