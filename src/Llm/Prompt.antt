-- ===== src/Llm/Prompt.antt =====
-- internal/llm/prompt.go and internal/llm/openai.go: the prompt that a provider is sent, how it is
-- cut in two for the chat API, and the analysis read from a reply. The JSON of a request, the decoder
-- of a reply, and the treatment of texts with a byte that is not ASCII are parameters.
pub mod System
pub mod Split
pub mod Reply
pub mod Valid
mod Tests
use kube_diagnose.Common.{
  ℕ, zero, suc, ◌+◌, ◌-◌, List, [], ◌∷◌, ◌++◌, Bool, true, false, ◌||◌, Option, none, some, Text,
  Text-discrete, codes, ite, ◌==◌, ltb, if◌then◌else◌, length, take, drop,
}
use kube_diagnose.Llm.Result.{AnalysisRequest}
use kube_diagnose.Llm.Prompt.System.{system_prompt, concatenated}
use kube_diagnose.LogWatcher.Filter.{Library, trim_space}

abbrev pub sys_header : Text
sys_header = codes "### SYSTEM\n"

abbrev pub user_header : Text
user_header = codes "### USER\n"

-- The documents' section, left out for a blank context.
abbrev pub documents_section : Library → Text → Text
documents_section lib rag_context = elim (trim_space lib rag_context) [
  | [] ↦ []
  | c ∷ cs ↦
      codes "#### Relevant Knowledge-Base Documents\n"
      ++ (codes "The following excerpts were retrieved from our internal runbook store.\n"
          ++ (codes "Use them to enrich your analysis where applicable:\n\n"
              ++ (rag_context ++ codes "\n\n")))
]

abbrev pub schema : Text
schema = concatenated (
    codes "{\n"
    ∷ codes "  \"root_cause\": \"<string>\",\n"
    ∷ codes "  \"confidence\": <float 0.0-1.0>,\n"
    ∷ codes "  \"impact\": \"<string>\",\n"
    ∷ codes "  \"severity\": \"<critical|high|medium|low>\",\n"
    ∷ codes "  \"recommended_actions\": [\"<string>\", ...],\n"
    ∷ codes "  \"related_runbooks\": [\"<string>\", ...]\n"
    ∷ codes "}"
    ∷ [])

-- What follows the header of the user's section; `incident_json` is json.MarshalIndent.
abbrev pub user_section : Library → (AnalysisRequest → Text) → AnalysisRequest → Text → Text
user_section lib incident_json req rag_context =
    codes "Analyse the following Kubernetes incident and return a JSON diagnosis.\n\n"
    ++ (codes "#### Incident Details\n"
        ++ (incident_json req
            ++ (codes "\n\n"
                ++ (documents_section lib rag_context
                    ++ (codes "#### Required JSON Output Schema\n"
                        ++ (schema
                            ++ codes
                                "\n\nRespond with ONLY the JSON object. Do not include any other text.\n"))))))

unfoldable pub build_analysis_prompt :
    Library → (AnalysisRequest → Text) → AnalysisRequest → Text → Text
build_analysis_prompt lib incident_json req rag_context =
    sys_header
    ++ (system_prompt
        ++ (codes "\n\n" ++ (user_header ++ user_section lib incident_json req rag_context)))

abbrev pub starts_with : Text → Text → Bool
starts_with [] s = true
starts_with (p ∷ ps) [] = false
starts_with (p ∷ ps) (c ∷ cs) = if p == c then starts_with ps cs else false

-- The first place of a text in another one.
unfoldable pub index_of : Text → Text → Option ℕ
index_of [] sub = if length sub == 0 then some 0 else none
index_of (c ∷ cs) sub =
    let rest = index_of cs sub in
    if starts_with sub (c ∷ cs) then some 0 else elim rest [ none ↦ none | some i ↦ some (suc i) ]

abbrev pub is_trimmed : ℕ → Bool
is_trimmed c = (c == 32 || c == 9) || (c == 10 || c == 13)

abbrev pub before_blanks : ℕ → Text → Text
before_blanks c [] = if is_trimmed c then [] else c ∷ []
before_blanks c (d ∷ ds) = c ∷ d ∷ ds

unfoldable pub trim_right : Text → Text
trim_right [] = []
trim_right (c ∷ cs) = before_blanks c (trim_right cs)

-- The text from one index to another; none is a panic, for bounds that cross.
abbrev pub substring : Text → ℕ → ℕ → Option Text
substring s from to = if ltb to from then none else some (take (to - from) (drop from s))

-- The system's and the user's part; none is a panic.
unfoldable pub split_prompt : Text → Option (Text × Text)
split_prompt prompt = elim (index_of prompt sys_header) [
  | none ↦ some ([], prompt)
  | some sys ↦ elim (index_of prompt user_header) [
    | none ↦ some (drop (sys + length sys_header) prompt, [])
    | some user ↦ elim (substring prompt (sys + length sys_header) user) [
      | none ↦ none
      | some system ↦ some (trim_right system, drop (user + length user_header) prompt)
    ]
  ]
]
