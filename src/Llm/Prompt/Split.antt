-- ===== src/Llm/Prompt/Split.antt =====
-- internal/llm/prompt.go and internal/llm/openai.go: cutting a prompt where it was put together.
use kube_diagnose.Common.{
  ℕ, suc, ◌+◌, ◌-◌, [], ◌∷◌, ◌++◌, append_assoc, Bool, true, false, some, Text, codes, ◌≡◌, refl,
  sym, ap, ◌∙◌, arith, ◌==◌, ltb, Bool-cases, inl, inr, if◌then◌else◌, length, length-append, take,
  drop, take-append_exact, drop-append_exact,
}
use kube_diagnose.Llm.Result.{AnalysisRequest}
use kube_diagnose.Llm.Prompt.System.{system_prompt}
use kube_diagnose.LogWatcher.Filter.{Library}
use kube_diagnose.Llm.Prompt.{
  sys_header, user_header, user_section, build_analysis_prompt, starts_with, index_of, trim_right,
  substring, split_prompt,
}

-- Two texts differ at a byte that both have.
abbrev differs : Text → Text → Bool
differs [] t = false
differs (p ∷ ps) [] = false
differs (p ∷ ps) (c ∷ cs) = if p == c then differs ps cs else true

-- A text stands at no place of another one, whatever follows.
abbrev clear : Text → Text → Bool
clear sub [] = true
clear sub (c ∷ cs) = if differs sub (c ∷ cs) then clear sub cs else false

starts_with-differs :
    (sub t rest : Text) → differs sub t ≡ true → starts_with sub (t ++ rest) ≡ false
starts_with-differs [] t rest h = ground arith
starts_with-differs (p ∷ ps) [] rest h = ground arith
starts_with-differs (p ∷ ps) (c ∷ cs) rest h = ground (arith, starts_with-differs ps cs rest)

starts_with_self : (sub rest : Text) → starts_with sub (sub ++ rest) ≡ true
starts_with_self [] rest = refl
starts_with_self (p ∷ ps) rest = ground (arith, starts_with_self ps rest)

index_of-later :
    (sub cs : Text) (c i : ℕ)
    → starts_with sub (c ∷ cs) ≡ false
    → index_of cs sub ≡ some i
    → index_of (c ∷ cs) sub ≡ some (suc i)
unfolding index_of
index_of-later sub cs c i h e = rw (h, e) refl

-- The first place of a text is after one that is clear of it.
index_of-clear :
    (p : ℕ) (ps before rest : Text)
    → clear (p ∷ ps) before ≡ true
    → index_of (before ++ ((p ∷ ps) ++ rest)) (p ∷ ps) ≡ some (length before)
unfolding index_of
index_of-clear p ps [] rest h = rw (starts_with_self (p ∷ ps) rest) refl
index_of-clear p ps (c ∷ cs) rest h = elim (Bool-cases (differs (p ∷ ps) (c ∷ cs))) [
  | inl e ↦
      let ih = index_of-clear p ps cs rest (ground arith) in
      index_of-later (p ∷ ps) (cs ++ ((p ∷ ps) ++ rest)) c (length cs)
        (starts_with-differs (p ∷ ps) (c ∷ cs) ((p ∷ ps) ++ rest) e) ih
  | inr e ↦ ground arith
]

abbrev body : Text
body = system_prompt ++ codes "\n\n"

body-clear : clear user_header (sys_header ++ body) ≡ true
unfolding system_prompt
body-clear = refl

trim_right-body : trim_right body ≡ system_prompt
unfolding trim_right system_prompt
trim_right-body = refl

-- A prompt as its first part up to the user's header, and the rest.
cut :
    (lib : Library) (incident_json : AnalysisRequest → Text) (req : AnalysisRequest)
    (rag_context : Text)
    → build_analysis_prompt lib incident_json req rag_context
      ≡ (sys_header ++ body) ++ (user_header ++ user_section lib incident_json req rag_context)
unfolding build_analysis_prompt
cut lib incident_json req rag_context =
    ap (λ t. sys_header ++ t)
      (sym (
        append_assoc system_prompt (codes "\n\n")
          (user_header ++ user_section lib incident_json req rag_context)))

split_found :
    (p t : Text) (i j : ℕ)
    → index_of p sys_header ≡ some i
    → index_of p user_header ≡ some j
    → substring p (i + length sys_header) j ≡ some t
    → split_prompt p ≡ some (trim_right t, drop (j + length user_header) p)
unfolding split_prompt
split_found p t i j e f g = rw (e, f, g, split_prompt) refl

slice_between : (a b c : Text) → substring ((a ++ b) ++ c) (0 + length a) (length (a ++ b)) ≡ some b
slice_between a b c = rw (in_order, middle) refl
  where
    in_order : ltb (length (a ++ b)) (0 + length a) ≡ false
    in_order = ground (arith, length-append a b)

    middle : take (length (a ++ b) - (0 + length a)) (drop (0 + length a) ((a ++ b) ++ c)) ≡ b
    middle =
        rw (append_assoc a b c, drop-append_exact (0 + length a) a (b ++ c) (omega arith))
          (take-append_exact (length (a ++ b) - (0 + length a)) b c
            (omega (arith, length-append a b)))

rest_after : (a b c : Text) → drop (length a + length b) (a ++ (b ++ c)) ≡ c
rest_after a b c =
    rw (← append_assoc a b c)
      (drop-append_exact (length a + length b) (a ++ b) c (length-append a b))

starts_first : (t : Text) → index_of (sys_header ++ t) sys_header ≡ some 0
unfolding index_of
starts_first t = refl

-- The parts of a text between two headers, the second at its first place.
split_at :
    (before user : Text)
    → clear user_header (sys_header ++ before) ≡ true
    → split_prompt ((sys_header ++ before) ++ (user_header ++ user))
      ≡ some (trim_right before, user)
split_at before user h =
    split_found ((sys_header ++ before) ++ (user_header ++ user)) before 0
      (length (sys_header ++ before)) (starts_first (before ++ (user_header ++ user)))
      (index_of-clear 35 (codes "## USER\n") (sys_header ++ before) user h)
      (slice_between sys_header before (user_header ++ user))
    ∙ ap (λ t. some (trim_right before, t)) (rest_after (sys_header ++ before) user_header user)

-- Every prompt that is built splits without a panic into the system prompt and the whole section
-- of the user, whatever the incident and the retrieved context contain.
pub split_prompt-build_analysis_prompt :
    (lib : Library) (incident_json : AnalysisRequest → Text) (req : AnalysisRequest)
    (rag_context : Text)
    → split_prompt (build_analysis_prompt lib incident_json req rag_context)
      ≡ some (system_prompt, user_section lib incident_json req rag_context)
split_prompt-build_analysis_prompt lib incident_json req rag_context =
    ap split_prompt (cut lib incident_json req rag_context)
    ∙ split_at body (user_section lib incident_json req rag_context) body-clear
    ∙ ap (λ t. some (t, user_section lib incident_json req rag_context)) trim_right-body
