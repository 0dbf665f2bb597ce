-- ===== src/Aggregator/Fingerprint/Tokens.antt =====
-- internal/aggregator/fingerprint.go: the tokens of a text.
use kube_diagnose.Common.{
  ℕ, List, [], ◌∷◌, ◌++◌, true, Text, keep, ◌≡◌, ◌≢◌, refl, sym, ap, ◌∙◌, All, append_assoc,
  append-nil,
}
use kube_diagnose.Aggregator.Fingerprint.{is_word_byte, word_runs, is_token, tokenize}

abbrev pub WordByte : ℕ → Type 0
WordByte c = is_word_byte c ≡ true

-- A token in the text form of a list: word bytes that pass the filter.
abbrev pub Token : Text → Type 0
Token t = All WordByte t × (t ≢ []) × (is_token t ≡ true)

-- The tokens, each followed by one space.
abbrev pub spaced : List Text → Text
spaced [] = []
spaced (t ∷ ts) = t ++ (32 ∷ spaced ts)

word_runs-word :
    (run : Text) (c : ℕ) (cs : Text)
    → is_word_byte c ≡ true
    → word_runs run (c ∷ cs) ≡ word_runs (run ++ (c ∷ [])) cs
unfolding word_runs
word_runs-word run c cs e = rw (e, word_runs) refl

word_runs-append :
    (t run rest : Text) → All WordByte t → word_runs run (t ++ rest) ≡ word_runs (run ++ t) rest
word_runs-append [] run rest h = ap (λ r. word_runs r rest) (sym (append-nil run))
word_runs-append (c ∷ t) run rest h =
    word_runs-word run c (t ++ rest) h.0
    ∙ word_runs-append t (run ++ (c ∷ [])) rest h.1
    ∙ ap (λ r. word_runs r rest) (append_assoc run (c ∷ []) t)

word_runs-space : (t rest : Text) → t ≢ [] → word_runs t (32 ∷ rest) ≡ t ∷ word_runs [] rest
unfolding word_runs
word_runs-space [] rest n = absurd (n refl)
word_runs-space (c ∷ t) rest n = refl

-- Tokens written one after the other, each with a space behind it, are found again in order.
pub tokenize-spaced : (ts : List Text) → All Token ts → tokenize (spaced ts) ≡ ts
unfolding tokenize word_runs
tokenize-spaced [] h = refl
tokenize-spaced (t ∷ ts) h =
    ap (keep is_token)
      (word_runs-append t [] (32 ∷ spaced ts) h.0.0 ∙ word_runs-space t (spaced ts) h.0.1)
    ∙ rw h.0.2 (ap (◌∷◌ t) (tokenize-spaced ts h.1))
