-- ===== src/LogWatcher/Filter.antt =====
-- internal/logwatcher/filter.go: which log lines go on. The compiler of exclusion patterns is a
-- parameter, and so are the trimming and the upper case of texts with a byte that is not ASCII.
pub mod Accepts
mod Tests
use kube_diagnose.Common.{
  ℕ, ◌-◌, List, [], ◌∷◌, ◌++◌, map, Bool, true, false, not, ◌&&◌, ◌||◌, Option, none, some, Text,
  codes, contains, ltb, leb, ◌==◌, if◌then◌else◌, ◌>>=◌, keep,
}

pub record NormalizedLog : Type 0 where
  pub cluster : Text
  pub namespace : Text
  pub deployment : Text
  pub pod : Text
  pub container : Text
  pub timestamp : ℕ
  pub level : Text
  pub message : Text
  pub raw : Text

abbrev pub Pattern : Type 0
Pattern = Text → Bool

-- A set is the list of its members.
pub record Filter : Type 0 where
  pub log_levels : List Text
  pub raw_levels : List Text
  pub exclusion_patterns : List Pattern

abbrev pub default_levels : List Text
default_levels = codes "ERROR" ∷ codes "FATAL" ∷ codes "CRITICAL" ∷ codes "PANIC" ∷ []

-- What the standard library does with texts that are not ASCII, and the regexp compiler.
pub record Library : Type 0 where
  pub unicode_trim : Text → Text
  pub unicode_upper : Text → Text
  pub compile : Text → Option Pattern

abbrev pub only_ascii : Text → Bool
only_ascii [] = true
only_ascii (c ∷ cs) = ltb c 128 && only_ascii cs

abbrev pub is_space : ℕ → Bool
is_space c = (leb 9 c && leb c 13) || c == 32

abbrev pub drop_spaces : Text → Text
drop_spaces [] = []
drop_spaces (c ∷ cs) = if is_space c then drop_spaces cs else c ∷ cs

abbrev pub before_spaces : ℕ → Text → Text
before_spaces c [] = if is_space c then [] else c ∷ []
before_spaces c (d ∷ ds) = c ∷ d ∷ ds

abbrev pub drop_last_spaces : Text → Text
drop_last_spaces [] = []
drop_last_spaces (c ∷ cs) = before_spaces c (drop_last_spaces cs)

unfoldable pub trim_space : Library → Text → Text
trim_space lib s = if only_ascii s then drop_last_spaces (drop_spaces s) else lib.unicode_trim s

abbrev pub upper_byte : ℕ → ℕ
upper_byte c = if leb 97 c && leb c 122 then c - 32 else c

unfoldable pub to_upper : Library → Text → Text
to_upper lib s = if only_ascii s then map upper_byte s else lib.unicode_upper s

abbrev pub or_default : List Text → List Text
or_default [] = default_levels
or_default (l ∷ ls) = l ∷ ls

abbrev pub add_level : Text → List Text → List Text
add_level [] seen = seen
add_level (c ∷ cs) seen = if contains (c ∷ cs) seen then seen else seen ++ ((c ∷ cs) ∷ [])

unfoldable pub normalised_levels : Library → List Text → List Text → List Text
normalised_levels lib [] seen = seen
normalised_levels lib (l ∷ ls) seen =
    normalised_levels lib ls (add_level (to_upper lib (trim_space lib l)) seen)

abbrev pub is_blank : Text → Bool
is_blank [] = true
is_blank (c ∷ cs) = false

unfoldable pub compiled : Library → List Text → Option (List Pattern)
compiled lib [] = some []
compiled lib (pat ∷ pats) =
    let rest = compiled lib pats in
    if is_blank (trim_space lib pat)
    then rest
    else (do re ← lib.compile pat; more ← rest; some (re ∷ more))

-- none is an error.
unfoldable pub new_filter : Library → List Text → List Text → Option Filter
new_filter lib levels exclusion_patterns = do
  patterns ← compiled lib exclusion_patterns
  some (record {
    log_levels = normalised_levels lib (or_default levels) [];
    raw_levels = normalised_levels lib (or_default levels) [];
    exclusion_patterns = patterns;
  })

-- \w, the bytes between which \b does not match.
abbrev pub is_regexp_word : ℕ → Bool
is_regexp_word c =
    (leb 97 c && leb c 122) || ((leb 65 c && leb c 90) || ((leb 48 c && leb c 57) || c == 95))

abbrev pub put_run : Text → List Text → List Text
put_run [] rest = rest
put_run (c ∷ cs) rest = (c ∷ cs) ∷ rest

unfoldable pub regexp_words : Text → Text → List Text
regexp_words run [] = put_run run []
regexp_words run (c ∷ cs) = elim (is_regexp_word c) [
  | true ↦ regexp_words (run ++ (c ∷ [])) cs
  | false ↦ put_run run (regexp_words [] cs)
]

-- `(?i)\b(error|fatal|critical|panic)\b` matches a whole word; no other letter folds to theirs.
unfoldable pub critical_keywords : Text → List Text
critical_keywords raw = keep (λ m. contains (map upper_byte m) default_levels) (regexp_words [] raw)

abbrev pub any_match : List Pattern → Text → Bool
any_match [] raw = false
any_match (re ∷ res) raw = re raw || any_match res raw

abbrev pub has_level : List Text → Text → Bool
has_level levels [] = false
has_level levels (c ∷ cs) = contains (c ∷ cs) levels

abbrev pub any_accepted : List Text → List Text → Bool
any_accepted levels [] = false
any_accepted levels (m ∷ ms) = contains (map upper_byte m) levels || any_accepted levels ms

unfoldable pub should_process : Filter → Option NormalizedLog → Bool
should_process f none = false
should_process f (some log) =
    if any_match f.exclusion_patterns log.raw
    then false
    else if has_level f.log_levels log.level
    then true
    else any_accepted f.log_levels (critical_keywords log.raw)
