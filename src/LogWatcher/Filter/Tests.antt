-- ===== src/LogWatcher/Filter/Tests.antt =====
-- internal/logwatcher/filter.go: filters at concrete inputs.
use kube_diagnose.Common.{
  List, [], ◌∷◌, true, false, some, Text, Text-discrete, codes, contains, ltb, ◌≡◌, ◌↔◌, ◌⊎◌, refl,
  All,
}
use kube_diagnose.LogWatcher.Filter.{
  NormalizedLog, Pattern, Filter, Library, trim_space, to_upper, normalised_levels, compiled,
  new_filter, regexp_words, critical_keywords, has_level, should_process,
}
use kube_diagnose.LogWatcher.Filter.Accepts.{Keyword, should_process_iff}

abbrev starts_late : Pattern
starts_late [] = false
starts_late (c ∷ cs) = ltb 103 c

abbrev plain : Library
plain = record { unicode_trim = λ s. s; unicode_upper = λ s. s; compile = λ s. some starts_late }

abbrev levels : List Text
levels = codes " error " ∷ codes "Warn" ∷ codes "ERROR" ∷ codes "  " ∷ []

abbrev filter : Filter
filter = record {
  log_levels = codes "ERROR" ∷ codes "WARN" ∷ [];
  raw_levels = codes "ERROR" ∷ codes "WARN" ∷ [];
  exclusion_patterns = starts_late ∷ [];
}

new_filter-levels : new_filter plain levels (codes "^h" ∷ []) ≡ some filter
unfolding new_filter compiled normalised_levels trim_space to_upper contains Text-discrete
new_filter-levels = refl

abbrev line : NormalizedLog
line = record {
  cluster = [];
  namespace = codes "shop";
  deployment = [];
  pod = codes "web";
  container = codes "web";
  timestamp = 7;
  level = codes "INFO";
  message = codes "an Error";
  raw = codes "an Error: refused";
}

-- A line at another level goes on when it has a keyword.
should_process-line : should_process filter (some line) ≡ true
unfolding should_process critical_keywords regexp_words contains Text-discrete
should_process-line = refl

should_process_iff_example : (should_process filter (some line) ≡ true) ↔ (
    All (λ re. re line.raw ≡ false) filter.exclusion_patterns
    × ((has_level filter.log_levels line.level ≡ true)
        ⊎ Keyword filter.log_levels (regexp_words [] line.raw)))
should_process_iff_example = should_process_iff filter line
