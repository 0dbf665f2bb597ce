-- ===== src/LogWatcher/Lines/Tests.antt =====
-- internal/logwatcher/normalizer.go and the lines of a stream at concrete inputs.
use kube_diagnose.Common.{
  ℕ, List, [], ◌∷◌, true, false, none, some, Text, Text-discrete, codes, ite, contains, ◌≡◌, refl,
  lookup, take,
}
use kube_diagnose.LogWatcher.Filter.{
  NormalizedLog, Filter, trim_space, to_upper, should_process, critical_keywords, regexp_words,
}
use kube_diagnose.LogWatcher.Lines.{
  JsonValue, string, null, other, Parsers, Coordinates, first_string, first_time, parse_layouts,
  parse_json, parse_text_line, normalize_level, normalize, Send, sends, cancels, drops, Line,
  read_lines,
}
use kube_diagnose.LogWatcher.Lines.Sent.{Sent, read_lines-Sent}

-- One object is known, a time is the text "noon" and a level the word that a line begins with.
abbrev parsers : Parsers
parsers = record {
  library = record { unicode_trim = λ s. s; unicode_upper = λ s. s; compile = λ s. none };
  decode = λ s. ite (Text-discrete s (codes "{1}")) (some fields) none;
  find_timestamp = λ s. ite (Text-discrete (take 4 s) (codes "noon")) (some (0, 4)) none;
  find_level = λ s. ite (Text-discrete (take 7 s) (codes "warning")) (codes "warning") [];
  parse_time = λ layout s. ite (Text-discrete s (codes "noon")) (some 12) none;
  unix_time = λ x. 0;
}
  where
    fields : List (Text × JsonValue)
    fields =
        (codes "level", other)
        ∷ (codes "severity", string (codes " error "))
        ∷ (codes "msg", null)
        ∷ (codes "ts", string (codes "soon"))
        ∷ (codes "date", string (codes "noon"))
        ∷ []

abbrev coordinates : Coordinates
coordinates = record {
  cluster = [];
  namespace = codes "shop";
  pod = codes "web";
  container = codes "web";
  deployment = [];
}

abbrev log : ℕ → Text → Text → Text → NormalizedLog
log timestamp level message raw = record {
  cluster = [];
  namespace = codes "shop";
  deployment = [];
  pod = codes "web";
  container = codes "web";
  timestamp = timestamp;
  level = level;
  message = message;
  raw = raw;
}

-- A field that is no string leaves the next key to decide; the null message is the empty one.
normalize-json :
    normalize parsers coordinates (codes " {1} ") 5 ≡ log 12 (codes "ERROR") [] (codes " {1} ")
unfolding normalize parse_json first_string first_time parse_layouts trim_space to_upper
    Text-discrete lookup
normalize-json = refl

-- The time goes before the level is looked for, and stays in the message.
normalize-text :
    normalize parsers coordinates (codes "noon warning: x") 5
    ≡ log 12 (codes "WARN") (codes "noon warning: x") (codes "noon warning: x")
unfolding normalize parse_text_line parse_layouts trim_space to_upper Text-discrete normalize_level
normalize-text = refl

abbrev filter : Filter
filter = record {
  log_levels = codes "ERROR" ∷ [];
  raw_levels = codes "ERROR" ∷ [];
  exclusion_patterns = [];
}

abbrev line : Text → Send → Line
line text send = record { text = text; is_cancelled = false; now = 5; send = send }

abbrev lines : List Line
lines =
    line (codes "{1}") sends
    ∷ line [] sends
    ∷ line (codes "warning") sends
    ∷ line (codes "{1}") drops
    ∷ line (codes "{1}") cancels
    ∷ line (codes "{1}") sends
    ∷ []

read_lines-lines :
    read_lines parsers filter coordinates (codes "shop") (codes "all") lines ≡ record {
      sent =
          record {
            log = log 12 (codes "ERROR") [] (codes "{1}");
            policy_namespace = codes "shop";
            policy_name = codes "all";
          }
          ∷ [];
      is_cancelled = true;
    }
unfolding read_lines normalize parse_json parse_text_line first_string first_time parse_layouts
    trim_space to_upper Text-discrete normalize_level lookup should_process critical_keywords
    regexp_words contains
read_lines-lines = refl

read_lines-Sent_example :
    let r = read_lines parsers filter coordinates (codes "shop") (codes "all") lines in
    Sent parsers filter coordinates (codes "shop") (codes "all") lines r.sent r.is_cancelled
read_lines-Sent_example =
    read_lines-Sent parsers filter coordinates (codes "shop") (codes "all") lines
