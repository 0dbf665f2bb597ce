-- ===== src/LogWatcher/Lines.antt =====
-- internal/logwatcher/normalizer.go and the lines of streamOnce in internal/logwatcher/watcher.go:
-- from the lines of a stream to the entries of the channel. The decoding of JSON, the finds of the
-- two regular expressions, time.Parse and time.Unix are parameters.
pub mod Sent
mod Tests
use kube_diagnose.Common.{
  ℕ, ◌+◌, ◌-◌, List, [], ◌∷◌, ◌++◌, Bool, true, false, Option, none, some, Text, Text-discrete,
  codes, ite, ◌==◌, if◌then◌else◌, lookup, take, drop, Float64,
}
use kube_diagnose.LogWatcher.Filter.{
  NormalizedLog, Library, Filter, trim_space, to_upper, should_process,
}

-- The value of a field: json.Unmarshal reads a null into a string as the empty one.
pub data JsonValue : Type 0 where
  string : Text → JsonValue
  number : Float64 → JsonValue
  null : JsonValue
  other : JsonValue

pub record Parsers : Type 0 where
  pub library : Library
  pub decode : Text → Option (List (Text × JsonValue))
  -- The first match of rfc3339Re, from one index to another, and the text that levelRe finds.
  pub find_timestamp : Text → Option (ℕ × ℕ)
  pub find_level : Text → Text
  pub parse_time : Text → Text → Option ℕ
  pub unix_time : Float64 → ℕ

-- The coordinates of a stream.
pub record Coordinates : Type 0 where
  pub cluster : Text
  pub namespace : Text
  pub pod : Text
  pub container : Text
  pub deployment : Text

abbrev pub as_string : Option JsonValue → Option Text
as_string (some (string s)) = some s
as_string (some null) = some []
as_string _ = none

-- The first of some keys that holds a string.
unfoldable pub first_string : List Text → List (Text × JsonValue) → Option Text
first_string [] m = none
first_string (key ∷ keys) m = elim (as_string (lookup Text-discrete key m)) [
  | some s ↦ some s
  | none ↦ first_string keys m
]

abbrev pub json_layouts : List Text
json_layouts =
    codes "2006-01-02T15:04:05.999999999Z07:00"
    ∷ codes "2006-01-02T15:04:05Z07:00"
    ∷ codes "2006-01-02T15:04:05.999999999"
    ∷ codes "2006-01-02 15:04:05"
    ∷ codes "2006-01-02 15:04:05.999999999"
    ∷ []

abbrev pub text_layouts : List Text
text_layouts =
    codes "2006-01-02T15:04:05.999999999Z07:00"
    ∷ codes "2006-01-02T15:04:05Z07:00"
    ∷ codes "2006-01-02T15:04:05.999999999"
    ∷ codes "2006-01-02T15:04:05"
    ∷ codes "2006-01-02 15:04:05.999999999"
    ∷ codes "2006-01-02 15:04:05"
    ∷ []

unfoldable pub normalize_level : Text → Text
normalize_level l =
    ite (Text-discrete l (codes "INFORMATION")) (codes "INFO")
      (ite (Text-discrete l (codes "WARNING")) (codes "WARN") l)

module _ (p : Parsers) where
  -- The first layout that a text has.
  unfoldable pub parse_layouts : List Text → Text → Option ℕ
  parse_layouts [] s = none
  parse_layouts (layout ∷ layouts) s = elim (p.parse_time layout s) [
    | some t ↦ some t
    | none ↦ parse_layouts layouts s
  ]

  abbrev pub parse_timestamp_value : Option JsonValue → Option ℕ
  parse_timestamp_value (some (string s)) = parse_layouts json_layouts s
  parse_timestamp_value (some null) = parse_layouts json_layouts []
  parse_timestamp_value (some (number f)) = some (p.unix_time f)
  parse_timestamp_value (some other) = none
  parse_timestamp_value none = none

  unfoldable pub first_time : List Text → List (Text × JsonValue) → Option ℕ
  first_time [] m = none
  first_time (key ∷ keys) m = elim (parse_timestamp_value (lookup Text-discrete key m)) [
    | some t ↦ some t
    | none ↦ first_time keys m
  ]

  abbrev pub level_keys : List Text
  level_keys = codes "level" ∷ codes "severity" ∷ codes "lvl" ∷ codes "log.level" ∷ []

  abbrev pub message_keys : List Text
  message_keys = codes "msg" ∷ codes "message" ∷ codes "log" ∷ codes "body" ∷ []

  abbrev pub time_keys : List Text
  time_keys = codes "time" ∷ codes "timestamp" ∷ codes "ts" ∷ codes "@timestamp" ∷ codes "date" ∷ []

  -- The fields that are found replace those of the entry.
  unfoldable pub parse_json : List (Text × JsonValue) → NormalizedLog → NormalizedLog
  parse_json m entry = record entry {
    level = elim (first_string level_keys m) [
      | none ↦ entry.level
      | some s ↦ to_upper p.library (trim_space p.library s)
    ];
    message = elim (first_string message_keys m) [ none ↦ entry.message | some s ↦ s ];
    timestamp = elim (first_time time_keys m) [ none ↦ entry.timestamp | some t ↦ t ];
  }

  -- The time of a match, and the line without it.
  abbrev pub strip_timestamp : Text → Option (ℕ × ℕ) → Option (ℕ × Text)
  strip_timestamp raw none = none
  strip_timestamp raw (some loc) =
      elim (parse_layouts text_layouts (take (loc.1 - loc.0) (drop loc.0 raw))) [
        | none ↦ none
        | some t ↦ some (t, trim_space p.library (take loc.0 raw ++ drop loc.1 raw))
      ]

  abbrev pub with_level : Text → NormalizedLog → NormalizedLog
  with_level [] entry = entry
  with_level (c ∷ cs) entry = record entry { level = normalize_level (to_upper p.library (c ∷ cs)) }

  abbrev pub with_time : Text → NormalizedLog → Option (ℕ × Text) → NormalizedLog
  with_time raw entry none = with_level (p.find_level raw) entry
  with_time raw entry (some found) =
      with_level (p.find_level found.1) (record entry { timestamp = found.0 })

  unfoldable pub parse_text_line : Text → NormalizedLog → NormalizedLog
  parse_text_line raw entry =
      record (with_time raw entry (strip_timestamp raw (p.find_timestamp raw))) { message = raw }

  abbrev pub new_entry : Coordinates → Text → ℕ → NormalizedLog
  new_entry c raw now = record {
    cluster = c.cluster;
    namespace = c.namespace;
    deployment = c.deployment;
    pod = c.pod;
    container = c.container;
    timestamp = now;
    level = [];
    message = [];
    raw = raw;
  }

  -- The attempt at JSON is made for a text that begins with a brace.
  abbrev pub json_fields : Text → Option (List (Text × JsonValue))
  json_fields [] = none
  json_fields (c ∷ cs) = if c == 123 then p.decode (c ∷ cs) else none

  abbrev pub parse_line : Text → NormalizedLog → NormalizedLog
  parse_line [] entry = entry
  parse_line (c ∷ cs) entry = elim (json_fields (c ∷ cs)) [
    | some m ↦ parse_json m entry
    | none ↦ parse_text_line (c ∷ cs) entry
  ]

  unfoldable pub normalize : Coordinates → Text → ℕ → NormalizedLog
  normalize c raw now = parse_line (trim_space p.library raw) (new_entry c raw now)

pub record LogEntry : Type 0 where
  pub log : NormalizedLog
  pub policy_namespace : Text
  pub policy_name : Text

-- What the select of a send takes: the channel, the cancelled context or the default.
pub data Send : Type 0 where
  sends cancels drops : Send

-- A line of the stream, whether the context is cancelled when it is read, the clock and the send.
pub record Line : Type 0 where
  pub text : Text
  pub is_cancelled : Bool
  pub now : ℕ
  pub send : Send

-- The entries sent, and whether the context ended the loop.
pub record Read : Type 0 where
  pub sent : List LogEntry
  pub is_cancelled : Bool

abbrev pub then_read : LogEntry → Send → Read → Read
then_read entry sends rest = record rest { sent = entry ∷ rest.sent }
then_read entry cancels rest = record { sent = []; is_cancelled = true }
then_read entry drops rest = rest

module _ (p : Parsers) (f : Filter) (c : Coordinates) (policy_namespace policy_name : Text) where
  abbrev pub entry_of : Line → LogEntry
  entry_of line = record {
    log = normalize p c line.text line.now;
    policy_namespace = policy_namespace;
    policy_name = policy_name;
  }

  -- An empty line is passed over, and so is one that the filter does not accept.
  abbrev pub is_sent : Text → ℕ → Bool
  is_sent [] now = false
  is_sent (b ∷ bs) now = should_process f (some (normalize p c (b ∷ bs) now))

  unfoldable pub read_lines : List Line → Read
  read_lines [] = record { sent = []; is_cancelled = false }
  read_lines (line ∷ lines) =
      let rest = read_lines lines in
      if line.is_cancelled
      then record { sent = []; is_cancelled = true }
      else if is_sent line.text line.now
      then then_read (entry_of line) line.send rest
      else rest
