-- ===== src/LogWatcher/Lines/Sent.antt =====
-- internal/logwatcher/watcher.go: what a stream puts on the channel.
use kube_diagnose.Common.{
  ℕ, List, [], ◌∷◌, Bool, true, false, ◌⊎◌, Option, none, some, Text, ◌≡◌, ◌≢◌, refl, Bool-cases,
  Option-cases, inl, inr,
}
use kube_diagnose.LogWatcher.Filter.{NormalizedLog, Filter, trim_space, should_process}
use kube_diagnose.LogWatcher.Lines.{
  Parsers, Coordinates, with_level, with_time, strip_timestamp, parse_json, parse_text_line,
  parse_line, json_fields, new_entry, normalize, LogEntry, Send, sends, cancels, drops, Line, Read,
  then_read, entry_of, is_sent, read_lines,
}

-- The fields of a log that only the stream and the line decide.
abbrev pub origin : NormalizedLog → Text × Text × Text × Text × Text × Text
origin log = (log.cluster, log.namespace, log.pod, log.container, log.deployment, log.raw)

module _ (p : Parsers) where
  origin-with_level :
      (level : Text) (entry : NormalizedLog) → origin (with_level p level entry) ≡ origin entry
  origin-with_level [] entry = refl
  origin-with_level (c ∷ cs) entry = refl

  origin-with_time :
      (raw : Text) (entry : NormalizedLog) (o : Option (ℕ × Text))
      → origin (with_time p raw entry o) ≡ origin entry
  origin-with_time raw entry none = origin-with_level (p.find_level raw) entry
  origin-with_time raw entry (some found) =
      origin-with_level (p.find_level found.1) (record entry { timestamp = found.0 })

  origin-parse_text_line :
      (raw : Text) (entry : NormalizedLog) → origin (parse_text_line p raw entry) ≡ origin entry
  unfolding parse_text_line
  origin-parse_text_line raw entry =
      origin-with_time raw entry (strip_timestamp p raw (p.find_timestamp raw))

  origin-parse_line :
      (raw : Text) (entry : NormalizedLog) → origin (parse_line p raw entry) ≡ origin entry
  unfolding parse_json
  origin-parse_line [] entry = refl
  origin-parse_line (c ∷ cs) entry = elim (Option-cases (json_fields p (c ∷ cs))) [
    | inl e ↦ rw (e, parse_line) (origin-parse_text_line (c ∷ cs) entry)
    | inr (m, e) ↦ rw (e, parse_line) refl
  ]

  origin-normalize :
      (c : Coordinates) (raw : Text) (now : ℕ)
      → origin (normalize p c raw now)
        ≡ (c.cluster, c.namespace, c.pod, c.container, c.deployment, raw)
  unfolding normalize
  origin-normalize c raw now = origin-parse_line (trim_space p.library raw) (new_entry p c raw now)

module _ (p : Parsers) (f : Filter) (c : Coordinates) (policy_namespace policy_name : Text) where
  -- The entry of a line: of its text, with the coordinates of the stream, for the policy of the
  -- stream, and one that the filter accepts.
  pub record FromLine (line : Line) (e : LogEntry) : Type 0 where
    pub has_text : line.text ≢ []
    pub of_line : e.log ≡ normalize p c line.text line.now
    pub of_stream :
        origin e.log ≡ (c.cluster, c.namespace, c.pod, c.container, c.deployment, line.text)
    pub is_accepted : should_process f (some e.log) ≡ true
    pub of_policy : (e.policy_namespace ≡ policy_namespace) × (e.policy_name ≡ policy_name)

  -- Why a line sends nothing: it is empty, its log is not accepted, or the channel is full.
  abbrev pub Passed : Line → Type 0
  Passed line =
      (line.text ≡ [])
      ⊎ ((should_process f (some (normalize p c line.text line.now)) ≡ false) ⊎ (line.send ≡ drops))

  abbrev pub Accepted : Line → Type 0
  Accepted line =
      (line.text ≢ []) × (should_process f (some (normalize p c line.text line.now)) ≡ true)

  -- The entries sent for some lines, in their order, and whether the context ended the loop: an
  -- entry for each line that is not passed over, up to the line at whose reading or sending the context is cancelled.
  pub data Sent : List Line → List LogEntry → Bool → Type 0 where
    finished : Sent [] [] false
    stopped :
        (line : Line) (lines : List Line)
        → (line.is_cancelled ≡ true) ⊎ ((line.send ≡ cancels) × Accepted line)
        → Sent (line ∷ lines) [] true
    passed :
        (line : Line) (lines : List Line) (es : List LogEntry) (b : Bool)
        → line.is_cancelled ≡ false
        → Passed line
        → Sent lines es b
        → Sent (line ∷ lines) es b
    taken :
        (line : Line) (lines : List Line) (e : LogEntry) (es : List LogEntry) (b : Bool)
        → line.is_cancelled ≡ false
        → line.send ≡ sends
        → FromLine line e
        → Sent lines es b
        → Sent (line ∷ lines) (e ∷ es) b

  is_sent-Accepted :
      (text : Text) (now : ℕ)
      → is_sent p f c policy_namespace policy_name text now ≡ true
      → (text ≢ []) × (should_process f (some (normalize p c text now)) ≡ true)
  is_sent-Accepted [] now h = absurd (cc)
  is_sent-Accepted (b ∷ bs) now h = ((λ e. absurd (cc)), h)

  is_sent-Passed :
      (text : Text) (now : ℕ)
      → is_sent p f c policy_namespace policy_name text now ≡ false
      → (text ≡ []) ⊎ (should_process f (some (normalize p c text now)) ≡ false)
  is_sent-Passed [] now h = inl refl
  is_sent-Passed (b ∷ bs) now h = inr h

  entry_of-FromLine :
      (line : Line)
      → is_sent p f c policy_namespace policy_name line.text line.now ≡ true
      → FromLine line (entry_of p f c policy_namespace policy_name line)
  entry_of-FromLine line h = record {
    has_text = (is_sent-Accepted line.text line.now h).0;
    of_line = refl;
    of_stream = origin-normalize p c line.text line.now;
    is_accepted = (is_sent-Accepted line.text line.now h).1;
    of_policy = (refl, refl);
  }

  then_read-Sent :
      (line : Line) (lines : List Line) (s : Send) (rest : Read)
      → line.is_cancelled ≡ false
      → line.send ≡ s
      → is_sent p f c policy_namespace policy_name line.text line.now ≡ true
      → Sent lines rest.sent rest.is_cancelled
      → let r = then_read (entry_of p f c policy_namespace policy_name line) s rest in
        Sent (line ∷ lines) r.sent r.is_cancelled
  then_read-Sent line lines sends rest live e h r =
      taken line lines _ rest.sent rest.is_cancelled live e (entry_of-FromLine line h) r
  then_read-Sent line lines cancels rest live e h r =
      stopped line lines (inr (e, is_sent-Accepted line.text line.now h))
  then_read-Sent line lines drops rest live e h r =
      passed line lines rest.sent rest.is_cancelled live (inr (inr e)) r

  -- Whatever the lines, the clock and the sends, a stream puts on the channel, in the order of the
  -- lines, one entry for each line that has text and is accepted by the filter, unless the channel
  -- is full: the line normalised, with the coordinates and the policy of the stream. It ends early
  -- only where the context is cancelled.
  pub read_lines-Sent :
      (lines : List Line)
      → let r = read_lines p f c policy_namespace policy_name lines in
        Sent lines r.sent r.is_cancelled
  unfolding read_lines
  read_lines-Sent [] = finished
  read_lines-Sent (line ∷ lines) = elim (Bool-cases line.is_cancelled) [
    | inl e ↦ simp e (stopped line lines (inl e))
    | inr live ↦ elim (Bool-cases (is_sent p f c policy_namespace policy_name line.text line.now)) [
      | inl h ↦
          simp (live, h) (then_read-Sent line lines line.send _ live refl h (read_lines-Sent lines))
      | inr h ↦
          simp (live, h)
            (passed line lines _ _ live (more (is_sent-Passed line.text line.now h))
              (read_lines-Sent lines))
    ]
  ]
    where
      more :
          (line.text ≡ []) ⊎ (should_process f (some (normalize p c line.text line.now)) ≡ false)
          → Passed line
      more (inl e) = inl e
      more (inr e) = inr (inl e)
