-- ===== src/Aggregator/Patterns.antt =====
-- internal/aggregator/pattern_detector.go: how often each fingerprint fires in the sliding
-- windows. A call holds the mutex from its first access to its last, so it is one step, and the
-- clock that it reads is its argument `now`. `t.Before(now.Add(-d))` is `t + d < now`.
pub mod Prune
pub mod Loops
pub mod Tracks
pub mod Invariant
pub mod Refinement
pub mod Exact
mod Tests
use kube_diagnose.Common.{
  ℕ, zero, suc, ◌+◌, ◌*◌, ◌/◌, List, [], ◌∷◌, ◌++◌, Bool, true, false, Option, none, some, Text,
  codes, ltb, ◌==◌, if◌then◌else◌, length, get_or, drop, lookup, insert, Text-discrete, float_ratio,
}
use kube_diagnose.Api.{PatternWindow}

abbrev pub second : ℕ
second = 1000000000

abbrev pub minute : ℕ
minute = 60 * second

pub record Window : Type 0 where
  pub name : Text
  pub duration : ℕ

abbrev pub one_minute : Window
one_minute = record { name = codes "1m"; duration = 1 * minute }

abbrev pub five_minutes : Window
five_minutes = record { name = codes "5m"; duration = 5 * minute }

abbrev pub fifteen_minutes : Window
fifteen_minutes = record { name = codes "15m"; duration = 15 * minute }

abbrev pub windows : List Window
windows = one_minute ∷ five_minutes ∷ fifteen_minutes ∷ []

abbrev pub stale_threshold : ℕ
stale_threshold = 30 * minute

abbrev pub Events : Type 0
Events = List (Text × List ℕ)

pub record FingerprintData : Type 0 where
  pub events : Events
  pub last_seen : ℕ

-- The detector's map from fingerprints to their data; the lock and the logger are left out.
pub record PatternDetector : Type 0 where
  pub entries : List (Text × FingerprintData)

abbrev pub new_pattern_detector : PatternDetector
new_pattern_detector = record { entries = [] }

-- Reading a Go map at a missing key gives the nil slice.
abbrev pub events_of : Option (List ℕ) → List ℕ
events_of none = []
events_of (some ts) = ts

unfoldable pub window_events : Text → Events → List ℕ
window_events name events = events_of (lookup Text-discrete name events)

empty_events : List Window → Events → Events
empty_events [] events = events
empty_events (w ∷ ws) events = empty_events ws (insert Text-discrete w.name [] events)

-- `lastSeen` starts as the zero time.
unfoldable pub new_fingerprint_data : FingerprintData
unfolding empty_events
new_fingerprint_data = record { events = empty_events windows []; last_seen = 0 }

-- The loop of `Record`: one append for each window.
unfoldable pub append_all : List Window → ℕ → Events → Events
append_all [] t events = events
append_all (w ∷ ws) t events =
    append_all ws t (insert Text-discrete w.name (window_events w.name events ++ t ∷ []) events)

-- `getOrCreate`; `Record` writes the entry back at once.
unfoldable pub get_or_create : Option FingerprintData → FingerprintData
get_or_create none = new_fingerprint_data
get_or_create (some fd) = fd

unfoldable pub record_event : PatternDetector → Text → ℕ → PatternDetector
record_event d fp t =
    let fd = get_or_create (lookup Text-discrete fp d.entries) in
    record d {
      entries =
          insert Text-discrete fp
            (record { events = append_all windows t fd.events; last_seen = t }) d.entries;
    }

-- The binary search of `pruneWindow`, on fuel: each round shrinks `hi - lo`.
unfoldable pub first_live : ℕ → List ℕ → ℕ → ℕ → ℕ → ℕ → ℕ
first_live zero events now duration lo hi = lo
first_live (suc fuel) events now duration lo hi =
    let mid = (lo + hi) / 2 in
    let right = first_live fuel events now duration (mid + 1) hi in
    let left = first_live fuel events now duration lo mid in
    if ltb lo hi then if ltb (get_or events mid 0 + duration) now then right else left else lo

unfoldable pub prune_window : List ℕ → ℕ → ℕ → List ℕ
prune_window events now duration =
    let lo = first_live (length events) events now duration 0 (length events) in
    if lo == 0 then events else if lo == length events then [] else drop lo events

-- The loop of `GetFrequency` over the windows.
unfoldable pub frequency : List Window → ℕ → Events → Events × List PatternWindow
frequency [] now events = (events, [])
frequency (w ∷ ws) now events =
    let pruned = prune_window (window_events w.name events) now w.duration in
    let rest = frequency ws now (insert Text-discrete w.name pruned events) in
    let out : PatternWindow = record {
      window = w.name;
      count = length pruned;
      rate = float_ratio (length pruned) (w.duration / second);
    } in
    (rest.0, out ∷ rest.1)

unfoldable pub zeroed : List Window → List PatternWindow
zeroed [] = []
zeroed (w ∷ ws) = record { window = w.name; count = 0; rate = 0 } ∷ zeroed ws

abbrev put : PatternDetector → Text → FingerprintData → Events → PatternDetector
put d fp fd events = record d {
  entries = insert Text-discrete fp (record fd { events = events }) d.entries;
}

unfoldable pub get_frequency : PatternDetector → Text → ℕ → PatternDetector × List PatternWindow
get_frequency d fp now = elim (lookup Text-discrete fp d.entries) [
  | none ↦ (d, zeroed windows)
  | some fd ↦ let out = frequency windows now fd.events in (put d fp fd out.0, out.1)
]

unfoldable pub is_bursting : PatternDetector → Text → ℕ → ℕ → PatternDetector × Bool
is_bursting d fp threshold now = elim (lookup Text-discrete fp d.entries) [
  | none ↦ (d, false)
  | some fd ↦
      let pruned = prune_window (window_events (codes "1m") fd.events) now (1 * minute) in
      (
        put d fp fd (insert Text-discrete (codes "1m") pruned fd.events),
        ltb threshold (length pruned),
      )
]

-- The loop of `IsRecurring`, which stops at the first window with no live event.
unfoldable pub recurring : List Window → ℕ → Events → Events × Bool
recurring [] now events = (events, true)
recurring (w ∷ ws) now events =
    let pruned = prune_window (window_events w.name events) now w.duration in
    let rest = recurring ws now (insert Text-discrete w.name pruned events) in
    if length pruned == 0 then (insert Text-discrete w.name pruned events, false) else rest

unfoldable pub is_recurring : PatternDetector → Text → ℕ → PatternDetector × Bool
is_recurring d fp now = elim (lookup Text-discrete fp d.entries) [
  | none ↦ (d, false)
  | some fd ↦ let out = recurring windows now fd.events in (put d fp fd out.0, out.1)
]

unfoldable pub evict : ℕ → List (Text × FingerprintData) → List (Text × FingerprintData)
evict now [] = []
evict now ((fp, fd) ∷ rest) =
    if ltb (fd.last_seen + stale_threshold) now then evict now rest else (fp, fd) ∷ evict now rest

-- One tick of `CleanupOldData`.
unfoldable pub cleanup : PatternDetector → ℕ → PatternDetector
unfolding evict
cleanup d now = record d { entries = evict now d.entries }
