-- ===== src/Aggregator/Patterns/Exact.antt =====
-- internal/aggregator/pattern_detector.go: what the detector answers, in terms of the events that
-- were recorded.
use kube_diagnose.Common.{
  ℕ, ◌*◌, ◌≤◌, List, [], ◌∷◌, Option, none, some, Text, codes, ◌≡◌, refl, subst, arith, ltb, length,
  keep, lookup, Text-discrete, float_ratio,
}
use kube_diagnose.Api.{PatternWindow}
use kube_diagnose.Aggregator.Patterns.{
  FingerprintData, minute, new_pattern_detector, get_frequency, is_bursting, is_recurring, zeroed,
}
use kube_diagnose.Aggregator.Patterns.Prune.{within}
use kube_diagnose.Aggregator.Patterns.Loops.{
  slices, window_report, reports-frequency, answer-recurring,
}
use kube_diagnose.Aggregator.Patterns.Tracks.{prune_window-Tracks}
use kube_diagnose.Aggregator.Patterns.Invariant.{Agrees}
use kube_diagnose.Aggregator.Patterns.Refinement.{Op, run, Timeline, times, run-Agrees}

length-keep-le :
    (now short long : ℕ) (xs : List ℕ)
    → short ≤ long
    → length (keep (within now short) xs) ≤ length (keep (within now long) xs)
length-keep-le now short long [] h = omega arith
length-keep-le now short long (x ∷ xs) h = ground (arith, length-keep-le now short long xs h)

abbrev pub live_events : Text → ℕ → ℕ → List Op → List ℕ
live_events fp now duration ops = keep (within now duration) (times fp ops)

abbrev pub live_report : Text → Text → ℕ → ℕ → List Op → PatternWindow
live_report fp name duration now ops = window_report name duration (live_events fp now duration ops)

module _ (fp : Text) (ops : List Op) (now : ℕ) (h : Timeline 0 ops now) where
  frequency_at :
      (o : Option FingerprintData)
      → lookup Text-discrete fp (run new_pattern_detector ops).entries ≡ o
      → (get_frequency (run new_pattern_detector ops) fp now).1
        ≡ live_report fp (codes "1m") (1 * minute) now ops
          ∷ live_report fp (codes "5m") (5 * minute) now ops
          ∷ live_report fp (codes "15m") (15 * minute) now ops
          ∷ []
  unfolding get_frequency zeroed float_ratio
  frequency_at none e =
      let a : Agrees now (times fp ops) none =
        subst (Agrees now (times fp ops)) e (run-Agrees fp ops now h) in
      rw (e, get_frequency)
        (rw (a.0 now (omega arith), a.1 now (omega arith), a.2 now (omega arith)))
  frequency_at (some fd) e =
      let a : Agrees now (times fp ops) (some fd) =
        subst (Agrees now (times fp ops)) e (run-Agrees fp ops now h) in
      rw (e, get_frequency)
        (rw (
          reports-frequency now fd.events,
          prune_window-Tracks _ now (1 * minute) (times fp ops) _ a.1.short now (omega arith),
          prune_window-Tracks _ now (5 * minute) (times fp ops) _ a.1.medium now (omega arith),
          prune_window-Tracks _ now (15 * minute) (times fp ops) _ a.1.long now (omega arith),
        ))

  -- After any calls in the order of the clock, GetFrequency reports for each of the three windows
  -- the number of events recorded for the fingerprint that are not older than the window, and
  -- that number over the window's seconds, whatever was pruned or evicted in between.
  pub get_frequency_exact :
      (get_frequency (run new_pattern_detector ops) fp now).1
      ≡ live_report fp (codes "1m") (1 * minute) now ops
        ∷ live_report fp (codes "5m") (5 * minute) now ops
        ∷ live_report fp (codes "15m") (15 * minute) now ops
        ∷ []
  get_frequency_exact =
      frequency_at (lookup Text-discrete fp (run new_pattern_detector ops).entries) refl

  bursting_at :
      (threshold : ℕ) (o : Option FingerprintData)
      → lookup Text-discrete fp (run new_pattern_detector ops).entries ≡ o
      → (is_bursting (run new_pattern_detector ops) fp threshold now).1
        ≡ ltb threshold (length (live_events fp now (1 * minute) ops))
  unfolding is_bursting slices
  bursting_at threshold none e =
      let a : Agrees now (times fp ops) none =
        subst (Agrees now (times fp ops)) e (run-Agrees fp ops now h) in
      rw (e, is_bursting) (rw (a.0 now (omega arith)) (ground arith))
  bursting_at threshold (some fd) e =
      let a : Agrees now (times fp ops) (some fd) =
        subst (Agrees now (times fp ops)) e (run-Agrees fp ops now h) in
      rw (e, is_bursting)
        (rw (prune_window-Tracks _ now (1 * minute) (times fp ops) _ a.1.short now (omega arith)))

  -- After any calls in the order of the clock, IsBursting answers whether more events than the
  -- threshold were recorded for the fingerprint in the last minute.
  is_bursting_exact :
      (threshold : ℕ)
      → (is_bursting (run new_pattern_detector ops) fp threshold now).1
        ≡ ltb threshold (length (live_events fp now (1 * minute) ops))
  is_bursting_exact threshold =
      bursting_at threshold (lookup Text-discrete fp (run new_pattern_detector ops).entries) refl

  recurring_at :
      (o : Option FingerprintData)
      → lookup Text-discrete fp (run new_pattern_detector ops).entries ≡ o
      → (is_recurring (run new_pattern_detector ops) fp now).1
        ≡ ltb 0 (length (live_events fp now (1 * minute) ops))
  unfolding is_recurring
  recurring_at none e =
      let a : Agrees now (times fp ops) none =
        subst (Agrees now (times fp ops)) e (run-Agrees fp ops now h) in
      rw (e, is_recurring) (rw (a.0 now (omega arith)) (ground arith))
  recurring_at (some fd) e =
      let a : Agrees now (times fp ops) (some fd) =
        subst (Agrees now (times fp ops)) e (run-Agrees fp ops now h) in
      rw (e, is_recurring)
        (rw
          (
            answer-recurring now fd.events,
            prune_window-Tracks _ now (1 * minute) (times fp ops) _ a.1.short now (omega arith),
            prune_window-Tracks _ now (5 * minute) (times fp ops) _ a.1.medium now (omega arith),
            prune_window-Tracks _ now (15 * minute) (times fp ops) _ a.1.long now (omega arith),
          )
          (ground (
            arith,
            length-keep-le now (1 * minute) (5 * minute) (times fp ops) (omega arith),
            length-keep-le now (1 * minute) (15 * minute) (times fp ops) (omega arith),
          )))

  -- After any calls in the order of the clock, IsRecurring answers whether one event or more was
  -- recorded for the fingerprint in the last minute: the two longer windows add nothing.
  pub is_recurring_exact :
      (is_recurring (run new_pattern_detector ops) fp now).1
      ≡ ltb 0 (length (live_events fp now (1 * minute) ops))
  is_recurring_exact =
      recurring_at (lookup Text-discrete fp (run new_pattern_detector ops).entries) refl
