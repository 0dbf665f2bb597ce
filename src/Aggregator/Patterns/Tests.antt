-- ===== src/Aggregator/Patterns/Tests.antt =====
-- Runs of the pattern detector, and its theorems at an input.
use kube_diagnose.Common.{
  ℕ, ◌*◌, ◌+◌, List, [], ◌∷◌, Text, codes, ◌≡◌, refl, arith, ltb, length, Text-discrete,
  float_ratio,
}
use kube_diagnose.Aggregator.Patterns.{
  minute, new_pattern_detector, get_frequency, is_recurring, prune_window, first_live,
}
use kube_diagnose.Aggregator.Patterns.Refinement.{
  Op, records, reads_frequency, cleans, run, Timeline,
}
use kube_diagnose.Aggregator.Patterns.Exact.{
  live_events, live_report, get_frequency_exact, is_recurring_exact,
}

per_second : float_ratio 7 60 ≡ 0x3fbdddddddddddde
unfolding float_ratio
per_second = refl

per_second_long : float_ratio 100000 900 ≡ 0x405bc71c71c71c72
unfolding float_ratio
per_second_long = refl

abbrev slice : List ℕ
slice = 10 ∷ 20 ∷ 30 ∷ 40 ∷ []

pruned : prune_window slice 100 70 ≡ 30 ∷ 40 ∷ []
unfolding prune_window first_live
pruned = refl

abbrev oom : Text
oom = codes "00ff"

abbrev calls : List Op
calls =
    records oom (1 * minute)
    ∷ records oom (9 * minute)
    ∷ reads_frequency oom (9 * minute)
    ∷ records (codes "beef") (10 * minute)
    ∷ cleans (10 * minute)
    ∷ []

calls-Timeline : Timeline 0 calls (10 * minute)
calls-Timeline = omega arith

get_frequency_exact_example :
    (get_frequency (run new_pattern_detector calls) oom (10 * minute)).1
    ≡ live_report oom (codes "1m") (1 * minute) (10 * minute) calls
      ∷ live_report oom (codes "5m") (5 * minute) (10 * minute) calls
      ∷ live_report oom (codes "15m") (15 * minute) (10 * minute) calls
      ∷ []
get_frequency_exact_example = get_frequency_exact oom calls (10 * minute) calls-Timeline

is_recurring_exact_example :
    (is_recurring (run new_pattern_detector calls) oom (10 * minute)).1
    ≡ ltb 0 (length (live_events oom (10 * minute) (1 * minute) calls))
is_recurring_exact_example = is_recurring_exact oom calls (10 * minute) calls-Timeline

-- Two events in the last quarter of an hour, one of them in the last minute.
counts :
    length (live_events oom (10 * minute) (1 * minute) calls)
      + length (live_events oom (10 * minute) (15 * minute) calls)
    ≡ 3
unfolding Text-discrete
counts = refl
