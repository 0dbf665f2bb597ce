-- ===== src/Aggregator/Patterns/Loops.antt =====
-- internal/aggregator/pattern_detector.go: what the loops over the windows do to each slice.
use kube_diagnose.Common.{
  ℕ, ◌*◌, ◌/◌, List, [], ◌∷◌, ◌++◌, Bool, true, false, Text, codes, ◌==◌, ◌≡◌, refl, arith, ite,
  if◌then◌else◌, length, lookup, insert, Text-discrete, Bool-cases, inl, inr, lookup-insert,
  float_ratio,
}
use kube_diagnose.Api.{PatternWindow}
use kube_diagnose.Aggregator.Patterns.{
  Events, windows, minute, second, window_events, new_fingerprint_data, append_all, prune_window,
  frequency, recurring,
}

-- The three slices that a fingerprint's map holds.
pub record Slices : Type 0 where
  pub short : List ℕ
  pub medium : List ℕ
  pub long : List ℕ

unfoldable pub slices : Events → Slices
slices es = record {
  short = window_events (codes "1m") es;
  medium = window_events (codes "5m") es;
  long = window_events (codes "15m") es;
}

window_events-insert :
    (n m : Text) (ts : List ℕ) (es : Events)
    → window_events n (insert Text-discrete m ts es)
      ≡ ite (Text-discrete m n) ts (window_events n es)
unfolding window_events
window_events-insert n m ts es = ground (arith, lookup-insert Text-discrete m n ts es)

pub slices_new : slices new_fingerprint_data.events ≡ record { short = []; medium = []; long = [] }
unfolding slices new_fingerprint_data window_events lookup insert Text-discrete
slices_new = refl

pub slices-append_all :
    (t : ℕ) (es : Events)
    → slices (append_all windows t es) ≡ record {
      short = (slices es).short ++ t ∷ [];
      medium = (slices es).medium ++ t ∷ [];
      long = (slices es).long ++ t ∷ [];
    }
unfolding slices append_all Text-discrete
slices-append_all t es = simp window_events-insert

pub slices-frequency :
    (now : ℕ) (es : Events)
    → slices (frequency windows now es).0 ≡ record {
      short = prune_window (slices es).short now (1 * minute);
      medium = prune_window (slices es).medium now (5 * minute);
      long = prune_window (slices es).long now (15 * minute);
    }
unfolding slices frequency Text-discrete
slices-frequency now es = simp window_events-insert

abbrev pub window_report : Text → ℕ → List ℕ → PatternWindow
window_report name duration live = record {
  window = name;
  count = length live;
  rate = float_ratio (length live) (duration / second);
}

pub reports-frequency :
    (now : ℕ) (es : Events)
    → (frequency windows now es).1
      ≡ window_report (codes "1m") (1 * minute) (prune_window (slices es).short now (1 * minute))
        ∷ window_report (codes "5m") (5 * minute) (prune_window (slices es).medium now (5 * minute))
        ∷ window_report
            (codes "15m")
            (15 * minute)
            (prune_window (slices es).long now (15 * minute))
        ∷ []
unfolding slices frequency Text-discrete
reports-frequency now es = simp window_events-insert

pub slices_short :
    (ts : List ℕ) (es : Events)
    → slices (insert Text-discrete (codes "1m") ts es)
      ≡ record { short = ts; medium = (slices es).medium; long = (slices es).long }
unfolding slices Text-discrete
slices_short ts es = simp window_events-insert

-- `recurring` prunes a window only if the windows before it had live events.
abbrev pub recurring_slices : Slices → ℕ → Slices
recurring_slices s now =
    let a = prune_window s.short now (1 * minute) in
    let b = prune_window s.medium now (5 * minute) in
    let c = prune_window s.long now (15 * minute) in
    if length a == 0
    then record s { short = a }
    else if length b == 0
    then record s { short = a; medium = b }
    else record { short = a; medium = b; long = c }

abbrev pub recurring_answer : Slices → ℕ → Bool
recurring_answer s now =
    if length (prune_window s.short now (1 * minute)) == 0
    then false
    else if length (prune_window s.medium now (5 * minute)) == 0
    then false
    else if length (prune_window s.long now (15 * minute)) == 0
    then false
    else true

pub slices-recurring :
    (now : ℕ) (es : Events) → slices (recurring windows now es).0 ≡ recurring_slices (slices es) now
unfolding slices recurring Text-discrete
slices-recurring now es =
    elim (Bool-cases
      (length (prune_window (window_events (codes "1m") es) now (1 * minute)) == 0)) [
        | inl e ↦ simp (e, window_events-insert)
        | inr e ↦
            elim (Bool-cases
              (length (prune_window (window_events (codes "5m") es) now (5 * minute)) == 0)) [
                | inl f ↦ simp (e, f, window_events-insert)
                | inr f ↦
                    elim (Bool-cases (
                      length (prune_window (window_events (codes "15m") es) now (15 * minute))
                      == 0)) [
                        | inl g ↦ simp (e, f, g, window_events-insert)
                        | inr g ↦ simp (e, f, g, window_events-insert)
                      ]
              ]
      ]

pub answer-recurring :
    (now : ℕ) (es : Events) → (recurring windows now es).1 ≡ recurring_answer (slices es) now
unfolding slices recurring Text-discrete
answer-recurring now es =
    elim (Bool-cases
      (length (prune_window (window_events (codes "1m") es) now (1 * minute)) == 0)) [
        | inl e ↦ simp (e, window_events-insert)
        | inr e ↦
            elim (Bool-cases
              (length (prune_window (window_events (codes "5m") es) now (5 * minute)) == 0)) [
                | inl f ↦ simp (e, f, window_events-insert)
                | inr f ↦
                    elim (Bool-cases (
                      length (prune_window (window_events (codes "15m") es) now (15 * minute))
                      == 0)) [
                        | inl g ↦ simp (e, f, g, window_events-insert)
                        | inr g ↦ simp (e, f, g, window_events-insert)
                      ]
              ]
      ]
