-- ===== src/Aggregator/Patterns/Refinement.antt =====
-- internal/aggregator/pattern_detector.go: the detector against the plain history of its calls.
use kube_diagnose.Common.{
  ℕ, ◌≤◌, List, [], ◌∷◌, ◌++◌, some, Text, ◌≡◌, ◌≢◌, refl, sym, subst, ite, if_pos, if_neg, lookup,
  insert, Text-discrete, lookup-insert, Distinct, insert-Distinct, Option-cases, inl, inr,
  append-nil, append_assoc,
}
use kube_diagnose.Aggregator.Patterns.{
  PatternDetector, FingerprintData, new_pattern_detector, record_event, get_frequency, is_bursting,
  is_recurring, cleanup,
}
use kube_diagnose.Aggregator.Patterns.Loops.{slices}
use kube_diagnose.Aggregator.Patterns.Invariant.{
  Agrees, Agrees-later, Agrees-record, Agrees-frequency, Agrees-short, Agrees-recurring,
  Agrees-evict, evict-Distinct,
}

-- A call of the detector, with the clock that it reads.
pub data Op : Type 0 where
  records : Text → ℕ → Op
  reads_frequency : Text → ℕ → Op
  asks_bursting : Text → ℕ → ℕ → Op
  asks_recurring : Text → ℕ → Op
  cleans : ℕ → Op

abbrev pub clock : Op → ℕ
clock (records fp t) = t
clock (reads_frequency fp now) = now
clock (asks_bursting fp threshold now) = now
clock (asks_recurring fp now) = now
clock (cleans now) = now

unfoldable pub step : PatternDetector → Op → PatternDetector
step d (records fp t) = record_event d fp t
step d (reads_frequency fp now) = (get_frequency d fp now).0
step d (asks_bursting fp threshold now) = (is_bursting d fp threshold now).0
step d (asks_recurring fp now) = (is_recurring d fp now).0
step d (cleans now) = cleanup d now

unfoldable pub run : PatternDetector → List Op → PatternDetector
unfolding step
run d [] = d
run d (op ∷ ops) = run (step d op) ops

-- The clock never goes back over the calls, and `now` is not before the last.
abbrev pub Timeline : ℕ → List Op → ℕ → Type 0
Timeline c [] now = c ≤ now
Timeline c (op ∷ ops) now = (c ≤ clock op) × Timeline (clock op) ops now

abbrev pub recorded : Text → Op → List ℕ
recorded fp (records g t) = ite (Text-discrete g fp) (t ∷ []) []
recorded fp _ = []

-- The specification: every timestamp that was recorded for the fingerprint.
abbrev pub times : Text → List Op → List ℕ
times fp [] = []
times fp (op ∷ ops) = recorded fp op ++ times fp ops

record Good (fp : Text) (c : ℕ) (H : List ℕ) (d : PatternDetector) : Type 0 where
  distinct : Distinct Text-discrete d.entries
  agrees : Agrees c H (lookup Text-discrete fp d.entries)

-- A call about the fingerprint `g` writes back one entry.
put-Good :
    (fp g : Text) (c now : ℕ) (H H' : List ℕ) (d : PatternDetector) (fd : FingerprintData)
    → c ≤ now
    → Good fp c H d
    → (g ≡ fp → Agrees now H' (some fd))
    → (g ≢ fp → H' ≡ H)
    → Good fp now H' (record d { entries = insert Text-discrete g fd d.entries })
put-Good fp g c now H H' d fd h k hit miss = record {
  distinct = insert-Distinct Text-discrete g fd d.entries k.distinct;
  agrees = rw (lookup-insert Text-discrete g fp fd d.entries) (elim (Text-discrete g fp) [
    | yes e ↦ rw (if_pos _ e) (hit e)
    | no n ↦ rw (if_neg _ n, miss n) (Agrees-later c now H _ h k.agrees)
  ]);
}

Good-later :
    (fp : Text) (c now : ℕ) (H : List ℕ) (d : PatternDetector)
    → c ≤ now
    → Good fp c H d
    → Good fp now H d
Good-later fp c now H d h k = record {
  distinct = k.distinct;
  agrees = Agrees-later c now H _ h k.agrees;
}

-- A call that prunes the entry of `g`, if there is one.
module _ (fp g : Text) (c now : ℕ) (H : List ℕ) (d : PatternDetector) (h : c ≤ now)
    (k : Good fp c H d) where
  at_entry :
      (fd : FingerprintData)
      → lookup Text-discrete g d.entries ≡ some fd
      → g ≡ fp
      → Agrees c H (some fd)
  at_entry fd e same =
      subst (Agrees c H) e
        (subst (λ x. Agrees c H (lookup Text-discrete x d.entries)) (sym same) k.agrees)

  frequency-Good : Good fp now H (get_frequency d g now).0
  unfolding get_frequency
  frequency-Good = elim (Option-cases (lookup Text-discrete g d.entries)) [
    | inl e ↦ rw (e, get_frequency) (Good-later fp c now H d h k)
    | inr (fd, e) ↦
        rw (e, get_frequency)
          (put-Good fp g c now H H d _ h k
            (λ same. Agrees-frequency c now H fd h (at_entry fd e same)) (λ _. refl))
  ]

  bursting-Good : (threshold : ℕ) → Good fp now H (is_bursting d g threshold now).0
  unfolding is_bursting slices
  bursting-Good threshold = elim (Option-cases (lookup Text-discrete g d.entries)) [
    | inl e ↦ rw (e, is_bursting) (Good-later fp c now H d h k)
    | inr (fd, e) ↦
        rw (e, is_bursting)
          (put-Good fp g c now H H d _ h k (λ same. Agrees-short c now H fd h (at_entry fd e same))
            (λ _. refl))
  ]

  recurring-Good : Good fp now H (is_recurring d g now).0
  unfolding is_recurring
  recurring-Good = elim (Option-cases (lookup Text-discrete g d.entries)) [
    | inl e ↦ rw (e, is_recurring) (Good-later fp c now H d h k)
    | inr (fd, e) ↦
        rw (e, is_recurring)
          (put-Good fp g c now H H d _ h k
            (λ same. Agrees-recurring c now H fd h (at_entry fd e same)) (λ _. refl))
  ]

record-Good :
    (fp g : Text) (c t : ℕ) (H : List ℕ) (d : PatternDetector)
    → c ≤ t
    → Good fp c H d
    → Good fp t (H ++ recorded fp (records g t)) (record_event d g t)
unfolding record_event
record-Good fp g c t H d h k =
    put-Good fp g c t H _ d _ h k
      (λ same. rw (if_pos _ same) (
        Agrees-record c t H _ h
          (subst (λ x. Agrees c H (lookup Text-discrete x d.entries)) (sym same) k.agrees)))
      (λ n. rw (if_neg _ n) (append-nil H))

step-Good :
    (fp : Text) (c : ℕ) (H : List ℕ) (d : PatternDetector) (op : Op)
    → c ≤ clock op
    → Good fp c H d
    → Good fp (clock op) (H ++ recorded fp op) (step d op)
unfolding step cleanup
step-Good fp c H d (records g t) h k = record-Good fp g c t H d h k
step-Good fp c H d (reads_frequency g now) h k = rw append-nil (frequency-Good fp g c now H d h k)
step-Good fp c H d (asks_bursting g threshold now) h k =
    rw append-nil (bursting-Good fp g c now H d h k threshold)
step-Good fp c H d (asks_recurring g now) h k = rw append-nil (recurring-Good fp g c now H d h k)
step-Good fp c H d (cleans now) h k = rw append-nil (record {
  distinct = evict-Distinct now d.entries k.distinct;
  agrees = Agrees-evict c now H fp d.entries h k.distinct k.agrees;
})

run-Good :
    (fp : Text) (c : ℕ) (H : List ℕ) (d : PatternDetector) (ops : List Op) (now : ℕ)
    → Timeline c ops now
    → Good fp c H d
    → Good fp now (H ++ times fp ops) (run d ops)
unfolding run
run-Good fp c H d [] now h k = rw append-nil (Good-later fp c now H d h k)
run-Good fp c H d (op ∷ ops) now (h, rest) k = rw (← append_assoc) (
    run-Good fp (clock op) (H ++ recorded fp op) (step d op) ops now rest
      (step-Good fp c H d op h k))

start-Good : (fp : Text) → Good fp 0 [] new_pattern_detector
unfolding lookup
start-Good fp = record {
  distinct = tt;
  agrees = ((λ now h. refl), (λ now h. refl), (λ now h. refl));
}

-- Whatever calls were made, the entry of a fingerprint stands for all its recorded events.
pub run-Agrees :
    (fp : Text) (ops : List Op) (now : ℕ)
    → Timeline 0 ops now
    → Agrees now (times fp ops) (lookup Text-discrete fp (run new_pattern_detector ops).entries)
run-Agrees fp ops now h = (run-Good fp 0 [] new_pattern_detector ops now h (start-Good fp)).agrees
