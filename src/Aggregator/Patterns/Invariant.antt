-- ===== src/Aggregator/Patterns/Invariant.antt =====
-- internal/aggregator/pattern_detector.go: what each call keeps true of one fingerprint's data.
use kube_diagnose.Common.{
  ℕ, ◌+◌, ◌*◌, ◌≤◌, ◌<◌, List, [], ◌∷◌, ◌++◌, Option, none, some, Text, codes, ◌≡◌, refl, subst,
  arith, ltb, ltb→lt, length, keep, if_pos, if_neg, lookup, insert, Text-discrete, Distinct,
  Bool-cases, inl, inr, ◌==◌,
}
use kube_diagnose.Aggregator.Patterns.{
  FingerprintData, windows, minute, stale_threshold, get_or_create, new_fingerprint_data,
  append_all, prune_window, frequency, recurring, evict,
}
use kube_diagnose.Aggregator.Patterns.Prune.{within}
use kube_diagnose.Aggregator.Patterns.Loops.{
  Slices, slices, slices_new, slices-append_all, slices-frequency, slices_short, slices-recurring,
  recurring_slices,
}
use kube_diagnose.Aggregator.Patterns.Tracks.{
  Tracks, Tracks-append, Tracks-prune, Tracks-later, Tracks-stale, Tracks-start,
}

-- The three slices stand for the history, each in its window.
pub record TracksAll (last c : ℕ) (H : List ℕ) (s : Slices) : Type 0 where
  pub short : Tracks last c (1 * minute) H s.short
  pub medium : Tracks last c (5 * minute) H s.medium
  pub long : Tracks last c (15 * minute) H s.long

abbrev pub Gone : ℕ → List ℕ → ℕ → Type 0
Gone c H duration = (now : ℕ) → c ≤ now → keep (within now duration) H ≡ []

-- A missing entry stands for a history that no window reaches any more.
abbrev pub Agrees : ℕ → List ℕ → Option FingerprintData → Type 0
Agrees c H none = Gone c H (1 * minute) × Gone c H (5 * minute) × Gone c H (15 * minute)
Agrees c H (some fd) = (fd.last_seen ≤ c) × TracksAll fd.last_seen c H (slices fd.events)

TracksAll-later :
    (last c c' : ℕ) (H : List ℕ) (s : Slices)
    → c ≤ c'
    → TracksAll last c H s
    → TracksAll last c' H s
TracksAll-later last c c' H s h k = record {
  short = Tracks-later last c (1 * minute) H s.short k.short c' h;
  medium = Tracks-later last c (5 * minute) H s.medium k.medium c' h;
  long = Tracks-later last c (15 * minute) H s.long k.long c' h;
}

pub Agrees-later :
    (c c' : ℕ) (H : List ℕ) (o : Option FingerprintData) → c ≤ c' → Agrees c H o → Agrees c' H o
Agrees-later c c' H none h (a, b, d) =
    (λ now le. a now (omega arith), λ now le. b now (omega arith), λ now le. d now (omega arith))
Agrees-later c c' H (some fd) h (l, k) = (omega arith, TracksAll-later _ c c' H _ h k)

TracksAll-append :
    (last c t : ℕ) (H : List ℕ) (s : Slices)
    → last ≤ c
    → c ≤ t
    → TracksAll last c H s
    → TracksAll t t
        (H ++ t ∷ [])
        (record { short = s.short ++ t ∷ []; medium = s.medium ++ t ∷ []; long = s.long ++ t ∷ [] })
TracksAll-append last c t H s l h k = record {
  short = Tracks-append last c (1 * minute) H s.short k.short t l h;
  medium = Tracks-append last c (5 * minute) H s.medium k.medium t l h;
  long = Tracks-append last c (15 * minute) H s.long k.long t l h;
}

pub Agrees-record :
    (c t : ℕ) (H : List ℕ) (o : Option FingerprintData)
    → c ≤ t
    → Agrees c H o
    → Agrees t
        (H ++ t ∷ [])
        (some (record { events = append_all windows t (get_or_create o).events; last_seen = t }))
unfolding get_or_create
Agrees-record c t H none h (a, b, d) = (
  omega arith,
  rw (slices-append_all t new_fingerprint_data.events, slices_new)
      (TracksAll-append 0 c t H (record { short = []; medium = []; long = [] }) (omega arith) h
        (record {
          short = Tracks-start c (1 * minute) H a;
          medium = Tracks-start c (5 * minute) H b;
          long = Tracks-start c (15 * minute) H d;
        })),
)
Agrees-record c t H (some fd) h (l, k) = (
  omega arith,
  rw (slices-append_all t fd.events) (TracksAll-append _ c t H (slices fd.events) l h k),
)

pub Agrees-frequency :
    (c now : ℕ) (H : List ℕ) (fd : FingerprintData)
    → c ≤ now
    → Agrees c H (some fd)
    → Agrees now H (some (record fd { events = (frequency windows now fd.events).0 }))
Agrees-frequency c now H fd h (l, k) = (
  omega arith,
  rw (slices-frequency now fd.events) (record {
    short = Tracks-prune _ c (1 * minute) H _ k.short now h;
    medium = Tracks-prune _ c (5 * minute) H _ k.medium now h;
    long = Tracks-prune _ c (15 * minute) H _ k.long now h;
  }),
)

pub Agrees-short :
    (c now : ℕ) (H : List ℕ) (fd : FingerprintData)
    → c ≤ now
    → Agrees c H (some fd)
    → Agrees now H (
        some (record fd {
          events =
              insert Text-discrete
                (codes "1m")
                (prune_window (slices fd.events).short now (1 * minute))
                fd.events;
        }))
Agrees-short c now H fd h (l, k) = (
  omega arith,
  rw (slices_short (prune_window (slices fd.events).short now (1 * minute)) fd.events) (record {
    short = Tracks-prune _ c (1 * minute) H _ k.short now h;
    medium = Tracks-later _ c (5 * minute) H _ k.medium now h;
    long = Tracks-later _ c (15 * minute) H _ k.long now h;
  }),
)

TracksAll-recurring :
    (last c now : ℕ) (H : List ℕ) (s : Slices)
    → c ≤ now
    → TracksAll last c H s
    → TracksAll last now H (recurring_slices s now)
TracksAll-recurring last c now H s h k =
    let a = Tracks-prune last c (1 * minute) H s.short k.short now h in
    let b = Tracks-prune last c (5 * minute) H s.medium k.medium now h in
    let d = Tracks-prune last c (15 * minute) H s.long k.long now h in
    let b' = Tracks-later last c (5 * minute) H s.medium k.medium now h in
    let d' = Tracks-later last c (15 * minute) H s.long k.long now h in
    elim (Bool-cases (length (prune_window s.short now (1 * minute)) == 0)) [
      | inl e ↦ rw e (record { short = a; medium = b'; long = d' })
      | inr e ↦ elim (Bool-cases (length (prune_window s.medium now (5 * minute)) == 0)) [
        | inl f ↦ rw (e, f) (record { short = a; medium = b; long = d' })
        | inr f ↦ rw (e, f) (record { short = a; medium = b; long = d })
      ]
    ]

pub Agrees-recurring :
    (c now : ℕ) (H : List ℕ) (fd : FingerprintData)
    → c ≤ now
    → Agrees c H (some fd)
    → Agrees now H (some (record fd { events = (recurring windows now fd.events).0 }))
Agrees-recurring c now H fd h (l, k) =
    (omega arith, rw (slices-recurring now fd.events) (TracksAll-recurring _ c now H _ h k))

-- An evicted entry had no event left in any window.
pub Agrees-stale :
    (c now : ℕ) (H : List ℕ) (fd : FingerprintData)
    → c ≤ now
    → fd.last_seen + stale_threshold < now
    → Agrees c H (some fd)
    → Agrees now H none
Agrees-stale c now H fd h old (l, k) = (
  λ later le. Tracks-stale _ c (1 * minute) H _ k.short later (omega arith) (omega arith),
  λ later le. Tracks-stale _ c (5 * minute) H _ k.medium later (omega arith) (omega arith),
  λ later le. Tracks-stale _ c (15 * minute) H _ k.long later (omega arith) (omega arith),
)

evict_absent :
    (now : ℕ) (fp : Text) (m : List (Text × FingerprintData))
    → lookup Text-discrete fp m ≡ none
    → lookup Text-discrete fp (evict now m) ≡ none
unfolding lookup evict
evict_absent now fp [] h = refl
evict_absent now fp ((g, fd) ∷ m) h = ground (arith, evict_absent now fp m)

pub evict-Distinct :
    (now : ℕ) (m : List (Text × FingerprintData))
    → Distinct Text-discrete m
    → Distinct Text-discrete (evict now m)
unfolding evict
evict-Distinct now [] d = tt
evict-Distinct now ((g, fd) ∷ m) d =
    ground (arith, evict-Distinct now m d.1, evict_absent now g m d.0)

pub Agrees-evict :
    (c now : ℕ) (H : List ℕ) (fp : Text) (m : List (Text × FingerprintData))
    → c ≤ now
    → Distinct Text-discrete m
    → Agrees c H (lookup Text-discrete fp m)
    → Agrees now H (lookup Text-discrete fp (evict now m))
unfolding lookup evict
Agrees-evict c now H fp [] h d a = Agrees-later c now H none h a
Agrees-evict c now H fp ((g, fd) ∷ m) h d a = elim (Text-discrete g fp) [
  | yes e ↦
      let here : Agrees c H (some fd) = subst (Agrees c H) (if_pos (Text-discrete g fp) e _ _) a in
      elim (Bool-cases (ltb (fd.last_seen + stale_threshold) now)) [
        | inl old ↦
            rw (old, evict_absent now fp m (rw (← e) d.0))
              (Agrees-stale c now H fd h (ltb→lt _ _ old) here)
        | inr young ↦ rw (young, if_pos _ e) (Agrees-later c now H (some fd) h here)
      ]
  | no n ↦
      let rest : Agrees now H (lookup Text-discrete fp (evict now m)) =
        Agrees-evict c now H fp m h d.1
          (subst (Agrees c H) (if_neg (Text-discrete g fp) n _ _) a) in
      elim (Bool-cases (ltb (fd.last_seen + stale_threshold) now)) [
        | inl old ↦ rw old rest
        | inr young ↦ rw (young, if_neg _ n) rest
      ]
]
