-- ===== src/Aggregator/Patterns/Prune.antt =====
-- internal/aggregator/pattern_detector.go: the binary search of pruneWindow.
use kube_diagnose.Common.{
  ℕ, zero, suc, ◌+◌, ◌/◌, ◌≤◌, ◌<◌, List, [], ◌∷◌, Bool, not, ◌≡◌, refl, arith, ltb, length, get_or,
  drop, keep, All, Bool-cases, inl, inr, ltb→lt,
}
use kube_diagnose.Aggregator.Patterns.{first_live, prune_window}

-- Timestamps from the oldest to the newest.
abbrev pub Ascending : List ℕ → Type 0
Ascending [] = Unit {0}
Ascending (x ∷ xs) = All (λ y. x ≤ y) xs × Ascending xs

-- An event that lies inside the window of the given length before `now`.
abbrev pub within : ℕ → ℕ → ℕ → Bool
within now duration t = not (ltb (t + duration) now)

All-get_or : (x : ℕ) (xs : List ℕ) (j : ℕ) → All (λ y. x ≤ y) xs → j < length xs → x ≤ get_or xs j 0
All-get_or x [] j h lt = absurd (omega arith)
All-get_or x (y ∷ xs) zero h lt = h.0
All-get_or x (y ∷ xs) (suc j) h lt = All-get_or x xs j h.1 (omega arith)

get_or_mono :
    (xs : List ℕ) (i j : ℕ) → Ascending xs → i ≤ j → j < length xs → get_or xs i 0 ≤ get_or xs j 0
get_or_mono [] i j a le lt = absurd (omega arith)
get_or_mono (x ∷ xs) zero zero a le lt = omega arith
get_or_mono (x ∷ xs) zero (suc j) a le lt = All-get_or x xs j a.0 (omega arith)
get_or_mono (x ∷ xs) (suc i) zero a le lt = absurd (omega arith)
get_or_mono (x ∷ xs) (suc i) (suc j) a le lt = get_or_mono xs i j a.1 (omega arith) (omega arith)

-- `r` is where the live events begin.
pub record Split (xs : List ℕ) (now duration lo hi : ℕ) : Type 0 where
  pub fits : hi ≤ length xs
  pub ordered : lo ≤ hi
  pub stale : (i : ℕ) → i < lo → get_or xs i 0 + duration < now
  pub live : (i : ℕ) → hi ≤ i → i < length xs → now ≤ get_or xs i 0 + duration

module _ (xs : List ℕ) (now duration : ℕ) (sorted : Ascending xs) where
  step_right :
      (lo hi : ℕ)
      → Split xs now duration lo hi
      → lo < hi
      → get_or xs ((lo + hi) / 2) 0 + duration < now
      → Split xs now duration ((lo + hi) / 2 + 1) hi
  step_right lo hi s lt h = record {
    fits = s.fits;
    ordered = omega arith;
    stale = λ i le.
        omega
          (arith, get_or_mono xs i ((lo + hi) / 2) sorted (omega arith) (omega (arith, s.fits)));
    live = s.live;
  }

  step_left :
      (lo hi : ℕ)
      → Split xs now duration lo hi
      → lo < hi
      → now ≤ get_or xs ((lo + hi) / 2) 0 + duration
      → Split xs now duration lo ((lo + hi) / 2)
  step_left lo hi s lt h = record {
    fits = omega (arith, s.fits);
    ordered = omega arith;
    stale = s.stale;
    live = λ i le bound. omega (arith, get_or_mono xs ((lo + hi) / 2) i sorted le bound);
  }

  first_live-Split :
      (fuel lo hi : ℕ)
      → Split xs now duration lo hi
      → hi ≤ lo + fuel
      → let r = first_live fuel xs now duration lo hi in Split xs now duration r r
  unfolding first_live
  first_live-Split zero lo hi s b = record {
    fits = omega (arith, s.fits, s.ordered);
    ordered = omega arith;
    stale = s.stale;
    live = λ i le. s.live i (omega (arith, s.ordered));
  }
  first_live-Split (suc fuel) lo hi s b = elim (Bool-cases (ltb lo hi)) [
    | inr stop ↦ rw stop (record {
      fits = omega (arith, s.fits, s.ordered);
      ordered = omega arith;
      stale = s.stale;
      live = λ i le. s.live i (ground (arith, s.ordered));
    })
    | inl go ↦ elim (Bool-cases (ltb (get_or xs ((lo + hi) / 2) 0 + duration) now)) [
      | inl old ↦
          rw (go, old)
            (first_live-Split fuel ((lo + hi) / 2 + 1) hi
              (step_right lo hi s (ltb→lt _ _ go) (ltb→lt _ _ old)) (omega arith))
      | inr young ↦
          rw (go, young)
            (first_live-Split fuel lo ((lo + hi) / 2)
              (step_left lo hi s (ltb→lt _ _ go) (ground arith)) (omega (arith, ltb→lt lo hi go)))
    ]
  ]

keep-drop :
    (xs : List ℕ) (now duration r : ℕ)
    → Split xs now duration r r
    → keep (within now duration) xs ≡ drop r xs
keep-drop [] now duration zero s = refl
keep-drop [] now duration (suc r) s = refl
keep-drop (x ∷ xs) now duration zero s = ground (
  arith,
  s.live 0,
  keep-drop xs now duration zero (record {
    fits = omega arith;
    ordered = omega arith;
    stale = λ i h. absurd (omega arith);
    live = λ i _ h. s.live (suc i) (omega arith) (omega arith);
  }),
)
keep-drop (x ∷ xs) now duration (suc r) s = ground (
  arith,
  s.stale 0,
  keep-drop xs now duration r (record {
    fits = omega (arith, s.fits);
    ordered = omega arith;
    stale = λ i h. s.stale (suc i) (omega arith);
    live = λ i le h. s.live (suc i) (omega arith) (omega arith);
  }),
)

drop_all : (xs : List ℕ) → drop (length xs) xs ≡ []
drop_all [] = refl
drop_all (x ∷ xs) = drop_all xs

-- On a slice in ascending order, pruneWindow keeps exactly the events that are not older than the
-- window, in their order.
pub prune_window-keep :
    (xs : List ℕ) (now duration : ℕ)
    → Ascending xs
    → prune_window xs now duration ≡ keep (within now duration) xs
unfolding prune_window
prune_window-keep xs now duration sorted = ground (
  arith,
  keep-drop xs now duration (first_live (length xs) xs now duration 0 (length xs)) (
      first_live-Split xs now duration sorted (length xs) 0 (length xs)
        (record {
          fits = omega arith;
          ordered = omega arith;
          stale = λ i h. absurd (omega arith);
          live = λ i le h. absurd (omega arith);
        })
        (omega arith)),
  drop_all xs,
)
