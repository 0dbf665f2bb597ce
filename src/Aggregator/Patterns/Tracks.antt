-- ===== src/Aggregator/Patterns/Tracks.antt =====
-- internal/aggregator/pattern_detector.go: a slice of timestamps against the whole history.
use kube_diagnose.Common.{
  ℕ, ◌+◌, ◌≤◌, ◌<◌, List, [], ◌∷◌, ◌++◌, Bool, ◌≡◌, refl, sym, ◌∙◌, arith, keep, keep-append, All,
  All-append,
}
use kube_diagnose.Aggregator.Patterns.{prune_window}
use kube_diagnose.Aggregator.Patterns.Prune.{Ascending, within, prune_window-keep}

All-le : (m n : ℕ) (xs : List ℕ) → m ≤ n → All (λ t. t ≤ m) xs → All (λ t. t ≤ n) xs
All-le m n [] h a = tt
All-le m n (x ∷ xs) h a = (omega (arith, a.0), All-le m n xs h a.1)

All-keep : (P : ℕ → Type 0) (p : ℕ → Bool) (xs : List ℕ) → All P xs → All P (keep p xs)
All-keep P p [] a = tt
All-keep P p (x ∷ xs) a = ground (arith, All-keep P p xs a.1)

Ascending-snoc :
    (xs : List ℕ) (t : ℕ) → Ascending xs → All (λ x. x ≤ t) xs → Ascending (xs ++ t ∷ [])
Ascending-snoc [] t a h = (tt, tt)
Ascending-snoc (x ∷ xs) t a h =
    (All-append (λ y. x ≤ y) xs (t ∷ []) a.0 (h.0, tt), Ascending-snoc xs t a.1 h.1)

Ascending-keep : (p : ℕ → Bool) (xs : List ℕ) → Ascending xs → Ascending (keep p xs)
Ascending-keep p [] a = tt
Ascending-keep p (x ∷ xs) a =
    ground (arith, Ascending-keep p xs a.1, All-keep (λ y. x ≤ y) p xs a.0)

-- What has left the window does not come back.
keep-keep :
    (now later duration : ℕ) (xs : List ℕ)
    → now ≤ later
    → keep (within later duration) (keep (within now duration) xs) ≡ keep (within later duration) xs
keep-keep now later duration [] h = refl
keep-keep now later duration (x ∷ xs) h = ground (arith, keep-keep now later duration xs h)

keep_stale :
    (last now duration : ℕ) (xs : List ℕ)
    → All (λ t. t ≤ last) xs
    → last + duration < now
    → keep (within now duration) xs ≡ []
keep_stale last now duration [] a h = refl
keep_stale last now duration (x ∷ xs) a h = ground (arith, keep_stale last now duration xs a.1 h)

-- The slice `xs` of one window stands for the history `H`: from the clock `c` on, both hold the
-- same live events.
pub record Tracks (last c duration : ℕ) (H xs : List ℕ) : Type 0 where
  pub sorted : Ascending xs
  pub recent : All (λ t. t ≤ last) xs
  pub same : (now : ℕ) → c ≤ now → keep (within now duration) xs ≡ keep (within now duration) H

module _ (last c duration : ℕ) (H xs : List ℕ) (k : Tracks last c duration H xs) where
  pub Tracks-append : (t : ℕ) → last ≤ c → c ≤ t → Tracks t t duration (H ++ t ∷ []) (xs ++ t ∷ [])
  Tracks-append t l h = record {
    sorted = Ascending-snoc xs t k.sorted (All-le last t xs (omega arith) k.recent);
    recent =
        All-append (λ x. x ≤ t) xs (t ∷ []) (All-le last t xs (omega arith) k.recent)
          (omega arith, tt);
    same = λ now le.
        rw
          (
            keep-append (within now duration) xs (t ∷ []),
            keep-append (within now duration) H (t ∷ []),
          )
          (rw (k.same now (omega arith)));
  }

  -- What pruneWindow returns is the live part of the whole history.
  pub prune_window-Tracks :
      (now : ℕ) → c ≤ now → prune_window xs now duration ≡ keep (within now duration) H
  prune_window-Tracks now h = prune_window-keep xs now duration k.sorted ∙ k.same now h

  pub Tracks-prune : (now : ℕ) → c ≤ now → Tracks last now duration H (prune_window xs now duration)
  Tracks-prune now h = rw (prune_window-keep xs now duration k.sorted) (record {
    sorted = Ascending-keep (within now duration) xs k.sorted;
    recent = All-keep (λ t. t ≤ last) (within now duration) xs k.recent;
    same = λ later le. keep-keep now later duration xs le ∙ k.same later (omega arith);
  })

  pub Tracks-later : (c' : ℕ) → c ≤ c' → Tracks last c' duration H xs
  Tracks-later c' h = record {
    sorted = k.sorted;
    recent = k.recent;
    same = λ now le. k.same now (omega arith);
  }

  pub Tracks-stale : (now : ℕ) → c ≤ now → last + duration < now → keep (within now duration) H ≡ []
  Tracks-stale now h old = sym (k.same now h) ∙ keep_stale last now duration xs k.recent old

pub Tracks-start :
    (c duration : ℕ) (H : List ℕ)
    → ((now : ℕ) → c ≤ now → keep (within now duration) H ≡ [])
    → Tracks 0 c duration H []
Tracks-start c duration H h = record { sorted = tt; recent = tt; same = λ now le. sym (h now le) }
