-- ===== src/LogWatcher/Stream/Backoff.antt =====
-- internal/logwatcher/watcher.go: the delay before a stream is opened again.
use native.Mathlib.Nat.{pow-le-pow_right}
use kube_diagnose.Common.{
  ℕ, ◌-◌, ◌*◌, ◌^◌, ◌≤◌, ℤ, pos, negsuc, min, true, false, ltb, ◌≡◌, inl, inr, refl, ap, arith,
  Bool-cases,
}
use kube_diagnose.LogWatcher.Stream.{second, backoff_exact, backoff_max, backoff_duration}

-- From the first to the 34th attempt the delay is the documented one: a second doubled for each attempt
-- after the first, at most 30 seconds.
pub backoff_duration_documented :
    (out_of_range : ℕ → ℤ) (attempt : ℕ)
    → 1 ≤ attempt
    → attempt ≤ 34
    → backoff_duration out_of_range attempt ≡ pos (min (second * 2 ^ (attempt - 1)) (30 * second))
unfolding backoff_duration
backoff_duration_documented out attempt g h =
    rw (in_range, backoff_duration)
      (elim (Bool-cases (ltb backoff_max (backoff_exact attempt))) [
        | inl e ↦ rw e (ap pos (ground arith))
        | inr e ↦ rw e (ap pos (ground arith))
      ])
  where
    in_range : ltb (backoff_exact attempt) (2 ^ 63) ≡ true
    in_range =
        ground
          (arith, pow-le-pow_right {n = 2} (omega arith) {i = attempt - 1} {j = 33} (omega arith))

-- From the 35th attempt on, where the conversion of a float64 that is too large gives the least
-- int64 (as on amd64), the delay is that negative number.
pub backoff_duration_overflows :
    (out_of_range : ℕ → ℤ) (attempt : ℕ)
    → ((n : ℕ) → 2 ^ 63 ≤ n → out_of_range n ≡ negsuc (2 ^ 63 - 1))
    → 35 ≤ attempt
    → backoff_duration out_of_range attempt ≡ negsuc (2 ^ 63 - 1)
unfolding backoff_duration
backoff_duration_overflows out attempt least h =
    rw (too_large, least (backoff_exact attempt) large, backoff_duration) refl
  where
    large : 2 ^ 63 ≤ backoff_exact attempt
    large =
        omega
          (arith, pow-le-pow_right {n = 2} (omega arith) {i = 34} {j = attempt - 1} (omega arith))

    too_large : ltb (backoff_exact attempt) (2 ^ 63) ≡ false
    too_large = ground (arith, large)
