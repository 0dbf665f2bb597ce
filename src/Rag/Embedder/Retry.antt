-- ===== src/Rag/Embedder/Retry.antt =====
-- internal/rag/embedder.go: how often withRetry calls, and how long it waits.
use kube_diagnose.Common.{
  ℕ, zero, suc, ◌+◌, ◌-◌, ◌*◌, ◌≤◌, ◌<◌, List, [], ◌∷◌, Option, none, some, true, false, Text, ◌≡◌,
  ◌≢◌, refl, arith, ◌⊎◌, inl, inr, Option-cases, Bool-cases, ◌==◌,
}
use kube_diagnose.Rag.Embedder.{
  max_retries, millisecond, retry_base_delay, RetryOutcome, succeeded, cancelled_before,
  cancelled_in_backoff, all_failed, Retried, after_delay, Attempts, retry_from, with_retry,
}

abbrev pub total : List ℕ → ℕ
total [] = 0
total (d ∷ ds) = d + total ds

-- What an outcome says of the calls: the last one succeeded, or the third one failed.
abbrev pub Says : Attempts → RetryOutcome → ℕ → Type 0
Says a succeeded n = (1 ≤ n) × (a.call n ≡ none)
Says a (all_failed e) n = (n ≡ 3) × (a.call 3 ≡ some e)
Says a (cancelled_before k e) n = (n + 1 ≡ k) × (a.context_before k ≡ some e)
Says a (cancelled_in_backoff e) n = (1 ≤ n) × ((a.call n ≢ none) × (a.context_after n ≡ some e))

pub record Right (a : Attempts) (attempt budget : ℕ) (r : Retried) : Type 0 where
  pub few_calls : r.calls ≤ 3
  pub short_wait : total r.delays ≤ budget
  pub failed_before : (k : ℕ) → attempt ≤ k → k < r.calls → a.call k ≢ none
  pub live_before : (k : ℕ) → attempt ≤ k → k ≤ r.calls → a.context_before k ≡ none
  pub live_after : (k : ℕ) → attempt ≤ k → k < r.calls → a.context_after k ≡ none
  pub says : Says a r.outcome r.calls

-- The delays that can follow, each twice the one before.
abbrev backoff : ℕ → ℕ → ℕ
backoff zero delay = 0
backoff (suc n) delay = delay + backoff n (delay * 2)

failed_call : {o : Option Text} {e : Text} → o ≡ some e → o ≢ none
failed_call h n = ground arith

-- A failed call and a delay before the rest.
Right-later :
    (a : Attempts) (attempt delay budget : ℕ) (r : Retried)
    → a.context_before attempt ≡ none
    → a.call attempt ≢ none
    → a.context_after attempt ≡ none
    → Right a (attempt + 1) budget r
    → Right a attempt (delay + budget) (after_delay delay r)
Right-later a attempt delay budget r live failed waited w = record {
  few_calls = w.few_calls;
  short_wait = omega (arith, w.short_wait);
  failed_before = λ k low high. elim (Bool-cases (k == attempt)) [
    | inl e ↦ let is_attempt : k ≡ attempt = ground arith in rw is_attempt failed
    | inr e ↦ w.failed_before k (ground arith) high
  ];
  live_before = λ k low high. elim (Bool-cases (k == attempt)) [
    | inl e ↦ let is_attempt : k ≡ attempt = ground arith in rw is_attempt live
    | inr e ↦ w.live_before k (ground arith) high
  ];
  live_after = λ k low high. elim (Bool-cases (k == attempt)) [
    | inl e ↦ let is_attempt : k ≡ attempt = ground arith in rw is_attempt waited
    | inr e ↦ w.live_after k (ground arith) high
  ];
  says = w.says;
}

ended :
    (a : Attempts) (attempt budget calls : ℕ) (o : RetryOutcome)
    → calls ≤ attempt
    → calls ≤ 3
    → (calls < attempt) ⊎ (a.context_before attempt ≡ none)
    → Says a o calls
    → Right a attempt budget (record { outcome = o; calls = calls; delays = [] })
ended a attempt budget calls o low few live says = record {
  few_calls = few;
  short_wait = omega arith;
  failed_before = λ k l h. absurd (omega arith);
  live_before = λ k l h. elim live [
    | inl before ↦ absurd (omega arith)
    | inr e ↦ let is_attempt : k ≡ attempt = omega arith in rw is_attempt e
  ];
  live_after = λ k l h. absurd (omega arith);
  says = says;
}

-- What an attempt decides alone; the rest is for a failed call in a live context.
attempt-Right :
    (a : Attempts) (n attempt delay : ℕ) (last_error : Text)
    → attempt ≤ 3
    → 1 ≤ attempt
    → ((e : Text)
        → a.context_before attempt ≡ none
        → a.call attempt ≡ some e
        → Right a attempt (backoff n delay) (retry_from a (suc n) attempt delay last_error))
    → Right a attempt (backoff n delay) (retry_from a (suc n) attempt delay last_error)
unfolding retry_from
attempt-Right a n attempt delay last_error h p rest =
    elim (Option-cases (a.context_before attempt)) [
      | inr (e, cut) ↦
          rw (cut, retry_from)
            (ended a attempt (backoff n delay) (attempt - 1) (cancelled_before attempt e)
              (omega arith) (omega arith) (inl (omega arith)) (omega arith, cut))
      | inl live ↦ elim (Option-cases (a.call attempt)) [
        | inl ok ↦
            rw (live, ok, retry_from)
              (ended a attempt (backoff n delay) attempt succeeded (omega arith) h (inr live)
                (p, ok))
        | inr (e, failed) ↦ rest e live failed
      ]
    ]

retry_from-Right :
    (a : Attempts) (n attempt delay : ℕ) (last_error : Text)
    → attempt + n ≡ 3
    → 1 ≤ attempt
    → Right a attempt (backoff n delay) (retry_from a (suc n) attempt delay last_error)
unfolding retry_from
retry_from-Right a zero attempt delay last_error h p =
    attempt-Right a 0 attempt delay last_error (omega arith) p (λ e live failed.
      let third : attempt ≡ 3 = omega arith in
      let last : (attempt == max_retries) ≡ true = ground arith in
      rw (live, failed, last, retry_from)
        (ended a attempt 0 attempt (all_failed e) (omega arith) (omega arith) (inr live)
          (third, rw third at failed)))
retry_from-Right a (suc n) attempt delay last_error h p =
    attempt-Right a (suc n) attempt delay last_error (omega arith) p (λ e live failed.
      let early : (attempt == max_retries) ≡ false = ground arith in
      elim (Option-cases (a.context_after attempt)) [
        | inr (c, cut) ↦
            rw (live, failed, early, cut, retry_from)
              (ended a attempt (backoff (suc n) delay) attempt (cancelled_in_backoff c)
                (omega arith) (omega arith) (inr live) (p, (failed_call failed, cut)))
        | inl waited ↦
            rw (live, failed, early, waited, retry_from)
              (Right-later a attempt delay (backoff n (delay * 2)) _ live (failed_call failed)
                waited
                (retry_from-Right a n (attempt + 1) (delay * 2) e (omega arith) (omega arith)))
      ])

-- Three calls at most and a second and a half of waiting: a success is that of the last call, every
-- call before the last one failed, only the third failure gives the call up, and a context that is
-- cancelled before an attempt or in the backoff after one ends the loop there: no call follows it.
pub with_retry-Right : (a : Attempts) → Right a 1 (1500 * millisecond) (with_retry a)
unfolding with_retry
with_retry-Right a = retry_from-Right a 2 1 retry_base_delay [] refl (omega arith)
