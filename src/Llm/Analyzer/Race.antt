-- ===== src/Llm/Analyzer/Race.antt =====
-- internal/llm/analyzer.go: analyses that run at the same time. The gate and the count after a
-- success are two locked sections, and the provider's call between them holds no lock.
use kube_diagnose.Common.{ℕ, zero, suc, ◌+◌, ◌≤◌, ◌<◌, true, false, ◌≡◌, refl, subst, arith}
use kube_diagnose.Llm.Analyzer.{Analyzer, reset_hour, at_limit, count_call}

-- `passed` analyses have passed the gate and wait for their provider.
pub record Shared : Type 0 where
  pub analyzer : Analyzer
  pub passed : ℕ

abbrev pub shared : Analyzer → ℕ → Shared
shared a n = record { analyzer = a; passed = n }

-- At most `workers` analyses are on their way at a time.
pub data Step (workers : ℕ) : Shared → Shared → Type 0 where
  pass :
      (a : Analyzer) (n now : ℕ)
      → n < workers
      → at_limit (reset_hour a now) ≡ false
      → Step workers (shared a n) (shared (reset_hour a now) (suc n))
  refuse :
      (a : Analyzer) (n now : ℕ)
      → at_limit (reset_hour a now) ≡ true
      → Step workers (shared a n) (shared (reset_hour a now) n)
  succeed : (a : Analyzer) (n : ℕ) → Step workers (shared a (suc n)) (shared (count_call a) n)
  fail : (a : Analyzer) (n : ℕ) → Step workers (shared a (suc n)) (shared a n)

pub data Reach (workers : ℕ) (s : Shared) : Shared → Type 0 where
  here : Reach workers s s
  next : {t u : Shared} → Reach workers s t → Step workers t u → Reach workers s u

abbrev Bounded : ℕ → ℕ → Shared → Type 0
Bounded workers max s =
    (s.analyzer.max_calls_per_hour ≡ max)
    × (s.analyzer.calls_this_hour + s.passed + 1 ≤ max + workers)
    × (s.passed ≤ workers)

Step-Bounded :
    {workers : ℕ} {s t : Shared} (max : ℕ)
    → 0 < max
    → Step workers s t
    → Bounded workers max s
    → Bounded workers max t
unfolding reset_hour count_call
Step-Bounded max h (pass a n now fits free) b = ground arith
Step-Bounded max h (refuse a n now full) b = ground arith
Step-Bounded max h (succeed a n) b = omega arith
Step-Bounded max h (fail a n) b = omega arith

-- With at most `workers` analyses on their way at a time, one or more, the count of the hour
-- exceeds the limit by fewer than the workers, whatever the order of their steps.
pub Reach-bounded :
    {workers : ℕ} {s t : Shared} (max : ℕ)
    → 0 < max
    → Reach workers s t
    → (s.analyzer.max_calls_per_hour ≡ max)
      × (s.analyzer.calls_this_hour + s.passed + 1 ≤ max + workers)
      × (s.passed ≤ workers)
    → t.analyzer.calls_this_hour + t.passed + 1 ≤ max + workers
Reach-bounded max h r b = (go r b).1
  where
    go :
        {workers : ℕ} {s t : Shared}
        → Reach workers s t
        → Bounded workers max s
        → Bounded workers max t
    go here b = b
    go (next r st) b = Step-Bounded max h st (go r b)

reset_hour_idem : (a : Analyzer) (now : ℕ) → reset_hour (reset_hour a now) now ≡ reset_hour a now
unfolding reset_hour
reset_hour_idem a now = ground arith

count_calls : ℕ → Analyzer → Analyzer
count_calls zero a = a
count_calls (suc n) a = count_calls n (count_call a)

counts :
    (n : ℕ) (a : Analyzer)
    → ((count_calls n a).calls_this_hour ≡ a.calls_this_hour + n)
      × ((count_calls n a).hour_reset_at ≡ a.hour_reset_at)
unfolding count_calls count_call
counts zero a = (omega arith, refl)
counts (suc n) a = (omega (arith, (counts n (count_call a)).0), (counts n (count_call a)).1)

all_pass :
    (workers n : ℕ) (a : Analyzer) (now : ℕ)
    → n ≤ workers
    → at_limit (reset_hour a now) ≡ false
    → Reach workers (shared (reset_hour a now) 0) (shared (reset_hour a now) n)
all_pass workers zero a now h free = here
all_pass workers (suc n) a now h free = next (all_pass workers n a now (omega arith) free) (
    subst (λ x. Step workers (shared (reset_hour a now) n) (shared x (suc n)))
      (reset_hour_idem a now) (pass (reset_hour a now) n now h (rw (reset_hour_idem a now) free)))

all_succeed :
    (workers n : ℕ) (a : Analyzer) (s : Shared)
    → Reach workers s (shared a n)
    → Reach workers s (shared (count_calls n a) 0)
unfolding count_calls
all_succeed workers zero a s r = r
all_succeed workers (suc n) a s r = all_succeed workers n (count_call a) s (next r (succeed a n))

-- The limit is overshot whenever there is room for one more call: `workers` analyses can all pass
-- the gate before the first is counted, and then all of them are counted in the same hour.
pub limit_overshot :
    (workers : ℕ) (a : Analyzer) (now : ℕ)
    → at_limit (reset_hour a now) ≡ false
    → (t : Shared) × Reach workers (shared (reset_hour a now) 0) t
      × (t.analyzer.calls_this_hour ≡ (reset_hour a now).calls_this_hour + workers)
      × (t.analyzer.hour_reset_at ≡ (reset_hour a now).hour_reset_at)
limit_overshot workers a now free = (
  shared (count_calls workers (reset_hour a now)) 0,
  all_succeed workers workers (reset_hour a now) _
      (all_pass workers workers a now (omega arith) free),
  (counts workers (reset_hour a now)).0,
  (counts workers (reset_hour a now)).1,
)
