-- ===== src/Rag/Embedder/Tests.antt =====
-- internal/rag/embedder.go: the retries at concrete inputs.
use kube_diagnose.Common.{◌*◌, ◌==◌, if◌then◌else◌, [], ◌∷◌, none, some, codes, ◌≡◌, refl}
use kube_diagnose.Rag.Embedder.{millisecond, Attempts, succeeded, retry_from, with_retry}
use kube_diagnose.Rag.Embedder.Retry.{Right, with_retry-Right}

-- Every call before the third one fails.
abbrev flaky : Attempts
flaky = record {
  context_before = λ k. none;
  call = λ k. if k == 3 then none else some (codes "timeout");
  context_after = λ k. none;
}

with_retry-flaky : with_retry flaky ≡ record {
  outcome = succeeded;
  calls = 3;
  delays = 500 * millisecond ∷ 1000 * millisecond ∷ [];
}
unfolding with_retry retry_from
with_retry-flaky = refl

with_retry-Right_example : Right flaky 1 (1500 * millisecond) (with_retry flaky)
with_retry-Right_example = with_retry-Right flaky
