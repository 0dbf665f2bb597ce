-- ===== src/Llm/Cache.antt =====
-- internal/llm/analyzer.go: the cache of analysis results. A call holds the lock, so it is one
-- step, and the clock is its argument `now`.
use kube_diagnose.Common.{
  ℕ, ◌+◌, ◌*◌, ◌≤◌, List, [], Bool, not, Option, none, some, ◌≡◌, arith, Text, ltb, ◌==◌,
  if◌then◌else◌, ite, length, lookup, insert, Text-discrete, lookup-insert, Distinct,
  insert-Distinct, keep_values, lookup-keep_values, ℤ, pos, negsuc, Option-cases, inl, inr,
}
use kube_diagnose.Llm.Result.{AnalysisResult}

abbrev pub hour : ℕ
hour = 3600 * 1000000000

pub record CachedEntry : Type 0 where
  pub result : AnalysisResult
  pub expires_at : ℕ

pub record AnalysisCache : Type 0 where
  pub entries : List (Text × CachedEntry)
  pub ttl : ℕ

-- A duration that is not positive means 24 hours.
unfoldable pub new_analysis_cache : ℤ → AnalysisCache
new_analysis_cache (pos ttl) = record { entries = []; ttl = if ttl == 0 then 24 * hour else ttl }
new_analysis_cache (negsuc n) = record { entries = []; ttl = 24 * hour }

-- `time.Now().After(expiresAt)`.
abbrev pub is_fresh : ℕ → CachedEntry → Bool
is_fresh now entry = not (ltb entry.expires_at now)

abbrev pub fresh_result : ℕ → Option CachedEntry → Option AnalysisResult
fresh_result now none = none
fresh_result now (some entry) = if is_fresh now entry then some entry.result else none

unfoldable pub get : AnalysisCache → Text → ℕ → Option AnalysisResult
get c key now = fresh_result now (lookup Text-discrete key c.entries)

unfoldable pub set : AnalysisCache → Text → AnalysisResult → ℕ → AnalysisCache
set c key result now = record c {
  entries =
      insert Text-discrete key (record { result = result; expires_at = now + c.ttl }) c.entries;
}

unfoldable pub len : AnalysisCache → ℕ
len c = length c.entries

unfoldable pub purge : AnalysisCache → ℕ → AnalysisCache
purge c now = record c { entries = keep_values Text-discrete (is_fresh now) c.entries }

pub record IsValid (c : AnalysisCache) : Type 0 where
  pub distinct : Distinct Text-discrete c.entries

pub set-IsValid :
    (c : AnalysisCache) (key : Text) (r : AnalysisResult) (now : ℕ)
    → IsValid c
    → IsValid (set c key r now)
unfolding set
set-IsValid c key r now v = record {
  distinct = insert-Distinct Text-discrete key _ c.entries v.distinct;
}

pub get-set :
    (c : AnalysisCache) (key asked : Text) (r : AnalysisResult) (now later : ℕ)
    → get (set c key r now) asked later
      ≡ ite
          (Text-discrete key asked)
          (if ltb (now + c.ttl) later then none else some r)
          (get c asked later)
unfolding get set
get-set c key asked r now later = ground (
  arith,
  lookup-insert Text-discrete key asked (record { result = r; expires_at = now + c.ttl }) c.entries,
)

-- Purging at a time leaves the answer of every later lookup as it was.
pub get-purge :
    (c : AnalysisCache) (key : Text) (now later : ℕ)
    → IsValid c
    → now ≤ later
    → get (purge c now) key later ≡ get c key later
unfolding get purge
get-purge c key now later v h = elim (Option-cases (lookup Text-discrete key c.entries)) [
  | inl e ↦ rw (lookup-keep_values Text-discrete (is_fresh now) key c.entries v.distinct, e)
  | inr (entry, e) ↦
      rw (lookup-keep_values Text-discrete (is_fresh now) key c.entries v.distinct, e)
        (ground arith)
]
