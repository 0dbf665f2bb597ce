-- ===== src/Rag/Engine/Ranking.antt =====
-- internal/rag/engine.go: the results that a query gives, and their confidence.
use kube_diagnose.Common.{
  ℕ, zero, suc, min, List, [], ◌∷◌, false, some, Text, ◌≡◌, refl, sym, ap, ◌∙◌, ◌++◌, drop,
  take-append-drop, arith, inl, inr, Bool-cases, length, length-take, take, take_all, ltb,
  if◌then◌else◌, All, All-take, All-drop, subst, float_lt, ℤ,
}
use mathlib.Core.List.{Permᴰ}
use kube_diagnose.Rag.Engine.{
  Services, RetrievalResult, Retrieved, first_score, candidates, ranked, retrieve, top_k_of,
  per_collection_limit,
}

-- No later result has a greater score.
abbrev pub Descending : List RetrievalResult → Type 0
Descending [] = Unit
Descending (r ∷ rs) = All (λ later. float_lt r.score later.score ≡ false) rs × Descending rs

-- What sort.Slice promises of a list.
pub record Sorts (sort : List RetrievalResult → List RetrievalResult) (rs : List RetrievalResult)
    : Type 0 where
  pub same_elements : Permᴰ (sort rs) rs
  pub descending : Descending (sort rs)

length-Permᴰ : {xs ys : List RetrievalResult} → Permᴰ xs ys → length xs ≡ length ys
length-Permᴰ Permᴰ.nil = refl
length-Permᴰ (Permᴰ.cons e d) = ap suc (length-Permᴰ d)
length-Permᴰ (Permᴰ.swap e f) = refl
length-Permᴰ (Permᴰ.trans d e) = length-Permᴰ d ∙ length-Permᴰ e

Descending-take : (n : ℕ) (rs : List RetrievalResult) → Descending rs → Descending (take n rs)
Descending-take zero rs d = tt
Descending-take (suc n) [] d = tt
Descending-take (suc n) (r ∷ rs) (h, d) = (All-take _ n rs h, Descending-take n rs d)

abbrev kept : ℕ → List RetrievalResult → List RetrievalResult
kept top_k sorted = if ltb top_k (length sorted) then take top_k sorted else sorted

kept-take : (top_k : ℕ) (rs : List RetrievalResult) → kept top_k rs ≡ take top_k rs
kept-take top_k rs = elim (Bool-cases (ltb top_k (length rs))) [
  | inl e ↦ rw e refl
  | inr e ↦ rw e (sym (take_all top_k rs (ground arith)))
]

-- What stands behind the first `n` of a descending list beats none of them.
Descending-behind :
    (n : ℕ) (rs : List RetrievalResult)
    → Descending rs
    → All (λ r. All (λ later. float_lt r.score later.score ≡ false) (drop n rs)) (take n rs)
Descending-behind zero rs d = tt
Descending-behind (suc n) [] d = tt
Descending-behind (suc n) (r ∷ rs) (h, d) = (All-drop _ n rs h, Descending-behind n rs d)

-- What a ranking of some candidates holds: with the candidates left out, the results are the
-- candidates, each as often as it stands there.
pub record Ranking (top_k : ℕ) (cands : List RetrievalResult) (r : Retrieved) : Type 0 where
  pub left_out : List RetrievalResult
  pub is_split : Permᴰ (r.results ++ left_out) cands
  pub number : length r.results ≡ min top_k (length cands)
  pub descending : Descending r.results
  pub no_better :
      All (λ kept. All (λ left. float_lt kept.score left.score ≡ false) left_out) r.results
  pub confidence : r.max_confidence ≡ first_score r.results

module _ {V Q : Type 0} (s : Services V Q)
    (sort : List RetrievalResult → List RetrievalResult) where
  ranked-Ranking :
      (top_k : ℕ) (cands : List RetrievalResult)
      → Sorts sort cands
      → Ranking top_k cands (ranked s sort top_k cands)
  ranked-Ranking top_k [] so = record {
    left_out = [];
    is_split = Permᴰ.nil;
    number = omega arith;
    descending = tt;
    no_better = tt;
    confidence = refl;
  }
  ranked-Ranking top_k (c ∷ cs) so =
      let sorted : List RetrievalResult = sort (c ∷ cs) in
      subst
        (λ rs. Ranking top_k (c ∷ cs) (record { results = rs; max_confidence = first_score rs }))
        (sym (kept-take top_k sorted))
        (record {
          left_out = drop top_k sorted;
          is_split = rw (take-append-drop top_k sorted) so.same_elements;
          number = omega (arith, length-take top_k sorted, length-Permᴰ so.same_elements);
          descending = Descending-take top_k sorted so.descending;
          no_better = Descending-behind top_k sorted so.descending;
          confidence = refl;
        })

  -- A query that can be embedded gives the best of all candidates from the three collections, in
  -- descending order: as many as asked for or as there are, each as often as it is a candidate, none
  -- beaten by a candidate left out, and with the confidence of the first of them; for a sort that
  -- keeps the candidates and puts them in order.
  pub retrieve-Ranking :
      (query : Text) (top_k : ℤ) (vec : V)
      → s.embed query ≡ some vec
      → Sorts sort (candidates s sort vec (per_collection_limit (top_k_of top_k)))
      → (r : Retrieved) × (retrieve s sort query top_k ≡ some r)
        × Ranking (top_k_of top_k) (candidates s sort vec (per_collection_limit (top_k_of top_k))) r
  unfolding retrieve
  retrieve-Ranking query top_k vec e so = (
    ranked s sort (top_k_of top_k) (candidates s sort vec (per_collection_limit (top_k_of top_k))),
    rw (e, retrieve) refl,
    ranked-Ranking (top_k_of top_k) _ so,
  )
