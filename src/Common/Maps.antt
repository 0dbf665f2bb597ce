-- ===== src/Common/Maps.antt =====
-- Go maps as association lists: a key stands once, a write to a new key goes to the end.
use mathlib.Core.Path.{◌≡◌, refl, ap, sym, subst, ◌∙◌}
use mathlib.Core.List.{List, [], ◌∷◌}
use mathlib.Core.Bool.{Bool}
use mathlib.Core.Logic.{◌≢◌, ite, if_pos, if_neg, inl, inr}
use mathlib.Core.Option.{Option, none, some}
use native.Mathlib.Omega.{arith}
use kube_diagnose.Common.Numbers.{Bool-cases, if◌then◌else◌}
use kube_diagnose.Common.Lists.{keep, All}

module _ {ℓ} {K V : Type ℓ} (dec : Discrete K) where
  unfoldable pub lookup : K → List (K × V) → Option V
  lookup key [] = none
  lookup key (entry ∷ rest) = ite (dec entry.0 key) (some entry.1) (lookup key rest)

  unfoldable pub insert : K → V → List (K × V) → List (K × V)
  insert key value [] = (key, value) ∷ []
  insert key value (entry ∷ rest) =
      ite (dec entry.0 key) ((key, value) ∷ rest) (entry ∷ insert key value rest)

  unfoldable pub delete : K → List (K × V) → List (K × V)
  delete key [] = []
  delete key (entry ∷ rest) = ite (dec entry.0 key) (delete key rest) (entry ∷ delete key rest)

  pub lookup-insert :
      (key asked : K) (value : V) (m : List (K × V))
      → lookup asked (insert key value m) ≡ ite (dec key asked) (some value) (lookup asked m)
  unfolding lookup insert
  lookup-insert key asked value [] = refl
  lookup-insert key asked value (entry ∷ rest) = ground (arith, lookup-insert key asked value rest)

  pub lookup-insert_self : (k : K) (v : V) (m : List (K × V)) → lookup k (insert k v m) ≡ some v
  lookup-insert_self k v m = ground (arith, lookup-insert k k v m)

  pub lookup-insert_ne :
      (k j : K) (v : V) (m : List (K × V)) → k ≢ j → lookup j (insert k v m) ≡ lookup j m
  lookup-insert_ne k j v m h = ground (arith, lookup-insert k j v m)

  pub lookup-delete :
      (k j : K) (m : List (K × V)) → lookup j (delete k m) ≡ ite (dec k j) none (lookup j m)
  unfolding lookup delete
  lookup-delete k j [] = ground arith
  lookup-delete k j (entry ∷ rest) = ground (arith, lookup-delete k j rest)

module _ {ℓ} {K V : Type ℓ} (dec : Discrete K) where
  -- No key stands twice.
  abbrev pub Distinct : List (K × V) → Type ℓ
  Distinct [] = Unit
  Distinct ((k, v) ∷ m) = (lookup dec k m ≡ none) × Distinct m

  pub insert-Distinct :
      (k : K) (v : V) (m : List (K × V)) → Distinct m → Distinct (insert dec k v m)
  unfolding insert lookup
  insert-Distinct k v [] d = (refl, tt)
  insert-Distinct k v ((j, w) ∷ m) d = elim (dec j k) [
    | yes e ↦ rw (if_pos _ e) (rw (← e) d.0, d.1)
    | no h ↦ rw (if_neg _ h) (ground (arith, lookup-insert dec k j v m), insert-Distinct k v m d.1)
  ]

module _ {ℓ} {K V : Type ℓ} (dec : Discrete K) where
  pub absent-All : (k : K) (m : List (K × V)) → lookup dec k m ≡ none → All (λ entry. entry.0 ≢ k) m
  unfolding lookup
  absent-All k [] e = tt
  absent-All k (entry ∷ m) e = elim (dec entry.0 k) [
    | yes same ↦ absurd (some_none (sym (if_pos (dec entry.0 k) same _ _) ∙ e))
    | no differ ↦ (differ, absent-All k m (sym (if_neg (dec entry.0 k) differ _ _) ∙ e))
  ]
    where
      some_none : {v : V} → some v ≡ none → ⊥
      some_none h = ground arith

module _ {ℓ κ} {K V : Type ℓ} (dec : Discrete K) (P : K × V → Type κ) where
  pub insert-All :
      (k : K) (v : V) (m : List (K × V)) → P (k, v) → All P m → All P (insert dec k v m)
  unfolding insert
  insert-All k v [] p h = (p, tt)
  insert-All k v (entry ∷ m) p h = elim (dec entry.0 k) [
    | yes same ↦ rw (if_pos _ same) (p, h.1)
    | no differ ↦ rw (if_neg _ differ) (h.0, insert-All k v m p h.1)
  ]

  pub lookup-All : (k : K) (v : V) (m : List (K × V)) → lookup dec k m ≡ some v → All P m → P (k, v)
  unfolding lookup
  lookup-All k v [] e h = ground arith
  lookup-All k v (entry ∷ m) e h = elim (dec entry.0 k) [
    | yes same ↦
        subst P
          (ap (λ j. (j, entry.1)) same
            ∙ ap (λ u. (k, u)) (found (sym (if_pos (dec entry.0 k) same _ _) ∙ e)))
          h.0
    | no differ ↦ lookup-All k v m (sym (if_neg (dec entry.0 k) differ _ _) ∙ e) h.1
  ]
    where
      found : {u : V} → some u ≡ some v → u ≡ v
      found e = ground arith

-- Deleting entries by a test on their values, as in a range loop over the map.
module _ {ℓ} {K V : Type ℓ} (dec : Discrete K) (p : V → Bool) where
  abbrev pub keep_values : List (K × V) → List (K × V)
  keep_values = keep (λ entry. p entry.1)

  abbrev pub passing : Option V → Option V
  passing none = none
  passing (some v) = if p v then some v else none

  keep_values_absent :
      (k : K) (m : List (K × V)) → lookup dec k m ≡ none → lookup dec k (keep_values m) ≡ none
  unfolding lookup
  keep_values_absent k [] h = refl
  keep_values_absent k (entry ∷ rest) h = ground (arith, keep_values_absent k rest)

  pub lookup-keep_values :
      (k : K) (m : List (K × V))
      → Distinct dec m
      → lookup dec k (keep_values m) ≡ passing (lookup dec k m)
  unfolding lookup
  lookup-keep_values k [] d = refl
  lookup-keep_values k ((j, v) ∷ rest) d = elim (dec j k) [
    | yes e ↦
        let gone = keep_values_absent k rest (rw (← e) d.0) in
        elim (Bool-cases (p v)) [
          | inl t ↦ rw (t, if_pos _ e, if_pos _ e, t)
          | inr f ↦ rw (f, gone, if_pos _ e, f)
        ]
    | no n ↦
        let ih = lookup-keep_values k rest d.1 in
        elim (Bool-cases (p v)) [
          | inl t ↦ rw (t, if_neg _ n, if_neg _ n, ih)
          | inr f ↦ rw (f, ih, if_neg _ n)
        ]
  ]

  pub keep_values-Distinct : (m : List (K × V)) → Distinct dec m → Distinct dec (keep_values m)
  keep_values-Distinct [] d = tt
  keep_values-Distinct ((j, v) ∷ rest) d =
      ground (arith, keep_values-Distinct rest d.1, keep_values_absent j rest d.0)
