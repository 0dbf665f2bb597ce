-- ===== src/Controller/Policy/Namespaces.antt =====
-- internal/controller/logwatchpolicy_controller.go: the namespaces of a policy.
use kube_diagnose.Common.{
  List, [], ◌∷◌, Bool, true, false, not, ◌&&◌, none, some, Text, Text-discrete, contains, keep, ◌≡◌,
  ◌≢◌, ◌↔◌, ◌⊎◌, inl, inr, refl, ap, ◌∙◌, Bool-cases, arith,
}
use kube_diagnose.Controller.Policy.{WorkloadSelector, Policy, listed_or_own, resolve_namespaces}

contains-keep :
    (ns : Text) (excluded nss : List Text)
    → contains ns (keep (λ n. not (contains n excluded)) nss)
      ≡ (contains ns nss && not (contains ns excluded))
unfolding contains
contains-keep ns excluded [] = refl
contains-keep ns excluded (m ∷ nss) = elim (Text-discrete m ns) [
  | yes same ↦
      let ih = contains-keep ns excluded nss in
      elim (Bool-cases (contains ns excluded)) [
        | inl t ↦ rw (same, t) (rw t at ih ∙ ground arith)
        | inr f ↦ rw (same, f) (ground arith)
      ]
  | no differ ↦ ground (arith, contains-keep ns excluded nss)
]

both : (a b : Bool) → ((a && not b) ≡ true) ↔ ((a ≡ true) × (b ≡ false))
both a b = ground arith

named :
    {L : Type 0} (policy : Policy L) (sel : WorkloadSelector L)
    → policy.workload_selector ≡ some sel
    → resolve_namespaces policy
      ≡ listed_or_own policy.namespace sel.namespaces sel.exclude_namespaces
unfolding resolve_namespaces
named policy sel e = rw (e, resolve_namespaces) refl

-- A policy that lists namespaces is about those it lists and does not exclude.
resolve_namespaces_listed :
    {L : Type 0} (policy : Policy L) (sel : WorkloadSelector L)
    → policy.workload_selector ≡ some sel
    → sel.namespaces ≢ []
    → (ns : Text)
    → (contains ns (resolve_namespaces policy) ≡ true)
      ↔ ((contains ns sel.namespaces ≡ true) × (contains ns sel.exclude_namespaces ≡ false))
resolve_namespaces_listed policy sel e n ns = rw (named policy sel e) (go sel.namespaces n)
  where
    go :
        (nss : List Text)
        → nss ≢ []
        → (contains ns (listed_or_own policy.namespace nss sel.exclude_namespaces) ≡ true)
          ↔ ((contains ns nss ≡ true) × (contains ns sel.exclude_namespaces ≡ false))
    go [] n = absurd (n refl)
    go (m ∷ nss) n =
        rw (contains-keep ns sel.exclude_namespaces (m ∷ nss))
          (both (contains ns (m ∷ nss)) (contains ns sel.exclude_namespaces))

-- A policy that lists none is about its own namespace only, also where it excludes that one.
pub resolve_namespaces_unlisted :
    {L : Type 0} (policy : Policy L) (sel : WorkloadSelector L)
    → (policy.workload_selector ≡ none)
      ⊎ ((policy.workload_selector ≡ some sel) × (sel.namespaces ≡ []))
    → resolve_namespaces policy ≡ policy.namespace ∷ []
unfolding resolve_namespaces
resolve_namespaces_unlisted policy sel (inl e) = rw (e, resolve_namespaces) refl
resolve_namespaces_unlisted policy sel (inr (e, z)) =
    named policy sel e ∙ ap (λ nss. listed_or_own policy.namespace nss sel.exclude_namespaces) z
