-- ===== src/LogWatcher/Filter/Accepts.antt =====
-- internal/logwatcher/filter.go: what a filter accepts.
use kube_diagnose.Common.{
  List, [], ◌∷◌, ◌++◌, map, Bool, true, false, ◌||◌, Option, none, some, Text, Text-discrete,
  contains, ite, ◌>>=◌, keep, ◌≡◌, ◌≢◌, ◌↔◌, ◌⊎◌, inl, inr, refl, sym, ap, ◌∙◌, subst, arith,
  if_pos, if_neg, Bool-cases, All,
}
use kube_diagnose.LogWatcher.Filter.{
  NormalizedLog, Pattern, Filter, Library, default_levels, trim_space, to_upper, or_default,
  add_level, normalised_levels, new_filter, compiled, regexp_words, critical_keywords, upper_byte,
  any_match, has_level, any_accepted, should_process,
}

any_match_iff :
    (res : List Pattern) (raw : Text) → (any_match res raw ≡ false) ↔ All (λ re. re raw ≡ false) res
any_match_iff [] raw = (λ _. tt, λ _. refl)
any_match_iff (re ∷ res) raw = ground (arith, any_match_iff res raw)

-- A word of the list that is a keyword whose upper case is an accepted level.
abbrev pub Keyword : List Text → List Text → Type 0
Keyword levels [] = ⊥
Keyword levels (m ∷ ms) =
    ((contains (map upper_byte m) default_levels ≡ true)
      × (contains (map upper_byte m) levels ≡ true))
    ⊎ Keyword levels ms

any_accepted_iff :
    (levels ms : List Text)
    → (any_accepted levels (keep (λ m. contains (map upper_byte m) default_levels) ms) ≡ true)
      ↔ Keyword levels ms
any_accepted_iff levels [] = (λ h. ground arith, λ h. absurd h)
any_accepted_iff levels (m ∷ ms) = ground (arith, any_accepted_iff levels ms)

contains-append :
    (x y : Text) (s : List Text)
    → contains x (s ++ (y ∷ [])) ≡ (contains x s || ite (Text-discrete y x) true false)
unfolding contains
contains-append x y [] = refl
contains-append x y (z ∷ s) = ground (arith, contains-append x y s)

add_level_iff :
    (x y : Text) (s : List Text)
    → (contains x (add_level y s) ≡ true) ↔ ((contains x s ≡ true) ⊎ ((y ≡ x) × (y ≢ [])))
add_level_iff x [] s = (λ h. inl h, λ h. elim h [ inl p ↦ p | inr q ↦ absurd (q.1 refl) ])
add_level_iff x (c ∷ cs) s = elim (Bool-cases (contains (c ∷ cs) s)) [
  | inl e ↦ rw e (λ h. inl h, λ h. elim h [ inl p ↦ p | inr q ↦ rw (← q.0) e ])
  | inr e ↦ rw (e, contains-append x (c ∷ cs) s) (ground arith)
]

normalised_levels_iff :
    (lib : Library) (x : Text) (ls seen : List Text)
    → (contains x (normalised_levels lib ls seen) ≡ true) ↔ (
        (contains x seen ≡ true)
        ⊎ ((contains x (map (λ l. to_upper lib (trim_space lib l)) ls) ≡ true) × (x ≢ [])))
unfolding normalised_levels contains
normalised_levels_iff lib x [] seen = (λ h. inl h, λ h. elim h [ inl p ↦ p | inr q ↦ ground arith ])
normalised_levels_iff lib x (l ∷ ls) seen =
    merge y (contains x seen) _ _ (add_level_iff x y seen)
      (normalised_levels_iff lib x ls (add_level y seen))
  where
    y : Text
    y = to_upper lib (trim_space lib l)

    merge :
        (y : Text) (a b c : Bool) {d : Bool}
        → (d ≡ true) ↔ ((a ≡ true) ⊎ ((y ≡ x) × (y ≢ [])))
        → (b ≡ true) ↔ ((d ≡ true) ⊎ ((c ≡ true) × (x ≢ [])))
        → (b ≡ true) ↔ ((a ≡ true) ⊎ ((ite (Text-discrete y x) true c ≡ true) × (x ≢ [])))
    merge y a b c f g = elim (Text-discrete y x) [
      | yes e ↦ rw (if_pos (Text-discrete y x) e true c) (
        λ h. elim (g.0 h) [
          | inl d ↦ elim (f.0 d) [ inl p ↦ inl p | inr q ↦ inr (refl, λ z. q.1 (e ∙ z)) ]
          | inr q ↦ inr (refl, q.1)
        ],
        λ h. elim h [
          | inl p ↦ g.1 (inl (f.1 (inl p)))
          | inr q ↦ g.1 (inl (f.1 (inr (e, λ z. q.1 (sym e ∙ z)))))
        ],
      )
      | no n ↦ rw (if_neg (Text-discrete y x) n true c) (
        λ h. elim (g.0 h) [
          | inl d ↦ elim (f.0 d) [ inl p ↦ inl p | inr q ↦ absurd (n q.0) ]
          | inr q ↦ inr q
        ],
        λ h. elim h [ inl p ↦ g.1 (inl (f.1 (inl p))) | inr q ↦ g.1 (inr q) ],
      )
    ]

-- A log goes on exactly when no exclusion pattern matches its raw line, and its level is
-- accepted or a word of the line is a critical keyword whose upper case is an accepted level.
pub should_process_iff :
    (f : Filter) (log : NormalizedLog)
    → (should_process f (some log) ≡ true) ↔ (
        All (λ re. re log.raw ≡ false) f.exclusion_patterns
        × ((has_level f.log_levels log.level ≡ true)
            ⊎ Keyword f.log_levels (regexp_words [] log.raw)))
unfolding should_process critical_keywords
should_process_iff f log = ground (
  arith,
  any_match_iff f.exclusion_patterns log.raw,
  any_accepted_iff f.log_levels (regexp_words [] log.raw),
)

-- The accepted levels of a new filter are the given ones, or the default ones if none is given,
-- trimmed and in upper case, but for empty ones.
pub new_filter-log_levels :
    (lib : Library) (levels patterns : List Text) (f : Filter) (x : Text)
    → new_filter lib levels patterns ≡ some f
    → (contains x f.log_levels ≡ true) ↔ (
        (contains x (map (λ l. to_upper lib (trim_space lib l)) (or_default levels)) ≡ true)
        × (x ≢ []))
unfolding new_filter contains
new_filter-log_levels lib levels patterns f x made = by_patterns (compiled lib patterns) made
  where
    all : List Text
    all = normalised_levels lib (or_default levels) []

    levels_of : Option Filter → List Text
    levels_of none = []
    levels_of (some g) = g.log_levels

    only_given : {b : Bool} {Q : Type 0} → (b ≡ true) ↔ ((false ≡ true) ⊎ Q) → (b ≡ true) ↔ Q
    only_given h = (λ e. elim (h.0 e) [ inl p ↦ ground arith | inr q ↦ q ], λ q. h.1 (inr q))

    by_patterns :
        (o : Option (List Pattern))
        → (o >>= (λ ps.
            some (record { log_levels = all; raw_levels = all; exclusion_patterns = ps })))
          ≡ some f
        → (contains x f.log_levels ≡ true) ↔ (
            (contains x (map (λ l. to_upper lib (trim_space lib l)) (or_default levels)) ≡ true)
            × (x ≢ []))
    by_patterns none e = ground arith
    by_patterns (some ps) e =
        subst
          (λ ls. (contains x ls ≡ true) ↔ (
            (contains x (map (λ l. to_upper lib (trim_space lib l)) (or_default levels)) ≡ true)
            × (x ≢ [])))
          (ap levels_of e) (only_given (normalised_levels_iff lib x (or_default levels) []))
