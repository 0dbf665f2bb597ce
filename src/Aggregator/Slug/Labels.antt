-- ===== src/Aggregator/Slug/Labels.antt =====
-- internal/aggregator/incident_store.go: an incident's name is a DNS label.
use kube_diagnose.Common.{
  ℕ, suc, ◌≤◌, [], ◌∷◌, ◌++◌, Bool, true, false, Text, ltb, ◌==◌, if◌then◌else◌, length, take, ◌≡◌,
  ◌≢◌, ◌⊎◌, inl, inr, refl, ◌∙◌, arith, Bool-cases, All, All-take, All-append, length-append,
  length-take,
}
use kube_diagnose.Aggregator.Slug.{
  is_alnum, to_lower, dash_runs, trim_left, before_dashes, trim_right, or_incident, cut_40, slugify,
  fp8, incident_crd_name,
}

abbrev pub LabelByte : ℕ → Type 0
LabelByte c = (is_alnum c ≡ true) ⊎ (c ≡ 45)

abbrev pub starts_alnum : Text → Bool
starts_alnum [] = false
starts_alnum (c ∷ cs) = is_alnum c

abbrev pub ends_alnum : Text → Bool
ends_alnum [] = false
ends_alnum (c ∷ []) = is_alnum c
ends_alnum (c ∷ d ∷ ds) = ends_alnum (d ∷ ds)

-- Lower-case letters, digits and dashes, with no dash at either end.
abbrev pub DnsLabel : ℕ → Text → Type 0
DnsLabel most s =
    All LabelByte s × (starts_alnum s ≡ true) × (ends_alnum s ≡ true) × (length s ≤ most)

alnum_not_dash : (c : ℕ) → is_alnum c ≡ true → (c == 45) ≡ false
alnum_not_dash c e = ground arith

dash_runs-LabelByte : (b : Bool) (s : Text) → All LabelByte (dash_runs b s)
unfolding dash_runs
dash_runs-LabelByte b [] = tt
dash_runs-LabelByte b (c ∷ cs) = elim (Bool-cases (is_alnum c)) [
  | inl e ↦ rw (kept b e) (inl e, dash_runs-LabelByte false cs)
  | inr e ↦ rw (dashed b e) (dash b (dash_runs-LabelByte true cs))
]
  where
    kept : (b : Bool) → is_alnum c ≡ true → dash_runs b (c ∷ cs) ≡ c ∷ dash_runs false cs
    kept b e = rw (e, dash_runs) refl

    dashed :
        (b : Bool)
        → is_alnum c ≡ false
        → dash_runs b (c ∷ cs) ≡ (if b then dash_runs true cs else 45 ∷ dash_runs true cs)
    dashed true e = rw (e, dash_runs) refl
    dashed false e = rw (e, dash_runs) refl

    dash :
        (b : Bool)
        → All LabelByte (dash_runs true cs)
        → All LabelByte (if b then dash_runs true cs else 45 ∷ dash_runs true cs)
    dash true h = h
    dash false h = (inr refl, h)

trim_left-LabelByte : (s : Text) → All LabelByte s → All LabelByte (trim_left s)
unfolding trim_left
trim_left-LabelByte [] h = h
trim_left-LabelByte (c ∷ cs) h = elim (Bool-cases (c == 45)) [
  | inl e ↦ rw e (trim_left-LabelByte cs h.1)
  | inr e ↦ rw e h
]

before_dashes-LabelByte :
    (c : ℕ) (s : Text) → LabelByte c → All LabelByte s → All LabelByte (before_dashes c s)
unfolding before_dashes
before_dashes-LabelByte c [] p h = elim (Bool-cases (c == 45)) [
  | inl e ↦ rw e tt
  | inr e ↦ rw e (p, tt)
]
before_dashes-LabelByte c (d ∷ ds) p h = (p, h)

trim_right-LabelByte : (s : Text) → All LabelByte s → All LabelByte (trim_right s)
unfolding trim_right
trim_right-LabelByte [] h = h
trim_right-LabelByte (c ∷ cs) h =
    before_dashes-LabelByte c (trim_right cs) h.0 (trim_right-LabelByte cs h.1)

trim_left-starts :
    (s : Text) → All LabelByte s → (trim_left s ≡ []) ⊎ (starts_alnum (trim_left s) ≡ true)
unfolding trim_left
trim_left-starts [] h = inl refl
trim_left-starts (c ∷ cs) h = elim (Bool-cases (c == 45)) [
  | inl e ↦ rw e (trim_left-starts cs h.1)
  | inr e ↦ rw e (inr (ground arith))
]

trim_right-starts : (s : Text) → starts_alnum s ≡ true → starts_alnum (trim_right s) ≡ true
unfolding trim_right before_dashes
trim_right-starts [] h = h
trim_right-starts (c ∷ cs) h = go (trim_right cs)
  where
    go : (rest : Text) → starts_alnum (before_dashes c rest) ≡ true
    go [] = rw (alnum_not_dash c h) h
    go (d ∷ ds) = h

trim_right-ends :
    (s : Text) → All LabelByte s → (trim_right s ≡ []) ⊎ (ends_alnum (trim_right s) ≡ true)
unfolding trim_right before_dashes
trim_right-ends [] h = inl refl
trim_right-ends (c ∷ cs) h = go (trim_right cs) (trim_right-ends cs h.1)
  where
    go :
        (rest : Text)
        → (rest ≡ []) ⊎ (ends_alnum rest ≡ true)
        → (before_dashes c rest ≡ []) ⊎ (ends_alnum (before_dashes c rest) ≡ true)
    go [] ends = elim (Bool-cases (c == 45)) [
      | inl e ↦ rw e (inl refl)
      | inr e ↦ rw e (inr (ground arith))
    ]
    go (d ∷ ds) (inl e) = ground arith
    go (d ∷ ds) (inr e) = inr e

length-trim_right : (s : Text) → length (trim_right s) ≤ length s
unfolding trim_right before_dashes
length-trim_right [] = omega arith
length-trim_right (c ∷ cs) = go (trim_right cs) (length-trim_right cs)
  where
    go : (rest : Text) → length rest ≤ length cs → length (before_dashes c rest) ≤ length (c ∷ cs)
    go [] h = elim (Bool-cases (c == 45)) [
      | inl e ↦ rw e (omega arith)
      | inr e ↦ rw e (omega arith)
    ]
    go (d ∷ ds) h = omega (arith, h)

take-starts : (n : ℕ) (s : Text) → starts_alnum s ≡ true → starts_alnum (take (suc n) s) ≡ true
take-starts n [] h = h
take-starts n (c ∷ cs) h = h

-- Trimming a text that starts with a letter or digit makes both its ends such.
trim_right-Ends :
    (s : Text)
    → All LabelByte s
    → starts_alnum s ≡ true
    → All LabelByte (trim_right s)
      × (starts_alnum (trim_right s) ≡ true)
      × (ends_alnum (trim_right s) ≡ true)
trim_right-Ends s h st = elim (trim_right-ends s h) [
  | inl e ↦ absurd (empty (trim_right s) e (trim_right-starts s st))
  | inr e ↦ (trim_right-LabelByte s h, trim_right-starts s st, e)
]
  where
    empty : (r : Text) → r ≡ [] → starts_alnum r ≡ true → ⊥
    empty [] e st = ground arith
    empty (c ∷ cs) e st = ground arith

cut_40-DnsLabel :
    (s : Text)
    → All LabelByte s
    → starts_alnum s ≡ true
    → ends_alnum s ≡ true
    → DnsLabel 40 (cut_40 s)
cut_40-DnsLabel s h st en = elim (Bool-cases (ltb 40 (length s))) [
  | inl e ↦
      let kept = trim_right-Ends (take 40 s) (All-take LabelByte 40 s h) (take-starts 39 s st) in
      rw e (kept.0, kept.1, kept.2, omega (arith, length-trim_right (take 40 s), length-take 40 s))
  | inr e ↦ rw e (h, st, en, ground arith)
]

or_incident-DnsLabel : (s : Text) → DnsLabel 40 s → DnsLabel 40 (or_incident s)
or_incident-DnsLabel [] h = ground arith
or_incident-DnsLabel (c ∷ cs) h = h

incident-DnsLabel : DnsLabel 40 (or_incident (cut_40 (trim_right [])))
unfolding trim_right
incident-DnsLabel = (
  (
    inl refl,
    (inl refl, (inl refl, (inl refl, (inl refl, (inl refl, (inl refl, (inl refl, tt))))))),
  ),
  refl,
  refl,
  omega arith,
)

-- The slug of any pattern is a DNS label of at most 40 bytes, whatever the Unicode tables hold.
pub slugify-DnsLabel :
    (unicode_lower : Text → Text) (s : Text) → DnsLabel 40 (slugify unicode_lower s)
unfolding slugify
slugify-DnsLabel unicode_lower s =
    let dashed = dash_runs false (to_lower unicode_lower s) in
    let h = dash_runs-LabelByte false (to_lower unicode_lower s) in
    elim (trim_left-starts dashed h) [
      | inl e ↦ rw e incident-DnsLabel
      | inr st ↦
          let ends = trim_right-Ends (trim_left dashed) (trim_left-LabelByte dashed h) st in
          or_incident-DnsLabel _
            (cut_40-DnsLabel (trim_right (trim_left dashed)) ends.0 ends.1 ends.2)
    ]

length-fp8 : (fp : Text) → length (fp8 fp) ≤ 8
length-fp8 fp = elim (Bool-cases (ltb 8 (length fp))) [
  | inl e ↦ rw e (omega (arith, length-take 8 fp))
  | inr e ↦ rw e (ground arith)
]

name_short :
    (u : Text → Text) (pattern fp : Text) → length (slugify u pattern ++ (45 ∷ fp8 fp)) ≤ 49
name_short u pattern fp = omega (
  arith,
  length-append (slugify u pattern) (45 ∷ fp8 fp),
  length-fp8 fp,
  (slugify-DnsLabel u pattern).3,
)

-- No name is ever trimmed: it is the slug, a dash and at most eight bytes of the fingerprint.
pub incident_crd_name_untrimmed :
    (unicode_lower : Text → Text) (pattern fingerprint : Text)
    → incident_crd_name unicode_lower pattern fingerprint
      ≡ slugify unicode_lower pattern ++ (45 ∷ fp8 fingerprint)
unfolding incident_crd_name
incident_crd_name_untrimmed u pattern fp = rw fits refl
  where
    fits : ltb 63 (length (slugify u pattern ++ (45 ∷ fp8 fp))) ≡ false
    fits = ground (arith, name_short u pattern fp)

abbrev pub Alnum : ℕ → Type 0
Alnum c = is_alnum c ≡ true

ends-append : (a ds : Text) (d : ℕ) → ends_alnum (a ++ (d ∷ ds)) ≡ ends_alnum (d ∷ ds)
ends-append [] ds d = refl
ends-append (x ∷ []) ds d = refl
ends-append (x ∷ y ∷ ys) ds d = ends-append (y ∷ ys) ds d

ends-Alnum : (s : Text) → s ≢ [] → All Alnum s → ends_alnum s ≡ true
ends-Alnum [] n h = absurd (n refl)
ends-Alnum (c ∷ []) n h = h.0
ends-Alnum (c ∷ d ∷ ds) n h = ends-Alnum (d ∷ ds) (λ e. ground arith) h.1

starts-append : (a b : Text) → starts_alnum a ≡ true → starts_alnum (a ++ b) ≡ true
starts-append [] b h = ground arith
starts-append (c ∷ cs) b h = h

Alnum-LabelByte : (s : Text) → All Alnum s → All LabelByte s
Alnum-LabelByte [] h = tt
Alnum-LabelByte (c ∷ cs) h = (inl h.0, Alnum-LabelByte cs h.1)

fp8-Alnum : (fp : Text) → fp ≢ [] → All Alnum fp → (fp8 fp ≢ []) × All Alnum (fp8 fp)
fp8-Alnum fp n h = elim (Bool-cases (ltb 8 (length fp))) [
  | inl e ↦ rw e (kept fp n, All-take Alnum 8 fp h)
  | inr e ↦ rw e (n, h)
]
  where
    kept : (s : Text) → s ≢ [] → take 8 s ≢ []
    kept [] n e = n refl
    kept (c ∷ cs) n e = ground arith

-- With a fingerprint of letters and digits, the name of an incident's object is a DNS label.
pub incident_crd_name-DnsLabel :
    (unicode_lower : Text → Text) (pattern fingerprint : Text)
    → fingerprint ≢ []
    → All (λ c. is_alnum c ≡ true) fingerprint
    → DnsLabel 63 (incident_crd_name unicode_lower pattern fingerprint)
incident_crd_name-DnsLabel u pattern fp n h =
    let slug = slugify-DnsLabel u pattern in
    let id = fp8-Alnum fp n h in
    rw (incident_crd_name_untrimmed u pattern fp) (
      All-append LabelByte (slugify u pattern) (45 ∷ fp8 fp) slug.0
          (inr refl, Alnum-LabelByte (fp8 fp) id.1),
      starts-append (slugify u pattern) _ slug.1,
      ends-append (slugify u pattern) (fp8 fp) 45
          ∙ dash_ends (fp8 fp) id.0
          ∙ ends-Alnum (fp8 fp) id.0 id.1,
      omega (arith, name_short u pattern fp),
    )
  where
    dash_ends : (s : Text) → s ≢ [] → ends_alnum (45 ∷ s) ≡ ends_alnum s
    dash_ends [] n = absurd (n refl)
    dash_ends (c ∷ cs) n = refl
