-- ===== src/Aggregator/Slug.antt =====
-- internal/aggregator/incident_store.go: the name of an incident's object, made of its pattern
-- and its fingerprint. A text is its bytes; Go's lower case of a text with a byte that is not
-- ASCII comes from the Unicode tables, a parameter.
pub mod Labels
mod Tests
use kube_diagnose.Common.{
  ℕ, ◌+◌, ◌-◌, List, [], ◌∷◌, ◌++◌, map, Bool, true, false, Text, codes, ◌&&◌, ◌||◌, ltb, leb, ◌==◌,
  if◌then◌else◌, length, take,
}

-- [a-z0-9]
abbrev pub is_alnum : ℕ → Bool
is_alnum c = (leb 97 c && leb c 122) || (leb 48 c && leb c 57)

abbrev pub is_ascii : Text → Bool
is_ascii [] = true
is_ascii (c ∷ cs) = ltb c 128 && is_ascii cs

abbrev pub lower_byte : ℕ → ℕ
lower_byte c = if leb 65 c && leb c 90 then c + 32 else c

unfoldable pub to_lower : (Text → Text) → Text → Text
to_lower unicode_lower s = if is_ascii s then map lower_byte s else unicode_lower s

-- Replaces each run of other bytes by one dash; the flag says that the run has its dash already.
unfoldable pub dash_runs : Bool → Text → Text
dash_runs in_run [] = []
dash_runs in_run (c ∷ cs) = elim (is_alnum c) [
  | true ↦ c ∷ dash_runs false cs
  | false ↦ elim in_run [ true ↦ dash_runs true cs | false ↦ 45 ∷ dash_runs true cs ]
]

unfoldable pub trim_left : Text → Text
trim_left [] = []
trim_left (c ∷ cs) = if c == 45 then trim_left cs else c ∷ cs

unfoldable pub before_dashes : ℕ → Text → Text
before_dashes c [] = if c == 45 then [] else c ∷ []
before_dashes c (d ∷ ds) = c ∷ d ∷ ds

unfoldable pub trim_right : Text → Text
trim_right [] = []
trim_right (c ∷ cs) = before_dashes c (trim_right cs)

abbrev pub or_incident : Text → Text
or_incident [] = codes "incident"
or_incident (c ∷ cs) = c ∷ cs

abbrev pub cut_40 : Text → Text
cut_40 s = if ltb 40 (length s) then trim_right (take 40 s) else s

unfoldable pub slugify : (Text → Text) → Text → Text
slugify unicode_lower s =
    or_incident (cut_40 (trim_right (trim_left (dash_runs false (to_lower unicode_lower s)))))

abbrev pub fp8 : Text → Text
fp8 fingerprint = if ltb 8 (length fingerprint) then take 8 fingerprint else fingerprint

unfoldable pub incident_crd_name : (Text → Text) → Text → Text → Text
incident_crd_name unicode_lower pattern fingerprint =
    let slug = slugify unicode_lower pattern in
    let id = fp8 fingerprint in
    let name = slug ++ (45 ∷ id) in
    if ltb 63 (length name) then trim_right (take (63 - 1 - length id) slug) ++ (45 ∷ id) else name
