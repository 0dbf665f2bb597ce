-- ===== src/Aggregator/Fingerprint/Votes.antt =====
-- internal/aggregator/fingerprint.go: each bit of a fingerprint is a majority vote.
use kube_diagnose.Common.{
  ℕ, zero, suc, ◌+◌, ◌<◌, List, [], ◌∷◌, map, false, ℤ, pos, negsuc, ltb, if◌then◌else◌, ◌≡◌, inl,
  inr, refl, ap, ◌∙◌, arith, length, get_or, All, Bool-cases,
}
use kube_diagnose.Aggregator.Fingerprint.{
  Bits, add_one, sub_one, is_positive, vote, votes, zeros, simhash,
}

-- How many of the hashes have a bit set, and how many have it clear.
abbrev pub ones_at : ℕ → List Bits → ℕ
ones_at i [] = 0
ones_at i (hash ∷ hashes) = (if get_or hash i false then 1 else 0) + ones_at i hashes

abbrev pub zeros_at : ℕ → List Bits → ℕ
zeros_at i [] = 0
zeros_at i (hash ∷ hashes) = (if get_or hash i false then 0 else 1) + zeros_at i hashes

-- The integer that is one number less another.
abbrev difference : ℕ → ℕ → ℤ
difference a zero = pos a
difference zero (suc b) = negsuc b
difference (suc a) (suc b) = difference a b

add_one-difference : (a b : ℕ) → add_one (difference a b) ≡ difference (suc a) b
add_one-difference a zero = ap pos (omega arith)
add_one-difference zero (suc zero) = refl
add_one-difference zero (suc (suc b)) = refl
add_one-difference (suc a) (suc b) = add_one-difference a b

sub_one-difference : (a b : ℕ) → sub_one (difference a b) ≡ difference a (suc b)
sub_one-difference zero zero = refl
sub_one-difference (suc a) zero = refl
sub_one-difference zero (suc b) = ap negsuc (omega arith)
sub_one-difference (suc a) (suc b) = sub_one-difference a b

is_positive-difference : (a b : ℕ) → is_positive (difference a b) ≡ ltb b a
is_positive-difference a zero = refl
is_positive-difference zero (suc b) = ground arith
is_positive-difference (suc a) (suc b) = is_positive-difference a b ∙ ground arith

get_or-vote :
    (hash : Bits) (v : List ℤ) (i : ℕ)
    → i < length hash
    → i < length v
    → get_or (vote hash v) i (pos 0)
      ≡ (if get_or hash i false then add_one (get_or v i (pos 0)) else sub_one (get_or v i (pos 0)))
unfolding vote
get_or-vote hash [] i h k = absurd (omega arith)
get_or-vote [] (n ∷ v) i h k = absurd (omega arith)
get_or-vote (b ∷ hash) (n ∷ v) zero h k = refl
get_or-vote (b ∷ hash) (n ∷ v) (suc i) h k =
    get_or-vote hash v i (omega (arith, h)) (omega (arith, k))

length-vote : (hash : Bits) (v : List ℤ) → length (vote hash v) ≡ length v
unfolding vote
length-vote hash [] = refl
length-vote [] (n ∷ v) = refl
length-vote (b ∷ hash) (n ∷ v) = ap suc (length-vote hash v)

difference_eq : (a b c d : ℕ) → a ≡ c → b ≡ d → difference a b ≡ difference c d
difference_eq a b c d e f = rw (e, f) refl

get_or-votes :
    (hashes : List Bits) (v : List ℤ) (i a b : ℕ)
    → i < length v
    → All (λ hash. i < length hash) hashes
    → get_or v i (pos 0) ≡ difference a b
    → get_or (votes hashes v) i (pos 0) ≡ difference (a + ones_at i hashes) (b + zeros_at i hashes)
unfolding votes
get_or-votes [] v i a b h k e = e ∙ difference_eq a b (a + 0) (b + 0) (omega arith) (omega arith)
get_or-votes (hash ∷ hashes) v i a b h k e =
    let step = get_or-vote hash v i k.0 h in
    let room : i < length (vote hash v) = omega (arith, length-vote hash v) in
    elim (Bool-cases (get_or hash i false)) [
      | inl t ↦
          get_or-votes hashes (vote hash v) i (suc a) b room k.1
            (step ∙ rw (t, e) (add_one-difference a b))
          ∙ rw t (
              difference_eq (suc a + ones_at i hashes) (b + zeros_at i hashes)
                (a + (1 + ones_at i hashes)) (b + (0 + zeros_at i hashes)) (omega arith)
                (omega arith))
      | inr f ↦
          get_or-votes hashes (vote hash v) i a (suc b) room k.1
            (step ∙ rw (f, e) (sub_one-difference a b))
          ∙ rw f (
              difference_eq (a + ones_at i hashes) (suc b + zeros_at i hashes)
                (a + (0 + ones_at i hashes)) (b + (1 + zeros_at i hashes)) (omega arith)
                (omega arith))
    ]

get_or-map_positive :
    (v : List ℤ) (i : ℕ) → get_or (map is_positive v) i false ≡ is_positive (get_or v i (pos 0))
get_or-map_positive [] i = refl
get_or-map_positive (n ∷ v) zero = refl
get_or-map_positive (n ∷ v) (suc i) = get_or-map_positive v i

get_or-zeros : (i n : ℕ) → get_or (zeros n) i (pos 0) ≡ pos 0
get_or-zeros i zero = refl
get_or-zeros zero (suc n) = refl
get_or-zeros (suc i) (suc n) = get_or-zeros i n

length-zeros : (n : ℕ) → length (zeros n) ≡ n
length-zeros zero = refl
length-zeros (suc n) = ap suc (length-zeros n)

-- Each of the 64 bits of the SimHash of hashes of 64 bits is set exactly when more of the hashes
-- have it set than have it clear.
pub simhash_majority :
    (hashes : List Bits) (i : ℕ)
    → i < 64
    → All (λ hash. length hash ≡ 64) hashes
    → get_or (simhash hashes) i false ≡ ltb (zeros_at i hashes) (ones_at i hashes)
unfolding simhash
simhash_majority hashes i h k =
    get_or-map_positive (votes hashes (zeros 64)) i
    ∙ ap is_positive (
        get_or-votes hashes (zeros 64) i 0 0 (omega (arith, length-zeros 64)) (inside hashes k)
          (get_or-zeros i 64))
    ∙ is_positive-difference (0 + ones_at i hashes) (0 + zeros_at i hashes)
    ∙ ground arith
  where
    inside : (hs : List Bits) → All (λ hash. length hash ≡ 64) hs → All (λ hash. i < length hash) hs
    inside [] k = tt
    inside (hash ∷ hs) k = (omega (arith, k.0), inside hs k.1)
