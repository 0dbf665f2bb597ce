-- ===== src/Aggregator/Fingerprint/Tests.antt =====
-- internal/aggregator/fingerprint.go: fingerprints at concrete inputs.
use kube_diagnose.Common.{
  ℕ, List, [], ◌∷◌, false, Text, Text-discrete, contains, codes, ltb, length, get_or, ◌≡◌, refl,
  arith, All,
}
use kube_diagnose.Aggregator.Fingerprint.{
  Bits, bits_of, simhash, format, format_bytes, tokenize, word_runs, is_token, fingerprint, vote,
  votes, token_hash,
}
use kube_diagnose.Aggregator.Fingerprint.Votes.{ones_at, zeros_at, simhash_majority}
use kube_diagnose.Aggregator.Fingerprint.Tokens.{Token}

abbrev low : Bits
low = bits_of 64 0x0123456789abcdef

abbrev high : Bits
high = bits_of 64 0xf123456789abcdee

format-low : format low ≡ codes "0123456789abcdef"
unfolding format format_bytes
format-low = refl

abbrev hashes : List Bits
hashes = low ∷ high ∷ low ∷ []

simhash-hashes : simhash hashes ≡ low
unfolding simhash vote votes
simhash-hashes = refl

simhash_majority_example :
    get_or (simhash hashes) 60 false ≡ ltb (zeros_at 60 hashes) (ones_at 60 hashes)
simhash_majority_example = simhash_majority hashes 60 (omega arith) (refl, (refl, (refl, tt)))

abbrev words : List Text
words = codes "dial" ∷ codes "tcp4" ∷ []

words-Token : All Token words
unfolding is_token contains Text-discrete
words-Token = (
  ((refl, (refl, (refl, (refl, tt)))), (λ e. ground arith), refl),
  (((refl, (refl, (refl, (refl, tt)))), (λ e. ground arith), refl), tt),
)

-- A digest whose bytes are all the length of the text.
abbrev digest : Text → List ℕ
digest t = let n = length t in n ∷ n ∷ n ∷ n ∷ n ∷ n ∷ n ∷ n ∷ n ∷ n ∷ n ∷ n ∷ n ∷ n ∷ n ∷ n ∷ []

fingerprint-refused :
    fingerprint digest (codes "error: dial tcp 10: refused") ≡ codes "0707070707070707"
unfolding fingerprint tokenize word_runs is_token contains token_hash simhash vote votes format
    format_bytes Text-discrete
fingerprint-refused = refl
