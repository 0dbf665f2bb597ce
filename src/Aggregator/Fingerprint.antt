-- ===== src/Aggregator/Fingerprint.antt =====
-- internal/aggregator/fingerprint.go: tokens, SimHash and the text form of a fingerprint. MD5 is a
-- parameter that gives the digest's bytes. A uint64 is the list of its bits, lowest first.
pub mod Votes
pub mod Hex
pub mod Tokens
mod Tests
use kube_diagnose.Common.{
  ℕ, zero, suc, ◌+◌, ◌-◌, ◌*◌, ◌/◌, ◌%◌, List, [], ◌∷◌, ◌++◌, map, Bool, true, false, not, ◌&&◌,
  ◌||◌, Option, none, some, Text, Text-discrete, codes, contains, ℤ, pos, negsuc, Float64,
  float_ratio, ite, ltb, leb, ◌==◌, if◌then◌else◌, ◌>>=◌, length, take, keep,
}

-- [a-zA-Z0-9]
abbrev pub is_word_byte : ℕ → Bool
is_word_byte c = (leb 97 c && leb c 122) || ((leb 65 c && leb c 90) || (leb 48 c && leb c 57))

abbrev pub flush : Text → List Text → List Text
flush [] rest = rest
flush (c ∷ cs) rest = (c ∷ cs) ∷ rest

-- `strings.Fields(reNonWord.ReplaceAllString(s, " "))`: the runs of word bytes.
unfoldable pub word_runs : Text → Text → List Text
word_runs run [] = flush run []
word_runs run (c ∷ cs) = elim (is_word_byte c) [
  | true ↦ word_runs (run ++ (c ∷ [])) cs
  | false ↦ flush run (word_runs [] cs)
]

abbrev pub is_all_digits : Text → Bool
is_all_digits [] = true
is_all_digits (c ∷ cs) = (leb 48 c && leb c 57) && is_all_digits cs

abbrev pub stop_words : List Text
stop_words =
    codes "a"
    ∷ codes "an"
    ∷ codes "the"
    ∷ codes "and"
    ∷ codes "or"
    ∷ codes "but"
    ∷ codes "in"
    ∷ codes "on"
    ∷ codes "at"
    ∷ codes "to"
    ∷ codes "for"
    ∷ codes "of"
    ∷ codes "with"
    ∷ codes "by"
    ∷ codes "from"
    ∷ codes "is"
    ∷ codes "are"
    ∷ codes "was"
    ∷ codes "were"
    ∷ codes "be"
    ∷ codes "been"
    ∷ codes "being"
    ∷ codes "have"
    ∷ codes "has"
    ∷ codes "had"
    ∷ codes "do"
    ∷ codes "does"
    ∷ codes "did"
    ∷ codes "will"
    ∷ codes "would"
    ∷ codes "could"
    ∷ codes "should"
    ∷ codes "may"
    ∷ codes "might"
    ∷ codes "can"
    ∷ codes "not"
    ∷ codes "no"
    ∷ codes "nor"
    ∷ codes "so"
    ∷ codes "yet"
    ∷ codes "both"
    ∷ codes "either"
    ∷ codes "neither"
    ∷ codes "this"
    ∷ codes "that"
    ∷ codes "these"
    ∷ codes "those"
    ∷ codes "it"
    ∷ codes "its"
    ∷ codes "error"
    ∷ codes "err"
    ∷ codes "warn"
    ∷ codes "warning"
    ∷ codes "info"
    ∷ codes "debug"
    ∷ codes "level"
    ∷ codes "msg"
    ∷ codes "message"
    ∷ codes "log"
    ∷ codes "time"
    ∷ codes "ts"
    ∷ codes "caller"
    ∷ codes "source"
    ∷ codes "line"
    ∷ codes "pod"
    ∷ codes "container"
    ∷ codes "namespace"
    ∷ codes "node"
    ∷ []

unfoldable pub is_token : Text → Bool
is_token p = not (leb (length p) 1) && (not (contains p stop_words) && not (is_all_digits p))

unfoldable pub tokenize : Text → List Text
tokenize normalized = keep is_token (word_runs [] normalized)

abbrev pub Bits : Type 0
Bits = List Bool

-- The lowest `width` bits.
abbrev pub bits_of : ℕ → ℕ → Bits
bits_of zero n = []
bits_of (suc width) n = (n % 2 == 1) ∷ bits_of width (n / 2)

abbrev pub number_of : Bits → ℕ
number_of [] = 0
number_of (b ∷ bs) = (if b then 1 else 0) + 2 * number_of bs

-- `binary.LittleEndian.Uint64`: the first byte is the lowest.
abbrev pub little_endian : List ℕ → Bits
little_endian [] = []
little_endian (byte ∷ bytes) = bits_of 8 byte ++ little_endian bytes

unfoldable pub token_hash : (Text → List ℕ) → Text → Bits
token_hash md5 tok = little_endian (take 8 (md5 tok))

abbrev pub add_one : ℤ → ℤ
add_one (pos n) = pos (n + 1)
add_one (negsuc zero) = pos 0
add_one (negsuc (suc n)) = negsuc n

abbrev pub sub_one : ℤ → ℤ
sub_one (pos zero) = negsuc 0
sub_one (pos (suc n)) = pos n
sub_one (negsuc n) = negsuc (n + 1)

abbrev pub is_positive : ℤ → Bool
is_positive (pos n) = ltb 0 n
is_positive (negsuc n) = false

-- One token's votes, bit by bit.
unfoldable pub vote : Bits → List ℤ → List ℤ
vote hash [] = []
vote [] (n ∷ v) = n ∷ v
vote (b ∷ hash) (n ∷ v) = (if b then add_one n else sub_one n) ∷ vote hash v

unfoldable pub votes : List Bits → List ℤ → List ℤ
votes [] v = v
votes (hash ∷ hashes) v = votes hashes (vote hash v)

abbrev pub zeros : ℕ → List ℤ
zeros zero = []
zeros (suc n) = pos 0 ∷ zeros n

unfoldable pub simhash : List Bits → Bits
simhash hashes = map is_positive (votes hashes (zeros 64))

abbrev pub hex_digit : ℕ → ℕ
hex_digit n = if ltb n 10 then 48 + n else 87 + n

-- `%016x`: two digits for each byte, the highest byte first.
unfoldable pub format_bytes : Bits → Text → Text
format_bytes (a ∷ b ∷ c ∷ d ∷ e ∷ f ∷ g ∷ h ∷ rest) text =
    format_bytes rest (
      hex_digit (number_of (e ∷ f ∷ g ∷ h ∷ []))
      ∷ hex_digit (number_of (a ∷ b ∷ c ∷ d ∷ []))
      ∷ text)
format_bytes _ text = text

unfoldable pub format : Bits → Text
format bits = format_bytes bits []

-- Of a normalised message.
unfoldable pub fingerprint : (Text → List ℕ) → Text → Text
fingerprint md5 normalized = format (simhash (map (token_hash md5) (tokenize normalized)))

abbrev pub hex_value : ℕ → Option ℕ
hex_value c =
    if leb 48 c && leb c 57
    then some (c - 48)
    else if leb 97 c && leb c 102
    then some (c - 87)
    else if leb 65 c && leb c 70
    then some (c - 55)
    else none

-- `hex.DecodeString`: none is an error.
unfoldable pub decode_hex : Text → Option (List ℕ)
decode_hex [] = some []
decode_hex (c ∷ []) = none
decode_hex (c ∷ d ∷ cs) = do
  hi ← hex_value c
  lo ← hex_value d
  rest ← decode_hex cs
  some ((hi * 16 + lo) ∷ rest)

unfoldable pub parse_fingerprint : Text → Option Bits
parse_fingerprint h =
    if length h == 16 then (do bytes ← decode_hex h; some (little_endian bytes)) else none

-- `bits.OnesCount64(a ^ b)`
unfoldable pub hamming_distance : Bits → Bits → ℕ
hamming_distance (true ∷ a) (false ∷ b) = suc (hamming_distance a b)
hamming_distance (false ∷ a) (true ∷ b) = suc (hamming_distance a b)
hamming_distance (x ∷ a) (y ∷ b) = hamming_distance a b
hamming_distance _ _ = 0

-- The quotient by 64 and the difference are exact in float64.
unfoldable pub similarity : Text → Text → Float64
similarity a b = elim (parse_fingerprint a) [
  | none ↦ 0
  | some ua ↦ elim (parse_fingerprint b) [
    | none ↦ 0
    | some ub ↦ float_ratio (64 - hamming_distance ua ub) 64
  ]
]
