-- ===== src/Aggregator/Fingerprint/Hex.antt =====
-- internal/aggregator/fingerprint.go: fingerprints as text and their distance.
use kube_diagnose.Common.{
  ℕ, zero, suc, ◌+◌, ◌-◌, ◌*◌, ◌/◌, ◌%◌, ◌==◌, ◌<◌, List, [], ◌∷◌, ◌++◌, Bool, true, false, some,
  Text, float_ratio, sym, ◌≡◌, refl, ap, ◌∙◌, arith, length,
}
use kube_diagnose.Aggregator.Fingerprint.{
  Bits, bits_of, number_of, little_endian, hex_digit, hex_value, format_bytes, format, decode_hex,
  parse_fingerprint, hamming_distance, similarity,
}

-- The digits of a nibble are read back.
hex_value-hex_digit : (n : ℕ) → n < 16 → hex_value (hex_digit n) ≡ some n
hex_value-hex_digit n h = ground arith

bit-number_of : (b : Bool) (bs : Bits) → (number_of (b ∷ bs) % 2 == 1) ≡ b
bit-number_of true bs = ground arith
bit-number_of false bs = ground arith

half-number_of : (b : Bool) (bs : Bits) → number_of (b ∷ bs) / 2 ≡ number_of bs
half-number_of true bs = omega arith
half-number_of false bs = omega arith

bits_of-number_of : (bs : Bits) → bits_of (length bs) (number_of bs) ≡ bs
bits_of-number_of [] = refl
bits_of-number_of (b ∷ bs) =
    rw (bit-number_of b bs, half-number_of b bs) (ap (◌∷◌ b) (bits_of-number_of bs))

nibble-lt : (a b c d : Bool) → number_of (a ∷ b ∷ c ∷ d ∷ []) < 16
nibble-lt a b c d = ground arith

byte-number_of :
    (a b c d : Bool) (hi : Bits)
    → number_of hi * 16 + number_of (a ∷ b ∷ c ∷ d ∷ []) ≡ number_of (a ∷ b ∷ c ∷ d ∷ hi)
byte-number_of a b c d hi = omega arith

-- A list of bits whose length is a multiple of eight.
pub data Octets : Bits → Type 0 where
  empty : Octets []
  octet :
      (a b c d e f g h : Bool) (rest : Bits)
      → Octets rest
      → Octets (a ∷ b ∷ c ∷ d ∷ e ∷ f ∷ g ∷ h ∷ rest)

pub octets : (n : ℕ) (bits : Bits) → length bits ≡ 8 * n → Octets bits
octets n [] l = empty
octets n (a ∷ []) l = absurd (omega arith)
octets n (a ∷ b ∷ []) l = absurd (omega arith)
octets n (a ∷ b ∷ c ∷ []) l = absurd (omega arith)
octets n (a ∷ b ∷ c ∷ d ∷ []) l = absurd (omega arith)
octets n (a ∷ b ∷ c ∷ d ∷ e ∷ []) l = absurd (omega arith)
octets n (a ∷ b ∷ c ∷ d ∷ e ∷ f ∷ []) l = absurd (omega arith)
octets n (a ∷ b ∷ c ∷ d ∷ e ∷ f ∷ g ∷ []) l = absurd (omega arith)
octets zero (a ∷ b ∷ c ∷ d ∷ e ∷ f ∷ g ∷ h ∷ rest) l = absurd (omega arith)
octets (suc n) (a ∷ b ∷ c ∷ d ∷ e ∷ f ∷ g ∷ h ∷ rest) l =
    octet a b c d e f g h rest (octets n rest (omega arith))

-- The same bytes in the opposite order, before the bits given.
abbrev pub swapped : {bits : Bits} → Octets bits → Bits → Bits
swapped empty done = done
swapped (octet a b c d e f g h rest o) done = swapped o (a ∷ b ∷ c ∷ d ∷ e ∷ f ∷ g ∷ h ∷ done)

decode_hex-byte :
    (hi lo : ℕ) (text : Text) (bytes : List ℕ)
    → hi < 16
    → lo < 16
    → decode_hex text ≡ some bytes
    → decode_hex (hex_digit hi ∷ hex_digit lo ∷ text) ≡ some ((hi * 16 + lo) ∷ bytes)
unfolding decode_hex
decode_hex-byte hi lo text bytes h l e =
    rw (hex_value-hex_digit hi h, hex_value-hex_digit lo l, e) refl

length-format_bytes :
    {bits : Bits} (o : Octets bits) (text : Text)
    → length (format_bytes bits text) * 4 ≡ length bits + length text * 4
unfolding format_bytes
length-format_bytes empty text = omega arith
length-format_bytes (octet a b c d e f g h rest o) text = omega (
  arith,
  length-format_bytes o (
      hex_digit (number_of (e ∷ f ∷ g ∷ h ∷ []))
      ∷ hex_digit (number_of (a ∷ b ∷ c ∷ d ∷ []))
      ∷ text),
)

-- Reading the text of some bytes gives them in the opposite order.
decode_hex-format_bytes :
    {bits : Bits} (o : Octets bits) (text : Text) (bytes : List ℕ)
    → decode_hex text ≡ some bytes
    → (read : List ℕ) × (decode_hex (format_bytes bits text) ≡ some read)
      × (little_endian read ≡ swapped o (little_endian bytes))
unfolding format_bytes
decode_hex-format_bytes empty text bytes e = (bytes, e, refl)
decode_hex-format_bytes (octet a b c d e f g h rest o) text bytes eq =
    let hi = number_of (e ∷ f ∷ g ∷ h ∷ []) in
    let lo = number_of (a ∷ b ∷ c ∷ d ∷ []) in
    let byte = decode_hex-byte hi lo text bytes (nibble-lt e f g h) (nibble-lt a b c d) eq in
    let more = decode_hex-format_bytes o _ ((hi * 16 + lo) ∷ bytes) byte in
    (more.0, more.1, more.2 ∙ ap (λ bs. swapped o (bs ++ little_endian bytes)) bits)
  where
    bits :
        bits_of 8 (number_of (e ∷ f ∷ g ∷ h ∷ []) * 16 + number_of (a ∷ b ∷ c ∷ d ∷ []))
        ≡ a ∷ b ∷ c ∷ d ∷ e ∷ f ∷ g ∷ h ∷ []
    bits =
        ap (bits_of 8) (byte-number_of a b c d (e ∷ f ∷ g ∷ h ∷ []))
        ∙ bits_of-number_of (a ∷ b ∷ c ∷ d ∷ e ∷ f ∷ g ∷ h ∷ [])

read_back :
    {bits : Bits} (o : Octets bits)
    → length bits ≡ 64
    → parse_fingerprint (format bits) ≡ some (swapped o [])
unfolding parse_fingerprint format decode_hex
read_back {bits} o l =
    let read = decode_hex-format_bytes o [] [] refl in rw (sixteen, read.1) (ap some read.2)
  where
    sixteen : (length (format_bytes bits []) == 16) ≡ true
    sixteen = ground (arith, length-format_bytes o [])

-- The text of a fingerprint of 64 bits reads back as its eight bytes in the opposite order.
pub parse_fingerprint-format :
    (bits : Bits) (l : length bits ≡ 64)
    → parse_fingerprint (format bits) ≡ some (swapped (octets 8 bits l) [])
parse_fingerprint-format bits l = read_back (octets 8 bits l) l

hamming_distance-append :
    (a b c d : Bits)
    → length a ≡ length b
    → hamming_distance (a ++ c) (b ++ d) ≡ hamming_distance a b + hamming_distance c d
unfolding hamming_distance
hamming_distance-append [] [] c d l = omega arith
hamming_distance-append [] (y ∷ b) c d l = absurd (omega arith)
hamming_distance-append (x ∷ a) [] c d l = absurd (omega arith)
hamming_distance-append (true ∷ a) (true ∷ b) c d l = hamming_distance-append a b c d (omega arith)
hamming_distance-append (true ∷ a) (false ∷ b) c d l =
    omega (arith, hamming_distance-append a b c d (omega arith))
hamming_distance-append (false ∷ a) (true ∷ b) c d l =
    omega (arith, hamming_distance-append a b c d (omega arith))
hamming_distance-append (false ∷ a) (false ∷ b) c d l =
    hamming_distance-append a b c d (omega arith)

hamming_distance-swapped :
    {a b : Bits} (o : Octets a) (q : Octets b) (c d : Bits)
    → length a ≡ length b
    → length c ≡ length d
    → hamming_distance (swapped o c) (swapped q d) ≡ hamming_distance a b + hamming_distance c d
unfolding hamming_distance
hamming_distance-swapped empty empty c d l m = omega arith
hamming_distance-swapped empty (octet _ _ _ _ _ _ _ _ rest q) c d l m = absurd (omega arith)
hamming_distance-swapped (octet _ _ _ _ _ _ _ _ rest o) empty c d l m = absurd (omega arith)
hamming_distance-swapped (octet a b c d e f g h rest o) (octet i j k l m n p q more r) u v s t =
    let x : Bits = a ∷ b ∷ c ∷ d ∷ e ∷ f ∷ g ∷ h ∷ [] in
    let y : Bits = i ∷ j ∷ k ∷ l ∷ m ∷ n ∷ p ∷ q ∷ [] in
    omega (
      arith,
      hamming_distance-swapped o r (x ++ u) (y ++ v) (omega arith) (omega arith),
      hamming_distance-append x y u v refl,
      hamming_distance-append x y rest more refl,
    )

-- For two fingerprints of 64 bits in their text form, Similarity is one less the share of the
-- bits in which they differ.
pub similarity-format :
    (a b : Bits)
    → length a ≡ 64
    → length b ≡ 64
    → similarity (format a) (format b) ≡ float_ratio (64 - hamming_distance a b) 64
unfolding similarity hamming_distance
similarity-format a b l m =
    rw (parse_fingerprint-format a l, parse_fingerprint-format b m, similarity)
      (ap (λ n. float_ratio (64 - n) 64)
        (hamming_distance-swapped (octets 8 a l) (octets 8 b m) [] [] (l ∙ sym m) refl
          ∙ omega arith))
