-- ===== src/Common/Strings.antt =====
-- Go strings as lists of bytes, and the functions of package strings that the program calls.
use Prim.Native.Nat.{ℕ, zero, suc, ◌+◌, ◌/◌, ◌%◌}
use Prim.Native.Char.{code}
use Prim.Native.String.{String}
use mathlib.Core.Bool.{Bool, true, false, ◌&&◌, ◌||◌}
use mathlib.Core.Logic.{ite}
use mathlib.Core.List.{List, [], ◌∷◌, ◌++◌}
use native.Mathlib.Decide.{ℕ_discrete}
use kube_diagnose.Common.Numbers.{ltb, leb, ◌==◌, if◌then◌else◌}

abbrev pub Text : Type 0
Text = List ℕ

-- The bytes of an ASCII literal.
abbrev pub codes : String → Text
codes String.[] = []
codes (String.◌∷◌ c s) = code c ∷ codes s

unfoldable pub Text-discrete : Discrete Text
unfolding ℕ_discrete
Text-discrete = hlevel ℕ_discrete

-- Membership in a set of texts.
unfoldable pub contains : Text → List Text → Bool
contains t [] = false
contains t (s ∷ ss) = ite (Text-discrete s t) true (contains t ss)

-- `fmt.Sprintf("%d", n)`: the digits, last one first on the stack, on fuel; one digit a round.
digits : ℕ → ℕ → Text → Text
digits zero n out = out
digits (suc fuel) n out =
    let rest = digits fuel (n / 10) ((b'0' + n % 10) ∷ out) in
    if ltb n 10 then (b'0' + n) ∷ out else rest

unfoldable pub decimal : ℕ → Text
unfolding digits
decimal n = digits (suc n) n []

-- `strings.Join`.
unfoldable pub join : List Text → Text → Text
join [] sep = []
join (p ∷ ps) sep = elim ps [ [] ↦ p | q ∷ qs ↦ p ++ (sep ++ join ps sep) ]

abbrev pub ascii_space : ℕ → Bool
ascii_space a = a == 0x20 || (leb 0x09 a && leb a 0x0D)

-- The length in bytes of the white space that a text begins with, 0 for none: unicode.IsSpace
-- on the first rune, in UTF-8.
unfoldable pub space_width : Text → ℕ
space_width [] = 0
space_width (a ∷ []) = if ascii_space a then 1 else 0
space_width (a ∷ b ∷ []) =
    if ascii_space a then 1 else if a == 0xC2 && (b == 0x85 || b == 0xA0) then 2 else 0
space_width (a ∷ b ∷ c ∷ _) =
    if ascii_space a
    then 1
    else if a == 0xC2 && (b == 0x85 || b == 0xA0)
    then 2
    else if a == 0xE1 && (b == 0x9A && c == 0x80)
    then 3
    else if a == 0xE2
        && (b == 0x80 && (leb 0x80 c && leb c 0x8A || (c == 0xA8 || (c == 0xA9 || c == 0xAF)))
            || b == 0x81 && c == 0x9F)
    then 3
    else if a == 0xE3 && (b == 0x80 && c == 0x80)
    then 3
    else 0
