-- ===== src/Rag/Engine/Uuid.antt =====
-- internal/rag/engine.go: the identifier of a point.
use Prim.Native.Nat.{bit_xor}
use kube_diagnose.Common.{
  ℕ, zero, suc, ◌+◌, ◌*◌, ◌/◌, ◌%◌, ◌^◌, [], ◌∷◌, ◌++◌, Text, ltb, if◌then◌else◌,
}

abbrev pub offset64_hi : ℕ
offset64_hi = 0xcbf29ce484222325

abbrev pub offset64_lo : ℕ
offset64_lo = 0x14c4b09d7afb5f99

abbrev pub prime64 : ℕ
prime64 = 0x00000100000001B3

-- One round of FNV-1a for one half, on uint64.
unfoldable pub fnv_round : ℕ → ℕ → ℕ
fnv_round h b = bit_xor h b * prime64 % 2 ^ 64

unfoldable pub fnv_rounds : ℕ → Text → ℕ
fnv_rounds h [] = h
fnv_rounds h (b ∷ bs) = fnv_rounds (fnv_round h b) bs

abbrev pub lower_hex_digit : ℕ → ℕ
lower_hex_digit n = if ltb n 10 then 48 + n else 87 + n

-- `%0<width>x` of a number below 16 ^ width.
unfoldable pub hex_fixed : ℕ → ℕ → Text
hex_fixed zero n = []
hex_fixed (suc width) n = hex_fixed width (n / 16) ++ (lower_hex_digit (n % 16) ∷ [])

unfoldable pub uuid_text : ℕ → ℕ → Text
uuid_text hi lo =
    hex_fixed 8 (hi / 2 ^ 32)
    ++ (45 ∷ hex_fixed 4 (hi / 2 ^ 16 % 2 ^ 16)
        ++ (45 ∷ hex_fixed 4 (hi % 2 ^ 16)
            ++ (45 ∷ hex_fixed 4 (lo / 2 ^ 48) ++ (45 ∷ hex_fixed 12 (lo % 2 ^ 48)))))

unfoldable pub doc_uuid : Text → Text
doc_uuid id = uuid_text (fnv_rounds offset64_hi id) (fnv_rounds offset64_lo id)
