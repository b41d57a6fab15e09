-- ===== src/Wire/Bytes.antt =====
-- Big-endian integers in a frame (`from_be_bytes`, `to_be_bytes`, `copy_from_slice`, and `read_u64`,
-- `read_i64`, `read_u32` of crates/hft-wire/src/lib.rs).
use hft_engine_rs.Prelude.{
  ℕ, ◌+◌, ◌-◌, ◌*◌, ◌/◌, ◌%◌, ◌^◌, ◌<◌, ◌≡◌, ◌∙◌, ap, List, [], ◌∷◌, ◌++◌, arith, ltb, length,
  get_or, take, drop, if◌then◌else◌,
}
use hft_engine_rs.Prelude.Int.{ℤ, pos, negsuc, pos_part, neg_part}

abbrev pub byte_at : List ℕ → ℕ → ℕ
byte_at bytes i = get_or bytes i 0

abbrev pub read_u16 : List ℕ → ℕ → ℕ
read_u16 b i = byte_at b i * 2 ^ 8 + byte_at b (i + 1)

unfoldable pub read_u32 : List ℕ → ℕ → ℕ
read_u32 b i =
    byte_at b i * 2 ^ 24
    + byte_at b (i + 1) * 2 ^ 16
    + byte_at b (i + 2) * 2 ^ 8
    + byte_at b (i + 3)

unfoldable pub read_u64 : List ℕ → ℕ → ℕ
read_u64 b i =
    byte_at b i * 2 ^ 56
    + byte_at b (i + 1) * 2 ^ 48
    + byte_at b (i + 2) * 2 ^ 40
    + byte_at b (i + 3) * 2 ^ 32
    + byte_at b (i + 4) * 2 ^ 24
    + byte_at b (i + 5) * 2 ^ 16
    + byte_at b (i + 6) * 2 ^ 8
    + byte_at b (i + 7)

-- The number that a 64-bit pattern stands for in two's complement, and the pattern of a number.
abbrev pub signed64 : ℕ → ℤ
signed64 w = if ltb w (2 ^ 63) then pos w else negsuc (2 ^ 64 - w - 1)

abbrev pub word64 : ℤ → ℕ
word64 (pos n) = n
word64 (negsuc n) = 2 ^ 64 - 1 - n

unfoldable pub read_i64 : List ℕ → ℕ → ℤ
unfolding read_u64
read_i64 b i = signed64 (read_u64 b i)

abbrev pub be_u16 : ℕ → List ℕ
be_u16 n = (n / 2 ^ 8 % 2 ^ 8) ∷ (n % 2 ^ 8) ∷ []

abbrev pub be_u32 : ℕ → List ℕ
be_u32 n = (n / 2 ^ 24 % 2 ^ 8) ∷ (n / 2 ^ 16 % 2 ^ 8) ∷ (n / 2 ^ 8 % 2 ^ 8) ∷ (n % 2 ^ 8) ∷ []

abbrev pub be_u64 : ℕ → List ℕ
be_u64 n = be_u32 (n / 2 ^ 32) ++ be_u32 n

abbrev pub be_i64 : ℤ → List ℕ
be_i64 z = be_u64 (word64 z)

-- `destination[offset..offset + source.len()].copy_from_slice(source)`.
abbrev pub copy_at : ℕ → List ℕ → List ℕ → List ℕ
copy_at offset source destination =
    take offset destination ++ (source ++ drop (offset + length source) destination)

-- An `i64`.
abbrev pub IsI64 : ℤ → Type 0
IsI64 z = (pos_part z < 2 ^ 63) × (neg_part z < 2 ^ 63 + 1)

pub join_u32 :
    (n : ℕ)
    → n < 2 ^ 32
    → n / 2 ^ 24 % 2 ^ 8 * 2 ^ 24
        + n / 2 ^ 16 % 2 ^ 8 * 2 ^ 16
        + n / 2 ^ 8 % 2 ^ 8 * 2 ^ 8
        + n % 2 ^ 8
      ≡ n
join_u32 n h = omega arith

pub signed64-word64 : (z : ℤ) → IsI64 z → signed64 (word64 z) ≡ z
signed64-word64 (pos n) h = ground arith
signed64-word64 (negsuc n) h = ground arith

-- Eight bytes, most significant first, as `read_u64` adds them up.
abbrev pub join_bytes : (a b c d e f g h : ℕ) → ℕ
join_bytes a b c d e f g h =
    a * 2 ^ 56 + b * 2 ^ 48 + c * 2 ^ 40 + d * 2 ^ 32 + e * 2 ^ 24 + f * 2 ^ 16 + g * 2 ^ 8 + h

abbrev pub octet : ℕ → ℕ → ℕ
octet n k = n / 2 ^ k % 2 ^ 8

pub join_u64 :
    (n : ℕ)
    → n < 2 ^ 64
    → join_bytes
        (octet (n / 2 ^ 32) 24)
        (octet (n / 2 ^ 32) 16)
        (octet (n / 2 ^ 32) 8)
        (n / 2 ^ 32 % 2 ^ 8)
        (octet n 24)
        (octet n 16)
        (octet n 8)
        (n % 2 ^ 8)
      ≡ n
join_u64 n h = omega arith

word64-lt : (z : ℤ) → IsI64 z → word64 z < 2 ^ 64
word64-lt (pos n) h = omega arith
word64-lt (negsuc n) h = omega arith

pub join_i64 :
    (z : ℤ)
    → IsI64 z
    → let n = word64 z in
      signed64 (
        join_bytes
          (octet (n / 2 ^ 32) 24)
          (octet (n / 2 ^ 32) 16)
          (octet (n / 2 ^ 32) 8)
          (n / 2 ^ 32 % 2 ^ 8)
          (octet n 24)
          (octet n 16)
          (octet n 8)
          (n % 2 ^ 8))
      ≡ z
join_i64 z h = ap signed64 (join_u64 (word64 z) (word64-lt z h)) ∙ signed64-word64 z h
