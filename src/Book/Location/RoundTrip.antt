-- ===== src/Book/Location/RoundTrip.antt =====
-- crates/hft-book/src/lib.rs: what `OrderIndex::encode_location` makes of a location, and that
-- `OrderIndex::decode_location` reads it back.
use native.Mathlib.Nat.{
  div-add-mod', mul-le-mul_right, mul-add-div_right, div-eq_of_lt, mul-add-mod_self_right,
  mod-eq_of_lt,
}
use hft_engine_rs.Prelude.{ℕ, ◌+◌, ◌-◌, ◌*◌, ◌/◌, ◌%◌, ◌≤◌, ◌<◌, ◌≡◌, ap, ◌∙◌, some, arith}
use hft_engine_rs.Prelude.Words.{u64_limit}
use hft_engine_rs.Types.{Side}
use hft_engine_rs.Book.Location.{OrderLocation, encode_location, decode_location, side_bit}

-- The number of a location among those of both sides.
abbrev pub location_code : ℕ → OrderLocation → ℕ
location_code orders l = (l.level_index * orders + l.slot) * 2 + side_bit l.side + 1

flat_lt : (i n o s : ℕ) → i < n → s < o → i * o + s < n * o
flat_lt i n o s h k = let m : (i + 1) * o ≤ n * o = mul-le-mul_right o (omega arith) in omega arith

encode_parts :
    (side : Side) (levels orders i s : ℕ)
    → i < levels
    → s < orders
    → levels * orders * 2 < u64_limit
    → encode_location levels orders (record { side = side; level_index = i; slot = s })
      ≡ some (location_code orders (record { side = side; level_index = i; slot = s }))
unfolding encode_location
encode_parts Side.buy levels orders i s h k b = ground (arith, flat_lt i levels orders s h k)
encode_parts Side.sell levels orders i s h k b = ground (arith, flat_lt i levels orders s h k)

flat_div : (i o s : ℕ) → s < o → (i * o + s) / o ≡ i
flat_div i o s h =
    mul-add-div_right (omega arith) i s ∙ (ap (λ (k : ℕ). i + k) (div-eq_of_lt h) ∙ omega arith)

flat_mod : (i o s : ℕ) → s < o → (i * o + s) % o ≡ s
flat_mod i o s h = mul-add-mod_self_right i o s ∙ mod-eq_of_lt h

halved : (side : Side) (n : ℕ) → (n * 2 + side_bit side + 1 - 1) / 2 ≡ n
halved Side.buy n = omega arith
halved Side.sell n = omega arith

decode_flat :
    (side : Side) (levels orders i s : ℕ)
    → i < levels
    → s < orders
    → decode_location levels orders
        (location_code orders (record { side = side; level_index = i; slot = s }))
      ≡ some (record { side = side; level_index = i; slot = s })
unfolding decode_location
decode_flat Side.buy levels orders i s h k =
    rw (halved Side.buy (i * orders + s), flat_div i orders s k, flat_mod i orders s k)
      (ground arith)
decode_flat Side.sell levels orders i s h k =
    rw (halved Side.sell (i * orders + s), flat_div i orders s k, flat_mod i orders s k)
      (ground arith)

-- Where twice the number of slots is representable, a location within the arrays is encoded, as a
-- number from 1 to twice the number of slots, and decoding gives the location back.
pub decode-encode_location :
    (levels orders : ℕ) (l : OrderLocation)
    → l.level_index < levels
    → l.slot < orders
    → levels * orders * 2 < u64_limit
    → (encode_location levels orders l ≡ some (location_code orders l))
      × (1 ≤ location_code orders l)
      × (location_code orders l ≤ levels * orders * 2)
      × (decode_location levels orders (location_code orders l) ≡ some l)
decode-encode_location levels orders l h k b = (
  encode_parts l.side levels orders l.level_index l.slot h k b,
  omega arith,
  code_le l.side,
  decode_flat l.side levels orders l.level_index l.slot h k,
)
  where
    code_le :
        (side : Side)
        → (l.level_index * orders + l.slot) * 2 + side_bit side + 1 ≤ levels * orders * 2
    code_le Side.buy = omega (arith, flat_lt l.level_index levels orders l.slot h k)
    code_le Side.sell = omega (arith, flat_lt l.level_index levels orders l.slot h k)

-- Whatever an occupied place holds, a location decoded from it lies within the arrays, and is the one
-- that this number encodes.
pub encode-decode_location :
    (levels orders encoded : ℕ) (l : OrderLocation)
    → 1 ≤ encoded
    → decode_location levels orders encoded ≡ some l
    → (l.level_index < levels) × (l.slot < orders) × (location_code orders l ≡ encoded)
unfolding decode_location
encode-decode_location levels orders encoded l h e =
    ground (arith, div-add-mod' ((encoded - 1) / 2) orders)
