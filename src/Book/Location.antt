-- ===== src/Book/Location.antt =====
-- crates/hft-book/src/lib.rs: `OrderIndex::encode_location` and `OrderIndex::decode_location`. `levels`
-- and `orders` are the array lengths LEVELS and ORDERS; an encoded location is never 0.
pub mod RoundTrip
mod Tests
use hft_engine_rs.Prelude.{
  ℕ, ◌+◌, ◌-◌, ◌*◌, ◌/◌, ◌%◌, ◌==◌, ◌||◌, Option, none, some, leb, if◌then◌else◌,
}
use hft_engine_rs.Prelude.Words.{checked_add_u64, checked_mul_u64, ◌>>=?◌}
use hft_engine_rs.Types.{Side}

pub record OrderLocation : Type 0 where
  pub side : Side
  pub level_index : ℕ
  pub slot : ℕ

-- `usize::from(side == Side::Sell)`.
abbrev pub side_bit : Side → ℕ
side_bit Side.buy = 0
side_bit Side.sell = 1

unfoldable pub encode_location : ℕ → ℕ → OrderLocation → Option ℕ
encode_location levels orders location =
    if leb levels location.level_index || leb orders location.slot
    then none
    else checked_mul_u64 location.level_index orders >>=? λ base.
        checked_add_u64 base location.slot >>=? λ flat. checked_mul_u64 flat 2 >>=? λ doubled.
        checked_add_u64 doubled (side_bit location.side) >>=? λ sided.
        checked_add_u64 sided 1 >>=? λ encoded. (if encoded == 0 then none else some encoded)

-- `checked_div` gives nothing for the divisor 0.
abbrev pub checked_div : ℕ → ℕ → Option ℕ
checked_div a b = if b == 0 then none else some (a / b)

unfoldable pub decode_location : ℕ → ℕ → ℕ → Option OrderLocation
decode_location levels orders encoded =
    let flat = (encoded - 1) / 2 in
    checked_div flat orders >>=? λ level_index.
    (if leb levels level_index
      then none
      else some (record {
        side = if (encoded - 1) % 2 == 0 then Side.buy else Side.sell;
        level_index = level_index;
        slot = flat % orders;
      }))
