-- ===== src/Risk/Account.antt =====
-- crates/hft-risk/src/lib.rs: one account's exposure, and the limits that an order is checked against.
pub mod Limits
pub mod Fills
use hft_engine_rs.Prelude.{
  ℕ, ◌+◌, ◌^◌, ◌*◌, ◌<◌, Bool, ◌||◌, Option, none, some, Result, ok, err, ok_or, ltb, if◌then◌else◌,
}
use hft_engine_rs.Prelude.Int.{ℤ, pos, ◌+ℤ◌, ◌-ℤ◌, ltb_ℤ, nat_abs}
use hft_engine_rs.Prelude.Words.{
  checked_add_u32, checked_add_u128, checked_mul_u128, checked_sub, checked_i128, to_i128,
}
use hft_engine_rs.Prelude.Outcome.{◌>>=◌, ◌>>◌, reject_if}
use hft_engine_rs.Types.{Side, NewOrder, RejectReason}

pub record RiskLimits : Type 0 where
  pub max_quantity : ℕ
  pub max_notional : ℕ
  pub max_abs_position : ℕ
  pub max_open_orders : ℕ
  pub minimum_price : ℤ
  pub maximum_price : ℤ

pub record AccountState : Type 0 where
  pub id : ℕ
  pub limits : RiskLimits
  pub settled_position : ℤ
  pub reserved_buys : ℕ
  pub reserved_sells : ℕ
  pub open_orders : ℕ
  pub killed : Bool

-- `checked_abs` of an `i64`, then the conversion to `u64`, which always fits.
abbrev pub checked_abs_i64 : ℤ → Option ℕ
checked_abs_i64 z = if ltb (nat_abs z) (2 ^ 63) then some (nat_abs z) else none

-- The step `.ok_or(RejectReason::ArithmeticOverflow)?`.
abbrev pub no_overflow : {A : Type 0} → Option A → Result RejectReason A
no_overflow o = ok_or o RejectReason.arithmetic_overflow

unfoldable pub notional : ℤ → ℕ → Result RejectReason ℕ
notional price quantity = do
  absolute_price ← no_overflow (checked_abs_i64 price)
  no_overflow (checked_mul_u128 absolute_price quantity)

-- The reserved totals, buys and sells, with a quantity more on one side.
unfoldable pub reserve_more : AccountState → Side → ℕ → Result RejectReason (ℕ × ℕ)
reserve_more a Side.buy quantity = do
  buys ← no_overflow (checked_add_u128 a.reserved_buys quantity)
  ok (buys, a.reserved_sells)
reserve_more a Side.sell quantity = do
  sells ← no_overflow (checked_add_u128 a.reserved_sells quantity)
  ok (a.reserved_buys, sells)

-- The worst cases of the position under the given reserved totals.
unfoldable pub check_position : AccountState → ℕ → ℕ → Result RejectReason (Unit {0})
check_position a buys sells = do
  added ← no_overflow (to_i128 buys)
  worst_long ← no_overflow (checked_i128 (a.settled_position +ℤ added))
  taken ← no_overflow (to_i128 sells)
  worst_short ← no_overflow (checked_i128 (a.settled_position -ℤ taken))
  reject_if
      (ltb_ℤ (pos a.limits.max_abs_position) worst_long
        || ltb_ℤ worst_short (pos 0 -ℤ pos a.limits.max_abs_position))
      RejectReason.position_limit

unfoldable pub evaluate_limits : AccountState → NewOrder → Result RejectReason (ℕ × ℕ × ℕ)
evaluate_limits a o = do
  reject_if a.killed RejectReason.kill_switch
  reject_if (ltb a.limits.max_quantity o.quantity) RejectReason.quantity_limit
  reject_if (ltb_ℤ o.price a.limits.minimum_price || ltb_ℤ a.limits.maximum_price o.price)
      RejectReason.price_collar
  value ← notional o.price o.quantity
  reject_if (ltb a.limits.max_notional value) RejectReason.notional_limit
  reserved ← reserve_more a o.side o.quantity
  check_position a reserved.0 reserved.1
  open_orders ← no_overflow (checked_add_u32 a.open_orders 1)
  reject_if (ltb a.limits.max_open_orders open_orders) RejectReason.open_order_limit
  ok (reserved.0, reserved.1, open_orders)

-- The settled position and the reserved totals after a fill that takes `released` out of one side's
-- total.
unfoldable pub exposure_after_fill : AccountState → Side → ℕ → ℕ → Result RejectReason (ℤ × ℕ × ℕ)
exposure_after_fill a Side.buy filled released = do
  settled ← no_overflow (checked_i128 (a.settled_position +ℤ pos filled))
  buys ← no_overflow (checked_sub a.reserved_buys released)
  ok (settled, buys, a.reserved_sells)
exposure_after_fill a Side.sell filled released = do
  settled ← no_overflow (checked_i128 (a.settled_position -ℤ pos filled))
  sells ← no_overflow (checked_sub a.reserved_sells released)
  ok (settled, a.reserved_buys, sells)
