-- ===== src/Risk/Account/Limits.antt =====
-- crates/hft-risk/src/lib.rs: exactly when `evaluate_limits` lets an order through.
use hft_engine_rs.Prelude.{
  ℕ, ◌+◌, ◌*◌, ◌^◌, ◌≤◌, ◌<◌, ◌≡◌, false, ok, arith, Result-cases, inl, inr, if◌then◌else◌,
}
use hft_engine_rs.Prelude.Int.{ℤ, ◌+ℤ◌, ◌-ℤ◌, ◌≤ℤ◌, nat_abs, pos_part, neg_part}
use hft_engine_rs.Prelude.Words.{u32_limit, u128_limit}
use hft_engine_rs.Types.{NewOrder, is_buy}
use hft_engine_rs.Risk.Account.{
  AccountState, check_position, notional, reserve_more, evaluate_limits,
}

-- Were all reserved buys filled and no sells, or all sells and no buys, the position would stay
-- within the limit on either side.
pub record PositionWithin (a : AccountState) (buys sells : ℕ) : Type 0 where
  pub long :
      pos_part a.settled_position + buys ≤ a.limits.max_abs_position + neg_part a.settled_position
  pub short :
      neg_part a.settled_position + sells ≤ a.limits.max_abs_position + pos_part a.settled_position

-- The field types: the limit is a `u64`, and the settled position an `i128` away from its ends.
pub record AccountFits (a : AccountState) : Type 0 where
  pub limit : a.limits.max_abs_position < 2 ^ 64
  pub settled : nat_abs a.settled_position < 2 ^ 126
  pub value : a.limits.max_notional < u128_limit
  pub orders : a.limits.max_open_orders < u32_limit

check_position_sound :
    (a : AccountState) (buys sells : ℕ)
    → check_position a buys sells ≡ ok tt
    → PositionWithin a buys sells
unfolding check_position ◌+ℤ◌ ◌-ℤ◌
check_position_sound a buys sells h = ground arith

check_position_complete :
    (a : AccountState) (buys sells : ℕ)
    → AccountFits a
    → PositionWithin a buys sells
    → check_position a buys sells ≡ ok tt
unfolding check_position ◌+ℤ◌ ◌-ℤ◌
check_position_complete a buys sells f w = ground arith

-- The reserved totals once the order is added on its side.
abbrev pub buys_with : AccountState → NewOrder → ℕ
buys_with a o = a.reserved_buys + (if is_buy o.side then o.quantity else 0)

abbrev pub sells_with : AccountState → NewOrder → ℕ
sells_with a o = a.reserved_sells + (if is_buy o.side then 0 else o.quantity)

-- The limits, as the account's owner states them.
pub record Admits (a : AccountState) (o : NewOrder) : Type 0 where
  pub alive : a.killed ≡ false
  pub quantity : o.quantity ≤ a.limits.max_quantity
  pub above : a.limits.minimum_price ≤ℤ o.price
  pub below : o.price ≤ℤ a.limits.maximum_price
  pub price_fits : nat_abs o.price < 2 ^ 63
  pub value : nat_abs o.price * o.quantity ≤ a.limits.max_notional
  pub position : PositionWithin a (buys_with a o) (sells_with a o)
  pub orders : a.open_orders + 1 ≤ a.limits.max_open_orders

notional_sound :
    (p : ℤ) (q : ℕ) {v : ℕ} → notional p q ≡ ok v → (v ≡ nat_abs p * q) × (nat_abs p < 2 ^ 63)
unfolding notional
notional_sound p q h = ground arith

notional_complete :
    (p : ℤ) (q : ℕ)
    → nat_abs p < 2 ^ 63
    → nat_abs p * q < u128_limit
    → notional p q ≡ ok (nat_abs p * q)
unfolding notional
notional_complete p q h f = ground arith

reserve_more_sound :
    (a : AccountState) (o : NewOrder) {r : ℕ × ℕ}
    → reserve_more a o.side o.quantity ≡ ok r
    → (r.0 ≡ buys_with a o) × (r.1 ≡ sells_with a o)
unfolding reserve_more
reserve_more_sound a o h = ground arith

reserve_more_complete :
    (a : AccountState) (o : NewOrder)
    → buys_with a o < u128_limit
    → sells_with a o < u128_limit
    → reserve_more a o.side o.quantity ≡ ok (buys_with a o, sells_with a o)
unfolding reserve_more
reserve_more_complete a o f g = ground arith

-- An order that the limits let through satisfies each of them, and the totals returned are the
-- account's with the order added.
pub evaluate_limits_sound :
    (a : AccountState) (o : NewOrder) (buys sells open_orders : ℕ)
    → evaluate_limits a o ≡ ok (buys, sells, open_orders)
    → Admits a o
      × (buys ≡ buys_with a o)
      × (sells ≡ sells_with a o)
      × (open_orders ≡ a.open_orders + 1)
unfolding evaluate_limits
evaluate_limits_sound a o buys sells n h = elim (Result-cases (notional o.price o.quantity)) [
  | inr (x, e) ↦ absurd (ground (arith, e))
  | inl (v, e) ↦ elim (Result-cases (reserve_more a o.side o.quantity)) [
    | inr (x, e') ↦ absurd (ground (arith, e, e'))
    | inl (r, e') ↦ elim (Result-cases (check_position a r.0 r.1)) [
      | inr (x, e2) ↦ absurd (ground (arith, e, e', e2))
      | inl (u, e2) ↦ ground (
        arith,
        e,
        e',
        e2,
        notional_sound o.price o.quantity e,
        reserve_more_sound a o e',
        check_position_sound a r.0 r.1 e2,
      )
    ]
  ]
]

-- An order that satisfies every limit is let through, with these totals, for an account whose fields
-- are in the ranges of their types.
pub evaluate_limits_complete :
    (a : AccountState) (o : NewOrder)
    → AccountFits a
    → Admits a o
    → evaluate_limits a o ≡ ok (buys_with a o, sells_with a o, a.open_orders + 1)
unfolding evaluate_limits
evaluate_limits_complete a o f v = ground (
  arith,
  notional_complete o.price o.quantity,
  reserve_more_complete a o,
  check_position_complete a (buys_with a o) (sells_with a o) f v.position,
)
