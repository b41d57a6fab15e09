-- ===== src/Risk/Account/Fills.antt =====
-- crates/hft-risk/src/lib.rs: what a fill or a release does to an account's exposure.
use hft_engine_rs.Prelude.{ℕ, ◌-◌, ◌≤◌, ◌≡◌, ok, arith, if◌then◌else◌}
use hft_engine_rs.Prelude.Int.{ℤ, pos, ◌+ℤ◌, ◌-ℤ◌, int_laws}
use hft_engine_rs.Types.{Side, is_buy}
use hft_engine_rs.Risk.Account.{AccountState, exposure_after_fill}
use hft_engine_rs.Risk.Account.Limits.{PositionWithin, AccountFits}

-- The reserved total of a side.
abbrev pub reserved_on : AccountState → Side → ℕ
reserved_on a side = if is_buy side then a.reserved_buys else a.reserved_sells

-- A fill of no more than what it releases cannot fail, and leaves the account within its position
-- limit on both sides.
pub exposure_after_fill_within :
    (a : AccountState) (side : Side) (filled released : ℕ)
    → AccountFits a
    → PositionWithin a a.reserved_buys a.reserved_sells
    → filled ≤ released
    → released ≤ reserved_on a side
    → (p : ℤ) × (b : ℕ) × (s : ℕ) × (exposure_after_fill a side filled released ≡ ok (p, b, s))
      × PositionWithin (record a { settled_position = p }) b s
unfolding exposure_after_fill
exposure_after_fill_within a Side.buy filled released f w l r = (
  a.settled_position +ℤ pos filled,
  a.reserved_buys - released,
  a.reserved_sells,
  unfold ◌+ℤ◌ ◌-ℤ◌ in ground arith,
  omega (int_laws, w.long, w.short),
)
exposure_after_fill_within a Side.sell filled released f w l r = (
  a.settled_position -ℤ pos filled,
  a.reserved_buys,
  a.reserved_sells - released,
  unfold ◌+ℤ◌ ◌-ℤ◌ in ground arith,
  omega (int_laws, w.long, w.short),
)

buy_parts :
    (a : AccountState) (filled released : ℕ) {p : ℤ} {b s : ℕ}
    → exposure_after_fill a Side.buy filled released ≡ ok (p, b, s)
    → (p ≡ a.settled_position +ℤ pos filled)
      × (b ≡ a.reserved_buys - released)
      × (s ≡ a.reserved_sells)
      × (released ≤ a.reserved_buys)
unfolding exposure_after_fill
buy_parts a filled released h = ground arith

sell_parts :
    (a : AccountState) (filled released : ℕ) {p : ℤ} {b s : ℕ}
    → exposure_after_fill a Side.sell filled released ≡ ok (p, b, s)
    → (p ≡ a.settled_position -ℤ pos filled)
      × (b ≡ a.reserved_buys)
      × (s ≡ a.reserved_sells - released)
      × (released ≤ a.reserved_sells)
unfolding exposure_after_fill
sell_parts a filled released h = ground arith

-- A fill that releases exactly what it fills moves quantity from the reserved total to the settled
-- position: the position projected from both is as before.
pub exposure_after_fill_projects :
    (a : AccountState) (side : Side) (filled : ℕ) {p : ℤ} {b s : ℕ}
    → exposure_after_fill a side filled filled ≡ ok (p, b, s)
    → p +ℤ pos b -ℤ pos s ≡ a.settled_position +ℤ pos a.reserved_buys -ℤ pos a.reserved_sells
exposure_after_fill_projects a Side.buy filled h =
    let (ep, eb, es, l) = buy_parts a filled filled h in rw (ep, eb, es) (omega (int_laws, l))
exposure_after_fill_projects a Side.sell filled h =
    let (ep, eb, es, l) = sell_parts a filled filled h in rw (ep, eb, es) (omega (int_laws, l))
