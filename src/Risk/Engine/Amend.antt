-- ===== src/Risk/Engine/Amend.antt =====
-- crates/hft-risk/src/lib.rs: what `adjust_reservation` checks of an amended order.
use hft_engine_rs.Prelude.{ℕ, ◌≤◌, ◌≡◌, false, some, arith, ltb, ap}
use hft_engine_rs.Prelude.Int.{ℤ}
use hft_engine_rs.Risk.Engine.{
  RiskEngine, Reservation, live_reservation, owned_reservation, adjust_reservation, amend, Method,
}

amend_lowers :
    (account total : ℕ) (p q : ℤ) (found : ℕ × Reservation)
    → ltb found.1.quantity total ≡ false
    → amend account p total found ≡ amend account q total found
unfolding amend
amend_lowers account total p q found h = rw h

-- An amendment that does not raise the quantity is decided with no regard to its price: the order may
-- move outside its account's price collar, or above its notional limit.
pub adjust_ignores_price :
    (id account total : ℕ) (p q : ℤ) (e : RiskEngine) (at : ℕ) (r : Reservation)
    → live_reservation id e ≡ some (at, r)
    → total ≤ r.quantity
    → adjust_reservation id account p total e ≡ adjust_reservation id account q total e
unfolding adjust_reservation owned_reservation
adjust_ignores_price id account total p q e at r l h = ground (
  arith,
  l,
  ap (λ (m : Method (ℕ × ℕ)). m e) (amend_lowers account total p q (at, r) (ground arith)),
)
