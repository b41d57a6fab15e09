-- ===== src/Risk/Engine/Tests.antt =====
-- Tests of the risk engine (crates/hft-risk/src/lib.rs).
use hft_engine_rs.Prelude.{
  ℕ, ◌+◌, ◌<◌, ◌≡◌, refl, false, [], ◌∷◌, some, none, ok, arith, set, get_or,
}
use hft_engine_rs.Prelude.Int.{ℤ, pos, ◌+ℤ◌, ◌-ℤ◌}
use hft_engine_rs.Types.{Side, TimeInForce, NewOrder, RejectReason}
use hft_engine_rs.Risk.Account.{
  RiskLimits, AccountState, evaluate_limits, exposure_after_fill, notional, reserve_more,
  check_position,
}
use hft_engine_rs.Risk.Account.Limits.{
  PositionWithin, AccountFits, Admits, buys_with, sells_with, evaluate_limits_sound,
  evaluate_limits_complete,
}
use hft_engine_rs.Risk.Account.Fills.{exposure_after_fill_within}
use hft_engine_rs.Risk.ProbeIndex
use hft_engine_rs.Risk.ProbeIndex.{occupied, empty}
use hft_engine_rs.Risk.Engine.{
  RiskEngine, Reservation, live, free, nil, at_most, account_slot, live_reservation,
  index_reservation, check_and_reserve, adjust_reservation,
}
use hft_engine_rs.Risk.Engine.Atomicity.{reserves, perform, perform_rejected}
use hft_engine_rs.Risk.Engine.Reserve.{check_and_reserve-Admits}
use hft_engine_rs.Risk.Engine.Amend.{adjust_ignores_price}

abbrev limits : RiskLimits
limits = record {
  max_quantity = 100;
  max_notional = 100_000;
  max_abs_position = 1_000;
  max_open_orders = 8;
  minimum_price = pos 1;
  maximum_price = pos 1_000;
}

abbrev account : AccountState
account = record {
  id = 1;
  limits = limits;
  settled_position = pos 20;
  reserved_buys = 30;
  reserved_sells = 10;
  open_orders = 2;
  killed = false;
}

abbrev order : NewOrder
order = record {
  order_id = 5;
  account_id = 1;
  instrument_id = 1;
  price = pos 100;
  quantity = 10;
  sequence = 1;
  side = Side.buy;
  time_in_force = TimeInForce.gtc;
}

-- One account in place 1 of its index, which is where key 1 hashes to among two, and two free
-- reservation slots.
abbrev engine : RiskEngine
engine = record {
  accounts = some account ∷ [];
  account_index = record { slots = empty ∷ occupied 1 1 ∷ [] };
  reservations = free 1 ∷ free nil ∷ [];
  reservation_free_head = 0;
  reservation_index = ProbeIndex.new 4;
  maximum_order_id = some 4;
  killed = false;
}

-- To unfold this is to unfold what a reservation computes with.
opened : Unit {0}
unfolding check_and_reserve index_reservation evaluate_limits notional reserve_more check_position
    ProbeIndex.lookup ProbeIndex.insert ProbeIndex.new ◌+ℤ◌ ◌-ℤ◌
opened = tt

reserve_runs :
    (check_and_reserve order engine).1.accounts
    ≡ some (record account { reserved_buys = 40; open_orders = 3 }) ∷ []
unfolding opened
reserve_runs = refl

evaluate_limits_sound_example :
    Admits account order
    × (◌≡◌ {A = ℕ} 40 (buys_with account order))
    × (◌≡◌ {A = ℕ} 10 (sells_with account order))
    × (◌≡◌ {A = ℕ} 3 (2 + 1))
unfolding opened
evaluate_limits_sound_example = evaluate_limits_sound account order 40 10 3 refl

account_fits : AccountFits account
account_fits = omega arith

order_admitted : Admits account order
order_admitted = ground arith

evaluate_limits_complete_example : evaluate_limits account order ≡ ok (30 + 10, 10 + 0, 2 + 1)
evaluate_limits_complete_example =
    evaluate_limits_complete account order account_fits order_admitted

exposure_after_fill_within_example :
    (p : ℤ) × (b : ℕ) × (s : ℕ) × (exposure_after_fill account Side.buy 4 10 ≡ ok (p, b, s))
    × PositionWithin (record account { settled_position = p }) b s
exposure_after_fill_within_example =
    exposure_after_fill_within account Side.buy 4 10 account_fits (omega arith) (omega arith)
      (omega arith)

perform_rejected_example : (perform (reserves (record order { quantity = 0 })) engine).1 ≡ engine
unfolding perform check_and_reserve
perform_rejected_example =
    perform_rejected (reserves (record order { quantity = 0 })) engine RejectReason.invalid_quantity
      refl

check_and_reserve-Admits_example :
    (slot : ℕ) × (a : AccountState) × (account_slot engine 1 ≡ some slot)
    × (get_or engine.accounts slot none ≡ some a)
    × Admits a order
    × (false ≡ false)
    × (0 < 10)
    × (at_most 5 (some 4) ≡ false)
    × ((check_and_reserve order engine).1.maximum_order_id ≡ some 5)
    × ((check_and_reserve order engine).1.accounts
        ≡ set engine.accounts slot (
            some (record a {
              reserved_buys = buys_with a order;
              reserved_sells = sells_with a order;
              open_orders = a.open_orders + 1;
            })))
unfolding opened
check_and_reserve-Admits_example = check_and_reserve-Admits order engine refl

abbrev held : Reservation
held = record { order_id = 5; account_id = 1; index_slot = 1; side = Side.buy; quantity = 10 }

abbrev holding : RiskEngine
holding = record engine {
  reservations = live held ∷ free nil ∷ [];
  reservation_free_head = 1;
  reservation_index = record { slots = empty ∷ occupied 5 1 ∷ empty ∷ empty ∷ [] };
}

adjust_ignores_price_example :
    adjust_reservation 5 1 (pos 900_000) 9 holding ≡ adjust_reservation 5 1 (pos 100) 9 holding
unfolding live_reservation ProbeIndex.lookup
adjust_ignores_price_example =
    adjust_ignores_price 5 1 9 (pos 900_000) (pos 100) holding 0 held refl (omega arith)
