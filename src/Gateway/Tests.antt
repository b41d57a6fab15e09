-- ===== src/Gateway/Tests.antt =====
-- Tests of `Gateway` (crates/hft-gateway/src/lib.rs), with one account and a book of two levels of two
-- orders on each side.
use hft_engine_rs.Prelude.{
  ℕ, ◌+◌, ◌≡◌, ◌⊎◌, refl, ap, sym, ◌∙◌, false, List, [], ◌∷◌, some, none, ok, err, arith,
}
use hft_engine_rs.Prelude.Int.{pos, ◌+ℤ◌, ◌-ℤ◌}
use hft_engine_rs.Types.{Side, TimeInForce, NewOrder, Command, sequence, RejectReason}
use hft_engine_rs.Types.Reports
use hft_engine_rs.Wire.{ParseError, BorrowedMessage, parse_message, to_command}
use hft_engine_rs.Risk.Account.{
  RiskLimits, AccountState, evaluate_limits, notional, reserve_more, check_position,
  exposure_after_fill,
}
use hft_engine_rs.Risk.ProbeIndex
use hft_engine_rs.Risk.ProbeIndex.{occupied, empty}
use hft_engine_rs.Risk.Engine
use hft_engine_rs.Risk.Engine.{
  RiskEngine, free, check_and_reserve, index_reservation, live_reservation, release_reservation,
  settle_reservation, settle,
}
use hft_engine_rs.Book.OrderBook
use hft_engine_rs.Book.OrderBook.Match
use hft_engine_rs.Book.OrderBook.Change
use hft_engine_rs.Book.Index
use hft_engine_rs.Book.Levels
use hft_engine_rs.Book.Plan
use hft_engine_rs.Gateway
use hft_engine_rs.Gateway.{
  Gateway, Served, fails, unparsed, out_of_sequence, by_risk, check_sequence, accept_sequence,
  submit_or_settle, process_new_order, process_command, process_frame, clear_reports,
}
use hft_engine_rs.Gateway.Admission.{sequence_advances, run, order_id_used}
use hft_engine_rs.Gateway.Parts.{next_sequence}
use hft_engine_rs.Gateway.Rollback.{book_rejection_kept}
use hft_engine_rs.Gateway.Frames.{process_frame_lem}

abbrev limits : RiskLimits
limits = record {
  max_quantity = 100;
  max_notional = 100_000;
  max_abs_position = 1_000;
  max_open_orders = 8;
  minimum_price = pos 1;
  maximum_price = pos 1_000;
}

abbrev account : AccountState
account = record {
  id = 1;
  limits = limits;
  settled_position = pos 0;
  reserved_buys = 0;
  reserved_sells = 0;
  open_orders = 0;
  killed = false;
}

abbrev engine : RiskEngine
engine = record {
  accounts = some account ∷ [];
  account_index = record { slots = empty ∷ occupied 1 1 ∷ [] };
  reservations = free 1 ∷ free Engine.nil ∷ [];
  reservation_free_head = 0;
  reservation_index = ProbeIndex.new 4;
  maximum_order_id = none;
  killed = false;
}

abbrev opening : Served
opening = record { gateway = Gateway.new 2 2 engine 1; reports = Reports.new 4 }

abbrev order : ℕ → ℕ → NewOrder
order id received = record {
  order_id = id;
  account_id = 1;
  instrument_id = 1;
  price = pos 100;
  quantity = 10;
  sequence = received;
  side = Side.buy;
  time_in_force = TimeInForce.gtc;
}

opened : Unit {0}
unfolding Gateway.new check_sequence accept_sequence submit_or_settle process_new_order
    process_command sequence check_and_reserve index_reservation evaluate_limits notional
    reserve_more check_position live_reservation release_reservation settle_reservation settle
    exposure_after_fill ProbeIndex.lookup ProbeIndex.insert ProbeIndex.new ProbeIndex.remove_at ◌+ℤ◌
    ◌-ℤ◌ OrderBook.new OrderBook.contains_order Index.new Index.location Levels.new Plan.new
    Match.build_plan Match.walk_levels Match.conclude Change.submit Reports.new
    Reports.remaining_capacity Reports.clear
opened = tt

sequence_advances_example :
    (process_command (Command.new_order (order 5 1)) opening).1.gateway.expected_sequence ≡ 2
unfolding Gateway.new sequence
sequence_advances_example =
    sequence_advances (Command.new_order (order 5 1)) opening refl (omega arith)

-- Between the two an order with another identifier comes in.
abbrev between : List Command
between = Command.new_order (order 6 2) ∷ []

abbrev later : Served
later = run between (process_command (Command.new_order (order 5 1)) opening).1

first_expects :
    (process_command (Command.new_order (order 5 1)) opening).1.gateway.expected_sequence ≡ 2
unfolding Gateway.new sequence
first_expects = sequence_advances (Command.new_order (order 5 1)) opening refl (omega arith)

later_expects : later.gateway.expected_sequence ≡ 3
unfolding run sequence
later_expects =
    sequence_advances (Command.new_order (order 6 2))
      (process_command (Command.new_order (order 5 1)) opening).1 (sym first_expects) (omega arith)
    ∙ ap (λ (n : ℕ). n + 1) first_expects

order_id_used_example :
    process_command (Command.new_order (order 3 3)) later
    ≡ (err (fails (by_risk RejectReason.duplicate_order_id)), next_sequence (clear_reports later))
unfolding Gateway.new
order_id_used_example =
    order_id_used (order 5 1) (order 3 3) between opening refl (omega arith) (omega arith)
      (sym later_expects) (omega arith)

process_frame_lem_example :
    ((m : BorrowedMessage) × (parse_message [] ≡ ok m)
      × (process_frame [] opening ≡ process_command (to_command m) opening))
    ⊎ ((e : ParseError) × (parse_message [] ≡ err e)
        × (process_frame [] opening ≡ (err (fails (unparsed e)), clear_reports opening)))
process_frame_lem_example = process_frame_lem [] opening

-- Nothing is offered, and the order is to be filled whole or not at all.
abbrev hopeless : Command
hopeless = Command.new_order (record (order 5 1) { time_in_force = TimeInForce.fok })

book_rejection_kept_example :
    ((process_command hopeless opening).1.gateway.book ≡ opening.gateway.book)
    × ((process_command hopeless opening).1.reports ≡ Reports.clear opening.reports)
unfolding opened
book_rejection_kept_example =
    book_rejection_kept hopeless opening RejectReason.insufficient_liquidity refl
