-- ===== src/Book/OrderBook/Tests.antt =====
-- Tests of `OrderBook` (crates/hft-book/src/lib.rs), with two levels of two orders on each side.
use hft_engine_rs.Prelude.{
  false, ℕ, ◌*◌, ◌+◌, ◌++◌, ◌≤◌, arith, List, Each, length, ok, ◌≡◌, refl, [], ◌∷◌, map,
}
use hft_engine_rs.Prelude.Int.{ℤ, pos}
use hft_engine_rs.Types.{
  CancelOrder, ReplaceOrder, RejectReason, MatchSummary, OrderState, Side, TimeInForce, NewOrder,
}
use hft_engine_rs.Types.Reports
use hft_engine_rs.Book.Levels
use hft_engine_rs.Book.Location
use hft_engine_rs.Book.Index
use hft_engine_rs.Book.Fifo
use hft_engine_rs.Book.Plan
use hft_engine_rs.Book.Fifo.{PriceLevel, RestingOrder, OrderSlot, nil}
use hft_engine_rs.Book.Fifo.Queue.{IsQueue}
use hft_engine_rs.Book.OrderBook.Match.{build_plan, fill_of}
use hft_engine_rs.Book.OrderBook.Match.Priority.{Queue, IsView, take_levels}
use hft_engine_rs.Book.OrderBook.Match.PostOnly.{build_plan_post_only}
use hft_engine_rs.Book.OrderBook.Match.Total.{IsOpen, build_plan_rejects}
use hft_engine_rs.Book.OrderBook.Match.Conserve.{IsFill, Honours, total, build_plan_lem}
use hft_engine_rs.Book.OrderBook.Change.Rejected.{submit_rejected, replace_rejected}
use hft_engine_rs.Book.Levels.Order.{IsSorted}
use hft_engine_rs.Book.OrderBook.Change.Settles.{IsLeft, submit_priority}
use hft_engine_rs.Book.OrderBook.Sides.{IsSound, new-IsSound}
use hft_engine_rs.Book.OrderBook.Sides.Trade.{submit-Maintains}
use hft_engine_rs.Book.OrderBook.Holds.{IsLevel, Holds}
use hft_engine_rs.Book.OrderBook.Holds.Fill.{leave_levels}
use hft_engine_rs.Book.Plan.{FillEntry, MatchPlan, fills, dummy_fill}
use hft_engine_rs.Book.OrderBook
use hft_engine_rs.Book.OrderBook.{OrderBook, Stop, reject, panic, top_level}
use hft_engine_rs.Book.OrderBook.Match
use hft_engine_rs.Book.OrderBook.Change
use hft_engine_rs.Book.OrderBook.Change.{Trading, report_of, state_of, submit, cancel, replace}

opened : Unit {0}
unfolding Levels.new Levels.is_full Levels.position Levels.find Levels.insert Levels.remove
    Location.encode_location Location.decode_location Index.new Index.location Index.insert
    Index.remove_at Fifo.new Fifo.push_tail Fifo.unlink Fifo.get_live Fifo.reduce_quantity Plan.new
    Plan.push_fill Plan.fills OrderBook.new OrderBook.top_level OrderBook.contains_order
    OrderBook.locate OrderBook.remove_index_entry OrderBook.open_level OrderBook.join_level
    OrderBook.index_order OrderBook.set_handle OrderBook.rest_at_tail OrderBook.rest
    OrderBook.close_level OrderBook.unlink_order Match.add_fill Match.build_plan Match.walk_orders
    Match.walk_level Match.walk_levels Match.check_room Match.rest_remaining Match.conclude
    Change.report Change.reduce_order Change.take_out Change.apply_fill Change.apply_fills
    Change.apply_plan Change.submit Change.cancel Change.move_order Change.requeue
    Change.check_destination Change.change_order Change.replace Reports.new Reports.push
    Reports.remaining_capacity Reports.iter
opened = tt

abbrev order : ℕ → ℕ → ℤ → ℕ → Side → TimeInForce → NewOrder
order id account price quantity side tif = record {
  order_id = id;
  account_id = account;
  instrument_id = 1;
  price = price;
  quantity = quantity;
  sequence = id;
  side = side;
  time_in_force = tif;
}

abbrev then_submit : Trading → NewOrder → Trading
then_submit t o = (submit o t).1

abbrev start : Trading
start = record { book = OrderBook.new 2 2 1; reports = Reports.new 4 }

-- Two sells at 100 and one at 99.
abbrev offered : Trading
offered =
    then_submit
      (then_submit (then_submit start (order 1 1 (pos 100) 5 Side.sell TimeInForce.gtc))
        (order 2 1 (pos 100) 5 Side.sell TimeInForce.gtc))
      (order 3 1 (pos 99) 4 Side.sell TimeInForce.gtc)

abbrev crossing : NewOrder
crossing = order 4 2 (pos 100) 7 Side.buy TimeInForce.gtc

-- The better price first, then the earlier order.
submit_runs :
    map {B = ℕ × ℕ}
      (λ r. (r.maker_order_id, r.quantity))
      (Reports.iter (then_submit offered crossing).reports)
    ≡ (3, 4) ∷ (1, 3) ∷ []
unfolding opened
submit_runs = refl

abbrev resting : ℕ → ℕ → RestingOrder
resting id quantity = record {
  id = id;
  account_id = 1;
  index_slot = 5 * id;
  quantity = quantity;
  sequence = id;
  prev = nil;
  next = nil;
}

abbrev sells : List ((ℤ × ℕ) × Queue)
sells =
    ((pos 99, 1), (0, resting 3 4) ∷ [])
    ∷ ((pos 100, 0), (0, resting 1 5) ∷ (1, resting 2 5) ∷ [])
    ∷ []

abbrev at_99 : PriceLevel
at_99 = record {
  price = pos 99;
  aggregate_quantity = 4;
  slots = OrderSlot.live (resting 3 4) ∷ OrderSlot.free nil ∷ [];
  head = 0;
  tail = 0;
  free_head = 1;
  len = 1;
}

abbrev at_100 : PriceLevel
at_100 = record {
  price = pos 100;
  aggregate_quantity = 10;
  slots =
      OrderSlot.live (record (resting 1 5) { next = 1 })
      ∷ OrderSlot.live (record (resting 2 5) { prev = 0 })
      ∷ [];
  head = 0;
  tail = 1;
  free_head = nil;
  len = 2;
}

at_99-IsQueue : IsQueue at_99 ((0, resting 3 4) ∷ [])
at_99-IsQueue = record {
  chain = (refl, omega arith, resting 3 4, refl, refl, refl, (refl, refl));
  counted = refl;
  fits = omega arith;
  addressable = omega arith;
}

at_100-IsQueue : IsQueue at_100 ((0, resting 1 5) ∷ (1, resting 2 5) ∷ [])
at_100-IsQueue = record {
  chain = (
    refl,
    omega arith,
    record (resting 1 5) { next = 1 },
    refl,
    refl,
    refl,
    (refl, omega arith, record (resting 2 5) { prev = 0 }, refl, refl, refl, (refl, refl)),
  );
  counted = refl;
  fits = omega arith;
  addressable = omega arith;
}

offered-IsView : IsView offered.book Side.sell sells
unfolding opened
offered-IsView = record {
  entries = refl;
  queues = ((at_99, refl, at_99-IsQueue), ((at_100, refl, at_100-IsQueue), tt));
}

bids-IsOpen : IsOpen offered.book Side.buy 2 []
unfolding opened
bids-IsOpen = record {
  sorted = (tt, refl, refl, refl);
  shown = record { entries = refl; queues = tt };
}

-- Three fills fit, and none is left of the order.
abbrev crossing_fills : List FillEntry
crossing_fills = fill_of 1 (pos 99) 0 (resting 3 4) 7 ∷ fill_of 0 (pos 100) 0 (resting 1 5) 3 ∷ []

abbrev crossing_plan : MatchPlan
crossing_plan = record {
  entries = crossing_fills ++ dummy_fill ∷ dummy_fill ∷ [];
  fill_count = 2;
  capacity = 4;
  maker_side = Side.sell;
  resting_quantity = 0;
  discarded = 0;
}

crossing_planned : build_plan crossing 4 4 offered.book ≡ ok crossing_plan
unfolding opened
crossing_planned = refl

build_plan_lem_example :
    Each (IsFill offered.book crossing) (fills crossing_plan)
    × (total (fills crossing_plan) + 0 + 0 ≡ 7)
    × Honours TimeInForce.gtc 0 0
    × (length (fills crossing_plan) ≤ 4)
build_plan_lem_example = build_plan_lem crossing 4 4 offered.book crossing_plan crossing_planned

-- More than the book offers, whole or not at all.
abbrev killed : NewOrder
killed = order 4 2 (pos 100) 20 Side.buy TimeInForce.fok

build_plan_rejects_example :
    (reason : RejectReason) × (reject RejectReason.insufficient_liquidity ≡ reject reason)
unfolding opened
build_plan_rejects_example =
    build_plan_rejects killed 4 4 2 offered.book [] sells
      (reject RejectReason.insufficient_liquidity) bids-IsOpen offered-IsView refl

submit_rejected_example : (submit killed offered).1 ≡ offered
unfolding opened
submit_rejected_example = submit_rejected killed offered RejectReason.insufficient_liquidity refl

-- More than is offered: all is taken, and the rest stays.
abbrev large : NewOrder
large = order 4 2 (pos 100) 20 Side.buy TimeInForce.gtc

abbrev large_summary : MatchSummary
large_summary = record {
  state = OrderState.partially_filled;
  filled_quantity = 14;
  resting_quantity = 6;
  discarded_quantity = 0;
  report_count = 3;
}

offered-IsSound : IsSound 2 offered.book
offered-IsSound =
    let one = order 1 1 (pos 100) 5 Side.sell TimeInForce.gtc in
    let two = order 2 1 (pos 100) 5 Side.sell TimeInForce.gtc in
    let three = order 3 1 (pos 99) 4 Side.sell TimeInForce.gtc in
    let after = then_submit start one in
    (submit-Maintains 2 three).kept (then_submit after two) (
      (submit-Maintains 2 two).kept after
        ((submit-Maintains 2 one).kept start (new-IsSound 2 2 1 (omega arith))))

at_99-IsLevel : IsLevel at_99 (pos 99) ((0, resting 3 4) ∷ [])
at_99-IsLevel = record {
  queue = (0, resting 3 4) ∷ [];
  linked = at_99-IsQueue;
  priced = refl;
  same = refl;
}

at_100-IsLevel : IsLevel at_100 (pos 100) ((0, resting 1 5) ∷ (1, resting 2 5) ∷ [])
at_100-IsLevel = record {
  queue = (0, resting 1 5) ∷ (1, resting 2 5) ∷ [];
  linked = at_100-IsQueue;
  priced = refl;
  same = refl;
}

offered-Holds : Holds offered.book Side.sell sells
unfolding opened
offered-Holds = record {
  entries = refl;
  levels = (
    (at_99, refl, at_99-IsLevel, omega arith),
    ((at_100, refl, at_100-IsLevel, omega arith), tt),
  );
}

bids-Holds : Holds offered.book Side.buy []
unfolding opened
bids-Holds = record { entries = refl; levels = tt }

submit_priority_example :
    IsSorted false (map (λ v. v.0) sells)
    × ((Reports.iter (submit large offered).1.reports
          ≡ Reports.iter offered.reports
            ++ map (report_of large) (take_levels Side.buy (pos 100) sells 20).0)
        × (14 ≡ total (take_levels Side.buy (pos 100) sells 20).0)
        × (6 + 0 ≡ (take_levels Side.buy (pos 100) sells 20).1)
        × Honours TimeInForce.gtc 6 0
        × (OrderState.partially_filled ≡ state_of 20 14)
        × (3 ≡ length (take_levels Side.buy (pos 100) sells 20).0))
    × IsSound 2 (submit large offered).1.book
    × IsLeft (submit large offered).1.book large 6 (leave_levels Side.buy (pos 100) sells 20) []
unfolding opened
submit_priority_example =
    submit_priority 2 large offered large_summary sells [] offered-IsSound offered-Holds bids-Holds
      refl

-- Another account's order.
abbrev foreign : CancelOrder
foreign = record { order_id = 1; account_id = 2; instrument_id = 1; sequence = 9 }

-- At 100 the level has no room for the order at 99.
abbrev crowded : ReplaceOrder
crowded = record {
  order_id = 3;
  account_id = 1;
  instrument_id = 1;
  price = pos 100;
  quantity = 4;
  sequence = 9;
}

replace_rejected_example : (replace crowded offered.book).1 ≡ offered.book
unfolding opened
replace_rejected_example =
    replace_rejected crowded offered.book RejectReason.price_level_order_capacity refl

-- Below the best sell.
abbrev passive : NewOrder
passive = order 4 2 (pos 98) 7 Side.buy TimeInForce.post_only

abbrev passive_plan : MatchPlan
passive_plan = record {
  entries = dummy_fill ∷ dummy_fill ∷ dummy_fill ∷ dummy_fill ∷ [];
  fill_count = 0;
  capacity = 4;
  maker_side = Side.sell;
  resting_quantity = 7;
  discarded = 0;
}

build_plan_post_only_example :
    (fills passive_plan ≡ [])
    × (passive_plan.resting_quantity ≡ passive.quantity)
    × (passive_plan.discarded ≡ 0)
unfolding opened
build_plan_post_only_example = build_plan_post_only passive 4 4 offered.book passive_plan refl refl
