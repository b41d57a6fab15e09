-- ===== src/Book/OrderBook/Match.antt =====
-- crates/hft-book/src/lib.rs: `OrderBook::build_plan`, which walks the crossing levels of an unchanged
-- book. REPORTS is the length of the report buffer's array.
pub mod Walk
pub mod Conserve
pub mod Priority
pub mod Refine
pub mod Total
pub mod PostOnly
use hft_engine_rs.Prelude.{
  ℕ, zero, suc, ◌+◌, ◌-◌, ◌==◌, ◌&&◌, ◌||◌, Bool, true, false, not, Option, none, some, List, [],
  ◌∷◌, Result, ok, err, ltb, leb, min, length, get_elem?, if◌then◌else◌, ok_or, map_err,
}
use hft_engine_rs.Prelude.Outcome.{◌>>=◌, ◌>>◌, reject_if}
use hft_engine_rs.Prelude.Int.{ℤ, pos, leb_ℤ}
use hft_engine_rs.Types.{Side, TimeInForce, is_buy, opposite, NewOrder, RejectReason}
use hft_engine_rs.Book.Levels
use hft_engine_rs.Book.Levels.{LevelIndex, listed}
use hft_engine_rs.Book.Fifo.{PriceLevel, RestingOrder, OrderSlot, nil, live_in}
use hft_engine_rs.Book.Plan
use hft_engine_rs.Book.Plan.{MatchPlan, FillEntry, push_fill}
use hft_engine_rs.Book.OrderBook.{
  OrderBook, Stop, reject, panic, diverged, side_levels, side_index, level_at, contains_order,
}

-- Whether an order of a side and a price trades at the price of a maker.
abbrev pub crosses : Side → ℤ → ℤ → Bool
crosses Side.buy price maker = leb_ℤ maker price
crosses Side.sell price maker = leb_ℤ price maker

abbrev pub is_post_only : TimeInForce → Bool
is_post_only TimeInForce.post_only = true
is_post_only TimeInForce.gtc = false
is_post_only TimeInForce.ioc = false
is_post_only TimeInForce.fok = false

abbrev pub best_crosses : Side → ℤ → Option (ℤ × ℕ) → Bool
best_crosses side price none = false
best_crosses side price (some best) = crosses side price best.0

-- `plan.push_fill(...)?`.
unfoldable pub add_fill : FillEntry → MatchPlan → Result Stop MatchPlan
add_fill fill plan = elim (push_fill fill plan).0 [
  | ok done ↦ ok (push_fill fill plan).1
  | err reason ↦ err (reject reason)
]

abbrev pub fill_of : ℕ → ℤ → ℕ → RestingOrder → ℕ → FillEntry
fill_of level_index price cursor maker remaining = record {
  level_index = level_index;
  slot = cursor;
  order_id = maker.id;
  price = price;
  quantity = min remaining maker.quantity;
}

-- The inner loop, along the orders of a level: what remains, and the plan.
unfoldable pub walk_orders :
    ℕ → List OrderSlot → ℕ → ℤ → ℕ → ℕ → MatchPlan → Result Stop (ℕ × MatchPlan)
walk_orders zero slots level_index price cursor remaining plan = err diverged
walk_orders (suc rounds) slots level_index price cursor remaining plan =
    elim (cursor == nil || remaining == 0) [
      | true ↦ ok (remaining, plan)
      | false ↦ elim (live_in slots cursor) [
        | none ↦ err panic
        | some maker ↦ add_fill (fill_of level_index price cursor maker remaining) plan >>= λ added.
            walk_orders rounds slots level_index price maker.next
              (remaining - min remaining maker.quantity) added
      ]
    ]

unfoldable pub walk_level : PriceLevel → ℕ → ℤ → ℕ → MatchPlan → Result Stop (ℕ × MatchPlan)
walk_level level level_index price remaining plan =
    walk_orders (suc (length level.slots)) level.slots level_index price level.head remaining plan

-- The outer loop, along the levels from the best one.
unfoldable pub walk_levels :
    OrderBook → NewOrder → List (ℤ × ℕ) → ℕ → MatchPlan → Result Stop (ℕ × MatchPlan)
walk_levels book order [] remaining plan = ok (remaining, plan)
walk_levels book order (entry ∷ entries) remaining plan =
    elim (remaining == 0 || not (crosses order.side order.price entry.0)) [
      | true ↦ ok (remaining, plan)
      | false ↦ ok_or (level_at book (opposite order.side) entry.1) panic >>= λ level.
          walk_level level entry.1 entry.0 remaining plan >>= λ walked.
          walk_levels book order entries walked.0 walked.1
    ]

-- Room for what remains to rest.
unfoldable pub check_room : OrderBook → NewOrder → Result Stop (Unit {0})
check_room book order =
    elim (Levels.find (side_index book order.side) order.price (is_buy order.side)) [
      | some at ↦ ok_or (level_at book order.side at) panic >>= λ level.
          reject_if (level.len == book.orders_per_level)
            (reject RejectReason.price_level_order_capacity)
      | none ↦
          reject_if (Levels.is_full (side_index book order.side))
            (reject RejectReason.price_level_capacity)
    ]

unfoldable pub rest_remaining : OrderBook → NewOrder → ℕ → MatchPlan → Result Stop MatchPlan
rest_remaining book order remaining plan =
    (if ltb 0 remaining then check_room book order else ok tt) >>= λ _.
    ok (record plan { resting_quantity = remaining; discarded = 0 })

-- The match on the time in force.
unfoldable pub conclude : TimeInForce → OrderBook → NewOrder → ℕ → MatchPlan → Result Stop MatchPlan
conclude TimeInForce.fok book order remaining plan =
    reject_if (ltb 0 remaining) (reject RejectReason.insufficient_liquidity) >>= λ _.
    ok (record plan { resting_quantity = remaining; discarded = 0 })
conclude TimeInForce.ioc book order remaining plan =
    ok (record plan { resting_quantity = 0; discarded = remaining })
conclude TimeInForce.gtc book order remaining plan = rest_remaining book order remaining plan
conclude TimeInForce.post_only book order remaining plan = rest_remaining book order remaining plan

unfoldable pub build_plan : NewOrder → ℕ → ℕ → OrderBook → Result Stop MatchPlan
build_plan order reports report_capacity book = do
  reject_if (not (order.instrument_id == book.instrument)) (reject RejectReason.invalid_instrument)
  reject_if (leb_ℤ order.price (pos 0)) (reject RejectReason.invalid_price)
  reject_if (order.quantity == 0) (reject RejectReason.invalid_quantity)
  reject_if (contains_order book order.order_id) (reject RejectReason.duplicate_order_id)
  reject_if
      (is_post_only order.time_in_force
        && best_crosses order.side order.price
            (get_elem? (listed (side_index book (opposite order.side))) 0))
      (reject RejectReason.post_only_would_trade)
  walked ←
      walk_levels book order (listed (side_index book (opposite order.side))) order.quantity
        (Plan.new reports (opposite order.side) report_capacity)
  conclude order.time_in_force book order walked.0 walked.1
