-- ===== src/Book/OrderBook/Change.antt =====
-- crates/hft-book/src/lib.rs: `OrderBook::apply_plan`, `submit`, `cancel` and `replace`.
pub mod Executes
pub mod Rejected
pub mod Settles
use hft_engine_rs.Prelude.{
  ℕ, ◌-◌, ◌==◌, ◌&&◌, Bool, false, not, Option, none, some, List, [], ◌∷◌, ok, err, ltb, length,
  get_elem?, if◌then◌else◌,
}
use hft_engine_rs.Prelude.Int.{ℤ, pos, leb_ℤ, eqb_ℤ}
use hft_engine_rs.Prelude.Action.{Action, ◌>>=◌, ◌>>◌, done, lift, require, reject_if, self, modify}
use hft_engine_rs.Types.{
  Side, is_buy, opposite, NewOrder, CancelOrder, ReplaceOrder, RejectReason, OrderState,
  MatchSummary, ExecutionReport,
}
use hft_engine_rs.Types.Reports
use hft_engine_rs.Types.Reports.{ReportBuffer, remaining_capacity}
use hft_engine_rs.Book.Levels
use hft_engine_rs.Book.Levels.{listed}
use hft_engine_rs.Book.Location.{OrderLocation}
use hft_engine_rs.Book.Fifo.{PriceLevel, RestingOrder, nil, get_live, reduce_quantity}
use hft_engine_rs.Book.Plan.{MatchPlan, FillEntry, fills}
use hft_engine_rs.Book.OrderBook.{
  OrderBook, Stop, reject, panic, Method, side_levels, side_index, put_level, level_at, locate,
  remove_index_entry, rest_at_tail, rest, unlink_order,
}
use hft_engine_rs.Book.OrderBook.Match.{build_plan}

-- The book and the caller's report buffer.
pub record Trading : Type 0 where
  pub book : OrderBook
  pub reports : ReportBuffer

abbrev pub on_book : {A : Type 0} → Method A → Action Trading Stop A
on_book m t = ((m t.book).0, record t { book = (m t.book).1 })

-- `reports.push(...).expect(...)`.
unfoldable pub report : ExecutionReport → Action Trading Stop (Unit {0})
report r t = elim (Reports.push r t.reports).0 [
  | ok done ↦ (ok tt, record t { reports = (Reports.push r t.reports).1 })
  | err reason ↦ (err panic, t)
]

abbrev pub report_of : NewOrder → FillEntry → ExecutionReport
report_of order fill = record {
  maker_order_id = fill.order_id;
  taker_order_id = order.order_id;
  instrument_id = order.instrument_id;
  price = fill.price;
  quantity = fill.quantity;
  sequence = order.sequence;
}

unfoldable pub reduce_order : Side → ℕ → ℕ → ℕ → Method (Unit {0})
reduce_order side at slot quantity = do
  book ← self
  level ← require (level_at book side at) panic
  require (reduce_quantity slot quantity level).0 panic
  modify (put_level side at (some (reduce_quantity slot quantity level).1))

-- A maker that is filled whole leaves the index and its level.
unfoldable pub take_out : Side → FillEntry → ℕ → Method (Unit {0})
take_out side fill index_slot = do
  modify (remove_index_entry index_slot fill.order_id)
  removed ← unlink_order side fill.level_index fill.slot
  done tt

unfoldable pub apply_fill : NewOrder → Side → FillEntry → Action Trading Stop (Unit {0})
apply_fill order side fill = do
  t ← self
  level ← require (level_at t.book side fill.level_index) panic
  maker ← require (get_live level fill.slot) panic
  report (report_of order fill)
  if maker.quantity == fill.quantity
      then on_book (take_out side fill maker.index_slot)
      else on_book (reduce_order side fill.level_index fill.slot fill.quantity)

unfoldable pub apply_fills : NewOrder → Side → List FillEntry → Action Trading Stop (Unit {0})
apply_fills order side [] = done tt
apply_fills order side (fill ∷ rest) = apply_fill order side fill >> apply_fills order side rest

unfoldable pub apply_plan : NewOrder → MatchPlan → Action Trading Stop (Unit {0})
unfolding apply_fills
apply_plan order plan = do
  apply_fills order plan.maker_side (fills plan)
  if ltb 0 plan.resting_quantity then on_book (rest order plan.resting_quantity) else done tt

abbrev pub state_of : ℕ → ℕ → OrderState
state_of quantity filled =
    if filled == quantity
    then OrderState.filled
    else if filled == 0
    then OrderState.accepted
    else OrderState.partially_filled

abbrev pub filled_by : NewOrder → MatchPlan → ℕ
filled_by order plan = order.quantity - plan.resting_quantity - plan.discarded

-- The quantities subtracted are parts of the order's.
unfoldable pub submit : NewOrder → Action Trading Stop MatchSummary
submit order = do
  before ← self
  plan ← lift (
      build_plan order (length before.reports.entries) (remaining_capacity before.reports)
        before.book)
  apply_plan order plan
  after ← self
  done (record {
    state = state_of order.quantity (filled_by order plan);
    filled_quantity = filled_by order plan;
    resting_quantity = plan.resting_quantity;
    discarded_quantity = plan.discarded;
    report_count = after.reports.len - before.reports.len;
  })

pub record CancelledOrder : Type 0 where
  pub order_id : ℕ
  pub account_id : ℕ
  pub quantity : ℕ

unfoldable pub cancel : CancelOrder → Method CancelledOrder
cancel c = do
  book ← self
  reject_if (not (c.instrument_id == book.instrument)) (reject RejectReason.invalid_instrument)
  located ← require (locate book c.order_id) (reject RejectReason.unknown_order)
  reject_if (not (located.1 == c.account_id)) (reject RejectReason.not_order_owner)
  removed ← unlink_order located.0.side located.0.level_index located.0.slot
  modify (remove_index_entry removed.index_slot c.order_id)
  done (record {
    order_id = removed.id;
    account_id = removed.account_id;
    quantity = removed.quantity;
  })

pub record ReplacedOrder : Type 0 where
  pub order_id : ℕ
  pub account_id : ℕ
  pub old_quantity : ℕ
  pub new_quantity : ℕ
  pub price : ℤ
  pub priority_lost : Bool

-- A repriced order must not cross the best opposing price.
abbrev pub replace_crosses : Side → ℤ → Option (ℤ × ℕ) → Bool
replace_crosses side price none = false
replace_crosses Side.buy price (some best) = leb_ℤ best.0 price
replace_crosses Side.sell price (some best) = leb_ℤ price best.0

-- Room at the new price, the order itself taken out.
unfoldable pub check_destination : OrderLocation → ℤ → ℤ → ℕ → OrderBook → Method (Unit {0})
check_destination location old_price price source_len book =
    elim (Levels.find (side_index book location.side) price (is_buy location.side)) [
      | some at ↦ do
        level ← require (level_at book location.side at) panic
        reject_if
            (level.len == book.orders_per_level
              && not (at == location.level_index && eqb_ℤ price old_price))
            (reject RejectReason.price_level_order_capacity)
      | none ↦
          reject_if
            (length (side_levels book location.side)
                  - length (listed (side_index book location.side))
                == 0
              && not (source_len == 1))
            (reject RejectReason.price_level_capacity)
    ]

abbrev pub replaced : ReplaceOrder → ℕ → Bool → ReplacedOrder
replaced r old_quantity priority_lost = record {
  order_id = r.order_id;
  account_id = r.account_id;
  old_quantity = old_quantity;
  new_quantity = r.quantity;
  price = r.price;
  priority_lost = priority_lost;
}

-- Taken out and put behind the orders at the new price.
unfoldable pub move_order : ReplaceOrder → OrderLocation → Method (Unit {0})
move_order r location = do
  removed ← unlink_order location.side location.level_index location.slot
  modify (remove_index_entry removed.index_slot r.order_id)
  rest_at_tail location.side r.price (record {
    id = r.order_id;
    account_id = r.account_id;
    index_slot = 0;
    quantity = r.quantity;
    sequence = r.sequence;
    prev = nil;
    next = nil;
  })

-- A repriced or enlarged order, which loses its priority.
unfoldable pub requeue : ReplaceOrder → OrderLocation → PriceLevel → Method (Unit {0})
unfolding check_destination
requeue r location level = do
  book ← self
  reject_if
      (not (eqb_ℤ r.price level.price)
        && replace_crosses location.side r.price
            (get_elem? (listed (side_index book (opposite location.side))) 0))
      (reject RejectReason.replace_would_cross)
  check_destination location level.price r.price level.len book
  move_order r location

-- A smaller order at its price keeps its place.
unfoldable pub change_order :
    ReplaceOrder → OrderLocation → PriceLevel → RestingOrder → Method ReplacedOrder
change_order r location level old = do
  if eqb_ℤ r.price level.price && ltb r.quantity old.quantity
      then reduce_order location.side location.level_index location.slot (old.quantity - r.quantity)
      else requeue r location level
  done (replaced r old.quantity (not (eqb_ℤ r.price level.price && ltb r.quantity old.quantity)))

unfoldable pub replace : ReplaceOrder → Method ReplacedOrder
replace r = do
  book ← self
  reject_if (not (r.instrument_id == book.instrument)) (reject RejectReason.invalid_instrument)
  located ← require (locate book r.order_id) (reject RejectReason.unknown_order)
  reject_if (not (located.1 == r.account_id)) (reject RejectReason.not_order_owner)
  reject_if (leb_ℤ r.price (pos 0)) (reject RejectReason.invalid_price)
  reject_if (r.quantity == 0) (reject RejectReason.invalid_quantity)
  level ← require (level_at book located.0.side located.0.level_index) panic
  old ← require (get_live level located.0.slot) panic
  change_order r located.0 level old
