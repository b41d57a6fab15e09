-- ===== src/Book/OrderBook.antt =====
-- crates/hft-book/src/lib.rs: `OrderBook`, two sides of price levels with their directories and the
-- index of the orders. `orders_per_level` is ORDERS_PER_LEVEL, and LEVELS is the length of `bids` and of
-- `asks`. An `expect` that fails is the outcome `panic`; what a method left before it is not read.
pub mod Match
pub mod Change
pub mod Sides
pub mod Holds
mod Tests
use hft_engine_rs.Prelude.{
  ℕ, zero, suc, ◌+◌, ◌-◌, ◌*◌, ◌%◌, ◌==◌, Bool, true, false, Option, none, some, List, [], ◌∷◌,
  Result, ok, err, length, get_or, get_elem?, set, replicate, if◌then◌else◌,
}
use hft_engine_rs.Prelude.Int.{ℤ, pos, negsuc}
use hft_engine_rs.Prelude.Words.{u64_limit, ◌>>=?◌}
use hft_engine_rs.Prelude.Action.{Action, ◌>>=◌, ◌>>◌, done, require, self, modify}
use hft_engine_rs.Types.{Side, is_buy, NewOrder, RejectReason}
use hft_engine_rs.Book.Levels
use hft_engine_rs.Book.Levels.{LevelIndex, listed}
use hft_engine_rs.Book.Location.{OrderLocation}
use hft_engine_rs.Book.Index
use hft_engine_rs.Book.Index.{OrderIndex}
use hft_engine_rs.Book.Fifo
use hft_engine_rs.Book.Fifo.{
  PriceLevel, RestingOrder, OrderSlot, nil, push_tail, unlink, get_live, update_live, for_each_live,
}

pub record OrderBook : Type 0 where
  pub instrument : ℕ
  pub bids : List (Option PriceLevel)
  pub asks : List (Option PriceLevel)
  pub index : OrderIndex
  pub bid_levels : LevelIndex
  pub ask_levels : LevelIndex
  pub orders_per_level : ℕ

unfoldable pub new : ℕ → ℕ → ℕ → OrderBook
new levels orders instrument = record {
  instrument = instrument;
  bids = replicate levels none;
  asks = replicate levels none;
  index = Index.new levels orders;
  bid_levels = Levels.new levels;
  ask_levels = Levels.new levels;
  orders_per_level = orders;
}

abbrev pub side_levels : OrderBook → Side → List (Option PriceLevel)
side_levels book Side.buy = book.bids
side_levels book Side.sell = book.asks

abbrev pub side_index : OrderBook → Side → LevelIndex
side_index book Side.buy = book.bid_levels
side_index book Side.sell = book.ask_levels

-- Writes through `side_levels_mut` and `side_index_mut`.
abbrev pub put_level : Side → ℕ → Option PriceLevel → OrderBook → OrderBook
put_level Side.buy at level book = record book { bids = set book.bids at level }
put_level Side.sell at level book = record book { asks = set book.asks at level }

abbrev pub put_index : Side → LevelIndex → OrderBook → OrderBook
put_index Side.buy index book = record book { bid_levels = index }
put_index Side.sell index book = record book { ask_levels = index }

abbrev pub level_at : OrderBook → Side → ℕ → Option PriceLevel
level_at book side at = get_or (side_levels book side) at none

pub record TopLevel : Type 0 where
  pub price : ℤ
  pub aggregate_quantity : ℕ
  pub order_count : ℕ

unfoldable pub top_level : OrderBook → Side → Option TopLevel
top_level book side = get_elem? (listed (side_index book side)) 0 >>=? λ entry.
    level_at book side entry.1 >>=? λ level. some (record {
      price = entry.0;
      aggregate_quantity = level.aggregate_quantity;
      order_count = level.len;
    })

unfoldable pub contains_order : OrderBook → ℕ → Bool
contains_order book order_id = elim (Index.location book.index order_id) [
  | none ↦ false
  | some location ↦ true
]

-- The location of an order and its owner.
unfoldable pub locate : OrderBook → ℕ → Option (OrderLocation × ℕ)
locate book order_id = Index.location book.index order_id >>=? λ location.
    level_at book location.side location.level_index >>=? λ level.
    get_live level location.slot >>=? λ order.
    (if order.id == order_id then some (location, order.account_id) else none)

-- What a method ends with where it returns no value: a rejection, or a panic. `diverged` is a walk
-- that has not ended after as many rounds as its level has slots and one.
pub data Stop : Type 0 where
  reject : RejectReason → Stop
  panic diverged : Stop

abbrev pub Method : Type 0 → Type 0
Method = Action OrderBook Stop

abbrev pub with_handle : ℕ → RestingOrder → RestingOrder
with_handle index_slot order = record order { index_slot = index_slot }

abbrev pub write_handle : ℕ → ℕ → PriceLevel → PriceLevel
write_handle slot index_slot level = record level {
  slots = update_live slot (with_handle index_slot) level.slots;
}

abbrev pub moved_in : ℕ → ℕ → ℕ → Option PriceLevel → Option PriceLevel
moved_in moved_id slot new_slot none = none
moved_in moved_id slot new_slot (some level) = elim (get_live level slot) [
  | none ↦ some level
  | some order ↦ some (if order.id == moved_id then write_handle slot new_slot level else level)
]

-- The callback of `remove_index_entry`, on the levels of both sides.
unfoldable pub update_reverse_slot : ℕ → OrderLocation → ℕ → OrderBook → OrderBook
update_reverse_slot moved_id location new_slot book =
    put_level location.side location.level_index
      (moved_in moved_id location.slot new_slot (level_at book location.side location.level_index))
      book

unfoldable pub remove_index_entry : ℕ → ℕ → OrderBook → OrderBook
unfolding update_reverse_slot
remove_index_entry index_slot order_id book =
    let removed = Index.remove_at update_reverse_slot index_slot order_id book.index book in
    record (removed.2) { index = removed.1 }

-- The level at a price, made in a free slot where there is none.
unfoldable pub open_level : Side → ℤ → Method ℕ
open_level side price book = elim (Levels.find (side_index book side) price (is_buy side)) [
  | some at ↦ (ok at, book)
  | none ↦
      let inserted = Levels.insert price (is_buy side) (side_index book side) in
      elim inserted.0 [
        | none ↦ (err Stop.panic, book)
        | some at ↦ (
          ok at,
          put_level side at (some (Fifo.new price book.orders_per_level))
              (put_index side inserted.1 book),
        )
      ]
]

unfoldable pub join_level : Side → ℕ → RestingOrder → Method ℕ
join_level side at resting = do
  book ← self
  level ← require (level_at book side at) Stop.panic
  slot ← require (push_tail resting level).0 Stop.panic
  modify (put_level side at (some (push_tail resting level).1))
  done slot

unfoldable pub index_order : ℕ → OrderLocation → Method ℕ
index_order order_id location book =
    let inserted = Index.insert order_id location book.index in
    elim inserted.0 [
      | ok flat ↦ (ok flat, record book { index = inserted.1 })
      | err reason ↦ (err Stop.panic, book)
    ]

unfoldable pub set_handle : OrderLocation → ℕ → Method (Unit {0})
set_handle location index_slot = do
  book ← self
  level ← require (level_at book location.side location.level_index) Stop.panic
  order ← require (get_live level location.slot) Stop.panic
  modify (
      put_level location.side location.level_index
        (some (write_handle location.slot index_slot level)))

unfoldable pub rest_at_tail : Side → ℤ → RestingOrder → Method (Unit {0})
rest_at_tail side price resting = do
  at ← open_level side price
  slot ← join_level side at resting
  index_slot ← index_order resting.id (record { side = side; level_index = at; slot = slot })
  set_handle (record { side = side; level_index = at; slot = slot }) index_slot

unfoldable pub rest : NewOrder → ℕ → Method (Unit {0})
rest order quantity = rest_at_tail order.side order.price (record {
  id = order.order_id;
  account_id = order.account_id;
  index_slot = 0;
  quantity = quantity;
  sequence = order.sequence;
  prev = nil;
  next = nil;
})

-- A level that lost its last order leaves its slot and the directory.
unfoldable pub close_level : Side → ℕ → ℤ → OrderBook → OrderBook
close_level side at price book =
    put_index side (Levels.remove price (is_buy side) (side_index book side)).1
      (put_level side at none book)

unfoldable pub unlink_order : Side → ℕ → ℕ → Method RestingOrder
unlink_order side at slot = do
  book ← self
  level ← require (level_at book side at) Stop.panic
  removed ← require (unlink slot level).0 Stop.panic
  modify (put_level side at (some (unlink slot level).1))
  modify (λ b. if (unlink slot level).1.len == 0 then close_level side at level.price b else b)
  done removed
