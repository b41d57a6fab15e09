-- ===== src/Book/OrderBook/Sides.antt =====
-- crates/hft-book/src/lib.rs: every method of `OrderBook` keeps both price directories in order.
pub mod Trade
use hft_engine_rs.Prelude.{
  ℕ, ◌-◌, ◌<◌, ◌==◌, ◌&&◌, not, ◌≡◌, refl, sym, Bool, ap, subst, ◌∙◌, Option-cases, Bool-cases,
  Result-cases, List, [], ◌∷◌, Option, none, some, ok, err, arith, inl, inr, if◌then◌else◌, true,
  false, ltb,
}
use hft_engine_rs.Prelude.Int.{ℤ, eqb_ℤ}
use hft_engine_rs.Prelude.Words.{u64_limit}
use hft_engine_rs.Prelude.Action.{Action, modify}
use hft_engine_rs.Prelude.Action.Maintain.{
  Maintains, maintains, modify-Maintains, >>-Maintains, >>=-Maintains, require-Maintains,
}
use hft_engine_rs.Types.{Side, is_buy, NewOrder, CancelOrder, ReplaceOrder, ExecutionReport}
use hft_engine_rs.Types.Reports
use hft_engine_rs.Book.Levels
use hft_engine_rs.Book.Levels.{LevelIndex}
use hft_engine_rs.Book.Levels.Order.{slot_of}
use hft_engine_rs.Book.Levels.Directory.{
  IsDirectory, find_lem, next_free, insert-IsDirectory, remove-IsDirectory,
}
use hft_engine_rs.Book.Levels.Pool.{
  IsComplete, new-IsDirectory, new-IsComplete, insert-IsComplete, remove-IsComplete,
}
use hft_engine_rs.Book.Levels.Changes.{refused_insert, refused_remove}
use hft_engine_rs.Book.Location.{OrderLocation}
use hft_engine_rs.Book.Fifo.{PriceLevel, RestingOrder}
use hft_engine_rs.Book.Plan.{FillEntry, MatchPlan, fills}
use hft_engine_rs.Book.Index
use hft_engine_rs.Book.Index.Remove.{remove_at-keeps}
use hft_engine_rs.Book.OrderBook
use hft_engine_rs.Book.OrderBook.{
  OrderBook, Stop, Method, side_index, put_level, put_index, level_at, open_level, join_level,
  index_order, set_handle, rest_at_tail, rest, close_level, unlink_order, update_reverse_slot,
  remove_index_entry,
}
use hft_engine_rs.Book.OrderBook.Change.{
  Trading, on_book, report, reduce_order, take_out, apply_fill, apply_fills, apply_plan, submit,
  cancel, replace, check_destination, move_order, requeue, change_order,
}

-- Both sides list their prices from the best on, each level slot is in use or in the pool, once, and the
-- sides have the given number of level slots. An array of orders fits in the address space.
pub record IsSound (levels : ℕ) (book : OrderBook) : Type 0 where
  pub at :
      (side : Side)
      → IsDirectory (is_buy side) levels (side_index book side)
        × IsComplete levels (side_index book side)
  pub addressable : book.orders_per_level < u64_limit

-- A new book is sound.
pub new-IsSound :
    (levels orders instrument : ℕ)
    → orders < u64_limit
    → IsSound levels (OrderBook.new levels orders instrument)
unfolding OrderBook.new
new-IsSound levels orders instrument h = record { at = by_side; addressable = h }
  where
    by_side :
        (side : Side)
        → IsDirectory
            (is_buy side)
            levels
            (side_index (OrderBook.new levels orders instrument) side)
          × IsComplete levels (side_index (OrderBook.new levels orders instrument) side)
    by_side Side.buy = (new-IsDirectory true levels, new-IsComplete levels)
    by_side Side.sell = (new-IsDirectory false levels, new-IsComplete levels)

pub put_level-index :
    (side other : Side) (at : ℕ) (l : Option PriceLevel) (book : OrderBook)
    → side_index (put_level side at l book) other ≡ side_index book other
put_level-index Side.buy Side.buy at l book = refl
put_level-index Side.buy Side.sell at l book = refl
put_level-index Side.sell Side.buy at l book = refl
put_level-index Side.sell Side.sell at l book = refl

put_level-orders :
    (side : Side) (at : ℕ) (l : Option PriceLevel) (book : OrderBook)
    → (put_level side at l book).orders_per_level ≡ book.orders_per_level
put_level-orders Side.buy at l book = refl
put_level-orders Side.sell at l book = refl

put_index-orders :
    (side : Side) (index : LevelIndex) (book : OrderBook)
    → (put_index side index book).orders_per_level ≡ book.orders_per_level
put_index-orders Side.buy index book = refl
put_index-orders Side.sell index book = refl

module _ (levels : ℕ) where
  pub put_level-IsSound :
      (side : Side) (at : ℕ) (l : Option PriceLevel) (book : OrderBook)
      → IsSound levels book
      → IsSound levels (put_level side at l book)
  put_level-IsSound side at l book w = record {
    at = λ other. rw (put_level-index side other at l book) (w.at other);
    addressable =
        subst (λ (n : ℕ). n < u64_limit) (sym (put_level-orders side at l book)) w.addressable;
  }

  put_index_at :
      (side other : Side) (index : LevelIndex) (book : OrderBook)
      → IsSound levels book
      → IsDirectory (is_buy side) levels index × IsComplete levels index
      → IsDirectory (is_buy other) levels (side_index (put_index side index book) other)
        × IsComplete levels (side_index (put_index side index book) other)
  put_index_at Side.buy Side.buy index book w d = d
  put_index_at Side.buy Side.sell index book w d = w.at Side.sell
  put_index_at Side.sell Side.buy index book w d = w.at Side.buy
  put_index_at Side.sell Side.sell index book w d = d

  put_index-IsSound :
      (side : Side) (index : LevelIndex) (book : OrderBook)
      → IsSound levels book
      → IsDirectory (is_buy side) levels index × IsComplete levels index
      → IsSound levels (put_index side index book)
  put_index-IsSound side index book w d = record {
    at = λ other. put_index_at side other index book w d;
    addressable =
        subst (λ (n : ℕ). n < u64_limit) (sym (put_index-orders side index book)) w.addressable;
  }

  -- Where no slot is free, insertion leaves the directory.
  insert-IsSound :
      (d : Bool) (p : ℤ) (index : LevelIndex)
      → IsDirectory d levels index × IsComplete levels index
      → Levels.find index p d ≡ none
      → IsDirectory d levels (Levels.insert p d index).1
        × IsComplete levels (Levels.insert p d index).1
  insert-IsSound d p index (w, c) h = elim (Bool-cases (Levels.is_full index)) [
    | inl f ↦ rw (refused_insert d p index f) (w, c)
    | inr f ↦ (
      insert-IsDirectory d p levels index w f (sym (find_lem d p levels index w) ∙ h),
      insert-IsComplete d p levels index w c f,
    )
  ]

  remove-IsSound :
      (d : Bool) (p : ℤ) (index : LevelIndex)
      → IsDirectory d levels index × IsComplete levels index
      → IsDirectory d levels (Levels.remove p d index).1
        × IsComplete levels (Levels.remove p d index).1
  remove-IsSound d p index (w, c) = elim (Option-cases (Levels.find index p d)) [
    | inl f ↦ rw (refused_remove d p index f) (w, c)
    | inr (v, f) ↦
        (remove-IsDirectory d p v levels index w f, remove-IsComplete d p v levels index w c f)
  ]

  open_level_kept :
      (side : Side) (price : ℤ) (book : OrderBook)
      → IsSound levels book
      → IsSound levels (open_level side price book).1
  unfolding open_level
  open_level_kept side price book w =
      elim (Option-cases (Levels.find (side_index book side) price (is_buy side))) [
        | inr (at, k) ↦ rw (open_level, k) w
        | inl k ↦ elim (Option-cases (Levels.insert price (is_buy side) (side_index book side)).0) [
          | inl n ↦ rw (open_level, k, n) w
          | inr (at, n) ↦
              rw (open_level, k, n)
                (put_level-IsSound side at _ _ (
                  put_index-IsSound side _ book w
                    (insert-IsSound (is_buy side) price (side_index book side) (w.at side) k)))
        ]
      ]

  pub open_level-Maintains :
      (side : Side) (price : ℤ) → Maintains (IsSound levels) (open_level side price)
  open_level-Maintains side price = record { kept = open_level_kept side price }

  close_level_kept :
      (side : Side) (at : ℕ) (price : ℤ) (book : OrderBook)
      → IsSound levels book
      → IsSound levels (close_level side at price book)
  unfolding close_level
  close_level_kept side at price book w =
      put_index-IsSound side _ _ (put_level-IsSound side at none book w)
        (remove-IsSound (is_buy side) price (side_index book side) (w.at side))

  put_level-Maintains :
      (side : Side) (at : ℕ) (l : Option PriceLevel)
      → Maintains (IsSound levels) (modify {E = Stop} (put_level side at l))
  put_level-Maintains side at l = modify-Maintains _ _ (put_level-IsSound side at l)

  join_level-Maintains :
      (side : Side) (at : ℕ) (o : RestingOrder) → Maintains (IsSound levels) (join_level side at o)
  unfolding join_level
  join_level-Maintains side at o = search (maintains, put_level-Maintains) depth 12

  record_index :
      (book : OrderBook) (index : Index.OrderIndex)
      → IsSound levels book
      → IsSound levels (record book { index = index })
  record_index book index w = record { at = by_side; addressable = w.addressable }
    where
      by_side :
          (side : Side)
          → IsDirectory (is_buy side) levels (side_index (record book { index = index }) side)
            × IsComplete levels (side_index (record book { index = index }) side)
      by_side Side.buy = w.at Side.buy
      by_side Side.sell = w.at Side.sell

  index_order_kept :
      (id : ℕ) (l : OrderLocation) (book : OrderBook)
      → IsSound levels book
      → IsSound levels (index_order id l book).1
  unfolding index_order
  index_order_kept id l book w = elim (Result-cases (Index.insert id l book.index).0) [
    | inl (at, k) ↦ rw (index_order, k) (record_index book (Index.insert id l book.index).1 w)
    | inr (e, k) ↦ rw (index_order, k) w
  ]

  index_order-Maintains :
      (id : ℕ) (l : OrderLocation) → Maintains (IsSound levels) (index_order id l)
  index_order-Maintains id l = record { kept = index_order_kept id l }

  set_handle-Maintains : (l : OrderLocation) (n : ℕ) → Maintains (IsSound levels) (set_handle l n)
  unfolding set_handle
  set_handle-Maintains l n = search (maintains, put_level-Maintains) depth 12

  ruleset resting = (
    maintains, open_level-Maintains, join_level-Maintains, index_order-Maintains,
    set_handle-Maintains,
  )

  pub rest_at_tail-Maintains :
      (side : Side) (price : ℤ) (o : RestingOrder)
      → Maintains (IsSound levels) (rest_at_tail side price o)
  unfolding rest_at_tail
  rest_at_tail-Maintains side price o = search resting depth 12

  pub rest-Maintains : (o : NewOrder) (n : ℕ) → Maintains (IsSound levels) (rest o n)
  unfolding rest
  rest-Maintains o n = rest_at_tail-Maintains _ _ _

  close_empty :
      (b : Bool) (side : Side) (at : ℕ) (price : ℤ) (book : OrderBook)
      → IsSound levels book
      → IsSound levels (if b then close_level side at price book else book)
  close_empty true side at price book w = close_level_kept side at price book w
  close_empty false side at price book w = w

  close_empty-Maintains :
      (b : Bool) (side : Side) (at : ℕ) (price : ℤ)
      → Maintains
          (IsSound levels)
          (modify {E = Stop} (λ book. if b then close_level side at price book else book))
  close_empty-Maintains b side at price = modify-Maintains _ _ (close_empty b side at price)

  pub unlink_order-Maintains :
      (side : Side) (at slot : ℕ) → Maintains (IsSound levels) (unlink_order side at slot)
  unfolding unlink_order
  unlink_order-Maintains side at slot =
      search (maintains, put_level-Maintains, close_empty-Maintains) depth 14

  pub remove_index_entry_kept :
      (slot id : ℕ) (book : OrderBook)
      → IsSound levels book
      → IsSound levels (remove_index_entry slot id book)
  unfolding remove_index_entry update_reverse_slot
  remove_index_entry_kept slot id book w = record_index _ _ (
      remove_at-keeps update_reverse_slot (IsSound levels)
        (λ n l new b v. put_level-IsSound l.side l.level_index _ b v) slot id book.index book w)

  pub remove_index_entry-Maintains :
      (slot id : ℕ) → Maintains (IsSound levels) (modify {E = Stop} (remove_index_entry slot id))
  remove_index_entry-Maintains slot id = modify-Maintains _ _ (remove_index_entry_kept slot id)

  pub reduce_order-Maintains :
      (side : Side) (at slot n : ℕ) → Maintains (IsSound levels) (reduce_order side at slot n)
  unfolding reduce_order
  reduce_order-Maintains side at slot n = search (maintains, put_level-Maintains) depth 12

  pub take_out-Maintains :
      (side : Side) (f : FillEntry) (n : ℕ) → Maintains (IsSound levels) (take_out side f n)
  unfolding take_out
  take_out-Maintains side f n =
      search (maintains, remove_index_entry-Maintains, unlink_order-Maintains) depth 12
