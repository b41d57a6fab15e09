-- ===== src/Book/OrderBook/Holds/Joined.antt =====
-- crates/hft-book/src/lib.rs: the side that `rest_at_tail` leaves.
use hft_engine_rs.Prelude.{
  ok, ℕ, ◌≤◌, ◌≡◌, refl, ap, sym, subst, ◌∙◌, false, some, none, List, [], ◌∷◌, ◌++◌, map, arith,
  Option-cases, inl, inr,
}
use hft_engine_rs.Prelude.Int.{ℤ}
use hft_engine_rs.Types.{Side, is_buy, opposite}
use hft_engine_rs.Book.Levels
use hft_engine_rs.Book.Levels.{LevelIndex, listed}
use hft_engine_rs.Book.Levels.Order.{slot_of}
use hft_engine_rs.Book.Levels.Directory.{find_lem, entries-insert, next_free}
use hft_engine_rs.Book.Levels.Pool.{uses, occurrences, next_free-IsUnused}
use hft_engine_rs.Book.Fifo
use hft_engine_rs.Book.Fifo.{PriceLevel, RestingOrder, push_tail, get_live}
use hft_engine_rs.Book.Fifo.Push.{new-IsQueue}
use hft_engine_rs.Book.OrderBook.{
  OrderBook, side_index, put_index, write_handle, open_level, rest_at_tail,
}
use hft_engine_rs.Book.OrderBook.Sides.{IsSound, put_level-index}
use hft_engine_rs.Book.OrderBook.Match.Priority.{Queue}
use hft_engine_rs.Book.OrderBook.Holds.{
  plain, IsLevel, View, Holds, level_at-put_ne, level_at-put_index, side_index-put,
  put_level-opposite, put_index-opposite,
}
use hft_engine_rs.Book.OrderBook.Holds.Level.{push_tail-IsLevel, write_handle-IsLevel}
use hft_engine_rs.Book.OrderBook.Holds.Out.{unused_apart, one_at_most}
use hft_engine_rs.Book.OrderBook.Holds.Rest.{level-IsListed, joined, joined_new}
use hft_engine_rs.Book.Levels.Order.{IsSorted}
use hft_engine_rs.Book.Levels.Map.{insert_at}
use hft_engine_rs.Book.OrderBook.Holds.Join.{
  IsPlaced, rest_at_tail_ok, open_listed, open_new, opened, level_at-put_some, ok_same,
}

fresh_price : (price : ℤ) (orders : ℕ) → (Fifo.new price orders).price ≡ price
unfolding Fifo.new
fresh_price price orders = refl

level_inj : (a b : PriceLevel) → some a ≡ some b → a ≡ b
level_inj a b h = cc

-- What the order in its place makes of the level.
placed-IsLevel :
    (side : Side) (at : ℕ) (price : ℤ) (x : RestingOrder) (book other : OrderBook) (es : Queue)
    (level : PriceLevel)
    → (w : IsPlaced side at x book other) → level ≡ w.was
    → IsLevel level price es
    → IsLevel
        (write_handle w.slot w.handle (push_tail x w.was).1)
        price
        (es ++ (w.slot, plain x) ∷ [])
placed-IsLevel side at price x book other es level w e l =
    write_handle-IsLevel w.slot w.handle _ price _ (
      push_tail-IsLevel x w.was price w.slot es (subst (λ (y : PriceLevel). IsLevel y price es) e l)
        w.pushed)

module _ (levels : ℕ) (side : Side) (price : ℤ) (x : RestingOrder) (book other : OrderBook)
    (own facing : View) (sound : IsSound levels book) (held : Holds book side own)
    (across : Holds book (opposite side) facing) where
  abbrev Rested : Type 0
  Rested =
      (at : ℕ) × (slot : ℕ) × Holds other side (joined (is_buy side) price at (slot, plain x) own)
      × Holds other (opposite side) facing

  sorted : IsSorted (is_buy side) (map (λ v. v.0) own)
  sorted = subst (IsSorted (is_buy side)) held.entries (sound.at side).0.0

  looked_up :
      Levels.find (side_index book side) price (is_buy side) ≡ slot_of price (map (λ v. v.0) own)
  looked_up =
      find_lem (is_buy side) price levels (side_index book side) (sound.at side).0
      ∙ ap (slot_of price) held.entries

  used_once : (at : ℕ) → uses at (map (λ v. v.0) own) ≤ 1
  used_once at = omega (
    arith,
    one_at_most at levels (occurrences at (side_index book side)) ((sound.at side).1 at),
    ap (uses at) held.entries,
  )

  rested_old :
      (at : ℕ)
      → Levels.find (side_index book side) price (is_buy side) ≡ some at
      → IsPlaced side at x book other
      → Rested
  rested_old at k w =
      let r =
        level-IsListed (is_buy side) side price at book own sorted (sym looked_up ∙ k)
          (used_once at) held.levels in
      let level =
        placed-IsLevel side at price x book other r.es r.level w
          (level_inj r.level w.was (sym r.found ∙ w.found)) r.held in
      let (same, each) = r.then_joined other _ at (w.slot, plain x) w.changes w.shown level in
      (
        at,
        w.slot,
        record { entries = ap listed w.index ∙ (held.entries ∙ sym same); levels = each },
        w.changes.facing facing across,
      )

  abbrev next : ℕ
  next = next_free (side_index book side)

  rested_new :
      Levels.find (side_index book side) price (is_buy side) ≡ none
      → Levels.is_full (side_index book side) ≡ false
      → IsPlaced side next x (opened side price book) other
      → Rested
  rested_new k f w =
      let d = is_buy side in
      let index = side_index book side in
      let grown = (Levels.insert price d index).1 in
      let fresh =
        level_at-put_some (put_index side grown book) side next
          (Fifo.new price book.orders_per_level) w.was w.found in
      let empty : IsLevel (Fifo.new price book.orders_per_level) price [] = record {
        queue = [];
        linked = new-IsQueue price book.orders_per_level sound.addressable;
        priced = fresh_price price book.orders_per_level;
        same = refl;
      } in
      let level =
        placed-IsLevel side next price x (opened side price book) other [] _ w fresh empty in
      let unused = (next_free-IsUnused d levels index (sound.at side).0 (sound.at side).1 f).1 in
      let (same, each) =
        joined_new d side price next book other _ (w.slot, plain x) own (sym looked_up ∙ k)
          (unused_apart next own (sym (ap (uses next) held.entries) ∙ unused))
          (record {
            others = λ j n.
                w.changes.others j n
                ∙ (level_at-put_ne (put_index side grown book) side next j _ n
                    ∙ level_at-put_index book side grown j);
            facing = λ view v. w.changes.facing view (
                put_level-opposite (put_index side grown book) side next _ view
                  (put_index-opposite book side grown view v));
          })
          w.shown level held.levels in
      let listed_after =
        ap listed (
          w.index
          ∙ (put_level-index side side next _ (put_index side grown book)
              ∙ side_index-put book side grown))
        ∙ (entries-insert d price levels index (sound.at side).0 f
            ∙ ap
                (λ (es : List (ℤ × ℕ)).
                  insert_at (Levels.partition_point d price es) (price, next) es)
                held.entries) in
      (
        next,
        w.slot,
        record { entries = listed_after ∙ sym same; levels = each },
        w.changes.facing facing (
            put_level-opposite (put_index side grown book) side next _ facing
              (put_index-opposite book side grown facing across)),
      )

-- An order that rests is at the end of the queue at its price, and all else is as it was.
pub rest_at_tail-Holds :
    (levels : ℕ) (side : Side) (price : ℤ) (x : RestingOrder) (book : OrderBook) (own facing : View)
    → IsSound levels book
    → Holds book side own
    → Holds book (opposite side) facing
    → (rest_at_tail side price x book).0 ≡ ok tt
    → (at : ℕ) × (slot : ℕ) × Holds
        (rest_at_tail side price x book).1
        side
        (joined (is_buy side) price at (slot, plain x) own)
      × Holds (rest_at_tail side price x book).1 (opposite side) facing
rest_at_tail-Holds levels side price x book own facing sound held other h =
    let (at, opens, placed) = rest_at_tail_ok side price x book h in
    let after = (rest_at_tail side price x book).1 in
    elim (Option-cases (Levels.find (side_index book side) price (is_buy side))) [
      | inr (at', k) ↦
          let e = open_listed side price book at' k in
          let same = ok_same at' at (sym (ap (λ r. r.0) e) ∙ opens) in
          rested_old levels side price x book after own facing sound held other at' k (
            subst (λ (b : OrderBook). IsPlaced side at' x b after) (ap (λ r. r.1) e)
              (subst (λ (i : ℕ). IsPlaced side i x (open_level side price book).1 after) (sym same)
                placed))
      | inl k ↦
          let (f, e) = open_new side price book at k opens in
          let same =
            ok_same (next_free (side_index book side)) at (sym (ap (λ r. r.0) e) ∙ opens) in
          rested_new levels side price x book after own facing sound held other k f (
            subst (λ (b : OrderBook). IsPlaced side (next_free (side_index book side)) x b after)
              (ap (λ r. r.1) e)
              (subst (λ (i : ℕ). IsPlaced side i x (open_level side price book).1 after) (sym same)
                placed))
    ]
