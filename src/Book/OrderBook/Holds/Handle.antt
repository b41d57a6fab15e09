-- ===== src/Book/OrderBook/Holds/Handle.antt =====
-- crates/hft-book/src/lib.rs: `remove_index_entry` and `set_handle` change handles only.
use hft_engine_rs.Prelude.{
  ℕ, ◌==◌, ◌≡◌, refl, ap, sym, ◌∙◌, Option, some, [], ◌∷◌, Each, Option-cases, Bool-cases, inl, inr,
}
use hft_engine_rs.Prelude.Int.{ℤ}
use hft_engine_rs.Book.Levels.{listed}
use hft_engine_rs.Types.{Side, opposite}
use hft_engine_rs.Book.Fifo.{PriceLevel, get_live}
use hft_engine_rs.Book.Index.Remove.{remove_at-keeps}
use hft_engine_rs.Book.OrderBook.{
  OrderBook, level_at, put_level, write_handle, moved_in, update_reverse_slot, remove_index_entry,
}
use hft_engine_rs.Book.OrderBook.Sides.{put_level-index}
use hft_engine_rs.Book.OrderBook.Match.Priority.{Queue}
use hft_engine_rs.Book.OrderBook.Holds.{
  IsLevel, View, IsAt, Holds, level_at_lt, level_at-put, level_at-put_ne, put_level-opposite,
  record_index-Holds,
}
use hft_engine_rs.Book.OrderBook.Holds.Level.{write_handle-IsLevel, same_test, ne_test}

-- What puts in a slot a level that holds the same, where there was one.
module _ (book : OrderBook) (side : Side) (at : ℕ) (f : Option PriceLevel → Option PriceLevel)
    (keeps : (level : PriceLevel) (price : ℤ) (es : Queue)
      → IsLevel level price es
      → (other : PriceLevel) × (f (some level) ≡ some other) × IsLevel other price es) where
  abbrev after : OrderBook
  after = put_level side at (f (level_at book side at)) book

  IsAt-put : (v : (ℤ × ℕ) × Queue) → IsAt book side v → IsAt after side v
  IsAt-put v (level, found, held, n) = elim (Bool-cases (at == v.0.1)) [
    | inr q ↦ (level, level_at-put_ne book side at v.0.1 _ (ne_test at v.0.1 q) ∙ found, held, n)
    | inl q ↦
        let e = same_test at v.0.1 q in
        let here = ap (level_at book side) e ∙ found in
        let (other, put, held') = keeps level v.0.0 v.1 held in
        (
          other,
          ap (level_at after side) (sym e)
              ∙ (level_at-put book side at _ (level_at_lt book side at level here)
                  ∙ (ap f here ∙ put)),
          held',
          n,
        )
  ]

  Each-put : (view : View) → Each (IsAt book side) view → Each (IsAt after side) view
  Each-put [] w = tt
  Each-put (v ∷ vs) w = (IsAt-put v w.0, Each-put vs w.1)

  put-Holds : (view : View) → Holds book side view → Holds after side view
  put-Holds view w = record {
    entries = ap listed (put_level-index side side at _ book) ∙ w.entries;
    levels = Each-put view w.levels;
  }

  pub put-Holds_both :
      (view facing : View)
      → Holds book side view × Holds book (opposite side) facing
      → Holds after side view × Holds after (opposite side) facing
  put-Holds_both view facing (w, v) = (put-Holds view w, put_level-opposite book side at _ facing v)

-- Both sides of a book, the buying side first.
abbrev pub HoldsBoth : OrderBook → View → View → Type 0
HoldsBoth book buys sells = Holds book Side.buy buys × Holds book Side.sell sells

flip : {A B : Type 0} → A × B → B × A
flip (a, b) = (b, a)

put-HoldsBoth :
    (book : OrderBook) (side : Side) (at : ℕ) (f : Option PriceLevel → Option PriceLevel)
    → ((level : PriceLevel) (price : ℤ) (es : Queue)
        → IsLevel level price es
        → (other : PriceLevel) × (f (some level) ≡ some other) × IsLevel other price es)
    → (buys sells : View) → HoldsBoth book buys sells
    → HoldsBoth (put_level side at (f (level_at book side at)) book) buys sells
put-HoldsBoth book Side.buy at f k buys sells w = put-Holds_both book Side.buy at f k buys sells w
put-HoldsBoth book Side.sell at f k buys sells w =
    flip (put-Holds_both book Side.sell at f k sells buys (flip w))

moved_in-keeps :
    (id slot new : ℕ) (level : PriceLevel) (price : ℤ) (es : Queue)
    → IsLevel level price es
    → (other : PriceLevel) × (moved_in id slot new (some level) ≡ some other)
      × IsLevel other price es
moved_in-keeps id slot new level price es w = elim (Option-cases (get_live level slot)) [
  | inl k ↦ (level, rw (moved_in, k) refl, w)
  | inr (o, k) ↦ elim (Bool-cases (o.id == id)) [
    | inl b ↦ (
      write_handle slot new level,
      rw (moved_in, k, b) refl,
      write_handle-IsLevel slot new level price es w,
    )
    | inr b ↦ (level, rw (moved_in, k, b) refl, w)
  ]
]

pub remove_index_entry-Holds :
    (slot id : ℕ) (book : OrderBook) (buys sells : View)
    → HoldsBoth book buys sells
    → HoldsBoth (remove_index_entry slot id book) buys sells
unfolding remove_index_entry update_reverse_slot
remove_index_entry-Holds slot id book buys sells w =
    let kept =
      remove_at-keeps update_reverse_slot (λ (b : OrderBook). HoldsBoth b buys sells)
        (λ n l new b v.
          put-HoldsBoth b l.side l.level_index (moved_in n l.slot new) (moved_in-keeps n l.slot new)
            buys sells v)
        slot id book.index book w in
    (record_index-Holds _ Side.buy _ buys kept.0, record_index-Holds _ Side.sell _ sells kept.1)

pub remove_index_entry_sides :
    (slot id : ℕ) (book : OrderBook) (side : Side) (view facing : View)
    → Holds book side view × Holds book (opposite side) facing
    → Holds (remove_index_entry slot id book) side view
      × Holds (remove_index_entry slot id book) (opposite side) facing
remove_index_entry_sides slot id book Side.buy view facing w =
    remove_index_entry-Holds slot id book view facing w
remove_index_entry_sides slot id book Side.sell view facing w =
    flip (remove_index_entry-Holds slot id book facing view (flip w))
