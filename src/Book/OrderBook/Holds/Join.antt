-- ===== src/Book/OrderBook/Holds/Join.antt =====
-- crates/hft-book/src/lib.rs: `rest_at_tail`, step by step, and the side that it leaves.
use hft_engine_rs.Prelude.{
  Result, ok, ℕ, zero, suc, ◌≡◌, refl, ap, sym, subst, ◌∙◌, false, Option, some, none, List, [],
  ◌∷◌, arith, get_or, set, Bool-cases, Option-cases, Result-cases, inl, inr,
}
use hft_engine_rs.Prelude.Int.{ℤ}
use hft_engine_rs.Prelude.Action.Atomic.{follow_ok}
use hft_engine_rs.Types.{Side, is_buy, opposite}
use hft_engine_rs.Book.Levels
use hft_engine_rs.Book.Levels.{LevelIndex, listed}
use hft_engine_rs.Book.Levels.Directory.{next_free}
use hft_engine_rs.Book.Levels.Changes.{refused_hands, handed}
use hft_engine_rs.Book.Location.{OrderLocation}
use hft_engine_rs.Book.Index
use hft_engine_rs.Book.Fifo
use hft_engine_rs.Book.Fifo.{PriceLevel, RestingOrder, push_tail, get_live}
use hft_engine_rs.Book.OrderBook.{
  OrderBook, Stop, side_index, level_at, put_level, put_index, write_handle, open_level, join_level,
  index_order, set_handle, rest_at_tail,
}
use hft_engine_rs.Book.OrderBook.Sides.{put_level-index}
use hft_engine_rs.Book.OrderBook.Holds.{
  level_at_lt, level_at-put, level_at-put_ne, put_level-opposite, record_index-Holds,
}
use hft_engine_rs.Book.OrderBook.Holds.Rest.{ChangesAt}

-- What placing an order in the level of a slot leaves: the order is at the end of the level, and the rest
-- of the side is as it was.
pub record IsPlaced (side : Side) (at : ℕ) (x : RestingOrder) (book other : OrderBook)
    : Type 0 where
  pub was : PriceLevel
  pub found : level_at book side at ≡ some was
  pub slot : ℕ
  pub pushed : (push_tail x was).0 ≡ some slot
  pub handle : ℕ
  pub shown : level_at other side at ≡ some (write_handle slot handle (push_tail x was).1)
  pub index : side_index other side ≡ side_index book side
  pub changes : ChangesAt side at book other

join_ok :
    (side : Side) (at : ℕ) (x : RestingOrder) (book : OrderBook) (slot : ℕ)
    → (join_level side at x book).0 ≡ ok slot
    → (level : PriceLevel) × (level_at book side at ≡ some level)
      × ((push_tail x level).0 ≡ some slot)
      × ((join_level side at x book).1 ≡ put_level side at (some (push_tail x level).1) book)
unfolding join_level
join_ok side at x book slot h = elim (Option-cases (level_at book side at)) [
  | inl k ↦ absurd (ground (arith, h, k))
  | inr (level, k) ↦ elim (Option-cases (push_tail x level).0) [
    | inl p ↦ absurd (ground (arith, h, k, p))
    | inr (s, p) ↦ (level, k, ground (arith, h, k, p), rw (join_level, k, p) refl)
  ]
]

index_ok :
    (id : ℕ) (l : OrderLocation) (book : OrderBook) (n : ℕ)
    → (index_order id l book).0 ≡ ok n
    → (index_order id l book).1 ≡ record book { index = (Index.insert id l book.index).1 }
unfolding index_order
index_ok id l book n h = elim (Result-cases (Index.insert id l book.index).0) [
  | inl (m, k) ↦ rw (index_order, k) refl
  | inr (e, k) ↦ absurd (ground (arith, h, k))
]

handle_ok :
    (l : OrderLocation) (n : ℕ) (book : OrderBook) (level : PriceLevel)
    → level_at book l.side l.level_index ≡ some level
    → (set_handle l n book).0 ≡ ok tt
    → (set_handle l n book).1
      ≡ put_level l.side l.level_index (some (write_handle l.slot n level)) book
unfolding set_handle
handle_ok l n book level k h = elim (Option-cases (get_live level l.slot)) [
  | inl g ↦ absurd (ground (arith, h, k, g))
  | inr (o, g) ↦ rw (set_handle, k, g) refl
]

level_at-index :
    (book : OrderBook) (side : Side) (x : Index.OrderIndex) (j : ℕ)
    → level_at (record book { index = x }) side j ≡ level_at book side j
level_at-index book Side.buy x j = refl
level_at-index book Side.sell x j = refl

side_index-index :
    (book : OrderBook) (side : Side) (x : Index.OrderIndex)
    → side_index (record book { index = x }) side ≡ side_index book side
side_index-index book Side.buy x = refl
side_index-index book Side.sell x = refl

-- The book after an order was placed.
module _ (side : Side) (at : ℕ) (book : OrderBook) (l1 l2 : PriceLevel) (x : Index.OrderIndex) where
  abbrev joined_book : OrderBook
  joined_book = record (put_level side at (some l1) book) { index = x }

  abbrev placed : OrderBook
  placed = put_level side at (some l2) joined_book

  joined_at :
      (level : PriceLevel)
      → level_at book side at ≡ some level
      → level_at joined_book side at ≡ some l1
  joined_at level f =
      level_at-index (put_level side at (some l1) book) side x at
      ∙ level_at-put book side at (some l1) (level_at_lt book side at level f)

  placed_at :
      (level : PriceLevel) → level_at book side at ≡ some level → level_at placed side at ≡ some l2
  placed_at level f =
      level_at-put joined_book side at (some l2)
        (level_at_lt joined_book side at l1 (joined_at level f))

  placed_index : side_index placed side ≡ side_index book side
  placed_index =
      put_level-index side side at (some l2) joined_book
      ∙ (side_index-index (put_level side at (some l1) book) side x
          ∙ put_level-index side side at (some l1) book)

  placed-ChangesAt : ChangesAt side at book placed
  placed-ChangesAt = record {
    others = λ j n.
        level_at-put_ne joined_book side at j (some l2) n
        ∙ (level_at-index (put_level side at (some l1) book) side x j
            ∙ level_at-put_ne book side at j (some l1) n);
    facing = λ view w. put_level-opposite joined_book side at (some l2) view (
        record_index-Holds (put_level side at (some l1) book) (opposite side) x view
          (put_level-opposite book side at (some l1) view w));
  }

-- `rest_at_tail` opens the level, and places the order in it.
pub rest_at_tail_ok :
    (side : Side) (price : ℤ) (x : RestingOrder) (book : OrderBook)
    → (rest_at_tail side price x book).0 ≡ ok tt
    → (at : ℕ) × ((open_level side price book).0 ≡ ok at)
      × IsPlaced side at x (open_level side price book).1 (rest_at_tail side price x book).1
unfolding rest_at_tail
rest_at_tail_ok side price x book h =
    let (at, opened, f) = follow_ok (open_level side price book) _ tt h in
    let b1 = (open_level side price book).1 in
    let (slot, joins, f') = follow_ok (join_level side at x b1) _ tt (sym (ap (λ r. r.0) f) ∙ h) in
    let (level, found, pushed, into) = join_ok side at x b1 slot joins in
    let loc : OrderLocation = record { side = side; level_index = at; slot = slot } in
    let b2 = (join_level side at x b1).1 in
    let (n, indexes, f'') =
      follow_ok (index_order x.id loc b2) _ tt
        (sym (ap (λ r. r.0) f') ∙ (sym (ap (λ r. r.0) f) ∙ h)) in
    let entered = index_ok x.id loc b2 n indexes in
    let b3 = (index_order x.id loc b2).1 in
    let l1 = (push_tail x level).1 in
    let ix = (Index.insert x.id loc b2.index).1 in
    let at_b3 : b3 ≡ joined_book side at b1 l1 l1 ix =
      entered ∙ ap (λ (b : OrderBook). record b { index = ix }) into in
    let there =
      ap (λ (b : OrderBook). level_at b side at) at_b3
      ∙ joined_at side at b1 l1 l1 ix level found in
    let set =
      handle_ok loc n b3 l1 there
        (sym (ap (λ r. r.0) f'') ∙ (sym (ap (λ r. r.0) f') ∙ (sym (ap (λ r. r.0) f) ∙ h))) in
    let l2 = write_handle slot n l1 in
    let end =
      ap (λ r. r.1) f
      ∙ (ap (λ r. r.1) f'
          ∙ (ap (λ r. r.1) f''
              ∙ (set ∙ ap (λ (b : OrderBook). put_level side at (some l2) b) at_b3))) in
    (
      at,
      opened,
      subst (λ (b : OrderBook). IsPlaced side at x b1 b) (sym end)
          (record {
            was = level;
            found = found;
            slot = slot;
            pushed = pushed;
            handle = n;
            shown = placed_at side at b1 l1 l2 ix level found;
            index = placed_index side at b1 l1 l2 ix;
            changes = placed-ChangesAt side at b1 l1 l2 ix;
          }),
    )

pub level_at-put_some :
    (book : OrderBook) (side : Side) (at : ℕ) (l m : PriceLevel)
    → level_at (put_level side at (some l) book) side at ≡ some m
    → l ≡ m
level_at-put_some book Side.buy at l m h = get_or-set_some book.bids at l m h
  where
    get_or-set_some :
        (xs : List (Option PriceLevel)) (i : ℕ) (l m : PriceLevel)
        → get_or (set xs i (some l)) i none ≡ some m
        → l ≡ m
    get_or-set_some [] i l m h = absurd (ground arith)
    get_or-set_some (x ∷ xs) zero l m h = cc
    get_or-set_some (x ∷ xs) (suc i) l m h = get_or-set_some xs i l m h
level_at-put_some book Side.sell at l m h = get_or-set_some book.asks at l m h
  where
    get_or-set_some :
        (xs : List (Option PriceLevel)) (i : ℕ) (l m : PriceLevel)
        → get_or (set xs i (some l)) i none ≡ some m
        → l ≡ m
    get_or-set_some [] i l m h = absurd (ground arith)
    get_or-set_some (x ∷ xs) zero l m h = cc
    get_or-set_some (x ∷ xs) (suc i) l m h = get_or-set_some xs i l m h

pub open_listed :
    (side : Side) (price : ℤ) (book : OrderBook) (at : ℕ)
    → Levels.find (side_index book side) price (is_buy side) ≡ some at
    → open_level side price book ≡ (ok at, book)
unfolding open_level
open_listed side price book at k = rw (open_level, k) refl

abbrev pub opened : Side → ℤ → OrderBook → OrderBook
opened side price book =
    put_level side (next_free (side_index book side)) (some (Fifo.new price book.orders_per_level))
      (put_index side (Levels.insert price (is_buy side) (side_index book side)).1 book)

pub open_new :
    (side : Side) (price : ℤ) (book : OrderBook) (at : ℕ)
    → Levels.find (side_index book side) price (is_buy side) ≡ none
    → (open_level side price book).0 ≡ ok at
    → (Levels.is_full (side_index book side) ≡ false)
      × (open_level side price book
          ≡ (ok (next_free (side_index book side)), opened side price book))
unfolding open_level
open_new side price book at k h = elim (Bool-cases (Levels.is_full (side_index book side))) [
  | inl f ↦
      absurd (ground (arith, h, k, refused_hands (is_buy side) price (side_index book side) f))
  | inr f ↦ (f, rw (open_level, k, handed (is_buy side) price (side_index book side) f) refl)
]

pub ok_same : (a b : ℕ) → ◌≡◌ {A = Result Stop ℕ} (ok a) (ok b) → a ≡ b
ok_same a b h = ground arith
