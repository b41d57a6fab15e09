-- ===== src/Book/OrderBook/Holds.antt =====
-- crates/hft-book/src/lib.rs: what the sides of an `OrderBook` hold, the handles of the index left aside.
pub mod Level
pub mod Handle
pub mod Out
pub mod Fill
pub mod Fills
pub mod Rest
pub mod Join
pub mod Joined
pub mod Exact
use hft_engine_rs.Prelude.{
  ℕ, zero, suc, ◌<◌, ◌≤◌, ◌==◌, ◌≡◌, ◌≢◌, refl, ap, sym, ◌∙◌, Option, none, some, List, [], ◌∷◌,
  map, arith, length, get_or, set, Each,
}
use hft_engine_rs.Prelude.Int.{ℤ}
use hft_engine_rs.Types.{Side, opposite}
use hft_engine_rs.Book.Levels.{LevelIndex, listed}
use hft_engine_rs.Book.Fifo.{PriceLevel, RestingOrder, nil}
use hft_engine_rs.Book.Fifo.Queue.{IsQueue}
use hft_engine_rs.Book.Index.{OrderIndex}
use hft_engine_rs.Book.OrderBook.{
  OrderBook, side_index, side_levels, level_at, put_level, put_index,
}
use hft_engine_rs.Book.OrderBook.Match.Priority.{Queue}

-- An order without its links and its handle in the index.
abbrev pub plain : RestingOrder → RestingOrder
plain order = record order { index_slot = 0; prev = nil; next = nil }

abbrev pub plain_entry : ℕ × RestingOrder → ℕ × RestingOrder
plain_entry e = (e.0, plain e.1)

-- A level of that price whose links hold these orders in these slots, handles left aside.
pub record IsLevel (level : PriceLevel) (price : ℤ) (es : Queue) : Type 0 where
  pub queue : Queue
  pub linked : IsQueue level queue
  pub priced : level.price ≡ price
  pub same : map plain_entry queue ≡ map plain_entry es

abbrev pub View : Type 0
View = List ((ℤ × ℕ) × Queue)

abbrev pub IsAt : OrderBook → Side → (ℤ × ℕ) × Queue → Type 0
IsAt book side v =
    (level : PriceLevel) × (level_at book side v.0.1 ≡ some level)
    × IsLevel level v.0.0 v.1
    × (1 ≤ length v.1)

-- A side lists the levels of the view, in its order, and each holds its queue, which is not empty.
pub record Holds (book : OrderBook) (side : Side) (view : View) : Type 0 where
  pub entries : listed (side_index book side) ≡ map (λ v. v.0) view
  pub levels : Each (IsAt book side) view

get_or_lt :
    (xs : List (Option PriceLevel)) (i : ℕ) (l : PriceLevel)
    → get_or xs i none ≡ some l
    → i < length xs
get_or_lt [] i l h = absurd (ground arith)
get_or_lt (x ∷ xs) zero l h = omega arith
get_or_lt (x ∷ xs) (suc i) l h = omega (arith, get_or_lt xs i l h)

get_or-set :
    (xs : List (Option PriceLevel)) (i : ℕ) (v : Option PriceLevel)
    → i < length xs
    → get_or (set xs i v) i none ≡ v
get_or-set [] i v h = absurd (omega arith)
get_or-set (x ∷ xs) zero v h = refl
get_or-set (x ∷ xs) (suc i) v h = get_or-set xs i v (omega arith)

get_or-set_ne :
    (xs : List (Option PriceLevel)) (i j : ℕ) (v : Option PriceLevel)
    → i ≢ j
    → get_or (set xs i v) j none ≡ get_or xs j none
get_or-set_ne [] i j v h = refl
get_or-set_ne (x ∷ xs) zero zero v h = absurd (h refl)
get_or-set_ne (x ∷ xs) zero (suc j) v h = refl
get_or-set_ne (x ∷ xs) (suc i) zero v h = refl
get_or-set_ne (x ∷ xs) (suc i) (suc j) v h = get_or-set_ne xs i j v (λ q. h (ap suc q))

pub level_at_lt :
    (book : OrderBook) (side : Side) (at : ℕ) (l : PriceLevel)
    → level_at book side at ≡ some l
    → at < length (side_levels book side)
level_at_lt book side at l h = get_or_lt (side_levels book side) at l h

pub level_at-put :
    (book : OrderBook) (side : Side) (at : ℕ) (x : Option PriceLevel)
    → at < length (side_levels book side)
    → level_at (put_level side at x book) side at ≡ x
level_at-put book Side.buy at x h = get_or-set book.bids at x h
level_at-put book Side.sell at x h = get_or-set book.asks at x h

pub level_at-put_ne :
    (book : OrderBook) (side : Side) (at j : ℕ) (x : Option PriceLevel)
    → at ≢ j
    → level_at (put_level side at x book) side j ≡ level_at book side j
level_at-put_ne book Side.buy at j x h = get_or-set_ne book.bids at j x h
level_at-put_ne book Side.sell at j x h = get_or-set_ne book.asks at j x h

-- Where the levels of another book are the same, so is what it holds.
pub Each-IsAt :
    (book other : OrderBook) (side : Side) (view : View)
    → Each (λ v. level_at other side v.0.1 ≡ level_at book side v.0.1) view
    → Each (IsAt book side) view
    → Each (IsAt other side) view
Each-IsAt book other side [] h w = tt
Each-IsAt book other side (v ∷ vs) h ((level, found, held, n), w) =
    ((level, h.0 ∙ found, held, n), Each-IsAt book other side vs h.1 w)

Each-all :
    (P : (ℤ × ℕ) × Queue → Type 0) (view : View) → ((v : (ℤ × ℕ) × Queue) → P v) → Each P view
Each-all P [] f = tt
Each-all P (v ∷ vs) f = (f v, Each-all P vs f)

pub Holds-same :
    (book other : OrderBook) (side : Side) (view : View)
    → side_index other side ≡ side_index book side
    → ((j : ℕ) → level_at other side j ≡ level_at book side j)
    → Holds book side view
    → Holds other side view
Holds-same book other side view i l w = record {
  entries = ap listed i ∙ w.entries;
  levels =
      Each-IsAt book other side view
        (Each-all (λ v. level_at other side v.0.1 ≡ level_at book side v.0.1) view (λ v. l v.0.1))
        w.levels;
}

pub level_at-put_index :
    (book : OrderBook) (side : Side) (x : LevelIndex) (j : ℕ)
    → level_at (put_index side x book) side j ≡ level_at book side j
level_at-put_index book Side.buy x j = refl
level_at-put_index book Side.sell x j = refl

pub side_index-put :
    (book : OrderBook) (side : Side) (x : LevelIndex) → side_index (put_index side x book) side ≡ x
side_index-put book Side.buy x = refl
side_index-put book Side.sell x = refl

-- What changes one side leaves the other, and the index is of neither.
pub put_level-opposite :
    (book : OrderBook) (side : Side) (at : ℕ) (x : Option PriceLevel) (view : View)
    → Holds book (opposite side) view
    → Holds (put_level side at x book) (opposite side) view
put_level-opposite book Side.buy at x view w = Holds-same book _ Side.sell view refl (λ j. refl) w
put_level-opposite book Side.sell at x view w = Holds-same book _ Side.buy view refl (λ j. refl) w

pub put_index-opposite :
    (book : OrderBook) (side : Side) (x : LevelIndex) (view : View)
    → Holds book (opposite side) view
    → Holds (put_index side x book) (opposite side) view
put_index-opposite book Side.buy x view w = Holds-same book _ Side.sell view refl (λ j. refl) w
put_index-opposite book Side.sell x view w = Holds-same book _ Side.buy view refl (λ j. refl) w

pub record_index-Holds :
    (book : OrderBook) (side : Side) (x : OrderIndex) (view : View)
    → Holds book side view
    → Holds (record book { index = x }) side view
record_index-Holds book Side.buy x view w = Holds-same book _ Side.buy view refl (λ j. refl) w
record_index-Holds book Side.sell x view w = Holds-same book _ Side.sell view refl (λ j. refl) w
