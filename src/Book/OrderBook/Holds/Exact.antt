-- ===== src/Book/OrderBook/Holds/Exact.antt =====
-- crates/hft-book/src/lib.rs: the queues that the links of a side hold, handles and links included.
use hft_engine_rs.Prelude.{
  ℕ, ◌-◌, ◌==◌, ◌||◌, not, ◌≡◌, refl, ap, sym, ◌∙◌, some, List, [], ◌∷◌, ◌++◌, map, min, Each,
  if◌then◌else◌,
}
use hft_engine_rs.Prelude.Int.{ℤ}
use hft_engine_rs.Types.{Side}
use hft_engine_rs.Book.Fifo.{PriceLevel}
use hft_engine_rs.Book.Fifo.Queue.{IsQueue}
use hft_engine_rs.Book.Plan.{FillEntry}
use hft_engine_rs.Book.OrderBook.{OrderBook, level_at}
use hft_engine_rs.Book.OrderBook.Match.{crosses, fill_of}
use hft_engine_rs.Book.OrderBook.Match.Priority.{Queue, take_orders, take_levels, IsView}
use hft_engine_rs.Book.OrderBook.Holds.{plain_entry, View, IsAt, Holds}

take-plain :
    (at : ℕ) (price : ℤ) (es : Queue) (n : ℕ)
    → take_orders at price (map plain_entry es) n ≡ take_orders at price es n
unfolding take_orders
take-plain at price [] n = refl
take-plain at price (e ∷ es) n =
    ap
      (λ (r : List FillEntry × ℕ).
        if n == 0 then ([], n) else (fill_of at price e.0 e.1 n ∷ r.0, r.1))
      (take-plain at price es (n - min n e.1.quantity))

take-same :
    (at : ℕ) (price : ℤ) (q es : Queue) (n : ℕ)
    → map plain_entry q ≡ map plain_entry es
    → take_orders at price q n ≡ take_orders at price es n
take-same at price q es n h =
    sym (take-plain at price q n)
    ∙ (ap (λ (xs : Queue). take_orders at price xs n) h ∙ take-plain at price es n)

-- The queues of a side with their handles and links, from which the same is taken.
record IsExact (book : OrderBook) (side : Side) (view exact : View) : Type 0 where
  keys : map (λ v. v.0) exact ≡ map (λ v. v.0) view
  queues :
      Each
        (λ v. (level : PriceLevel) × (level_at book side v.0.1 ≡ some level) × IsQueue level v.1)
        exact
  takes :
      (from : Side) (limit : ℤ) (n : ℕ)
      → take_levels from limit exact n ≡ take_levels from limit view n

view-IsExact :
    (book : OrderBook) (side : Side) (view : View)
    → Each (IsAt book side) view
    → (exact : View) × IsExact book side view exact
unfolding take_levels
view-IsExact book side [] w =
    ([], record { keys = refl; queues = tt; takes = λ from limit n. refl })
view-IsExact book side (v ∷ vs) ((level, found, l, full), w) =
    let (rest, r) = view-IsExact book side vs w in
    (
      (v.0, l.queue) ∷ rest,
      record {
        keys = ap (◌∷◌ v.0) r.keys;
        queues = ((level, found, l.linked), r.queues);
        takes = λ from limit n.
            ap
              (λ (h : List FillEntry × ℕ).
                if n == 0 || not (crosses from limit v.0.0) then ([], n) else (
                  h.0 ++ (take_levels from limit rest h.1).0,
                  (take_levels from limit rest h.1).1,
                ))
              (take-same v.0.1 v.0.0 l.queue v.1 n l.same)
            ∙ ap
                (λ (g : List FillEntry × ℕ).
                  if n == 0 || not (crosses from limit v.0.0)
                  then ([], n)
                  else ((take_orders v.0.1 v.0.0 v.1 n).0 ++ g.0, g.1))
                (r.takes from limit (take_orders v.0.1 v.0.0 v.1 n).1);
      },
    )

-- A side holds a view of its queues, from which the same is taken.
pub Holds-IsView :
    (book : OrderBook) (side : Side) (view : View)
    → Holds book side view
    → (exact : View) × IsView book side exact
      × ((from : Side) (limit : ℤ) (n : ℕ)
          → take_levels from limit exact n ≡ take_levels from limit view n)
Holds-IsView book side view w =
    let (exact, r) = view-IsExact book side view w.levels in
    (exact, record { entries = w.entries ∙ sym r.keys; queues = r.queues }, r.takes)
