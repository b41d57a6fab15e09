-- ===== src/Book/OrderBook/Holds/Fill.antt =====
-- crates/hft-book/src/lib.rs: what `apply_plan` leaves on the side that it fills from.
use hft_engine_rs.Prelude.{
  ok, ℕ, ◌-◌, ◌≤◌, ◌==◌, ◌||◌, not, ◌≡◌, refl, ap, sym, subst, ◌∙◌, Bool, some, [], ◌∷◌, arith, min,
  leb, true, false, Bool-cases, Result-cases, inl, inr, if◌then◌else◌,
}
use hft_engine_rs.Prelude.Int.{ℤ}
use hft_engine_rs.Types.{Side, NewOrder, ExecutionReport}
use hft_engine_rs.Types.Reports
use hft_engine_rs.Book.Fifo.{PriceLevel, RestingOrder, get_live}
use hft_engine_rs.Book.Fifo.Unlink.{Entry}
use hft_engine_rs.Book.Plan.{FillEntry}
use hft_engine_rs.Book.OrderBook.{OrderBook, level_at, remove_index_entry, unlink_order}
use hft_engine_rs.Book.OrderBook.Match.{crosses, fill_of}
use hft_engine_rs.Book.OrderBook.Match.Priority.{Queue, take_orders}
use hft_engine_rs.Book.OrderBook.Change.{
  Trading, report, report_of, take_out, reduce_order, apply_fill,
}
use hft_engine_rs.Book.OrderBook.Sides.{IsSound, remove_index_entry_kept}
use hft_engine_rs.Book.OrderBook.Sides.Trade.{apply_fill-Maintains}
use hft_engine_rs.Book.OrderBook.Holds.{View}
use hft_engine_rs.Book.OrderBook.Holds.Level.{live_head, less}
use hft_engine_rs.Book.OrderBook.Holds.Handle.{remove_index_entry_sides}
use hft_engine_rs.Book.OrderBook.Holds.Out.{
  HoldsSides, dropped, unlink_order-Holds, reduce_order-Holds,
}

-- The orders of a queue after a quantity is taken, the first order first.
abbrev pub leave_orders : Queue → ℕ → Queue
leave_orders [] n = []
leave_orders (e ∷ es) n =
    if n == 0
    then e ∷ es
    else if leb e.1.quantity n
    then leave_orders es (n - e.1.quantity)
    else less n e ∷ es

-- The levels of a side after a quantity is taken, the best price first, as far as the prices cross.
abbrev pub leave_levels : Side → ℤ → View → ℕ → View
leave_levels side limit [] n = []
leave_levels side limit (v ∷ vs) n =
    if n == 0 || not (crosses side limit v.0.0)
    then v ∷ vs
    else dropped v.0 (leave_orders v.1 n)
        (leave_levels side limit vs (take_orders v.0.1 v.0.0 v.1 n).1)

report-book : (r : ExecutionReport) (t : Trading) → (report r t).1.book ≡ t.book
unfolding report
report-book r t = elim (Result-cases (Reports.push r t.reports).0) [
  | inl (u, k) ↦ rw (report, k) refl
  | inr (e, k) ↦ rw (report, k) refl
]

pub apply_fill_runs :
    (o : NewOrder) (side : Side) (f : FillEntry) (t : Trading) (level : PriceLevel)
    (maker : RestingOrder)
    → level_at t.book side f.level_index ≡ some level
    → get_live level f.slot ≡ some maker
    → (apply_fill o side f t).0 ≡ ok tt
    → (apply_fill o side f t).1.book ≡ (
        if maker.quantity == f.quantity
        then (take_out side f maker.index_slot t.book).1
        else (reduce_order side f.level_index f.slot f.quantity t.book).1)
unfolding apply_fill
apply_fill_runs o side f t level maker h k done = elim (Result-cases (report (report_of o f) t).0) [
  | inr (e, r) ↦ absurd (ground (arith, h, k, r, done))
  | inl (u, r) ↦ elim (Bool-cases (maker.quantity == f.quantity)) [
    | inl b ↦
        rw (apply_fill, h, k, r, b)
          (ap (λ (x : OrderBook). (take_out side f maker.index_slot x).1)
            (report-book (report_of o f) t))
    | inr b ↦
        rw (apply_fill, h, k, r, b)
          (ap (λ (x : OrderBook). (reduce_order side f.level_index f.slot f.quantity x).1)
            (report-book (report_of o f) t))
  ]
]

take_out_runs :
    (side : Side) (f : FillEntry) (n : ℕ) (book : OrderBook) (o : RestingOrder)
    → (unlink_order side f.level_index f.slot (remove_index_entry n f.order_id book)).0 ≡ ok o
    → (take_out side f n book).1
      ≡ (unlink_order side f.level_index f.slot (remove_index_entry n f.order_id book)).1
unfolding take_out
take_out_runs side f n book o h = rw (take_out, h) refl

-- A sound book, the side that is filled from, and the other side.
abbrev pub IsHeld : ℕ → Trading → Side → View → View → Type 0
IsHeld levels t side view facing = IsSound levels t.book × HoldsSides t.book side view facing

pub min_left : (n q : ℕ) → leb q n ≡ true → (min n q ≡ q) × (n - min n q ≡ n - q)
min_left n q h = ground arith

pub min_right : (n q : ℕ) → leb q n ≡ false → (min n q ≡ n) × (n - min n q ≡ 0) × (n ≤ q)
min_right n q h = ground arith

same_test : (a b : ℕ) → a ≡ b → (a == b) ≡ true
same_test a b h = ground arith

less_test : (a b : ℕ) → leb a b ≡ false → (a == b) ≡ false
less_test a b h = ground arith

module _ (levels : ℕ) (o : NewOrder) (side : Side) (v : ℤ × ℕ) (e : Entry) (es : Queue) (n : ℕ)
    (vs facing : View) (t : Trading) (held : IsHeld levels t side ((v, e ∷ es) ∷ vs) facing)
    (done : (apply_fill o side (fill_of v.1 v.0 e.0 e.1 n) t).0 ≡ ok tt) where
  abbrev fill : FillEntry
  fill = fill_of v.1 v.0 e.0 e.1 n

  fill-IsSound : IsSound levels (apply_fill o side fill t).1.book
  fill-IsSound = (apply_fill-Maintains levels o side fill).kept t held.0

  -- An order that is filled whole is taken out.
  pub fill_whole :
      leb e.1.quantity n ≡ true
      → IsHeld levels (apply_fill o side fill t).1 side (dropped v es vs) facing
  fill_whole enough =
      let (level, found, l, _) = held.1.0.levels.0 in
      let (maker, live, same) = live_head level v.0 e es l in
      let whole : maker.quantity ≡ min n e.1.quantity =
        ap (λ (z : RestingOrder). z.quantity) same ∙ sym (min_left n e.1.quantity enough).0 in
      let without = remove_index_entry maker.index_slot fill.order_id t.book in
      let sides =
        remove_index_entry_sides maker.index_slot fill.order_id t.book side ((v, e ∷ es) ∷ vs)
          facing held.1 in
      let ((out, taken), left) =
        unlink_order-Holds levels without side v e es vs facing
          (remove_index_entry_kept levels maker.index_slot fill.order_id t.book held.0) sides in
      let runs =
        apply_fill_runs o side fill t level maker found live done
        ∙ (ap
              (λ (b : Bool).
                if b
                then (take_out side fill maker.index_slot t.book).1
                else (reduce_order side fill.level_index fill.slot fill.quantity t.book).1)
              (same_test maker.quantity fill.quantity whole)
            ∙ take_out_runs side fill maker.index_slot t.book out taken) in
      (
        fill-IsSound,
        subst (λ (b : OrderBook). HoldsSides b side (dropped v es vs) facing) (sym runs) left,
      )

  -- One that is not keeps its place, with what is left of it.
  pub fill_part :
      leb e.1.quantity n ≡ false
      → IsHeld levels (apply_fill o side fill t).1 side ((v, less n e ∷ es) ∷ vs) facing
  fill_part short =
      let (level, found, l, _) = held.1.0.levels.0 in
      let (maker, live, same) = live_head level v.0 e es l in
      let (all, _, small) = min_right n e.1.quantity short in
      let part : (maker.quantity == min n e.1.quantity) ≡ false =
        ap (λ (q : ℕ). q == min n e.1.quantity) (ap (λ (z : RestingOrder). z.quantity) same)
        ∙ (ap (λ (m : ℕ). e.1.quantity == m) all ∙ less_test e.1.quantity n short) in
      let runs =
        apply_fill_runs o side fill t level maker found live done
        ∙ (ap
              (λ (b : Bool).
                if b
                then (take_out side fill maker.index_slot t.book).1
                else (reduce_order side fill.level_index fill.slot fill.quantity t.book).1)
              part
            ∙ ap (λ (m : ℕ). (reduce_order side v.1 e.0 m t.book).1) all) in
      (
        fill-IsSound,
        subst (λ (b : OrderBook). HoldsSides b side ((v, less n e ∷ es) ∷ vs) facing) (sym runs)
            (reduce_order-Holds levels t.book side n v e es vs facing held.0 held.1 small),
      )
