-- ===== src/Book/OrderBook/Match/Total.antt =====
-- crates/hft-book/src/lib.rs: `OrderBook::build_plan` comes to an end on a book whose sides hold queues.
use hft_engine_rs.Prelude.{
  ℕ, ◌==◌, ◌≡◌, refl, ap, sym, subst, ◌∙◌, Bool, true, false, Option, some, List, [], ◌∷◌, map,
  Result, ok, err, arith, Result-cases, Option-cases, Bool-cases, inl, inr, Each, Each-map,
  if◌then◌else◌, ltb,
}
use hft_engine_rs.Prelude.Outcome.{◌>>=◌, reject_if}
use hft_engine_rs.Prelude.Int.{ℤ, eqb_ℤ}
use hft_engine_rs.Types.{Side, TimeInForce, is_buy, opposite, NewOrder, RejectReason}
use hft_engine_rs.Book.Levels
use hft_engine_rs.Book.Levels.{listed}
use hft_engine_rs.Book.Levels.Order.{slot_of}
use hft_engine_rs.Book.Levels.Directory.{IsDirectory, find_lem}
use hft_engine_rs.Book.Fifo.{PriceLevel}
use hft_engine_rs.Book.Fifo.Queue.{IsQueue}
use hft_engine_rs.Book.Plan.{MatchPlan}
use hft_engine_rs.Book.OrderBook.{OrderBook, Stop, reject, panic, diverged, side_index, level_at}
use hft_engine_rs.Book.OrderBook.Match.{build_plan, conclude, rest_remaining, check_room}
use hft_engine_rs.Book.OrderBook.Match.Conserve.{walk_of}
use hft_engine_rs.Book.OrderBook.Match.Walk.{bind_err, err_ne_ok}
use hft_engine_rs.Book.OrderBook.Match.Priority.{Queue, IsView, outcome}
use hft_engine_rs.Book.OrderBook.Match.Refine.{walk_of-take}

if_hit :
    (b : Bool) (x at : ℕ) (y : Option ℕ) → b ≡ true → (if b then some x else y) ≡ some at → x ≡ at
if_hit b x at y t h = ground arith

if_miss :
    (b : Bool) (x at : ℕ) (y : Option ℕ)
    → b ≡ false
    → (if b then some x else y) ≡ some at
    → y ≡ some at
if_miss b x at y t h = ground arith

slot_of-view :
    (Q : ℕ → Type 0) (price : ℤ) (at : ℕ) (view : List ((ℤ × ℕ) × Queue))
    → slot_of price (map (λ v. v.0) view) ≡ some at
    → Each (λ v. Q v.0.1) view
    → Q at
slot_of-view Q price at [] h w = absurd (ground (arith, h))
slot_of-view Q price at (v ∷ vs) h w = elim (Bool-cases (eqb_ℤ v.0.0 price)) [
  | inl b ↦
      subst Q (if_hit (eqb_ℤ v.0.0 price) v.0.1 at (slot_of price (map (λ v. v.0) vs)) b h) w.0
  | inr b ↦
      slot_of-view Q price at vs
        (if_miss (eqb_ℤ v.0.0 price) v.0.1 at (slot_of price (map (λ v. v.0) vs)) b h) w.1
]

abbrev IsRejection : Stop → Type 0
IsRejection e = (reason : RejectReason) × (e ≡ reject reason)

reject_if_rejects :
    (b : Bool) (reason : RejectReason) (e : Stop)
    → reject_if b (reject reason) ≡ err e
    → IsRejection e
reject_if_rejects true reason e h = (reason, ground (arith, h))
reject_if_rejects false reason e h = absurd (ground (arith, h))

-- The side on which an order would rest: a directory of levels that are there.
pub record IsOpen (book : OrderBook) (side : Side) (levels : ℕ) (view : List ((ℤ × ℕ) × Queue))
    : Type 0 where
  pub sorted : IsDirectory (is_buy side) levels (side_index book side)
  pub shown : IsView book side view

check_room_rejects :
    (book : OrderBook) (order : NewOrder) (levels : ℕ) (view : List ((ℤ × ℕ) × Queue)) (e : Stop)
    → IsOpen book order.side levels view
    → check_room book order ≡ err e
    → IsRejection e
unfolding check_room
check_room_rejects book order levels view e o h =
    elim (Option-cases (Levels.find (side_index book order.side) order.price (is_buy order.side))) [
      | inl k ↦
          reject_if_rejects (Levels.is_full (side_index book order.side))
            RejectReason.price_level_capacity e (sym (rw (check_room, k) refl) ∙ h)
      | inr (at, k) ↦
          let found =
            sym (ap (slot_of order.price) o.shown.entries)
            ∙ (sym (
                  find_lem (is_buy order.side) order.price levels (side_index book order.side)
                    o.sorted)
                ∙ k) in
          let (level, there) =
            slot_of-view (λ i. (level : PriceLevel) × (level_at book order.side i ≡ some level))
              order.price at view found
              (Each-map
                (λ v.
                  (level : PriceLevel) × (level_at book order.side v.0.1 ≡ some level)
                  × IsQueue level v.1)
                (λ v. (level : PriceLevel) × (level_at book order.side v.0.1 ≡ some level))
                (λ v (level, is, q). (level, is)) view o.shown.queues) in
          reject_if_rejects (level.len == book.orders_per_level)
            RejectReason.price_level_order_capacity e (sym (rw (check_room, k, there) refl) ∙ h)
    ]

-- Where the first part and what follows only reject, the chain only rejects.
bind_rejects :
    {A B : Type 0} (m : Result Stop A) (f : A → Result Stop B) (e : Stop)
    → ((d : Stop) → m ≡ err d → IsRejection d)
    → ((a : A) (d : Stop) → f a ≡ err d → IsRejection d)
    → (m >>= f) ≡ err e
    → IsRejection e
bind_rejects m f e first next h = elim (bind_err m f e h) [
  | inl k ↦ first e k
  | inr (a, _, k) ↦ next a e k
]

ok_rejects :
    {A : Type 0} (a : A) (e : Stop) → ◌≡◌ {A = Result Stop A} (ok a) (err e) → IsRejection e
ok_rejects a e h = err_ne_ok e a (sym h)

rest_remaining_rejects :
    (book : OrderBook) (order : NewOrder) (n levels : ℕ) (p : MatchPlan)
    (view : List ((ℤ × ℕ) × Queue)) (e : Stop)
    → IsOpen book order.side levels view
    → rest_remaining book order n p ≡ err e
    → IsRejection e
unfolding rest_remaining
rest_remaining_rejects book order n levels p view e o h =
    bind_rejects (if ltb 0 n then check_room book order else ok tt)
      (λ _. ok (record p { resting_quantity = n; discarded = 0 })) e
      (λ d k. elim (Bool-cases (ltb 0 n)) [
        | inl b ↦ check_room_rejects book order levels view d o (sym (rw b refl) ∙ k)
        | inr b ↦ ok_rejects tt d (sym (rw b refl) ∙ k)
      ])
      (λ a d k. ok_rejects (record p { resting_quantity = n; discarded = 0 }) d k) h

conclude_rejects :
    (tif : TimeInForce) (book : OrderBook) (order : NewOrder) (n levels : ℕ) (p : MatchPlan)
    (view : List ((ℤ × ℕ) × Queue)) (e : Stop)
    → IsOpen book order.side levels view
    → conclude tif book order n p ≡ err e
    → IsRejection e
unfolding conclude
conclude_rejects TimeInForce.fok book order n levels p view e o h =
    bind_rejects (reject_if (ltb 0 n) (reject RejectReason.insufficient_liquidity))
      (λ _. ok (record p { resting_quantity = n; discarded = 0 })) e
      (λ d k. reject_if_rejects (ltb 0 n) RejectReason.insufficient_liquidity d k)
      (λ a d k. ok_rejects (record p { resting_quantity = n; discarded = 0 }) d k) h
conclude_rejects TimeInForce.ioc book order n levels p view e o h =
    ok_rejects (record p { resting_quantity = 0; discarded = n }) e h
conclude_rejects TimeInForce.gtc book order n levels p view e o h =
    rest_remaining_rejects book order n levels p view e o h
conclude_rejects TimeInForce.post_only book order n levels p view e o h =
    rest_remaining_rejects book order n levels p view e o h

outcome_rejects :
    (u : Result RejectReason (Unit {0})) (n : ℕ) (p : MatchPlan) (e : Stop)
    → outcome u n p ≡ err e
    → IsRejection e
outcome_rejects (ok done) n p e h = absurd (ground (arith, h))
outcome_rejects (err reason) n p e h = (reason, ground (arith, h))

abbrev rejects : Stop → Bool
rejects (reject reason) = true
rejects panic = false
rejects diverged = false

rejects-true : (e : Stop) → IsRejection e → rejects e ≡ true
rejects-true e (reason, h) = ap rejects h

rejects-IsRejection : (e : Stop) → rejects e ≡ true → IsRejection e
rejects-IsRejection (reject reason) h = (reason, refl)
rejects-IsRejection panic h = absurd (ground (arith, h))
rejects-IsRejection diverged h = absurd (ground (arith, h))

-- The checks before the walk reject.
build_plan_stops :
    (order : NewOrder) (reports room : ℕ) (book : OrderBook) (e : Stop)
    → build_plan order reports room book ≡ err e
    → ((d : Stop) → walk_of book order reports room ≡ err d → rejects d ≡ true)
    → ((n : ℕ) (p : MatchPlan) (d : Stop)
        → conclude order.time_in_force book order n p ≡ err d
        → rejects d ≡ true)
    → rejects e ≡ true
unfolding build_plan
build_plan_stops order reports room book e h walk end =
    elim (Result-cases (walk_of book order reports room)) [
      | inl (w, k) ↦ elim (Result-cases (conclude order.time_in_force book order w.0 w.1)) [
        | inl (q, c) ↦ ground (arith, h, k, c)
        | inr (d, c) ↦ let t = end w.0 w.1 d c in ground (arith, h, k, c, t)
      ]
      | inr (d, k) ↦ let t = walk d k in ground (arith, h, k, t)
    ]

-- On a book whose sides hold queues, with a side of the order's own that is a directory, an order that
-- gets no plan is rejected for a reason: planning never panics and its walks end.
pub build_plan_rejects :
    (order : NewOrder) (reports room levels : ℕ) (book : OrderBook)
    (own view : List ((ℤ × ℕ) × Queue)) (e : Stop)
    → IsOpen book order.side levels own
    → IsView book (opposite order.side) view
    → build_plan order reports room book ≡ err e
    → (reason : RejectReason) × (e ≡ reject reason)
build_plan_rejects order reports room levels book own view e o v h = rejects-IsRejection e (
    build_plan_stops order reports room book e h
      (λ d k.
        rejects-true d
          (outcome_rejects _ _ _ d (sym (walk_of-take book order reports room view v) ∙ k)))
      (λ n p d k.
        rejects-true d (conclude_rejects order.time_in_force book order n levels p own d o k)))
