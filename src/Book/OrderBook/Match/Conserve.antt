-- ===== src/Book/OrderBook/Match/Conserve.antt =====
-- crates/hft-book/src/lib.rs: what a plan of `build_plan` fills, and that it accounts for the whole
-- quantity of the order.
use hft_engine_rs.Prelude.{
  append_nil, append_assoc, ℕ, zero, suc, ◌+◌, ◌-◌, ◌==◌, ◌||◌, ◌≤◌, ◌<◌, ◌≡◌, refl, ap, sym, subst,
  dec_lt, ◌∙◌, true, not, some, List, [], ◌∷◌, ◌++◌, Result, ok, min, length, arith, Result-cases,
  Option-cases, Bool-cases, inl, inr, ok_or, Each, Each-append, length-take,
}
use hft_engine_rs.Prelude.Outcome.{◌>>=◌}
use hft_engine_rs.Prelude.Int.{ℤ}
use hft_engine_rs.Types.{Side, TimeInForce, opposite, NewOrder}
use hft_engine_rs.Book.Levels.{listed}
use hft_engine_rs.Book.Plan
use hft_engine_rs.Book.Fifo.{PriceLevel, RestingOrder, nil, live_in, get_live}
use hft_engine_rs.Book.Plan.{FillEntry, MatchPlan, push_fill, fills}
use hft_engine_rs.Book.Plan.Fills.{IsBounded, new-IsBounded, push_fill_fits, push_fill_full}
use hft_engine_rs.Book.OrderBook.{OrderBook, Stop, panic, diverged, side_index, level_at}
use hft_engine_rs.Book.OrderBook.Match.{
  crosses, add_fill, fill_of, walk_orders, walk_level, walk_levels, rest_remaining, conclude,
  build_plan,
}
use hft_engine_rs.Book.OrderBook.Match.Walk.{
  bind_ok, ok_or_ok, ok_inj, err_ne_ok, walk_orders-zero, walk_orders_stop, walk_orders_dead,
  walk_orders_fill, walk_levels_end, walk_levels_stop, walk_levels_level,
}

-- The quantity that fills trade.
abbrev pub total : List FillEntry → ℕ
total [] = 0
total (fill ∷ rest) = fill.quantity + total rest

-- A plan that has grown by fills with a property, out of a quantity that remains.
pub record Extends (P : FillEntry → Type 0) (plan : MatchPlan) (before after : ℕ)
    (plan' : MatchPlan) : Type 0 where
  pub bounded : IsBounded plan'
  pub side : plan'.maker_side ≡ plan.maker_side
  pub capped : plan'.capacity ≡ plan.capacity
  pub added : List FillEntry
  pub shown : fills plan' ≡ fills plan ++ added
  pub each : Each P added
  pub conserved : total added + after ≡ before

total-append : (xs ys : List FillEntry) → total (xs ++ ys) ≡ total xs + total ys
total-append [] ys = omega arith
total-append (x ∷ xs) ys = omega (arith, total-append xs ys)

push_fill_side : (fill : FillEntry) (p : MatchPlan) → (push_fill fill p).1.maker_side ≡ p.maker_side
unfolding push_fill
push_fill_side fill p = ground arith

-- A fill that the plan takes is the one pushed, into a plan with room.
pub add_fill_ok :
    (fill : FillEntry) (p q : MatchPlan)
    → add_fill fill p ≡ ok q
    → (p.fill_count < p.capacity) × ((push_fill fill p).1 ≡ q)
unfolding add_fill
add_fill_ok fill p q e = elim (dec_lt p.fill_count p.capacity) [
  | yes l ↦ (l, ground (arith, e))
  | no n ↦ absurd (ground (arith, e, push_fill_full fill p))
]

module _ (P : FillEntry → Type 0) where
  Extends-none : (plan : MatchPlan) (n : ℕ) → IsBounded plan → Extends P plan n n plan
  Extends-none plan n w = record {
    bounded = w;
    side = refl;
    capped = refl;
    added = [];
    shown = sym (append_nil (fills plan));
    each = tt;
    conserved = omega arith;
  }

  Extends-trans :
      (p q r : MatchPlan) (a b c : ℕ) → Extends P p a b q → Extends P q b c r → Extends P p a c r
  Extends-trans p q r a b c e f = record {
    bounded = f.bounded;
    side = f.side ∙ e.side;
    capped = f.capped ∙ e.capped;
    added = e.added ++ f.added;
    shown =
        f.shown
        ∙ (ap (λ (xs : List FillEntry). xs ++ f.added) e.shown
            ∙ append_assoc (fills p) e.added f.added);
    each = Each-append P e.added f.added e.each f.each;
    conserved = omega (arith, total-append e.added f.added, e.conserved, f.conserved);
  }

  Extends-one :
      (fill : FillEntry) (p q : MatchPlan) (n : ℕ)
      → IsBounded p
      → P fill
      → fill.quantity ≤ n
      → add_fill fill p ≡ ok q
      → Extends P p n (n - fill.quantity) q
  Extends-one fill p q n w h k e =
      let (room, same) = add_fill_ok fill p q e in
      let (_, shown, _, capped, bounded) = push_fill_fits fill p w room in
      subst (Extends P p n (n - fill.quantity)) same (record {
        bounded = bounded;
        side = push_fill_side fill p;
        capped = capped;
        added = fill ∷ [];
        shown = shown;
        each = (h, tt);
        conserved = omega arith;
      })

-- A fill of the order on the book: at a price where they cross, from a live order of the opposite
-- side that has the quantity.
pub record IsFill (book : OrderBook) (order : NewOrder) (fill : FillEntry) : Type 0 where
  pub level : PriceLevel
  pub maker : RestingOrder
  pub crossed : crosses order.side order.price fill.price ≡ true
  pub leveled : level_at book (opposite order.side) fill.level_index ≡ some level
  pub live : get_live level fill.slot ≡ some maker
  pub identified : fill.order_id ≡ maker.id
  pub covered : fill.quantity ≤ maker.quantity

ended :
    {P : FillEntry → Type 0} (n r : ℕ) (p q : MatchPlan)
    → IsBounded p
    → ◌≡◌ {A = ℕ × MatchPlan} (n, p) (r, q)
    → Extends P p n r q
ended {P} n r p q w e =
    subst (λ (x : ℕ × MatchPlan). Extends P p n x.0 x.1) e (Extends-none P p n w)

module _ (book : OrderBook) (order : NewOrder) where
  fill_of-IsFill :
      (level : PriceLevel) (at : ℕ) (price : ℤ) (cursor n : ℕ) (maker : RestingOrder)
      → crosses order.side order.price price ≡ true
      → level_at book (opposite order.side) at ≡ some level
      → live_in level.slots cursor ≡ some maker
      → IsFill book order (fill_of at price cursor maker n)
  unfolding get_live
  fill_of-IsFill level at price cursor n maker c l k = record {
    level = level;
    maker = maker;
    crossed = c;
    leveled = l;
    live = k;
    identified = refl;
    covered = omega arith;
  }

  walk_orders-Extends :
      (rounds : ℕ) (level : PriceLevel) (at : ℕ) (price : ℤ) (cursor n r : ℕ) (p q : MatchPlan)
      → crosses order.side order.price price ≡ true
      → level_at book (opposite order.side) at ≡ some level
      → IsBounded p
      → walk_orders rounds level.slots at price cursor n p ≡ ok (r, q)
      → Extends (IsFill book order) p n r q
  walk_orders-Extends zero level at price cursor n r p q c l w e =
      err_ne_ok diverged (r, q) (sym (walk_orders-zero level.slots at price cursor n p) ∙ e)
  walk_orders-Extends (suc rounds) level at price cursor n r p q c l w e =
      elim (Bool-cases (cursor == nil || n == 0)) [
        | inl stop ↦ ended n r p q w (
            ok_inj (n, p) (r, q)
              (sym (walk_orders_stop rounds level.slots at price cursor n p stop) ∙ e))
        | inr go ↦ elim (Option-cases (live_in level.slots cursor)) [
          | inl k ↦
              err_ne_ok panic (r, q)
                (sym (walk_orders_dead rounds level.slots at price cursor n p go k) ∙ e)
          | inr (maker, k) ↦
              let fill = fill_of at price cursor maker n in
              let left = n - min n maker.quantity in
              let (p', taken, more) =
                bind_ok (add_fill fill p)
                  (λ q. walk_orders rounds level.slots at price maker.next left q) (r, q)
                  (sym (walk_orders_fill rounds level.slots at price cursor n p maker go k) ∙ e) in
              let one =
                Extends-one (IsFill book order) fill p p' n w
                  (fill_of-IsFill level at price cursor n maker c l k) (omega arith) taken in
              Extends-trans (IsFill book order) p p' q n left r one (
                walk_orders-Extends rounds level at price maker.next left r p' q c l one.bounded
                  more)
        ]
      ]

  walk_level-Extends :
      (level : PriceLevel) (at : ℕ) (price : ℤ) (n r : ℕ) (p q : MatchPlan)
      → crosses order.side order.price price ≡ true
      → level_at book (opposite order.side) at ≡ some level
      → IsBounded p
      → walk_level level at price n p ≡ ok (r, q)
      → Extends (IsFill book order) p n r q
  unfolding walk_level
  walk_level-Extends level at price n r p q c l w e =
      walk_orders-Extends (suc (length level.slots)) level at price level.head n r p q c l w e

  walk_levels-Extends :
      (es : List (ℤ × ℕ)) (n r : ℕ) (p q : MatchPlan)
      → IsBounded p
      → walk_levels book order es n p ≡ ok (r, q)
      → Extends (IsFill book order) p n r q
  walk_levels-Extends [] n r p q w e =
      ended n r p q w (ok_inj (n, p) (r, q) (sym (walk_levels_end book order n p) ∙ e))
  walk_levels-Extends (entry ∷ es) n r p q w e =
      elim (Bool-cases (n == 0 || not (crosses order.side order.price entry.0))) [
        | inl stop ↦
            ended n r p q w
              (ok_inj (n, p) (r, q) (sym (walk_levels_stop book order entry es n p stop) ∙ e))
        | inr go ↦
            let (level, found, rest) =
              bind_ok (ok_or (level_at book (opposite order.side) entry.1) panic)
                (λ level. walk_level level entry.1 entry.0 n p >>= λ walked.
                  walk_levels book order es walked.0 walked.1)
                (r, q) (sym (walk_levels_level book order entry es n p go) ∙ e) in
            let ((m, p'), walked, more) =
              bind_ok (walk_level level entry.1 entry.0 n p)
                (λ walked. walk_levels book order es walked.0 walked.1) (r, q) rest in
            let first =
              walk_level-Extends level entry.1 entry.0 n m p p' (ground (arith, go))
                (ok_or_ok (level_at book (opposite order.side) entry.1) panic level found) w
                walked in
            Extends-trans (IsFill book order) p p' q n m r first
              (walk_levels-Extends es m r p' q first.bounded more)
      ]

-- What an order's time in force promises of the quantity that is not filled.
abbrev pub Honours : TimeInForce → ℕ → ℕ → Type 0
Honours TimeInForce.gtc resting discarded = discarded ≡ 0
Honours TimeInForce.ioc resting discarded = resting ≡ 0
Honours TimeInForce.fok resting discarded = (resting ≡ 0) × (discarded ≡ 0)
Honours TimeInForce.post_only resting discarded = discarded ≡ 0

pub conclude_lem :
    (tif : TimeInForce) (book : OrderBook) (order : NewOrder) (n : ℕ) (p q : MatchPlan)
    → conclude tif book order n p ≡ ok q
    → (fills q ≡ fills p)
      × (q.maker_side ≡ p.maker_side)
      × (q.resting_quantity + q.discarded ≡ n)
      × Honours tif q.resting_quantity q.discarded
unfolding conclude rest_remaining fills
conclude_lem TimeInForce.fok book order n p q e = ground (arith, e)
conclude_lem TimeInForce.ioc book order n p q e = ground (arith, e)
conclude_lem TimeInForce.gtc book order n p q e = ground (arith, e)
conclude_lem TimeInForce.post_only book order n p q e = ground (arith, e)

abbrev pub walk_of : OrderBook → NewOrder → ℕ → ℕ → Result Stop (ℕ × MatchPlan)
walk_of book order reports room =
    walk_levels book order (listed (side_index book (opposite order.side))) order.quantity
      (Plan.new reports (opposite order.side) room)

-- A plan comes from a walk, after the checks.
pub build_plan_ok :
    (order : NewOrder) (reports room : ℕ) (book : OrderBook) (plan : MatchPlan)
    → build_plan order reports room book ≡ ok plan
    → (n : ℕ) × (p : MatchPlan) × (walk_of book order reports room ≡ ok (n, p))
      × (conclude order.time_in_force book order n p ≡ ok plan)
unfolding build_plan
build_plan_ok order reports room book plan e =
    elim (Result-cases (walk_of book order reports room)) [
      | inl (w, k) ↦ (w.0, w.1, k, ground (arith, e, k))
      | inr (x, k) ↦ absurd (ground (arith, e, k))
    ]

pub fills-new : (size : ℕ) (side : Side) (room : ℕ) → fills (Plan.new size side room) ≡ []
unfolding Plan.new fills
fills-new size side room = refl

capacity-new : (size : ℕ) (side : Side) (room : ℕ) → (Plan.new size side room).capacity ≤ room
unfolding Plan.new
capacity-new size side room = omega arith

length-fills : (p : MatchPlan) → IsBounded p → length (fills p) ≤ p.capacity
unfolding fills
length-fills p w = omega (arith, length-take p.fill_count p.entries, w.counted)

-- A plan fills the order from live orders of the other side, at prices where the two cross and with no
-- more than these have. The quantity of the order is what the fills trade, what is to rest and what
-- is discarded, and the time in force is honoured.
pub build_plan_lem :
    (order : NewOrder) (reports room : ℕ) (book : OrderBook) (plan : MatchPlan)
    → build_plan order reports room book ≡ ok plan
    → Each (IsFill book order) (fills plan)
      × (total (fills plan) + plan.resting_quantity + plan.discarded ≡ order.quantity)
      × Honours order.time_in_force plan.resting_quantity plan.discarded
      × (length (fills plan) ≤ room)
build_plan_lem order reports room book plan e =
    let (n, p, walked, end) = build_plan_ok order reports room book plan e in
    let fresh : MatchPlan = Plan.new reports (opposite order.side) room in
    let grown =
      walk_levels-Extends book order (listed (side_index book (opposite order.side))) order.quantity
        n fresh p (new-IsBounded reports (opposite order.side) room) walked in
    let (same, _, rest, honest) = conclude_lem order.time_in_force book order n p plan end in
    let shown : fills plan ≡ grown.added =
      same
      ∙ (grown.shown
          ∙ ap (λ (xs : List FillEntry). xs ++ grown.added)
              (fills-new reports (opposite order.side) room)) in
    rw shown (
      grown.each,
      omega (arith, grown.conserved, rest),
      honest,
      omega (
        arith,
        sym (ap length same ∙ refl),
        ap length shown,
        length-fills p grown.bounded,
        grown.capped,
        capacity-new reports (opposite order.side) room,
      ),
    )

-- A plan fills from the other side.
pub build_plan-side :
    (order : NewOrder) (reports room : ℕ) (book : OrderBook) (plan : MatchPlan)
    → build_plan order reports room book ≡ ok plan
    → plan.maker_side ≡ opposite order.side
unfolding Plan.new
build_plan-side order reports room book plan e =
    let (n, p, walked, end) = build_plan_ok order reports room book plan e in
    let grown =
      walk_levels-Extends book order (listed (side_index book (opposite order.side))) order.quantity
        n (Plan.new reports (opposite order.side) room) p
        (new-IsBounded reports (opposite order.side) room) walked in
    (conclude_lem order.time_in_force book order n p plan end).1 ∙ grown.side
