-- ===== src/Book/OrderBook/Match/Priority.antt =====
-- crates/hft-book/src/lib.rs: the walk of `OrderBook::build_plan` fills by price and then by time.
use hft_engine_rs.Prelude.{
  ℕ, zero, suc, ◌-◌, ◌==◌, ◌||◌, ◌<◌, ◌≡◌, ◌≢◌, refl, ap, sym, ◌∙◌, true, false, not, Option, some,
  List, [], ◌∷◌, ◌++◌, map, Result, ok, err, min, length, arith, Result-cases, Bool-cases, inl, inr,
  ok_or, Each, if◌then◌else◌,
}
use hft_engine_rs.Prelude.Outcome.{◌>>=◌}
use hft_engine_rs.Prelude.Int.{ℤ}
use hft_engine_rs.Types.{Side, opposite, NewOrder, RejectReason}
use hft_engine_rs.Book.Levels.{listed}
use hft_engine_rs.Book.Fifo.{PriceLevel, RestingOrder, OrderSlot, nil, live_in}
use hft_engine_rs.Book.Fifo.Queue.{bare, Chain, IsQueue}
use hft_engine_rs.Book.Plan.{FillEntry, MatchPlan, push_fill, push_all}
use hft_engine_rs.Book.OrderBook.{OrderBook, Stop, reject, panic, side_index, level_at}
use hft_engine_rs.Book.OrderBook.Match.{
  crosses, add_fill, fill_of, walk_orders, walk_level, walk_levels,
}
use hft_engine_rs.Book.OrderBook.Match.Walk.{
  bind_cong, bind_assoc, walk_orders_stop, walk_orders_fill, walk_levels_end, walk_levels_stop,
  walk_levels_level,
}

-- The orders of a level in their queue, with their slots.
abbrev pub Queue : Type 0
Queue = List (ℕ × RestingOrder)

-- The fills of a quantity in a queue, the first order first, and what remains.
unfoldable pub take_orders : ℕ → ℤ → Queue → ℕ → List FillEntry × ℕ
take_orders at price [] n = ([], n)
take_orders at price (e ∷ es) n =
    let rest = take_orders at price es (n - min n e.1.quantity) in
    if n == 0 then ([], n) else (fill_of at price e.0 e.1 n ∷ rest.0, rest.1)

-- The fills of a quantity along the levels of a side, the best price first, as far as the prices
-- cross, and what remains.
unfoldable pub take_levels : Side → ℤ → List ((ℤ × ℕ) × Queue) → ℕ → List FillEntry × ℕ
take_levels side limit [] n = ([], n)
take_levels side limit (v ∷ vs) n =
    let here = take_orders v.0.1 v.0.0 v.1 n in
    let rest = take_levels side limit vs here.1 in
    if n == 0 || not (crosses side limit v.0.0) then ([], n) else (here.0 ++ rest.0, rest.1)

-- The levels listed on a side are those of the view, and hold its queues.
pub record IsView (book : OrderBook) (side : Side) (view : List ((ℤ × ℕ) × Queue)) : Type 0 where
  pub entries : listed (side_index book side) ≡ map (λ v. v.0) view
  pub queues :
      Each
        (λ v. (level : PriceLevel) × (level_at book side v.0.1 ≡ some level) × IsQueue level v.1)
        view

abbrev pub outcome : Result RejectReason (Unit {0}) → ℕ → MatchPlan → Result Stop (ℕ × MatchPlan)
outcome (ok done) n p = ok (n, p)
outcome (err reason) n p = err (reject reason)

-- Fills pushed into a plan, with what remains.
abbrev pub planned : List FillEntry × ℕ → MatchPlan → Result Stop (ℕ × MatchPlan)
planned x p = outcome (push_all x.0 p).0 x.1 (push_all x.0 p).1

planned_nil : (n : ℕ) (p : MatchPlan) → planned ([], n) p ≡ ok (n, p)
unfolding push_all
planned_nil n p = refl

planned_cons :
    (fill : FillEntry) (fs : List FillEntry) (r : ℕ) (p : MatchPlan)
    → planned (fill ∷ fs, r) p ≡ (add_fill fill p >>= λ q. planned (fs, r) q)
unfolding push_all add_fill
planned_cons fill fs r p = elim (Result-cases (push_fill fill p).0) [
  | inl (u, k) ↦ rw (push_all, k, add_fill) refl
  | inr (e, k) ↦ rw (push_all, k, add_fill) refl
]

outcome_bind :
    (u : Result RejectReason (Unit {0})) (n : ℕ) (p : MatchPlan)
    (f : ℕ × MatchPlan → Result Stop (ℕ × MatchPlan))
    → (outcome u n p >>= f) ≡ (outcome u n p >>= λ w. f (n, w.1))
outcome_bind (ok done) n p f = refl
outcome_bind (err reason) n p f = refl

planned-append :
    (fs gs : List FillEntry) (n r : ℕ) (p : MatchPlan)
    → planned (fs ++ gs, r) p ≡ (planned (fs, n) p >>= λ w. planned (gs, r) w.1)
planned-append [] gs n r p =
    sym (ap (λ (m : Result Stop (ℕ × MatchPlan)). m >>= λ w. planned (gs, r) w.1) (planned_nil n p))
planned-append (f ∷ fs) gs n r p =
    planned_cons f (fs ++ gs) r p
    ∙ (bind_cong (add_fill f p) (λ q. planned (fs ++ gs, r) q)
          (λ q. planned (fs, n) q >>= λ w. planned (gs, r) w.1) (λ q. planned-append fs gs n r q)
        ∙ (sym (bind_assoc (add_fill f p) (λ q. planned (fs, n) q) (λ w. planned (gs, r) w.1))
            ∙ ap (λ (m : Result Stop (ℕ × MatchPlan)). m >>= λ w. planned (gs, r) w.1)
                (sym (planned_cons f fs n p))))

stop_nil : (cursor n : ℕ) → cursor ≡ nil → (cursor == nil || n == 0) ≡ true
stop_nil cursor n h = ground arith

stop_zero : (cursor n : ℕ) → (n == 0) ≡ true → (cursor == nil || n == 0) ≡ true
stop_zero cursor n h = ground arith

going :
    (cursor at n : ℕ)
    → cursor ≡ at
    → at ≢ nil
    → (n == 0) ≡ false
    → (cursor == nil || n == 0) ≡ false
going cursor at n c m h = ground arith

-- A fill names the order's identifier and quantity only.
fill_of-bare :
    (at : ℕ) (price : ℤ) (cursor slot : ℕ) (o o' : RestingOrder) (n : ℕ)
    → cursor ≡ slot
    → bare o ≡ o'
    → fill_of at price cursor o n ≡ fill_of at price slot o' n
fill_of-bare at price cursor slot o o' n c b =
    ap (λ (s : ℕ). fill_of at price s o n) c
    ∙ ap (λ (x : RestingOrder). fill_of at price slot x n) b

walk_orders-take :
    (rounds : ℕ) (slots : List OrderSlot) (tail prev cursor at : ℕ) (price : ℤ) (es : Queue) (n : ℕ)
    (p : MatchPlan)
    → Chain slots tail prev cursor es
    → length es < rounds
    → walk_orders rounds slots at price cursor n p ≡ planned (take_orders at price es n) p
unfolding take_orders
walk_orders-take zero slots tail prev cursor at price es n p c h = absurd (omega arith)
walk_orders-take (suc rounds) slots tail prev cursor at price [] n p c h =
    walk_orders_stop rounds slots at price cursor n p (stop_nil cursor n c.0)
    ∙ sym (planned_nil n p)
walk_orders-take (suc rounds) slots tail prev cursor at price (e ∷ es) n p (c, m, o, l, b, q, rest)
      h =
    elim (Bool-cases (n == 0)) [
      | inl z ↦ rw z (
          walk_orders_stop rounds slots at price cursor n p (stop_zero cursor n z)
          ∙ sym (planned_nil n p))
      | inr z ↦
          let go = going cursor e.0 n c m z in
          let k = ap (live_in slots) c ∙ l in
          let x = take_orders at price es (n - min n e.1.quantity) in
          let more = λ (p' : MatchPlan).
            walk_orders-take rounds slots tail e.0 o.next at price es (n - min n o.quantity) p' rest
              (omega arith) in
          rw z (
            walk_orders_fill rounds slots at price cursor n p o go k
            ∙ (bind_cong (add_fill (fill_of at price cursor o n) p)
                  (λ p'. walk_orders rounds slots at price o.next (n - min n o.quantity) p')
                  (λ p'. planned (take_orders at price es (n - min n o.quantity)) p') more
                ∙ (ap
                      (λ (f : FillEntry). add_fill f p >>= λ p'.
                        planned (take_orders at price es (n - min n o.quantity)) p')
                      (fill_of-bare at price cursor e.0 o e.1 n c b)
                    ∙ (ap
                          (λ (i : ℕ). add_fill (fill_of at price e.0 e.1 n) p >>= λ p'.
                            planned (take_orders at price es (n - min n i)) p')
                          (ap (λ (y : RestingOrder). y.quantity) b)
                        ∙ sym (planned_cons (fill_of at price e.0 e.1 n) x.0 x.1 p)))))
    ]

walk_level-take :
    (level : PriceLevel) (at : ℕ) (price : ℤ) (es : Queue) (n : ℕ) (p : MatchPlan)
    → IsQueue level es
    → walk_level level at price n p ≡ planned (take_orders at price es n) p
unfolding walk_level
walk_level-take level at price es n p q =
    walk_orders-take (suc (length level.slots)) level.slots level.tail nil level.head at price es n
      p q.chain (omega (arith, q.fits))

pub walk_levels-take :
    (book : OrderBook) (order : NewOrder) (vs : List ((ℤ × ℕ) × Queue)) (n : ℕ) (p : MatchPlan)
    → Each
        (λ v.
          (level : PriceLevel) × (level_at book (opposite order.side) v.0.1 ≡ some level)
          × IsQueue level v.1)
        vs
    → walk_levels book order (map (λ v. v.0) vs) n p
      ≡ planned (take_levels order.side order.price vs n) p
unfolding take_levels
walk_levels-take book order [] n p w = walk_levels_end book order n p ∙ sym (planned_nil n p)
walk_levels-take book order (v ∷ vs) n p ((level, found, q), w) =
    elim (Bool-cases (n == 0 || not (crosses order.side order.price v.0.0))) [
      | inl stop ↦
          rw stop
            (walk_levels_stop book order v.0 (map (λ v. v.0) vs) n p stop ∙ sym (planned_nil n p))
      | inr go ↦
          let here = take_orders v.0.1 v.0.0 v.1 n in
          let rest = take_levels order.side order.price vs here.1 in
          rw go (
            walk_levels_level book order v.0 (map (λ v. v.0) vs) n p go
            ∙ (ap
                  (λ (o : Option PriceLevel). ok_or o panic >>= λ level.
                    walk_level level v.0.1 v.0.0 n p >>= λ walked.
                    walk_levels book order (map (λ v. v.0) vs) walked.0 walked.1)
                  found
                ∙ (ap
                      (λ (m : Result Stop (ℕ × MatchPlan)). m >>= λ walked.
                        walk_levels book order (map (λ v. v.0) vs) walked.0 walked.1)
                      (walk_level-take level v.0.1 v.0.0 v.1 n p q)
                    ∙ (outcome_bind (push_all here.0 p).0 here.1 (push_all here.0 p).1
                          (λ walked. walk_levels book order (map (λ v. v.0) vs) walked.0 walked.1)
                        ∙ (bind_cong (planned here p)
                              (λ w. walk_levels book order (map (λ v. v.0) vs) here.1 w.1)
                              (λ w. planned rest w.1)
                              (λ m. walk_levels-take book order vs here.1 m.1 w)
                            ∙ sym (planned-append here.0 rest.0 here.1 rest.1 p))))))
    ]
