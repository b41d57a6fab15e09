-- ===== src/Book/OrderBook/Holds/Fills.antt =====
-- crates/hft-book/src/lib.rs: what the fills of a plan leave on the side that they are made from.
use hft_engine_rs.Prelude.{
  ok, ℕ, ◌-◌, ◌==◌, ◌||◌, not, ◌≡◌, ◌⊎◌, refl, ap, sym, subst, ◌∙◌, List, [], ◌∷◌, ◌++◌, arith, min,
  leb, true, false, Bool-cases, inl, inr,
}
use hft_engine_rs.Prelude.Int.{ℤ}
use hft_engine_rs.Prelude.Action.Atomic.{follow_ok}
use hft_engine_rs.Types.{Side, NewOrder}
use hft_engine_rs.Book.Fifo.Unlink.{Entry}
use hft_engine_rs.Book.Plan.{FillEntry}
use hft_engine_rs.Book.OrderBook.Match.{crosses, fill_of}
use hft_engine_rs.Book.OrderBook.Match.Priority.{Queue, take_orders, take_levels}
use hft_engine_rs.Book.OrderBook.Change.{Trading, apply_fill, apply_fills}
use hft_engine_rs.Book.OrderBook.Holds.{View}
use hft_engine_rs.Book.OrderBook.Holds.Level.{less}
use hft_engine_rs.Book.OrderBook.Holds.Out.{dropped}
use hft_engine_rs.Book.OrderBook.Holds.Fill.{
  IsHeld, leave_orders, leave_levels, fill_whole, fill_part, min_left, min_right,
}

-- The fills that are still to come are made from a book that holds this.
record Reaches (levels : ℕ) (o : NewOrder) (side : Side) (view facing : View)
    (rest all : List FillEntry) (t : Trading) : Type 0 where
  next : Trading
  held : IsHeld levels next side view facing
  done : (apply_fills o side rest next).0 ≡ ok tt
  same : (apply_fills o side all t).1 ≡ (apply_fills o side rest next).1

take_none : (at : ℕ) (price : ℤ) (es : Queue) → (take_orders at price es 0).0 ≡ []
unfolding take_orders
take_none at price [] = refl
take_none at price (e ∷ es) = refl

first_fill :
    (o : NewOrder) (side : Side) (f : FillEntry) (fs : List FillEntry) (t : Trading)
    → (apply_fills o side (f ∷ fs) t).0 ≡ ok tt
    → ((apply_fill o side f t).0 ≡ ok tt)
      × (apply_fills o side (f ∷ fs) t ≡ apply_fills o side fs (apply_fill o side f t).1)
unfolding apply_fills
first_fill o side f fs t h =
    let (u, e, s) = follow_ok (apply_fill o side f t) (λ _. apply_fills o side fs) tt h in (e, s)

module _ (levels : ℕ) (o : NewOrder) (side : Side) (facing : View) where
  moved :
      {view view' : View} {rest all all' : List FillEntry} {t : Trading}
      → view ≡ view'
      → all' ≡ all
      → Reaches levels o side view facing rest all t
      → Reaches levels o side view' facing rest all' t
  moved {view} {view'} {rest} {all} {all'} {t} a b r = record {
    next = r.next;
    held = subst (λ (w : View). IsHeld levels r.next side w facing) a r.held;
    done = r.done;
    same = ap (λ (fs : List FillEntry). (apply_fills o side fs t).1) b ∙ r.same;
  }

  here :
      (view : View) (rest : List FillEntry) (t : Trading)
      → IsHeld levels t side view facing
      → (apply_fills o side rest t).0 ≡ ok tt
      → Reaches levels o side view facing rest rest t
  here view rest t w h = record { next = t; held = w; done = h; same = refl }

  fills-orders :
      (v : ℤ × ℕ) (es : Queue) (n : ℕ) (vs : View) (rest : List FillEntry) (t : Trading)
      → IsHeld levels t side (dropped v es vs) facing
      → (apply_fills o side ((take_orders v.1 v.0 es n).0 ++ rest) t).0 ≡ ok tt
      → Reaches levels o side
          (dropped v (leave_orders es n) vs)
          facing
          rest
          ((take_orders v.1 v.0 es n).0 ++ rest)
          t
  unfolding take_orders
  fills-orders v [] n vs rest t w h = here vs rest t w h
  fills-orders v (e ∷ es) n vs rest t w h = elim (Bool-cases (n == 0)) [
    | inl z ↦
        let none = stops z in
        moved (ap (λ (q : Queue). dropped v q vs) (sym (left_zero z)))
          (ap (λ (fs : List FillEntry). fs ++ rest) none)
          (here ((v, e ∷ es) ∷ vs) rest t w
            (subst (λ (fs : List FillEntry). (apply_fills o side (fs ++ rest) t).0 ≡ ok tt) none h))
    | inr z ↦
        let m = n - min n e.1.quantity in
        let more = (take_orders v.1 v.0 es m).0 in
        let fill = fill_of v.1 v.0 e.0 e.1 n in
        let go = goes z in
        let (one, runs) =
          first_fill o side fill (more ++ rest) t
            (subst (λ (fs : List FillEntry). (apply_fills o side (fs ++ rest) t).0 ≡ ok tt) go h) in
        let t1 = (apply_fill o side fill t).1 in
        let on : (apply_fills o side (more ++ rest) t1).0 ≡ ok tt =
          ap (λ x. x.0) (sym runs)
          ∙ subst (λ (fs : List FillEntry). (apply_fills o side (fs ++ rest) t).0 ≡ ok tt) go h in
        elim (Bool-cases (leb e.1.quantity n)) [
          | inl b ↦
              let r =
                fills-orders v es m vs rest t1
                  (fill_whole levels o side v e es n vs facing t w one b) on in
              moved
                (ap (λ (k : ℕ). dropped v (leave_orders es k) vs) (min_left n e.1.quantity b).1
                  ∙ ap (λ (q : Queue). dropped v q vs) (sym (left_whole z b)))
                (ap (λ (fs : List FillEntry). fs ++ rest) go) (behind r runs)
          | inr b ↦
              let none =
                ap (λ (k : ℕ). (take_orders v.1 v.0 es k).0) (min_right n e.1.quantity b).1
                ∙ take_none v.1 v.0 es in
              let r =
                here ((v, less n e ∷ es) ∷ vs) rest t1
                  (fill_part levels o side v e es n vs facing t w one b)
                  (subst (λ (fs : List FillEntry). (apply_fills o side (fs ++ rest) t1).0 ≡ ok tt)
                    none on) in
              moved (ap (λ (q : Queue). dropped v q vs) (sym (left_part z b)))
                (ap (λ (fs : List FillEntry). fs ++ rest) go)
                (behind (moved refl (ap (λ (fs : List FillEntry). fs ++ rest) none) r) runs)
        ]
  ]
    where
      stops : (n == 0) ≡ true → (take_orders v.1 v.0 (e ∷ es) n).0 ≡ []
      stops z = rw z refl

      goes :
          (n == 0) ≡ false
          → (take_orders v.1 v.0 (e ∷ es) n).0
            ≡ fill_of v.1 v.0 e.0 e.1 n ∷ (take_orders v.1 v.0 es (n - min n e.1.quantity)).0
      goes z = rw z refl

      left_zero : (n == 0) ≡ true → leave_orders (e ∷ es) n ≡ e ∷ es
      left_zero z = rw z refl

      left_whole :
          (n == 0) ≡ false
          → leb e.1.quantity n ≡ true
          → leave_orders (e ∷ es) n ≡ leave_orders es (n - e.1.quantity)
      left_whole z b = rw (z, b) refl

      left_part :
          (n == 0) ≡ false → leb e.1.quantity n ≡ false → leave_orders (e ∷ es) n ≡ less n e ∷ es
      left_part z b = rw (z, b) refl

      behind :
          {view : View} {f : FillEntry} {fs rest : List FillEntry} {t1 : Trading}
          → Reaches levels o side view facing rest fs t1
          → apply_fills o side (f ∷ fs) t ≡ apply_fills o side fs t1
          → Reaches levels o side view facing rest (f ∷ fs) t
      behind r runs = record {
        next = r.next;
        held = r.held;
        done = r.done;
        same = ap (λ x. x.1) runs ∙ r.same;
      }

Queue-cases : (q : Queue) → (q ≡ []) ⊎ ((e : Entry) × (es : Queue) × (q ≡ e ∷ es))
Queue-cases [] = inl refl
Queue-cases (e ∷ es) = inr (e, es, refl)

-- Where orders are left, nothing of the quantity is.
nothing_left :
    (at : ℕ) (price : ℤ) (es : Queue) (n : ℕ) (x : Entry) (xs : Queue)
    → leave_orders es n ≡ x ∷ xs
    → (take_orders at price es n).1 ≡ 0
unfolding take_orders
nothing_left at price [] n x xs h = absurd (ground (arith, h))
nothing_left at price (e ∷ es) n x xs h = elim (Bool-cases (n == 0)) [
  | inl z ↦ rw z (is_zero n z)
  | inr z ↦ elim (Bool-cases (leb e.1.quantity n)) [
    | inl b ↦ rw z (
        nothing_left at price es (n - min n e.1.quantity) x xs
          (ap (leave_orders es) (min_left n e.1.quantity b).1 ∙ (sym (left z b) ∙ h)))
    | inr b ↦ rw z (
        ap (λ (m : ℕ). (take_orders at price es m).1) (min_right n e.1.quantity b).1
        ∙ nothing at price es)
  ]
]
  where
    is_zero : (n : ℕ) → (n == 0) ≡ true → n ≡ 0
    is_zero n z = ground arith

    left :
        (n == 0) ≡ false
        → leb e.1.quantity n ≡ true
        → leave_orders (e ∷ es) n ≡ leave_orders es (n - e.1.quantity)
    left z b = rw (z, b) refl

    nothing : (at : ℕ) (price : ℤ) (es : Queue) → (take_orders at price es 0).1 ≡ 0
    nothing at price [] = refl
    nothing at price (e ∷ es) = refl

take_levels_none : (side : Side) (limit : ℤ) (vs : View) → (take_levels side limit vs 0).0 ≡ []
unfolding take_levels
take_levels_none side limit [] = refl
take_levels_none side limit (v ∷ vs) = refl

leave_levels_none : (side : Side) (limit : ℤ) (vs : View) → leave_levels side limit vs 0 ≡ vs
leave_levels_none side limit [] = refl
leave_levels_none side limit (v ∷ vs) = refl

module _ (levels : ℕ) (o : NewOrder) (side : Side) (facing : View) (from : Side) (limit : ℤ) where
  abbrev pub After : (vs : View) (fs : List FillEntry) (t : Trading) → Type 0
  After vs fs t = IsHeld levels (apply_fills o side fs t).1 side vs facing

  nothing_done : (vs : View) (t : Trading) → IsHeld levels t side vs facing → After vs [] t
  unfolding apply_fills
  nothing_done vs t w = w

  pub fills-levels :
      (vs : View) (n : ℕ) (t : Trading)
      → IsHeld levels t side vs facing
      → (apply_fills o side (take_levels from limit vs n).0 t).0 ≡ ok tt
      → After (leave_levels from limit vs n) (take_levels from limit vs n).0 t
  unfolding take_levels
  fills-levels [] n t w h = nothing_done [] t w
  fills-levels ((v, []) ∷ vs) n t w h =
      let (level, found, l, full) = w.1.0.levels.0 in absurd (omega (arith, full))
  fills-levels ((v, e ∷ es) ∷ vs) n t w h =
      elim (Bool-cases (n == 0 || not (crosses from limit v.0))) [
        | inl stop ↦ rw stop (nothing_done ((v, e ∷ es) ∷ vs) t w)
        | inr go ↦
            let m = (take_orders v.1 v.0 (e ∷ es) n).1 in
            let rest = (take_levels from limit vs m).0 in
            let all = (take_orders v.1 v.0 (e ∷ es) n).0 ++ rest in
            let r =
              fills-orders levels o side facing v (e ∷ es) n vs rest t w (
                subst (λ (fs : List FillEntry). (apply_fills o side fs t).0 ≡ ok tt) (goes go) h) in
            rw go (
              subst
                (λ (t' : Trading).
                  IsHeld levels t' side
                    (dropped v (leave_orders (e ∷ es) n) (leave_levels from limit vs m)) facing)
                (sym r.same)
                (elim (Queue-cases (leave_orders (e ∷ es) n)) [
                  | inl q ↦
                      subst
                        (λ (l : Queue).
                          IsHeld levels (apply_fills o side rest r.next).1 side
                            (dropped v l (leave_levels from limit vs m)) facing)
                        (sym q)
                        (fills-levels vs m r.next
                          (subst (λ (l : Queue). IsHeld levels r.next side (dropped v l vs) facing)
                            q r.held)
                          r.done)
                  | inr (x, xs, q) ↦
                      let zero = nothing_left v.1 v.0 (e ∷ es) n x xs q in
                      let none =
                        ap (λ (k : ℕ). (take_levels from limit vs k).0) zero
                        ∙ take_levels_none from limit vs in
                      let kept =
                        ap (λ (k : ℕ). leave_levels from limit vs k) zero
                        ∙ leave_levels_none from limit vs in
                      subst
                        (λ (ws : View).
                          IsHeld levels (apply_fills o side rest r.next).1 side
                            (dropped v (leave_orders (e ∷ es) n) ws) facing)
                        (sym kept)
                        (subst
                          (λ (fs : List FillEntry).
                            After (dropped v (leave_orders (e ∷ es) n) vs) fs r.next)
                          (sym none)
                          (nothing_done (dropped v (leave_orders (e ∷ es) n) vs) r.next r.held))
                ]))
      ]
    where
      goes :
          (n == 0 || not (crosses from limit v.0)) ≡ false
          → (take_levels from limit ((v, e ∷ es) ∷ vs) n).0
            ≡ (take_orders v.1 v.0 (e ∷ es) n).0
              ++ (take_levels from limit vs (take_orders v.1 v.0 (e ∷ es) n).1).0
      goes go = rw go refl
