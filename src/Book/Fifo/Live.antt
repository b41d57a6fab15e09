-- ===== src/Book/Fifo/Live.antt =====
-- crates/hft-book/src/lib.rs: which order each slot of a `PriceLevel` holds, whatever its links.
use hft_engine_rs.Prelude.{
  ℕ, zero, suc, ◌-◌, ◌<◌, ◌≤◌, ◌==◌, ◌≡◌, ◌≢◌, refl, ap, sym, ◌∙◌, true, false, Bool-cases, inl,
  inr, Option, none, some, List, [], ◌∷◌, arith, length, get_elem?, set, get_elem?-set_self,
  get_elem?-set_ne, length-set, if◌then◌else◌, Option-cases,
}
use hft_engine_rs.Prelude.Words.{checked_sub}
use hft_engine_rs.Book.Fifo.{
  PriceLevel, RestingOrder, OrderSlot, nil, as_live, as_free, live_in, update_live, with_next,
  with_prev, link_next, link_prev, LevelStep, step, push_tail, unlink, get_live, reduce_quantity,
}

-- An order without its links.
abbrev pub unlinked : Option RestingOrder → Option RestingOrder
unlinked none = none
unlinked (some order) = some (record order { prev = nil; next = nil })

eq_of_test : (a b : ℕ) → (a == b) ≡ true → a ≡ b
eq_of_test a b h = ground arith

pub live_in-set :
    (slots : List OrderSlot) (at j : ℕ) (x : OrderSlot)
    → at < length slots
    → live_in (set slots at x) j ≡ (if at == j then as_live (some x) else live_in slots j)
live_in-set slots at j x h = elim (Bool-cases (at == j)) [
  | inl e ↦ rw e (
      ap (live_in (set slots at x)) (sym (eq_of_test at j e))
      ∙ ap as_live (get_elem?-set_self slots at x h))
  | inr e ↦ rw e (ap as_live (get_elem?-set_ne slots at j x (λ q. apart e q)))
]
  where
    apart : (at == j) ≡ false → at ≢ j
    apart e q = ground arith

pub live_lt :
    (slots : List OrderSlot) (at : ℕ) (o : RestingOrder)
    → live_in slots at ≡ some o
    → at < length slots
live_lt [] at o h = absurd (ground arith)
live_lt (x ∷ slots) zero o h = omega arith
live_lt (x ∷ slots) (suc at) o h = omega (arith, live_lt slots at o h)

update_live-unlinked :
    (at j : ℕ) (f : RestingOrder → RestingOrder) (slots : List OrderSlot)
    → ((o : RestingOrder) → unlinked (some (f o)) ≡ unlinked (some o))
    → unlinked (live_in (update_live at f slots) j) ≡ unlinked (live_in slots j)
update_live-unlinked at j f slots same = elim (Option-cases (live_in slots at)) [
  | inl e ↦ rw (update_live, e) refl
  | inr e ↦
      rw
        (
          update_live,
          e.1,
          live_in-set slots at j (OrderSlot.live (f e.0)) (live_lt slots at e.0 e.1),
        )
        (kept e.0 e.1)
]
  where
    kept :
        (o : RestingOrder)
        → live_in slots at ≡ some o
        → unlinked (if at == j then some (f o) else live_in slots j) ≡ unlinked (live_in slots j)
    kept o e = elim (Bool-cases (at == j)) [
      | inl q ↦ rw q (same o ∙ ap unlinked (sym e ∙ ap (live_in slots) (eq_of_test at j q)))
      | inr q ↦ rw q refl
    ]

-- Changing the links of one slot leaves every slot's order.
link_next-unlinked :
    (at to j : ℕ) (slots : List OrderSlot)
    → unlinked (live_in (link_next at to slots) j) ≡ unlinked (live_in slots j)
link_next-unlinked at to j slots = elim (Bool-cases (at == nil)) [
  | inl e ↦ rw e refl
  | inr e ↦ rw e (update_live-unlinked at j (with_next to) slots (λ o. refl))
]

link_prev-unlinked :
    (at to j : ℕ) (slots : List OrderSlot)
    → unlinked (live_in (link_prev at to slots) j) ≡ unlinked (live_in slots j)
link_prev-unlinked at to j slots = elim (Bool-cases (at == nil)) [
  | inl e ↦ rw e refl
  | inr e ↦ rw e (update_live-unlinked at j (with_prev to) slots (λ o. refl))
]

pub length-update_live :
    (at : ℕ) (f : RestingOrder → RestingOrder) (slots : List OrderSlot)
    → length (update_live at f slots) ≡ length slots
length-update_live at f slots = elim (Option-cases (live_in slots at)) [
  | inl e ↦ rw (update_live, e) refl
  | inr e ↦ rw (update_live, e.1) (length-set slots at (OrderSlot.live (f e.0)))
]

pub length-link_next :
    (at to : ℕ) (slots : List OrderSlot) → length (link_next at to slots) ≡ length slots
length-link_next at to slots = elim (Bool-cases (at == nil)) [
  | inl e ↦ rw e refl
  | inr e ↦ rw e (length-update_live at (with_next to) slots)
]

pub length-link_prev :
    (at to : ℕ) (slots : List OrderSlot) → length (link_prev at to slots) ≡ length slots
length-link_prev at to slots = elim (Bool-cases (at == nil)) [
  | inl e ↦ rw e refl
  | inr e ↦ rw e (length-update_live at (with_prev to) slots)
]

as_free_lem :
    (slots : List OrderSlot) (at next : ℕ)
    → as_free (get_elem? slots at) ≡ some next
    → (live_in slots at ≡ none) × (at < length slots)
as_free_lem [] at next h = absurd (ground arith)
as_free_lem (OrderSlot.live o ∷ slots) zero next h = absurd (ground arith)
as_free_lem (OrderSlot.free n ∷ slots) zero next h = (refl, omega arith)
as_free_lem (x ∷ slots) (suc at) next h =
    let r = as_free_lem slots at next h in (r.0, omega (arith, r.1))

pub push_tail_taken :
    (o : RestingOrder) (l : PriceLevel) (s : ℕ)
    → (push_tail o l).0 ≡ some s
    → (live_in l.slots s ≡ none)
      × (s < length l.slots)
      × ((push_tail o l).1.slots
          ≡ set
              (link_next l.tail s l.slots)
              s
              (OrderSlot.live (record o { prev = l.tail; next = nil })))
unfolding push_tail
push_tail_taken o l s h = elim (Option-cases (as_free (get_elem? l.slots l.free_head))) [
  | inl e ↦ ground (arith, e)
  | inr e ↦ ground (arith, e.1, as_free_lem l.slots l.free_head e.0 e.1)
]

unlink_taken :
    (slot : ℕ) (l : PriceLevel) (o : RestingOrder)
    → (unlink slot l).0 ≡ some o
    → (live_in l.slots slot ≡ some o)
      × ((unlink slot l).1.slots
          ≡ set
              (link_prev o.next o.prev (link_next o.prev o.next l.slots))
              slot
              (OrderSlot.free l.free_head))
unfolding unlink
unlink_taken slot l o h = elim (Option-cases (live_in l.slots slot)) [
  | inl e ↦ ground (arith, e)
  | inr e ↦ ground (arith, e.1)
]

-- A slot handed out by `push_tail` held no order; now it holds the order given, and every other slot
-- holds the order that it held, where links are left aside.
push_tail_lem :
    (o : RestingOrder) (l : PriceLevel) (s : ℕ)
    → (push_tail o l).0 ≡ some s
    → (get_live l s ≡ none)
      × ((j : ℕ)
          → unlinked (get_live (push_tail o l).1 j)
            ≡ (if s == j then unlinked (some o) else unlinked (get_live l j)))
unfolding get_live
push_tail_lem o l s h =
    let taken = push_tail_taken o l s h in
    let x : OrderSlot = OrderSlot.live (record o { prev = l.tail; next = nil }) in
    let linked = link_next l.tail s l.slots in
    (
      taken.0,
      λ j.
          ap (λ (ys : List OrderSlot). unlinked (live_in ys j)) taken.2
          ∙ (ap unlinked (
                live_in-set linked s j x
                  (omega (arith, taken.1, length-link_next l.tail s l.slots)))
              ∙ chosen s j l.tail l.slots o),
    )
  where
    chosen :
        (s j tail : ℕ) (slots : List OrderSlot) (o : RestingOrder)
        → unlinked (
            if s == j
            then some (record o { prev = tail; next = nil })
            else live_in (link_next tail s slots) j)
          ≡ (if s == j then unlinked (some o) else unlinked (live_in slots j))
    chosen s j tail slots o = elim (Bool-cases (s == j)) [
      | inl e ↦ rw e refl
      | inr e ↦ rw e (link_next-unlinked tail s j slots)
    ]

-- A slot that `unlink` frees held the order returned and holds none now, and every other slot holds
-- the order that it held, where links are left aside.
pub unlink_lem :
    (slot : ℕ) (l : PriceLevel) (o : RestingOrder)
    → (unlink slot l).0 ≡ some o
    → (get_live l slot ≡ some o)
      × ((j : ℕ)
          → unlinked (get_live (unlink slot l).1 j)
            ≡ (if slot == j then none else unlinked (get_live l j)))
unfolding get_live
unlink_lem slot l o h =
    let taken = unlink_taken slot l o h in
    let linked = link_prev o.next o.prev (link_next o.prev o.next l.slots) in
    (
      taken.0,
      λ j.
          ap (λ (ys : List OrderSlot). unlinked (live_in ys j)) taken.1
          ∙ (ap unlinked (
                live_in-set linked slot j (OrderSlot.free l.free_head) (
                  omega (
                    arith,
                    live_lt l.slots slot o taken.0,
                    length-link_next o.prev o.next l.slots,
                    length-link_prev o.next o.prev (link_next o.prev o.next l.slots),
                  )))
              ∙ chosen j),
    )
  where
    chosen :
        (j : ℕ)
        → unlinked (
            if slot == j
            then none
            else live_in (link_prev o.next o.prev (link_next o.prev o.next l.slots)) j)
          ≡ (if slot == j then none else unlinked (live_in l.slots j))
    chosen j = elim (Bool-cases (slot == j)) [
      | inl e ↦ rw e refl
      | inr e ↦ rw e (
          link_prev-unlinked o.next o.prev j (link_next o.prev o.next l.slots)
          ∙ link_next-unlinked o.prev o.next j l.slots)
    ]

-- Where an operation on a level returns nothing, the level is as it was.
pub step_refused :
    (change : LevelStep) (l : PriceLevel) → (step change l).0 ≡ false → (step change l).1 ≡ l
unfolding step push_tail unlink reduce_quantity
step_refused (LevelStep.pushes_tail order) l h = ground arith
step_refused (LevelStep.unlinks slot) l h = ground arith
step_refused (LevelStep.reduces_quantity slot quantity) l h = ground arith

-- Reducing by a quantity that the slot's order has leaves the order with the rest, its links and its
-- place, and every other slot alone.
pub reduce_quantity_lem :
    (slot q : ℕ) (l : PriceLevel) (o : RestingOrder)
    → get_live l slot ≡ some o
    → q ≤ o.quantity
    → ((reduce_quantity slot q l).0 ≡ some tt)
      × ((j : ℕ)
          → get_live (reduce_quantity slot q l).1 j
            ≡ (if slot == j then some (record o { quantity = o.quantity - q }) else get_live l j))
unfolding reduce_quantity get_live
reduce_quantity_lem slot q l o h k =
    let x : OrderSlot = OrderSlot.live (record o { quantity = o.quantity - q }) in
    rw (reduce_quantity, h, reduce_quantity, checked o.quantity q k)
      (refl, λ j. live_in-set l.slots slot j x (live_lt l.slots slot o h))
  where
    checked : (a b : ℕ) → b ≤ a → checked_sub a b ≡ some (a - b)
    checked a b h = ground arith
