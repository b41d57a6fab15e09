-- ===== src/Book/Fifo/Queue.antt =====
-- crates/hft-book/src/lib.rs: the links of a `PriceLevel` hold a first-in first-out queue.
use hft_engine_rs.Prelude.{
  ℕ, zero, suc, ◌≤◌, ◌<◌, ◌==◌, ◌≡◌, ◌≢◌, refl, ap, sym, subst, ◌∙◌, false, Bool-cases, inl, inr,
  none, some, List, [], ◌∷◌, ◌++◌, map, arith, ==_refl, length, set, get_elem?, if◌then◌else◌,
  Option-cases,
}
use hft_engine_rs.Prelude.Words.{u64_limit, wrap_add}
use hft_engine_rs.Book.Fifo.{
  PriceLevel, RestingOrder, OrderSlot, nil, live_in, update_live, with_next, link_next, as_free,
  push_tail, walk,
}
use hft_engine_rs.Book.Fifo.Live.{live_in-set, live_lt, length-link_next}

-- An order without its links.
abbrev pub bare : RestingOrder → RestingOrder
bare order = record order { prev = nil; next = nil }

-- From `cursor` on, behind `prev`, the links run through the slots listed, which hold the orders
-- listed with them, up to `tail`.
abbrev pub Chain : List OrderSlot → ℕ → ℕ → ℕ → List (ℕ × RestingOrder) → Type 0
Chain slots tail prev cursor [] = (cursor ≡ nil) × (prev ≡ tail)
Chain slots tail prev cursor (e ∷ es) =
    (cursor ≡ e.0)
    × (e.0 ≢ nil)
    × (o : RestingOrder) × (live_in slots e.0 ≡ some o)
    × (bare o ≡ e.1)
    × (o.prev ≡ prev)
    × Chain slots tail e.0 o.next es

-- The links from the head on hold exactly these slots and orders, `len` counts them, and the slots
-- fit in the address space.
pub record IsQueue (level : PriceLevel) (es : List (ℕ × RestingOrder)) : Type 0 where
  pub chain : Chain level.slots level.tail nil level.head es
  pub counted : level.len ≡ length es
  pub fits : length es ≤ length level.slots
  pub addressable : length level.slots < u64_limit

ne_test : (a b : ℕ) → a ≢ b → (a == b) ≡ false
ne_test a b h = ground arith

pub walk_lem :
    (slots : List OrderSlot) (tail prev cursor rounds : ℕ) (es : List (ℕ × RestingOrder))
    → Chain slots tail prev cursor es
    → length es ≤ rounds
    → map bare (walk rounds cursor slots) ≡ map (λ e. e.1) es
unfolding walk
walk_lem slots tail prev cursor zero [] c h = refl
walk_lem slots tail prev cursor (suc rounds) [] c h = rw c.0 refl
walk_lem slots tail prev cursor zero (e ∷ es) c h = absurd (omega arith)
walk_lem slots tail prev cursor (suc rounds) (e ∷ es) (c, n, o, l, b, p, rest) h =
    rw (walk, c, ne_test e.0 nil n, l, b)
      (ap (◌∷◌ e.1) (walk_lem slots tail e.0 o.next rounds es rest (omega arith)))

-- The slot at the end has no successor.
Chain-end :
    (slots : List OrderSlot) (tail prev cursor : ℕ) (e : ℕ × RestingOrder)
    (es : List (ℕ × RestingOrder))
    → Chain slots tail prev cursor (e ∷ es)
    → (o : RestingOrder) × (live_in slots tail ≡ some o) × (o.next ≡ nil)
Chain-end slots tail prev cursor e [] (c, n, o, l, b, p, rest) =
    (o, subst (λ (t : ℕ). live_in slots t ≡ some o) rest.1 l, rest.0)
Chain-end slots tail prev cursor e (f ∷ es) (c, n, o, l, b, p, rest) =
    Chain-end slots tail e.0 o.next f es rest

link_hit :
    (slots : List OrderSlot) (at to : ℕ) (o : RestingOrder)
    → live_in slots at ≡ some o
    → at ≢ nil
    → live_in (link_next at to slots) at ≡ some (with_next to o)
link_hit slots at to o l n =
    rw
      (
        ne_test at nil n,
        update_live,
        l,
        live_in-set slots at at (OrderSlot.live (with_next to o)) (live_lt slots at o l),
        ==_refl at,
      )
      refl

link_miss :
    (slots : List OrderSlot) (at to j : ℕ)
    → at ≢ j
    → live_in (link_next at to slots) j ≡ live_in slots j
link_miss slots at to j n = elim (Bool-cases (at == nil)) [
  | inl e ↦ rw e refl
  | inr e ↦ elim (Option-cases (live_in slots at)) [
    | inl k ↦ rw (e, update_live, k) refl
    | inr (o, k) ↦
        rw
          (
            e,
            update_live,
            k,
            live_in-set slots at j (OrderSlot.live (with_next to o)) (live_lt slots at o k),
            ne_test at j n,
          )
          refl
  ]
]

live_apart :
    (slots : List OrderSlot) (s j : ℕ) (o : RestingOrder)
    → live_in slots s ≡ none
    → live_in slots j ≡ some o
    → s ≢ j
live_apart slots s j o v l e = absurd (none_some o (sym v ∙ (ap (live_in slots) e ∙ l)))
  where
    none_some : (o : RestingOrder) → none ≢ some o
    none_some o e = ground arith

next_of : (a b : RestingOrder) → some a ≡ some b → a.next ≡ b.next
next_of a b e = ground arith

pub Chain-tail :
    (slots : List OrderSlot) (tail prev cursor : ℕ) (e : ℕ × RestingOrder)
    (es : List (ℕ × RestingOrder))
    → Chain slots tail prev cursor (e ∷ es)
    → tail ≢ nil
Chain-tail slots tail prev cursor e [] (c, n, o, l, b, p, rest) q = n (rest.1 ∙ q)
Chain-tail slots tail prev cursor e (f ∷ es) (c, n, o, l, b, p, rest) q =
    Chain-tail slots tail e.0 o.next f es rest q

module _ (slots : List OrderSlot) (tail s : ℕ) (x : RestingOrder) (vacant : live_in slots s ≡ none)
    (within : s < length slots) where
  abbrev pushed : List OrderSlot
  pushed = set (link_next tail s slots) s (OrderSlot.live x)

  pushed_at :
      (j : ℕ) → live_in pushed j ≡ (if s == j then some x else live_in (link_next tail s slots) j)
  pushed_at j =
      live_in-set (link_next tail s slots) s j (OrderSlot.live x)
        (omega (arith, length-link_next tail s slots, within))

  at_new : live_in pushed s ≡ some x
  at_new = rw (pushed_at s, ==_refl s) refl

  at_other :
      (j : ℕ) (o : RestingOrder) → live_in slots j ≡ some o → tail ≢ j → live_in pushed j ≡ some o
  at_other j o l n =
      rw (pushed_at j, ne_test s j (live_apart slots s j o vacant l))
        (link_miss slots tail s j n ∙ l)

  at_tail :
      (o : RestingOrder)
      → live_in slots tail ≡ some o
      → tail ≢ nil
      → live_in pushed tail ≡ some (with_next s o)
  at_tail o l n =
      rw (pushed_at tail, ne_test s tail (live_apart slots s tail o vacant l))
        (link_hit slots tail s o l n)

  not_end :
      (h : ℕ) (o : RestingOrder) (f : ℕ × RestingOrder) (es : List (ℕ × RestingOrder))
      → live_in slots h ≡ some o
      → Chain slots tail h o.next (f ∷ es)
      → tail ≢ h
  not_end h o f es l rest q =
      let (last, k, e) = Chain-end slots tail h o.next f es rest in
      rest.1 (sym rest.0 ∙ (next_of o last (sym l ∙ (ap (live_in slots) (sym q) ∙ k)) ∙ e))

  -- The head after the push of a slot behind these entries.
  abbrev pub head_with : ℕ → List (ℕ × RestingOrder) → ℕ
  head_with cursor [] = s
  head_with cursor (e ∷ es) = cursor

  pub Chain-push :
      (prev cursor : ℕ) (es : List (ℕ × RestingOrder))
      → s ≢ nil
      → x.prev ≡ tail
      → x.next ≡ nil
      → Chain slots tail prev cursor es
      → Chain pushed s prev (head_with cursor es) (es ++ (s, bare x) ∷ [])
  Chain-push prev cursor [] n xp xn c = (refl, n, x, at_new, refl, xp ∙ sym c.1, (xn, refl))
  Chain-push prev cursor (e ∷ []) n xp xn (c, m, o, l, b, p, rest) =
      let t = rest.1 in
      (
        c,
        m,
        with_next s o,
        ap (live_in pushed) t ∙ at_tail o (ap (live_in slots) (sym t) ∙ l) (λ q. m (t ∙ q)),
        b,
        p,
        (refl, n, x, at_new, refl, xp ∙ sym t, (xn, refl)),
      )
  Chain-push prev cursor (e ∷ (f ∷ es)) n xp xn (c, m, o, l, b, p, rest) = (
    c,
    m,
    o,
    at_other e.0 o l (not_end e.0 o f es l rest),
    b,
    p,
    Chain-push e.0 o.next (f ∷ es) n xp xn rest,
  )

pub push_tail_links :
    (o : RestingOrder) (l : PriceLevel) (s : ℕ)
    → (push_tail o l).0 ≡ some s
    → (s ≢ nil)
      × (l.len < length l.slots)
      × ((push_tail o l).1.tail ≡ s)
      × ((push_tail o l).1.head ≡ (if l.tail == nil then s else l.head))
      × ((push_tail o l).1.len ≡ wrap_add u64_limit l.len 1)
unfolding push_tail
push_tail_links o l s h = elim (Option-cases (as_free (get_elem? l.slots l.free_head))) [
  | inl e ↦ absurd (ground (arith, e))
  | inr e ↦ ground (arith, e.1)
]
