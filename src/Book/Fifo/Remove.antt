-- ===== src/Book/Fifo/Remove.antt =====
-- crates/hft-book/src/lib.rs: `PriceLevel::unlink` takes an order out of the queue that the links hold.
use hft_engine_rs.Prelude.{
  ℕ, ◌==◌, ◌≡◌, ◌≢◌, refl, sym, ◌∙◌, true, false, some, List, [], ◌∷◌, ◌++◌, arith, length, set,
  length-set, if◌then◌else◌, Each, Bool-cases, Option-cases, inl, inr, ==_refl,
}
use hft_engine_rs.Book.Fifo.{
  RestingOrder, OrderSlot, nil, live_in, update_live, with_next, with_prev, link_next, link_prev,
  is_sound,
}
use hft_engine_rs.Book.Fifo.Live.{live_in-set, live_lt, length-link_next, length-link_prev}
use hft_engine_rs.Book.Fifo.Queue.{bare, Chain}
use hft_engine_rs.Book.Fifo.Unlink.{Entry}

ne_test : (a b : ℕ) → a ≢ b → (a == b) ≡ false
ne_test a b h = ground arith

module _ (slots : List OrderSlot) (at to : ℕ) (x : RestingOrder)
    (k : live_in slots at ≡ some x) where
  update_at :
      (f : RestingOrder → RestingOrder) (j : ℕ)
      → live_in (update_live at f slots) j ≡ (if at == j then some (f x) else live_in slots j)
  update_at f j =
      rw (update_live, k) (live_in-set slots at j (OrderSlot.live (f x)) (live_lt slots at x k))

  next_hit : at ≢ nil → live_in (link_next at to slots) at ≡ some (with_next to x)
  next_hit n = rw (ne_test at nil n, update_at (with_next to) at, ==_refl at) refl

  prev_hit : at ≢ nil → live_in (link_prev at to slots) at ≡ some (with_prev to x)
  prev_hit n = rw (ne_test at nil n, update_at (with_prev to) at, ==_refl at) refl

module _ (slots : List OrderSlot) (at to j : ℕ) (n : at ≢ j) where
  update_miss :
      (f : RestingOrder → RestingOrder) → live_in (update_live at f slots) j ≡ live_in slots j
  update_miss f = elim (Option-cases (live_in slots at)) [
    | inl k ↦ rw (update_live, k) refl
    | inr (x, k) ↦ update_at slots at to x k f j ∙ rw (ne_test at j n) refl
  ]

  next_miss : live_in (link_next at to slots) j ≡ live_in slots j
  next_miss = elim (Bool-cases (at == nil)) [
    | inl e ↦ rw e refl
    | inr e ↦ rw e (update_miss (with_next to))
  ]

  prev_miss : live_in (link_prev at to slots) j ≡ live_in slots j
  prev_miss = elim (Bool-cases (at == nil)) [
    | inl e ↦ rw e refl
    | inr e ↦ rw e (update_miss (with_prev to))
  ]

-- The slots after an unlinking.
module _ (slots : List OrderSlot) (s free : ℕ) (o : RestingOrder)
    (held : live_in slots s ≡ some o) where
  abbrev pub relinked : List OrderSlot
  relinked = link_prev o.next o.prev (link_next o.prev o.next slots)

  abbrev pub left : List OrderSlot
  left = set relinked s (OrderSlot.free free)

  length-relinked : length relinked ≡ length slots
  length-relinked =
      length-link_prev o.next o.prev (link_next o.prev o.next slots)
      ∙ length-link_next o.prev o.next slots

  pub length-left : length left ≡ length slots
  length-left = length-set relinked s (OrderSlot.free free) ∙ length-relinked

  left_at : (j : ℕ) → j ≢ s → live_in left j ≡ live_in relinked j
  left_at j n =
      live_in-set relinked s j (OrderSlot.free free)
        (omega (arith, live_lt slots s o held, length-relinked))
      ∙ rw (ne_test s j (λ e. n (sym e))) refl

  pub left_keep :
      (j : ℕ) (x : RestingOrder)
      → live_in slots j ≡ some x
      → j ≢ s
      → j ≢ o.prev
      → j ≢ o.next
      → live_in left j ≡ some x
  left_keep j x k a b c =
      left_at j a
      ∙ (prev_miss (link_next o.prev o.next slots) o.next o.prev j (λ e. c (sym e))
          ∙ (next_miss slots o.prev o.next j (λ e. b (sym e)) ∙ k))

  pub left_prev :
      (x : RestingOrder)
      → live_in slots o.prev ≡ some x
      → o.prev ≢ nil
      → o.prev ≢ s
      → o.prev ≢ o.next
      → live_in left o.prev ≡ some (with_next o.next x)
  left_prev x k a b c =
      left_at o.prev b
      ∙ (prev_miss (link_next o.prev o.next slots) o.next o.prev o.prev (λ e. c (sym e))
          ∙ next_hit slots o.prev o.next x k a)

  pub left_next :
      (x : RestingOrder)
      → live_in slots o.next ≡ some x
      → o.next ≢ nil
      → o.next ≢ s
      → o.next ≢ o.prev
      → live_in left o.next ≡ some (with_prev o.prev x)
  left_next x k a b c =
      left_at o.next b
      ∙ prev_hit (link_next o.prev o.next slots) o.next o.prev x
          (next_miss slots o.prev o.next o.next (λ e. c (sym e)) ∙ k) a

pub Chain-Each :
    (P : ℕ → Type 0) (slots : List OrderSlot) (tail p c : ℕ) (es : List Entry)
    → ((j : ℕ) (x : RestingOrder) → j ≢ nil → live_in slots j ≡ some x → P j)
    → Chain slots tail p c es
    → Each (λ (x : Entry). P x.0) es
Chain-Each P slots tail p c [] f k = tt
Chain-Each P slots tail p c (e ∷ es) f (k, m, x, l, b, r, rest) =
    (f e.0 x m l, Chain-Each P slots tail e.0 x.next es f rest)

pub Chain-at :
    (slots : List OrderSlot) (tail p c : ℕ) (es : List Entry) (e : Entry) (bs : List Entry)
    → Chain slots tail p c (es ++ e ∷ bs)
    → (o : RestingOrder) × (live_in slots e.0 ≡ some o) × (bare o ≡ e.1)
Chain-at slots tail p c [] e bs (k, m, x, l, b, r, rest) = (x, l, b)
Chain-at slots tail p c (a ∷ es) e bs (k, m, x, l, b, r, rest) =
    Chain-at slots tail a.0 x.next es e bs rest

pub sound_live :
    (slots : List OrderSlot) (j : ℕ) (x : RestingOrder)
    → j ≢ nil
    → live_in slots j ≡ some x
    → is_sound j slots ≡ true
sound_live slots j x n k = rw (ne_test j nil n, k) refl
