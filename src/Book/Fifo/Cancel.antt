-- ===== src/Book/Fifo/Cancel.antt =====
-- crates/hft-book/src/lib.rs: `PriceLevel::unlink` takes an order out of the queue that the links hold.
use hft_engine_rs.Prelude.{
  ℕ, suc, ◌+◌, ◌<◌, ◌==◌, ◌≡◌, ◌≢◌, refl, ap, sym, subst, ◌∙◌, true, false, some, List, [], ◌∷◌,
  ◌++◌, arith, length, length-append, if◌then◌else◌,
}
use hft_engine_rs.Prelude.Words.{u64_limit, wrap_sub, u128_limit}
use hft_engine_rs.Book.Fifo.{PriceLevel, RestingOrder, OrderSlot, nil, live_in, unlink, is_sound}
use hft_engine_rs.Book.Fifo.Queue.{bare, Chain, IsQueue}
use hft_engine_rs.Book.Fifo.Unlink.{
  Entry, prev_among, next_among, Chain-unlink, cursor_after, Each-split, some_inj,
}
use hft_engine_rs.Book.Fifo.Remove.{
  left, length-left, left_keep, left_prev, left_next, Chain-Each, Chain-at, sound_live,
}

ne_test : (a b : ℕ) → a ≢ b → (a == b) ≡ false
ne_test a b h = ground arith

eq_test : (a b : ℕ) → a ≡ b → (a == b) ≡ true
eq_test a b h = ground arith

counted_less : (n a b : ℕ) → n ≡ a + suc b → n < u64_limit → wrap_sub u64_limit n 1 ≡ a + b
counted_less n a b h k = omega arith

module _ (l : PriceLevel) (e : Entry) (o : RestingOrder) (held : live_in l.slots e.0 ≡ some o) where
  abbrev tail' : ℕ
  tail' = if o.next == nil then o.prev else l.tail

  abbrev slots' : List OrderSlot
  slots' = left l.slots e.0 l.free_head o held

  last : o.next ≡ nil → tail' ≡ o.prev
  last h = rw (eq_test o.next nil h) refl

  more : o.next ≢ nil → tail' ≡ l.tail
  more h = rw (ne_test o.next nil h) refl

  -- What holds of every live slot holds of the slots that the order is linked to.
  behind :
      (P : ℕ → Type 0) (p c : ℕ) (es bs : List Entry)
      → P p
      → ((j : ℕ) (x : RestingOrder) → j ≢ nil → live_in l.slots j ≡ some x → P j)
      → Chain l.slots l.tail p c (es ++ e ∷ bs)
      → P o.prev
  behind P p c es bs at f k =
      prev_among l.slots slots' l.tail tail' e.0 o held (left_keep l.slots e.0 l.free_head o held)
        (left_prev l.slots e.0 l.free_head o held) (left_next l.slots e.0 l.free_head o held) last
        more P p c es e bs at
        (Each-split (λ (x : Entry). P x.0) es (e ∷ bs)
          (Chain-Each P l.slots l.tail p c (es ++ e ∷ bs) f k)).0
        refl k

  ahead :
      (P : ℕ → Type 0) (p c : ℕ) (es bs : List Entry)
      → P nil
      → ((j : ℕ) (x : RestingOrder) → j ≢ nil → live_in l.slots j ≡ some x → P j)
      → Chain l.slots l.tail p c (es ++ e ∷ bs)
      → P o.next
  ahead P p c es bs at f k =
      next_among l.slots slots' l.tail tail' e.0 o held (left_keep l.slots e.0 l.free_head o held)
        (left_prev l.slots e.0 l.free_head o held) (left_next l.slots e.0 l.free_head o held) last
        more P p c es e bs at
        (Each-split (λ (x : Entry). P x.0) es (e ∷ bs)
          (Chain-Each P l.slots l.tail p c (es ++ e ∷ bs) f k)).1.1
        refl k

  head_after :
      (c : ℕ) (es bs : List Entry)
      → Chain l.slots l.tail nil c (es ++ e ∷ bs)
      → (if o.prev == nil then o.next else c) ≡ cursor_after o.next c es
  head_after c [] bs (k, m, x, h, b, r, rest) =
      rw (eq_test o.prev nil (ap (λ (z : RestingOrder). z.prev) (some_inj o x (sym held ∙ h)) ∙ r))
        refl
  head_after c (a ∷ es) bs (k, m, x, h, b, r, rest) =
      rw (ne_test o.prev nil (behind (λ j. j ≢ nil) a.0 x.next es bs m (λ j y n w. n) rest)) refl

  abbrev after : PriceLevel
  after = record l {
    head = if o.prev == nil then o.next else l.head;
    tail = tail';
    slots = slots';
    free_head = e.0;
    len = wrap_sub u64_limit l.len 1;
    aggregate_quantity = wrap_sub u128_limit l.aggregate_quantity o.quantity;
  }

  unlink_live :
      (es bs : List Entry)
      → Chain l.slots l.tail nil l.head (es ++ e ∷ bs)
      → unlink e.0 l ≡ (some o, after)
  unfolding unlink
  unlink_live es bs k =
      rw
        (
          unlink,
          held,
          behind (λ j. is_sound j l.slots ≡ true) nil l.head es bs refl (sound_live l.slots) k,
          ahead (λ j. is_sound j l.slots ≡ true) nil l.head es bs refl (sound_live l.slots) k,
        )
        refl

  after-IsQueue : (es bs : List Entry) → IsQueue l (es ++ e ∷ bs) → IsQueue after (es ++ bs)
  after-IsQueue es bs q =
      let n = length-append es (e ∷ bs) in
      let n' = length-append es bs in
      let size = length-left l.slots e.0 l.free_head o held in
      record {
        chain =
            subst (λ (c : ℕ). Chain slots' tail' nil c (es ++ bs))
              (sym (head_after l.head es bs q.chain))
              (Chain-unlink l.slots slots' l.tail tail' e.0 o held
                (left_keep l.slots e.0 l.free_head o held)
                (left_prev l.slots e.0 l.free_head o held)
                (left_next l.slots e.0 l.free_head o held) last more nil l.head es e bs refl
                (Chain-Each (λ j. j ≢ nil) l.slots l.tail nil l.head (es ++ e ∷ bs) (λ j y n w. n)
                  q.chain)
                q.chain);
        counted =
            counted_less l.len (length es) (length bs) (q.counted ∙ n)
              (omega (arith, q.counted, q.fits, q.addressable))
            ∙ sym n';
        fits = omega (arith, q.fits, n, n', size);
        addressable = omega (arith, q.addressable, size);
      }

-- Where the links hold a queue, `unlink` of one of its slots returns the order of that slot, links left
-- aside, and the links then hold the queue without it, the others in their order.
pub unlink-IsQueue :
    (l : PriceLevel) (es : List Entry) (e : Entry) (bs : List Entry)
    → IsQueue l (es ++ e ∷ bs)
    → ((o : RestingOrder) × ((unlink e.0 l).0 ≡ some o) × (bare o ≡ e.1))
      × IsQueue (unlink e.0 l).1 (es ++ bs)
unlink-IsQueue l es e bs q =
    let (o, held, b) = Chain-at l.slots l.tail nil l.head es e bs q.chain in
    rw (unlink_live l e o held es bs q.chain) ((o, refl, b), after-IsQueue l e o held es bs q)
