-- ===== src/Book/Fifo/Push.antt =====
-- crates/hft-book/src/lib.rs: `PriceLevel::push_tail` joins the end of the queue that the links hold.
use hft_engine_rs.Prelude.{
  ℕ, zero, suc, ◌+◌, ◌<◌, ◌==◌, ◌≡◌, ◌≢◌, refl, ap, sym, subst, ◌∙◌, true, false, none, some, List,
  [], ◌∷◌, ◌++◌, map, arith, length, set, length-set, length-append, if◌then◌else◌,
}
use hft_engine_rs.Prelude.Int.{ℤ}
use hft_engine_rs.Prelude.Words.{u64_limit}
use hft_engine_rs.Book.Fifo.{
  PriceLevel, RestingOrder, OrderSlot, nil, live_in, link_next, push_tail, for_each_live, new,
  free_slots,
}
use hft_engine_rs.Book.Fifo.Live.{length-link_next, push_tail_taken}
use hft_engine_rs.Book.Fifo.Queue.{
  bare, Chain, IsQueue, Chain-push, Chain-tail, head_with, push_tail_links, walk_lem,
}

-- Where the links hold a queue, walking from the head visits its orders, first in first out, links
-- left aside.
pub for_each_live_lem :
    (l : PriceLevel) (es : List (ℕ × RestingOrder))
    → IsQueue l es
    → map bare (for_each_live l) ≡ map (λ e. e.1) es
unfolding for_each_live
for_each_live_lem l es q = walk_lem l.slots l.tail nil l.head (length l.slots) es q.chain q.fits

abbrev linked : RestingOrder → PriceLevel → ℕ → List OrderSlot
linked o l s =
    set (link_next l.tail s l.slots) s (OrderSlot.live (record o { prev = l.tail; next = nil }))

sizes_linked : (o : RestingOrder) (l : PriceLevel) (s : ℕ) → length (linked o l s) ≡ length l.slots
sizes_linked o l s =
    length-set (link_next l.tail s l.slots) s
      (OrderSlot.live (record o { prev = l.tail; next = nil }))
    ∙ length-link_next l.tail s l.slots

ne_test : (a b : ℕ) → a ≢ b → (a == b) ≡ false
ne_test a b h = ground arith

eq_test : (a b : ℕ) → a ≡ b → (a == b) ≡ true
eq_test a b h = ground arith

head_after :
    (x : RestingOrder) (l : PriceLevel) (s : ℕ) (es : List (ℕ × RestingOrder))
    → Chain l.slots l.tail nil l.head es
    → (v : live_in l.slots s ≡ none) (w : s < length l.slots)
    → (if l.tail == nil then s else l.head) ≡ head_with l.slots l.tail s x v w l.head es
head_after x l s [] c v w = rw (eq_test l.tail nil (sym c.1)) refl
head_after x l s (e ∷ es) c v w =
    rw (ne_test l.tail nil (Chain-tail l.slots l.tail nil l.head e es c)) refl

-- A level whose links hold a queue holds, after a push that returns a slot, the queue with the order
-- at its end, in that slot.
pub push_tail-IsQueue :
    (o : RestingOrder) (l : PriceLevel) (s : ℕ) (es : List (ℕ × RestingOrder))
    → IsQueue l es
    → (push_tail o l).0 ≡ some s
    → IsQueue (push_tail o l).1 (es ++ (s, bare o) ∷ [])
push_tail-IsQueue o l s es q h =
    let t = push_tail_taken o l s h in
    let k = push_tail_links o l s h in
    let x : RestingOrder = record o { prev = l.tail; next = nil } in
    record {
      chain =
          rw (t.2, k.2, k.3)
            (subst (λ (hd : ℕ). Chain (linked o l s) s nil hd (es ++ (s, bare o) ∷ []))
              (sym (head_after x l s es q.chain t.0 t.1))
              (Chain-push l.slots l.tail s x t.0 t.1 nil l.head es k.0 refl refl q.chain));
      counted =
          ground (arith, k, length-append es ((s, bare o) ∷ []), q.counted, q.fits, q.addressable);
      fits =
          rw (t.2, sizes_linked o l s)
            (omega (arith, k.1, q.counted, length-append es ((s, bare o) ∷ [])));
      addressable = rw (t.2, sizes_linked o l s) q.addressable;
    }

length-free_slots : (orders left index : ℕ) → length (free_slots orders left index) ≡ left
unfolding free_slots
length-free_slots orders zero index = refl
length-free_slots orders (suc left) index = ap suc (length-free_slots orders left (index + 1))

-- A new level of fewer than 2 ^ 64 slots holds the empty queue.
pub new-IsQueue : (price : ℤ) (orders : ℕ) → orders < u64_limit → IsQueue (new price orders) []
unfolding new
new-IsQueue price orders h = record {
  chain = (refl, refl);
  counted = refl;
  fits = omega arith;
  addressable = omega (arith, length-free_slots orders orders 0, h);
}
