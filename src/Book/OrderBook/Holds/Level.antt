-- ===== src/Book/OrderBook/Holds/Level.antt =====
-- crates/hft-book/src/lib.rs: what `unlink`, `reduce_quantity`, `push_tail` and a new handle do to a level
-- that holds a queue, handles left aside.
use hft_engine_rs.Prelude.{
  ℕ, suc, ◌-◌, ◌≤◌, ◌==◌, ◌≡◌, ◌≢◌, refl, ap, sym, subst, ◌∙◌, some, List, [], ◌∷◌, ◌++◌, map,
  arith, length, set, length-set, Each, Option-cases, Bool-cases, inl, inr, true, false, ==_refl,
}
use hft_engine_rs.Prelude.Words.{checked_sub}
use hft_engine_rs.Prelude.Int.{ℤ}
use hft_engine_rs.Book.Fifo.{
  PriceLevel, RestingOrder, OrderSlot, nil, live_in, update_live, push_tail, unlink, get_live,
  reduce_quantity,
}
use hft_engine_rs.Book.Fifo.Live.{live_in-set, live_lt}
use hft_engine_rs.Book.Fifo.Queue.{bare, Chain, IsQueue}
use hft_engine_rs.Book.Fifo.Unlink.{Entry, apart_from, some_inj}
use hft_engine_rs.Book.Fifo.Cancel.{unlink-IsQueue}
use hft_engine_rs.Book.Fifo.Push.{push_tail-IsQueue}
use hft_engine_rs.Book.OrderBook.{with_handle, write_handle}
use hft_engine_rs.Book.OrderBook.Match.Priority.{Queue}
use hft_engine_rs.Book.OrderBook.Holds.{plain, plain_entry, IsLevel}

pub same_test : (a b : ℕ) → (a == b) ≡ true → a ≡ b
same_test a b h = ground arith

pub ne_test : (a b : ℕ) → (a == b) ≡ false → a ≢ b
ne_test a b h e = ground arith

-- A new handle in a slot.
module _ (slots : List OrderSlot) (slot handle : ℕ) (x : RestingOrder)
    (held : live_in slots slot ≡ some x) where
  abbrev handled : List OrderSlot
  handled = set slots slot (OrderSlot.live (with_handle handle x))

  Chain-handle :
      (tail p c : ℕ) (es : Queue)
      → Chain slots tail p c es
      → (fs : Queue) × Chain handled tail p c fs × (map plain_entry fs ≡ map plain_entry es)
  Chain-handle tail p c [] k = ([], k, refl)
  Chain-handle tail p c (e ∷ es) (k, m, o, l, b, r, rest) =
      let (fs, chain, same) = Chain-handle tail e.0 o.next es rest in
      let at =
        live_in-set slots slot e.0 (OrderSlot.live (with_handle handle x))
          (live_lt slots slot x held) in
      elim (Bool-cases (slot == e.0)) [
        | inl q ↦
            let was = some_inj x o (sym held ∙ (ap (live_in slots) (same_test slot e.0 q) ∙ l)) in
            (
              (e.0, bare (with_handle handle o)) ∷ fs,
              (k, m, with_handle handle o, at ∙ rw (q, was) refl, refl, r, chain),
              ap (λ (y : RestingOrder). (e.0, plain y) ∷ map plain_entry fs) b
                  ∙ ap (◌∷◌ (e.0, plain e.1)) same,
            )
        | inr q ↦ (e ∷ fs, (k, m, o, at ∙ rw q l, b, r, chain), ap (◌∷◌ (e.0, plain e.1)) same)
      ]

length-same : (fs es : Queue) → map plain_entry fs ≡ map plain_entry es → length fs ≡ length es
length-same [] [] h = refl
length-same [] (e ∷ es) h = absurd (ground arith)
length-same (f ∷ fs) [] h = absurd (ground arith)
length-same (f ∷ fs) (e ∷ es) h = ap suc (length-same fs es (cc))

pub write_handle-IsLevel :
    (slot handle : ℕ) (level : PriceLevel) (price : ℤ) (es : Queue)
    → IsLevel level price es
    → IsLevel (write_handle slot handle level) price es
write_handle-IsLevel slot handle level price es w = elim (Option-cases (live_in level.slots slot)) [
  | inl k ↦ rw (update_live, k) w
  | inr (x, k) ↦
      let (fs, chain, same) =
        Chain-handle level.slots slot handle x k level.tail nil level.head w.queue w.linked.chain in
      let n = length-same fs w.queue same in
      let size = length-set level.slots slot (OrderSlot.live (with_handle handle x)) in
      record {
        queue = fs;
        linked = record {
          chain = rw (update_live, k) chain;
          counted = w.linked.counted ∙ sym n;
          fits = rw (update_live, k) (omega (arith, n, size, w.linked.fits));
          addressable = rw (update_live, k) (omega (arith, size, w.linked.addressable));
        };
        priced = w.priced;
        same = same ∙ w.same;
      }
]

-- The head of the queue.
head_same :
    (f e : Entry) (fs es : Queue)
    → map plain_entry (f ∷ fs) ≡ map plain_entry (e ∷ es)
    → (f.0 ≡ e.0) × (plain f.1 ≡ plain e.1) × (map plain_entry fs ≡ map plain_entry es)
head_same f e fs es h = (cc, cc, cc)

nil_cons : (e : Entry) (es : Queue) → map plain_entry [] ≢ map plain_entry (e ∷ es)
nil_cons e es h = ground arith

unlink-price : (slot : ℕ) (level : PriceLevel) → (unlink slot level).1.price ≡ level.price
unfolding unlink
unlink-price slot level = ground arith

push_tail-price :
    (o : RestingOrder) (level : PriceLevel) → (push_tail o level).1.price ≡ level.price
unfolding push_tail
push_tail-price o level = ground arith

pub unlink_head :
    (level : PriceLevel) (price : ℤ) (e : Entry) (es : Queue)
    → IsLevel level price (e ∷ es)
    → ((o : RestingOrder) × ((unlink e.0 level).0 ≡ some o))
      × IsLevel (unlink e.0 level).1 price es
      × ((unlink e.0 level).1.len ≡ length es)
unlink_head level price e es w = go w.queue w.linked w.same
  where
    go :
        (q : Queue)
        → IsQueue level q
        → map plain_entry q ≡ map plain_entry (e ∷ es)
        → ((o : RestingOrder) × ((unlink e.0 level).0 ≡ some o))
          × IsLevel (unlink e.0 level).1 price es
          × ((unlink e.0 level).1.len ≡ length es)
    go [] l h = absurd (nil_cons e es h)
    go (f ∷ fs) l h =
        let (at, _, rest) = head_same f e fs es h in
        let ((o, out, _), left) = unlink-IsQueue level [] f fs l in
        subst
          (λ (s : ℕ).
            ((o : RestingOrder) × ((unlink s level).0 ≡ some o))
            × IsLevel (unlink s level).1 price es
            × ((unlink s level).1.len ≡ length es))
          at
          (
            (o, out),
            record {
              queue = fs;
              linked = left;
              priced = unlink-price f.0 level ∙ w.priced;
              same = rest;
            },
            left.counted ∙ length-same fs es rest,
          )

-- The order at the head, as the level has it.
pub live_head :
    (level : PriceLevel) (price : ℤ) (e : Entry) (es : Queue)
    → IsLevel level price (e ∷ es)
    → (o : RestingOrder) × (get_live level e.0 ≡ some o) × (plain o ≡ plain e.1)
unfolding get_live
live_head level price e es w = go w.queue w.linked.chain w.same
  where
    go :
        (q : Queue)
        → Chain level.slots level.tail nil level.head q
        → map plain_entry q ≡ map plain_entry (e ∷ es)
        → (o : RestingOrder) × (live_in level.slots e.0 ≡ some o) × (plain o ≡ plain e.1)
    go [] k h = absurd (nil_cons e es h)
    go (f ∷ fs) (k, m, o, l, b, r, rest) h =
        let (at, same, _) = head_same f e fs es h in
        (o, ap (live_in level.slots) (sym at) ∙ l, ap plain b ∙ same)

Chain-agree :
    (slots slots' : List OrderSlot) (s tail p c : ℕ) (es : Queue)
    → ((j : ℕ) → s ≢ j → live_in slots' j ≡ live_in slots j)
    → Each (λ (x : Entry). x.0 ≢ s) es
    → Chain slots tail p c es
    → Chain slots' tail p c es
Chain-agree slots slots' s tail p c [] f w k = k
Chain-agree slots slots' s tail p c (e ∷ es) f w (k, m, o, l, b, r, rest) = (
  k,
  m,
  o,
  f e.0 (λ q. w.0 (sym q)) ∙ l,
  b,
  r,
  Chain-agree slots slots' s tail e.0 o.next es f w.1 rest,
)

abbrev pub less : ℕ → Entry → Entry
less n e = (e.0, record (e.1) { quantity = e.1.quantity - n })

reduced_rest :
    (slots : List OrderSlot) (tail p c n : ℕ) (e : Entry) (es : Queue) (o : RestingOrder)
    → live_in slots e.0 ≡ some o
    → Chain slots tail p c (e ∷ es)
    → Chain
        (set slots e.0 (OrderSlot.live (record o { quantity = o.quantity - n })))
        tail
        p
        c
        (less n e ∷ es)
reduced_rest slots tail p c n e es o held (k, m, x, l, b, r, rest) =
    let y : RestingOrder = record o { quantity = o.quantity - n } in
    let at = λ (j : ℕ). live_in-set slots e.0 j (OrderSlot.live y) (live_lt slots e.0 o held) in
    let same = some_inj x o (sym l ∙ held) in
    (
      k,
      m,
      y,
      at e.0 ∙ rw (==_refl e.0) refl,
      ap (λ (z : RestingOrder). record (bare z) { quantity = z.quantity - n }) (sym same)
          ∙ ap (λ (z : RestingOrder). record z { quantity = z.quantity - n }) b,
      ap (λ (z : RestingOrder). z.prev) (sym same) ∙ r,
      subst (λ (i : ℕ). Chain (set slots e.0 (OrderSlot.live y)) tail e.0 i es)
          (ap (λ (z : RestingOrder). z.next) same)
          (Chain-agree slots (set slots e.0 (OrderSlot.live y)) e.0 tail e.0 x.next es
            (λ j q. at j ∙ rw (off e.0 j q) refl)
            (apart_from slots tail e.0 p x.next e.0 es (e ∷ es) rest (refl, m, x, l, b, r, rest)
              (omega arith))
            rest),
    )
  where
    off : (a j : ℕ) → a ≢ j → (a == j) ≡ false
    off a j h = ground arith

reduce_quantity_runs :
    (slot n : ℕ) (level : PriceLevel) (o : RestingOrder)
    → live_in level.slots slot ≡ some o
    → n ≤ o.quantity
    → ((reduce_quantity slot n level).0 ≡ some tt)
      × ((reduce_quantity slot n level).1.slots
          ≡ set level.slots slot (OrderSlot.live (record o { quantity = o.quantity - n })))
      × ((reduce_quantity slot n level).1.head ≡ level.head)
      × ((reduce_quantity slot n level).1.tail ≡ level.tail)
      × ((reduce_quantity slot n level).1.len ≡ level.len)
      × ((reduce_quantity slot n level).1.price ≡ level.price)
unfolding reduce_quantity
reduce_quantity_runs slot n level o h k =
    rw (reduce_quantity, h, checked o.quantity n k) (refl, refl, refl, refl, refl, refl)
  where
    checked : (a b : ℕ) → b ≤ a → checked_sub a b ≡ some (a - b)
    checked a b h = ground arith

Chain-moved :
    {slots slots' : List OrderSlot} {head head' tail tail' : ℕ} (es : Queue)
    → slots' ≡ slots
    → head' ≡ head
    → tail' ≡ tail
    → Chain slots tail nil head es
    → Chain slots' tail' nil head' es
Chain-moved {slots} {slots'} {head} {head'} {tail} {tail'} es a b c k =
    subst (λ (xs : List OrderSlot). Chain xs tail' nil head' es) (sym a)
      (subst (λ (h : ℕ). Chain slots tail' nil h es) (sym b)
        (subst (λ (t : ℕ). Chain slots t nil head es) (sym c) k))

pub reduce_head :
    (level : PriceLevel) (price : ℤ) (n : ℕ) (e : Entry) (es : Queue)
    → IsLevel level price (e ∷ es)
    → n ≤ e.1.quantity
    → ((reduce_quantity e.0 n level).0 ≡ some tt)
      × IsLevel (reduce_quantity e.0 n level).1 price (less n e ∷ es)
reduce_head level price n e es w small = go w.queue w.linked w.same
  where
    go :
        (q : Queue)
        → IsQueue level q
        → map plain_entry q ≡ map plain_entry (e ∷ es)
        → ((reduce_quantity e.0 n level).0 ≡ some tt)
          × IsLevel (reduce_quantity e.0 n level).1 price (less n e ∷ es)
    go [] l h = absurd (nil_cons e es h)
    go (f ∷ fs) l h =
        let (at, same, rest) = head_same f e fs es h in
        let (k, m, o, held, b, r, tail) = l.chain in
        let enough : n ≤ o.quantity =
          subst (λ (x : ℕ). n ≤ x) (ap (λ (z : RestingOrder). z.quantity) (sym (ap plain b ∙ same)))
            small in
        let (done, slots, head, end, len, price') =
          reduce_quantity_runs f.0 n level o held enough in
        let size =
          ap length slots
          ∙ length-set level.slots f.0 (OrderSlot.live (record o { quantity = o.quantity - n })) in
        subst
          (λ (s : ℕ).
            ((reduce_quantity s n level).0 ≡ some tt)
            × IsLevel (reduce_quantity s n level).1 price (less n e ∷ es))
          at
          (
            done,
            record {
              queue = less n f ∷ fs;
              linked = record {
                chain =
                    Chain-moved (less n f ∷ fs) slots head end
                      (reduced_rest level.slots level.tail nil level.head n f fs o held l.chain);
                counted = len ∙ l.counted;
                fits = omega (arith, l.fits, size);
                addressable = omega (arith, l.addressable, size);
              };
              priced = price' ∙ w.priced;
              same =
                  ap
                    (λ (s : ℕ).
                      (s, plain (record (f.1) { quantity = f.1.quantity - n }))
                      ∷ map plain_entry fs)
                    at
                  ∙ (ap
                        (λ (z : RestingOrder).
                          (e.0, record z { quantity = z.quantity - n }) ∷ map plain_entry fs)
                        same
                      ∙ ap (◌∷◌ (plain_entry (less n e))) rest);
            },
          )

map-append : (xs ys : Queue) → map plain_entry (xs ++ ys) ≡ map plain_entry xs ++ map plain_entry ys
map-append [] ys = refl
map-append (x ∷ xs) ys = ap (◌∷◌ (plain_entry x)) (map-append xs ys)

pub push_tail-IsLevel :
    (o : RestingOrder) (level : PriceLevel) (price : ℤ) (s : ℕ) (es : Queue)
    → IsLevel level price es
    → (push_tail o level).0 ≡ some s
    → IsLevel (push_tail o level).1 price (es ++ (s, plain o) ∷ [])
push_tail-IsLevel o level price s es w h = record {
  queue = w.queue ++ (s, bare o) ∷ [];
  linked = push_tail-IsQueue o level s w.queue w.linked h;
  priced = push_tail-price o level ∙ w.priced;
  same =
      map-append w.queue ((s, bare o) ∷ [])
      ∙ (ap (λ (xs : Queue). xs ++ (s, plain o) ∷ []) w.same
          ∙ sym (map-append es ((s, plain o) ∷ [])));
}
