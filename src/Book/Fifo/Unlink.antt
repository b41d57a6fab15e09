-- ===== src/Book/Fifo/Unlink.antt =====
-- crates/hft-book/src/lib.rs: the links of a `PriceLevel` without one of its slots.
use hft_engine_rs.Prelude.{
  ℕ, suc, ◌<◌, ◌≡◌, ◌≢◌, refl, ap, sym, subst, ◌∙◌, some, List, [], ◌∷◌, ◌++◌, arith, length, Each,
}
use hft_engine_rs.Book.Fifo.{RestingOrder, OrderSlot, nil, live_in, with_next, with_prev}
use hft_engine_rs.Book.Fifo.Queue.{Chain}

abbrev pub Entry : Type 0
Entry = ℕ × RestingOrder

pub some_inj : (a b : RestingOrder) → some a ≡ some b → a ≡ b
some_inj a b h = cc

-- The links from a slot on determine how many follow.
Chain-length :
    (slots : List OrderSlot) (tail p q c d : ℕ) (es fs : List Entry)
    → c ≡ d
    → Chain slots tail p c es
    → Chain slots tail q d fs
    → length es ≡ length fs
Chain-length slots tail p q c d [] [] h k l = refl
Chain-length slots tail p q c d [] (f ∷ fs) h k (l, m, o, w, b, r, rest) =
    absurd (m (sym l ∙ (sym h ∙ k.0)))
Chain-length slots tail p q c d (e ∷ es) [] h (l, m, o, w, b, r, rest) k =
    absurd (m (sym l ∙ (h ∙ k.0)))
Chain-length slots tail p q c d (e ∷ es) (f ∷ fs) h (k, m, o, l, b, r, rest)
      (k', m', o', l', b', r', rest') =
    let same = some_inj o o' (sym l ∙ (ap (live_in slots) (sym k ∙ (h ∙ k')) ∙ l')) in
    ap suc (
      Chain-length slots tail e.0 f.0 o.next o'.next es fs (ap (λ (x : RestingOrder). x.next) same)
        rest rest')

-- A slot is not among those of a shorter chain.
pub apart_from :
    (slots : List OrderSlot) (tail p q c a : ℕ) (es fs : List Entry)
    → Chain slots tail p c es
    → Chain slots tail q a fs
    → length es < length fs
    → Each (λ (x : Entry). x.0 ≢ a) es
apart_from slots tail p q c a [] fs k l w = tt
apart_from slots tail p q c a (e ∷ es) fs (k, m, o, l, b, r, rest) other w = (
  λ (h : e.0 ≡ a).
      (omega (
        arith,
        w,
        Chain-length slots tail p q c a (e ∷ es) fs (k ∙ h) (k, m, o, l, b, r, rest) other,
      )),
  apart_from slots tail e.0 q o.next a es fs rest other (omega (arith, w)),
)

pub Each-split :
    (P : Entry → Type 0) (xs ys : List Entry) → Each P (xs ++ ys) → Each P xs × Each P ys
Each-split P [] ys h = (tt, h)
Each-split P (x ∷ xs) ys h = let (u, v) = Each-split P xs ys h.1 in ((h.0, u), v)

-- Where the links start without the entry behind these, whose successor is `next`.
abbrev pub cursor_after : ℕ → ℕ → List Entry → ℕ
cursor_after next c [] = next
cursor_after next c (e ∷ es) = c

-- What taking out the order O of slot S does to the slots.
module _ (slots slots' : List OrderSlot) (tail tail' s : ℕ) (o : RestingOrder)
    (held : live_in slots s ≡ some o)
    (keep : (j : ℕ) (x : RestingOrder)
      → live_in slots j ≡ some x
      → j ≢ s
      → j ≢ o.prev
      → j ≢ o.next
      → live_in slots' j ≡ some x)
    (at_prev : (x : RestingOrder)
      → live_in slots o.prev ≡ some x
      → o.prev ≢ nil
      → o.prev ≢ s
      → o.prev ≢ o.next
      → live_in slots' o.prev ≡ some (with_next o.next x))
    (at_next : (x : RestingOrder)
      → live_in slots o.next ≡ some x
      → o.next ≢ nil
      → o.next ≢ s
      → o.next ≢ o.prev
      → live_in slots' o.next ≡ some (with_prev o.prev x))
    (last : o.next ≡ nil → tail' ≡ o.prev) (more : o.next ≢ nil → tail' ≡ tail) where
  Chain-kept :
      (p c : ℕ) (es : List Entry)
      → Each (λ (x : Entry). x.0 ≢ s) es
      → Each (λ (x : Entry). x.0 ≢ o.prev) es
      → Each (λ (x : Entry). x.0 ≢ o.next) es
      → Chain slots tail p c es
      → Chain slots' tail p c es
  Chain-kept p c [] u v w k = k
  Chain-kept p c (e ∷ es) u v w (k, m, x, l, b, r, rest) =
      (k, m, x, keep e.0 x l u.0 v.0 w.0, b, r, Chain-kept e.0 x.next es u.1 v.1 w.1 rest)

  -- The slot itself is the next one.
  skip :
      (p c : ℕ) (e : Entry) (bs : List Entry)
      → e.0 ≡ s
      → Each (λ (x : Entry). x.0 ≢ p) (e ∷ bs)
      → Chain slots tail p c (e ∷ bs)
      → Chain slots' tail' p o.next bs
  skip p c e [] h away (k, m, x, l, b, r, rest) =
      let same = some_inj x o (sym l ∙ (ap (live_in slots) h ∙ held)) in
      let next : x.next ≡ o.next = ap (λ (y : RestingOrder). y.next) same in
      let end = sym next ∙ rest.0 in
      (end, sym r ∙ (ap (λ (y : RestingOrder). y.prev) same ∙ sym (last end)))
  skip p c e (f ∷ fs) h away (k, m, x, l, b, r, (k', m', y, l', b', r', rest)) =
      let same = some_inj x o (sym l ∙ (ap (live_in slots) h ∙ held)) in
      let next : o.next ≡ f.0 = ap (λ (z : RestingOrder). z.next) (sym same) ∙ k' in
      let prev : o.prev ≡ p = ap (λ (z : RestingOrder). z.prev) (sym same) ∙ r in
      let behind =
        apart_from slots tail e.0 p x.next e.0 (f ∷ fs) (e ∷ (f ∷ fs)) (k', m', y, l', b', r', rest)
          (refl, m, x, l, b, r, (k', m', y, l', b', r', rest)) (omega arith) in
      let behind' =
        apart_from slots tail f.0 e.0 y.next f.0 fs (f ∷ fs) rest (refl, m', y, l', b', r', rest)
          (omega arith) in
      let moved = λ (a b : ℕ) (q : a ≡ b) (es : List Entry) (w : Each (λ (z : Entry). z.0 ≢ a) es).
        subst (λ (d : ℕ). Each (λ (z : Entry). z.0 ≢ d) es) q w in
      (
        next,
        m',
        with_prev o.prev y,
        ap (live_in slots') (sym next)
            ∙ at_next y (ap (live_in slots) next ∙ l') (λ q. m' (sym next ∙ q))
                (λ q. behind.0 (sym next ∙ (q ∙ sym h))) (λ q. away.1.0 (sym next ∙ (q ∙ prev))),
        b',
        prev,
        subst (λ (t : ℕ). Chain slots' t f.0 y.next fs) (sym (more (λ q. m' (sym next ∙ q))))
            (Chain-kept f.0 y.next fs (moved e.0 s h fs behind.1)
              (moved p o.prev (sym prev) fs away.1.1) (moved f.0 o.next (sym next) fs behind')
              rest),
      )

  -- The link of the entry before leads back to one of these.
  pub prev_among :
      (P : ℕ → Type 0) (p c : ℕ) (es : List Entry) (e : Entry) (bs : List Entry)
      → P p
      → Each (λ (x : Entry). P x.0) es
      → e.0 ≡ s
      → Chain slots tail p c (es ++ e ∷ bs)
      → P o.prev
  prev_among P p c [] e bs at w h (k, m, x, l, b, r, rest) =
      subst P
        (sym r
          ∙ ap (λ (z : RestingOrder). z.prev)
              (some_inj x o (sym l ∙ (ap (live_in slots) h ∙ held))))
        at
  prev_among P p c (f ∷ fs) e bs at w h (k, m, x, l, b, r, rest) =
      prev_among P f.0 x.next fs e bs w.0 w.1 h rest

  pub next_among :
      (P : ℕ → Type 0) (p c : ℕ) (es : List Entry) (e : Entry) (bs : List Entry)
      → P nil
      → Each (λ (x : Entry). P x.0) bs
      → e.0 ≡ s
      → Chain slots tail p c (es ++ e ∷ bs)
      → P o.next
  next_among P p c [] e [] at w h (k, m, x, l, b, r, rest) =
      subst P
        (sym rest.0
          ∙ ap (λ (z : RestingOrder). z.next)
              (some_inj x o (sym l ∙ (ap (live_in slots) h ∙ held))))
        at
  next_among P p c [] e (f ∷ fs) at w h (k, m, x, l, b, r, rest) =
      subst P
        (sym rest.0
          ∙ ap (λ (z : RestingOrder). z.next)
              (some_inj x o (sym l ∙ (ap (live_in slots) h ∙ held))))
        w.0
  next_among P p c (f ∷ fs) e bs at w h (k, m, x, l, b, r, rest) =
      next_among P f.0 x.next fs e bs at w h rest

  -- Without the slot, the links run through the others.
  pub Chain-unlink :
      (p c : ℕ) (es : List Entry) (e : Entry) (bs : List Entry)
      → e.0 ≡ s
      → Each (λ (x : Entry). x.0 ≢ p) (es ++ e ∷ bs)
      → Chain slots tail p c (es ++ e ∷ bs)
      → Chain slots' tail' p (cursor_after o.next c es) (es ++ bs)
  Chain-unlink p c [] e bs h away k = skip p c e bs h away k
  Chain-unlink p c (a ∷ []) e bs h away (k, m, x, l, b, r, rest) =
      let behind =
        apart_from slots tail a.0 p x.next a.0 (e ∷ bs) (a ∷ (e ∷ bs)) rest
          (refl, m, x, l, b, r, rest) (omega arith) in
      let prev : o.prev ≡ a.0 = prev_among (λ j. j ≡ a.0) a.0 x.next [] e bs refl tt h rest in
      let next : o.next ≢ a.0 =
        next_among (λ j. j ≢ a.0) a.0 x.next [] e bs (λ q. m (sym q)) behind.1 h rest in
      (
        k,
        m,
        with_next o.next x,
        ap (live_in slots') (sym prev)
            ∙ at_prev x (ap (live_in slots) prev ∙ l) (λ q. m (sym prev ∙ q))
                (λ q. behind.0 (h ∙ (sym q ∙ prev))) (λ q. next (sym q ∙ prev)),
        b,
        r,
        skip a.0 x.next e bs h behind rest,
      )
  Chain-unlink p c (a ∷ (g ∷ gs)) e bs h away (k, m, x, l, b, r, rest) =
      let behind =
        apart_from slots tail a.0 p x.next a.0 ((g ∷ gs) ++ e ∷ bs) (a ∷ ((g ∷ gs) ++ e ∷ bs)) rest
          (refl, m, x, l, b, r, rest) (omega arith) in
      let (front, back) = Each-split (λ (z : Entry). z.0 ≢ a.0) gs (e ∷ bs) behind.1 in
      let (kg, mg, y, lg, bg, rg, after) = rest in
      let prev : o.prev ≢ a.0 =
        prev_among (λ j. j ≢ a.0) g.0 y.next gs e bs behind.0 front h after in
      let next : o.next ≢ a.0 =
        next_among (λ j. j ≢ a.0) g.0 y.next gs e bs (λ q. m (sym q)) back.1 h after in
      (
        k,
        m,
        x,
        keep a.0 x l (λ q. back.0 (h ∙ sym q)) (λ q. prev (sym q)) (λ q. next (sym q)),
        b,
        r,
        Chain-unlink a.0 x.next (g ∷ gs) e bs h behind rest,
      )
