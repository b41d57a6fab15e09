-- ===== src/Spsc/Producing.antt =====
-- crates/hft-spsc/src/lib.rs: the producer's steps keep the invariant of a `SpscQueue`.
use hft_engine_rs.Prelude.{
  ℕ, ◌+◌, ◌%◌, ◌≤◌, ◌≡◌, refl, ap, sym, subst, ◌∙◌, false, none, some, List, [], ◌∷◌, ◌++◌, arith,
  length, get_elem?, set, length-append, append_nil, append_assoc,
}
use hft_engine_rs.Prelude.Words.{u64_limit}
use hft_engine_rs.Spsc.{
  SpscQueue, Producer, Consumer, capacity, looks_full, see_head, write, advance_tail, publish,
}
use hft_engine_rs.Spsc.Steps.{
  ProducerAt, ConsumerAt, at_rest, refreshing, writing, publishing, Published, Produces, refresh,
  proceed, refuse, admit, write_slot, store_tail, check_capacity,
}
use hft_engine_rs.Spsc.Length.{IsLength, distance, load_between}
use hft_engine_rs.Spsc.Window.{Window, Window-write}
use hft_engine_rs.Spsc.Invariant.{unpublished, taken, to_write, Inv, slot_index, ordered}

-- The next position that the producer writes is that behind the values.
module _ {A : Type 0} (n : ℕ) (r : IsLength n) (xs ys : List A) where
  produce_silent :
      (q : SpscQueue A) (p p' : Producer) (a a' : ProducerAt A) (c : Consumer) (b : ConsumerAt A)
      → unpublished a' ≡ unpublished a
      → p'.tail ≡ p.tail
      → (i : Inv n xs ys
          (record { queue = q; producer = p; producer_at = a; consumer = c; consumer_at = b }))
      → (k : ℕ) → p'.cached_head ≡ (i.producing.seen + k) % u64_limit
      → i.producing.seen + k ≤ length ys
      → length (xs ++ unpublished a) + to_write a' ≤ i.producing.seen + k + n
      → Inv n xs ys
          (record { queue = q; producer = p'; producer_at = a'; consumer = c; consumer_at = b })
  produce_silent q p p' a a' c b u t i k l m w = record {
    live = i.live;
    order = ap (λ zs. xs ++ zs) u ∙ i.order;
    window = i.window;
    tail_is = i.tail_is;
    head_is = i.head_is;
    producing = record {
      seen = i.producing.seen + k;
      remembers = l;
      behind = m;
      at = t ∙ (i.producing.at ∙ ap (λ zs. length (xs ++ zs) % u64_limit) (sym u));
      room = subst (λ zs. length (xs ++ zs) + to_write a' ≤ i.producing.seen + k + n) (sym u) w;
    };
    consuming = i.consuming;
  }

  has_room :
      (q : SpscQueue A) (p : Producer) (C T : ℕ)
      → capacity q ≡ n
      → p.cached_head ≡ C % u64_limit
      → p.tail ≡ T % u64_limit
      → C ≤ T
      → T ≤ C + n
      → looks_full q p ≡ false
      → T + 1 ≤ C + n
  has_room q p C T z h t l m f = let d = distance n r p C T h t l m in ground (arith, z, d, f, l, m)

  module _ (q : SpscQueue A) (p : Producer) (a : ProducerAt A) (c : Consumer) (b : ConsumerAt A)
      (i : Inv n xs ys
        (record { queue = q; producer = p; producer_at = a; consumer = c; consumer_at = b })) where
    -- A load moves what is remembered forward, not beyond what is published.
    loaded :
        (h : ℕ) (s : Published p.cached_head h q.head)
        → (h ≡ (i.producing.seen + s.0) % u64_limit) × (i.producing.seen + s.0 ≤ length ys)
    loaded h (k, w, e) =
        let (low, high, top, _) = ordered n xs ys q p a c b i in
        (
          omega (arith, e, i.producing.remembers),
          load_between p.cached_head q.head i.producing.seen (length ys) k i.producing.remembers
              i.head_is i.producing.behind (omega (arith, high, top, r.small)) w,
        )

module _ {A : Type 0} (n : ℕ) (r : IsLength n) (xs ys : List A) (q : SpscQueue A) (p : Producer)
    (v : A) (c : Consumer) (b : ConsumerAt A) where
  pub produce_write :
      (i : Inv n xs ys (record {
        queue = q;
        producer = p;
        producer_at = writing v;
        consumer = c;
        consumer_at = b;
      }))
      → (get_elem? q.slots (p.tail % capacity q) ≡ some none)
        × Inv n xs ys (record {
          queue = write p.tail v q;
          producer = advance_tail p;
          producer_at = publishing v;
          consumer = c;
          consumer_at = b;
        })
  produce_write i =
      let (low, high, top, count) = ordered n xs ys q p (writing v) c b i in
      let at =
        slot_index n (capacity q) p.tail (length (xs ++ []))
          (length (ys ++ taken b) + length i.live) r i.window.size i.producing.at (sym count) in
      let (fresh, held) =
        Window-write n q.slots (length (ys ++ taken b)) i.live i.window v (
          omega (arith, i.producing.room, i.producing.behind, count, length-append ys (taken b))) in
      (
        ap (get_elem? q.slots) at ∙ fresh,
        record {
          live = i.live ++ v ∷ [];
          order =
              ap (λ zs. zs ++ v ∷ []) (sym (append_nil xs) ∙ i.order)
              ∙ append_assoc (ys ++ taken b) i.live (v ∷ []);
          window =
              subst
                (λ (k : ℕ).
                  Window n (set q.slots k (some v)) (length (ys ++ taken b)) (i.live ++ v ∷ []))
                (sym at) held;
          tail_is = i.tail_is;
          head_is = i.head_is;
          producing = record {
            seen = i.producing.seen;
            remembers = i.producing.remembers;
            behind = i.producing.behind;
            at = omega (arith, i.producing.at, length-append xs (v ∷ []), length-append xs []);
            room = omega (arith, i.producing.room, length-append xs (v ∷ []), length-append xs []);
          };
          consuming = i.consuming;
        },
      )

  produce_publish :
      (i : Inv n xs ys (record {
        queue = q;
        producer = p;
        producer_at = publishing v;
        consumer = c;
        consumer_at = b;
      }))
      → Inv n (xs ++ v ∷ []) ys (record {
        queue = publish p q;
        producer = p;
        producer_at = at_rest;
        consumer = c;
        consumer_at = b;
      })
  produce_publish i = record {
    live = i.live;
    order = append_nil (xs ++ v ∷ []) ∙ i.order;
    window = i.window;
    tail_is = i.producing.at;
    head_is = i.head_is;
    producing = record {
      seen = i.producing.seen;
      remembers = i.producing.remembers;
      behind = i.producing.behind;
      at = i.producing.at ∙ ap (λ zs. length zs % u64_limit) (sym (append_nil (xs ++ v ∷ [])));
      room = omega (arith, i.producing.room, ap length (append_nil (xs ++ v ∷ [])));
    };
    consuming = record {
      seen = i.consuming.seen;
      remembers = i.consuming.remembers;
      behind = omega (arith, i.consuming.behind, length-append xs (v ∷ []));
      at = i.consuming.at;
      room = i.consuming.room;
    };
  }

-- Steps that publish nothing.
module _ {A : Type 0} (n : ℕ) (r : IsLength n) (xs ys : List A) (q : SpscQueue A) (p : Producer)
    (a : ProducerAt A) (c : Consumer) (b : ConsumerAt A)
    (i : Inv n xs ys
      (record { queue = q; producer = p; producer_at = a; consumer = c; consumer_at = b })) where
  stays :
      (a' : ProducerAt A)
      → unpublished a' ≡ unpublished a
      → length (xs ++ unpublished a) + to_write a' ≤ i.producing.seen + n
      → Inv n
          (xs ++ [])
          ys
          (record { queue = q; producer = p; producer_at = a'; consumer = c; consumer_at = b })
  stays a' u w =
      subst
        (λ zs.
          Inv n zs ys
            (record { queue = q; producer = p; producer_at = a'; consumer = c; consumer_at = b }))
        (sym (append_nil xs))
        (produce_silent n r xs ys q p p a a' c b u refl i 0 (omega (arith, i.producing.remembers))
          (omega (arith, i.producing.behind)) (omega (arith, w)))

  loads :
      (a' : ProducerAt A) (h : ℕ) (s : Published p.cached_head h q.head)
      → unpublished a' ≡ unpublished a
      → length (xs ++ unpublished a) + to_write a' ≤ i.producing.seen + s.0 + n
      → Inv n (xs ++ []) ys (record {
        queue = q;
        producer = see_head h p;
        producer_at = a';
        consumer = c;
        consumer_at = b;
      })
  loads a' h s u w =
      let (e, l) = loaded n r xs ys q p a c b i h s in
      subst
        (λ zs. Inv n zs ys (record {
          queue = q;
          producer = see_head h p;
          producer_at = a';
          consumer = c;
          consumer_at = b;
        }))
        (sym (append_nil xs))
        (produce_silent n r xs ys q p (see_head h p) a a' c b u refl i s.0 e l w)

  -- A test that does not find the ring full leaves room for one more value.
  proceeds : looks_full q p ≡ false → length (xs ++ unpublished a) + 1 ≤ i.producing.seen + n
  proceeds f =
      let (low, _, top, _) = ordered n xs ys q p a c b i in
      has_room n r xs ys q p i.producing.seen (length (xs ++ unpublished a)) i.window.size
        i.producing.remembers i.producing.at low top f

  admits :
      (h : ℕ) (s : Published p.cached_head h q.head)
      → looks_full q (see_head h p) ≡ false
      → length (xs ++ unpublished a) + 1 ≤ i.producing.seen + s.0 + n
  admits h s f =
      let (e, l) = loaded n r xs ys q p a c b i h s in
      let (_, high, top, _) = ordered n xs ys q p a c b i in
      has_room n r xs ys q (see_head h p) (i.producing.seen + s.0) (length (xs ++ unpublished a))
        i.window.size e i.producing.at (omega (arith, l, high)) (omega (arith, top)) f

pub Inv-produce :
    {A : Type 0} (n : ℕ) (r : IsLength n) (xs ys : List A) (q : SpscQueue A) (p : Producer)
    (a : ProducerAt A) (c : Consumer) (b : ConsumerAt A) (q' : SpscQueue A) (p' : Producer)
    (a' : ProducerAt A) (zs : List A)
    → Inv n xs ys
        (record { queue = q; producer = p; producer_at = a; consumer = c; consumer_at = b })
    → Produces q p a q' p' a' zs
    → Inv n
        (xs ++ zs)
        ys
        (record { queue = q'; producer = p'; producer_at = a'; consumer = c; consumer_at = b })
Inv-produce n r xs ys q p a c b q' p' a' zs i (refresh v h) =
    stays n r xs ys q p at_rest c b i (refreshing v) refl (omega (arith, i.producing.room))
Inv-produce n r xs ys q p a c b q' p' a' zs i (proceed v h) =
    stays n r xs ys q p at_rest c b i (writing v) refl (proceeds n r xs ys q p at_rest c b i h)
Inv-produce n r xs ys q p a c b q' p' a' zs i (refuse v h s f) =
    loads n r xs ys q p (refreshing v) c b i at_rest h s refl (omega (arith, i.producing.room))
Inv-produce n r xs ys q p a c b q' p' a' zs i (admit v h s f) =
    loads n r xs ys q p (refreshing v) c b i (writing v) h s refl
      (admits n r xs ys q p (refreshing v) c b i h s f)
Inv-produce n r xs ys q p a c b q' p' a' zs i (write_slot v) =
    subst
      (λ zs. Inv n zs ys (record {
        queue = write p.tail v q;
        producer = advance_tail p;
        producer_at = publishing v;
        consumer = c;
        consumer_at = b;
      }))
      (sym (append_nil xs)) (produce_write n r xs ys q p v c b i).1
Inv-produce n r xs ys q p a c b q' p' a' zs i (store_tail v) = produce_publish n r xs ys q p v c b i
Inv-produce n r xs ys q p a c b q' p' a' zs i (check_capacity h f s) =
    loads n r xs ys q p at_rest c b i at_rest h s refl (omega (arith, i.producing.room))
