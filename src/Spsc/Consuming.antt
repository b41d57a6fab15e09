-- ===== src/Spsc/Consuming.antt =====
-- crates/hft-spsc/src/lib.rs: the consumer's steps keep the invariant of a `SpscQueue`.
use hft_engine_rs.Prelude.{
  ℕ, ◌+◌, ◌%◌, ◌==◌, ◌≤◌, ◌<◌, ◌≡◌, refl, ap, sym, subst, ◌∙◌, false, none, some, List, [], ◌∷◌,
  ◌++◌, arith, length, get_elem?, set, length-append, append_nil, append_assoc,
}
use hft_engine_rs.Prelude.Words.{u64_limit}
use hft_engine_rs.Spsc.{
  SpscQueue, Producer, Consumer, capacity, looks_empty, see_tail, held_at, move_out, advance_head,
  reclaim,
}
use hft_engine_rs.Spsc.Steps.{
  ProducerAt, ConsumerAt, waiting, refreshing_tail, reading, reclaiming, Published, Consumes,
  refresh_tail, proceed_head, give_up, find, read_slot, store_head,
}
use hft_engine_rs.Spsc.Length.{IsLength, load_between}
use hft_engine_rs.Spsc.Window.{Window, Window-read}
use hft_engine_rs.Spsc.Invariant.{
  unpublished, taken, to_read, Inv, slot_index, ordered, get_or-get_elem?,
}

-- Positions that differ on the ring of positions differ.
apart :
    (head tail H D : ℕ)
    → head ≡ H % u64_limit
    → tail ≡ D % u64_limit
    → H ≤ D
    → (head == tail) ≡ false
    → H + 1 ≤ D
apart head tail H D h t l f = ground (arith, h, t, l, f)

module _ {A : Type 0} (n : ℕ) (r : IsLength n) (xs ys : List A) (q : SpscQueue A) (p : Producer)
    (a : ProducerAt A) (c : Consumer) (b : ConsumerAt A)
    (i : Inv n xs ys
      (record { queue = q; producer = p; producer_at = a; consumer = c; consumer_at = b })) where
  consume_silent :
      (c' : Consumer) (b' : ConsumerAt A) (k : ℕ)
      → taken b' ≡ taken b
      → c'.head ≡ c.head
      → c'.cached_tail ≡ (i.consuming.seen + k) % u64_limit
      → i.consuming.seen + k ≤ length xs
      → length (ys ++ taken b) + to_read b' ≤ i.consuming.seen + k
      → Inv n xs
          (ys ++ [])
          (record { queue = q; producer = p; producer_at = a; consumer = c'; consumer_at = b' })
  consume_silent c' b' k u t l m w =
      subst
        (λ zs.
          Inv n xs zs
            (record { queue = q; producer = p; producer_at = a; consumer = c'; consumer_at = b' }))
        (sym (append_nil ys))
        (record {
          live = i.live;
          order = i.order ∙ ap (λ zs. (ys ++ zs) ++ i.live) (sym u);
          window = subst (λ zs. Window n q.slots (length (ys ++ zs)) i.live) (sym u) i.window;
          tail_is = i.tail_is;
          head_is = i.head_is;
          producing = i.producing;
          consuming = record {
            seen = i.consuming.seen + k;
            remembers = l;
            behind = m;
            at = t ∙ (i.consuming.at ∙ ap (λ zs. length (ys ++ zs) % u64_limit) (sym u));
            room = subst (λ zs. length (ys ++ zs) + to_read b' ≤ i.consuming.seen + k) (sym u) w;
          };
        })

  -- Published values are not more than the ring holds.
  near : length xs < i.consuming.seen + u64_limit
  near =
      let (_, _, top, _) = ordered n xs ys q p a c b i in
      omega (
        arith,
        top,
        length-append xs (unpublished a),
        length-append ys (taken b),
        i.producing.behind,
        i.consuming.room,
        r.small,
      )

  seen_tail :
      (t : ℕ) (s : Published c.cached_tail t q.tail)
      → (t ≡ (i.consuming.seen + s.0) % u64_limit) × (i.consuming.seen + s.0 ≤ length xs)
  seen_tail t (k, w, e) = (
    omega (arith, e, i.consuming.remembers),
    load_between c.cached_tail q.tail i.consuming.seen (length xs) k i.consuming.remembers i.tail_is
        i.consuming.behind near w,
  )

  -- A test that does not find the ring empty has seen one more value.
  proceeds : looks_empty c ≡ false → length (ys ++ taken b) + 1 ≤ i.consuming.seen
  proceeds f =
      apart c.head c.cached_tail (length (ys ++ taken b)) i.consuming.seen i.consuming.at
        i.consuming.remembers (omega (arith, i.consuming.room)) f

  finds :
      (t : ℕ) (s : Published c.cached_tail t q.tail)
      → looks_empty (see_tail t c) ≡ false
      → length (ys ++ taken b) + 1 ≤ i.consuming.seen + s.0
  finds t s f =
      apart c.head t (length (ys ++ taken b)) (i.consuming.seen + s.0) i.consuming.at
        (seen_tail t s).0 (omega (arith, i.consuming.room)) f

some_inj : {A : Type 0} (u v : A) → some u ≡ some v → u ≡ v
some_inj u v h = cc

uncons : {A : Type 0} (xs : List A) → 0 < length xs → (x : A) × (rest : List A) × (xs ≡ x ∷ rest)
uncons [] h = absurd (omega arith)
uncons (x ∷ xs) h = (x, xs, refl)

module _ {A : Type 0} (n : ℕ) (r : IsLength n) (xs ys : List A) (q : SpscQueue A) (p : Producer)
    (a : ProducerAt A) (c : Consumer) where
  -- Before a read, the slot holds the first of the values.
  pub first_value :
      (i : Inv n xs ys
        (record { queue = q; producer = p; producer_at = a; consumer = c; consumer_at = reading }))
      → (v : A) × (rest : List A) × (i.live ≡ v ∷ rest)
        × (held_at c.head q ≡ some v)
        × Window n (set q.slots (c.head % capacity q) none) (length (ys ++ []) + 1) rest
  first_value i =
      let (low, high, top, count) = ordered n xs ys q p a c reading i in
      let (v, rest, e) = uncons i.live (
        omega
          (arith, count, i.consuming.room, i.consuming.behind, length-append xs (unpublished a))) in
      let at =
        slot_index n (capacity q) c.head (length (ys ++ [])) (length (ys ++ [])) r i.window.size
          i.consuming.at refl in
      let (there, moved) =
        Window-read n q.slots (length (ys ++ [])) v rest
          (subst (Window n q.slots (length (ys ++ []))) e i.window) in
      (
        v,
        rest,
        e,
        get_or-get_elem? q.slots (c.head % capacity q) (some v) none
            (ap (get_elem? q.slots) at ∙ there),
        subst (λ (k : ℕ). Window n (set q.slots k none) (length (ys ++ []) + 1) rest) (sym at)
            moved,
      )

  consume_read :
      (v : A)
      → (i : Inv n xs ys (record {
        queue = q;
        producer = p;
        producer_at = a;
        consumer = c;
        consumer_at = reading;
      }))
      → held_at c.head q ≡ some v
      → Inv n xs ys (record {
        queue = move_out c.head q;
        producer = p;
        producer_at = a;
        consumer = advance_head c;
        consumer_at = reclaiming v;
      })
  consume_read v i h =
      let (u, rest, e, there, moved) = first_value i in
      let same : u ≡ v = some_inj u v (sym there ∙ h) in
      let more : length (ys ++ []) + 1 ≡ length (ys ++ v ∷ []) =
        omega (arith, length-append ys (v ∷ []), length-append ys []) in
      record {
        live = rest;
        order =
            i.order
            ∙ (ap (λ zs. (ys ++ []) ++ zs) (e ∙ ap (λ (x : A). x ∷ rest) same)
                ∙ (ap (λ zs. zs ++ v ∷ rest) (append_nil ys)
                    ∙ sym (append_assoc ys (v ∷ []) rest)));
        window =
            subst (λ (k : ℕ). Window n (set q.slots (c.head % capacity q) none) k rest) more moved;
        tail_is = i.tail_is;
        head_is = i.head_is;
        producing = i.producing;
        consuming = record {
          seen = i.consuming.seen;
          remembers = i.consuming.remembers;
          behind = i.consuming.behind;
          at = omega (arith, i.consuming.at, more);
          room = omega (arith, i.consuming.room, more);
        };
      }

  consume_store :
      (v : A)
      → (i : Inv n xs ys (record {
        queue = q;
        producer = p;
        producer_at = a;
        consumer = c;
        consumer_at = reclaiming v;
      }))
      → Inv n xs (ys ++ v ∷ []) (record {
        queue = reclaim c q;
        producer = p;
        producer_at = a;
        consumer = c;
        consumer_at = waiting;
      })
  consume_store v i =
      let e = sym (append_nil (ys ++ v ∷ [])) in
      record {
        live = i.live;
        order = i.order ∙ ap (λ zs. zs ++ i.live) e;
        window = subst (λ zs. Window n q.slots (length zs) i.live) e i.window;
        tail_is = i.tail_is;
        head_is = i.consuming.at;
        producing = record {
          seen = i.producing.seen;
          remembers = i.producing.remembers;
          behind = omega (arith, i.producing.behind, length-append ys (v ∷ []));
          at = i.producing.at;
          room = i.producing.room;
        };
        consuming = record {
          seen = i.consuming.seen;
          remembers = i.consuming.remembers;
          behind = i.consuming.behind;
          at = i.consuming.at ∙ ap (λ zs. length zs % u64_limit) e;
          room = omega (arith, i.consuming.room, ap length e);
        };
      }

pub Inv-consume :
    {A : Type 0} (n : ℕ) (r : IsLength n) (xs ys : List A) (q : SpscQueue A) (p : Producer)
    (a : ProducerAt A) (c : Consumer) (b : ConsumerAt A) (q' : SpscQueue A) (c' : Consumer)
    (b' : ConsumerAt A) (zs : List A)
    → Inv n xs ys
        (record { queue = q; producer = p; producer_at = a; consumer = c; consumer_at = b })
    → Consumes q c b q' c' b' zs
    → Inv n xs
        (ys ++ zs)
        (record { queue = q'; producer = p; producer_at = a; consumer = c'; consumer_at = b' })
Inv-consume n r xs ys q p a c b q' c' b' zs i (refresh_tail h) =
    consume_silent n r xs ys q p a c waiting i c refreshing_tail 0 refl refl
      (omega (arith, i.consuming.remembers)) (omega (arith, i.consuming.behind))
      (omega (arith, i.consuming.room))
Inv-consume n r xs ys q p a c b q' c' b' zs i (proceed_head h) =
    consume_silent n r xs ys q p a c waiting i c reading 0 refl refl
      (omega (arith, i.consuming.remembers)) (omega (arith, i.consuming.behind))
      (omega (arith, proceeds n r xs ys q p a c waiting i h))
Inv-consume n r xs ys q p a c b q' c' b' zs i (give_up t s h) =
    let (e, l) = seen_tail n r xs ys q p a c refreshing_tail i t s in
    consume_silent n r xs ys q p a c refreshing_tail i (see_tail t c) waiting s.0 refl refl e l
      (omega (arith, i.consuming.room))
Inv-consume n r xs ys q p a c b q' c' b' zs i (find t s h) =
    let (e, l) = seen_tail n r xs ys q p a c refreshing_tail i t s in
    consume_silent n r xs ys q p a c refreshing_tail i (see_tail t c) reading s.0 refl refl e l
      (finds n r xs ys q p a c refreshing_tail i t s h)
Inv-consume n r xs ys q p a c b q' c' b' zs i (read_slot v h) =
    subst
      (λ zs. Inv n xs zs (record {
        queue = move_out c.head q;
        producer = p;
        producer_at = a;
        consumer = advance_head c;
        consumer_at = reclaiming v;
      }))
      (sym (append_nil ys)) (consume_read n r xs ys q p a c v i h)
Inv-consume n r xs ys q p a c b q' c' b' zs i (store_head v) = consume_store n r xs ys q p a c v i
