-- ===== src/Book/OrderBook/Holds/Out.antt =====
-- crates/hft-book/src/lib.rs: `unlink_order` and `reduce_order` on the order that is first on its side.
use hft_engine_rs.Prelude.{
  ok, ℕ, suc, ◌≤◌, ◌==◌, ◌≡◌, ◌≢◌, refl, ap, sym, subst, ◌∙◌, Bool, Option, none, some, List, [],
  ◌∷◌, map, arith, length, Each, true, false, ==_refl, ltb, if◌then◌else◌,
}
use hft_engine_rs.Prelude.Int.{ℤ, eqb_ℤ}
use hft_engine_rs.Types.{Side, is_buy, opposite}
use hft_engine_rs.Book.Levels
use hft_engine_rs.Book.Levels.{LevelIndex, listed, before}
use hft_engine_rs.Book.Levels.Order.{slot_of}
use hft_engine_rs.Book.Levels.Map.{remove_from}
use hft_engine_rs.Book.Levels.Directory.{find_lem, entries-remove, place}
use hft_engine_rs.Book.Levels.Pool.{uses, occurrences, once}
use hft_engine_rs.Book.Fifo.{PriceLevel, RestingOrder, unlink, reduce_quantity}
use hft_engine_rs.Book.Fifo.Unlink.{Entry}
use hft_engine_rs.Book.OrderBook.{
  OrderBook, side_index, level_at, put_level, put_index, unlink_order, close_level,
}
use hft_engine_rs.Book.OrderBook.Change.{reduce_order}
use hft_engine_rs.Book.OrderBook.Sides.{IsSound, put_level-index}
use hft_engine_rs.Book.OrderBook.Match.Priority.{Queue}
use hft_engine_rs.Book.OrderBook.Holds.{
  IsLevel, View, Holds, Each-IsAt, level_at_lt, level_at-put, level_at-put_ne, level_at-put_index,
  side_index-put, put_level-opposite, put_index-opposite,
}
use hft_engine_rs.Book.OrderBook.Holds.Level.{unlink_head, reduce_head, less}

-- The levels of a side without the first orders of its first level.
abbrev pub dropped : ℤ × ℕ → Queue → View → View
dropped v [] vs = vs
dropped v (e ∷ es) vs = (v, e ∷ es) ∷ vs

pub one_at_most : (s levels n : ℕ) → n ≡ (if ltb s levels then 1 else 0) → n ≤ 1
one_at_most s levels n h = ground arith

pub unused_apart :
    (s : ℕ) (vs : View)
    → uses s (map (λ v. v.0) vs) ≡ 0
    → Each (λ (w : (ℤ × ℕ) × Queue). s ≢ w.0.1) vs
unused_apart s [] h = tt
unused_apart s (v ∷ vs) h =
    (differ s v.0.1 (omega (arith, h)), unused_apart s vs (omega (arith, h)))
  where
    differ : (a b : ℕ) → once a b ≡ 0 → a ≢ b
    differ a b h = ground arith

-- The levels behind the first have slots of their own.
module _ (levels : ℕ) (book : OrderBook) (side : Side) (v : ℤ × ℕ) (q : Queue) (vs : View)
    (sound : IsSound levels book) (held : Holds book side ((v, q) ∷ vs)) where
  pub apart : Each (λ (w : (ℤ × ℕ) × Queue). v.1 ≢ w.0.1) vs
  apart =
      let total =
        one_at_most v.1 levels (occurrences v.1 (side_index book side)) ((sound.at side).1 v.1) in
      let shown = ap (uses v.1) held.entries in
      unused_apart v.1 vs (omega (arith, total, shown, once_self v.1))
    where
      once_self : (s : ℕ) → once s s ≡ 1
      once_self s = rw (==_refl s) refl

  Each-off :
      (x : Option PriceLevel) (ws : View)
      → Each (λ (w : (ℤ × ℕ) × Queue). v.1 ≢ w.0.1) ws
      → Each (λ w. level_at (put_level side v.1 x book) side w.0.1 ≡ level_at book side w.0.1) ws
  Each-off x [] h = tt
  Each-off x (w ∷ ws) h = (level_at-put_ne book side v.1 w.0.1 x h.0, Each-off x ws h.1)

  -- Another level with the same price in place of the first.
  pub put-head :
      (level : PriceLevel) (es : Queue)
      → IsLevel level v.0 es
      → 1 ≤ length es
      → Holds (put_level side v.1 (some level) book) side ((v, es) ∷ vs)
  put-head level es l n = record {
    entries = ap listed (put_level-index side side v.1 (some level) book) ∙ held.entries;
    levels = (
      (
        level,
        level_at-put book side v.1 (some level)
            (level_at_lt book side v.1 held.levels.0.0 held.levels.0.1),
        l,
        n,
      ),
      Each-IsAt book (put_level side v.1 (some level) book) side vs (Each-off (some level) vs apart)
          held.levels.1,
    );
  }

  first_listed : Levels.find (side_index book side) v.0 (is_buy side) ≡ some v.1
  first_listed =
      find_lem (is_buy side) v.0 levels (side_index book side) (sound.at side).0
      ∙ (ap (slot_of v.0) held.entries ∙ rw (eqb_self v.0) refl)
    where
      eqb_self : (p : ℤ) → eqb_ℤ p p ≡ true
      eqb_self p = ground arith

  first_place : place (is_buy side) v.0 (side_index book side) ≡ 0
  first_place =
      ap (Levels.partition_point (is_buy side) v.0) held.entries
      ∙ rw (before_self (is_buy side) v.0) refl
    where
      before_self : (d : Bool) (p : ℤ) → before d p p ≡ false
      before_self true p = ground arith
      before_self false p = ground arith

  removed_first :
      listed (Levels.remove v.0 (is_buy side) (side_index book side)).1 ≡ map (λ w. w.0) vs
  removed_first =
      entries-remove (is_buy side) v.0 v.1 levels (side_index book side) (sound.at side).0
        first_listed
      ∙ (ap (λ (i : ℕ). remove_from i (listed (side_index book side))) first_place
          ∙ ap (λ (xs : List (ℤ × ℕ)). remove_from 0 xs) held.entries)

  -- Closing the first level leaves the others.
  pub close-head :
      (x : Option PriceLevel) → Holds (close_level side v.1 v.0 (put_level side v.1 x book)) side vs
  unfolding close_level
  close-head x =
      let index =
        (Levels.remove v.0 (is_buy side) (side_index (put_level side v.1 x book) side)).1 in
      let emptied = put_level side v.1 none (put_level side v.1 x book) in
      record {
        entries =
            ap listed (side_index-put emptied side index)
            ∙ (ap (λ (i : LevelIndex). listed (Levels.remove v.0 (is_buy side) i).1)
                  (put_level-index side side v.1 x book)
                ∙ removed_first);
        levels =
            Each-IsAt book (put_index side index emptied) side vs (Each_off2 index x vs apart)
              held.levels.1;
      }
    where
      Each_off2 :
          (index : LevelIndex) (x : Option PriceLevel) (ws : View)
          → Each (λ (w : (ℤ × ℕ) × Queue). v.1 ≢ w.0.1) ws
          → Each
              (λ w.
                level_at
                  (put_index side index (put_level side v.1 none (put_level side v.1 x book)))
                  side
                  w.0.1
                ≡ level_at book side w.0.1)
              ws
      Each_off2 index x [] h = tt
      Each_off2 index x (w ∷ ws) h = (
        level_at-put_index (put_level side v.1 none (put_level side v.1 x book)) side index w.0.1
            ∙ (level_at-put_ne (put_level side v.1 x book) side v.1 w.0.1 none h.0
                ∙ level_at-put_ne book side v.1 w.0.1 x h.0),
        Each_off2 index x ws h.1,
      )

pub unlink_order_runs :
    (book : OrderBook) (side : Side) (at slot : ℕ) (level : PriceLevel) (o : RestingOrder)
    → level_at book side at ≡ some level
    → (unlink slot level).0 ≡ some o
    → unlink_order side at slot book ≡ (
      ok o,
      (if (unlink slot level).1.len == 0
          then close_level side at level.price (put_level side at (some (unlink slot level).1) book)
          else put_level side at (some (unlink slot level).1) book),
    )
unfolding unlink_order
unlink_order_runs book side at slot level o h k = rw (unlink_order, h, k) refl

pub reduce_order_runs :
    (book : OrderBook) (side : Side) (at slot n : ℕ) (level : PriceLevel)
    → level_at book side at ≡ some level
    → (reduce_quantity slot n level).0 ≡ some tt
    → reduce_order side at slot n book
      ≡ (ok tt, put_level side at (some (reduce_quantity slot n level).1) book)
unfolding reduce_order
reduce_order_runs book side at slot n level h k = rw (reduce_order, h, k) refl

abbrev pub HoldsSides : OrderBook → Side → View → View → Type 0
HoldsSides book side view facing = Holds book side view × Holds book (opposite side) facing

empty_test : (n : ℕ) → n ≡ 0 → (n == 0) ≡ true
empty_test n h = ground arith

full_test : (n m : ℕ) → n ≡ suc m → (n == 0) ≡ false
full_test n m h = ground arith

close_level-opposite :
    (book : OrderBook) (side : Side) (at : ℕ) (price : ℤ) (x : Option PriceLevel) (facing : View)
    → Holds book (opposite side) facing
    → Holds (close_level side at price (put_level side at x book)) (opposite side) facing
unfolding close_level
close_level-opposite book side at price x facing w =
    put_index-opposite _ side _ facing
      (put_level-opposite _ side at none facing (put_level-opposite book side at x facing w))

-- Taking out the first order of a side leaves the others.
pub unlink_order-Holds :
    (levels : ℕ) (book : OrderBook) (side : Side) (v : ℤ × ℕ) (e : Entry) (es : Queue)
    (vs facing : View)
    → IsSound levels book
    → HoldsSides book side ((v, e ∷ es) ∷ vs) facing
    → ((o : RestingOrder) × ((unlink_order side v.1 e.0 book).0 ≡ ok o))
      × HoldsSides (unlink_order side v.1 e.0 book).1 side (dropped v es vs) facing
unlink_order-Holds levels book side v e es vs facing sound (held, other) =
    let (level, found, l, _) = held.levels.0 in
    let ((o, out), left, len) = unlink_head level v.0 e es l in
    rw (unlink_order_runs book side v.1 e.0 level o found out)
      ((o, refl), ends es level l.priced left len)
  where
    ends :
        (es : Queue) (level : PriceLevel)
        → level.price ≡ v.0
        → IsLevel (unlink e.0 level).1 v.0 es
        → (unlink e.0 level).1.len ≡ length es
        → HoldsSides
            (if (unlink e.0 level).1.len == 0
              then close_level side v.1 level.price
                  (put_level side v.1 (some (unlink e.0 level).1) book)
              else put_level side v.1 (some (unlink e.0 level).1) book)
            side
            (dropped v es vs)
            facing
    ends [] level p l n =
        subst
          (λ (b : Bool).
            HoldsSides
              (if b
                then close_level side v.1 level.price
                    (put_level side v.1 (some (unlink e.0 level).1) book)
                else put_level side v.1 (some (unlink e.0 level).1) book)
              side vs facing)
          (sym (empty_test (unlink e.0 level).1.len n))
          (subst
            (λ (p : ℤ).
              HoldsSides
                (close_level side v.1 p (put_level side v.1 (some (unlink e.0 level).1) book)) side
                vs facing)
            (sym p)
            (
              close-head levels book side v (e ∷ es) vs sound held (some (unlink e.0 level).1),
              close_level-opposite book side v.1 v.0 (some (unlink e.0 level).1) facing other,
            ))
    ends (x ∷ xs) level p l n =
        subst
          (λ (b : Bool).
            HoldsSides
              (if b
                then close_level side v.1 level.price
                    (put_level side v.1 (some (unlink e.0 level).1) book)
                else put_level side v.1 (some (unlink e.0 level).1) book)
              side ((v, x ∷ xs) ∷ vs) facing)
          (sym (full_test (unlink e.0 level).1.len (length xs) n))
          (
            put-head levels book side v (e ∷ es) vs sound held (unlink e.0 level).1 (x ∷ xs) l
                (omega arith),
            put_level-opposite book side v.1 (some (unlink e.0 level).1) facing other,
          )

-- Reducing the first order of a side leaves it in its place.
pub reduce_order-Holds :
    (levels : ℕ) (book : OrderBook) (side : Side) (n : ℕ) (v : ℤ × ℕ) (e : Entry) (es : Queue)
    (vs facing : View)
    → IsSound levels book
    → HoldsSides book side ((v, e ∷ es) ∷ vs) facing
    → n ≤ e.1.quantity
    → HoldsSides (reduce_order side v.1 e.0 n book).1 side ((v, less n e ∷ es) ∷ vs) facing
reduce_order-Holds levels book side n v e es vs facing sound (held, other) small =
    let (level, found, l, _) = held.levels.0 in
    let (done, left) = reduce_head level v.0 n e es l small in
    rw (reduce_order_runs book side v.1 e.0 n level found done) (
      put-head levels book side v (e ∷ es) vs sound held (reduce_quantity e.0 n level).1
          (less n e ∷ es) left (omega arith),
      put_level-opposite book side v.1 (some (reduce_quantity e.0 n level).1) facing other,
    )
