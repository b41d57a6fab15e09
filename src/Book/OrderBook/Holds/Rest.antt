-- ===== src/Book/OrderBook/Holds/Rest.antt =====
-- crates/hft-book/src/lib.rs: `rest_at_tail` puts an order at the end of the queue at its price.
use hft_engine_rs.Prelude.{
  ℕ, ◌+◌, ◌≤◌, ◌≡◌, ◌≢◌, refl, ap, sym, subst, ◌∙◌, Bool, true, false, Option, some, none, List, [],
  ◌∷◌, ◌++◌, map, arith, length, Each, Bool-cases, inl, inr, ==_refl, if◌then◌else◌,
}
use hft_engine_rs.Prelude.Int.{ℤ, eqb_ℤ}
use hft_engine_rs.Types.{Side, opposite}
use hft_engine_rs.Book.Levels.{before, partition_point}
use hft_engine_rs.Book.Levels.Order.{IsSorted, slot_of, before_ne, before_total, slot_of-before}
use hft_engine_rs.Book.Levels.Map.{insert_at}
use hft_engine_rs.Book.Levels.Pool.{uses, once}
use hft_engine_rs.Book.Fifo.{PriceLevel}
use hft_engine_rs.Book.Fifo.Unlink.{Entry}
use hft_engine_rs.Book.OrderBook.{OrderBook, level_at}
use hft_engine_rs.Book.OrderBook.Match.Priority.{Queue}
use hft_engine_rs.Book.OrderBook.Holds.{IsLevel, View, IsAt, Holds}
use hft_engine_rs.Book.OrderBook.Holds.Out.{unused_apart}

-- The levels of a side with an order at the end of the queue at a price, or in a level of its own, in
-- slot `at`, where that price has none.
abbrev pub joined : Bool → ℤ → ℕ → Entry → View → View
joined d price at e [] = ((price, at), e ∷ []) ∷ []
joined d price at e (v ∷ vs) =
    if before d v.0.0 price
    then v ∷ joined d price at e vs
    else if eqb_ℤ v.0.0 price
    then (v.0, v.1 ++ e ∷ []) ∷ vs
    else ((price, at), e ∷ []) ∷ (v ∷ vs)

-- From one book to another, only the level in that slot changed.
pub record ChangesAt (side : Side) (at : ℕ) (book other : OrderBook) : Type 0 where
  pub others : (j : ℕ) → at ≢ j → level_at other side j ≡ level_at book side j
  pub facing : (view : View) → Holds book (opposite side) view → Holds other (opposite side) view

Each-others :
    (side : Side) (at : ℕ) (book other : OrderBook)
    → ChangesAt side at book other
    → (vs : View) → Each (λ (w : (ℤ × ℕ) × Queue). at ≢ w.0.1) vs
    → Each (IsAt book side) vs
    → Each (IsAt other side) vs
Each-others side at book other c [] a w = tt
Each-others side at book other c (v ∷ vs) a ((level, found, l, n), w) =
    ((level, c.others v.0.1 a.0 ∙ found, l, n), Each-others side at book other c vs a.1 w)

once_self : (v : ℕ) → once v v ≡ 1
once_self v = rw (==_refl v) refl

differ : (a b : ℕ) → once a b ≡ 0 → a ≢ b
differ a b h = ground arith

if_hit : (b : Bool) (x y : ℕ) (o : Option ℕ) → b ≡ true → (if b then some x else o) ≡ some y → x ≡ y
if_hit b x y o t h = ground arith

if_miss :
    (b : Bool) (x y : ℕ) (o : Option ℕ)
    → b ≡ false
    → (if b then some x else o) ≡ some y
    → o ≡ some y
if_miss b x y o t h = ground arith

if_none :
    (b : Bool) (x : ℕ) (o : Option ℕ) → (if b then some x else o) ≡ none → (b ≡ false) × (o ≡ none)
if_none true x o h = absurd (ground arith)
if_none false x o h = (refl, h)

slot_of-uses : (p : ℤ) (at : ℕ) (es : List (ℤ × ℕ)) → slot_of p es ≡ some at → 1 ≤ uses at es
slot_of-uses p at [] h = absurd (ground arith)
slot_of-uses p at (e ∷ es) h = elim (Bool-cases (eqb_ℤ e.0 p)) [
  | inl b ↦
      subst (λ (s : ℕ). 1 ≤ once at s + uses at es)
        (sym (if_hit (eqb_ℤ e.0 p) e.1 at (slot_of p es) b h)) (omega (arith, once_self at))
  | inr b ↦ omega (arith, slot_of-uses p at es (if_miss (eqb_ℤ e.0 p) e.1 at (slot_of p es) b h))
]

eqb_same : (a b : ℤ) → eqb_ℤ a b ≡ true → a ≡ b
eqb_same a b h = ground arith

none_some : (at : ℕ) → ◌≢◌ {A = Option ℕ} none (some at)
none_some at h = ground arith

-- The level at a listed price, and what the side shows when an order joins it.
pub record IsListed (d : Bool) (side : Side) (p : ℤ) (at : ℕ) (book : OrderBook) (vs : View)
    : Type 0 where
  pub es : Queue
  pub level : PriceLevel
  pub found : level_at book side at ≡ some level
  pub held : IsLevel level p es
  pub then_joined :
      (other : OrderBook) (level' : PriceLevel) (slot : ℕ) (e : Entry)
      → ChangesAt side at book other
      → level_at other side at ≡ some level'
      → IsLevel level' p (es ++ e ∷ [])
      → (map (λ v. v.0) (joined d p slot e vs) ≡ map (λ v. v.0) vs)
        × Each (IsAt other side) (joined d p slot e vs)

pos_append : (es : Queue) (e : Entry) → 1 ≤ length (es ++ e ∷ [])
pos_append [] e = omega arith
pos_append (x ∷ es) e = omega arith

pub level-IsListed :
    (d : Bool) (side : Side) (p : ℤ) (at : ℕ) (book : OrderBook) (vs : View)
    → IsSorted d (map (λ v. v.0) vs)
    → slot_of p (map (λ v. v.0) vs) ≡ some at
    → uses at (map (λ v. v.0) vs) ≤ 1
    → Each (IsAt book side) vs
    → IsListed d side p at book vs
level-IsListed d side p at book [] s h u w = absurd (ground (arith, h))
level-IsListed d side p at book (v ∷ vs) s h u w = elim (Bool-cases (before d v.0.0 p)) [
  | inl b ↦
      let later =
        if_miss (eqb_ℤ v.0.0 p) v.0.1 at (slot_of p (map (λ v. v.0) vs)) (before_ne d v.0.0 p b)
          h in
      let used = slot_of-uses p at (map (λ v. v.0) vs) later in
      let r = level-IsListed d side p at book vs s.1 later (omega (arith, u)) w.1 in
      record {
        es = r.es;
        level = r.level;
        found = r.found;
        held = r.held;
        then_joined = λ other level' slot e c f l.
            let (same, each) = r.then_joined other level' slot e c f l in
            rw b (
              ap (◌∷◌ v.0) same,
              (
                (Each-others side at book other c (v ∷ [])
                    (differ at v.0.1 (omega (arith, u, used)), tt) (w.0, tt)).0,
                each,
              ),
            );
      }
  | inr b ↦ elim (Bool-cases (eqb_ℤ v.0.0 p)) [
    | inr q ↦ absurd (none_some at (sym (unlisted b q) ∙ h))
    | inl q ↦
        let slot_at = if_hit (eqb_ℤ v.0.0 p) v.0.1 at (slot_of p (map (λ v. v.0) vs)) q h in
        let (level, found, l, n) = w.0 in
        let price = eqb_same v.0.0 p q in
        record {
          es = v.1;
          level = level;
          found = subst (λ (s : ℕ). level_at book side s ≡ some level) slot_at found;
          held = subst (λ (x : ℤ). IsLevel level x v.1) price l;
          then_joined = λ other level' slot e c f l'.
              rw (b, q)
                (
                  refl,
                  (
                    (
                      level',
                      subst (λ (s : ℕ). level_at other side s ≡ some level') (sym slot_at) f,
                      subst (λ (x : ℤ). IsLevel level' x (v.1 ++ e ∷ [])) (sym price) l',
                      pos_append v.1 e,
                    ),
                    Each-others side at book other c vs
                        (unused_apart at vs (omega (arith, u, own slot_at))) w.1,
                  ),
                );
        }
  ]
]
  where
    own : v.0.1 ≡ at → once at v.0.1 ≡ 1
    own e = ap (once at) e ∙ once_self at

    unlisted :
        before d v.0.0 p ≡ false
        → eqb_ℤ v.0.0 p ≡ false
        → slot_of p (map (λ v. v.0) (v ∷ vs)) ≡ none
    unlisted b q = slot_of-before d p (map (λ v. v.0) (v ∷ vs)) (before_total d v.0.0 p b q) s

-- A price that is not listed gets a level of its own, in its place.
pub joined_new :
    (d : Bool) (side : Side) (p : ℤ) (at : ℕ) (book other : OrderBook) (level : PriceLevel)
    (e : Entry) (vs : View)
    → slot_of p (map (λ v. v.0) vs) ≡ none
    → Each (λ (w : (ℤ × ℕ) × Queue). at ≢ w.0.1) vs
    → ChangesAt side at book other
    → level_at other side at ≡ some level
    → IsLevel level p (e ∷ [])
    → Each (IsAt book side) vs
    → (map (λ v. v.0) (joined d p at e vs)
        ≡ insert_at (partition_point d p (map (λ v. v.0) vs)) (p, at) (map (λ v. v.0) vs))
      × Each (IsAt other side) (joined d p at e vs)
joined_new d side p at book other level e [] h a c f l w = (refl, ((level, f, l, omega arith), tt))
joined_new d side p at book other level e (v ∷ vs) h a c f l w =
    let (missed, later) = if_none (eqb_ℤ v.0.0 p) v.0.1 (slot_of p (map (λ v. v.0) vs)) h in
    let kept = Each-others side at book other c (v ∷ vs) a w in
    elim (Bool-cases (before d v.0.0 p)) [
      | inl b ↦
          let (same, each) = joined_new d side p at book other level e vs later a.1 c f l w.1 in
          rw b (ap (◌∷◌ v.0) same, (kept.0, each))
      | inr b ↦ rw (b, missed) (refl, ((level, f, l, omega arith), kept))
    ]
