-- ===== src/Book/Levels/Order.antt =====
-- crates/hft-book/src/lib.rs: sorted price directories as finite maps from prices to level slots.
use hft_engine_rs.Prelude.{
  ℕ, ◌≡◌, refl, List, [], ◌∷◌, Option, none, some, arith, get_elem?, Bool, true, false, Bool-cases,
  inl, inr, if◌then◌else◌,
}
use hft_engine_rs.Prelude.Int.{ℤ, eqb_ℤ}
use hft_engine_rs.Book.Levels.{before, partition_point}

-- Each price stands strictly before the next.
abbrev pub Precedes : Bool → ℤ → List (ℤ × ℕ) → Type 0
Precedes d p [] = Unit {0}
Precedes d p (e ∷ es) = before d p e.0 ≡ true

abbrev pub IsSorted : Bool → List (ℤ × ℕ) → Type 0
IsSorted d [] = Unit {0}
IsSorted d (e ∷ es) = Precedes d e.0 es × IsSorted d es

-- The slot listed for a price.
abbrev pub slot_of : ℤ → List (ℤ × ℕ) → Option ℕ
slot_of p [] = none
slot_of p (e ∷ es) = if eqb_ℤ e.0 p then some e.1 else slot_of p es

pub before_trans :
    (d : Bool) (a b c : ℤ) → before d a b ≡ true → before d b c ≡ true → before d a c ≡ true
before_trans true a b c h k = ground arith
before_trans false a b c h k = ground arith

pub before_ne : (d : Bool) (a b : ℤ) → before d a b ≡ true → eqb_ℤ a b ≡ false
before_ne true a b h = ground arith
before_ne false a b h = ground arith

pub after_ne : (d : Bool) (a b : ℤ) → before d a b ≡ true → eqb_ℤ b a ≡ false
after_ne true a b h = ground arith
after_ne false a b h = ground arith

pub before_total :
    (d : Bool) (a b : ℤ) → before d a b ≡ false → eqb_ℤ a b ≡ false → before d b a ≡ true
before_total true a b h k = ground arith
before_total false a b h k = ground arith

-- A price before the first is not listed.
pub slot_of-before :
    (d : Bool) (p : ℤ) (es : List (ℤ × ℕ)) → Precedes d p es → IsSorted d es → slot_of p es ≡ none
slot_of-before d p [] h s = refl
slot_of-before d p ((q, v) ∷ []) h s = rw (after_ne d p q h)
slot_of-before d p ((q, v) ∷ ((r, w) ∷ es)) h s =
    rw (after_ne d p q h) (slot_of-before d p ((r, w) ∷ es) (before_trans d p q r h s.0) s.1)

abbrev pub hit : ℤ → Option (ℤ × ℕ) → Option ℕ
hit p none = none
hit p (some e) = if eqb_ℤ e.0 p then some e.1 else none

-- The entry at the partition point is the one to look at.
pub hit-partition_point :
    (d : Bool) (p : ℤ) (es : List (ℤ × ℕ))
    → IsSorted d es
    → hit p (get_elem? es (partition_point d p es)) ≡ slot_of p es
hit-partition_point d p [] s = refl
hit-partition_point d p ((q, v) ∷ es) s = elim (Bool-cases (before d q p)) [
  | inl b ↦ rw (b, before_ne d q p b) (hit-partition_point d p es s.1)
  | inr b ↦ rw b (ends b)
]
  where
    ends :
        before d q p ≡ false
        → (if eqb_ℤ q p then some v else none) ≡ (if eqb_ℤ q p then some v else slot_of p es)
    ends b = elim (Bool-cases (eqb_ℤ q p)) [
      | inl e ↦ rw e
      | inr e ↦ rw (e, slot_of-before d p es (below es b e s.0 s.1) s.1)
    ]
      where
        below :
            (fs : List (ℤ × ℕ))
            → before d q p ≡ false
            → eqb_ℤ q p ≡ false
            → Precedes d q fs
            → IsSorted d fs
            → Precedes d p fs
        below [] b e h t = tt
        below ((r, w) ∷ fs) b e h t = before_trans d p q r (before_total d q p b e) h
