-- ===== src/Book/Levels/Map.antt =====
-- crates/hft-book/src/lib.rs: what `LevelIndex::insert` and `LevelIndex::remove` do to the entries in
-- order.
use hft_engine_rs.Prelude.{
  ℕ, zero, suc, ◌≤◌, ◌≡◌, refl, sym, subst, ◌∙◌, List, [], ◌∷◌, ◌++◌, Option, none, some, arith,
  length, take, drop, Bool, true, false, Bool-cases, inl, inr, if◌then◌else◌,
}
use hft_engine_rs.Prelude.Int.{ℤ, eqb_ℤ}
use hft_engine_rs.Book.Levels.{before, partition_point}
use hft_engine_rs.Book.Levels.Order.{
  IsSorted, Precedes, slot_of, slot_of-before, before_trans, before_ne, before_total,
}

abbrev pub insert_at : ℕ → ℤ × ℕ → List (ℤ × ℕ) → List (ℤ × ℕ)
insert_at at e es = take at es ++ e ∷ drop at es

abbrev pub remove_from : ℕ → List (ℤ × ℕ) → List (ℤ × ℕ)
remove_from at es = take at es ++ drop (suc at) es

pub partition_point_le : (d : Bool) (p : ℤ) (es : List (ℤ × ℕ)) → partition_point d p es ≤ length es
partition_point_le d p [] = omega arith
partition_point_le d p (e ∷ es) = elim (Bool-cases (before d e.0 p)) [
  | inl b ↦ rw b (omega (arith, partition_point_le d p es))
  | inr b ↦ rw b (omega arith)
]

eqb_same : (a b : ℤ) → eqb_ℤ a b ≡ true → a ≡ b
eqb_same a b h = ground arith

eqb_apart : (a b c : ℤ) → eqb_ℤ a b ≡ false → eqb_ℤ a c ≡ true → eqb_ℤ b c ≡ false
eqb_apart a b c h k = ground arith

if_none :
    (b : Bool) (v : ℕ) (x : Option ℕ) → (if b then some v else x) ≡ none → (b ≡ false) × (x ≡ none)
if_none true v x h = absurd (ground arith)
if_none false v x h = (refl, h)

Precedes-insert_at :
    (d : Bool) (q p : ℤ) (v at : ℕ) (es : List (ℤ × ℕ))
    → before d q p ≡ true
    → Precedes d q es
    → Precedes d q (insert_at at (p, v) es)
Precedes-insert_at d q p v zero es b h = b
Precedes-insert_at d q p v (suc at) [] b h = b
Precedes-insert_at d q p v (suc at) (e ∷ es) b h = h

Precedes-remove_from :
    (d : Bool) (q : ℤ) (at : ℕ) (es : List (ℤ × ℕ))
    → Precedes d q es
    → IsSorted d es
    → Precedes d q (remove_from at es)
Precedes-remove_from d q zero [] h s = tt
Precedes-remove_from d q zero (e ∷ []) h s = tt
Precedes-remove_from d q zero (e ∷ (f ∷ es)) h s = before_trans d q e.0 f.0 h s.0
Precedes-remove_from d q (suc at) [] h s = tt
Precedes-remove_from d q (suc at) (e ∷ es) h s = h

pub insert_at-IsSorted :
    (d : Bool) (p : ℤ) (v : ℕ) (es : List (ℤ × ℕ))
    → IsSorted d es
    → slot_of p es ≡ none
    → IsSorted d (insert_at (partition_point d p es) (p, v) es)
insert_at-IsSorted d p v [] s h = (tt, tt)
insert_at-IsSorted d p v (e ∷ es) s h =
    let missed = if_none (eqb_ℤ e.0 p) e.1 (slot_of p es) h in
    elim (Bool-cases (before d e.0 p)) [
      | inl b ↦ rw b (
        Precedes-insert_at d e.0 p v (partition_point d p es) es b s.0,
        insert_at-IsSorted d p v es s.1 missed.1,
      )
      | inr b ↦ rw b (before_total d e.0 p b missed.0, s)
    ]

pub remove_from-IsSorted :
    (d : Bool) (at : ℕ) (es : List (ℤ × ℕ)) → IsSorted d es → IsSorted d (remove_from at es)
remove_from-IsSorted d zero [] s = tt
remove_from-IsSorted d zero (e ∷ es) s = s.1
remove_from-IsSorted d (suc at) [] s = tt
remove_from-IsSorted d (suc at) (e ∷ es) s =
    (Precedes-remove_from d e.0 at es s.0 s.1, remove_from-IsSorted d at es s.1)

-- A price that was not listed is, and the others keep their slots.
pub slot_of-insert_at :
    (at : ℕ) (p : ℤ) (v : ℕ) (q : ℤ) (es : List (ℤ × ℕ))
    → slot_of p es ≡ none
    → slot_of q (insert_at at (p, v) es) ≡ (if eqb_ℤ p q then some v else slot_of q es)
slot_of-insert_at zero p v q es h = refl
slot_of-insert_at (suc at) p v q [] h = refl
slot_of-insert_at (suc at) p v q (e ∷ es) h =
    let missed = if_none (eqb_ℤ e.0 p) e.1 (slot_of p es) h in
    elim (Bool-cases (eqb_ℤ e.0 q)) [
      | inl b ↦ rw (b, eqb_apart e.0 p q missed.0 b)
      | inr b ↦ rw b (slot_of-insert_at at p v q es missed.1)
    ]

-- The price is listed no longer, and the others keep their slots.
pub slot_of-remove_from :
    (d : Bool) (p : ℤ) (v : ℕ) (q : ℤ) (es : List (ℤ × ℕ))
    → IsSorted d es
    → slot_of p es ≡ some v
    → slot_of q (remove_from (partition_point d p es) es)
      ≡ (if eqb_ℤ p q then none else slot_of q es)
slot_of-remove_from d p v q [] s h = absurd (ground arith)
slot_of-remove_from d p v q (e ∷ es) s h = elim (Bool-cases (before d e.0 p)) [
  | inl b ↦ elim (Bool-cases (eqb_ℤ e.0 q)) [
    | inl c ↦ rw (b, c, eqb_apart e.0 p q (before_ne d e.0 p b) c)
    | inr c ↦ rw (b, c) (slot_of-remove_from d p v q es s.1 (later b))
  ]
  | inr b ↦ elim (Bool-cases (eqb_ℤ e.0 p)) [
    | inl c ↦ rw b (first c)
    | inr c ↦ let u = unlisted b c in absurd (cc)
  ]
]
  where
    later : before d e.0 p ≡ true → slot_of p es ≡ some v
    later b = sym (rw (before_ne d e.0 p b) refl) ∙ h

    first : eqb_ℤ e.0 p ≡ true → slot_of q es ≡ (if eqb_ℤ p q then none else slot_of q (e ∷ es))
    first c = rw (sym (eqb_same e.0 p c)) (elim (Bool-cases (eqb_ℤ e.0 q)) [
      | inl k ↦
          rw k
            (slot_of-before d q es (subst (λ (x : ℤ). Precedes d x es) (eqb_same e.0 q k) s.0) s.1)
      | inr k ↦ rw k refl
    ])

    unlisted : before d e.0 p ≡ false → eqb_ℤ e.0 p ≡ false → slot_of p (e ∷ es) ≡ none
    unlisted b c = rw c (slot_of-before d p es (below es (before_total d e.0 p b c) s.0) s.1)
      where
        below : (fs : List (ℤ × ℕ)) → before d p e.0 ≡ true → Precedes d e.0 fs → Precedes d p fs
        below [] b t = tt
        below (f ∷ fs) b t = before_trans d p e.0 f.0 b t
