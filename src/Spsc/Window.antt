-- ===== src/Spsc/Window.antt =====
-- crates/hft-spsc/src/lib.rs: which slots of the ring are initialised, and with what.
use native.Mathlib.Nat.{div-add-mod, mul-le-mul_left, mod-lt, add-mod_right, mul-suc}
use hft_engine_rs.Prelude.{
  ℕ, zero, suc, ◌+◌, ◌*◌, ◌/◌, ◌%◌, ◌≤◌, ◌<◌, ◌≡◌, ◌≢◌, refl, ap, sym, subst, ◌∙◌, Option, none,
  some, List, [], ◌∷◌, ◌++◌, arith, dec_lt, length, get_elem?, get_elem?_lt, set, replicate,
  length-set, get_elem?-set_self, get_elem?-set_ne, length-append, length-replicate,
}

-- Two positions less than a lap apart have different slots.
slots_differ : (n a b : ℕ) → a < b → b < a + n → a % n ≢ b % n
slots_differ n a b l w e = elim (dec_lt (a / n) (b / n)) [
  | yes d ↦
      let m : n * (a / n + 1) ≤ n * (b / n) = mul-le-mul_left n (omega (arith, d)) in
      omega (arith, m, w, e, div-add-mod a n, div-add-mod b n, mul-suc n (a / n))
  | no d ↦
      let m : n * (b / n) ≤ n * (a / n) = mul-le-mul_left n (omega (arith, d)) in
      omega (arith, m, l, e, div-add-mod a n, div-add-mod b n)
]

-- From position H on the slots hold the values L, in their order and one in each, and the others of the
-- ring are uninitialised.
pub record Window {A : Type 0} (n : ℕ) (slots : List (Option A)) (H : ℕ) (L : List A) : Type 0 where
  pub size : length slots ≡ n
  pub fits : length L ≤ n
  pub held :
      (i : ℕ) (v : A) → get_elem? L i ≡ some v → get_elem? slots ((H + i) % n) ≡ some (some v)
  pub vacant : (i : ℕ) → length L ≤ i → i < n → get_elem? slots ((H + i) % n) ≡ some none

get_elem?-replicate : {A : Type 0} (n i : ℕ) (a : A) → i < n → get_elem? (replicate n a) i ≡ some a
get_elem?-replicate zero i a h = absurd (omega arith)
get_elem?-replicate (suc n) zero a h = refl
get_elem?-replicate (suc n) (suc i) a h = get_elem?-replicate n i a (omega arith)

pub Window-replicate : {A : Type 0} (n H : ℕ) → 0 < n → Window {A = A} n (replicate n none) H []
Window-replicate n H h = record {
  size = length-replicate n none;
  fits = omega arith;
  held = λ i v e. absurd (ground (arith, e));
  vacant = λ i l w. get_elem?-replicate n ((H + i) % n) none (mod-lt (H + i) h);
}

get_elem?-last : {A : Type 0} (L : List A) (v : A) → get_elem? (L ++ v ∷ []) (length L) ≡ some v
get_elem?-last [] v = refl
get_elem?-last (x ∷ L) v = get_elem?-last L v

get_elem?-append_lt :
    {A : Type 0} (L : List A) (v : A) (i : ℕ)
    → i < length L
    → get_elem? (L ++ v ∷ []) i ≡ get_elem? L i
get_elem?-append_lt [] v i h = absurd (omega arith)
get_elem?-append_lt (x ∷ L) v zero h = refl
get_elem?-append_lt (x ∷ L) v (suc i) h = get_elem?-append_lt L v i (omega arith)

module _ {A : Type 0} (n : ℕ) (slots : List (Option A)) (H : ℕ) (L : List A)
    (w : Window n slots H L) where
  write_held :
      (v : A) (i : ℕ) (u : A)
      → length L < n
      → get_elem? (L ++ v ∷ []) i ≡ some u
      → get_elem? (set slots ((H + length L) % n) (some v)) ((H + i) % n) ≡ some (some u)
  write_held v i u h e = elim (dec_lt i (length L)) [
    | yes l ↦
        get_elem?-set_ne slots ((H + length L) % n) ((H + i) % n) (some v)
          (λ q. slots_differ n (H + i) (H + length L) (omega (arith, l)) (omega (arith, h)) (sym q))
        ∙ w.held i u (sym (get_elem?-append_lt L v i l) ∙ e)
    | no l ↦
        let last : i ≡ length L =
          omega (arith, l, get_elem?_lt (L ++ v ∷ []) i e, length-append L (v ∷ [])) in
        ap (λ (k : ℕ). get_elem? (set slots ((H + length L) % n) (some v)) ((H + k) % n)) last
        ∙ (get_elem?-set_self slots ((H + length L) % n) (some v) (
              subst (λ (m : ℕ). (H + length L) % n < m) (sym w.size)
                (mod-lt (H + length L) (omega (arith, h))))
            ∙ ap some (sym (get_elem?-last L v) ∙ (ap (get_elem? (L ++ v ∷ [])) (sym last) ∙ e)))
  ]

  -- Writing the slot behind the values adds one to them.
  pub Window-write :
      (v : A)
      → length L < n
      → (get_elem? slots ((H + length L) % n) ≡ some none)
        × Window n (set slots ((H + length L) % n) (some v)) H (L ++ v ∷ [])
  Window-write v h = (
    w.vacant (length L) (omega arith) h,
    record {
      size = length-set slots _ _ ∙ w.size;
      fits = omega (arith, length-append L (v ∷ []), h);
      held = λ i u e. write_held v i u h e;
      vacant = λ i l k.
          get_elem?-set_ne slots ((H + length L) % n) ((H + i) % n) (some v) (
            slots_differ n (H + length L) (H + i) (omega (arith, l, length-append L (v ∷ [])))
              (omega (arith, k)))
          ∙ w.vacant i (omega (arith, l, length-append L (v ∷ []))) k;
    },
  )

module _ {A : Type 0} (n : ℕ) (slots : List (Option A)) (H : ℕ) (v : A) (L : List A)
    (w : Window n slots H (v ∷ L)) where
  first_slot : H % n < length slots
  first_slot = subst (λ (m : ℕ). H % n < m) (sym w.size) (mod-lt H (omega (arith, w.fits)))

  read_held :
      (i : ℕ) (u : A)
      → get_elem? L i ≡ some u
      → get_elem? (set slots (H % n) none) ((H + 1 + i) % n) ≡ some (some u)
  read_held i u e =
      get_elem?-set_ne slots (H % n) ((H + 1 + i) % n) none
        (slots_differ n H (H + 1 + i) (omega arith) (omega (arith, w.fits, get_elem?_lt L i e)))
      ∙ (ap (λ (k : ℕ). get_elem? slots (k % n)) (omega arith) ∙ w.held (suc i) u e)

  read_vacant :
      (i : ℕ)
      → length L ≤ i
      → i < n
      → get_elem? (set slots (H % n) none) ((H + 1 + i) % n) ≡ some none
  read_vacant i l k = elim (dec_lt (suc i) n) [
    | yes m ↦
        get_elem?-set_ne slots (H % n) ((H + 1 + i) % n) none
          (slots_differ n H (H + 1 + i) (omega arith) (omega (arith, m)))
        ∙ (ap (λ (k : ℕ). get_elem? slots (k % n)) (omega arith)
            ∙ w.vacant (suc i) (omega (arith, l)) m)
    | no m ↦
        ap (get_elem? (set slots (H % n) none))
          (ap (λ (k : ℕ). k % n) (omega (arith, k, m)) ∙ add-mod_right H n)
        ∙ get_elem?-set_self slots (H % n) none first_slot
  ]

  -- The first value is in its slot, and taking it out leaves the others.
  pub Window-read :
      (get_elem? slots (H % n) ≡ some (some v)) × Window n (set slots (H % n) none) (H + 1) L
  Window-read = (
    ap (λ (k : ℕ). get_elem? slots (k % n)) (omega arith) ∙ w.held 0 v refl,
    record {
      size = length-set slots _ _ ∙ w.size;
      fits = omega (arith, w.fits);
      held = read_held;
      vacant = read_vacant;
    },
  )
