-- ===== src/Book/Levels/Lists.antt =====
-- What the array moves of the price directory (crates/hft-book/src/lib.rs) do to the part in use.
use native.Mathlib.Numerals.{unary_clauses}
use hft_engine_rs.Prelude.{
  ℕ, zero, suc, ◌+◌, ◌-◌, ◌≤◌, ◌<◌, ◌≡◌, refl, ap, ◌∙◌, List, [], ◌∷◌, ◌++◌, some, arith, length,
  get_or, get_elem?, set, take, drop, length-take, length-append,
}
use hft_engine_rs.Book.Levels.{copy_within}

module _ {ℓ} {A : Type ℓ} where
  pub take-take_append :
      (n : ℕ) (xs ys : List A) → n ≤ length xs → take n (take n xs ++ ys) ≡ take n xs
  take-take_append zero xs ys h = refl
  take-take_append (suc n) [] ys h = absurd (omega arith)
  take-take_append (suc n) (x ∷ xs) ys h = ap (◌∷◌ x) (take-take_append n xs ys (omega arith))

  -- Opening a gap at `at`, with the `n` entries behind it moved, and filling it.
  pub take-open_gap :
      (at n len : ℕ) (xs ys : List A) (v : A)
      → at + n ≡ len
      → len < length xs
      → take (suc len) (set (take (suc at) xs ++ (take n (drop at xs) ++ ys)) at v)
        ≡ take at (take len xs) ++ v ∷ drop at (take len xs)
  take-open_gap zero n len [] ys v e k = absurd (omega arith)
  take-open_gap zero n len (x ∷ xs) ys v e k =
      let same : n ≡ len = omega arith in
      ap (◌∷◌ v) (
        ap (λ (m : ℕ). take len (take m (x ∷ xs) ++ ys)) same
        ∙ take-take_append len (x ∷ xs) ys (omega arith))
  take-open_gap (suc at) n zero xs ys v e k = absurd (omega arith)
  take-open_gap (suc at) n (suc len) [] ys v e k = absurd (omega arith)
  take-open_gap (suc at) n (suc len) (x ∷ xs) ys v e k =
      ap (◌∷◌ x) (take-open_gap at n len xs ys v (omega arith) (omega arith))

  -- Closing the gap at `at` by the `n` entries behind it.
  pub take-close_gap :
      (at n len : ℕ) (xs ys : List A)
      → at + n ≡ len
      → len < length xs
      → take len (take at xs ++ (take n (drop (suc at) xs) ++ ys))
        ≡ take at (take (suc len) xs) ++ drop (suc at) (take (suc len) xs)
  take-close_gap zero n len [] ys e k = absurd (omega arith)
  take-close_gap zero n len (x ∷ xs) ys e k =
      let same : n ≡ len = omega arith in
      ap (λ (m : ℕ). take len (take m xs ++ ys)) same ∙ take-take_append len xs ys (omega arith)
  take-close_gap (suc at) n zero xs ys e k = absurd (omega arith)
  take-close_gap (suc at) n (suc len) [] ys e k = absurd (omega arith)
  take-close_gap (suc at) n (suc len) (x ∷ xs) ys e k =
      ap (◌∷◌ x) (take-close_gap at n len xs ys (omega arith) (omega arith))

  pub get_or-take :
      (i len : ℕ) (xs : List A) (d : A)
      → i < len
      → len ≤ length xs
      → get_elem? (take len xs) i ≡ some (get_or xs i d)
  get_or-take i zero xs d h k = absurd (omega arith)
  get_or-take i (suc len) [] d h k = absurd (omega arith)
  get_or-take zero (suc len) (x ∷ xs) d h k = refl
  get_or-take (suc i) (suc len) (x ∷ xs) d h k = get_or-take i len xs d (omega arith) (omega arith)

  pub length-take_le : (len : ℕ) (xs : List A) → len ≤ length xs → length (take len xs) ≡ len
  length-take_le len xs h = omega (arith, length-take len xs)

  -- The moves with the bounds as the code computes them.
  pub open_gap :
      (at len : ℕ) (xs ys : List A) (v : A)
      → at ≤ len
      → len < length xs
      → take (len + 1) (set (take (at + 1) xs ++ (take (len - at) (drop at xs) ++ ys)) at v)
        ≡ take at (take len xs) ++ v ∷ drop at (take len xs)
  open_gap at len xs ys v h k =
      simp unary_clauses (take-open_gap at (len - at) len xs ys v (omega arith) k)

  pub close_gap :
      (at count : ℕ) (xs ys : List A)
      → at < count
      → count ≤ length xs
      → take (count - 1) (take at xs ++ (take (count - (at + 1)) (drop (at + 1) xs) ++ ys))
        ≡ take at (take count xs) ++ drop (suc at) (take count xs)
  close_gap at zero xs ys h k = absurd (omega arith)
  close_gap at (suc len) xs ys h k =
      simp unary_clauses (take-close_gap at (len - at) len xs ys (omega arith) (omega arith))

  length-drop : (n : ℕ) (xs : List A) → length (drop n xs) ≡ length xs - n
  length-drop zero xs = omega arith
  length-drop (suc n) [] = omega arith
  length-drop (suc n) (x ∷ xs) = omega (arith, length-drop n xs)

  pub length-copy_within :
      (start end destination : ℕ) (xs : List A)
      → start ≤ end
      → end ≤ length xs
      → destination + (end - start) ≤ length xs
      → length (copy_within start end destination xs) ≡ length xs
  length-copy_within start end destination xs h k l =
      let n = end - start in
      omega (
        arith,
        length-append (take destination xs) (take n (drop start xs) ++ drop (destination + n) xs),
        length-append (take n (drop start xs)) (drop (destination + n) xs),
        length-take destination xs,
        length-take n (drop start xs),
        length-drop start xs,
        length-drop (destination + n) xs,
      )

  pub get_or-set_self :
      (i : ℕ) (xs : List A) (v d : A) → i < length xs → get_or (set xs i v) i d ≡ v
  get_or-set_self i [] v d h = absurd (omega arith)
  get_or-set_self zero (x ∷ xs) v d h = refl
  get_or-set_self (suc i) (x ∷ xs) v d h = get_or-set_self i xs v d (omega arith)
