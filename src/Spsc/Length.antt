-- ===== src/Spsc/Length.antt =====
-- crates/hft-spsc/src/lib.rs: positions that wrap around, on a ring whose length is a power of two.
use native.Mathlib.Nat.{pow-succ', pow-le-pow_right, mul_assoc, mul-add-mod_self_left, div-add-mod}
use hft_engine_rs.Prelude.{
  ℕ, zero, suc, ◌+◌, ◌-◌, ◌*◌, ◌/◌, ◌%◌, ◌^◌, ◌==◌, ◌≤◌, ◌<◌, ◌≡◌, ap, sym, subst, ◌∙◌, true, arith,
  Bool-cases, inl, inr, ==_iff,
}
use hft_engine_rs.Prelude.Words.{u64_limit, wrap_sub}
use hft_engine_rs.Spsc.{is_power, Producer}

-- What the length of a ring is: it divides the range of the positions, and is less.
pub record IsLength (n : ℕ) : Type 0 where
  pub laps : ℕ
  pub divides : u64_limit ≡ n * laps
  pub positive : 0 < n
  pub small : n < u64_limit

none_plus : (b : ℕ) → zero + b ≡ b
none_plus b = omega arith

suc_plus : (a b : ℕ) → suc a + b ≡ suc (a + b)
suc_plus a b = omega arith

pow_add : (a b : ℕ) → 2 ^ (a + b) ≡ 2 ^ a * 2 ^ b
pow_add zero b = ap (λ (k : ℕ). 2 ^ k) (none_plus b) ∙ omega arith
pow_add (suc a) b =
    ap (λ (k : ℕ). 2 ^ k) (suc_plus a b)
    ∙ omega (
      arith,
      pow-succ' 2 (a + b),
      ap (λ (k : ℕ). k * 2 ^ b) (pow-succ' 2 a),
      pow_add a b,
      mul_assoc 2 (2 ^ a) (2 ^ b),
    )

power_small : (k : ℕ) → k < 64 → 2 ^ k < u64_limit
power_small k h =
    let b : 2 ^ k ≤ 2 ^ 63 =
      pow-le-pow_right {n = 2} (omega arith) {i = k} {j = 63} (omega arith) in
    omega (arith, b)

whole : (k : ℕ) → k < 64 → 64 ≡ k + (64 - k)
whole k h = omega arith

power-IsLength : (k : ℕ) → k < 64 → IsLength (2 ^ k)
power-IsLength k h = record {
  laps = 2 ^ (64 - k);
  divides = ap (λ (j : ℕ). 2 ^ j) (whole k h) ∙ pow_add k (64 - k);
  positive = pow-le-pow_right {n = 2} (omega arith) {i = 0} {j = k} (omega arith);
  small = power_small k h;
}

pub is_power-IsLength : (bits n : ℕ) → bits ≤ 64 → is_power bits n ≡ true → IsLength n
is_power-IsLength zero n l h = absurd (ground (arith, h))
is_power-IsLength (suc bits) n l h = elim (Bool-cases (n == 2 ^ bits)) [
  | inl e ↦ subst IsLength (sym ((==_iff n (2 ^ bits)).0 e)) (power-IsLength bits (omega arith))
  | inr e ↦ is_power-IsLength bits n (omega arith) (ground (arith, e, h))
]

pub slot_of_position : (n T : ℕ) → IsLength n → T % u64_limit % n ≡ T % n
slot_of_position n T r =
    sym (mul-add-mod_self_left n (r.laps * (T / u64_limit)) (T % u64_limit))
    ∙ ap (λ (k : ℕ). k % n)
        (omega (
          arith,
          div-add-mod T u64_limit,
          mul_assoc n r.laps (T / u64_limit),
          ap (λ (k : ℕ). k * (T / u64_limit)) r.divides,
        ))

module _ (n : ℕ) (r : IsLength n) (p : Producer) (C T : ℕ) where
  pub distance :
      p.cached_head ≡ C % u64_limit
      → p.tail ≡ T % u64_limit
      → C ≤ T
      → T ≤ C + n
      → wrap_sub u64_limit p.tail p.cached_head ≡ T - C
  distance h t l m = omega (arith, h, t, l, m, r.small)

pub load_between :
    (old new C H k : ℕ)
    → old ≡ C % u64_limit
    → new ≡ H % u64_limit
    → C ≤ H
    → H < C + u64_limit
    → k ≤ wrap_sub u64_limit new old
    → C + k ≤ H
load_between old new C H k o h l m b = omega (arith, o, h, l, m, b)
