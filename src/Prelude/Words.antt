-- ===== src/Prelude/Words.antt =====
-- Checked arithmetic of the machine integers that the program uses: `None` where the true result
-- does not fit.
use Prim.Native.Nat.{ℕ, ◌+◌, ◌-◌, ◌*◌, ◌%◌, ◌^◌}
use mathlib.Core.Option.{Option, none, some}
use mathlib.Core.Bool.{Bool, ◌&&◌}
use hft_engine_rs.Prelude.Tests.{ltb, leb, if◌then◌else◌}
use hft_engine_rs.Prelude.Int.{ℤ, pos, ◌-ℤ◌, leb_ℤ, ltb_ℤ}

abbrev pub u32_limit : ℕ
u32_limit = 2 ^ 32

abbrev pub u64_limit : ℕ
u64_limit = 2 ^ 64

abbrev pub u128_limit : ℕ
u128_limit = 2 ^ 128

-- 2 ^ 127: an `i128` lies between the negative of this and this, which is excluded.
abbrev pub i128_limit : ℕ
i128_limit = 2 ^ 127

-- A value that must stay under `limit`.
abbrev pub fits : ℕ → ℕ → Option ℕ
fits limit n = if ltb n limit then some n else none

abbrev pub checked_add_u64 : ℕ → ℕ → Option ℕ
checked_add_u64 a b = fits u64_limit (a + b)

abbrev pub checked_add_u32 : ℕ → ℕ → Option ℕ
checked_add_u32 a b = fits u32_limit (a + b)

abbrev pub checked_add_u128 : ℕ → ℕ → Option ℕ
checked_add_u128 a b = fits u128_limit (a + b)

abbrev pub checked_mul_u128 : ℕ → ℕ → Option ℕ
checked_mul_u128 a b = fits u128_limit (a * b)

-- `checked_sub` of any unsigned type.
abbrev pub checked_sub : ℕ → ℕ → Option ℕ
checked_sub a b = if leb b a then some (a - b) else none

-- `i128::try_from` of an unsigned value.
abbrev pub to_i128 : ℕ → Option ℤ
to_i128 n = if ltb n i128_limit then some (pos n) else none

abbrev pub in_i128 : ℤ → Bool
in_i128 z = leb_ℤ (pos 0 -ℤ pos i128_limit) z && ltb_ℤ z (pos i128_limit)

abbrev pub checked_i128 : ℤ → Option ℤ
checked_i128 z = if in_i128 z then some z else none

abbrev pub checked_mul_u64 : ℕ → ℕ → Option ℕ
checked_mul_u64 a b = fits u64_limit (a * b)

infixl 20 ◌>>=?◌
abbrev pub ◌>>=?◌ {ℓ} : {A B : Type ℓ} → Option A → (A → Option B) → Option B
none >>=? f = none
(some a) >>=? f = f a

-- `+=` and `-=`, which wrap around in the release build.
abbrev pub wrap_add : ℕ → ℕ → ℕ → ℕ
wrap_add limit a b = (a + b) % limit

abbrev pub wrap_sub : ℕ → ℕ → ℕ → ℕ
wrap_sub limit a b = (a + (limit - b)) % limit
