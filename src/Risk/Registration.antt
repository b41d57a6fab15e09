-- ===== src/Risk/Registration.antt =====
-- crates/hft-risk/src/lib.rs: `RiskEngine::register_account`.
mod Tests
use hft_engine_rs.Prelude.{
  ℕ, suc, ◌<◌, ◌==◌, ◌||◌, ◌≡◌, ap, sym, ◌∙◌, Bool, true, false, Option, none, some, List, [], ◌∷◌,
  ok, err, arith, set, get_elem?, Result-cases, Option-cases, inl, inr, map, length,
}
use hft_engine_rs.Prelude.Int.{pos, ltb_ℤ}
use hft_engine_rs.Prelude.Action.{Action, ◌>>=◌, ◌>>◌, require, reject_if, self, modify}
use hft_engine_rs.Prelude.Action.Atomic.{Reads, Succeeds, Atomic, reads, succeeds, atomic}
use hft_engine_rs.Risk.Account.{RiskLimits, AccountState}
use hft_engine_rs.Risk.ProbeIndex
use hft_engine_rs.Risk.ProbeIndex.{ProbeError}
use hft_engine_rs.Risk.ProbeIndex.Find.{insert_refused}
use hft_engine_rs.Risk.Engine.{RiskEngine, RegistrationError, account_slot}

-- The index of the first place that is empty.
first_vacant : List (Option AccountState) → Option ℕ
first_vacant [] = none
first_vacant (none ∷ xs) = some 0
first_vacant (some a ∷ xs) = elim (first_vacant xs) [ none ↦ none | some at ↦ some (suc at) ]

abbrev is_some : Option ℕ → Bool
is_some none = false
is_some (some at) = true

abbrev pub fresh_account : ℕ → RiskLimits → AccountState
fresh_account id limits = record {
  id = id;
  limits = limits;
  settled_position = pos 0;
  reserved_buys = 0;
  reserved_sells = 0;
  open_orders = 0;
  killed = false;
}

abbrev registration_error : ProbeError → RegistrationError
registration_error ProbeError.full = RegistrationError.account_capacity
registration_error ProbeError.duplicate = RegistrationError.duplicate_account

unfoldable pub index_account : ℕ → ℕ → Action RiskEngine RegistrationError ℕ
index_account id at e =
    let inserted = ProbeIndex.insert id at e.account_index in
    elim inserted.0 [
      | ok flat ↦ (ok flat, record e { account_index = inserted.1 })
      | err x ↦ (err (registration_error x), record e { account_index = inserted.1 })
    ]

unfoldable pub register_account : ℕ → RiskLimits → Action RiskEngine RegistrationError (Unit {0})
unfolding first_vacant
register_account id limits = do
  reject_if
      (limits.max_quantity == 0
        || limits.max_open_orders == 0
        || ltb_ℤ limits.maximum_price limits.minimum_price)
      RegistrationError.invalid_limits
  e ← self
  reject_if (is_some (account_slot e id)) RegistrationError.duplicate_account
  slot ← require (first_vacant e.accounts) RegistrationError.account_capacity
  flat ← index_account id slot
  modify (λ e. record e { accounts = set e.accounts slot (some (fresh_account id limits)) })

index_account-Atomic : (id at : ℕ) → Atomic (index_account id at)
unfolding index_account
index_account-Atomic id at = record {
  rejected = λ e x h. elim (Result-cases (ProbeIndex.insert id at e.account_index).0) [
    | inl (flat, k) ↦ absurd (ground (arith, k))
    | inr (y, k) ↦ ground (arith, k, insert_refused id at e.account_index y k)
  ];
}

register_account-Atomic : (id : ℕ) (limits : RiskLimits) → Atomic (register_account id limits)
unfolding register_account
register_account-Atomic id limits = search (atomic, index_account-Atomic) depth 25

-- A registration that is refused has changed nothing.
pub register_account_refused :
    (id : ℕ) (limits : RiskLimits) (e : RiskEngine) (x : RegistrationError)
    → (register_account id limits e).0 ≡ err x
    → (register_account id limits e).1 ≡ e
register_account_refused id limits = (register_account-Atomic id limits).rejected

first_vacant_lem :
    (xs : List (Option AccountState)) (at : ℕ)
    → first_vacant xs ≡ some at
    → get_elem? xs at ≡ some none
unfolding first_vacant
first_vacant_lem [] at h = absurd (ground (arith, h))
first_vacant_lem (none ∷ xs) at h =
    let first : 0 ≡ at = ground (arith, h) in ap (λ (i : ℕ). get_elem? (none ∷ xs) i) (sym first)
first_vacant_lem (some a ∷ xs) at h = elim (Option-cases (first_vacant xs)) [
  | inl k ↦ absurd (ground (arith, k, h))
  | inr (i, k) ↦
      let later : suc i ≡ at = ground (arith, k, h) in
      ap (λ (j : ℕ). get_elem? (some a ∷ xs) j) (sym later) ∙ first_vacant_lem xs i k
]

-- An accepted registration was of an account that was not registered, and fills a vacant place with
-- the account under the given limits, with no exposure and not killed; the other accounts, the
-- reservations and the switch are as before.
pub register_account-adds :
    (id : ℕ) (limits : RiskLimits) (e : RiskEngine)
    → (register_account id limits e).0 ≡ ok tt
    → (slot : ℕ) × (account_slot e id ≡ none)
      × (get_elem? e.accounts slot ≡ some none)
      × (register_account id limits e).1 ≡ record e {
        accounts = set e.accounts slot (some (fresh_account id limits));
        account_index = (ProbeIndex.insert id slot e.account_index).1;
      }
unfolding register_account index_account
register_account-adds id limits e h = elim (Option-cases (first_vacant e.accounts)) [
  | inl k ↦ absurd (ground (arith, k))
  | inr (slot, k) ↦ (slot, ground (arith, k), first_vacant_lem e.accounts slot k, ground (arith, k))
]
