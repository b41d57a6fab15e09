-- ===== src/Risk/Engine.antt =====
-- crates/hft-risk/src/lib.rs: `RiskEngine`. A method is an action on the engine: what it changed
-- before it failed stays changed. A read of `accounts` out of range, which would panic, counts as an
-- unknown account.
pub mod Atomicity
pub mod Reserve
pub mod Amend
mod Tests
use hft_engine_rs.Prelude.{
  ℕ, zero, suc, ◌+◌, ◌-◌, ◌*◌, ◌==◌, Bool, true, false, not, Option, none, some, List, [], ◌∷◌,
  Result, ok, err, ltb, leb, get_or, get_elem?, set, replicate, length, if◌then◌else◌,
}
use hft_engine_rs.Prelude.Int.{ℤ, pos, ltb_ℤ}
use hft_engine_rs.Prelude.Words.{u64_limit, checked_sub}
use hft_engine_rs.Prelude.Action.{
  Action, ◌>>=◌, ◌>>◌, done, lift, require, reject_if, self, modify, follow,
}
use hft_engine_rs.Types.{Side, NewOrder, RejectReason}
use hft_engine_rs.Risk.Account.{
  RiskLimits, AccountState, evaluate_limits, exposure_after_fill, reserve_more, check_position,
  notional, no_overflow,
}
use hft_engine_rs.Risk.ProbeIndex
use hft_engine_rs.Risk.ProbeIndex.{ProbeIndex, ProbeError}

-- `usize::MAX`.
abbrev pub nil : ℕ
nil = 0xffff_ffff_ffff_ffff

abbrev pub index_planes : ℕ
index_planes = 2

pub data RegistrationError : Type 0 where
  duplicate_account account_capacity invalid_limits : RegistrationError

pub record Reservation : Type 0 where
  pub order_id : ℕ
  pub account_id : ℕ
  pub index_slot : ℕ
  pub side : Side
  pub quantity : ℕ

pub data ReservationSlot : Type 0 where
  free : ℕ → ReservationSlot
  live : Reservation → ReservationSlot

pub record RiskEngine : Type 0 where
  pub accounts : List (Option AccountState)
  pub account_index : ProbeIndex
  pub reservations : List ReservationSlot
  pub reservation_free_head : ℕ
  pub reservation_index : ProbeIndex
  pub maximum_order_id : Option ℕ
  pub killed : Bool

-- The free slots from `index` on, each linked to the next and the last to `nil`.
abbrev pub free_chain : ℕ → ℕ → List ReservationSlot
free_chain index zero = []
free_chain index (suc zero) = free nil ∷ []
free_chain index (suc (suc left)) = free (index + 1) ∷ free_chain (index + 1) (suc left)

unfoldable pub new : ℕ → ℕ → RiskEngine
new accounts orders = record {
  accounts = replicate accounts none;
  account_index = ProbeIndex.new (index_planes * accounts);
  reservations = free_chain 0 orders;
  reservation_free_head = if orders == 0 then nil else 0;
  reservation_index = ProbeIndex.new (index_planes * orders);
  maximum_order_id = none;
  killed = false;
}

-- A method that may reject.
abbrev pub Method : Type 0 → Type 0
Method = Action RiskEngine RejectReason

abbrev pub account_slot : RiskEngine → ℕ → Option ℕ
account_slot e id = ProbeIndex.lookup e.account_index id

-- The slot of a registered account and its state.
find_account : ℕ → Method (ℕ × AccountState)
find_account id = do
  e ← self
  at ← require (account_slot e id) RejectReason.unknown_account
  account ← require (get_or e.accounts at none) RejectReason.unknown_account
  done (at, account)

put_account : ℕ → AccountState → Method (Unit {0})
put_account at account = modify (λ e. record e { accounts = set e.accounts at (some account) })

put_reservation : ℕ → Reservation → Method (Unit {0})
put_reservation at r = modify (λ e. record e { reservations = set e.reservations at (live r) })

abbrev as_live : Option ReservationSlot → Option Reservation
as_live (some (live r)) = some r
as_live (some (free next)) = none
as_live none = none

abbrev free_link : Option ReservationSlot → Option ℕ
free_link (some (free next)) = some next
free_link (some (live r)) = none
free_link none = none

checked_live : ℕ → ℕ → Option Reservation → Option (ℕ × Reservation)
checked_live order_id at none = none
checked_live order_id at (some r) = if r.order_id == order_id then some (at, r) else none

unfoldable pub live_reservation : ℕ → RiskEngine → Option (ℕ × Reservation)
unfolding checked_live
live_reservation order_id e = elim (ProbeIndex.lookup e.reservation_index order_id) [
  | none ↦ none
  | some at ↦ checked_live order_id at (as_live (get_elem? e.reservations at))
]

moved_handle : ℕ → ℕ → Option ReservationSlot → List ReservationSlot → ℕ → List ReservationSlot
moved_handle key new_flat (some (live r)) slots at =
    if r.order_id == key then set slots at (live (record r { index_slot = new_flat })) else slots
moved_handle key new_flat (some (free next)) slots at = slots
moved_handle key new_flat none slots at = slots

-- The callback of `release_reservation`.
update_moved : ℕ → ℕ → ℕ → List ReservationSlot → List ReservationSlot
unfolding moved_handle
update_moved key at new_flat slots = moved_handle key new_flat (get_elem? slots at) slots at

unfoldable pub release_reservation : ℕ → Reservation → Method (Unit {0})
unfolding update_moved
release_reservation at r = modify λ e.
    let removed =
      ProbeIndex.remove_at update_moved r.index_slot r.order_id e.reservation_index
        e.reservations in
    record e {
      reservation_index = removed.1;
      reservations = set removed.2 at (free e.reservation_free_head);
      reservation_free_head = at;
    }

-- `insert` into the reservation index, with its errors as the engine reports them.
abbrev index_error : ProbeError → RejectReason
index_error ProbeError.full = RejectReason.order_capacity
index_error ProbeError.duplicate = RejectReason.arithmetic_overflow

unfoldable pub index_reservation : ℕ → ℕ → Method ℕ
index_reservation order_id at e =
    let inserted = ProbeIndex.insert order_id at e.reservation_index in
    elim inserted.0 [
      | ok flat ↦ (ok flat, record e { reservation_index = inserted.1 })
      | err x ↦ (err (index_error x), record e { reservation_index = inserted.1 })
    ]

abbrev pub at_most : ℕ → Option ℕ → Bool
at_most id none = false
at_most id (some maximum) = leb id maximum

unfoldable pub set_kill_switch : Bool → RiskEngine → RiskEngine
set_kill_switch killed e = record e { killed = killed }

unfoldable pub set_account_kill_switch : ℕ → Bool → Method (Unit {0})
unfolding find_account put_account
set_account_kill_switch id killed = do
  found ← find_account id
  put_account found.0 (record (found.1) { killed = killed })

-- What `check_and_reserve` writes once the order has passed.
commit_reservation : NewOrder → ℕ → ℕ → ℕ → Method (Unit {0})
commit_reservation o at next_free index_slot = modify λ e. record e {
  reservation_free_head = next_free;
  reservations = set e.reservations at (
      live (record {
        order_id = o.order_id;
        account_id = o.account_id;
        index_slot = index_slot;
        side = o.side;
        quantity = o.quantity;
      }));
  maximum_order_id = some o.order_id;
}

unfoldable pub check_and_reserve : NewOrder → Method (Unit {0})
unfolding find_account put_account commit_reservation
check_and_reserve o = do
  e ← self
  reject_if e.killed RejectReason.kill_switch
  reject_if (o.quantity == 0) RejectReason.invalid_quantity
  reject_if (at_most o.order_id e.maximum_order_id) RejectReason.duplicate_order_id
  reject_if (e.reservation_free_head == nil) RejectReason.order_capacity
  found ← find_account o.account_id
  totals ← lift (evaluate_limits found.1 o)
  next_free ←
      require (free_link (get_elem? e.reservations e.reservation_free_head))
        RejectReason.arithmetic_overflow
  index_slot ← index_reservation o.order_id e.reservation_free_head
  put_account found.0 (record (found.1) {
    reserved_buys = totals.0;
    reserved_sells = totals.1;
    open_orders = totals.2;
  })
  commit_reservation o e.reservation_free_head next_free index_slot

-- The account with the exposure that `exposure_after_fill` returned.
with_exposure : AccountState → ℤ × ℕ × ℕ → ℕ → AccountState
with_exposure a x open_orders = record a {
  settled_position = x.0;
  reserved_buys = x.1;
  reserved_sells = x.2;
  open_orders = open_orders;
}

unfoldable pub settle_reservation : ℕ → Reservation → ℕ → Method (Unit {0})
unfolding find_account put_account release_reservation with_exposure
settle_reservation at r filled = do
  found ← find_account r.account_id
  exposure ← lift (exposure_after_fill found.1 r.side filled r.quantity)
  open_orders ← lift (no_overflow (checked_sub found.1.open_orders 1))
  put_account found.0 (with_exposure found.1 exposure open_orders)
  release_reservation at r

unfoldable pub settle : ℕ → ℕ → Method (Unit {0})
unfolding settle_reservation
settle order_id filled = do
  e ← self
  found ← require (live_reservation order_id e) RejectReason.unknown_order
  reject_if (ltb found.1.quantity filled) RejectReason.invalid_quantity
  settle_reservation found.0 found.1 filled

unfoldable pub record_fill : ℕ → ℕ → Method (Unit {0})
unfolding find_account put_account put_reservation release_reservation with_exposure
record_fill order_id filled = do
  reject_if (filled == 0) RejectReason.invalid_quantity
  e ← self
  found ← require (live_reservation order_id e) RejectReason.unknown_order
  left ← require (checked_sub found.1.quantity filled) RejectReason.invalid_quantity
  account ← find_account found.1.account_id
  exposure ← lift (exposure_after_fill account.1 found.1.side filled filled)
  open_orders ← lift (no_overflow (checked_sub account.1.open_orders (if left == 0 then 1 else 0)))
  put_account account.0 (with_exposure account.1 exposure open_orders)
  if left == 0
      then release_reservation found.0 (record (found.1) { quantity = left })
      else put_reservation found.0 (record (found.1) { quantity = left })

with_reserved : AccountState → ℕ × ℕ → AccountState
with_reserved a totals = record a { reserved_buys = totals.0; reserved_sells = totals.1 }

-- The reserved totals with a quantity less on one side.
unfoldable pub reserve_less : AccountState → Side → ℕ → Result RejectReason (ℕ × ℕ)
reserve_less a Side.buy quantity = elim (no_overflow (checked_sub a.reserved_buys quantity)) [
  | ok buys ↦ ok (buys, a.reserved_sells)
  | err x ↦ err x
]
reserve_less a Side.sell quantity = elim (no_overflow (checked_sub a.reserved_sells quantity)) [
  | ok sells ↦ ok (a.reserved_buys, sells)
  | err x ↦ err x
]

-- The reservation of an order that the account owns, with its slot.
unfoldable pub owned_reservation : ℕ → ℕ → Method (ℕ × Reservation)
owned_reservation order_id account_id = do
  e ← self
  found ← require (live_reservation order_id e) RejectReason.unknown_order
  reject_if (not (found.1.account_id == account_id)) RejectReason.not_order_owner
  done found

-- The increase and the decrease of `adjust_reservation`: the amount released.
unfoldable pub increase : ℤ → ℕ → ℕ → Reservation → ℕ × AccountState → Method ℕ
unfolding put_account put_reservation with_reserved
increase price new_total at r account = do
  totals ← lift (reserve_more account.1 r.side (new_total - r.quantity))
  value ← lift (notional price new_total)
  reject_if (ltb account.1.limits.max_notional value) RejectReason.notional_limit
  lift (check_position account.1 totals.0 totals.1)
  put_account account.0 (with_reserved account.1 totals)
  put_reservation at (record r { quantity = new_total })
  done 0

unfoldable pub decrease : ℕ → ℕ → Reservation → ℕ × AccountState → Method ℕ
unfolding put_account put_reservation with_reserved reserve_less
decrease new_total at r account = do
  totals ← lift (reserve_less account.1 r.side (r.quantity - new_total))
  put_account account.0 (with_reserved account.1 totals)
  put_reservation at (record r { quantity = new_total })
  done (r.quantity - new_total)

-- The rest of `adjust_reservation`, for a total that changes.
unfoldable pub amend : ℕ → ℤ → ℕ → ℕ × Reservation → Method (ℕ × ℕ)
unfolding find_account increase decrease
amend account_id price new_total found = do
  account ← find_account account_id
  released ←
      if ltb found.1.quantity new_total
      then increase price new_total found.0 found.1 account
      else decrease new_total found.0 found.1 account
  done (released, found.1.quantity)

-- The released quantity and the prior one.
unfoldable pub adjust_reservation : ℕ → ℕ → ℤ → ℕ → Method (ℕ × ℕ)
unfolding owned_reservation amend
adjust_reservation order_id account_id price new_total = do
  found ← owned_reservation order_id account_id
  if new_total == found.1.quantity
      then done (0, found.1.quantity)
      else amend account_id price new_total found

-- The rest of `restore_reservation`, for a total that changes.
unfoldable pub put_back : ℕ → ℕ → ℕ × Reservation → Method (Unit {0})
unfolding find_account put_account put_reservation with_reserved reserve_less
put_back account_id prior found = do
  account ← find_account account_id
  totals ← lift (
      if ltb found.1.quantity prior
      then reserve_more account.1 found.1.side (prior - found.1.quantity)
      else reserve_less account.1 found.1.side (found.1.quantity - prior))
  put_account account.0 (with_reserved account.1 totals)
  put_reservation found.0 (record (found.1) { quantity = prior })

unfoldable pub restore_reservation : ℕ → ℕ → ℕ → Method (Unit {0})
unfolding owned_reservation put_back
restore_reservation order_id account_id prior = do
  found ← owned_reservation order_id account_id
  if found.1.quantity == prior then done tt else put_back account_id prior found

unfoldable pub can_cancel : ℕ → ℕ → Method (Unit {0})
unfolding owned_reservation
can_cancel order_id account_id = do _ ← owned_reservation order_id account_id; done tt

unfoldable pub cancel_reservation : ℕ → ℕ → Method ℕ
unfolding owned_reservation settle_reservation
cancel_reservation order_id account_id = do
  found ← owned_reservation order_id account_id
  settle_reservation found.0 found.1 0
  done found.1.quantity
