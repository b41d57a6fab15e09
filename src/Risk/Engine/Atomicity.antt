-- ===== src/Risk/Engine/Atomicity.antt =====
-- crates/hft-risk/src/lib.rs: which methods of the engine change nothing where they reject.
use hft_engine_rs.Prelude.{ℕ, ◌≡◌, Bool, err, arith, Result-cases, inl, inr}
use hft_engine_rs.Prelude.Action.{◌>>=◌, done}
use hft_engine_rs.Prelude.Action.Atomic.{Reads, Succeeds, Atomic, reads, succeeds, atomic}
use hft_engine_rs.Prelude.Int.{ℤ}
use hft_engine_rs.Types.{NewOrder, RejectReason}
use hft_engine_rs.Risk.Account.{AccountState}
use hft_engine_rs.Risk.ProbeIndex
use hft_engine_rs.Risk.ProbeIndex.{ProbeIndex}
use hft_engine_rs.Risk.ProbeIndex.Find.{insert_refused}
use hft_engine_rs.Risk.Engine.{
  RiskEngine, Reservation, find_account, index_reservation, check_and_reserve, put_account,
  put_reservation, commit_reservation, release_reservation, settle_reservation, settle, record_fill,
  set_account_kill_switch, owned_reservation, increase, decrease, amend, adjust_reservation,
  put_back, restore_reservation, cancel_reservation, Method,
}

pub index_reservation_refused :
    (id at : ℕ) (e : RiskEngine) (x : RejectReason)
    → (index_reservation id at e).0 ≡ err x
    → (index_reservation id at e).1 ≡ e
unfolding index_reservation
index_reservation_refused id at e x h =
    elim (Result-cases (ProbeIndex.insert id at e.reservation_index).0) [
      | inl (flat, k) ↦ absurd (ground (arith, k))
      | inr (y, k) ↦ ground (arith, k, insert_refused id at e.reservation_index y k)
    ]

index_reservation-Atomic : (id at : ℕ) → Atomic (index_reservation id at)
index_reservation-Atomic id at = record { rejected = index_reservation_refused id at }

find_account-Reads : (id : ℕ) → Reads (find_account id)
unfolding find_account
find_account-Reads id = search reads depth 9

put_account-Succeeds : (at : ℕ) (a : AccountState) → Succeeds (put_account at a)
unfolding put_account
put_account-Succeeds at a = search succeeds

commit_reservation-Succeeds :
    (o : NewOrder) (at next slot : ℕ) → Succeeds (commit_reservation o at next slot)
unfolding commit_reservation
commit_reservation-Succeeds o at next slot = search succeeds

put_reservation-Succeeds : (at : ℕ) (r : Reservation) → Succeeds (put_reservation at r)
unfolding put_reservation
put_reservation-Succeeds at r = search succeeds

release_reservation-Succeeds : (at : ℕ) (r : Reservation) → Succeeds (release_reservation at r)
unfolding release_reservation
release_reservation-Succeeds at r = search succeeds

owned_reservation-Reads : (id account : ℕ) → Reads (owned_reservation id account)
unfolding owned_reservation
owned_reservation-Reads id account = search reads depth 9

ruleset parts = (
  find_account-Reads, owned_reservation-Reads, index_reservation-Atomic, put_account-Succeeds,
  put_reservation-Succeeds, commit_reservation-Succeeds, release_reservation-Succeeds,
)

check_and_reserve_rejected : (o : NewOrder) → Atomic (check_and_reserve o)
unfolding check_and_reserve
check_and_reserve_rejected o =
    search (atomic, find_account-Reads, index_reservation-Atomic) depth 25

set_account_kill_switch_rejected : (id : ℕ) (k : Bool) → Atomic (set_account_kill_switch id k)
unfolding set_account_kill_switch
set_account_kill_switch_rejected id k = search (atomic, parts) depth 25

settle_reservation-Atomic : (at : ℕ) (r : Reservation) (f : ℕ) → Atomic (settle_reservation at r f)
unfolding settle_reservation
settle_reservation-Atomic at r f = search (atomic, parts) depth 25

settle_rejected : (id f : ℕ) → Atomic (settle id f)
unfolding settle
settle_rejected id f = search (atomic, parts, settle_reservation-Atomic) depth 25

record_fill_rejected : (id f : ℕ) → Atomic (record_fill id f)
unfolding record_fill
record_fill_rejected id f = search (atomic, parts) depth 25

increase-Atomic :
    (p : ℤ) (n at : ℕ) (r : Reservation) (a : ℕ × AccountState) → Atomic (increase p n at r a)
unfolding increase
increase-Atomic p n at r a = search (atomic, parts) depth 25

decrease-Atomic : (n at : ℕ) (r : Reservation) (a : ℕ × AccountState) → Atomic (decrease n at r a)
unfolding decrease
decrease-Atomic n at r a = search (atomic, parts) depth 25

amend-Atomic : (id : ℕ) (p : ℤ) (n : ℕ) (f : ℕ × Reservation) → Atomic (amend id p n f)
unfolding amend
amend-Atomic id p n f = search (atomic, parts, increase-Atomic, decrease-Atomic) depth 25

adjust_reservation_rejected :
    (id account : ℕ) (p : ℤ) (n : ℕ) → Atomic (adjust_reservation id account p n)
unfolding adjust_reservation
adjust_reservation_rejected id account p n = search (atomic, parts, amend-Atomic) depth 25

put_back-Atomic : (id n : ℕ) (f : ℕ × Reservation) → Atomic (put_back id n f)
unfolding put_back
put_back-Atomic id n f = search (atomic, parts) depth 25

restore_reservation_rejected : (id account n : ℕ) → Atomic (restore_reservation id account n)
unfolding restore_reservation
restore_reservation_rejected id account n = search (atomic, parts, put_back-Atomic) depth 25

cancel_reservation_rejected : (id account : ℕ) → Atomic (cancel_reservation id account)
unfolding cancel_reservation
cancel_reservation_rejected id account = search (atomic, parts, settle_reservation-Atomic) depth 25

-- The fallible methods that a client can call.
pub data Call : Type 0 where
  kills : ℕ → Bool → Call
  reserves : NewOrder → Call
  settles : ℕ → ℕ → Call
  fills : ℕ → ℕ → Call
  adjusts : ℕ → ℕ → ℤ → ℕ → Call
  restores : ℕ → ℕ → ℕ → Call
  cancels : ℕ → ℕ → Call

unfoldable pub perform : Call → Method (Unit {0})
perform (kills id killed) = set_account_kill_switch id killed
perform (reserves o) = check_and_reserve o
perform (settles id filled) = settle id filled
perform (fills id filled) = record_fill id filled
perform (adjusts id account price total) = do _ ← adjust_reservation id account price total; done tt
perform (restores id account prior) = restore_reservation id account prior
perform (cancels id account) = do _ ← cancel_reservation id account; done tt

perform-Atomic : (c : Call) → Atomic (perform c)
unfolding perform
perform-Atomic (kills id killed) = set_account_kill_switch_rejected id killed
perform-Atomic (reserves o) = check_and_reserve_rejected o
perform-Atomic (settles id filled) = settle_rejected id filled
perform-Atomic (fills id filled) = record_fill_rejected id filled
perform-Atomic (adjusts id account price total) =
    search (atomic, adjust_reservation_rejected) depth 9
perform-Atomic (restores id account prior) = restore_reservation_rejected id account prior
perform-Atomic (cancels id account) = search (atomic, cancel_reservation_rejected) depth 9

-- A method that rejects has changed nothing, whichever check made it reject: reservations, their
-- index, the accounts and the watermark are as before the call.
pub perform_rejected :
    (c : Call) (e : RiskEngine) (x : RejectReason) → (perform c e).0 ≡ err x → (perform c e).1 ≡ e
perform_rejected c = (perform-Atomic c).rejected
