-- ===== src/Risk/Engine/Reserve.antt =====
-- crates/hft-risk/src/lib.rs: what an accepted `check_and_reserve` says of the order, the account and
-- the engine.
use hft_engine_rs.Prelude.{
  ℕ, ◌+◌, ◌<◌, ◌≡◌, false, none, some, ok, arith, get_elem?, get_or, set, Result-cases,
  Option-cases, inl, inr,
}
use hft_engine_rs.Types.{NewOrder}
use hft_engine_rs.Risk.Account.{AccountState, evaluate_limits}
use hft_engine_rs.Risk.Account.Limits.{Admits, evaluate_limits_sound, buys_with, sells_with}
use hft_engine_rs.Risk.Engine.{
  RiskEngine, at_most, account_slot, free_link, index_reservation, check_and_reserve,
}

index_reservation_ok :
    (id at flat : ℕ) (e : RiskEngine)
    → (index_reservation id at e).0 ≡ ok flat
    → (index_reservation id at e).1
      ≡ record e { reservation_index = (index_reservation id at e).1.reservation_index }
unfolding index_reservation
index_reservation_ok id at flat e h = ground arith

-- What an accepted order found.
record Reserved (o : NewOrder) (e e' : RiskEngine) (slot : ℕ) (a : AccountState)
    (buys sells open_orders : ℕ) : Type 0 where
  registered : account_slot e o.account_id ≡ some slot
  account : get_or e.accounts slot none ≡ some a
  passed : evaluate_limits a o ≡ ok (buys, sells, open_orders)
  enabled : e.killed ≡ false
  positive : 0 < o.quantity
  fresh : at_most o.order_id e.maximum_order_id ≡ false
  charged :
      e'.accounts
      ≡ set e.accounts slot (
          some
            (record a { reserved_buys = buys; reserved_sells = sells; open_orders = open_orders }))
  marked : e'.maximum_order_id ≡ some o.order_id

check_and_reserve_ok :
    (o : NewOrder) (e : RiskEngine)
    → (check_and_reserve o e).0 ≡ ok tt
    → (slot : ℕ) × (a : AccountState) × (b s n : ℕ) × Reserved o e
        (check_and_reserve o e).1
        slot
        a
        b
        s
        n
unfolding check_and_reserve
check_and_reserve_ok o e h = elim (Option-cases (account_slot e o.account_id)) [
  | inl k ↦ absurd (ground (arith, k))
  | inr (slot, k) ↦ elim (Option-cases (get_or e.accounts slot none)) [
    | inl k' ↦ absurd (ground (arith, k, k'))
    | inr (a, k') ↦ elim (Result-cases (evaluate_limits a o)) [
      | inr (x, v) ↦ absurd (ground (arith, k, k', v))
      | inl (t, v) ↦ (slot, a, t.0, t.1, t.2, accepted slot a t k k' v)
    ]
  ]
]
  where
    accepted :
        (slot : ℕ) (a : AccountState) (t : ℕ × ℕ × ℕ)
        → account_slot e o.account_id ≡ some slot
        → get_or e.accounts slot none ≡ some a
        → evaluate_limits a o ≡ ok t
        → Reserved o e (check_and_reserve o e).1 slot a t.0 t.1 t.2
    accepted slot a t k k' v =
        elim (Option-cases (free_link (get_elem? e.reservations e.reservation_free_head))) [
          | inl l ↦ absurd (ground (arith, k, k', v, l))
          | inr (next, l) ↦
              elim (Result-cases (index_reservation o.order_id e.reservation_free_head e).0) [
                | inr (x, q) ↦ absurd (ground (arith, k, k', v, l, q))
                | inl (flat, q) ↦ ground (
                  arith,
                  k,
                  k',
                  v,
                  l,
                  q,
                  index_reservation_ok o.order_id e.reservation_free_head flat e q,
                )
              ]
        ]

-- An accepted order comes from a registered account whose limits admit it while nothing is switched
-- off, its identifier lies above every one accepted before and becomes the watermark, and exactly
-- that account is charged: the quantity on the order's side and one open order.
pub check_and_reserve-Admits :
    (o : NewOrder) (e : RiskEngine)
    → (check_and_reserve o e).0 ≡ ok tt
    → (slot : ℕ) × (a : AccountState) × (account_slot e o.account_id ≡ some slot)
      × (get_or e.accounts slot none ≡ some a)
      × Admits a o
      × (e.killed ≡ false)
      × (0 < o.quantity)
      × (at_most o.order_id e.maximum_order_id ≡ false)
      × ((check_and_reserve o e).1.maximum_order_id ≡ some o.order_id)
      × ((check_and_reserve o e).1.accounts
          ≡ set e.accounts slot (
              some (record a {
                reserved_buys = buys_with a o;
                reserved_sells = sells_with a o;
                open_orders = a.open_orders + 1;
              })))
check_and_reserve-Admits o e h =
    let (slot, a, b, s, n, r) = check_and_reserve_ok o e h in
    let (v, eb, es, en) = evaluate_limits_sound a o b s n r.passed in
    (
      slot,
      a,
      r.registered,
      r.account,
      v,
      r.enabled,
      r.positive,
      r.fresh,
      r.marked,
      rw (← eb, ← es, ← en) r.charged,
    )

-- Identifiers rise: of two accepted orders, the second right after the first, the second has the
-- greater identifier, so no identifier is accepted twice.
pub check_and_reserve_rises :
    (first second : NewOrder) (e : RiskEngine)
    → (check_and_reserve first e).0 ≡ ok tt
    → (check_and_reserve second (check_and_reserve first e).1).0 ≡ ok tt
    → first.order_id < second.order_id
check_and_reserve_rises first second e h k =
    let (_, _, _, _, _, r) = check_and_reserve_ok first e h in
    let (_, _, _, _, _, q) = check_and_reserve_ok second (check_and_reserve first e).1 k in
    ground (arith, r.marked, q.fresh)
