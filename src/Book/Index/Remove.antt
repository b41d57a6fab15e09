-- ===== src/Book/Index/Remove.antt =====
-- crates/hft-book/src/lib.rs: `OrderIndex::remove_at` touches its owner through the callback only.
use hft_engine_rs.Prelude.{
  ℕ, zero, suc, ◌%◌, ◌==◌, ◌≡◌, ◌⊎◌, refl, Bool-cases, Option-cases, inl, inr, Option, none, some,
  leb, ltb,
}
use hft_engine_rs.Prelude.Words.{u64_limit, wrap_add}
use hft_engine_rs.Book.Location.{OrderLocation, decode_location}
use hft_engine_rs.Book.Index.{
  OrderIndex, IndexSlot, empty, occupied, slot, capacity, decoded, write_slot, probe_distance,
  probe_start, shift_back, remove_entry, remove_at,
}

slot-cases : (e : IndexSlot) → (e ≡ empty) ⊎ ((id : ℕ) × (encoded : ℕ) × (e ≡ occupied id encoded))
slot-cases empty = inl refl
slot-cases (occupied id encoded) = inr (id, encoded, refl)

-- What the callback maintains, the removal maintains.
module _ {S : Type 0} (f : ℕ → OrderLocation → ℕ → S → S) (P : S → Type 0)
    (keeps : (id : ℕ) (l : OrderLocation) (n : ℕ) (s : S) → P s → P (f id l n s)) where
  shift_back-keeps :
      (rounds hole candidate : ℕ) (index : OrderIndex) (s : S)
      → P s
      → P (shift_back f rounds hole candidate index s).2
  unfolding shift_back
  shift_back-keeps zero hole candidate index s p = p
  shift_back-keeps (suc rounds) hole candidate index s p =
      elim (slot-cases (slot index candidate)) [
        | inl e ↦ rw (shift_back, e) p
        | inr (id, encoded, e) ↦
            elim (Bool-cases (
              ltb (probe_distance index (probe_start index id) hole)
                (probe_distance index (probe_start index id) candidate))) [
                  | inl b ↦
                      elim (Option-cases (decode_location index.levels index.orders encoded)) [
                        | inl d ↦ rw (shift_back, e, b, d) p
                        | inr (moved, d) ↦
                            rw (shift_back, e, b, d)
                              (shift_back-keeps rounds candidate
                                (wrap_add u64_limit candidate 1 % capacity index)
                                (write_slot index hole (occupied id encoded)) (f id moved hole s)
                                (keeps id moved hole s p))
                      ]
                  | inr b ↦
                      rw (shift_back, e, b)
                        (shift_back-keeps rounds hole
                          (wrap_add u64_limit candidate 1 % capacity index) index s p)
                ]
      ]

  remove_entry-keeps :
      (l : Option OrderLocation) (e : IndexSlot) (flat id : ℕ) (index : OrderIndex) (s : S)
      → P s
      → P (remove_entry f l e flat id index s).2
  unfolding remove_entry
  remove_entry-keeps none e flat id index s p = p
  remove_entry-keeps (some l) empty flat id index s p = p
  remove_entry-keeps (some l) (occupied other encoded) flat id index s p =
      elim (Bool-cases (other == id)) [
        | inl b ↦
            rw (remove_entry, b)
              (shift_back-keeps (capacity index) flat (wrap_add u64_limit flat 1 % capacity index)
                index s p)
        | inr b ↦ rw (remove_entry, b) p
      ]

  pub remove_at-keeps :
      (flat id : ℕ) (index : OrderIndex) (s : S) → P s → P (remove_at f flat id index s).2
  unfolding remove_at
  remove_at-keeps flat id index s p = elim (Bool-cases (leb (capacity index) flat)) [
    | inl b ↦ rw b p
    | inr b ↦
        rw b
          (remove_entry-keeps (decoded index (slot index flat)) (slot index flat) flat id index s p)
  ]
