-- ===== src/Book/Levels/Changes.antt =====
-- crates/hft-book/src/lib.rs: `LevelIndex::insert` and `LevelIndex::remove` on a sorted directory whose
-- slots are in use or in the pool.
use hft_engine_rs.Prelude.{
  ℕ, ◌<◌, ◌≡◌, refl, ap, sym, ◌∙◌, Option, none, some, Bool, true, false, Bool-cases, inl, inr,
  arith, if◌then◌else◌,
}
use hft_engine_rs.Prelude.Int.{ℤ, eqb_ℤ}
use hft_engine_rs.Book.Levels.{LevelIndex, listed, position, find, insert, remove, is_full}
use hft_engine_rs.Book.Levels.Order.{slot_of}
use hft_engine_rs.Book.Levels.Map.{slot_of-insert_at, slot_of-remove_from}
use hft_engine_rs.Book.Levels.Directory.{
  IsDirectory, next_free, place, find_lem, found_before, entries-insert, entries-remove,
  insert-IsDirectory, remove-IsDirectory, remove-sizes,
}
use hft_engine_rs.Book.Levels.Pool.{
  uses, IsComplete, insert-IsComplete, remove-IsComplete, next_free-IsUnused,
}

pub handed :
    (d : Bool) (p : ℤ) (index : LevelIndex)
    → is_full index ≡ false
    → (insert p d index).0 ≡ some (next_free index)
unfolding insert is_full
handed d p index f = rw f refl

-- What cannot be inserted or removed leaves the directory as it was.
pub refused_insert :
    (d : Bool) (p : ℤ) (index : LevelIndex) → is_full index ≡ true → (insert p d index).1 ≡ index
unfolding insert is_full
refused_insert d p index f = rw f refl

pub refused_hands :
    (d : Bool) (p : ℤ) (index : LevelIndex) → is_full index ≡ true → (insert p d index).0 ≡ none
unfolding insert is_full
refused_hands d p index f = rw f refl

pub refused_remove :
    (d : Bool) (p : ℤ) (index : LevelIndex) → find index p d ≡ none → (remove p d index).1 ≡ index
unfolding remove find
refused_remove d p index f = elim (Bool-cases (position index p d).1) [
  | inl b ↦ absurd (ground (arith, f, b))
  | inr b ↦ rw b refl
]

-- In a sorted directory with a free slot, each of whose level slots is either in use or in the pool,
-- once: inserting a price that is not listed hands out the top of the pool, a level slot not in use
-- before, leaves a directory that is sorted and each of whose slots is again in use or in the pool, and
-- the price is then found at that slot and every other price where it was.
pub insert_lem :
    (d : Bool) (p : ℤ) (levels : ℕ) (index : LevelIndex)
    → IsDirectory d levels index
    → IsComplete levels index
    → is_full index ≡ false
    → find index p d ≡ none
    → ((insert p d index).0 ≡ some (next_free index))
      × (next_free index < levels)
      × (uses (next_free index) (listed index) ≡ 0)
      × IsDirectory d levels (insert p d index).1
      × IsComplete levels (insert p d index).1
      × ((q : ℤ)
          → find (insert p d index).1 q d
            ≡ (if eqb_ℤ p q then some (next_free index) else find index q d))
insert_lem d p levels index w c f h =
    let missed = sym (find_lem d p levels index w) ∙ h in
    let after = insert-IsDirectory d p levels index w f missed in
    let (low, unused) = next_free-IsUnused d levels index w c f in
    (
      handed d p index f,
      low,
      unused,
      after,
      insert-IsComplete d p levels index w c f,
      λ q.
          find_lem d q levels (insert p d index).1 after
          ∙ ap (slot_of q) (entries-insert d p levels index w f)
          ∙ slot_of-insert_at (place d p index) p (next_free index) q (listed index) missed
          ∙ ap (λ (x : Option ℕ). if eqb_ℤ p q then some (next_free index) else x)
              (sym (find_lem d q levels index w)),
    )

returned :
    (d : Bool) (p : ℤ) (v : ℕ) (index : LevelIndex)
    → find index p d ≡ some v
    → (remove p d index).0 ≡ some v
unfolding remove position
returned d p v index f = let found = found_before d p v 0 index f in rw (found.0, found.1) refl

-- In a sorted directory, each of whose level slots is either in use or in the pool, once: removing a
-- listed price gives back its slot, puts it on top of the pool, leaves a directory that is sorted and
-- each of whose slots is again in use or in the pool, and the price is not found any more and every other
-- price where it was.
pub remove_lem :
    (d : Bool) (p : ℤ) (v levels : ℕ) (index : LevelIndex)
    → IsDirectory d levels index
    → IsComplete levels index
    → find index p d ≡ some v
    → ((remove p d index).0 ≡ some v)
      × (next_free (remove p d index).1 ≡ v)
      × IsDirectory d levels (remove p d index).1
      × IsComplete levels (remove p d index).1
      × ((q : ℤ) → find (remove p d index).1 q d ≡ (if eqb_ℤ p q then none else find index q d))
remove_lem d p v levels index w c f =
    let listed_p = sym (find_lem d p levels index w) ∙ f in
    let after = remove-IsDirectory d p v levels index w f in
    (
      returned d p v index f,
      (remove-sizes d p v levels index w f).3,
      after,
      remove-IsComplete d p v levels index w c f,
      λ q.
          find_lem d q levels (remove p d index).1 after
          ∙ ap (slot_of q) (entries-remove d p v levels index w f)
          ∙ slot_of-remove_from d p v q (listed index) w.0 listed_p
          ∙ ap (λ (x : Option ℕ). if eqb_ℤ p q then none else x)
              (sym (find_lem d q levels index w)),
    )
