-- ===== src/Book/Levels/Directory.antt =====
-- crates/hft-book/src/lib.rs: a `LevelIndex` is a finite map from prices to level slots.
use hft_engine_rs.Prelude.{
  ℕ, zero, suc, ◌+◌, ◌-◌, ◌≤◌, ◌<◌, ◌&&◌, ◌≡◌, refl, ap, sym, subst, ◌∙◌, List, [], ◌∷◌, none, some,
  arith, length, drop, get_or, get_elem?, set, length-set, Bool, true, false, Bool-cases, inl, inr,
  if◌then◌else◌, ltb, ltb→lt,
}
use hft_engine_rs.Prelude.Int.{ℤ, eqb_ℤ}
use hft_engine_rs.Book.Levels.{
  LevelIndex, partition_point, listed, entry_at, no_entry, position, find, insert, remove, is_full,
  copy_within,
}
use hft_engine_rs.Book.Levels.Lists.{
  length-copy_within, open_gap, close_gap, get_or-take, length-take_le, get_or-set_self,
}
use hft_engine_rs.Book.Levels.Order.{IsSorted, slot_of, hit, hit-partition_point}
use hft_engine_rs.Book.Levels.Map.{
  insert_at, remove_from, partition_point_le, insert_at-IsSorted, remove_from-IsSorted,
}

-- The entries in use are sorted, and their number and that of the free slots make up the number of the
-- level slots, which is the length of both arrays.
abbrev pub IsDirectory : Bool → ℕ → LevelIndex → Type 0
IsDirectory d levels index =
    IsSorted d (listed index)
    × (index.len + index.free_len ≡ levels)
    × (length index.entries ≡ levels)
    × (length index.free ≡ levels)

-- The slot that the next insertion hands out.
abbrev pub next_free : LevelIndex → ℕ
next_free index = get_or index.free (index.free_len - 1) 0

abbrev pub place : Bool → ℤ → LevelIndex → ℕ
place d p index = partition_point d p (listed index)

place_le :
    (d : Bool) (p : ℤ) (levels : ℕ) (index : LevelIndex)
    → IsDirectory d levels index
    → place d p index ≤ index.len
place_le d p levels index w = omega (
  arith,
  partition_point_le d p (listed index),
  length-take_le index.len index.entries (omega arith),
)

get_elem?_end : (xs : List (ℤ × ℕ)) (i : ℕ) → length xs ≤ i → get_elem? xs i ≡ none
get_elem?_end [] i h = refl
get_elem?_end (x ∷ xs) zero h = absurd (omega arith)
get_elem?_end (x ∷ xs) (suc i) h = get_elem?_end xs i (omega arith)

if_some : (b : Bool) (x v : ℕ) → (if b then some x else none) ≡ some v → (b ≡ true) × (x ≡ v)
if_some true x v h = (refl, ground arith)
if_some false x v h = absurd (ground arith)

pub and_left : (a b : Bool) → (a && b) ≡ true → a ≡ true
and_left true b h = refl
and_left false b h = h

ltb-false : (a b : ℕ) → ltb a b ≡ false → b ≤ a
ltb-false a b h = ground arith

pub has_free : (index : LevelIndex) → is_full index ≡ false → 1 ≤ index.free_len
unfolding is_full
has_free index f = ground arith

-- The slot looked up by binary search is the one that a scan of the entries in use finds.
pub find_lem :
    (d : Bool) (p : ℤ) (levels : ℕ) (index : LevelIndex)
    → IsDirectory d levels index
    → find index p d ≡ slot_of p (listed index)
unfolding find position
find_lem d p levels index w =
    let at = place d p index in
    let e = hit-partition_point d p (listed index) w.0 in
    elim (Bool-cases (ltb at index.len)) [
      | inl b ↦ rw b (
          sym (
            ap (hit p) (
              get_or-take at index.len index.entries no_entry (ltb→lt at index.len b)
                (omega arith)))
          ∙ e)
      | inr b ↦ rw b (
          sym (
            ap (hit p) (
              get_elem?_end (listed index) at (
                omega (
                  arith,
                  length-take_le index.len index.entries (omega arith),
                  ltb-false at index.len b,
                ))))
          ∙ e)
    ]

pub entries-insert :
    (d : Bool) (p : ℤ) (levels : ℕ) (index : LevelIndex)
    → IsDirectory d levels index
    → is_full index ≡ false
    → listed (insert p d index).1 ≡ insert_at (place d p index) (p, next_free index) (listed index)
unfolding insert position is_full
entries-insert d p levels index w f = rw f (
    open_gap (place d p index) index.len index.entries
      (drop ((place d p index + 1) + (index.len - place d p index)) index.entries)
      (p, next_free index) (place_le d p levels index w) (omega (arith, has_free index f)))

pub found_before :
    (d : Bool) (p : ℤ) (v levels : ℕ) (index : LevelIndex)
    → find index p d ≡ some v
    → (position index p d).1 ≡ true × ((entry_at index (place d p index)).1 ≡ v)
unfolding find position
found_before d p v levels index f =
    if_some (position index p d).1 (entry_at index (place d p index)).1 v f

-- A price that is found stands at its place among the entries in use.
pub found_place :
    (d : Bool) (p : ℤ) (v levels : ℕ) (index : LevelIndex)
    → IsDirectory d levels index
    → find index p d ≡ some v
    → place d p index < index.len
unfolding position
found_place d p v levels index w f = ltb→lt (place d p index) index.len (
    and_left (ltb (place d p index) index.len) (eqb_ℤ (entry_at index (place d p index)).0 p)
      (found_before d p v levels index f).0)

pub entries-remove :
    (d : Bool) (p : ℤ) (v levels : ℕ) (index : LevelIndex)
    → IsDirectory d levels index
    → find index p d ≡ some v
    → listed (remove p d index).1 ≡ remove_from (place d p index) (listed index)
unfolding remove position
entries-remove d p v levels index w f =
    let found = found_before d p v levels index f in
    rw found.0 (
      close_gap (place d p index) index.len index.entries
        (drop (place d p index + (index.len - (place d p index + 1))) index.entries)
        (ltb→lt (place d p index) index.len (
          and_left (ltb (place d p index) index.len) (eqb_ℤ (entry_at index (place d p index)).0 p)
            found.0))
        (omega arith))

insert-sizes :
    (d : Bool) (p : ℤ) (levels : ℕ) (index : LevelIndex)
    → IsDirectory d levels index
    → is_full index ≡ false
    → ((insert p d index).1.len + (insert p d index).1.free_len ≡ levels)
      × (length (insert p d index).1.entries ≡ levels)
      × (length (insert p d index).1.free ≡ levels)
unfolding insert is_full
insert-sizes d p levels index w f =
    let at_le = place_le d p levels index w in
    rw f (
      omega (arith, has_free index f),
      length-set (copy_within (place d p index) index.len (place d p index + 1) index.entries)
            (place d p index) (p, next_free index)
          ∙ (length-copy_within (place d p index) index.len (place d p index + 1) index.entries
                at_le (omega arith) (omega (arith, at_le, has_free index f))
              ∙ w.2),
      w.3,
    )

pub insert-IsDirectory :
    (d : Bool) (p : ℤ) (levels : ℕ) (index : LevelIndex)
    → IsDirectory d levels index
    → is_full index ≡ false
    → slot_of p (listed index) ≡ none
    → IsDirectory d levels (insert p d index).1
insert-IsDirectory d p levels index w f h =
    let r = insert-sizes d p levels index w f in
    (
      subst (IsSorted d) (sym (entries-insert d p levels index w f))
          (insert_at-IsSorted d p (next_free index) (listed index) w.0 h),
      r.0,
      r.1,
      r.2,
    )

pub remove-sizes :
    (d : Bool) (p : ℤ) (v levels : ℕ) (index : LevelIndex)
    → IsDirectory d levels index
    → find index p d ≡ some v
    → ((remove p d index).1.len + (remove p d index).1.free_len ≡ levels)
      × (length (remove p d index).1.entries ≡ levels)
      × (length (remove p d index).1.free ≡ levels)
      × (next_free (remove p d index).1 ≡ v)
unfolding remove position
remove-sizes d p v levels index w f =
    let found = found_before d p v levels index f in
    let back : (index.free_len + 1) - 1 ≡ index.free_len = omega arith in
    let placed = ltb→lt (place d p index) index.len (
      and_left (ltb (place d p index) index.len) (eqb_ℤ (entry_at index (place d p index)).0 p)
        found.0) in
    rw found.0 (
      omega arith,
      length-copy_within (place d p index + 1) index.len (place d p index) index.entries
            (omega arith) (omega arith) (omega arith)
          ∙ w.2,
      length-set index.free index.free_len (entry_at index (place d p index)).1 ∙ w.3,
      ap
            (λ (i : ℕ).
              get_or (set index.free index.free_len (entry_at index (place d p index)).1) i 0)
            back
          ∙ get_or-set_self index.free_len index.free (entry_at index (place d p index)).1 0
              (omega arith)
          ∙ found.1,
    )

pub remove-IsDirectory :
    (d : Bool) (p : ℤ) (v levels : ℕ) (index : LevelIndex)
    → IsDirectory d levels index
    → find index p d ≡ some v
    → IsDirectory d levels (remove p d index).1
remove-IsDirectory d p v levels index w f =
    let r = remove-sizes d p v levels index w f in
    (
      subst (IsSorted d) (sym (entries-remove d p v levels index w f))
          (remove_from-IsSorted d (place d p index) (listed index) w.0),
      r.0,
      r.1,
      r.2,
    )
