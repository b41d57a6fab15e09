-- ===== src/Book/Levels.antt =====
-- crates/hft-book/src/lib.rs: `LevelIndex`, the sorted index of one side's occupied level slots and
-- the pool of its free ones. `LEVELS` is the length of both arrays. A read of `entries` past its
-- length, which would panic, reads a default here; the positions read lie below `len`.
pub mod Order
pub mod Lists
pub mod Map
pub mod Directory
pub mod Pool
pub mod Changes
mod Tests
use hft_engine_rs.Prelude.{
  ℕ, zero, suc, ◌+◌, ◌-◌, ◌==◌, Bool, true, false, ◌&&◌, Option, none, some, List, [], ◌∷◌, ◌++◌,
  ltb, length, get_or, set, take, drop, replicate, if◌then◌else◌,
}
use hft_engine_rs.Prelude.Int.{ℤ, pos, ltb_ℤ, eqb_ℤ}

pub record LevelIndex : Type 0 where
  pub len : ℕ
  pub entries : List (ℤ × ℕ)
  pub free : List ℕ
  pub free_len : ℕ

abbrev pub no_entry : ℤ × ℕ
no_entry = (pos 0, 0)

-- `LEVELS - 1`, …, 1, 0.
abbrev pub countdown : ℕ → List ℕ
countdown zero = []
countdown (suc n) = n ∷ countdown n

unfoldable pub new : ℕ → LevelIndex
new levels = record {
  len = 0;
  entries = replicate levels no_entry;
  free = countdown levels;
  free_len = levels;
}

unfoldable pub is_full : LevelIndex → Bool
is_full index = index.free_len == 0

-- Whether a listed price stands before another: above it in a descending index, else below.
abbrev pub before : Bool → ℤ → ℤ → Bool
before true listed price = ltb_ℤ price listed
before false listed price = ltb_ℤ listed price

-- The number of entries that stand before the price, in a list where those come first.
abbrev pub partition_point : Bool → ℤ → List (ℤ × ℕ) → ℕ
partition_point descending price [] = 0
partition_point descending price (e ∷ es) =
    if before descending e.0 price then suc (partition_point descending price es) else 0

-- The entries in use, best first.
abbrev pub listed : LevelIndex → List (ℤ × ℕ)
listed index = take index.len index.entries

abbrev pub entry_at : LevelIndex → ℕ → ℤ × ℕ
entry_at index at = get_or index.entries at no_entry

unfoldable pub position : LevelIndex → ℤ → Bool → ℕ × Bool
position index price descending =
    let at = partition_point descending price (listed index) in
    (at, ltb at index.len && eqb_ℤ (entry_at index at).0 price)

unfoldable pub find : LevelIndex → ℤ → Bool → Option ℕ
unfolding position
find index price descending =
    let (at, found) = position index price descending in
    if found then some (entry_at index at).1 else none

-- `slice::copy_within(start..end, destination)`.
abbrev pub copy_within {ℓ} : {A : Type ℓ} → ℕ → ℕ → ℕ → List A → List A
copy_within start end destination xs =
    take destination xs
    ++ (take (end - start) (drop start xs) ++ drop (destination + (end - start)) xs)

-- The level slot taken from the pool, and the index with its entry put in order.
unfoldable pub insert : ℤ → Bool → LevelIndex → Option ℕ × LevelIndex
unfolding position
insert price descending index =
    let (at, found) = position index price descending in
    let level_index = get_or index.free (index.free_len - 1) 0 in
    if index.free_len == 0 then (none, index) else (
      some level_index,
      record index {
        free_len = index.free_len - 1;
        entries = set (copy_within at index.len (at + 1) index.entries) at (price, level_index);
        len = index.len + 1;
      },
    )

unfoldable pub remove : ℤ → Bool → LevelIndex → Option ℕ × LevelIndex
unfolding position
remove price descending index =
    let (at, found) = position index price descending in
    let level_index = (entry_at index at).1 in
    if found
    then (
      some level_index,
      record index {
        entries = copy_within (at + 1) index.len at index.entries;
        len = index.len - 1;
        free = set index.free index.free_len level_index;
        free_len = index.free_len + 1;
      },
    )
    else (none, index)
