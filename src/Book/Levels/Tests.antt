-- ===== src/Book/Levels/Tests.antt =====
-- Tests of `LevelIndex` (crates/hft-book/src/lib.rs): a bid directory of three level slots.
use hft_engine_rs.Prelude.{
  zero, suc, arith, ◌<◌, ◌≡◌, refl, true, some, none, [], ◌∷◌, if◌then◌else◌,
}
use hft_engine_rs.Prelude.Int.{ℤ, pos, eqb_ℤ}
use hft_engine_rs.Book.Levels.{
  LevelIndex, new, no_entry, is_full, position, find, insert, remove, listed,
}
use hft_engine_rs.Book.Levels.Order.{slot_of}
use hft_engine_rs.Book.Levels.Directory.{IsDirectory, next_free, find_lem}
use hft_engine_rs.Book.Levels.Pool.{uses, IsComplete}
use hft_engine_rs.Book.Levels.Changes.{insert_lem, remove_lem}

abbrev bids : LevelIndex
bids = record {
  len = 2;
  entries = (pos 105, 1) ∷ (pos 101, 0) ∷ no_entry ∷ [];
  free = 2 ∷ 1 ∷ 0 ∷ [];
  free_len = 1;
}

opened : Unit {0}
unfolding new is_full position find insert remove
opened = tt

insert_runs : insert (pos 105) true (insert (pos 101) true (new 3)).1 ≡ (some 1, bids)
unfolding opened
insert_runs = refl

remove_runs : listed (remove (pos 105) true bids).1 ≡ (pos 101, 0) ∷ []
unfolding opened
remove_runs = refl

bids-IsDirectory : IsDirectory true 3 bids
bids-IsDirectory = ((refl, (tt, tt)), refl, refl, refl)

find_lem_example : find bids (pos 101) true ≡ slot_of (pos 101) (listed bids)
find_lem_example = find_lem true (pos 101) 3 bids bids-IsDirectory

bids-IsComplete : IsComplete 3 bids
bids-IsComplete zero = refl
bids-IsComplete (suc zero) = refl
bids-IsComplete (suc (suc zero)) = refl
bids-IsComplete (suc (suc (suc v))) = ground arith

insert_lem_example :
    ((insert (pos 103) true bids).0 ≡ some 2)
    × (2 < 3)
    × (uses 2 (listed bids) ≡ 0)
    × IsDirectory true 3 (insert (pos 103) true bids).1
    × IsComplete 3 (insert (pos 103) true bids).1
    × ((q : ℤ)
        → find (insert (pos 103) true bids).1 q true
          ≡ (if eqb_ℤ (pos 103) q then some 2 else find bids q true))
unfolding opened
insert_lem_example = insert_lem true (pos 103) 3 bids bids-IsDirectory bids-IsComplete refl refl

remove_lem_example :
    ((remove (pos 105) true bids).0 ≡ some 1)
    × (next_free (remove (pos 105) true bids).1 ≡ 1)
    × IsDirectory true 3 (remove (pos 105) true bids).1
    × IsComplete 3 (remove (pos 105) true bids).1
    × ((q : ℤ)
        → find (remove (pos 105) true bids).1 q true
          ≡ (if eqb_ℤ (pos 105) q then none else find bids q true))
unfolding opened
remove_lem_example = remove_lem true (pos 105) 1 3 bids bids-IsDirectory bids-IsComplete refl
