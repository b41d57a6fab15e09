-- ===== src/Book/Levels/Pool.antt =====
-- crates/hft-book/src/lib.rs: the level slots of a `LevelIndex`, those in use and those in its pool.
use hft_engine_rs.Prelude.{
  ℕ, zero, suc, ◌+◌, ◌-◌, ◌<◌, ◌≤◌, ◌==◌, ◌≡◌, refl, ap, ◌∙◌, List, [], ◌∷◌, some, arith, length,
  get_or, get_elem?, set, take, replicate, ltb, Bool, false, if◌then◌else◌, ==_refl,
}
use hft_engine_rs.Prelude.Int.{ℤ}
use hft_engine_rs.Book.Levels.{
  LevelIndex, listed, entry_at, no_entry, countdown, new, find, insert, remove, is_full,
}
use hft_engine_rs.Book.Levels.Lists.{get_or-take}
use hft_engine_rs.Book.Levels.Map.{insert_at, remove_from}
use hft_engine_rs.Book.Levels.Directory.{
  IsDirectory, next_free, place, has_free, found_before, entries-insert, entries-remove,
  found_place,
}

-- 1 where the slots are the same, else 0.
abbrev pub once : ℕ → ℕ → ℕ
once v x = if v == x then 1 else 0

-- How often a slot stands in a list, and in the entries of a directory.
abbrev pub count : ℕ → List ℕ → ℕ
count v [] = 0
count v (x ∷ xs) = once v x + count v xs

abbrev pub uses : ℕ → List (ℤ × ℕ) → ℕ
uses v [] = 0
uses v (e ∷ es) = once v e.1 + uses v es

-- How often a level slot is in use or free.
abbrev pub occurrences : ℕ → LevelIndex → ℕ
occurrences v index = uses v (listed index) + count v (take index.free_len index.free)

-- Each level slot is either in use, once, or in the pool, once, and nothing else is.
abbrev pub IsComplete : ℕ → LevelIndex → Type 0
IsComplete levels index = (v : ℕ) → occurrences v index ≡ (if ltb v levels then 1 else 0)

uses-insert_at :
    (v at : ℕ) (e : ℤ × ℕ) (es : List (ℤ × ℕ)) → uses v (insert_at at e es) ≡ once v e.1 + uses v es
uses-insert_at v zero e es = refl
uses-insert_at v (suc at) e [] = refl
uses-insert_at v (suc at) e (x ∷ es) = omega (arith, uses-insert_at v at e es)

entry_inj : (x e : ℤ × ℕ) → some x ≡ some e → x ≡ e
entry_inj x e h = cc

uses-remove_from :
    (v at : ℕ) (e : ℤ × ℕ) (es : List (ℤ × ℕ))
    → get_elem? es at ≡ some e
    → uses v es ≡ once v e.1 + uses v (remove_from at es)
uses-remove_from v zero e [] h = absurd (ground arith)
uses-remove_from v zero e (x ∷ es) h = ap (λ (y : ℤ × ℕ). once v y.1 + uses v es) (entry_inj x e h)
uses-remove_from v (suc at) e [] h = absurd (ground arith)
uses-remove_from v (suc at) e (x ∷ es) h = omega (arith, uses-remove_from v at e es h)

count-take-suc :
    (v k : ℕ) (xs : List ℕ)
    → k < length xs
    → count v (take (suc k) xs) ≡ once v (get_or xs k 0) + count v (take k xs)
count-take-suc v k [] h = absurd (omega arith)
count-take-suc v zero (x ∷ xs) h = refl
count-take-suc v (suc k) (x ∷ xs) h = omega (arith, count-take-suc v k xs (omega arith))

count-take-set :
    (v k x : ℕ) (xs : List ℕ)
    → k < length xs
    → count v (take (suc k) (set xs k x)) ≡ once v x + count v (take k xs)
count-take-set v k x [] h = absurd (omega arith)
count-take-set v zero x (y ∷ xs) h = refl
count-take-set v (suc k) x (y ∷ xs) h = omega (arith, count-take-set v k x xs (omega arith))

pool_after :
    (d : Bool) (p : ℤ) (index : LevelIndex)
    → is_full index ≡ false
    → ((insert p d index).1.free ≡ index.free)
      × ((insert p d index).1.free_len ≡ index.free_len - 1)
unfolding insert is_full
pool_after d p index f = rw f (refl, refl)

-- The slot on top of the pool, taken off it.
top_of_pool :
    (v levels : ℕ) (d : Bool) (index : LevelIndex)
    → IsDirectory d levels index
    → is_full index ≡ false
    → count v (take index.free_len index.free)
      ≡ once v (next_free index) + count v (take (index.free_len - 1) index.free)
top_of_pool v levels d index w f =
    let full : index.free_len ≡ suc (index.free_len - 1) = omega (arith, has_free index f) in
    ap (λ (k : ℕ). count v (take k index.free)) full
    ∙ count-take-suc v (index.free_len - 1) index.free (omega (arith, has_free index f, w.1, w.3))

pub insert-occurrences :
    (v : ℕ) (d : Bool) (p : ℤ) (levels : ℕ) (index : LevelIndex)
    → IsDirectory d levels index
    → is_full index ≡ false
    → occurrences v (insert p d index).1 ≡ occurrences v index
insert-occurrences v d p levels index w f =
    let (same, less) = pool_after d p index f in
    let used =
      ap (uses v) (entries-insert d p levels index w f)
      ∙ uses-insert_at v (place d p index) (p, next_free index) (listed index) in
    let free =
      ap (λ (k : ℕ). count v (take k (insert p d index).1.free)) less
      ∙ ap (λ (xs : List ℕ). count v (take (index.free_len - 1) xs)) same in
    omega (arith, used, free, top_of_pool v levels d index w f)

pub insert-IsComplete :
    (d : Bool) (p : ℤ) (levels : ℕ) (index : LevelIndex)
    → IsDirectory d levels index
    → IsComplete levels index
    → is_full index ≡ false
    → IsComplete levels (insert p d index).1
insert-IsComplete d p levels index w c f v = insert-occurrences v d p levels index w f ∙ c v

once_self : (v : ℕ) → once v v ≡ 1
once_self v = rw (==_refl v) refl

within : (v levels n : ℕ) → n ≡ (if ltb v levels then 1 else 0) → 1 ≤ n → (v < levels) × (n ≡ 1)
within v levels n e h = ground arith

-- The slot that is next to hand out is one of the level slots, and not in use.
pub next_free-IsUnused :
    (d : Bool) (levels : ℕ) (index : LevelIndex)
    → IsDirectory d levels index
    → IsComplete levels index
    → is_full index ≡ false
    → (next_free index < levels) × (uses (next_free index) (listed index) ≡ 0)
next_free-IsUnused d levels index w c f =
    let v = next_free index in
    let top = top_of_pool v levels d index w f in
    let (low, one) =
      within v levels (occurrences v index) (c v) (omega (arith, top, once_self v)) in
    (low, omega (arith, one, top, once_self v))

-- The entry that is removed, and what is left.
remove_pool :
    (d : Bool) (p : ℤ) (v : ℕ) (index : LevelIndex)
    → find index p d ≡ some v
    → ((remove p d index).1.free ≡ set index.free index.free_len v)
      × ((remove p d index).1.free_len ≡ suc index.free_len)
unfolding remove
remove_pool d p v index f =
    let found = found_before d p v 0 index f in rw (found.0, found.1) (refl, omega arith)

pub remove-IsComplete :
    (d : Bool) (p : ℤ) (v levels : ℕ) (index : LevelIndex)
    → IsDirectory d levels index
    → IsComplete levels index
    → find index p d ≡ some v
    → IsComplete levels (remove p d index).1
remove-IsComplete d p v levels index w c f s =
    let (pool, more) = remove_pool d p v index f in
    let low = found_place d p v levels index w f in
    let (found, slot) = found_before d p v levels index f in
    let used = ap (uses s) (entries-remove d p v levels index w f) in
    let before =
      uses-remove_from s (place d p index) (entry_at index (place d p index)) (listed index)
        (get_or-take (place d p index) index.len index.entries no_entry low (omega arith))
      ∙ ap (λ (x : ℕ). once s x + uses s (remove_from (place d p index) (listed index))) slot in
    let free =
      ap (λ (k : ℕ). count s (take k (remove p d index).1.free)) more
      ∙ (ap (λ (xs : List ℕ). count s (take (suc index.free_len) xs)) pool
          ∙ count-take-set s index.free_len v index.free (omega arith)) in
    omega (arith, used, before, free, c s)

count_below : (v n : ℕ) → count v (countdown n) ≡ (if ltb v n then 1 else 0)
count_below v zero = ground arith
count_below v (suc n) = ground (arith, count_below v n)

take-countdown : (n : ℕ) → take n (countdown n) ≡ countdown n
take-countdown zero = refl
take-countdown (suc n) = ap (◌∷◌ n) (take-countdown n)

length-countdown : (n : ℕ) → length (countdown n) ≡ n
length-countdown zero = refl
length-countdown (suc n) = ap suc (length-countdown n)

length-replicate : (n : ℕ) → length (replicate n no_entry) ≡ n
length-replicate zero = refl
length-replicate (suc n) = ap suc (length-replicate n)

-- A new directory lists nothing and has every slot in its pool.
pub new-IsDirectory : (d : Bool) (levels : ℕ) → IsDirectory d levels (new levels)
unfolding new
new-IsDirectory d levels = (tt, omega arith, length-replicate levels, length-countdown levels)

pub new-IsComplete : (levels : ℕ) → IsComplete levels (new levels)
unfolding new
new-IsComplete levels v = omega (arith, ap (count v) (take-countdown levels), count_below v levels)
