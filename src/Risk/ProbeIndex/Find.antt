-- ===== src/Risk/ProbeIndex/Find.antt =====
-- crates/hft-risk/src/lib.rs: what `insert` of the hash index does, and what is found after it.
use hft_engine_rs.Prelude.{ℕ, zero, suc, ◌+◌, ◌≡◌, refl, err, arith}
use hft_engine_rs.Risk.ProbeIndex.{
  ProbeError, ProbeIndex, capacity, probe_start, insert_loop, insert,
}

insert_loop_refused :
    (index : ProbeIndex) (key value start rounds offset : ℕ) (x : ProbeError)
    → (insert_loop index key value start rounds offset).0 ≡ err x
    → (insert_loop index key value start rounds offset).1 ≡ index
unfolding insert_loop
insert_loop_refused index key value start zero offset x h = refl
insert_loop_refused index key value start (suc rounds) offset x h =
    ground (arith, insert_loop_refused index key value start rounds (offset + 1) x)

-- A refused insertion leaves the index as it was.
pub insert_refused :
    (key value : ℕ) (index : ProbeIndex) (x : ProbeError)
    → (insert key value index).0 ≡ err x
    → (insert key value index).1 ≡ index
unfolding insert
insert_refused key value index x h =
    ground (
      arith,
      insert_loop_refused index key (value + 1) (probe_start index key) (capacity index) 0 x,
    )
