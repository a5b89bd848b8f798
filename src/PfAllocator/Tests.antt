-- ===== src/PfAllocator/Tests.antt =====
-- Runs of the allocator, and its theorems at a small state.
use own_os.Prelude.{
  ℕ, ◌+◌, ◌*◌, ◌≡◌, refl, true, false, Option, none, some, [], ◌∷◌, ◌++◌, arith, inl, ltb, leb,
  ◌==◌, if◌then◌else◌, ◌&&◌,
}
use own_os.PfAllocator.{
  Seg, PfAllocator, Run, ok, panic, init, segment, put, get_seg, get_seg_loop, and_then, add_chunk,
  chunk_size,
}
use own_os.PfAllocator.Alloc.{alloc_chunk, free_chunk, remove_step}
use own_os.PfAllocator.Alloc.Free.{freed, take_at}
use own_os.PfAllocator.Alloc.Remove.{
  Aligned, remove_step_grows, remove_step_cuts, remove_step_splits,
}
use own_os.PfAllocator.Chain.{cell, Cells, Chain}
use own_os.PfAllocator.Conserve.{Conserves, alloc_chunk-Conserves}
use own_os.PfAllocator.Insert.{insert_free}
use own_os.PfAllocator.Pages.{cover, hits}
use own_os.PfAllocator.Sharing.{comes_last, free_chunk-IsState, free_chunk-Below, free_chunk_breaks}
use own_os.PfAllocator.State.{IsState}

-- One free range of 16 blocks, and two used ones.
abbrev segs : ℕ → Seg
segs i =
    if i == 0
    then segment false 0x400000 16 none
    else (if i == 1
        then segment false 0x100000 2 (some 2)
        else (if i == 2 then segment false 0x200000 1 none else segment true 0 0 none))

abbrev small : PfAllocator
small = record { segs = segs; seg_free = some 0; seg_used = some 1 }

abbrev fs : Cells
fs = cell 0 0x400000 16 ∷ []

abbrev us : Cells
us = cell 1 0x100000 2 ∷ cell 2 0x200000 1 ∷ []

small-IsState : IsState fs us small
small-IsState = record {
  free = (refl, record { in_use = refl; begin = refl; blocks = refl }, refl, refl);
  used = (
    refl,
    record { in_use = refl; begin = refl; blocks = refl },
    refl,
    (refl, record { in_use = refl; begin = refl; blocks = refl }, refl, refl),
  );
  apart = λ i h. ground arith;
  free_in = λ i h. ground arith;
  used_in = λ i h. ground arith;
}

-- The address that a run returns.
abbrev result : Run ℕ → Option ℕ
result (ok a s) = some a
result (panic p) = none
result Run.out_of_fuel = none

-- Two ranges are registered, two blocks are taken from the first, and then three.
alloc_runs :
    result (
      and_then (add_chunk 0x1000 0x4000 init) λ _ s.
        and_then
          (add_chunk 0x100000 0x200000 s)
          λ _ s. and_then (alloc_chunk 2 s) λ _ s. alloc_chunk 3 s)
    ≡ some 0x100000
unfolding add_chunk alloc_chunk init
alloc_runs = refl

alloc_chunk-Conserves_example : Conserves 4 fs us small (alloc_chunk 4 small)
alloc_chunk-Conserves_example = alloc_chunk-Conserves 4 fs us small small-IsState (omega arith)

-- The last used range goes back.
free_chunk-IsState_example :
    (t : PfAllocator) × (free_chunk 0x200000 small ≡ ok tt t)
    × IsState (insert_free (cell 2 0x200000 1) fs) (cell 1 0x100000 2 ∷ []) t
    × ((a : ℕ)
        → cover a (insert_free (cell 2 0x200000 1) fs) + cover a (cell 1 0x100000 2 ∷ [])
          ≡ cover a fs + cover a us)
unfolding take_at
free_chunk-IsState_example =
    free_chunk-IsState 0x200000 fs us small (freed (cell 2 0x200000 1) (cell 1 0x100000 2 ∷ []) [])
      small-IsState refl (omega arith) (omega arith) (inl refl)

-- It lies below the free range, and comes behind it.
free_chunk-Below_run :
    (t : PfAllocator) × (free_chunk 0x200000 small ≡ ok tt t)
    × IsState (fs ++ cell 2 0x200000 1 ∷ []) (cell 1 0x100000 2 ∷ []) t
unfolding take_at
free_chunk-Below_run =
    free_chunk-Below 0x200000 fs us small (freed (cell 2 0x200000 1) (cell 1 0x100000 2 ∷ []) [])
      small-IsState refl (omega arith) (omega arith) refl (omega arith)

-- The first used range goes back, and the second is then free and used.
free_chunk_breaks_example :
    (t : PfAllocator) × (free_chunk 0x100000 small ≡ ok tt t)
    × Chain t.segs t.seg_free (fs ++ cell 1 0x100000 2 ∷ cell 2 0x200000 1 ∷ [])
    × Chain t.segs t.seg_used (cell 2 0x200000 1 ∷ [])
    × ((ds ws : Cells) → ¬ IsState ds ws t)
unfolding take_at comes_last
free_chunk_breaks_example =
    free_chunk_breaks 0x100000 fs us small
      (freed (cell 1 0x100000 2) (cell 2 0x200000 1 ∷ []) (cell 2 0x200000 1 ∷ [])) small-IsState
      refl (cell 2 0x200000 1) [] refl refl

range-Aligned : Aligned small 0
range-Aligned = record { aligned = refl; below = omega arith }

-- A region four blocks behind the free range: the range grows by those four.
remove_step_grows_example :
    (t : PfAllocator) × (remove_step 0x414000 0x420000 0 small ≡ ok tt t)
    × ((t.segs 0).begin ≡ 0x400000)
    × ((t.segs 0).begin + (t.segs 0).blocks * chunk_size ≡ 0x414000)
remove_step_grows_example =
    remove_step_grows 0x414000 0x420000 0 small range-Aligned refl (omega arith) (omega arith)
      (omega arith) (omega arith)

remove_step_cuts_run :
    (t : PfAllocator) × (remove_step 0x408000 0x420000 0 small ≡ ok tt t)
    × ((x : ℕ)
        → hits x (cell 0 (t.segs 0).begin (t.segs 0).blocks)
          ≡ (if leb 0x408000 x && ltb x 0x420000 then 0 else hits x (cell 0 0x400000 16)))
remove_step_cuts_run =
    remove_step_cuts 0x408000 0x420000 0 small range-Aligned refl (omega arith) (omega arith)
      (omega arith) refl (inl (omega arith, omega arith))

abbrev small3 : PfAllocator
small3 = put 3 (segment false 0 0 none) small

small-get_seg : get_seg small ≡ ok 3 small3
unfolding get_seg get_seg_loop
small-get_seg = refl

remove_step_splits_run :
    (t : PfAllocator) × (remove_step 0x404000 0x408000 0 small ≡ ok tt t)
    × ((t.segs 0).np ≡ some 3)
    × ((t.segs 3).np ≡ none)
    × ((x : ℕ)
        → hits x (cell 0 (t.segs 0).begin (t.segs 0).blocks)
            + hits x (cell 3 (t.segs 3).begin (t.segs 3).blocks)
          ≡ (if leb 0x404000 x && ltb x 0x408000 then 0 else hits x (cell 0 0x400000 16)))
remove_step_splits_run =
    remove_step_splits 0x404000 0x408000 0 small range-Aligned refl (omega arith) 3 small3
      small-get_seg refl refl (omega arith) (omega arith) refl (omega arith)
