-- ===== src/PfAllocator/Alloc.antt =====
-- kernel/PFAllocator.cpp: `allocChunk`, `freeChunk` and `removeChunk`, over the lists of the parent.
pub mod Correct
pub mod Free
pub mod FreeCorrect
pub mod Remove
pub mod Take
pub mod Walk
use own_os.Prelude.{ℕ, zero, suc, ◌/◌, none, some, ltb, leb, ◌==◌, if◌then◌else◌}
use own_os.Prelude.Words.{add32, sub32, mul32}
use own_os.PfAllocator.{
  PfAllocator, Cmd, ok, panic, out_of_fuel, and_then, ◌>>=◌, Slot, free_head, used_head, np_of,
  segment, cannot_allocate_segment, invalid_chunk_freed, deref, put, assign, set_begin, set_blocks,
  free_seg, get_seg, get_seg_loop, add_seg, add_loop, add_between, add_last, used_chunk, used_loop,
  chunk_size, round_down, end_of, fuel,
}

-- The first `n` blocks of segment `c` become segment `useg`.
pub shrink : (n useg c : ℕ) → PfAllocator → PfAllocator
shrink n useg c s =
    let taken = segment (s.segs useg).free (s.segs c).begin n none in
    let s = put useg taken s in
    let s = set_blocks c (sub32 (s.segs c).blocks n) s in
    set_begin c (add32 (s.segs c).begin (mul32 n chunk_size)) s

-- Segment `c`, which `slot` points at, leaves the list if it is empty.
pub drop_empty : (c : ℕ) → Slot → PfAllocator → PfAllocator
drop_empty c slot s =
    if (s.segs c).blocks == 0 then (let s = free_seg c s in assign slot (s.segs c).np s) else s

pub alloc_loop : ℕ → (n useg : ℕ) → Slot → Cmd ℕ
alloc_loop zero n useg slot s = out_of_fuel
alloc_loop (suc left) n useg slot s = elim (deref slot s) [
  | none ↦ panic cannot_allocate_segment
  | some c ↦
      let rest = alloc_loop left n useg (np_of c) s in
      if leb n (s.segs c).blocks
      then and_then (used_chunk useg (drop_empty c slot (shrink n useg c s)))
          (λ _ s. ok (s.segs useg).begin s)
      else rest
]

-- `allocChunk`
unfoldable pub alloc_chunk : ℕ → Cmd ℕ
unfolding get_seg get_seg_loop used_chunk used_loop alloc_loop shrink drop_empty
alloc_chunk n = do useg ← get_seg; alloc_loop fuel n useg free_head

pub free_loop : ℕ → (addr : ℕ) → Slot → Cmd (Unit {0})
free_loop zero addr slot s = out_of_fuel
free_loop (suc left) addr slot s = elim (deref slot s) [
  | none ↦ panic invalid_chunk_freed
  | some tmp ↦
      let rest = free_loop left addr (np_of tmp) s in
      if (s.segs tmp).begin == addr then add_seg tmp (assign slot (s.segs tmp).np s) else rest
]

-- `freeChunk`
unfoldable pub free_chunk : (addr : ℕ) → Cmd (Unit {0})
unfolding add_seg add_loop add_between add_last free_loop
free_chunk addr = free_loop fuel addr used_head

abbrev max : ℕ → ℕ → ℕ
max a b = if leb b a then a else b

abbrev min : ℕ → ℕ → ℕ
min a b = if leb a b then a else b

-- Segment `c` keeps the blocks before the region; a new one behind it takes those that follow.
pub split_range : (l_begin l_blocks r_begin r_blocks c : ℕ) → Cmd (Unit {0})
split_range l_begin l_blocks r_begin r_blocks c = do
  r ← get_seg
  λ s.
      let s = set_blocks c l_blocks (set_begin c l_begin s) in
      let right = segment (s.segs r).free r_begin r_blocks (s.segs c).np in
      ok tt (assign (np_of c) (some r) (put r right s))

-- The body of the loop of `removeChunk` at segment `c`, for the rounded region from `b` to `e`.
pub remove_step : (b e c : ℕ) → Cmd (Unit {0})
remove_step b e c s =
    let l_begin = (s.segs c).begin in
    let r_end = end_of (s.segs c).begin (s.segs c).blocks in
    let l_end = max l_begin b in
    let r_begin = min r_end e in
    let l_blocks = sub32 l_end l_begin / chunk_size in
    let r_blocks = sub32 r_end r_begin / chunk_size in
    if leb l_begin e
    then (if ltb l_begin l_end
        then (if ltb r_begin r_end
            then split_range l_begin l_blocks r_begin r_blocks c s
            else ok tt (set_blocks c l_blocks (set_begin c l_begin s)))
        else (if ltb r_begin r_end
            then ok tt (set_blocks c r_blocks (set_begin c r_begin s))
            else ok tt s))
    else ok tt s

pub remove_loop : ℕ → (b e : ℕ) → Slot → Cmd (Unit {0})
remove_loop zero b e slot s = out_of_fuel
remove_loop (suc left) b e slot s = elim (deref slot s) [
  | none ↦ ok tt s
  | some c ↦ and_then (remove_step b e c s) (λ _ s. remove_loop left b e (np_of c) s)
]

-- `removeChunk`, whose result no caller uses (it has no `return`).
unfoldable pub remove_chunk : (begin end : ℕ) → Cmd (Unit {0})
unfolding remove_loop remove_step split_range get_seg get_seg_loop
remove_chunk begin end =
    remove_loop fuel (round_down begin) (round_down (add32 end (sub32 chunk_size 1))) free_head
