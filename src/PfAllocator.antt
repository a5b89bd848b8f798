-- ===== src/PfAllocator.antt =====
-- kernel/PFAllocator.cpp and include/os/PFAllocator.h: the page-frame allocator. Its two lists run
-- through the `np` fields of a fixed array of segments, so the model keeps the array and the two
-- heads, and a `Seg **` of the source is a `Slot`. A `Seg *` is `none` (NULL) or an array index.
pub mod Alloc
pub mod Chain
pub mod Conserve
pub mod Insert
pub mod Pages
pub mod Sharing
pub mod State
mod Tests
use own_os.Prelude.{
  ℕ, zero, suc, ◌+◌, ◌*◌, ◌/◌, Bool, true, false, ◌&&◌, Option, none, some, ltb, ◌==◌,
  if◌then◌else◌,
}
use own_os.Prelude.Words.{add32, sub32, mul32}

abbrev pub max_num_seg : ℕ
max_num_seg = 128

abbrev pub chunk_size : ℕ
chunk_size = 0x1000

pub record Seg : Type 0 where
  pub free : Bool
  pub begin : ℕ
  pub blocks : ℕ
  pub np : Option ℕ

abbrev pub segment : Bool → ℕ → ℕ → Option ℕ → Seg
segment free begin blocks np = record { free = free; begin = begin; blocks = blocks; np = np }

pub record PfAllocator : Type 0 where
  pub segs : ℕ → Seg
  pub seg_free : Option ℕ
  pub seg_used : Option ℕ

-- What `panic` is called with; it never returns.
pub data Panic : Type 0 where
  cannot_find_free_segment cannot_allocate_segment invalid_chunk_freed : Panic

-- `out_of_fuel`: a loop over a list met more nodes than the array holds, so the list has a cycle.
pub data Run (A : Type 0) : Type 0 where
  ok : A → PfAllocator → Run A
  panic : Panic → Run A
  out_of_fuel : Run A

abbrev pub Cmd : Type 0 → Type 0
Cmd A = PfAllocator → Run A

module _ {A B : Type 0} where
  abbrev pub and_then : Run A → (A → Cmd B) → Run B
  and_then (ok a s) k = k a s
  and_then (panic p) k = panic p
  and_then out_of_fuel k = out_of_fuel

  infixl 5 ◌>>=◌ ◌>>◌
  abbrev pub ◌>>=◌ : Cmd A → (A → Cmd B) → Cmd B
  m >>= k = λ s. and_then (m s) k

  abbrev pub ◌>>◌ : Cmd A → Cmd B → Cmd B
  m >> k = m >>= λ _. k

-- The places that a `Seg **` points at.
pub data Slot : Type 0 where
  free_head used_head : Slot
  np_of : ℕ → Slot

abbrev pub deref : Slot → PfAllocator → Option ℕ
deref free_head s = s.seg_free
deref used_head s = s.seg_used
deref (np_of i) s = (s.segs i).np

abbrev pub update : (ℕ → Seg) → ℕ → Seg → ℕ → Seg
update f i v j = if i == j then v else f j

abbrev pub put : ℕ → Seg → PfAllocator → PfAllocator
put i v s = record s { segs = update s.segs i v }

abbrev pub assign : Slot → Option ℕ → PfAllocator → PfAllocator
assign free_head p s = record s { seg_free = p }
assign used_head p s = record s { seg_used = p }
assign (np_of i) p s = put i (record (s.segs i) { np = p }) s

abbrev pub set_begin : ℕ → ℕ → PfAllocator → PfAllocator
set_begin i v s = put i (record (s.segs i) { begin = v }) s

abbrev pub set_blocks : ℕ → ℕ → PfAllocator → PfAllocator
set_blocks i v s = put i (record (s.segs i) { blocks = v }) s

-- `begin + blocks * ChunkSize`
abbrev pub end_of : ℕ → ℕ → ℕ
end_of begin blocks = add32 begin (mul32 blocks chunk_size)

-- The constructor. What it leaves in the other fields is never read.
pub init : PfAllocator
init = record { segs = λ _. segment true 0 0 none; seg_free = none; seg_used = none }

-- `i` counts up while `left` segments are still to be looked at.
pub get_seg_loop : (left i : ℕ) → Cmd ℕ
get_seg_loop zero i s = panic cannot_find_free_segment
get_seg_loop (suc left) i s =
    let rest = get_seg_loop left (i + 1) s in
    if (s.segs i).free then ok i (put i (record (s.segs i) { free = false }) s) else rest

pub get_seg : Cmd ℕ
get_seg = get_seg_loop max_num_seg 0

abbrev pub free_seg : ℕ → PfAllocator → PfAllocator
free_seg i s = put i (record (s.segs i) { free = true }) s

-- `seg` lies between `c` and its successor `n`: joined to `c`, and then perhaps with `n`, or to
-- `n`, or linked in.
pub add_between : (seg c n : ℕ) → PfAllocator → PfAllocator
add_between seg c n s =
    if end_of (s.segs c).begin (s.segs c).blocks == (s.segs seg).begin
    then (let s = set_blocks c (add32 (s.segs c).blocks (s.segs seg).blocks) s in
        let s = free_seg seg s in
        if end_of (s.segs c).begin (s.segs c).blocks == (s.segs n).begin
        then (let s = set_blocks c (add32 (s.segs c).blocks (s.segs n).blocks) s in
            let s = free_seg n s in assign (np_of c) (s.segs n).np s)
        else s)
    else (if end_of (s.segs seg).begin (s.segs seg).blocks == (s.segs n).begin
        then (let s = set_blocks n (add32 (s.segs n).blocks (s.segs seg).blocks) s in
            let s = set_begin n (s.segs seg).begin s in free_seg seg s)
        else assign (np_of c) (some seg) (assign (np_of seg) (some n) s))

-- `c` is the last node.
pub add_last : (seg c : ℕ) → PfAllocator → PfAllocator
add_last seg c s =
    if end_of (s.segs c).begin (s.segs c).blocks == (s.segs seg).begin
    then free_seg seg (set_blocks c (add32 (s.segs c).blocks (s.segs seg).blocks) s)
    else assign (np_of c) (some seg) s

abbrev pub is_between : (seg c n : ℕ) → PfAllocator → Bool
is_between seg c n s =
    ltb (s.segs c).begin (s.segs seg).begin && ltb (s.segs seg).begin (s.segs n).begin

-- `addChunk(Seg *)`
pub add_loop : ℕ → (seg : ℕ) → Slot → Cmd (Unit {0})
add_loop zero seg cseg s = out_of_fuel
add_loop (suc fuel) seg cseg s = elim (deref cseg s) [
  | none ↦ ok tt (assign cseg (some seg) s)
  | some c ↦ elim ((s.segs c).np) [
    | none ↦ ok tt (add_last seg c s)
    | some n ↦
        let rest = add_loop fuel seg (np_of c) s in
        if is_between seg c n s then ok tt (add_between seg c n s) else rest
  ]
]

abbrev pub fuel : ℕ
fuel = suc max_num_seg

pub add_seg : ℕ → Cmd (Unit {0})
unfolding add_loop add_between add_last
add_seg seg = add_loop fuel seg free_head

abbrev pub round_down : ℕ → ℕ
round_down a = a / chunk_size * chunk_size

-- `addChunk(begin, end)`
pub add_chunk : (begin end : ℕ) → Cmd (Unit {0})
unfolding add_seg get_seg get_seg_loop
add_chunk begin end s =
    let b = round_down begin in
    let block = sub32 (round_down end) b / chunk_size in
    and_then (get_seg s) λ seg s. add_seg seg (put seg (segment (s.segs seg).free b block none) s)

-- `seg` becomes the successor of `c`, before `n`.
pub hang_between : (seg c n : ℕ) → PfAllocator → PfAllocator
hang_between seg c n s = assign (np_of c) (some seg) (assign (np_of seg) (some n) s)

-- `usedChunk`
pub used_loop : ℕ → (seg : ℕ) → Slot → Cmd (Unit {0})
used_loop zero seg cseg s = out_of_fuel
used_loop (suc fuel) seg cseg s = elim (deref cseg s) [
  | none ↦ ok tt (assign cseg (some seg) s)
  | some c ↦ elim ((s.segs c).np) [
    | none ↦ ok tt (assign (np_of c) (some seg) s)
    | some n ↦
        let rest = used_loop fuel seg (np_of c) s in
        if is_between seg c n s then ok tt (hang_between seg c n s) else rest
  ]
]

pub used_chunk : ℕ → Cmd (Unit {0})
unfolding used_loop hang_between
used_chunk seg = used_loop fuel seg used_head
