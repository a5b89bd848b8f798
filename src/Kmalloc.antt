-- ===== src/Kmalloc.antt =====
-- kernel/kmalloc.cpp and include/os/kmalloc.h: the kernel's heap. A block begins with the words `next`
-- and `size`; a pointer to a block has bit 0 set where the block is in use. The walks run on fuel, and
-- without an answer they have not ended; a heap of `n` blocks needs fuel `n`.
pub mod Blocks
pub mod Spec
pub mod Alloc
pub mod Unite
pub mod Free
pub mod Exact
mod Tests
use own_os.Prelude.{
  ℕ, zero, suc, ◌+◌, ◌-◌, ◌*◌, ◌/◌, ◌%◌, Bool, true, false, not, ◌||◌, Option, none, some, leb,
  ◌==◌, if◌then◌else◌,
}
use own_os.Prelude.Memory.{Mem, write}
use own_os.Prelude.Words.{u32_mod, add32, sub32}

abbrev pub header_size : ℕ
header_size = 8

abbrev pub kmalloc_align : ℕ
kmalloc_align = 4

abbrev pub reset_ptr : ℕ → ℕ
reset_ptr p = p - p % 2

abbrev pub is_used : ℕ → Bool
is_used p = p % 2 == 1

-- `set_used(true)`.
abbrev pub set_used : ℕ → ℕ
set_used p = reset_ptr p + 1

-- The words `next` and `size` of a block.
abbrev pub next : ℕ → Mem → ℕ
next p m = m (reset_ptr p)

abbrev pub size : ℕ → Mem → ℕ
size p m = m (reset_ptr p + 4)

abbrev pub put_next : (p v : ℕ) → Mem → Mem
put_next p v m = write (reset_ptr p) v m

abbrev pub put_size : (p v : ℕ) → Mem → Mem
put_size p v m = write (reset_ptr p + 4) v m

pub record Heap : Type 0 where
  pub base : ℕ
  pub next_free : ℕ
  pub mem : Mem

-- `aligned` is the chunk of 0x20 pages that the page frame allocator gives.
pub init_kmalloc : (aligned : ℕ) → Mem → Heap
init_kmalloc aligned m = record {
  base = aligned;
  next_free = aligned;
  mem = put_size aligned 0x20000 (put_next aligned aligned m);
}

-- The size of a block for `n` bytes, with its header.
abbrev pub aligned_size : ℕ → ℕ
aligned_size n = (n + header_size + kmalloc_align - 1) % u32_mod / kmalloc_align * kmalloc_align

-- The end of the block `p` becomes a block of its own. The address is that of its bytes.
pub carve : (rsize p : ℕ) → Heap → ℕ × Heap
carve rsize p h =
    let q = set_used (add32 (reset_ptr p) (size p h.mem - rsize)) in
    let m = put_next p q (put_size q rsize (put_next q (next p h.mem) h.mem)) in
    (
      add32 (reset_ptr q) header_size,
      record h { next_free = p; mem = put_size p (sub32 (size p m) rsize) m },
    )

-- The inner loop: the next block that is not in use.
pub skip_used : (n p : ℕ) → Mem → Option ℕ
skip_used zero p m = none
skip_used (suc n) p m =
    let rest = skip_used n (next p m) m in if is_used (next p m) then rest else some (next p m)

pub data Outcome : Type 0 where
  panics : Outcome
  returned : ℕ → Heap → Outcome

-- The outer loop at the block `p`.
pub search_loop : (n rsize p : ℕ) → Heap → Option Outcome
unfolding carve skip_used
search_loop zero rsize p h = none
search_loop (suc n) rsize p h = elim (leb rsize (size p h.mem)) [
  | true ↦ some (returned (carve rsize p h).0 (carve rsize p h).1)
  | false ↦ elim (skip_used (suc n) p h.mem) [
    | none ↦ none
    | some p' ↦
        let rest = search_loop n rsize p' h in
        if reset_ptr p' == reset_ptr h.base then some panics else rest
  ]
]

pub kmalloc : (n bytes : ℕ) → Heap → Option Outcome
unfolding search_loop
kmalloc n bytes h = search_loop n (aligned_size bytes) h.next_free h

-- The pointer to the block in front of `freed`, by the walk from `p`.
pub find_prev : (n freed p : ℕ) → Mem → Option ℕ
find_prev zero freed p m = none
find_prev (suc n) freed p m =
    let rest = find_prev n freed (next p m) m in
    if reset_ptr (next p m) == freed then some p else rest

-- What happens to the block `freed` behind `prev`.
pub unite : (freed prev : ℕ) → Heap → Mem
unite freed prev h =
    let m = h.mem in
    let behind = next freed m in
    let is_prev_used = is_used prev || freed == reset_ptr h.base in
    let is_next_used = is_used behind || reset_ptr behind == reset_ptr h.base in
    let m1 = put_size prev (add32 (size prev m) (size freed m)) m in
    let m2 = put_next prev (next freed m1) m1 in
    let m3 = put_size prev (add32 (size prev m2) (size behind m2)) m2 in
    let m4 = put_next prev (reset_ptr (next prev m)) m in
    let m5 = put_size freed (add32 (size freed m4) (size behind m4)) m4 in
    if not is_prev_used
    then (if not is_next_used then put_next prev (next behind m3) m3 else m2)
    else (if not is_next_used
        then put_next freed (next behind m5) m5
        else put_next prev (reset_ptr freed) m)

pub kfree : (n addr : ℕ) → Heap → Option Heap
unfolding find_prev unite
kfree n addr h =
    let freed = reset_ptr (sub32 addr header_size) in
    elim (find_prev n freed h.base h.mem) [
      | none ↦ none
      | some prev ↦ some (record h { mem = unite freed prev h })
    ]
