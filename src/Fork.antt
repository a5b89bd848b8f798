-- ===== src/Fork.antt =====
-- How processes are made: `fork` and its parts in kernel/task.cpp, the regions and `allocProc` of
-- kernel/Process.cpp, and the numbers of processes of include/os/Process.h. The parts of a process that the
-- scheduler does not read stand under its index, and the words of its stack frame in the memory. The page
-- frame allocator is the parameter `alloc_chunk`, which gives one frame or panics; `mem_size`, `kpdir` and
-- `ret_from_fork` are the size of the memory, the kernel's directory and the address of that function. That
-- the heap gives room for a list of regions is taken for granted, and what is printed is left out.
pub mod Space
pub mod Pages
pub mod Rooms
pub mod Child
pub mod Table
pub mod Birth
pub mod Init
pub mod Tests
use own_os.Prelude.{
  ℕ, zero, suc, ◌+◌, ◌-◌, ◌*◌, ◌/◌, ◌%◌, Bool, true, false, Option, none, some, List, [], ◌∷◌, ◌++◌,
  leb, ◌==◌, if◌then◌else◌,
}
use own_os.Prelude.Words.{add32, sub32}
use own_os.Prelude.Memory.{Mem, write}
use own_os.Process.{Proc, PManager, Status, task_stopped, nr_proc}
use own_os.Task.{Kernel, returned, switched, failed, wake_up}
use own_os.VarMem.{vir2phy, enable_space, copy_kernel_dir}

pub record Region : Type 0 where
  pub flags : ℕ
  pub begin : ℕ
  pub size : ℕ

-- `kernel_info`, less `ret_from`, which stands in the table of processes.
pub record KernelInfo : Type 0 where
  pub stack_top : ℕ
  pub ss : ℕ
  pub sp : ℕ
  pub cs : ℕ

pub record World (F : Type 0) : Type 0 where
  pub kernel : Kernel
  pub num : ℕ
  pub regions : ℕ → List Region
  pub info : ℕ → KernelInfo
  pub mem : Mem
  pub frames : F

-- The bit `SYSTEM` is the lowest.
abbrev pub page_type : ℕ → ℕ
page_type flags = if flags % 2 == 1 then 0x013 else 0x017

-- The number of words of `stack_frame_s`, and the place of two of them.
abbrev pub nr_regs : ℕ
nr_regs = 17

abbrev pub ax_word : ℕ
ax_word = 11

abbrev pub pc_word : ℕ
pc_word = 12

-- The address of the registers on a kernel stack.
abbrev pub frame_of : (stack_top : ℕ) → ℕ
frame_of stack_top = sub32 stack_top (4 * nr_regs)

-- A copy of `n` words from word `i` on.
pub copy_words : (n i src dest : ℕ) → Mem → Mem
copy_words zero i src dest m = m
copy_words (suc n) i src dest m =
    copy_words n (suc i) src dest (write (dest + 4 * i) (m (src + 4 * i)) m)

-- The `memcpy` of `clone_mm`, whose source and destination are both addresses in the directory `cur`, also where
-- the destination was meant as a physical one. There is no result after a page fault.
pub copy_from : (n i cur a dest : ℕ) → Mem → Option Mem
copy_from zero i cur a dest m = some m
copy_from (suc n) i cur a dest m = elim (vir2phy (add32 a (4 * i)) cur m) [
  | none ↦ none
  | some p ↦ elim (vir2phy (add32 dest (4 * i)) cur m) [
    | none ↦ none
    | some q ↦ copy_from n (suc i) cur a dest (write q (m p) m)
  ]
]

-- `unfinished` is a loop whose fuel is spent, `stuck` a page fault or the allocator's panic.
pub data Copy (A : Type 0) : Type 0 where
  copied : A → Copy A
  stuck unfinished : Copy A

pub and_then : {A B : Type 0} → Copy A → (A → Copy B) → Copy B
and_then (copied x) f = f x
and_then stuck f = stuck
and_then unfinished f = unfinished

-- One page. Where the new directory does not map it, `vir2phy` gives 0.
pub clone_page : (cur pdir a : ℕ) → Mem → Option Mem
unfolding copy_from
clone_page cur pdir a m = elim (vir2phy a pdir m) [
  | none ↦ copy_from 0x400 0 cur a 0 m
  | some to ↦ copy_from 0x400 0 cur a to m
]

-- The loop of `clone_mm` over the pages of a region from `a` on, on fuel.
pub clone_pages : (fuel cur pdir limit a : ℕ) → Mem → Copy Mem
unfolding clone_page
clone_pages zero cur pdir limit a m = unfinished
clone_pages (suc n) cur pdir limit a m = elim (leb a limit) [
  | false ↦ copied m
  | true ↦ elim (clone_page cur pdir a m) [
    | none ↦ stuck
    | some m ↦ clone_pages n cur pdir limit (add32 a 0x1000) m
  ]
]

-- The pages of 32 bits of addresses, and one.
abbrev pub page_fuel : ℕ
page_fuel = 0x100001

module _ {F : Type 0} (alloc_chunk : F → Option (ℕ × F)) where
  -- The pages of a region, once `enableSpace` has mapped them.
  pub copy_pages : (cur pdir : ℕ) → Region → Option (Mem × F) → Copy (Mem × F)
  unfolding clone_pages and_then
  copy_pages cur pdir r none = stuck
  copy_pages cur pdir r (some (m, f)) =
      and_then (clone_pages page_fuel cur pdir (sub32 (add32 r.begin r.size) 0x1000) r.begin m)
        (λ m. copied (m, f))

  pub clone_region : (cur pdir : ℕ) → Region → Mem → F → Copy (Mem × F)
  unfolding copy_pages
  clone_region cur pdir r m f =
      copy_pages cur pdir r (enable_space alloc_chunk r.begin r.size pdir (page_type r.flags) m f)

  -- The loop over the regions of the source, with the regions of the copy so far.
  pub clone_regions :
      (cur pdir : ℕ) → (rs done : List Region) → Mem → F → Copy (List Region × Mem × F)
  unfolding clone_region
  clone_regions cur pdir [] done m f = copied (done, m, f)
  clone_regions cur pdir (r ∷ rs) done m f =
      and_then (clone_region cur pdir r m f)
        (λ (m, f). clone_regions cur pdir rs (done ++ (r ∷ [])) m f)

  module _ (mem_size kpdir : ℕ) where
    -- The copy of the regions below a new directory.
    pub clone_into :
        (cur : ℕ) → List Region → Mem → Option (ℕ × F) → Copy (ℕ × List Region × Mem × F)
    unfolding clone_regions
    clone_into cur rs m none = stuck
    clone_into cur rs m (some (pdir, f)) =
        and_then (clone_regions cur pdir rs [] (copy_kernel_dir mem_size kpdir pdir m) f)
          (λ (rs, m, f). copied (pdir, rs, m, f))

    pub clone_mm : (cur : ℕ) → List Region → Mem → F → Copy (ℕ × List Region × Mem × F)
    unfolding clone_into
    clone_mm cur rs m f = clone_into cur rs m (alloc_chunk f)

abbrev pub put_at : {A : Type 0} → ℕ → A → (ℕ → A) → ℕ → A
put_at p x f q = if q == p then x else f q

-- The registers of a process, and the return of a child from `fork`.
abbrev pub regs_of : {F : Type 0} → ℕ → World F → ℕ
regs_of p w = frame_of (w.info p).stack_top

unfoldable pub ret_from_fork : {F : Type 0} → World F → World F
ret_from_fork w = record w {
  mem = write (regs_of w.kernel.manager.current w + 4 * ax_word) 0 w.mem;
}

unfoldable pub after_exec : {F : Type 0} → (ret_addr : ℕ) → World F → World F
after_exec ret_addr w = record w {
  mem = write (regs_of w.kernel.manager.current w + 4 * pc_word) ret_addr w.mem;
}

-- `ProcL.get` over `n` rooms from room `i` on.
unfoldable pub get_loop : (n i : ℕ) → (ℕ → Proc) → Option ℕ
get_loop zero i procs = none
get_loop (suc n) i procs =
    let rest = get_loop n (suc i) procs in if (procs i).is_free then some i else rest

unfoldable pub alloc_proc : (ℕ → Proc) → Option ℕ
unfolding get_loop
alloc_proc = get_loop nr_proc 0

-- The process in the room `c`, with the number that it is given.
pub take_room : {F : Type 0} → (c : ℕ) → World F → World F
take_room c w =
    let k = w.kernel in
    let m = k.manager in
    let proc = record (m.procs c) { is_free = false; id = w.num } in
    record w {
      kernel = record k { manager = record m { procs = put_at c proc m.procs } };
      num = add32 w.num 1;
    }

-- `wild` is an access through a process that does not exist.
pub data Forked (F : Type 0) : Type 0 where
  forked : (pid : ℕ) → World F → Forked F
  panics wild unfinished : Forked F

module _ {F : Type 0} (alloc_chunk : F → Option (ℕ × F)) where
  module _ (mem_size kpdir : ℕ) where
    pub copy_process : (src dest : ℕ) → World F → Copy (World F)
    unfolding clone_mm
    copy_process src dest w =
        let k = w.kernel in
        let m = k.manager in
        and_then
          (clone_mm alloc_chunk mem_size kpdir (m.procs src).cr3 (w.regions src) w.mem w.frames)
          (λ (pdir, rs, mem, f).
            let proc = record (m.procs dest) {
              prior = (m.procs src).prior;
              status = task_stopped;
              cr3 = pdir;
            } in
            copied (record w {
              kernel = record k { manager = record m { procs = put_at dest proc m.procs } };
              regions = put_at dest rs w.regions;
              mem = mem;
              frames = f;
            }))

  -- The stack of the child ends one word before the end of its frame.
  pub setup_stack : (current clone : ℕ) → World F → Option (World F)
  setup_stack current clone w = elim (alloc_chunk w.frames) [
    | none ↦ none
    | some (stack, f) ↦
        let top = stack + 0x1000 - 4 in
        let info = record (w.info clone) { stack_top = top; sp = frame_of top } in
        some (record w {
          info = put_at clone info w.info;
          mem = copy_words nr_regs 0 (frame_of (w.info current).stack_top) (frame_of top) w.mem;
          frames = f;
        })
  ]

  -- `child_starts` is the address of `ret_from_fork`.
  module _ (child_starts : ℕ) where
    -- `fork` after `copy_process`.
    pub start_child : (current clone pid : ℕ) → World F → Forked F
    unfolding setup_stack
    start_child current clone pid w =
        let k = w.kernel in
        let m = k.manager in
        let proc = record (m.procs clone) { ret_from = child_starts } in
        let w' = record w {
          kernel = record k { manager = record m { procs = put_at clone proc m.procs } };
          info = put_at clone (w.info current) w.info;
        } in
        elim (setup_stack current clone w') [
          | none ↦ panics
          | some w ↦ elim (wake_up pid w.kernel) [
            | returned k ↦ forked pid (record w { kernel = k })
            | switched k es ↦ panics
            | failed ↦ panics
          ]
        ]

    module _ (mem_size kpdir : ℕ) where
      pub fork : World F → Forked F
      unfolding take_room copy_process start_child
      fork w =
          let current = w.kernel.manager.current in
          elim (alloc_proc w.kernel.manager.procs) [
            | none ↦ wild
            | some clone ↦ elim (copy_process mem_size kpdir current clone (take_room clone w)) [
              | stuck ↦ panics
              | unfinished ↦ unfinished
              | copied w' ↦ start_child current clone w.num w'
            ]
          ]
