-- ===== src/VarMem.antt =====
-- kernel/VarMem.cpp and include/os/VarMem.h: the page directories and tables, as words of the memory
-- at their addresses. The page frame allocator is the parameter `alloc_chunk`, which gives one frame or
-- panics. The flush of the processor's cache changes no state of the model.
pub mod Enable
pub mod Mapping
pub mod Kernel
pub mod Paging
mod Tests
use own_os.Prelude.{
  ℕ, zero, suc, ◌+◌, ◌*◌, ◌/◌, ◌%◌, Bool, true, false, Option, none, some, ◌==◌, if◌then◌else◌,
}
use own_os.Prelude.Memory.{Mem, write}
use own_os.Prelude.Words.{u32_mod, add32, sub32}

abbrev pub nr_words : ℕ
nr_words = 0x400

abbrev pub dir_entry_size : ℕ
dir_entry_size = 0x400000

-- The masks of `editEntry` have no bit in common.
pub edit_entry : ℕ → ℕ → ℕ → Mem → Mem
edit_entry entry pointer type m = write entry (pointer / 0x1000 * 0x1000 + type % 0x1000) m

abbrev pub is_entry_exist : ℕ → Bool
is_entry_exist entry = entry % 2 == 1

abbrev pub caddr_entry : ℕ → ℕ
caddr_entry entry = entry / 0x1000 * 0x1000

-- The loop of `disableAllEntry` over `n` words from word `i` on.
unfoldable pub disable_loop : ℕ → ℕ → ℕ → Mem → Mem
disable_loop zero i table m = m
disable_loop (suc n) i table m = disable_loop n (suc i) table (write (table + 4 * i) 0 m)

pub disable_all_entry : ℕ → Mem → Mem
disable_all_entry = disable_loop nr_words 0

-- The address of the entry of a directory, and of a table, for an address.
abbrev pub dir_slot : ℕ → ℕ → ℕ
dir_slot pdir a = pdir + 4 * (a / dir_entry_size)

abbrev pub table_slot : ℕ → ℕ → ℕ
table_slot table a = table + 4 * (a % dir_entry_size / 0x1000)

-- `vir2phy` with a directory.
unfoldable pub vir2phy : ℕ → ℕ → Mem → Option ℕ
vir2phy a pdir m =
    let d = m (dir_slot pdir a) in
    let t = m (table_slot (caddr_entry d) a) in
    if is_entry_exist d
    then (if is_entry_exist t then some (caddr_entry t + a % 0x1000) else none)
    else none

-- `vir2phy` as it is called: without a directory it takes that of the running process.
abbrev vir2phy_of : (current_cr3 a pdir : ℕ) → Mem → Option ℕ
vir2phy_of current_cr3 a pdir = vir2phy a (if pdir == 0 then current_cr3 else pdir)

-- `CEIL` and `FLOOR` to pages.
abbrev pub ceil_page : ℕ → ℕ
ceil_page x = (x + 0xfff) % u32_mod / 0x1000 * 0x1000

abbrev pub floor_page : ℕ → ℕ
floor_page x = x / 0x1000 * 0x1000

-- The number of pages of a region.
abbrev pub page_num : (a size : ℕ) → ℕ
page_num a size = sub32 (ceil_page (add32 a size)) (floor_page a) / 0x1000

-- `n` entries of the kernel's directory from entry `i` on.
pub copy_loop : (n i kpdir pdir : ℕ) → Mem → Mem
copy_loop zero i kpdir pdir m = m
copy_loop (suc n) i kpdir pdir m =
    copy_loop n (suc i) kpdir pdir (write (pdir + 4 * i) (m (kpdir + 4 * i)) m)

-- The second loop runs over the entries from 0xe0000000 to 0xe0200000, which is one.
unfoldable pub copy_kernel_dir : (mem_size kpdir pdir : ℕ) → Mem → Mem
unfolding disable_all_entry copy_loop
copy_kernel_dir mem_size kpdir pdir m =
    copy_loop 1 0x380 kpdir pdir
      (copy_loop (mem_size / dir_entry_size) 0 kpdir pdir (disable_all_entry pdir m))

module _ {F : Type 0} (alloc_chunk : F → Option (ℕ × F)) where
  -- The table for an address, which is made where the directory has none.
  pub find_table : ℕ → ℕ → ℕ → Mem → F → Option (ℕ × Mem × F)
  unfolding edit_entry disable_all_entry
  find_table a pdir type m f =
      if is_entry_exist (m (dir_slot pdir a))
      then some (caddr_entry (m (dir_slot pdir a)), m, f)
      else elim (alloc_chunk f) [
        | none ↦ none
        | some (table, f) ↦
            some (table, disable_all_entry table (edit_entry (dir_slot pdir a) table type m), f)
      ]

  -- The frame for an address in its table.
  pub find_frame : ℕ → ℕ → ℕ → Mem → F → Option (Mem × F)
  unfolding edit_entry
  find_frame a table type m f =
      if is_entry_exist (m (table_slot table a)) then some (m, f) else elim (alloc_chunk f) [
        | none ↦ none
        | some (frame, f) ↦ some (edit_entry (table_slot table a) frame type m, f)
      ]

  -- One round of the loop of `enableSpace`.
  pub enable_page : ℕ → ℕ → ℕ → Mem → F → Option (Mem × F)
  unfolding find_table find_frame
  enable_page a pdir type m f = elim (find_table a pdir type m f) [
    | none ↦ none
    | some (table, m, f) ↦ find_frame a table type m f
  ]

  pub enable_loop : ℕ → ℕ → ℕ → ℕ → Mem → F → Option (Mem × F)
  unfolding enable_page
  enable_loop zero a pdir type m f = some (m, f)
  enable_loop (suc n) a pdir type m f = elim (enable_page a pdir type m f) [
    | none ↦ none
    | some (m, f) ↦ enable_loop n (add32 a 0x1000) pdir type m f
  ]

  unfoldable pub enable_space : (a size pdir type : ℕ) → Mem → F → Option (Mem × F)
  unfolding enable_loop
  enable_space a size pdir type m f = enable_loop (page_num a size) (floor_page a) pdir type m f

  -- The page of physical memory for an address in its table.
  pub map_frame : (a physical table type : ℕ) → Mem → Mem
  unfolding edit_entry
  map_frame a physical table type m =
      if is_entry_exist (m (table_slot table a))
      then m
      else edit_entry (table_slot table a) physical type m

  -- One round of the loop of `mapping_pmem`.
  pub mapping_page : (physical a pdir type : ℕ) → Mem → F → Option (Mem × F)
  unfolding find_table map_frame
  mapping_page physical a pdir type m f = elim (find_table a pdir type m f) [
    | none ↦ none
    | some (table, m, f) ↦ some (map_frame a physical table type m, f)
  ]

  pub mapping_loop : (n physical a pdir type : ℕ) → Mem → F → Option (Mem × F)
  unfolding mapping_page
  mapping_loop zero physical a pdir type m f = some (m, f)
  mapping_loop (suc n) physical a pdir type m f = elim (mapping_page physical a pdir type m f) [
    | none ↦ none
    | some (m, f) ↦ mapping_loop n (add32 physical 0x1000) (add32 a 0x1000) pdir type m f
  ]

  pub mapping_pmem : (physical a size pdir type : ℕ) → Mem → F → Option (Mem × F)
  unfolding mapping_loop
  mapping_pmem physical a size pdir type m f =
      mapping_loop (ceil_page size / 0x1000) physical a pdir type m f
