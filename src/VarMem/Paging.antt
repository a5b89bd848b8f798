-- ===== src/VarMem/Paging.antt =====
-- `initPaging` of kernel/VarMem.cpp: the kernel's own directory. The allocator of frames is a parameter, which is
-- asked for a number of frames one behind the other. `paging_on_asm`, which gives the directory to the processor,
-- changes no state of the model.
pub mod Loops
pub mod Straight
pub mod Screen
pub mod Wraps
mod Tests
use own_os.Prelude.{ℕ, zero, suc, ◌+◌, ◌*◌, ◌/◌, Option, none, some}
use own_os.Prelude.Memory.{Mem, write}
use own_os.Prelude.Words.{add32}
use own_os.VarMem.{edit_entry, disable_all_entry, dir_entry_size, nr_words, mapping_pmem}

abbrev pub system_page : ℕ
system_page = 0x13

-- The directory, the list of the tables, and the state after `initPaging`.
pub record Paging (F : Type 0) : Type 0 where
  kpdir : ℕ
  kptables : ℕ
  mem : Mem
  frames : F

-- The list of `n` tables from table `i` on, one behind the other from `big_frame` on.
pub list_loop : (n i big_frame kptables : ℕ) → Mem → Mem
list_loop zero i big_frame kptables m = m
list_loop (suc n) i big_frame kptables m =
    list_loop n (suc i) big_frame kptables
      (write (kptables + 4 * i) (add32 big_frame (0x1000 * i)) m)

-- The loop over `n` entries of a table from entry `j` on; `slot` is the place of the table in the list.
pub fill_loop : (n j slot : ℕ) → Mem → Mem
unfolding edit_entry
fill_loop zero j slot m = m
fill_loop (suc n) j slot m =
    fill_loop n (suc j) slot (edit_entry (m slot + 4 * j) (j * 0x1000) system_page m)

-- One round of the loop over the tables.
pub fill_table : (i kpdir kptables : ℕ) → Mem → Mem
unfolding edit_entry disable_all_entry fill_loop
fill_table i kpdir kptables m =
    let slot = kptables + 4 * i in
    let m1 = disable_all_entry (m slot) m in
    fill_loop nr_words 0 slot (edit_entry (kpdir + 4 * i) (m1 slot) system_page m1)

pub table_loop : (n i kpdir kptables : ℕ) → Mem → Mem
unfolding fill_table
table_loop zero i kpdir kptables m = m
table_loop (suc n) i kpdir kptables m =
    table_loop n (suc i) kpdir kptables (fill_table i kpdir kptables m)

-- What is done for the straight mapping, once the frames are there.
pub map_straight : (nr_valid_pages big_frame kpdir kptables : ℕ) → Mem → Mem
unfolding list_loop disable_all_entry table_loop
map_straight nr_valid_pages big_frame kpdir kptables m =
    table_loop nr_valid_pages 0 kpdir kptables
      (disable_all_entry kpdir (list_loop nr_valid_pages 0 big_frame kptables m))

module _ {F : Type 0} (alloc_chunk : ℕ → F → Option (ℕ × F)) (mem_size v2ptable : ℕ) where
  -- The mapping of the screen, and the last entry of the directory.
  pub map_rest : (kpdir kptables : ℕ) → Mem → F → Option (Paging F)
  unfolding mapping_pmem edit_entry
  map_rest kpdir kptables m f =
      elim (mapping_pmem (alloc_chunk 1) 0xe0000000 0xe0000000 0x200000 kpdir system_page m f) [
        | none ↦ none
        | some (m, f) ↦ some (record {
          kpdir = kpdir;
          kptables = kptables;
          mem = edit_entry (kpdir + 4 * 0x3ff) v2ptable system_page m;
          frames = f;
        })
      ]

  pub init_paging : Mem → F → Option (Paging F)
  unfolding map_straight map_rest
  init_paging m f = elim (alloc_chunk 1 f) [
    | none ↦ none
    | some (kpdir, f) ↦ elim (alloc_chunk 1 f) [
      | none ↦ none
      | some (kptables, f) ↦ elim (alloc_chunk (mem_size / dir_entry_size) f) [
        | none ↦ none
        | some (big_frame, f) ↦
            map_rest kpdir kptables
              (map_straight (mem_size / dir_entry_size) big_frame kpdir kptables m) f
      ]
    ]
  ]
