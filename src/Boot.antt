-- ===== src/Boot.antt =====
-- kernel/mbi_read.cpp: what the kernel takes from the boot loader's information, with the structures of
-- include/os/multiboot.h as words of the memory. The page frame allocator gets the free ranges, and loses those of
-- the kernel's sections. What is only printed is left out.
pub mod Map
mod Tests
use own_os.Prelude.{
  ℕ, zero, suc, ◌+◌, ◌*◌, ◌/◌, ◌%◌, ◌^◌, Bool, true, false, ◌&&◌, ◌||◌, List, [], ◌∷◌, ltb, ◌==◌,
  if◌then◌else◌,
}
use own_os.Prelude.Words.{u32_mod, add32}
use own_os.Prelude.Memory.{Mem}
use own_os.PfAllocator.{PfAllocator, Run, ok, panic, out_of_fuel, add_chunk}
use own_os.PfAllocator.Alloc.{remove_chunk}

-- `bootinfo.mem_size`, and the allocator.
pub record Boot : Type 0 where
  pub mem_size : ℕ
  pub pf_allocator : PfAllocator

-- `unfinished` is a loop whose fuel is spent.
pub data Booted : Type 0 where
  booted : Boot → Booted
  panics unfinished : Booted

-- An entry of the memory map.
pub record Mmap : Type 0 where
  pub size : ℕ
  pub addr_low : ℕ
  pub addr_high : ℕ
  pub len_low : ℕ
  pub len_high : ℕ
  pub kind : ℕ

-- The code does not read the high words.
abbrev pub mmap_at : ℕ → Mem → Mmap
mmap_at p m = record {
  size = m p;
  addr_low = m (p + 4);
  addr_high = m (p + 8);
  len_low = m (p + 12);
  len_high = m (p + 16);
  kind = m (p + 20);
}

abbrev pub is_free_kind : ℕ → Bool
is_free_kind kind = kind == 1 || kind == 3

abbrev pub addr_end : Mmap → ℕ
addr_end e = add32 e.addr_low e.len_low

-- What follows an operation of the allocator.
pub settle : {A : Type 0} → ℕ → Run A → Booted
settle size (ok x s) = booted (record { mem_size = size; pf_allocator = s })
settle size (panic p) = panics
settle size out_of_fuel = unfinished

-- The body of the loop over the memory map.
pub register : Mmap → Boot → Booted
unfolding settle
register e b =
    if is_free_kind e.kind
    then settle (if ltb b.mem_size (addr_end e) then addr_end e else b.mem_size)
        (add_chunk e.addr_low (addr_end e) b.pf_allocator)
    else booted b

pub and_then : Booted → (Boot → Booted) → Booted
and_then (booted b) k = k b
and_then panics k = panics
and_then unfinished k = unfinished

-- The loop over the memory map from the entry at `p` on, on fuel.
pub mmap_loop : (fuel p end : ℕ) → Mem → Boot → Booted
unfolding register and_then
mmap_loop zero p end m b = unfinished
mmap_loop (suc n) p end m b = elim (ltb p end) [
  | false ↦ booted b
  | true ↦
      and_then (register (mmap_at p m) b) (mmap_loop n (add32 p (add32 (mmap_at p m).size 4)) end m)
]

abbrev pub sizeof_shdr : ℕ
sizeof_shdr = 40

-- The loop over `n` section headers from the one at `p` on.
pub section_loop : (n p : ℕ) → Mem → Boot → Booted
unfolding settle and_then
section_loop zero p m b = booted b
section_loop (suc n) p m b =
    and_then
      (settle b.mem_size
        (remove_chunk (m (p + 12)) (add32 (m (p + 12)) (m (p + 20))) b.pf_allocator))
      (section_loop n (p + sizeof_shdr) m)

abbrev pub multiboot_bootloader_magic : ℕ
multiboot_bootloader_magic = 0x2badb002

abbrev pub check_flag : (flags bit : ℕ) → Bool
check_flag flags bit = flags / 2 ^ bit % 2 == 1

-- The words of `multiboot_info` that are used: the sections at 28, the memory map at 44.
pub read_map : (fuel mbi : ℕ) → Mem → Boot → Booted
unfolding mmap_loop
read_map fuel mbi m b =
    if check_flag (m mbi) 6
    then mmap_loop fuel (m (mbi + 48)) (add32 (m (mbi + 48)) (m (mbi + 44))) m
        (record b { mem_size = 0 })
    else booted b

pub read_sections : (mbi : ℕ) → Mem → Boot → Booted
unfolding section_loop
read_sections mbi m b =
    if check_flag (m mbi) 5 then section_loop (m (mbi + 28)) (m (mbi + 36)) m b else booted b

pub mbi_read : (fuel mbi magic : ℕ) → Mem → Boot → Booted
unfolding read_map read_sections and_then
mbi_read fuel mbi magic m b =
    if magic == multiboot_bootloader_magic
    then (if check_flag (m mbi) 4 && check_flag (m mbi) 5
        then booted b
        else and_then (read_map fuel mbi m b) (read_sections mbi m))
    else booted b
