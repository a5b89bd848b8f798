-- ===== src/Boot/Tests.antt =====
-- A memory map of two entries at 0x9000.
use own_os.Prelude.{ℕ, ◌-◌, ◌/◌, ◌≡◌, refl, List, [], ◌∷◌, get_or, arith}
use own_os.Prelude.Memory.{Mem}
use own_os.PfAllocator.{init}
use own_os.Boot.{Boot, Mmap, booted, mmap_loop, mbi_read}
use own_os.Boot.Map.{Holds, Covers, register_all, mmap_loop-register_all, mmap_loop-Covers}

abbrev map_words : List ℕ
map_words = 20 ∷ 0 ∷ 0 ∷ 0x9fc00 ∷ 0 ∷ 1 ∷ 20 ∷ 0x100000 ∷ 0 ∷ 0x7ee0000 ∷ 0 ∷ 1 ∷ []

abbrev memory : Mem
memory a = get_or map_words ((a - 0x9000) / 4) 0

abbrev low : Mmap
low = record { size = 20; addr_low = 0; addr_high = 0; len_low = 0x9fc00; len_high = 0; kind = 1 }

abbrev high : Mmap
high = record {
  size = 20;
  addr_low = 0x100000;
  addr_high = 0;
  len_low = 0x7ee0000;
  len_high = 0;
  kind = 1;
}

abbrev fresh : Boot
fresh = record { mem_size = 0; pf_allocator = init }

memory-Holds : Holds 0x9000 0x9030 (low ∷ high ∷ []) memory
unfolding Holds
memory-Holds = (refl, omega arith, (refl, omega arith, refl))

mmap_loop-register_all_example :
    mmap_loop 3 0x9000 0x9030 memory fresh ≡ register_all (low ∷ high ∷ []) fresh
mmap_loop-register_all_example =
    mmap_loop-register_all (low ∷ high ∷ []) 3 0x9000 0x9030 memory fresh (omega arith)
      (omega arith) memory-Holds

mmap_loop-Covers_example : Covers 0 (low ∷ high ∷ []) (mmap_loop 3 0x9000 0x9030 memory fresh)
mmap_loop-Covers_example =
    mmap_loop-Covers (low ∷ high ∷ []) 3 0x9000 0x9030 memory fresh (omega arith) (omega arith)
      memory-Holds (omega arith, (omega arith, tt))

-- With a wrong magic number nothing is read.
mbi_read-refuses : mbi_read 3 0x9000 0 memory fresh ≡ booted fresh
unfolding mbi_read
mbi_read-refuses = refl
