-- ===== src/VarMem/Tests.antt =====
-- The mapping of a page with an empty directory.
use own_os.Prelude.{ℕ, suc, ◌+◌, ◌*◌, ◌%◌, ◌<◌, ◌≡◌, refl, Option, some, arith, inl, inr}
use own_os.Prelude.Memory.{Mem}
use own_os.VarMem.{enable_page, vir2phy, copy_kernel_dir, mapping_page}
use own_os.VarMem.Kernel.{copy_kernel_dir-entry, mapping_page-maps}
use own_os.VarMem.Mapping.{Frames, enable_page-maps}

abbrev empty : Mem
empty a = 0

-- The frames one after the other from 1 MiB on.
abbrev next_frame : ℕ → Option (ℕ × ℕ)
next_frame n = some (n * 0x1000 + 0x100000, suc n)

next_frame-Frames : Frames next_frame 0x5000 0x17
next_frame-Frames n = (n * 0x1000 + 0x100000, suc n, (refl, omega arith, omega arith))

enable_page-maps_example :
    (m' : Mem) × (f' : ℕ) × (frame : ℕ) × ((enable_page next_frame
          (0x40000 * 0x1000)
          0x5000
          0x17
          empty
          0
        ≡ some (m', f'))
      × (frame % 0x1000 ≡ 0)
      × ((o : ℕ) → o < 0x1000 → vir2phy (0x40000 * 0x1000 + o) 0x5000 m' ≡ some (frame + o)))
enable_page-maps_example =
    enable_page-maps next_frame 0x5000 0x17 next_frame-Frames refl refl 0x40000 empty 0
      (omega arith) (omega arith)

-- Every word holds its address, but for the entries that do not exist.
abbrev addresses : Mem
addresses a = a

kernel_entry_copied : copy_kernel_dir 0x2000000 0x8000 0x5000 addresses (0x5000 + 4 * 3) ≡ 0x800c
kernel_entry_copied =
    copy_kernel_dir-entry 0x2000000 0x8000 0x5000 3 addresses (omega arith) (omega arith)
      (inr (omega arith))

mapping_page-maps_example :
    (m' : Mem) × (f' : ℕ) × ((mapping_page next_frame 0xe0000000
          (0xe0000 * 0x1000)
          0x5000
          0x13
          empty
          0
        ≡ some (m', f'))
      × ((o : ℕ) → o < 0x1000 → vir2phy (0xe0000 * 0x1000 + o) 0x5000 m' ≡ some (0xe0000000 + o)))
mapping_page-maps_example =
    mapping_page-maps next_frame 0x5000 0x13 next_frame-Frames refl refl 0xe0000000 0xe0000 empty 0
      (omega arith) refl (inl refl)
