-- ===== src/VarMem/Paging/Tests.antt =====
-- The paging of a memory of 16 MiB, with the frames one behind the other from 1 MiB on.
use own_os.Prelude.{ℕ, ◌+◌, ◌*◌, ◌%◌, ◌<◌, ◌≤◌, ◌≡◌, refl, Option, some, arith, inl, inr}
use own_os.Prelude.Memory.{Mem}
use own_os.VarMem.{vir2phy}
use own_os.VarMem.Paging.{Paging, init_paging}
use own_os.VarMem.Paging.Straight.{IsLaid}
use own_os.VarMem.Paging.Screen.{IsSource}
use own_os.VarMem.Paging.Wraps.{init_paging-wraps}

abbrev next_frames : ℕ → ℕ → Option (ℕ × ℕ)
next_frames n f = some (f * 0x1000, f + n)

abbrev IsFresh : ℕ → Type 0
IsFresh f = 0x106 ≤ f

next_frames-IsSource : IsSource next_frames IsFresh 0x1000000 0x102000 0x100000 0x101000
next_frames-IsSource f l =
    (f * 0x1000, f + 1, (refl, omega arith, omega arith, (inr (omega arith), inr (omega arith))))

abbrev any : Mem
any a = a

any-IsLaid : IsLaid 4 0x102000 0x100000 0x101000
any-IsLaid =
    (omega arith, refl, omega arith, inl (omega arith), inl (omega arith), inl (omega arith))

init_paging-wraps_example :
    (p : Paging ℕ) × ((init_paging next_frames 0x1000000 0x9000 any 0x100 ≡ some p)
      × (p.kpdir ≡ 0x100000)
      × ((a : ℕ) → a < 4 * 0x400000 → vir2phy a p.kpdir p.mem ≡ some (a % 0x400000)))
init_paging-wraps_example =
    init_paging-wraps next_frames IsFresh 0x1000000 0x9000 0x102000 0x100000 0x101000
      next_frames-IsSource (omega arith) any-IsLaid any 0x100 0x101 0x102 0x106 refl refl refl
      (omega arith)
