-- ===== src/VarMem/Enable.antt =====
-- `enableSpace` with an allocator that does not panic.
use own_os.Prelude.{ℕ, zero, suc, ◌≡◌, refl, Option, some, Bool-cases, inl, inr}
use own_os.Prelude.Words.{add32}
use own_os.Prelude.Memory.{Mem}
use own_os.VarMem.{
  is_entry_exist, dir_slot, table_slot, find_table, find_frame, enable_page, enable_loop,
  enable_space, page_num, floor_page,
}

module _ {F : Type 0} (alloc_chunk : F → Option (ℕ × F)) where
  -- The allocator always gives a frame.
  abbrev pub Always : Type 0
  Always = (f : F) → (frame : ℕ) × (f' : F) × (alloc_chunk f ≡ some (frame, f'))

  module _ (always : Always) (pdir type : ℕ) where
    find_table-given :
        (a : ℕ) (m : Mem) (f : F)
        → (table : ℕ) × (m' : Mem) × (f' : F) × (find_table alloc_chunk a pdir type m f
            ≡ some (table, m', f'))
    unfolding find_table
    find_table-given a m f = elim (Bool-cases (is_entry_exist (m (dir_slot pdir a)))) [
      | inl e ↦ rw e (_, _, _, refl)
      | inr e ↦ let (table, f', g) = always f in rw e (rw g (_, _, _, refl))
    ]

    find_frame-given :
        (a table : ℕ) (m : Mem) (f : F)
        → (m' : Mem) × (f' : F) × (find_frame alloc_chunk a table type m f ≡ some (m', f'))
    unfolding find_frame
    find_frame-given a table m f = elim (Bool-cases (is_entry_exist (m (table_slot table a)))) [
      | inl e ↦ rw e (_, _, refl)
      | inr e ↦ let (frame, f', g) = always f in rw e (rw g (_, _, refl))
    ]

    enable_loop-given :
        (n a : ℕ) (m : Mem) (f : F)
        → (m' : Mem) × (f' : F) × (enable_loop alloc_chunk n a pdir type m f ≡ some (m', f'))
    unfolding enable_loop enable_page
    enable_loop-given zero a m f = (m, f, refl)
    enable_loop-given (suc n) a m f =
        let (table, m1, f1, e) = find_table-given a m f in
        let (m2, f2, g) = find_frame-given a table m1 f1 in
        let (m', f', r) = enable_loop-given n (add32 a 0x1000) m2 f2 in
        (m', f', rw (enable_loop, enable_page, e, g) r)

    -- Every call of `enableSpace` returns, whatever the region.
    pub enable_space-given :
        (a size : ℕ) (m : Mem) (f : F)
        → (m' : Mem) × (f' : F) × (enable_space alloc_chunk a size pdir type m f ≡ some (m', f'))
    unfolding enable_space
    enable_space-given a size m f = enable_loop-given (page_num a size) (floor_page a) m f
