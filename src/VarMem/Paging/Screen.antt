-- ===== src/VarMem/Paging/Screen.antt =====
-- The mapping of the screen in `initPaging`, which leaves the straight mapping as it is.
use own_os.Prelude.{
  ℕ, zero, suc, ◌+◌, ◌*◌, ◌/◌, ◌%◌, ◌<◌, ◌≤◌, ◌≡◌, ◌⊎◌, ◌∙◌, refl, true, false, Option, some, ◌==◌,
  arith, Bool-cases, inl, inr,
}
use own_os.Prelude.Words.{add32}
use own_os.Prelude.Memory.{Mem}
use own_os.VarMem.{
  edit_entry, disable_loop, disable_all_entry, is_entry_exist, caddr_entry, table_slot, find_table,
  map_frame, mapping_page, mapping_loop, mapping_pmem, dir_entry_size,
}
use own_os.VarMem.Mapping.{disable_loop-outside, entry_value}
use own_os.VarMem.Paging.Loops.{Apart}
use own_os.VarMem.Paging.Straight.{IsLaid}

module _ {F : Type 0} (alloc_chunk : ℕ → F → Option (ℕ × F)) (Fresh : F → Type 0)
    (mem_size big kpdir kptables : ℕ) where
  abbrev pub nr : ℕ
  nr = mem_size / dir_entry_size

  -- A frame that is none of the directory and of the tables of the straight mapping.
  abbrev IsFar : ℕ → Type 0
  IsFar table = Apart table 0x1000 kpdir 0x1000 × Apart table 0x1000 big (0x1000 * nr)

  -- From a state in which its frames are fresh, the allocator gives one more such frame.
  abbrev pub IsSource : Type 0
  IsSource =
      (f : F)
      → Fresh f
      → (frame : ℕ) × (f' : F) × ((alloc_chunk 1 f ≡ some (frame, f'))
          × Fresh f'
          × (frame % 0x1000 ≡ 0)
          × IsFar frame)

  -- The straight mapping has not changed.
  abbrev pub Kept : Mem → Mem → Type 0
  Kept m m' =
      ((q : ℕ) → q < nr → m' (kpdir + 4 * q) ≡ m (kpdir + 4 * q))
      × ((x : ℕ) → big ≤ x → x < big + 0x1000 * nr → m' x ≡ m x)

  -- The entry of the screen leads to a frame of its own, where there is one.
  abbrev pub ScreenIsFar : Mem → Type 0
  ScreenIsFar m =
      (is_entry_exist (m (kpdir + 4 * 0x380)) ≡ false) ⊎ IsFar (caddr_entry (m (kpdir + 4 * 0x380)))

  module _ (source : IsSource) (below : nr ≤ 0x380) (laid : IsLaid nr big kpdir kptables) where
    find_table-Kept :
        (a : ℕ) (m : Mem) (f : F)
        → a / 0x400000 ≡ 0x380
        → Fresh f
        → ScreenIsFar m
        → (table : ℕ) × (m' : Mem) × (f' : F) × ((find_table (alloc_chunk 1) a kpdir 0x13 m f
              ≡ some (table, m', f'))
            × Fresh f'
            × IsFar table
            × Kept m m'
            × (caddr_entry (m' (kpdir + 4 * 0x380)) ≡ table))
    unfolding find_table edit_entry disable_all_entry
    find_table-Kept a m f h fresh s = elim (Bool-cases (is_entry_exist (m (kpdir + 4 * 0x380)))) [
      | inl e ↦
          let far : IsFar (caddr_entry (m (kpdir + 4 * 0x380))) = elim s [
            | inl n ↦ absurd cc
            | inr z ↦ z
          ] in
          (
            caddr_entry (m (kpdir + 4 * 0x380)),
            m,
            f,
            (rw (h, e) refl, fresh, far, (λ q u. refl, λ x l u. refl), refl),
          )
      | inr e ↦
          let (table, f', (g, fresh', al, far)) = source f fresh in
          let (o1, o2) = far in
          let (_, c) = entry_value table 0x13 al refl in
          let w = edit_entry (kpdir + 4 * 0x380) table 0x13 m in
          let y : (kpdir + 4 * 0x380 == kpdir + 4 * 0x380) ≡ true = ground arith in
          (
            table,
            disable_loop 0x400 0 table w,
            f',
            (
              rw (h, e, g, h) refl,
              fresh',
              far,
              (
                λ q u.
                    let n : (kpdir + 4 * q == kpdir + 4 * 0x380) ≡ false = ground arith in
                    disable_loop-outside 0x400 0 table (kpdir + 4 * q) w (omega arith)
                      (ground arith)
                    ∙ rw n refl,
                λ x l u.
                    let (_, _, _, _, o3, _) = laid in
                    let n : (x == kpdir + 4 * 0x380) ≡ false = ground arith in
                    disable_loop-outside 0x400 0 table x w (omega arith) (ground arith) ∙ rw n refl,
              ),
              rw
                  (disable_loop-outside 0x400 0 table (kpdir + 4 * 0x380) w (omega arith)
                    (ground arith))
                  (rw y c),
            ),
          )
    ]

    map_frame-Kept :
        (physical a table : ℕ) (m : Mem)
        → IsFar table
        → Kept m (map_frame (alloc_chunk 1) a physical table 0x13 m)
          × (map_frame (alloc_chunk 1) a physical table 0x13 m (kpdir + 4 * 0x380)
              ≡ m (kpdir + 4 * 0x380))
    unfolding map_frame edit_entry
    map_frame-Kept physical a table m (o1, o2) =
        elim (Bool-cases (is_entry_exist (m (table_slot table a)))) [
          | inl e ↦ rw e ((λ q u. refl, λ x l u. refl), refl)
          | inr e ↦ rw e (
            (
              λ q u.
                  let n : (kpdir + 4 * q == table_slot table a) ≡ false = ground arith in rw n refl,
              λ x l u. let n : (x == table_slot table a) ≡ false = ground arith in rw n refl,
            ),
            let n : (kpdir + 4 * 0x380 == table_slot table a) ≡ false = ground arith in rw n refl,
          )
        ]

    mapping_page-Kept :
        (physical a : ℕ) (m : Mem) (f : F)
        → a / 0x400000 ≡ 0x380
        → Fresh f
        → ScreenIsFar m
        → (m' : Mem) × (f' : F) × ((mapping_page (alloc_chunk 1) physical a kpdir 0x13 m f
              ≡ some (m', f'))
            × Fresh f'
            × ScreenIsFar m'
            × Kept m m')
    unfolding mapping_page
    mapping_page-Kept physical a m f h fresh s =
        let (table, m1, f', (r, fresh', far, (k1, k2), c)) = find_table-Kept a m f h fresh s in
        let ((l1, l2), d) = map_frame-Kept physical a table m1 far in
        (
          map_frame (alloc_chunk 1) a physical table 0x13 m1,
          f',
          (
            rw (mapping_page, r) refl,
            fresh',
            inr (rw (d, c) far),
            (λ q u. l1 q u ∙ k1 q u, λ x l u. l2 x l u ∙ k2 x l u),
          ),
        )

    mapping_loop-Kept :
        (n i physical : ℕ) (m : Mem) (f : F)
        → i + n ≤ 0x200
        → Fresh f
        → ScreenIsFar m
        → (m' : Mem) × (f' : F) × ((mapping_loop
                (alloc_chunk 1)
                n
                physical
                (0xe0000000 + 0x1000 * i)
                kpdir
                0x13
                m
                f
              ≡ some (m', f'))
            × Kept m m')
    unfolding mapping_loop
    mapping_loop-Kept zero i physical m f b fresh s = (m, f, (refl, (λ q u. refl, λ x l u. refl)))
    mapping_loop-Kept (suc n) i physical m f b fresh s =
        let a = 0xe0000000 + 0x1000 * i in
        let (m1, f1, (r, fresh1, s1, (k1, k2))) =
          mapping_page-Kept physical a m f (omega arith) fresh s in
        let (m2, f2, (r', (l1, l2))) =
          mapping_loop-Kept n (suc i) (add32 physical 0x1000) m1 f1 (omega arith) fresh1 s1 in
        let e : add32 a 0x1000 ≡ 0xe0000000 + 0x1000 * suc i = omega arith in
        (
          m2,
          f2,
          (rw (mapping_loop, r, e) r', (λ q u. l1 q u ∙ k1 q u, λ x l u. l2 x l u ∙ k2 x l u)),
        )

    pub mapping_pmem-Kept :
        (m : Mem) (f : F)
        → Fresh f
        → ScreenIsFar m
        → (m' : Mem) × (f' : F) × ((mapping_pmem
                (alloc_chunk 1)
                0xe0000000
                0xe0000000
                0x200000
                kpdir
                0x13
                m
                f
              ≡ some (m', f'))
            × Kept m m')
    unfolding mapping_pmem
    mapping_pmem-Kept m f fresh s = mapping_loop-Kept 0x200 0 0xe0000000 m f (omega arith) fresh s
