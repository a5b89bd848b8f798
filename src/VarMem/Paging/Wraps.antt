-- ===== src/VarMem/Paging/Wraps.antt =====
-- `initPaging` as a whole.
use own_os.Prelude.{
  ℕ, ◌+◌, ◌*◌, ◌/◌, ◌%◌, ◌<◌, ◌≤◌, ◌≡◌, ◌∙◌, refl, false, Option, some, ◌==◌, arith, inl, inr,
  subst, sym,
}
use own_os.Prelude.Memory.{Mem}
use own_os.VarMem.{edit_entry, vir2phy, mapping_pmem, dir_entry_size}
use own_os.VarMem.Paging.{Paging, map_straight, map_rest, init_paging}
use own_os.VarMem.Paging.Loops.{Apart}
use own_os.VarMem.Paging.Straight.{
  IsLaid, Filled, map_straight-Filled, map_straight-screen, Filled-wraps,
}
use own_os.VarMem.Paging.Screen.{IsSource, Kept, ScreenIsFar, mapping_pmem-Kept}

module _ {F : Type 0} (alloc_chunk : ℕ → F → Option (ℕ × F)) (Fresh : F → Type 0)
    (mem_size v2ptable big kpdir kptables : ℕ)
    (source : IsSource alloc_chunk Fresh mem_size big kpdir kptables)
    (below : mem_size / dir_entry_size ≤ 0x380)
    (laid : IsLaid (mem_size / dir_entry_size) big kpdir kptables) where
  -- The result is a state in which the directory `kpdir` takes every address of the straight mapping to its
  -- offset in the first 4 MiB.
  abbrev IsWrapped : Option (Paging F) → Type 0
  IsWrapped r =
      (p : Paging F) × ((r ≡ some p)
        × (p.kpdir ≡ kpdir)
        × ((a : ℕ)
            → a < (mem_size / dir_entry_size) * 0x400000
            → vir2phy a p.kpdir p.mem ≡ some (a % 0x400000)))

  word-Apart :
      (q k : ℕ)
      → Apart kpdir 0x1000 big (0x1000 * (mem_size / dir_entry_size))
      → q < (mem_size / dir_entry_size)
      → k < 0x400
      → (big + 0x1000 * q + 4 * k == kpdir + 4 * 0x3ff) ≡ false
  word-Apart q k (inl o) u v = ground arith
  word-Apart q k (inr o) u v = ground arith

  map_rest-run :
      (m m1 : Mem) (f f1 : F)
      → mapping_pmem (alloc_chunk 1) 0xe0000000 0xe0000000 0x200000 kpdir 0x13 m f ≡ some (m1, f1)
      → map_rest alloc_chunk mem_size v2ptable kpdir kptables m f
        ≡ some (record {
          kpdir = kpdir;
          kptables = kptables;
          mem = edit_entry (kpdir + 4 * 0x3ff) v2ptable 0x13 m1;
          frames = f1;
        })
  unfolding map_rest
  map_rest-run m m1 f f1 r = rw (map_rest, r) refl

  Filled-last :
      (q : ℕ) (m m1 : Mem)
      → q < (mem_size / dir_entry_size)
      → Kept alloc_chunk Fresh mem_size big kpdir kptables m m1
      → Filled (mem_size / dir_entry_size) big kpdir kptables laid q m
      → Filled
          (mem_size / dir_entry_size)
          big
          kpdir
          kptables
          laid
          q
          (edit_entry (kpdir + 4 * 0x3ff) v2ptable 0x13 m1)
  unfolding edit_entry
  Filled-last q m m1 u (k1, k2) (d, w) =
      let (_, _, _, _, o, _) = laid in
      let n : (kpdir + 4 * q == kpdir + 4 * 0x3ff) ≡ false = ground arith in
      (
        rw n (k1 q u ∙ d),
        λ k v.
            rw (word-Apart q k o u v)
              (k2 (big + 0x1000 * q + 4 * k) (omega arith) (omega arith) ∙ w k v),
      )

  map_rest-wraps :
      (m : Mem) (f : F)
      → Fresh f
      → ((q : ℕ)
          → q < (mem_size / dir_entry_size)
          → Filled (mem_size / dir_entry_size) big kpdir kptables laid q m)
      → ScreenIsFar alloc_chunk Fresh mem_size big kpdir kptables m
      → IsWrapped (map_rest alloc_chunk mem_size v2ptable kpdir kptables m f)
  map_rest-wraps m f fresh filled s =
      let (m1, f1, (r, kept)) =
        mapping_pmem-Kept alloc_chunk Fresh mem_size big kpdir kptables source below laid m f fresh
          s in
      let m2 = edit_entry (kpdir + 4 * 0x3ff) v2ptable 0x13 m1 in
      (
        record { kpdir = kpdir; kptables = kptables; mem = m2; frames = f1 },
        (
          map_rest-run m m1 f f1 r,
          refl,
          λ a l.
              Filled-wraps (mem_size / dir_entry_size) big kpdir kptables laid a m2 l
                (λ q u. Filled-last q m m1 u kept (filled q u)),
        ),
      )

  -- For a straight mapping of at most 3.5 GiB, and an allocator that gives a directory, a list and tables that have
  -- no word in common, the tables at frames below 4 GiB, and after them frames that are none of these: `initPaging`
  -- comes to its end, and maps every address below the end of the straight mapping, but to its offset in the
  -- first 4 MiB: only there the mapping is straight.
  pub init_paging-wraps :
      (m : Mem) (f f1 f2 f3 : F)
      → alloc_chunk 1 f ≡ some (kpdir, f1)
      → alloc_chunk 1 f1 ≡ some (kptables, f2)
      → alloc_chunk (mem_size / dir_entry_size) f2 ≡ some (big, f3)
      → Fresh f3
      → IsWrapped (init_paging alloc_chunk mem_size v2ptable m f)
  unfolding init_paging
  init_paging-wraps m f f1 f2 f3 e1 e2 e3 fresh =
      let m1 = map_straight (mem_size / dir_entry_size) big kpdir kptables m in
      let e : init_paging alloc_chunk mem_size v2ptable m f
          ≡ map_rest alloc_chunk mem_size v2ptable kpdir kptables m1 f3 =
        rw (init_paging, e1, e2, e3) refl in
      subst IsWrapped (sym e) (
        map_rest-wraps m1 f3 fresh
          (λ q u. map_straight-Filled (mem_size / dir_entry_size) big kpdir kptables laid q m u)
          (inl (
            rw (map_straight-screen (mem_size / dir_entry_size) big kpdir kptables laid m below)
              refl)))
