-- ===== src/Fork/Space.antt =====
-- The copy of the regions of a process, and of the pages in them.
use own_os.Prelude.{
  ℕ, zero, suc, ◌+◌, ◌*◌, ◌<◌, ◌≡◌, ◌∙◌, refl, sym, ap, subst, Bool, true, false, Option, none,
  some, List, [], ◌∷◌, ◌++◌, All, leb, arith, Bool-cases, inl, inr,
}
use mathlib.Core.List.{append-nil, append_assoc}
use own_os.Prelude.Words.{u32_mod, add32, sub32}
use own_os.Prelude.Memory.{Mem}
use own_os.VarMem.{enable_space, copy_kernel_dir}
use own_os.Fork.{
  Region, Copy, copied, stuck, unfinished, clone_page, clone_pages, page_fuel, clone_region,
  clone_regions, clone_into, copy_pages, clone_mm, and_then, page_type,
}

-- The address of the last page that the loop over a region copies.
abbrev pub last_page : Region → ℕ
last_page r = sub32 (add32 r.begin r.size) 0x1000

-- A region that ends below the last page of the address space.
abbrev pub Fits : Region → Type 0
Fits r = (r.begin < u32_mod) × (last_page r < 0xfffff000)

-- The loops have come to an end.
abbrev pub ends : {A : Type 0} → Copy A → Bool
ends unfinished = false
ends _ = true

pub clone_pages-past :
    (n cur pdir limit a : ℕ) (m : Mem)
    → leb a limit ≡ false
    → clone_pages (suc n) cur pdir limit a m ≡ copied m
unfolding clone_pages
clone_pages-past n cur pdir limit a m e = rw (clone_pages, e) refl

pub clone_pages-next :
    (n cur pdir limit a : ℕ) (m : Mem)
    → leb a limit ≡ true
    → clone_pages (suc n) cur pdir limit a m ≡ elim (clone_page cur pdir a m) [
      | none ↦ stuck
      | some m ↦ clone_pages n cur pdir limit (add32 a 0x1000) m
    ]
unfolding clone_pages
clone_pages-next n cur pdir limit a m e = rw (clone_pages, e) refl

clone_pages-ends :
    (n cur pdir limit a : ℕ) (m : Mem)
    → limit < 0xfffff000
    → a < u32_mod
    → limit < a + 0x1000 * n
    → ends (clone_pages (suc n) cur pdir limit a m) ≡ true
unfolding clone_pages
clone_pages-ends zero cur pdir limit a m l b f =
    ap ends (clone_pages-past zero cur pdir limit a m (ground arith))
clone_pages-ends (suc n) cur pdir limit a m l b f = elim (Bool-cases (leb a limit)) [
  | inr e ↦ ap ends (clone_pages-past (suc n) cur pdir limit a m e)
  | inl e ↦
      ap ends (clone_pages-next (suc n) cur pdir limit a m e)
      ∙ next
          (λ m. clone_pages-ends n cur pdir limit (add32 a 0x1000) m l (omega arith) (ground arith))
          (clone_page cur pdir a m)
]
  where
    next :
        ((m : Mem) → ends (clone_pages (suc n) cur pdir limit (add32 a 0x1000) m) ≡ true)
        → (r : Option Mem)
        → ends (elim r [
          | none ↦ stuck
          | some m ↦ clone_pages (suc n) cur pdir limit (add32 a 0x1000) m
        ])
          ≡ true
    next h none = refl
    next h (some m) = h m

and_then-ends :
    {A B : Type 0} (c : Copy A) (f : A → Copy B)
    → ends c ≡ true
    → ((x : A) → ends (f x) ≡ true)
    → ends (and_then c f) ≡ true
unfolding and_then
and_then-ends (copied x) f e h = h x
and_then-ends stuck f e h = refl
and_then-ends unfinished f e h = e

module _ {F : Type 0} (alloc_chunk : F → Option (ℕ × F)) where
  copy_pages-ends :
      (cur pdir : ℕ) (r : Region) (x : Option (Mem × F))
      → Fits r
      → ends (copy_pages alloc_chunk cur pdir r x) ≡ true
  unfolding copy_pages
  copy_pages-ends cur pdir r none h = refl
  copy_pages-ends cur pdir r (some (m, f)) (b, l) =
      and_then-ends {A = Mem} {B = Mem × F} (clone_pages page_fuel cur pdir (last_page r) r.begin m)
        (λ m. copied (m, f))
        (clone_pages-ends 0x100000 cur pdir (last_page r) r.begin m l b (omega arith)) (λ m. refl)

  clone_region-ends :
      (cur pdir : ℕ) (r : Region) (m : Mem) (f : F)
      → Fits r
      → ends (clone_region alloc_chunk cur pdir r m f) ≡ true
  unfolding clone_region
  clone_region-ends cur pdir r m f =
      copy_pages-ends cur pdir r
        (enable_space alloc_chunk r.begin r.size pdir (page_type r.flags) m f)

  clone_regions-ends :
      (cur pdir : ℕ) (rs done : List Region) (m : Mem) (f : F)
      → All Fits rs
      → ends (clone_regions alloc_chunk cur pdir rs done m f) ≡ true
  unfolding clone_regions
  clone_regions-ends cur pdir [] done m f h = refl
  clone_regions-ends cur pdir (r ∷ rs) done m f (h, hs) =
      and_then-ends (clone_region alloc_chunk cur pdir r m f)
        (λ (m, f). clone_regions alloc_chunk cur pdir rs (done ++ (r ∷ [])) m f)
        (clone_region-ends cur pdir r m f h)
        (λ (m, f). clone_regions-ends cur pdir rs (done ++ (r ∷ [])) m f hs)

  clone_into-ends :
      (mem_size kpdir cur : ℕ) (rs : List Region) (m : Mem) (x : Option (ℕ × F))
      → All Fits rs
      → ends (clone_into alloc_chunk mem_size kpdir cur rs m x) ≡ true
  unfolding clone_into
  clone_into-ends mem_size kpdir cur rs m none h = refl
  clone_into-ends mem_size kpdir cur rs m (some (pdir, f)) h =
      and_then-ends
        (clone_regions alloc_chunk cur pdir rs [] (copy_kernel_dir mem_size kpdir pdir m) f)
        (λ (rs, m, f). copied (pdir, rs, m, f))
        (clone_regions-ends cur pdir rs [] (copy_kernel_dir mem_size kpdir pdir m) f h) (λ x. refl)

  -- The loops of `clone_mm` come to an end, with a copy or a panic, where every region fits.
  pub clone_mm-ends :
      (mem_size kpdir cur : ℕ) (rs : List Region) (m : Mem) (f : F)
      → All Fits rs
      → ends (clone_mm alloc_chunk mem_size kpdir cur rs m f) ≡ true
  unfolding clone_mm
  clone_mm-ends mem_size kpdir cur rs m f = clone_into-ends mem_size kpdir cur rs m (alloc_chunk f)

  -- The regions of a copy, where there is one.
  abbrev Keeps : {A : Type 0} → (A → List Region) → List Region → Copy A → Type 0
  Keeps g rs (copied x) = g x ≡ rs
  Keeps g rs _ = Unit

  and_then-Keeps :
      {A B : Type 0} (g : B → List Region) (rs : List Region) (c : Copy A) (k : A → Copy B)
      → ((x : A) → c ≡ copied x → Keeps g rs (k x))
      → Keeps g rs (and_then c k)
  unfolding and_then
  and_then-Keeps g rs (copied x) k h = h x refl
  and_then-Keeps g rs stuck k h = tt
  and_then-Keeps g rs unfinished k h = tt

  clone_regions-Keeps :
      (cur pdir : ℕ) (rs done : List Region) (m : Mem) (f : F)
      → Keeps (λ x. x.0) (done ++ rs) (clone_regions alloc_chunk cur pdir rs done m f)
  unfolding clone_regions
  clone_regions-Keeps cur pdir [] done m f = sym (append-nil done)
  clone_regions-Keeps cur pdir (r ∷ rs) done m f =
      and_then-Keeps {A = Mem × F} {B = List Region × Mem × F} (λ x. x.0) (done ++ r ∷ rs)
        (clone_region alloc_chunk cur pdir r m f)
        (λ (m, f). clone_regions alloc_chunk cur pdir rs (done ++ (r ∷ [])) m f)
        (λ (m, f) e.
          subst
            (λ l. Keeps (λ x. x.0) l (clone_regions alloc_chunk cur pdir rs (done ++ (r ∷ [])) m f))
            (append_assoc done (r ∷ []) rs)
            (clone_regions-Keeps cur pdir rs (done ++ (r ∷ [])) m f))

  clone_into-Keeps :
      (mem_size kpdir cur : ℕ) (rs : List Region) (m : Mem) (x : Option (ℕ × F))
      → Keeps (λ x. x.1) rs (clone_into alloc_chunk mem_size kpdir cur rs m x)
  unfolding clone_into and_then
  clone_into-Keeps mem_size kpdir cur rs m none = tt
  clone_into-Keeps mem_size kpdir cur rs m (some (pdir, f)) =
      keeps (clone_regions alloc_chunk cur pdir rs [] (copy_kernel_dir mem_size kpdir pdir m) f)
        (clone_regions-Keeps cur pdir rs [] (copy_kernel_dir mem_size kpdir pdir m) f)
    where
      keeps :
          (c : Copy (List Region × Mem × F))
          → Keeps (λ x. x.0) rs c
          → Keeps {A = ℕ × List Region × Mem × F}
              (λ x. x.1)
              rs
              (and_then c (λ (rs, m, f). copied (pdir, rs, m, f)))
      keeps (copied x) k = k
      keeps stuck k = tt
      keeps unfinished k = tt

  -- The regions of a copy that `clone_mm` makes are the regions of the source, in their order.
  pub clone_mm-Keeps :
      (mem_size kpdir cur pdir : ℕ) (rs rs' : List Region) (m m' : Mem) (f f' : F)
      → clone_mm alloc_chunk mem_size kpdir cur rs m f ≡ copied (pdir, rs', m', f')
      → rs' ≡ rs
  unfolding clone_mm
  clone_mm-Keeps mem_size kpdir cur pdir rs rs' m m' f f' e =
      subst (Keeps (λ x. x.1) rs) e (clone_into-Keeps mem_size kpdir cur rs m (alloc_chunk f))
