-- ===== src/Kmalloc/Alloc.antt =====
-- `kmalloc` takes the first block from `next_free` on that is free and large enough.
use own_os.Prelude.{
  ℕ, zero, suc, ◌+◌, ◌%◌, ◌<◌, ◌≤◌, ◌≡◌, ◌⊎◌, ◌∙◌, ap, refl, Bool, true, false, not, ◌&&◌, some,
  List, [], ◌∷◌, leb, ◌==◌, if◌then◌else◌, arith, Bool-cases, inl, inr, length, All,
}
use own_os.Prelude.Words.{u32_mod}
use own_os.Kmalloc.{
  Heap, panics, returned, carve, reset_ptr, size, skip_used, search_loop, kmalloc, aligned_size,
}
use own_os.Kmalloc.Blocks.{Block, link, Blocks, carve-Blocks}
use own_os.Kmalloc.Spec.{
  alloc, Agrees, after_used, used_bytes, skip-link, after_used-Blocks, alloc-Linked, cons-Agrees,
  alloc-rest, lift-Agrees,
}

search-take :
    (n rsize p : ℕ) (h : Heap)
    → leb rsize (size p h.mem) ≡ true
    → search_loop (suc n) rsize p h ≡ some (returned (carve rsize p h).0 (carve rsize p h).1)
unfolding search_loop
search-take n rsize p h e = rw (search_loop, e) refl

search-next :
    (n rsize p p' : ℕ) (h : Heap)
    → leb rsize (size p h.mem) ≡ false
    → skip_used (suc n) p h.mem ≡ some p'
    → search_loop (suc n) rsize p h
      ≡ (if reset_ptr p' == reset_ptr h.base then some panics else search_loop n rsize p' h)
unfolding search_loop
search-next n rsize p p' h e f = rw (search_loop, e, f) refl

-- A block that is free and large enough leaves room for the header of what is left of it.
unfoldable pub Roomy : (rsize : ℕ) → Block → Type 0
Roomy rsize b = (b.in_use ≡ true) ⊎ ((b.bytes < rsize) ⊎ (rsize + 8 ≤ b.bytes))

Roomy-fits :
    (rsize bytes : ℕ)
    → Roomy rsize (record { in_use = false; bytes = bytes })
    → leb rsize bytes ≡ true
    → rsize + 8 ≤ bytes
unfolding Roomy
Roomy-fits rsize bytes r e = ground arith

carve-base : (rsize a : ℕ) (h : Heap) → (carve rsize a h).1.base ≡ h.base
unfolding carve
carve-base rsize a h = refl

after_used-Roomy :
    (rsize : ℕ) (bs : List Block) → All (Roomy rsize) bs → All (Roomy rsize) (after_used bs)
unfolding after_used
after_used-Roomy rsize [] r = r
after_used-Roomy rsize (b ∷ bs) (x, r) = elim (Bool-cases b.in_use) [
  | inl u ↦ rw u (after_used-Roomy rsize bs r)
  | inr u ↦ simp u (x, r)
]

-- The list behind the blocks in use begins with a free one.
HeadFree : List Block → Type 0
HeadFree [] = Unit
HeadFree (b ∷ bs) = b.in_use ≡ false

after_used-HeadFree : (bs : List Block) → HeadFree (after_used bs)
unfolding after_used HeadFree
after_used-HeadFree [] = tt
after_used-HeadFree (b ∷ bs) = elim (Bool-cases b.in_use) [
  | inl u ↦ rw u (after_used-HeadFree bs)
  | inr u ↦ simp u refl
]

panics-Agrees : (rsize a : ℕ) (h : Heap) → Agrees a h (alloc rsize a []) (some panics)
unfolding Agrees alloc
panics-Agrees rsize a h = refl

module _ (rsize : ℕ) (h : Heap) (al : h.base % 4 ≡ 0) (rl : rsize % 4 ≡ 0) (lo : 8 ≤ rsize) where
  take-Agrees :
      (n a bytes : ℕ) (bs : List Block)
      → a % 4 ≡ 0
      → rsize + 8 ≤ bytes
      → Blocks h.base a (record { in_use = false; bytes = bytes } ∷ bs) h.mem
      → Agrees a h
          (alloc rsize a (record { in_use = false; bytes = bytes } ∷ bs))
          (search_loop (suc n) rsize a h)
  unfolding Agrees alloc Blocks
  take-Agrees n a bytes bs m fit (l, e, s, f, t) =
      let (p, k, o) = carve-Blocks rsize a bytes bs h m rl lo fit (l, e, s, f, t) in
      let r : reset_ptr a ≡ a = omega arith in
      let i : leb rsize (size a h.mem) ≡ true = rw (r, s) (ground arith) in
      let i' : leb rsize bytes ≡ true = ground arith in
      rw i' (
        (carve rsize a h).1,
        search-take n rsize a h i ∙ ap (λ x. some (returned x (carve rsize a h).1)) p,
        carve-base rsize a h,
        k,
        o,
      )

  Searches : ℕ → Type 0
  Searches n =
      (a bytes : ℕ) (bs : List Block)
      → length bs < n
      → a % 4 ≡ 0
      → h.base ≤ a
      → All (Roomy rsize) (record { in_use = false; bytes = bytes } ∷ bs)
      → Blocks h.base a (record { in_use = false; bytes = bytes } ∷ bs) h.mem
      → Agrees a h (alloc rsize a (record { in_use = false; bytes = bytes } ∷ bs))
          (search_loop n rsize a h)

  Next : (n a : ℕ) (bs : List Block) → Type 0
  Next n a bs = Agrees a h (alloc rsize a bs) (
      if reset_ptr (link h.base a bs) == reset_ptr h.base
      then some panics
      else search_loop n rsize (link h.base a bs) h)

  free-Agrees :
      (n a : ℕ) (u : Bool) (bytes : ℕ) (bs : List Block)
      → Searches n
      → length bs < n
      → a % 4 ≡ 0
      → h.base < a
      → u ≡ false
      → All (Roomy rsize) (record { in_use = u; bytes = bytes } ∷ bs)
      → Blocks h.base a (record { in_use = u; bytes = bytes } ∷ bs) h.mem
      → Next n a (record { in_use = u; bytes = bytes } ∷ bs)
  unfolding Next Searches
  free-Agrees n a true bytes bs s c m b f r k = absurd (ground arith)
  free-Agrees n a false bytes bs s c m b f r k =
      let e : (reset_ptr a == reset_ptr h.base) ≡ false = ground arith in
      rw e (s a bytes bs c m (omega arith) r k)

  -- The outer loop after the inner one.
  Next-Agrees :
      (n a : ℕ) (bs : List Block)
      → Searches n
      → length bs ≤ n
      → a % 4 ≡ 0
      → h.base < a
      → HeadFree bs
      → All (Roomy rsize) bs
      → Blocks h.base a bs h.mem
      → Next n a bs
  unfolding HeadFree Next
  Next-Agrees n a [] s c m b f r k =
      let e : (reset_ptr h.base == reset_ptr h.base) ≡ true = ground arith in
      rw e (panics-Agrees rsize a h)
  Next-Agrees n a (d ∷ ds) s c m b f r k =
      free-Agrees n a d.in_use d.bytes ds s (omega arith) m b f r k

  search-Agrees : (n : ℕ) → Searches n
  unfolding Searches Blocks Next
  search-Agrees zero a bytes bs c m b r k = absurd (omega arith)
  search-Agrees (suc n) a bytes bs c m b (r, rs) k = elim (Bool-cases (leb rsize bytes)) [
    | inl i ↦ take-Agrees n a bytes bs m (Roomy-fits rsize bytes r i) k
    | inr i ↦
        let (l, e, s, f, t) = k in
        let z : reset_ptr a ≡ a = omega arith in
        let i' : leb rsize (size a h.mem) ≡ false = rw (z, s) i in
        let (k', m', c') = after_used-Blocks h.base (a + bytes) bs h.mem t (omega arith) in
        let q = search-next n rsize a _ h i' (
          skip-link (suc n) a h.base a (record { in_use = false; bytes = bytes }) bs h.mem c al m z
            k) in
        let b' : h.base < a + bytes + used_bytes bs = omega arith in
        let v =
          Next-Agrees n (a + bytes + used_bytes bs) (after_used bs) (search-Agrees n) (omega arith)
            m' b' (after_used-HeadFree bs) (after_used-Roomy rsize bs rs) k' in
        let g : (not false && leb rsize bytes) ≡ false = i in
        rw (q, alloc-rest rsize a (record { in_use = false; bytes = bytes }) bs g)
          (cons-Agrees a h _ bs (alloc rsize (a + bytes) bs) _
            (alloc-Linked rsize h.base (a + bytes) bs) k (lift-Agrees rsize (a + bytes) h bs _ t v))
  ]

-- Against a heap of blocks one behind the other, whose first one from `next_free` on is free, `kmalloc`
-- ends. It panics when no block from there on is free and large enough, whatever lies in front, and else
-- returns the end of the first such block, which is cut in two, and leaves the memory in front of
-- `next_free` as it was. A block that is large enough has to leave room for a header.
pub kmalloc-Agrees :
    (n request bytes : ℕ) (bs : List Block) (h : Heap)
    → length bs < n
    → request + 11 < u32_mod
    → h.base % 4 ≡ 0
    → h.next_free % 4 ≡ 0
    → h.base ≤ h.next_free
    → All (Roomy (aligned_size request)) (record { in_use = false; bytes = bytes } ∷ bs)
    → Blocks h.base h.next_free (record { in_use = false; bytes = bytes } ∷ bs) h.mem
    → Agrees h.next_free h
        (alloc (aligned_size request) h.next_free (record { in_use = false; bytes = bytes } ∷ bs))
        (kmalloc n request h)
unfolding kmalloc Searches
kmalloc-Agrees n request bytes bs h c w al nl b r k =
    search-Agrees (aligned_size request) h al (omega arith) (omega arith) n h.next_free bytes bs c
      nl b r k
