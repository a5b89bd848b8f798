-- ===== src/Kmalloc/Blocks.antt =====
-- The heap as a list of blocks, one behind the other.
use own_os.Prelude.{
  ℕ, ◌+◌, ◌-◌, ◌%◌, ◌<◌, ◌≤◌, ◌≡◌, ◌∙◌, refl, Bool, true, false, List, [], ◌∷◌, ◌==◌, arith,
}
use own_os.Prelude.Memory.{Mem, write}
use own_os.Prelude.Words.{u32_mod, add32, sub32}
use own_os.Kmalloc.{Heap, carve, reset_ptr, set_used}

-- A block of `bytes` bytes with its header.
pub record Block : Type 0 where
  pub in_use : Bool
  pub bytes : ℕ

-- The pointer to the block at an address.
abbrev pub pointer : ℕ → Bool → ℕ
pointer a true = a + 1
pointer a false = a

-- The pointer to what comes next: behind the last block stands the pointer to the first one.
abbrev pub link : (base a : ℕ) → List Block → ℕ
link base a [] = base
link base a (b ∷ bs) = pointer a b.in_use

-- The blocks from an address on, below 4 GiB.
unfoldable pub Blocks : (base a : ℕ) → List Block → Mem → Type 0
Blocks base a [] m = a < u32_mod
Blocks base a (b ∷ bs) m =
    (8 ≤ b.bytes)
    × (b.bytes % 4 ≡ 0)
    × (m (a + 4) ≡ b.bytes)
    × (m a ≡ link base (a + b.bytes) bs)
    × Blocks base (a + b.bytes) bs m

pub Blocks-low : (base a : ℕ) (bs : List Block) (m : Mem) → Blocks base a bs m → a < u32_mod
unfolding Blocks
Blocks-low base a [] m h = h
Blocks-low base a (b ∷ bs) m (l, e, s, n, h) = omega (arith, Blocks-low base (a + b.bytes) bs m h)

-- Memory in front of the blocks does not matter.
pub Blocks-frame :
    (base a : ℕ) (bs : List Block) (m m' : Mem)
    → ((x : ℕ) → a ≤ x → m' x ≡ m x)
    → Blocks base a bs m
    → Blocks base a bs m'
unfolding Blocks
Blocks-frame base a [] m m' k h = h
Blocks-frame base a (b ∷ bs) m m' k (l, e, s, n, h) = (
  l,
  e,
  k (a + 4) (omega arith) ∙ s,
  k a (omega arith) ∙ n,
  Blocks-frame base (a + b.bytes) bs m m' (λ x o. k x (omega arith)) h,
)

-- The memory after a cut at `q`.
abbrev cut : (rsize bytes a q : ℕ) → Mem → Mem
cut rsize bytes a q m =
    write (a + 4) (bytes - rsize) (write a (q + 1) (write (q + 4) rsize (write q (m a) m)))

carve-cut :
    (rsize a bytes : ℕ) (h : Heap)
    → a % 4 ≡ 0
    → rsize % 4 ≡ 0
    → bytes % 4 ≡ 0
    → 8 ≤ rsize
    → rsize + 8 ≤ bytes
    → a + bytes < u32_mod
    → h.mem (a + 4) ≡ bytes
    → carve rsize a h ≡ (
      a + (bytes - rsize) + 8,
      record h { next_free = a; mem = cut rsize bytes a (a + (bytes - rsize)) h.mem },
    )
unfolding carve
carve-cut rsize a bytes h al rl bl lo fit low s =
    let e1 : reset_ptr a ≡ a = omega arith in
    let q = a + (bytes - rsize) in
    let e2 : add32 a (bytes - rsize) ≡ q = omega arith in
    let e3 : reset_ptr (set_used q) ≡ q = omega arith in
    let e4 : set_used q ≡ q + 1 = omega arith in
    let f1 : (a + 4 == a) ≡ false = ground arith in
    let f2 : (a + 4 == q + 4) ≡ false = ground arith in
    let f3 : (a + 4 == q) ≡ false = ground arith in
    let e6 : sub32 bytes rsize ≡ bytes - rsize = omega arith in
    let e7 : add32 q 8 ≡ q + 8 = omega arith in rw (e1, s, e2, e3, e4, f1, f2, f3, e6, e7) refl

-- A free block that is cut in two.
pub carve-Blocks :
    (rsize a bytes : ℕ) (bs : List Block) (h : Heap)
    → a % 4 ≡ 0
    → rsize % 4 ≡ 0
    → 8 ≤ rsize
    → rsize + 8 ≤ bytes
    → Blocks h.base a (record { in_use = false; bytes = bytes } ∷ bs) h.mem
    → ((carve rsize a h).0 ≡ a + (bytes - rsize) + 8)
      × Blocks h.base a
          (record { in_use = false; bytes = bytes - rsize }
            ∷ record { in_use = true; bytes = rsize }
            ∷ bs)
          (carve rsize a h).1.mem
      × ((x : ℕ) → x < a → (carve rsize a h).1.mem x ≡ h.mem x)
unfolding Blocks
carve-Blocks rsize a bytes bs h al rl lo fit (l, e, s, n, t) =
    let low = Blocks-low h.base (a + bytes) bs h.mem t in
    let r : a + (bytes - rsize) + rsize ≡ a + bytes = omega arith in
    let m = cut rsize bytes a (a + (bytes - rsize)) h.mem in
    let t' = Blocks-frame h.base (a + bytes) bs h.mem m (λ x o. ground arith) t in
    rw (carve-cut rsize a bytes h al rl e lo fit low s, r)
      (
        refl,
        (
          omega arith,
          omega arith,
          ground arith,
          ground arith,
          (lo, rl, ground arith, ground arith, t'),
        ),
        λ x o. ground arith,
      )
