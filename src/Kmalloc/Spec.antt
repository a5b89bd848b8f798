-- ===== src/Kmalloc/Spec.antt =====
-- The allocation on a list of blocks, and the inner loop of `kmalloc`.
use own_os.Prelude.{
  ℕ, zero, suc, ◌+◌, ◌-◌, ◌%◌, ◌<◌, ◌≤◌, ◌≡◌, ◌∙◌, sym, refl, Bool, true, false, not, ◌&&◌, Option,
  none, some, List, [], ◌∷◌, leb, if◌then◌else◌, arith, Bool-cases, inl, inr, length,
}
use own_os.Prelude.Memory.{Mem}
use own_os.Kmalloc.{Heap, Outcome, panics, returned, reset_ptr, is_used, next, skip_used}
use own_os.Kmalloc.Blocks.{Block, link, Blocks}

-- The abstract heap: the blocks after an allocation with the address that it gives.
pub cons : Block → Option (ℕ × List Block) → Option (ℕ × List Block)
cons b none = none
cons b (some (p, bs)) = some (p, b ∷ bs)

unfoldable pub alloc : (rsize a : ℕ) → List Block → Option (ℕ × List Block)
unfolding cons
alloc rsize a [] = none
alloc rsize a (b ∷ bs) =
    let rest = cons b (alloc rsize (a + b.bytes) bs) in
    if not b.in_use && leb rsize b.bytes
    then some (
      a + (b.bytes - rsize) + 8,
      record { in_use = false; bytes = b.bytes - rsize }
          ∷ record { in_use = true; bytes = rsize }
          ∷ bs,
    )
    else rest

-- The blocks from the first free one on, and the bytes of those in front of it.
unfoldable pub after_used : List Block → List Block
after_used [] = []
after_used (b ∷ bs) = if b.in_use then after_used bs else b ∷ bs

unfoldable pub used_bytes : List Block → ℕ
used_bytes [] = 0
used_bytes (b ∷ bs) = if b.in_use then b.bytes + used_bytes bs else 0

skip-step :
    (n p v : ℕ) (m : Mem)
    → next p m ≡ v
    → skip_used (suc n) p m ≡ (if is_used v then skip_used n v m else some v)
unfolding skip_used
skip-step n p v m e = rw e refl

-- The inner loop comes to the first free block, or to the base.
pub skip-link :
    (n p base a : ℕ) (b : Block) (bs : List Block) (m : Mem)
    → length bs < n
    → base % 4 ≡ 0
    → a % 4 ≡ 0
    → reset_ptr p ≡ a
    → Blocks base a (b ∷ bs) m
    → skip_used n p m ≡ some (link base (a + b.bytes + used_bytes bs) (after_used bs))
unfolding Blocks after_used used_bytes
skip-link zero p base a b bs m h bl al e k = absurd (omega arith)
skip-link (suc n) p base a b [] m h bl al e (l, r, s, f, t) =
    let v : next p m ≡ base = rw e f in
    let u : is_used base ≡ false = ground arith in skip-step n p base m v ∙ rw u refl
skip-link (suc n) p base a b (c ∷ cs) m h bl al e (l, r, s, f, t) =
    let a' = a + b.bytes in
    elim (Bool-cases c.in_use) [
      | inl u ↦
          let v : next p m ≡ a' + 1 = rw (e, f, u) refl in
          let i : is_used (a' + 1) ≡ true = ground arith in
          let w : reset_ptr (a' + 1) ≡ a' = omega arith in
          let rec = skip-link n (a' + 1) base a' c cs m (omega arith) bl (omega arith) w t in
          let assoc : a' + (c.bytes + used_bytes cs) ≡ a' + c.bytes + used_bytes cs = omega arith in
          skip-step n p (a' + 1) m v ∙ rw (i, u, assoc) rec
      | inr u ↦
          let v : next p m ≡ a' = rw (e, f, u) refl in
          let i : is_used a' ≡ false = ground arith in
          let z : a' + 0 ≡ a' = omega arith in skip-step n p a' m v ∙ rw (i, u, z) refl
    ]

pub after_used-Blocks :
    (base a : ℕ) (bs : List Block) (m : Mem)
    → Blocks base a bs m
    → a % 4 ≡ 0
    → Blocks base (a + used_bytes bs) (after_used bs) m
      × ((a + used_bytes bs) % 4 ≡ 0)
      × (length (after_used bs) ≤ length bs)
unfolding Blocks after_used used_bytes
after_used-Blocks base a [] m h al = let z : a + 0 ≡ a = omega arith in rw z (h, al, omega arith)
after_used-Blocks base a (b ∷ bs) m (l, r, s, f, t) al = elim (Bool-cases b.in_use) [
  | inl u ↦
      let (h, k, n) = after_used-Blocks base (a + b.bytes) bs m t (omega arith) in
      let e : a + (b.bytes + used_bytes bs) ≡ a + b.bytes + used_bytes bs = omega arith in
      rw (u, e) (h, k, omega arith)
  | inr u ↦ let z : a + 0 ≡ a = omega arith in rw (u, z) ((l, r, s, f, t), al, omega arith)
]

-- What `kmalloc` does against the abstract heap: it panics where there is no block, and else returns the
-- block, with the blocks of the abstract heap in the memory, and the memory in front as it was.
unfoldable pub Agrees : (a : ℕ) (h : Heap) → Option (ℕ × List Block) → Option Outcome → Type 0
Agrees a h none r = r ≡ some panics
Agrees a h (some (p, bs)) r =
    (h' : Heap) × (r ≡ some (returned p h'))
    × (h'.base ≡ h.base)
    × Blocks h.base a bs h'.mem
    × ((x : ℕ) → x < a → h'.mem x ≡ h.mem x)

-- An allocation leaves a first block that is free or in use as such.
pub Linked : (base : ℕ) → List Block → Option (ℕ × List Block) → Type 0
Linked base bs none = Unit
Linked base bs (some (p, bs')) = (x : ℕ) → link base x bs' ≡ link base x bs

cons-Linked :
    (base : ℕ) (b : Block) (bs : List Block) (o : Option (ℕ × List Block))
    → Linked base (b ∷ bs) (cons b o)
unfolding Linked cons
cons-Linked base b bs none = tt
cons-Linked base b bs (some (p, bs')) = λ x. refl

pub alloc-rest :
    (rsize a : ℕ) (b : Block) (bs : List Block)
    → (not b.in_use && leb rsize b.bytes) ≡ false
    → alloc rsize a (b ∷ bs) ≡ cons b (alloc rsize (a + b.bytes) bs)
unfolding alloc
alloc-rest rsize a b bs e = rw e refl

in_use-rest : (u l : Bool) → u ≡ true → (not u && l) ≡ false
in_use-rest true l e = refl
in_use-rest false l e = ground arith

pub alloc-Linked : (rsize base a : ℕ) (bs : List Block) → Linked base bs (alloc rsize a bs)
unfolding alloc Linked
alloc-Linked rsize base a [] = tt
alloc-Linked rsize base a (b ∷ bs) = elim (Bool-cases (not b.in_use && leb rsize b.bytes)) [
  | inl u ↦ rw u (λ x. ground arith)
  | inr u ↦ rw u (cons-Linked base b bs (alloc rsize (a + b.bytes) bs))
]

pub cons-Agrees :
    (a : ℕ) (h : Heap) (b : Block) (bs : List Block) (o : Option (ℕ × List Block))
    (r : Option Outcome)
    → Linked h.base bs o
    → Blocks h.base a (b ∷ bs) h.mem
    → Agrees (a + b.bytes) h o r
    → Agrees a h (cons b o) r
unfolding Agrees Linked cons Blocks
cons-Agrees a h b bs none r l k e = e
cons-Agrees a h b bs (some (p, bs')) r l (lo, al, s, f, t) (h', e, g, t', o) = (
  h',
  e,
  g,
  (lo, al, o (a + 4) (omega arith) ∙ s, o a (omega arith) ∙ f ∙ sym (l (a + b.bytes)), t'),
  λ x i. o x (omega arith),
)

nil-Agrees :
    (rsize a a' : ℕ) (h : Heap) (r : Option Outcome)
    → Agrees a' h (alloc rsize a' []) r
    → Agrees a h (alloc rsize a []) r
unfolding alloc Agrees
nil-Agrees rsize a a' h r k = k

-- The blocks in use in front of a free one do not matter.
pub lift-Agrees :
    (rsize a : ℕ) (h : Heap) (bs : List Block) (r : Option Outcome)
    → Blocks h.base a bs h.mem
    → Agrees (a + used_bytes bs) h (alloc rsize (a + used_bytes bs) (after_used bs)) r
    → Agrees a h (alloc rsize a bs) r
unfolding used_bytes after_used Blocks
lift-Agrees rsize a h [] r t k = nil-Agrees rsize a (a + 0) h r k
lift-Agrees rsize a h (b ∷ bs) r (lo, al, s, f, t) k = elim (Bool-cases b.in_use) [
  | inl u ↦
      let e : a + (b.bytes + used_bytes bs) ≡ a + b.bytes + used_bytes bs = omega arith in
      let k' = rw (u, e) at k in
      let l = alloc-rest rsize a b bs (in_use-rest b.in_use (leb rsize b.bytes) u) in
      rw l (
        cons-Agrees a h b bs (alloc rsize (a + b.bytes) bs) r
          (alloc-Linked rsize h.base (a + b.bytes) bs) (lo, al, s, f, t)
          (lift-Agrees rsize (a + b.bytes) h bs r t k'))
  | inr u ↦ let z : a + 0 ≡ a = omega arith in let k' = simp (u, z) at k in k'
]
