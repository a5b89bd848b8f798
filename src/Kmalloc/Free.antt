-- ===== src/Kmalloc/Free.antt =====
-- `kfree` unites a block with the free blocks beside it.
use own_os.Prelude.{
  ℕ, ◌+◌, ◌%◌, ◌<◌, ◌≡◌, ◌∙◌, sym, refl, Bool, true, false, some, List, [], ◌∷◌, ◌++◌, arith,
  Bool-cases, inl, inr, length,
}
use own_os.Prelude.Memory.{Mem}
use own_os.Prelude.Words.{sub32}
use own_os.Kmalloc.{Heap, reset_ptr, find_prev, unite, kfree}
use own_os.Kmalloc.Blocks.{pointer, Block, link, Blocks, Blocks-low}
use own_os.Kmalloc.Unite.{
  merge, join, total, first, behind, find_prev-pointer, Left, Two, unite-Left,
}

link-append :
    (base a : ℕ) (front bs bs' : List Block)
    → link base a bs' ≡ link base a bs
    → link base a (front ++ bs') ≡ link base a (front ++ bs)
link-append base a [] bs bs' e = e
link-append base a (d ∷ ds) bs bs' e = refl

free-link : (base x f : ℕ) (bs : List Block) → link base x (merge f bs) ≡ x
unfolding merge
free-link base x f [] = refl
free-link base x f (c ∷ cs) = elim (Bool-cases c.in_use) [ inl u ↦ rw u refl | inr u ↦ rw u refl ]

join-link :
    (base x : ℕ) (u : Bool) (bytes f : ℕ) (bs cs : List Block)
    → link base x (join (record { in_use = u; bytes = bytes }) f bs)
      ≡ link base x (record { in_use = u; bytes = bytes } ∷ cs)
unfolding join
join-link base x true bytes f bs cs = refl
join-link base x false bytes f bs cs = free-link base x (bytes + f) bs

-- A change from some block on.
front-Blocks :
    (base a : ℕ) (front bs bs' : List Block) (m m' : Mem)
    → ((x : ℕ) → link base x bs' ≡ link base x bs)
    → Blocks base a (front ++ bs) m
    → Left base (a + total front) bs' m m'
    → Blocks base a (front ++ bs') m'
unfolding Blocks total Left
front-Blocks base a [] bs bs' m m' j k (l, o) = let z : a + 0 ≡ a = omega arith in rw z at l
front-Blocks base a (d ∷ ds) bs bs' m m' j (l, e, s, n, t) k =
    let z : a + (d.bytes + total ds) ≡ a + d.bytes + total ds = omega arith in
    let (k', o) = rw z at k in
    (
      l,
      e,
      o (a + 4) (omega arith) ∙ s,
      o a (omega arith) ∙ n ∙ sym (link-append base (a + d.bytes) ds bs bs' (j (a + d.bytes))),
      front-Blocks base (a + d.bytes) ds bs bs' m m' j t (k', o),
    )

kfree-some :
    (n addr prev : ℕ) (h : Heap)
    → find_prev n (reset_ptr (sub32 addr 8)) h.base h.mem ≡ some prev
    → kfree n addr h ≡ some (record h { mem = unite (reset_ptr (sub32 addr 8)) prev h })
unfolding kfree
kfree-some n addr prev h f = rw (kfree, f) refl

-- In a heap of blocks one behind the other, the first of which is free, `kfree` of a block behind
-- another one ends, and leaves the same heap but for the block, which has become free and one with the
-- free blocks on its two sides.
pub kfree-join :
    (n f : ℕ) (front : List Block) (b : Block) (bs : List Block) (h : Heap)
    → length front < n
    → h.base % 4 ≡ 0
    → (first front b).in_use ≡ false
    → Blocks h.base h.base (front ++ b ∷ record { in_use = true; bytes = f } ∷ bs) h.mem
    → (h' : Heap) × (kfree n (h.base + total front + b.bytes + 8) h ≡ some h')
      × (h'.base ≡ h.base)
      × Blocks h.base h.base (front ++ join b f bs) h'.mem
unfolding Blocks Two
kfree-join n f front b bs h c al u k =
    let p = h.base + total front in
    let d : Block = record { in_use = true; bytes = f } in
    let (t, pl, l) = behind h.base h.base front b (d ∷ bs) h.mem al k in
    let (_, e, _, _, (l', _, _, _, t')) = t in
    let low = Blocks-low h.base (p + b.bytes + f) bs h.mem t' in
    let g = rw u at (find_prev-pointer n h.base h.base front b d bs h.mem c al k) in
    let r : reset_ptr (sub32 (p + b.bytes + 8) 8) ≡ p + b.bytes = omega arith in
    let left = unite-Left h p al pl (omega arith) b.in_use b.bytes f bs t in
    let m = unite (p + b.bytes) (pointer p b.in_use) h in
    let joined = λ (x : ℕ). join-link h.base x b.in_use b.bytes f bs (d ∷ bs) in
    let v : kfree n (p + b.bytes + 8) h ≡ some (record h { mem = m }) =
      kfree-some n (p + b.bytes + 8) (pointer p b.in_use) h (rw r g) ∙ rw r refl in
    (record h { mem = m }, v, refl, front-Blocks h.base h.base front _ _ h.mem m joined k left)
