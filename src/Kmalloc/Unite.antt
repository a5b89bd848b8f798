-- ===== src/Kmalloc/Unite.antt =====
-- `unite`, which `kfree` calls for the freed block and the one in front.
use own_os.Prelude.{
  ℕ, zero, suc, ◌+◌, ◌%◌, ◌<◌, ◌≤◌, ◌≡◌, ◌∙◌, refl, Bool, true, false, not, ◌||◌, some, List, [],
  ◌∷◌, ◌++◌, ◌==◌, if◌then◌else◌, arith, length,
}
use own_os.Prelude.Memory.{Mem, write}
use own_os.Prelude.Words.{add32}
use own_os.Kmalloc.{Heap, reset_ptr, is_used, find_prev, unite}
use own_os.Kmalloc.Blocks.{Block, link, pointer, Blocks, Blocks-low, Blocks-frame}

abbrev free : ℕ → Block
free n = record { in_use = false; bytes = n }

-- The freed block of `f` bytes with what lies behind it.
unfoldable pub merge : (f : ℕ) → List Block → List Block
merge f [] = free f ∷ []
merge f (c ∷ cs) = if c.in_use then free f ∷ c ∷ cs else free (f + c.bytes) ∷ cs

-- The same with what lies in front of it.
unfoldable pub join : Block → (f : ℕ) → List Block → List Block
unfolding merge
join b f bs = if b.in_use then b ∷ merge f bs else merge (b.bytes + f) bs

-- The bytes of the blocks.
unfoldable pub total : List Block → ℕ
total [] = 0
total (b ∷ bs) = b.bytes + total bs

-- The first block of a list in front of another block.
unfoldable pub first : List Block → Block → Block
first [] d = d
first (b ∷ bs) d = b

link-first :
    (base a : ℕ) (bs ds : List Block) (d : Block)
    → link base a (bs ++ d ∷ ds) ≡ pointer a (first bs d).in_use
unfolding first
link-first base a [] ds d = refl
link-first base a (b ∷ bs) ds d = refl

reset-pointer : (a : ℕ) (u : Bool) → a % 4 ≡ 0 → reset_ptr (pointer a u) ≡ a
reset-pointer a true h = omega arith
reset-pointer a false h = omega arith

is_used-pointer : (a : ℕ) (u : Bool) → a % 4 ≡ 0 → is_used (pointer a u) ≡ u
is_used-pointer a true h = ground arith
is_used-pointer a false h = ground arith

-- The blocks behind some others.
pub behind :
    (base a : ℕ) (front : List Block) (b : Block) (bs : List Block) (m : Mem)
    → a % 4 ≡ 0
    → Blocks base a (front ++ b ∷ bs) m
    → Blocks base (a + total front) (b ∷ bs) m × ((a + total front) % 4 ≡ 0) × (8 ≤ b.bytes)
unfolding Blocks total
behind base a [] b bs m al k = let z : a + 0 ≡ a = omega arith in rw z (k, al, k.0)
behind base a (d ∷ ds) b bs m al (l, e, s, f, t) =
    let z : a + (d.bytes + total ds) ≡ a + d.bytes + total ds = omega arith in
    rw z (behind base (a + d.bytes) ds b bs m (omega arith) t)

-- The walk finds the pointer to the block in front of the freed one.
pub find_prev-pointer :
    (n base a : ℕ) (front : List Block) (b c : Block) (cs : List Block) (m : Mem)
    → length front < n
    → a % 4 ≡ 0
    → Blocks base a (front ++ b ∷ c ∷ cs) m
    → find_prev n (a + total front + b.bytes) (pointer a (first front b).in_use) m
      ≡ some (pointer (a + total front) b.in_use)
unfolding find_prev Blocks total first
find_prev-pointer zero base a front b c cs m h al k = absurd (omega arith)
find_prev-pointer (suc n) base a [] b c cs m h al (l, e, s, f, t) =
    let r = reset-pointer a b.in_use al in
    let r' = reset-pointer (a + b.bytes) c.in_use (omega arith) in
    let z : a + 0 ≡ a = omega arith in
    let y : (a + b.bytes == a + b.bytes) ≡ true = ground arith in rw (r, f, r', z, y) refl
find_prev-pointer (suc n) base a (d ∷ ds) b c cs m h al (l, e, s, f, t) =
    let a' = a + d.bytes in
    let r = reset-pointer a d.in_use al in
    let g = f ∙ link-first base a' ds (c ∷ cs) b in
    let r' = reset-pointer a' (first ds b).in_use (omega arith) in
    let z : a + (d.bytes + total ds) ≡ a' + total ds = omega arith in
    let y : (a' == a' + total ds + b.bytes) ≡ false =
      let (k, o, w) = behind base a' ds b (c ∷ cs) m (omega arith) t in ground arith in
    rw (r, g, r', z, y) (find_prev-pointer n base a' ds b c cs m (omega arith) (omega arith) t)

-- The four outcomes, for the addresses of the block in front, of the freed one and of the one behind.
abbrev grow : (p f : ℕ) → Mem → Mem
grow p f m = let m1 = write (p + 4) (add32 (m (p + 4)) (m (f + 4))) m in write p (m1 f) m1

abbrev grow_twice : (p f c : ℕ) → Mem → Mem
grow_twice p f c m =
    let m1 = grow p f m in
    let m2 = write (p + 4) (add32 (m1 (p + 4)) (m1 (c + 4))) m1 in write p (m2 c) m2

unite-cases :
    (f q p c : ℕ) (u v : Bool) (h : Heap)
    → reset_ptr q ≡ p
    → reset_ptr f ≡ f
    → reset_ptr (h.mem f) ≡ c
    → (is_used q || f == reset_ptr h.base) ≡ u
    → (is_used (h.mem f) || c == reset_ptr h.base) ≡ v
    → unite f q h ≡ (
        if not u
        then (if not v then grow_twice p f c h.mem else grow p f h.mem)
        else (if not v then grow f c (write p (reset_ptr (h.mem p)) h.mem) else write p f h.mem))
unfolding unite
unite-cases f q p c u v h e1 e2 e3 e4 e5 = rw (e1, e2, e3, e4, e5) refl

-- What stands in memory in the end, from the block in front on.
unfoldable pub Left : (base p : ℕ) → List Block → (m m' : Mem) → Type 0
Left base p bs m m' = Blocks base p bs m' × ((x : ℕ) → x < p → m' x ≡ m x)

grow-Left :
    (base p bytes f : ℕ) (bs : List Block) (m : Mem)
    → 8 ≤ bytes
    → bytes % 4 ≡ 0
    → 8 ≤ f
    → f % 4 ≡ 0
    → m (p + 4) ≡ bytes
    → m (p + bytes + 4) ≡ f
    → m (p + bytes) ≡ link base (p + bytes + f) bs
    → Blocks base (p + bytes + f) bs m
    → Left base p (free (bytes + f) ∷ bs) m (grow p (p + bytes) m)
unfolding Left Blocks
grow-Left base p bytes f bs m l e l' e' s s' n t =
    let low = Blocks-low base (p + bytes + f) bs m t in
    let assoc : p + (bytes + f) ≡ p + bytes + f = omega arith in
    let t' =
      Blocks-frame base (p + bytes + f) bs m (grow p (p + bytes) m) (λ x o. ground arith) t in
    let z : add32 bytes f ≡ bytes + f = omega arith in
    rw assoc ((omega arith, omega arith, ground arith, ground arith, t'), λ x o. ground arith)

grow_twice-Left :
    (base p bytes f c : ℕ) (bs : List Block) (m : Mem)
    → 8 ≤ bytes
    → bytes % 4 ≡ 0
    → 8 ≤ f
    → f % 4 ≡ 0
    → 8 ≤ c
    → c % 4 ≡ 0
    → m (p + 4) ≡ bytes
    → m (p + bytes + 4) ≡ f
    → m (p + bytes + f + 4) ≡ c
    → m (p + bytes + f) ≡ link base (p + bytes + f + c) bs
    → Blocks base (p + bytes + f + c) bs m
    → Left base p (free (bytes + f + c) ∷ bs) m (grow_twice p (p + bytes) (p + bytes + f) m)
unfolding Left Blocks
grow_twice-Left base p bytes f c bs m l e l' e' l2 e2 s s' s2 n t =
    let m' = grow p (p + bytes) m in
    let low = Blocks-low base (p + bytes + f + c) bs m t in
    let t' = Blocks-frame base (p + bytes + f + c) bs m m' (λ x o. ground arith) t in
    let a1 : p + (bytes + f) ≡ p + bytes + f = omega arith in
    let z : add32 bytes f ≡ bytes + f = omega arith in
    let g =
      grow-Left base p (bytes + f) c bs m' (omega arith) (omega arith) l2 e2 (ground arith)
        (rw a1 (ground arith)) (rw a1 (ground arith)) (rw a1 t') in
    let (k, o) = rw a1 at g in (k, λ x i. o x i ∙ ground arith)

or-false : (v : Bool) → (v || false) ≡ v
or-false true = refl
or-false false = refl

module _ (h : Heap) (p : ℕ) (hl : h.base % 4 ≡ 0) (pl : p % 4 ≡ 0) (low : h.base ≤ p) where
  -- Whether `unite` takes the block behind as one in use.
  Behind : (a : ℕ) → List Block → Bool → Type 0
  Behind a [] v = v ≡ true
  Behind a (c ∷ cs) v = c.in_use ≡ v

  Behind-cases :
      (f : ℕ) (a : ℕ) (bs : List Block) (v : Bool)
      → h.mem f ≡ link h.base a bs
      → a % 4 ≡ 0
      → h.base < a
      → Behind a bs v
      → (is_used (h.mem f) || reset_ptr (h.mem f) == reset_ptr h.base) ≡ v
  unfolding Behind
  Behind-cases f a [] v e al l k = rw e (ground arith)
  Behind-cases f a (c ∷ cs) v e al l k =
      let r = reset-pointer a c.in_use al in
      let i = is_used-pointer a c.in_use al in
      let z : (a == reset_ptr h.base) ≡ false = ground arith in rw (e, r, i, z, k) (or-false v)

  unfoldable pub Two : (u : Bool) (bytes f : ℕ) (bs : List Block) → Type 0
  Two u bytes f bs =
      Blocks h.base p
        (record { in_use = u; bytes = bytes } ∷ record { in_use = true; bytes = f } ∷ bs) h.mem

  -- Nothing to unite with behind.
  solid-Left :
      (u : Bool) (bytes f : ℕ) (bs : List Block)
      → Two u bytes f bs
      → Behind (p + bytes + f) bs true
      → Left h.base p
          (if u
            then record { in_use = true; bytes = bytes } ∷ free f ∷ bs
            else free (bytes + f) ∷ bs)
          h.mem
          (unite (p + bytes) (pointer p u) h)
  unfolding Two Blocks Left
  solid-Left true bytes f bs (l, e, s, n, (l', e', s', n', t)) b =
      let v = Behind-cases (p + bytes) (p + bytes + f) bs true n' (omega arith) (omega arith) b in
      let t' =
        Blocks-frame h.base (p + bytes + f) bs h.mem (write p (p + bytes) h.mem)
          (λ x o. ground arith) t in
      rw
        (unite-cases (p + bytes) (p + 1) p _ true true h (omega arith) (omega arith) refl
          (ground arith) v)
        (
          (l, e, ground arith, ground arith, (l', e', ground arith, ground arith, t')),
          λ x o. ground arith,
        )
  solid-Left false bytes f bs (l, e, s, n, (l', e', s', n', t)) b =
      let v = Behind-cases (p + bytes) (p + bytes + f) bs true n' (omega arith) (omega arith) b in
      rw
        (unite-cases (p + bytes) p p _ false true h (omega arith) (omega arith) refl (ground arith)
          v)
        (grow-Left h.base p bytes f bs h.mem l e l' e' s s' n' t)

  -- A free block behind.
  hollow-Left :
      (u : Bool) (bytes f c : ℕ) (bs : List Block)
      → Two u bytes f (free c ∷ bs)
      → Left h.base p
          (if u
            then record { in_use = true; bytes = bytes } ∷ free (f + c) ∷ bs
            else free (bytes + f + c) ∷ bs)
          h.mem
          (unite (p + bytes) (pointer p u) h)
  unfolding Two Blocks Left Behind
  hollow-Left true bytes f c bs (l, e, s, n, (l', e', s', n', (l2, e2, s2, n2, t))) =
      let v =
        Behind-cases (p + bytes) (p + bytes + f) (free c ∷ bs) false n' (omega arith) (omega arith)
          refl in
      let w : reset_ptr (h.mem p) ≡ p + bytes = rw n (omega arith) in
      let r : reset_ptr (h.mem (p + bytes)) ≡ p + bytes + f = rw n' (omega arith) in
      let m = write p (p + bytes) h.mem in
      let t' = Blocks-frame h.base (p + bytes + f + c) bs h.mem m (λ x o. ground arith) t in
      let (k, o) =
        grow-Left h.base (p + bytes) f c bs m l' e' l2 e2 (ground arith) (ground arith)
          (ground arith) t' in
      rw
        (
          unite-cases (p + bytes) (p + 1) p (p + bytes + f) true false h (omega arith) (omega arith)
              r (ground arith) (rw r at v),
          w,
        )
        (
          (l, e, o (p + 4) (omega arith) ∙ ground arith, o p (omega arith) ∙ ground arith, k),
          λ x i. o x (omega arith) ∙ ground arith,
        )
  hollow-Left false bytes f c bs (l, e, s, n, (l', e', s', n', (l2, e2, s2, n2, t))) =
      let v =
        Behind-cases (p + bytes) (p + bytes + f) (free c ∷ bs) false n' (omega arith) (omega arith)
          refl in
      let r : reset_ptr (h.mem (p + bytes)) ≡ p + bytes + f = rw n' (omega arith) in
      rw
        (unite-cases (p + bytes) p p (p + bytes + f) false false h (omega arith) (omega arith) r
          (ground arith) (rw r at v))
        (grow_twice-Left h.base p bytes f c bs h.mem l e l' e' l2 e2 s s' s2 n2 t)

  -- A block in front, a block behind that is free or in use.
  beside-Left :
      (u w : Bool) (bytes f c : ℕ) (bs : List Block)
      → Two u bytes f (record { in_use = w; bytes = c } ∷ bs)
      → Left h.base p
          (join (record { in_use = u; bytes = bytes }) f (record { in_use = w; bytes = c } ∷ bs))
          h.mem
          (unite (p + bytes) (pointer p u) h)
  unfolding join merge Behind
  beside-Left true true bytes f c bs k = solid-Left true bytes f _ k refl
  beside-Left true false bytes f c bs k = hollow-Left true bytes f c bs k
  beside-Left false true bytes f c bs k = solid-Left false bytes f _ k refl
  beside-Left false false bytes f c bs k = hollow-Left false bytes f c bs k

  pub unite-Left :
      (u : Bool) (bytes f : ℕ) (bs : List Block)
      → Two u bytes f bs
      → Left h.base p
          (join (record { in_use = u; bytes = bytes }) f bs)
          h.mem
          (unite (p + bytes) (pointer p u) h)
  unfolding join merge Behind
  unite-Left true bytes f [] k = solid-Left true bytes f [] k refl
  unite-Left false bytes f [] k = solid-Left false bytes f [] k refl
  unite-Left u bytes f (c ∷ cs) k = beside-Left u c.in_use bytes f c.bytes cs k
