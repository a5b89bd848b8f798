-- ===== src/File/Span.antt =====
-- The bytes that `read` and `read_block` copy.
use own_os.Prelude.{
  ℕ, zero, suc, ◌+◌, ◌-◌, ◌*◌, ◌/◌, ◌%◌, ◌<◌, ◌≤◌, ◌≡◌, refl, subst, true, false, some, List, [],
  ◌∷◌, ◌++◌, arith, ltb, ◌==◌, Bool-cases, inl, inr,
}
use native.Mathlib.Nat.{div-eq_of_lt-le}
use own_os.Prelude.Words.{u32_mod, add32, sub32}
use own_os.File.{Call, blocks, some_bytes, rest_calls, read, buffer, read_block}

module _ (block_size : ℕ) (positive : 0 < block_size) where
  -- A span of `n` bytes at `a` that stays inside one block.
  abbrev pub Inside : ℕ → ℕ → Type 0
  Inside a n = (q : ℕ) × (q * block_size ≤ a) × (a + n ≤ q * block_size + block_size)

  -- The calls copy `n` bytes from `a` to `d`, one span after the other, each inside a block.
  pub Copies : (a d n : ℕ) → List Call → Type 0
  Copies a d n [] = n ≡ 0
  Copies a d n (c ∷ cs) =
      (c.src ≡ a)
      × (c.dest ≡ d)
      × (c.size ≤ n)
      × Inside a c.size
      × Copies (a + c.size) (d + c.size) (n - c.size) cs

  some_bytes-Copies : (a d n : ℕ) → Inside a n → Copies a d n (some_bytes block_size a d n)
  unfolding Copies
  some_bytes-Copies a d n i = elim (Bool-cases (n == 0)) [
    | inl e ↦ rw e (ground arith)
    | inr e ↦ rw e (refl, refl, omega arith, i, omega arith)
  ]

  div : (n : ℕ) → n / block_size * block_size + n % block_size ≡ n
  div n = ground arith

  rest_of_block : (n : ℕ) → n % block_size < block_size
  rest_of_block n = ground arith

  same :
      {a a' d d' n n' : ℕ} (cs : List Call)
      → a ≡ a'
      → d ≡ d'
      → n ≡ n'
      → Copies a d n cs
      → Copies a' d' n' cs
  same {a' = a'} {d = d} {d' = d'} {n = n} cs x y z c =
      subst (λ m. Copies a' d' m cs) z
        (subst (λ e. Copies a' e n cs) y (subst (λ b. Copies b d n cs) x c))

  -- Whole blocks from the beginning of a block, and what follows them.
  blocks-Copies :
      (n q a d t : ℕ) (cs : List Call)
      → a ≡ q * block_size
      → a + n * block_size < u32_mod
      → d + n * block_size < u32_mod
      → Copies (a + n * block_size) (d + n * block_size) t cs
      → Copies a d (n * block_size + t) (blocks block_size n a d ++ cs)
  unfolding blocks Copies
  blocks-Copies zero q a d t cs e x y c = same cs (omega arith) (omega arith) (omega arith) c
  blocks-Copies (suc n) q a d t cs e x y c =
      let m = suc n * block_size in
      let s : m ≡ n * block_size + block_size = omega arith in
      let a' : add32 a block_size ≡ a + block_size = omega arith in
      let d' : add32 d block_size ≡ d + block_size = omega arith in
      (
        refl,
        refl,
        omega arith,
        (q, omega arith, omega arith),
        same (blocks block_size n (add32 a block_size) (add32 d block_size) ++ cs) a' d'
            (omega arith)
            (blocks-Copies n (suc q) (add32 a block_size) (add32 d block_size) t cs (omega arith)
              (omega arith) (omega arith) (same cs (omega arith) (omega arith) refl c)),
      )

  -- A read of a span that is larger than a block and smaller than 2 GiB, and lies below 4 GiB in the file and in
  -- memory, copies it whole and in order, and each of its calls stays inside one block.
  pub read-Copies :
      (addr size dest : ℕ)
      → block_size < size
      → size < 0x80000000
      → addr + size < u32_mod
      → dest + size < u32_mod
      → Copies addr dest size (read block_size addr size dest)
  unfolding read rest_calls Copies
  read-Copies addr size dest h b x y =
      let e = block_size - addr % block_size in
      let r = rest_of_block addr in
      let l : ltb block_size size ≡ true = ground arith in
      let z : (e == 0) ≡ false = ground arith in
      let s : sub32 size e ≡ size - e = omega arith in
      let i : ltb (size - e) 0x80000000 ≡ true = ground arith in
      let q = addr / block_size in
      let dv = div addr in
      let n = (size - e) / block_size in
      let t = (size - e) % block_size in
      let dn = div (size - e) in
      let rn = rest_of_block (size - e) in
      let a1 : add32 addr e ≡ addr + e = omega arith in
      let d1 : add32 dest e ≡ dest + e = omega arith in
      let a2 : (addr + e + n * block_size) % u32_mod ≡ addr + e + n * block_size = omega arith in
      let d2 : (dest + e + n * block_size) % u32_mod ≡ dest + e + n * block_size = omega arith in
      rw (l, z)
        (
          refl,
          refl,
          omega arith,
          (q, omega arith, omega arith),
          rw (s, i, a1, d1)
              (rw (a2, d2)
                (same
                  (blocks block_size n (addr + e) (dest + e)
                    ++ some_bytes block_size (addr + e + n * block_size) (dest + e + n * block_size)
                        t)
                  refl refl (omega arith)
                  (blocks-Copies n (suc q) (addr + e) (dest + e) t
                    (some_bytes block_size (addr + e + n * block_size) (dest + e + n * block_size)
                      t)
                    (omega arith) (omega arith) (omega arith)
                    (some_bytes-Copies (addr + e + n * block_size) (dest + e + n * block_size) t
                      (suc q + n, omega arith, omega arith))))),
        )

  -- What the file holds, by the blocks that are read for the positions of their beginnings.
  module _ (bound : block_size < u32_mod) (block : ℕ → ℕ → ℕ) where
    abbrev pub byte : ℕ → ℕ
    byte p = block (p / block_size * block_size) (p % block_size)

    -- A span inside one block is read, and each of its bytes is the byte of the file.
    pub read_block-inside :
        (addr size i : ℕ)
        → addr < u32_mod
        → addr % block_size + size ≤ block_size
        → i < size
        → (f : ℕ → ℕ) × ((read_block block_size block addr size ≡ some f) × (f i ≡ byte (addr + i)))
    unfolding read_block buffer
    read_block-inside addr size i a h l =
        let t : ltb block_size size ≡ false = ground arith in
        let u : ltb block_size (addr % block_size + size) ≡ false = ground arith in
        let w : (u32_mod - block_size == 0) ≡ false = ground arith in
        let v : u32_mod - (u32_mod - block_size) ≡ block_size = omega arith in
        let d = div addr in
        let e : (addr + i) / block_size ≡ addr / block_size =
          div-eq_of_lt-le block_size (omega arith) (omega arith) in
        let m : (addr + i) / block_size * block_size + (addr + i) % block_size ≡ addr + i =
          div (addr + i) in
        let k : addr / block_size * block_size + (addr + i) % block_size ≡ addr + i = rw e at m in
        let r : (addr + i) % block_size ≡ addr % block_size + i = omega arith in
        rw t (_, (refl, rw (u, w, v, e, r) refl))

    -- Of a span of at most a block's size over the end of a block, the bytes behind the end are read from the beginning of the
    -- file, and not from the next block.
    pub read_block-crosses :
        (addr size i : ℕ)
        → size ≤ block_size
        → block_size ≤ addr % block_size + i
        → i < size
        → (f : ℕ → ℕ) × ((read_block block_size block addr size ≡ some f)
            × (f i ≡ block 0 (addr % block_size + i - block_size)))
    unfolding read_block buffer
    read_block-crosses addr size i h k l =
        let t : ltb block_size size ≡ false = ground arith in
        let u : ltb block_size (addr % block_size + size) ≡ true = ground arith in
        let v : ltb (addr % block_size + i) block_size ≡ false = ground arith in
        let m : add32 (u32_mod - block_size) block_size ≡ 0 = omega arith in
        rw t (_, (refl, rw (u, v, m) refl))
