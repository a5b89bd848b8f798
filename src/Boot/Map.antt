-- ===== src/Boot/Map.antt =====
-- The walk over the memory map, as a list of entries.
use own_os.Prelude.{
  ℕ, zero, suc, ◌+◌, ◌*◌, ◌<◌, ◌≤◌, ◌≡◌, ◌∙◌, refl, ap, subst, true, false, List, [], ◌∷◌, length,
  ltb, All, if◌then◌else◌, arith, Bool-cases, inl, inr, ◌⊎◌,
}
use own_os.Prelude.Words.{u32_mod, add32}
use own_os.Prelude.Memory.{Mem}
use own_os.PfAllocator.{Run, ok, panic, out_of_fuel, add_chunk}
use own_os.Boot.{
  Boot, Booted, booted, panics, unfinished, Mmap, mmap_at, is_free_kind, addr_end, settle, register,
  and_then, mmap_loop,
}

-- The entries `es` stand one behind the other from `p` to `end`.
unfoldable pub Holds : (p end : ℕ) → List Mmap → Mem → Type 0
Holds p end [] m = p ≡ end
Holds p end (e ∷ es) m =
    (mmap_at p m ≡ e) × (p + (e.size + 4) ≤ end) × Holds (p + (e.size + 4)) end es m

-- The entries taken one after the other.
pub register_all : List Mmap → Boot → Booted
register_all [] b = booted b
register_all (e ∷ es) b = and_then (register e b) (register_all es)

mmap_loop-end : (n p : ℕ) (m : Mem) (b : Boot) → mmap_loop (suc n) p p m b ≡ booted b
unfolding mmap_loop
mmap_loop-end n p m b = let e : ltb p p ≡ false = ground arith in rw (mmap_loop, e) refl

mmap_loop-entry :
    (n p end : ℕ) (m : Mem) (b : Boot)
    → p < end
    → mmap_loop (suc n) p end m b
      ≡ and_then
          (register (mmap_at p m) b)
          (mmap_loop n (add32 p (add32 (mmap_at p m).size 4)) end m)
unfolding mmap_loop
mmap_loop-entry n p end m b l = let e : ltb p end ≡ true = ground arith in rw (mmap_loop, e) refl

and_then-same :
    (x : Booted) (f g : Boot → Booted) → ((b : Boot) → f b ≡ g b) → and_then x f ≡ and_then x g
unfolding and_then
and_then-same (booted b) f g h = h b
and_then-same panics f g h = refl
and_then-same unfinished f g h = refl

-- With more fuel than entries, the walk over a map whose entries end below 4 GiB takes the entries of the
-- map one after the other.
pub mmap_loop-register_all :
    (es : List Mmap) (n p end : ℕ) (m : Mem) (b : Boot)
    → length es < n
    → end < u32_mod
    → Holds p end es m
    → mmap_loop n p end m b ≡ register_all es b
unfolding Holds register_all
mmap_loop-register_all es zero p end m b l u h = absurd (omega arith)
mmap_loop-register_all [] (suc n) p end m b l u h =
    subst (λ x. mmap_loop (suc n) p x m b ≡ booted b) h (mmap_loop-end n p m b)
mmap_loop-register_all (e ∷ es) (suc n) p end m b l u (at, fits, h) =
    let a : add32 p (add32 e.size 4) ≡ p + (e.size + 4) = omega arith in
    mmap_loop-entry n p end m b (omega arith)
    ∙ ap (λ x. and_then (register x b) (mmap_loop n (add32 p (add32 x.size 4)) end m)) at
    ∙ ap (λ q. and_then (register e b) (mmap_loop n q end m)) a
    ∙ and_then-same (register e b) (mmap_loop n (p + (e.size + 4)) end m) (register_all es)
        (λ b. mmap_loop-register_all es n (p + (e.size + 4)) end m b (omega arith) u h)

-- The end of a range, by all 64 bits of its address and of its length.
abbrev pub range_end : Mmap → ℕ
range_end e = e.addr_low + u32_mod * e.addr_high + (e.len_low + u32_mod * e.len_high)

-- A range that ends below 4 GiB.
abbrev pub IsLow : Mmap → Type 0
IsLow e = range_end e < u32_mod

-- A free range of the map ends at the size of the memory or below it.
abbrev pub Below : ℕ → Mmap → Type 0
Below size e = (is_free_kind e.kind ≡ false) ⊎ (range_end e ≤ size)

addr_end-range_end : (e : Mmap) → IsLow e → addr_end e ≡ range_end e
addr_end-range_end e l = omega arith

-- The size has not shrunk, and the free ranges of the entries are below it.
abbrev pub Covers : ℕ → List Mmap → Booted → Type 0
Covers size es (booted b) = (size ≤ b.mem_size) × All (Below b.mem_size) es
Covers size es panics = Unit
Covers size es unfinished = Unit

settle-Covers :
    {A : Type 0} (size : ℕ) (e : Mmap) (r : Run A)
    → IsLow e
    → Covers size (e ∷ []) (settle (if ltb size (addr_end e) then addr_end e else size) r)
unfolding settle
settle-Covers size e (ok x s) low =
    let t = addr_end-range_end e low in
    elim (Bool-cases (ltb size (addr_end e))) [
      | inl h ↦ rw h (ground arith, (inr (omega arith), tt))
      | inr h ↦ rw h (omega arith, (inr (ground arith), tt))
    ]
settle-Covers size e (panic p) low = tt
settle-Covers size e out_of_fuel low = tt

register-Covers : (e : Mmap) (b : Boot) → IsLow e → Covers b.mem_size (e ∷ []) (register e b)
unfolding register
register-Covers e b low = elim (Bool-cases (is_free_kind e.kind)) [
  | inl h ↦ rw h (settle-Covers b.mem_size e (add_chunk e.addr_low (addr_end e) b.pf_allocator) low)
  | inr h ↦ rw h (omega arith, (inl h, tt))
]

Below-grows : (a b : ℕ) (e : Mmap) → a ≤ b → Below a e → Below b e
Below-grows a b e l (inl h) = inl h
Below-grows a b e l (inr h) = inr (omega arith)

register_all-Covers :
    (es : List Mmap) (b : Boot) → All IsLow es → Covers b.mem_size es (register_all es b)
unfolding register_all and_then
register_all-Covers [] b low = (omega arith, tt)
register_all-Covers (e ∷ es) b (low, lows) =
    next (λ b. register_all-Covers es b lows) (register e b) (register-Covers e b low)
  where
    next :
        ((b : Boot) → Covers b.mem_size es (register_all es b))
        → (r : Booted) → Covers b.mem_size (e ∷ []) r
        → Covers b.mem_size (e ∷ es) (and_then r (register_all es))
    next h (booted b') (l, (x, _)) = rest (register_all es b') (h b')
      where
        rest : (r : Booted) → Covers b'.mem_size es r → Covers b.mem_size (e ∷ es) r
        rest (booted b'') (l', xs) =
            (omega arith, (Below-grows b'.mem_size b''.mem_size e l' x, xs))
        rest panics t = tt
        rest unfinished t = tt
    next h panics t = tt
    next h unfinished t = tt

-- With more fuel than entries, a map that stands below 4 GiB, and ranges that end below 4 GiB: where the walk comes to
-- its end, the size that it leaves bounds every free range of the map, and is not below the size before.
pub mmap_loop-Covers :
    (es : List Mmap) (n p end : ℕ) (m : Mem) (b : Boot)
    → length es < n
    → end < u32_mod
    → Holds p end es m
    → All IsLow es
    → Covers b.mem_size es (mmap_loop n p end m b)
mmap_loop-Covers es n p end m b l u h low =
    rw (mmap_loop-register_all es n p end m b l u h) (register_all-Covers es b low)
