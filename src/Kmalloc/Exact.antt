-- ===== src/Kmalloc/Exact.antt =====
-- A block that is taken whole: `kmalloc` then finds no other block, and no end.
use own_os.Prelude.{
  ℕ, zero, suc, ◌+◌, ◌-◌, ◌%◌, ◌<◌, ◌≡◌, ◌∙◌, ap, refl, true, false, none, some, leb, ◌==◌, arith,
}
use own_os.Prelude.Memory.{Mem, write}
use own_os.Prelude.Words.{u32_mod, add32, sub32}
use own_os.Kmalloc.{
  Heap, returned, carve, reset_ptr, set_used, is_used, size, skip_used, search_loop, kmalloc,
  aligned_size,
}

abbrev taken : (a rsize : ℕ) → Mem → Mem
taken a rsize m = write (a + 4) 0 (write a (a + 1) (write (a + 4) rsize (write a (m a) m)))

carve-taken :
    (rsize a : ℕ) (h : Heap)
    → a % 4 ≡ 0
    → a + 8 < u32_mod
    → rsize < u32_mod
    → h.mem (a + 4) ≡ rsize
    → carve rsize a h ≡ (a + 8, record h { next_free = a; mem = taken a rsize h.mem })
unfolding carve
carve-taken rsize a h al l r s =
    let e1 : reset_ptr a ≡ a = omega arith in
    let e2 : add32 a (rsize - rsize) ≡ a = omega arith in
    let e3 : reset_ptr (set_used a) ≡ a = omega arith in
    let e4 : set_used a ≡ a + 1 = omega arith in
    let f1 : (a + 4 == a) ≡ false = ground arith in
    let f2 : (a + 4 == a + 4) ≡ true = ground arith in
    let e6 : sub32 rsize rsize ≡ 0 = omega arith in
    let e7 : add32 a 8 ≡ a + 8 = omega arith in rw (e1, s, e2, e3, e4, f1, f2, e6, e7) refl

search-taken :
    (n rsize a : ℕ) (h : Heap)
    → leb rsize (size a h.mem) ≡ true
    → search_loop (suc n) rsize a h ≡ some (returned (carve rsize a h).0 (carve rsize a h).1)
unfolding search_loop
search-taken n rsize a h e = rw (search_loop, e) refl

skip-endless :
    (n p a : ℕ) (m : Mem) → a % 4 ≡ 0 → reset_ptr p ≡ a → m a ≡ a + 1 → skip_used n p m ≡ none
unfolding skip_used
skip-endless zero p a m al e s = refl
skip-endless (suc n) p a m al e s =
    let i : is_used (a + 1) ≡ true = ground arith in
    let z : reset_ptr (a + 1) ≡ a = omega arith in rw (e, s, i) (skip-endless n (a + 1) a m al z s)

search-endless :
    (n rsize a : ℕ) (h : Heap)
    → a % 4 ≡ 0
    → 0 < rsize
    → h.mem a ≡ a + 1
    → h.mem (a + 4) ≡ 0
    → search_loop n rsize a h ≡ none
unfolding search_loop
search-endless zero rsize a h al l s t = refl
search-endless (suc n) rsize a h al l s t =
    let e : reset_ptr a ≡ a = omega arith in
    let i : leb rsize (size a h.mem) ≡ false = rw (e, t) (ground arith) in
    rw (search_loop, i, skip-endless (suc n) a a h.mem al e s) refl

-- When `next_free` is a block of exactly the size that is asked for, `kmalloc` returns it, and a further
-- `kmalloc`, with any fuel, does not come to an end.
pub kmalloc_taken-none :
    (n request again : ℕ) (h : Heap)
    → request + 11 < u32_mod
    → again + 11 < u32_mod
    → h.next_free % 4 ≡ 0
    → h.next_free + 8 < u32_mod
    → h.mem (h.next_free + 4) ≡ aligned_size request
    → (h' : Heap) × (kmalloc 1 request h ≡ some (returned (h.next_free + 8) h'))
      × (kmalloc n again h' ≡ none)
unfolding kmalloc
kmalloc_taken-none n request again h l l' al r s =
    let a = h.next_free in
    let rsize = aligned_size request in
    let h' : Heap = record h { next_free = a; mem = taken a rsize h.mem } in
    let e : reset_ptr a ≡ a = omega arith in
    let i : leb rsize (size a h.mem) ≡ true = rw (e, s) (ground arith) in
    let c = carve-taken rsize a h al r (omega arith) s in
    (
      h',
      search-taken 0 rsize a h i ∙ ap (λ x. some (returned x.0 x.1)) c,
      search-endless n (aligned_size again) a h' al (omega arith) (ground arith) (ground arith),
    )
