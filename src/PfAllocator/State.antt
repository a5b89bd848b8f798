-- ===== src/PfAllocator/State.antt =====
-- When the segments of kernel/PFAllocator.cpp form two lists, and how long these can be.
use own_os.Prelude.{
  ℕ, zero, suc, ◌+◌, ◌<◌, ◌≤◌, ◌≡◌, refl, true, false, Option, [], ◌∷◌, arith, ltb, if◌then◌else◌,
  ◌⊎◌, inl, inr, Bool-cases, length,
}
use own_os.PfAllocator.{
  Seg, PfAllocator, ok, panic, cannot_find_free_segment, put, get_seg_loop, max_num_seg, fuel,
}
use own_os.PfAllocator.Chain.{Cell, Cells, has, Chain}

abbrev pub InArray : Cells → Type 0
InArray cs = (i : ℕ) → has i cs ≡ true → i < max_num_seg

-- `fs` is the free list, `us` the used list, and they share no segment.
pub record IsState (fs us : Cells) (s : PfAllocator) : Type 0 where
  pub free : Chain s.segs s.seg_free fs
  pub used : Chain s.segs s.seg_used us
  pub apart : (i : ℕ) → has i fs ≡ true → has i us ≡ false
  pub free_in : InArray fs
  pub used_in : InArray us

-- The number of segments below `n` that are in the list.
occupied : ℕ → Cells → ℕ
occupied zero cs = 0
occupied (suc n) cs = occupied n cs + (if has n cs then 1 else 0)

occupied-le : (n : ℕ) (cs : Cells) → occupied n cs ≤ n
unfolding occupied
occupied-le zero cs = omega arith
occupied-le (suc n) cs = ground (arith, occupied-le n cs)

occupied-nil : (n : ℕ) → occupied n [] ≡ 0
unfolding occupied
occupied-nil zero = refl
occupied-nil (suc n) = ground (arith, occupied-nil n)

occupied-cons :
    (n : ℕ) (c : Cell) (cs : Cells)
    → has c.id cs ≡ false
    → occupied n (c ∷ cs) ≡ occupied n cs + (if ltb c.id n then 1 else 0)
unfolding occupied
occupied-cons zero c cs h = ground arith
occupied-cons (suc n) c cs h = ground (arith, occupied-cons n c cs)

-- The segments of a list are distinct and lie in the array, so the walk meets at most 128.
pub length-Chain :
    (f : ℕ → Seg) (p : Option ℕ) (cs : Cells) → Chain f p cs → InArray cs → length cs < fuel
length-Chain f p cs h inside = omega (arith, count f p cs h inside, occupied-le max_num_seg cs)
  where
    count :
        (f : ℕ → Seg) (p : Option ℕ) (cs : Cells)
        → Chain f p cs
        → InArray cs
        → length cs ≡ occupied max_num_seg cs
    count f p [] h inside = omega (arith, occupied-nil max_num_seg)
    count f p (c ∷ cs) (e, at_c, out, rest) inside = ground (
      arith,
      count f (f c.id).np cs rest (λ i h. inside i (ground arith)),
      inside c.id,
      occupied-cons max_num_seg c cs,
    )

-- A segment in a list is not free, so `getSeg` cannot hand it out again.
pub not-has_of_free :
    (f : ℕ → Seg) (p : Option ℕ) (cs : Cells) (i : ℕ)
    → Chain f p cs
    → (f i).free ≡ true
    → has i cs ≡ false
not-has_of_free f p [] i h free = refl
not-has_of_free f p (c ∷ cs) i (e, at_c, out, rest) free =
    ground (arith, not-has_of_free f (f c.id).np cs i rest free)

-- `getSeg` finds a free segment, or every one is taken.
abbrev pub Found : (left i : ℕ) → PfAllocator → Type 0
Found left i s =
    ((get_seg_loop left i s ≡ panic cannot_find_free_segment)
      × ((j : ℕ) → i ≤ j → j < i + left → (s.segs j).free ≡ false))
    ⊎ ((j : ℕ) × (j < i + left)
        × ((s.segs j).free ≡ true)
        × (get_seg_loop left i s ≡ ok j (put j (record (s.segs j) { free = false }) s)))

pub get_seg_loop-Found : (left i : ℕ) (s : PfAllocator) → Found left i s
unfolding get_seg_loop
get_seg_loop-Found zero i s = inl (refl, λ j h k. absurd (omega arith))
get_seg_loop-Found (suc left) i s = elim (Bool-cases (s.segs i).free) [
  | inl free ↦ inr (i, omega arith, free, rw free)
  | inr taken ↦ elim (get_seg_loop-Found left (i + 1) s) [
    | inl (run, all) ↦ inl (rw taken run, λ j h k. ground (arith, all j))
    | inr (j, h, free, run) ↦ inr (j, omega arith, free, rw taken run)
  ]
]
