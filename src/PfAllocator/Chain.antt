-- ===== src/PfAllocator/Chain.antt =====
-- What a list of kernel/PFAllocator.cpp stands for: its segments in the order of the `np` fields.
use own_os.Prelude.{
  ℕ, ◌≡◌, refl, ap, Bool, true, false, ◌||◌, Option, none, some, List, [], ◌∷◌, arith, ◌==◌,
}
use own_os.PfAllocator.{Seg, PfAllocator, Slot, free_head, used_head, np_of, deref, assign}

pub record Cell : Type 0 where
  pub id : ℕ
  pub begin : ℕ
  pub blocks : ℕ

abbrev pub cell : ℕ → ℕ → ℕ → Cell
cell i b n = record { id = i; begin = b; blocks = n }

abbrev pub Cells : Type 0
Cells = List Cell

abbrev pub has : ℕ → Cells → Bool
has i [] = false
has i (c ∷ cs) = (c.id == i) || has i cs

-- Segment `c.id` is in use and holds the range of `c`.
pub record Holds (f : ℕ → Seg) (c : Cell) : Type 0 where
  pub in_use : (f c.id).free ≡ false
  pub begin : (f c.id).begin ≡ c.begin
  pub blocks : (f c.id).blocks ≡ c.blocks

-- From `p` the `np` fields lead through the distinct segments `cs` to NULL.
abbrev pub Chain : (ℕ → Seg) → Option ℕ → Cells → Type 0
Chain f p [] = p ≡ none
Chain f p (c ∷ cs) = (p ≡ some c.id) × Holds f c × (has c.id cs ≡ false) × Chain f (f c.id).np cs

-- A chain survives any change that spares its own segments.
pub frame :
    (f g : ℕ → Seg) (p : Option ℕ) (cs : Cells)
    → Chain f p cs
    → ((i : ℕ) → has i cs ≡ true → g i ≡ f i)
    → Chain g p cs
frame f g p [] h same = h
frame f g p (c ∷ cs) (e, holds, out, rest) same =
    let here : g c.id ≡ f c.id = same c.id (ground arith) in
    (e, ground arith, out, rw here (frame f g (f c.id).np cs rest λ i h. same i (ground arith)))

pub relink : (f : ℕ → Seg) {p q : Option ℕ} (cs : Cells) → Chain f p cs → q ≡ p → Chain f q cs
relink f cs h e = rw e h

-- Outside `cs` and segment `seg`, `t` is `s` with `p` written into `slot`.
pub record Framed (slot : Slot) (p : Option ℕ) (cs : Cells) (seg : ℕ) (s t : PfAllocator)
    : Type 0 where
  pub others : (i : ℕ) → has i cs ≡ false → (seg == i) ≡ false → t.segs i ≡ (assign slot p s).segs i
  pub free_head : t.seg_free ≡ (assign slot p s).seg_free
  pub used_head : t.seg_used ≡ (assign slot p s).seg_used

-- `slot` is no field of the segments in `cs`.
abbrev pub Outside : Slot → Cells → Type 0
Outside free_head cs = Unit
Outside used_head cs = Unit
Outside (np_of i) cs = has i cs ≡ false

pub Outside-nil : (slot : Slot) → Outside slot []
Outside-nil free_head = tt
Outside-nil used_head = tt
Outside-nil (np_of i) = refl

module _ (p : Option ℕ) (s : PfAllocator) where
  pub deref-assign : (slot : Slot) → deref slot (assign slot p s) ≡ p
  deref-assign free_head = refl
  deref-assign used_head = refl
  deref-assign (np_of i) = ground arith

  -- A write of what the slot holds already changes nothing.
  pub assign_self : (slot : Slot) (i : ℕ) → deref slot s ≡ p → (assign slot p s).segs i ≡ s.segs i
  assign_self free_head i e = refl
  assign_self used_head i e = refl
  assign_self (np_of j) i e = ground arith

  pub assign_others :
      (slot : Slot) (cs : Cells) (i : ℕ)
      → Outside slot cs
      → has i cs ≡ true
      → (assign slot p s).segs i ≡ s.segs i
  assign_others free_head cs i out h = refl
  assign_others used_head cs i out h = refl
  assign_others (np_of j) cs i out h = ground arith

module _ (slot : Slot) (cs : Cells) (seg : Cell) {s t : PfAllocator} where
  -- Where an update leaves `slot` and all but `cs` and `seg` alone, it is framed.
  pub unmoved :
      ((i : ℕ) → has i (seg ∷ cs) ≡ false → t.segs i ≡ s.segs i)
      → t.seg_free ≡ s.seg_free
      → t.seg_used ≡ s.seg_used
      → Outside slot (seg ∷ cs)
      → (deref slot t ≡ deref slot s) × Framed slot (deref slot s) cs seg.id s t
  unmoved = go slot
    where
      go :
          (slot : Slot)
          → ((i : ℕ) → has i (seg ∷ cs) ≡ false → t.segs i ≡ s.segs i)
          → t.seg_free ≡ s.seg_free
          → t.seg_used ≡ s.seg_used
          → Outside slot (seg ∷ cs)
          → (deref slot t ≡ deref slot s) × Framed slot (deref slot s) cs seg.id s t
      go free_head same f u out =
          (f, record { others = λ i h k. same i (ground arith); free_head = f; used_head = u })
      go used_head same f u out =
          (u, record { others = λ i h k. same i (ground arith); free_head = f; used_head = u })
      go (np_of j) same f u out = (
        ap (λ (x : Seg). x.np) (same j out),
        record { others = λ i h k. ground (arith, same i); free_head = f; used_head = u },
      )
