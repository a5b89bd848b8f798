-- ===== src/Descriptor/Tables/Gates.antt =====
-- What the tables hold after their set-up, as the processor reads it.
use own_os.Prelude.{
  ℕ, zero, suc, ◌+◌, ◌*◌, ◌/◌, ◌%◌, ◌<◌, ◌≡◌, ◌∙◌, refl, Bool, true, false, ◌||◌, ◌&&◌, ltb, leb,
  if◌then◌else◌, ◌==◌, arith, Bool-cases, inl, inr, ==_iff, ◌⊎◌,
}
use own_os.Prelude.Words.{u32_mod}
use own_os.Descriptor.{SegDesc, GateDesc, set_segdesc, set_gatedesc}
use own_os.Descriptor.Decode.{base, limit, set_segdesc-decodes}
use own_os.Descriptor.Tables.{
  put_gate, ignore_loop, isr_loop, idt_gates, kc_seg, ar_int, ar_int_p3, gdt_segs, flat,
}

ignore_loop-gate :
    (n p j : ℕ) (t : ℕ → GateDesc)
    → ignore_loop n p t j ≡ (if leb p j && ltb j (p + n) then t 0 else t j)
unfolding ignore_loop
ignore_loop-gate zero p j t = ground arith
ignore_loop-gate (suc n) p j t =
    let r = ignore_loop-gate n (suc p) j (put_gate p (t 0) t) in r ∙ ground arith

isr_loop-gate :
    (n i j : ℕ) (isr : ℕ → ℕ) (t : ℕ → GateDesc)
    → isr_loop n i isr t j
      ≡ (if leb i j && ltb j (i + n) then set_gatedesc (isr j) kc_seg ar_int else t j)
unfolding isr_loop
isr_loop-gate zero i j isr t = ground arith
isr_loop-gate (suc n) i j isr t =
    isr_loop-gate n (suc i) j isr (put_gate i (set_gatedesc (isr i) kc_seg ar_int) t) ∙ ground arith

-- The gate of a vector after `initIDT`: `isr`'s handlers for the vectors below 16 and for 0x20 and 0x21, the
-- system call at 0x30 and 0x80, open to user programs, and `invalid` for all others but the last.
abbrev pub gate_of : (invalid : ℕ) → (isr : ℕ → ℕ) → GateDesc → (vector : ℕ) → GateDesc
gate_of invalid isr old vector =
    if ltb vector 0x10 || vector == 0x20 || vector == 0x21
    then set_gatedesc (isr vector) kc_seg ar_int
    else (if vector == 0x30 || vector == 0x80
        then set_gatedesc (isr 0x30) kc_seg ar_int_p3
        else (if vector == 0xff then old else set_gatedesc invalid kc_seg ar_int))

-- The tests of `initIDT` in their order, for any gates.
vectors :
    (f : ℕ → GateDesc) (s p o : GateDesc) (v : ℕ)
    → v < 0x100
    → (if v == 0x80
        then s
        else (if v == 0x30
            then s
            else (if v == 0x21
                then f 0x21
                else (if v == 0x20
                    then f 0x20
                    else (if leb 0 v && ltb v 0x10
                        then f v
                        else (if leb 0 v && ltb v 0xff then p else (if v == 0 then p else o)))))))
      ≡ (if ltb v 0x10 || v == 0x20 || v == 0x21
          then f v
          else (if v == 0x30 || v == 0x80 then s else (if v == 0xff then o else p)))
vectors f s p o v l = elim (Bool-cases (v == 0x21)) [
  | inl e ↦ let k : v ≡ 0x21 = (==_iff v 0x21).0 e in rw k refl
  | inr e ↦ elim (Bool-cases (v == 0x20)) [
    | inl g ↦ let k : v ≡ 0x20 = (==_iff v 0x20).0 g in rw k refl
    | inr g ↦ elim (Bool-cases (ltb v 0x10)) [
      | inl h ↦
          let x : (v == 0x80) ≡ false = ground arith in
          let y : (v == 0x30) ≡ false = ground arith in
          let z : leb 0 v ≡ true = ground arith in rw (x, y, e, g, z, h) refl
      | inr h ↦
          let z : leb 0 v ≡ true = ground arith in rw (e, g, z, h) (others (Bool-cases (v == 0xff)))
    ]
  ]
]
  where
    others :
        ((v == 0xff) ≡ true) ⊎ ((v == 0xff) ≡ false)
        → (if v == 0x80
            then s
            else (if v == 0x30 then s else (if ltb v 0xff then p else (if v == 0 then p else o))))
          ≡ (if v == 0x30 || v == 0x80 then s else (if v == 0xff then o else p))
    others (inl w) = let k : v ≡ 0xff = (==_iff v 0xff).0 w in rw k refl
    others (inr w) = let k : ltb v 0xff ≡ true = ground arith in rw (w, k) (ground arith)

-- After `initIDT` the vectors below 0x10 and 0x20 and 0x21 have the gates of their own handlers, 0x30 and 0x80
-- that of the system call, which user programs may use, 0xff what stood in its memory before, and every
-- other vector below 0x100 the gate of the invalid ones.
pub idt_gates-gate_of :
    (invalid : ℕ) (isr : ℕ → ℕ) (old : ℕ → GateDesc) (vector : ℕ)
    → vector < 0x100
    → idt_gates invalid isr old vector ≡ gate_of invalid isr (old vector) vector
unfolding idt_gates
idt_gates-gate_of invalid isr old vector l =
    let t = put_gate 0 (set_gatedesc invalid kc_seg ar_int) old in
    let g = ignore_loop-gate 0xff 0 vector t in
    let h = isr_loop-gate 0x10 0 vector isr (ignore_loop 0xff 0 t) in
    rw (h, g)
      (vectors (λ v. set_gatedesc (isr v) kc_seg ar_int) (set_gatedesc (isr 0x30) kc_seg ar_int_p3)
        (set_gatedesc invalid kc_seg ar_int) (old vector) vector l)

-- The segments that the processor can be given: `KCSeg` and its fellows.
abbrev pub is_flat : (index : ℕ) → Bool
is_flat i = i == 1 || i == 2 || i == 5 || i == 6 || i == 8 || i == 9

-- The bits of rights that name the privilege, for the six segments: 0 for the kernel, 1 for the tasks of
-- the system, 3 for user programs.
abbrev pub privilege : SegDesc → ℕ
privilege d = d.access_right / 0x20 % 4

abbrev pub level_of : (index : ℕ) → ℕ
level_of i = if ltb i 3 then 0 else (if ltb i 7 then 3 else 1)

segs_at :
    (tssaddr : ℕ) (old : ℕ → SegDesc)
    → let t = gdt_segs tssaddr old in
      (t 1 ≡ flat 0x409a)
      × (t 2 ≡ flat 0x4092)
      × (t 4 ≡ set_segdesc tssaddr 104 0x89)
      × (t 5 ≡ flat 0x40fa)
      × (t 6 ≡ flat 0x40f2)
      × (t 8 ≡ flat 0x40ba)
      × (t 9 ≡ flat 0x40b2)
unfolding gdt_segs
segs_at tssaddr old = (refl, refl, refl, refl, refl, refl, refl)

-- A descriptor of the whole of memory at a privilege.
abbrev pub IsFlat : (level : ℕ) → SegDesc → Type 0
IsFlat level d = (base d ≡ 0) × (limit d ≡ 0xffffffff) × (d.access_right / 0x20 % 4 ≡ level)

-- A table in which the segments of the kernel, of user programs and of the system's tasks each reach the
-- whole of memory, at the privileges 0, 3 and 1, and in which the task state segment, of 104 bytes, is at
-- its address.
abbrev pub IsTable : (tssaddr : ℕ) → (ℕ → SegDesc) → Type 0
IsTable tssaddr t =
    (IsFlat 0 (t 1)
      × IsFlat 0 (t 2)
      × IsFlat 3 (t 5)
      × IsFlat 3 (t 6)
      × IsFlat 1 (t 8)
      × IsFlat 1 (t 9))
    × ((base (t 4) ≡ tssaddr) × (limit (t 4) ≡ 104))

flat-IsFlat :
    (level type : ℕ) → level < 4 → type < 16 → IsFlat level (flat (0x4090 + level * 0x20 + type))
flat-IsFlat level type l t =
    let (b, m, r) =
      set_segdesc-decodes 0 0xffffffff (0x4090 + level * 0x20 + type) (omega arith) (omega arith)
        (omega arith) in
    (b, m, omega arith)

-- Whatever stood in its memory, `initGDT` makes a table in which the segments of the kernel, of user programs and
-- of the system's tasks each reach the whole of memory, at the privileges 0, 3 and 1, and in which the task state
-- segment is at its address, where that is one of 32 bits.
pub gdt_segs-IsTable :
    (tssaddr : ℕ) (old : ℕ → SegDesc) → tssaddr < u32_mod → IsTable tssaddr (gdt_segs tssaddr old)
gdt_segs-IsTable tssaddr old l =
    let (s1, s2, s4, s5, s6, s8, s9) = segs_at tssaddr old in
    let (b, m, _) = set_segdesc-decodes tssaddr 104 0x89 l (omega arith) (omega arith) in
    rw (s1, s2, s4, s5, s6, s8, s9)
      (
        (
          flat-IsFlat 0 10 (omega arith) (omega arith),
          flat-IsFlat 0 2 (omega arith) (omega arith),
          flat-IsFlat 3 10 (omega arith) (omega arith),
          flat-IsFlat 3 2 (omega arith) (omega arith),
          flat-IsFlat 1 10 (omega arith) (omega arith),
          flat-IsFlat 1 2 (omega arith) (omega arith),
        ),
        (b, m),
      )
