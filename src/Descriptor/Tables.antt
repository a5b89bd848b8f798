-- ===== src/Descriptor/Tables.antt =====
-- kernel/Descriptor.cpp: the tables that `initIDT` and `initGDT` fill, and the registers that `lidt` and
-- `lgdt` load. A table is its descriptors at their indices, and what stands in its memory before is a
-- parameter. The addresses of the handlers are parameters: the linker gives them, and `isr` is the table
-- of kernel/isr.nas. The allocator gives the chunks for a table or panics.
pub mod Gates
use own_os.Prelude.{ℕ, zero, suc, ◌+◌, ◌*◌, ◌-◌, ◌/◌, Option, none, some, ltb, if◌then◌else◌, ◌==◌}
use own_os.Descriptor.{SegDesc, GateDesc, set_segdesc, set_gatedesc}

abbrev pub kc_seg : ℕ
kc_seg = 0x08

abbrev pub kd_seg : ℕ
kd_seg = 0x10

abbrev pub tss_desc : ℕ
tss_desc = 0x20

abbrev pub uc_seg : ℕ
uc_seg = 0x28

abbrev pub ud_seg : ℕ
ud_seg = 0x30

abbrev pub tc_seg : ℕ
tc_seg = 0x40

abbrev pub td_seg : ℕ
td_seg = 0x48

abbrev pub ar_int : ℕ
ar_int = 0x008e

abbrev pub ar_int_p3 : ℕ
ar_int_p3 = 0x00ee

abbrev pub type_tss : ℕ
type_tss = 0x89

-- 26 words.
abbrev pub sizeof_tss : ℕ
sizeof_tss = 104

abbrev pub put_gate : ℕ → GateDesc → (ℕ → GateDesc) → ℕ → GateDesc
put_gate i g t j = if j == i then g else t j

abbrev pub put_seg : ℕ → SegDesc → (ℕ → SegDesc) → ℕ → SegDesc
put_seg i d t j = if j == i then d else t j

-- The loop that copies the first gate, `n` times from the place `p` on.
pub ignore_loop : (n p : ℕ) → (ℕ → GateDesc) → ℕ → GateDesc
ignore_loop zero p t = t
ignore_loop (suc n) p t = ignore_loop n (suc p) (put_gate p (t 0) t)

-- The loop over the first handlers of `isr`.
pub isr_loop : (n i : ℕ) → (isr : ℕ → ℕ) → (ℕ → GateDesc) → ℕ → GateDesc
isr_loop zero i isr t = t
isr_loop (suc n) i isr t =
    isr_loop n (suc i) isr (put_gate i (set_gatedesc (isr i) kc_seg ar_int) t)

-- The gates after `initIDT`.
pub idt_gates : (invalid : ℕ) → (isr : ℕ → ℕ) → (ℕ → GateDesc) → ℕ → GateDesc
unfolding ignore_loop isr_loop
idt_gates invalid isr old = put_gate 0x80 (set_gatedesc (isr 0x30) kc_seg ar_int_p3) (
    put_gate 0x30 (set_gatedesc (isr 0x30) kc_seg ar_int_p3) (
      put_gate 0x21 (set_gatedesc (isr 0x21) kc_seg ar_int) (
        put_gate 0x20 (set_gatedesc (isr 0x20) kc_seg ar_int) (
          isr_loop 0x10 0 isr
            (ignore_loop 0xff 0 (put_gate 0 (set_gatedesc invalid kc_seg ar_int) old))))))

abbrev pub null_seg : SegDesc
null_seg = record {
  limit_low = 0;
  base_low = 0;
  base_mid = 0;
  access_right = 0;
  limit_high = 0;
  base_high = 0;
}

-- A loop over 0x1000 words, two to a descriptor.
abbrev pub zeroed : (ℕ → SegDesc) → ℕ → SegDesc
zeroed old i = if ltb i 0x800 then null_seg else old i

-- A segment of the whole of memory.
abbrev pub flat : (ar : ℕ) → SegDesc
flat ar = set_segdesc 0 0xffffffff ar

-- The descriptors after `initGDT`.
pub gdt_segs : (tssaddr : ℕ) → (ℕ → SegDesc) → ℕ → SegDesc
gdt_segs tssaddr old = put_seg (tss_desc / 8) (set_segdesc tssaddr sizeof_tss type_tss) (
    put_seg (td_seg / 8) (flat 0x40b2) (
      put_seg (tc_seg / 8) (flat 0x40ba) (
        put_seg (ud_seg / 8) (flat 0x40f2) (
          put_seg (uc_seg / 8) (flat 0x40fa) (
            put_seg (kd_seg / 8) (flat 0x4092)
              (put_seg (kc_seg / 8) (flat 0x409a) (zeroed old)))))))

-- The register of a table.
pub record Dtr : Type 0 where
  pub limit : ℕ
  pub address : ℕ

pub lidt : (idtaddr : ℕ) → Dtr
lidt idtaddr = record { limit = 0x100 * 8 - 1; address = idtaddr }

pub lgdt : (gdtaddr : ℕ) → Dtr
lgdt gdtaddr = record { limit = td_seg + 8; address = gdtaddr }

module _ {F : Type 0} (alloc_chunk : ℕ → F → Option (ℕ × F)) where
  -- The address of the table, its gates, and what the allocator is left with.
  pub init_idt :
      (invalid : ℕ) → (isr : ℕ → ℕ) → (ℕ → GateDesc) → F → Option (ℕ × (ℕ → GateDesc) × F)
  unfolding idt_gates
  init_idt invalid isr old f = elim (alloc_chunk 10 f) [
    | none ↦ none
    | some (idtaddr, f) ↦ some (idtaddr, idt_gates invalid isr old, f)
  ]

  pub init_gdt : (tssaddr : ℕ) → (ℕ → SegDesc) → F → Option (ℕ × (ℕ → SegDesc) × F)
  unfolding gdt_segs
  init_gdt tssaddr old f = elim (alloc_chunk 10 f) [
    | none ↦ none
    | some (gdtaddr, f) ↦ some (gdtaddr, gdt_segs tssaddr old, f)
  ]
