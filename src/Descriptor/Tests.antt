-- ===== src/Descriptor/Tests.antt =====
-- The theorems on descriptors at the descriptors of the kernel.
use own_os.Prelude.{ℕ, ◌+◌, ◌*◌, ◌/◌, ◌%◌, ◌≡◌, arith}
use own_os.Descriptor.{GateDesc, set_segdesc, set_gatedesc}
use own_os.Descriptor.Tables.{idt_gates, gdt_segs}
use own_os.Descriptor.Tables.Gates.{gate_of, IsTable, idt_gates-gate_of, gdt_segs-IsTable}
use own_os.Descriptor.Decode.{
  base, limit, rights, offset, rounded, set_segdesc-decodes, set_gatedesc-decodes,
}

-- The kernel's code segment.
abbrev ar_code32 : ℕ
ar_code32 = 0x409a

set_segdesc-decodes_example :
    let d = set_segdesc 0 0xffffffff ar_code32 in
    ((base d ≡ 0)
      × (limit d ≡ rounded 0xffffffff)
      × (rights d ≡ ar_code32 % 0x100 + (ar_code32 / 0x1000 % 8) * 0x1000))
set_segdesc-decodes_example =
    set_segdesc-decodes 0 0xffffffff ar_code32 (omega arith) (omega arith) (omega arith)

-- The gate of the timer's interrupt.
set_gatedesc-decodes_run :
    let g = set_gatedesc 0x123456 8 0x8e in
    ((offset g ≡ 0x123456) × (g.selector ≡ 8) × (g.access_right + g.count * 0x100 ≡ 0x8e))
set_gatedesc-decodes_run =
    set_gatedesc-decodes 0x123456 8 0x8e (omega arith) (omega arith) (omega arith)

-- The handler of vector i stands at 0x100000 + 16 * i, and that of invalid vectors at 0x200000.
abbrev isr : ℕ → ℕ
isr i = 0x100000 + 16 * i

abbrev old_gates : ℕ → GateDesc
old_gates i = set_gatedesc 0 0 0

idt_gates-gate_of_example :
    idt_gates 0x200000 isr old_gates 0xff ≡ gate_of 0x200000 isr (old_gates 0xff) 0xff
idt_gates-gate_of_example = idt_gates-gate_of 0x200000 isr old_gates 0xff (omega arith)

gdt_segs-IsTable_example : IsTable 0x9000 (gdt_segs 0x9000 (λ i. set_segdesc 0 0 0))
gdt_segs-IsTable_example = gdt_segs-IsTable 0x9000 (λ i. set_segdesc 0 0 0) (omega arith)
