-- ===== src/Descriptor/Decode.antt =====
-- What the processor reads from the descriptors that `set_segdesc` and `set_gatedesc` write.
use own_os.Prelude.{
  ℕ, ◌+◌, ◌*◌, ◌/◌, ◌%◌, ◌<◌, ◌≤◌, ◌≡◌, ◌∙◌, refl, Bool, true, false, ltb, leb, if◌then◌else◌,
  arith, Bool-cases, inl, inr,
}
use own_os.Prelude.Words.{u16_mod, u32_mod}
use own_os.Descriptor.{SegDesc, GateDesc, seg_fields, set_segdesc, set_gatedesc, with_granularity}

-- The fields put together as the processor does.
abbrev pub base : SegDesc → ℕ
base d = d.base_low + d.base_mid * 0x10000 + d.base_high * 0x1000000

abbrev pub raw_limit : SegDesc → ℕ
raw_limit d = d.limit_low + (d.limit_high % 0x10) * 0x10000

-- The granularity bit is the top bit of the byte of the high limit.
abbrev pub granular : SegDesc → Bool
granular d = leb 0x80 d.limit_high

-- With the granularity bit the limit counts pages, and the low twelve bits are ones.
abbrev pub limit : SegDesc → ℕ
limit d = if granular d then raw_limit d * 0x1000 + 0xfff else raw_limit d

-- The type and privilege bits, and the two flags below the granularity bit.
abbrev pub rights : SegDesc → ℕ
rights d = d.access_right + (d.limit_high / 0x10 % 8) * 0x1000

abbrev pub offset : GateDesc → ℕ
offset g = g.offset_low + g.offset_high * 0x10000

-- The limit that the processor can be given: itself below a megabyte, else filled up to the last
-- byte of its page.
abbrev pub rounded : ℕ → ℕ
rounded l = if ltb 0xfffff l then l / 0x1000 * 0x1000 + 0xfff else l

seg_fields_lem :
    (addr l ar : ℕ)
    → addr < u32_mod
    → l ≤ 0xfffff
    → ar < u16_mod
    → let d = seg_fields addr l ar in
      ((base d ≡ addr)
        × (raw_limit d ≡ l)
        × (granular d ≡ leb 0x8000 ar)
        × (rights d ≡ ar % 0x100 + (ar / 0x1000 % 8) * 0x1000))
unfolding seg_fields
seg_fields_lem addr l ar ha hl hr = (omega arith, omega arith, ground arith, omega arith)

-- For 32-bit addresses and limits, and rights below the granularity bit, the processor reads back
-- the address, the rights (without the four bits that hold the high limit) and the limit, filled up
-- to the end of its page from a megabyte on.
pub set_segdesc-decodes :
    (addr l ar : ℕ)
    → addr < u32_mod
    → l < u32_mod
    → ar < 0x8000
    → let d = set_segdesc addr l ar in
      ((base d ≡ addr)
        × (limit d ≡ rounded l)
        × (rights d ≡ ar % 0x100 + (ar / 0x1000 % 8) * 0x1000))
unfolding set_segdesc
set_segdesc-decodes addr l ar ha hl hr = elim (Bool-cases (ltb 0xfffff l)) [
  | inl e ↦
      let (b, r, g, a) =
        seg_fields_lem addr (l / 0x1000) (with_granularity ar) ha (omega arith) (omega arith) in
      let t : granular (seg_fields addr (l / 0x1000) (with_granularity ar)) ≡ true =
        g ∙ ground arith in
      rw e (b, rw (t, r) refl, a ∙ omega arith)
  | inr e ↦
      let (b, r, g, a) = seg_fields_lem addr l ar ha (ground arith) (omega arith) in
      let t : granular (seg_fields addr l ar) ≡ false = g ∙ ground arith in
      rw e (b, rw (t, r) refl, a)
]

-- A gate for a 32-bit handler and a 16-bit selector is read back whole.
pub set_gatedesc-decodes :
    (addr sel ar : ℕ)
    → addr < u32_mod
    → sel < u16_mod
    → ar < u16_mod
    → let g = set_gatedesc addr sel ar in
      ((offset g ≡ addr) × (g.selector ≡ sel) × (g.access_right + g.count * 0x100 ≡ ar))
unfolding set_gatedesc
set_gatedesc-decodes addr sel ar ha hs hr = (omega arith, omega arith, omega arith)
