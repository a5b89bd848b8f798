-- ===== src/Descriptor.antt =====
-- kernel/Descriptor.cpp, include/os/Descriptor.h and the descriptors of include/os/KType.hpp: the
-- fields of segment and gate descriptors as the processor reads them. A mask of low bits is a
-- remainder, a shift to the right a quotient; a disjunction of masks is a sum where the masks have
-- no bit in common.
pub mod Decode
pub mod Tables
mod Tests
use own_os.Prelude.{
  ℕ, ◌+◌, ◌*◌, ◌/◌, ◌%◌, Bool, true, false, List, [], ◌∷◌, ltb, if◌then◌else◌, ◌==◌,
}
use own_os.Prelude.Words.{u8_mod, u16_mod, u32_mod}

pub record SegDesc : Type 0 where
  pub limit_low : ℕ
  pub base_low : ℕ
  pub base_mid : ℕ
  pub access_right : ℕ
  pub limit_high : ℕ
  pub base_high : ℕ

pub record GateDesc : Type 0 where
  pub offset_low : ℕ
  pub selector : ℕ
  pub count : ℕ
  pub access_right : ℕ
  pub offset_high : ℕ

-- The granularity bit, set by `ar |= 0x8000`.
abbrev pub with_granularity : ℕ → ℕ
with_granularity ar = ar % 0x8000 + 0x8000

-- The descriptor of a limit and rights as `set_segdesc` stores them.
pub seg_fields : ℕ → ℕ → ℕ → SegDesc
seg_fields addr limit ar = record {
  limit_low = limit % 0x10000;
  limit_high = (limit / 0x10000) % 0x10 + ((ar / 0x100) % 0x100) / 0x10 * 0x10;
  access_right = ar % 0x100;
  base_low = addr % 0x10000;
  base_mid = (addr / 0x10000) % 0x100;
  base_high = (addr / 0x1000000) % 0x100;
}

pub set_segdesc : ℕ → ℕ → ℕ → SegDesc
unfolding seg_fields
set_segdesc addr limit ar =
    if ltb 0xfffff limit
    then seg_fields addr (limit / 0x1000) (with_granularity ar)
    else seg_fields addr limit ar

-- The selector is stored in 16 bits.
pub set_gatedesc : ℕ → ℕ → ℕ → GateDesc
set_gatedesc offset selector ar = record {
  offset_low = offset % 0x10000;
  selector = selector % u16_mod;
  count = (ar / 0x100) % 0x100;
  access_right = ar % 0x100;
  offset_high = (offset / 0x10000) % 0x10000;
}
