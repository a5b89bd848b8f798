-- ===== src/Strings/Copy.antt =====
-- What the copying routines leave in memory, for spans that overlap too.
use own_os.Prelude.{
  ℕ, zero, suc, ◌+◌, ◌-◌, ◌%◌, ◌≤◌, ◌≡◌, ◌⊎◌, refl, ◌∙◌, ◌&&◌, ◌||◌, ltb, leb, ◌==◌, if◌then◌else◌,
  arith, Bool-cases, inl, inr,
}
use own_os.Prelude.Memory.{Mem, write}
use own_os.Prelude.Words.{u8_mod}
use own_os.Strings.{memset, bzero, copy_up, copy_down, memcpy, memmove}

-- The memory with `n` bytes from `s` at `d`, all read before any is written.
abbrev pub copied : (n d s : ℕ) → Mem → Mem
copied n d s m x = if leb d x && ltb x (d + n) then m (s + (x - d)) else m x

-- Ascending, the source must not lie below the destination in reach of what is written.
pub copy_up_lem :
    (n d s : ℕ) (m : Mem) → (d ≤ s) ⊎ (s + n ≤ d) → (x : ℕ) → copy_up n d s m x ≡ copied n d s m x
unfolding copy_up
copy_up_lem zero d s m o x = ground arith
copy_up_lem (suc n) d s m o x =
    copy_up_lem n (suc d) (suc s) (write d (m s) m) (ground arith) x ∙ ground arith

-- Descending, it must not lie above.
copy_down_lem :
    (n d s : ℕ) (m : Mem) → s ≤ d → (x : ℕ) → copy_down n (d + n) (s + n) m x ≡ copied n d s m x
unfolding copy_down
copy_down_lem zero d s m o x = ground arith
copy_down_lem (suc n) d s m o x =
    let e : d + suc n - 1 ≡ d + n = omega arith in
    let f : s + suc n - 1 ≡ s + n = omega arith in
    rw (e, f) (copy_down_lem n d s (write (d + n) (m (s + n)) m) o x ∙ ground arith)

-- `memmove` leaves the bytes of the source at the destination and no others changed, however the two
-- overlap.
pub memmove-copied :
    (to from n : ℕ) (m : Mem) (x : ℕ) → memmove to from n m x ≡ copied n to from m x
unfolding memmove memcpy
memmove-copied to from n m x = elim (Bool-cases (n == 0)) [
  | inl z ↦ rw z (ground arith)
  | inr nz ↦ rw nz (elim (Bool-cases (leb (from + n) to || leb (to + n) from)) [
    | inl apart ↦ rw apart (copy_up_lem n to from m (ground arith) x)
    | inr over ↦ rw over (elim (Bool-cases (ltb to from)) [
      | inl below ↦ rw below (copy_up_lem n to from m (ground arith) x)
      | inr above ↦ rw above (copy_down_lem n to from m (ground arith) x)
    ])
  ])
]

memset_lem :
    (buf value n : ℕ) (m : Mem) (x : ℕ)
    → memset buf value n m x ≡ (if leb buf x && ltb x (buf + n) then value % u8_mod else m x)
unfolding memset
memset_lem buf value zero m x = ground arith
memset_lem buf value (suc n) m x =
    memset_lem (suc buf) value n (write buf (value % u8_mod) m) x ∙ ground arith

bzero-memset : (s n : ℕ) (m : Mem) (x : ℕ) → bzero s n m x ≡ memset s 0 n m x
unfolding bzero memset
bzero-memset s zero m x = refl
bzero-memset s (suc n) m x = bzero-memset (suc s) n (write s 0 m) x
