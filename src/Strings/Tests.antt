-- ===== src/Strings/Tests.antt =====
-- The routines on bytes at small memories.
use own_os.Prelude.{ℕ, ◌+◌, ◌-◌, ◌≡◌, refl, arith, ltb, leb, if◌then◌else◌, inr}
use own_os.Prelude.Memory.{Mem}
use own_os.Prelude.Int.{negsuc}
use own_os.Strings.{
  memmove, strlen, strlen_loop, strcpy, strcmp, num2str, num2str_pos, num2str_hex, put_loop,
  fig_loop,
}
use own_os.Strings.Copy.{copied, memmove-copied}
use own_os.Strings.Compare.{strcmp-strcpy}
use own_os.Strings.Number.{num2str_pos_cut}
use own_os.Strings.Digits.{IsDecimal, num2str_pos-IsDecimal}
use own_os.Strings.Hex.{read_hex, num2str_hex-read_hex}

-- The string "abc" at 100, and zeros.
abbrev abc : Mem
abc x = if leb 100 x then (if ltb x 103 then x - 3 else 0) else 0

-- The spans at 100 and 101 overlap.
memmove-copied_example : memmove 101 100 3 abc 103 ≡ copied 3 101 100 abc 103
memmove-copied_example = memmove-copied 101 100 3 abc 103

memmove-runs : memmove 101 100 3 abc 102 ≡ 98
unfolding memmove
memmove-runs = refl

strlen-runs : strlen 100 abc ≡ 3
unfolding strlen strlen_loop
strlen-runs = refl

strcpy_compares :
    (strlen 200 (strcpy 200 100 abc) ≡ strlen 100 abc) × (strcmp 200 100 8 (strcpy 200 100 abc) ≡ 0)
strcpy_compares = strcmp-strcpy 200 100 8 abc (inr (omega (arith, strlen-runs)))

num2str_pos-IsDecimal_example : (n : ℕ) × IsDecimal n 2012 40 (num2str_pos 2012 40 abc)
num2str_pos-IsDecimal_example = num2str_pos-IsDecimal 2012 40 abc (omega arith)

-- The second byte of "-12".
num2str-runs : num2str (negsuc 11) 40 abc 41 ≡ 49
unfolding num2str fig_loop put_loop
num2str-runs = refl

ten_digits_cut : num2str_pos 2000000000 40 abc (40 + 9) ≡ 0
ten_digits_cut = num2str_pos_cut 2000000000 40 abc (omega arith) (omega arith)

hex_reads : read_hex 8 0 (40 + 2) (num2str_hex 0xbeef01 40 abc) ≡ 0xbeef01
hex_reads = num2str_hex-read_hex 0xbeef01 40 abc (omega arith)
