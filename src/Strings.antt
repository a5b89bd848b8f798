-- ===== src/Strings.antt =====
-- kernel/string.cpp: the routines on bytes of memory. A `char` is a number below 256, and the loops
-- read and write the memory one byte after the other, so that spans may overlap. Addresses do not
-- wrap around.
pub mod Copy
pub mod Compare
pub mod Number
pub mod Digits
pub mod Hex
mod Tests
use own_os.Prelude.{
  ℕ, zero, suc, ◌+◌, ◌-◌, ◌*◌, ◌/◌, ◌%◌, Bool, true, false, ◌||◌, ltb, leb, ◌==◌, if◌then◌else◌,
}
use own_os.Prelude.Int.{ℤ, pos, negsuc}
use own_os.Prelude.Memory.{Mem, write}
use own_os.Prelude.Words.{u8_mod, u32_mod}

abbrev pub strlen_max : ℕ
strlen_max = 0x400

-- The loop of `memset` over `size` bytes.
pub memset : (buf value size : ℕ) → Mem → Mem
memset buf value zero m = m
memset buf value (suc size) m = memset (suc buf) value size (write buf (value % u8_mod) m)

-- The loop of `strlen` from index `i` on, with `n` rounds left.
pub strlen_loop : (n i str : ℕ) → Mem → ℕ
strlen_loop zero i str m = i
strlen_loop (suc n) i str m =
    let rest = strlen_loop n (suc i) str m in if m (str + i) == 0 then i else rest

pub strlen : ℕ → Mem → ℕ
strlen = strlen_loop strlen_max 0

-- `d[i] = s[i]` for the next `n` indices, in ascending order.
pub copy_up : (n d s : ℕ) → Mem → Mem
copy_up zero d s m = m
copy_up (suc n) d s m = copy_up n (suc d) (suc s) (write d (m s) m)

-- `*--out = *--in`, `n` times.
pub copy_down : (n out in_ : ℕ) → Mem → Mem
copy_down zero out in_ m = m
copy_down (suc n) out in_ m = copy_down n (out - 1) (in_ - 1) (write (out - 1) (m (in_ - 1)) m)

pub strcat : (dest str1 str2 : ℕ) → Mem → Mem
unfolding copy_up
strcat dest str1 str2 m =
    let len1 = strlen str1 m in
    let len2 = strlen str2 m in copy_up len2 (dest + len1) str2 (copy_up len1 dest str1 m)

pub bzero : (s n : ℕ) → Mem → Mem
bzero s zero m = m
bzero s (suc n) m = bzero (suc s) n (write s 0 m)

pub strcpy : (d s : ℕ) → Mem → Mem
unfolding copy_up
strcpy d s m = copy_up (suc (strlen s m)) d s m

abbrev pub minimum : ℕ → ℕ → ℕ
minimum x y = if ltb x y then x else y

pub strncpy : (d s len : ℕ) → Mem → Mem
unfolding copy_up
strncpy d s len m = copy_up (suc (minimum (strlen s m) len)) d s m

-- The loop that `strcmp` and `strncmp` share, from index `i` on: 1 at the first difference in `n` bytes.
pub differ : (n i s1 s2 : ℕ) → Mem → ℕ
differ zero i s1 s2 m = 0
differ (suc n) i s1 s2 m =
    let rest = differ n (suc i) s1 s2 m in if m (s1 + i) == m (s2 + i) then rest else 1

pub strcmp : (s1 s2 num : ℕ) → Mem → ℕ
unfolding differ
strcmp s1 s2 num m =
    if strlen s1 m == strlen s2 m then differ (minimum num (strlen s1 m)) 0 s1 s2 m else 1

pub strncmp : (s1 s2 num : ℕ) → Mem → ℕ
unfolding differ
strncmp s1 s2 num m = differ num 0 s1 s2 m

pub memcpy : (s1 s2 n : ℕ) → Mem → Mem
unfolding copy_up
memcpy s1 s2 n m = copy_up n s1 s2 m

pub memmove : (to from n : ℕ) → Mem → Mem
unfolding memcpy copy_up copy_down
memmove to from n m =
    if n == 0
    then m
    else (if leb (from + n) to || leb (to + n) from
        then memcpy to from n m
        else (if ltb to from then copy_up n to from m else copy_down n (to + n) (from + n) m))

-- What `memmove` returns: where the spans do not overlap it is the answer of `memcpy`, which is NULL.
abbrev memmove_value : (to from n : ℕ) → ℕ
memmove_value to from n =
    if n == 0 then to else (if leb (from + n) to || leb (to + n) from then 0 else to)

-- The byte of a hexadecimal digit.
abbrev pub hex_digit : ℕ → ℕ
hex_digit n = if ltb n 10 then 48 + n else 87 + n

-- The zeros behind "0x", `n` of them.
pub zeros : (n at_ : ℕ) → Mem → Mem
zeros zero at_ m = m
zeros (suc n) at_ m = zeros n (suc at_) (write at_ 48 m)

-- The digits from the last one on; a word of 32 bits has at most eight.
pub hex_loop : (n i num str : ℕ) → Mem → Mem
hex_loop zero i num str m = m
hex_loop (suc n) i num str m =
    let rest = hex_loop n (suc i) (num / 16) str (write (str + 9 - i) (hex_digit (num % 16)) m) in
    if num == 0 then m else rest

pub num2str_hex : (num str : ℕ) → Mem → Mem
num2str_hex num str m =
    hex_loop 8 0 num str (zeros 8 (str + 2) (write (str + 1) 120 (write str 48 m)))

-- The first loop of `num2str`; an `int` has at most ten digits.
pub fig_loop : (n tmp fig : ℕ) → ℕ
fig_loop zero tmp fig = fig
fig_loop (suc n) tmp fig =
    let rest = fig_loop n (tmp / 10) (fig * 10 % u32_mod) in if tmp == 0 then fig else rest

-- The second loop, and the terminator behind it.
pub put_loop : (n fig num i str : ℕ) → Mem → Mem
put_loop zero fig num i str m = write (str + i) 0 m
put_loop (suc n) fig num i str m =
    let rest =
      put_loop n (fig / 10) (num % fig) (suc i) str
        (write (str + i) ((48 + num / fig) % u8_mod) m) in
    if fig == 0 then write (str + i) 0 m else rest

-- `num2str` of a number that is not negative.
pub num2str_pos : (num str : ℕ) → Mem → Mem
num2str_pos num str m =
    if num == 0
    then write (suc str) 0 (write str 48 m)
    else put_loop 10 (fig_loop 10 num 1 / 10) num 0 str m

-- The least `int`, whose opposite is itself, calls without end, and is left out.
pub num2str : (num : ℤ) → (str : ℕ) → Mem → Mem
unfolding num2str_pos
num2str (pos n) str m = num2str_pos n str m
num2str (negsuc n) str m = num2str_pos (suc n) (suc str) (write str 45 m)
