-- ===== src/Console.antt =====
-- kernel/tk_printf.cpp: the text screen, numbers as text, and formatted output. The arguments of
-- `tk_printf` are the words on the stack behind `format`; `text` gives the bytes of the string at an
-- address, without the terminator.
pub mod Screen
pub mod Itoa
pub mod Printf
mod Tests
use own_os.Prelude.{
  ℕ, zero, suc, ◌+◌, ◌-◌, ◌*◌, ◌/◌, ◌%◌, Bool, true, false, ◌&&◌, ◌||◌, Option, none, some, List,
  [], ◌∷◌, ltb, leb, ◌==◌, if◌then◌else◌,
}
use own_os.Prelude.Memory.{Mem, write}
use own_os.Prelude.Words.{u8_mod, u32_mod}

abbrev pub columns : ℕ
columns = 80

abbrev pub lines : ℕ
lines = 24

abbrev pub attribute : ℕ
attribute = 7

abbrev pub video : ℕ
video = 0xb8000

-- The static variables, and the memory that holds the screen.
pub record Console : Type 0 where
  pub xpos : ℕ
  pub ypos : ℕ
  pub mem : Mem

-- `n` zero bytes from an address on.
pub clear : (n a : ℕ) → Mem → Mem
clear zero a m = m
clear (suc n) a m = clear n (suc a) (write a 0 m)

pub tk_cls : Mem → Console
unfolding clear
tk_cls m = record { xpos = 0; ypos = 0; mem = clear (columns * lines * 2) video m }

-- The characters of a row from column `i` on, `n` of them; the attributes stay.
pub clear_line : (n i y : ℕ) → Mem → Mem
clear_line zero i y m = m
clear_line (suc n) i y m = clear_line n (suc i) y (write (video + (i + y * columns) * 2) 0 m)

-- From the label `newline` on.
pub newline : Console → Console
newline s =
    let y = s.ypos + 1 in
    record s { xpos = 0; ypos = if leb lines y then 0 else y; mem = clear_line columns 0 y s.mem }

-- The character and its attribute at the cursor, which moves on.
abbrev pub place : ℕ → Console → Console
place c s =
    let a = video + (s.xpos + s.ypos * columns) * 2 in
    record s { xpos = s.xpos + 1; mem = write (a + 1) attribute (write a (c % u8_mod) s.mem) }

pub tk_putchar : ℕ → Console → Console
tk_putchar c s =
    if c == 10 || c == 13
    then newline s
    else (if leb columns (s.xpos + 1) then newline (place c s) else place c s)

-- The byte of a digit.
abbrev pub digit : ℕ → ℕ
digit r = if ltb r 10 then r + 48 else r + 97 - 10

-- The first loop of `tk_itoa`, which ends behind the digits; a word has at most ten.
pub emit : (n divisor ud p : ℕ) → Mem → ℕ × Mem
emit zero divisor ud p m = (p, m)
emit (suc n) divisor ud p m =
    let m' = write p (digit (ud % divisor)) m in
    let rest = emit n divisor (ud / divisor) (suc p) m' in
    if ud / divisor == 0 then (suc p, m') else rest

-- The second loop, which swaps the ends.
pub swap_ends : (n p1 p2 : ℕ) → Mem → Mem
swap_ends zero p1 p2 m = m
swap_ends (suc n) p1 p2 m =
    let rest = swap_ends n (suc p1) (p2 - 1) (write p2 (m p1) (write p1 (m p2) m)) in
    if ltb p1 p2 then rest else m

-- From the first loop on.
pub itoa_digits : (divisor ud buf : ℕ) → Mem → Mem
itoa_digits divisor ud buf m =
    let (p, m') = emit 10 divisor ud buf m in swap_ends 5 buf (p - 1) (write p 0 m')

-- `d` is the pattern of 32 bits of the argument; a pattern from 2 ^ 31 on is negative.
pub tk_itoa : (buf base d : ℕ) → Mem → Mem
unfolding itoa_digits
tk_itoa buf base d m =
    if base == 100 && leb 0x80000000 d
    then itoa_digits 10 (u32_mod - d) (buf + 1) (write buf 45 m)
    else itoa_digits (if base == 120 then 16 else 10) d buf m

-- The bytes in front of the terminator; the buffer has twenty.
pub chars : (n p : ℕ) → Mem → List ℕ
chars zero p m = []
chars (suc n) p m = let rest = m p ∷ chars n (suc p) m in if m p == 0 then [] else rest

pub put_all : List ℕ → Console → Console
unfolding tk_putchar
put_all [] s = s
put_all (c ∷ cs) s = put_all cs (tk_putchar c s)

-- "(null)".
abbrev pub null_text : List ℕ
null_text = 40 ∷ 110 ∷ 117 ∷ 108 ∷ 108 ∷ 41 ∷ []

module _ (buf : ℕ) (text : ℕ → List ℕ) where
  -- The cases for the character `c` behind a per cent sign. The buffer is on the stack, apart from the
  -- screen, so that its bytes can be read before any is put.
  pub conversion : (c arg : ℕ) → Console → Console
  unfolding put_all tk_itoa chars
  conversion c arg s =
      let m = tk_itoa buf c arg s.mem in
      if c == 100 || (c == 117 || c == 120)
      then put_all (chars 20 buf m) (record s { mem = m })
      else (if c == 115
          then put_all (if arg == 0 then null_text else text arg) s
          else tk_putchar arg s)

  -- The format is the bytes in front of the terminator, and `i` the number of the next argument. With a
  -- per cent sign at the end the code reads on behind the terminator, which is `none`.
  pub tk_printf : List ℕ → (args : ℕ → ℕ) → (i : ℕ) → Console → Option Console
  unfolding conversion tk_putchar
  tk_printf [] args i s = some s
  tk_printf (c ∷ []) args i s = if c == 37 then none else some (tk_putchar c s)
  tk_printf (c ∷ d ∷ rest) args i s = elim (c == 37) [
    | true ↦ tk_printf rest args (suc i) (conversion d (args i) s)
    | false ↦ tk_printf (d ∷ rest) args i (tk_putchar c s)
  ]
