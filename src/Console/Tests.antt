-- ===== src/Console/Tests.antt =====
-- Output on a small screen memory.
use own_os.Prelude.{ℕ, ◌≡◌, refl, arith, inl, inr, some, List, [], ◌∷◌, true}
use own_os.Prelude.Memory.{Mem}
use own_os.Console.{Console, tk_putchar, tk_itoa, itoa_digits, emit, swap_ends, tk_printf, newline}
use own_os.Console.Itoa.{Written, tk_itoa-Written}
use own_os.Console.Screen.{IsOnScreen}
use own_os.Console.Printf.{closed, tk_printf-some}

abbrev blank : Mem
blank x = 0

-- The cursor at the end of the last row.
abbrev corner : Console
corner = record { xpos = 79; ypos = 23; mem = blank }

-- The word of -42.
tk_itoa-Written_example : Written 10 100 0xffffffd6 blank (tk_itoa 10 100 0xffffffd6 blank)
tk_itoa-Written_example = tk_itoa-Written 10 100 0xffffffd6 blank (omega arith)

tk_itoa-runs : (m : Mem) → (tk_itoa 10 100 42 m 10 ≡ 52) × (tk_itoa 10 100 42 m 11 ≡ 50)
unfolding tk_itoa itoa_digits emit swap_ends
tk_itoa-runs m = (refl, refl)

putchar-wraps : (tk_putchar 65 corner).xpos ≡ 0
unfolding tk_putchar newline
putchar-wraps = refl

-- "%d" and a line feed.
abbrev number_line : List ℕ
number_line = 37 ∷ 100 ∷ 10 ∷ []

number_line-closed : closed number_line ≡ true
unfolding closed
number_line-closed = refl

tk_printf-some_example :
    (s' : Console) × (tk_printf 0x200000 (λ x. []) number_line (λ j. 42) 0 corner ≡ some s')
    × IsOnScreen s'
    × (s'.mem 0x100000 ≡ 0)
tk_printf-some_example =
    tk_printf-some 0x200000 (λ x. []) number_line (λ j. 42) 0 0x100000 corner number_line-closed
      (λ j. omega arith) (record { column = omega arith; row = omega arith }) (inr (omega arith))
      (inl (omega arith))
