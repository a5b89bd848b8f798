-- ===== src/Console/Printf.antt =====
-- Formatted output ends for every format that has no per cent sign at its end, stays on the screen,
-- and changes no memory but the screen and the buffer for numbers.
use own_os.Prelude.{
  ℕ, suc, ◌+◌, ◌<◌, ◌≤◌, ◌≡◌, ◌⊎◌, ◌∙◌, refl, Bool, true, false, ◌||◌, not, some, List, [], ◌∷◌,
  ◌==◌, if◌then◌else◌, arith, Bool-cases, inl, inr,
}
use own_os.Prelude.Words.{u32_mod}
use own_os.Console.{Console, tk_putchar, tk_itoa, chars, null_text, conversion, tk_printf}
use own_os.Console.Screen.{Outside, IsOnScreen, tk_putchar-screen, put_all-screen}
use own_os.Console.Itoa.{tk_itoa-outside}

-- Every per cent sign is followed by the character of its conversion.
unfoldable pub closed : List ℕ → Bool
closed [] = true
closed (c ∷ []) = not (c == 37)
closed (c ∷ d ∷ rest) = elim (c == 37) [ true ↦ closed rest | false ↦ closed (d ∷ rest) ]

module _ (buf : ℕ) (text : ℕ → List ℕ) where
  -- A state that output leads to from another one, as seen at an address.
  record Put (a : ℕ) (s s' : Console) : Type 0 where
    pub screen : IsOnScreen s'
    pub kept : s'.mem a ≡ s.mem a

  conversion-Put :
      (c arg a : ℕ) (s : Console)
      → arg < u32_mod
      → IsOnScreen s
      → Outside a
      → (a < buf) ⊎ (buf + 12 ≤ a)
      → Put a s (conversion buf text c arg s)
  unfolding conversion
  conversion-Put c arg a s l v o p = elim (Bool-cases (c == 100 || (c == 117 || c == 120))) [
    | inl e ↦
        let m = tk_itoa buf c arg s.mem in
        let (w, k) =
          put_all-screen (chars 20 buf m) (record s { mem = m })
            (record { column = v.column; row = v.row }) in
        rw e (record { screen = w; kept = k a o ∙ tk_itoa-outside buf c arg a s.mem l p })
    | inr e ↦ elim (Bool-cases (c == 115)) [
      | inl e' ↦
          let (w, k) = put_all-screen (if arg == 0 then null_text else text arg) s v in
          rw (e, e') (record { screen = w; kept = k a o })
      | inr e' ↦
          let (w, k) = tk_putchar-screen arg s v in rw (e, e') (record { screen = w; kept = k a o })
    ]
  ]

  -- With a format in which no per cent sign stands at the end and arguments that are words, `tk_printf` comes to its
  -- end, with the cursor in the 24 rows of the screen if it was there at the start, and leaves every byte as it was that
  -- is neither one of these rows or of the row behind them, nor one of the first twelve of the buffer.
  pub tk_printf-some :
      (fmt : List ℕ) (args : ℕ → ℕ) (i a : ℕ) (s : Console)
      → closed fmt ≡ true
      → ((j : ℕ) → args j < u32_mod)
      → IsOnScreen s
      → Outside a
      → (a < buf) ⊎ (buf + 12 ≤ a)
      → (s' : Console) × (tk_printf buf text fmt args i s ≡ some s')
        × IsOnScreen s'
        × (s'.mem a ≡ s.mem a)
  unfolding tk_printf closed
  tk_printf-some [] args i a s h l v o p = (s, refl, v, refl)
  tk_printf-some (c ∷ []) args i a s h l v o p = elim (Bool-cases (c == 37)) [
    | inl e ↦ absurd (ground arith)
    | inr e ↦ let (w, k) = tk_putchar-screen c s v in (tk_putchar c s, rw e refl, w, k a o)
  ]
  tk_printf-some (c ∷ d ∷ rest) args i a s h l v o p = elim (Bool-cases (c == 37)) [
    | inl e ↦
        let r = conversion-Put d (args i) a s (l i) v o p in
        let (s', f, w, k) =
          tk_printf-some rest args (suc i) a (conversion buf text d (args i) s)
            (rw (closed, e) at h) l r.screen o p in
        (s', rw (tk_printf, e) f, w, k ∙ r.kept)
    | inr e ↦
        let (v', k') = tk_putchar-screen c s v in
        let (s', f, w, k) =
          tk_printf-some (d ∷ rest) args i a (tk_putchar c s) (rw (closed, e) at h) l v' o p in
        (s', rw (tk_printf, e) f, w, k ∙ k' a o)
  ]
