-- ===== src/Text/Utf8.antt =====
-- The length in bytes of a text.
use chatta.Prelude.{
  ℕ, ◌+◌, ◌≤◌, ◌≡◌, refl, [], ◌∷◌, ◌++◌, arith, ltb, if◌then◌else◌, true, length, all,
}
use chatta.Text.Basic.{Text}

-- `len(string(r))`
unfoldable pub rune_len : ℕ → ℕ
rune_len c = if ltb c 0x80 then 1 else if ltb c 0x800 then 2 else if ltb c 0x10000 then 3 else 4

-- `len(s)`
unfoldable pub byte_len : Text → ℕ
byte_len [] = 0
byte_len (c ∷ s) = rune_len c + byte_len s

pub rune_len_bounds : (c : ℕ) → (1 ≤ rune_len c) × (rune_len c ≤ 4)
unfolding rune_len
rune_len_bounds c = ground arith

pub byte_len-append : (s t : Text) → byte_len (s ++ t) ≡ byte_len s + byte_len t
unfolding byte_len
byte_len-append [] t = omega arith
byte_len-append (c ∷ s) t = omega (arith, byte_len-append s t)

-- ASCII text has as many bytes as code points.
pub byte_len_ascii : (s : Text) → all (λ c. ltb c 128) s ≡ true → byte_len s ≡ length s
unfolding byte_len rune_len
byte_len_ascii [] h = refl
byte_len_ascii (c ∷ s) h = ground (arith, byte_len_ascii s)
