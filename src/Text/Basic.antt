-- ===== src/Text/Basic.antt =====
-- Text, its comparison, prefixes and `strings.Cut`.
use Prim.Native.Char.{code}
use Prim.Native.String.{String}
use mathlib.Core.Option
use chatta.Prelude.{
  ◌==◌, if◌then◌else◌, Bool-cases, length, drop, any, ℕ, ◌≡◌, refl, ◌≢◌, ◌↔◌, inl, inr, Bool, true,
  false, ◌&&◌, ◌||◌, Option, none, some, List, [], ◌∷◌, ◌++◌, arith,
}

-- A Go string as the list of its code points.
abbrev pub Text : Type 0
Text = List ℕ

abbrev pub codes : String → Text
codes String.[] = []
codes (String.◌∷◌ c s) = code c ∷ codes s

-- `a == b` on strings.
unfoldable pub eq_text : Text → Text → Bool
eq_text [] [] = true
eq_text (a ∷ s) (b ∷ t) = (a == b) && eq_text s t
eq_text _ _ = false

pub eq_text_iff : (s t : Text) → (eq_text s t ≡ true) ↔ (s ≡ t)
unfolding eq_text
eq_text_iff (a ∷ s) (b ∷ t) = ground (arith, eq_text_iff s t)
eq_text_iff _ _ = ground arith

pub eq_text_refl : (s : Text) → eq_text s s ≡ true
eq_text_refl s = (eq_text_iff s s).1 refl

pub eq_text_ne : (n m : Text) → n ≢ m → eq_text n m ≡ false
eq_text_ne n m h = elim (Bool-cases (eq_text n m)) [
  | inl same ↦ absurd (h ((eq_text_iff n m).0 same))
  | inr other ↦ other
]

-- `strings.HasPrefix`
unfoldable pub has_prefix : Text → Text → Bool
has_prefix s [] = true
has_prefix [] (p ∷ ps) = false
has_prefix (c ∷ s) (p ∷ ps) = (c == p) && has_prefix s ps

-- `strings.TrimPrefix`
unfoldable pub trim_prefix : Text → Text → Text
trim_prefix s p = if has_prefix s p then drop (length p) s else s

-- `strings.Contains` for one code point, which is `strings.IndexByte(s, c) >= 0`.
unfoldable pub contains : Text → ℕ → Bool
contains s c = any (λ x. x == c) s

-- `strings.Cut(s, sep)`: what stands before and after the first `sep`. With `i` the result of
-- `strings.Index(s, sep)` these are `s[:i]` and `s[i+len(sep):]`, and `none` is `i < 0`.
unfoldable pub cut : Text → Text → Option (Text × Text)
cut [] sep = if has_prefix [] sep then some ([], []) else none
cut (c ∷ s) sep =
    let later = Option.map (λ (r : Text × Text). (c ∷ r.0, r.1)) (cut s sep) in
    if has_prefix (c ∷ s) sep then some ([], drop (length sep) (c ∷ s)) else later

-- A text that starts with `p` is `p` and the rest.
pub has_prefix_append : (p s : Text) → has_prefix (p ++ s) p ≡ true
unfolding has_prefix
has_prefix_append [] s = refl
has_prefix_append (c ∷ p) s = ground (arith, has_prefix_append p s)

pub has_prefix_split : (s p : Text) → has_prefix s p ≡ true → s ≡ p ++ drop (length p) s
unfolding has_prefix
has_prefix_split s [] h = refl
has_prefix_split [] (c ∷ p) h = ground arith
has_prefix_split (a ∷ s) (c ∷ p) h = ground (arith, has_prefix_split s p)

-- `strings.Contains`
unfoldable pub contains_text : Text → Text → Bool
contains_text [] sub = has_prefix [] sub
contains_text (c ∷ s) sub = has_prefix (c ∷ s) sub || contains_text s sub
