-- ===== src/Text/Space.antt =====
-- `unicode.IsSpace` and `strings.Fields`.
use chatta.Prelude.{
  ◌==◌, if◌then◌else◌, within, ==_iff, Bool-cases, all, any, ℕ, ◌≡◌, refl, sym, ap, ◌∙◌, ◌≢◌, ◌↔◌,
  inl, inr, Bool, true, false, not, ◌||◌, List, [], ◌∷◌, ◌++◌, append-nil, append_assoc, arith,
}
use chatta.Text.Basic.{Text}

unfoldable pub is_space : ℕ → Bool
is_space c =
    within 9 13 c
    || c == 32
    || c == 0x85
    || c == 0xa0
    || c == 0x1680
    || within 0x2000 0x200a c
    || c == 0x2028
    || c == 0x2029
    || c == 0x202f
    || c == 0x205f
    || c == 0x3000

-- The word read so far becomes a field unless it is empty.
abbrev flush : Text → List Text → List Text
flush [] rest = rest
flush (c ∷ w) rest = (c ∷ w) ∷ rest

unfoldable pub fields_from : Text → Text → List Text
fields_from word [] = flush word []
fields_from word (c ∷ s) =
    let rest = fields_from (if is_space c then [] else word ++ c ∷ []) s in
    if is_space c then flush word rest else rest

-- `strings.Fields`
unfoldable pub fields : Text → List Text
unfolding fields_from
fields s = fields_from [] s

-- A text with no white space in it.
abbrev pub solid : Text → Bool
solid = all (λ c. not (is_space c))

-- A field: it has no white space and is not empty.
abbrev pub is_word : Text → Bool
is_word [] = false
is_word (c ∷ w) = solid (c ∷ w)

fields_from-solid :
    (w acc rest : Text) → solid w ≡ true → fields_from acc (w ++ rest) ≡ fields_from (acc ++ w) rest
unfolding fields_from
fields_from-solid [] acc rest h = rw append-nil
fields_from-solid (c ∷ w) acc rest h =
    ground (arith, fields_from-solid w (acc ++ c ∷ []) rest, append_assoc acc (c ∷ []) w)

flush_word : (w : Text) (rest : List Text) → is_word w ≡ true → flush w rest ≡ w ∷ rest
flush_word [] rest h = ground arith
flush_word (c ∷ w) rest h = refl

pub is_word-solid : (w : Text) → is_word w ≡ true → solid w ≡ true
is_word-solid [] h = ground arith
is_word-solid (c ∷ w) h = h

-- One word and a space, then the fields of what follows.
pub fields-word : (w rest : Text) → is_word w ≡ true → fields (w ++ (32 ∷ rest)) ≡ w ∷ fields rest
unfolding fields is_space
fields-word w rest h =
    fields_from-solid w [] (32 ∷ rest) (is_word-solid w h) ∙ flush_word w (fields_from [] rest) h

pub fields_word : (w : Text) → is_word w ≡ true → fields w ≡ w ∷ []
unfolding fields
fields_word w h =
    ap (fields_from []) (sym (append-nil w))
    ∙ fields_from-solid w [] [] (is_word-solid w h)
    ∙ flush_word w [] h

space_is_space : is_space 32 ≡ true
unfolding is_space
space_is_space = refl

cr_is_space : is_space b'\r' ≡ true
unfolding is_space
cr_is_space = refl

lf_is_space : is_space b'\n' ≡ true
unfolding is_space
lf_is_space = refl

-- What is not white space is none of the code points that the wire format uses as separators.
pub ne_of_not_space :
    (c : ℕ)
    → is_space c ≡ false
    → ((c == 32) ≡ false) × ((c == b'\r') ≡ false) × ((c == b'\n') ≡ false)
ne_of_not_space c h =
    (differs 32 space_is_space, differs b'\r' cr_is_space, differs b'\n' lf_is_space)
  where
    differs : (d : ℕ) → is_space d ≡ true → (c == d) ≡ false
    differs d k = elim (Bool-cases (c == d)) [
      | inl same ↦ cc (ap is_space ((==_iff c d).0 same))
      | inr other ↦ other
    ]

pub head-solid : (c : ℕ) (w : Text) → solid (c ∷ w) ≡ true → (is_space c ≡ false) × (solid w ≡ true)
head-solid c w h = ground arith

-- There is something other than white space.
abbrev pub has_word : Text → Bool
has_word = any (λ c. not (is_space c))

fields_from-some : (c : ℕ) (w s : Text) → fields_from (c ∷ w) s ≢ []
unfolding fields_from
fields_from-some c w [] e = cc
fields_from-some c w (d ∷ s) e = elim (Bool-cases (is_space d)) [
  | inl space ↦ let r = rw space at e in cc
  | inr inside ↦ fields_from-some c (w ++ d ∷ []) s (rw inside at e)
]

fields_from-none : (s : Text) → has_word s ≡ false → fields_from [] s ≡ []
unfolding fields_from
fields_from-none [] h = refl
fields_from-none (c ∷ s) h = ground (arith, h, fields_from-none s)

fields_from-has_word : (s : Text) → has_word s ≡ true → fields_from [] s ≢ []
unfolding fields_from
fields_from-has_word [] h e = ground (arith, h)
fields_from-has_word (c ∷ s) h e = elim (Bool-cases (is_space c)) [
  | inl space ↦ fields_from-has_word s (rw space at h) (rw space at e)
  | inr inside ↦ fields_from-some c [] s (rw inside at e)
]

-- A text has fields exactly if it has something other than white space.
pub fields_iff : (s : Text) → (fields s ≢ []) ↔ (has_word s ≡ true)
unfolding fields
fields_iff s = (
  λ h. elim (Bool-cases (has_word s)) [
    | inl word ↦ word
    | inr blank ↦ absurd (h (fields_from-none s blank))
  ],
  fields_from-has_word s,
)
