-- ===== src/Services/Message/Parts.antt =====
-- The parts of a message.
use chatta.Prelude.{
  ltb, Bool-cases, if_intro, keep, All, All-append, ℕ, ◌+◌, ◌≤◌, ◌≡◌, refl, sym, ap, ap₂, ◌∙◌, ◌≢◌,
  inl, inr, Bool, true, false, not, ◌&&◌, List, [], ◌∷◌, ◌++◌, append-nil, append_assoc, arith,
}
use chatta.Text.Basic.{Text}
use chatta.Text.Utf8.{rune_len, byte_len, rune_len_bounds, byte_len-append}
use chatta.Dal.State.{is_empty}
use chatta.Dal.State.Sessions.{ne_nil_of_test}
use chatta.Dal.Store.{split_lines}
use chatta.Services.Message.{split_line, split_from, split_utf8, flush, next_part, is_blank}

abbrev pub concat : List Text → Text
concat [] = []
concat (t ∷ ts) = t ++ concat ts

-- A part has some text, and fits.
abbrev pub Fits : ℕ → Text → Type 0
Fits limit part = (part ≢ []) × (byte_len part ≤ limit)

flush-Fits :
    (limit : ℕ) (current : Text) → byte_len current ≤ limit → All (Fits limit) (flush current [])
flush-Fits limit [] h = tt
flush-Fits limit (c ∷ current) h = (((λ e. cc), h), tt)

flush-concat : (current : Text) → concat (flush current []) ≡ current
flush-concat [] = refl
flush-concat (c ∷ current) = append-nil (c ∷ current)

byte_len_nil : byte_len [] ≡ 0
unfolding byte_len
byte_len_nil = refl

byte_len_one_alone : (c : ℕ) → rune_len c ≡ byte_len (c ∷ [])
unfolding byte_len
byte_len_one_alone c = omega arith

byte_len_one : (s : Text) (c : ℕ) → byte_len (s ++ c ∷ []) ≡ byte_len s + rune_len c
unfolding byte_len
byte_len_one s c = byte_len-append s (c ∷ []) ∙ omega arith

module _ (limit : ℕ) (four : 4 ≤ limit) where
  next_part-Fits :
      (full : Bool) (current : Text) (size c : ℕ) (next : Text → ℕ → List Text)
      → full ≡ (ltb limit (size + rune_len c) && not (is_empty current))
      → size ≡ byte_len current
      → size ≤ limit
      → ((t : Text) (n : ℕ) → n ≡ byte_len t → n ≤ limit → All (Fits limit) (next t n))
      → All (Fits limit) (next_part full current size c (rune_len c) next)
  next_part-Fits true current size c next is_full same h ih =
      let filled : is_empty current ≡ false = ground arith in
      (
        (ne_nil_of_test current filled, omega (arith, same, h)),
        ih (c ∷ []) (rune_len c) (byte_len_one_alone c)
            (omega (arith, (rune_len_bounds c).1, four)),
      )
  next_part-Fits false current size c next not_full same h ih =
      ih (current ++ c ∷ []) (size + rune_len c) (omega (arith, same, byte_len_one current c))
        (room size current not_full same (rune_len_bounds c).1)
    where
      room :
          (size : ℕ) (current : Text)
          → false ≡ (ltb limit (size + rune_len c) && not (is_empty current))
          → size ≡ byte_len current
          → rune_len c ≤ 4
          → size + rune_len c ≤ limit
      room size [] e same short = omega (arith, same, byte_len_nil, short, four)
      room size (d ∷ current) e same short = ground arith

  split_line-Fits :
      (current : Text) (size : ℕ) (s : Text)
      → size ≡ byte_len current
      → size ≤ limit
      → All (Fits limit) (split_line limit current size s)
  unfolding split_line
  split_line-Fits current size [] same h = flush-Fits limit current (omega (arith, same, h))
  split_line-Fits current size (c ∷ s) same h =
      next_part-Fits (ltb limit (size + rune_len c) && not (is_empty current)) current size c
        (λ current' size'. split_line limit current' size' s) refl same h
        (λ t n e k. split_line-Fits t n s e k)

  split_from-Fits : (ls : List Text) → All (Fits limit) (split_from limit ls)
  unfolding split_from
  split_from-Fits [] = tt
  split_from-Fits (l ∷ ls) =
      if_intro (All (Fits limit)) (is_blank l) (split_from limit ls)
        (split_line limit [] 0 l ++ split_from limit ls) (λ e. split_from-Fits ls)
        (λ e.
          All-append (Fits limit) (split_line limit [] 0 l) (split_from limit ls)
            (split_line-Fits [] 0 l (sym byte_len_nil) (omega (arith, four))) (split_from-Fits ls))

next_part-concat :
    (full : Bool) (current : Text) (size c n : ℕ) (s : Text) (next : Text → ℕ → List Text)
    → ((t : Text) (k : ℕ) → concat (next t k) ≡ t ++ s)
    → concat (next_part full current size c n next) ≡ current ++ (c ∷ s)
next_part-concat true current size c n s next ih = ap (◌++◌ current) (ih (c ∷ []) n)
next_part-concat false current size c n s next ih =
    ih (current ++ c ∷ []) (size + n) ∙ append_assoc current (c ∷ []) s

split_line-concat :
    (limit : ℕ) (current : Text) (size : ℕ) (s : Text)
    → concat (split_line limit current size s) ≡ current ++ s
unfolding split_line
split_line-concat limit current size [] = flush-concat current ∙ sym (append-nil current)
split_line-concat limit current size (c ∷ s) =
    next_part-concat (ltb limit (size + rune_len c) && not (is_empty current)) current size c
      (rune_len c) s (λ current' size'. split_line limit current' size' s)
      (λ t k. split_line-concat limit t k s)

concat-append : (xs ys : List Text) → concat (xs ++ ys) ≡ concat xs ++ concat ys
concat-append [] ys = refl
concat-append (x ∷ xs) ys =
    ap (◌++◌ x) (concat-append xs ys) ∙ sym (append_assoc x (concat xs) (concat ys))

-- The text without its line ends and its blank lines.
abbrev pub without_blank : List Text → Text
without_blank ls = concat (keep (λ l. not (is_blank l)) ls)

split_from-concat : (limit : ℕ) (ls : List Text) → concat (split_from limit ls) ≡ without_blank ls
unfolding split_from
split_from-concat limit [] = refl
split_from-concat limit (l ∷ ls) = elim (Bool-cases (is_blank l)) [
  | inl blank ↦ rw blank (split_from-concat limit ls)
  | inr text ↦ rw text (
      concat-append (split_line limit [] 0 l) (split_from limit ls)
      ∙ ap₂ ◌++◌ (split_line-concat limit [] 0 l) (split_from-concat limit ls))
]

-- With a limit of at least four bytes, the longest encoding of a character, every part has some text
-- and is at most `limit` bytes long, and the parts together are the text without its line ends and
-- its blank lines: nothing is lost, repeated or cut inside a character.
pub split_utf8-Fits :
    (text : Text) (limit : ℕ)
    → 4 ≤ limit
    → All (Fits limit) (split_utf8 text limit)
      × (concat (split_utf8 text limit) ≡ without_blank (split_lines text))
unfolding split_utf8
split_utf8-Fits text limit four =
    (split_from-Fits limit four (split_lines text), split_from-concat limit (split_lines text))
