-- ===== src/Irc/Message/Splits.antt =====
-- The parameters that FormatLine writes, cut again at the mark of the trailing one.
use mathlib.Core.Option
use chatta.Prelude.{
  ◌==◌, if◌then◌else◌, Bool-cases, and_iff, all, ℕ, ◌≡◌, refl, sym, ap, ◌∙◌, inl, inr, Bool, true,
  false, not, ◌&&◌, ◌||◌, Option, none, some, List, [], ◌∷◌, ◌++◌, append-nil, append_assoc, arith,
}
use chatta.Text.Basic.{Text, has_prefix, cut}
use chatta.Text.Space.{
  is_word, solid, fields, fields-word, fields_word, ne_of_not_space, head-solid,
}
use chatta.Text.Trim.{trim_right}
use chatta.Irc.Message.{is_line_end, needs_colon, format_params}

abbrev pub marker : Text
marker = b' ' ∷ b':' ∷ []

-- A command or a middle parameter: a word that does not start with a colon.
abbrev pub is_middle : Text → Bool
is_middle w = is_word w && not (has_prefix w (b':' ∷ []))

-- A last parameter survives behind a colon whatever it holds, and otherwise as a word.
abbrev pub IsLast : Text → Type 0
IsLast p = (trim_right is_line_end p ≡ p) × ((needs_colon p || is_word p) ≡ true)

abbrev pub Sendable : List Text → Type 0
Sendable [] = Unit
Sendable (p ∷ []) = IsLast p
Sendable (p ∷ q ∷ ps) = (is_middle p ≡ true) × Sendable (q ∷ ps)

-- Whether the last parameter is written behind a colon.
abbrev pub sends_trailing : List Text → Bool
sends_trailing [] = false
sends_trailing (p ∷ []) = needs_colon p
sends_trailing (p ∷ q ∷ ps) = sends_trailing (q ∷ ps)

-- The middle parameters, and the trailing one.
abbrev pub cons_middle : Text → Option (List Text × Text) → Option (List Text × Text)
cons_middle p = Option.map (λ (r : List Text × Text). (p ∷ r.0, r.1))

pub split_params : List Text → Option (List Text × Text)
split_params [] = none
split_params (p ∷ []) = if needs_colon p then some ([], p) else none
split_params (p ∷ q ∷ ps) = cons_middle p (split_params (q ∷ ps))

abbrev pub joined : List Text → Text
joined [] = []
joined (p ∷ ps) = b' ' ∷ (p ++ joined ps)

abbrev pub front : Text → Option (Text × Text) → Option (Text × Text)
front w = Option.map (λ (r : Text × Text). (w ++ r.0, r.1))

pub front-nil : (o : Option (Text × Text)) → o ≡ front [] o
front-nil none = refl
front-nil (some (a, b)) = refl

pub cut-cons_ne :
    (c : ℕ) (s : Text) → (c == b' ') ≡ false → cut (c ∷ s) marker ≡ front (c ∷ []) (cut s marker)
unfolding cut has_prefix
cut-cons_ne c s h = ground arith

pub cut-space :
    (c : ℕ) (s : Text)
    → (c == b':') ≡ false
    → cut (b' ' ∷ c ∷ s) marker ≡ front (b' ' ∷ []) (cut (c ∷ s) marker)
unfolding cut has_prefix
cut-space c s h = ground arith

pub front-front : (v w : Text) (o : Option (Text × Text)) → front v (front w o) ≡ front (v ++ w) o
front-front v w none = refl
front-front v w (some (a, b)) = rw append_assoc

pub cut-solid : (w s : Text) → solid w ≡ true → cut (w ++ s) marker ≡ front w (cut s marker)
cut-solid [] s h = front-nil (cut s marker)
cut-solid (c ∷ w) s h =
    let (dense, rest) = head-solid c w h in
    cut-cons_ne c (w ++ s) (ne_of_not_space c dense).0
    ∙ ap (front (c ∷ [])) (cut-solid w s rest)
    ∙ front-front (c ∷ []) w (cut s marker)

pub middle_parts :
    (c : ℕ) (p : Text) → is_middle (c ∷ p) ≡ true → (is_word (c ∷ p) ≡ true) × ((c == b':') ≡ false)
unfolding has_prefix
middle_parts c p h = ground arith

pub cut-middle :
    (p s : Text)
    → is_middle p ≡ true
    → cut (b' ' ∷ (p ++ s)) marker ≡ front (b' ' ∷ p) (cut s marker)
cut-middle [] s h = ground arith
cut-middle (c ∷ p) s h =
    let (word, plain) = middle_parts c p h in
    cut-space c (p ++ s) plain
    ∙ ap (front (b' ' ∷ [])) (cut-solid (c ∷ p) s word)
    ∙ front-front (b' ' ∷ []) (c ∷ p) (cut s marker)

pub cut_nil : cut [] marker ≡ none
unfolding cut has_prefix
cut_nil = refl

-- A last parameter that is sent without a colon is an ordinary middle parameter.
pub last_is_middle : (p : Text) → IsLast p → needs_colon p ≡ false → is_middle p ≡ true
unfolding needs_colon
last_is_middle [] h e = cc
last_is_middle (c ∷ p) h e = ground (arith, h.1)

abbrev pub with_joined : Option (List Text × Text) → Option (Text × Text)
with_joined = Option.map (λ (r : List Text × Text). (joined r.0, r.1))

pub front-joined :
    (p : Text) (o : Option (List Text × Text))
    → front (b' ' ∷ p) (with_joined o) ≡ with_joined (cons_middle p o)
front-joined p none = refl
front-joined p (some (ms, t)) = refl

-- The marker is found in front of the trailing parameter, if there is one.
pub cut-format_params :
    (ps : List Text) → Sendable ps → cut (format_params ps) marker ≡ with_joined (split_params ps)
unfolding format_params split_params
cut-format_params [] h = unfold cut has_prefix in refl
cut-format_params (p ∷ []) h = elim (Bool-cases (needs_colon p)) [
  | inl colon ↦ rw colon (unfold cut has_prefix in refl)
  | inr plain ↦ rw plain (
      ap (λ (t : Text). cut (b' ' ∷ t) marker) (sym (append-nil p))
      ∙ cut-middle p [] (last_is_middle p h plain)
      ∙ rw cut_nil)
]
cut-format_params (p ∷ q ∷ ps) h =
    cut-middle p (format_params (q ∷ ps)) h.0
    ∙ ap (front (b' ' ∷ p)) (cut-format_params (q ∷ ps) h.1)
    ∙ front-joined p (split_params (q ∷ ps))

pub fields-joined :
    (w : Text) (ps : List Text)
    → is_word w ≡ true
    → all is_word ps ≡ true
    → fields (w ++ joined ps) ≡ w ∷ ps
fields-joined w [] h hs = rw append-nil (fields_word w h)
fields-joined w (p ∷ ps) h hs =
    let both = (and_iff (is_word p) (all is_word ps)).0 hs in
    fields-word w (p ++ joined ps) h ∙ ap (◌∷◌ w) (fields-joined p ps both.0 both.1)

abbrev pub Splits : List Text → Option (List Text × Text) → Type 0
Splits ps none = (all is_word ps ≡ true) × (sends_trailing ps ≡ false)
Splits ps (some (ms, t)) =
    (all is_word ms ≡ true) × (ms ++ t ∷ [] ≡ ps) × (sends_trailing ps ≡ true)

pub Splits-cons :
    (p q : Text) (ps : List Text) (o : Option (List Text × Text))
    → is_word p ≡ true
    → Splits (q ∷ ps) o
    → Splits (p ∷ q ∷ ps) (cons_middle p o)
Splits-cons p q ps none h (words, flag) = (rw (h, words), flag)
Splits-cons p q ps (some (ms, t)) h (words, whole, flag) = (rw (h, words), ap (◌∷◌ p) whole, flag)

pub is_middle-is_word : (p : Text) → is_middle p ≡ true → is_word p ≡ true
is_middle-is_word p h = ((and_iff _ _).0 h).0

pub split_params-Splits : (ps : List Text) → Sendable ps → Splits ps (split_params ps)
unfolding split_params
split_params-Splits [] h = (refl, refl)
split_params-Splits (p ∷ []) h = elim (Bool-cases (needs_colon p)) [
  | inl colon ↦ rw colon (refl, refl, colon)
  | inr plain ↦ rw plain (rw (is_middle-is_word p (last_is_middle p h plain)), plain)
]
split_params-Splits (p ∷ q ∷ ps) h =
    Splits-cons p q ps (split_params (q ∷ ps)) (is_middle-is_word p h.0)
      (split_params-Splits (q ∷ ps) h.1)

cons_middle-eq-none : (p : Text) (o : Option (List Text × Text)) → cons_middle p o ≡ none → o ≡ none
cons_middle-eq-none p none e = refl
cons_middle-eq-none p (some r) e = cc

pub joined-format_params : (ps : List Text) → split_params ps ≡ none → format_params ps ≡ joined ps
unfolding split_params format_params
joined-format_params [] e = refl
joined-format_params (p ∷ []) e = elim (Bool-cases (needs_colon p)) [
  | inl colon ↦ cc (rw colon at e)
  | inr plain ↦ rw (plain, append-nil)
]
joined-format_params (p ∷ q ∷ ps) e =
    ap (λ t. b' ' ∷ (p ++ t)) (joined-format_params (q ∷ ps) (cons_middle-eq-none p _ e))
