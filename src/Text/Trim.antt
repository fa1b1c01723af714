-- ===== src/Text/Trim.antt =====
-- `strings.TrimLeft`, `TrimRight`, `Trim` over a set of code points, and `TrimSpace`.
use chatta.Prelude.{
  if◌then◌else◌, and_iff, length, all, any, append-ne-nil, list_cases, ℕ, suc, ◌≤◌, ◌≡◌, refl, ap,
  ◌∙◌, subst, ◌≢◌, inl, inr, Bool, true, false, not, ◌||◌, [], ◌∷◌, ◌++◌, arith,
}
use chatta.Text.Basic.{Text}
use chatta.Text.Space.{is_space}

unfoldable pub trim_left : (ℕ → Bool) → Text → Text
trim_left p [] = []
trim_left p (c ∷ s) = let rest = trim_left p s in if p c then rest else c ∷ s

-- One more code point in front of a text that is trimmed on the right.
abbrev trim_cons : (ℕ → Bool) → ℕ → Text → Text
trim_cons p c [] = if p c then [] else c ∷ []
trim_cons p c (d ∷ s) = c ∷ d ∷ s

unfoldable pub trim_right : (ℕ → Bool) → Text → Text
trim_right p [] = []
trim_right p (c ∷ s) = trim_cons p c (trim_right p s)

-- `strings.Trim`
unfoldable pub trim : (ℕ → Bool) → Text → Text
unfolding trim_left trim_right
trim p s = trim_right p (trim_left p s)

-- `strings.TrimSpace`
unfoldable pub trim_space : Text → Text
unfolding trim
trim_space = trim is_space

-- A text that ends in something the set does not hold stays, whatever stands in front of it.
pub trim_right-cons :
    (p : ℕ → Bool) (c : ℕ) (s : Text) → s ≢ [] → trim_right p s ≡ s → trim_right p (c ∷ s) ≡ c ∷ s
unfolding trim_right
trim_right-cons p c [] ne e = absurd (ne refl)
trim_right-cons p c (d ∷ s) ne e = ap (trim_cons p c) e

pub trim_right-append :
    (p : ℕ → Bool) (s t : Text) → t ≢ [] → trim_right p t ≡ t → trim_right p (s ++ t) ≡ s ++ t
trim_right-append p [] t ne e = e
trim_right-append p (c ∷ s) t ne e =
    trim_right-cons p c (s ++ t) (append-ne-nil s t ne) (trim_right-append p s t ne e)

-- The two ends of a trimmed text.
abbrev pub starts_outside : (ℕ → Bool) → Text → Bool
starts_outside p [] = true
starts_outside p (c ∷ s) = not (p c)

pub trim_left_of_start : (p : ℕ → Bool) (s : Text) → starts_outside p s ≡ true → trim_left p s ≡ s
unfolding trim_left
trim_left_of_start p [] h = refl
trim_left_of_start p (c ∷ s) h = ground arith

pub trim_left_starts : (p : ℕ → Bool) (s : Text) → starts_outside p (trim_left p s) ≡ true
unfolding trim_left
trim_left_starts p [] = refl
trim_left_starts p (c ∷ s) = ground (arith, trim_left_starts p s)

pub trim_right_starts :
    (p : ℕ → Bool) (s : Text) → starts_outside p s ≡ true → starts_outside p (trim_right p s) ≡ true
unfolding trim_right
trim_right_starts p [] h = refl
trim_right_starts p (c ∷ s) h = elim (list_cases (trim_right p s)) [
  | inl e ↦ rw e (ground arith)
  | inr (d, t, e) ↦ rw e h
]

pub trim_right_idem : (p : ℕ → Bool) (s : Text) → trim_right p (trim_right p s) ≡ trim_right p s
unfolding trim_right
trim_right_idem p [] = refl
trim_right_idem p (c ∷ s) = elim (list_cases (trim_right p s)) [
  | inl e ↦ rw e (ground arith)
  | inr (d, t, e) ↦
      rw e (ap (trim_cons p c) (subst (λ r. trim_right p r ≡ r) e (trim_right_idem p s)))
]

-- Trimming twice is trimming once.
pub trim_idem : (p : ℕ → Bool) (s : Text) → trim p (trim p s) ≡ trim p s
unfolding trim
trim_idem p s =
    ap (trim_right p) (trim_left_of_start p _ (trim_right_starts p _ (trim_left_starts p s)))
    ∙ trim_right_idem p (trim_left p s)

all-trim_cons :
    (p q : ℕ → Bool) (c : ℕ) (s : Text)
    → q c ≡ true
    → all q s ≡ true
    → all q (trim_cons p c s) ≡ true
all-trim_cons p q c [] h k = ground arith
all-trim_cons p q c (d ∷ s) h k = ground arith

all-trim_left : (p q : ℕ → Bool) (s : Text) → all q s ≡ true → all q (trim_left p s) ≡ true
unfolding trim_left
all-trim_left p q [] h = refl
all-trim_left p q (c ∷ s) h = ground (arith, all-trim_left p q s)

all-trim_right : (p q : ℕ → Bool) (s : Text) → all q s ≡ true → all q (trim_right p s) ≡ true
unfolding trim_right
all-trim_right p q [] h = refl
all-trim_right p q (c ∷ s) h =
    let both = (and_iff (q c) (all q s)).0 h in
    all-trim_cons p q c (trim_right p s) both.0 (all-trim_right p q s both.1)

-- A test that every code point passes is still passed after trimming.
pub all-trim : (p q : ℕ → Bool) (s : Text) → all q s ≡ true → all q (trim p s) ≡ true
unfolding trim
all-trim p q s h = all-trim_right p q (trim_left p s) (all-trim_left p q s h)

abbrev pub ends_outside : (ℕ → Bool) → Text → Bool
ends_outside p [] = true
ends_outside p (c ∷ []) = not (p c)
ends_outside p (c ∷ d ∷ s) = ends_outside p (d ∷ s)

pub trim_right_of_end : (p : ℕ → Bool) (s : Text) → ends_outside p s ≡ true → trim_right p s ≡ s
trim_right_of_end p [] h = unfold trim_right in refl
trim_right_of_end p (c ∷ []) h = unfold trim_right in ground arith
trim_right_of_end p (c ∷ d ∷ s) h =
    trim_right-cons p c (d ∷ s) (λ e. cc) (trim_right_of_end p (d ∷ s) h)

ends_outside-trim_cons :
    (p : ℕ → Bool) (c : ℕ) (s : Text)
    → ends_outside p s ≡ true
    → ends_outside p (trim_cons p c s) ≡ true
ends_outside-trim_cons p c [] h = ground arith
ends_outside-trim_cons p c (d ∷ s) h = h

pub trim_right_ends : (p : ℕ → Bool) (s : Text) → ends_outside p (trim_right p s) ≡ true
unfolding trim_right
trim_right_ends p [] = refl
trim_right_ends p (c ∷ s) = ends_outside-trim_cons p c (trim_right p s) (trim_right_ends p s)

pub ends_outside_of_all :
    (p : ℕ → Bool) (s : Text) → all (λ c. not (p c)) s ≡ true → ends_outside p s ≡ true
ends_outside_of_all p [] h = refl
ends_outside_of_all p (c ∷ []) h = ground arith
ends_outside_of_all p (c ∷ d ∷ s) h =
    ends_outside_of_all p (d ∷ s) ((and_iff (not (p c)) (all (λ c. not (p c)) (d ∷ s))).0 h).1

pub trim_starts : (p : ℕ → Bool) (s : Text) → starts_outside p (trim p s) ≡ true
unfolding trim
trim_starts p s = trim_right_starts p _ (trim_left_starts p s)

pub trim_of_start :
    (p : ℕ → Bool) (s : Text) → starts_outside p s ≡ true → trim p s ≡ trim_right p s
unfolding trim
trim_of_start p s h = ap (trim_right p) (trim_left_of_start p s h)

pub length-trim_right : (p : ℕ → Bool) (s : Text) → length (trim_right p s) ≤ length s
unfolding trim_right
length-trim_right p [] = omega arith
length-trim_right p (c ∷ s) =
    let shorter = length-trim_right p s in length-trim_cons p c (trim_right p s) s shorter
  where
    length-trim_cons :
        (p : ℕ → Bool) (c : ℕ) (r s : Text)
        → length r ≤ length s
        → length (trim_cons p c r) ≤ suc (length s)
    length-trim_cons p c [] s h = ground arith
    length-trim_cons p c (d ∷ r) s h = omega arith

-- The first code point stays, if the set does not hold it.
pub trim_right_head :
    (p : ℕ → Bool) (c : ℕ) (s : Text) → p c ≡ false → (t : Text) × (trim_right p (c ∷ s) ≡ c ∷ t)
unfolding trim_right
trim_right_head p c s h = trim_cons_head (trim_right p s)
  where
    trim_cons_head : (r : Text) → (t : Text) × (trim_cons p c r ≡ c ∷ t)
    trim_cons_head [] = ([], rw h)
    trim_cons_head (d ∷ r) = (d ∷ r, refl)

any-trim_left :
    (p : ℕ → Bool) (s : Text) → any (λ c. not (p c)) (trim_left p s) ≡ any (λ c. not (p c)) s
unfolding trim_left
any-trim_left p [] = refl
any-trim_left p (c ∷ s) = ground (arith, any-trim_left p s)

any-trim_cons :
    (p : ℕ → Bool) (c : ℕ) (s : Text)
    → any (λ c. not (p c)) (trim_cons p c s) ≡ any (λ c. not (p c)) (c ∷ s)
any-trim_cons p c [] = ground arith
any-trim_cons p c (d ∷ s) = refl

any-trim_right :
    (p : ℕ → Bool) (s : Text) → any (λ c. not (p c)) (trim_right p s) ≡ any (λ c. not (p c)) s
unfolding trim_right
any-trim_right p [] = refl
any-trim_right p (c ∷ s) =
    any-trim_cons p c (trim_right p s) ∙ ap (λ b. not (p c) || b) (any-trim_right p s)

-- Trimming loses nothing but what the set holds.
pub any-trim : (p : ℕ → Bool) (s : Text) → any (λ c. not (p c)) (trim p s) ≡ any (λ c. not (p c)) s
unfolding trim
any-trim p s = any-trim_right p (trim_left p s) ∙ any-trim_left p s

-- A text that ends outside the set has something outside it.
pub any_of_end :
    (p : ℕ → Bool) (c : ℕ) (s : Text)
    → ends_outside p (c ∷ s) ≡ true
    → any (λ c. not (p c)) (c ∷ s) ≡ true
any_of_end p c [] h = ground (arith, h)
any_of_end p c (d ∷ s) h = ground (arith, any_of_end p d s h)

pub trim_ends : (p : ℕ → Bool) (s : Text) → ends_outside p (trim p s) ≡ true
unfolding trim
trim_ends p s = trim_right_ends p (trim_left p s)
