-- ===== src/Text/Path.antt =====
-- `filepath.Clean` and `strings.Split(s, "/")` for paths that start with a slash, `filepath.Base`.
use chatta.Prelude.{
  ◌==◌, if◌then◌else◌, ==_iff, Bool-cases, and_iff, length, drop, all, any, keep, length-append, ℕ,
  ◌≤◌, ◌≡◌, refl, sym, ap, ◌∙◌, ◌↔◌, ◌⊎◌, inl, inr, Bool, true, false, not, List, [], ◌∷◌, ◌++◌,
  append-nil, append_assoc, arith,
}
use chatta.Text.Basic.{Text, codes, eq_text}
use chatta.Text.Trim.{trim_right}

abbrev onto_head : ℕ → List Text → List Text
onto_head c [] = (c ∷ []) ∷ []
onto_head c (p ∷ ps) = (c ∷ p) ∷ ps

unfoldable pub split_slash : Text → List Text
split_slash [] = [] ∷ []
split_slash (c ∷ s) =
    let later = split_slash s in if c == b'/' then [] ∷ later else onto_head c later

-- A slash in front of each element.
abbrev pub join_rooted : List Text → Text
join_rooted [] = []
join_rooted (p ∷ ps) = b'/' ∷ (p ++ join_rooted ps)

abbrev without_last {ℓ} : {A : Type ℓ} → List A → List A
without_last [] = []
without_last (x ∷ []) = []
without_last (x ∷ y ∷ l) = x ∷ without_last (y ∷ l)

abbrev pub is_parent : Text → Bool
is_parent p = eq_text p (codes "..")

-- Neither empty nor the current folder.
abbrev pub is_step : Text → Bool
is_step [] = false
is_step (c ∷ p) = not (eq_text (c ∷ p) (codes "."))

abbrev next_element : List Text → Text → List Text
next_element out p =
    if is_parent p then without_last out else if is_step p then out ++ p ∷ [] else out

clean_onto : List Text → List Text → List Text
clean_onto out [] = out
clean_onto out (p ∷ ps) = clean_onto (next_element out p) ps

abbrev or_root : Text → Text
or_root [] = b'/' ∷ []
or_root (c ∷ s) = c ∷ s

-- `filepath.Clean("/" + rest)`
unfoldable pub clean_rooted : Text → Text
unfolding clean_onto
clean_rooted rest = or_root (join_rooted (clean_onto [] (split_slash rest)))

pub split_slash-join : (s : Text) → join_rooted (split_slash s) ≡ b'/' ∷ s
unfolding split_slash
split_slash-join [] = refl
split_slash-join (c ∷ s) = elim (Bool-cases (c == b'/')) [
  | inl slash ↦
      rw slash (
        ap (◌∷◌ b'/') (split_slash-join s) ∙ ap (λ d. b'/' ∷ d ∷ s) (sym ((==_iff c b'/').0 slash)))
  | inr inside ↦ rw inside (onto_head_joined (split_slash s) (split_slash-join s))
]
  where
    onto_head_joined :
        (ps : List Text) → join_rooted ps ≡ b'/' ∷ s → join_rooted (onto_head c ps) ≡ b'/' ∷ c ∷ s
    onto_head_joined [] e = cc
    onto_head_joined (p ∷ ps) e = ap (λ t. b'/' ∷ c ∷ drop 1 t) e

clean_onto-keep :
    (out ps : List Text) → any is_parent ps ≡ false → clean_onto out ps ≡ out ++ keep is_step ps
unfolding clean_onto
clean_onto-keep out [] h = sym (append-nil out)
clean_onto-keep out (p ∷ ps) h =
    let here : is_parent p ≡ false = ground (arith, h) in
    let later : any is_parent ps ≡ false = ground (arith, h) in
    elim (Bool-cases (is_step p)) [
      | inl step ↦
          rw (here, step)
            (clean_onto-keep (out ++ p ∷ []) ps later ∙ append_assoc out (p ∷ []) (keep is_step ps))
      | inr skip ↦ rw (here, skip) (clean_onto-keep out ps later)
    ]

length-join_keep :
    (ps : List Text) → length (join_rooted (keep is_step ps)) ≤ length (join_rooted ps)
length-join_keep [] = omega arith
length-join_keep (p ∷ ps) = elim (Bool-cases (is_step p)) [
  | inl step ↦ rw step (
      omega (
        arith,
        length-append p (join_rooted ps),
        length-append p (join_rooted (keep is_step ps)),
        length-join_keep ps,
      ))
  | inr skip ↦ rw skip (omega (arith, length-append p (join_rooted ps), length-join_keep ps))
]

-- A path that loses no character loses no element.
join_keep-all :
    (ps : List Text)
    → length (join_rooted ps) ≤ length (join_rooted (keep is_step ps))
    → all is_step ps ≡ true
join_keep-all [] h = refl
join_keep-all (p ∷ ps) h = elim (Bool-cases (is_step p)) [
  | inl step ↦ rw step (
      join_keep-all ps (
        omega (
          arith,
          length-append p (join_rooted ps),
          length-append p (join_rooted (keep is_step ps)),
          rw step at h,
        )))
  | inr skip ↦
      absurd (omega (arith, length-append p (join_rooted ps), length-join_keep ps, rw skip at h))
]

keep-all : (ps : List Text) → all is_step ps ≡ true → keep is_step ps ≡ ps
keep-all [] h = refl
keep-all (p ∷ ps) h =
    let both = (and_iff (is_step p) (all is_step ps)).0 h in
    rw both.0 (ap (◌∷◌ p) (keep-all ps both.1))

or_root_cases : (t : Text) → ((t ≡ []) × (or_root t ≡ b'/' ∷ [])) ⊎ (or_root t ≡ t)
or_root_cases [] = inl (refl, refl)
or_root_cases (c ∷ t) = inr refl

-- Without `..` in it, a path is clean exactly when it is the root or has neither an empty element
-- nor a `.` in it.
pub clean_rooted_iff :
    (rest : Text)
    → any is_parent (split_slash rest) ≡ false
    → (clean_rooted rest ≡ b'/' ∷ rest) ↔ ((rest ≡ []) ⊎ (all is_step (split_slash rest) ≡ true))
unfolding clean_rooted
clean_rooted_iff rest h =
    let ps = split_slash rest in
    let kept : clean_onto [] ps ≡ keep is_step ps = clean_onto-keep [] ps h in
    let whole = split_slash-join rest in
    (
      λ e. elim (or_root_cases (join_rooted (clean_onto [] ps))) [
        | inl (nothing, root) ↦ inl (ap (drop 1) (sym e ∙ root))
        | inr same ↦ inr (
            join_keep-all ps (
              omega (
                arith,
                ap length whole,
                ap length e,
                ap length same,
                ap (λ l. length (join_rooted l)) kept,
              )))
      ],
      λ d. elim d [
        | inl empty ↦ rw empty (unfold split_slash clean_onto eq_text in refl)
        | inr steps ↦
            ap (λ l. or_root (join_rooted l)) (kept ∙ keep-all ps steps) ∙ ap or_root whole
      ],
    )

abbrev last_element : List Text → Text
last_element [] = []
last_element (p ∷ []) = p
last_element (p ∷ q ∷ ps) = last_element (q ∷ ps)

abbrev or_slash : Text → Text
or_slash [] = b'/' ∷ []
or_slash (c ∷ s) = c ∷ s

-- `filepath.Base`
unfoldable pub base : Text → Text
base [] = codes "."
base (c ∷ s) = or_slash (last_element (split_slash (trim_right (λ x. x == b'/') (c ∷ s))))
