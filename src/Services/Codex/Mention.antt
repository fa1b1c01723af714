-- ===== src/Services/Codex/Mention.antt =====
-- What a mention of the nick is.
use chatta.Prelude.{
  ◌==◌, Bool-cases, Option-cases, ℕ, ◌≡◌, refl, sym, ap, ◌∙◌, ◌≢◌, ◌↔◌, inl, inr, Bool, true, false,
  not, some, [], ◌∷◌, ◌++◌, arith,
}
use chatta.Text.Basic.{Text, eq_text}
use chatta.Text.Case.{Folding, fold_rune, equal_fold}
use chatta.Services.Codex.{
  is_nick_char, behind_nick, ends_nick, mention_here, mention_later, mention, mention_end,
}

-- No character of `[a-z0-9_]`, up to case, ends this text.
abbrev pub starts_nick : Folding → Text → Bool
starts_nick f [] = true
starts_nick f (c ∷ []) = not (is_nick_char f c)
starts_nick f (c ∷ d ∷ s) = starts_nick f (d ∷ s)

-- The nick, up to case, between what is no part of a nick.
pub record Mentions (f : Folding) (nick text : Text) : Type 0 where
  pub before : Text
  pub found : Text
  pub after : Text
  pub whole : text ≡ before ++ (found ++ after)
  pub same : equal_fold f nick found ≡ true
  pub starts : starts_nick f before ≡ true
  pub ends : ends_nick f after ≡ true

-- The nick up to case, where a text starts with it.
record Found (f : Folding) (nick s rest : Text) : Type 0 where
  found : Text
  whole : s ≡ found ++ rest
  same : equal_fold f nick found ≡ true

behind_nick-Found :
    (f : Folding) (nick s rest : Text) → behind_nick f nick s ≡ some rest → Found f nick s rest
unfolding behind_nick equal_fold eq_text
behind_nick-Found f [] s rest h = record { found = []; whole = cc; same = refl }
behind_nick-Found f (n ∷ nick) [] rest h = absurd (ground arith)
behind_nick-Found f (n ∷ nick) (c ∷ s) rest h =
    let same_rune : (fold_rune f n == fold_rune f c) ≡ true = ground arith in
    let later : behind_nick f nick s ≡ some rest = ground arith in
    let g = behind_nick-Found f nick s rest later in
    record { found = c ∷ g.found; whole = ap (◌∷◌ c) g.whole; same = rw (same_rune, g.same) }

behind_nick-append :
    (f : Folding) (nick found rest : Text)
    → equal_fold f nick found ≡ true
    → behind_nick f nick (found ++ rest) ≡ some rest
unfolding behind_nick equal_fold eq_text
behind_nick-append f [] [] rest h = refl
behind_nick-append f [] (c ∷ found) rest h = absurd (ground arith)
behind_nick-append f (n ∷ nick) [] rest h = absurd (ground arith)
behind_nick-append f (n ∷ nick) (c ∷ found) rest h =
    let same_rune : (fold_rune f n == fold_rune f c) ≡ true = ground arith in
    let later : equal_fold f nick found ≡ true = ground arith in
    rw (same_rune, behind_nick-append f nick found rest later)

no_mention : false ≢ true
no_mention e = cc

-- A mention that starts the text.
mention_here-Found :
    (f : Folding) (nick s : Text)
    → mention_here f nick s ≡ true
    → (rest : Text) × Found f nick s rest × (ends_nick f rest ≡ true)
unfolding mention_here
mention_here-Found f nick s h = elim (Option-cases (behind_nick f nick s)) [
  | inl e ↦ absurd (no_mention (sym (ap (mention_end f) e) ∙ h))
  | inr (rest, e) ↦ (rest, behind_nick-Found f nick s rest e, sym (ap (mention_end f) e) ∙ h)
]

-- A mention behind some text.
record Behind (f : Folding) (nick text : Text) : Type 0 where
  first : ℕ
  others : Text
  rest : Text
  at : Text
  here : Found f nick at rest
  whole : text ≡ (first ∷ others) ++ at
  starts : starts_nick f (first ∷ others) ≡ true
  ends : ends_nick f rest ≡ true

mention_later-Behind :
    (f : Folding) (nick text : Text) → mention_later f nick text ≡ true → Behind f nick text
unfolding mention_later
mention_later-Behind f nick [] h = absurd (ground arith)
mention_later-Behind f nick (c ∷ s) h = elim (Bool-cases (mention_later f nick s)) [
  | inl later ↦
      let b = mention_later-Behind f nick s later in
      record {
        first = c;
        others = b.first ∷ b.others;
        rest = b.rest;
        at = b.at;
        here = b.here;
        whole = ap (◌∷◌ c) b.whole;
        starts = b.starts;
        ends = b.ends;
      }
  | inr not_later ↦
      let starts : not (is_nick_char f c) ≡ true = ground arith in
      let now : mention_here f nick s ≡ true = ground arith in
      let (rest, here, ends) = mention_here-Found f nick s now in
      record {
        first = c;
        others = [];
        rest = rest;
        at = s;
        here = here;
        whole = refl;
        starts = starts;
        ends = ends;
      }
]

mention_later-append :
    (f : Folding) (nick : Text) (c : ℕ) (before s : Text)
    → starts_nick f (c ∷ before) ≡ true
    → mention_here f nick s ≡ true
    → mention_later f nick ((c ∷ before) ++ s) ≡ true
unfolding mention_later
mention_later-append f nick c [] s h k = rw (h, k)
mention_later-append f nick c (d ∷ before) s h k =
    let later = mention_later-append f nick d before s h k in ground (arith, later)

mention_here-append :
    (f : Folding) (nick found rest : Text)
    → equal_fold f nick found ≡ true
    → ends_nick f rest ≡ true
    → mention_here f nick (found ++ rest) ≡ true
unfolding mention_here
mention_here-append f nick found rest h k =
    ap (mention_end f) (behind_nick-append f nick found rest h) ∙ k

mention-Mentions :
    (f : Folding) (nick text : Text) → mention f nick text ≡ true → Mentions f nick text
unfolding mention
mention-Mentions f nick text h = elim (Bool-cases (mention_here f nick text)) [
  | inl now ↦
      let (rest, here, ends) = mention_here-Found f nick text now in
      record {
        before = [];
        found = here.found;
        after = rest;
        whole = here.whole;
        same = here.same;
        starts = refl;
        ends = ends;
      }
  | inr not_now ↦
      let b = mention_later-Behind f nick text (ground arith) in
      record {
        before = b.first ∷ b.others;
        found = b.here.found;
        after = b.rest;
        whole = b.whole ∙ ap (◌++◌ (b.first ∷ b.others)) b.here.whole;
        same = b.here.same;
        starts = b.starts;
        ends = b.ends;
      }
]

mention-append :
    (f : Folding) (nick before s : Text)
    → starts_nick f before ≡ true
    → mention_here f nick s ≡ true
    → mention f nick (before ++ s) ≡ true
unfolding mention
mention-append f nick [] s h k = rw k
mention-append f nick (c ∷ before) s h k =
    let later = mention_later-append f nick c before s h k in ground (arith, later)

-- The regular expression matches a text exactly when the nick stands in it, up to case, with no
-- character of `[a-z0-9_]`, up to case, on either side. Any other character may stand there, also a
-- letter beyond ASCII that folds to none of these.
pub mention_iff :
    (f : Folding) (nick text : Text) → (mention f nick text ≡ true) ↔ Mentions f nick text
mention_iff f nick text = (
  mention-Mentions f nick text,
  λ m.
      ap (mention f nick) m.whole
      ∙ mention-append f nick m.before (m.found ++ m.after) m.starts
          (mention_here-append f nick m.found m.after m.same m.ends),
)
