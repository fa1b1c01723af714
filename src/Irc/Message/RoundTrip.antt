-- ===== src/Irc/Message/RoundTrip.antt =====
-- Reading back what `FormatLine` writes.
use chatta.Prelude.{
  Bool-cases, ℕ, ◌≡◌, refl, ap, ◌∙◌, ◌≢◌, inl, inr, true, false, Option, none, some, List, [], ◌∷◌,
  ◌++◌, append-nil, arith,
}
use chatta.Text.Basic.{Text, cut}
use chatta.Text.Space.{is_word, solid, ne_of_not_space, head-solid, is_word-solid}
use chatta.Text.Trim.{trim_right, trim_right-append, trim_right-cons}
use chatta.Text.Case.{Unicode, to_upper}
use chatta.Irc.Message.{
  Message, parse_line, parse_trimmed, parse_rest, is_line_end, needs_colon, format_params,
  format_line,
}
use chatta.Irc.Message.Splits.{
  marker, is_middle, IsLast, Sendable, sends_trailing, split_params, joined, front, cut-solid,
  middle_parts, with_joined, cut-format_params, fields-joined, Splits, is_middle-is_word,
  split_params-Splits, joined-format_params,
}

-- The message that a line with this command and these parameters stands for.
abbrev pub sent : Unicode → Text → List Text → Message
sent u command ps = record {
  prefix = [];
  command = to_upper u command;
  params = ps;
  trailing = sends_trailing ps;
}

parse_rest_of_cut :
    (u : Unicode) (w rest : Text) (ps : List Text) (o : Option (List Text × Text))
    → is_word w ≡ true
    → Splits ps o
    → cut (w ++ rest) marker ≡ front w (with_joined o)
    → (o ≡ none → rest ≡ joined ps)
    → parse_rest u [] (w ++ rest) ≡ some (sent u w ps)
unfolding parse_rest
parse_rest_of_cut u w rest ps none h (words, flag) e whole =
    rw (e, parse_rest) (rw (whole refl, fields-joined w ps h words, flag))
parse_rest_of_cut u w rest ps (some (ms, t)) h (words, params, flag) e whole =
    rw (e, parse_rest) (rw (fields-joined w ms h words, params, flag))

parse_rest-format :
    (u : Unicode) (command : Text) (ps : List Text)
    → is_middle command ≡ true
    → Sendable ps
    → parse_rest u [] (format_line command ps) ≡ some (sent u command ps)
unfolding format_line
parse_rest-format u command ps h hs =
    let word = is_middle-is_word command h in
    parse_rest_of_cut u command (format_params ps) ps (split_params ps) word
      (split_params-Splits ps hs)
      (cut-solid command (format_params ps) (is_word-solid command word)
        ∙ ap (front command) (cut-format_params ps hs))
      (joined-format_params ps)

trim_line_end : (c : ℕ) → is_line_end c ≡ false → trim_right is_line_end (c ∷ []) ≡ c ∷ []
unfolding trim_right
trim_line_end c h = rw h

ne_cons : (c : ℕ) (w : Text) → c ∷ w ≢ []
ne_cons c w = λ e. cc

solid-trim : (w : Text) → solid w ≡ true → trim_right is_line_end w ≡ w
solid-trim [] h = unfold trim_right in refl
solid-trim (c ∷ []) h =
    let (_, cr, lf) = ne_of_not_space c (head-solid c [] h).0 in trim_line_end c (rw (cr, lf))
solid-trim (c ∷ d ∷ w) h =
    trim_right-cons is_line_end c (d ∷ w) (ne_cons d w)
      (solid-trim (d ∷ w) (head-solid c (d ∷ w) h).1)

format_params-ne-nil : (p : Text) (ps : List Text) → format_params (p ∷ ps) ≢ []
unfolding format_params
format_params-ne-nil p [] = λ e. cc
format_params-ne-nil p (q ∷ ps) = λ e. cc

marked-trim :
    (p : Text)
    → trim_right is_line_end p ≡ p
    → trim_right is_line_end (b' ' ∷ b':' ∷ p) ≡ b' ' ∷ b':' ∷ p
marked-trim [] h = unfold trim_right in refl
marked-trim (c ∷ p) h = trim_right-append is_line_end marker (c ∷ p) (ne_cons c p) h

plain-trim :
    (p : Text) → IsLast p → needs_colon p ≡ false → trim_right is_line_end (b' ' ∷ p) ≡ b' ' ∷ p
plain-trim [] h e = unfold trim_right in refl
plain-trim (c ∷ p) h e = trim_right-cons is_line_end b' ' (c ∷ p) (ne_cons c p) h.0

format_params-trim :
    (p : Text) (ps : List Text)
    → Sendable (p ∷ ps)
    → trim_right is_line_end (format_params (p ∷ ps)) ≡ format_params (p ∷ ps)
unfolding format_params
format_params-trim p [] h = elim (Bool-cases (needs_colon p)) [
  | inl colon ↦ rw colon (marked-trim p h.0)
  | inr plain ↦ rw plain (plain-trim p h plain)
]
format_params-trim p (q ∷ ps) h =
    trim_right-append is_line_end (b' ' ∷ p) (format_params (q ∷ ps)) (format_params-ne-nil q ps)
      (format_params-trim q ps h.1)

format_line-trim :
    (w : Text) (ps : List Text)
    → is_word w ≡ true
    → Sendable ps
    → trim_right is_line_end (format_line w ps) ≡ format_line w ps
unfolding format_line
format_line-trim w [] h hs =
    unfold format_params in rw append-nil (solid-trim w (is_word-solid w h))
format_line-trim w (p ∷ ps) h hs =
    trim_right-append is_line_end w (format_params (p ∷ ps)) (format_params-ne-nil p ps)
      (format_params-trim p ps hs)

parse_trimmed-plain :
    (u : Unicode) (w rest : Text)
    → is_middle w ≡ true
    → parse_trimmed u (w ++ rest) ≡ parse_rest u [] (w ++ rest)
unfolding parse_trimmed
parse_trimmed-plain u [] rest h = ground arith
parse_trimmed-plain u (c ∷ w) rest h = rw ((middle_parts c w h).1)

-- `ParseLine` reads a line of `FormatLine` back as the upper-cased command with exactly the
-- parameters that were given, no prefix, and the trailing mark set exactly when the last parameter
-- was written behind a colon. The command and the parameters before the last are words that do not
-- start with a colon; the last one does not end in a line end, and is a word unless it is empty,
-- holds a space or starts with a colon.
pub parse_line-format_line :
    (u : Unicode) (command : Text) (ps : List Text)
    → is_middle command ≡ true
    → Sendable ps
    → parse_line u (format_line command ps) ≡ some (sent u command ps)
unfolding parse_line format_line
parse_line-format_line u command ps h hs =
    ap (parse_trimmed u) (format_line-trim command ps (is_middle-is_word command h) hs)
    ∙ parse_trimmed-plain u command (format_params ps) h
    ∙ parse_rest-format u command ps h hs
