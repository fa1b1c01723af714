-- ===== src/Irc/Message.antt =====
-- pkg/dal/irc/message.go: `Message`, `ParseLine`, `FormatLine` and `Nick`.
pub mod Splits
pub mod RoundTrip
use chatta.Prelude.{
  ◌==◌, if◌then◌else◌, ℕ, Bool, true, false, ◌&&◌, ◌||◌, Option, none, some, List, [], ◌∷◌, ◌++◌,
}
use chatta.Text.Basic.{Text, has_prefix, contains, cut}
use chatta.Text.Space.{fields}
use chatta.Text.Trim.{trim_right}
use chatta.Text.Case.{Unicode, to_upper}

pub record Message : Type 0 where
  pub prefix : Text
  pub command : Text
  pub params : List Text
  pub trailing : Bool

-- The set "\r\n" of `strings.TrimRight`.
abbrev pub is_line_end : ℕ → Bool
is_line_end c = c == b'\r' || c == b'\n'

-- The fields in front of a trailing parameter: the command and the middle parameters.
abbrev with_trailing : Unicode → Text → Text → List Text → Option Message
with_trailing u prefix trailing [] = none
with_trailing u prefix trailing (command ∷ middle) = some (record {
  prefix = prefix;
  command = to_upper u command;
  params = middle ++ trailing ∷ [];
  trailing = true;
})

abbrev without_trailing : Unicode → Text → List Text → Option Message
without_trailing u prefix [] = none
without_trailing u prefix (command ∷ params) =
    some
      (record { prefix = prefix; command = to_upper u command; params = params; trailing = false })

-- What follows the prefix, from `rest := line`.
unfoldable pub parse_rest : Unicode → Text → Text → Option Message
parse_rest u prefix rest = elim (cut rest (b' ' ∷ b':' ∷ [])) [
  | none ↦ without_trailing u prefix (fields rest)
  | some (before, trailing) ↦ with_trailing u prefix trailing (fields before)
]

-- `line[1:sp]` and `line[sp+1:]` for a line that starts with the colon `c`.
unfoldable pub parse_prefixed : Unicode → Text → Option Message
unfolding parse_rest
parse_prefixed u [] = none
parse_prefixed u (c ∷ line) = elim (cut (c ∷ line) (b' ' ∷ [])) [
  | none ↦ none
  | some ([], rest) ↦ none
  | some (_ ∷ prefix, rest) ↦ parse_rest u prefix rest
]

-- A line without its line end.
unfoldable pub parse_trimmed : Unicode → Text → Option Message
unfolding parse_prefixed has_prefix
parse_trimmed u [] = none
parse_trimmed u (c ∷ line) =
    if has_prefix (c ∷ line) (b':' ∷ [])
    then parse_prefixed u (c ∷ line)
    else parse_rest u [] (c ∷ line)

unfoldable pub parse_line : Unicode → Text → Option Message
unfolding parse_trimmed
parse_line u line = parse_trimmed u (trim_right is_line_end line)

-- The test for a last parameter that is written behind a colon.
unfoldable pub needs_colon : Text → Bool
unfolding has_prefix contains
needs_colon [] = true
needs_colon p = contains p b' ' || has_prefix p (b':' ∷ [])

-- One parameter with the space in front of it.
unfoldable pub format_param : Bool → Text → Text
unfolding needs_colon
format_param last p = b' ' ∷ ((if last && needs_colon p then b':' ∷ [] else []) ++ p)

-- The loop over the parameters.
unfoldable pub format_params : List Text → Text
unfolding format_param
format_params [] = []
format_params (p ∷ []) = format_param true p
format_params (p ∷ q ∷ ps) = format_param false p ++ format_params (q ∷ ps)

unfoldable pub format_line : Text → List Text → Text
unfolding format_params
format_line command params = command ++ format_params params

-- `Nick`: the text before the first '!', or the whole prefix.
unfoldable pub nick_of : Text → Text
nick_of prefix = elim (cut prefix (b'!' ∷ [])) [ none ↦ prefix | some (nick, _) ↦ nick ]
