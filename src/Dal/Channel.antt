-- ===== src/Dal/Channel.antt =====
-- pkg/dal/channel.go: channel names and the list of joined channels.
pub mod Normal
pub mod Validate
use chatta.Prelude.{
  ltb, ◌==◌, if◌then◌else◌, within, length, take, any, ℕ, Bool, true, false, not, ◌&&◌, ◌||◌,
  Option, none, some, List, [], ◌∷◌,
}
use chatta.Text.Basic.{Text, codes, eq_text, trim_prefix}
use chatta.Text.Trim.{trim, trim_space}
use chatta.Text.Case.{Unicode, to_lower}
use chatta.Common.{ChannelMembership}

-- The class `[a-z0-9-]`.
unfoldable pub is_channel_char : ℕ → Bool
is_channel_char c = within b'a' b'z' c || within b'0' b'9' c || c == b'-'

abbrev pub is_dash : ℕ → Bool
is_dash c = c == b'-'

-- `invalidChannel.ReplaceAllString(name, "-")`: each longest run of other code points becomes one
-- dash. The flag says that the code point before was in such a run.
unfoldable pub replace_from : Bool → Text → Text
replace_from inside [] = []
replace_from inside (c ∷ s) =
    let rest = replace_from (not (is_channel_char c)) s in
    if is_channel_char c then c ∷ rest else if inside then rest else b'-' ∷ rest

unfoldable pub replace_invalid : Text → Text
replace_invalid = replace_from false

-- The name without its '#', and before the default and the limit.
unfoldable pub base_name : Unicode → Text → Text
unfolding replace_invalid
base_name u name =
    trim is_dash (replace_invalid (trim_prefix (to_lower u (trim_space name)) (b'#' ∷ [])))

abbrev pub or_lobby : Text → Text
or_lobby [] = codes "lobby"
or_lobby (c ∷ s) = c ∷ s

-- The name is ASCII here, so its bytes are its code points.
abbrev pub limit : Text → Text
limit name = if ltb 47 (length name) then take 47 name else name

unfoldable pub normalize_channel : Unicode → Text → Text
unfolding base_name
normalize_channel u name = b'#' ∷ limit (or_lobby (base_name u name))

pub data ChannelError : Type 0 where
  duplicate_channel : Text → ChannelError
  home_channel_must_be_first : ChannelError
  cannot_part_home_channel : ChannelError

abbrev pub member : Text → List Text → Bool
member n = any (eq_text n)

-- The loop of `ValidateChannels`; `first` is `i == 0`, and `none` is the nil error.
unfoldable pub validate_from :
    Unicode → Text → Bool → List Text → List ChannelMembership → Option ChannelError
validate_from u expected first seen [] = none
validate_from u expected first seen (c ∷ cs) =
    let n = normalize_channel u c.name in
    let rest = validate_from u expected false (n ∷ seen) cs in
    if member n seen
    then some (duplicate_channel n)
    else if first && not (eq_text n expected)
    then some home_channel_must_be_first
    else rest

unfoldable pub validate_channels : Unicode → List ChannelMembership → Text → Option ChannelError
unfolding validate_from
validate_channels u [] home = none
validate_channels u (c ∷ cs) home = validate_from u (normalize_channel u home) true [] (c ∷ cs)

unfoldable pub can_part : Unicode → Text → Text → Option ChannelError
can_part u channel home =
    if eq_text (normalize_channel u channel) (normalize_channel u home)
    then some cannot_part_home_channel
    else none
