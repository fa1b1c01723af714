-- ===== src/Tests/DalTests.antt =====
-- Tests of channel names.
use chatta.Prelude.{◌≡◌, refl, ◌↔◌, ◌⊎◌, true, false, none, some, List, [], ◌∷◌}
use chatta.Text.Basic.{Text, codes, trim_prefix, has_prefix}
use chatta.Text.Space.{is_space}
use chatta.Text.Trim.{ends_outside, trim_space}
use chatta.Text.Case.{to_lower, to_lower_rune}
use chatta.Common.{ChannelMembership}
use chatta.Dal.Channel.{
  is_dash, is_channel_char, replace_from, normalize_channel, cannot_part_home_channel, can_part,
  validate_channels,
}
use chatta.Dal.Channel.Normal.{IsName, normalize_channel-IsName}
use chatta.Dal.Channel.Validate.{
  Distinct, names, StartsWith, validate_channels_iff, can_part_home_iff,
}
use chatta.Tests.Samples.{ascii, agents, membership}

normalize_mixed : normalize_channel ascii (codes " #My  Project! ") ≡ codes "#my-project"
unfolding normalize_channel is_channel_char replace_from trim_prefix has_prefix to_lower
    to_lower_rune trim_space is_space
normalize_mixed = refl

normalize_empty : normalize_channel ascii (codes "##--") ≡ codes "#lobby"
unfolding normalize_channel is_channel_char replace_from trim_prefix has_prefix to_lower
    to_lower_rune trim_space is_space
normalize_empty = refl

-- 46 letters, a dash and more: the limit cuts behind the dash.
abbrev long_name : Text
long_name = codes "aaaaaaaaaaaaaaaaaaaaaaaaaaaaaaaaaaaaaaaaaaaaaa-project"

long_name_ends : ends_outside is_dash (normalize_channel ascii long_name) ≡ false
unfolding normalize_channel is_channel_char replace_from trim_prefix has_prefix to_lower
    to_lower_rune trim_space is_space
long_name_ends = refl

normalize_channel-IsName_example :
    (n : Text) × (normalize_channel ascii long_name ≡ b'#' ∷ n) × IsName n
normalize_channel-IsName_example = normalize_channel-IsName ascii long_name

abbrev two_channels : List ChannelMembership
two_channels = membership agents ∷ membership (codes "#project") ∷ []

validate_channels_iff_example : (validate_channels ascii two_channels agents ≡ none) ↔ (
    (two_channels ≡ [])
    ⊎ (StartsWith (normalize_channel ascii agents) (names ascii two_channels)
        × Distinct (names ascii two_channels)))
validate_channels_iff_example = validate_channels_iff ascii two_channels agents

-- The home channel of a long name can be left.
can_part_home_iff_example :
    (can_part ascii long_name (normalize_channel ascii long_name) ≡ some cannot_part_home_channel)
    ↔ (ends_outside is_dash (normalize_channel ascii long_name) ≡ true)
can_part_home_iff_example = can_part_home_iff ascii long_name
