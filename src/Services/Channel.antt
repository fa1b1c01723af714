-- ===== src/Services/Channel.antt =====
-- pkg/services/channel.go: joining and leaving a channel.
pub mod Membership
use chatta.Prelude.{
  if◌then◌else◌, any, keep, ℕ, Bool, true, not, Option, none, some, List, [], ◌∷◌, ◌++◌,
}
use chatta.Text.Basic.{Text, codes, eq_text}
use chatta.Text.Case.{Unicode}
use chatta.Common.{ChatSession, ChannelMembership}
use chatta.Dal.Channel.{ChannelError, normalize_channel, can_part}
use chatta.Services.Control.{ControlRequest, Op, Reply, lost, got, Outcome, done, refused}

pub data ChangeError : Type 0 where
  failed : Text → ChangeError
  not_allowed : ChannelError → ChangeError

-- What a command does: the request it sends, the state it saves, and its error.
pub record Change : Type 0 where
  pub request : Option ControlRequest
  pub saved : Option ChatSession
  pub error : Option ChangeError

abbrev pub in_channel : Text → List ChannelMembership → Bool
in_channel target = any (λ c. eq_text c.name target)

abbrev pub join_request : Text → ControlRequest
join_request target = record { op = Op.join; target = target; text = []; reason = [] }

abbrev pub with_channel : ℕ → Text → ChatSession → ChatSession
with_channel now target st = record st {
  channels =
      st.channels
      ++ (record { name = target; kind = codes "custom"; joined_at = now; confirmed = true }) ∷ [];
}

abbrev stopped : Option ControlRequest → ChangeError → Change
stopped request e = record { request = request; saved = none; error = some e }

-- `dal.SaveState`, whose error is the argument.
abbrev saving : ControlRequest → ChatSession → Option Text → Change
saving request st none = record { request = some request; saved = some st; error = none }
saving request st (some e) = stopped (some request) (failed e)

abbrev join_reply : ℕ → (ChatSession → Option Text) → Text → ChatSession → Reply → Change
join_reply now save target st (lost e) = stopped (some (join_request target)) (failed e)
join_reply now save target st (got r) =
    if not r.ok
    then stopped (some (join_request target))
        (failed (codes "the server did not confirm membership in " ++ target))
    else saving (join_request target) (with_channel now target st)
        (save (with_channel now target st))

unfoldable pub join :
    Unicode
    → ℕ
    → (ChatSession → Option Text)
    → Outcome ChatSession
    → (ControlRequest → Reply)
    → Text
    → Change
join u now save (refused e) ask channel = stopped none (failed e)
join u now save (done st) ask channel =
    let target = normalize_channel u channel in
    if in_channel target st.channels
    then record { request = none; saved = none; error = none }
    else join_reply now save target st (ask (join_request target))

abbrev pub part_request : Text → Text → ControlRequest
part_request target reason = record { op = Op.part; target = target; text = []; reason = reason }

abbrev pub without_channel : Text → ChatSession → ChatSession
without_channel target st = record st {
  channels = keep (λ c. not (eq_text c.name target)) st.channels;
}

-- Only an error of the request counts, not what the response says.
abbrev part_reply : (ChatSession → Option Text) → Text → Text → ChatSession → Reply → Change
part_reply save target reason st (lost e) = stopped (some (part_request target reason)) (failed e)
part_reply save target reason st (got r) =
    saving (part_request target reason) (without_channel target st)
      (save (without_channel target st))

abbrev part_allowed :
    Unicode
    → (ChatSession → Option Text)
    → ChatSession
    → (ControlRequest → Reply)
    → Text
    → Text
    → Option ChannelError
    → Change
part_allowed u save st ask channel reason (some e) = stopped none (not_allowed e)
part_allowed u save st ask channel reason none =
    let target = normalize_channel u channel in
    part_reply save target reason st (ask (part_request target reason))

unfoldable pub part :
    Unicode
    → (ChatSession → Option Text)
    → Outcome ChatSession
    → (ControlRequest → Reply)
    → Text
    → Text
    → Change
part u save (refused e) ask channel reason = stopped none (failed e)
part u save (done st) ask channel reason =
    part_allowed u save st ask channel reason (can_part u channel st.home_channel.name)
