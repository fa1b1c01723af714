-- ===== src/Services/Message.antt =====
-- pkg/services/message.go: sending in parts, and reading the inbox behind its cursor. What `Ensure`
-- gives and what the supervisor replies are arguments.
pub mod Parts
pub mod Sending
pub mod Inbox
pub mod Watch
use chatta.Prelude.{
  ltb, ◌==◌, if◌then◌else◌, ℕ, suc, ◌+◌, Bool, true, false, not, ◌&&◌, ◌||◌, Option, none, some,
  List, [], ◌∷◌, ◌++◌, map,
}
use chatta.Text.Basic.{Text, codes, eq_text, has_prefix}
use chatta.Text.Trim.{trim_space, trim_left}
use chatta.Text.Case.{Unicode}
use chatta.Text.Utf8.{rune_len}
use chatta.Common.{ChatSession, ChannelMember, ChannelMembers}
use chatta.Dal.State.{is_empty}
use chatta.Dal.Channel.{normalize_channel}
use chatta.Dal.Store.{split_lines}
use chatta.Services.Channel.{in_channel}
use chatta.Services.Control.{
  ControlRequest, ControlCode, Op, Reply, lost, got, Outcome, done, refused,
}

-- `if current.Len() > 0 { out = append(out, current.String()) }`
abbrev flush : Text → List Text → List Text
flush [] out = out
flush (c ∷ current) out = (c ∷ current) ∷ out

-- One more character: in a new part if the part before is full, else at the end of it.
abbrev next_part : Bool → Text → ℕ → ℕ → ℕ → (Text → ℕ → List Text) → List Text
next_part true current size c n next = current ∷ next (c ∷ []) n
next_part false current size c n next = next (current ++ c ∷ []) (size + n)

-- The loop over one line, with the part that is being written and its size in bytes.
unfoldable pub split_line : ℕ → Text → ℕ → Text → List Text
split_line limit current size [] = flush current []
split_line limit current size (c ∷ s) =
    let n = rune_len c in
    let full = ltb limit (size + n) && not (is_empty current) in
    next_part full current size c n (λ current' size'. split_line limit current' size' s)

abbrev is_blank : Text → Bool
is_blank line = is_empty (trim_space line)

unfoldable pub split_from : ℕ → List Text → List Text
split_from limit [] = []
split_from limit (l ∷ ls) =
    let later = split_from limit ls in
    if is_blank l then later else split_line limit [] 0 l ++ later

unfoldable pub split_utf8 : Text → ℕ → List Text
split_utf8 text limit = split_from limit (split_lines text)

abbrev pub part_request : Text → Text → ControlRequest
part_request target part = record { op = Op.privmsg; target = target; text = part; reason = [] }

-- The requests sent, and the error of the command.
pub record Sent : Type 0 where
  pub requests : List ControlRequest
  pub error : Option Text

abbrev also_sent : ControlRequest → Sent → Sent
also_sent r later = record later { requests = r ∷ later.requests }

-- The error that a reply to one part stands for.
abbrev pub send_error : Reply → Option Text
send_error (lost e) = some (codes "send: " ++ e)
send_error (got r) = if r.ok then none else some (codes "send: " ++ r.error)

abbrev pub dm_error : Text → Reply → Option Text
dm_error nick (lost e) = some e
dm_error nick (got r) = elim r.code [
  | ControlCode.no_such_nick ↦
      if r.ok then none else some (codes "direct message target " ++ (nick ++ codes " is absent"))
  | _ ↦ if r.ok then none else some r.error
]

abbrev pub sent_part : ControlRequest → Option Text → Sent → Sent
sent_part r (some e) later = record { requests = r ∷ []; error = some e }
sent_part r none later = also_sent r later

-- The loop over the parts. `ask` has the reply to the n-th request.
unfoldable pub send_parts : (ℕ → Reply) → (Reply → Option Text) → Text → ℕ → List Text → Sent
send_parts ask fault target n [] = record { requests = []; error = none }
send_parts ask fault target n (p ∷ ps) =
    sent_part (part_request target p) (fault (ask n)) (send_parts ask fault target (suc n) ps)

abbrev unsent : Text → Sent
unsent e = record { requests = []; error = some e }

abbrev some_parts : (ℕ → Reply) → (Reply → Option Text) → Text → List Text → Sent
some_parts ask fault target [] = unsent (codes "message must contain non-whitespace text")
some_parts ask fault target (p ∷ ps) = send_parts ask fault target 0 (p ∷ ps)

abbrev pub target_of : Unicode → ChatSession → Text → Text
target_of u st [] = st.home_channel.name
target_of u st (c ∷ channel) = normalize_channel u (c ∷ channel)

abbrev not_in : Text → Text
not_in target = codes "not in " ++ (target ++ (codes " — run: chatta chat join " ++ target))

unfoldable pub send : Unicode → Outcome ChatSession → (ℕ → Reply) → Text → Text → Sent
send u (refused e) ask channel text = unsent e
send u (done st) ask channel text =
    let target = target_of u st channel in
    if not (in_channel target st.channels)
    then unsent (not_in target)
    else some_parts ask send_error target (split_utf8 text 400)

unfoldable pub dm : Outcome ChatSession → (ℕ → Reply) → Text → Text → Sent
dm (refused e) ask nick text = unsent e
dm (done st) ask nick text =
    if has_prefix nick (codes "#") || eq_text nick st.nick
    then unsent (codes "dm takes another nick")
    else some_parts ask (dm_error nick) nick (split_utf8 text 400)

-- `strings.TrimLeft(n, "@+")`
abbrev is_mark : ℕ → Bool
is_mark c = c == b'@' || (c == b'+')

abbrev member_of : ChatSession → Text → ChannelMember
member_of st n =
    let nick = trim_left is_mark n in record { nick = nick; you = eq_text nick st.nick }

abbrev members_reply : ChatSession → Text → Reply → Outcome ChannelMembers
members_reply st target (lost e) = refused e
members_reply st target (got r) =
    if not r.ok
    then refused (codes "no NAMES reply — run: chatta chat health")
    else done (record { channel = target; members = map (member_of st) r.members })

unfoldable pub members :
    Unicode → Outcome ChatSession → (ControlRequest → Reply) → Text → Outcome ChannelMembers
members u (refused e) ask channel = refused e
members u (done st) ask channel =
    let target = target_of u st channel in
    if not (in_channel target st.channels)
    then refused (not_in target)
    else members_reply st target
        (ask (record { op = Op.names; target = target; text = []; reason = [] }))

abbrev who_line : ChannelMember → Text
who_line m = if m.you then m.nick ++ codes " (you)" else m.nick

abbrev who_lines : Outcome ChannelMembers → Outcome (List Text)
who_lines (refused e) = refused e
who_lines (done m) = done (map who_line m.members)

unfoldable pub who :
    Unicode → Outcome ChatSession → (ControlRequest → Reply) → Text → Outcome (List Text)
who u st ask channel = who_lines (members u st ask channel)
