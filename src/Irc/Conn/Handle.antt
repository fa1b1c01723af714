-- ===== src/Irc/Conn/Handle.antt =====
-- pkg/dal/irc/conn.go and numerics.go: the read loop and `handle`, which acts on one message of the
-- server.
use chatta.Prelude.{
  if◌then◌else◌, any, last?, ℕ, true, not, ◌||◌, Option, none, some, List, [], ◌∷◌, ◌++◌,
}
use chatta.Text.Basic.{Text, codes, eq_text, has_prefix}
use chatta.Text.Space.{fields}
use chatta.Text.Case.{Unicode}
use chatta.Irc.Message.{Message, parse_line, format_line, nick_of}
use chatta.Irc.Conn.Table.{lookup}
use chatta.Irc.Conn.State.{
  Code, Reason, typed, PendingRequest, Received, Conn, send, resolve_pending, update_request,
  register_key, join_key, names_key, privmsg_key,
}

-- The cases of the switch.
pub data Case : Type 0 where
  ping welcome nickname_in_use erroneus_nickname join end_of_names nam_reply : Case
  no_such_nick no_membership privmsg other : Case

-- `switch msg.Command`, with the numerics of numerics.go.
unfoldable pub case_of : Text → Case
case_of command =
    if eq_text command (codes "PING")
    then ping
    else if eq_text command (codes "001")
    then welcome
    else if eq_text command (codes "433")
    then nickname_in_use
    else if eq_text command (codes "432")
    then erroneus_nickname
    else if eq_text command (codes "JOIN")
    then join
    else if eq_text command (codes "366")
    then end_of_names
    else if eq_text command (codes "353")
    then nam_reply
    else if eq_text command (codes "401")
    then no_such_nick
    else if eq_text command (codes "403")
        || eq_text command (codes "473")
        || eq_text command (codes "474")
        || eq_text command (codes "475")
    then no_membership
    else if eq_text command (codes "PRIVMSG")
    then privmsg
    else other

abbrev pub text_or_empty : Option Text → Text
text_or_empty none = []
text_or_empty (some t) = t

-- `params[0]` of a list that is not empty, and "" of one that is.
abbrev pub first_param : List Text → Text
first_param [] = []
first_param (p ∷ ps) = p

-- `attemptedNick`: the parameter before the last.
abbrev pub attempted_nick : List Text → Text
attempted_nick [] = []
attempted_nick (p ∷ []) = []
attempted_nick (p ∷ q ∷ []) = p
attempted_nick (p ∷ q ∷ r ∷ ps) = attempted_nick (q ∷ r ∷ ps)

-- The params that a case wants at least two, or three, of.
unfoldable pub confirm_membership : List Text → Conn → Conn
confirm_membership (_ ∷ channel ∷ _) c =
    resolve_pending (join_key channel) none (resolve_pending (names_key channel) none c)
confirm_membership _ c = c

unfoldable pub refuse_membership : List Text → Conn → Conn
refuse_membership (_ ∷ channel ∷ _) c =
    resolve_pending (join_key channel)
      (some (typed Code.join_failed (Reason.not_confirmed channel))) c
refuse_membership _ c = c

abbrev collected : List Text → PendingRequest → PendingRequest
collected more req = record req { names_collected = req.names_collected ++ more }

unfoldable pub collect_names : List Text → Conn → Conn
collect_names (p ∷ q ∷ channel ∷ ps) c = elim (lookup (names_key channel) c.pending) [
  | none ↦ c
  | some r ↦ record c {
    requests =
        update_request r (collected (fields (text_or_empty (last? (channel ∷ ps))))) c.requests;
  }
]
collect_names _ c = c

abbrev second_param : List Text → Text
second_param (_ ∷ target ∷ _) = target
second_param _ = []

-- The `onMessage` call for a PRIVMSG: a channel message keeps its target, a direct one gets the
-- sender's nick for a target.
unfoldable pub receive : Text → Text → Text → Conn → Conn
receive sender target text c =
    let channel = has_prefix target (b'#' ∷ []) in
    let message : Received = record {
      kind = if channel then codes "channel" else codes "direct";
      target = if channel then target else sender;
      nick = sender;
      text = text;
    } in
    if c.listening then record c { received = c.received ++ message ∷ [] } else c

unfoldable pub echo_join : Text → List Text → Conn → Conn
echo_join sender [] c = c
echo_join sender (channel ∷ ps) c =
    if not (eq_text sender c.nick) || any (eq_text channel) c.channels
    then c
    else record c { channels = channel ∷ c.channels }

unfoldable pub welcomed : List Text → Conn → Conn
welcomed [] c = record c { registered = true }
welcomed (nick ∷ ps) c = record c { registered = true; nick = nick }

unfoldable pub receive_privmsg : Text → List Text → Conn → Conn
receive_privmsg sender (target ∷ text ∷ ps) c =
    receive sender target (text_or_empty (last? (text ∷ ps))) c
receive_privmsg sender _ c = c

-- One case of `handle`, on the message's prefix and parameters. The time and the error of the write
-- are those of the answer to a PING, whose error is ignored.
unfoldable pub handle_case : Case → ℕ → Option Text → Text → List Text → Conn → Conn
handle_case ping now w prefix ps c =
    record ((send w (format_line (codes "PONG") (first_param ps ∷ [])) c).0) { last_pong = now }
handle_case welcome now w prefix ps c = resolve_pending register_key none (welcomed ps c)
handle_case nickname_in_use now w prefix ps c =
    resolve_pending register_key
      (some (typed Code.nick_in_use (Reason.nick_taken (attempted_nick ps)))) c
handle_case erroneus_nickname now w prefix ps c =
    resolve_pending register_key
      (some (
        typed Code.nick_invalid
          (Reason.nick_rejected (attempted_nick ps) (text_or_empty (last? ps)))))
      c
handle_case join now w prefix ps c = echo_join (nick_of prefix) ps c
handle_case end_of_names now w prefix ps c = confirm_membership ps c
handle_case nam_reply now w prefix ps c = collect_names ps c
handle_case no_such_nick now w prefix ps c =
    let target = second_param ps in
    resolve_pending (privmsg_key target)
      (some (typed Code.no_such_nick (Reason.target_absent target))) c
handle_case no_membership now w prefix ps c = refuse_membership ps c
handle_case privmsg now w prefix ps c = receive_privmsg (nick_of prefix) ps c
handle_case other now w prefix ps c = c

unfoldable pub handle : ℕ → Option Text → Message → Conn → Conn
handle now w msg = handle_case (case_of msg.command) now w msg.prefix msg.params

-- One round of `readLoop`: a line that does not parse only counts as activity.
unfoldable pub read_line : Unicode → ℕ → Option Text → Text → Conn → Conn
read_line u now w line c =
    let active = record c { last_activity = now } in
    elim (parse_line u line) [ none ↦ active | some msg ↦ handle now w msg active ]
