-- ===== src/Irc/Conn/Calls.antt =====
-- pkg/dal/irc/conn.go: the calls of a client. A call that waits for the server is two steps: what it
-- does up to its `select`, and what it does when the request is done or the time is up.
use chatta.Prelude.{
  if◌then◌else◌, get_elem?, keep, ℕ, true, false, not, Option, none, some, List, [], ◌∷◌,
}
use chatta.Text.Basic.{Text, codes, eq_text}
use chatta.Irc.Message.{format_line}
use chatta.Irc.Conn.State.{
  Code, Reason, Error, typed, PendingRequest, Conn, send, register_pending, resolve_pending,
  register_key, join_key, names_key, privmsg_key,
}

-- A call returns an error, or nil, or waits for a request.
pub data Progress : Type 0 where
  returned : Option Error → Progress
  waiting : ℕ → Progress

-- A write, then waiting for request `r` under `key`; a write that fails resolves the request.
abbrev pub sent_or_resolved : Text → ℕ → Conn × Option Error → Conn × Progress
sent_or_resolved key r (c, none) = (c, waiting r)
sent_or_resolved key r (c, some e) = (resolve_pending key (some e) c, returned (some e))

abbrev pub request : Text → Text → Option Text → Conn → Conn × Progress
request key line w c = let (d, r) = register_pending key c in sent_or_resolved key r (send w line d)

abbrev pub not_registered_error : Error
not_registered_error = typed Code.not_registered Reason.no_registration

unfoldable pub join : Text → Option Text → Conn → Conn × Progress
join channel w c =
    if c.registered
    then request (join_key channel) (format_line (codes "JOIN") (channel ∷ [])) w c
    else (c, returned (some not_registered_error))

unfoldable pub names : Text → Option Text → Conn → Conn × Progress
names channel w c =
    if c.registered
    then request (names_key channel) (format_line (codes "NAMES") (channel ∷ [])) w c
    else (c, returned (some not_registered_error))

-- `wait` and the end of `Names`: when the request is done, its error and its names.
abbrev pub done_result : Option PendingRequest → Option (Option Error × List Text)
done_result none = none
done_result (some req) = if req.done then some (req.err, req.names_collected) else none

unfoldable pub wait_done : ℕ → Conn → Option (Option Error × List Text)
wait_done r c = done_result (get_elem? c.requests r)

-- `wait`: when the time is up. The request stays in the table.
abbrev pub wait_timeout : Error
wait_timeout = typed Code.timeout Reason.request_timed_out

abbrev pub without : Text → List Text → List Text
without channel = keep (λ name. not (eq_text channel name))

abbrev pub part_sent : Text → Conn × Option Error → Conn × Option Error
part_sent channel (c, some e) = (c, some e)
part_sent channel (c, none) = (record c { channels = without channel c.channels }, none)

unfoldable pub part : Text → Text → Option Text → Conn → Conn × Option Error
part channel reason w c =
    part_sent channel (send w (format_line (codes "PART") (channel ∷ reason ∷ [])) c)

unfoldable pub privmsg : Text → Text → Option Text → Conn → Conn × Option Error
privmsg target text w = send w (format_line (codes "PRIVMSG") (target ∷ text ∷ []))

unfoldable pub privmsg_dm : Text → Text → Option Text → Conn → Conn × Progress
unfolding privmsg
privmsg_dm target text w c =
    request (privmsg_key target) (format_line (codes "PRIVMSG") (target ∷ text ∷ [])) w c

-- No rejection in time: the message counts as delivered.
unfoldable pub privmsg_dm_timeout : Text → Conn → Conn × Option Error
privmsg_dm_timeout target c = (resolve_pending (privmsg_key target) none c, none)

unfoldable pub quit : Text → Option Text → Conn → Conn × Option Error
quit reason w = send w (format_line (codes "QUIT") (reason ∷ []))

-- The payload is the time in nanoseconds, printed.
unfoldable pub ping : Text → Option Text → Conn → Conn × Option Error
ping payload w = send w (format_line (codes "PING") (payload ∷ []))

-- `Dial` after the socket is open, up to its `select`: the two writes of the registration.
abbrev pub fresh : Text → ℕ → Conn
fresh nick now = record {
  nick = nick;
  registered = false;
  channels = [];
  last_pong = 0;
  last_activity = now;
  pending = [];
  requests = [];
  listening = false;
  received = [];
  written = [];
}

-- The USER line follows if the NICK line was written.
abbrev pub nick_sent : Text → Option Text → Conn × Option Error → Conn × Option Error
nick_sent user w (c, some e) = (c, some e)
nick_sent user w (c, none) =
    send w (format_line (codes "USER") (user ∷ codes "0" ∷ codes "*" ∷ user ∷ [])) c

abbrev pub user_sent : ℕ → Conn × Option Error → Conn × Progress
user_sent r (c, some e) = (c, returned (some e))
user_sent r (c, none) = (c, waiting r)

unfoldable pub dial : Text → Text → ℕ → Option Text → Option Text → Conn × Progress
dial nick user now w w' =
    let (c, r) = register_pending register_key (fresh nick now) in
    user_sent r (nick_sent user w' (send w (format_line (codes "NICK") (nick ∷ [])) c))

-- `Dial`: when the time is up before the registration.
abbrev pub dial_timeout : Error
dial_timeout = typed Code.timeout Reason.registration_timed_out

-- `OnMessage`
unfoldable pub on_message : Conn → Conn
on_message c = record c { listening = true }
