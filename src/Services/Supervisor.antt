-- ===== src/Services/Supervisor.antt =====
-- pkg/services/session.go: `controlHandler`, which answers the requests to a supervisor, and the
-- loop of `supervise`, as steps. The handler's pointer to the connection is a flag: it is nil, or
-- it is the connection that the loop holds. What the system does is in the events.
pub mod Loop
pub mod Requests
pub mod Farewell
pub mod Rejoin
pub mod Exits
pub mod Link
pub mod Silence
use chatta.Prelude.{
  ◌==◌, if◌then◌else◌, ℕ, ◌+◌, Bool, true, false, not, Option, none, some, List, [], ◌∷◌, ◌++◌,
}
use chatta.Prelude.Int.{ℤ}
use chatta.Text.Basic.{Text, codes}
use chatta.Irc.Conn.State.{Code, Reason, Error, typed, network, Conn}
use chatta.Irc.Conn.Calls.{Progress, returned, waiting}
use chatta.Irc.Conn.Calls
use chatta.Services.Control.{Op, ControlCode, ControlRequest, ControlResponse}

-- What `fmt` prints for `%q` and for `%d` or `%s` of a number and of a time.
pub record Printing : Type 0 where
  pub quote : Text → Text
  pub number : ℤ → Text
  pub duration : ℕ → Text

-- The last reason for having no connection.
pub data Failure : Type 0 where
  undialled : Error → Failure
  silent : Text → ℤ → ℕ → Failure

pub record Handler : Type 0 where
  pub holds_conn : Bool
  pub failure : Option Failure
  pub generation : ℕ

abbrev pub reason_text : Printing → Reason → Text
reason_text p (Reason.nick_taken n) =
    codes "the nick "
    ++ (p.quote n
        ++ codes
            " is already in use on this server; choose a distinct nick if it belongs to another agent")
reason_text p (Reason.nick_rejected n reason) =
    codes "the nick " ++ (p.quote n ++ (codes " was rejected by the server: " ++ reason))
reason_text p (Reason.target_absent target) =
    codes "direct message target " ++ (p.quote target ++ codes " is absent")
reason_text p (Reason.not_confirmed channel) =
    codes "the server did not confirm membership in " ++ channel
reason_text p Reason.registration_timed_out = codes "registration timed out"
reason_text p Reason.request_timed_out = codes "request timed out"
reason_text p Reason.no_registration = codes "not registered"

abbrev pub error_message : Printing → Error → Text
error_message p (typed code reason) = reason_text p reason
error_message p (network e) = e

abbrev pub failure_text : Printing → Failure → Text
failure_text p (undialled e) = error_message p e
failure_text p (silent host port idle) =
    codes "no response from "
    ++ (host ++ (codes ":" ++ (p.number port ++ (codes " for " ++ p.duration idle))))

-- `setConn` for a connection and for nil, and `setFailure`.
unfoldable pub set_conn : Handler → Handler
set_conn h = record { holds_conn = true; failure = none; generation = h.generation + 1 }

unfoldable pub set_no_conn : Handler → Handler
set_no_conn h = record h { holds_conn = false }

unfoldable pub set_failure : Failure → Handler → Handler
set_failure e h = record h { holds_conn = false; failure = some e }

abbrev pub ok_response : ControlResponse
ok_response = record {
  ok = true;
  error = [];
  code = ControlCode.no_code;
  members = [];
  status = none;
}

abbrev pub refusal : ControlCode → Text → ControlResponse
refusal code e = record { ok = false; error = e; code = code; members = []; status = none }

abbrev pub failure_code : Option Failure → ControlCode
failure_code (some (undialled (typed Code.nick_in_use reason))) = ControlCode.nick_in_use
failure_code (some (undialled (typed Code.nick_invalid reason))) = ControlCode.nick_invalid
failure_code f = ControlCode.not_connected

abbrev pub failure_message : Printing → Option Failure → Text
failure_message p none = codes "not connected"
failure_message p (some f) = failure_text p f

-- `status`, with the connection that the handler has.
unfoldable pub status_response : Printing → Handler → Option Conn → ControlResponse
status_response p h none = refusal (failure_code h.failure) (failure_message p h.failure)
status_response p h (some c) = record ok_response {
  status = some (record {
    connected = true;
    registered = c.registered;
    nick = c.nick;
    channels = c.channels;
    last_pong = c.last_pong;
    generation = h.generation;
    failure = [];
  });
}

abbrev pub typed_code : ControlCode → Code → ControlCode
typed_code fallback Code.not_registered = ControlCode.not_registered
typed_code fallback Code.timeout = ControlCode.timeout
typed_code fallback Code.no_such_nick = ControlCode.no_such_nick
typed_code fallback Code.join_failed = ControlCode.join_failed
typed_code fallback Code.nick_in_use = ControlCode.nick_in_use
typed_code fallback Code.nick_invalid = fallback

unfoldable pub map_transport_err : Printing → Error → ControlCode → ControlResponse
map_transport_err p (typed code reason) fallback =
    refusal (typed_code fallback code) (reason_text p reason)
map_transport_err p (network e) fallback = refusal fallback e

-- The end of a request: the error of the connection's call, or nil, and the names it gave.
abbrev pub answer_of : Printing → ControlCode → Option Error × List Text → ControlResponse
answer_of p fallback (some e, names) = map_transport_err p e fallback
answer_of p fallback (none, names) = record ok_response { members = names }

-- A handler answers a request at once, or when the connection's request with this number is done.
pub data Answering : Type 0 where
  answers : ControlResponse → Answering
  awaits : ControlCode → ℕ → Answering

abbrev pub not_connected_response : ControlResponse
not_connected_response = refusal ControlCode.not_connected (codes "not connected")

abbrev pub answered_call : Printing → ControlCode → Conn × Progress → Conn × Answering
answered_call p fallback (c, returned e) = (c, answers (answer_of p fallback (e, [])))
answered_call p fallback (c, waiting r) = (c, awaits fallback r)

abbrev pub called : Printing → ControlCode → Conn × Option Error → Conn × Answering
called p fallback (c, e) = (c, answers (answer_of p fallback (e, [])))

-- The response to a join, when the connection's request is done.
abbrev pub join_response : Printing → Option (Option Error × List Text) → Option ControlResponse
join_response p none = none
join_response p (some (e, names)) = some (answer_of p ControlCode.join_failed (e, []))

-- The error of a message to a channel is always reported as no connection.
abbrev pub told : Printing → Conn × Option Error → Conn × Answering
told p (c, none) = (c, answers ok_response)
told p (c, some e) = (c, answers (refusal ControlCode.not_connected (error_message p e)))

unfoldable pub is_channel : Text → Bool
is_channel [] = false
is_channel (c ∷ target) = c == b'#'

abbrev pub quitted : Conn × Option Error → Conn × Answering
quitted (c, e) = (c, answers ok_response)

-- The requests that use the connection; those on a Codex binding are in Services.Codex.Binding.
abbrev pub on_conn : Printing → Op → ControlRequest → Option Text → Conn → Conn × Answering
on_conn p Op.join r w c = answered_call p ControlCode.join_failed (Calls.join r.target w c)
on_conn p Op.part r w c = called p ControlCode.join_failed (Calls.part r.target r.reason w c)
on_conn p Op.names r w c = answered_call p ControlCode.join_failed (Calls.names r.target w c)
on_conn p Op.privmsg r w c =
    if is_channel r.target
    then told p (Calls.privmsg r.target r.text w c)
    else answered_call p ControlCode.no_such_nick (Calls.privmsg_dm r.target r.text w c)
on_conn p Op.quit r w c = quitted (Calls.quit r.reason w c)
on_conn p op r w c = (c, answers ok_response)

abbrev pub without_conn : Op → ControlResponse
without_conn Op.quit = ok_response
without_conn op = not_connected_response

abbrev pub transported :
    Printing → Op → ControlRequest → Option Text → Option Conn → Option Conn × Answering
transported p op r w none = (none, answers (without_conn op))
transported p op r w (some c) = let (d, a) = on_conn p op r w c in (some d, a)

abbrev pub unknown_op : Text → ControlResponse
unknown_op op = refusal ControlCode.bad_request (codes "unknown op: " ++ op)

-- `codex` has what the three requests on the Codex binding answer.
abbrev pub dispatch :
    Printing
    → (Op → ControlResponse)
    → Handler
    → Op
    → ControlRequest
    → Option Text
    → Option Conn
    → Option Conn × Answering
dispatch p codex h Op.status r w c = (c, answers (status_response p h c))
dispatch p codex h Op.codex_bind r w c = (c, answers (codex Op.codex_bind))
dispatch p codex h Op.codex_status r w c = (c, answers (codex Op.codex_status))
dispatch p codex h Op.codex_unbind r w c = (c, answers (codex Op.codex_unbind))
dispatch p codex h Op.join r w c = transported p Op.join r w c
dispatch p codex h Op.part r w c = transported p Op.part r w c
dispatch p codex h Op.names r w c = transported p Op.names r w c
dispatch p codex h Op.privmsg r w c = transported p Op.privmsg r w c
dispatch p codex h Op.quit r w c = transported p Op.quit r w c
dispatch p codex h (Op.unknown op) r w c = (c, answers (unknown_op op))

-- `Handle`, up to where it waits; `w` is the error of its write.
unfoldable pub handle_request :
    Printing
    → (Op → ControlResponse)
    → Handler
    → ControlRequest
    → Option Text
    → Option Conn
    → Option Conn × Answering
handle_request p codex h r w c = dispatch p codex h r.op r w c
