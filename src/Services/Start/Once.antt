-- ===== src/Services/Start/Once.antt =====
-- pkg/services/session.go: `startOnce`, one attempt of a start. What it finds at each turn of its
-- loop is a `Turn`; the list ends with the time.
pub mod Ready
use chatta.Prelude.{
  ◌==◌, if◌then◌else◌, ℕ, Bool, true, false, not, ◌&&◌, Option, none, some, List, [], ◌∷◌, ◌++◌,
}
use chatta.Prelude.Int.{ℤ}
use chatta.Text.Basic.{Text, codes, contains_text}
use chatta.Text.Trim.{trim_space, trim_right}
use chatta.Common.{ChatSession, HealthReport}
use chatta.Dal.State.{is_empty}
use chatta.Dal.Store.{split_lines}
use chatta.Dal.Process.{Processes, is_verified_supervisor}
use chatta.Services.Control.{ControlCode, Reply, lost, got, Outcome, done, refused}
use chatta.Services.Start.{StartError, nick_taken, not_ready}

-- The context's error, the reply to a status request, the health, and the processes.
pub record Turn : Type 0 where
  pub cancelled : Option Text
  pub reply : Reply
  pub report : HealthReport
  pub processes : Processes

-- The supervisor's log: its path, and its content where it can be read.
pub record SupervisorLog : Type 0 where
  pub path : Text
  pub content : Option Text

pub record Attempt : Type 0 where
  pub spawn : Outcome ℤ
  pub fingerprint : Text
  pub save : Option Text
  pub turns : List Turn
  pub supervisor_log : SupervisorLog

-- Whether the attempt calls `StopVerifiedSupervisor`, the state it saved, and its error.
pub record Tried : Type 0 where
  pub stops : Bool
  pub saved : Option ChatSession
  pub error : Option StartError

abbrev pub is_line_feed : ℕ → Bool
is_line_feed c = c == b'\n'

abbrev is_error_line : Text → Bool
is_error_line line = contains_text line (codes "level=ERROR")

-- The last line that has an error, and nothing where there is none.
abbrev later_or : Text → Text → Text
later_or line [] = if is_error_line line then line else []
later_or line (c ∷ later) = c ∷ later

abbrev last_error : List Text → Text
last_error [] = []
last_error (line ∷ lines) = later_or (trim_space line) (last_error lines)

-- `none` is an error of reading the log.
unfoldable pub supervisor_log_reason : Option Text → Text
supervisor_log_reason none = []
supervisor_log_reason (some text) = last_error (split_lines (trim_right is_line_feed text))

abbrev pub exit_message : Text → Text → Text
exit_message path [] = codes "the chat supervisor exited during startup; inspect " ++ path
exit_message path (c ∷ reason) = codes "the chat supervisor exited during startup: " ++ (c ∷ reason)

abbrev pub late_message : Text → Text → Text
late_message path [] = codes "chat client did not become ready; inspect " ++ path
late_message path (c ∷ detail) = codes "chat client did not become ready: " ++ (c ∷ detail)

abbrev pub or_else : Text → Text → Text
or_else [] t = t
or_else (c ∷ s) t = c ∷ s

-- The detail after a reply.
abbrev pub detail_of : Text → Reply → Text
detail_of detail (lost e) = detail
detail_of detail (got r) = if r.ok then detail else or_else r.error detail

-- The refusals that end the attempt at once.
abbrev pub refused_by : ControlCode → Text → Text → Option StartError
refused_by ControlCode.nick_in_use text detail = some (nick_taken text)
refused_by ControlCode.nick_invalid text detail = some (not_ready detail)
refused_by code text detail = none

abbrev pub refusal_of : Reply → Text → Option StartError
refusal_of (lost e) detail = none
refusal_of (got r) detail = if r.ok then none else refused_by r.code r.error detail

unfoldable pub is_ready : HealthReport → Bool
is_ready r = r.owner && r.supervisor && r.joined_channels && r.server_link && r.membership

abbrev pub stopped_with : ChatSession → StartError → Tried
stopped_with session e = record { stops = true; saved = some session; error = some e }

abbrev pub gone_with : ChatSession → StartError → Tried
gone_with session e = record { stops = false; saved = some session; error = some e }

abbrev pub is_up : ChatSession → Tried
is_up session = record { stops = false; saved = some session; error = none }

abbrev pub after_report : ChatSession → SupervisorLog → Turn → Tried → Tried
after_report session log t later =
    if is_ready t.report
    then is_up session
    else if not (
        is_verified_supervisor t.processes session.supervisor_pid
          session.supervisor_start_fingerprint)
    then gone_with session (not_ready (exit_message log.path (supervisor_log_reason log.content)))
    else later

abbrev pub after_reply : ChatSession → SupervisorLog → Turn → Tried → Option StartError → Tried
after_reply session log t later (some e) = stopped_with session e
after_reply session log t later none = after_report session log t later

abbrev pub in_turn : ChatSession → SupervisorLog → Turn → Text → Tried → Option Text → Tried
in_turn session log t detail later (some e) = stopped_with session (not_ready e)
in_turn session log t detail later none =
    after_reply session log t later (refusal_of t.reply detail)

unfoldable pub await_ready : ChatSession → SupervisorLog → Text → List Turn → Tried
await_ready session log detail [] = stopped_with session (not_ready (late_message log.path detail))
await_ready session log detail (t ∷ ts) =
    let seen = detail_of detail t.reply in
    in_turn session log t seen (await_ready session log seen ts) t.cancelled

abbrev pub unstarted : StartError → Tried
unstarted e = record { stops = false; saved = none; error = some e }

abbrev pub with_supervisor : ℤ → Text → ChatSession → ChatSession
with_supervisor pid fingerprint base = record base {
  supervisor_pid = pid;
  supervisor_start_fingerprint = fingerprint;
}

abbrev pub once_saved : Attempt → ChatSession → Option Text → Tried
once_saved a session (some e) = record { stops = true; saved = none; error = some (not_ready e) }
once_saved a session none = await_ready session a.supervisor_log [] a.turns

abbrev pub once_spawned : Attempt → ChatSession → Outcome ℤ → Tried
once_spawned a base (refused e) = unstarted (not_ready e)
once_spawned a base (done pid) =
    if is_empty a.fingerprint
    then unstarted (not_ready (codes "could not establish supervisor process identity"))
    else once_saved a (with_supervisor pid a.fingerprint base) a.save

unfoldable pub start_once : Attempt → ChatSession → Tried
start_once a base = once_spawned a base a.spawn
