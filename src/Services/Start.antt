-- ===== src/Services/Start.antt =====
-- pkg/services/session.go: `Start`, with the retries for a nick that the server still holds. What
-- `startOnce` gives at each attempt, and what the system answers, is in `Occasion`.
pub mod Retries
pub mod Once
use chatta.Prelude.{
  if◌then◌else◌, ℕ, zero, suc, ◌-◌, Bool, false, not, ◌&&◌, Option, none, some, [], ◌∷◌,
}
use chatta.Prelude.Int.{ℤ, pos, ltb_ℤ}
use chatta.Text.Basic.{Text, codes}
use chatta.Text.Case.{Unicode}
use chatta.Common.{ChatSession, ChannelMembership, OwnerBinding, state_schema_version}
use chatta.Dal.State.{is_empty}
use chatta.Dal.Process.{Processes, process_alive, same_owner}
use chatta.Dal.Channel.{normalize_channel}
use chatta.Services.Control.{Outcome, done, refused}

-- `nick_taken` is nickTakenError.
pub data StartError : Type 0 where
  no_owner : Text → StartError
  nick_required no_state_path : StartError
  other_agent : Text → StartError
  unsaved : Text → StartError
  nick_taken : Text → StartError
  not_ready : Text → StartError

pub record Occasion : Type 0 where
  pub owner : Outcome OwnerBinding
  pub has_state_path : Bool
  -- `LoadState` of what is there; an error counts as nothing.
  pub old : Option ChatSession
  pub processes : Processes
  pub channel : Text
  pub host : Text
  pub port : ℤ
  pub session_id : OwnerBinding → Text
  pub now : ℕ
  pub save : ChatSession → Option Text
  pub attempt : ℕ → Option StartError
  -- The session as an attempt saves it, with its supervisor.
  pub saved_by : ℕ → ChatSession → ChatSession

-- What a start does: whether it stops an old supervisor, the attempts it makes, what becomes of the
-- state file, and its error.
pub data StateFile : Type 0 where
  untouched discarded : StateFile
  written : ChatSession → StateFile

pub record Started : Type 0 where
  pub stops_old : Bool
  pub attempts : ℕ
  pub file : StateFile
  pub error : Option StartError

abbrev pub nick_attempts : ℕ
nick_attempts = 3

-- Only a taken nick is tried again.
abbrev after_attempt : ℕ → ℕ × Option StartError → Option StartError → ℕ × Option StartError
after_attempt n again none = (suc n, none)
after_attempt n again (some (nick_taken t)) = again
after_attempt n again (some e) = (suc n, some e)

-- The loop with this many attempts left, of which `n` were made and the last gave `last`.
unfoldable pub retry : (ℕ → Option StartError) → ℕ → ℕ → Option StartError → ℕ × Option StartError
retry attempt zero n last = (n, last)
retry attempt (suc k) n last = after_attempt n (retry attempt k (suc n) (attempt n)) (attempt n)

abbrev refuse : StartError → Started
refuse e = record { stops_old = false; attempts = 0; file = untouched; error = some e }

abbrev lobby : Unicode → Text → ChannelMembership
lobby u channel = record {
  name = normalize_channel u channel;
  kind = codes "lobby";
  joined_at = 0;
  confirmed = false;
}

abbrev or_agent : Text → Text
or_agent [] = codes "agent"
or_agent (c ∷ role) = c ∷ role

abbrev pub new_session : Unicode → Occasion → OwnerBinding → Text → Text → ChatSession
new_session u o owner nick role = record {
  schema_version = state_schema_version;
  nick = nick;
  role = or_agent role;
  host = o.host;
  port = o.port;
  home_channel = lobby u o.channel;
  channels = lobby u o.channel ∷ [];
  owner = owner;
  session_id = o.session_id owner;
  supervisor_pid = pos 0;
  supervisor_start_fingerprint = [];
  started_at = o.now;
}

abbrev tried : Occasion → Bool → ChatSession → ℕ × Option StartError → Started
tried o stops session (n, none) = record {
  stops_old = stops;
  attempts = n;
  file = written (o.saved_by (n - 1) session);
  error = none;
}
tried o stops session (n, some e) = record {
  stops_old = stops;
  attempts = n;
  file = discarded;
  error = some e;
}

abbrev saved : Occasion → Bool → ChatSession → Option Text → Started
saved o stops session (some e) = record {
  stops_old = stops;
  attempts = 0;
  file = untouched;
  error = some (unsaved e);
}
saved o stops session none = tried o stops session (retry o.attempt nick_attempts 0 none)

-- `!takeover && ProcessAlive(old.Owner) && !SameOwner(old.Owner, owner)`
abbrev pub guarded : Occasion → Bool → OwnerBinding → ChatSession → Bool
guarded o takeover owner old =
    not takeover && process_alive o.processes old.owner && not (same_owner old.owner owner)

abbrev over_old :
    Unicode → Occasion → Bool → OwnerBinding → Text → Text → Option ChatSession → Started
over_old u o takeover owner nick role none =
    let session = new_session u o owner nick role in saved o false session (o.save session)
over_old u o takeover owner nick role (some old) =
    let session = new_session u o owner nick role in
    if guarded o takeover owner old
    then refuse (other_agent old.nick)
    else saved o (ltb_ℤ (pos 0) old.supervisor_pid) session (o.save session)

abbrev with_owner : Unicode → Occasion → Bool → Text → Text → Outcome OwnerBinding → Started
with_owner u o takeover nick role (refused e) = refuse (no_owner e)
with_owner u o takeover nick role (done owner) =
    if is_empty nick
    then refuse nick_required
    else if not o.has_state_path
    then refuse no_state_path
    else over_old u o takeover owner nick role o.old

unfoldable pub start : Unicode → Occasion → Bool → Text → Text → Started
start u o takeover nick role = with_owner u o takeover nick role o.owner
