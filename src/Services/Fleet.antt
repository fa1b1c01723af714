-- ===== src/Services/Fleet.antt =====
-- pkg/services/fleet.go: stopping a client, the survey of the clients, and the cleanup of those
-- whose owner has ended. What the system answers about a client's home at one moment is in `View`.
pub mod Cleanup
pub mod Stopping
pub mod Reports
pub mod Overtaken
use chatta.Prelude.{
  if◌then◌else◌, Bool, true, false, not, ◌&&◌, ◌||◌, Option, none, some, List, [], ◌∷◌,
}
use chatta.Prelude.Int.{pos, ltb_ℤ}
use chatta.Text.Basic.{Text, codes, eq_text}
use chatta.Common.{ChatSession, OwnerBinding, ClientSurvey, TransportStatus, CodexBinding}
use chatta.Dal.AtomicFile.{Slot}
use chatta.Dal.State.{Codec}
use chatta.Dal.Process.{
  Processes, process_alive, same_owner, is_verified_supervisor, stop_verified_supervisor, Signal,
  Stopped,
}
use chatta.Services.Codex.Binding.{has_active_codex_binding}
use chatta.Services.Control.{Reply, Outcome, done, refused}
use chatta.Services.Health.{status_of}

-- `LoadState`, the processes and the looks of a stop at them with the errors of its two signals, the
-- file of the Codex binding, the reply to a status request, and the error of removing the home.
pub record View : Type 0 where
  pub state : Outcome ChatSession
  pub processes : Processes
  pub looks : List Processes
  pub later_looks : List Processes
  pub term : Option Text
  pub kill : Option Text
  pub binding_codec : Codec CodexBinding
  pub binding_fault : Option Text
  pub binding : Slot
  pub control : Reply
  pub remove_all : Option Text

abbrev pub stop_supervisor : View → ChatSession → Stopped
stop_supervisor v st =
    if ltb_ℤ (pos 0) st.supervisor_pid
    then stop_verified_supervisor v.processes v.looks v.later_looks v.term v.kill st.supervisor_pid
        st.supervisor_start_fingerprint
    else record { signals = []; error = none }

-- What a stop does: whether it asks the supervisor to quit, the signals, the state that it writes,
-- and its error.
pub data StopError : Type 0 where
  unloaded other_live_agent : StopError
  unstopped unsaved : Text → StopError

pub record StopEffect : Type 0 where
  pub asked_to_quit : Bool
  pub signals : List Signal
  pub saved : Option ChatSession
  pub error : Option StopError

abbrev pub stop_refused : StopError → StopEffect
stop_refused e = record { asked_to_quit = false; signals = []; saved = none; error = some e }

abbrev pub without_supervisor : ChatSession → ChatSession
without_supervisor st = record st { supervisor_pid = pos 0; supervisor_start_fingerprint = [] }

abbrev pub stop_saved : ChatSession → List Signal → Option Text → StopEffect
stop_saved st signals (some e) = record {
  asked_to_quit = true;
  signals = signals;
  saved = none;
  error = some (unsaved e);
}
stop_saved st signals none = record {
  asked_to_quit = true;
  signals = signals;
  saved = some (without_supervisor st);
  error = none;
}

abbrev pub stop_signalled :
    ChatSession → (ChatSession → Option Text) → List Signal → Option Text → StopEffect
stop_signalled st save signals (some e) = record {
  asked_to_quit = true;
  signals = signals;
  saved = none;
  error = some (unstopped e);
}
stop_signalled st save signals none = stop_saved st signals (save (without_supervisor st))

-- `ownerErr != nil || !dal.SameOwner(st.Owner, current)`
abbrev pub is_other : OwnerBinding → Outcome OwnerBinding → Bool
is_other owner (refused e) = true
is_other owner (done current) = not (same_owner owner current)

-- `!force`, a live owner, and another caller.
abbrev pub is_foreign : View → Outcome OwnerBinding → ChatSession → Bool
is_foreign v current st = process_alive v.processes st.owner && is_other st.owner current

abbrev pub stop_loaded :
    View
    → Outcome OwnerBinding
    → (ChatSession → Option Text)
    → Bool
    → Outcome ChatSession
    → StopEffect
stop_loaded v current save force (refused e) = stop_refused unloaded
stop_loaded v current save force (done st) =
    if not force && is_foreign v current st
    then stop_refused other_live_agent
    else let s = stop_supervisor v st in stop_signalled st save s.signals s.error

-- `Stop`; `current` is what `FindAgentOwner` gives, `save` the error of `SaveState`.
unfoldable pub stop : View → Outcome OwnerBinding → (ChatSession → Option Text) → Bool → StopEffect
stop v current save force = stop_loaded v current save force v.state

abbrev pub is_active : View → ChatSession → Bool
is_active v st = has_active_codex_binding v.binding_codec v.binding_fault v.binding st.session_id

abbrev pub live_owner : Text
live_owner = codes "live owner"

abbrev pub active_binding : Text
active_binding = codes "active Codex binding"

abbrev pub owner_ended : Text
owner_ended = codes "owner ended"

abbrev pub alive_or : Text → Bool → Text
alive_or other true = codes "alive"
alive_or other false = other

abbrev pub is_connected : Option TransportStatus → Bool
is_connected none = false
is_connected (some t) = t.connected

abbrev pub survey_row : Text → View → ChatSession → ClientSurvey
survey_row home v st =
    let alive = process_alive v.processes st.owner in
    record {
      client_home = home;
      session_summary = st.nick;
      owner_state = alive_or (codes "ended") alive;
      supervisor_state =
          alive_or (codes "down")
            (is_verified_supervisor v.processes st.supervisor_pid st.supervisor_start_fingerprint);
      client_process_state = alive_or (codes "down") (is_connected (status_of v.control));
      cleanup_eligibility =
          if not alive && is_active v st
          then active_binding
          else if not alive
          then owner_ended
          else live_owner;
    }

abbrev pub with_row : Text → View → Outcome ChatSession → List ClientSurvey → List ClientSurvey
with_row home v (refused e) rows = rows
with_row home v (done st) rows = survey_row home v st ∷ rows

-- `Survey`, over the homes in some order, which are clean paths.
unfoldable pub survey : (Text → View) → List Text → List ClientSurvey
survey at [] = []
survey at (home ∷ homes) = with_row home (at home) (at home).state (survey at homes)

-- What the cleanup does to one home.
pub record Cleaned : Type 0 where
  pub home : Text
  pub signals : List Signal
  pub pruned : Bool

abbrev pub is_kept : ClientSurvey → Bool
is_kept row =
    eq_text row.cleanup_eligibility live_owner || eq_text row.cleanup_eligibility active_binding

pub record Report : Type 0 where
  pub cleaned : List Cleaned
  pub error : Option Text

abbrev pub also_cleaned : Cleaned → Report → Report
also_cleaned c r = record { cleaned = c ∷ r.cleaned; error = r.error }

abbrev pub pruned_then : Text → List Signal → Option Text → Report → Report
pruned_then home signals (some e) later = record {
  cleaned = (record { home = home; signals = signals; pruned = false }) ∷ [];
  error = some e;
}
pruned_then home signals none later =
    also_cleaned (record { home = home; signals = signals; pruned = true }) later

abbrev pub stopped_then : Bool → Text → View → Stopped → Option Text → Report → Report
stopped_then prune home v s (some e) later = record {
  cleaned = (record { home = home; signals = s.signals; pruned = false }) ∷ [];
  error = some e;
}
stopped_then prune home v s none later =
    if prune
    then pruned_then home s.signals v.remove_all later
    else also_cleaned (record { home = home; signals = s.signals; pruned = false }) later

abbrev pub cleaned_then : Bool → Text → View → Outcome ChatSession → Report → Report
cleaned_then prune home v (refused e) later = later
cleaned_then prune home v (done st) later =
    let s = stop_supervisor v st in stopped_then prune home v s s.error later

-- The loop of `GCReport`, with what it finds in each home when it comes to it.
unfoldable pub clean_rows : (Text → View) → Bool → List ClientSurvey → Report
clean_rows at prune [] = record { cleaned = []; error = none }
clean_rows at prune (row ∷ rows) =
    let later = clean_rows at prune rows in
    if is_kept row
    then later
    else cleaned_then prune row.client_home (at row.client_home) (at row.client_home).state later

abbrev pub report_rows : List ClientSurvey → Option Text → Outcome (List ClientSurvey)
report_rows rows none = done rows
report_rows rows (some e) = refused e

-- `GCReport`, with what it returns. The two functions are the homes at the survey and later.
unfoldable pub gc_report :
    (Text → View) → (Text → View) → List Text → Bool → Bool → Report × Outcome (List ClientSurvey)
gc_report at_survey at_clean homes dry_run prune =
    let rows = survey at_survey homes in
    let r =
      if dry_run then record { cleaned = []; error = none } else clean_rows at_clean prune rows in
    (r, report_rows rows r.error)
