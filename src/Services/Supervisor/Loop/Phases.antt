-- ===== src/Services/Supervisor/Loop/Phases.antt =====
-- pkg/services/session.go: where the loop of `supervise` waits, and for what.
use chatta.Prelude.{ℕ, ◌*◌, ◌⊎◌, Bool, not, ◌&&◌, Option, List}
use chatta.Text.Basic.{Text}
use chatta.Common.{ChatSession, ChannelMembership, CodexBinding}
use chatta.Dal.AtomicFile.{Slot}
use chatta.Dal.State.{Codec}
use chatta.Dal.Process.{Processes, process_alive}
use chatta.Irc.Conn.State.{Error, Conn}
use chatta.Irc.Conn.Event.{Event}
use chatta.Services.Control.{Outcome}
use chatta.Services.Codex.Binding.{has_active_codex_binding}
use chatta.Services.Supervisor.{Handler}

-- What the system answers at one look: the processes, the Codex binding's file, and the order in
-- which Go goes over the keys of the connection's map of channels.
pub record Surroundings : Type 0 where
  pub processes : Processes
  pub binding_codec : Codec CodexBinding
  pub binding_fault : Option Text
  pub binding : Slot
  pub channel_order : List Text → List Text

-- `!dal.ProcessAlive(st.Owner) && !hasActiveCodexBinding(m.Paths, st.SessionID)`
abbrev pub is_abandoned : Surroundings → ChatSession → Bool
is_abandoned s st =
    not (process_alive s.processes st.owner)
    && not (has_active_codex_binding s.binding_codec s.binding_fault s.binding st.session_id)

pub data Exit : Type 0 where
  stop_signal owner_exited : Exit
  unloaded : Text → Exit

-- `joining` is between two joins, with the channels that are left, and `confirming` waits for the
-- connection's request of this number. At the end, `stopped` has the connection that was closed.
pub data Phase : Type 0 where
  loading undialled_wait pausing : Phase
  joining : ChatSession → Conn → List ChannelMembership → Phase
  confirming : ChatSession → Conn → ℕ → Text → List ChannelMembership → Phase
  running : ChatSession → Conn → Phase
  stopped : Exit → Option Conn → Phase

-- The entries of the log.
pub data Entry : Type 0 where
  load_failed : Text → Entry
  owner_has_exited owner_ended stop_received : Entry
  connect_failed : Error → Entry
  join_failed : Text → Error → Entry
  connection_lost : Text → Entry
  no_traffic : ℕ → Entry
  announce_failed : Text → Error → Entry

pub record Supervisor : Type 0 where
  pub phase : Phase
  pub handler : Handler
  pub log : List Entry

-- `Dial` with its result, and the writes of the calls with their errors. `signalled` is that a select
-- takes `ctx.Done()`, which stays possible after a signal, and `disconnects` that it takes the
-- error that the read loop left in the channel.
pub data Happening : Type 0 where
  loads : Outcome ChatSession → Surroundings → Error ⊎ Conn → Happening
  signalled : Option Text → Happening
  elapsed : Happening
  joins : Option Text → Happening
  join_ends join_times_out : Happening
  disconnects : Option Text → Happening
  ticks : Surroundings → ℕ → Text → (ℕ → Option Text) → Happening
  calls : Event → Happening

abbrev pub second : ℕ
second = 1000000000

abbrev pub liveness_probe : ℕ
liveness_probe = 15 * second

abbrev pub liveness_deadline : ℕ
liveness_deadline = 35 * second
