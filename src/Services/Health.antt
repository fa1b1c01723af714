-- ===== src/Services/Health.antt =====
-- pkg/services/health.go: the health of a client, and its recovery before a command.
pub mod Report
pub mod Recovery
use chatta.Prelude.{
  if◌then◌else◌, any, Bool, true, false, not, ◌&&◌, Option, none, some, List, [], ◌∷◌, ◌++◌,
}
use chatta.Text.Basic.{Text, codes, eq_text, contains_text}
use chatta.Common.{ChatSession, ChannelMembership, HealthReport, TransportStatus}
use chatta.Dal.State.{is_empty}
use chatta.Dal.Process.{Processes, process_alive, is_verified_supervisor}
use chatta.Services.Control.{Reply, lost, got}

abbrev or_text : Text → Text → Text
or_text [] t = t
or_text (c ∷ s) t = c ∷ s

-- `resp.Error` where there is one.
abbrev transport_failure : Reply → Text
transport_failure (lost e) = codes "transport not connected"
transport_failure (got r) = or_text r.error (codes "transport not connected")

-- The response's status, if the request gave one.
abbrev pub status_of : Reply → Option TransportStatus
status_of (lost e) = none
status_of (got r) = if r.ok then r.status else none

-- The first channel of the session that the connection is not in.
unfoldable pub missing_channel : List Text → List ChannelMembership → Option Text
missing_channel confirmed [] = none
missing_channel confirmed (c ∷ cs) =
    if any (eq_text c.name) confirmed then missing_channel confirmed cs else some c.name

abbrev with_channels :
    Bool → ChatSession → TransportStatus → HealthReport → Option Text → HealthReport
with_channels deep st t r (some name) = record r { failure = codes "channel not joined: " ++ name }
with_channels false st t r none = record r {
  joined_channels = true;
  server_link = true;
  membership = true;
}
with_channels true st t r none =
    if not t.registered
    then record r { joined_channels = true; failure = codes "not registered with server" }
    else record r { joined_channels = true; server_link = true; membership = true }

abbrev with_status :
    Bool → ChatSession → Reply → HealthReport → Option TransportStatus → HealthReport
with_status deep st reply r none = record r { failure = transport_failure reply }
with_status deep st reply r (some t) =
    with_channels deep st t (record r { connected = t.connected })
      (missing_channel t.channels st.channels)

abbrev seen : Processes → ChatSession → HealthReport
seen p st = record {
  owner = process_alive p st.owner;
  supervisor = is_verified_supervisor p st.supervisor_pid st.supervisor_start_fingerprint;
  joined_channels = false;
  connected = false;
  server_link = false;
  membership = false;
  failure = [];
}

-- `Health` for the state that it has found; `active` is `hasActiveCodexBinding`.
unfoldable pub health : Processes → Bool → Reply → Bool → ChatSession → HealthReport
health p active reply deep st =
    let r = seen p st in
    if is_empty st.host
    then record r { failure = codes "no session" }
    else if not r.owner && not active
    then record r { failure = codes "owner has exited" }
    else if not r.supervisor
    then record r { failure = codes "supervisor is not running" }
    else with_status deep st reply r (status_of reply)

abbrev migration : Text
migration =
    codes
      "this client home was created by an older Chatta and cannot be reused;\nrun: chatta chat session stop --force && chatta chat session start <nick>"

-- The text of the load error, and whether the retired tree and the control socket are there.
unfoldable pub pre_upgrade_migration_message : Option Text → Bool → Bool → Text
pre_upgrade_migration_message none irc sock = if irc && not sock then migration else []
pre_upgrade_migration_message (some e) irc sock =
    if contains_text e (codes "unsupported state schema version")
    then migration
    else if irc && not sock
    then migration
    else []
