-- ===== src/Services/Codex/Binding.antt =====
-- pkg/services/session.go and codex_binding.go: what the control handler does with the Codex binding.
-- A refusal carries what its text is made of.
pub mod Effect
pub mod Unbind
use chatta.Prelude.{
  ◌==◌, if◌then◌else◌, length, all, ℕ, Bool, true, false, not, ◌&&◌, ◌||◌, Option, none, some, List,
  [], ◌∷◌,
}
use chatta.Prelude.Int.{ℤ, pos}
use chatta.Text.Basic.{Text, codes, eq_text, has_prefix}
use chatta.Text.Case.{Unicode}
use chatta.Common.{CodexBinding}
use chatta.Dal.AtomicFile.{Slot, Faults}
use chatta.Dal.State.{Codec, is_empty}
use chatta.Dal.Binding.{
  BindingError, not_exist, Loaded, loaded, refused, load_codex_binding, save_codex_binding,
}
use chatta.Services.Codex.{channel_subscribed, normalize_subscribed_channels}
use chatta.Services.Codex.Client.{DeliveryError, delivery_failure_state, error_text}

pub data Difference : Type 0 where
  session endpoint thread mention_current_identity subscribed_channels : Difference

pub data Refusal : Type 0 where
  bad_endpoint bad_channel bad_reuse : Refusal
  unloaded : BindingError → Refusal
  conflicting : List Difference → Refusal
  current_unavailable : DeliveryError → Refusal
  unsized : Text → Refusal
  no_binding_id : Text → Refusal
  unsaved : BindingError → Refusal

-- The response: a refusal, or OK with the binding, if there is one.
pub data Response : Type 0 where
  refusal : Refusal → Response
  ok : Option CodexBinding → Response

pub record BindRequest : Type 0 where
  pub endpoint : Text
  pub thread_id : Text
  pub replay : Bool
  pub mention : Bool
  pub channels : List Text
  pub require_available : Bool
  pub reuse : Bool

-- The supervisor's session, and what the environment answers to one request.
pub record Handler : Type 0 where
  pub session_id : Text
  pub codec : Codec CodexBinding
  pub unicode : Unicode
  pub read_fault : Option Text
  pub faults : Faults
  pub now : ℕ
  -- `CheckThread`
  pub probe : Option DeliveryError
  -- `newEventID`: an ID, or an error.
  pub new_id : Text
  pub id_fault : Option Text
  -- `os.Stat` of the message store.
  pub stat_fault : Option Text
  pub size : Option ℕ

unfoldable pub same_subscribed_channels : Unicode → List Text → List Text → Bool
same_subscribed_channels u left right =
    (length left == length right) && all (λ c. channel_subscribed u c left) right

abbrev differs : Bool → Difference → List Difference → List Difference
differs same d ds = if same then ds else d ∷ ds

abbrev same_flag : Bool → Bool → Bool
same_flag true b = b
same_flag false b = not b

-- What `conflictingCodexBinding` lists; the reuse is refused exactly when this is not empty.
unfoldable pub differences : Handler → CodexBinding → BindRequest → List Text → List Difference
differences h previous q channels = differs (eq_text previous.session_id h.session_id) session (
    differs (eq_text previous.endpoint q.endpoint) endpoint (
      differs (eq_text previous.thread_id q.thread_id) thread (
        differs (same_flag previous.mention_current_identity q.mention) mention_current_identity (
          differs (same_subscribed_channels h.unicode previous.subscribed_channels channels)
            subscribed_channels []))))

-- The binding's offset: 0 for a replay or a missing file.
abbrev start_offset : Handler → Bool → Option Text → Text × Option ℤ
start_offset h true fault = ([], some (pos 0))
start_offset h false (some e) = (e, none)
start_offset h false none = ([], elim h.size [ none ↦ some (pos 0) | some n ↦ some (pos n) ])

abbrev fresh_binding : Handler → BindRequest → List Text → ℤ → CodexBinding
fresh_binding h q channels offset = record {
  binding_id = h.new_id;
  session_id = h.session_id;
  endpoint = q.endpoint;
  thread_id = q.thread_id;
  enabled = true;
  offset = offset;
  replay = q.replay;
  mention_current_identity = q.mention;
  subscribed_channels = channels;
  delivery_blocked = false;
  delivery_state = codes "ready";
  delivery_error = [];
  no_start_after_steer_failure = false;
  updated_at = h.now;
}

abbrev probed : Handler → Option DeliveryError → CodexBinding → CodexBinding
probed h none b = b
probed h (some e) b = record b {
  delivery_blocked = true;
  delivery_state = delivery_failure_state h.unicode e;
  delivery_error = error_text e;
}

abbrev saved : CodexBinding → Slot × Option BindingError → Slot × Response
saved b (slot, none) = (slot, ok (some b))
saved b (slot, some e) = (slot, refusal (unsaved e))

abbrev save_probed :
    Handler → BindRequest → CodexBinding → Slot → Option DeliveryError → Slot × Response
save_probed h q b slot probe =
    let store =
      saved (probed h probe b) (save_codex_binding h.codec h.faults (probed h probe b) slot) in
    elim probe [
      | none ↦ store
      | some e ↦ if q.require_available then (slot, refusal (current_unavailable e)) else store
    ]

abbrev with_id : Handler → BindRequest → List Text → Slot → ℤ → Option Text → Slot × Response
with_id h q channels slot offset (some e) = (slot, refusal (no_binding_id e))
with_id h q channels slot offset none =
    save_probed h q (fresh_binding h q channels offset) slot h.probe

abbrev with_offset : Handler → BindRequest → List Text → Slot → Text × Option ℤ → Slot × Response
with_offset h q channels slot (e, none) = (slot, refusal (unsized e))
with_offset h q channels slot (e, some offset) = with_id h q channels slot offset h.id_fault

abbrev bind_new : Handler → BindRequest → List Text → Slot → Slot × Response
bind_new h q channels slot = with_offset h q channels slot (start_offset h q.replay h.stat_fault)

abbrev probe_previous : CodexBinding → Slot → Option DeliveryError → Slot × Response
probe_previous previous slot none = (slot, ok (some previous))
probe_previous previous slot (some e) = (slot, refusal (current_unavailable e))

abbrev same_route : Handler → CodexBinding → Slot → List Difference → Slot × Response
same_route h previous slot [] = probe_previous previous slot h.probe
same_route h previous slot (d ∷ ds) = (slot, refusal (conflicting (d ∷ ds)))

abbrev reuse_loaded : Handler → BindRequest → List Text → Slot → Loaded → Slot × Response
reuse_loaded h q channels slot (refused not_exist) = bind_new h q channels slot
reuse_loaded h q channels slot (refused e) = (slot, refusal (unloaded e))
reuse_loaded h q channels slot (loaded previous) =
    if previous.enabled
    then same_route h previous slot (differences h previous q channels)
    else bind_new h q channels slot

abbrev with_channels : Handler → BindRequest → Slot → Option (List Text) → Slot × Response
with_channels h q slot none = (slot, refusal bad_channel)
with_channels h q slot (some channels) =
    if q.reuse
    then if not q.require_available || q.replay
      then (slot, refusal bad_reuse)
      else reuse_loaded h q channels slot (load_codex_binding h.codec h.read_fault slot)
    else bind_new h q channels slot

unfoldable pub bind_codex_with_reuse : Handler → BindRequest → Slot → Slot × Response
bind_codex_with_reuse h q slot =
    if not (has_prefix q.endpoint (codes "unix:///")) || is_empty q.thread_id
    then (slot, refusal bad_endpoint)
    else with_channels h q slot (normalize_subscribed_channels h.unicode q.channels)

abbrev disabled : Handler → CodexBinding → CodexBinding
disabled h b = record b { enabled = false; updated_at = h.now }

abbrev unbind_loaded : Handler → Slot → Loaded → Slot × Response
unbind_loaded h slot (refused not_exist) = (slot, ok none)
unbind_loaded h slot (refused e) = (slot, refusal (unloaded e))
unbind_loaded h slot (loaded b) =
    saved (disabled h b) (save_codex_binding h.codec h.faults (disabled h b) slot)

unfoldable pub unbind_codex : Handler → Slot → Slot × Response
unbind_codex h slot = unbind_loaded h slot (load_codex_binding h.codec h.read_fault slot)

abbrev status_loaded : Loaded → Response
status_loaded (refused not_exist) = ok none
status_loaded (refused e) = refusal (unloaded e)
status_loaded (loaded b) = ok (some b)

unfoldable pub codex_status : Handler → Slot → Response
codex_status h slot = status_loaded (load_codex_binding h.codec h.read_fault slot)

abbrev active_loaded : Text → Loaded → Bool
active_loaded session_id (refused e) = false
active_loaded session_id (loaded b) = b.enabled && eq_text b.session_id session_id

unfoldable pub has_active_codex_binding : Codec CodexBinding → Option Text → Slot → Text → Bool
has_active_codex_binding codec fault slot session_id =
    active_loaded session_id (load_codex_binding codec fault slot)
