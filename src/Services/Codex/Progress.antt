-- ===== src/Services/Codex/Progress.antt =====
-- pkg/services/codex.go: the binding file as the worker reads and writes it. It is shared with the
-- control handler: what others do to it between two steps of the worker, and what the system answers,
-- is in `Moment`.
use chatta.Prelude.{if◌then◌else◌, ℕ, Bool, true, false, not, ◌&&◌, ◌||◌, Option, none, some, []}
use chatta.Prelude.Int.{ℤ}
use chatta.Text.Basic.{Text, codes, eq_text}
use chatta.Text.Case.{Unicode, Folding}
use chatta.Common.{CodexBinding}
use chatta.Dal.AtomicFile.{Slot, Faults}
use chatta.Dal.State.{Codec}
use chatta.Dal.Binding.{
  BindingError, Loaded, loaded, refused, load_codex_binding, save_codex_binding,
}
use chatta.Services.Codex.{codex_binding_matches}
use chatta.Services.Codex.Client.{
  DeliveryError, binding_changed, unavailable, rpc, other, error_text, delivery_failure_state,
  is_idle_steer_race,
}

-- The binding file when the worker turns to it, and the answers to its calls.
pub record Moment : Type 0 where
  pub others : Slot → Slot
  pub read_fault : Option Text
  pub faults : Faults
  pub now : ℕ

pub data ProgressError : Type 0 where
  binding_error : BindingError → ProgressError
  changed : ProgressError

-- What `m.State` and the two parameters of the texts give.
pub record Worker : Type 0 where
  pub nick : Text
  pub session_id : Text
  pub codec : Codec CodexBinding
  pub unicode : Unicode
  pub folding : Folding
  -- `Error()` of a failed load.
  pub describe : BindingError → Text

abbrev pub as_progress_error : Slot × Option BindingError → Slot × Option ProgressError
as_progress_error (slot, none) = (slot, none)
as_progress_error (slot, some e) = (slot, some (binding_error e))

-- Loads the binding, and saves it changed if it is still the expected one.
abbrev pub update_loaded :
    Worker
    → Moment
    → CodexBinding
    → (CodexBinding → CodexBinding)
    → Slot
    → Loaded
    → Slot × Option ProgressError
update_loaded w t expected change slot (refused e) = (slot, some (binding_error e))
update_loaded w t expected change slot (loaded current) =
    if not (codex_binding_matches current expected) || not current.enabled
    then (slot, some changed)
    else as_progress_error (save_codex_binding w.codec t.faults (change current) slot)

abbrev pub update_binding :
    Worker
    → Moment
    → CodexBinding
    → (CodexBinding → CodexBinding)
    → Slot
    → Slot × Option ProgressError
update_binding w t expected change slot =
    update_loaded w t expected change (t.others slot)
      (load_codex_binding w.codec t.read_fault (t.others slot))

abbrev pub accept : Bool → CodexBinding → CodexBinding
accept false b = b
accept true b = record b {
  delivery_blocked = false;
  delivery_state = codes "accepted";
  delivery_error = [];
  no_start_after_steer_failure = false;
}

abbrev pub progressed : ℤ → Bool → ℕ → CodexBinding → CodexBinding
progressed offset acknowledged now b = record (accept acknowledged (record b { offset = offset })) {
  updated_at = now;
}

unfoldable pub save_codex_progress :
    Worker → Moment → CodexBinding → ℤ → Bool → Slot → Slot × Option ProgressError
save_codex_progress w t expected offset acknowledged =
    update_binding w t expected (progressed offset acknowledged t.now)

-- `NoStartAfterSteerFailure` is set by an error of turn/steer that is no race, and else left.
abbrev pub keeps_steer_failure : Folding → DeliveryError → Bool → Bool
keeps_steer_failure f (rpc method code message) before =
    (eq_text method (codes "turn/steer") && not (is_idle_steer_race f (rpc method code message)))
    || before
keeps_steer_failure f binding_changed before = before
keeps_steer_failure f (unavailable state message) before = before
keeps_steer_failure f (other message) before = before

abbrev pub blocked : Worker → DeliveryError → ℕ → CodexBinding → CodexBinding
blocked w e now b = record b {
  delivery_blocked = true;
  delivery_state = delivery_failure_state w.unicode e;
  no_start_after_steer_failure = keeps_steer_failure w.folding e b.no_start_after_steer_failure;
  delivery_error = error_text e;
  updated_at = now;
}

unfoldable pub save_codex_delivery_failure :
    Worker → Moment → CodexBinding → DeliveryError → Slot → Slot × Option ProgressError
save_codex_delivery_failure w t expected e = update_binding w t expected (blocked w e t.now)

abbrev pub current_loaded : Worker → CodexBinding → Loaded → Bool
current_loaded w expected (refused e) = false
current_loaded w expected (loaded current) =
    current.enabled
    && codex_binding_matches current expected
    && eq_text current.session_id w.session_id

unfoldable pub codex_binding_current : Worker → Moment → CodexBinding → Slot → Bool
codex_binding_current w t expected slot =
    current_loaded w expected (load_codex_binding w.codec t.read_fault slot)

abbrev pub authorize_loaded : Worker → CodexBinding → Loaded → Option DeliveryError
authorize_loaded w expected (refused e) = some (other (w.describe e))
authorize_loaded w expected (loaded current) =
    if not (codex_binding_matches current expected)
      || not current.enabled
      || not (eq_text current.session_id w.session_id)
    then some binding_changed
    else none

-- The check before `send`; `none` lets the request go out.
unfoldable pub authorize_codex_dispatch :
    Worker → Moment → CodexBinding → Slot → Option DeliveryError
authorize_codex_dispatch w t expected slot =
    authorize_loaded w expected (load_codex_binding w.codec t.read_fault slot)
