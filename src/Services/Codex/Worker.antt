-- ===== src/Services/Codex/Worker.antt =====
-- pkg/services/codex.go: the worker that delivers the queue to the bound Codex thread, one record at a
-- time.
pub mod Cursor
pub mod Saves
pub mod OnDisk
pub mod Rounds
use chatta.Prelude.{
  if◌then◌else◌, ℕ, zero, suc, Bool, true, false, not, Option, none, some, List, [], ◌∷◌,
}
use chatta.Prelude.Int.{ℤ, pos}
use chatta.Text.Basic.{Text}
use chatta.Common.{CodexBinding}
use chatta.Dal.AtomicFile.{Slot}
use chatta.Dal.State.{is_empty}
use chatta.Dal.Store.{MessageRecord}
use chatta.Services.Codex.{addressed_to, format_codex_event}
use chatta.Services.Codex.Client.{
  DeliveryError, binding_changed, Answer, answered, failed, AppServer, CodexAppClient,
  CodexDeliveryAck, deliver,
}
use chatta.Services.Codex.Progress.{
  Moment, ProgressError, Worker, save_codex_progress, save_codex_delivery_failure,
  codex_binding_current, authorize_codex_dispatch,
}

-- What the environment does while one record is handled.
pub record Attempt : Type 0 where
  pub cancelled : Bool
  pub lock : Option Text
  pub server : AppServer
  pub at_check : Moment
  pub at_dispatch : ℕ → Moment
  pub at_save : Moment

pub record Queued : Type 0 where
  pub item : MessageRecord
  pub attempt : Attempt

pub data Handled : Type 0 where
  filtered : MessageRecord → Handled
  delivered : MessageRecord → Attempt → CodexDeliveryAck → Handled

pub data Stop : Type 0 where
  finished cancelled no_event_id binding_not_current : Stop
  lock_failed : Text → Stop
  unsaved : ProgressError → Stop
  undelivered : DeliveryError → Stop

pub record Round : Type 0 where
  pub slot : Slot
  pub binding : CodexBinding
  pub handled : List Handled
  pub stop : Stop

abbrev stop_at : CodexBinding → Slot → Stop → Round
stop_at b slot why = record { slot = slot; binding = b; handled = []; stop = why }

abbrev then_handled : Handled → Round → Round
then_handled h later = record later { handled = h ∷ later.handled }

-- Goes on behind a record if its offset is saved.
abbrev go_on :
    (CodexBinding → Slot → Round) → Handled → CodexBinding → ℤ → Slot × Option ProgressError → Round
go_on next h b offset (slot, some e) = stop_at b slot (unsaved e)
go_on next h b offset (slot, none) = then_handled h (next (record b { offset = offset }) slot)

-- The file at a dispatch, behind what others did before each one up to it.
abbrev dispatch_slot : Attempt → ℕ → Slot → Slot
dispatch_slot t zero slot = (t.at_dispatch 0).others slot
dispatch_slot t (suc n) slot = (t.at_dispatch (suc n)).others (dispatch_slot t n slot)

abbrev client_of : Worker → Attempt → CodexBinding → Slot → CodexAppClient
client_of w t b slot = record {
  endpoint = b.endpoint;
  thread_id = b.thread_id;
  no_start_after_steer_failure = b.no_start_after_steer_failure;
  authorize = λ n. authorize_codex_dispatch w (t.at_dispatch n) b ((t.at_dispatch n).others slot);
}

-- The file behind the dispatches: `others` of both, whether or not they took place.
abbrev after_dispatch : Attempt → Slot → Slot
after_dispatch t slot = (t.at_dispatch 1).others ((t.at_dispatch 0).others slot)

abbrev with_result :
    Worker
    → (CodexBinding → Slot → Round)
    → CodexBinding
    → MessageRecord
    → Attempt
    → Slot
    → Answer CodexDeliveryAck
    → Round
with_result w next b r t slot (failed binding_changed) = stop_at b slot binding_not_current
with_result w next b r t slot (failed e) =
    stop_at b (save_codex_delivery_failure w t.at_save b e slot).0 (undelivered e)
with_result w next b r t slot (answered a) =
    go_on next (delivered r t a) b (pos r.offset)
      (save_codex_progress w t.at_save b (pos r.offset) true slot)

abbrev locked :
    Worker
    → (CodexBinding → Slot → Round)
    → CodexBinding
    → MessageRecord
    → Attempt
    → Slot
    → Option Text
    → Round
locked w next b r t slot (some e) = stop_at b slot (lock_failed e)
locked w next b r t slot none =
    let seen = t.at_check.others slot in
    if not (codex_binding_current w t.at_check b seen)
    then stop_at b seen binding_not_current
    else with_result w next b r t seen
        (deliver w.folding (client_of w t b seen) t.server
          (format_codex_event r.message w.nick)).result

unfoldable pub handle_record :
    Worker → (CodexBinding → Slot → Round) → CodexBinding → MessageRecord → Attempt → Slot → Round
handle_record w next b r t slot =
    if t.cancelled
    then stop_at b slot cancelled
    else if not (addressed_to w.unicode w.folding r.message w.nick b)
    then go_on next (filtered r) b (pos r.offset)
        (save_codex_progress w t.at_save b (pos r.offset) false slot)
    else if is_empty r.message.event_id
    then stop_at b slot no_event_id
    else locked w next b r t slot t.lock

unfoldable pub handle_records : Worker → CodexBinding → List Queued → Slot → Round
handle_records w b [] slot = stop_at b slot finished
handle_records w b (q ∷ qs) slot =
    handle_record w (λ b' slot'. handle_records w b' qs slot') b q.item q.attempt slot
