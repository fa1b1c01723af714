-- ===== src/Services/Codex/Worker/OnDisk.antt =====
-- The cursor in the binding file, where nobody else writes it.
use chatta.Prelude.{
  if_intro, All, refl, sym, subst, inl, inr, Bool, true, false, not, Option, none, some, List, [],
  ◌∷◌,
}
use chatta.Prelude.Int.{ℤ, pos}
use chatta.Text.Basic.{Text}
use chatta.Common.{CodexBinding}
use chatta.Dal.AtomicFile.{Slot}
use chatta.Dal.State.{is_empty}
use chatta.Dal.Store.{MessageRecord}
use chatta.Services.Codex.{format_codex_event, codex_binding_matches}
use chatta.Services.Codex.Client.{
  DeliveryError, binding_changed, unavailable, rpc, other, Answer, answered, failed,
  CodexDeliveryAck, deliver,
}
use chatta.Services.Codex.Worker.{
  Attempt, Queued, Handled, filtered, delivered, Stop, Round, stop_at, go_on, client_of,
  with_result, locked, handle_record, handle_records,
}
use chatta.Services.Codex.Progress.{
  Worker, Moment, ProgressError, save_codex_progress, codex_binding_current,
  save_codex_delivery_failure, progressed, blocked,
}
use chatta.Services.Codex.Worker.Cursor.{addressed}
use chatta.Services.Codex.Worker.Saves.{
  Stands, Quiet, Undisturbed, Saved, some_ne_none, update_binding-Saved, progressed-Keeps,
  blocked-Keeps,
}

-- The file has the worker's own cursor.
abbrev pub InStep : Worker → Round → Type 0
InStep w round = Stands w round.binding round.binding.offset round.slot

-- Only the identity of the expected binding counts.
Stands-offset :
    (w : Worker) (b : CodexBinding) (o p : ℤ) (slot : Slot)
    → Stands w b o slot
    → Stands w (record b { offset = p }) o slot
unfolding codex_binding_matches
Stands-offset w b o p slot d = record {
  current = d.current;
  loads = d.loads;
  matches = d.matches;
  enabled = d.enabled;
  offset = d.offset;
}

module _ (w : Worker) (next : CodexBinding → Slot → Round)
    (ih : (b : CodexBinding) (slot : Slot)
      → Stands w b b.offset slot
      → InStep w (next b slot)) where
  go_on-InStep :
      (h : Handled) (b : CodexBinding) (o : ℤ) (saved : Slot × Option ProgressError)
      → Saved w b b.offset o saved
      → InStep w (go_on next h b o saved)
  go_on-InStep h b o (slot, some e) (inl (ok, d)) = absurd (some_ne_none ok)
  go_on-InStep h b o (slot, some e) (inr (bad, d)) = d
  go_on-InStep h b o (slot, none) (inl (ok, d)) =
      ih (record b { offset = o }) slot (Stands-offset w b o o slot d)
  go_on-InStep h b o (slot, none) (inr (bad, d)) = absurd (bad refl)

  either :
      (b : CodexBinding) (after : Slot × Option ProgressError)
      → Saved w b b.offset b.offset after
      → Stands w b b.offset after.0
  either b after (inl (ok, d)) = d
  either b after (inr (bad, d)) = d

  failed-InStep :
      (b : CodexBinding) (t : Attempt) (slot : Slot) (e : DeliveryError)
      → Quiet t.at_save
      → Stands w b b.offset slot
      → Stands w b b.offset (save_codex_delivery_failure w t.at_save b e slot).0
  unfolding save_codex_delivery_failure
  failed-InStep b t slot e q d = either b _ (
      update_binding-Saved w b b.offset b.offset (blocked w e t.at_save.now)
        (blocked-Keeps w b b.offset e t.at_save.now) t.at_save slot q d)

  progress-Saved :
      (b : CodexBinding) (t : Moment) (slot : Slot) (o : ℤ) (acknowledged : Bool)
      → Quiet t
      → Stands w b b.offset slot
      → Saved w b b.offset o (save_codex_progress w t b o acknowledged slot)
  unfolding save_codex_progress
  progress-Saved b t slot o acknowledged q d =
      update_binding-Saved w b b.offset o (progressed o acknowledged t.now)
        (progressed-Keeps b b.offset o acknowledged t.now) t slot q d

  with_result-InStep :
      (b : CodexBinding) (r : MessageRecord) (t : Attempt) (slot : Slot)
      (result : Answer CodexDeliveryAck)
      → Quiet t.at_save
      → Stands w b b.offset slot
      → InStep w (with_result w next b r t slot result)
  with_result-InStep b r t slot (failed binding_changed) q d = d
  with_result-InStep b r t slot (failed (unavailable s m)) q d = failed-InStep b t slot _ q d
  with_result-InStep b r t slot (failed (rpc s c m)) q d = failed-InStep b t slot _ q d
  with_result-InStep b r t slot (failed (other m)) q d = failed-InStep b t slot _ q d
  with_result-InStep b r t slot (answered a) q d =
      go_on-InStep (delivered r t a) b (pos r.offset)
        (save_codex_progress w t.at_save b (pos r.offset) true slot)
        (progress-Saved b t.at_save slot (pos r.offset) true q d)

  locked-InStep :
      (b : CodexBinding) (r : MessageRecord) (t : Attempt) (slot : Slot) (o : Option Text)
      → Quiet t.at_check
      → Quiet t.at_save
      → Stands w b b.offset slot
      → InStep w (locked w next b r t slot o)
  locked-InStep b r t slot (some e) check save d = d
  locked-InStep b r t slot none check save d =
      let seen = t.at_check.others slot in
      let here : Stands w b b.offset seen = subst (Stands w b b.offset) (sym (check.0 slot)) d in
      let result =
        (deliver w.folding (client_of w t b seen) t.server
          (format_codex_event r.message w.nick)).result in
      if_intro (InStep w) (not (codex_binding_current w t.at_check b seen))
        (stop_at b seen Stop.binding_not_current) (with_result w next b r t seen result) (λ e. here)
        (λ e. with_result-InStep b r t seen result save here)

  handle_record-InStep :
      (b : CodexBinding) (r : MessageRecord) (t : Attempt) (slot : Slot)
      → Quiet t.at_check
      → Quiet t.at_save
      → Stands w b b.offset slot
      → InStep w (handle_record w next b r t slot)
  unfolding handle_record
  handle_record-InStep b r t slot check save d =
      if_intro (InStep w) t.cancelled _ _ (λ e. d)
        (λ e.
          if_intro (InStep w) (not (addressed w b r)) _ _
            (λ e.
              go_on-InStep (filtered r) b (pos r.offset)
                (save_codex_progress w t.at_save b (pos r.offset) false slot)
                (progress-Saved b t.at_save slot (pos r.offset) false save d))
            (λ e.
              if_intro (InStep w) (is_empty r.message.event_id) _ _ (λ e. d)
                (λ e. locked-InStep b r t slot t.lock check save d)))

-- Where nobody else writes the binding file meanwhile and it can be read, it holds at the end of a
-- round the expected binding, enabled, with exactly the worker's own cursor: also when a save or a
-- delivery failed.
pub handle_records-InStep :
    (w : Worker) (b : CodexBinding) (qs : List Queued) (slot : Slot)
    → All Undisturbed qs
    → Stands w b b.offset slot
    → InStep w (handle_records w b qs slot)
unfolding handle_records
handle_records-InStep w b [] slot quiet d = d
handle_records-InStep w b (q ∷ qs) slot quiet d =
    handle_record-InStep w (λ b' slot'. handle_records w b' qs slot')
      (λ b' slot' d'. handle_records-InStep w b' qs slot' quiet.1 d') b q.item q.attempt slot
      quiet.0.0 quiet.0.1 d
