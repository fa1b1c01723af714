-- ===== src/Services/Codex/Worker/Cursor.antt =====
-- What the worker's cursor has passed.
use chatta.Prelude.{
  if_intro, All, All-imp, ◌≡◌, refl, ap, ◌≢◌, Bool, true, false, not, Option, none, some, List, [],
  ◌∷◌, ◌++◌, map, arith,
}
use chatta.Prelude.Int.{ℤ, pos}
use chatta.Text.Basic.{Text}
use chatta.Common.{CodexBinding}
use chatta.Dal.AtomicFile.{Slot}
use chatta.Dal.State.{is_empty}
use chatta.Dal.State.Sessions.{ne_nil_of_test}
use chatta.Dal.Store.{MessageRecord}
use chatta.Services.Codex.{addressed_to, format_codex_event}
use chatta.Services.Codex.Client.{
  binding_changed, unavailable, rpc, other, Answer, answered, failed, CodexDeliveryAck, deliver,
}
use chatta.Services.Codex.Worker.{
  Attempt, Queued, Handled, filtered, delivered, Stop, Round, stop_at, go_on, client_of,
  with_result, locked, handle_record, handle_records, binding_not_current,
}
use chatta.Services.Codex.Progress.{
  Worker, ProgressError, save_codex_progress, codex_binding_current,
}

abbrev pub item_of : Handled → MessageRecord
item_of (filtered r) = r
item_of (delivered r t a) = r

abbrev pub addressed : Worker → CodexBinding → MessageRecord → Bool
addressed w b r = addressed_to w.unicode w.folding r.message w.nick b

-- Why a record may be passed: it is not for the agent, or the app-server acknowledged it.
abbrev pub Justified : Worker → CodexBinding → Handled → Type 0
Justified w b (filtered r) = addressed w b r ≡ false
Justified w b (delivered r t a) =
    (addressed w b r ≡ true)
    × (r.message.event_id ≢ [])
    × (o : ℤ) × (slot : Slot) × ((deliver w.folding (client_of w t (record b { offset = o }) slot)
          t.server (format_codex_event r.message w.nick)).result
        ≡ answered a)

abbrev pub last_offset : ℤ → List Handled → ℤ
last_offset o [] = o
last_offset o (h ∷ hs) = last_offset (pos (item_of h).offset) hs

pub record Passed (w : Worker) (b : CodexBinding) (items : List MessageRecord) (round : Round)
    : Type 0 where
  pub left : List MessageRecord
  pub in_order : items ≡ map item_of round.handled ++ left
  pub justified : All (Justified w b) round.handled
  pub cursor : round.binding ≡ record b { offset = last_offset b.offset round.handled }

stop_at-Passed :
    (w : Worker) (b : CodexBinding) (items : List MessageRecord) (slot : Slot) (why : Stop)
    → Passed w b items (stop_at b slot why)
stop_at-Passed w b items slot why = record {
  left = items;
  in_order = refl;
  justified = tt;
  cursor = refl;
}

-- What holds of a record holds wherever the cursor stands.
Justified-offset :
    (w : Worker) (b : CodexBinding) (o : ℤ) (h : Handled)
    → Justified w (record b { offset = o }) h
    → Justified w b h
unfolding addressed_to
Justified-offset w b o (filtered r) j = j
Justified-offset w b o (delivered r t a) j = j

false_by_negation : {b : Bool} → not b ≡ true → b ≡ false
false_by_negation {b = b} h = ground arith

true_by_negation : {b : Bool} → not b ≡ false → b ≡ true
true_by_negation {b = b} h = ground arith

module _ (w : Worker) (items : List MessageRecord) (next : CodexBinding → Slot → Round)
    (ih : (b : CodexBinding) (slot : Slot) → Passed w b items (next b slot)) where
  go_on-Passed :
      (h : Handled) (b : CodexBinding) (saved : Slot × Option ProgressError)
      → Justified w b h
      → Passed w b (item_of h ∷ items) (go_on next h b (pos (item_of h).offset) saved)
  go_on-Passed h b (slot, some e) j = stop_at-Passed w b _ slot _
  go_on-Passed h b (slot, none) j =
      let o = pos (item_of h).offset in
      let p = ih (record b { offset = o }) slot in
      record {
        left = p.left;
        in_order = ap (◌∷◌ (item_of h)) p.in_order;
        justified = (j, All-imp (Justified-offset w b o) _ p.justified);
        cursor = p.cursor;
      }

  with_result-Passed :
      (b : CodexBinding) (r : MessageRecord) (t : Attempt) (slot : Slot)
      (result : Answer CodexDeliveryAck)
      → ((a : CodexDeliveryAck) → result ≡ answered a → Justified w b (delivered r t a))
      → Passed w b (r ∷ items) (with_result w next b r t slot result)
  with_result-Passed b r t slot (failed binding_changed) j = stop_at-Passed w b _ _ _
  with_result-Passed b r t slot (failed (unavailable s m)) j = stop_at-Passed w b _ _ _
  with_result-Passed b r t slot (failed (rpc s c m)) j = stop_at-Passed w b _ _ _
  with_result-Passed b r t slot (failed (other m)) j = stop_at-Passed w b _ _ _
  with_result-Passed b r t slot (answered a) j =
      go_on-Passed (delivered r t a) b (save_codex_progress w t.at_save b (pos r.offset) true slot)
        (j a refl)

  locked-Passed :
      (b : CodexBinding) (r : MessageRecord) (t : Attempt) (slot : Slot) (o : Option Text)
      → addressed w b r ≡ true
      → r.message.event_id ≢ []
      → Passed w b (r ∷ items) (locked w next b r t slot o)
  locked-Passed b r t slot (some e) to_me named = stop_at-Passed w b _ _ _
  locked-Passed b r t slot none to_me named =
      let seen = t.at_check.others slot in
      let result =
        (deliver w.folding (client_of w t b seen) t.server
          (format_codex_event r.message w.nick)).result in
      if_intro (Passed w b (r ∷ items)) (not (codex_binding_current w t.at_check b seen))
        (stop_at b seen binding_not_current) (with_result w next b r t seen result)
        (λ e. stop_at-Passed w b _ seen binding_not_current)
        (λ e. with_result-Passed b r t seen result (λ a done. (to_me, named, b.offset, seen, done)))

  handle_record-Passed :
      (b : CodexBinding) (r : MessageRecord) (t : Attempt) (slot : Slot)
      → Passed w b (r ∷ items) (handle_record w next b r t slot)
  unfolding handle_record
  handle_record-Passed b r t slot =
      if_intro (Passed w b (r ∷ items)) t.cancelled _ _ (λ e. stop_at-Passed w b _ _ _)
        (λ e.
          if_intro (Passed w b (r ∷ items)) (not (addressed w b r)) _ _
            (λ not_mine.
              go_on-Passed (filtered r) b
                (save_codex_progress w t.at_save b (pos r.offset) false slot)
                (false_by_negation not_mine))
            (λ mine.
              if_intro (Passed w b (r ∷ items)) (is_empty r.message.event_id) _ _
                (λ e. stop_at-Passed w b _ _ _)
                (λ named.
                  locked-Passed b r t slot t.lock (true_by_negation mine)
                    (ne_nil_of_test r.message.event_id named))))

-- The records that a round handles are the first ones of the queue, in order, and the cursor stands
-- behind the last of them. Each of them is not addressed to the agent, or the app-server has
-- acknowledged it: whatever fails and whatever others do to the binding file meanwhile, the cursor
-- never passes an addressed message that was not acknowledged.
pub handle_records-Passed :
    (w : Worker) (b : CodexBinding) (qs : List Queued) (slot : Slot)
    → Passed w b (map (λ q. q.item) qs) (handle_records w b qs slot)
unfolding handle_records
handle_records-Passed w b [] slot = stop_at-Passed w b [] slot _
handle_records-Passed w b (q ∷ qs) slot =
    handle_record-Passed w (map (λ q. q.item) qs) (λ b' slot'. handle_records w b' qs slot')
      (λ b' slot'. handle_records-Passed w b' qs slot') b q.item q.attempt slot
