-- ===== src/Services/Codex/Worker/Rounds.antt =====
-- pkg/services/codex.go: one turn of the worker's loop, and how the next one goes on.
use chatta.Prelude.{
  if◌then◌else◌, ℕ, suc, ◌≡◌, refl, sym, ap, ◌∙◌, false, not, ◌||◌, Option, none, some, List, [],
  ◌∷◌, ◌++◌, map, append_assoc,
}
use chatta.Prelude.Int.{ℤ, pos, ltb_ℤ}
use chatta.Text.Basic.{eq_text}
use chatta.Common.{CodexBinding}
use chatta.Dal.AtomicFile.{Bytes, Slot}
use chatta.Dal.Binding.{Loaded, loaded, refused, load_codex_binding}
use chatta.Dal.Store.{
  MessageCodec, File, content, MessageRecord, Batch, ReadError, failed, negative_offset,
  invalid_record, read_complete_message_records,
}
use chatta.Dal.Store.Resume.{read_complete-resume}
use chatta.Services.Codex.Worker.{Attempt, Queued, Handled, Stop, Round, stop_at, handle_records}
use chatta.Services.Codex.Progress.{Worker, Moment, save_codex_progress}
use chatta.Services.Codex.Worker.Cursor.{item_of, last_offset, handle_records-Passed}

-- The records with what the environment does at each.
abbrev pub queue : (ℕ → Attempt) → ℕ → List MessageRecord → List Queued
queue attempts n [] = []
queue attempts n (r ∷ rs) = (record { item = r; attempt = attempts n }) ∷ queue attempts (suc n) rs

abbrev handle_queue : Worker → Moment → CodexBinding → ℤ → List Queued → Slot → Round
handle_queue w t b next [] slot =
    if ltb_ℤ b.offset next
    then stop_at b (save_codex_progress w t b next false slot).0 Stop.finished
    else stop_at b slot Stop.finished
handle_queue w t b next (q ∷ qs) slot = handle_records w b (q ∷ qs) slot

-- An error other than an invalid record ends the turn.
abbrev handle_batch :
    Worker → Moment → CodexBinding → (ℕ → Attempt) → Slot → Batch → Option ReadError → Option Round
handle_batch w t b attempts slot batch (some (failed e)) = none
handle_batch w t b attempts slot batch (some negative_offset) = none
handle_batch w t b attempts slot batch (some (invalid_record n)) =
    some (handle_queue w t b batch.next (queue attempts 0 batch.records) slot)
handle_batch w t b attempts slot batch none =
    some (handle_queue w t b batch.next (queue attempts 0 batch.records) slot)

abbrev handle_loaded :
    Worker → Moment → MessageCodec → File → (ℕ → Attempt) → Slot → Loaded → Option Round
handle_loaded w t codec file attempts slot (refused e) = none
handle_loaded w t codec file attempts slot (loaded b) =
    if not b.enabled || not (eq_text b.session_id w.session_id)
    then none
    else let batch = read_complete_message_records codec file b.offset in
      handle_batch w t b attempts slot batch batch.error

-- One turn of the loop, `none` where it leaves the queue alone.
unfoldable pub worker_turn :
    Worker → Moment → Moment → MessageCodec → File → (ℕ → Attempt) → Slot → Option Round
worker_turn w at_load at_skip codec file attempts slot =
    let seen = at_load.others slot in
    handle_loaded w at_skip codec file attempts seen
      (load_codex_binding w.codec at_load.read_fault seen)

items_of_queue :
    (attempts : ℕ → Attempt) (n : ℕ) (rs : List MessageRecord)
    → map (λ q. q.item) (queue attempts n rs) ≡ rs
items_of_queue attempts n [] = refl
items_of_queue attempts n (r ∷ rs) = ap (◌∷◌ r) (items_of_queue attempts (suc n) rs)

-- The last of some handled records.
record Last (o : ℤ) (hs : List Handled) : Type 0 where
  before : List MessageRecord
  item : MessageRecord
  whole : map item_of hs ≡ before ++ item ∷ []
  at : last_offset o hs ≡ pos item.offset

Last-cons : (o : ℤ) (h : Handled) (hs : List Handled) → Last o (h ∷ hs)
Last-cons o h [] = record { before = []; item = item_of h; whole = refl; at = refl }
Last-cons o h (k ∷ hs) =
    let l = Last-cons (pos (item_of h).offset) k hs in
    record {
      before = item_of h ∷ l.before;
      item = l.item;
      whole = ap (◌∷◌ (item_of h)) l.whole;
      at = l.at;
    }

read_on :
    (codec : MessageCodec) (bytes : Bytes) (n : ℕ) (hs : List Handled) (left : List MessageRecord)
    → (read_complete_message_records codec (content bytes) (pos n)).records ≡ map item_of hs ++ left
    → (read_complete_message_records codec (content bytes) (last_offset (pos n) hs)).records ≡ left
read_on codec bytes n [] left h = h
read_on codec bytes n (k ∷ hs) left h =
    let l = Last-cons (pos n) k hs in
    let split = h ∙ ap (λ xs. xs ++ left) l.whole ∙ append_assoc l.before (l.item ∷ []) left in
    ap (λ o. (read_complete_message_records codec (content bytes) o).records) l.at
    ∙ ap (λ b. b.records) (read_complete-resume codec bytes n l.before l.item left split)

-- Between two rounds no record is skipped, and none that the first has passed is read again: where a
-- round handles what was read at the cursor of the binding, the records that it passed and those
-- that a read at its cursor gives are together, in order, exactly the ones that were read, whatever
-- failed in it. What the round has not passed, acknowledged or not, is read again.
pub handle_records-resume :
    (w : Worker) (b : CodexBinding) (n : ℕ) (codec : MessageCodec) (bytes : Bytes)
    (attempts : ℕ → Attempt) (slot : Slot)
    → b.offset ≡ pos n
    → let batch = read_complete_message_records codec (content bytes) (pos n) in
      let round = handle_records w b (queue attempts 0 batch.records) slot in
      batch.records
      ≡ map item_of round.handled
        ++ (read_complete_message_records codec (content bytes) round.binding.offset).records
handle_records-resume w b n codec bytes attempts slot h =
    let batch = read_complete_message_records codec (content bytes) (pos n) in
    let p = handle_records-Passed w b (queue attempts 0 batch.records) slot in
    let split = sym (items_of_queue attempts 0 batch.records) ∙ p.in_order in
    let handled = (handle_records w b (queue attempts 0 batch.records) slot).handled in
    let cursor = ap (λ x. x.offset) p.cursor ∙ ap (λ o. last_offset o handled) h in
    split
    ∙ ap (◌++◌ (map item_of handled)) (
        sym (read_on codec bytes n handled p.left split)
        ∙ ap (λ o. (read_complete_message_records codec (content bytes) o).records) (sym cursor))
