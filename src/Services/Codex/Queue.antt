-- ===== src/Services/Codex/Queue.antt =====
-- pkg/services/codex_binding.go: what waits in the message store behind an offset.
pub mod Waiting
pub mod Blocked
use chatta.Prelude.{length, ℕ, ◌+◌, ◌-◌, true, false, Option, none, some, [], ◌++◌}
use chatta.Prelude.Int.{ℤ, pos, negsuc}
use chatta.Text.Basic.{Text, codes}
use chatta.Common.{CodexQueueStatus}
use chatta.Dal.Store.{
  MessageCodec, File, missing, broken, content, Batch, ReadError, failed, negative_offset,
  invalid_record, read_complete_message_records,
}

-- The number of bytes behind an offset, at least 0.
abbrev pub behind : ℕ → ℤ → ℤ
behind size (pos n) = pos (size - n)
behind size (negsuc n) = pos (size + n + 1)

abbrev pub size_of : File → ℕ
size_of missing = 0
size_of (broken e) = 0
size_of (content bytes) = length bytes

-- `ReadError.Error()` is the argument `describe`.
abbrev pub queue_of : (ReadError → Text) → ℤ → Batch → Option ReadError → CodexQueueStatus
queue_of describe bytes batch none = record {
  pending_records = length batch.records;
  pending_bytes = bytes;
  blocked = false;
  error_offset = none;
  error = [];
}
queue_of describe bytes batch (some (invalid_record n)) = record {
  pending_records = length batch.records;
  pending_bytes = bytes;
  blocked = true;
  error_offset = some (pos n);
  error = describe (invalid_record n);
}
queue_of describe bytes batch (some (failed e)) = record {
  pending_records = length batch.records;
  pending_bytes = bytes;
  blocked = true;
  error_offset = none;
  error = describe (failed e);
}
queue_of describe bytes batch (some negative_offset) = record {
  pending_records = length batch.records;
  pending_bytes = bytes;
  blocked = true;
  error_offset = none;
  error = describe negative_offset;
}

-- The first argument is the error of `os.Stat`, other than that the file is missing.
unfoldable pub inspect_codex_queue :
    Option Text → (ReadError → Text) → MessageCodec → File → ℤ → CodexQueueStatus
inspect_codex_queue (some e) describe codec file offset = record {
  pending_records = 0;
  pending_bytes = pos 0;
  blocked = true;
  error_offset = none;
  error = codes "stat Codex message queue: " ++ e;
}
inspect_codex_queue none describe codec missing offset =
    let batch = read_complete_message_records codec missing offset in
    queue_of describe (pos 0) batch batch.error
inspect_codex_queue none describe codec (broken e) offset =
    let batch = read_complete_message_records codec (broken e) offset in
    queue_of describe (behind (size_of (broken e)) offset) batch batch.error
inspect_codex_queue none describe codec (content bytes) offset =
    let batch = read_complete_message_records codec (content bytes) offset in
    queue_of describe (behind (length bytes) offset) batch batch.error
