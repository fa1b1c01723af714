-- ===== src/Services/Codex/Queue/Waiting.antt =====
-- pkg/services/codex_binding.go: the queue that the status reports and what the store received.
use chatta.Prelude.{
  length, length-append, ℕ, suc, ◌+◌, ◌-◌, ◌≡◌, refl, ap, ◌∙◌, false, none, some, List, [], ◌∷◌,
  arith,
}
use chatta.Prelude.Int.{pos}
use chatta.Text.Basic.{Text}
use chatta.Common.{StoredMessage, CodexQueueStatus}
use chatta.Dal.AtomicFile.{Bytes}
use chatta.Dal.Store.{MessageCodec, content, ReadError, or_nothing}
use chatta.Dal.Store.Delivery.{
  appended, encoded, appended-encoded, records_from, read_complete-append,
}
use chatta.Services.Codex.Queue.{behind, queue_of, inspect_codex_queue}

-- A queue in which nothing is wrong.
abbrev pub waiting : ℕ → ℕ → CodexQueueStatus
waiting records bytes = record {
  pending_records = records;
  pending_bytes = pos bytes;
  blocked = false;
  error_offset = none;
  error = [];
}

pub length-records_from :
    (codec : MessageCodec) (start : ℕ) (ms : List StoredMessage)
    → length (records_from codec start ms) ≡ length ms
length-records_from codec start [] = refl
length-records_from codec start (m ∷ ms) =
    ap suc (length-records_from codec (start + length (codec.encode m) + 1) ms)

length-appended :
    (codec : MessageCodec) (ms : List StoredMessage) (bytes : Bytes)
    → length (or_nothing (appended codec ms (some bytes)))
      ≡ length bytes + length (encoded codec ms)
length-appended codec ms bytes =
    ap (λ s. length (or_nothing s)) (appended-encoded codec ms bytes)
    ∙ length-append bytes (encoded codec ms)

-- Whatever a binding has read, the queue behind its offset is, after some more messages were
-- appended, exactly these messages: their number, the bytes of their lines, and no error.
pub inspect_codex_queue-append :
    (describe : ReadError → Text) (codec : MessageCodec) (ms : List StoredMessage) (bytes : Bytes)
    → inspect_codex_queue none describe codec
        (content (or_nothing (appended codec ms (some bytes))))
        (pos (length bytes))
      ≡ waiting (length ms) (length (encoded codec ms))
unfolding inspect_codex_queue
inspect_codex_queue-append describe codec ms bytes =
    let size = length (or_nothing (appended codec ms (some bytes))) in
    let left : size - length bytes ≡ length (encoded codec ms) =
      omega (arith, length-appended codec ms bytes) in
    ap (λ batch. queue_of describe (behind size (pos (length bytes))) batch batch.error)
      (read_complete-append codec ms bytes)
    ∙ ap (λ n. waiting n (size - length bytes)) (length-records_from codec (length bytes) ms)
    ∙ ap (waiting (length ms)) left
