-- ===== src/Services/Codex/Queue/Blocked.antt =====
-- pkg/services/codex_binding.go: the queue that the status reports behind a record of the store that
-- does not decode.
use chatta.Prelude.{
  all-append, length, all, length-append, ℕ, ◌+◌, ◌-◌, ◌≡◌, sym, ap, ◌∙◌, true, none, some, List,
  [], ◌∷◌, ◌++◌, map, append_assoc, arith,
}
use chatta.Prelude.Int.{pos}
use chatta.Text.Basic.{Text}
use chatta.Common.{StoredMessage, CodexQueueStatus}
use chatta.Dal.AtomicFile.{Bytes}
use chatta.Dal.Store.{
  MessageCodec, MessageRecord, content, ReadError, invalid_record, Scan, batch_of,
  read_complete_message_records,
}
use chatta.Dal.Store.Lines.{is_line, unlines, scan_lines, lined, Lined, read-lined, unlines-append}
use chatta.Dal.Store.Delivery.{encoded, encoded-IsLines, records_from}
use chatta.Services.Codex.Queue.{behind, queue_of, inspect_codex_queue}
use chatta.Services.Codex.Queue.Waiting.{length-records_from}

-- A queue that stops at this offset.
abbrev pub stuck_at : (ReadError → Text) → ℕ → ℕ → ℕ → CodexQueueStatus
stuck_at describe offset records bytes = record {
  pending_records = records;
  pending_bytes = pos bytes;
  blocked = true;
  error_offset = some (pos offset);
  error = describe (invalid_record offset);
}

abbrev stopped : List MessageRecord → ℕ → Scan
stopped records n = record { found = records; stop = n; bad = true }

scan_lines-stopped :
    (codec : MessageCodec) (start : ℕ) (ms : List StoredMessage) (line : Bytes) (ls : List Bytes)
    → codec.decode line ≡ none
    → scan_lines codec.decode start (map codec.encode ms ++ line ∷ ls)
      ≡ stopped (records_from codec start ms) (start + length (encoded codec ms))
scan_lines-stopped codec start [] line ls h = rw h (ap (stopped []) (omega arith))
scan_lines-stopped codec start (m ∷ ms) line ls h =
    let later = scan_lines-stopped codec (start + length (codec.encode m) + 1) ms line ls h in
    rw (codec.decode-encode m, later, length-append (codec.encode m) (b'\n' ∷ encoded codec ms))
      (ap (stopped (records_from codec start (m ∷ ms))) (omega arith))

-- Messages, then a line, then anything, as lines and an open end.
messages_line :
    (codec : MessageCodec) (ms : List StoredMessage) (line rest : Bytes) (d : Lined rest)
    → encoded codec ms ++ (line ++ (b'\n' ∷ rest))
      ≡ unlines (map codec.encode ms ++ line ∷ d.lines) ++ d.rest
messages_line codec ms line rest d =
    ap (λ s. encoded codec ms ++ (line ++ (b'\n' ∷ s))) d.whole
    ∙ ap (◌++◌ (encoded codec ms)) (sym (append_assoc line (b'\n' ∷ unlines d.lines) d.rest))
    ∙ sym (append_assoc (encoded codec ms) (unlines (line ∷ d.lines)) d.rest)
    ∙ ap (λ s. s ++ d.rest) (sym (unlines-append (map codec.encode ms) (line ∷ d.lines)))

messages_line-IsLines :
    (codec : MessageCodec) (ms : List StoredMessage) (line : Bytes) (ls : List Bytes)
    → is_line line ≡ true
    → all is_line ls ≡ true
    → all is_line (map codec.encode ms ++ line ∷ ls) ≡ true
messages_line-IsLines codec ms line ls h k =
    rw (all-append is_line (map codec.encode ms) (line ∷ ls), encoded-IsLines codec ms, h, k)

-- A line in the store that does not decode blocks the queue: whatever stands behind it, the status
-- counts the messages in front of it and all the bytes behind the binding's offset, and names the
-- offset at which the line starts.
pub inspect_codex_queue-blocked :
    (describe : ReadError → Text) (codec : MessageCodec) (ms : List StoredMessage)
    (bytes line rest : Bytes)
    → codec.decode line ≡ none
    → is_line line ≡ true
    → inspect_codex_queue none describe codec
        (content (bytes ++ (encoded codec ms ++ (line ++ (b'\n' ∷ rest)))))
        (pos (length bytes))
      ≡ stuck_at describe
          (length bytes + length (encoded codec ms))
          (length ms)
          (length (encoded codec ms ++ (line ++ (b'\n' ∷ rest))))
unfolding inspect_codex_queue
inspect_codex_queue-blocked describe codec ms bytes line rest undecoded one_line =
    let d = lined rest in
    let tail = encoded codec ms ++ (line ++ (b'\n' ∷ rest)) in
    let size = length (bytes ++ tail) in
    let offset = length bytes + length (encoded codec ms) in
    let left : size - length bytes ≡ length tail = omega (arith, length-append bytes tail) in
    let batch : read_complete_message_records codec (content (bytes ++ tail)) (pos (length bytes))
        ≡ batch_of (stopped (records_from codec (length bytes) ms) offset) =
      ap (λ s. read_complete_message_records codec (content (bytes ++ s)) (pos (length bytes)))
        (messages_line codec ms line rest d)
      ∙ read-lined codec bytes (map codec.encode ms ++ line ∷ d.lines) d.rest
          (messages_line-IsLines codec ms line d.lines one_line d.are_lines) d.open_end
      ∙ ap batch_of (scan_lines-stopped codec (length bytes) ms line d.lines undecoded) in
    ap (λ b. queue_of describe (behind size (pos (length bytes))) b b.error) batch
    ∙ ap (λ n. stuck_at describe offset n (size - length bytes))
        (length-records_from codec (length bytes) ms)
    ∙ ap (stuck_at describe offset (length ms)) left
