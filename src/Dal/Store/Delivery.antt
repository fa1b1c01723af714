-- ===== src/Dal/Store/Delivery.antt =====
-- What is appended to the store, and what a reader then finds.
use chatta.Prelude.{
  length, all, length-append, ℕ, ◌+◌, ◌≡◌, refl, sym, ap, ◌∙◌, true, false, Option, none, some,
  List, [], ◌∷◌, ◌++◌, map, append-nil, append_assoc, arith,
}
use chatta.Prelude.Int.{pos}
use chatta.Common.{StoredMessage}
use chatta.Dal.AtomicFile.{Bytes, Faults}
use chatta.Dal.Store.{
  MessageCodec, content, MessageRecord, Batch, Scan, read_complete_message_records, batch_of,
  append_message, or_nothing,
}
use chatta.Dal.Store.Lines.{is_line, unlines, scan_lines, read-lined}

-- No system call fails.
abbrev pub no_faults : Faults
no_faults = record {
  mkdir = none;
  create = none;
  write = none;
  written = [];
  chmod = none;
  close = none;
  rename = none;
  remove = none;
}

-- A sequence of successful appends.
abbrev pub appended : MessageCodec → List StoredMessage → Option Bytes → Option Bytes
appended codec [] file = file
appended codec (m ∷ ms) file = appended codec ms (append_message codec no_faults m file).0

abbrev pub encoded : MessageCodec → List StoredMessage → Bytes
encoded codec ms = unlines (map codec.encode ms)

pub appended-encoded :
    (codec : MessageCodec) (ms : List StoredMessage) (bytes : Bytes)
    → appended codec ms (some bytes) ≡ some (bytes ++ encoded codec ms)
unfolding append_message
appended-encoded codec [] bytes = ap some (sym (append-nil bytes))
appended-encoded codec (m ∷ ms) bytes =
    appended-encoded codec ms (bytes ++ (codec.encode m ++ b'\n' ∷ []))
    ∙ ap some (
        append_assoc bytes (codec.encode m ++ b'\n' ∷ []) (encoded codec ms)
        ∙ ap (◌++◌ bytes) (append_assoc (codec.encode m) (b'\n' ∷ []) (encoded codec ms)))

pub encoded-IsLines :
    (codec : MessageCodec) (ms : List StoredMessage) → all is_line (map codec.encode ms) ≡ true
encoded-IsLines codec [] = refl
encoded-IsLines codec (m ∷ ms) = rw (codec.encode-one_line m, encoded-IsLines codec ms)

-- What a reader that starts at `start` finds of these messages.
abbrev pub records_from : MessageCodec → ℕ → List StoredMessage → List MessageRecord
records_from codec start [] = []
records_from codec start (m ∷ ms) =
    let end = start + length (codec.encode m) + 1 in
    (record { message = m; offset = end }) ∷ records_from codec end ms

abbrev found_until : List MessageRecord → ℕ → Scan
found_until found n = record { found = found; stop = n; bad = false }

scan_lines-encoded :
    (codec : MessageCodec) (start : ℕ) (ms : List StoredMessage)
    → scan_lines codec.decode start (map codec.encode ms) ≡ record {
      found = records_from codec start ms;
      stop = start + length (encoded codec ms);
      bad = false;
    }
scan_lines-encoded codec start [] =
    ap (λ n. record { found = []; stop = n; bad = false }) (omega arith)
scan_lines-encoded codec start (m ∷ ms) =
    let later = scan_lines-encoded codec (start + length (codec.encode m) + 1) ms in
    rw (codec.decode-encode m, later, length-append (codec.encode m) (b'\n' ∷ encoded codec ms))
      (ap (found_until (records_from codec start (m ∷ ms))) (omega arith))

abbrev batch_until : List MessageRecord → ℕ → Batch
batch_until records n = record { records = records; next = pos n; error = none }

-- Messages appended after a reader's offset, at the end of any content, are exactly what the reader
-- gets next: each with the offset behind it, and the next offset is the end of the file.
pub read_complete-append :
    (codec : MessageCodec) (ms : List StoredMessage) (bytes : Bytes)
    → read_complete_message_records codec
        (content (or_nothing (appended codec ms (some bytes))))
        (pos (length bytes))
      ≡ record {
        records = records_from codec (length bytes) ms;
        next = pos (length (or_nothing (appended codec ms (some bytes))));
        error = none;
      }
read_complete-append codec ms bytes =
    let whole : appended codec ms (some bytes) ≡ some (bytes ++ (encoded codec ms ++ [])) =
      appended-encoded codec ms bytes
      ∙ ap (λ s. some (bytes ++ s)) (sym (append-nil (encoded codec ms))) in
    ap (λ s. read_complete_message_records codec (content (or_nothing s)) (pos (length bytes)))
      whole
    ∙ read-lined codec bytes (map codec.encode ms) [] (encoded-IsLines codec ms) refl
    ∙ ap batch_of (scan_lines-encoded codec (length bytes) ms)
    ∙ ap (batch_until (records_from codec (length bytes) ms)) (
        sym (length-append bytes (encoded codec ms))
        ∙ ap (λ s. length (or_nothing s)) (sym (appended-encoded codec ms bytes)))
