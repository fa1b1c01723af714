-- ===== src/Dal/Store.antt =====
-- pkg/dal/tail.go and pkg/dal/store.go: the message store, one JSON record to a line, read from
-- byte offsets.
-- `encoding/json` is an interface: a record is written without a line end in it and read back.
pub mod Lines
pub mod Delivery
pub mod Inbox
pub mod Resume
use chatta.Prelude.{
  ltb, ◌==◌, if◌then◌else◌, length, drop, all, ℕ, ◌+◌, ◌≡◌, ◌≢◌, Bool, true, false, not, Option,
  none, some, List, [], ◌∷◌, ◌++◌,
}
use chatta.Prelude.Int.{ℤ, pos, negsuc}
use chatta.Text.Basic.{Text}
use chatta.Text.Trim.{trim_right}
use chatta.Common.{StoredMessage}
use chatta.Dal.AtomicFile.{Bytes, Faults}

abbrev pub is_not_newline : ℕ → Bool
is_not_newline c = not (c == b'\n')

-- `json.Marshal` and `json.Unmarshal` of one stored message.
pub record MessageCodec : Type 0 where
  pub encode : StoredMessage → Bytes
  pub decode : Bytes → Option StoredMessage
  pub encode-ne-nil : (m : StoredMessage) → encode m ≢ []
  pub encode-one_line : (m : StoredMessage) → all is_not_newline (encode m) ≡ true
  pub decode-encode : (m : StoredMessage) → decode (encode m) ≡ some m

-- What opening and reading the file gives: it is missing, or a call fails, or it has a content.
pub data File : Type 0 where
  missing : File
  broken : Text → File
  content : Bytes → File

pub record MessageRecord : Type 0 where
  pub message : StoredMessage
  -- The offset behind the record.
  pub offset : ℕ

pub data ReadError : Type 0 where
  failed : Text → ReadError
  negative_offset : ReadError
  invalid_record : ℕ → ReadError

-- The result of a read: the records, the next offset, and the error, if any.
pub record Batch : Type 0 where
  pub records : List MessageRecord
  pub next : ℤ
  pub error : Option ReadError

-- The bytes up to the last line end, and none where there is none: `data[:end]`.
unfoldable pub complete_part : Bytes → Bytes
complete_part = trim_right is_not_newline

-- The loop over the lines. `start` is the offset of the line, `line` what has been read of it.
pub record Scan : Type 0 where
  pub found : List MessageRecord
  pub stop : ℕ
  pub bad : Bool

abbrev found_record : ℕ → Option StoredMessage → ℕ → Scan → Scan
found_record start none end later = record { found = []; stop = start; bad = true }
found_record start (some m) end later = record later {
  found = (record { message = m; offset = end }) ∷ later.found;
}

unfoldable pub scan : (Bytes → Option StoredMessage) → ℕ → Bytes → Bytes → Scan
scan decode start line [] = record { found = []; stop = start; bad = false }
scan decode start line (c ∷ s) =
    let end = start + length line + 1 in
    let ends = c == b'\n' in
    let later = scan decode (if ends then end else start) (if ends then [] else line ++ c ∷ []) s in
    if ends then found_record start (decode line) end later else later

abbrev pub batch_of : Scan → Batch
batch_of s = record {
  records = s.found;
  next = pos s.stop;
  error = if s.bad then some (invalid_record s.stop) else none;
}

-- `if info.Size() < offset { offset = 0 }`
abbrev pub rewound : Bytes → ℕ → ℕ
rewound bytes offset = if ltb (length bytes) offset then 0 else offset

unfoldable pub read_complete_message_records : MessageCodec → File → ℤ → Batch
read_complete_message_records codec missing offset = record {
  records = [];
  next = offset;
  error = none;
}
read_complete_message_records codec (broken e) offset = record {
  records = [];
  next = offset;
  error = some (failed e);
}
read_complete_message_records codec (content bytes) (negsuc n) = record {
  records = [];
  next = negsuc n;
  error = some negative_offset;
}
read_complete_message_records codec (content bytes) (pos n) =
    let offset = rewound bytes n in
    batch_of (scan codec.decode offset [] (complete_part (drop offset bytes)))

abbrev pub or_nothing : Option Bytes → Bytes
or_nothing none = []
or_nothing (some bytes) = bytes

-- `os.MkdirAll`, `os.OpenFile`, which creates a missing file, and one `f.Write` at the end of it.
unfoldable pub append_message :
    MessageCodec → Faults → StoredMessage → Option Bytes → Option Bytes × Option Text
append_message codec f m file = elim f.mkdir [
  | some e ↦ (file, some e)
  | none ↦ elim f.create [
    | some e ↦ (file, some e)
    | none ↦ elim f.write [
      | some e ↦ (some (or_nothing file ++ f.written), some e)
      | none ↦ (some (or_nothing file ++ (codec.encode m ++ b'\n' ∷ [])), none)
    ]
  ]
]

-- `strings.Split(s, "\n")`
abbrev onto_first : ℕ → List Bytes → List Bytes
onto_first c [] = (c ∷ []) ∷ []
onto_first c (l ∷ ls) = (c ∷ l) ∷ ls

unfoldable pub split_lines : Bytes → List Bytes
split_lines [] = [] ∷ []
split_lines (c ∷ s) =
    let later = split_lines s in if c == b'\n' then [] ∷ later else onto_first c later

-- `strings.TrimSuffix(s, "\n")`
abbrev without_first : ℕ → Bytes → Bytes → Bytes
without_first c [] trimmed = if c == b'\n' then [] else c ∷ []
without_first c (d ∷ s) trimmed = c ∷ trimmed

unfoldable pub trim_newline : Bytes → Bytes
trim_newline [] = []
trim_newline (c ∷ s) = without_first c s (trim_newline s)

-- `if len(lines) == 1 && lines[0] == "" { lines = nil }`
abbrev some_lines : List Bytes → List Bytes
some_lines [] = []
some_lines ([] ∷ []) = []
some_lines ([] ∷ l ∷ ls) = [] ∷ l ∷ ls
some_lines ((c ∷ l) ∷ ls) = (c ∷ l) ∷ ls

pub record Tailed : Type 0 where
  pub lines : List Bytes
  pub next : ℤ
  pub error : Option ReadError

unfoldable pub tail : File → ℤ → Tailed
tail missing offset = record { lines = []; next = offset; error = none }
tail (broken e) offset = record { lines = []; next = offset; error = some (failed e) }
tail (content bytes) (negsuc n) = record {
  lines = [];
  next = negsuc n;
  error = some negative_offset;
}
tail (content bytes) (pos n) =
    let offset = rewound bytes n in
    let read = drop offset bytes in
    record {
      lines = some_lines (split_lines (trim_newline read));
      next = pos (offset + length read);
      error = none;
    }

-- Skips the lines that are no record.
abbrev with_message : Option StoredMessage → List StoredMessage → List StoredMessage
with_message none later = later
with_message (some m) later = m ∷ later

unfoldable pub parsed : (Bytes → Option StoredMessage) → List Bytes → List StoredMessage
parsed decode [] = []
parsed decode (l ∷ ls) = with_message (decode l) (parsed decode ls)

pub record Messages : Type 0 where
  pub messages : List StoredMessage
  pub next : ℤ
  pub error : Option ReadError

abbrev messages_of : MessageCodec → ℤ → Tailed → Option ReadError → Messages
messages_of codec offset t (some e) = record { messages = []; next = offset; error = some e }
messages_of codec offset t none = record {
  messages = parsed codec.decode t.lines;
  next = t.next;
  error = none;
}

unfoldable pub read_messages : MessageCodec → File → ℤ → Messages
read_messages codec file offset = let t = tail file offset in messages_of codec offset t t.error
