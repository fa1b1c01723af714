-- ===== src/Dal/Store/Resume.antt =====
-- Where a reader of the store can stop and go on.
use chatta.Prelude.{
  and_iff, length, take, drop, all, length-append, length-take, take-drop, all-append,
  append-ne-nil, ℕ, ◌+◌, ◌≤◌, ◌≡◌, refl, sym, ap, ap₂, ◌∙◌, true, Option, none, some, List, [], ◌∷◌,
  ◌++◌, append_assoc, arith,
}
use chatta.Prelude.Int.{pos}
use chatta.Common.{StoredMessage}
use chatta.Dal.AtomicFile.{Bytes}
use chatta.Dal.Store.{
  MessageCodec, content, MessageRecord, Batch, Scan, is_not_newline, read_complete_message_records,
  batch_of, rewound, found_record,
}
use chatta.Dal.Store.Lines.{unlines-append, is_line, unlines, scan_lines, lined, read-lined}

-- The content at an offset inside it: what lies before, then lines, then an open line.
record Cut (bytes : Bytes) (n : ℕ) : Type 0 where
  front : Bytes
  lines : List Bytes
  rest : Bytes
  whole : bytes ≡ front ++ (unlines lines ++ rest)
  here : n ≡ length front
  are_lines : all is_line lines ≡ true
  open_end : is_line rest ≡ true

cut_at : (bytes : Bytes) (n : ℕ) → n ≤ length bytes → Cut bytes n
cut_at bytes n h =
    let d = lined (drop n bytes) in
    record {
      front = take n bytes;
      lines = d.lines;
      rest = d.rest;
      whole = sym (take-drop n bytes) ∙ ap (◌++◌ (take n bytes)) d.whole;
      here = omega (arith, length-take n bytes);
      are_lines = d.are_lines;
      open_end = d.open_end;
    }

read-cut :
    (codec : MessageCodec) {bytes : Bytes} {n : ℕ} (c : Cut bytes n)
    → read_complete_message_records codec (content bytes) (pos n)
      ≡ batch_of (scan_lines codec.decode n c.lines)
read-cut codec c =
    ap₂ (λ s k. read_complete_message_records codec (content s) (pos k)) c.whole c.here
    ∙ read-lined codec c.front c.lines c.rest c.are_lines c.open_end
    ∙ ap (λ k. batch_of (scan_lines codec.decode k c.lines)) (sym c.here)

abbrev longer_cut :
    {bytes : Bytes} {n : ℕ} (t : Bytes) → is_line t ≡ true → Cut bytes n → Cut (bytes ++ t) n
longer_cut t h c = record {
  front = c.front;
  lines = c.lines;
  here = c.here;
  are_lines = c.are_lines;
  rest = c.rest ++ t;
  whole =
      ap (λ s. s ++ t) c.whole
      ∙ append_assoc c.front (unlines c.lines ++ c.rest) t
      ∙ ap (◌++◌ c.front) (append_assoc (unlines c.lines) c.rest t);
  open_end = rw (all-append is_not_newline c.rest t, c.open_end, h);
}

-- Bytes with no line end, appended by a writer that is not done, change nothing of what a reader
-- gets at any offset inside the file.
pub read_complete-partial_line :
    (codec : MessageCodec) (bytes t : Bytes) (n : ℕ)
    → n ≤ length bytes
    → is_line t ≡ true
    → read_complete_message_records codec (content (bytes ++ t)) (pos n)
      ≡ read_complete_message_records codec (content bytes) (pos n)
read_complete-partial_line codec bytes t n h k =
    let c = cut_at bytes n h in read-cut codec (longer_cut t k c) ∙ sym (read-cut codec c)

split_whole :
    {bytes : Bytes} {ls : List Bytes} (xs ys : List Bytes) (front rest : Bytes)
    → bytes ≡ front ++ (unlines ls ++ rest)
    → ls ≡ xs ++ ys
    → bytes ≡ (front ++ unlines xs) ++ (unlines ys ++ rest)
split_whole xs ys front rest whole split =
    whole
    ∙ ap (λ l. front ++ (unlines l ++ rest)) split
    ∙ ap (λ s. front ++ (s ++ rest)) (unlines-append xs ys)
    ∙ ap (◌++◌ front) (append_assoc (unlines xs) (unlines ys) rest)
    ∙ sym (append_assoc front (unlines xs) (unlines ys ++ rest))

-- The lines behind a record, and the scan of them alone.
record GoesOn (decode : Bytes → Option StoredMessage) (start : ℕ) (ls : List Bytes) (s : Scan)
    (r : MessageRecord) (behind : List MessageRecord) : Type 0 where
  passed : List Bytes
  left : List Bytes
  split : ls ≡ passed ++ left
  at : r.offset ≡ start + length (unlines passed)
  same : scan_lines decode r.offset left ≡ record s { found = behind }

abbrev Resumes : (Bytes → Option StoredMessage) → ℕ → List Bytes → Scan → Type 0
Resumes decode start ls s =
    (before : List MessageRecord) (r : MessageRecord) (behind : List MessageRecord)
    → s.found ≡ before ++ r ∷ behind
    → GoesOn decode start ls s r behind

abbrev with_found : Scan → List MessageRecord → Scan
with_found s found = record s { found = found }

found_record-Resumes :
    (decode : Bytes → Option StoredMessage) (start : ℕ) (l : Bytes) (ls : List Bytes)
    (o : Option StoredMessage)
    → Resumes decode (start + length l + 1) ls (scan_lines decode (start + length l + 1) ls)
    → Resumes decode start
        (l ∷ ls)
        (found_record start o (start + length l + 1) (scan_lines decode (start + length l + 1) ls))
found_record-Resumes decode start l ls none ih before r behind h =
    absurd (append-ne-nil before (r ∷ behind) (λ e. cc) (sym h))
found_record-Resumes decode start l ls (some m) ih [] r behind h =
    let end = start + length l + 1 in
    let found : MessageRecord = record { message = m; offset = end } in
    let first : found ≡ r = cc in
    let later : (scan_lines decode end ls).found ≡ behind = cc in
    record {
      passed = l ∷ [];
      left = ls;
      split = refl;
      at = omega (arith, ap (λ x. x.offset) first, length-append l (b'\n' ∷ []));
      same =
          ap (λ x. scan_lines decode x.offset ls) (sym first)
          ∙ ap (with_found (scan_lines decode end ls)) later;
    }
found_record-Resumes decode start l ls (some m) ih (b ∷ before) r behind h =
    let end = start + length l + 1 in
    let tail : (scan_lines decode end ls).found ≡ before ++ r ∷ behind = cc in
    let g = ih before r behind tail in
    let at : r.offset ≡ end + length (unlines g.passed) = g.at in
    record {
      passed = l ∷ g.passed;
      left = g.left;
      split = ap (◌∷◌ l) g.split;
      at = omega (arith, at, length-append l (b'\n' ∷ unlines g.passed));
      same = g.same;
    }

scan_lines-Resumes :
    (decode : Bytes → Option StoredMessage) (start : ℕ) (ls : List Bytes)
    → Resumes decode start ls (scan_lines decode start ls)
scan_lines-Resumes decode start [] before r behind h =
    absurd (append-ne-nil before (r ∷ behind) (λ e. cc) (sym h))
scan_lines-Resumes decode start (l ∷ ls) before r behind h =
    found_record-Resumes decode start l ls (decode l)
      (scan_lines-Resumes decode (start + length l + 1) ls) before r behind h

rewound_le : (bytes : Bytes) (n : ℕ) → rewound bytes n ≤ length bytes
rewound_le bytes n = ground arith

read-rewound :
    (codec : MessageCodec) (bytes : Bytes) (n : ℕ)
    → read_complete_message_records codec (content bytes) (pos n)
      ≡ read_complete_message_records codec (content bytes) (pos (rewound bytes n))
unfolding read_complete_message_records
read-rewound codec bytes n =
    let same : rewound bytes (rewound bytes n) ≡ rewound bytes n = ground arith in rw same

abbrev with_records : List MessageRecord → Batch → Batch
with_records records b = record b { records = records }

-- A reader that goes on at the offset of a record it has got reads exactly the records behind it,
-- with the same next offset and the same error.
pub read_complete-resume :
    (codec : MessageCodec) (bytes : Bytes) (n : ℕ) (before : List MessageRecord) (r : MessageRecord)
    (behind : List MessageRecord)
    → (read_complete_message_records codec (content bytes) (pos n)).records ≡ before ++ r ∷ behind
    → read_complete_message_records codec (content bytes) (pos r.offset)
      ≡ record (read_complete_message_records codec (content bytes) (pos n)) { records = behind }
read_complete-resume codec bytes n before r behind h =
    let c = cut_at bytes (rewound bytes n) (rewound_le bytes n) in
    let same = read-rewound codec bytes n ∙ read-cut codec c in
    let g =
      scan_lines-Resumes codec.decode (rewound bytes n) c.lines before r behind
        (sym (ap (λ b. b.records) same) ∙ h) in
    let both =
      (and_iff (all is_line g.passed) (all is_line g.left)).0
        (sym (all-append is_line g.passed g.left) ∙ sym (ap (all is_line) g.split) ∙ c.are_lines) in
    let d : Cut bytes r.offset = record {
      front = c.front ++ unlines g.passed;
      lines = g.left;
      rest = c.rest;
      whole = split_whole g.passed g.left c.front c.rest c.whole g.split;
      here = omega (arith, g.at, c.here, length-append c.front (unlines g.passed));
      are_lines = both.1;
      open_end = c.open_end;
    } in
    read-cut codec d ∙ ap batch_of g.same ∙ ap (with_records behind) (sym same)
