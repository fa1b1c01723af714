-- ===== src/Dal/Store/Lines.antt =====
-- The bytes of the store as lines, and the scan as a recursion over them.
use chatta.Prelude.{
  sym, ◌==◌, ==_iff, Bool-cases, and_iff, ltb_of_le, length, all, length-append, drop-append,
  append-ne-nil, ℕ, ◌+◌, ◌≡◌, refl, ap, ap₂, ◌∙◌, inl, inr, Bool, true, false, Option, List, [],
  ◌∷◌, ◌++◌, append-nil, append_assoc, arith,
}
use chatta.Text.Trim.{trim_right, trim_right-append, trim_right-cons}
use chatta.Common.{StoredMessage}
use chatta.Dal.AtomicFile.{Bytes}
use chatta.Prelude.Int.{pos}
use chatta.Dal.Store.{
  MessageCodec, content, read_complete_message_records, rewound, batch_of, is_not_newline,
  complete_part, Scan, scan, found_record,
}

-- A line has no line end in it.
abbrev pub is_line : Bytes → Bool
is_line = all is_not_newline

abbrev pub unlines : List Bytes → Bytes
unlines [] = []
unlines (l ∷ ls) = l ++ (b'\n' ∷ unlines ls)

pub unlines-append : (xs ys : List Bytes) → unlines (xs ++ ys) ≡ unlines xs ++ unlines ys
unlines-append [] ys = refl
unlines-append (x ∷ xs) ys =
    ap (λ s. x ++ (b'\n' ∷ s)) (unlines-append xs ys)
    ∙ sym (append_assoc x (b'\n' ∷ unlines xs) (unlines ys))

-- What the scan finds in these lines from an offset on.
abbrev pub scan_lines : (Bytes → Option StoredMessage) → ℕ → List Bytes → Scan
scan_lines decode start [] = record { found = []; stop = start; bad = false }
scan_lines decode start (l ∷ ls) =
    let end = start + length l + 1 in found_record start (decode l) end (scan_lines decode end ls)

scan-line :
    (decode : Bytes → Option StoredMessage) (start : ℕ) (line l s : Bytes)
    → is_line l ≡ true
    → scan decode start line (l ++ (b'\n' ∷ s))
      ≡ found_record start
          (decode (line ++ l))
          (start + length (line ++ l) + 1)
          (scan decode (start + length (line ++ l) + 1) [] s)
unfolding scan
scan-line decode start line [] s h = rw append-nil
scan-line decode start line (c ∷ l) s h =
    ground (arith, scan-line decode start (line ++ c ∷ []) l s, append_assoc line (c ∷ []) l)

pub scan-unlines :
    (decode : Bytes → Option StoredMessage) (start : ℕ) (ls : List Bytes)
    → all is_line ls ≡ true
    → scan decode start [] (unlines ls) ≡ scan_lines decode start ls
scan-unlines decode start [] h = unfold scan in refl
scan-unlines decode start (l ∷ ls) h =
    let both = (and_iff (is_line l) (all is_line ls)).0 h in
    scan-line decode start [] l (unlines ls) both.0
    ∙ ap (found_record start (decode l) (start + length l + 1))
        (scan-unlines decode (start + length l + 1) ls both.1)

-- Any bytes are lines and a rest with no line end.
pub record Lined (s : Bytes) : Type 0 where
  pub lines : List Bytes
  pub rest : Bytes
  pub whole : s ≡ unlines lines ++ rest
  pub are_lines : all is_line lines ≡ true
  pub open_end : is_line rest ≡ true

grow : (c : ℕ) (s : Bytes) → (c == b'\n') ≡ false → Lined s → Lined (c ∷ s)
grow c s h d = grow_lines d.lines d.whole d.are_lines
  where
    grow_lines :
        (ls : List Bytes) → s ≡ unlines ls ++ d.rest → all is_line ls ≡ true → Lined (c ∷ s)
    grow_lines [] e k = record {
      lines = [];
      rest = c ∷ d.rest;
      whole = ap (◌∷◌ c) e;
      are_lines = refl;
      open_end = rw (h, d.open_end);
    }
    grow_lines (l ∷ ls) e k = record {
      lines = (c ∷ l) ∷ ls;
      rest = d.rest;
      whole = ap (◌∷◌ c) e;
      are_lines = rw h k;
      open_end = d.open_end;
    }

pub lined : (s : Bytes) → Lined s
lined [] = record { lines = []; rest = []; whole = refl; are_lines = refl; open_end = refl }
lined (c ∷ s) = elim (Bool-cases (c == b'\n')) [
  | inl ends ↦
      let d = lined s in
      record {
        lines = [] ∷ d.lines;
        rest = d.rest;
        whole = ap₂ ◌∷◌ ((==_iff c b'\n').0 ends) d.whole;
        are_lines = d.are_lines;
        open_end = d.open_end;
      }
  | inr inside ↦ grow c s inside (lined s)
]

trim_right-all : (p : ℕ → Bool) (s : Bytes) → all p s ≡ true → trim_right p s ≡ []
unfolding trim_right
trim_right-all p [] h = refl
trim_right-all p (c ∷ s) h =
    let both = (and_iff (p c) (all p s)).0 h in rw (trim_right-all p s both.1, both.0)

trim_right-append_all :
    (p : ℕ → Bool) (s t : Bytes) → all p t ≡ true → trim_right p (s ++ t) ≡ trim_right p s
unfolding trim_right
trim_right-append_all p [] t h = trim_right-all p t h
trim_right-append_all p (c ∷ s) t h = rw (trim_right-append_all p s t h)

-- Bytes with no line end in them change nothing of what is complete.
pub complete_part-append :
    (s t : Bytes) → is_line t ≡ true → complete_part (s ++ t) ≡ complete_part s
unfolding complete_part
complete_part-append s t h = trim_right-append_all is_not_newline s t h

newline_ends :
    (ls : List Bytes)
    → trim_right is_not_newline (unlines ls) ≡ unlines ls
    → trim_right is_not_newline (b'\n' ∷ unlines ls) ≡ b'\n' ∷ unlines ls
newline_ends [] h = unfold trim_right in refl
newline_ends (l ∷ ls) h =
    trim_right-cons is_not_newline b'\n' (unlines (l ∷ ls))
      (append-ne-nil l (b'\n' ∷ unlines ls) (λ e. cc)) h

pub complete_part-unlines : (ls : List Bytes) → complete_part (unlines ls) ≡ unlines ls
unfolding complete_part
complete_part-unlines [] = unfold trim_right in refl
complete_part-unlines (l ∷ ls) =
    trim_right-append is_not_newline l (b'\n' ∷ unlines ls) (λ e. cc)
      (newline_ends ls (complete_part-unlines ls))

pub rewound-front : (front s : Bytes) → rewound (front ++ s) (length front) ≡ length front
rewound-front front s =
    rw (ltb_of_le (length (front ++ s)) (length front) (omega (arith, length-append front s)))

-- A read at the end of `front` scans the lines behind it and stops before the open line.
pub read-lined :
    (codec : MessageCodec) (front : Bytes) (ls : List Bytes) (rest : Bytes)
    → all is_line ls ≡ true
    → is_line rest ≡ true
    → read_complete_message_records codec
        (content (front ++ (unlines ls ++ rest)))
        (pos (length front))
      ≡ batch_of (scan_lines codec.decode (length front) ls)
unfolding read_complete_message_records
read-lined codec front ls rest are_lines open_end = rw (
  rewound-front front (unlines ls ++ rest),
  drop-append front (unlines ls ++ rest),
  complete_part-append (unlines ls) rest open_end,
  complete_part-unlines ls,
  scan-unlines codec.decode (length front) ls are_lines,
)
