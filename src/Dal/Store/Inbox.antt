-- ===== src/Dal/Store/Inbox.antt =====
-- What `ReadMessages` reads of the messages appended behind its offset.
use chatta.Prelude.{
  and_iff, length, all, length-append, drop-append, append-ne-nil, ℕ, ◌≡◌, refl, ap, ◌∙◌, ◌≢◌, true,
  none, some, List, [], ◌∷◌, ◌++◌, map, append-nil, arith,
}
use chatta.Prelude.Int.{pos}
use chatta.Common.{StoredMessage}
use chatta.Dal.AtomicFile.{Bytes}
use chatta.Dal.Store.{
  MessageCodec, content, read_messages, tail, parsed, split_lines, trim_newline, or_nothing,
  without_first, some_lines, Messages,
}
use chatta.Dal.Store.Lines.{is_line, unlines, rewound-front}
use chatta.Dal.Store.Delivery.{appended, appended-encoded, encoded, encoded-IsLines}

-- Lines with a line end between two, and none at the end.
abbrev joined : Bytes → List Bytes → Bytes
joined l [] = l
joined l (k ∷ ls) = l ++ (b'\n' ∷ joined k ls)

without_first_of : (c : ℕ) (s t : Bytes) → s ≢ [] → without_first c s t ≡ c ∷ t
without_first_of c [] t h = absurd (h refl)
without_first_of c (d ∷ s) t h = refl

trim_newline-append : (s t : Bytes) → t ≢ [] → trim_newline (s ++ t) ≡ s ++ trim_newline t
unfolding trim_newline
trim_newline-append [] t h = refl
trim_newline-append (c ∷ s) t h =
    without_first_of c (s ++ t) (trim_newline (s ++ t)) (append-ne-nil s t h)
    ∙ ap (◌∷◌ c) (trim_newline-append s t h)

trim_newline-unlines : (l : Bytes) (ls : List Bytes) → trim_newline (unlines (l ∷ ls)) ≡ joined l ls
unfolding trim_newline
trim_newline-unlines l [] = trim_newline-append l (b'\n' ∷ []) (λ e. cc) ∙ append-nil l
trim_newline-unlines l (k ∷ ls) =
    let more = append-ne-nil k (b'\n' ∷ unlines ls) (λ e. cc) in
    trim_newline-append l (b'\n' ∷ unlines (k ∷ ls)) (λ e. cc)
    ∙ ap (◌++◌ l) (
        without_first_of b'\n' (unlines (k ∷ ls)) (trim_newline (unlines (k ∷ ls))) more
        ∙ ap (◌∷◌ b'\n') (trim_newline-unlines k ls))

split_line : (l s : Bytes) → is_line l ≡ true → split_lines (l ++ (b'\n' ∷ s)) ≡ l ∷ split_lines s
unfolding split_lines
split_line [] s h = refl
split_line (c ∷ l) s h = ground (arith, split_line l s)

split_last : (l : Bytes) → is_line l ≡ true → split_lines l ≡ l ∷ []
unfolding split_lines
split_last [] h = refl
split_last (c ∷ l) h = ground (arith, split_last l)

split_lines-joined :
    (l : Bytes) (ls : List Bytes) → all is_line (l ∷ ls) ≡ true → split_lines (joined l ls) ≡ l ∷ ls
split_lines-joined l [] h = split_last l ((and_iff (is_line l) true).0 h).0
split_lines-joined l (k ∷ ls) h =
    let both = (and_iff (is_line l) (all is_line (k ∷ ls))).0 h in
    split_line l (joined k ls) both.0 ∙ ap (◌∷◌ l) (split_lines-joined k ls both.1)

some_lines_of : (l : Bytes) (ls : List Bytes) → l ≢ [] → some_lines (l ∷ ls) ≡ l ∷ ls
some_lines_of [] ls h = absurd (h refl)
some_lines_of (c ∷ l) ls h = refl

parsed-encoded :
    (codec : MessageCodec) (ms : List StoredMessage)
    → parsed codec.decode (map codec.encode ms) ≡ ms
unfolding parsed
parsed-encoded codec [] = refl
parsed-encoded codec (m ∷ ms) = rw (codec.decode-encode m, parsed-encoded codec ms)

tail-encoded :
    (codec : MessageCodec) (ms : List StoredMessage)
    → some_lines (split_lines (trim_newline (encoded codec ms))) ≡ map codec.encode ms
tail-encoded codec [] = unfold trim_newline split_lines in refl
tail-encoded codec (m ∷ ms) =
    let l = codec.encode m in
    let ls = map codec.encode ms in
    ap (λ s. some_lines (split_lines s)) (trim_newline-unlines l ls)
    ∙ ap some_lines (split_lines-joined l ls (encoded-IsLines codec (m ∷ ms)))
    ∙ some_lines_of l ls (codec.encode-ne-nil m)

abbrev pub delivered : List StoredMessage → ℕ → Messages
delivered ms n = record { messages = ms; next = pos n; error = none }

read_behind :
    (codec : MessageCodec) (bytes : Bytes) (ms : List StoredMessage)
    → read_messages codec (content (bytes ++ encoded codec ms)) (pos (length bytes))
      ≡ delivered ms (length (bytes ++ encoded codec ms))
unfolding read_messages tail
read_behind codec bytes ms = rw (
  rewound-front bytes (encoded codec ms),
  drop-append bytes (encoded codec ms),
  tail-encoded codec ms,
  parsed-encoded codec ms,
  length-append bytes (encoded codec ms),
)

-- Messages appended behind a reader's offset, at the end of any content, are exactly what
-- `ReadMessages` returns there, in order, with the end of the file as the next offset.
pub read_messages-append :
    (codec : MessageCodec) (bytes : Bytes) (ms : List StoredMessage)
    → let after = or_nothing (appended codec ms (some bytes)) in
      read_messages codec (content after) (pos (length bytes)) ≡ delivered ms (length after)
read_messages-append codec bytes ms =
    rw (appended-encoded codec ms bytes, read_behind codec bytes ms)
