-- ===== src/Services/Message/Inbox.antt =====
-- pkg/services/message.go: `PollMessages`, the inbox behind a cursor.
use chatta.Prelude.{
  if◌then◌else◌, length, keep, ◌≡◌, ap, ◌∙◌, Bool, false, not, Option, none, some, List, [],
}
use chatta.Prelude.Int.{pos}
use chatta.Text.Basic.{eq_text}
use chatta.Common.{ChatSession, StoredMessage, MessageCursor}
use chatta.Dal.AtomicFile.{Bytes}
use chatta.Dal.State.{Loaded, loaded, refused}
use chatta.Dal.Store.{MessageCodec, File, content, Messages, ReadError, read_messages, or_nothing}
use chatta.Dal.Store.Delivery.{appended}
use chatta.Dal.Store.Inbox.{read_messages-append}

-- The messages returned and the cursor saved; without a cursor, the error of the read.
pub data Polled : Type 0 where
  unread : ReadError → Polled
  polled : List StoredMessage → MessageCursor → Polled

-- `cursor, _ := dal.LoadCursors(...)`: an error leaves the zero cursor.
abbrev cursor_of : Loaded MessageCursor → MessageCursor
cursor_of (loaded c) = c
cursor_of (refused e) = record { invoker_key = []; offset = pos 0 }

abbrev pub from_others : ChatSession → List StoredMessage → List StoredMessage
from_others st = keep (λ m. not (eq_text m.nick st.nick))

abbrev poll_result : ChatSession → Messages → Option ReadError → Polled
poll_result st m (some e) = unread e
poll_result st m none =
    polled (from_others st m.messages) (record { invoker_key = st.session_id; offset = m.next })

unfoldable pub poll_messages :
    MessageCodec → ChatSession → Loaded MessageCursor → Bool → File → Polled
poll_messages codec st cursors replay file =
    let offset = if replay then pos 0 else (cursor_of cursors).offset in
    let m = read_messages codec file offset in poll_result st m m.error

-- A poll whose cursor was the end of the file returns of the messages appended since then exactly
-- those that others sent, in order, and saves the new end.
pub poll_messages-append :
    (codec : MessageCodec) (st : ChatSession) (cursor : MessageCursor) (bytes : Bytes)
    (ms : List StoredMessage)
    → cursor.offset ≡ pos (length bytes)
    → let after = or_nothing (appended codec ms (some bytes)) in
      poll_messages codec st (loaded cursor) false (content after)
      ≡ polled
          (from_others st ms)
          (record { invoker_key = st.session_id; offset = pos (length after) })
unfolding poll_messages
poll_messages-append codec st cursor bytes ms h =
    let after = or_nothing (appended codec ms (some bytes)) in
    ap
      (λ o.
        poll_result st (read_messages codec (content after) o)
          (read_messages codec (content after) o).error)
      h
    ∙ ap (λ m. poll_result st m m.error) (read_messages-append codec bytes ms)
