-- ===== src/Services/Message/Watch.antt =====
-- pkg/services/message.go: `Watch`, which shows the messages as they come and the interruptions of
-- the connection. What it finds at each turn of its loop is in a `Turn`.
pub mod Shown
pub mod Interrupted
use chatta.Prelude.{
  ◌==◌, if◌then◌else◌, ℕ, ◌⊎◌, inl, inr, Bool, true, false, not, ◌||◌, Option, none, some, List, [],
  ◌∷◌, ◌++◌, map,
}
use chatta.Prelude.Int.{ℤ, pos}
use chatta.Text.Basic.{Text, codes, eq_text}
use chatta.Common.{ChatSession, StoredMessage, TransportStatus, OwnerBinding}
use chatta.Dal.Process.{Processes, process_alive}
use chatta.Dal.Store.{MessageCodec, File, Messages, ReadError, read_messages}
use chatta.Services.Control.{Reply, Outcome, done, refused}
use chatta.Services.Health.{status_of}
use chatta.Services.Message.Inbox.{from_others, Polled, polled}

-- What the select takes: the end of the context, the slow ticker with the error of `Ensure`, or the
-- fast one.
pub data Trigger : Type 0 where
  cancelled ticked : Trigger
  checked : Option Text → Trigger

-- Then the reply to a status request, the processes, and the store.
pub record Turn : Type 0 where
  pub trigger : Trigger
  pub reply : Reply
  pub processes : Processes
  pub file : File

pub data Emission : Type 0 where
  lost_notice back_notice : Emission
  shown : StoredMessage → Emission

pub record Watcher : Type 0 where
  pub down : Bool
  pub generation : ℕ
  pub offset : ℤ

pub data Ending : Type 0 where
  by_context by_owner : Ending
  unready : Text → Ending
  unread : ReadError → Ending

-- What was emitted, how it finished, if it did, and what the loop then holds.
pub record Watched : Type 0 where
  pub emitted : List Emission
  pub ending : Option Ending
  pub watcher : Watcher

abbrev pub registered_generation : Option TransportStatus → Option ℕ
registered_generation none = none
registered_generation (some t) = if t.registered then some t.generation else none

abbrev pub transport_generation : Reply → Option ℕ
transport_generation reply = registered_generation (status_of reply)

-- The switch over the generation.
unfoldable pub notice_change : Option ℕ → Watcher → Watcher × List Emission
notice_change none w = if w.down then (w, []) else (record w { down = true }, lost_notice ∷ [])
notice_change (some current) w =
    if w.down || not (current == w.generation)
    then (record w { down = false; generation = current }, back_notice ∷ [])
    else (w, [])

abbrev finished : Watcher → List Emission → Ending → Watched
finished w emitted why = record { emitted = emitted; ending = some why; watcher = w }

abbrev also_emitted : List Emission → Watched → Watched
also_emitted emitted later = record later { emitted = emitted ++ later.emitted }

-- `next` is the rest of the loop.
abbrev pub after_read :
    ChatSession
    → Watcher
    → List Emission
    → Messages
    → Option ReadError
    → (Watcher → Watched)
    → Watched
after_read st w notices m (some e) next = finished w notices (unread e)
after_read st w notices m none next =
    also_emitted (notices ++ map shown (from_others st m.messages))
      (next (record w { offset = m.next }))

-- `watchOwnerErr == nil && !dal.ProcessAlive(watchOwner)`
abbrev pub has_ended : Processes → Option OwnerBinding → Bool
has_ended p none = false
has_ended p (some owner) = not (process_alive p owner)

abbrev pub after_status :
    MessageCodec
    → ChatSession
    → Option OwnerBinding
    → Turn
    → Watcher × List Emission
    → (Watcher → Watched)
    → Watched
after_status codec st owner t (w, notices) next =
    if has_ended t.processes owner
    then finished w notices by_owner
    else let m = read_messages codec t.file w.offset in after_read st w notices m m.error next

abbrev pub triggered :
    MessageCodec
    → ChatSession
    → Option OwnerBinding
    → Watcher
    → Turn
    → Trigger
    → (Watcher → Watched)
    → Watched
triggered codec st owner w t cancelled next = finished w [] by_context
triggered codec st owner w t (checked (some e)) next = finished w [] (unready e)
triggered codec st owner w t (checked none) next =
    after_status codec st owner t (notice_change (transport_generation t.reply) w) next
triggered codec st owner w t ticked next =
    after_status codec st owner t (notice_change (transport_generation t.reply) w) next

-- The loop; the list ends where the observation does.
unfoldable pub watch_turns :
    MessageCodec → ChatSession → Option OwnerBinding → List Turn → Watcher → Watched
watch_turns codec st owner [] w = record { emitted = []; ending = none; watcher = w }
watch_turns codec st owner (t ∷ ts) w =
    triggered codec st owner w t t.trigger (watch_turns codec st owner ts)

abbrev first_watcher : Option ℕ → ℕ → Watcher
first_watcher none size = record { down = true; generation = 0; offset = pos size }
first_watcher (some generation) size = record {
  down = false;
  generation = generation;
  offset = pos size;
}

-- `Watch`, with what `Ensure` and `findOwner` give, the size of the store, and the first status.
unfoldable pub watch :
    MessageCodec → Outcome ChatSession → Option OwnerBinding → ℕ → Reply → List Turn → Watched
watch codec (refused e) owner size reply ts = finished (first_watcher none size) [] (unready e)
watch codec (done st) owner size reply ts =
    watch_turns codec st owner ts (first_watcher (transport_generation reply) size)

-- How `time` prints a stored time and the present, and `%d` a port.
pub record Printing : Type 0 where
  pub stamp : ℤ → Text
  pub now : Text
  pub number : ℤ → Text

abbrev label_of : StoredMessage → Text
label_of m = if eq_text m.kind (codes "direct") then codes "DM" else m.target

abbrev pub render_message : Printing → StoredMessage → Text
render_message p m =
    p.stamp m.ts
    ++ (codes " (" ++ (label_of m ++ (codes ") <" ++ (m.nick ++ (codes "> " ++ m.text)))))

-- `Poll`, of what `PollMessages` gives.
abbrev pub poll : Printing → Polled → ReadError ⊎ List Text
poll p (Polled.unread e) = inl e
poll p (polled ms cursor) = inr (map (render_message p) ms)

abbrev pub render_notice : Printing → Text → Text
render_notice p text = p.now ++ (codes " -!- " ++ text)

abbrev server_text : Printing → ChatSession → Text
server_text p st = codes "connection to " ++ (st.host ++ (codes ":" ++ p.number st.port))

abbrev pub rendered : Printing → ChatSession → Emission → Text
rendered p st lost_notice = render_notice p (server_text p st ++ codes " lost; reconnecting")
rendered p st back_notice = render_notice p (server_text p st ++ codes " re-established")
rendered p st (shown m) = render_message p m
