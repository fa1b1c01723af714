-- ===== src/Services/Message/Watch/Shown.antt =====
-- Which messages a watch shows.
use chatta.Prelude.{
  ◌==◌, if_intro, length, keep-append, ℕ, ◌≡◌, refl, sym, ap, ◌∙◌, subst, not, ◌||◌, Option, none,
  some, List, [], ◌∷◌, ◌++◌, map,
}
use chatta.Prelude.Int.{pos}
use chatta.Text.Basic.{eq_text}
use chatta.Common.{ChatSession, StoredMessage, OwnerBinding}
use chatta.Dal.AtomicFile.{Bytes}
use chatta.Dal.Store.{MessageCodec, content, Messages, or_nothing, read_messages}
use chatta.Dal.Store.Delivery.{appended}
use chatta.Dal.Store.Inbox.{delivered, read_messages-append}
use chatta.Services.Message.Inbox.{from_others}
use chatta.Services.Message.Watch.{
  Trigger, cancelled, ticked, checked, Turn, Emission, shown, lost_notice, back_notice, Watcher,
  Watched, has_ended, notice_change, transport_generation, after_read, after_status, triggered,
  watch_turns,
}

abbrev pub messages_shown : List Emission → List StoredMessage
messages_shown [] = []
messages_shown (shown m ∷ es) = m ∷ messages_shown es
messages_shown (lost_notice ∷ es) = messages_shown es
messages_shown (back_notice ∷ es) = messages_shown es

-- Between the turns the supervisor appends messages to the store, these in all.
pub data Grows (codec : MessageCodec) : Bytes → List Turn → List StoredMessage → Type 0 where
  still : (bytes : Bytes) → Grows codec bytes [] []
  grown :
      {bytes : Bytes} {t : Turn} {ts : List Turn} {later : List StoredMessage}
      (ms : List StoredMessage)
      → t.file ≡ content (or_nothing (appended codec ms (some bytes)))
      → Grows codec (or_nothing (appended codec ms (some bytes))) ts later
      → Grows codec bytes (t ∷ ts) (ms ++ later)

messages_shown-append :
    (es fs : List Emission) → messages_shown (es ++ fs) ≡ messages_shown es ++ messages_shown fs
messages_shown-append [] fs = refl
messages_shown-append (shown m ∷ es) fs = ap (◌∷◌ m) (messages_shown-append es fs)
messages_shown-append (lost_notice ∷ es) fs = messages_shown-append es fs
messages_shown-append (back_notice ∷ es) fs = messages_shown-append es fs

messages_shown-map : (ms : List StoredMessage) → messages_shown (map shown ms) ≡ ms
messages_shown-map [] = refl
messages_shown-map (m ∷ ms) = ap (◌∷◌ m) (messages_shown-map ms)

notice_change-silent :
    (o : Option ℕ) (w : Watcher)
    → ((notice_change o w).0.offset ≡ w.offset) × (messages_shown (notice_change o w).1 ≡ [])
unfolding notice_change
notice_change-silent none w =
    if_intro (λ (x : Watcher × List Emission). (x.0.offset ≡ w.offset) × (messages_shown x.1 ≡ []))
      w.down _ _ (λ d. (refl, refl)) (λ d. (refl, refl))
notice_change-silent (some n) w =
    if_intro (λ (x : Watcher × List Emission). (x.0.offset ≡ w.offset) × (messages_shown x.1 ≡ []))
      (w.down || not (n == w.generation)) _ _ (λ d. (refl, refl)) (λ d. (refl, refl))

-- A turn that goes on: it shows what others sent, and the next one starts at the new end.
record GoesOn (st : ChatSession) (ms : List StoredMessage) (end : ℕ) (next : Watcher → Watched)
    (result : Watched) : Type 0 where
  watcher : Watcher
  at_end : watcher.offset ≡ pos end
  running : (next watcher).ending ≡ none
  shows : messages_shown result.emitted ≡ from_others st ms ++ messages_shown (next watcher).emitted

module _ (codec : MessageCodec) (st : ChatSession) (owner : Option OwnerBinding) where
  read-GoesOn :
      (w : Watcher) (notices : List Emission) (m : Messages) (ms : List StoredMessage) (n : ℕ)
      (next : Watcher → Watched)
      → messages_shown notices ≡ []
      → m ≡ delivered ms n
      → (after_read st w notices m m.error next).ending ≡ none
      → GoesOn st ms n next (after_read st w notices m m.error next)
  read-GoesOn w notices m ms n next quiet e running =
      let later = next (record w { offset = pos n }) in
      subst (λ m. GoesOn st ms n next (after_read st w notices m m.error next)) (sym e)
        (record {
          watcher = record w { offset = pos n };
          at_end = refl;
          running = subst (λ m. (after_read st w notices m m.error next).ending ≡ none) e running;
          shows =
              messages_shown-append (notices ++ map shown (from_others st ms)) later.emitted
              ∙ ap (λ l. l ++ messages_shown later.emitted)
                  (messages_shown-append notices (map shown (from_others st ms))
                    ∙ rw (quiet) (messages_shown-map (from_others st ms)));
        })

  status-GoesOn :
      (bytes : Bytes) (ms : List StoredMessage) (t : Turn) (x : Watcher × List Emission)
      (next : Watcher → Watched)
      → t.file ≡ content (or_nothing (appended codec ms (some bytes)))
      → x.0.offset ≡ pos (length bytes)
      → messages_shown x.1 ≡ []
      → (after_status codec st owner t x next).ending ≡ none
      → GoesOn st ms
          (length (or_nothing (appended codec ms (some bytes))))
          next
          (after_status codec st owner t x next)
  status-GoesOn bytes ms t (w, notices) next file at quiet running =
      let after = or_nothing (appended codec ms (some bytes)) in
      let read : read_messages codec t.file w.offset ≡ delivered ms (length after) =
        ap (λ f. read_messages codec f w.offset) file
        ∙ ap (read_messages codec (content after)) at
        ∙ read_messages-append codec bytes ms in
      if_intro (λ r. r.ending ≡ none → GoesOn st ms (length after) next r)
        (has_ended t.processes owner) _ _ (λ gone run. absurd (cc))
        (λ kept run. read-GoesOn w notices _ ms (length after) next quiet read run) running

  turn-GoesOn :
      (bytes : Bytes) (ms : List StoredMessage) (t : Turn) (w : Watcher) (how : Trigger)
      (next : Watcher → Watched)
      → t.file ≡ content (or_nothing (appended codec ms (some bytes)))
      → w.offset ≡ pos (length bytes)
      → (triggered codec st owner w t how next).ending ≡ none
      → GoesOn st ms
          (length (or_nothing (appended codec ms (some bytes))))
          next
          (triggered codec st owner w t how next)
  turn-GoesOn bytes ms t w cancelled next file at running = cc
  turn-GoesOn bytes ms t w (checked (some e)) next file at running = cc
  turn-GoesOn bytes ms t w (checked none) next file at running =
      let (same, quiet) = notice_change-silent (transport_generation t.reply) w in
      status-GoesOn bytes ms t _ next file (same ∙ at) quiet running
  turn-GoesOn bytes ms t w ticked next file at running =
      let (same, quiet) = notice_change-silent (transport_generation t.reply) w in
      status-GoesOn bytes ms t _ next file (same ∙ at) quiet running

  -- While a watch runs, it shows of the messages that are appended to the store exactly those that
  -- others sent, each once and in order, however the appends fall between its looks and whatever
  -- the connection does.
  pub watch_turns-shown :
      {bytes : Bytes} {ts : List Turn} {ms : List StoredMessage} (w : Watcher)
      → Grows codec bytes ts ms
      → w.offset ≡ pos (length bytes)
      → (watch_turns codec st owner ts w).ending ≡ none
      → messages_shown (watch_turns codec st owner ts w).emitted ≡ from_others st ms
  unfolding watch_turns
  watch_turns-shown w (still bytes) at running = refl
  watch_turns-shown w (grown {bytes} {t} {ts} {later} ms file g) at running =
      let d = turn-GoesOn bytes ms t w t.trigger (watch_turns codec st owner ts) file at running in
      d.shows
      ∙ ap (◌++◌ (from_others st ms)) (watch_turns-shown d.watcher g d.at_end d.running)
      ∙ sym (keep-append (λ m. not (eq_text m.nick st.nick)) ms later)
