-- ===== src/Services/Message/Watch/Interrupted.antt =====
-- Which interruptions of the supervisor's connection a watch announces.
use chatta.Prelude.{
  ◌==◌, ==_iff, Bool-cases, Option-cases, if_intro, ℕ, ◌≡◌, refl, sym, ap, ◌∙◌, ◌≢◌, ◌⊎◌, inl, inr,
  true, false, not, ◌||◌, Option, none, some, List, [], ◌∷◌, ◌++◌, map, append-nil, arith,
}
use chatta.Text.Case.{Unicode}
use chatta.Common.{ChatSession, StoredMessage, TransportStatus, OwnerBinding}
use chatta.Irc.Conn.State.{Conn}
use chatta.Dal.Store.{MessageCodec, Messages, ReadError, read_messages}
use chatta.Services.Control.{Reply, got}
use chatta.Services.Health.{status_of}
use chatta.Services.Supervisor.{Printing, status_response}
use chatta.Services.Supervisor.Silence.{held_conn}
use chatta.Services.Supervisor.Loop.{Supervisor, Happening, supervise, new_supervisor}
use chatta.Services.Supervisor.Link.Generation.{status_seen, AlwaysUp, generation_tells}
use chatta.Services.Message.Inbox.{from_others}
use chatta.Services.Message.Watch.{
  ticked, Turn, Emission, shown, lost_notice, back_notice, Watcher, Watched, has_ended,
  notice_change, registered_generation, transport_generation, after_read, after_status, triggered,
  watch_turns,
}

abbrev pub notices_of : List Emission → List Emission
notices_of [] = []
notices_of (shown m ∷ es) = notices_of es
notices_of (lost_notice ∷ es) = lost_notice ∷ notices_of es
notices_of (back_notice ∷ es) = back_notice ∷ notices_of es

-- The reply of a supervisor in this state to a status request.
abbrev pub status_reply : Printing → Supervisor → Reply
status_reply p s = got (status_response p s.handler (held_conn s))

-- What a watch announces that had seen the supervisor at `s`, and sees it at the end of a run: no
-- notice, the loss of a connection that is not there, or the new one that is there again.
abbrev pub Announces : Unicode → Printing → Supervisor → List Happening → List Emission → Type 0
Announces u p s between notices =
    let seen = status_seen p (supervise u s between) in
    ((notices ≡ []) × AlwaysUp u p s between)
    ⊎ (((notices ≡ lost_notice ∷ []) × (seen ≡ none))
        ⊎ ((notices ≡ back_notice ∷ []) × (seen ≢ none) × ¬ AlwaysUp u p s between))

notices_of-append : (es fs : List Emission) → notices_of (es ++ fs) ≡ notices_of es ++ notices_of fs
notices_of-append [] fs = refl
notices_of-append (shown m ∷ es) fs = notices_of-append es fs
notices_of-append (lost_notice ∷ es) fs = ap (◌∷◌ lost_notice) (notices_of-append es fs)
notices_of-append (back_notice ∷ es) fs = ap (◌∷◌ back_notice) (notices_of-append es fs)

notices_of-map : (ms : List StoredMessage) → notices_of (map shown ms) ≡ []
notices_of-map [] = refl
notices_of-map (m ∷ ms) = notices_of-map ms

quiet_read :
    (st : ChatSession) (w : Watcher) (notices : List Emission) (m : Messages) (e : Option ReadError)
    (last : Watcher → Watched)
    → ((w' : Watcher) → (last w').emitted ≡ [])
    → notices_of (after_read st w notices m e last).emitted ≡ notices_of notices
quiet_read st w notices m (some e) last quiet = refl
quiet_read st w notices m none last quiet =
    let others = from_others st m.messages in
    rw
      (
        quiet (record w { offset = m.next }),
        append-nil (notices ++ map shown others),
        notices_of-append notices (map shown others),
        notices_of-map others,
        append-nil (notices_of notices),
      )
      refl

quiet_status :
    (codec : MessageCodec) (st : ChatSession) (owner : Option OwnerBinding) (t : Turn)
    (x : Watcher × List Emission) (last : Watcher → Watched)
    → ((w : Watcher) → (last w).emitted ≡ [])
    → notices_of (after_status codec st owner t x last).emitted ≡ notices_of x.1
quiet_status codec st owner t (w, notices) last quiet =
    let m = read_messages codec t.file w.offset in
    if_intro (λ (r : Watched). notices_of r.emitted ≡ notices_of notices)
      (has_ended t.processes owner) _ _ (λ gone. refl)
      (λ kept. quiet_read st w notices m m.error last quiet)

notice_change_lost : (w : Watcher) → w.down ≡ false → (notice_change none w).1 ≡ lost_notice ∷ []
unfolding notice_change
notice_change_lost w up = rw up refl

notice_change_same :
    (w : Watcher) (n : ℕ) → w.down ≡ false → n ≡ w.generation → (notice_change (some n) w).1 ≡ []
unfolding notice_change
notice_change_same w n up e =
    let test : (w.down || not (n == w.generation)) ≡ false = ground (arith, up, e) in rw test refl

notice_change_back :
    (w : Watcher) (n : ℕ)
    → w.down ≡ false
    → n ≢ w.generation
    → (notice_change (some n) w).1 ≡ back_notice ∷ []
unfolding notice_change
notice_change_back w n up ne =
    let test : (w.down || not (n == w.generation)) ≡ true = ground (arith, ne) in rw test refl

status_reply-seen : (p : Printing) (s : Supervisor) → status_of (status_reply p s) ≡ status_seen p s
unfolding status_response
status_reply-seen p s = of_conn (held_conn s)
  where
    of_conn :
        (c : Option Conn)
        → status_of (got (status_response p s.handler c)) ≡ (status_response p s.handler c).status
    of_conn none = refl
    of_conn (some c) = refl

look :
    (codec : MessageCodec) (st : ChatSession) (owner : Option OwnerBinding) (t : Turn) (w : Watcher)
    → t.trigger ≡ ticked
    → notices_of (watch_turns codec st owner (t ∷ []) w).emitted
      ≡ notices_of (notice_change (transport_generation t.reply) w).1
unfolding watch_turns
look codec st owner t w how =
    let last = watch_turns codec st owner [] in
    ap (λ h. notices_of (triggered codec st owner w t h last).emitted) how
    ∙ quiet_status codec st owner t (notice_change (transport_generation t.reply) w) last
        (λ w'. refl)

-- A look at the supervisor in this state.
look_at :
    (p : Printing) (s : Supervisor) (codec : MessageCodec) (st : ChatSession)
    (owner : Option OwnerBinding) (t : Turn) (w : Watcher)
    → t.trigger ≡ ticked
    → t.reply ≡ status_reply p s
    → notices_of (watch_turns codec st owner (t ∷ []) w).emitted
      ≡ notices_of (notice_change (registered_generation (status_seen p s)) w).1
look_at p s codec st owner t w how answered =
    let asked : transport_generation t.reply ≡ registered_generation (status_seen p s) =
      ap transport_generation answered ∙ ap registered_generation (status_reply-seen p s) in
    look codec st owner t w how ∙ ap (λ o. notices_of (notice_change o w).1) asked

-- A watch that has seen the supervisor with a connection looks again after any run of the
-- supervisor. It announces nothing exactly if a connection was there all the time. It announces a
-- loss if there is none now, and else, if there was none at any moment in between, the new one: no
-- interruption passes in silence, however short it was.
pub watch_turns-Announces :
    (u : Unicode) (p : Printing) (codec : MessageCodec) (st : ChatSession)
    (owner : Option OwnerBinding) (before between : List Happening) (a : TransportStatus)
    (w : Watcher) (t : Turn)
    → let s = supervise u new_supervisor before in
      let later = supervise u s between in
      status_seen p s ≡ some a
      → w.down ≡ false
      → w.generation ≡ a.generation
      → t.trigger ≡ ticked
      → t.reply ≡ status_reply p later
      → ((b : TransportStatus) → status_seen p later ≡ some b → b.registered ≡ true)
      → Announces u p s between (notices_of (watch_turns codec st owner (t ∷ []) w).emitted)
watch_turns-Announces u p codec st owner before between a w t seen up same how answered registered =
    let s = supervise u new_supervisor before in
    let later = supervise u s between in
    let noticed = look_at p later codec st owner t w how answered in
    elim (Option-cases (status_seen p later)) [
      | inl none_there ↦ inr (
          inl (
            noticed
                ∙ ap (λ o. notices_of (notice_change (registered_generation o) w).1) none_there
                ∙ ap notices_of (notice_change_lost w up),
            none_there,
          ))
      | inr (b, there) ↦
          let (le, tells) = generation_tells u p before between a b seen there in
          let current : registered_generation (status_seen p later) ≡ some b.generation =
            ap registered_generation there ∙ rw (registered b there) refl in
          let found = noticed ∙ ap (λ o. notices_of (notice_change o w).1) current in
          elim (Bool-cases (b.generation == w.generation)) [
            | inl equal ↦
                let e = (==_iff b.generation w.generation).0 equal in
                inl (
                  found ∙ ap notices_of (notice_change_same w b.generation up e),
                  tells.0 (sym (e ∙ same)),
                )
            | inr other ↦
                let ne : b.generation ≢ w.generation = ground (arith, other) in
                inr (
                  inr (
                    found ∙ ap notices_of (notice_change_back w b.generation up ne),
                    ground (arith, there),
                    λ always. ne (sym (tells.1 always) ∙ sym same),
                  ))
          ]
    ]
