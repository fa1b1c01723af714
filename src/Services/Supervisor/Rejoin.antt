-- ===== src/Services/Supervisor/Rejoin.antt =====
-- After each dial the supervisor asks for every channel of the session.
pub mod Runs
pub mod Ends
use chatta.Prelude.{
  if_intro, any, All, any-append, All-append, All-imp, ℕ, ◌≡◌, refl, sym, ap, ◌∙◌, subst, Bool,
  true, false, ◌||◌, Option, none, some, List, [], ◌∷◌, ◌++◌, append-nil, append_assoc, arith,
}
use chatta.Text.Basic.{Text, codes, eq_text, eq_text_refl}
use chatta.Common.{ChatSession, ChannelMembership}
use chatta.Irc.Message.{format_line}
use chatta.Irc.Conn.State.{Conn, send, register_pending, join_key}
use chatta.Irc.Conn.Calls.{Progress, returned, waiting, sent_or_resolved}
use chatta.Irc.Conn.Calls
use chatta.Irc.Conn.Event
use chatta.Irc.Conn.Written
use chatta.Irc.Conn.Written.{Extends, same}
use chatta.Services.Supervisor.Loop.{
  Phase, loading, undialled_wait, pausing, joining, confirming, running, stopped, Entry,
  join_failed, Supervisor, Happening, loads, next_join,
}
use chatta.Services.Supervisor.Loop

abbrev pub join_line : Text → Text
join_line name = format_line (codes "JOIN") (name ∷ [])

abbrev is_join_failure : Text → Entry → Bool
is_join_failure name (join_failed other e) = eq_text name other
is_join_failure name entry = false

-- The JOIN line for the channel was written, or the log says that the channel could not be joined.
abbrev pub asked_for : Text → List Text → List Entry → Bool
asked_for name written log =
    any (eq_text (join_line name)) written || any (is_join_failure name) log

abbrev IsAsked : List Text → List Entry → ChannelMembership → Type 0
IsAsked written log m = asked_for m.name written log ≡ true

IsAsked-append :
    (written lines : List Text) (log entries : List Entry) (m : ChannelMembership)
    → IsAsked written log m
    → IsAsked (written ++ lines) (log ++ entries) m
IsAsked-append written lines log entries m h = ground (
  arith,
  h,
  any-append (eq_text (join_line m.name)) written lines,
  any-append (is_join_failure m.name) log entries,
)

-- The channels in front of `ms` were asked for, since the log was `base`.
record Asking (st : ChatSession) (base : List Entry) (written : List Text) (log : List Entry)
    (ms : List ChannelMembership) : Type 0 where
  since : List Entry
  earlier : List ChannelMembership
  logged : log ≡ base ++ since
  whole : st.channels ≡ earlier ++ ms
  asked : All (IsAsked written since) earlier

Asking-append :
    (st : ChatSession) (base : List Entry) (written more : List Text) (log entries : List Entry)
    (ms : List ChannelMembership)
    → Extends written more
    → Asking st base written log ms
    → Asking st base more (log ++ entries) ms
Asking-append st base written more log entries ms (lines, e) d = record {
  since = d.since ++ entries;
  earlier = d.earlier;
  logged = ap (λ l. l ++ entries) d.logged ∙ append_assoc base d.since entries;
  whole = d.whole;
  asked =
      subst (λ w. All (IsAsked w (d.since ++ entries)) d.earlier) (sym e)
        (All-imp (λ m h. IsAsked-append written lines d.since entries m h) d.earlier d.asked);
}

Asking-written :
    (st : ChatSession) (base : List Entry) (written more : List Text) (log : List Entry)
    (ms : List ChannelMembership)
    → Extends written more
    → Asking st base written log ms
    → Asking st base more log ms
Asking-written st base written more log ms x d =
    subst (λ l. Asking st base more l ms) (append-nil log)
      (Asking-append st base written more log [] ms x d)

-- One more channel asked for.
Asking-next :
    (st : ChatSession) (base : List Entry) (written more : List Text) (log entries : List Entry)
    (m : ChannelMembership) (ms : List ChannelMembership)
    → Extends written more
    → Asking st base written log (m ∷ ms)
    → ((since : List Entry) → IsAsked more (since ++ entries) m)
    → Asking st base more (log ++ entries) ms
unfolding Asking-append
Asking-next st base written more log entries m ms x d h =
    let d' = Asking-append st base written more log entries (m ∷ ms) x d in
    record {
      since = d'.since;
      earlier = d.earlier ++ m ∷ [];
      logged = d'.logged;
      whole = d.whole ∙ sym (append_assoc d.earlier (m ∷ []) ms);
      asked = All-append (IsAsked more d'.since) d.earlier (m ∷ []) d'.asked (h d.since, tt);
    }

-- What holds in each phase after a dial for `st` with the log `base`, up to the next dial.
RejoinAt : ChatSession → List Entry → List Entry → Phase → Type 0
RejoinAt st base log (joining st' c ms) = (st' ≡ st) × Asking st base c.written log ms
RejoinAt st base log (confirming st' c r name ms) = (st' ≡ st) × Asking st base c.written log ms
RejoinAt st base log (running st' c) = (st' ≡ st) × Asking st base c.written log []
RejoinAt st base log loading = Unit
RejoinAt st base log undialled_wait = Unit
RejoinAt st base log pausing = Unit
RejoinAt st base log (stopped why c) = Unit

next_join-RejoinAt :
    (st st' : ChatSession) (base log : List Entry) (c : Conn) (ms : List ChannelMembership)
    → st' ≡ st
    → Asking st base c.written log ms
    → RejoinAt st base log (next_join st' c ms)
unfolding RejoinAt
next_join-RejoinAt st st' base log c [] e d = (e, d)
next_join-RejoinAt st st' base log c (m ∷ ms) e d = (e, d)

-- A join writes its line and waits, or it gives an error.
AsksBy : Text → List Text → Conn × Progress → Type 0
AsksBy name lines (c, waiting r) =
    Extends lines c.written × (any (eq_text (join_line name)) c.written ≡ true)
AsksBy name lines (c, returned (some e)) = Extends lines c.written
AsksBy name lines (c, returned none) = ⊥

sent-AsksBy :
    (name key : Text) (r : ℕ) (w : Option Text) (c : Conn)
    → AsksBy name c.written (sent_or_resolved key r (send w (join_line name) c))
unfolding AsksBy send
sent-AsksBy name key r none c = (
  ((join_line name) ∷ [], refl),
  any-append (eq_text (join_line name)) c.written ((join_line name) ∷ [])
      ∙ ground (arith, eq_text_refl (join_line name)),
)
sent-AsksBy name key r (some e) c = same c.written _ (Written.resolve_written key _ c)

join-AsksBy :
    (name : Text) (w : Option Text) (c : Conn) → AsksBy name c.written (Calls.join name w c)
unfolding Calls.join
join-AsksBy name w c =
    if_intro (AsksBy name c.written) c.registered _ _
      (λ on.
        unfold register_pending in
        sent-AsksBy name (join_key name) _ w (register_pending (join_key name) c).0)
      (λ off. unfold AsksBy in same c.written c.written refl)

abbrev pub is_no_load : Happening → Bool
is_no_load (loads st w dial) = false
is_no_load h = true
