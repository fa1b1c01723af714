-- ===== src/Services/Supervisor/Farewell.antt =====
-- What a supervisor writes when its owner has ended.
use chatta.Prelude.{
  ℕ, suc, ◌≡◌, sym, ap, ◌∙◌, true, false, Option, none, some, List, [], ◌∷◌, ◌++◌, map, append-nil,
  append_assoc,
}
use mathlib.Core.List.{Perm}
use mathlib.Core.List.Perm
use chatta.Text.Basic.{Text, codes}
use chatta.Text.Case.{Unicode}
use chatta.Common.{ChatSession}
use chatta.Irc.Message.{format_line}
use chatta.Irc.Conn.State.{Conn, send}
use chatta.Irc.Conn.Calls
use chatta.Services.Supervisor.{set_no_conn}
use chatta.Services.Supervisor.Loop.{
  Surroundings, is_abandoned, owner_exited, running, stopped, Entry, owner_ended, Supervisor, ticks,
  farewell, announce, depart, leaves, tick, in_phase, advance,
}

abbrev pub goodbye_line : ChatSession → Text → Text
goodbye_line st channel = format_line (codes "PRIVMSG") (channel ∷ farewell st ∷ [])

abbrev pub quit_line : Text
quit_line = format_line (codes "QUIT") (codes "owner exited" ∷ [])

abbrev with_written : Conn → List Text → Conn
with_written c lines = record c { written = c.written ++ lines }

abbrev told : Text → Text → Text
told text channel = format_line (codes "PRIVMSG") (channel ∷ text ∷ [])

announce-written :
    (writes : ℕ → Option Text) (n : ℕ) (text : Text) (channels : List Text) (c : Conn)
    (log : List Entry)
    → ((i : ℕ) → writes i ≡ none)
    → announce writes n text channels (c, log) ≡ (with_written c (map (told text) channels), log)
unfolding announce Calls.privmsg send
announce-written writes n text [] c log good =
    ap (λ l. (record c { written = l }, log)) (sym (append-nil c.written))
announce-written writes n text (channel ∷ channels) c log good =
    let line = told text channel in
    rw (good n) (
      announce-written writes (suc n) text channels (with_written c (line ∷ [])) log good
      ∙ ap (λ l. (record c { written = l }, log))
          (append_assoc c.written (line ∷ []) (map (told text) channels)))

-- The goodbyes, in the order of the map.
abbrev goodbyes : Surroundings → ChatSession → Conn → List Text
goodbyes w st c = map (goodbye_line st) (w.channel_order c.channels)

depart-written :
    (w : Surroundings) (st : ChatSession) (writes : ℕ → Option Text) (c : Conn) (log : List Entry)
    → ((i : ℕ) → writes i ≡ none)
    → depart w st writes c log ≡ (with_written c (goodbyes w st c ++ quit_line ∷ []), log)
unfolding depart Calls.quit send
depart-written w st writes c log good =
    rw (announce-written writes 1 (farewell st) (w.channel_order c.channels) c log good) (
      rw (good 0) (
        ap (λ l. (record c { written = l }, log))
          (append_assoc c.written (goodbyes w st c) (quit_line ∷ []))))

-- When the ticker finds that the owner has ended and that no Codex binding is active, and the socket
-- takes the writes, the supervisor writes one goodbye for each of the connection's channels, in
-- whatever order Go goes over them, then QUIT as the last line, and stops with nothing left in the
-- handler.
pub tick-farewell :
    (u : Unicode) (s : Supervisor) (w : Surroundings) (now : ℕ) (payload : Text)
    (writes : ℕ → Option Text) (st : ChatSession) (c : Conn)
    → s.phase ≡ running st c
    → is_abandoned w st ≡ true
    → ((i : ℕ) → writes i ≡ none)
    → Perm (w.channel_order c.channels) c.channels
    → let t = advance u s (ticks w now payload writes) in
      (lines : List Text) × (Perm lines (map (goodbye_line st) c.channels))
      × (t.phase
          ≡ stopped owner_exited
              (some (record c { written = c.written ++ (lines ++ quit_line ∷ []) })))
      × (t.handler.holds_conn ≡ false)
unfolding advance tick set_no_conn
tick-farewell u s w now payload writes st c here gone good each =
    let t = in_phase u s.phase (ticks w now payload writes) s in
    let left : t ≡ leaves owner_exited (depart w st writes c (s.log ++ owner_ended ∷ [])) s =
      ap (λ phase. in_phase u phase (ticks w now payload writes) s) here ∙ rw gone in
    let ends : t
        ≡ leaves owner_exited
            (with_written c (goodbyes w st c ++ quit_line ∷ []), s.log ++ owner_ended ∷ []) s =
      left
      ∙ ap (λ p. leaves owner_exited p s)
          (depart-written w st writes c (s.log ++ owner_ended ∷ []) good) in
    (
      goodbyes w st c,
      Perm.map (goodbye_line st) each,
      ap (λ x. x.phase) ends,
      ap (λ x. x.handler.holds_conn) ends,
    )
