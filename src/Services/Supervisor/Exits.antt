-- ===== src/Services/Supervisor/Exits.antt =====
-- When a supervisor stops, and why.
pub mod Ended
use chatta.Prelude.{
  ltb, if◌then◌else◌, Bool-cases, Option-cases, if_intro, ℕ, ◌-◌, ◌≡◌, refl, sym, ap, ◌∙◌, ◌⊎◌, inl,
  inr, Option, none, some, List, [], ◌∷◌,
}
use chatta.Text.Basic.{Text}
use chatta.Text.Case.{Unicode}
use chatta.Common.{ChatSession, ChannelMembership}
use chatta.Irc.Conn.State.{Conn, Error}
use chatta.Irc.Conn.Calls.{Progress, returned, waiting, wait_done}
use chatta.Irc.Conn.Calls
use chatta.Services.Control.{done, refused}
use chatta.Services.Supervisor.Loop.{
  Surroundings, is_abandoned, Exit, stop_signal, owner_exited, unloaded, Phase, loading,
  undialled_wait, pausing, joining, confirming, running, stopped, Supervisor, Happening, loads,
  signalled, elapsed, joins, join_ends, join_times_out, disconnects, ticks, calls,
  liveness_deadline, liveness_probe, joined, confirmed, next_join, dialled, loaded, in_phase,
  advance, supervise, tick, new_supervisor,
}

abbrev pub exit_of : Phase → Option Exit
exit_of (stopped why c) = some why
exit_of phase = none

-- What ends the supervisor: a state that cannot be loaded, a look at the processes that finds
-- neither the owner nor an active Codex binding, or a signal while it waits.
abbrev pub cause : Phase → Happening → Option Exit
cause loading (loads (refused e) w dial) = some (unloaded e)
cause loading (loads (done st) w dial) = if is_abandoned w st then some owner_exited else none
cause undialled_wait (signalled w) = some stop_signal
cause (running st c) (signalled w) = some stop_signal
cause (running st c) (ticks w now payload writes) =
    if is_abandoned w st then some owner_exited else none
cause phase h = none

next_join-exit :
    (st : ChatSession) (c : Conn) (ms : List ChannelMembership) → exit_of (next_join st c ms) ≡ none
next_join-exit st c [] = refl
next_join-exit st c (m ∷ ms) = refl

joined-exit :
    (st : ChatSession) (name : Text) (ms : List ChannelMembership) (p : Conn × Progress)
    (s : Supervisor)
    → exit_of (joined st name ms p s).phase ≡ none
joined-exit st name ms (c, returned e) s = next_join-exit st c ms
joined-exit st name ms (c, waiting r) s = refl

confirmed-exit :
    (st : ChatSession) (c : Conn) (name : Text) (ms : List ChannelMembership) (here : Phase)
    (o : Option (Option Error × List Text)) (s : Supervisor)
    → exit_of s.phase ≡ none
    → exit_of (confirmed st c name ms here o s).phase ≡ none
confirmed-exit st c name ms here none s e = e
confirmed-exit st c name ms here (some (err, names)) s e = next_join-exit st c ms

dialled-exit :
    (st : ChatSession) (dial : Error ⊎ Conn) (s : Supervisor)
    → exit_of (dialled st dial s).phase ≡ none
dialled-exit st (inl e) s = refl
dialled-exit st (inr c) s = next_join-exit st (Calls.on_message c) st.channels

tick-exit :
    (w : Surroundings) (now : ℕ) (payload : Text) (writes : ℕ → Option Text) (st : ChatSession)
    (c : Conn) (s : Supervisor)
    → exit_of s.phase ≡ none
    → exit_of (tick w now payload writes st c s).phase
      ≡ (if is_abandoned w st then some owner_exited else none)
unfolding tick
tick-exit w now payload writes st c s e = elim (Bool-cases (is_abandoned w st)) [
  | inl gone ↦ rw gone
  | inr kept ↦ rw kept (
      if_intro (λ (t : Supervisor). exit_of t.phase ≡ none)
        (ltb liveness_deadline (now - c.last_activity)) _ _ (λ idle. e)
        (λ fresh.
          if_intro (λ (t : Supervisor). exit_of t.phase ≡ none)
            (ltb liveness_probe (now - c.last_activity)) _ s (λ probe. refl) (λ quiet. e)))
]

loaded-exit :
    (st : ChatSession) (w : Surroundings) (dial : Error ⊎ Conn) (s : Supervisor)
    → exit_of (loaded (done st) w dial s).phase
      ≡ (if is_abandoned w st then some owner_exited else none)
loaded-exit st w dial s = elim (Bool-cases (is_abandoned w st)) [
  | inl gone ↦ rw gone
  | inr kept ↦ rw kept (dialled-exit st dial s)
]

in_phase-exit :
    (u : Unicode) (phase : Phase) (h : Happening) (s : Supervisor)
    → exit_of s.phase ≡ none
    → exit_of phase ≡ none
    → exit_of (in_phase u phase h s).phase ≡ cause phase h
in_phase-exit u loading (loads (refused e) w dial) s k e' = refl
in_phase-exit u loading (loads (done st) w dial) s k e = loaded-exit st w dial s
in_phase-exit u loading _ s k e = k
in_phase-exit u undialled_wait (signalled w) s k e = refl
in_phase-exit u undialled_wait elapsed s k e = refl
in_phase-exit u undialled_wait _ s k e = k
in_phase-exit u pausing elapsed s k e = refl
in_phase-exit u pausing _ s k e = k
in_phase-exit u (joining st c []) h s k e = refl
in_phase-exit u (joining st c (m ∷ ms)) (joins w) s k e =
    joined-exit st m.name ms (Calls.join m.name w c) s
in_phase-exit u (joining st c (m ∷ ms)) (calls event) s k e = refl
in_phase-exit u (joining st c (m ∷ ms)) _ s k e = k
in_phase-exit u (confirming st c r name ms) join_ends s k e =
    confirmed-exit st c name ms (confirming st c r name ms) (wait_done r c) s k
in_phase-exit u (confirming st c r name ms) join_times_out s k e = next_join-exit st c ms
in_phase-exit u (confirming st c r name ms) (calls event) s k e = refl
in_phase-exit u (confirming st c r name ms) _ s k e = k
in_phase-exit u (running st c) (signalled w) s k e = refl
in_phase-exit u (running st c) (disconnects why) s k e = refl
in_phase-exit u (running st c) (ticks w now payload writes) s k e =
    tick-exit w now payload writes st c s k
in_phase-exit u (running st c) (calls event) s k e = refl
in_phase-exit u (running st c) _ s k e = k
in_phase-exit u (stopped why c) h s k e = absurd (cc)

pub advance-exit :
    (u : Unicode) (h : Happening) (s : Supervisor)
    → exit_of s.phase ≡ none
    → exit_of (advance u s h).phase ≡ cause s.phase h
unfolding advance
advance-exit u h s k = in_phase-exit u s.phase h s k k

-- A stopped supervisor does nothing more.
pub stopped-stays :
    (u : Unicode) (hs : List Happening) (s : Supervisor) (why : Exit) (c : Option Conn)
    → s.phase ≡ stopped why c
    → supervise u s hs ≡ s
unfolding supervise advance
stopped-stays u [] s why c e = refl
stopped-stays u (h ∷ hs) s why c e =
    let same : in_phase u s.phase h s ≡ s = ap (λ phase. in_phase u phase h s) e in
    ap (λ t. supervise u t hs) same ∙ stopped-stays u hs s why c e
