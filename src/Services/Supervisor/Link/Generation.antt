-- ===== src/Services/Supervisor/Link/Generation.antt =====
-- What a watcher may conclude from the generation in a supervisor's status.
use chatta.Prelude.{
  if◌then◌else◌, Bool-cases, ℕ, ◌+◌, ◌*◌, ◌≤◌, ◌≡◌, ◌≢◌, ◌↔◌, refl, sym, ap, ◌∙◌, inl, inr, Bool,
  true, false, Option, none, some, List, [], ◌∷◌, arith,
}
use chatta.Text.Case.{Unicode}
use chatta.Common.{TransportStatus}
use chatta.Irc.Conn.State.{Conn}
use chatta.Services.Supervisor.{Printing, status_response, Handler}
use chatta.Services.Supervisor.Silence.{conn_of, held_conn}
use chatta.Services.Supervisor.Loop.{
  Phase, loading, undialled_wait, pausing, joining, confirming, running, stopped, Supervisor,
  Happening, advance, supervise, new_supervisor,
}
use chatta.Services.Supervisor.Link.{
  SoundAt, IsSound, level, advance-Onward, supervise-Grown, supervise-IsSound,
}

conn_of-SoundAt :
    (phase : Phase) (h : Handler)
    → SoundAt phase h
    → h.holds_conn ≡ true
    → (c : Conn) × (conn_of phase ≡ some c)
conn_of-SoundAt (joining st c ms) h v k = (c, refl)
conn_of-SoundAt (confirming st c r name ms) h v k = (c, refl)
conn_of-SoundAt (running st c) h v k = (c, refl)
conn_of-SoundAt loading h v k = cc
conn_of-SoundAt undialled_wait h v k = cc
conn_of-SoundAt pausing h v k = cc
conn_of-SoundAt (stopped why c) h v k = cc

-- What a client learns from a status request: nothing, or the status.
abbrev pub status_seen : Printing → Supervisor → Option TransportStatus
status_seen p s = (status_response p s.handler (held_conn s)).status

abbrev generation_or : ℕ → Option TransportStatus → ℕ
generation_or n none = n
generation_or n (some t) = t.generation

seen-held :
    (p : Printing) (s : Supervisor) (a : TransportStatus)
    → status_seen p s ≡ some a
    → (s.handler.holds_conn ≡ true) × (a.generation ≡ s.handler.generation)
unfolding status_response
seen-held p s a e = seen_held_of s.handler.holds_conn (conn_of s.phase) refl e
  where
    seen_held_of :
        (b : Bool) (c : Option Conn)
        → s.handler.holds_conn ≡ b
        → (status_response p s.handler (if b then c else none)).status ≡ some a
        → (s.handler.holds_conn ≡ true) × (a.generation ≡ s.handler.generation)
    seen_held_of true (some c) k e = (k, sym (ap (generation_or 0) e))
    seen_held_of true none k e = absurd (cc)
    seen_held_of false c k e = absurd (cc)

unseen-unheld :
    (p : Printing) (s : Supervisor)
    → IsSound s
    → status_seen p s ≡ none
    → s.handler.holds_conn ≡ false
unfolding status_response
unseen-unheld p s v e = elim (Bool-cases s.handler.holds_conn) [
  | inr unheld ↦ unheld
  | inl held ↦
      let (c, has) = conn_of-SoundAt s.phase s.handler v held in absurd (ground (arith, held, has))
]

level-unheld : (h : Handler) → h.holds_conn ≡ false → level h ≡ 2 * h.generation + 1
level-unheld h e = ground (arith, e)

level-held : (h : Handler) → h.holds_conn ≡ true → level h ≡ 2 * h.generation
level-held h e = ground (arith, e)

level-even : (h : Handler) (n : ℕ) → level h ≡ 2 * n → h.holds_conn ≡ true
level-even h n e = elim (Bool-cases h.holds_conn) [
  | inl held ↦ held
  | inr unheld ↦ absurd (omega (arith, e, level-unheld h unheld))
]

held-seen :
    (p : Printing) (s : Supervisor)
    → IsSound s
    → s.handler.holds_conn ≡ true
    → status_seen p s ≢ none
held-seen p s v held unseen = let gone = unseen-unheld p s v unseen in absurd (cc)

unheld-unseen :
    (p : Printing) (s : Supervisor) → s.handler.holds_conn ≡ false → status_seen p s ≡ none
unfolding status_response
unheld-unseen p s gone = rw gone refl

seen-holds : (p : Printing) (s : Supervisor) → status_seen p s ≢ none → s.handler.holds_conn ≡ true
seen-holds p s seen = elim (Bool-cases s.handler.holds_conn) [
  | inl held ↦ held
  | inr gone ↦ absurd (seen (unheld-unseen p s gone))
]

-- A status request would find a connection now and after each happening.
pub AlwaysUp : Unicode → Printing → Supervisor → List Happening → Type 0
AlwaysUp u p s [] = status_seen p s ≢ none
AlwaysUp u p s (h ∷ hs) = (status_seen p s ≢ none) × AlwaysUp u p (advance u s h) hs

pub AlwaysUp-last :
    (u : Unicode) (p : Printing) (s : Supervisor) (hs : List Happening)
    → AlwaysUp u p s hs
    → status_seen p (supervise u s hs) ≢ none
unfolding AlwaysUp supervise
AlwaysUp-last u p s [] up = up
AlwaysUp-last u p s (h ∷ hs) up = AlwaysUp-last u p (advance u s h) hs up.1

AlwaysUp-generation :
    (u : Unicode) (p : Printing) (hs : List Happening) (s : Supervisor)
    → IsSound s
    → AlwaysUp u p s hs
    → (supervise u s hs).handler.generation ≡ s.handler.generation
unfolding supervise AlwaysUp
AlwaysUp-generation u p [] s v up = refl
AlwaysUp-generation u p (h ∷ hs) s v (up, ups) =
    let first = advance-Onward u h s v in
    AlwaysUp-generation u p hs (advance u s h) first.sound ups ∙ first.kept (seen-holds p s up)

level-AlwaysUp :
    (u : Unicode) (p : Printing) (hs : List Happening) (s : Supervisor)
    → IsSound s
    → s.handler.holds_conn ≡ true
    → level (supervise u s hs).handler ≤ level s.handler
    → AlwaysUp u p s hs
unfolding supervise AlwaysUp
level-AlwaysUp u p [] s v held same = held-seen p s v held
level-AlwaysUp u p (h ∷ hs) s v held same =
    let first = advance-Onward u h s v in
    let later = supervise-Grown u hs (advance u s h) first.sound in
    let even : level (advance u s h).handler ≡ 2 * s.handler.generation =
      omega (arith, first.grows, later.grows, same, level-held s.handler held) in
    (
      held-seen p s v held,
      level-AlwaysUp u p hs (advance u s h) first.sound
          (level-even (advance u s h).handler s.handler.generation even)
          (omega (arith, first.grows, same)),
    )

-- What a watcher may conclude from the generations of two statuses, in every run of a supervisor.
-- The later one is at least the earlier one, and they are the same exactly when a status request
-- would have found a connection at every moment in between, even if nobody made one.
pub generation_tells :
    (u : Unicode) (p : Printing) (before between : List Happening) (a b : TransportStatus)
    → let s = supervise u new_supervisor before in
      status_seen p s ≡ some a
      → status_seen p (supervise u s between) ≡ some b
      → (a.generation ≤ b.generation) × ((a.generation ≡ b.generation) ↔ AlwaysUp u p s between)
generation_tells u p before between a b ea eb =
    let s = supervise u new_supervisor before in
    let t = supervise u s between in
    let v = supervise-IsSound u before in
    let grown = supervise-Grown u between s v in
    let (held_s, a_is) = seen-held p s a ea in
    let (held_t, b_is) = seen-held p t b eb in
    let level_s = level-held s.handler held_s in
    let level_t = level-held t.handler held_t in
    (
      omega (arith, grown.grows, a_is, b_is, level_s, level_t),
      (
        λ same.
            level-AlwaysUp u p between s v held_s
              (omega (arith, same, a_is, b_is, level_s, level_t)),
        λ up. a_is ∙ sym (AlwaysUp-generation u p between s v up) ∙ sym b_is,
      ),
    )
