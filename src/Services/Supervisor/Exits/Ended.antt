-- ===== src/Services/Supervisor/Exits/Ended.antt =====
-- What ended a supervisor in a run.
use chatta.Prelude.{
  Option-cases, ◌≡◌, refl, sym, ap, ◌∙◌, ◌↔◌, inl, inr, Option, none, some, List, [], ◌∷◌, ◌++◌,
}
use chatta.Text.Case.{Unicode}
use chatta.Irc.Conn.State.{Conn}
use chatta.Services.Supervisor.Loop.{
  Exit, Phase, loading, undialled_wait, pausing, joining, confirming, running, stopped, Supervisor,
  Happening, advance, supervise, new_supervisor,
}
use chatta.Services.Supervisor.Exits.{exit_of, cause, advance-exit, stopped-stays}

-- The happenings up to the one that ended the supervisor.
pub record EndedBy (u : Unicode) (s : Supervisor) (hs : List Happening) (why : Exit) : Type 0 where
  pub before : List Happening
  pub last : Happening
  pub after : List Happening
  pub whole : hs ≡ before ++ last ∷ after
  pub is_cause : cause (supervise u s before).phase last ≡ some why

later_end :
    (u : Unicode) (s : Supervisor) (h : Happening) (hs : List Happening) (why : Exit)
    → EndedBy u (advance u s h) hs why
    → EndedBy u s (h ∷ hs) why
unfolding supervise
later_end u s h hs why d = record {
  before = h ∷ d.before;
  last = d.last;
  after = d.after;
  whole = ap (◌∷◌ h) d.whole;
  is_cause = d.is_cause;
}

abbrev or_exit : Exit → Option Exit → Exit
or_exit why none = why
or_exit why (some w) = w

phase_of_exit :
    (phase : Phase) (why : Exit)
    → exit_of phase ≡ some why
    → (c : Option Conn) × (phase ≡ stopped why c)
phase_of_exit (stopped why' c) why e = (c, ap (λ w. stopped w c) (ap (or_exit why) e))
phase_of_exit loading why e = cc
phase_of_exit undialled_wait why e = cc
phase_of_exit pausing why e = cc
phase_of_exit (joining st c ms) why e = cc
phase_of_exit (confirming st c r name ms) why e = cc
phase_of_exit (running st c) why e = cc

supervise-end :
    (u : Unicode) (hs : List Happening) (s : Supervisor) (why : Exit)
    → exit_of s.phase ≡ none
    → exit_of (supervise u s hs).phase ≡ some why
    → EndedBy u s hs why
unfolding supervise
supervise-end u [] s why k e = cc
supervise-end u (h ∷ hs) s why k e = elim (Option-cases (cause s.phase h)) [
  | inl none_there ↦
      later_end u s h hs why
        (supervise-end u hs (advance u s h) why (advance-exit u h s k ∙ none_there) e)
  | inr (why', found) ↦
      let (c, ended) = phase_of_exit (advance u s h).phase why' (advance-exit u h s k ∙ found) in
      let same = stopped-stays u hs (advance u s h) why' c ended in
      record {
        before = [];
        last = h;
        after = hs;
        whole = refl;
        is_cause = sym (advance-exit u h s k) ∙ sym (ap (λ t. exit_of t.phase) same) ∙ e;
      }
]

supervise-append :
    (u : Unicode) (xs ys : List Happening) (s : Supervisor)
    → supervise u s (xs ++ ys) ≡ supervise u (supervise u s xs) ys
unfolding supervise
supervise-append u [] ys s = refl
supervise-append u (x ∷ xs) ys s = supervise-append u xs ys (advance u s x)

unstopped :
    (phase : Phase) (h : Happening) (why : Exit) → cause phase h ≡ some why → exit_of phase ≡ none
unstopped (stopped why' c) h why e = cc
unstopped loading h why e = refl
unstopped undialled_wait h why e = refl
unstopped pausing h why e = refl
unstopped (joining st c ms) h why e = refl
unstopped (confirming st c r name ms) h why e = refl
unstopped (running st c) h why e = refl

ended-exit :
    (u : Unicode) (hs : List Happening) (s : Supervisor) (why : Exit)
    → EndedBy u s hs why
    → exit_of (supervise u s hs).phase ≡ some why
unfolding supervise
ended-exit u hs s why d =
    let t = supervise u s d.before in
    let here = unstopped t.phase d.last why d.is_cause in
    let ends = advance-exit u d.last t here ∙ d.is_cause in
    let (c, ended) = phase_of_exit (advance u t d.last).phase why ends in
    ap (λ l. exit_of (supervise u s l).phase) d.whole
    ∙ ap (λ x. exit_of x.phase) (supervise-append u d.before (d.last ∷ d.after) s)
    ∙ ap (λ x. exit_of x.phase) (stopped-stays u d.after (advance u t d.last) why c ended)
    ∙ ends

-- In every run, a supervisor has stopped for a reason exactly when something gave it that reason
-- while it was in a phase that looks for it: a state that could not be loaded, a look that found
-- neither the owner nor an active Codex binding when the loop started or the ticker fired, or a
-- signal during the wait after a failed dial or in the inner loop.
pub supervise-exit_iff :
    (u : Unicode) (hs : List Happening) (why : Exit)
    → (exit_of (supervise u new_supervisor hs).phase ≡ some why) ↔ EndedBy u new_supervisor hs why
supervise-exit_iff u hs why =
    (supervise-end u hs new_supervisor why refl, ended-exit u hs new_supervisor why)
