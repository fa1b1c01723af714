-- ===== src/Services/Fleet/Cleanup.antt =====
-- Which clients the cleanup stops and removes.
use chatta.Prelude.{
  if◌then◌else◌, if_intro, All, ◌≡◌, refl, sym, ap, ◌∙◌, subst, Bool, true, false, not, ◌&&◌, ◌||◌,
  Option, none, some, List, [], ◌∷◌, ◌++◌, arith,
}
use chatta.Prelude.Int.{pos, ltb_ℤ}
use chatta.Text.Basic.{Text, eq_text}
use chatta.Common.{ChatSession, ClientSurvey}
use chatta.Dal.Process.{process_alive, Stopped, gone, stop_verified_supervisor-gone}
use chatta.Services.Control.{Outcome, done, refused}
use chatta.Services.Fleet.{
  View, stop_supervisor, is_active, live_owner, active_binding, owner_ended, survey_row, with_row,
  survey, Cleaned, is_kept, Report, pruned_then, stopped_then, cleaned_then, clean_rows,
}

-- The owner has ended, and no Codex binding is active.
pub record IsAbandoned (v : View) : Type 0 where
  pub session : ChatSession
  pub there : v.state ≡ done session
  pub ended : process_alive v.processes session.owner ≡ false
  pub unbound : is_active v session ≡ false

kept_iff :
    (home : Text) (v : View) (st : ChatSession)
    → is_kept (survey_row home v st) ≡ (process_alive v.processes st.owner || is_active v st)
unfolding eq_text
kept_iff home v st = of_looks (process_alive v.processes st.owner) (is_active v st)
  where
    of_looks :
        (alive active : Bool)
        → (let eligibility =
              if not alive && active
              then active_binding
              else if not alive
              then owner_ended
              else live_owner in
            eq_text eligibility live_owner || eq_text eligibility active_binding)
          ≡ (alive || active)
    of_looks true true = refl
    of_looks true false = refl
    of_looks false true = refl
    of_looks false false = refl

row-IsAbandoned :
    (home : Text) (v : View) (st : ChatSession)
    → v.state ≡ done st
    → is_kept (survey_row home v st) ≡ false
    → IsAbandoned v
row-IsAbandoned home v st there h =
    let neither = sym (kept_iff home v st) ∙ h in
    record {
      session = st;
      there = there;
      ended = ground (arith, neither);
      unbound = ground (arith, neither);
    }

abbrev session_or : ChatSession → Outcome ChatSession → ChatSession
session_or st (done st') = st'
session_or st (refused e) = st

pub abandoned-row :
    (home : Text) (v : View) (st : ChatSession)
    → v.state ≡ done st
    → IsAbandoned v
    → is_kept (survey_row home v st) ≡ false
abandoned-row home v st there a =
    let same : a.session ≡ st = ap (session_or st) (sym a.there ∙ there) in
    subst (λ t. is_kept (survey_row home v t) ≡ false) same
      (kept_iff home v a.session ∙ rw (a.ended, a.unbound))

-- Each row that is not kept is that of an abandoned home.
pub rows-IsAbandoned :
    (at : Text → View) (homes : List Text)
    → All
        (λ (row : ClientSurvey). is_kept row ≡ false → IsAbandoned (at row.client_home))
        (survey at homes)
unfolding survey
rows-IsAbandoned at [] = tt
rows-IsAbandoned at (home ∷ homes) = of_state (at home).state refl (rows-IsAbandoned at homes)
  where
    of_state :
        (o : Outcome ChatSession)
        → (at home).state ≡ o
        → All
            (λ (row : ClientSurvey). is_kept row ≡ false → IsAbandoned (at row.client_home))
            (survey at homes)
        → All
            (λ (row : ClientSurvey). is_kept row ≡ false → IsAbandoned (at row.client_home))
            (with_row home (at home) o (survey at homes))
    of_state (refused e) there later = later
    of_state (done st) there later = (row-IsAbandoned home (at home) st there, later)

module _ (P : Text → Type 0) where
  stopped_then-All :
      (prune : Bool) (home : Text) (v : View) (s : Stopped) (e : Option Text) (later : Report)
      → P home
      → All (λ (c : Cleaned). P c.home) later.cleaned
      → All (λ (c : Cleaned). P c.home) (stopped_then prune home v s e later).cleaned
  stopped_then-All prune home v s (some e) later p q = (p, tt)
  stopped_then-All false home v s none later p q = (p, q)
  stopped_then-All true home v s none later p q = of_removal v.remove_all
    where
      of_removal :
          (e : Option Text)
          → All (λ (c : Cleaned). P c.home) (pruned_then home s.signals e later).cleaned
      of_removal none = (p, q)
      of_removal (some e) = (p, tt)

  pub clean_rows-All :
      (at : Text → View) (prune : Bool) (rows : List ClientSurvey)
      → All (λ (row : ClientSurvey). is_kept row ≡ false → P row.client_home) rows
      → All (λ (c : Cleaned). P c.home) (clean_rows at prune rows).cleaned
  unfolding clean_rows
  clean_rows-All at prune [] h = tt
  clean_rows-All at prune (row ∷ rows) (h, hs) =
      let later = clean_rows-All at prune rows hs in
      if_intro (λ (r : Report). All (λ (c : Cleaned). P c.home) r.cleaned) (is_kept row) _ _
        (λ kept. later) (λ open_row. of_state (at row.client_home).state (h open_row) later)
    where
      of_state :
          (o : Outcome ChatSession)
          → P row.client_home
          → All (λ (c : Cleaned). P c.home) (clean_rows at prune rows).cleaned
          → All
              (λ (c : Cleaned). P c.home)
              (cleaned_then prune row.client_home
                (at row.client_home)
                o
                (clean_rows at prune rows)).cleaned
      of_state (refused e) p q = q
      of_state (done st) p q =
          let s = stop_supervisor (at row.client_home) st in
          stopped_then-All prune row.client_home (at row.client_home) s s.error
            (clean_rows at prune rows) p q

-- The recorded supervisor is not there any more, if there is one on record.
abbrev pub HasHalted : View → ChatSession → Type 0
HasHalted v st =
    ltb_ℤ (pos 0) st.supervisor_pid ≡ true
    → gone st.supervisor_pid st.supervisor_start_fingerprint
        (v.processes ∷ (v.looks ++ v.later_looks))
      ≡ true

pub stop_supervisor-HasHalted :
    (v : View) (st : ChatSession) → (stop_supervisor v st).error ≡ none → HasHalted v st
stop_supervisor-HasHalted v st h recorded =
    (stop_verified_supervisor-gone v.processes v.looks v.later_looks v.term v.kill st.supervisor_pid
        st.supervisor_start_fingerprint).0
      (rw recorded at h)
