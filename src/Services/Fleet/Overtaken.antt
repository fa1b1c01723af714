-- ===== src/Services/Fleet/Overtaken.antt =====
-- A client that is started again between the survey and the cleanup.
use chatta.Prelude.{
  if_intro, ◌≡◌, refl, ap, ◌∙◌, Bool, true, false, Option, none, some, List, [], ◌∷◌,
}
use chatta.Text.Basic.{Text}
use chatta.Common.{ChatSession}
use chatta.Prelude.Int.{pos, ltb_ℤ}
use chatta.Dal.Process.{
  process_alive, Stopped, Signal, sigterm, sigkill, killed, terminated, gone,
  stop_verified_supervisor, is_verified_supervisor,
}
use chatta.Services.Control.{done}
use chatta.Services.Fleet.{
  View, stop_supervisor, survey_row, with_row, survey, Report, pruned_then, stopped_then,
  cleaned_then, clean_rows, gc_report,
}
use chatta.Services.Fleet.Cleanup.{IsAbandoned, abandoned-row}

abbrev nothing_more : Report
nothing_more = record { cleaned = []; error = none }

stopped_then_one :
    (prune : Bool) (home : Text) (v : View) (s : Stopped) (e : Option Text)
    → (b : Bool) × ((stopped_then prune home v s e nothing_more).cleaned
        ≡ (record { home = home; signals = s.signals; pruned = b }) ∷ [])
stopped_then_one prune home v s (some e) = (false, refl)
stopped_then_one false home v s none = (false, refl)
stopped_then_one true home v s none = of_removal v.remove_all
  where
    of_removal :
        (e : Option Text)
        → (b : Bool) × ((pruned_then home s.signals e nothing_more).cleaned
            ≡ (record { home = home; signals = s.signals; pruned = b }) ∷ [])
    of_removal none = (true, refl)
    of_removal (some e) = (false, refl)

abbrev StartsWithTerm : List Signal → Type 0
StartsWithTerm signals = (rest : List Signal) × (signals ≡ sigterm ∷ rest)

stop_verified_supervisor-signals :
    (v : View) (st : ChatSession)
    → ltb_ℤ (pos 0) st.supervisor_pid ≡ true
    → is_verified_supervisor v.processes st.supervisor_pid st.supervisor_start_fingerprint ≡ true
    → StartsWithTerm (stop_supervisor v st).signals
unfolding stop_verified_supervisor
stop_verified_supervisor-signals v st recorded runs = rw (recorded, runs) (of_term v.term)
  where
    of_kill :
        (e : Option Text)
        → StartsWithTerm
            (killed st.supervisor_pid st.supervisor_start_fingerprint v.later_looks e).signals
    of_kill none = (sigkill ∷ [], refl)
    of_kill (some e) = (sigkill ∷ [], refl)

    of_term :
        (e : Option Text)
        → StartsWithTerm
            (terminated st.supervisor_pid st.supervisor_start_fingerprint v.looks v.later_looks
              v.kill e).signals
    of_term (some e) = ([], refl)
    of_term none =
        if_intro (λ (s : Stopped). StartsWithTerm s.signals)
          (gone st.supervisor_pid st.supervisor_start_fingerprint v.looks) _ _ (λ left. ([], refl))
          (λ still. of_kill v.kill)

survey_one :
    (at : Text → View) (home : Text) (a : IsAbandoned (at home))
    → survey at (home ∷ []) ≡ survey_row home (at home) a.session ∷ []
unfolding survey
survey_one at home a = ap (λ o. with_row home (at home) o []) a.there

-- What the cleanup looks at is the survey: a client that has been started again since then is
-- cleaned like the others. Its new supervisor gets the signal to stop although its owner is alive.
pub gc_report_overtaken :
    (at_survey at_clean : Text → View) (home : Text) (prune : Bool) (st : ChatSession)
    → IsAbandoned (at_survey home)
    → (at_clean home).state ≡ done st
    → process_alive (at_clean home).processes st.owner ≡ true
    → ltb_ℤ (pos 0) st.supervisor_pid ≡ true
    → is_verified_supervisor
        (at_clean home).processes
        st.supervisor_pid
        st.supervisor_start_fingerprint
      ≡ true
    → let cleaned = (gc_report at_survey at_clean (home ∷ []) false prune).0.cleaned in
      (rest : List Signal) × (b : Bool) × (cleaned
        ≡ (record { home = home; signals = sigterm ∷ rest; pruned = b }) ∷ [])
unfolding gc_report clean_rows
gc_report_overtaken at_survey at_clean home prune st abandoned there alive recorded runs =
    let v = at_clean home in
    let s = stop_supervisor v st in
    let open_row =
      abandoned-row home (at_survey home) abandoned.session abandoned.there abandoned in
    let (rest, term) = stop_verified_supervisor-signals v st recorded runs in
    let (b, one) = stopped_then_one prune home v s s.error in
    (
      rest,
      b,
      ap (λ rows. (clean_rows at_clean prune rows).cleaned) (survey_one at_survey home abandoned)
          ∙ rw open_row (ap (λ o. (cleaned_then prune home v o nothing_more).cleaned) there)
          ∙ one
          ∙ ap (λ l. (record { home = home; signals = l; pruned = b }) ∷ []) term,
    )
