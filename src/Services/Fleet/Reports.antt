-- ===== src/Services/Fleet/Reports.antt =====
-- What the report of the cleanup says of the clients.
use chatta.Prelude.{
  if_intro, Option-cases, ◌⊎◌, All, Any, All-imp, ◌≡◌, refl, sym, ap, ◌∙◌, subst, inl, inr, Bool,
  true, false, Option, none, some, List, [], ◌∷◌, arith,
}
use chatta.Text.Basic.{Text}
use chatta.Common.{ChatSession, ClientSurvey}
use chatta.Dal.Process.{Stopped}
use chatta.Services.Control.{Outcome, done, refused}
use chatta.Services.Fleet.{
  View, stop_supervisor, survey_row, with_row, survey, Cleaned, is_kept, Report, pruned_then,
  stopped_then, cleaned_then, clean_rows, report_rows, gc_report,
}
use chatta.Services.Fleet.Cleanup.{
  IsAbandoned, abandoned-row, rows-IsAbandoned, clean_rows-All, HasHalted,
  stop_supervisor-HasHalted,
}

-- The home was cleaned: it was removed if asked for, and its supervisor does not run.
abbrev pub IsCleaned : (Text → View) → Bool → Text → Cleaned → Type 0
IsCleaned at prune home c =
    (c.home ≡ home)
    × (c.pruned ≡ prune)
    × ((st : ChatSession) → (at home).state ≡ done st → HasHalted (at home) st)

-- Where its state could be loaded at all.
abbrev pub Handled : (Text → View) → Bool → List Cleaned → Text → Type 0
Handled at prune cleaned home =
    (st : ChatSession) → (at home).state ≡ done st → Any (IsCleaned at prune home) cleaned

abbrev session_or : ChatSession → Outcome ChatSession → ChatSession
session_or st (done st') = st'
session_or st (refused e) = st

-- One home that is cleaned: the rest of the report follows, and the home is in it.
abbrev CleansFirst : (Text → View) → Bool → Text → Report → Report → Type 0
CleansFirst at prune home later r =
    (later.error ≡ none)
    × Handled at prune r.cleaned home
    × ((x : Text) → Handled at prune later.cleaned x → Handled at prune r.cleaned x)

stopped_then-CleansFirst :
    (at : Text → View) (prune : Bool) (home : Text) (st : ChatSession) (s : Stopped)
    (e : Option Text) (later : Report)
    → (at home).state ≡ done st
    → (e ≡ none → HasHalted (at home) st)
    → (stopped_then prune home (at home) s e later).error ≡ none
    → CleansFirst at prune home later (stopped_then prune home (at home) s e later)
stopped_then-CleansFirst at prune home st s (some e) later there halts h = absurd (cc)
stopped_then-CleansFirst at false home st s none later there halts h = (
  h,
  λ st' there'. inl (
    refl,
    refl,
    λ t at_t. subst (HasHalted (at home)) (ap (session_or st) (sym there ∙ at_t)) (halts refl),
  ),
  λ x handled st' there'. inr (handled st' there'),
)
stopped_then-CleansFirst at true home st s none later there halts h =
    of_removal (at home).remove_all h
  where
    of_removal :
        (e : Option Text)
        → (pruned_then home s.signals e later).error ≡ none
        → CleansFirst at true home later (pruned_then home s.signals e later)
    of_removal (some e) k = absurd (cc)
    of_removal none k = (
      k,
      λ st' there'. inl (
        refl,
        refl,
        λ t at_t. subst (HasHalted (at home)) (ap (session_or st) (sym there ∙ at_t)) (halts refl),
      ),
      λ x handled st' there'. inr (handled st' there'),
    )

cleaned_then-CleansFirst :
    (at : Text → View) (prune : Bool) (home : Text) (o : Outcome ChatSession) (later : Report)
    → (at home).state ≡ o
    → (cleaned_then prune home (at home) o later).error ≡ none
    → CleansFirst at prune home later (cleaned_then prune home (at home) o later)
cleaned_then-CleansFirst at prune home (refused e) later there h =
    (h, λ st there'. absurd (cc), λ x handled. handled)
cleaned_then-CleansFirst at prune home (done st) later there h =
    let s = stop_supervisor (at home) st in
    stopped_then-CleansFirst at prune home st s s.error later there
      (stop_supervisor-HasHalted (at home) st) h

-- What the rows of the homes give.
abbrev HandlesAll : (Text → View) → (Text → View) → Bool → List Text → Report → Type 0
HandlesAll at_survey at_clean prune homes r =
    All (λ home. IsAbandoned (at_survey home) → Handled at_clean prune r.cleaned home) homes

first-HandlesAll :
    (at_survey at_clean : Text → View) (prune : Bool) (home : Text) (homes : List Text)
    (later r : Report)
    → CleansFirst at_clean prune home later r
    → HandlesAll at_survey at_clean prune homes later
    → HandlesAll at_survey at_clean prune (home ∷ homes) r
first-HandlesAll at_survey at_clean prune home homes later r (good, here, onward) hs =
    (λ abandoned. here, All-imp (λ x handled abandoned. onward x (handled abandoned)) homes hs)

clean_rows-HandlesAll :
    (at_survey at_clean : Text → View) (prune : Bool) (homes : List Text)
    → (clean_rows at_clean prune (survey at_survey homes)).error ≡ none
    → HandlesAll at_survey at_clean prune homes (clean_rows at_clean prune (survey at_survey homes))
unfolding survey
clean_rows-HandlesAll at_survey at_clean prune [] h = tt
clean_rows-HandlesAll at_survey at_clean prune (home ∷ homes) h =
    of_state (at_survey home).state refl (clean_rows-HandlesAll at_survey at_clean prune homes) h
  where
    of_state :
        (o : Outcome ChatSession)
        → (at_survey home).state ≡ o
        → ((clean_rows at_clean prune (survey at_survey homes)).error ≡ none
            → HandlesAll at_survey at_clean prune homes
                (clean_rows at_clean prune (survey at_survey homes)))
        → (clean_rows at_clean prune
            (with_row home (at_survey home) o (survey at_survey homes))).error
          ≡ none
        → HandlesAll at_survey at_clean prune
            (home ∷ homes)
            (clean_rows at_clean prune (with_row home (at_survey home) o (survey at_survey homes)))
    of_state (refused e) there later k = (λ abandoned. absurd (cc abandoned.there), later k)
    of_state (done st) there later k =
        let row = survey_row home (at_survey home) st in
        let rest = clean_rows at_clean prune (survey at_survey homes) in
        unfold clean_rows in
        if_intro
          (λ (r : Report). r.error ≡ none → HandlesAll at_survey at_clean prune (home ∷ homes) r)
          (is_kept row) rest (cleaned_then prune home (at_clean home) (at_clean home).state rest)
          (λ kept e. (
            λ abandoned.
                absurd
                  (ground (arith, kept, abandoned-row home (at_survey home) st there abandoned)),
            later e,
          ))
          (λ open_row e.
            let first =
              cleaned_then-CleansFirst at_clean prune home (at_clean home).state rest refl e in
            first-HandlesAll at_survey at_clean prune home homes rest
              (cleaned_then prune home (at_clean home) (at_clean home).state rest) first
              (later first.0))
          k

-- What the report promises when it returns rows and is no dry run.
abbrev pub Completes :
    (Text → View)
    → (Text → View)
    → List Text
    → Bool
    → Bool
    → Report × Outcome (List ClientSurvey)
    → Type 0
Completes at_survey at_clean homes dry_run prune (r, out) =
    (dry_run ≡ true)
    ⊎ (((e : Text) × (out ≡ refused e))
        ⊎ ((out ≡ done (survey at_survey homes))
            × All (λ home. IsAbandoned (at_survey home) → Handled at_clean prune r.cleaned home)
                homes))

-- The cleanup touches only clients whose owner had ended and which had no active Codex binding when
-- they were surveyed, and a dry run touches none. If it is no dry run and reports no error, then it
-- returns the rows of the survey, and each such client whose state could still be loaded was
-- cleaned: its recorded supervisor does not run any more, and its home was removed if that was asked
-- for.
pub gc_report-Cleans :
    (at_survey at_clean : Text → View) (homes : List Text) (dry_run prune : Bool)
    → let report = gc_report at_survey at_clean homes dry_run prune in
      All (λ (c : Cleaned). (dry_run ≡ false) × IsAbandoned (at_survey c.home)) report.0.cleaned
      × Completes at_survey at_clean homes dry_run prune report
unfolding gc_report
gc_report-Cleans at_survey at_clean homes true prune = (tt, inl refl)
gc_report-Cleans at_survey at_clean homes false prune =
    let rows = survey at_survey homes in
    (
      clean_rows-All (λ home. ◌≡◌ {A = Bool} false false × IsAbandoned (at_survey home)) at_clean
          prune rows
          (All-imp (λ row abandoned open_row. (refl, abandoned open_row)) rows
            (rows-IsAbandoned at_survey homes)),
      inr (elim (Option-cases (clean_rows at_clean prune rows).error) [
        | inl fine ↦
            inr (
              ap (report_rows rows) fine,
              clean_rows-HandlesAll at_survey at_clean prune homes fine,
            )
        | inr (e, failed) ↦ inl (e, ap (report_rows rows) failed)
      ]),
    )
