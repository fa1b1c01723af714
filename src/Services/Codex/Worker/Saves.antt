-- ===== src/Services/Codex/Worker/Saves.antt =====
-- What one save of the worker does to the cursor in the binding file.
use chatta.Prelude.{
  if_intro, ℕ, ◌≡◌, refl, sym, ◌∙◌, subst, ◌≢◌, ◌⊎◌, inl, inr, Bool, true, false, not, ◌||◌, Option,
  none, some, arith,
}
use chatta.Prelude.Int.{ℤ}
use chatta.Common.{CodexBinding}
use chatta.Dal.AtomicFile.{Slot}
use chatta.Dal.Binding.{
  BindingError, loaded, is_invalid, load_codex_binding, save_codex_binding, save_codex_binding_load,
}
use chatta.Services.Codex.{codex_binding_matches}
use chatta.Services.Codex.Client.{DeliveryError}
use chatta.Services.Codex.Worker.{Queued}
use chatta.Services.Codex.Progress.{changed}
use chatta.Services.Codex.Progress.{
  Worker, Moment, ProgressError, update_binding, update_loaded, as_progress_error, progressed,
  blocked,
}

-- The file holds this binding, enabled, with this offset.
pub record Stands (w : Worker) (b : CodexBinding) (o : ℤ) (slot : Slot) : Type 0 where
  pub current : CodexBinding
  pub loads : load_codex_binding w.codec none slot ≡ loaded current
  pub matches : codex_binding_matches current b ≡ true
  pub enabled : current.enabled ≡ true
  pub offset : current.offset ≡ o

-- Nobody else writes the file, and reading it does not fail.
abbrev pub Quiet : Moment → Type 0
Quiet t = ((s : Slot) → t.others s ≡ s) × (t.read_fault ≡ none)

abbrev pub Undisturbed : Queued → Type 0
Undisturbed q = Quiet q.attempt.at_check × Quiet q.attempt.at_save

load_codex_binding-file :
    (w : Worker) (s t : Slot)
    → s.file ≡ t.file
    → load_codex_binding w.codec none s ≡ load_codex_binding w.codec none t
unfolding load_codex_binding
load_codex_binding-file w s t h = rw h

Stands-file :
    (w : Worker) (b : CodexBinding) (o : ℤ) (s t : Slot)
    → t.file ≡ s.file
    → Stands w b o s
    → Stands w b o t
Stands-file w b o s t h d = record {
  current = d.current;
  loads = load_codex_binding-file w t s h ∙ d.loads;
  matches = d.matches;
  enabled = d.enabled;
  offset = d.offset;
}

-- A save moves the offset, or fails and leaves it.
abbrev pub Saved : Worker → CodexBinding → ℤ → ℤ → Slot × Option ProgressError → Type 0
Saved w b o o' after =
    ((after.1 ≡ none) × Stands w b o' after.0) ⊎ ((after.1 ≢ none) × Stands w b o after.0)

-- A change that leaves the identity of the binding, and puts the offset where it says.
abbrev pub Keeps : CodexBinding → ℤ → ℤ → (CodexBinding → CodexBinding) → Type 0
Keeps b o o' change =
    (x : CodexBinding)
    → x.offset ≡ o
    → (codex_binding_matches (change x) b ≡ codex_binding_matches x b)
      × ((change x).enabled ≡ x.enabled)
      × ((change x).offset ≡ o')

pub some_ne_none : {A : Type 0} {e : A} → some e ≢ none
some_ne_none h = cc

module _ (w : Worker) (b : CodexBinding) (o o' : ℤ) (change : CodexBinding → CodexBinding)
    (keeps : Keeps b o o' change) where
  as_progress_error-Saved :
      (slot : Slot) (d : Stands w b o slot) (p : Slot × Option BindingError)
      → ((p.1 ≡ none)
          × (load_codex_binding w.codec none p.0 ≡ loaded (change d.current))
          × (is_invalid (change d.current) ≡ false))
        ⊎ ((p.1 ≢ none) × (p.0.file ≡ slot.file))
      → Saved w b o o' (as_progress_error p)
  as_progress_error-Saved slot d (s, none) (inl (ok, loads, valid)) =
      let (same, on, at) = keeps d.current d.offset in
      inl (
        refl,
        record {
          current = change d.current;
          loads = loads;
          matches = same ∙ d.matches;
          enabled = on ∙ d.enabled;
          offset = at;
        },
      )
  as_progress_error-Saved slot d (s, none) (inr (bad, same)) = absurd (bad refl)
  as_progress_error-Saved slot d (s, some e) (inl (ok, loads, valid)) = absurd (ground arith)
  as_progress_error-Saved slot d (s, some e) (inr (bad, same)) =
      inr ((λ h. some_ne_none h), Stands-file w b o slot s same d)

  update_loaded-Saved :
      (t : Moment) (slot : Slot)
      → Stands w b o slot
      → Saved w b o o' (update_loaded w t b change slot (load_codex_binding w.codec none slot))
  update_loaded-Saved t slot d =
      subst (λ l. Saved w b o o' (update_loaded w t b change slot l)) (sym d.loads)
        (if_intro (Saved w b o o')
          (not (codex_binding_matches d.current b) || not d.current.enabled) (slot, some changed)
          (as_progress_error (save_codex_binding w.codec t.faults (change d.current) slot))
          (λ e. absurd (ground (arith, d.matches, d.enabled)))
          (λ e.
            as_progress_error-Saved slot d
              (save_codex_binding w.codec t.faults (change d.current) slot)
              (save_codex_binding_load w.codec t.faults (change d.current) slot)))

  pub update_binding-Saved :
      (t : Moment) (slot : Slot)
      → Quiet t
      → Stands w b o slot
      → Saved w b o o' (update_binding w t b change slot)
  update_binding-Saved t slot q d =
      subst
        (λ s.
          Saved w b o o' (update_loaded w t b change s (load_codex_binding w.codec t.read_fault s)))
        (sym (q.0 slot))
        (subst
          (λ f.
            Saved w b o o' (update_loaded w t b change slot (load_codex_binding w.codec f slot)))
          (sym q.1) (update_loaded-Saved t slot d))

pub progressed-Keeps :
    (b : CodexBinding) (o : ℤ) (offset : ℤ) (acknowledged : Bool) (now : ℕ)
    → Keeps b o offset (progressed offset acknowledged now)
unfolding codex_binding_matches
progressed-Keeps b o offset true now x h = (refl, refl, refl)
progressed-Keeps b o offset false now x h = (refl, refl, refl)

pub blocked-Keeps :
    (w : Worker) (b : CodexBinding) (o : ℤ) (e : DeliveryError) (now : ℕ)
    → Keeps b o o (blocked w e now)
unfolding codex_binding_matches
blocked-Keeps w b o e now x h = (refl, refl, h)
