-- ===== src/Services/Codex/Binding/Effect.antt =====
-- What a bind and an unbind leave in the binding file.
use chatta.Prelude.{
  if◌then◌else◌, if_intro, ◌≡◌, refl, ◌≢◌, ◌⊎◌, inl, inr, Bool, true, false, not, ◌||◌, Option,
  none, some, List, [], ◌∷◌, arith,
}
use chatta.Prelude.Int.{ℤ}
use chatta.Text.Basic.{Text, codes, eq_text_iff, has_prefix}
use chatta.Common.{CodexBinding}
use chatta.Dal.AtomicFile.{Slot}
use chatta.Dal.State.{Codec, is_empty}
use chatta.Dal.Binding
use chatta.Dal.Binding.{
  BindingError, invalid_binding, malformed, not_exist, Loaded, loaded, refused, load_codex_binding,
  save_codex_binding, save_codex_binding_load, is_invalid,
}
use chatta.Services.Codex.{normalize_subscribed_channels}
use chatta.Services.Codex.Client.{DeliveryError}
use chatta.Services.Codex.Binding.{
  Difference, Response, refusal, ok, BindRequest, Handler, differs, differences, start_offset,
  fresh_binding, probed, saved, save_probed, with_id, with_offset, bind_new, probe_previous,
  same_route, reuse_loaded, with_channels, bind_codex_with_reuse, bad_endpoint, bad_reuse,
  current_unavailable, session, endpoint, thread,
}

-- The binding routes to what the request asks for, and is on.
abbrev pub Routes : Handler → BindRequest → CodexBinding → Type 0
Routes h q b =
    (b.enabled ≡ true)
    × (b.session_id ≡ h.session_id)
    × (b.endpoint ≡ q.endpoint)
    × (b.thread_id ≡ q.thread_id)

-- A refusal leaves the file; an OK has a binding for the request, and the file holds exactly it.
abbrev pub BindEffect : Handler → BindRequest → Slot → Slot × Response → Type 0
BindEffect h q slot (after, refusal r) = after.file ≡ slot.file
BindEffect h q slot (after, ok none) = ⊥
BindEffect h q slot (after, ok (some b)) =
    (load_codex_binding h.codec none after ≡ loaded b) × Routes h q b

saved-BindEffect :
    (h : Handler) (q : BindRequest) (slot : Slot) (b : CodexBinding)
    (p : Slot × Option BindingError)
    → Routes h q b
    → ((p.1 ≡ none) × (load_codex_binding h.codec none p.0 ≡ loaded b) × (is_invalid b ≡ false))
      ⊎ ((p.1 ≢ none) × (p.0.file ≡ slot.file))
    → BindEffect h q slot (saved b p)
saved-BindEffect h q slot b (s, none) r (inl (good, loads, valid)) = (loads, r)
saved-BindEffect h q slot b (s, none) r (inr (bad, same)) = absurd (bad refl)
saved-BindEffect h q slot b (s, some e) r (inl (good, loads, valid)) = absurd (ground arith)
saved-BindEffect h q slot b (s, some e) r (inr (bad, same)) = same

save_probed-BindEffect :
    (h : Handler) (q : BindRequest) (b : CodexBinding) (slot : Slot) (probe : Option DeliveryError)
    → Routes h q b
    → BindEffect h q slot (save_probed h q b slot probe)
save_probed-BindEffect h q b slot none r =
    saved-BindEffect h q slot b _ r (save_codex_binding_load h.codec h.faults b slot)
save_probed-BindEffect h q b slot (some e) r =
    let c = probed h (some e) b in
    if_intro (BindEffect h q slot) q.require_available (slot, refusal (current_unavailable e))
      (saved c (save_codex_binding h.codec h.faults c slot)) (λ e. refl)
      (λ e. saved-BindEffect h q slot c _ r (save_codex_binding_load h.codec h.faults c slot))

with_offset-BindEffect :
    (h : Handler) (q : BindRequest) (channels : List Text) (slot : Slot) (o : Text × Option ℤ)
    → BindEffect h q slot (with_offset h q channels slot o)
with_offset-BindEffect h q channels slot (e, none) = refl
with_offset-BindEffect h q channels slot (e, some offset) = of_id h.id_fault
  where
    of_id : (o : Option Text) → BindEffect h q slot (with_id h q channels slot offset o)
    of_id (some e) = refl
    of_id none =
        save_probed-BindEffect h q (fresh_binding h q channels offset) slot h.probe
          (refl, refl, refl, refl)

-- No difference is listed where there is none.
differs-nil :
    (same : Bool) (d : Difference) (ds : List Difference)
    → differs same d ds ≡ []
    → (same ≡ true) × (ds ≡ [])
differs-nil true d ds h = (refl, h)
differs-nil false d ds h = absurd (ground arith)

differences-Routes :
    (h : Handler) (previous : CodexBinding) (q : BindRequest) (channels : List Text)
    → previous.enabled ≡ true
    → differences h previous q channels ≡ []
    → Routes h q previous
unfolding differences
differences-Routes h previous q channels on none_listed =
    let (same_session, more) = differs-nil _ session _ none_listed in
    let (same_endpoint, others) = differs-nil _ endpoint _ more in
    let (same_thread, _) = differs-nil _ thread _ others in
    (
      on,
      (eq_text_iff previous.session_id h.session_id).0 same_session,
      (eq_text_iff previous.endpoint q.endpoint).0 same_endpoint,
      (eq_text_iff previous.thread_id q.thread_id).0 same_thread,
    )

-- What loads at all loads where reading does not fail.
load_codex_binding-loaded :
    (codec : Codec CodexBinding) (fault : Option Text) (slot : Slot) (b : CodexBinding)
    → load_codex_binding codec fault slot ≡ loaded b
    → load_codex_binding codec none slot ≡ loaded b
unfolding load_codex_binding
load_codex_binding-loaded codec none slot b h = h
load_codex_binding-loaded codec (some e) slot b h = absurd (ground arith)

same_route-BindEffect :
    (h : Handler) (q : BindRequest) (previous : CodexBinding) (slot : Slot) (ds : List Difference)
    → load_codex_binding h.codec none slot ≡ loaded previous
    → (ds ≡ [] → Routes h q previous)
    → BindEffect h q slot (same_route h previous slot ds)
same_route-BindEffect h q previous slot (d ∷ ds) loads r = refl
same_route-BindEffect h q previous slot [] loads r = of_probe h.probe
  where
    of_probe : (o : Option DeliveryError) → BindEffect h q slot (probe_previous previous slot o)
    of_probe none = (loads, r refl)
    of_probe (some e) = refl

reuse_loaded-BindEffect :
    (h : Handler) (q : BindRequest) (channels : List Text) (slot : Slot) (l : Loaded)
    → load_codex_binding h.codec h.read_fault slot ≡ l
    → BindEffect h q slot (reuse_loaded h q channels slot l)
reuse_loaded-BindEffect h q channels slot (refused not_exist) same =
    with_offset-BindEffect h q channels slot (start_offset h q.replay h.stat_fault)
reuse_loaded-BindEffect h q channels slot (refused invalid_binding) same = refl
reuse_loaded-BindEffect h q channels slot (refused malformed) same = refl
reuse_loaded-BindEffect h q channels slot (refused (Binding.failed e)) same = refl
reuse_loaded-BindEffect h q channels slot (loaded previous) same =
    if_intro (BindEffect h q slot) previous.enabled
      (same_route h previous slot (differences h previous q channels)) (bind_new h q channels slot)
      (λ on.
        same_route-BindEffect h q previous slot (differences h previous q channels)
          (load_codex_binding-loaded h.codec h.read_fault slot previous same)
          (differences-Routes h previous q channels on))
      (λ off. with_offset-BindEffect h q channels slot (start_offset h q.replay h.stat_fault))

with_channels-BindEffect :
    (h : Handler) (q : BindRequest) (slot : Slot) (o : Option (List Text))
    → BindEffect h q slot (with_channels h q slot o)
with_channels-BindEffect h q slot none = refl
with_channels-BindEffect h q slot (some channels) =
    if_intro (BindEffect h q slot) q.reuse
      (if not q.require_available || q.replay
        then (slot, refusal bad_reuse)
        else reuse_loaded h q channels slot (load_codex_binding h.codec h.read_fault slot))
      (bind_new h q channels slot)
      (λ e.
        if_intro (BindEffect h q slot) (not q.require_available || q.replay)
          (slot, refusal bad_reuse)
          (reuse_loaded h q channels slot (load_codex_binding h.codec h.read_fault slot))
          (λ e. refl) (λ e. reuse_loaded-BindEffect h q channels slot _ refl))
      (λ e. with_offset-BindEffect h q channels slot (start_offset h q.replay h.stat_fault))

-- A bind that is refused leaves the binding file as it was, whatever the reason: a bad request, a
-- conflict, an unavailable thread or a failing system call. A bind that is accepted, new or reused,
-- returns the binding that the file then holds, enabled, for the supervisor's session and the
-- requested endpoint and thread.
pub bind_codex_with_reuse-BindEffect :
    (h : Handler) (q : BindRequest) (slot : Slot)
    → BindEffect h q slot (bind_codex_with_reuse h q slot)
unfolding bind_codex_with_reuse
bind_codex_with_reuse-BindEffect h q slot =
    if_intro (BindEffect h q slot)
      (not (has_prefix q.endpoint (codes "unix:///")) || is_empty q.thread_id)
      (slot, refusal bad_endpoint)
      (with_channels h q slot (normalize_subscribed_channels h.unicode q.channels)) (λ e. refl)
      (λ e. with_channels-BindEffect h q slot (normalize_subscribed_channels h.unicode q.channels))
