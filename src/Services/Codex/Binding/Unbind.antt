-- ===== src/Services/Codex/Binding/Unbind.antt =====
-- What is left behind an unbind.
use chatta.Prelude.{◌≡◌, refl, ap, ◌≢◌, ◌⊎◌, inl, inr, false, Option, none, some, arith}
use chatta.Text.Basic.{Text}
use chatta.Common.{CodexBinding}
use chatta.Dal.AtomicFile.{Slot}
use chatta.Dal.State.{Codec}
use chatta.Dal.Binding
use chatta.Dal.Binding.{
  BindingError, invalid_binding, malformed, not_exist, Loaded, loaded, refused, load_codex_binding,
  save_codex_binding, save_codex_binding_load, is_invalid,
}
use chatta.Services.Codex.Binding.{
  Response, refusal, ok, Handler, saved, disabled, unbind_loaded, unbind_codex, active_loaded,
  has_active_codex_binding,
}

-- The response is OK.
abbrev pub IsOk : Response → Type 0
IsOk (ok b) = Unit
IsOk (refusal r) = ⊥

load_codex_binding-missing :
    (codec : Codec CodexBinding) (fault : Option Text) (slot : Slot)
    → load_codex_binding codec fault slot ≡ refused not_exist
    → load_codex_binding codec none slot ≡ refused not_exist
unfolding load_codex_binding
load_codex_binding-missing codec none slot h = h
load_codex_binding-missing codec (some e) slot h = ground arith

saved-inactive :
    (h : Handler) (sid : Text) (slot : Slot) (b : CodexBinding) (p : Slot × Option BindingError)
    → ((p.1 ≡ none)
        × (load_codex_binding h.codec none p.0 ≡ loaded (disabled h b))
        × (is_invalid (disabled h b) ≡ false))
      ⊎ ((p.1 ≢ none) × (p.0.file ≡ slot.file))
    → IsOk (saved (disabled h b) p).1
    → active_loaded sid (load_codex_binding h.codec none (saved (disabled h b) p).0) ≡ false
saved-inactive h sid slot b (s, none) (inl (good, loads, valid)) done = ap (active_loaded sid) loads
saved-inactive h sid slot b (s, none) (inr (bad, same)) done = absurd (bad refl)
saved-inactive h sid slot b (s, some e) sum done = absurd done

unbind_loaded-inactive :
    (h : Handler) (sid : Text) (slot : Slot) (l : Loaded)
    → load_codex_binding h.codec h.read_fault slot ≡ l
    → IsOk (unbind_loaded h slot l).1
    → active_loaded sid (load_codex_binding h.codec none (unbind_loaded h slot l).0) ≡ false
unbind_loaded-inactive h sid slot (refused not_exist) same done =
    ap (active_loaded sid) (load_codex_binding-missing h.codec h.read_fault slot same)
unbind_loaded-inactive h sid slot (refused invalid_binding) same done = absurd done
unbind_loaded-inactive h sid slot (refused malformed) same done = absurd done
unbind_loaded-inactive h sid slot (refused (Binding.failed e)) same done = absurd done
unbind_loaded-inactive h sid slot (loaded b) same done =
    saved-inactive h sid slot b _ (save_codex_binding_load h.codec h.faults (disabled h b) slot)
      done

-- After an unbind that reports OK no session has an active binding, so that no session is kept alive
-- by one.
pub unbind_codex-inactive :
    (h : Handler) (sid : Text) (slot : Slot)
    → IsOk (unbind_codex h slot).1
    → has_active_codex_binding h.codec none (unbind_codex h slot).0 sid ≡ false
unfolding unbind_codex has_active_codex_binding
unbind_codex-inactive h sid slot done = unbind_loaded-inactive h sid slot _ refl done
