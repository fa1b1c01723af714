-- ===== src/Dal/Binding.antt =====
-- pkg/dal/codex.go: the Codex binding on disk.
use chatta.Prelude.{
  if◌then◌else◌, ◌≡◌, ◌≢◌, ◌⊎◌, Bool, false, ◌||◌, Option, none, some, [], ◌∷◌, ◌++◌, arith,
}
use chatta.Prelude.Int.{pos, ltb_ℤ}
use chatta.Text.Basic.{Text}
use chatta.Common.{CodexBinding}
use chatta.Dal.AtomicFile.{Slot, Faults, replace_file, replace_file_atomic}
use chatta.Dal.State.{Codec, is_empty}

-- `not_exist` is `os.ErrNotExist`, `failed` another error of the system.
pub data BindingError : Type 0 where
  invalid_binding malformed not_exist : BindingError
  failed : Text → BindingError

unfoldable pub is_invalid : CodexBinding → Bool
is_invalid b =
    is_empty b.binding_id
    || is_empty b.session_id
    || is_empty b.endpoint
    || is_empty b.thread_id
    || ltb_ℤ b.offset (pos 0)

pub data Loaded : Type 0 where
  loaded : CodexBinding → Loaded
  refused : BindingError → Loaded

abbrev decoded : Option CodexBinding → Loaded
decoded none = refused malformed
decoded (some b) = if is_invalid b then refused invalid_binding else loaded b

unfoldable pub load_codex_binding : Codec CodexBinding → Option Text → Slot → Loaded
load_codex_binding codec fault slot = elim slot.file [
  | none ↦ refused not_exist
  | some content ↦ elim fault [
    | some e ↦ refused (failed e)
    | none ↦ decoded (codec.decode content)
  ]
]

abbrev as_binding_error : Slot × Option Text → Slot × Option BindingError
as_binding_error (slot, none) = (slot, none)
as_binding_error (slot, some e) = (slot, some (failed e))

unfoldable pub save_codex_binding :
    Codec CodexBinding → Faults → CodexBinding → Slot → Slot × Option BindingError
save_codex_binding codec f b slot =
    if is_invalid b
    then (slot, some invalid_binding)
    else as_binding_error (replace_file f (codec.encode b ++ b'\n' ∷ []) slot)

-- Either a save reports no error, and a load then gives back the same binding, which has its four
-- names and no negative offset; or it reports an error, and the file is what it was. This holds
-- whichever system calls of the save fail.
pub save_codex_binding_load :
    (codec : Codec CodexBinding) (f : Faults) (b : CodexBinding) (slot : Slot)
    → let after = save_codex_binding codec f b slot in
      ((after.1 ≡ none)
        × (load_codex_binding codec none after.0 ≡ loaded b)
        × (is_invalid b ≡ false))
      ⊎ ((after.1 ≢ none) × (after.0.file ≡ slot.file))
unfolding save_codex_binding load_codex_binding
save_codex_binding_load codec f b slot =
    ground (arith, replace_file_atomic f (codec.encode b ++ b'\n' ∷ []) slot, codec.decode-encode b)
