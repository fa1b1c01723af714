-- ===== src/Dal/AtomicFile.antt =====
-- How pkg/dal/state.go and pkg/dal/codex.go replace a file: write a temporary file beside it, and
-- rename. Every system call may fail; what the environment decides is in `Faults`.
use chatta.Prelude.{ℕ, ◌≡◌, ◌≢◌, ◌⊎◌, Option, none, some, List, arith}
use chatta.Text.Basic.{Text}

abbrev pub Bytes : Type 0
Bytes = List ℕ

-- A file's path and the temporary file beside it.
pub record Slot : Type 0 where
  pub file : Option Bytes
  pub temp : Option Bytes

-- The error of each call, `none` where it succeeds, and what a failing write has written.
pub record Faults : Type 0 where
  pub mkdir : Option Text
  pub create : Option Text
  pub write : Option Text
  pub written : Bytes
  pub chmod : Option Text
  pub close : Option Text
  pub rename : Option Text
  pub remove : Option Text

-- The first of two errors.
abbrev or_else : Option Text → Option Text → Option Text
or_else (some e) later = some e
or_else none later = later

-- `f.Write`, then `f.Chmod` if that went well, then `f.Close` in any case.
abbrev filled : Faults → Option Text
filled f = or_else (or_else f.write f.chmod) f.close

abbrev temp_content : Faults → Bytes → Bytes
temp_content f content = elim f.write [ none ↦ content | some _ ↦ f.written ]

-- The deferred `os.Remove(tmp)`, whose error is ignored.
abbrev cleaned : Faults → Slot → Slot
cleaned f slot = elim f.remove [ none ↦ record slot { temp = none } | some _ ↦ slot ]

-- `os.Rename`, if there was no error before.
abbrev renamed : Faults → Bytes → Slot → Option Text → Slot × Option Text
renamed f content slot (some e) = (record slot { temp = some (temp_content f content) }, some e)
renamed f content slot none = elim f.rename [
  | some e ↦ (record slot { temp = some (temp_content f content) }, some e)
  | none ↦ (record { file = some (temp_content f content); temp = none }, none)
]

-- From `os.CreateTemp` on.
abbrev created : Faults → Bytes → Slot → Slot × Option Text
created f content slot = let (after, e) = renamed f content slot (filled f) in (cleaned f after, e)

unfoldable pub replace_file : Faults → Bytes → Slot → Slot × Option Text
replace_file f content slot = elim f.mkdir [
  | some e ↦ (slot, some e)
  | none ↦ elim f.create [ some e ↦ (slot, some e) | none ↦ created f content slot ]
]

-- Either the call reports no error and the file holds exactly the new content, or it reports an
-- error and the file is what it was.
pub replace_file_atomic :
    (f : Faults) (content : Bytes) (slot : Slot)
    → (((replace_file f content slot).1 ≡ none)
        × ((replace_file f content slot).0.file ≡ some content))
      ⊎ (((replace_file f content slot).1 ≢ none)
          × ((replace_file f content slot).0.file ≡ slot.file))
unfolding replace_file
replace_file_atomic f content slot = ground arith
