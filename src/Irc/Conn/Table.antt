-- ===== src/Irc/Conn/Table.antt =====
-- The map `pending` of pkg/dal/irc/conn.go, from keys to request numbers.
use chatta.Prelude.{if◌then◌else◌, ℕ, ◌≡◌, refl, Option, none, some, List, [], ◌∷◌, arith}
use chatta.Text.Basic.{Text, eq_text, eq_text_iff, eq_text_refl}

unfoldable pub lookup : Text → List (Text × ℕ) → Option ℕ
lookup k [] = none
lookup k ((j, r) ∷ m) = if eq_text j k then some r else lookup k m

unfoldable pub insert : Text → ℕ → List (Text × ℕ) → List (Text × ℕ)
insert k r [] = (k, r) ∷ []
insert k r ((j, q) ∷ m) = if eq_text j k then (k, r) ∷ m else (j, q) ∷ insert k r m

unfoldable pub delete : Text → List (Text × ℕ) → List (Text × ℕ)
delete k [] = []
delete k ((j, r) ∷ m) = let rest = delete k m in if eq_text j k then rest else (j, r) ∷ rest

-- What a lookup sees after an insertion, and after a deletion.
pub lookup-insert :
    (k j : Text) (r : ℕ) (m : List (Text × ℕ))
    → lookup j (insert k r m) ≡ (if eq_text k j then some r else lookup j m)
unfolding lookup insert
lookup-insert k j r [] = refl
lookup-insert k j r ((i, q) ∷ m) = ground (
  arith,
  eq_text_iff k j,
  eq_text_iff i k,
  eq_text_iff i j,
  eq_text_refl j,
  lookup-insert k j r m,
)

pub lookup-delete :
    (k j : Text) (m : List (Text × ℕ))
    → lookup j (delete k m) ≡ (if eq_text k j then none else lookup j m)
unfolding lookup delete
lookup-delete k j [] = ground arith
lookup-delete k j ((i, q) ∷ m) =
    ground (
      arith,
      eq_text_iff k j,
      eq_text_iff i k,
      eq_text_iff i j,
      eq_text_refl j,
      lookup-delete k j m,
    )
