-- ===== src/Text/Case.antt =====
-- `strings.ToUpper` and `strings.ToLower`. The mapping of ASCII is written out; that of the other
-- code points is Unicode's table, a parameter.
use chatta.Prelude.{ltb, if◌then◌else◌, within, ℕ, ◌+◌, ◌-◌, Bool, map}
use chatta.Text.Basic.{Text, eq_text}

-- Unicode's simple case mappings, asked for code points from 128 on.
pub record Unicode : Type 0 where
  pub upper : ℕ → ℕ
  pub lower : ℕ → ℕ

unfoldable pub to_upper_rune : Unicode → ℕ → ℕ
to_upper_rune u c = if ltb c 128 then if within b'a' b'z' c then c - 32 else c else u.upper c

unfoldable pub to_lower_rune : Unicode → ℕ → ℕ
to_lower_rune u c = if ltb c 128 then if within b'A' b'Z' c then c + 32 else c else u.lower c

unfoldable pub to_upper : Unicode → Text → Text
to_upper u = map (to_upper_rune u)

unfoldable pub to_lower : Unicode → Text → Text
to_lower u = map (to_lower_rune u)

-- `unicode.SimpleFold`: one letter for all that differ in case only, an ASCII one where there is one.
pub record Folding : Type 0 where
  pub fold : ℕ → ℕ

unfoldable pub fold_rune : Folding → ℕ → ℕ
fold_rune f c = if within 65 90 c then c + 32 else if ltb c 128 then c else f.fold c

-- `strings.EqualFold`
unfoldable pub equal_fold : Folding → Text → Text → Bool
equal_fold f s t = eq_text (map (fold_rune f) s) (map (fold_rune f) t)
