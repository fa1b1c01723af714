-- ===== src/Dal/Channel/Normal.antt =====
-- The form of a normalized channel name, and when normalizing again changes nothing.
use chatta.Prelude.{
  ltb, Bool-cases, and_iff, ltb_of_le, length, take, all, length-take, ℕ, zero, suc, ◌≤◌, ◌<◌, ◌≡◌,
  refl, ap, ap₂, ◌∙◌, subst, ◌≢◌, ◌↔◌, inl, inr, Bool, true, false, not, [], ◌∷◌, arith,
}
use chatta.Text.Basic.{Text, has_prefix, trim_prefix}
use chatta.Text.Space.{is_space}
use chatta.Text.Trim.{
  trim, trim_right, trim_space, all-trim, trim_starts, trim_of_start, starts_outside, ends_outside,
  trim_right_of_end, trim_right_ends, ends_outside_of_all, trim_right_head, length-trim_right,
}
use chatta.Text.Case.{Unicode, to_lower, to_lower_rune}
use chatta.Dal.Channel.{
  is_channel_char, is_dash, replace_from, replace_invalid, base_name, or_lobby, limit,
  normalize_channel,
}

-- A name behind its '#': 1 to 47 of `[a-z0-9-]`, the first no dash.
pub record IsName (n : Text) : Type 0 where
  pub chars : all is_channel_char n ≡ true
  pub start : starts_outside is_dash n ≡ true
  pub ne_nil : n ≢ []
  pub short : length n ≤ 47

dash_is_channel_char : is_channel_char b'-' ≡ true
unfolding is_channel_char
dash_is_channel_char = refl

all-replace_from : (inside : Bool) (s : Text) → all is_channel_char (replace_from inside s) ≡ true
unfolding replace_from
all-replace_from inside [] = refl
all-replace_from inside (c ∷ s) =
    ground (arith, all-replace_from (not (is_channel_char c)) s, dash_is_channel_char)

all-base_name : (u : Unicode) (name : Text) → all is_channel_char (base_name u name) ≡ true
unfolding base_name
all-base_name u name = all-trim is_dash is_channel_char _ (all-replace_from false _)

base_name_starts : (u : Unicode) (name : Text) → starts_outside is_dash (base_name u name) ≡ true
unfolding base_name
base_name_starts u name = trim_starts is_dash _

all-take : (p : ℕ → Bool) (n : ℕ) (s : Text) → all p s ≡ true → all p (take n s) ≡ true
all-take p zero s h = refl
all-take p (suc n) [] h = refl
all-take p (suc n) (c ∷ s) h = ground (arith, all-take p n s)

-- What the default and the limit make of a base name.
limit-IsName :
    (n : Text)
    → all is_channel_char n ≡ true
    → starts_outside is_dash n ≡ true
    → IsName (limit (or_lobby n))
limit-IsName [] h k =
    unfold is_channel_char in
    record { chars = refl; start = refl; ne_nil = λ e. cc; short = omega arith }
limit-IsName (c ∷ n) h k = elim (Bool-cases (ltb 47 (length (c ∷ n)))) [
  | inl long ↦ rw long (record {
    chars = all-take is_channel_char 47 (c ∷ n) h;
    start = k;
    ne_nil = λ e. cc;
    short = omega (arith, length-take 47 (c ∷ n));
  })
  | inr fits ↦ rw fits (record { chars = h; start = k; ne_nil = λ e. cc; short = ground arith })
]

-- A normalized channel name is '#' and 1 to 47 code points of `[a-z0-9-]`, the first of them no
-- dash, whatever the name was and whatever Unicode's case tables hold.
pub normalize_channel-IsName :
    (u : Unicode) (name : Text) → (n : Text) × (normalize_channel u name ≡ b'#' ∷ n) × IsName n
unfolding normalize_channel
normalize_channel-IsName u name = (
  limit (or_lobby (base_name u name)),
  refl,
  limit-IsName (base_name u name) (all-base_name u name) (base_name_starts u name),
)

-- Normalizing what is a name already.

channel_char_bounds : (c : ℕ) → is_channel_char c ≡ true → (33 ≤ c) × (c < 128)
unfolding is_channel_char
channel_char_bounds c h = ground arith

solid_ascii : (c : ℕ) → 33 ≤ c → c < 128 → is_space c ≡ false
unfolding is_space
solid_ascii c lo hi = ground arith

channel_char_solid : (c : ℕ) → is_channel_char c ≡ true → is_space c ≡ false
channel_char_solid c h = let (lo, hi) = channel_char_bounds c h in solid_ascii c lo hi

channel_char_lower : (u : Unicode) (c : ℕ) → is_channel_char c ≡ true → to_lower_rune u c ≡ c
unfolding to_lower_rune is_channel_char
channel_char_lower u c h = ground arith

to_lower_name : (u : Unicode) (n : Text) → all is_channel_char n ≡ true → to_lower u n ≡ n
unfolding to_lower
to_lower_name u [] h = refl
to_lower_name u (c ∷ n) h =
    let both = (and_iff (is_channel_char c) (all is_channel_char n)).0 h in
    ap₂ ◌∷◌ (channel_char_lower u c both.0) (to_lower_name u n both.1)

name-solid : (n : Text) → all is_channel_char n ≡ true → all (λ c. not (is_space c)) n ≡ true
name-solid [] h = refl
name-solid (c ∷ n) h =
    let both = (and_iff (is_channel_char c) (all is_channel_char n)).0 h in
    rw (channel_char_solid c both.0, name-solid n both.1)

replace_from_valid :
    (inside : Bool) (n : Text) → all is_channel_char n ≡ true → replace_from inside n ≡ n
unfolding replace_from
replace_from_valid inside [] h = refl
replace_from_valid inside (c ∷ n) h = ground (arith, replace_from_valid (not (is_channel_char c)) n)

hash_solid : is_space b'#' ≡ false
unfolding is_space
hash_solid = refl

trim_space_name : (n : Text) → all is_channel_char n ≡ true → trim_space (b'#' ∷ n) ≡ b'#' ∷ n
unfolding trim_space
trim_space_name n h =
    let dense : all (λ c. not (is_space c)) (b'#' ∷ n) ≡ true = rw (hash_solid, name-solid n h) in
    trim_of_start is_space (b'#' ∷ n) (rw hash_solid)
    ∙ trim_right_of_end is_space (b'#' ∷ n) (ends_outside_of_all is_space (b'#' ∷ n) dense)

-- `base_name` takes the '#' of a name off.
hash_prefix :
    (u : Unicode) (n : Text)
    → all is_channel_char n ≡ true
    → trim_prefix (to_lower u (b'#' ∷ n)) (b'#' ∷ []) ≡ n
unfolding to_lower to_lower_rune trim_prefix has_prefix
hash_prefix u n h = unfold to_lower in to_lower_name u n h

base_name_of_name :
    (u : Unicode) (n : Text) → IsName n → base_name u (b'#' ∷ n) ≡ trim_right is_dash n
unfolding base_name replace_invalid
base_name_of_name u n h =
    ap (λ t. trim is_dash (replace_from false (trim_prefix (to_lower u t) (b'#' ∷ []))))
      (trim_space_name n h.chars)
    ∙ ap (λ t. trim is_dash (replace_from false t)) (hash_prefix u n h.chars)
    ∙ ap (trim is_dash) (replace_from_valid false n h.chars)
    ∙ trim_of_start is_dash n h.start

limit_short : (n : Text) → length n ≤ 47 → limit n ≡ n
limit_short n h = rw (ltb_of_le 47 (length n) h)

-- A name keeps a code point in front of its closing dashes, and stays within the limit.
normal_of_trimmed :
    (n : Text) → IsName n → limit (or_lobby (trim_right is_dash n)) ≡ trim_right is_dash n
normal_of_trimmed [] h = absurd (h.ne_nil refl)
normal_of_trimmed (c ∷ n) h =
    let (t, e) = trim_right_head is_dash c n (ground (arith, h.start)) in
    rw e (
      limit_short (c ∷ t)
        (subst (λ r. length r ≤ 47) e (omega (arith, length-trim_right is_dash (c ∷ n), h.short))))

normalize_channel_of_name :
    (u : Unicode) (n : Text)
    → IsName n
    → normalize_channel u (b'#' ∷ n) ≡ b'#' ∷ trim_right is_dash n
unfolding normalize_channel
normalize_channel_of_name u n h =
    ap (λ t. b'#' ∷ limit (or_lobby t)) (base_name_of_name u n h)
    ∙ ap (◌∷◌ b'#') (normal_of_trimmed n h)

ends_outside_hash : (n : Text) → n ≢ [] → ends_outside is_dash (b'#' ∷ n) ≡ ends_outside is_dash n
ends_outside_hash [] h = absurd (h refl)
ends_outside_hash (c ∷ n) h = refl

fixed_iff :
    (u : Unicode) (n : Text)
    → IsName n
    → (normalize_channel u (b'#' ∷ n) ≡ b'#' ∷ n) ↔ (ends_outside is_dash (b'#' ∷ n) ≡ true)
fixed_iff u n h =
    rw (normalize_channel_of_name u n h, ends_outside_hash n h.ne_nil)
      (
        (λ e.
            subst (λ t. ends_outside is_dash t ≡ true) {x = trim_right is_dash n} {y = n} (cc e)
              (trim_right_ends is_dash n)),
        (λ k. ap (◌∷◌ b'#') (trim_right_of_end is_dash n k)),
      )

-- Normalizing a normalized name changes nothing exactly when the name does not end in a dash. (It
-- may end in one, where the limit of 47 bytes cuts behind a dash.)
pub normalize_channel_idem_iff :
    (u : Unicode) (name : Text)
    → (normalize_channel u (normalize_channel u name) ≡ normalize_channel u name)
      ↔ (ends_outside is_dash (normalize_channel u name) ≡ true)
normalize_channel_idem_iff u name =
    let (n, e, h) = normalize_channel-IsName u name in rw e (fixed_iff u n h)
