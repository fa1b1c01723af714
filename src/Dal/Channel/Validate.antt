-- ===== src/Dal/Channel/Validate.antt =====
-- What `ValidateChannels` and `CanPart` accept.
use chatta.Prelude.{
  All, All-imp, ◌≡◌, refl, sym, ◌≢◌, ◌↔◌, ◌⊎◌, inl, inr, Bool, true, false, ◌||◌, none, some, List,
  [], ◌∷◌, map, arith,
}
use chatta.Text.Basic.{Text, eq_text, eq_text_iff, eq_text_ne}
use chatta.Text.Trim.{ends_outside}
use chatta.Text.Case.{Unicode}
use chatta.Common.{ChannelMembership}
use chatta.Dal.Channel.{
  cannot_part_home_channel, member, normalize_channel, validate_from, validate_channels, can_part,
  is_dash,
}
use chatta.Dal.Channel.Normal.{normalize_channel_idem_iff}

-- No name stands twice.
abbrev pub Distinct : List Text → Type 0
Distinct [] = Unit
Distinct (n ∷ ns) = All (λ m. n ≢ m) ns × Distinct ns

abbrev pub names : Unicode → List ChannelMembership → List Text
names u = map (λ c. normalize_channel u c.name)

or_false : (a b : Bool) → (a || b) ≡ false → (a ≡ false) × (b ≡ false)
or_false a b h = ground arith

apart_of_false : (n m : Text) → eq_text n m ≡ false → n ≢ m
apart_of_false n m h e = ground (arith, h, (eq_text_iff n m).1 e)

pub member-false_iff :
    (n : Text) (seen : List Text) → (member n seen ≡ false) ↔ All (λ m. n ≢ m) seen
member-false_iff n [] = (λ _. tt, λ _. refl)
member-false_iff n (m ∷ seen) =
    let ih = member-false_iff n seen in
    (
      λ h. (
        apart_of_false n m (or_false (eq_text n m) (member n seen) h).0,
        ih.0 (or_false (eq_text n m) (member n seen) h).1,
      ),
      λ h. rw (eq_text_ne n m h.0, ih.1 h.1),
    )

-- The names that the loop has not met are apart from those it has, and from each other.
abbrev Apart : List Text → List Text → Type 0
Apart seen ns = All (λ n. All (λ m. n ≢ m) seen) ns × Distinct ns

All-both :
    (seen : List Text) (n : Text) (ns : List Text)
    → All (λ m. n ≢ m) ns
    → All (λ m. All (λ s. m ≢ s) seen) ns
    → All (λ m. All (λ s. m ≢ s) (n ∷ seen)) ns
All-both seen n [] h k = tt
All-both seen n (m ∷ ns) h k = ((λ e. h.0 (sym e), k.0), All-both seen n ns h.1 k.1)

Apart-cons :
    (seen : List Text) (n : Text) (ns : List Text)
    → (All (λ m. n ≢ m) seen × Apart (n ∷ seen) ns) ↔ Apart seen (n ∷ ns)
Apart-cons seen n ns = (
  λ h. ((h.0, All-imp (λ m k. k.1) ns h.1.0), (All-imp (λ m k e. k.0 (sym e)) ns h.1.0, h.1.1)),
  λ h. (h.0.0, (All-both seen n ns h.1.0 h.0.1, h.1.1)),
)

module _ (u : Unicode) (expected : Text) where
  abbrev Heads : Bool → List ChannelMembership → Type 0
  Heads true (c ∷ cs) = normalize_channel u c.name ≡ expected
  Heads _ _ = Unit

  not_first : (cs : List ChannelMembership) → Heads false cs
  not_first [] = tt
  not_first (c ∷ cs) = tt

  no_head : (first : Bool) → Heads first []
  no_head true = tt
  no_head false = tt

  validate_from_step :
      (first : Bool) (seen : List Text) (c : ChannelMembership) (cs : List ChannelMembership)
      → (validate_from u expected first seen (c ∷ cs) ≡ none) ↔ (
          (member (normalize_channel u c.name) seen ≡ false)
          × Heads first (c ∷ cs)
          × (validate_from u expected false (normalize_channel u c.name ∷ seen) cs ≡ none))
  unfolding validate_from
  validate_from_step true seen c cs = (
    λ h. ground (arith, eq_text_iff (normalize_channel u c.name) expected),
    λ h. ground (arith, eq_text_iff (normalize_channel u c.name) expected),
  )
  validate_from_step false seen c cs = (λ h. ground arith, λ h. ground arith)

  validate_from_iff :
      (first : Bool) (seen : List Text) (cs : List ChannelMembership)
      → (validate_from u expected first seen cs ≡ none) ↔ (Heads first cs × Apart seen (names u cs))
  validate_from_iff first seen [] =
      (λ _. (no_head first, (tt, tt)), λ _. unfold validate_from in refl)
  validate_from_iff first seen (c ∷ cs) =
      let step = validate_from_step first seen c cs in
      let ih = validate_from_iff false (normalize_channel u c.name ∷ seen) cs in
      let apart = Apart-cons seen (normalize_channel u c.name) (names u cs) in
      let own = member-false_iff (normalize_channel u c.name) seen in
      (
        λ h. let (fresh, heads, rest) = step.0 h in (heads, apart.0 (own.0 fresh, (ih.0 rest).1)),
        λ h. let k = apart.1 h.1 in step.1 (own.1 k.0, h.0, ih.1 (not_first cs, k.1)),
      )

-- The list starts with the home channel.
abbrev pub StartsWith : Text → List Text → Type 0
StartsWith home [] = ⊥
StartsWith home (n ∷ ns) = n ≡ home

All-nil : (ns : List Text) → All (λ n. All (λ m. n ≢ m) []) ns
All-nil [] = tt
All-nil (n ∷ ns) = (tt, All-nil ns)

-- `ValidateChannels` accepts exactly the empty list and the lists whose first normalized name is
-- the normalized home, with no two names the same after normalizing.
pub validate_channels_iff :
    (u : Unicode) (cs : List ChannelMembership) (home : Text)
    → (validate_channels u cs home ≡ none)
      ↔ ((cs ≡ []) ⊎ (StartsWith (normalize_channel u home) (names u cs) × Distinct (names u cs)))
unfolding validate_channels
validate_channels_iff u [] home = (λ _. inl refl, λ _. refl)
validate_channels_iff u (c ∷ cs) home =
    let step = validate_from_iff u (normalize_channel u home) true [] (c ∷ cs) in
    (λ h. inr ((step.0 h).0, (step.0 h).1.1), back)
  where
    back :
        (((c ∷ cs) ≡ [])
          ⊎ (StartsWith (normalize_channel u home) (names u (c ∷ cs))
              × Distinct (names u (c ∷ cs))))
        → validate_from u (normalize_channel u home) true [] (c ∷ cs) ≡ none
    back (inl e) = absurd (cc e)
    back (inr (head, distinct)) =
        (validate_from_iff u (normalize_channel u home) true [] (c ∷ cs)).1
          (head, (All-nil (names u (c ∷ cs)), distinct))

-- The guard of `CanPart` protects a home channel that is stored in its normal form, as a session
-- stores it, exactly when that form does not end in a dash.
pub can_part_home_iff :
    (u : Unicode) (name : Text)
    → (can_part u name (normalize_channel u name) ≡ some cannot_part_home_channel)
      ↔ (ends_outside is_dash (normalize_channel u name) ≡ true)
unfolding can_part
can_part_home_iff u name =
    let fixed = normalize_channel_idem_iff u name in
    let same =
      eq_text_iff (normalize_channel u name) (normalize_channel u (normalize_channel u name)) in
    (λ h. fixed.0 (sym (same.0 (ground arith))), λ k. rw (same.1 (sym (fixed.1 k))))
