-- ===== src/Config/Precedence.antt =====
-- Where the settings come from, and when they are refused.
pub mod Order
use chatta.Prelude.{
  if◌then◌else◌, set, ℕ, ◌≤◌, ◌<◌, ◌≡◌, refl, sym, ap, ◌∙◌, ◌↔◌, ◌⊎◌, inl, inr, Bool, true, false,
  Option, none, some, List, [], ◌∷◌, arith,
}
use chatta.Prelude.Int.{ℤ, pos, negsuc}
use chatta.Text.Basic.{Text, codes}
use chatta.Text.Number.{atoi}
use chatta.Services.Control.{Outcome, done, refused}
use chatta.Config.{
  ◌>>=◌, ChatConfig, Config, Options, Reading, was_read, not_found, unreadable, Viper, ConfigError,
  Environment, named_file, user_file, read_in_config, user_file_in, file_chat, overridden,
  port_checked, port_overridden, Variables, chat_variables, legacy_variables, with_variables,
  with_flags, deprecated_ii_environment_set, load,
}

-- The first value that is given, and what is taken when there is none.
abbrev pub first_of {ℓ} : {A : Type ℓ} → List (Option A) → A → A
first_of [] other = other
first_of (none ∷ values) other = first_of values other
first_of (some a ∷ values) other = a

abbrev pub flag {ℓ} : {A : Type ℓ} → Bool → A → Option A
flag set a = if set then some a else none

-- A variable that is empty gives nothing.
abbrev pub given : Option Text → Option Text
given none = none
given (some []) = none
given (some (c ∷ value)) = some (c ∷ value)

abbrev pub given_port : Option Text → Option ℤ
given_port none = none
given_port (some []) = none
given_port (some (c ∷ value)) = atoi (c ∷ value)

-- A variable that is empty, or the number of a port.
abbrev pub IsPortVariable : Option Text → Type 0
IsPortVariable none = Unit
IsPortVariable (some []) = Unit
IsPortVariable (some (c ∷ value)) =
    (n : ℕ) × (atoi (c ∷ value) ≡ some (pos n)) × (0 < n) × (n ≤ 65535)

-- The config file that is named can be read; without a name, the user's file is read or missing.
abbrev pub IsRead : Viper → Text → Type 0
IsRead v [] =
    (dir : Text) × (v.user_config_dir ≡ done dir)
    × ((v.read_dir dir ≡ was_read) ⊎ ((e : Text) × (v.read_dir dir ≡ not_found e)))
IsRead v (c ∷ file) = v.read_file (c ∷ file) ≡ was_read

abbrev pub merged : Variables → ChatConfig → ChatConfig
merged vars chat = record {
  home = overridden chat.home vars.home;
  host = overridden chat.host vars.host;
  port = first_of (given_port vars.port ∷ []) chat.port;
  channel = overridden chat.channel vars.channel;
}

user_file_iff :
    (r : Reading) → (user_file r ≡ inr tt) ↔ ((r ≡ was_read) ⊎ ((e : Text) × (r ≡ not_found e)))
user_file_iff was_read = (λ h. inl refl, λ h. refl)
user_file_iff (not_found e) = (λ h. inr (e, refl), λ h. refl)
user_file_iff (unreadable e) = ground arith

user_file_in_iff :
    (v : Viper) (d : Outcome Text)
    → (user_file_in v d ≡ inr tt) ↔ (
        (dir : Text) × (d ≡ done dir)
        × ((v.read_dir dir ≡ was_read) ⊎ ((e : Text) × (v.read_dir dir ≡ not_found e))))
user_file_in_iff v (done dir) = (
  λ h. (dir, refl, (user_file_iff (v.read_dir dir)).0 h),
  λ (d, e, h). let same : dir ≡ d = ground arith in (user_file_iff (v.read_dir dir)).1 (rw same h),
)
user_file_in_iff v (refused e) = ground arith

named_file_iff : (r : Reading) → (named_file r ≡ inr tt) ↔ (r ≡ was_read)
named_file_iff was_read = ground arith
named_file_iff (not_found e) = ground arith
named_file_iff (unreadable e) = ground arith

pub read_in_config_iff :
    (v : Viper) (file : Text) → (read_in_config v file ≡ inr tt) ↔ IsRead v file
read_in_config_iff v [] = user_file_in_iff v v.user_config_dir
read_in_config_iff v (c ∷ file) = named_file_iff (v.read_file (c ∷ file))

port_checked_iff :
    (prefix value : Text) (o : Option ℤ) (p : ℤ)
    → (port_checked prefix value o ≡ inr p)
      ↔ ((n : ℕ) × (o ≡ some (pos n)) × (0 < n) × (n ≤ 65535) × (p ≡ pos n))
port_checked_iff prefix value none p = ground arith
port_checked_iff prefix value (some (negsuc n)) p = ground arith
port_checked_iff prefix value (some (pos n)) p =
    (λ h. (n, refl, ground arith, ground arith, ground arith), λ (m, e, lo, hi, q). ground arith)

port_overridden_iff :
    (prefix : Text) (old : ℤ) (variable : Option Text) (p : ℤ)
    → (port_overridden prefix old variable ≡ inr p)
      ↔ (IsPortVariable variable × (p ≡ first_of (given_port variable ∷ []) old))
port_overridden_iff prefix old none p = ground arith
port_overridden_iff prefix old (some []) p = ground arith
port_overridden_iff prefix old (some (c ∷ value)) p = (
  λ h.
      let (n, e, lo, hi, q) = (port_checked_iff prefix (c ∷ value) (atoi (c ∷ value)) p).0 h in
      ((n, e, lo, hi), rw e q),
  λ ((n, e, lo, hi), q).
      (port_checked_iff prefix (c ∷ value) (atoi (c ∷ value)) p).1 (n, e, lo, hi, rw e at q),
)

pub bind_right :
    {A B : Type 0} (m : ConfigError ⊎ A) (f : A → ConfigError ⊎ B) {b : B}
    → (m >>= f) ≡ inr b
    → (a : A) × (m ≡ inr a) × (f a ≡ inr b)
bind_right (inl e) f h = ground arith
bind_right (inr a) f h = (a, refl, h)

pub right_is : {A : Type 0} {a b : A} → ◌≡◌ {A = ConfigError ⊎ A} (inr a) (inr b) → b ≡ a
right_is {A} {a} {b} h = sym (ap (λ s. elim s [ inl e ↦ a | inr x ↦ x ]) h)

pub with_variables_iff :
    (prefix : Text) (vars : Variables) (chat c : ChatConfig)
    → (with_variables prefix vars chat ≡ inr c)
      ↔ (IsPortVariable vars.port × (c ≡ merged vars chat))
unfolding with_variables
with_variables_iff prefix vars chat c = (
  λ h.
      let (p, e, q) = bind_right (port_overridden prefix chat.port vars.port) _ h in
      let (valid, r) = (port_overridden_iff prefix chat.port vars.port p).0 e in
      (valid, right_is q ∙ ap (λ port. record (merged vars chat) { port = port }) r),
  λ (valid, q).
      let e =
        (port_overridden_iff prefix chat.port vars.port (merged vars chat).port).1 (valid, refl) in
      rw (e, q) refl,
)

pub text_choice :
    (set : Bool) (flagged old : Text) (a b : Option Text)
    → (if set then flagged else overridden (overridden old b) a)
      ≡ first_of (flag set flagged ∷ given a ∷ given b ∷ []) old
text_choice true flagged old a b = refl
text_choice false flagged old none none = refl
text_choice false flagged old none (some []) = refl
text_choice false flagged old none (some (c ∷ s)) = refl
text_choice false flagged old (some []) none = refl
text_choice false flagged old (some []) (some []) = refl
text_choice false flagged old (some []) (some (c ∷ s)) = refl
text_choice false flagged old (some (c ∷ s)) b = refl

pub port_choice :
    (set : Bool) (flagged old : ℤ) (a b : Option ℤ)
    → (if set then flagged else first_of (a ∷ []) (first_of (b ∷ []) old))
      ≡ first_of (flag set flagged ∷ a ∷ b ∷ []) old
port_choice true flagged old a b = refl
port_choice false flagged old (some a) b = refl
port_choice false flagged old none none = refl
port_choice false flagged old none (some b) = refl
