-- ===== src/Config.antt =====
-- pkg/config/config.go: `Load`. Viper and the places of the config file are in `Viper`; an
-- environment gives the value of a variable that is set.
pub mod Precedence
use chatta.Prelude.{
  if◌then◌else◌, ◌⊎◌, inl, inr, Bool, true, false, ◌||◌, Option, none, some, [], ◌∷◌, ◌++◌,
}
use chatta.Prelude.Int.{ℤ, pos, ltb_ℤ}
use chatta.Text.Basic.{Text, codes}
use chatta.Text.Number.{atoi}
use chatta.Services.Control.{Outcome, done, refused}

pub record ChatConfig : Type 0 where
  pub home : Text
  pub host : Text
  pub port : ℤ
  pub channel : Text

pub record Config : Type 0 where
  pub verbose : Bool
  pub chat : ChatConfig
  pub deprecated_ii_set : Bool

pub record Options : Type 0 where
  pub file : Text
  pub verbose : Bool
  pub verbose_set : Bool
  pub chat : ChatConfig
  pub chat_home_set : Bool
  pub chat_host_set : Bool
  pub chat_port_set : Bool
  pub chat_channel_set : Bool
  pub deprecated_ii_set : Bool

pub data Reading : Type 0 where
  was_read : Reading
  not_found unreadable : Text → Reading

-- Reading a config file, or looking for one in a directory; a key with the default that was set for
-- it, of what was read; whether a key is in the file; and a key that may come from a variable,
-- unless a value was set.
pub record Viper : Type 0 where
  pub user_config_dir : Outcome Text
  pub read_file : Text → Reading
  pub read_dir : Text → Reading
  pub get_string : Text → Text → Text
  pub get_int : Text → ℤ → ℤ
  pub in_config : Text → Bool
  pub get_bool : Text → Bool → Option Bool → Bool

pub data ConfigError : Type 0 where
  no_config_dir read_failed : Text → ConfigError
  invalid_port : Text → Text → ConfigError

infixl 5 ◌>>=◌ ◌>>◌
abbrev pub ◌>>=◌ : {A B : Type 0} → ConfigError ⊎ A → (A → ConfigError ⊎ B) → ConfigError ⊎ B
inl e >>= next = inl e
inr a >>= next = next a

abbrev pub ◌>>◌ : {B : Type 0} → ConfigError ⊎ Unit {0} → ConfigError ⊎ B → ConfigError ⊎ B
checked >> next = checked >>= λ _. next

abbrev pub Environment : Type 0
Environment = Text → Option Text

-- The file that the caller names has to be there; the user's file may be missing.
abbrev pub named_file : Reading → ConfigError ⊎ Unit {0}
named_file was_read = inr tt
named_file (not_found e) = inl (read_failed e)
named_file (unreadable e) = inl (read_failed e)

abbrev pub user_file : Reading → ConfigError ⊎ Unit {0}
user_file was_read = inr tt
user_file (not_found e) = inr tt
user_file (unreadable e) = inl (read_failed e)

abbrev pub user_file_in : Viper → Outcome Text → ConfigError ⊎ Unit {0}
user_file_in v (refused e) = inl (no_config_dir e)
user_file_in v (done dir) = user_file (v.read_dir dir)

abbrev pub read_in_config : Viper → Text → ConfigError ⊎ Unit {0}
read_in_config v [] = user_file_in v v.user_config_dir
read_in_config v (c ∷ file) = named_file (v.read_file (c ∷ file))

abbrev pub file_chat : Viper → ChatConfig
file_chat v = record {
  home = v.get_string (codes "chat.home") [];
  host = v.get_string (codes "chat.host") (codes "127.0.0.1");
  port = v.get_int (codes "chat.port") (pos 6667);
  channel = v.get_string (codes "chat.channel") (codes "#agents");
}

-- `ok && value != ""`
abbrev pub overridden : Text → Option Text → Text
overridden old none = old
overridden old (some []) = old
overridden old (some (c ∷ value)) = c ∷ value

abbrev pub port_checked : Text → Text → Option ℤ → ConfigError ⊎ ℤ
port_checked prefix value none = inl (invalid_port prefix value)
port_checked prefix value (some p) =
    if ltb_ℤ p (pos 1) || ltb_ℤ (pos 65535) p then inl (invalid_port prefix value) else inr p

abbrev pub port_overridden : Text → ℤ → Option Text → ConfigError ⊎ ℤ
port_overridden prefix old none = inr old
port_overridden prefix old (some []) = inr old
port_overridden prefix old (some (c ∷ value)) = port_checked prefix (c ∷ value) (atoi (c ∷ value))

-- The variables of one family, where they count.
pub record Variables : Type 0 where
  pub home : Option Text
  pub host : Option Text
  pub port : Option Text
  pub channel : Option Text

abbrev pub chat_variables : Environment → Text → Variables
chat_variables env prefix = record {
  home = env (prefix ++ codes "HOME");
  host = env (prefix ++ codes "HOST");
  port = env (prefix ++ codes "PORT");
  channel = env (prefix ++ codes "CHANNEL");
}

-- A key that is in the config file hides the old variable.
abbrev pub unless_in_config : Bool → Option Text → Option Text
unless_in_config true value = none
unless_in_config false value = value

abbrev pub legacy_variables : Environment → Viper → Variables
legacy_variables env v = record {
  home = unless_in_config (v.in_config (codes "chat.home")) (env (codes "AGENT_CHAT_HOME"));
  host = unless_in_config (v.in_config (codes "chat.host")) (env (codes "AGENT_CHAT_HOST"));
  port = unless_in_config (v.in_config (codes "chat.port")) (env (codes "AGENT_CHAT_PORT"));
  channel =
      unless_in_config (v.in_config (codes "chat.channel")) (env (codes "AGENT_CHAT_CHANNEL"));
}

unfoldable pub with_variables : Text → Variables → ChatConfig → ConfigError ⊎ ChatConfig
with_variables prefix vars chat = do
  port ← port_overridden prefix chat.port vars.port
  inr (record {
    home = overridden chat.home vars.home;
    host = overridden chat.host vars.host;
    port = port;
    channel = overridden chat.channel vars.channel;
  })

abbrev pub apply_chat_environment : Environment → Text → ChatConfig → ConfigError ⊎ ChatConfig
apply_chat_environment env prefix chat = with_variables prefix (chat_variables env prefix) chat

abbrev pub apply_legacy_chat_environment :
    Environment → Viper → ChatConfig → ConfigError ⊎ ChatConfig
apply_legacy_chat_environment env v chat =
    with_variables (codes "AGENT_CHAT_") (legacy_variables env v) chat

unfoldable pub with_flags : Options → ChatConfig → ChatConfig
with_flags o chat = record {
  home = if o.chat_home_set then o.chat.home else chat.home;
  host = if o.chat_host_set then o.chat.host else chat.host;
  port = if o.chat_port_set then o.chat.port else chat.port;
  channel = if o.chat_channel_set then o.chat.channel else chat.channel;
}

abbrev pub is_set : Option Text → Bool
is_set none = false
is_set (some value) = true

abbrev pub deprecated_ii_environment_set : Environment → Bool
deprecated_ii_environment_set env =
    is_set (env (codes "CHATTA_CHAT_II")) || is_set (env (codes "AGENT_CHAT_II"))

abbrev pub set_value : Bool → Bool → Option Bool
set_value set value = if set then some value else none

abbrev pub config_of : Environment → Viper → Options → ChatConfig → Config
config_of env v o chat = record {
  verbose = v.get_bool (codes "verbose") false (set_value o.verbose_set o.verbose);
  chat = with_flags o chat;
  deprecated_ii_set = o.deprecated_ii_set || deprecated_ii_environment_set env;
}

-- `Load`
unfoldable pub load : Environment → Viper → Options → ConfigError ⊎ Config
load env v o = do
  read_in_config v o.file
  legacy ← apply_legacy_chat_environment env v (file_chat v)
  chat ← apply_chat_environment env (codes "CHATTA_CHAT_") legacy
  inr (config_of env v o chat)
