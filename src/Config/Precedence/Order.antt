-- ===== src/Config/Precedence/Order.antt =====
-- The order of the sources of each setting.
use chatta.Prelude.{◌≡◌, refl, sym, ap, ◌∙◌, ◌↔◌, inr, false, ◌||◌, [], ◌∷◌}
use chatta.Text.Basic.{codes}
use chatta.Config.{
  ChatConfig, Config, Options, Viper, Environment, read_in_config, file_chat, chat_variables,
  legacy_variables, with_variables, with_flags, deprecated_ii_environment_set, load,
}
use chatta.Config.Precedence.{
  first_of, flag, given, given_port, IsPortVariable, IsRead, merged, read_in_config_iff, bind_right,
  right_is, with_variables_iff, text_choice, port_choice,
}

-- What the settings should be: a flag, a variable, a variable of the old family where the file has
-- no such key, the file, and the default, in this order.
abbrev pub chosen_chat : Environment → Viper → Options → ChatConfig
chosen_chat env v o =
    let new = chat_variables env (codes "CHATTA_CHAT_") in
    let old = legacy_variables env v in
    let file = file_chat v in
    record {
      home =
          first_of (flag o.chat_home_set o.chat.home ∷ given new.home ∷ given old.home ∷ [])
            file.home;
      host =
          first_of (flag o.chat_host_set o.chat.host ∷ given new.host ∷ given old.host ∷ [])
            file.host;
      port =
          first_of
            (flag o.chat_port_set o.chat.port ∷ given_port new.port ∷ given_port old.port ∷ [])
            file.port;
      channel =
          first_of
            (flag o.chat_channel_set o.chat.channel ∷ given new.channel ∷ given old.channel ∷ [])
            file.channel;
    }

merged-chosen_chat :
    (env : Environment) (v : Viper) (o : Options)
    → with_flags o (
        merged
          (chat_variables env (codes "CHATTA_CHAT_"))
          (merged (legacy_variables env v) (file_chat v)))
      ≡ chosen_chat env v o
unfolding with_flags
merged-chosen_chat env v o =
    let new = chat_variables env (codes "CHATTA_CHAT_") in
    let old = legacy_variables env v in
    let file = file_chat v in
    rw
      (
        text_choice o.chat_home_set o.chat.home file.home new.home old.home,
        text_choice o.chat_host_set o.chat.host file.host new.host old.host,
        port_choice o.chat_port_set o.chat.port file.port (given_port new.port)
            (given_port old.port),
        text_choice o.chat_channel_set o.chat.channel file.channel new.channel old.channel,
      )
      refl

-- `Load` gives settings exactly when the config file that is named can be read, or the user's file
-- is read or missing, and each variable for the port that counts is empty or a number from 1 to
-- 65535, also where another source overrides it. Then each setting is that of its flag, else of its
-- variable, else of its old variable if the file has no such key, else of the file or the default.
pub load_iff :
    (env : Environment) (v : Viper) (o : Options) (c : Config)
    → (load env v o ≡ inr c) ↔ (
        IsRead v o.file
        × IsPortVariable (legacy_variables env v).port
        × IsPortVariable (chat_variables env (codes "CHATTA_CHAT_")).port
        × (c.chat ≡ chosen_chat env v o)
        × (c.verbose ≡ v.get_bool (codes "verbose") false (flag o.verbose_set o.verbose))
        × (c.deprecated_ii_set ≡ (o.deprecated_ii_set || deprecated_ii_environment_set env)))
unfolding load
load_iff env v o c =
    let new = chat_variables env (codes "CHATTA_CHAT_") in
    let old = legacy_variables env v in
    let file = file_chat v in
    (
      λ h.
          let (done_reading, e0, h1) = bind_right (read_in_config v o.file) _ h in
          let (legacy, e1, h2) = bind_right (with_variables (codes "AGENT_CHAT_") old file) _ h1 in
          let (chat, e2, h3) = bind_right (with_variables (codes "CHATTA_CHAT_") new legacy) _ h2 in
          let (old_valid, q1) = (with_variables_iff (codes "AGENT_CHAT_") old file legacy).0 e1 in
          let (new_valid, q2) = (with_variables_iff (codes "CHATTA_CHAT_") new legacy chat).0 e2 in
          let q3 = right_is h3 in
          (
            (read_in_config_iff v o.file).0 e0,
            old_valid,
            new_valid,
            ap (λ d. d.chat) q3 ∙ (ap (with_flags o) (rw q1 at q2) ∙ merged-chosen_chat env v o),
            ap (λ d. d.verbose) q3,
            ap (λ d. d.deprecated_ii_set) q3,
          ),
      λ (readable, old_valid, new_valid, q_chat, q_verbose, q_ii).
          let e0 = (read_in_config_iff v o.file).1 readable in
          let e1 = (with_variables_iff (codes "AGENT_CHAT_") old file _).1 (old_valid, refl) in
          let e2 =
            (with_variables_iff (codes "CHATTA_CHAT_") new (merged old file) _).1
              (new_valid, refl) in
          rw (e0, e1, e2, merged-chosen_chat env v o, sym q_chat, sym q_verbose, sym q_ii) refl,
    )
