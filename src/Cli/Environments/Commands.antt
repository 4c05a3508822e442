-- ===== src/Cli/Environments/Commands.antt =====
-- The commands of src/mob/cli/commands that write the configuration, one after another.
use mob.Prelude.{String, ◌≡◌, refl, Option, none, List, [], ◌∷◌}
use mob.Json.{Json, obj, end}
use mob.Cli.Environments.Active.{IsReady, env_show-IsReady}
use mob.Cli.Environments.Edits.{env_set-IsReady, env_edit-IsReady, env_delete-IsReady}
use mob.Cli.Environments.Init.{Answers, init}
use mob.Cli.Environments.Initial.{init-IsReady, init-first}
use mob.Cli.Environments.{
  Exit, saved, shown, refused, aborted, crashed, env_set, env_edit, env_delete, env_show,
}

-- The commands that write the configuration, with their arguments; `env delete` is confirmed.
pub data Command : Type 0 where
  init_command : Answers → (env : Option String) → Command
  set_command : (name : String) → Command
  edit_command : (name : String) (mode database_url api_base_url : Option String) → Command
  delete_command : (name : String) → Command

unfoldable pub run_command : (default_db : String) → Command → Json → Exit
unfolding init env_set env_edit env_delete
run_command default_db (init_command ask env) config = init default_db ask env config
run_command default_db (set_command name) config = env_set name config
run_command default_db (edit_command name mode database_url api_base_url) config =
    env_edit name mode database_url api_base_url config
run_command default_db (delete_command name) config = env_delete name config

-- The configuration that the file holds after a command
unfoldable pub written : Exit → Json → Json
written (saved c) config = c
written exit config = config

unfoldable pub run_commands : (default_db : String) → List Command → Json → Json
unfolding run_command written
run_commands default_db [] config = config
run_commands default_db (command ∷ commands) config =
    run_commands default_db commands (written (run_command default_db command config) config)

run_command-IsReady :
    (default_db : String) (command : Command) (config c : Json)
    → IsReady config
    → run_command default_db command config ≡ saved c
    → IsReady c
unfolding run_command
run_command-IsReady default_db (init_command ask env) config c =
    init-IsReady default_db ask env config c
run_command-IsReady default_db (set_command name) config c = env_set-IsReady name config c
run_command-IsReady default_db (edit_command name mode url api) config c =
    env_edit-IsReady name mode url api config c
run_command-IsReady default_db (delete_command name) config c = env_delete-IsReady name config c

written-IsReady :
    (exit : Exit) (config : Json)
    → IsReady config
    → ((c : Json) → exit ≡ saved c → IsReady c)
    → IsReady (written exit config)
unfolding written
written-IsReady (saved c) config ready h = h c refl
written-IsReady (shown v) config ready h = ready
written-IsReady refused config ready h = ready
written-IsReady aborted config ready h = ready
written-IsReady crashed config ready h = ready

run_commands-IsReady :
    (default_db : String) (commands : List Command) (config : Json)
    → IsReady config
    → IsReady (run_commands default_db commands config)
unfolding run_commands
run_commands-IsReady default_db [] config ready = ready
run_commands-IsReady default_db (command ∷ commands) config ready =
    run_commands-IsReady default_db commands _ (
      written-IsReady (run_command default_db command config) config ready
        (λ c. run_command-IsReady default_db command config c ready))

-- After a first mob init that saves, and any commands init, env set, env edit and env delete
-- after it, env show finds a configuration of the active environment.
pub active_configured :
    (default_db : String) (ask : Answers) (env : Option String) (commands : List Command)
    (config : Json)
    → init default_db ask env (obj end) ≡ saved config
    → (env_config : Json) × (env_show none (run_commands default_db commands config)
        ≡ shown env_config)
active_configured default_db ask env commands config e =
    env_show-IsReady (run_commands default_db commands config)
      (run_commands-IsReady default_db commands config (init-first default_db ask env config e))
