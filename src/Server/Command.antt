-- ===== src/Server/Command.antt =====
-- `main` of server/main.go, `serviceCommand` of server/service_windows.go and server/service_other.go:
-- what a command line asks for. The package flag is an argument; its flag sets end the program with
-- code 2 on a flag that they do not know.
use stem_computing_desktop_p.Prelude.{
  ℕ, Bool, not, Option, none, some, List, [], ◌∷◌, if◌then◌else◌,
}
use stem_computing_desktop_p.Text.{Text, codes, text_eq, starts_with}

-- The parse of the flag sets: `-data` and `-listen` for run, `-data` and the arguments left for
-- reset-password, `-data` for service install. `none` ends the program.
pub record Flags : Type 0 where
  pub run : List Text → Option (Text × Text)
  pub reset : List Text → Option (Text × List Text)
  pub install : List Text → Option Text

pub data ServiceCommand : Type 0 where
  install : Text → ServiceCommand
  uninstall start stop print_status : ServiceCommand

-- What the program does: it runs a part with its arguments, or prints something and exits.
pub data Command : Type 0 where
  run_server : Text → Text → Command
  service : ServiceCommand → Command
  reset : Text → Text → Command
  print_version : Command
  print_usage : ℕ → Command
  -- an error on standard error
  fail : ℕ → Command

-- serviceCommand of server/service_other.go
abbrev pub service_elsewhere : List Text → Command
service_elsewhere args = fail 1

-- serviceCommand
unfoldable pub service_command : Flags → Bool → List Text → Command
service_command flags on_windows [] = if on_windows then fail 1 else service_elsewhere []
service_command flags on_windows (name ∷ args) =
    if not on_windows
    then service_elsewhere (name ∷ args)
    else if text_eq name (codes "install")
    then elim (flags.install args) [ none ↦ fail 2 | some dir ↦ service (install dir) ]
    else if text_eq name (codes "uninstall")
    then service uninstall
    else if text_eq name (codes "start")
    then service start
    else if text_eq name (codes "stop")
    then service stop
    else if text_eq name (codes "status")
    then service print_status
    else fail 1

-- `case "reset-password"`
abbrev pub reset_command : Option (Text × List Text) → Command
reset_command none = fail 2
reset_command (some (dir, name ∷ [])) = reset dir name
reset_command (some (dir, _)) = fail 2

-- the switch of `main`
unfoldable pub command_of : Flags → Bool → Text → List Text → Command
unfolding service_command
command_of flags on_windows name args =
    if text_eq name (codes "run")
    then elim (flags.run args) [ none ↦ fail 2 | some (dir, listen) ↦ run_server dir listen ]
    else if text_eq name (codes "service")
    then service_command flags on_windows args
    else if text_eq name (codes "reset-password")
    then reset_command (flags.reset args)
    else if text_eq name (codes "version")
    then print_version
    else print_usage (if text_eq name (codes "help") then 0 else 2)

-- main, from its arguments
unfoldable pub main : Flags → Bool → List Text → Command
unfolding command_of starts_with
main flags on_windows [] = command_of flags on_windows (codes "run") []
main flags on_windows (name ∷ args) =
    if starts_with (codes "-") name
    then command_of flags on_windows (codes "run") (name ∷ args)
    else command_of flags on_windows name args
