-- ===== src/Files/Watch.antt =====
-- crates/microwaf/src/config.rs: `watch_loop`. What the loop waits for is given as the sequence of
-- its rounds: what `recv_timeout` returned, whether the SIGHUP flag was set, and the disk as the
-- round finds it, which others write between two rounds.
use microwaf.Prelude.{Bool, true, false, List, [], ◌∷◌, Option, some, none}
use microwaf.Prelude.Text.{Text}
use microwaf.Prelude.Result.{Result}
use microwaf.Config.{DaemonConfig, SetsConfig, YamlRules}
use microwaf.State.{DaemonState}
use microwaf.Files.Paths.{FilePath}
use microwaf.Files.Fs.{Disk}
use microwaf.Files.Load.{try_reload}

pub data Received : Type 0 where
  changed : Received
  timeout : Received
  disconnected : Received

pub record Round : Type 0 where
  pub received : Received
  pub sighup : Bool
  pub disk : Disk

-- whether to reload once the flag is swapped; a closed channel ends the loop
unfoldable pub wake : Received → Bool → Option Bool
wake changed sighup = some true
wake timeout sighup = some sighup
wake disconnected sighup = none

module _ {P : Type 0} (compile_cel : Text → Result Text P)
    (yaml_daemon : Text → Result Text DaemonConfig) (yaml_sets : Text → Result Text SetsConfig)
    (yaml_rules : Text → Result Text YamlRules) (dir : FilePath) where
  unfoldable pub reload_if : Bool → Disk → DaemonState P → DaemonState P
  reload_if false d s = s
  reload_if true d s = (try_reload compile_cel yaml_daemon yaml_sets yaml_rules dir d s).1

  -- the loop of `watch_loop`
  unfoldable pub watch_loop : List Round → DaemonState P → DaemonState P
  watch_loop [] s = s
  watch_loop (r ∷ rounds) s = elim (wake r.received r.sighup) [
    | none ↦ s
    | some got ↦ watch_loop rounds (reload_if got r.disk s)
  ]
