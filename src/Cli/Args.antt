-- ===== src/Cli/Args.antt =====
-- crates/microwaf/src/cli/mod.rs: the arguments, which clap parses.
use microwaf.Prelude.{ℕ, Bool, Option, none, some}
use microwaf.Prelude.Text.{Text}
use microwaf.Time.{Duration}
use microwaf.Enforcer.{Mode}
use microwaf.Files.{FilePath}

pub record DaemonArgs : Type 0 where
  pub interface : Option Text
  pub redis_url : Option Text
  pub config_dir : Option FilePath
  pub mode : Option Mode

-- the fields `json` and `timeout` of every client command
pub record Common : Type 0 where
  pub json : Bool
  pub timeout : Duration

pub record TopArgs : Type 0 where
  pub limit : ℕ
  pub rule_id : Option Text
  pub protocol : Option Text
  pub metric : Option Text
  pub interval : Duration
  pub once : Bool

pub data Command : Type 0 where
  daemon : DaemonArgs → Command
  info : Common → Command
  top : TopArgs → Common → Command
  clients : Common → Command
  throttle : Text → Option Duration → ℕ → Common → Command
  unthrottle : Text → Common → Command
  block : Text → Option Duration → Common → Command
  unblock : Text → Common → Command
  rules : Common → Command

pub record Cli : Type 0 where
  pub command : Option Command
  pub socket : Option FilePath
  pub verbose : Bool
  pub interface : Option Text
  pub redis_url : Option Text
  pub config_dir : Option FilePath
  pub mode : Option Mode

-- `a.or(b)`
abbrev pub option_or : {A : Type 0} → Option A → Option A → Option A
option_or none b = b
option_or (some a) b = some a

-- the options of the daemon: a flag of the subcommand goes before the global one
abbrev pub merged : Cli → DaemonArgs → DaemonArgs
merged cli args = record {
  interface = option_or args.interface cli.interface;
  redis_url = option_or args.redis_url cli.redis_url;
  config_dir = option_or args.config_dir cli.config_dir;
  mode = option_or args.mode cli.mode;
}

unfoldable pub daemon_options : Cli → DaemonArgs
daemon_options cli = elim cli.command [
  | some (Command.daemon args) ↦ merged cli args
  | other ↦ record {
    interface = cli.interface;
    redis_url = cli.redis_url;
    config_dir = cli.config_dir;
    mode = cli.mode;
  }
]
