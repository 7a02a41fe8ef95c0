-- ===== src/State/Defs.antt =====
-- crates/microwaf/src/state.rs: `DaemonState`, and `LiveConfig` of crates/microwaf/src/config.rs.
-- A mutex or an atomic pointer is the value that it holds; a method is one step.
use microwaf.Prelude.{Option, none, some, List, []}
use microwaf.Prelude.Text.{Text}
use microwaf.HashMap.{HashMap, insert, remove}
use microwaf.Time.{Instant}
use microwaf.Client.{ClientId, client_eq}
use microwaf.Rule.{RuleSet}
use microwaf.Config.{DaemonConfig, SetsConfig}
use microwaf.Counters.{CounterKey, Counts, CounterStore, no_counters}
use microwaf.Enforcer.{Mode, enforce, permissive, ActionLog, Enforcer}
use microwaf.Enforcer
use microwaf.Policy.{ClientPolicy, EffectiveAction}
use microwaf.Window.{RuleWindows}

pub record LiveConfig (P : Type 0) : Type 0 where
  pub daemon : DaemonConfig
  pub sets : SetsConfig
  pub rules : RuleSet P

pub record DaemonState (P : Type 0) : Type 0 where
  pub mode : Mode
  pub interface : Text
  pub live : LiveConfig P
  pub policies : HashMap ClientId ClientPolicy
  pub windows : HashMap ClientId RuleWindows
  pub counters : CounterStore
  pub last_counters : HashMap CounterKey Counts
  pub would_be : ActionLog
  pub enforcer : Option Enforcer
  pub started : Instant

abbrev log_would_be : Mode → ActionLog → ClientId → EffectiveAction → ActionLog
log_would_be enforce log client action = log
log_would_be permissive log client action = insert client action log

abbrev apply_enforcer : Option Enforcer → ClientId → EffectiveAction → Option Enforcer
apply_enforcer none client action = none
apply_enforcer (some e) client action = some (Enforcer.apply e client action)

abbrev clear_enforcer : Option Enforcer → ClientId → Option Enforcer
clear_enforcer none client = none
clear_enforcer (some e) client = some (Enforcer.clear e client)

module _ {P : Type 0} where
  -- `DaemonState::new`; `now` is the clock
  unfoldable pub new_state : Mode → Text → LiveConfig P → Instant → DaemonState P
  new_state mode interface live now = record {
    mode = mode;
    interface = interface;
    live = live;
    policies = [];
    windows = [];
    counters = no_counters;
    last_counters = [];
    would_be = [];
    enforcer = none;
    started = now;
  }

  -- `DaemonState::set_enforcer`
  unfoldable pub set_enforcer : DaemonState P → Enforcer → DaemonState P
  set_enforcer s e = record s { enforcer = some e }

  -- `DaemonState::apply`
  unfoldable pub apply : DaemonState P → ClientId → EffectiveAction → DaemonState P
  apply s client action = record s {
    would_be = log_would_be s.mode s.would_be client action;
    enforcer = apply_enforcer s.enforcer client action;
  }

  -- `DaemonState::clear`
  unfoldable pub clear : DaemonState P → ClientId → DaemonState P
  clear s client = record s {
    would_be = remove client s.would_be;
    enforcer = clear_enforcer s.enforcer client;
  }

  -- `DaemonState::rules`, `sets`, `daemon_cfg` and `allow_users`
  abbrev pub rules : DaemonState P → RuleSet P
  rules s = s.live.rules

  abbrev pub sets : DaemonState P → SetsConfig
  sets s = s.live.sets

  abbrev pub daemon_cfg : DaemonState P → DaemonConfig
  daemon_cfg s = s.live.daemon

  abbrev pub allow_users : DaemonState P → List Text
  allow_users s = (daemon_cfg s).allow_users

  -- `DaemonState::swap_live`
  unfoldable pub swap_live : DaemonState P → LiveConfig P → DaemonState P
  swap_live s live = record s { live = live }
