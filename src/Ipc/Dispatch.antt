-- ===== src/Ipc/Dispatch.antt =====
-- crates/microwaf/src/ipc.rs: `dispatch` and `info_result`, and how serde reads the untagged enum
-- `Params` of crates/mw-proto/src/wire.rs. What the build says of the version is the parameter
-- `version`.
use microwaf.Prelude.{ℕ, Option, some, List}
use microwaf.Prelude.Text.{Text, codes}
use microwaf.Prelude.Result.{Result, ok, err}
use microwaf.Time.{Instant}
use microwaf.Enforcer.{mode_as_str}
use microwaf.State.{DaemonState}
use microwaf.Store.{ManualPolicyStore}
use microwaf.Ipc.Defs.{
  ClientRef, ThrottleParams, BlockParams, clear_manual_throttle, clear_manual_block,
}
use microwaf.Ipc.Defs
use microwaf.Ipc.Wire.{
  RequestKind, TopParams, Params, Request, Response, ResultBody, InfoResult, invalid, response_ok,
  response_err,
}
use microwaf.Ipc.Lists.{list_rules, list_clients}
use microwaf.Ipc.Top.{top}

-- `version::info`: version, commit and build time
pub record VersionInfo : Type 0 where
  pub version : Text
  pub commit : Text
  pub build_time : Text

abbrev pub default_top : TopParams
default_top = record {
  limit = 10;
  rule_id = Option.none;
  protocol = Option.none;
  metric = Option.none;
}

-- the parameters of `top`, or its defaults
abbrev pub top_params : Option Params → TopParams
top_params (some (Params.top p)) = p
top_params _ = default_top

-- the response to a command that returns nothing
abbrev pub answer : RequestKind → Result Text (Unit {0}) → Response
answer kind (ok u) = response_ok kind ResultBody.empty
answer kind (err e) = response_err kind (invalid e)

module _ {P S : Type 0} (version : VersionInfo) (store : ManualPolicyStore S)
    (show_v6 : List ℕ → Text) (parse_v6 : Text → Option (List ℕ)) where
  -- `info_result`
  abbrev pub info_result : DaemonState P → InfoResult
  info_result s = record {
    version = version.version;
    commit = version.commit;
    build_time = version.build_time;
    mode = mode_as_str s.mode;
    interface = s.interface;
  }

  abbrev answered :
      RequestKind → DaemonState P × S × Result Text (Unit {0}) → DaemonState P × S × Response
  answered kind (s, st, r) = (s, st, answer kind r)

  abbrev may_answer :
      RequestKind
      → Option (DaemonState P × S × Result Text (Unit {0}))
      → Option (DaemonState P × S × Response)
  may_answer kind Option.none = Option.none
  may_answer kind (some x) = some (answered kind x)

  -- the four commands, by the kind of their parameters
  unfoldable pub run_throttle :
      DaemonState P → S → Option Params → Instant → ℕ → Option (DaemonState P × S × Response)
  run_throttle s st (some (Params.throttle p)) now now_sys =
      may_answer RequestKind.throttle (Defs.throttle store parse_v6 s st p now now_sys)
  run_throttle s st _ now now_sys =
      some (s, st, response_err RequestKind.throttle (invalid (codes "missing throttle params")))

  unfoldable pub run_unthrottle :
      DaemonState P → S → Option Params → Instant → ℕ → Option (DaemonState P × S × Response)
  run_unthrottle s st (some (Params.client r)) now now_sys =
      some
        (answered RequestKind.unthrottle (clear_manual_throttle store parse_v6 s st r now now_sys))
  run_unthrottle s st _ now now_sys =
      some (s, st, response_err RequestKind.unthrottle (invalid (codes "missing client")))

  unfoldable pub run_block :
      DaemonState P → S → Option Params → Instant → ℕ → Option (DaemonState P × S × Response)
  run_block s st (some (Params.block p)) now now_sys =
      may_answer RequestKind.block (Defs.block store parse_v6 s st p now now_sys)
  run_block s st _ now now_sys =
      some (s, st, response_err RequestKind.block (invalid (codes "missing block params")))

  unfoldable pub run_unblock :
      DaemonState P → S → Option Params → Instant → ℕ → Option (DaemonState P × S × Response)
  run_unblock s st (some (Params.client r)) now now_sys =
      some (answered RequestKind.unblock (clear_manual_block store parse_v6 s st r now now_sys))
  run_unblock s st _ now now_sys =
      some (s, st, response_err RequestKind.unblock (invalid (codes "missing client")))

  -- `dispatch`
  unfoldable pub dispatch :
      Request → DaemonState P → S → Instant → ℕ → Option (DaemonState P × S × Response)
  dispatch req s st now now_sys = elim req.kind [
    | RequestKind.info ↦
        some (s, st, response_ok RequestKind.info (ResultBody.info (info_result s)))
    | RequestKind.list_rules ↦
        some (s, st, response_ok RequestKind.list_rules (ResultBody.rules (list_rules s)))
    | RequestKind.list_clients ↦ some (
      s,
      st,
      response_ok RequestKind.list_clients (ResultBody.clients (list_clients show_v6 s now)),
    )
    | RequestKind.top ↦ some (
      s,
      st,
      response_ok RequestKind.top (ResultBody.clients (top show_v6 s (top_params req.params) now)),
    )
    | RequestKind.throttle ↦ run_throttle s st req.params now now_sys
    | RequestKind.unthrottle ↦ run_unthrottle s st req.params now now_sys
    | RequestKind.block ↦ run_block s st req.params now now_sys
    | RequestKind.unblock ↦ run_unblock s st req.params now now_sys
  ]
