-- ===== src/Ipc/Wire.antt =====
-- crates/mw-proto/src/wire.rs: the requests and responses of the control socket.
use microwaf.Prelude.{ℕ, Bool, Option, some, List}
use microwaf.Prelude.Text.{Text, codes}
use microwaf.Ipc.Defs.{ClientRef, ThrottleParams, BlockParams}

pub data RequestKind : Type 0 where
  info top list_clients throttle unthrottle block unblock list_rules : RequestKind

pub record TopParams : Type 0 where
  pub limit : ℕ
  pub rule_id : Option Text
  pub protocol : Option Text
  pub metric : Option Text

-- `ClientParams` is the reference that it holds.
pub data Params : Type 0 where
  top : TopParams → Params
  throttle : ThrottleParams → Params
  client : ClientRef → Params
  block : BlockParams → Params

pub record Request : Type 0 where
  pub kind : RequestKind
  pub params : Option Params

pub record ErrorBody : Type 0 where
  pub code : Text
  pub message : Text

-- `ErrorBody::invalid`
abbrev pub invalid : Text → ErrorBody
invalid message = record { code = codes "invalid"; message = message }

pub data ActionWire : Type 0 where
  throttle : ℕ → ActionWire
  block : ActionWire
  none : ActionWire

pub record ViolationWire : Type 0 where
  pub rule_id : Text
  pub value : ℕ
  pub limit : ℕ
  pub action : ActionWire

pub record ClientStatsWire : Type 0 where
  pub requests : ℕ
  pub bytes : ℕ
  pub connections : ℕ
  pub ws_connections : ℕ

pub record ClientEntry : Type 0 where
  pub client : ClientRef
  pub action : Option ActionWire
  pub would_be_action : Option ActionWire
  pub violations : List ViolationWire
  pub hot : Bool
  pub stats : Option ClientStatsWire

pub record TopColumn : Type 0 where
  pub rule_id : Text
  pub window : Text
  pub limit : ℕ
  pub min_threshold : ℕ

pub record ClientsResult : Type 0 where
  pub clients : List ClientEntry
  pub columns : List TopColumn

pub record RuleWire : Type 0 where
  pub id : Text
  pub protocol : Text
  pub ports : List ℕ
  pub metric : Text
  pub window : Text
  pub limit : ℕ
  pub action : ActionWire
  pub min_threshold : ℕ
  pub matcher : Option Text

pub record InfoResult : Type 0 where
  pub version : Text
  pub commit : Text
  pub build_time : Text
  pub mode : Text
  pub interface : Text

pub data ResultBody : Type 0 where
  info : InfoResult → ResultBody
  clients : ClientsResult → ResultBody
  rules : List RuleWire → ResultBody
  empty : ResultBody

pub record Response : Type 0 where
  pub kind : RequestKind
  pub result : Option ResultBody
  pub error : Option ErrorBody

-- `Response::ok` and `Response::err`
abbrev pub response_ok : RequestKind → ResultBody → Response
response_ok kind body = record { kind = kind; result = some body; error = Option.none }

abbrev pub response_err : RequestKind → ErrorBody → Response
response_err kind e = record { kind = kind; result = Option.none; error = some e }
