-- ===== src/Remote/Defs.antt =====
-- crates/mw-client: `Client` and `ClientError`. What connects to the socket, writes the frame of a
-- request and reads that of its response is the parameter `exchange`, on the world that it changes.
use microwaf.Prelude.{Option, none, some, List}
use microwaf.Prelude.Text.{Text, codes}
use microwaf.Prelude.Result.{Result, ok, err}
use microwaf.Ipc.{ClientRef, ThrottleParams, BlockParams}
use microwaf.Ipc.Wire.{
  RequestKind, TopParams, Params, Request, Response, ResultBody, InfoResult, ClientsResult,
  RuleWire, ErrorBody,
}

pub data ClientError : Type 0 where
  connect_failed : Text → ClientError
  frame_failed : Text → ClientError
  server_error : Text → Text → ClientError
  unexpected : Text → ClientError

-- `ClientError::from_body`
abbrev pub from_body : ErrorBody → ClientError
from_body e = server_error e.code e.message

-- `Request::new` and `Request::with_params`
abbrev pub new_request : RequestKind → Request
new_request kind = record { kind = kind; params = none }

abbrev pub with_params : RequestKind → Params → Request
with_params kind p = record { kind = kind; params = some p }

-- the result of a response: its error, if it has one, goes first
abbrev pub body_of : Option ErrorBody → Option ResultBody → Result ClientError ResultBody
body_of (some e) result = err (from_body e)
body_of none none = err (unexpected (codes "missing result"))
body_of none (some body) = ok body

abbrev pub read_response : Result ClientError Response → Result ClientError ResultBody
read_response (err e) = err e
read_response (ok resp) = body_of resp.error resp.result

-- the shapes of result that the methods expect; another one is an error
abbrev pub other_shape : {A : Type 0} → Result ClientError A
other_shape = err (unexpected (codes "result"))

abbrev pub as_info : Result ClientError ResultBody → Result ClientError InfoResult
as_info (err e) = err e
as_info (ok (ResultBody.info r)) = ok r
as_info (ok other) = other_shape

abbrev pub as_clients : Result ClientError ResultBody → Result ClientError ClientsResult
as_clients (err e) = err e
as_clients (ok (ResultBody.clients r)) = ok r
as_clients (ok other) = other_shape

abbrev pub as_rules : Result ClientError ResultBody → Result ClientError (List RuleWire)
as_rules (err e) = err e
as_rules (ok (ResultBody.rules r)) = ok r
as_rules (ok other) = other_shape

abbrev pub as_empty : Result ClientError ResultBody → Result ClientError (Unit {0})
as_empty (err e) = err e
as_empty (ok ResultBody.empty) = ok tt
as_empty (ok other) = other_shape

module _ {W : Type 0} (exchange : Request → W → W × Result ClientError Response) where
  -- `round_trip`, and what the method makes of its result
  abbrev pub ask :
      {A : Type 0}
      → (Result ClientError ResultBody → Result ClientError A)
      → Request
      → W
      → W × Result ClientError A
  ask view req w = let (after, resp) = exchange req w in (after, view (read_response resp))

  -- the methods
  unfoldable pub info : W → W × Result ClientError InfoResult
  info = ask as_info (new_request RequestKind.info)

  unfoldable pub top : TopParams → W → W × Result ClientError ClientsResult
  top p = ask as_clients (with_params RequestKind.top (Params.top p))

  unfoldable pub list_clients : W → W × Result ClientError ClientsResult
  list_clients = ask as_clients (new_request RequestKind.list_clients)

  unfoldable pub list_rules : W → W × Result ClientError (List RuleWire)
  list_rules = ask as_rules (new_request RequestKind.list_rules)

  unfoldable pub throttle : ThrottleParams → W → W × Result ClientError (Unit {0})
  throttle p = ask as_empty (with_params RequestKind.throttle (Params.throttle p))

  unfoldable pub unthrottle : ClientRef → W → W × Result ClientError (Unit {0})
  unthrottle r = ask as_empty (with_params RequestKind.unthrottle (Params.client r))

  unfoldable pub block : BlockParams → W → W × Result ClientError (Unit {0})
  block p = ask as_empty (with_params RequestKind.block (Params.block p))

  unfoldable pub unblock : ClientRef → W → W × Result ClientError (Unit {0})
  unblock r = ask as_empty (with_params RequestKind.unblock (Params.client r))
