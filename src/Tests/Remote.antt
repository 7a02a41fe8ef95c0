-- ===== src/Tests/Remote.antt =====
-- Examples: the client library against a daemon, with parameters and bodies as their own JSON values.
use microwaf.Prelude.{◌≡◌, refl, ℕ, Bool, true, false, Option, none, some, [], arith}
use microwaf.Prelude.Text.{codes}
use microwaf.Prelude.Result.{ok, err}
use microwaf.Counters.{no_counters}
use microwaf.Ipc
use microwaf.Ipc.{ClientRef, ThrottleParams, BlockParams}
use microwaf.Ipc.Wire.{TopParams, Params, ResultBody, InfoResult, ClientsResult, RuleWire}
use microwaf.Ipc.Lists
use microwaf.Ipc.Top
use microwaf.Ipc.Dispatch.{VersionInfo, info_result}
use microwaf.Ipc.Untagged.{ParamsSerde}
use microwaf.Remote
use microwaf.Remote.{server_error}
use microwaf.Remote.Bodies.{BodySerde, BodyWriter}
use microwaf.Prelude.{List}
use microwaf.Remote.Server.{ParamsWriter, served, seen_as, methods_lem}
use microwaf.Tests.Data.{daemon, no_v6}
use microwaf.Tests.Commands.{dictionary}

abbrev given : Option ℕ → Bool
given none = false
given (some n) = true

abbrev bare : ClientRef → ThrottleParams
bare r = record { client = r; rate = none; duration_secs = none }

abbrev top_of : Params → Option TopParams
top_of (Params.top p) = some p
top_of other = none

abbrev throttle_of : Params → Option ThrottleParams
throttle_of (Params.top p) = none
throttle_of (Params.throttle p) = some p
throttle_of (Params.client r) = some (bare r)
throttle_of (Params.block p) =
    some (record { client = p.client; rate = none; duration_secs = p.duration_secs })

abbrev client_of : Params → Option ClientRef
client_of (Params.top p) = none
client_of (Params.throttle p) = some p.client
client_of (Params.client r) = some r
client_of (Params.block p) = some p.client

abbrev block_of : Params → Option BlockParams
block_of (Params.top p) = none
block_of (Params.throttle p) = some (record { client = p.client; duration_secs = p.duration_secs })
block_of (Params.client r) = some (record { client = r; duration_secs = none })
block_of (Params.block p) = some p

abbrev has_rate : Params → Bool
has_rate (Params.throttle p) = given p.rate
has_rate other = false

abbrev has_duration : Params → Bool
has_duration (Params.throttle p) = given p.duration_secs
has_duration (Params.block p) = given p.duration_secs
has_duration other = false

pub optional_fields :
    (j : Params) (r : ClientRef)
    → client_of j ≡ some r
    → has_rate j ≡ false
    → has_duration j ≡ false
    → throttle_of j ≡ some (bare r)
optional_fields (Params.top p) r h rate duration = absurd (ground (arith, h))
optional_fields (Params.throttle p) r h rate duration = ground (arith, h, rate, duration)
optional_fields (Params.client r') r h rate duration = ground (arith, h)
optional_fields (Params.block p) r h rate duration = ground (arith, h, duration)

abbrev own_json : ParamsSerde Params
own_json = record {
  top_of = top_of;
  throttle_of = throttle_of;
  client_of = client_of;
  block_of = block_of;
  has_rate = has_rate;
  has_duration = has_duration;
  optional_fields = optional_fields;
}

abbrev own_writer : ParamsWriter own_json
own_writer = record {
  json_of = λ p. p;
  top_back = λ p. refl;
  throttle_no_top = λ p. refl;
  throttle_back = λ p. refl;
  client_no_top = λ r. refl;
  client_back = λ r. refl;
  client_no_rate = λ r. refl;
  client_no_duration = λ r. refl;
  block_no_top = λ p. refl;
  block_as_throttle = λ p. refl;
}

abbrev info_of : ResultBody → Option InfoResult
info_of (ResultBody.info r) = some r
info_of other = none

abbrev clients_of : ResultBody → Option ClientsResult
clients_of (ResultBody.clients r) = some r
clients_of other = none

abbrev rules_of : ResultBody → Option (List RuleWire)
rules_of (ResultBody.rules r) = some r
rules_of other = none

-- any record is read as the empty one
abbrev own_bodies : BodySerde ResultBody
own_bodies = record {
  info_of = info_of;
  clients_of = clients_of;
  rules_of = rules_of;
  empty_of = λ b. some tt;
}

abbrev own_body_writer : BodyWriter own_bodies
own_body_writer = record {
  json_of = λ b. b;
  info_back = λ r. refl;
  clients_no_version = λ r. refl;
  clients_back = λ r. refl;
  rules_no_version = λ r. refl;
  rules_no_clients = λ r. refl;
  rules_back = λ r. refl;
  empty_no_version = refl;
  empty_no_clients = refl;
  empty_no_rules = refl;
  empty_back = refl;
}

abbrev release : VersionInfo
release = record { version = codes "0.1.0"; commit = []; build_time = [] }

methods_lem_example :
    (Remote.info
        (served release dictionary no_v6
          (λ s. none)
          own_json
          own_writer
          own_bodies
          own_body_writer
          5
          7)
        (daemon no_counters, [])
      ≡ (
        (daemon no_counters, []),
        ok (info_result release dictionary no_v6 (λ s. none) (daemon no_counters)),
      ))
    × (Remote.list_rules
          (served release dictionary no_v6
            (λ s. none)
            own_json
            own_writer
            own_bodies
            own_body_writer
            5
            7)
          (daemon no_counters, [])
        ≡ ((daemon no_counters, []), ok (Lists.list_rules (daemon no_counters))))
    × (Remote.list_clients
          (served release dictionary no_v6
            (λ s. none)
            own_json
            own_writer
            own_bodies
            own_body_writer
            5
            7)
          (daemon no_counters, [])
        ≡ ((daemon no_counters, []), ok (Lists.list_clients no_v6 (daemon no_counters) 5)))
    × ((p : TopParams)
        → Remote.top
            (served release dictionary no_v6
              (λ s. none)
              own_json
              own_writer
              own_bodies
              own_body_writer
              5
              7)
            p
            (daemon no_counters, [])
          ≡ ((daemon no_counters, []), ok (Top.top no_v6 (daemon no_counters) p 5)))
    × ((p : ThrottleParams)
        → Remote.throttle
            (served release dictionary no_v6
              (λ s. none)
              own_json
              own_writer
              own_bodies
              own_body_writer
              5
              7)
            p
            (daemon no_counters, [])
          ≡ seen_as release dictionary no_v6
              (λ s. none)
              own_json
              own_writer
              own_bodies
              own_body_writer
              5
              7
              (daemon no_counters, [])
              (Ipc.throttle dictionary (λ s. none) (daemon no_counters) [] p 5 7))
    × ((r : ClientRef)
        → (Remote.unthrottle
              (served release dictionary no_v6
                (λ s. none)
                own_json
                own_writer
                own_bodies
                own_body_writer
                5
                7)
              r
              (daemon no_counters, [])
            ≡ (
              (daemon no_counters, []),
              err (server_error (codes "invalid") (codes "missing client")),
            ))
          × (Remote.unblock
                (served release dictionary no_v6
                  (λ s. none)
                  own_json
                  own_writer
                  own_bodies
                  own_body_writer
                  5
                  7)
                r
                (daemon no_counters, [])
              ≡ (
                (daemon no_counters, []),
                err (server_error (codes "invalid") (codes "missing client")),
              )))
    × ((p : BlockParams)
        → Remote.block
            (served release dictionary no_v6
              (λ s. none)
              own_json
              own_writer
              own_bodies
              own_body_writer
              5
              7)
            p
            (daemon no_counters, [])
          ≡ (
            (daemon no_counters, []),
            err (server_error (codes "invalid") (codes "missing block params")),
          ))
methods_lem_example =
    methods_lem release dictionary no_v6 (λ s. none) own_json own_writer own_bodies own_body_writer
      5 7 (daemon no_counters) []
