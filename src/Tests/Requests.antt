-- ===== src/Tests/Requests.antt =====
-- Examples: the dispatcher and the ranking of the control socket.
use microwaf.Prelude.{◌≡◌, ◌≤◌, ◌<◌, refl, false, none, some, [], length, ap}
use microwaf.Prelude.Text.{codes}
use microwaf.Counters.{no_counters}
use microwaf.Ipc.{ClientRef}
use microwaf.Ipc.Wire.{RequestKind, TopParams, invalid, response_err}
use microwaf.Ipc.Top.{top_rows, Scored, collect_rows, select_rules}
use mathlib.Core.List.{Permᴰ, List, take}
use microwaf.Client.{ClientId}
use microwaf.State.{rules}
use microwaf.Ipc.Rows.{HasRow, IsListed}
use microwaf.Ipc.Order.{InOrder, top_rows-InOrder}
use microwaf.Ipc.Dispatch.{VersionInfo, dispatch}
use microwaf.Ipc.Untagged.{ParamsSerde, request_of, dispatch-request_of}
use microwaf.Tests.Data.{daemon, flooded, no_v6}
use microwaf.Tests.Commands.{dictionary}

-- values that hold a reference and nothing else
abbrev plain_refs : ParamsSerde ClientRef
plain_refs = record {
  top_of = λ j. none;
  throttle_of = λ j. some (record { client = j; rate = none; duration_secs = none });
  client_of = λ j. some j;
  block_of = λ j. some (record { client = j; duration_secs = none });
  has_rate = λ j. false;
  has_duration = λ j. false;
  optional_fields = λ j r h rate duration.
      ap
        (λ o. elim o [
          | none ↦ none
          | some c ↦ some (record { client = c; rate = none; duration_secs = none })
        ])
        h;
}

abbrev alice_ref : ClientRef
alice_ref = record { mac = codes "02:00:00:00:00:01"; ip = some (codes "10.0.0.1") }

abbrev build : VersionInfo
build = record { version = codes "0.1.0"; commit = []; build_time = [] }

dispatch-request_of_example :
    (dispatch build dictionary no_v6
        (λ s. none)
        (request_of plain_refs RequestKind.unthrottle alice_ref)
        (daemon no_counters)
        []
        5
        7
      ≡ some (
        daemon no_counters,
        [],
        response_err RequestKind.unthrottle (invalid (codes "missing client")),
      ))
    × (dispatch build dictionary no_v6
          (λ s. none)
          (request_of plain_refs RequestKind.block alice_ref)
          (daemon no_counters)
          []
          5
          7
        ≡ some (
          daemon no_counters,
          [],
          response_err RequestKind.block (invalid (codes "missing block params")),
        ))
    × (dispatch build dictionary no_v6
          (λ s. none)
          (request_of plain_refs RequestKind.unblock alice_ref)
          (daemon no_counters)
          []
          5
          7
        ≡ some (
          daemon no_counters,
          [],
          response_err RequestKind.unblock (invalid (codes "missing client")),
        ))
dispatch-request_of_example =
    dispatch-request_of build dictionary no_v6 (λ s. none) plain_refs alice_ref alice_ref
      (daemon no_counters) [] 5 7 refl refl refl refl

abbrev two_at_most : TopParams
two_at_most = record { limit = 2; rule_id = none; protocol = none; metric = none }

top_rows-InOrder_example :
    (xs : List Scored) × Permᴰ
      (collect_rows (daemon flooded) (select_rules two_at_most (rules (daemon flooded)).rules))
      xs
    × InOrder xs
    × ((c : ClientId) → IsListed (daemon flooded) c → HasRow c xs)
    × (0 < 2 → top_rows (daemon flooded) two_at_most ≡ take 2 xs)
    × (two_at_most.limit ≡ 0 → top_rows (daemon flooded) two_at_most ≡ xs)
    × InOrder (top_rows (daemon flooded) two_at_most)
    × (0 < 2 → length (top_rows (daemon flooded) two_at_most) ≤ 2)
top_rows-InOrder_example = top_rows-InOrder (daemon flooded) two_at_most
