-- ===== src/Remote/Server.antt =====
-- The client library against the server: what each method makes of the daemon that answers it.
use microwaf.Prelude.{◌≡◌, refl, ℕ, false, Option, none, some, List, arith, inl, inr, Option-cases}
use microwaf.Prelude.Text.{Text, codes}
use microwaf.Prelude.Result.{Result, ok, err}
use microwaf.Time.{Instant}
use microwaf.State.{DaemonState}
use microwaf.Store.{ManualPolicyStore}
use microwaf.Ipc.{ClientRef, ThrottleParams, BlockParams}
use microwaf.Ipc
use microwaf.Ipc.Wire.{TopParams, Params, Request, Response, ResultBody, RequestKind, invalid}
use microwaf.Ipc.Lists
use microwaf.Ipc.Top
use microwaf.Ipc.Dispatch.{
  VersionInfo, info_result, dispatch, run_throttle, run_unthrottle, run_block, run_unblock,
}
use microwaf.Ipc.Untagged.{ParamsSerde, params_of, read_lem}
use microwaf.Remote.Bodies.{BodySerde, BodyWriter, delivered, delivered_ok, delivered_err}
use microwaf.Remote.Defs.{ClientError, frame_failed, server_error}
use microwaf.Remote.Defs

-- What serde derives to write parameters, and what its documentation says of reading them back: a
-- record that was written is read as itself, absent optional fields are `None`, and no record without
-- a `limit` is read as `TopParams`.
pub record ParamsWriter {J : Type 0} (serde : ParamsSerde J) : Type 0 where
  pub json_of : Params → J
  pub top_back : (p : TopParams) → serde.top_of (json_of (Params.top p)) ≡ some p
  pub throttle_no_top : (p : ThrottleParams) → serde.top_of (json_of (Params.throttle p)) ≡ none
  pub throttle_back :
      (p : ThrottleParams) → serde.throttle_of (json_of (Params.throttle p)) ≡ some p
  pub client_no_top : (r : ClientRef) → serde.top_of (json_of (Params.client r)) ≡ none
  pub client_back : (r : ClientRef) → serde.client_of (json_of (Params.client r)) ≡ some r
  pub client_no_rate : (r : ClientRef) → serde.has_rate (json_of (Params.client r)) ≡ false
  pub client_no_duration : (r : ClientRef) → serde.has_duration (json_of (Params.client r)) ≡ false
  pub block_no_top : (p : BlockParams) → serde.top_of (json_of (Params.block p)) ≡ none
  pub block_as_throttle :
      (p : BlockParams)
      → serde.throttle_of (json_of (Params.block p))
        ≡ some (record { client = p.client; rate = none; duration_secs = p.duration_secs })

module _ {J : Type 0} (serde : ParamsSerde J) (writer : ParamsWriter serde) where
  abbrev pub reread : Option Params → Option Params
  reread none = none
  reread (some p) = params_of serde (writer.json_of p)

  -- the request as the server reads it
  abbrev pub received : Request → Request
  received req = record req { params = reread req.params }

  read_top : (p : TopParams) → reread (some (Params.top p)) ≡ some (Params.top p)
  unfolding params_of
  read_top p = ground (arith, writer.top_back p)

  read_throttle :
      (p : ThrottleParams) → reread (some (Params.throttle p)) ≡ some (Params.throttle p)
  unfolding params_of
  read_throttle p = ground (arith, writer.throttle_no_top p, writer.throttle_back p)

  read_client :
      (r : ClientRef)
      → reread (some (Params.client r))
        ≡ some (Params.throttle (record { client = r; rate = none; duration_secs = none }))
  read_client r =
      read_lem serde (writer.json_of (Params.client r)) r (writer.client_no_top r)
        (writer.client_back r) (writer.client_no_rate r) (writer.client_no_duration r)

  read_block :
      (p : BlockParams)
      → reread (some (Params.block p))
        ≡ some (
            Params.throttle
              (record { client = p.client; rate = none; duration_secs = p.duration_secs }))
  unfolding params_of
  read_block p = ground (arith, writer.block_no_top p, writer.block_as_throttle p)

module _ {P S J K : Type 0} (version : VersionInfo) (store : ManualPolicyStore S)
    (show_v6 : List ℕ → Text) (parse_v6 : Text → Option (List ℕ)) (serde : ParamsSerde J)
    (writer : ParamsWriter serde) (bodies : BodySerde K) (body_writer : BodyWriter bodies)
    (now : Instant) (now_sys : ℕ) where
  -- a panic ends the daemon, which closes the connection
  abbrev reply_of :
      DaemonState P × S
      → Option (DaemonState P × S × Response)
      → (DaemonState P × S) × Result ClientError Response
  reply_of w none = (w, err (frame_failed (codes "closed")))
  reply_of w (some (s, st, resp)) = ((s, st), delivered bodies body_writer resp)

  -- one connection to the daemon, which answers by `dispatch`; the parameters of the request and the
  -- body of the response go through JSON
  unfoldable pub served :
      Request → DaemonState P × S → (DaemonState P × S) × Result ClientError Response
  served req (s, st) =
      reply_of (s, st)
        (dispatch version store show_v6 parse_v6 (received serde writer req) s st now now_sys)

  -- the result of a command, as the client sees it
  abbrev pub seen_as :
      DaemonState P × S
      → Option (DaemonState P × S × Result Text (Unit {0}))
      → (DaemonState P × S) × Result ClientError (Unit {0})
  seen_as w none = (w, err (frame_failed (codes "closed")))
  seen_as w (some (s, st, ok u)) = ((s, st), ok tt)
  seen_as w (some (s, st, err e)) = ((s, st), err (server_error (codes "invalid") e))

  served_throttle :
      (s : DaemonState P) (st : S) (p : ThrottleParams)
      → Defs.throttle served p (s, st)
        ≡ seen_as (s, st) (Ipc.throttle store parse_v6 s st p now now_sys)
  unfolding Defs.throttle served dispatch run_throttle
  served_throttle s st p =
      rw (read_throttle serde writer p)
        (elim (Option-cases (Ipc.throttle store parse_v6 s st p now now_sys)) [
          | inl e ↦ rw e refl
          | inr ((t, u, ok done), e) ↦
              rw (e, delivered_ok bodies body_writer RequestKind.throttle ResultBody.empty) refl
          | inr ((t, u, err x), e) ↦
              rw (e, delivered_err bodies body_writer RequestKind.throttle (invalid x)) refl
        ])

  -- Against a daemon that answers by `dispatch`, with parameters and result bodies that serde
  -- writes and reads back as it documents, the first variant that fits being taken, the four queries
  -- return what the daemon lists and change nothing, and `throttle` has the effect and the result of
  -- the command. `unthrottle`, `block` and `unblock` always fail with an error about missing
  -- parameters and change nothing: the server reads what they send as the parameters of a throttle.
  pub methods_lem :
      (s : DaemonState P) (st : S)
      → (Defs.info served (s, st) ≡ ((s, st), ok (info_result version store show_v6 parse_v6 s)))
        × (Defs.list_rules served (s, st) ≡ ((s, st), ok (Lists.list_rules s)))
        × (Defs.list_clients served (s, st) ≡ ((s, st), ok (Lists.list_clients show_v6 s now)))
        × ((p : TopParams) → Defs.top served p (s, st) ≡ ((s, st), ok (Top.top show_v6 s p now)))
        × ((p : ThrottleParams)
            → Defs.throttle served p (s, st)
              ≡ seen_as (s, st) (Ipc.throttle store parse_v6 s st p now now_sys))
        × ((r : ClientRef)
            → (Defs.unthrottle served r (s, st)
                ≡ ((s, st), err (server_error (codes "invalid") (codes "missing client"))))
              × (Defs.unblock served r (s, st)
                  ≡ ((s, st), err (server_error (codes "invalid") (codes "missing client")))))
        × ((p : BlockParams)
            → Defs.block served p (s, st)
              ≡ ((s, st), err (server_error (codes "invalid") (codes "missing block params"))))
  unfolding Defs.info Defs.list_rules Defs.list_clients Defs.top Defs.unthrottle Defs.unblock
      Defs.block served dispatch run_unthrottle run_unblock run_block
  methods_lem s st = (
    rw
        (delivered_ok bodies body_writer RequestKind.info
          (ResultBody.info (info_result version store show_v6 parse_v6 s)))
        refl,
    rw
        (delivered_ok bodies body_writer RequestKind.list_rules
          (ResultBody.rules (Lists.list_rules s)))
        refl,
    rw
        (delivered_ok bodies body_writer RequestKind.list_clients
          (ResultBody.clients (Lists.list_clients show_v6 s now)))
        refl,
    λ p.
        rw
          (
            read_top serde writer p,
            delivered_ok bodies body_writer RequestKind.top
                (ResultBody.clients (Top.top show_v6 s p now)),
          )
          refl,
    served_throttle s st,
    λ r. rw (read_client serde writer r) (
      rw
          (delivered_err bodies body_writer RequestKind.unthrottle
            (invalid (codes "missing client")))
          refl,
      rw (delivered_err bodies body_writer RequestKind.unblock (invalid (codes "missing client")))
          refl,
    ),
    λ p.
        rw
          (
            read_block serde writer p,
            delivered_err bodies body_writer RequestKind.block
                (invalid (codes "missing block params")),
          )
          refl,
  )
