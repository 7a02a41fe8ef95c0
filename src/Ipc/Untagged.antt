-- ===== src/Ipc/Untagged.antt =====
-- crates/mw-proto/src/wire.rs: how the untagged enum `Params` is read, and what becomes of the commands
-- that take a client alone.
use microwaf.Prelude.{ℕ, ◌≡◌, refl, Bool, false, Option, none, some, List, arith}
use microwaf.Prelude.Text.{Text, codes}
use microwaf.Time.{Instant}
use microwaf.State.{DaemonState}
use microwaf.Store.{ManualPolicyStore}
use microwaf.Ipc.Defs.{ClientRef, ThrottleParams, BlockParams}
use microwaf.Ipc.Wire.{RequestKind, TopParams, Params, Request, invalid, response_err}
use microwaf.Ipc.Dispatch.{VersionInfo, dispatch, run_unthrottle, run_block, run_unblock}

-- What serde derives for the four records on a JSON value, and what its documentation says of them:
-- a field that the record does not have is ignored, and an absent optional field is `None`.
pub record ParamsSerde (J : Type 0) : Type 0 where
  pub top_of : J → Option TopParams
  pub throttle_of : J → Option ThrottleParams
  pub client_of : J → Option ClientRef
  pub block_of : J → Option BlockParams
  pub has_rate : J → Bool
  pub has_duration : J → Bool
  pub optional_fields :
      (j : J) (r : ClientRef)
      → client_of j ≡ some r
      → has_rate j ≡ false
      → has_duration j ≡ false
      → throttle_of j ≡ some (record { client = r; rate = none; duration_secs = none })

-- the first variant, in the order of the declaration, that reads the value
abbrev pub first_of : {A : Type 0} → Option A → Option A → Option A
first_of (some a) other = some a
first_of none other = other

abbrev pub read_as : {A : Type 0} → (A → Params) → Option A → Option Params
read_as f none = none
read_as f (some a) = some (f a)

unfoldable pub params_of : {J : Type 0} → ParamsSerde J → J → Option Params
params_of d j = first_of (read_as Params.top (d.top_of j)) (
    first_of (read_as Params.throttle (d.throttle_of j))
      (first_of (read_as Params.client (d.client_of j)) (read_as Params.block (d.block_of j))))

module _ {J : Type 0} (serde : ParamsSerde J) where
  -- the request with parameters read from the value
  abbrev pub request_of : RequestKind → J → Request
  request_of kind j = record { kind = kind; params = params_of serde j }

  pub read_lem :
      (j : J) (r : ClientRef)
      → serde.top_of j ≡ none
      → serde.client_of j ≡ some r
      → serde.has_rate j ≡ false
      → serde.has_duration j ≡ false
      → params_of serde j
        ≡ some (Params.throttle (record { client = r; rate = none; duration_secs = none }))
  unfolding params_of
  read_lem j r top named rate duration =
      ground (arith, top, serde.optional_fields j r named rate duration)

module _ {P S J : Type 0} (version : VersionInfo) (store : ManualPolicyStore S)
    (show_v6 : List ℕ → Text) (parse_v6 : Text → Option (List ℕ)) (serde : ParamsSerde J) where
  -- A request to unthrottle, block or unblock whose parameters name a client and nothing else is
  -- answered with an error about missing parameters, and changes neither the state nor the store.
  pub dispatch-request_of :
      (j : J) (r : ClientRef) (s : DaemonState P) (st : S) (now : Instant) (now_sys : ℕ)
      → serde.top_of j ≡ none
      → serde.client_of j ≡ some r
      → serde.has_rate j ≡ false
      → serde.has_duration j ≡ false
      → (dispatch version store show_v6 parse_v6
            (request_of serde RequestKind.unthrottle j)
            s
            st
            now
            now_sys
          ≡ some (s, st, response_err RequestKind.unthrottle (invalid (codes "missing client"))))
        × (dispatch version store show_v6 parse_v6
              (request_of serde RequestKind.block j)
              s
              st
              now
              now_sys
            ≡ some (s, st, response_err RequestKind.block (invalid (codes "missing block params"))))
        × (dispatch version store show_v6 parse_v6
              (request_of serde RequestKind.unblock j)
              s
              st
              now
              now_sys
            ≡ some (s, st, response_err RequestKind.unblock (invalid (codes "missing client"))))
  unfolding dispatch run_unthrottle run_block run_unblock
  dispatch-request_of j r s st now now_sys top named rate duration =
      rw (read_lem serde j r top named rate duration) (refl, refl, refl)
