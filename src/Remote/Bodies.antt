-- ===== src/Remote/Bodies.antt =====
-- crates/mw-proto/src/wire.rs: how the untagged enum `ResultBody` of a response is read back from what
-- was written.
use microwaf.Prelude.{◌≡◌, refl, Option, none, some, List, arith}
use microwaf.Prelude.Text.{codes}
use microwaf.Prelude.Result.{Result, ok, err}
use microwaf.Ipc.Wire.{
  RequestKind, ErrorBody, response_ok, response_err, ResultBody, InfoResult, ClientsResult,
  RuleWire, Response,
}
use microwaf.Ipc.Untagged.{first_of}
use microwaf.Remote.Defs.{ClientError, frame_failed}

-- what serde derives to read the four records from a JSON value
pub record BodySerde (J : Type 0) : Type 0 where
  pub info_of : J → Option InfoResult
  pub clients_of : J → Option ClientsResult
  pub rules_of : J → Option (List RuleWire)
  pub empty_of : J → Option (Unit {0})

-- What serde derives to write them, and what its documentation says of reading them back: a record
-- that was written is read as itself, and a value without a field that a record requires (`version`,
-- `clients` or `rules`) is not read as that record.
pub record BodyWriter {J : Type 0} (serde : BodySerde J) : Type 0 where
  pub json_of : ResultBody → J
  pub info_back : (r : InfoResult) → serde.info_of (json_of (ResultBody.info r)) ≡ some r
  pub clients_no_version :
      (r : ClientsResult) → serde.info_of (json_of (ResultBody.clients r)) ≡ none
  pub clients_back :
      (r : ClientsResult) → serde.clients_of (json_of (ResultBody.clients r)) ≡ some r
  pub rules_no_version : (r : List RuleWire) → serde.info_of (json_of (ResultBody.rules r)) ≡ none
  pub rules_no_clients :
      (r : List RuleWire) → serde.clients_of (json_of (ResultBody.rules r)) ≡ none
  pub rules_back : (r : List RuleWire) → serde.rules_of (json_of (ResultBody.rules r)) ≡ some r
  pub empty_no_version : serde.info_of (json_of ResultBody.empty) ≡ none
  pub empty_no_clients : serde.clients_of (json_of ResultBody.empty) ≡ none
  pub empty_no_rules : serde.rules_of (json_of ResultBody.empty) ≡ none
  pub empty_back : serde.empty_of (json_of ResultBody.empty) ≡ some tt

abbrev body_as : {A : Type 0} → (A → ResultBody) → Option A → Option ResultBody
body_as f none = none
body_as f (some a) = some (f a)

-- the first variant of `ResultBody`, in the order of the declaration, that reads the value
unfoldable pub result_of : {J : Type 0} → BodySerde J → J → Option ResultBody
result_of d j = first_of (body_as ResultBody.info (d.info_of j)) (
    first_of (body_as ResultBody.clients (d.clients_of j)) (
      first_of (body_as ResultBody.rules (d.rules_of j))
        (body_as (λ u. ResultBody.empty) (d.empty_of j))))

module _ {J : Type 0} (serde : BodySerde J) (writer : BodyWriter serde) where
  -- the response as the client reads it
  unfoldable pub delivered : Response → Result ClientError Response
  delivered resp = elim resp.result [
    | none ↦ ok resp
    | some body ↦ elim (result_of serde (writer.json_of body)) [
      | none ↦ err (frame_failed (codes "did not match any variant"))
      | some read ↦ ok (record resp { result = some read })
    ]
  ]

  -- Each body is read back as itself.
  result_of_written : (b : ResultBody) → result_of serde (writer.json_of b) ≡ some b
  unfolding result_of
  result_of_written (ResultBody.info r) = ground (arith, writer.info_back r)
  result_of_written (ResultBody.clients r) =
      ground (arith, writer.clients_no_version r, writer.clients_back r)
  result_of_written (ResultBody.rules r) =
      ground (arith, writer.rules_no_version r, writer.rules_no_clients r, writer.rules_back r)
  result_of_written ResultBody.empty = ground (
    arith, writer.empty_no_version, writer.empty_no_clients, writer.empty_no_rules,
    writer.empty_back,
  )

  pub delivered_ok :
      (kind : RequestKind) (b : ResultBody)
      → delivered (response_ok kind b) ≡ ok (response_ok kind b)
  unfolding delivered
  delivered_ok kind b = ground (arith, result_of_written b)

  pub delivered_err :
      (kind : RequestKind) (e : ErrorBody)
      → delivered (response_err kind e) ≡ ok (response_err kind e)
  unfolding delivered
  delivered_err kind e = refl
