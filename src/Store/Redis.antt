-- ===== src/Store/Redis.antt =====
-- crates/mw-store/src/redis_store.rs. The Redis server is the parameter `redis`, the JSON library
-- the parameters `encode` and `decode`. Operations return the server after them, and a reply.
pub mod Laws
pub mod Schema
use microwaf.Prelude.{
  ℕ, ◌+◌, ◌-◌, ◌*◌, ◌&&◌, max, Option, none, some, List, [], ◌∷◌, ◌++◌, leb, nat_beq, nat_eq,
  list_eq, if◌then◌else◌,
}
use microwaf.Prelude.Text.{Text, codes, strip_prefix}
use microwaf.Prelude.Result.{Result, ok, err, ◌>>=◌}
use microwaf.Time.{as_secs}
use microwaf.Client.{ClientId, storage_key, client_from_str}
use microwaf.Policy.{StoredManualPolicy}
use microwaf.Store.Defs.{ManualPolicyStore}
use microwaf.Store.Stats.{StoredClientStats, ClientStatsStore}

-- the commands of a connection: GET, SET, SETEX, DEL, and KEYS of a prefix
pub record RedisServer (D : Type 0) : Type 0 where
  pub get : D → Text → Result Text (Option Text)
  pub set : D → Text → Text → D × Result Text (Unit {0})
  pub set_ex : D → Text → Text → ℕ → D × Result Text (Unit {0})
  pub del : D → List Text → D × Result Text (Unit {0})
  pub keys : D → Text → Result Text (List Text)

abbrev pub key_schema : Text
key_schema = codes "microwaf:schema_version"

abbrev pub prefix_policy : Text
prefix_policy = codes "microwaf:policy:manual:"

abbrev pub prefix_stats : Text
prefix_stats = codes "microwaf:stats:"

-- `SCHEMA_VERSION`, and its text
abbrev pub schema_version : ℕ
schema_version = 1

abbrev pub schema_text : Text
schema_text = codes "1"

-- `str::parse::<u32>`
abbrev digits_loop : ℕ → Text → Option ℕ
digits_loop acc [] = some acc
digits_loop acc (c ∷ s) =
    let rest = digits_loop (acc * 10 + (c - b'0')) s in
    if leb b'0' c && leb c b'9' && leb (acc * 10 + (c - b'0')) 0xffff_ffff then rest else none

abbrev pub parse_u32 : Text → Option ℕ
parse_u32 [] = none
parse_u32 (c ∷ []) = if nat_beq c b'+' then none else digits_loop 0 (c ∷ [])
parse_u32 (c ∷ d ∷ s) = if nat_beq c b'+' then digits_loop 0 (d ∷ s) else digits_loop 0 (c ∷ d ∷ s)

-- `parse().unwrap_or(0)`
abbrev pub parsed_version : Text → ℕ
parsed_version v = elim (parse_u32 v) [ none ↦ 0 | some n ↦ n ]

-- `?` on a reply, and the next command
abbrev pub and_then :
    {D A B : Type 0} → D × Result Text A → (D → A → D × Result Text B) → D × Result Text B
and_then (d, ok a) f = f d a
and_then (d, err e) f = (d, err e)

module _ {D : Type 0} (redis : RedisServer D) where
  unfoldable pub stamp : D → D × Result Text (Unit {0})
  stamp d = redis.set d key_schema schema_text

  -- DEL of the keys, if there are any
  abbrev pub delete_all : D → List Text → D × Result Text (Unit {0})
  delete_all d [] = (d, ok tt)
  delete_all d (k ∷ ks) = redis.del d (k ∷ ks)

  -- a schema of another version: all keys of the daemon are discarded
  unfoldable pub discard : D → D × Result Text (Unit {0})
  unfolding stamp
  discard d =
      and_then (d, redis.keys d (codes "microwaf:"))
        (λ e ks. and_then (delete_all e ks) (λ f done. stamp f))

  -- `ensure_schema`
  unfoldable pub ensure_schema : D → D × Result Text (Unit {0})
  unfolding stamp discard
  ensure_schema d = elim (redis.get d key_schema) [
    | err e ↦ (d, err e)
    | ok none ↦ stamp d
    | ok (some v) ↦ if nat_beq (parsed_version v) schema_version then (d, ok tt) else discard d
  ]

  -- GET of a value that must be there
  unfoldable pub get_text : D → Text → Result Text Text
  get_text d k = elim (redis.get d k) [
    | err e ↦ err e
    | ok none ↦ err (codes "nil")
    | ok (some v) ↦ ok v
  ]

  module _ (show_v6 : List ℕ → Text) (parse_v6 : Text → Option (List ℕ)) where
    -- `policy_key` and `stats_key`
    unfoldable pub policy_key : ClientId → Text
    policy_key c = prefix_policy ++ storage_key show_v6 c

    unfoldable pub stats_key : ClientId → Text
    stats_key c = prefix_stats ++ storage_key show_v6 c

    -- `parse_client_from_key`
    unfoldable pub parse_client_from_key : Text → Text → Result Text ClientId
    parse_client_from_key key prefix = elim (strip_prefix prefix key) [
      | none ↦ err key
      | some rest ↦ client_from_str parse_v6 rest
    ]

    module _ {V : Type 0} (encode : V → Result Text Text) (decode : Text → Result Text V) where
      -- one round of the loop of `load_all`
      unfoldable pub load_entry : D → Text → Text → Result Text (ClientId × V)
      load_entry d prefix key = do
        raw ← get_text d key
        value ← decode raw
        client ← parse_client_from_key key prefix
        ok (client, value)

      -- the loop of `load_all`
      unfoldable pub load_keys : D → Text → List Text → Result Text (List (ClientId × V))
      load_keys d prefix [] = ok []
      load_keys d prefix (key ∷ keys) = do
        entry ← load_entry d prefix key
        rest ← load_keys d prefix keys
        ok (entry ∷ rest)

      -- `load_all`
      unfoldable pub redis_load_all : D → Text → Result Text (List (ClientId × V))
      redis_load_all d prefix = do keys ← redis.keys d prefix; load_keys d prefix keys

      -- the loop of `put_batch`
      unfoldable pub put_batch : List (ClientId × V) → D → D × Result Text (Unit {0})
      put_batch [] d = (d, ok tt)
      put_batch ((c, v) ∷ rest) d =
          and_then (d, encode v)
            (λ e raw. and_then (redis.set e (stats_key c) raw) (λ f done. put_batch rest f))

    module _ (encode : StoredManualPolicy → Result Text Text)
        (decode : Text → Result Text StoredManualPolicy) (now_sys : ℕ) where
      -- `put`: a policy with a deadline expires in the server; the wall clock is `now_sys`
      unfoldable pub set_policy : D → Text → Text → Option ℕ → D × Result Text (Unit {0})
      set_policy d key raw none = redis.set d key raw
      set_policy d key raw (some secs) = redis.set_ex d key raw (max (secs - as_secs now_sys) 1)

      unfoldable pub redis_put : D → ClientId → StoredManualPolicy → D × Result Text (Unit {0})
      redis_put d c p =
          and_then (d, encode p) (λ e raw. set_policy e (policy_key c) raw p.until_unix_secs)

      -- `ManualPolicyStore for RedisStore`
      abbrev pub redis_store : ManualPolicyStore D
      redis_store = record {
        load_all = λ d. redis_load_all encode decode d prefix_policy;
        put = redis_put;
        remove = λ d c. redis.del d (policy_key c ∷ []);
      }

    -- `ClientStatsStore for RedisStore`
    abbrev pub redis_stats :
        (StoredClientStats → Result Text Text)
        → (Text → Result Text StoredClientStats)
        → ClientStatsStore D
    redis_stats encode decode = record {
      load_all = λ d. redis_load_all encode decode d prefix_stats;
      put_batch = λ d stats. put_batch encode decode stats d;
    }
