-- ===== src/Counters/Defs.antt =====
-- crates/mw-core/src/counters.rs: `CounterStore`. A mutex holds the map that it guards; a method
-- takes both locks one after the other, and is one step here.
use microwaf.Prelude.{
  ℕ, ◌≡◌, ◌↔◌, Bool, true, ◌&&◌, [], saturating_add, Eq, nat_eq, list_eq, list_beq, list_beq_iff,
  arith,
}
use microwaf.HashMap.{HashMap, insert, find_or}
use microwaf.Client.{ClientId, client_eq, client_beq, client_beq_iff}
use microwaf.Rule.{RuleId}

pub record CumulativeCounters : Type 0 where
  pub requests : ℕ
  pub bytes : ℕ
  pub connections : ℕ
  pub ws_connections : ℕ

-- `CumulativeCounters::default()`
abbrev pub no_counts : CumulativeCounters
no_counts = record { requests = 0; bytes = 0; connections = 0; ws_connections = 0 }

pub record CounterKey : Type 0 where
  pub client : ClientId
  pub rule_id : RuleId

abbrev pub key_beq : CounterKey → CounterKey → Bool
key_beq j k = client_beq j.client k.client && list_beq j.rule_id k.rule_id

pub key_beq_iff : (j k : CounterKey) → (key_beq j k ≡ true) ↔ (j ≡ k)
key_beq_iff j k = ground (arith, client_beq_iff j.client k.client, list_beq_iff j.rule_id k.rule_id)

instance abbrev pub key_eq : Eq CounterKey
key_eq = record { beq = key_beq; beq_iff = key_beq_iff }

-- (requests, bytes, connections)
abbrev pub Counts : Type 0
Counts = ℕ × ℕ × ℕ

pub record CounterStore : Type 0 where
  pub by_rule : HashMap CounterKey Counts
  pub by_client : HashMap ClientId CumulativeCounters

-- `CounterStore::default()`
abbrev pub no_counters : CounterStore
no_counters = record { by_rule = []; by_client = [] }

abbrev pub add_counts : Counts → ℕ → ℕ → ℕ → Counts
add_counts (r, b, c) req bytes conn =
    (saturating_add r req, saturating_add b bytes, saturating_add c conn)

abbrev pub add_cumulative : CumulativeCounters → ℕ → ℕ → ℕ → CumulativeCounters
add_cumulative e req bytes conn = record e {
  requests = saturating_add e.requests req;
  bytes = saturating_add e.bytes bytes;
  connections = saturating_add e.connections conn;
}

abbrev pub key_of : ClientId → RuleId → CounterKey
key_of client rule_id = record { client = client; rule_id = rule_id }

-- `CounterStore::add`
unfoldable pub add : CounterStore → ClientId → RuleId → ℕ → ℕ → ℕ → CounterStore
add s client rule_id req bytes conn =
    let key = key_of client rule_id in
    record {
      by_rule = insert key (add_counts (find_or (0, 0, 0) key s.by_rule) req bytes conn) s.by_rule;
      by_client =
          insert client (add_cumulative (find_or no_counts client s.by_client) req bytes conn)
            s.by_client;
    }

-- `CounterStore::add_requests`, `add_bytes` and `add_connections`
unfoldable pub add_requests : CounterStore → ClientId → RuleId → ℕ → CounterStore
add_requests s client rule_id n = add s client rule_id n 0 0

unfoldable pub add_bytes : CounterStore → ClientId → RuleId → ℕ → CounterStore
add_bytes s client rule_id n = add s client rule_id 0 n 0

unfoldable pub add_connections : CounterStore → ClientId → RuleId → ℕ → CounterStore
add_connections s client rule_id n = add s client rule_id 0 0 n

-- `CounterStore::add_ws_connection`
unfoldable pub add_ws_connection : CounterStore → ClientId → CounterStore
add_ws_connection s client =
    let e = find_or no_counts client s.by_client in
    record s {
      by_client =
          insert client (record e { ws_connections = saturating_add e.ws_connections 1 })
            s.by_client;
    }

-- `CounterStore::get_rule`
unfoldable pub get_counts : CounterStore → ClientId → RuleId → Counts
get_counts s client rule_id = find_or (0, 0, 0) (key_of client rule_id) s.by_rule

-- `CounterStore::snapshot_rules` and `snapshot_clients`
abbrev pub snapshot_rules : CounterStore → HashMap CounterKey Counts
snapshot_rules s = s.by_rule

abbrev pub snapshot_clients : CounterStore → HashMap ClientId CumulativeCounters
snapshot_clients s = s.by_client
