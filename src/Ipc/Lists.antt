-- ===== src/Ipc/Lists.antt =====
-- crates/microwaf/src/ipc.rs: `list_rules` and `list_clients`.
use microwaf.Prelude.{
  ℕ, Bool, false, Option, none, some, List, [], ◌∷◌, ◌++◌, map, nat_eq, list_eq, if◌then◌else◌,
}
use microwaf.Prelude.Text.{Text}
use microwaf.HashMap.{HashMap, get, contains_key}
use microwaf.Time.{Instant}
use microwaf.Client.{ClientId, client_eq, mac_string, ip_string}
use microwaf.Rule.{Rule, Action, protocol_as_str, metric_as_str, window_as_str}
use microwaf.Enforcer.{Mode, permissive, enforce}
use microwaf.Policy.{ClientPolicy, EffectiveAction, merge_policy}
use microwaf.Counters.{CumulativeCounters}
use microwaf.State.{DaemonState, rules}
use microwaf.Ipc.Defs.{ClientRef}
use microwaf.Ipc.Wire.{
  ActionWire, ViolationWire, ClientStatsWire, ClientEntry, ClientsResult, RuleWire,
}

abbrev pub action_to_wire : Action → ActionWire
action_to_wire (Action.throttle rate) = ActionWire.throttle rate
action_to_wire Action.block = ActionWire.block

abbrev pub effective_to_wire : EffectiveAction → ActionWire
effective_to_wire EffectiveAction.none = ActionWire.none
effective_to_wire (EffectiveAction.throttle rate) = ActionWire.throttle rate
effective_to_wire EffectiveAction.block = ActionWire.block

abbrev pub stats_wire : CumulativeCounters → ClientStatsWire
stats_wire s = record {
  requests = s.requests;
  bytes = s.bytes;
  connections = s.connections;
  ws_connections = s.ws_connections;
}

abbrev pub ports_or_empty : Option (List ℕ) → List ℕ
ports_or_empty none = []
ports_or_empty (some ports) = ports

abbrev pub rule_to_wire : {P : Type 0} → Rule P → RuleWire
rule_to_wire r = record {
  id = r.id;
  protocol = protocol_as_str r.protocol;
  ports = ports_or_empty r.ports;
  metric = metric_as_str r.metric;
  window = window_as_str r.window;
  limit = r.limit;
  action = action_to_wire r.action;
  min_threshold = r.min_threshold;
  matcher = r.match_src;
}

-- `list_rules`
unfoldable pub list_rules : {P : Type 0} → DaemonState P → List RuleWire
list_rules s = map rule_to_wire (rules s).rules

-- what would be done: the log's action, or in permissive mode the merged one
abbrev pub would_be_wire : Mode → Option EffectiveAction → EffectiveAction → Option ActionWire
would_be_wire mode (some a) eff = some (effective_to_wire a)
would_be_wire permissive none eff = some (effective_to_wire eff)
would_be_wire enforce none eff = none

abbrev pub option_map : {A B : Type 0} → (A → B) → Option A → Option B
option_map f none = none
option_map f (some a) = some (f a)

-- `client_to_ref`
abbrev pub client_to_ref : (List ℕ → Text) → ClientId → ClientRef
client_to_ref show_v6 c = record { mac = mac_string c; ip = some (ip_string show_v6 c.ip) }

module _ {P : Type 0} where
  module _ (show_v6 : List ℕ → Text) where
    -- an entry, with the merged action
    abbrev pub entry_for :
        DaemonState P → ClientId → EffectiveAction → List ViolationWire → Bool → ClientEntry
    entry_for s c eff violations hot = record {
      client = client_to_ref show_v6 c;
      action = some (effective_to_wire eff);
      would_be_action = would_be_wire s.mode (get c s.would_be) eff;
      violations = violations;
      hot = hot;
      stats = option_map stats_wire (get c s.counters.by_client);
    }

    -- the entries of the clients with policies
    unfoldable pub policy_entries :
        DaemonState P → Instant → HashMap ClientId ClientPolicy → List ClientEntry
    policy_entries s now [] = []
    policy_entries s now ((c, p) ∷ m) =
        entry_for s c (merge_policy p now) [] false ∷ policy_entries s now m

    -- the entries of the counted clients without a policy
    unfoldable pub counted_entries :
        DaemonState P → HashMap ClientId CumulativeCounters → List ClientEntry
    counted_entries s [] = []
    counted_entries s ((c, n) ∷ m) =
        let rest = counted_entries s m in
        if contains_key c s.policies
        then rest
        else record {
          client = client_to_ref show_v6 c;
          action = some ActionWire.none;
          would_be_action = none;
          violations = [];
          hot = false;
          stats = some (stats_wire n);
        }
          ∷ rest

    -- `list_clients`
    unfoldable pub list_clients : DaemonState P → Instant → ClientsResult
    list_clients s now = record {
      clients = policy_entries s now s.policies ++ counted_entries s s.counters.by_client;
      columns = [];
    }
