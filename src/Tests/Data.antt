-- ===== src/Tests/Data.antt =====
-- The clients, rules and states of the examples.
use microwaf.Prelude.{ℕ, Option, none, some, List, [], ◌∷◌}
use microwaf.Prelude.Text.{Text, codes}
use microwaf.Time.{from_secs}
use microwaf.Client.{ClientId, v4}
use microwaf.Rule.{Rule, Metric, Action, udp, per_second}
use microwaf.Counters.{CounterStore, no_counters, key_of}
use microwaf.Config.{default_daemon}
use microwaf.Enforcer.{enforce, bpf_enforcer}
use microwaf.State.{DaemonState, LiveConfig}
use microwaf.Cel.{CelContext, CelValue}
use microwaf.Flow.{FlowTable}
use microwaf.Sniffer.{Sniffer, UtcTime}

abbrev pub alice : ClientId
alice = record { mac = 2 ∷ 0 ∷ 0 ∷ 0 ∷ 0 ∷ 1 ∷ []; ip = v4 (10 ∷ 0 ∷ 0 ∷ 1 ∷ []) }

abbrev pub bob : ClientId
bob = record { mac = 2 ∷ 0 ∷ 0 ∷ 0 ∷ 0 ∷ 2 ∷ []; ip = v4 (10 ∷ 0 ∷ 0 ∷ 2 ∷ []) }

-- a rule on the flows of all UDP ports
abbrev pub udp_flows : Text → Rule (Unit {0})
udp_flows id = record {
  id = id;
  protocol = udp;
  ports = none;
  metric = Metric.connections;
  window = per_second;
  limit = 2;
  action = Action.block;
  min_threshold = 0;
  matcher = none;
  match_src = none;
}

abbrev pub two_rules : List (Rule (Unit {0}))
two_rules = udp_flows (codes "a") ∷ udp_flows (codes "b") ∷ []

abbrev pub live : LiveConfig (Unit {0})
live = record { daemon = default_daemon; sets = []; rules = record { rules = two_rules } }

-- five new flows of alice under the first rule
abbrev pub flooded : CounterStore
flooded = record no_counters { by_rule = (key_of alice (codes "a"), (0, 0, 5)) ∷ [] }

abbrev pub daemon : CounterStore → DaemonState (Unit {0})
daemon counters = record {
  mode = enforce;
  interface = codes "any";
  live = live;
  policies = [];
  windows = [];
  counters = counters;
  last_counters = [];
  would_be = [];
  enforcer = some (bpf_enforcer []);
  started = 0;
}

-- no CEL program runs
abbrev pub never : Unit {0} → CelContext → Option CelValue
never p ctx = none

abbrev pub no_v6 : List ℕ → Text
no_v6 segments = []

abbrev pub noon : UtcTime
noon = record { timestamp = 1700000000; hour = 12; num_days_from_sunday = 3 }

abbrev pub fresh_flows : FlowTable
fresh_flows = record { flows = []; max = 8192; idle = from_secs 60 }

abbrev pub fresh_sniffer : Sniffer (Unit {0})
fresh_sniffer = record { state = daemon no_counters; flows = fresh_flows; ws_conns = [] }

-- a UDP datagram of alice, from port 1000 to port 53
abbrev pub datagram : List ℕ
datagram =
    -- destination MAC, source MAC, ethertype
    0 ∷ 0 ∷ 0 ∷ 0 ∷ 0 ∷ 0 ∷ 2 ∷ 0 ∷ 0 ∷ 0 ∷ 0 ∷ 1 ∷ 8 ∷ 0
    -- IPv4 header
    ∷ 0x45 ∷ 0 ∷ 0 ∷ 28 ∷ 0 ∷ 0 ∷ 0 ∷ 0 ∷ 64 ∷ 17 ∷ 0 ∷ 0 ∷ 10 ∷ 0 ∷ 0 ∷ 1 ∷ 10 ∷ 0 ∷ 0 ∷ 9
    -- UDP header
    ∷ 3 ∷ 232 ∷ 0 ∷ 53 ∷ 0 ∷ 8 ∷ 0 ∷ 0 ∷ []
