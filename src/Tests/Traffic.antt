-- ===== src/Tests/Traffic.antt =====
-- Examples: the XDP program, the flow table and the sniffer.
use microwaf.Prelude.{◌≡◌, ◌<◌, ◌↔◌, refl, true, false, some, [], ◌∷◌, drop, nat_eq, list_eq, arith}
use microwaf.Prelude.Text.{codes}
use microwaf.HashMap.{get}
use microwaf.Time.{Instant, from_secs, duration_since}
use microwaf.Counters.{no_counters}
use microwaf.Cel.{empty_context}
use microwaf.Flow.{FlowKey, flow_eq, FlowTable, observe}
use microwaf.Flow.Bounds.{IsValid, observe_iff}
use microwaf.Xdp.{
  try_microwaf, check_ip, enforce_entry, ClientPolicyEntry, PolicyTable, microwaf_xdp, xdp_drop,
  frame_key,
}
use microwaf.Xdp.Drops.{IsIpv4, Hits, microwaf_xdp_iff}
use microwaf.Sniffer.{handle_frame, Packet, generic_rules, count_flow}
use microwaf.Sniffer.Others.{SameOthers}
use microwaf.Sniffer.Isolation.{handle_frame-others}
use microwaf.Sniffer.Flows.{handle_frame-IsValid}
use microwaf.Sniffer.FirstRule.{generic_rules_first}
use microwaf.Tests.Data.{alice, datagram, fresh_sniffer, fresh_flows, never, no_v6, noon, udp_flows}

-- half of the packets of alice are dropped
abbrev half : PolicyTable
half =
    (
      2 ∷ 0 ∷ 0 ∷ 0 ∷ 0 ∷ 1 ∷ 10 ∷ 0 ∷ 0 ∷ 1 ∷ [],
      record { blocked = 0; drop_rate = 50; until_unix = 0 },
    )
    ∷ []

microwaf_xdp_iff_example : (microwaf_xdp half 149 datagram ≡ xdp_drop) ↔ (
    IsIpv4 datagram
    × ((e : ClientPolicyEntry) × (get (frame_key datagram (drop 14 datagram)) half ≡ some e)
        × Hits e 149))
microwaf_xdp_iff_example = microwaf_xdp_iff half 149 datagram

-- that packet is dropped
dropped : microwaf_xdp half 149 datagram ≡ xdp_drop
unfolding microwaf_xdp try_microwaf check_ip enforce_entry get
dropped = refl

fresh_flows-IsValid : IsValid fresh_flows
fresh_flows-IsValid = record { room = ground arith; bounded = ground arith; distinct = tt }

abbrev flow : FlowKey
flow = record {
  src = 10 ∷ 0 ∷ 0 ∷ 1 ∷ [];
  sport = 1000;
  dst = 10 ∷ 0 ∷ 0 ∷ 9 ∷ [];
  dport = 53;
  proto = 17;
}

abbrev one_flow : FlowTable
one_flow = record fresh_flows { flows = (flow, from_secs 1) ∷ [] }

one_flow-IsValid : IsValid one_flow
unfolding get
one_flow-IsValid = record { room = ground arith; bounded = ground arith; distinct = (refl, tt) }

observe_iff_example :
    ((observe one_flow flow (from_secs 2)).1 ≡ false ↔ (
      (at : Instant) × (get flow one_flow.flows ≡ some at)
      × (duration_since (from_secs 2) at < one_flow.idle)))
    × (get flow (observe one_flow flow (from_secs 2)).0.flows ≡ some (from_secs 2))
observe_iff_example = observe_iff one_flow flow (from_secs 2) one_flow-IsValid

handle_frame-IsValid_example :
    IsValid (handle_frame never no_v6 datagram 5 noon fresh_sniffer).flows
handle_frame-IsValid_example =
    handle_frame-IsValid never no_v6 datagram 5 noon fresh_sniffer fresh_flows-IsValid

handle_frame-others_example :
    SameOthers alice no_counters
      (handle_frame never no_v6 datagram 5 noon fresh_sniffer).state.counters
handle_frame-others_example = handle_frame-others never no_v6 datagram 5 noon fresh_sniffer

abbrev packet : Packet
packet = record {
  client = alice;
  src = 10 ∷ 0 ∷ 0 ∷ 1 ∷ [];
  sport = 1000;
  dst = 10 ∷ 0 ∷ 0 ∷ 9 ∷ [];
  dport = 53;
  syn = false;
  payload = [];
  now = 5;
  utc = noon;
}

-- the second of two rules on the flows of a port does not count the new flow
generic_rules_first_example :
    (generic_rules never packet 17 true empty_context
      (udp_flows (codes "a") ∷ udp_flows (codes "b") ∷ [])
      (no_counters, fresh_flows)).0
    ≡ (generic_rules never packet 17 false empty_context (udp_flows (codes "b") ∷ []) (
        count_flow never packet 17 true empty_context
          (udp_flows (codes "a"))
          (no_counters, fresh_flows))).0
generic_rules_first_example =
    generic_rules_first never packet 17 empty_context (udp_flows (codes "a"))
      (udp_flows (codes "b") ∷ []) no_counters fresh_flows refl fresh_flows-IsValid (ground arith)
