-- ===== src/Flow/Defs.antt =====
-- crates/microwaf/src/sniffer.rs: `FlowTable`, which counts new flows.
use microwaf.Prelude.{
  ℕ, ◌≡◌, ◌↔◌, Bool, true, false, ◌&&◌, Option, none, some, List, [], ◌∷◌, length, ltb, leb, Eq,
  nat_beq, nat_eq, list_beq, list_beq_iff, if◌then◌else◌, arith,
}
use microwaf.HashMap.{HashMap, insert, remove, retain, contains_key}
use microwaf.Time.{Instant, Duration, duration_since, from_secs}

-- IPv4 addresses are their four octets.
pub record FlowKey : Type 0 where
  pub src : List ℕ
  pub sport : ℕ
  pub dst : List ℕ
  pub dport : ℕ
  pub proto : ℕ

abbrev pub flow_beq : FlowKey → FlowKey → Bool
flow_beq a b =
    list_beq a.src b.src
    && nat_beq a.sport b.sport
    && list_beq a.dst b.dst
    && nat_beq a.dport b.dport
    && nat_beq a.proto b.proto

pub flow_beq_iff : (a b : FlowKey) → (flow_beq a b ≡ true) ↔ (a ≡ b)
flow_beq_iff a b = ground (arith, list_beq_iff a.src b.src, list_beq_iff a.dst b.dst)

instance abbrev pub flow_eq : Eq FlowKey
flow_eq = record { beq = flow_beq; beq_iff = flow_beq_iff }

pub record FlowTable : Type 0 where
  pub flows : HashMap FlowKey Instant
  pub max : ℕ
  pub idle : Duration

-- `FlowTable::new`
unfoldable pub new_flows : FlowTable
new_flows = record { flows = []; max = 8192; idle = from_secs 60 }

-- `min_by_key(|(_, t)| *t)`: the first of the oldest entries
abbrev older : FlowKey × Instant → Option (FlowKey × Instant) → Option (FlowKey × Instant)
older e none = some e
older e (some f) = if leb e.1 f.1 then some e else some f

unfoldable pub oldest : HashMap FlowKey Instant → Option (FlowKey × Instant)
oldest [] = none
oldest (e ∷ m) = older e (oldest m)

-- drops the oldest flow of a full table
unfoldable pub make_room : ℕ → HashMap FlowKey Instant → HashMap FlowKey Instant
make_room limit m =
    if leb limit (length m) then elim (oldest m) [ none ↦ m | some e ↦ remove e.0 m ] else m

-- the flows that are not idle
abbrev pub live_flows : FlowTable → Instant → HashMap FlowKey Instant
live_flows t now = retain (λ at. ltb (duration_since now at) t.idle) t.flows

-- `FlowTable::observe`: the table, and whether the flow is new
unfoldable pub observe : FlowTable → FlowKey → Instant → FlowTable × Bool
observe t key now =
    let live = live_flows t now in
    if contains_key key live
    then (record t { flows = insert key now live }, false)
    else (record t { flows = insert key now (make_room t.max live) }, true)
