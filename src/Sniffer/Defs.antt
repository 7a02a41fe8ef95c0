-- ===== src/Sniffer/Defs.antt =====
-- crates/microwaf/src/sniffer.rs: `dispatch_tcp` and `dispatch_udp`. The CEL library is the parameter
-- `execute`, the text of an IPv6 address `show_v6`. A packet is handled at one reading of the clocks.
use microwaf.Prelude.{
  ℕ, Bool, ◌&&◌, Option, List, [], ◌∷◌, length, ltb, ◌==◌, nat_eq, list_eq, pair_eq, if◌then◌else◌,
}
use microwaf.Prelude.Text.{Text, codes}
use microwaf.HashMap.{HashMap}
use microwaf.Time.{Instant}
use microwaf.Client.{ClientId, mac_string, ip_string}
use microwaf.Rule.{Rule, Metric, metric_eq}
use microwaf.Config.{SetsConfig}
use microwaf.Counters.{CounterStore, add_requests, add_bytes, add_connections}
use microwaf.Cel.{
  MatchContext, empty_context, set_str, set_int, set_bool, CelContext, CelValue, match_ok,
}
use microwaf.Flow.{FlowKey, FlowTable, observe}
use microwaf.Detect.Ws.{WsFrameHeader}
use microwaf.Detect.Http.{HttpRequestLine}
use microwaf.Detect.Withrottle.{WithrottleLine}
use microwaf.Detect.Z21.{Z21Record}
use microwaf.State.{sets}

-- the fields of `chrono::Utc::now()` that a rule sees
pub record UtcTime : Type 0 where
  pub timestamp : ℕ
  pub hour : ℕ
  pub num_days_from_sunday : ℕ

-- the ends of a TCP connection, and `WsConns`
abbrev pub WsKey : Type 0
WsKey = (List ℕ × ℕ) × (List ℕ × ℕ)

abbrev pub WsConns : Type 0
WsConns = HashMap WsKey (Unit {0})

-- the arguments that `handle_frame` reads from a packet
pub record Packet : Type 0 where
  pub client : ClientId
  pub src : List ℕ
  pub sport : ℕ
  pub dst : List ℕ
  pub dport : ℕ
  pub syn : Bool
  pub payload : List ℕ
  pub now : Instant
  pub utc : UtcTime

abbrev pub flow_key : Packet → ℕ → FlowKey
flow_key p proto = record {
  src = p.src;
  sport = p.sport;
  dst = p.dst;
  dport = p.dport;
  proto = proto;
}

abbrev pub ws_key : Packet → WsKey
ws_key p = ((p.src, p.sport), (p.dst, p.dport))

-- the contexts of the three kinds of messages, from the common one
unfoldable pub frame_ctx : MatchContext → WsFrameHeader → MatchContext
frame_ctx ctx f =
    set_int (set_int (set_bool ctx (codes "frame.fin") f.fin) (codes "frame.opcode") f.opcode)
      (codes "frame.payloadLen") f.payload_len

unfoldable pub request_ctx : MatchContext → HttpRequestLine → MatchContext
request_ctx ctx r =
    set_str (set_str ctx (codes "request.method") r.method) (codes "request.path") r.path

unfoldable pub line_ctx : MatchContext → WithrottleLine → MatchContext
line_ctx ctx l =
    set_str
      (set_str (set_str ctx (codes "withrottle.prefix") l.prefix) (codes "withrottle.throttle")
        l.throttle)
      (codes "withrottle.command") l.command

unfoldable pub record_ctx : MatchContext → Z21Record → MatchContext
record_ctx ctx r =
    set_int (set_int (set_int ctx (codes "z21.header") r.header) (codes "z21.xheader") r.xheader)
      (codes "z21.dataLen") r.data_len

module _ (show_v6 : List ℕ → Text) where
  -- `common_ctx`
  unfoldable pub common_ctx : ClientId → ℕ → SetsConfig → UtcTime → MatchContext
  common_ctx client port sets utc =
      record (set_int
        (set_int
          (set_int
            (set_int
              (set_str (set_str empty_context (codes "client.mac") (mac_string client))
                (codes "client.ip") (ip_string show_v6 client.ip))
              (codes "port") port)
            (codes "time.epoch") utc.timestamp)
          (codes "time.hour") utc.hour)
        (codes "time.dow") utc.num_days_from_sunday) { sets = sets }

-- one message that a parsed rule matches: `amount` bytes of payload count for it
unfoldable pub count_parsed :
    {P : Type 0} → ClientId → ℕ → Rule P → Bool → CounterStore → CounterStore
count_parsed client amount r matches c =
    let c1 = if r.metric == Metric.requests then add_requests c client r.id 1 else c in
    let c2 = if r.metric == Metric.bytes then add_bytes c1 client r.id amount else c1 in
    if matches then c2 else c

module _ {P : Type 0} (execute : P → CelContext → Option CelValue) where
  -- the loop over the messages of a packet, for one rule
  unfoldable pub count_messages :
      {M : Type 0}
      → ClientId
      → (M → ℕ)
      → (M → MatchContext)
      → Rule P
      → List M
      → CounterStore
      → CounterStore
  count_messages client amount ctx r [] c = c
  count_messages client amount ctx r (m ∷ ms) c =
      count_messages client amount ctx r ms
        (count_parsed client (amount m) r (match_ok execute r (ctx m)) c)

  -- the loop over the rules of a protocol
  unfoldable pub count_rules :
      {M : Type 0}
      → ClientId
      → (M → ℕ)
      → (M → MatchContext)
      → List M
      → List (Rule P)
      → CounterStore
      → CounterStore
  count_rules client amount ctx ms [] c = c
  count_rules client amount ctx ms (r ∷ rs) c =
      count_rules client amount ctx ms rs (count_messages client amount ctx r ms c)

  -- a generic rule on a packet that may open a flow
  unfoldable pub open_flow :
      ClientId
      → FlowKey
      → Instant
      → MatchContext
      → Rule P
      → CounterStore × FlowTable
      → CounterStore × FlowTable
  open_flow client key now ctx r (c, flows) =
      let (flows1, fresh) = observe flows key now in
      (if fresh && match_ok execute r ctx then add_connections c client r.id 1 else c, flows1)

  -- the connection part of a generic rule; `opens` says that the packet may open a flow
  unfoldable pub count_flow :
      Packet
      → ℕ
      → Bool
      → MatchContext
      → Rule P
      → CounterStore × FlowTable
      → CounterStore × FlowTable
  count_flow p proto opens ctx r s =
      if r.metric == Metric.connections && opens
      then open_flow p.client (flow_key p proto) p.now ctx r s
      else s

  -- the byte part
  unfoldable pub count_bytes : ClientId → ℕ → MatchContext → Rule P → CounterStore → CounterStore
  count_bytes client byte_len ctx r c =
      if r.metric == Metric.bytes && ltb 0 byte_len && match_ok execute r ctx
      then add_bytes c client r.id byte_len
      else c

  -- one generic rule
  unfoldable pub generic_rule :
      Packet
      → ℕ
      → Bool
      → MatchContext
      → Rule P
      → CounterStore × FlowTable
      → CounterStore × FlowTable
  generic_rule p proto opens ctx r s =
      let (c, flows) = count_flow p proto opens ctx r s in
      (count_bytes p.client (length p.payload) ctx r c, flows)

  -- `for rule in rules.matching(Protocol::Tcp, dport)`, and the same for UDP
  unfoldable pub generic_rules :
      Packet
      → ℕ
      → Bool
      → MatchContext
      → List (Rule P)
      → CounterStore × FlowTable
      → CounterStore × FlowTable
  generic_rules p proto opens ctx [] s = s
  generic_rules p proto opens ctx (r ∷ rs) s =
      generic_rules p proto opens ctx rs (generic_rule p proto opens ctx r s)
