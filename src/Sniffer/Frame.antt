-- ===== src/Sniffer/Frame.antt =====
-- crates/microwaf/src/sniffer.rs: `handle_frame` with both dispatchers on the daemon's state, the
-- flow table and the marked connections.
use microwaf.Prelude.{
  ℕ, ◌+◌, ◌*◌, ◌/◌, ◌%◌, Bool, true, false, ◌&&◌, Option, none, some, List, [], ◌∷◌, length, ltb,
  leb, nat_beq, nat_eq, list_eq, pair_eq, get_or, take, drop, not, if◌then◌else◌,
}
use microwaf.Prelude.Text.{Text}
use microwaf.Prelude.Utf8.{as_bytes}
use microwaf.HashMap.{insert, contains_key}
use microwaf.Time.{Instant}
use microwaf.Client.{ClientId, v4}
use microwaf.Rule.{matching, Protocol, http, web_socket, z21, withrottle, udp, tcp}
use microwaf.Counters.{CounterStore, add_ws_connection}
use microwaf.Cel.{MatchContext, CelContext, CelValue}
use microwaf.Flow.{FlowTable}
use microwaf.Detect.Ws.{detect_ws_frame}
use microwaf.Detect.Http.{HttpRequestLine, detect_http_request}
use microwaf.Detect.Withrottle.{WithrottleLine, detect_withrottle_lines}
use microwaf.Detect.Z21.{Z21Record, detect_z21_records}
use microwaf.State.{DaemonState, rules, sets}
use microwaf.Sniffer.Defs.{
  UtcTime, WsConns, Packet, ws_key, frame_ctx, request_ctx, line_ctx, record_ctx, common_ctx,
  count_rules, generic_rules,
}

-- the state that a packet may change
pub record Sniffer (P : Type 0) : Type 0 where
  pub state : DaemonState P
  pub flows : FlowTable
  pub ws_conns : WsConns

-- the client that a frame comes from
abbrev pub frame_client : List ℕ → ClientId
frame_client frame = record {
  mac = take 6 (drop 6 frame);
  ip = v4 (take 4 (drop 12 (drop 14 frame)));
}

-- `u16::from_be_bytes([b[i], b[i + 1]])`
abbrev pub be16 : List ℕ → ℕ → ℕ
be16 b i = get_or b i 0 * 256 + get_or b (i + 1) 0

module _ {P : Type 0} (execute : P → CelContext → Option CelValue) (show_v6 : List ℕ → Text) where
  abbrev pub packet_ctx : Packet → DaemonState P → MatchContext
  packet_ctx p s = common_ctx show_v6 p.client p.dport (sets s) p.utc

  abbrev pub with_counters : Sniffer P → CounterStore → Sniffer P
  with_counters s c = record s { state = record s.state { counters = c } }

  -- the loop over the rules of a parsed protocol
  abbrev pub count_protocol :
      {M : Type 0}
      → Packet
      → Protocol
      → (M → ℕ)
      → (M → MatchContext)
      → List M
      → Sniffer P
      → Sniffer P
  count_protocol p proto amount ctx ms s = with_counters s (
      count_rules execute p.client amount ctx ms (matching (rules s.state) proto p.dport)
        s.state.counters)

  -- the generic rules of a transport protocol
  abbrev pub count_generic : Packet → Protocol → ℕ → Bool → Sniffer P → Sniffer P
  count_generic p proto number opens s =
      let (c, flows1) =
        generic_rules execute p number opens (packet_ctx p s.state)
          (matching (rules s.state) proto p.dport) (s.state.counters, s.flows) in
      record (with_counters s c) { flows = flows1 }

  -- a segment of a marked connection
  unfoldable pub ws_segment : Packet → Sniffer P → Sniffer P
  ws_segment p s = elim (detect_ws_frame p.payload) [
    | none ↦ s
    | some f ↦
        count_protocol p web_socket (λ _. length p.payload) (frame_ctx (packet_ctx p s.state))
          (f ∷ []) s
  ]

  -- an HTTP request: an upgrade marks the connection, and is not counted by a rule
  unfoldable pub http_segment : Packet → HttpRequestLine → Sniffer P → Sniffer P
  http_segment p r s =
      if r.upgrade_ws
      then record (with_counters s (add_ws_connection s.state.counters p.client)) {
        ws_conns = insert (ws_key p) tt s.ws_conns;
      }
      else count_protocol p http (λ _. length p.payload) (request_ctx (packet_ctx p s.state))
          (r ∷ []) s

  -- WiThrottle lines, if there are any
  unfoldable pub line_segment : Packet → Sniffer P → Sniffer P
  line_segment p s =
      count_protocol p withrottle (λ (l : WithrottleLine). length (as_bytes l.command))
        (line_ctx (packet_ctx p s.state)) (detect_withrottle_lines p.payload) s

  -- past the generic rules
  unfoldable pub tcp_payload : Packet → Sniffer P → Sniffer P
  tcp_payload p s =
      if contains_key (ws_key p) s.ws_conns
      then ws_segment p s
      else elim (detect_http_request p.payload) [
        | none ↦ line_segment p s
        | some r ↦ http_segment p r s
      ]

  -- `dispatch_tcp`
  unfoldable pub dispatch_tcp : Packet → Sniffer P → Sniffer P
  dispatch_tcp p s = tcp_payload p (count_generic p tcp 6 p.syn s)

  -- `dispatch_udp`
  unfoldable pub dispatch_udp : Packet → Sniffer P → Sniffer P
  dispatch_udp p s =
      count_protocol p z21 (λ (r : Z21Record). r.data_len) (record_ctx (packet_ctx p s.state))
        (detect_z21_records p.payload) (count_generic p udp 17 true s)

  abbrev pub packet_of : List ℕ → List ℕ → List ℕ → Bool → List ℕ → Instant → UtcTime → Packet
  packet_of frame ip l4 syn payload now utc = record {
    client = frame_client frame;
    src = take 4 (drop 12 ip);
    sport = be16 l4 0;
    dst = take 4 (drop 16 ip);
    dport = be16 l4 2;
    syn = syn;
    payload = payload;
    now = now;
    utc = utc;
  }

  -- a SYN without ACK
  abbrev is_syn : List ℕ → Bool
  is_syn l4 = nat_beq (get_or l4 13 0 / 2 % 2) 1 && nat_beq (get_or l4 13 0 / 16 % 2) 0

  abbrev tcp_data : List ℕ → List ℕ
  tcp_data l4 =
      let data_off = get_or l4 12 0 / 16 * 4 in
      if ltb data_off (length l4) then drop data_off l4 else []

  -- the `match` on the protocol number
  unfoldable pub handle_l4 : List ℕ → List ℕ → List ℕ → Instant → UtcTime → Sniffer P → Sniffer P
  handle_l4 frame ip l4 now utc s =
      if nat_beq (get_or ip 9 0) 6 && leb 20 (length l4)
      then dispatch_tcp (packet_of frame ip l4 (is_syn l4) (tcp_data l4) now utc) s
      else if nat_beq (get_or ip 9 0) 17 && leb 8 (length l4)
      then dispatch_udp (packet_of frame ip l4 false (drop 8 l4) now utc) s
      else s

  -- `handle_frame`
  unfoldable pub handle_frame : List ℕ → Instant → UtcTime → Sniffer P → Sniffer P
  handle_frame frame now utc s =
      if ltb (length frame) 14
      then s
      else if not (nat_beq (be16 frame 12) 0x0800)
      then s
      else let ip = drop 14 frame in
        let ihl = get_or ip 0 0 % 16 * 4 in
        if ltb (length ip) 20
        then s
        else if ltb (length ip) ihl
        then s
        else handle_l4 frame ip (drop ihl ip) now utc s
