-- ===== src/Sniffer/Tracked.antt =====
-- What every addition to the counters keeps, a frame keeps.
use microwaf.Prelude.{
  ℕ, Bool, true, false, ◌&&◌, Option, List, [], ◌∷◌, length, ltb, ◌==◌, nat_eq, list_eq,
  if◌then◌else◌, Bool-cases, inl, inr, Option-cases, pair_eq,
}
use microwaf.HashMap.{contains_key}
use microwaf.Time.{Instant}
use microwaf.Client.{ClientId, client_eq}
use microwaf.Rule.{Rule, RuleId, Metric, metric_eq, tcp}
use microwaf.Counters.{
  CounterStore, key_eq, add, add_requests, add_bytes, add_connections, add_ws_connection,
}
use microwaf.Cel.{MatchContext, CelContext, CelValue, match_ok}
use microwaf.Flow.{FlowKey, FlowTable, observe}
use microwaf.Sniffer.Defs.{
  Packet, count_parsed, count_messages, count_rules, open_flow, count_bytes, generic_rule,
  generic_rules, count_flow, flow_key, UtcTime, ws_key,
}
use microwaf.Prelude.Text.{Text}
use microwaf.Detect.Ws.{detect_ws_frame}
use microwaf.Detect.Http.{HttpRequestLine, detect_http_request}
use microwaf.Sniffer.Cases.{handle_frame_cases}
use mathlib.Core.Path.{subst}
use microwaf.Sniffer.Frame.{
  Sniffer, frame_client, dispatch_tcp, dispatch_udp, handle_frame, count_generic, tcp_payload,
  ws_segment, http_segment, line_segment,
}

-- A relation between the counters before and after something that a client does, which each addition
-- for that client satisfies.
pub record Tracked (R : ClientId → CounterStore → CounterStore → Type 0) : Type 0 where
  pub same : (c : ClientId) (a : CounterStore) → R c a a
  pub join : (c : ClientId) (x y z : CounterStore) → R c x y → R c y z → R c x z
  pub adds :
      (s : CounterStore) (c : ClientId) (i : RuleId) (req bytes conn : ℕ)
      → R c s (add s c i req bytes conn)
  pub marks : (s : CounterStore) (c : ClientId) → R c s (add_ws_connection s c)

module _ {R : ClientId → CounterStore → CounterStore → Type 0} (rel : Tracked R) where
  -- The three additions that the sniffer makes.
  add_requests-Tracked :
      (s : CounterStore) (c : ClientId) (i : RuleId) (n : ℕ) → R c s (add_requests s c i n)
  unfolding add_requests
  add_requests-Tracked s c i n = rel.adds s c i n 0 0

  add_bytes-Tracked :
      (s : CounterStore) (c : ClientId) (i : RuleId) (n : ℕ) → R c s (add_bytes s c i n)
  unfolding add_bytes
  add_bytes-Tracked s c i n = rel.adds s c i 0 n 0

  add_connections-Tracked :
      (s : CounterStore) (c : ClientId) (i : RuleId) (n : ℕ) → R c s (add_connections s c i n)
  unfolding add_connections
  add_connections-Tracked s c i n = rel.adds s c i 0 0 n

  either : (c : ClientId) (b : Bool) (x y : CounterStore) → R c x y → R c x (if b then y else x)
  either c true x y h = h
  either c false x y h = rel.same c x

  count_parsed-Tracked :
      {P : Type 0} (c : ClientId) (n : ℕ) (r : Rule P) (b : Bool) (s : CounterStore)
      → R c s (count_parsed c n r b s)
  unfolding count_parsed
  count_parsed-Tracked c n r b s =
      let c1 = if r.metric == Metric.requests then add_requests s c r.id 1 else s in
      either c b s (if r.metric == Metric.bytes then add_bytes c1 c r.id n else c1) (
        rel.join c s c1 (if r.metric == Metric.bytes then add_bytes c1 c r.id n else c1)
          (either c (r.metric == Metric.requests) s (add_requests s c r.id 1)
            (add_requests-Tracked s c r.id 1))
          (either c (r.metric == Metric.bytes) c1 (add_bytes c1 c r.id n)
            (add_bytes-Tracked c1 c r.id n)))

  module _ {P : Type 0} (execute : P → CelContext → Option CelValue) where
    count_messages-Tracked :
        {M : Type 0} (c : ClientId) (amount : M → ℕ) (ctx : M → MatchContext) (r : Rule P)
        (ms : List M) (s : CounterStore)
        → R c s (count_messages execute c amount ctx r ms s)
    unfolding count_messages
    count_messages-Tracked c amount ctx r [] s = rel.same c s
    count_messages-Tracked c amount ctx r (m ∷ ms) s =
        let s1 = count_parsed c (amount m) r (match_ok execute r (ctx m)) s in
        rel.join c s s1 (count_messages execute c amount ctx r ms s1)
          (count_parsed-Tracked c (amount m) r (match_ok execute r (ctx m)) s)
          (count_messages-Tracked c amount ctx r ms s1)

    pub count_rules-Tracked :
        {M : Type 0} (c : ClientId) (amount : M → ℕ) (ctx : M → MatchContext) (ms : List M)
        (rs : List (Rule P)) (s : CounterStore)
        → R c s (count_rules execute c amount ctx ms rs s)
    unfolding count_rules
    count_rules-Tracked c amount ctx ms [] s = rel.same c s
    count_rules-Tracked c amount ctx ms (r ∷ rs) s =
        let s1 = count_messages execute c amount ctx r ms s in
        rel.join c s s1 (count_rules execute c amount ctx ms rs s1)
          (count_messages-Tracked c amount ctx r ms s) (count_rules-Tracked c amount ctx ms rs s1)

    open_flow-Tracked :
        (c : ClientId) (key : FlowKey) (now : Instant) (ctx : MatchContext) (r : Rule P)
        (s : CounterStore × FlowTable)
        → R c s.0 (open_flow execute c key now ctx r s).0
    unfolding open_flow
    open_flow-Tracked c key now ctx r (s, flows) =
        either c ((observe flows key now).1 && match_ok execute r ctx) s
          (add_connections s c r.id 1) (add_connections-Tracked s c r.id 1)

    count_flow-Tracked :
        (p : Packet) (proto : ℕ) (opens : Bool) (ctx : MatchContext) (r : Rule P)
        (s : CounterStore × FlowTable)
        → R p.client s.0 (count_flow execute p proto opens ctx r s).0
    unfolding count_flow
    count_flow-Tracked p proto opens ctx r s =
        elim (Bool-cases (r.metric == Metric.connections && opens)) [
          | inl h ↦ rw h (open_flow-Tracked p.client (flow_key p proto) p.now ctx r s)
          | inr h ↦ rw h (rel.same p.client s.0)
        ]

    count_bytes-Tracked :
        (c : ClientId) (n : ℕ) (ctx : MatchContext) (r : Rule P) (s : CounterStore)
        → R c s (count_bytes execute c n ctx r s)
    unfolding count_bytes
    count_bytes-Tracked c n ctx r s =
        either c (r.metric == Metric.bytes && ltb 0 n && match_ok execute r ctx) s
          (add_bytes s c r.id n) (add_bytes-Tracked s c r.id n)

    generic_rule-Tracked :
        (p : Packet) (proto : ℕ) (opens : Bool) (ctx : MatchContext) (r : Rule P)
        (s : CounterStore × FlowTable)
        → R p.client s.0 (generic_rule execute p proto opens ctx r s).0
    unfolding generic_rule
    generic_rule-Tracked p proto opens ctx r s =
        let t = count_flow execute p proto opens ctx r s in
        rel.join p.client s.0 t.0 (count_bytes execute p.client (length p.payload) ctx r t.0)
          (count_flow-Tracked p proto opens ctx r s)
          (count_bytes-Tracked p.client (length p.payload) ctx r t.0)

    pub generic_rules-Tracked :
        (p : Packet) (proto : ℕ) (opens : Bool) (ctx : MatchContext) (rs : List (Rule P))
        (s : CounterStore × FlowTable)
        → R p.client s.0 (generic_rules execute p proto opens ctx rs s).0
    unfolding generic_rules
    generic_rules-Tracked p proto opens ctx [] s = rel.same p.client s.0
    generic_rules-Tracked p proto opens ctx (r ∷ rs) s =
        let s1 = generic_rule execute p proto opens ctx r s in
        rel.join p.client s.0 s1.0 (generic_rules execute p proto opens ctx rs s1).0
          (generic_rule-Tracked p proto opens ctx r s)
          (generic_rules-Tracked p proto opens ctx rs s1)

  module _ {P : Type 0} (execute : P → CelContext → Option CelValue) (show_v6 : List ℕ → Text) where
    dispatch_udp-Tracked :
        (p : Packet) (s : Sniffer P)
        → R p.client s.state.counters (dispatch_udp execute show_v6 p s).state.counters
    unfolding dispatch_udp
    dispatch_udp-Tracked p s =
        rel.join p.client s.state.counters _ _
          (generic_rules-Tracked execute p 17 true _ _ (s.state.counters, s.flows))
          (count_rules-Tracked execute p.client _ _ _ _ _)

    ws_segment-Tracked :
        (p : Packet) (s : Sniffer P)
        → R p.client s.state.counters (ws_segment execute show_v6 p s).state.counters
    unfolding ws_segment
    ws_segment-Tracked p s = elim (Option-cases (detect_ws_frame p.payload)) [
      | inl n ↦ rw (n, ws_segment) (rel.same p.client s.state.counters)
      | inr (f, n) ↦ rw (n, ws_segment) (count_rules-Tracked execute p.client _ _ _ _ _)
    ]

    http_segment-Tracked :
        (p : Packet) (r : HttpRequestLine) (s : Sniffer P)
        → R p.client s.state.counters (http_segment execute show_v6 p r s).state.counters
    unfolding http_segment
    http_segment-Tracked p r s = elim (Bool-cases r.upgrade_ws) [
      | inl h ↦ rw (h, http_segment) (rel.marks s.state.counters p.client)
      | inr h ↦ rw (h, http_segment) (count_rules-Tracked execute p.client _ _ _ _ _)
    ]

    tcp_payload-Tracked :
        (p : Packet) (s : Sniffer P)
        → R p.client s.state.counters (tcp_payload execute show_v6 p s).state.counters
    unfolding tcp_payload line_segment
    tcp_payload-Tracked p s = elim (Bool-cases (contains_key (ws_key p) s.ws_conns)) [
      | inl h ↦ rw (h, tcp_payload) (ws_segment-Tracked p s)
      | inr h ↦
          rw (h, tcp_payload)
            (elim (Option-cases (detect_http_request p.payload)) [
              | inl n ↦ rw (n, line_segment) (count_rules-Tracked execute p.client _ _ _ _ _)
              | inr (r, n) ↦ rw n (http_segment-Tracked p r s)
            ])
    ]

    dispatch_tcp-Tracked :
        (p : Packet) (s : Sniffer P)
        → R p.client s.state.counters (dispatch_tcp execute show_v6 p s).state.counters
    unfolding dispatch_tcp
    dispatch_tcp-Tracked p s =
        rel.join p.client s.state.counters _ _
          (generic_rules-Tracked execute p 6 p.syn _ _ (s.state.counters, s.flows))
          (tcp_payload-Tracked p (count_generic execute show_v6 p tcp 6 p.syn s))

    pub handle_frame-Tracked :
        (frame : List ℕ) (now : Instant) (utc : UtcTime) (s : Sniffer P)
        → R
            (frame_client frame)
            s.state.counters
            (handle_frame execute show_v6 frame now utc s).state.counters
    handle_frame-Tracked frame now utc s =
        handle_frame_cases execute show_v6
          (λ t. R (frame_client frame) s.state.counters t.state.counters) frame now utc s
          (rel.same (frame_client frame) s.state.counters)
          (λ p h.
            subst (λ c. R c s.state.counters (dispatch_tcp execute show_v6 p s).state.counters) h
              (dispatch_tcp-Tracked p s))
          (λ p h.
            subst (λ c. R c s.state.counters (dispatch_udp execute show_v6 p s).state.counters) h
              (dispatch_udp-Tracked p s))
