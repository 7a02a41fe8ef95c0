-- ===== src/Sniffer/Flows.antt =====
-- What the sniffer keeps of its flow table, and which rule counts a new flow.
use microwaf.Prelude.{
  ℕ, ◌≡◌, refl, Bool, true, ◌&&◌, List, [], ◌∷◌, Option, inl, inr, Option-cases, Bool-cases,
  pair_eq, list_eq, nat_eq, ◌==◌,
}
use microwaf.Prelude.Text.{Text}
use microwaf.HashMap.{contains_key}
use microwaf.Time.{Instant}
use microwaf.Rule.{Rule, Metric, metric_eq, tcp}
use microwaf.Cel.{MatchContext, CelContext, CelValue}
use microwaf.Counters.{CounterStore}
use microwaf.Detect.Ws.{detect_ws_frame}
use microwaf.Detect.Http.{detect_http_request}
use microwaf.Flow.{FlowTable}
use microwaf.Flow.Bounds.{IsValid, observe-IsValid}
use microwaf.Sniffer.Defs.{
  UtcTime, Packet, flow_key, ws_key, open_flow, count_flow, generic_rule, generic_rules,
}
use microwaf.Sniffer.Frame.{
  Sniffer, dispatch_tcp, dispatch_udp, handle_frame, count_generic, tcp_payload, ws_segment,
  http_segment, line_segment,
}
use microwaf.Sniffer.Cases.{handle_frame_cases}

module _ {P : Type 0} (execute : P → CelContext → Option CelValue) where
  count_flow-IsValid :
      (p : Packet) (proto : ℕ) (opens : Bool) (ctx : MatchContext) (r : Rule P)
      (s : CounterStore × FlowTable)
      → IsValid s.1
      → IsValid (count_flow execute p proto opens ctx r s).1
  unfolding count_flow open_flow
  count_flow-IsValid p proto opens ctx r s v =
      elim (Bool-cases (r.metric == Metric.connections && opens)) [
        | inl h ↦ rw (h, count_flow) (observe-IsValid s.1 (flow_key p proto) p.now v)
        | inr h ↦ rw (h, count_flow) v
      ]

  generic_rules-IsValid :
      (p : Packet) (proto : ℕ) (opens : Bool) (ctx : MatchContext) (rs : List (Rule P))
      (s : CounterStore × FlowTable)
      → IsValid s.1
      → IsValid (generic_rules execute p proto opens ctx rs s).1
  unfolding generic_rules generic_rule
  generic_rules-IsValid p proto opens ctx [] s v = v
  generic_rules-IsValid p proto opens ctx (r ∷ rs) s v =
      generic_rules-IsValid p proto opens ctx rs (generic_rule execute p proto opens ctx r s)
        (count_flow-IsValid p proto opens ctx r s v)

module _ {P : Type 0} (execute : P → CelContext → Option CelValue) (show_v6 : List ℕ → Text) where
  -- Only the generic rules touch the flows.
  tcp_payload-flows :
      (p : Packet) (s : Sniffer P) → (tcp_payload execute show_v6 p s).flows ≡ s.flows
  unfolding tcp_payload line_segment ws_segment http_segment
  tcp_payload-flows p s = elim (Bool-cases (contains_key (ws_key p) s.ws_conns)) [
    | inl h ↦
        rw (h, tcp_payload)
          (elim (Option-cases (detect_ws_frame p.payload)) [
            | inl n ↦ rw (n, ws_segment) refl
            | inr (f, n) ↦ rw (n, ws_segment) refl
          ])
    | inr h ↦
        rw (h, tcp_payload)
          (elim (Option-cases (detect_http_request p.payload)) [
            | inl n ↦ rw (n, tcp_payload) refl
            | inr (r, n) ↦
                rw (n, tcp_payload)
                  (elim (Bool-cases r.upgrade_ws) [
                    | inl u ↦ rw (u, http_segment) refl
                    | inr u ↦ rw (u, http_segment) refl
                  ])
          ])
  ]

  -- A frame keeps the flow table valid: it never holds more than its maximum of flows, each one
  -- once.
  pub handle_frame-IsValid :
      (frame : List ℕ) (now : Instant) (utc : UtcTime) (s : Sniffer P)
      → IsValid s.flows
      → IsValid (handle_frame execute show_v6 frame now utc s).flows
  unfolding dispatch_tcp dispatch_udp
  handle_frame-IsValid frame now utc s v =
      handle_frame_cases execute show_v6 (λ t. IsValid t.flows) frame now utc s v
        (λ p h.
          rw (tcp_payload-flows p (count_generic execute show_v6 p tcp 6 p.syn s))
            (generic_rules-IsValid execute p 6 p.syn _ _ (s.state.counters, s.flows) v))
        (λ p h. generic_rules-IsValid execute p 17 true _ _ (s.state.counters, s.flows) v)
