-- ===== src/Decision/Sniffing.antt =====
-- The sniffer keeps the daemon one that the decision loop runs on, whatever frame it handles.
use microwaf.Prelude.{
  nat_eq, list_eq, pair_eq, ℕ, ◌≤◌, ◌≡◌, refl, true, Option, List, length, drop, ltb, arith, All,
  Bool-cases, inl, inr, Option-cases, length-take, length-drop,
}
use microwaf.Prelude.Text.{Text}
use microwaf.HashMap.{find_or, contains_key}
use microwaf.Time.{Instant}
use microwaf.Client.{ClientId}
use microwaf.Rule.{tcp}
use microwaf.Counters.{CounterStore, add, add_ws_connection, add_counts, key_of, key_eq}
use microwaf.Cel.{CelContext, CelValue}
use microwaf.Enforcer.Laws.{IsClientId}
use microwaf.State.{DaemonState}
use microwaf.Detect.Ws.{detect_ws_frame}
use microwaf.Detect.Http.{HttpRequestLine, detect_http_request}
use microwaf.Sniffer.{
  Sniffer, UtcTime, Packet, ws_key, frame_client, handle_frame, dispatch_tcp, dispatch_udp,
  tcp_payload, ws_segment, http_segment, line_segment, count_generic,
}
use microwaf.Sniffer.Cases.{handle_frame_cases}
use microwaf.Sniffer.Tracked.{Tracked, handle_frame-Tracked}
use microwaf.Decision.Defs.{counted_clients}
use microwaf.Decision.Running.{IsRunning, counted-insert}

-- Counting a client whose addresses have the right lengths keeps this true of all counted clients.
abbrev KeepsClients : ClientId → CounterStore → CounterStore → Type 0
KeepsClients c a b =
    IsClientId c
    → All IsClientId (counted_clients a.by_rule)
    → All IsClientId (counted_clients b.by_rule)

KeepsClients-Tracked : Tracked KeepsClients
unfolding add add_ws_connection
KeepsClients-Tracked = record {
  same = λ c a hc h. h;
  join = λ c x y z f g hc h. g hc (f hc h);
  adds = λ s c i req size conn hc h.
      counted-insert (key_of c i)
        (add_counts (find_or (0, 0, 0) (key_of c i) s.by_rule) req size conn) s.by_rule hc h;
  marks = λ s c hc h. h;
}

frame_client-IsClientId : (frame : List ℕ) → 34 ≤ length frame → IsClientId (frame_client frame)
frame_client-IsClientId frame h = record {
  mac_len = omega (arith, h, length-take 6 (drop 6 frame), length-drop 6 frame);
  ip_len = omega (
    arith,
    h,
    length-take 4 (drop 12 (drop 14 frame)),
    length-drop 12 (drop 14 frame),
    length-drop 14 frame,
  );
}

module _ {P : Type 0} (execute : P → CelContext → Option CelValue) (show_v6 : List ℕ → Text) where
  -- All of the daemon but its counters is as before.
  abbrev SameRest : Sniffer P → Sniffer P → Type 0
  SameRest s t = t.state ≡ record s.state { counters = t.state.counters }

  ws_segment-rest : (p : Packet) (s : Sniffer P) → SameRest s (ws_segment execute show_v6 p s)
  unfolding ws_segment
  ws_segment-rest p s = elim (Option-cases (detect_ws_frame p.payload)) [
    | inl n ↦ rw (n, ws_segment) refl
    | inr (f, n) ↦ rw (n, ws_segment) refl
  ]

  http_segment-rest :
      (p : Packet) (r : HttpRequestLine) (s : Sniffer P)
      → SameRest s (http_segment execute show_v6 p r s)
  unfolding http_segment
  http_segment-rest p r s = elim (Bool-cases r.upgrade_ws) [
    | inl h ↦ rw (h, http_segment) refl
    | inr h ↦ rw (h, http_segment) refl
  ]

  tcp_payload-rest : (p : Packet) (s : Sniffer P) → SameRest s (tcp_payload execute show_v6 p s)
  unfolding tcp_payload line_segment
  tcp_payload-rest p s = elim (Bool-cases (contains_key (ws_key p) s.ws_conns)) [
    | inl h ↦ rw (h, tcp_payload) (ws_segment-rest p s)
    | inr h ↦
        rw (h, tcp_payload)
          (elim (Option-cases (detect_http_request p.payload)) [
            | inl n ↦ rw (n, line_segment) refl
            | inr (r, n) ↦ rw n (http_segment-rest p r s)
          ])
  ]

  dispatch_udp-rest : (p : Packet) (s : Sniffer P) → SameRest s (dispatch_udp execute show_v6 p s)
  unfolding dispatch_udp
  dispatch_udp-rest p s = refl

  dispatch_tcp-rest : (p : Packet) (s : Sniffer P) → SameRest s (dispatch_tcp execute show_v6 p s)
  unfolding dispatch_tcp
  dispatch_tcp-rest p s = tcp_payload-rest p (count_generic execute show_v6 p tcp 6 p.syn s)

  handle_frame-rest :
      (frame : List ℕ) (now : Instant) (utc : UtcTime) (s : Sniffer P)
      → SameRest s (handle_frame execute show_v6 frame now utc s)
  handle_frame-rest frame now utc s =
      handle_frame_cases execute show_v6 (SameRest s) frame now utc s refl
        (λ p h. dispatch_tcp-rest p s) (λ p h. dispatch_udp-rest p s)

  short_frame :
      (frame : List ℕ) (now : Instant) (utc : UtcTime) (s : Sniffer P)
      → ltb (length frame) 34 ≡ true
      → handle_frame execute show_v6 frame now utc s ≡ s
  unfolding handle_frame
  short_frame frame now utc s h = ground (arith, h, length-drop 14 frame)

  counted_after :
      (frame : List ℕ) (now : Instant) (utc : UtcTime) (s : Sniffer P)
      → All IsClientId (counted_clients s.state.counters.by_rule)
      → All IsClientId
          (counted_clients (handle_frame execute show_v6 frame now utc s).state.counters.by_rule)
  counted_after frame now utc s h = elim (Bool-cases (ltb (length frame) 34)) [
    | inl short ↦ rw (short_frame frame now utc s short) h
    | inr long ↦
        handle_frame-Tracked KeepsClients-Tracked execute show_v6 frame now utc s
          (frame_client-IsClientId frame (ground (arith, long))) h
  ]

  with_counters-IsRunning :
      (most : ℕ) (s : DaemonState P) (c : CounterStore)
      → IsRunning most s
      → All IsClientId (counted_clients c.by_rule)
      → IsRunning most (record s { counters = c })
  with_counters-IsRunning most s c h all = record {
    enforcer = h.enforcer;
    has_enforcer = h.has_enforcer;
    cooldown = h.cooldown;
    counted = all;
    in_policies = h.in_policies;
  }

  -- A daemon that runs does so after a frame.
  pub handle_frame-IsRunning :
      (most : ℕ) (frame : List ℕ) (now : Instant) (utc : UtcTime) (s : Sniffer P)
      → IsRunning most s.state
      → IsRunning most (handle_frame execute show_v6 frame now utc s).state
  handle_frame-IsRunning most frame now utc s h = rw (handle_frame-rest frame now utc s) (
      with_counters-IsRunning most s.state
        (handle_frame execute show_v6 frame now utc s).state.counters h
        (counted_after frame now utc s h.counted))
