-- ===== src/Sniffer/FirstRule.antt =====
-- A packet's new flow is counted by the first connection rule that its port selects.
use microwaf.Prelude.{
  ℕ, ◌≡◌, ◌<◌, refl, sym, ap, ◌∙◌, Bool, true, false, List, [], ◌∷◌, length, Option, arith, some,
  inl, inr, Bool-cases, list_eq, nat_eq, ◌==◌,
}
use microwaf.HashMap.{get}
use microwaf.Time.{Instant}
use microwaf.Rule.{Rule, Metric, metric_eq}
use microwaf.Cel.{MatchContext, CelContext, CelValue}
use microwaf.Counters.{CounterStore}
use microwaf.Flow.{FlowKey, flow_eq, FlowTable, observe}
use microwaf.Flow.Bounds.{IsValid, observe-IsValid, observe_iff}
use microwaf.Sniffer.Defs.{
  Packet, flow_key, open_flow, count_flow, count_bytes, generic_rule, generic_rules,
}

-- The flow has been seen at this very time.
record Seen (key : FlowKey) (now : Instant) (t : FlowTable) : Type 0 where
  valid : IsValid t
  positive : 0 < t.idle
  recorded : get key t.flows ≡ some now

observe-idle : (t : FlowTable) (k : FlowKey) (now : Instant) → (observe t k now).0.idle ≡ t.idle
unfolding observe
observe-idle t k now = ground arith

observe-Seen :
    (t : FlowTable) (k : FlowKey) (now : Instant)
    → IsValid t
    → 0 < t.idle
    → Seen k now (observe t k now).0
observe-Seen t k now v h = record {
  valid = observe-IsValid t k now v;
  positive = ground (arith, observe-idle t k now);
  recorded = (observe_iff t k now v).1;
}

-- A flow that was seen at this time is not new.
observe_again :
    (t : FlowTable) (k : FlowKey) (now : Instant) → Seen k now t → (observe t k now).1 ≡ false
observe_again t k now s =
    (observe_iff t k now s.valid).0.1 (now, s.recorded, ground (arith, s.positive))

module _ {P : Type 0} (execute : P → CelContext → Option CelValue) (p : Packet) (proto : ℕ)
    (ctx : MatchContext) where
  count_flow-Seen :
      (r : Rule P) (c : CounterStore) (t : FlowTable)
      → Seen (flow_key p proto) p.now t
      → ((count_flow execute p proto true ctx r (c, t)).0 ≡ c)
        × Seen (flow_key p proto) p.now (count_flow execute p proto true ctx r (c, t)).1
  unfolding count_flow open_flow
  count_flow-Seen r c t s = elim (Bool-cases (r.metric == Metric.connections)) [
    | inl h ↦
        rw (h, count_flow)
          (
            rw (observe_again t (flow_key p proto) p.now s) refl,
            observe-Seen t (flow_key p proto) p.now s.valid s.positive,
          )
    | inr h ↦ rw (h, count_flow) (refl, s)
  ]

  count_flow_closed :
      (r : Rule P) (s : CounterStore × FlowTable) → count_flow execute p proto false ctx r s ≡ s
  unfolding count_flow
  count_flow_closed r s = ground arith

  generic_rules-Seen :
      (rs : List (Rule P)) (c : CounterStore) (t u : FlowTable)
      → Seen (flow_key p proto) p.now t
      → (generic_rules execute p proto true ctx rs (c, t)).0
        ≡ (generic_rules execute p proto false ctx rs (c, u)).0
  unfolding generic_rules generic_rule
  generic_rules-Seen [] c t u s = refl
  generic_rules-Seen (r ∷ rs) c t u s =
      let t1 = count_flow execute p proto true ctx r (c, t) in
      let c1 = count_bytes execute p.client (length p.payload) ctx r c in
      let run =
        λ (o : Bool) (q : CounterStore × FlowTable). (generic_rules execute p proto o ctx rs q).0 in
      ap (λ c2. run true (count_bytes execute p.client (length p.payload) ctx r c2, t1.1))
        (count_flow-Seen r c t s).0
      ∙ generic_rules-Seen rs c1 t1.1 u (count_flow-Seen r c t s).1
      ∙ sym (
          ap
            (λ (q : CounterStore × FlowTable).
              run false (count_bytes execute p.client (length p.payload) ctx r q.0, q.1))
            (count_flow_closed r (c, u)))

  count_bytes_connections :
      (r : Rule P) (n : ℕ) (c : CounterStore)
      → r.metric ≡ Metric.connections
      → count_bytes execute p.client n ctx r c ≡ c
  unfolding count_bytes
  count_bytes_connections r n c m = rw m refl

  count_flow_opens :
      (r : Rule P) (c : CounterStore) (t : FlowTable)
      → r.metric ≡ Metric.connections
      → IsValid t
      → 0 < t.idle
      → Seen (flow_key p proto) p.now (count_flow execute p proto true ctx r (c, t)).1
  unfolding count_flow open_flow
  count_flow_opens r c t m v i = rw (m, count_flow) (observe-Seen t (flow_key p proto) p.now v i)

  -- If the first rule that a port selects counts connections, a packet that may open a flow has the
  -- same effect on the counters as if that rule alone had seen the flow: the rules behind it count
  -- as for a packet that opens none. The table is valid and its idle time positive.
  pub generic_rules_first :
      (r : Rule P) (rs : List (Rule P)) (c : CounterStore) (t : FlowTable)
      → r.metric ≡ Metric.connections
      → IsValid t
      → 0 < t.idle
      → (generic_rules execute p proto true ctx (r ∷ rs) (c, t)).0
        ≡ (generic_rules execute p proto false ctx rs
            (count_flow execute p proto true ctx r (c, t))).0
  unfolding generic_rules generic_rule
  generic_rules_first r rs c t m v i =
      let t1 = count_flow execute p proto true ctx r (c, t) in
      ap (λ c2. (generic_rules execute p proto true ctx rs (c2, t1.1)).0)
        (count_bytes_connections r (length p.payload) t1.0 m)
      ∙ generic_rules-Seen rs t1.0 t1.1 t1.1 (count_flow_opens r c t m v i)
