-- ===== src/Rule/Valid.antt =====
-- What `Rule::validate` and `RuleSet::new` accept, against an independent description.
use microwaf.Prelude.{
  ℕ, ◌≤◌, ◌≡◌, ◌≢◌, ◌↔◌, refl, false, Option, none, some, List, [], ◌∷◌, ◌&&◌, not, list_eq, nat_eq,
  length, arith, list_beq_iff, All,
}
use microwaf.Prelude.Result.{ok}
use microwaf.Rule.Terms.{
  Protocol, udp, tcp, Metric, requests, bytes, connections, Action, throttle, block, is_parsed,
  valid_for,
}
use microwaf.Rule.Defs.{
  Rule, RuleId, RuleSet, validate, check_rules, new_ruleset, seen_in, max_rules, no_ports,
  drop_rate_over,
}

-- A parsed protocol names at least one port.
abbrev pub PortsGiven : Protocol → Option (List ℕ) → Type 0
PortsGiven udp ports = Unit
PortsGiven tcp ports = Unit
PortsGiven _ none = ⊥
PortsGiven _ (some []) = ⊥
PortsGiven _ (some (p ∷ ps)) = Unit

-- Bytes are counted for every protocol, flows for udp and tcp, units for the parsed ones.
abbrev pub MetricFits : Metric → Protocol → Type 0
MetricFits bytes p = Unit
MetricFits connections udp = Unit
MetricFits connections tcp = Unit
MetricFits connections _ = ⊥
MetricFits requests udp = ⊥
MetricFits requests tcp = ⊥
MetricFits requests _ = Unit

abbrev pub RateFits : Action → Type 0
RateFits (throttle rate) = rate ≤ 100
RateFits block = Unit

ports_iff :
    (p : Protocol) (ports : Option (List ℕ))
    → ((is_parsed p && no_ports ports) ≡ false) ↔ PortsGiven p ports
unfolding is_parsed
ports_iff udp ports = (λ _. tt, λ _. refl)
ports_iff tcp ports = (λ _. tt, λ _. refl)
ports_iff _ none = (λ h. cc, λ h. absurd h)
ports_iff _ (some []) = (λ h. cc, λ h. absurd h)
ports_iff _ (some (p ∷ ps)) = (λ _. tt, λ _. refl)

metric_iff : (m : Metric) (p : Protocol) → (not (valid_for m p) ≡ false) ↔ MetricFits m p
unfolding valid_for
metric_iff bytes p = (λ _. tt, λ _. refl)
metric_iff connections udp = (λ _. tt, λ _. refl)
metric_iff connections tcp = (λ _. tt, λ _. refl)
metric_iff connections _ = (λ h. cc, λ h. absurd h)
metric_iff requests udp = (λ h. cc, λ h. absurd h)
metric_iff requests tcp = (λ h. cc, λ h. absurd h)
metric_iff requests _ = (λ _. tt, λ _. refl)

rate_iff : (a : Action) → (drop_rate_over a ≡ false) ↔ RateFits a
rate_iff (throttle rate) = ground arith
rate_iff block = (λ _. tt, λ _. refl)

module _ {P : Type 0} where
  pub record IsWellFormed (r : Rule P) : Type 0 where
    pub ports_given : PortsGiven r.protocol r.ports
    pub metric_fits : MetricFits r.metric r.protocol
    pub rate_fits : RateFits r.action

  -- `Rule::validate` accepts exactly the well-formed rules: a parsed protocol has a port, the
  -- metric fits the protocol, and a throttle rate is at most 100.
  pub validate_iff : (r : Rule P) → (validate r ≡ ok tt) ↔ IsWellFormed r
  unfolding validate
  validate_iff r =
      ground
        (arith, ports_iff r.protocol r.ports, metric_iff r.metric r.protocol, rate_iff r.action)

  -- no two rules of the list share an id
  abbrev pub IdsDistinct : List (Rule P) → Type 0
  IdsDistinct [] = Unit
  IdsDistinct (r ∷ rs) = All (λ (q : Rule P). r.id ≢ q.id) rs × IdsDistinct rs

  -- the ids of the list are new
  abbrev Fresh : List RuleId → List (Rule P) → Type 0
  Fresh seen rs = All (λ (q : Rule P). seen_in seen q.id ≡ false) rs

  Fresh-cons_iff :
      (id : RuleId) (seen : List RuleId) (rs : List (Rule P))
      → Fresh (id ∷ seen) rs ↔ (All (λ (q : Rule P). id ≢ q.id) rs × Fresh seen rs)
  Fresh-cons_iff id seen [] = (λ _. (tt, tt), λ _. tt)
  Fresh-cons_iff id seen (q ∷ rs) = ground (arith, list_beq_iff id q.id, Fresh-cons_iff id seen rs)

  -- A list passes the loop after the ids of `seen` exactly when its rules are well formed, its ids
  -- differ from one another and none of them was seen.
  check_rules_iff :
      (seen : List RuleId) (rs : List (Rule P))
      → (check_rules seen rs ≡ ok tt) ↔ (All IsWellFormed rs × IdsDistinct rs × Fresh seen rs)
  unfolding check_rules
  check_rules_iff seen [] = (λ _. (tt, tt, tt), λ _. refl)
  check_rules_iff seen (r ∷ rs) =
      ground (arith, validate_iff r, check_rules_iff (r.id ∷ seen) rs, Fresh-cons_iff r.id seen rs)

  Fresh-nil : (rs : List (Rule P)) → Fresh [] rs
  Fresh-nil [] = tt
  Fresh-nil (r ∷ rs) = (refl, Fresh-nil rs)

  -- `RuleSet::new` succeeds exactly on at most 256 well-formed rules with distinct ids, and keeps
  -- them as they are, in order.
  pub new_ruleset_iff :
      (rules : List (Rule P)) (s : RuleSet P)
      → (new_ruleset rules ≡ ok s) ↔ (
          (length rules ≤ max_rules)
          × All IsWellFormed rules
          × IdsDistinct rules
          × (s.rules ≡ rules))
  unfolding new_ruleset
  new_ruleset_iff rules s = ground (arith, check_rules_iff [] rules, Fresh-nil rules)
