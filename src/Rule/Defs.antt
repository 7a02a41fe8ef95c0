-- ===== src/Rule/Defs.antt =====
-- crates/mw-core/src/rule.rs: `Rule`, its validation, and `RuleSet`. A compiled CEL program is a
-- value of the type `P`, which the CEL library chooses (crates/mw-core/src/cel_match.rs).
use microwaf.Prelude.{
  ℕ, Bool, true, false, ◌&&◌, ◌||◌, not, Option, none, some, List, [], ◌∷◌, ◌==◌, nat_eq, list_eq,
  length, ltb, if◌then◌else◌,
}
use microwaf.Prelude.Text.{Text}
use microwaf.Prelude.Result.{Result, ok, err, ◌>>◌}
use microwaf.Rule.Terms.{
  ConfigError, duplicate_rule_id, too_many_rules, ports_required, invalid_metric, invalid_drop_rate,
  Protocol, protocol_eq, Metric, Window, Action, throttle, block, is_parsed, protocol_as_str,
  metric_as_str, valid_for,
}

abbrev pub max_rules : ℕ
max_rules = 256

abbrev pub RuleId : Type 0
RuleId = Text

pub record CompiledMatch (P : Type 0) : Type 0 where
  pub source : Text
  pub program : P

pub record Rule (P : Type 0) : Type 0 where
  pub id : RuleId
  pub protocol : Protocol
  pub ports : Option (List ℕ)
  pub metric : Metric
  pub window : Window
  pub limit : ℕ
  pub action : Action
  pub min_threshold : ℕ
  pub matcher : Option (CompiledMatch P)
  pub match_src : Option Text

-- `Vec::contains`
abbrev pub contains : List ℕ → ℕ → Bool
contains [] x = false
contains (y ∷ ys) x = y == x || contains ys x

abbrev any_port : Option (List ℕ) → ℕ → Bool
any_port none port = true
any_port (some ports) port = contains ports port

-- `self.ports.as_ref().is_none_or(|p| p.is_empty())`
abbrev pub no_ports : Option (List ℕ) → Bool
no_ports none = true
no_ports (some []) = true
no_ports (some (p ∷ ps)) = false

abbrev pub drop_rate_over : Action → Bool
drop_rate_over (throttle rate) = ltb 100 rate
drop_rate_over block = false

abbrev rate_of : Action → ℕ
rate_of (throttle rate) = rate
rate_of block = 0

module _ {P : Type 0} where
  -- `Rule::matches_port`
  unfoldable pub matches_port : Rule P → ℕ → Bool
  matches_port r port = any_port r.ports port

  -- `Rule::validate`
  unfoldable pub validate : Rule P → Result ConfigError (Unit {0})
  validate r =
      if is_parsed r.protocol && no_ports r.ports
      then err (ports_required r.id (protocol_as_str r.protocol))
      else if not (valid_for r.metric r.protocol)
      then err (invalid_metric r.id (metric_as_str r.metric) (protocol_as_str r.protocol))
      else if drop_rate_over r.action
      then err (invalid_drop_rate r.id (rate_of r.action))
      else ok tt

pub record RuleSet (P : Type 0) : Type 0 where
  pub rules : List (Rule P)

abbrev pub seen_in : List RuleId → RuleId → Bool
seen_in [] id = false
seen_in (j ∷ seen) id = j == id || seen_in seen id

module _ {P : Type 0} where
  -- the loop of `RuleSet::new`
  unfoldable pub check_rules : List RuleId → List (Rule P) → Result ConfigError (Unit {0})
  check_rules seen [] = ok tt
  check_rules seen (r ∷ rs) =
      let rest = check_rules (r.id ∷ seen) rs in
      validate r >> (if seen_in seen r.id then err (duplicate_rule_id r.id) else rest)

  -- `RuleSet::new`
  unfoldable pub new_ruleset : List (Rule P) → Result ConfigError (RuleSet P)
  new_ruleset rules =
      if ltb max_rules (length rules)
      then err (too_many_rules (length rules) max_rules)
      else check_rules [] rules >> ok (record { rules = rules })

  selects : Protocol → ℕ → Rule P → Bool
  unfolding matches_port
  selects protocol port r = r.protocol == protocol && matches_port r port

  matching_rules : Protocol → ℕ → List (Rule P) → List (Rule P)
  unfolding selects
  matching_rules protocol port [] = []
  matching_rules protocol port (r ∷ rs) =
      if selects protocol port r
      then r ∷ matching_rules protocol port rs
      else matching_rules protocol port rs

  -- `RuleSet::matching`
  unfoldable pub matching : RuleSet P → Protocol → ℕ → List (Rule P)
  unfolding matching_rules
  matching s protocol port = matching_rules protocol port s.rules

  find_rule : RuleId → List (Rule P) → Option (Rule P)
  find_rule id [] = none
  find_rule id (r ∷ rs) = if r.id == id then some r else find_rule id rs

  -- `RuleSet::get`
  unfoldable pub get_rule : RuleSet P → RuleId → Option (Rule P)
  unfolding find_rule
  get_rule s id = find_rule id s.rules
