-- ===== src/Engine/Defs.antt =====
-- crates/mw-core/src/rule.rs: `RuleEngine::evaluate` over the windows of one client.
use microwaf.Prelude.{ℕ, Option, none, some, List, [], ◌∷◌, ltb, if◌then◌else◌}
use microwaf.Rule.{Rule, RuleSet, secs}
use microwaf.Window.{RuleWindows, rule_sum}
use microwaf.Policy.{Violation}

module _ {P : Type 0} where
  -- the value that a rule compares with its limit
  abbrev pub observed : RuleWindows → Rule P → ℕ
  observed per_rule r = rule_sum per_rule r.id r.metric (secs r.window)

  -- the closure of `evaluate`
  unfoldable pub violation_of : RuleWindows → Rule P → Option Violation
  violation_of per_rule r =
      if ltb r.limit (observed per_rule r)
      then some (record {
        rule_id = r.id;
        value = observed per_rule r;
        limit = r.limit;
        action = r.action;
      })
      else none

  -- `filter_map(...).collect()`
  unfoldable pub evaluate_rules : List (Rule P) → RuleWindows → List Violation
  evaluate_rules [] per_rule = []
  evaluate_rules (r ∷ rs) per_rule =
      let rest = evaluate_rules rs per_rule in
      elim (violation_of per_rule r) [ none ↦ rest | some v ↦ v ∷ rest ]

  -- `RuleEngine::evaluate`
  abbrev pub evaluate : RuleSet P → RuleWindows → List Violation
  evaluate s per_rule = evaluate_rules s.rules per_rule
