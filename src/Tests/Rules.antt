-- ===== src/Tests/Rules.antt =====
-- Examples: configured rules.
use microwaf.Prelude.{◌≡◌, ◌≤◌, refl, none, [], ◌∷◌, length, All}
use microwaf.Prelude.Text.{codes}
use microwaf.Prelude.Result.{ok, err}
use microwaf.Rule.{
  RuleSet, max_rules, protocol_from_str, metric_from_str, window_from_str, validate, is_parsed,
  valid_for, new_ruleset, check_rules,
}
use microwaf.Rule.Valid.{IsWellFormed, IdsDistinct}
use microwaf.Config.{ConfigRule, ConfigAction, compile, compile_all, compile_ruleset}
use microwaf.Config.Compiled.{compile_ruleset-IsWellFormed}
use microwaf.Tests.Data.{udp_flows}

-- the rule `udp_flows` as it is configured
abbrev configured : ConfigRule
configured = record {
  id = codes "a";
  protocol = codes "UDP";
  ports = none;
  metric = codes "connections";
  window = codes "1s";
  limit = 2;
  action = ConfigAction.block;
  min_threshold = 0;
  matcher = none;
}

abbrev compiled : RuleSet (Unit {0})
compiled = record { rules = udp_flows (codes "a") ∷ [] }

configured_compiles : compile_ruleset (λ src. err src) (configured ∷ []) ≡ ok compiled
unfolding compile_ruleset compile_all compile protocol_from_str metric_from_str window_from_str
    validate is_parsed valid_for new_ruleset check_rules
configured_compiles = refl

compile_ruleset-IsWellFormed_example :
    (length compiled.rules ≡ length (configured ∷ []))
    × (length (configured ∷ []) ≤ max_rules)
    × All IsWellFormed compiled.rules
    × IdsDistinct compiled.rules
compile_ruleset-IsWellFormed_example =
    compile_ruleset-IsWellFormed (λ src. err src) (configured ∷ []) compiled configured_compiles
