-- ===== src/Config/Defs.antt =====
-- crates/mw-core/src/config.rs, and `compile_match` of crates/mw-core/src/cel_match.rs. The CEL
-- compiler is the parameter `compile_cel`; serde_yaml is the parameter `yaml` of
-- `parse_rules_yaml`, which gives the document as a sequence, a mapping or something else.
use microwaf.Prelude.{ℕ, Option, none, some, List, [], ◌∷◌, length, ltb, if◌then◌else◌}
use microwaf.Prelude.Text.{Text, codes}
use microwaf.Prelude.Result.{Result, ok, err, ◌>>=◌, ◌>>◌}
use microwaf.Rule.{
  ConfigError, cel_compile, too_many_rules, Action, Rule, RuleSet, CompiledMatch, protocol_from_str,
  metric_from_str, window_from_str, validate, new_ruleset, max_rules,
}
use microwaf.Enforcer.{Mode, enforce}

pub record DaemonConfig : Type 0 where
  pub mode : Mode
  pub interface : Option Text
  pub cooldown_secs : ℕ
  pub stats_snapshot_secs : ℕ
  pub allow_users : List Text

-- `DaemonConfig::default()`
abbrev pub default_daemon : DaemonConfig
default_daemon = record {
  mode = enforce;
  interface = some (codes "any");
  cooldown_secs = 30;
  stats_snapshot_secs = 5;
  allow_users = codes "root" ∷ codes "bigfred" ∷ codes "bigfred-wizard" ∷ [];
}

-- `SetsConfig`: named sets of texts
abbrev pub SetsConfig : Type 0
SetsConfig = List (Text × List Text)

pub data ConfigAction : Type 0 where
  throttle : ℕ → ConfigAction
  block : ConfigAction

-- `From<ConfigAction> for Action`
abbrev pub to_action : ConfigAction → Action
to_action (ConfigAction.throttle rate) = Action.throttle rate
to_action ConfigAction.block = Action.block

pub record ConfigRule : Type 0 where
  pub id : Text
  pub protocol : Text
  pub ports : Option (List ℕ)
  pub metric : Text
  pub window : Text
  pub limit : ℕ
  pub action : ConfigAction
  pub min_threshold : ℕ
  pub matcher : Option Text

module _ {P : Type 0} (compile_cel : Text → Result Text P) where
  -- `compile_match`
  unfoldable pub compile_match : Text → Result Text (CompiledMatch P)
  compile_match src = do program ← compile_cel src; ok (record { source = src; program = program })

  abbrev cel_error :
      Text → Result Text (CompiledMatch P) → Result ConfigError (Option (CompiledMatch P))
  cel_error id (ok m) = ok (some m)
  cel_error id (err e) = err (cel_compile id e)

  -- the `match` on the optional CEL source
  compile_matcher : Text → Option Text → Result ConfigError (Option (CompiledMatch P))
  unfolding compile_match
  compile_matcher id none = ok none
  compile_matcher id (some []) = ok none
  compile_matcher id (some (c ∷ src)) = cel_error id (compile_match (c ∷ src))

  -- `ConfigRule::compile`
  unfoldable pub compile : ConfigRule → Result ConfigError (Rule P)
  unfolding compile_matcher
  compile c = do
    protocol ← protocol_from_str c.protocol
    metric ← metric_from_str c.metric
    window ← window_from_str c.window
    compiled ← compile_matcher c.id c.matcher
    let rule : Rule P = record {
      id = c.id;
      protocol = protocol;
      ports = c.ports;
      metric = metric;
      window = window;
      limit = c.limit;
      action = to_action c.action;
      min_threshold = c.min_threshold;
      matcher = compiled;
      match_src = c.matcher;
    }
    validate rule
    ok rule

  -- the loop of `compile_ruleset`
  unfoldable pub compile_all : List ConfigRule → Result ConfigError (List (Rule P))
  compile_all [] = ok []
  compile_all (c ∷ cs) = do rule ← compile c; rules ← compile_all cs; ok (rule ∷ rules)

  -- `compile_ruleset`
  unfoldable pub compile_ruleset : List ConfigRule → Result ConfigError (RuleSet P)
  compile_ruleset configs =
      if ltb max_rules (length configs)
      then err (too_many_rules (length configs) max_rules)
      else compile_all configs >>= new_ruleset

-- how `serde_yaml` reads a rules document: `is_sequence`, `is_mapping`, or neither, with the result
-- of `from_value`
pub data YamlRules : Type 0 where
  sequence : Result Text (List ConfigRule) → YamlRules
  mapping : Result Text ConfigRule → YamlRules
  other : YamlRules

abbrev parse_error {ℓ} : {A : Type ℓ} → Result Text A → Result ConfigError A
parse_error (ok a) = ok a
parse_error (err e) = err (ConfigError.parse e)

rules_of : YamlRules → Result ConfigError (List ConfigRule)
rules_of (sequence r) = parse_error r
rules_of (mapping r) = do one ← parse_error r; ok (one ∷ [])
rules_of other = err (ConfigError.parse (codes "rules file must be a list or a single mapping"))

-- `parse_rules_yaml`
unfoldable pub parse_rules_yaml :
    (Text → Result Text YamlRules) → Text → Result ConfigError (List ConfigRule)
unfolding rules_of
parse_rules_yaml yaml text = do value ← parse_error (yaml text); rules_of value
