-- ===== src/Files/Load.antt =====
-- crates/microwaf/src/config.rs: loading. serde_yaml is given by `yaml_daemon`, `yaml_sets` and
-- `yaml_rules`, the CEL compiler by `compile_cel`.
use mathlib.Core.List.{reverse}
use microwaf.Prelude.{Option, none, some, List, [], ◌∷◌, ◌++◌, ◌==◌, nat_eq, list_eq, if◌then◌else◌}
use microwaf.Prelude.Order.{nat_order, list_order, sort}
use microwaf.Prelude.Text.{Text, codes}
use microwaf.Prelude.Result.{Result, ok, err}
use microwaf.Rule.{ConfigError, RuleSet}
use microwaf.Config.{DaemonConfig, default_daemon, SetsConfig, ConfigRule, YamlRules}
use microwaf.Config.{parse_rules_yaml, compile_ruleset}
use microwaf.State.{LiveConfig, DaemonState, swap_live}
use microwaf.Files.Paths.{FilePath, path_from, join_text}
use microwaf.Files.Fs.{Disk, exists, read_to_string, read_dir}
use microwaf.Files.Io.{
  LoadError, read_failed, parse_daemon_failed, parse_sets_failed, parse_rules_failed,
  compile_failed, Io, ◌>>◌,
}
use microwaf.Files.Seed.{is_rules_yaml, rules_d, daemon_path, sets_path, ensure_config_files}

abbrev parsed : {A : Type 0} → (Text → LoadError) → Result Text A → Result LoadError A
parsed wrap (ok a) = ok a
parsed wrap (err e) = err (wrap e)

-- a YAML file, or the default where there is none
load_yaml :
    {A : Type 0}
    → (Text → Result Text A)
    → (Text → LoadError)
    → A
    → FilePath
    → Disk
    → Result LoadError A
load_yaml yaml wrap default p d =
    if exists d p
    then elim (read_to_string p d) [
      | none ↦ err (read_failed p)
      | some text ↦ parsed wrap (yaml text)
    ]
    else ok default

abbrev pub keep_yaml : List FilePath → List FilePath
keep_yaml [] = []
keep_yaml (p ∷ ps) = if is_rules_yaml p then p ∷ keep_yaml ps else keep_yaml ps

-- the order of paths: that of their components from the root
unfoldable pub sort_paths : List FilePath → List FilePath
sort_paths = sort reverse

module _ {P : Type 0} (compile_cel : Text → Result Text P)
    (yaml_daemon : Text → Result Text DaemonConfig) (yaml_sets : Text → Result Text SetsConfig)
    (yaml_rules : Text → Result Text YamlRules) where
  -- `load_daemon`
  unfoldable pub load_daemon : FilePath → Disk → Result LoadError DaemonConfig
  unfolding load_yaml
  load_daemon dir = load_yaml yaml_daemon parse_daemon_failed default_daemon (daemon_path dir)

  -- `load_sets`
  unfoldable pub load_sets : FilePath → Disk → Result LoadError SetsConfig
  unfolding load_yaml
  load_sets dir = load_yaml yaml_sets parse_sets_failed [] (sets_path dir)

  abbrev rules_in :
      FilePath → Result ConfigError (List ConfigRule) → Result LoadError (List ConfigRule)
  rules_in p (ok configs) = ok configs
  rules_in p (err e) = err (parse_rules_failed p e)

  -- one round of the loop of `load_rules`
  unfoldable pub read_rules : FilePath → Disk → Result LoadError (List ConfigRule)
  read_rules p d = elim (read_to_string p d) [
    | none ↦ err (read_failed p)
    | some text ↦ rules_in p (parse_rules_yaml yaml_rules text)
  ]

  abbrev pub extend :
      Result LoadError (List ConfigRule)
      → Result LoadError (List ConfigRule)
      → Result LoadError (List ConfigRule)
  extend (err e) rest = err e
  extend (ok configs) (err e) = err e
  extend (ok configs) (ok rest) = ok (configs ++ rest)

  -- the loop of `load_rules`
  unfoldable pub read_all_rules : List FilePath → Disk → Result LoadError (List ConfigRule)
  read_all_rules [] d = ok []
  read_all_rules (p ∷ ps) d = extend (read_rules p d) (read_all_rules ps d)

  abbrev compiled_rules : Result ConfigError (RuleSet P) → Result LoadError (RuleSet P)
  compiled_rules (ok rules) = ok rules
  compiled_rules (err e) = err (compile_failed e)

  unfoldable pub compile_loaded : Result LoadError (List ConfigRule) → Result LoadError (RuleSet P)
  compile_loaded (ok configs) = compiled_rules (compile_ruleset compile_cel configs)
  compile_loaded (err e) = err e

  -- `load_rules`
  unfoldable pub load_rules : FilePath → Disk → Result LoadError (RuleSet P)
  load_rules dir d =
      if exists d (rules_d dir)
      then elim (read_dir (rules_d dir) d) [
        | none ↦ err (read_failed (rules_d dir))
        | some files ↦ compile_loaded (read_all_rules (sort_paths (keep_yaml files)) d)
      ]
      else ok (record { rules = [] })

  abbrev pub live_of :
      Result LoadError DaemonConfig
      → Result LoadError SetsConfig
      → Result LoadError (RuleSet P)
      → Result LoadError (LiveConfig P)
  live_of (err e) sets rules = err e
  live_of (ok daemon) (err e) rules = err e
  live_of (ok daemon) (ok sets) (err e) = err e
  live_of (ok daemon) (ok sets) (ok rules) =
      ok (record { daemon = daemon; sets = sets; rules = rules })

  unfoldable pub read_config : FilePath → Io (LiveConfig P)
  read_config dir d = (d, live_of (load_daemon dir d) (load_sets dir d) (load_rules dir d))

  -- `LiveConfig::load`
  unfoldable pub load : FilePath → Io (LiveConfig P)
  unfolding read_config
  load dir = ensure_config_files dir >> read_config dir

  -- the reloaded configuration keeps the mode that the daemon runs in
  abbrev pub accept : DaemonState P → Result LoadError (LiveConfig P) → DaemonState P
  accept s (err e) = s
  accept s (ok live) = swap_live s (record live { daemon = record live.daemon { mode = s.mode } })

  -- `try_reload`
  unfoldable pub try_reload : FilePath → Disk → DaemonState P → Disk × DaemonState P
  try_reload dir d s = ((load dir d).0, accept s (load dir d).1)

-- `resolve_config_dir`; `env` is the environment
abbrev env_or : Option Text → Option Text → Text
env_or (some a) b = a
env_or none (some b) = b
env_or none none = codes "/etc"

unfoldable pub resolve_config_dir : (Text → Option Text) → Option FilePath → FilePath
resolve_config_dir env (some p) = p
resolve_config_dir env none = elim (env (codes "MICROWAF_CONFIG_DIR")) [
  | some p ↦ path_from p
  | none ↦
      let root = env_or (env (codes "BIGFRED_DATA_DIR")) (env (codes "DATA_DIR")) in
      if root == codes "/etc"
      then path_from (codes "/etc/microwaf")
      else join_text (path_from root) (codes "etc/microwaf")
]
