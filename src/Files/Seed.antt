-- ===== src/Files/Seed.antt =====
-- crates/microwaf/src/config.rs: the example files, and the live files that are seeded from them.
use microwaf.Prelude.{
  Bool, true, false, Option, none, some, List, [], ◌∷◌, ◌++◌, ◌==◌, ◌||◌, not, nat_eq, list_eq,
  if◌then◌else◌,
}
use microwaf.Prelude.Text.{Text, codes}
use microwaf.Prelude.Result.{ok}
use microwaf.Files.Paths.{
  FilePath, join, file_name, with_file_name, extension, with_extension, ends_with,
}
use microwaf.Files.Fs.{Disk, exists, write, read_dir}
use microwaf.Files.Io.{Io, return, ◌>>◌, check, attempt, make_dirs, write_failed}

-- `DEFAULT_DAEMON_YAML`
unfoldable pub default_daemon_yaml : Text
default_daemon_yaml =
    codes "mode: enforce\n"
    ++ codes "# NIC name, or `any` to sniff on all interfaces (default)\n"
    ++ codes "interface: any\ncooldownSecs: 30\nstatsSnapshotSecs: 5\n"
    ++ codes "allowUsers:\n  - root\n  - bigfred\n  - bigfred-wizard\n"

-- `DEFAULT_SETS_YAML`
unfoldable pub default_sets_yaml : Text
default_sets_yaml = codes "allowlist:\n  - 10.0.0.0/8\n  - 192.168.0.0/16\n"

-- `DEFAULT_RULES_YAML`
unfoldable pub default_rules_yaml : Text
default_rules_yaml =
    codes "- id: http-rps-100\n  protocol: http\n  ports: [80, 443]\n  metric: requests\n"
    ++ codes "  window: per-second\n  limit: 100\n"
    ++ codes "  action: { kind: throttle, dropRate: 50 }\n  minThreshold: 50\n\n"
    ++ codes "- id: z21-rps\n  protocol: z21\n  ports: [21105, 21106]\n  metric: requests\n"
    ++ codes "  window: per-second\n  limit: 500\n"
    ++ codes "  action: { kind: throttle, dropRate: 50 }\n  minThreshold: 200\n\n"
    ++ codes "- id: wt-speed-spam\n  protocol: withrottle\n  ports: [12090]\n  metric: requests\n"
    ++ codes "  window: per-second\n  limit: 30\n  action: { kind: block }\n  minThreshold: 10\n"
    ++ codes "  match: 'withrottle.prefix == \"M0A\"'\n\n"
    ++ codes "- id: tcp-conn-per-sec\n  protocol: tcp\n  ports: [5000]\n  metric: connections\n"
    ++ codes "  window: per-second\n  limit: 20\n"
    ++ codes "  action: { kind: throttle, dropRate: 60 }\n  minThreshold: 10\n"

-- `example_path`
unfoldable pub example_path : FilePath → FilePath
example_path p = elim (file_name p) [
  | some name ↦ with_file_name p (name ++ codes ".example")
  | none ↦ with_extension p (codes "yaml.example")
]

-- `path.parent()`, whose directories `write_text` makes first; a root has none
abbrev pub make_parent : FilePath → Io (Unit {0})
make_parent [] = return tt
make_parent (n ∷ p) = if n == codes "/" then return tt else make_dirs p

-- the text with a line feed at its end
abbrev pub with_newline : Text → Text
with_newline body = if ends_with (codes "\n") body then body else body ++ codes "\n"

abbrev pub write_file : FilePath → Text → Io (Unit {0})
write_file p text d = check (write_failed p) tt (write p text d)

-- `write_text`
unfoldable pub write_text : FilePath → Text → Io (Unit {0})
write_text p body = make_parent p >> write_file p (with_newline body)

-- `write_example`
unfoldable pub write_example : FilePath → Text → Io FilePath
write_example p body = write_text (example_path p) body >> return (example_path p)

-- `seed_if_missing`
unfoldable pub seed_if_missing : FilePath → Text → Io Bool
seed_if_missing p body d =
    if exists d p then (d, ok false) else (write_text p body >> return true) d

-- the extensions of rules files
abbrev pub yaml_extension : Option Text → Bool
yaml_extension none = false
yaml_extension (some e) = e == codes "yaml" || e == codes "yml"

abbrev named_yaml : FilePath → Option Text → Bool
named_yaml p none = false
named_yaml p (some name) =
    if ends_with (codes ".example") name then false else yaml_extension (extension p)

-- `is_rules_yaml`, and the test of `rules_dir_has_yaml`
unfoldable pub is_rules_yaml : FilePath → Bool
is_rules_yaml p = named_yaml p (file_name p)

abbrev pub any_yaml : List FilePath → Bool
any_yaml [] = false
any_yaml (p ∷ ps) = is_rules_yaml p || any_yaml ps

abbrev any_listed : Option (List FilePath) → Bool
any_listed none = false
any_listed (some ps) = any_yaml ps

-- `rules_dir_has_yaml`
unfoldable pub rules_dir_has_yaml : FilePath → Disk → Bool
rules_dir_has_yaml rules_dir d = any_listed (read_dir rules_dir d)

abbrev pub rules_d : FilePath → FilePath
rules_d dir = join dir (codes "rules.d")

abbrev pub daemon_path : FilePath → FilePath
daemon_path dir = join dir (codes "daemon.yaml")

abbrev pub sets_path : FilePath → FilePath
sets_path dir = join dir (codes "sets.yaml")

abbrev pub baseline_path : FilePath → FilePath
baseline_path dir = join (rules_d dir) (codes "00-baseline.yaml")

-- the baseline is seeded where `rules.d` has no rules file
unfoldable pub seed_baseline : FilePath → Io Bool
seed_baseline dir d =
    if not (rules_dir_has_yaml (rules_d dir) d)
    then seed_if_missing (baseline_path dir) default_rules_yaml d
    else (d, ok false)

-- The three stages of `ensure_config_files`: the directories,
unfoldable pub make_config_dirs : FilePath → Io (Unit {0})
make_config_dirs dir = make_dirs dir >> make_dirs (rules_d dir)

-- the example files, which are written again whatever they hold,
unfoldable pub write_examples : FilePath → Io (Unit {0})
write_examples dir =
    attempt (write_example (daemon_path dir) default_daemon_yaml)
    >> attempt (write_example (sets_path dir) default_sets_yaml)
    >> attempt (write_example (baseline_path dir) default_rules_yaml)

-- and the live files.
unfoldable pub seed_files : FilePath → Io Bool
seed_files dir =
    seed_if_missing (daemon_path dir) default_daemon_yaml
    >> seed_if_missing (sets_path dir) default_sets_yaml
    >> seed_baseline dir

-- `ensure_config_files`
unfoldable pub ensure_config_files : FilePath → Io (Unit {0})
ensure_config_files dir = make_config_dirs dir >> write_examples dir >> seed_files dir >> return tt
