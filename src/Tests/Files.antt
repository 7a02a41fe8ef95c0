-- ===== src/Tests/Files.antt =====
-- Examples: a configuration directory `w`.
use microwaf.Prelude.{
  nat_eq, list_eq, ◌≡◌, refl, false, some, List, [], ◌∷◌, arith, ◌==◌, ◌≢◌, list_beq_iff,
}
use mathlib.Core.List.{Permᴰ}
use microwaf.Prelude.Text.{Text, codes}
use microwaf.Prelude.Result.{Result, ok, err}
use microwaf.HashMap.{get, insert}
use microwaf.Config.{DaemonConfig, SetsConfig, default_daemon, YamlRules, other, parse_rules_yaml}
use microwaf.Counters.{no_counters}
use microwaf.State.{DaemonState}
use microwaf.Files
use microwaf.Files.{
  FilePath, Disk, Node, file, directory, node_at, exists, create_dir_all, write, read_dir, list_dir,
  is_rules_yaml, rules_d, daemon_path, sets_path, baseline_path, example_path, ensure_config_files,
  make_config_dirs, write_examples, seed_files, seed_if_missing, seed_baseline, write_text,
  write_example, make_dirs, rules_dir_has_yaml, file_name, ends_with, extension, rsplit_once,
  load_rules, try_reload, watch_loop, Round, changed,
}
use microwaf.Files.Keeps.{ensure_config_files-Kept}
use microwaf.Files.Seeded.{ensure_config_files-Seeded, Seeded}
use microwaf.Files.Reload.{Reloaded, watch_loop-Reloaded}
use microwaf.Files.Rejected.{try_reload-rejects}
use microwaf.Files.Order.{load_rules-perm}
use microwaf.Tests.Data.{daemon, live}

abbrev w : FilePath
w = codes "w" ∷ []

abbrev broken_path : FilePath
broken_path = codes "x.yaml" ∷ rules_d w

-- `w` with a `daemon.yaml`, and a rules file that is no YAML
abbrev operated : Disk
operated = record {
  nodes =
      (w, directory)
      ∷ (rules_d w, directory)
      ∷ (daemon_path w, file (codes "mode: permissive"))
      ∷ (broken_path, file (codes "["))
      ∷ [];
  denied = λ p. false;
  hidden = λ p. false;
}

abbrev empty_disk : Disk
empty_disk = record operated { nodes = [] }

-- the parsers of a YAML library that knows no document
abbrev no_cel : Text → Result Text (Unit {0})
no_cel src = err src

abbrev no_daemon : Text → Result Text DaemonConfig
no_daemon text = ok default_daemon

abbrev no_sets : Text → Result Text SetsConfig
no_sets text = ok []

abbrev no_rules : Text → Result Text YamlRules
no_rules text = ok other

differ : (p q : FilePath) → (p == q) ≡ false → p ≢ q
differ p q h e = absurd (ground (arith, list_beq_iff p q, h, e))

ensure_config_files-Kept_example :
    node_at (ensure_config_files w operated).0 (daemon_path w)
    ≡ some (file (codes "mode: permissive"))
unfolding example_path file_name get
ensure_config_files-Kept_example =
    ensure_config_files-Kept (daemon_path w) (file (codes "mode: permissive")) w
      (differ (example_path (daemon_path w)) (daemon_path w) refl)
      (differ (example_path (sets_path w)) (daemon_path w) refl)
      (differ (example_path (baseline_path w)) (daemon_path w) refl) operated refl

seeding_succeeds : (ensure_config_files w empty_disk).1 ≡ ok tt
unfolding ensure_config_files make_config_dirs write_examples seed_files seed_if_missing
    seed_baseline write_text write_example make_dirs rules_dir_has_yaml file_name ends_with
    extension rsplit_once create_dir_all write read_dir list_dir get insert example_path
    is_rules_yaml Files.default_daemon_yaml Files.default_sets_yaml Files.default_rules_yaml
seeding_succeeds = refl

ensure_config_files-Seeded_example : Seeded w (ensure_config_files w empty_disk).0
ensure_config_files-Seeded_example = ensure_config_files-Seeded w empty_disk seeding_succeeds

no_rules_loaded : DaemonState (Unit {0})
no_rules_loaded = record (daemon no_counters) {
  live = record live { rules = record { rules = [] } };
}

watch_loop-Reloaded_example : Reloaded no_cel no_daemon no_sets no_rules w no_rules_loaded (
    watch_loop no_cel no_daemon no_sets no_rules w
      (record { received = changed; sighup = false; disk = operated } ∷ [])
      no_rules_loaded)
unfolding no_rules_loaded
watch_loop-Reloaded_example =
    watch_loop-Reloaded no_cel no_daemon no_sets no_rules w
      (record { received = changed; sighup = false; disk = operated } ∷ []) no_rules_loaded
      (omega arith, tt, tt)

try_reload-rejects_example :
    (try_reload no_cel no_daemon no_sets no_rules w operated (daemon no_counters)).1
    ≡ daemon no_counters
unfolding get is_rules_yaml file_name ends_with extension rsplit_once parse_rules_yaml
try_reload-rejects_example =
    try_reload-rejects no_cel no_daemon no_sets no_rules w (codes "x.yaml") (codes "[") operated
      (daemon no_counters) refl refl refl (λ cs e. absurd (ground (arith, e)))

abbrev swapped_nodes : List (FilePath × Node)
swapped_nodes =
    (rules_d w, directory)
    ∷ (w, directory)
    ∷ (daemon_path w, file (codes "mode: permissive"))
    ∷ (broken_path, file (codes "["))
    ∷ []

load_rules-perm_example :
    load_rules no_cel no_daemon no_sets no_rules w operated
    ≡ load_rules no_cel no_daemon no_sets no_rules w (record operated { nodes = swapped_nodes })
unfolding get
load_rules-perm_example =
    load_rules-perm no_cel no_daemon no_sets no_rules operated swapped_nodes (Permᴰ.swap refl refl)
      (refl, (refl, (refl, (refl, tt)))) w
