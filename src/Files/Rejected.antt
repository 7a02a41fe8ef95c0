-- ===== src/Files/Rejected.antt =====
-- A broken rules file rejects the whole reload.
use microwaf.Prelude.{
  ◌≡◌, ◌≢◌, refl, ap, true, false, some, List, ◌∷◌, arith, inl, inr, Option-cases, nat_eq, list_eq,
}
use microwaf.Prelude.Text.{Text, codes}
use microwaf.Prelude.Result.{Result, ok, Result-cases}
use microwaf.Config.{ConfigRule, DaemonConfig, SetsConfig, YamlRules, parse_rules_yaml}
use microwaf.State.{DaemonState}
use microwaf.Files.Paths.{FilePath, file_name, ends_with, extension, rsplit_once}
use microwaf.Files.Fs.{Node, Disk, node_at, exists, file}
use microwaf.Files.Seed.{is_rules_yaml, rules_d, ensure_config_files, example_path}
use microwaf.Files.Keeps.{ensure_config_files-Kept}
use microwaf.Files.Load.{load, try_reload, load_daemon, load_sets, load_rules, read_config}
use microwaf.Files.Reload.{rules-live_of}
use microwaf.Files.Listing.{load_rules-Fails}

-- No example file is a path of another depth, nor one with another name.
ensure-Kept :
    (dir q : FilePath) (n : Text) (v : Node) (d : Disk)
    → n ≢ codes "daemon.yaml.example"
    → n ≢ codes "sets.yaml.example"
    → n ≢ codes "00-baseline.yaml.example"
    → node_at d (n ∷ q) ≡ some v
    → node_at (ensure_config_files dir d).0 (n ∷ q) ≡ some v
unfolding example_path file_name
ensure-Kept dir q n v d nd ns nb h =
    ensure_config_files-Kept (n ∷ q) v dir (λ e. nd cc) (λ e. ns cc) (λ e. nb cc) d h

differs :
    (m n : Text) (q : FilePath)
    → is_rules_yaml (n ∷ q) ≡ true
    → is_rules_yaml (m ∷ q) ≡ false
    → n ≢ m
differs m n q yes_n no_m e = absurd (ground (arith, ap (λ k. is_rules_yaml (k ∷ q)) e, yes_n, no_m))

kept_rules_file :
    (dir q : FilePath) (n : Text) (v : Node) (d : Disk)
    → is_rules_yaml (n ∷ q) ≡ true
    → node_at d (n ∷ q) ≡ some v
    → node_at (ensure_config_files dir d).0 (n ∷ q) ≡ some v
unfolding is_rules_yaml file_name ends_with extension rsplit_once
kept_rules_file dir q n v d named h =
    ensure-Kept dir q n v d (differs (codes "daemon.yaml.example") n q named refl)
      (differs (codes "sets.yaml.example") n q named refl)
      (differs (codes "00-baseline.yaml.example") n q named refl) h

kept_rules_dir :
    (dir : FilePath) (d : Disk)
    → exists d (rules_d dir) ≡ true
    → exists (ensure_config_files dir d).0 (rules_d dir) ≡ true
kept_rules_dir dir d h = elim (Option-cases (node_at d (rules_d dir))) [
  | inl e ↦ absurd (ground (arith, e, h))
  | inr (v, e) ↦
      ground (arith, ensure-Kept dir dir (codes "rules.d") v d (λ e. cc) (λ e. cc) (λ e. cc) e)
]

module _ {P : Type 0} (compile_cel : Text → Result Text P)
    (yaml_daemon : Text → Result Text DaemonConfig) (yaml_sets : Text → Result Text SetsConfig)
    (yaml_rules : Text → Result Text YamlRules) where
  -- If `rules.d` has a rules file whose text cannot be parsed, a reload changes nothing: the daemon
  -- keeps its state, and the file is not skipped.
  pub try_reload-rejects :
      (dir : FilePath) (n text : Text) (d : Disk) (s : DaemonState P)
      → exists d (rules_d dir) ≡ true
      → is_rules_yaml (n ∷ rules_d dir) ≡ true
      → node_at d (n ∷ rules_d dir) ≡ some (file text)
      → ((cs : List ConfigRule) → parse_rules_yaml yaml_rules text ≢ ok cs)
      → (try_reload compile_cel yaml_daemon yaml_sets yaml_rules dir d s).1 ≡ s
  unfolding try_reload load read_config
  try_reload-rejects dir n text d s there named held bad =
      elim (Result-cases (load compile_cel yaml_daemon yaml_sets yaml_rules dir d).1) [
        | inr (x, e) ↦ rw e refl
        | inl (live, e) ↦ elim (Result-cases (ensure_config_files dir d).1) [
          | inr (x, f) ↦ absurd (ground (arith, e, f))
          | inl (done, f) ↦
              let after = (ensure_config_files dir d).0 in
              absurd (
                load_rules-Fails compile_cel yaml_daemon yaml_sets yaml_rules dir n text after
                  (kept_rules_dir dir d there) named
                  (kept_rules_file dir (rules_d dir) n (file text) d named held) bad live.rules
                  (rules-live_of compile_cel yaml_daemon yaml_sets yaml_rules dir
                    (load_daemon compile_cel yaml_daemon yaml_sets yaml_rules dir after)
                    (load_sets compile_cel yaml_daemon yaml_sets yaml_rules dir after)
                    (load_rules compile_cel yaml_daemon yaml_sets yaml_rules dir after) live
                    (ground (arith, e, f))))
        ]
      ]
