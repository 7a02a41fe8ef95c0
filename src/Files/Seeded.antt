-- ===== src/Files/Seeded.antt =====
-- What stands on the disk once `ensure_config_files` has succeeded.
use microwaf.Prelude.{
  ◌≡◌, refl, Bool, true, some, [], ◌∷◌, arith, inl, inr, Bool-cases, Option-cases, nat_eq, list_eq,
  list_beq_iff,
}
use microwaf.Prelude.Text.{Text, codes}
use microwaf.Prelude.Result.{ok, Result-cases}
use microwaf.HashMap.{HashMap, get, get-insert_self}
use microwaf.Files.Paths.{FilePath, file_name, ends_with, extension, rsplit_once}
use microwaf.Files.Fs.{Node, file, Disk, node_at, exists, write, list_dir, read_dir}
use microwaf.Files.Io.{Io, ◌>>◌}
use microwaf.Files.Seed.{
  write_text, make_parent, write_file, with_newline, seed_if_missing, seed_baseline, seed_files,
  is_rules_yaml, any_yaml, rules_dir_has_yaml, daemon_path, sets_path, baseline_path, rules_d,
  ensure_config_files, make_config_dirs, write_examples, default_daemon_yaml, default_sets_yaml,
  default_rules_yaml,
}
use microwaf.Files.Keeps.{seed_if_missing-Kept, seed_baseline-Kept}

write_file-exists :
    (p : FilePath) (text : Text) (d : Disk)
    → (write_file p text d).1 ≡ ok tt
    → exists (write_file p text d).0 p ≡ true
unfolding write
write_file-exists p text d h = ground (arith, h, get-insert_self p (file text) d.nodes)

write_text-exists :
    (p : FilePath) (text : Text) (d : Disk)
    → (write_text p text d).1 ≡ ok tt
    → exists (write_text p text d).0 p ≡ true
unfolding write_text
write_text-exists p text d h = elim (Result-cases (make_parent p d).1) [
  | inl (a, e) ↦ ground (arith, e, h, write_file-exists p (with_newline text) (make_parent p d).0)
  | inr (x, e) ↦ absurd (ground (arith, e, h))
]

seed_if_missing-exists :
    (p : FilePath) (text : Text) (d : Disk) (b : Bool)
    → (seed_if_missing p text d).1 ≡ ok b
    → exists (seed_if_missing p text d).0 p ≡ true
unfolding seed_if_missing
seed_if_missing-exists p text d b h = ground (arith, h, write_text-exists p text d)

exists_of :
    (p : FilePath) (f : Disk → Disk) (d : Disk)
    → ((v : Node) → node_at d p ≡ some v → node_at (f d) p ≡ some v)
    → exists d p ≡ true
    → exists (f d) p ≡ true
exists_of p f d keep h = elim (Option-cases (node_at d p)) [
  | inl e ↦ absurd (ground (arith, e, h))
  | inr (v, e) ↦ ground (arith, keep v e)
]

-- An entry that is a rules file is listed.
any_yaml-list_dir :
    (n : Text) (q : FilePath) (v : Node) (m : HashMap FilePath Node)
    → is_rules_yaml (n ∷ q) ≡ true
    → get (n ∷ q) m ≡ some v
    → any_yaml (list_dir q m) ≡ true
unfolding list_dir get
any_yaml-list_dir n q v [] r h = absurd (ground (arith, h))
any_yaml-list_dir n q v (([], w) ∷ m) r h = any_yaml-list_dir n q v m r h
any_yaml-list_dir n q v ((k ∷ p, w) ∷ m) r h =
    ground (arith, r, h, list_beq_iff p q, list_beq_iff k n, any_yaml-list_dir n q v m r)

baseline_is_yaml : (dir : FilePath) → is_rules_yaml (baseline_path dir) ≡ true
unfolding is_rules_yaml file_name ends_with extension rsplit_once
baseline_is_yaml dir = refl

abbrev pub Listed : FilePath → Disk → Type 0
Listed dir d = any_yaml (list_dir (rules_d dir) d.nodes) ≡ true

seed_baseline-Listed :
    (dir : FilePath) (d : Disk) (b : Bool)
    → (seed_baseline dir d).1 ≡ ok b
    → Listed dir (seed_baseline dir d).0
unfolding seed_baseline rules_dir_has_yaml read_dir
seed_baseline-Listed dir d b h = elim (Bool-cases (rules_dir_has_yaml (rules_d dir) d)) [
  | inl has ↦ ground (arith, has)
  | inr lacks ↦
      let there =
        seed_if_missing-exists (baseline_path dir) default_rules_yaml d b
          (ground (arith, lacks, h)) in
      elim (Option-cases (
        node_at (seed_if_missing (baseline_path dir) default_rules_yaml d).0 (baseline_path dir))) [
          | inl e ↦ absurd (ground (arith, e, there))
          | inr (v, e) ↦
              let listed =
                any_yaml-list_dir (codes "00-baseline.yaml") (rules_d dir) v
                  (seed_if_missing (baseline_path dir) default_rules_yaml d).0.nodes
                  (baseline_is_yaml dir) e in
              ground (arith, lacks, listed)
        ]
]

-- The steps of a sequence that succeeded.
bind_ok :
    {A B : Type 0} (m : Io A) (n : Io B) (d : Disk) (b : B)
    → ((m >> n) d).1 ≡ ok b
    → (a : A) × ((m d).1 ≡ ok a) × ((n (m d).0).1 ≡ ok b) × (((m >> n) d).0 ≡ (n (m d).0).0)
bind_ok m n d b h = elim (Result-cases (m d).1) [
  | inl (a, e) ↦ (a, e, ground (arith, e, h), ground (arith, e))
  | inr (x, e) ↦ absurd (ground (arith, e, h))
]

abbrev pub Seeded : FilePath → Disk → Type 0
Seeded dir d =
    (exists d (daemon_path dir) ≡ true) × (exists d (sets_path dir) ≡ true) × Listed dir d

seed_files-Seeded :
    (dir : FilePath) (d : Disk) (b : Bool)
    → (seed_files dir d).1 ≡ ok b
    → Seeded dir (seed_files dir d).0
unfolding seed_files
seed_files-Seeded dir d b h =
    let m = seed_if_missing (daemon_path dir) default_daemon_yaml in
    let n = seed_if_missing (sets_path dir) default_sets_yaml in
    let (a, done, last, same) = bind_ok (m >> n) (seed_baseline dir) d b h in
    let (a', first, second, same') = bind_ok m n d a done in
    rw (same, same')
      (
        exists_of (daemon_path dir) (λ e. (seed_baseline dir e).0) (n (m d).0).0
            (λ v. seed_baseline-Kept (daemon_path dir) v dir (n (m d).0).0)
            (exists_of (daemon_path dir) (λ e. (n e).0) (m d).0
              (λ v.
                seed_if_missing-Kept (daemon_path dir) v (sets_path dir) default_sets_yaml (m d).0)
              (seed_if_missing-exists (daemon_path dir) default_daemon_yaml d a' first)),
        exists_of (sets_path dir) (λ e. (seed_baseline dir e).0) (n (m d).0).0
            (λ v. seed_baseline-Kept (sets_path dir) v dir (n (m d).0).0)
            (seed_if_missing-exists (sets_path dir) default_sets_yaml (m d).0 a second),
        seed_baseline-Listed dir (n (m d).0).0 b (rw (← same') last),
      )

-- Once `ensure_config_files` has succeeded, `daemon.yaml` and `sets.yaml` exist and `rules.d` lists
-- a rules file, whatever the disk was before: a `rules.d` that was left empty is seeded again.
pub ensure_config_files-Seeded :
    (dir : FilePath) (d : Disk)
    → (ensure_config_files dir d).1 ≡ ok tt
    → Seeded dir (ensure_config_files dir d).0
unfolding ensure_config_files
ensure_config_files-Seeded dir d h =
    let before = make_config_dirs dir >> write_examples dir in
    let (b, done, last, same) = bind_ok (before >> seed_files dir) (λ e. (e, ok tt)) d tt h in
    let (a, first, second, same') = bind_ok before (seed_files dir) d b done in
    rw (same, same') (seed_files-Seeded dir (before d).0 b second)
