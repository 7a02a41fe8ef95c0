-- ===== src/Files/Keeps.antt =====
-- Operations that change nothing that is on the disk already, but for the paths that they write.
use microwaf.Prelude.{
  ◌≡◌, ◌≢◌, Bool, true, false, some, [], ◌∷◌, arith, inl, inr, Bool-cases, nat_eq, list_eq,
  list_beq_iff, ◌==◌,
}
use microwaf.Prelude.Text.{Text}
use microwaf.Prelude.Result.{Result-cases}
use microwaf.HashMap.{get-insert, get-insert_ne}
use microwaf.Files.Paths.{FilePath}
use microwaf.Files.Fs.{Node, file, directory, Disk, node_at, create_dir_all, make_dir, write}
use microwaf.Files.Io.{Io, return, ◌>>=◌, ◌>>◌, attempt, make_dirs}
use microwaf.Files.Seed.{
  example_path, write_text, write_example, seed_if_missing, seed_baseline, make_parent, write_file,
  daemon_path, sets_path, baseline_path, rules_d, ensure_config_files, default_rules_yaml,
  default_daemon_yaml, default_sets_yaml, make_config_dirs, write_examples, seed_files,
}

module _ (q : FilePath) (v : Node) where
  -- what stands at the path stays there
  abbrev pub KeptBy : (Disk → Disk) → Type 0
  KeptBy f = (d : Disk) → node_at d q ≡ some v → node_at (f d) q ≡ some v

  make_dir-Kept :
      (made : Bool) (p : FilePath) (d : Disk)
      → node_at d q ≡ some v
      → node_at (make_dir made p d).0 q ≡ some v
  make_dir-Kept false p d h = h
  make_dir-Kept true p d h = ground (arith, get-insert p q directory d.nodes, list_beq_iff p q)

  create_dir_all-Kept : (p : FilePath) → KeptBy (λ d. (create_dir_all p d).0)
  unfolding create_dir_all
  create_dir_all-Kept [] d h = h
  create_dir_all-Kept (n ∷ p) d h = ground (
    arith,
    create_dir_all-Kept p d h,
    make_dir-Kept (create_dir_all p d).1 (n ∷ p) (create_dir_all p d).0,
  )

  bind-Kept :
      {A B : Type 0} (m : Io A) (f : A → Io B)
      → KeptBy (λ d. (m d).0)
      → ((a : A) → KeptBy (λ d. (f a d).0))
      → KeptBy (λ d. ((m >>= f) d).0)
  bind-Kept m f hm hf d h = elim (Result-cases (m d).1) [
    | inl (a, e) ↦ ground (arith, e, hm d h, hf a (m d).0)
    | inr (x, e) ↦ ground (arith, e, hm d h)
  ]

  seq-Kept :
      {A B : Type 0} (m : Io A) (n : Io B)
      → KeptBy (λ d. (m d).0)
      → KeptBy (λ d. (n d).0)
      → KeptBy (λ d. ((m >> n) d).0)
  seq-Kept m n hm hn = bind-Kept m (λ done. n) hm (λ done. hn)

  seq3-Kept :
      {A B C : Type 0} (m : Io A) (n : Io B) (k : Io C)
      → KeptBy (λ d. (m d).0)
      → KeptBy (λ d. (n d).0)
      → KeptBy (λ d. (k d).0)
      → KeptBy (λ d. ((m >> n >> k) d).0)
  seq3-Kept m n k hm hn hk = seq-Kept (m >> n) k (seq-Kept m n hm hn) hk

  make_dirs-Kept : (p : FilePath) → KeptBy (λ d. (make_dirs p d).0)
  unfolding make_dirs
  make_dirs-Kept p d h = ground (arith, create_dir_all-Kept p d h)

  make_parent-Kept : (p : FilePath) → KeptBy (λ d. (make_parent p d).0)
  make_parent-Kept [] d h = h
  make_parent-Kept (n ∷ p) d h = ground (arith, make_dirs-Kept p d h)

  write_file-Kept : (p : FilePath) (text : Text) → p ≢ q → KeptBy (λ d. (write_file p text d).0)
  unfolding write
  write_file-Kept p text n d h = ground (arith, get-insert_ne p q (file text) d.nodes n)

  write_text-Kept : (p : FilePath) (text : Text) → p ≢ q → KeptBy (λ d. (write_text p text d).0)
  unfolding write_text
  write_text-Kept p text n = seq-Kept (make_parent p) _ (make_parent-Kept p) (write_file-Kept p _ n)

  write_example-Kept :
      (p : FilePath) (text : Text) → example_path p ≢ q → KeptBy (λ d. (write_example p text d).0)
  unfolding write_example
  write_example-Kept p text n =
      seq-Kept (write_text (example_path p) text) _ (write_text-Kept (example_path p) text n)
        (λ d h. h)

  -- A path that exists is not seeded.
  pub seed_if_missing-Kept :
      (p : FilePath) (text : Text) → KeptBy (λ d. (seed_if_missing p text d).0)
  unfolding seed_if_missing
  seed_if_missing-Kept p text d h = elim (Bool-cases (p == q)) [
    | inl same ↦ let e : p ≡ q = (list_beq_iff p q).0 same in ground (arith, e, h)
    | inr differ ↦ ground (
      arith,
      h,
      list_beq_iff p q,
      seq-Kept (write_text p text) (return true)
          (write_text-Kept p text (ground (arith, list_beq_iff p q, differ))) (λ d h. h) d h,
    )
  ]

  pub seed_baseline-Kept : (dir : FilePath) → KeptBy (λ d. (seed_baseline dir d).0)
  unfolding seed_baseline
  seed_baseline-Kept dir d h =
      ground (arith, seed_if_missing-Kept (baseline_path dir) default_rules_yaml d h)

  make_config_dirs-Kept : (dir : FilePath) → KeptBy (λ d. (make_config_dirs dir d).0)
  unfolding make_config_dirs
  make_config_dirs-Kept dir =
      seq-Kept (make_dirs dir) (make_dirs (rules_d dir)) (make_dirs-Kept dir)
        (make_dirs-Kept (rules_d dir))

  write_examples-Kept :
      (dir : FilePath)
      → example_path (daemon_path dir) ≢ q
      → example_path (sets_path dir) ≢ q
      → example_path (baseline_path dir) ≢ q
      → KeptBy (λ d. (write_examples dir d).0)
  unfolding write_examples
  write_examples-Kept dir nd ns nb =
      seq3-Kept (attempt (write_example (daemon_path dir) default_daemon_yaml))
        (attempt (write_example (sets_path dir) default_sets_yaml))
        (attempt (write_example (baseline_path dir) default_rules_yaml))
        (write_example-Kept (daemon_path dir) default_daemon_yaml nd)
        (write_example-Kept (sets_path dir) default_sets_yaml ns)
        (write_example-Kept (baseline_path dir) default_rules_yaml nb)

  pub seed_files-Kept : (dir : FilePath) → KeptBy (λ d. (seed_files dir d).0)
  unfolding seed_files
  seed_files-Kept dir =
      seq3-Kept (seed_if_missing (daemon_path dir) default_daemon_yaml)
        (seed_if_missing (sets_path dir) default_sets_yaml) (seed_baseline dir)
        (seed_if_missing-Kept (daemon_path dir) default_daemon_yaml)
        (seed_if_missing-Kept (sets_path dir) default_sets_yaml) (seed_baseline-Kept dir)

  -- Whether or not it succeeds, what stands on the disk before `ensure_config_files` stands there
  -- after it, unless it is one of the three example files: no live file is overwritten.
  pub ensure_config_files-Kept :
      (dir : FilePath)
      → example_path (daemon_path dir) ≢ q
      → example_path (sets_path dir) ≢ q
      → example_path (baseline_path dir) ≢ q
      → (d : Disk) → node_at d q ≡ some v
      → node_at (ensure_config_files dir d).0 q ≡ some v
  unfolding ensure_config_files
  ensure_config_files-Kept dir nd ns nb =
      seq-Kept (make_config_dirs dir >> write_examples dir >> seed_files dir) (return tt)
        (seq3-Kept (make_config_dirs dir) (write_examples dir) (seed_files dir)
          (make_config_dirs-Kept dir) (write_examples-Kept dir nd ns nb) (seed_files-Kept dir))
        (λ d h. h)
