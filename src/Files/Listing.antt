-- ===== src/Files/Listing.antt =====
-- A rules file that cannot be read or parsed is never skipped: with it in `rules.d` no configuration
-- loads.
use microwaf.Prelude.{
  Among, ◌≡◌, ◌≢◌, refl, true, some, List, [], ◌∷◌, arith, inl, inr, Bool-cases, Option-cases, ◌⊎◌,
  nat_eq, list_eq, list_beq_iff, ◌==◌,
}
use mathlib.Core.List.{reverse}
use microwaf.Prelude.Order.{insert_sorted, sort, nat_order, list_order}
use microwaf.Prelude.Text.{Text}
use microwaf.Prelude.Result.{Result, ok, err, Result-cases}
use microwaf.Rule.{RuleSet}
use microwaf.Config.{ConfigRule, DaemonConfig, SetsConfig, YamlRules, parse_rules_yaml}
use microwaf.HashMap.{HashMap, get}
use microwaf.Files.Paths.{FilePath}
use microwaf.Files.Fs.{Node, Disk, node_at, exists, file, read_to_string, read_dir, list_dir}
use microwaf.Files.Io.{LoadError}
use microwaf.Files.Seed.{is_rules_yaml, rules_d}
use microwaf.Files.Load.{
  keep_yaml, sort_paths, read_rules, read_all_rules, compile_loaded, load_rules, extend,
}

Among-list_dir :
    (n : Text) (q : FilePath) (v : Node) (m : HashMap FilePath Node)
    → get (n ∷ q) m ≡ some v
    → Among (n ∷ q) (list_dir q m)
unfolding list_dir get
Among-list_dir n q v [] h = absurd (ground (arith, h))
Among-list_dir n q v (([], w) ∷ m) h = Among-list_dir n q v m h
Among-list_dir n q v ((k ∷ p, w) ∷ m) h = elim (Bool-cases (p == q)) [
  | inr there ↦ rw there (Among-list_dir n q v m (ground (arith, h, there)))
  | inl here ↦ rw here (elim (Bool-cases (k == n)) [
    | inl same ↦ inl (ground (arith, list_beq_iff k n, list_beq_iff p q, here, same))
    | inr differ ↦ inr (Among-list_dir n q v m (ground (arith, h, here, differ)))
  ])
]

Among-keep_yaml :
    (p : FilePath) (l : List FilePath) → is_rules_yaml p ≡ true → Among p l → Among p (keep_yaml l)
Among-keep_yaml p [] r h = h
Among-keep_yaml p (x ∷ l) r h = ground (arith, r, h, Among-keep_yaml p l r)

Among-insert_sorted :
    (p x : FilePath) (l : List FilePath) → (x ≡ p) ⊎ Among p l → Among p (insert_sorted reverse x l)
unfolding insert_sorted
Among-insert_sorted p x [] h = h
Among-insert_sorted p x (y ∷ l) (inl first) = ground (arith, Among-insert_sorted p x l (inl first))
Among-insert_sorted p x (y ∷ l) (inr (inl here)) = ground (arith, here)
Among-insert_sorted p x (y ∷ l) (inr (inr later)) =
    ground (arith, later, Among-insert_sorted p x l (inr later))

Among-sort : (p : FilePath) (l : List FilePath) → Among p l → Among p (sort_paths l)
unfolding sort_paths sort
Among-sort p [] h = h
Among-sort p (x ∷ l) (inl first) = Among-insert_sorted p x (sort_paths l) (inl first)
Among-sort p (x ∷ l) (inr later) =
    Among-insert_sorted p x (sort_paths l) (inr (Among-sort p l later))

module _ {P : Type 0} (compile_cel : Text → Result Text P)
    (yaml_daemon : Text → Result Text DaemonConfig) (yaml_sets : Text → Result Text SetsConfig)
    (yaml_rules : Text → Result Text YamlRules) where
  extend_ok :
      (r rest : Result LoadError (List ConfigRule)) (cs : List ConfigRule)
      → extend compile_cel yaml_daemon yaml_sets yaml_rules r rest ≡ ok cs
      → ((a : List ConfigRule) × (r ≡ ok a)) × ((b : List ConfigRule) × (rest ≡ ok b))
  extend_ok (err e) rest cs h = absurd (ground arith)
  extend_ok (ok a) (err e) cs h = absurd (ground arith)
  extend_ok (ok a) (ok b) cs h = ((a, refl), (b, refl))

  read_all_rules-Fails :
      (p : FilePath) (d : Disk) (l : List FilePath)
      → Among p l
      → ((cs : List ConfigRule)
          → read_rules compile_cel yaml_daemon yaml_sets yaml_rules p d ≢ ok cs)
      → (cs : List ConfigRule)
      → read_all_rules compile_cel yaml_daemon yaml_sets yaml_rules l d ≢ ok cs
  unfolding read_all_rules
  read_all_rules-Fails p d [] h bad cs e = absurd h
  read_all_rules-Fails p d (x ∷ l) (inl same) bad cs e =
      let ((a, read), rest) =
        extend_ok (read_rules compile_cel yaml_daemon yaml_sets yaml_rules x d)
          (read_all_rules compile_cel yaml_daemon yaml_sets yaml_rules l d) cs e in
      bad a (rw (← same) read)
  read_all_rules-Fails p d (x ∷ l) (inr later) bad cs e =
      let (first, (b, rest)) =
        extend_ok (read_rules compile_cel yaml_daemon yaml_sets yaml_rules x d)
          (read_all_rules compile_cel yaml_daemon yaml_sets yaml_rules l d) cs e in
      read_all_rules-Fails p d l later bad b rest

  module _ (dir : FilePath) (n text : Text) (d : Disk) (there : exists d (rules_d dir) ≡ true)
      (named : is_rules_yaml (n ∷ rules_d dir) ≡ true)
      (held : node_at d (n ∷ rules_d dir) ≡ some (file text))
      (bad : (cs : List ConfigRule) → parse_rules_yaml yaml_rules text ≢ ok cs) where
    read_rules-Fails :
        (cs : List ConfigRule)
        → read_rules compile_cel yaml_daemon yaml_sets yaml_rules (n ∷ rules_d dir) d ≢ ok cs
    unfolding read_rules read_to_string
    read_rules-Fails cs e = elim (Result-cases (parse_rules_yaml yaml_rules text)) [
      | inl (a, f) ↦ bad a f
      | inr (x, f) ↦ absurd (ground (arith, held, f, e))
    ]

    pub load_rules-Fails :
        (rules : RuleSet P)
        → load_rules compile_cel yaml_daemon yaml_sets yaml_rules dir d ≢ ok rules
    unfolding load_rules read_dir compile_loaded
    load_rules-Fails rules e = elim (Option-cases (read_dir (rules_d dir) d)) [
      | inl f ↦ absurd (ground (arith, there, f, e))
      | inr (files, f) ↦
          let listed : files ≡ list_dir (rules_d dir) d.nodes = ground (arith, f) in
          let found = Among-sort (n ∷ rules_d dir) (keep_yaml (list_dir (rules_d dir) d.nodes)) (
            Among-keep_yaml (n ∷ rules_d dir) (list_dir (rules_d dir) d.nodes) named
              (Among-list_dir n (rules_d dir) (file text) d.nodes held)) in
          elim (Result-cases (
            read_all_rules compile_cel yaml_daemon yaml_sets yaml_rules
              (sort_paths (keep_yaml (list_dir (rules_d dir) d.nodes))) d)) [
                | inl (cs, g) ↦
                    read_all_rules-Fails (n ∷ rules_d dir) d _ found read_rules-Fails cs g
                | inr (x, g) ↦ absurd (ground (arith, there, f, listed, g, e))
              ]
    ]
