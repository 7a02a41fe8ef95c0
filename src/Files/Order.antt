-- ===== src/Files/Order.antt =====
-- The rules that are loaded do not depend on the order in which a directory is listed.
use microwaf.Prelude.{
  ◌≡◌, refl, sym, ap, ap₂, ◌∙◌, List, [], ◌∷◌, arith, inl, inr, Bool-cases, nat_eq, list_eq, ◌==◌,
  if◌then◌else◌,
}
use mathlib.Core.List.Permᴰ
use mathlib.Core.List.{Permᴰ, reverse, reverse-reverse}
use microwaf.Prelude.Order.{sort-perm, nat_order, list_order}
use microwaf.Prelude.Text.{Text}
use microwaf.Prelude.Result.{Result}
use microwaf.Config.{DaemonConfig, SetsConfig, YamlRules}
use microwaf.HashMap.{HashMap, get, Distinct}
use microwaf.HashMap.Perm.{get-perm}
use microwaf.Files.Paths.{FilePath}
use microwaf.Files.Fs.{Node, Disk, node_at, read_to_string, read_dir, list_dir}
use microwaf.Files.Seed.{is_rules_yaml, rules_d}
use microwaf.Files.Load.{keep_yaml, sort_paths, read_rules, read_all_rules, load_rules, extend}

abbrev listed_first : FilePath → FilePath × Node → List FilePath → List FilePath
listed_first p ([], v) l = l
listed_first p (n ∷ q, v) l = if q == p then (n ∷ q) ∷ l else l

list_dir-cons :
    (p : FilePath) (e : FilePath × Node) (m : HashMap FilePath Node)
    → list_dir p (e ∷ m) ≡ listed_first p e (list_dir p m)
unfolding list_dir
list_dir-cons p ([], v) m = refl
list_dir-cons p (n ∷ q, v) m = refl

listed_first-perm :
    (p : FilePath) (e : FilePath × Node) {l m : List FilePath}
    → Permᴰ l m
    → Permᴰ (listed_first p e l) (listed_first p e m)
listed_first-perm p ([], v) h = h
listed_first-perm p (n ∷ q, v) h = elim (Bool-cases (q == p)) [
  | inl e ↦ rw e (Permᴰ.cons refl h)
  | inr e ↦ rw e h
]

listed_first_swap :
    (p : FilePath) (a b : FilePath × Node) (l : List FilePath)
    → Permᴰ (listed_first p a (listed_first p b l)) (listed_first p b (listed_first p a l))
listed_first_swap p ([], v) b l = Permᴰ.refl (listed_first p b l)
listed_first_swap p (n ∷ q, v) ([], w) l = Permᴰ.refl (listed_first p (n ∷ q, v) l)
listed_first_swap p (n ∷ q, v) (m ∷ r, w) l = elim (Bool-cases (q == p)) [
  | inr off ↦ rw off (Permᴰ.refl (listed_first p (m ∷ r, w) l))
  | inl first ↦ elim (Bool-cases (r == p)) [
    | inl second ↦ rw (first, second) (Permᴰ.swap refl refl)
    | inr off ↦ rw (first, off) (Permᴰ.refl ((n ∷ q) ∷ l))
  ]
]

list_dir-perm :
    (p : FilePath) {l m : HashMap FilePath Node} → Permᴰ l m → Permᴰ (list_dir p l) (list_dir p m)
unfolding list_dir
list_dir-perm p (Permᴰ.nil) = Permᴰ.nil
list_dir-perm p (Permᴰ.cons {a = a} {b = b} {l₁ = l} {l₂ = m} e h) =
    rw (e, list_dir-cons p b l, list_dir-cons p b m) (listed_first-perm p b (list_dir-perm p h))
list_dir-perm p (Permᴰ.swap {a = a} {b = b} {l = l} e f) =
    rw
      (
        ← e,
        ← f,
        list_dir-cons p a (b ∷ l),
        list_dir-cons p b l,
        list_dir-cons p b (a ∷ l),
        list_dir-cons p a l,
      )
      (listed_first_swap p a b (list_dir p l))
list_dir-perm p (Permᴰ.trans h k) = Permᴰ.trans (list_dir-perm p h) (list_dir-perm p k)

abbrev kept_first : FilePath → List FilePath → List FilePath
kept_first p l = if is_rules_yaml p then p ∷ l else l

kept_first_swap :
    (a b : FilePath) (l : List FilePath)
    → Permᴰ (kept_first a (kept_first b l)) (kept_first b (kept_first a l))
kept_first_swap a b l = elim (Bool-cases (is_rules_yaml a)) [
  | inr off ↦ rw off (Permᴰ.refl (kept_first b l))
  | inl first ↦ elim (Bool-cases (is_rules_yaml b)) [
    | inl second ↦ rw (first, second) (Permᴰ.swap refl refl)
    | inr off ↦ rw (first, off) (Permᴰ.refl (a ∷ l))
  ]
]

kept_first-perm :
    (a : FilePath) {l m : List FilePath} → Permᴰ l m → Permᴰ (kept_first a l) (kept_first a m)
kept_first-perm a h = elim (Bool-cases (is_rules_yaml a)) [
  | inl e ↦ rw e (Permᴰ.cons refl h)
  | inr e ↦ rw e h
]

keep_yaml-perm : {l m : List FilePath} → Permᴰ l m → Permᴰ (keep_yaml l) (keep_yaml m)
keep_yaml-perm (Permᴰ.nil) = Permᴰ.nil
keep_yaml-perm (Permᴰ.cons {a = a} {b = b} e h) = rw e (kept_first-perm b (keep_yaml-perm h))
keep_yaml-perm (Permᴰ.swap {a = a} {b = b} {l = l} e f) =
    rw (← e, ← f) (kept_first_swap a b (keep_yaml l))
keep_yaml-perm (Permᴰ.trans h k) = Permᴰ.trans (keep_yaml-perm h) (keep_yaml-perm k)

reverse_injective : (a b : FilePath) → reverse a ≡ reverse b → a ≡ b
reverse_injective a b h = sym (reverse-reverse a) ∙ ap reverse h ∙ reverse-reverse b

sort_paths-perm : {l m : List FilePath} → Permᴰ l m → sort_paths l ≡ sort_paths m
unfolding sort_paths
sort_paths-perm h = sort-perm reverse reverse_injective h

module _ {P : Type 0} (compile_cel : Text → Result Text P)
    (yaml_daemon : Text → Result Text DaemonConfig) (yaml_sets : Text → Result Text SetsConfig)
    (yaml_rules : Text → Result Text YamlRules) (d : Disk) (nodes : HashMap FilePath Node)
    (reordered : Permᴰ d.nodes nodes) (distinct : Distinct d.nodes) where
  abbrev other : Disk
  other = record d { nodes = nodes }

  same_nodes : (p : FilePath) → node_at d p ≡ get p nodes
  same_nodes = (get-perm reordered distinct).0

  read_rules_same :
      (p : FilePath)
      → read_rules compile_cel yaml_daemon yaml_sets yaml_rules p d
        ≡ read_rules compile_cel yaml_daemon yaml_sets yaml_rules p other
  unfolding read_rules read_to_string
  read_rules_same p = ground (arith, same_nodes p)

  read_all_rules_same :
      (l : List FilePath)
      → read_all_rules compile_cel yaml_daemon yaml_sets yaml_rules l d
        ≡ read_all_rules compile_cel yaml_daemon yaml_sets yaml_rules l other
  unfolding read_all_rules
  read_all_rules_same [] = refl
  read_all_rules_same (p ∷ l) =
      ap₂ (extend compile_cel yaml_daemon yaml_sets yaml_rules) (read_rules_same p)
        (read_all_rules_same l)

  -- Two listings of the same files in different orders load the same rules, or fail alike.
  pub load_rules-perm :
      (dir : FilePath)
      → load_rules compile_cel yaml_daemon yaml_sets yaml_rules dir d
        ≡ load_rules compile_cel yaml_daemon yaml_sets yaml_rules dir (record d { nodes = nodes })
  unfolding load_rules read_dir
  load_rules-perm dir = ground (
    arith,
    same_nodes (rules_d dir),
    read_all_rules_same (sort_paths (keep_yaml (list_dir (rules_d dir) nodes))),
    sort_paths-perm (keep_yaml-perm (list_dir-perm (rules_d dir) reordered)),
  )
