-- ===== src/Files/Reload.antt =====
-- What a reload of the configuration changes, and what makes it fail.
use microwaf.Prelude.{
  ◌≡◌, refl, ◌≤◌, Bool, true, false, List, [], ◌∷◌, length, arith, All, inl, inr, Bool-cases,
  Option-cases, nat_eq, list_eq, ◌⊎◌,
}
use mathlib.Core.Path.{subst}
use microwaf.Prelude.Order.{nat_order, list_order}
use microwaf.Prelude.Text.{Text}
use microwaf.Prelude.Result.{Result, ok, err, Result-cases}
use microwaf.Rule.{RuleSet, max_rules}
use microwaf.Rule.Valid.{IsWellFormed, IdsDistinct}
use microwaf.Config.{DaemonConfig, SetsConfig, YamlRules, compile_ruleset, ConfigRule}
use microwaf.Config.Compiled.{compile_ruleset-IsWellFormed}
use microwaf.State.{DaemonState, LiveConfig, swap_live}
use microwaf.Files.Paths.{FilePath}
use microwaf.Files.Fs.{Disk, exists, read_dir}
use microwaf.Files.Io.{LoadError}
use microwaf.Files.Seed.{rules_d, ensure_config_files}
use microwaf.Files.Load.{
  keep_yaml, sort_paths, read_all_rules, compile_loaded, load_rules, load, try_reload, load_daemon,
  load_sets, read_config, live_of,
}
use microwaf.Files.Watch.{Round, reload_if, watch_loop, wake}

-- the rules of a set that compiled
abbrev pub AreCompiled : {P : Type 0} → RuleSet P → Type 0
AreCompiled s = (length s.rules ≤ max_rules) × All IsWellFormed s.rules × IdsDistinct s.rules

module _ {P : Type 0} (compile_cel : Text → Result Text P)
    (yaml_daemon : Text → Result Text DaemonConfig) (yaml_sets : Text → Result Text SetsConfig)
    (yaml_rules : Text → Result Text YamlRules) (dir : FilePath) where
  compile_loaded-AreCompiled :
      (r : Result LoadError (List ConfigRule)) (s : RuleSet P)
      → compile_loaded compile_cel yaml_daemon yaml_sets yaml_rules r ≡ ok s
      → AreCompiled s
  unfolding compile_loaded
  compile_loaded-AreCompiled (err e) s h = absurd (ground arith)
  compile_loaded-AreCompiled (ok cs) s h = elim (Result-cases (compile_ruleset compile_cel cs)) [
    | inr (e, m) ↦ absurd (ground (arith, m))
    | inl (t, m) ↦
        let same : t ≡ s = ground (arith, m) in
        let (many, few, formed, distinct) = compile_ruleset-IsWellFormed compile_cel cs t m in
        subst AreCompiled same (ground (arith, many, few), formed, distinct)
  ]

  load_rules-AreCompiled :
      (d : Disk) (s : RuleSet P)
      → load_rules compile_cel yaml_daemon yaml_sets yaml_rules dir d ≡ ok s
      → AreCompiled s
  unfolding load_rules
  load_rules-AreCompiled d s h = elim (Bool-cases (exists d (rules_d dir))) [
    | inr none_there ↦
        let same : record { rules = [] } ≡ s = ground (arith, none_there) in
        subst AreCompiled same (omega arith, tt, tt)
    | inl there ↦ elim (Option-cases (read_dir (rules_d dir) d)) [
      | inl e ↦ absurd (ground (arith, there, e))
      | inr (files, e) ↦
          compile_loaded-AreCompiled
            (read_all_rules compile_cel yaml_daemon yaml_sets yaml_rules
              (sort_paths (keep_yaml files)) d)
            s (ground (arith, there, e))
    ]
  ]

  pub rules-live_of :
      (rd : Result LoadError DaemonConfig) (rs : Result LoadError SetsConfig)
      (rr : Result LoadError (RuleSet P)) (live : LiveConfig P)
      → live_of compile_cel yaml_daemon yaml_sets yaml_rules rd rs rr ≡ ok live
      → rr ≡ ok live.rules
  rules-live_of (err e) rs rr live h = absurd (ground arith)
  rules-live_of (ok a) (err e) rr live h = absurd (ground arith)
  rules-live_of (ok a) (ok b) (err e) live h = absurd (ground arith)
  rules-live_of (ok a) (ok b) (ok c) live h = ground arith

  load-AreCompiled :
      (d : Disk) (live : LiveConfig P)
      → (load compile_cel yaml_daemon yaml_sets yaml_rules dir d).1 ≡ ok live
      → AreCompiled live.rules
  unfolding load read_config
  load-AreCompiled d live h = elim (Result-cases (ensure_config_files dir d).1) [
    | inr (x, e) ↦ absurd (ground (arith, e, h))
    | inl (done, e) ↦
        let after = (ensure_config_files dir d).0 in
        load_rules-AreCompiled after live.rules (
          rules-live_of (load_daemon compile_cel yaml_daemon yaml_sets yaml_rules dir after)
            (load_sets compile_cel yaml_daemon yaml_sets yaml_rules dir after)
            (load_rules compile_cel yaml_daemon yaml_sets yaml_rules dir after) live
            (ground (arith, e, h)))
  ]

  -- What no reload touches, and what holds of the rules after each.
  abbrev pub Reloaded : DaemonState P → DaemonState P → Type 0
  Reloaded s t =
      (t ≡ record s { live = t.live })
      × AreCompiled t.live.rules
      × ((t.live ≡ s.live) ⊎ (t.live.daemon.mode ≡ s.mode))

  try_reload-Reloaded :
      (d : Disk) (s : DaemonState P)
      → AreCompiled s.live.rules
      → Reloaded s (try_reload compile_cel yaml_daemon yaml_sets yaml_rules dir d s).1
  unfolding try_reload swap_live
  try_reload-Reloaded d s valid =
      elim (Result-cases (load compile_cel yaml_daemon yaml_sets yaml_rules dir d).1) [
        | inl (live, e) ↦ rw e (refl, load-AreCompiled d live e, inr refl)
        | inr (x, e) ↦ rw e (refl, valid, inl refl)
      ]

  reload_if-Reloaded :
      (b : Bool) (d : Disk) (s : DaemonState P)
      → AreCompiled s.live.rules
      → Reloaded s (reload_if compile_cel yaml_daemon yaml_sets yaml_rules dir b d s)
  unfolding reload_if
  reload_if-Reloaded false d s valid = (refl, valid, inl refl)
  reload_if-Reloaded true d s valid = try_reload-Reloaded d s valid

  Reloaded-trans : (s t u : DaemonState P) → Reloaded s t → Reloaded t u → Reloaded s u
  Reloaded-trans s t u (same, _, old) (same', valid, new) =
      (ground (arith, same, same'), valid, ground (arith, same, old, new))

  -- However often the watcher wakes, and whatever it finds on the disk, only the configuration of
  -- the daemon changes, and the rules in force are at most 256, well-formed and distinct by id, if
  -- those that it started with were.
  pub watch_loop-Reloaded :
      (rounds : List Round) (s : DaemonState P)
      → AreCompiled s.live.rules
      → Reloaded s (watch_loop compile_cel yaml_daemon yaml_sets yaml_rules dir rounds s)
  unfolding watch_loop
  watch_loop-Reloaded [] s valid = (refl, valid, inl refl)
  watch_loop-Reloaded (r ∷ rounds) s valid = elim (Option-cases (wake r.received r.sighup)) [
    | inl closed ↦ rw (closed, watch_loop) (refl, valid, inl refl)
    | inr (got, woken) ↦
        let next = reload_if compile_cel yaml_daemon yaml_sets yaml_rules dir got r.disk s in
        let step = reload_if-Reloaded got r.disk s valid in
        rw (woken, watch_loop)
          (Reloaded-trans s next
            (watch_loop compile_cel yaml_daemon yaml_sets yaml_rules dir rounds next) step
            (watch_loop-Reloaded rounds next step.1))
  ]
