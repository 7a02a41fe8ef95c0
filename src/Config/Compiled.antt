-- ===== src/Config/Compiled.antt =====
-- What a rules file that compiles gives.
use microwaf.Prelude.{◌≤◌, ◌≡◌, List, [], ◌∷◌, length, arith, All, inl, inr}
use mathlib.Core.Path.{subst}
use microwaf.Prelude.Text.{Text}
use microwaf.Prelude.Result.{Result, ok, Result-cases}
use microwaf.Rule.{Rule, RuleSet, new_ruleset, max_rules}
use microwaf.Rule.Valid.{IsWellFormed, IdsDistinct, new_ruleset_iff}
use microwaf.Config.Defs.{ConfigRule, compile, compile_all, compile_ruleset}

module _ {P : Type 0} (compile_cel : Text → Result Text P) where
  compile_all-length :
      (cs : List ConfigRule) (rs : List (Rule P))
      → compile_all compile_cel cs ≡ ok rs
      → length rs ≡ length cs
  unfolding compile_all
  compile_all-length [] rs h = ground arith
  compile_all-length (c ∷ cs) rs h = elim (Result-cases (compile compile_cel c)) [
    | inr (e, n) ↦ absurd (ground (arith, n))
    | inl (r, n) ↦ elim (Result-cases (compile_all compile_cel cs)) [
      | inr (e, m) ↦ absurd (ground (arith, n, m))
      | inl (rest, m) ↦ ground (arith, n, m, compile_all-length cs rest m)
    ]
  ]

  -- A list of configured rules that compiles has at most 256 rules, and gives as many rules, all
  -- well-formed and with distinct ids.
  pub compile_ruleset-IsWellFormed :
      (cs : List ConfigRule) (s : RuleSet P)
      → compile_ruleset compile_cel cs ≡ ok s
      → (length s.rules ≡ length cs)
        × (length cs ≤ max_rules)
        × All IsWellFormed s.rules
        × IdsDistinct s.rules
  unfolding compile_ruleset
  compile_ruleset-IsWellFormed cs s h = elim (Result-cases (compile_all compile_cel cs)) [
    | inr (e, m) ↦ absurd (ground (arith, m))
    | inl (rs, m) ↦
        let made : new_ruleset rs ≡ ok s = ground (arith, m) in
        let (few, formed, distinct, same) = (new_ruleset_iff rs s).0 made in
        rw same (
          compile_all-length cs rs m,
          subst (λ n. n ≤ max_rules) (compile_all-length cs rs m) few,
          formed,
          distinct,
        )
  ]
