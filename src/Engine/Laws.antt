-- ===== src/Engine/Laws.antt =====
-- The engine reports exactly the rules whose windowed sum is over the limit.
use microwaf.HashMap.{get}
use microwaf.Window.Recent.{recent}
use microwaf.Prelude.{nat_eq, list_eq, none, some, ◌∙◌, ap, u64_max, Option}
use microwaf.Window.Sums.{window_sum_lem, total_of}
use microwaf.Prelude.{
  ◌≡◌, ◌≤◌, ◌<◌, refl, List, [], ◌∷◌, ltb, arith, Bool-cases, inl, inr, ℕ, min, Option-cases, max,
}
use microwaf.Rule.{RuleId, Metric, per_second, per_minute, Rule, RuleSet, Window, secs}
use microwaf.Window.{SlidingWindow, RuleWindows, rule_sum}
use microwaf.Policy.{Violation}
use microwaf.Engine.Defs.{observed, violation_of, evaluate_rules, evaluate}

-- the seconds that a rule looks back
abbrev pub seconds_of : Window → ℕ
seconds_of per_second = 1
seconds_of per_minute = 60

-- the exact total of a metric over the last seconds of a window, cut at the largest `u64`
abbrev pub total_in : Option SlidingWindow → Metric → Window → ℕ
total_in none metric v = 0
total_in (some w) metric v = min (total_of metric (recent w (seconds_of v))) u64_max

-- what a rule has counted within its window, in the sliding window that is kept for it
abbrev pub counted : {P : Type 0} → RuleWindows → Rule P → ℕ
counted m r = total_in (get r.id m) r.metric r.window

seconds_of-secs : (v : Window) → min (max (secs v) 1) 60 ≡ seconds_of v
unfolding secs
seconds_of-secs per_second = refl
seconds_of-secs per_minute = refl

sum-total_in :
    (m : RuleWindows) (id : RuleId) (metric : Metric) (v : Window)
    → rule_sum m id metric (secs v) ≡ total_in (get id m) metric v
unfolding rule_sum
sum-total_in m id metric v = elim (Option-cases (get id m)) [
  | inl e ↦ rw (e, rule_sum) refl
  | inr (w, e) ↦
      rw (e, rule_sum)
        (window_sum_lem w metric (secs v)
          ∙ ap (λ n. min (total_of metric (recent w n)) u64_max) (seconds_of-secs v))
]

observed-counted : {P : Type 0} (m : RuleWindows) (r : Rule P) → observed m r ≡ counted m r
observed-counted m r = sum-total_in m r.id r.metric r.window

module _ {P : Type 0} (w : RuleWindows) where
  -- a rule and its violation
  pub record Reports (r : Rule P) (v : Violation) : Type 0 where
    pub over : r.limit < counted w r
    pub same_id : v.rule_id ≡ r.id
    pub same_value : v.value ≡ counted w r
    pub same_limit : v.limit ≡ r.limit
    pub same_action : v.action ≡ r.action

  -- The violations answer, in order, to the rules that are over their limits.
  pub data Outcome : List (Rule P) → List Violation → Type 0 where
    done : Outcome [] []
    quiet :
        {r : Rule P} {rs : List (Rule P)} {vs : List Violation}
        → counted w r ≤ r.limit
        → Outcome rs vs
        → Outcome (r ∷ rs) vs
    fires :
        {r : Rule P} {rs : List (Rule P)} {v : Violation} {vs : List Violation}
        → Reports r v
        → Outcome rs vs
        → Outcome (r ∷ rs) (v ∷ vs)

  evaluate_rules_lem : (rs : List (Rule P)) → Outcome rs (evaluate_rules rs w)
  unfolding evaluate_rules violation_of
  evaluate_rules_lem [] = done
  evaluate_rules_lem (r ∷ rs) = elim (Bool-cases (ltb r.limit (observed w r))) [
    | inl h ↦
        rw (h, evaluate_rules)
          (fires
            (record {
              over = ground (arith, h, observed-counted w r);
              same_id = refl;
              same_value = observed-counted w r;
              same_limit = refl;
              same_action = refl;
            })
            (evaluate_rules_lem rs))
    | inr h ↦
        rw (h, evaluate_rules)
          (quiet (ground (arith, h, observed-counted w r)) (evaluate_rules_lem rs))
  ]

  -- `evaluate` goes through the rules in order. What a rule has counted is the exact total of its
  -- metric over the last second or the last minute of its sliding window, cut at the largest `u64`.
  -- A rule that has counted at most its limit is passed over; one that has counted more yields a
  -- violation with its id, that number, its limit and its action.
  pub evaluate_lem : (s : RuleSet P) → Outcome s.rules (evaluate s w)
  evaluate_lem s = evaluate_rules_lem s.rules
