-- ===== src/Tests/Policies.antt =====
-- Examples: rules, policies, windows, enforcers and the tick.
use microwaf.Prelude.{
  ℕ, ◌≡◌, ◌≢◌, refl, ◌≤◌, ◌<◌, ◌+◌, ◌*◌, max, min, true, false, none, some, [], ◌∷◌, replicate,
  arith, All, u64_max, ◌-◌, ◌↔◌, length, ◌⊎◌,
}
use microwaf.Prelude.Text.{Text, codes}
use microwaf.Prelude.Result.{ok}
use microwaf.Time.{from_secs, nanos}
use microwaf.Client.{ClientId, client_eq}
use microwaf.Rule.{Metric, Action, new_ruleset, max_rules, RuleId}
use microwaf.Rule.Valid.{IsWellFormed, IdsDistinct, new_ruleset_iff}
use microwaf.Policy.{
  ManualPolicy, AutoPolicy, ClientPolicy, Violation, EffectiveAction, merge_policy, is_blocked,
  drop_rate,
}
use microwaf.Policy.Merge.{merge_policy_lem}
use microwaf.Policy.Strongest.{Some, IsFrom, Covers, strongest_auto_lem}
use microwaf.Policy.{strongest_auto, to_runtime, from_runtime}
use microwaf.Counters.{get_counts, add, key_eq}
use microwaf.Counters.Laws.{more, total_for, get_counts-add}
use microwaf.Policy.Stored.{to_runtime-from_runtime}
use microwaf.Window.{SlidingWindow, empty_bucket, advance, window_add, window_sum, RuleWindows}
use microwaf.Window.Recent.{IsValid, recent, recent-advance, after_seconds, elapsed_secs}
use microwaf.Window.Sums.{window_sum_lem, recent-window_add, add_newest, total_of}
use microwaf.Engine.{evaluate}
use microwaf.Engine.Laws.{Outcome, evaluate_lem}
use microwaf.Enforcer.{bpf_enforcer, apply}
use microwaf.Enforcer.Laws.{IsClientId, enforced, entry_of, enforced-apply, enforced-apply_ne}
use microwaf.Decision.{tick, touched}
use microwaf.Decision.Client.{Enforces}
use microwaf.Decision.Tick.{Known, tick-Enforces}
use microwaf.State.{DaemonState}
use microwaf.Tests.Data.{alice, bob, udp_flows, two_rules, daemon, flooded}

alice-IsClientId : IsClientId alice
alice-IsClientId = record { mac_len = refl; ip_len = refl }

bob-IsClientId : IsClientId bob
bob-IsClientId = record { mac_len = refl; ip_len = refl }

alice_touched : All IsClientId (touched (daemon flooded))
unfolding touched
alice_touched = (alice-IsClientId, tt)

tick-Enforces_example :
    (t : DaemonState (Unit {0})) × (tick (daemon flooded) 0 ≡ some t)
    × ((c : ClientId) → Known (daemon flooded) c → Enforces 0 t c)
tick-Enforces_example =
    tick-Enforces (daemon flooded) (bpf_enforcer []) 0 refl (ground arith) alice_touched

abbrev blocked_policy : ClientPolicy
blocked_policy = record {
  manual = some (record { throttle = some 20; blocked = false; until = none });
  auto = some (record { drop_rate = 50; blocked = false; rule_id = codes "a"; until = 10 });
}

merge_policy_lem_example :
    (is_blocked (merge_policy blocked_policy 5) ≡ false)
    × (is_blocked (merge_policy blocked_policy 5) ≡ false
        → drop_rate (merge_policy blocked_policy 5) ≡ 50)
merge_policy_lem_example = merge_policy_lem blocked_policy 5

abbrev over : Violation
over = record { rule_id = codes "a"; value = 5; limit = 2; action = Action.block }

strongest_auto_lem_example :
    (strongest_auto [] 0 (from_secs 30) ≡ some none)
    × ((a : AutoPolicy) × (strongest_auto (over ∷ []) 0 (from_secs 30) ≡ some (some a))
        × Some (IsFrom 0 (from_secs 30) a) (over ∷ [])
        × All (λ (w : Violation). Covers a w.action) (over ∷ []))
strongest_auto_lem_example = strongest_auto_lem 0 (from_secs 30) (ground arith) over []

-- a window with five flows in the current second
abbrev busy : SlidingWindow
busy = record {
  buckets = record empty_bucket { connections = 5 } ∷ replicate 59 empty_bucket;
  cursor = 0;
  last_advance = 0;
}

abbrev two_seconds : RuleWindows
two_seconds = (codes "a", busy) ∷ []

evaluate_lem_example :
    Outcome two_seconds two_rules (evaluate (record { rules = two_rules }) two_seconds)
evaluate_lem_example = evaluate_lem two_seconds (record { rules = two_rules })

busy-IsValid : IsValid busy
busy-IsValid = record { sixty = refl; cursor_in = ground arith }

recent-advance_example :
    recent (advance busy (from_secs 3)) 60
    ≡ after_seconds (elapsed_secs busy (from_secs 3)) (recent busy 60)
recent-advance_example = recent-advance busy (from_secs 3) busy-IsValid

recent-window_add_example :
    recent (window_add busy Metric.connections 2 (from_secs 1)) 60
    ≡ add_newest Metric.connections 2
        (after_seconds (elapsed_secs busy (from_secs 1)) (recent busy 60))
recent-window_add_example = recent-window_add busy Metric.connections 2 (from_secs 1) busy-IsValid

window_sum_lem_example :
    window_sum busy Metric.connections 1
    ≡ min (total_of Metric.connections (recent busy (min (max 1 1) 60))) u64_max
window_sum_lem_example = window_sum_lem busy Metric.connections 1

udp_flows-IsWellFormed : (id : Text) → IsWellFormed (udp_flows id)
udp_flows-IsWellFormed id = record { ports_given = tt; metric_fits = tt; rate_fits = tt }

new_ruleset_iff_example : (new_ruleset two_rules ≡ ok (record { rules = two_rules })) ↔ (
    (length two_rules ≤ max_rules)
    × All IsWellFormed two_rules
    × IdsDistinct two_rules
    × (two_rules ≡ two_rules))
new_ruleset_iff_example = new_ruleset_iff two_rules (record { rules = two_rules })

abbrev ten_minutes : ManualPolicy
ten_minutes = record { throttle = none; blocked = true; until = some (from_secs 605) }

-- ten minutes are stored five seconds after the start, and restored a minute later
to_runtime-from_runtime_example :
    (q : ManualPolicy) × (v : ℕ) × (to_runtime
        (from_runtime ten_minutes (from_secs 5) (from_secs 1700000000))
        (from_secs 7)
        (from_secs 1700000060)
      ≡ some q)
    × (q.throttle ≡ none)
    × (q.blocked ≡ true)
    × (q.until ≡ some v)
    × (from_secs 7 ≤ v)
    × (v + from_secs 1700000060
        ≤ from_secs 7
          + max (from_secs 1700000060) (from_secs 1700000000 + (from_secs 605 - from_secs 5)))
    × (from_secs 7 + from_secs 1700000000 + (from_secs 605 - from_secs 5)
        < v + from_secs 1700000060 + 2 * nanos)
to_runtime-from_runtime_example =
    to_runtime-from_runtime ten_minutes (from_secs 5) (from_secs 7) (from_secs 605)
      (from_secs 1700000000) (from_secs 1700000060) refl (ground arith) (ground arith)
      (ground arith)

enforced-apply_example :
    enforced (apply (bpf_enforcer []) alice (EffectiveAction.throttle 30)) alice
    ≡ entry_of (EffectiveAction.throttle 30)
enforced-apply_example =
    enforced-apply (bpf_enforcer []) alice (EffectiveAction.throttle 30) (10 ∷ 0 ∷ 0 ∷ 1 ∷ [], refl)

alice≢bob : alice ≢ bob
alice≢bob h = ground arith

enforced-apply_ne_example :
    enforced (apply (bpf_enforcer []) alice EffectiveAction.block) bob
    ≡ enforced (bpf_enforcer []) bob
enforced-apply_ne_example =
    enforced-apply_ne alice bob alice-IsClientId bob-IsClientId alice≢bob (bpf_enforcer [])
      EffectiveAction.block

get_counts-add_example :
    (get_counts (add flooded alice (codes "a") 0 0 1) alice (codes "a") ≡ (
      more (get_counts flooded alice (codes "a")).0 0,
      more (get_counts flooded alice (codes "a")).1 0,
      more (get_counts flooded alice (codes "a")).2 1,
    ))
    × ((d : ClientId) (j : RuleId)
        → (alice ≢ d) ⊎ (codes "a" ≢ j)
        → get_counts (add flooded alice (codes "a") 0 0 1) d j ≡ get_counts flooded d j)
    × (total_for (add flooded alice (codes "a") 0 0 1) alice ≡ record {
      requests = more (total_for flooded alice).requests 0;
      bytes = more (total_for flooded alice).bytes 0;
      connections = more (total_for flooded alice).connections 1;
      ws_connections = (total_for flooded alice).ws_connections;
    })
    × ((d : ClientId)
        → alice ≢ d
        → total_for (add flooded alice (codes "a") 0 0 1) d ≡ total_for flooded d)
get_counts-add_example = get_counts-add flooded alice (codes "a") 0 0 1
