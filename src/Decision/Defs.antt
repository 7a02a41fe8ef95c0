-- ===== src/Decision/Defs.antt =====
-- crates/microwaf/src/decision.rs: `tick`. The clock is an argument; `none` is the panic of
-- `now + cooldown`.
use microwaf.Prelude.{
  ℕ, ◌-◌, max, Bool, false, ◌||◌, Option, none, some, List, [], ◌∷◌, ◌++◌, ◌==◌, ltb, if◌then◌else◌,
}
use microwaf.HashMap.{HashMap, insert, find_or, keys}
use microwaf.Time.{Instant, Duration, from_secs}
use microwaf.Client.{ClientId, client_eq}
use microwaf.Rule.{Metric, requests, bytes, connections, RuleId}
use microwaf.Counters.{CounterKey, key_eq, Counts}
use microwaf.Window.{RuleWindows, rule_add, advance_all}
use microwaf.Engine.{evaluate}
use microwaf.Policy.{
  ManualPolicy, AutoPolicy, ClientPolicy, EffectiveAction, no_policy, manual_expired, auto_expired,
  merge_policy, strongest_auto,
}
use microwaf.State.{DaemonState}
use microwaf.State

-- `if delta > 0 { win.add(...) }`
abbrev pub add_if : RuleWindows → RuleId → Metric → ℕ → Instant → RuleWindows
add_if win rule_id metric delta now =
    if ltb 0 delta then rule_add win rule_id metric delta now else win

-- the three additions for one counter: what it has grown by since `prev`
unfoldable pub apply_counts : RuleWindows → RuleId → Counts → Counts → Instant → RuleWindows
apply_counts win rule_id (req, bytes_now, conn) (req', bytes', conn') now =
    add_if
      (add_if (add_if win rule_id requests (req - req') now) rule_id bytes (bytes_now - bytes') now)
      rule_id connections (conn - conn') now

-- the inner loop of `tick` over the snapshot
unfoldable pub apply_deltas :
    ClientId
    → HashMap CounterKey Counts
    → HashMap CounterKey Counts
    → RuleWindows
    → Instant
    → RuleWindows
apply_deltas client last [] win now = win
apply_deltas client last ((key, counts) ∷ snapshot) win now =
    apply_deltas client last snapshot
      (if key.client == client
        then apply_counts win key.rule_id counts (find_or (0, 0, 0) key last) now
        else win)
      now

-- `policy.manual = None` when it has expired
abbrev pub drop_expired : Option ManualPolicy → Instant → Option ManualPolicy
drop_expired none now = none
drop_expired (some m) now = if manual_expired m now then none else some m

-- what becomes of the automatic policy, given the strongest violation
abbrev pub next_auto : Option AutoPolicy → Option AutoPolicy → Instant → Option AutoPolicy
next_auto (some auto) old now = some auto
next_auto none none now = none
next_auto none (some a) now = if auto_expired a now then none else some a

-- the two updates of the client's policy
unfoldable pub update_policy : ClientPolicy → Option AutoPolicy → Instant → ClientPolicy
update_policy p strongest now = record {
  manual = drop_expired p.manual now;
  auto = next_auto strongest p.auto now;
}

abbrev pub member : ClientId → List ClientId → Bool
member c [] = false
member c (d ∷ ds) = d == c || member c ds

unfoldable pub distinct : List ClientId → List ClientId
distinct [] = []
distinct (c ∷ cs) = if member c cs then distinct cs else c ∷ distinct cs

unfoldable pub counted_clients : HashMap CounterKey Counts → List ClientId
counted_clients [] = []
counted_clients ((key, counts) ∷ m) = key.client ∷ counted_clients m

module _ {P : Type 0} where
  enforce_action : DaemonState P → ClientId → EffectiveAction → DaemonState P
  enforce_action s client EffectiveAction.none = State.clear s client
  enforce_action s client other = State.apply s client other

  -- the windows of the client when its rules are evaluated
  unfoldable pub client_windows :
      DaemonState P → HashMap CounterKey Counts → ClientId → Instant → RuleWindows
  client_windows s snapshot client now =
      apply_deltas client s.last_counters snapshot (advance_all (find_or [] client s.windows) now)
        now

  -- the end of the loop's body, once the strongest automatic policy is known
  unfoldable pub settle :
      DaemonState P → ClientId → RuleWindows → Option AutoPolicy → Instant → DaemonState P
  unfolding enforce_action
  settle s client win strongest now =
      let policy = update_policy (find_or no_policy client s.policies) strongest now in
      enforce_action
        (record s {
          windows = insert client win s.windows;
          policies = insert client policy s.policies;
        })
        client (merge_policy policy now)

  -- the body of the loop of `tick` for one client
  unfoldable pub tick_client :
      HashMap CounterKey Counts
      → Duration
      → Instant
      → DaemonState P
      → ClientId
      → Option (DaemonState P)
  tick_client snapshot cooldown now s client =
      let win = client_windows s snapshot client now in
      elim (strongest_auto (evaluate (State.rules s) win) now cooldown) [
        | none ↦ none
        | some strongest ↦ some (settle s client win strongest now)
      ]

  -- the loop of `tick`
  unfoldable pub tick_clients :
      HashMap CounterKey Counts
      → Duration
      → Instant
      → List ClientId
      → DaemonState P
      → Option (DaemonState P)
  tick_clients snapshot cooldown now [] s = some s
  tick_clients snapshot cooldown now (c ∷ cs) s = elim (tick_client snapshot cooldown now s c) [
    | none ↦ none
    | some t ↦ tick_clients snapshot cooldown now cs t
  ]

  -- the set of clients of the snapshot and of the policies, in the order of the two maps
  unfoldable pub touched : DaemonState P → List ClientId
  unfolding counted_clients distinct
  touched s = distinct (counted_clients s.counters.by_rule ++ keys s.policies)

  -- `tick`
  unfoldable pub tick : DaemonState P → Instant → Option (DaemonState P)
  tick s now =
      let snapshot = s.counters.by_rule in
      let cooldown = from_secs (max (State.daemon_cfg s).cooldown_secs 1) in
      elim (tick_clients snapshot cooldown now (touched s) s) [
        | none ↦ none
        | some t ↦ some (record t { last_counters = snapshot })
      ]
