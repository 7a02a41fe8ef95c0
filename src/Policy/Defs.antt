-- ===== src/Policy/Defs.antt =====
-- crates/mw-core/src/policy.rs: the policies of a client. The clocks that the code reads are
-- arguments; `none` is a panic of an instant that overflows.
use microwaf.Prelude.{
  ℕ, ◌-◌, max, Bool, true, false, not, ◌&&◌, Option, none, some, List, [], ◌∷◌, ltb, leb,
  if◌then◌else◌, saturating_add,
}
use microwaf.Time.{
  Instant, Duration, add_duration, from_secs, as_secs, duration_since, instant_limit,
}
use microwaf.Rule.{Action, RuleId}
use microwaf.Policy.Action.{EffectiveAction}

pub record ManualPolicy : Type 0 where
  pub throttle : Option ℕ
  pub blocked : Bool
  pub until : Option Instant

-- `ManualPolicy::is_expired`
abbrev pub manual_expired : ManualPolicy → Instant → Bool
manual_expired m now = elim m.until [ none ↦ false | some u ↦ leb u now ]

pub record StoredManualPolicy : Type 0 where
  pub throttle : Option ℕ
  pub blocked : Bool
  pub until_unix_secs : Option ℕ

-- the closure of `to_runtime`: `now_sys` is the time since the epoch; the sum of the epoch and the
-- stored seconds panics beyond the seconds of a `SystemTime`, which are an `i64` too
restore_until : ℕ → Instant → ℕ → Option Instant
restore_until secs now now_sys =
    if not (ltb (from_secs secs) instant_limit)
    then none
    else if leb now_sys (from_secs secs)
    then add_duration now (from_secs secs - now_sys)
    else some now

abbrev some_until : StoredManualPolicy → Option Instant → ManualPolicy
some_until s until = record { throttle = s.throttle; blocked = s.blocked; until = until }

-- `StoredManualPolicy::to_runtime`
unfoldable pub to_runtime : StoredManualPolicy → Instant → ℕ → Option ManualPolicy
unfolding restore_until
to_runtime s now now_sys = elim s.until_unix_secs [
  | none ↦ some (some_until s none)
  | some secs ↦ elim (restore_until secs now now_sys) [
    | none ↦ none
    | some u ↦ some (some_until s (some u))
  ]
]

-- `StoredManualPolicy::from_runtime`
unfoldable pub from_runtime : ManualPolicy → Instant → ℕ → StoredManualPolicy
from_runtime p now now_sys = record {
  throttle = p.throttle;
  blocked = p.blocked;
  until_unix_secs = elim p.until [
    | none ↦ none
    | some u ↦ some (saturating_add (as_secs now_sys) (as_secs (duration_since u now)))
  ];
}

pub record AutoPolicy : Type 0 where
  pub drop_rate : ℕ
  pub blocked : Bool
  pub rule_id : RuleId
  pub until : Instant

auto_until : RuleId → Action → Instant → AutoPolicy
auto_until rule_id Action.block until = record {
  drop_rate = 100;
  blocked = true;
  rule_id = rule_id;
  until = until;
}
auto_until rule_id (Action.throttle rate) until = record {
  drop_rate = rate;
  blocked = false;
  rule_id = rule_id;
  until = until;
}

-- `AutoPolicy::from_action`
unfoldable pub from_action : RuleId → Action → Instant → Duration → Option AutoPolicy
unfolding auto_until
from_action rule_id action now cooldown = elim (add_duration now cooldown) [
  | none ↦ none
  | some until ↦ some (auto_until rule_id action until)
]

-- `AutoPolicy::is_expired`
abbrev pub auto_expired : AutoPolicy → Instant → Bool
auto_expired a now = leb a.until now

pub record ClientPolicy : Type 0 where
  pub manual : Option ManualPolicy
  pub auto : Option AutoPolicy

-- `ClientPolicy::default()`
abbrev pub no_policy : ClientPolicy
no_policy = record { manual = none; auto = none }

-- `.filter(|m| !m.is_expired(now))`
abbrev pub live_manual : Option ManualPolicy → Instant → Option ManualPolicy
live_manual none now = none
live_manual (some m) now = if manual_expired m now then none else some m

abbrev pub live_auto : Option AutoPolicy → Instant → Option AutoPolicy
live_auto none now = none
live_auto (some a) now = if auto_expired a now then none else some a

-- the second half of `merge_policy`, which reads the automatic policy alone
abbrev auto_action : Option AutoPolicy → EffectiveAction
auto_action none = EffectiveAction.none
auto_action (some a) =
    if a.blocked
    then EffectiveAction.block
    else if ltb 0 a.drop_rate
    then EffectiveAction.throttle a.drop_rate
    else EffectiveAction.none

abbrev auto_blocked : Option AutoPolicy → Bool
auto_blocked none = false
auto_blocked (some a) = a.blocked

abbrev auto_rate : Option AutoPolicy → ℕ
auto_rate none = 0
auto_rate (some a) = a.drop_rate

abbrev merge_live : Option ManualPolicy → Option AutoPolicy → EffectiveAction
merge_live none auto = auto_action auto
merge_live (some m) auto = if m.blocked then EffectiveAction.block else elim m.throttle [
  | none ↦ auto_action auto
  | some rate ↦
      if auto_blocked auto
      then EffectiveAction.block
      else EffectiveAction.throttle (max rate (auto_rate auto))
]

-- `merge_policy`
unfoldable pub merge_policy : ClientPolicy → Instant → EffectiveAction
merge_policy p now = merge_live (live_manual p.manual now) (live_auto p.auto now)

pub record Violation : Type 0 where
  pub rule_id : RuleId
  pub value : ℕ
  pub limit : ℕ
  pub action : Action

-- which of two candidates the loop of `strongest_auto` keeps
unfoldable pub stronger : AutoPolicy → AutoPolicy → AutoPolicy
stronger prev cand =
    if cand.blocked && not prev.blocked
    then cand
    else if prev.blocked && not cand.blocked
    then prev
    else if ltb prev.drop_rate cand.drop_rate
    then cand
    else prev

keep_best : Option AutoPolicy → AutoPolicy → AutoPolicy
keep_best none cand = cand
keep_best (some prev) cand = stronger prev cand

-- the loop of `strongest_auto`; the outer option is the panic
unfoldable pub strongest_from :
    Option AutoPolicy → List Violation → Instant → Duration → Option (Option AutoPolicy)
unfolding keep_best
strongest_from best [] now cooldown = some best
strongest_from best (v ∷ vs) now cooldown = elim (from_action v.rule_id v.action now cooldown) [
  | none ↦ none
  | some cand ↦ strongest_from (some (keep_best best cand)) vs now cooldown
]

-- `strongest_auto`
unfoldable pub strongest_auto : List Violation → Instant → Duration → Option (Option AutoPolicy)
strongest_auto vs now cooldown = strongest_from none vs now cooldown
