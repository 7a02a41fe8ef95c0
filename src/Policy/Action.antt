-- ===== src/Policy/Action.antt =====
-- crates/mw-core/src/policy.rs: `EffectiveAction`.
use microwaf.Prelude.{ℕ, Bool, true, false}

pub data EffectiveAction : Type 0 where
  none : EffectiveAction
  throttle : ℕ → EffectiveAction
  block : EffectiveAction

-- `EffectiveAction::drop_rate`
abbrev pub drop_rate : EffectiveAction → ℕ
drop_rate none = 0
drop_rate (throttle rate) = rate
drop_rate block = 100

-- `EffectiveAction::is_blocked`
abbrev pub is_blocked : EffectiveAction → Bool
is_blocked block = true
is_blocked _ = false
