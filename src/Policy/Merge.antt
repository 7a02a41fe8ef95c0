-- ===== src/Policy/Merge.antt =====
-- The merged action, against the rule of docs/architecture.md: blocked by either part, and else the
-- higher of the two rates.
use microwaf.Prelude.{
  ℕ, ◌≡◌, max, Bool, false, not, ◌&&◌, ◌||◌, Option, none, some, arith, if◌then◌else◌,
}
use microwaf.Time.{Instant}
use microwaf.Policy.Action.{drop_rate, is_blocked}
use microwaf.Policy.Defs.{
  ManualPolicy, AutoPolicy, ClientPolicy, manual_expired, auto_expired, merge_policy,
}

-- an unexpired manual policy blocks
abbrev pub manual_blocks : Option ManualPolicy → Instant → Bool
manual_blocks none now = false
manual_blocks (some m) now = not (manual_expired m now) && m.blocked

-- an unexpired automatic policy blocks
abbrev pub auto_blocks : Option AutoPolicy → Instant → Bool
auto_blocks none now = false
auto_blocks (some a) now = not (auto_expired a now) && a.blocked

-- the rate of an unexpired manual policy
abbrev pub manual_rate : Option ManualPolicy → Instant → ℕ
manual_rate none now = 0
manual_rate (some m) now =
    if manual_expired m now then 0 else elim m.throttle [ none ↦ 0 | some r ↦ r ]

-- the rate of an unexpired automatic policy
abbrev pub auto_rate : Option AutoPolicy → Instant → ℕ
auto_rate none now = 0
auto_rate (some a) now = if auto_expired a now then 0 else a.drop_rate

-- A client is blocked exactly when its unexpired manual policy blocks or its unexpired automatic
-- policy does; and a client that is not blocked is dropped at the higher of the rates of the two,
-- where the rate of an absent or expired policy is 0.
pub merge_policy_lem :
    (p : ClientPolicy) (now : Instant)
    → (is_blocked (merge_policy p now) ≡ (manual_blocks p.manual now || auto_blocks p.auto now))
      × (is_blocked (merge_policy p now) ≡ false
          → drop_rate (merge_policy p now) ≡ max (manual_rate p.manual now) (auto_rate p.auto now))
unfolding merge_policy
merge_policy_lem p now = ground arith
