-- ===== src/Ipc/Defs.antt =====
-- crates/microwaf/src/ipc.rs: `throttle`, `block`, `clear_manual_throttle` and `clear_manual_block`,
-- with their parameters of crates/mw-proto/src/wire.rs. The clocks are arguments; `none` is the panic
-- of `now + duration`.
use microwaf.Prelude.{ℕ, true, false, Option, none, some, List, ◌∷◌, ◌++◌, if◌then◌else◌}
use microwaf.Prelude.Text.{Text, codes}
use microwaf.Prelude.Result.{Result, ok, err}
use microwaf.HashMap.{get, insert, find_or}
use microwaf.Time.{Instant, from_secs, add_duration}
use microwaf.Client.{ClientId, client_eq, client_from_str}
use microwaf.Policy.{ManualPolicy, StoredManualPolicy, no_policy, from_runtime}
use microwaf.State.{DaemonState}
use microwaf.Store.{ManualPolicyStore, persist_manual}

pub record ClientRef : Type 0 where
  pub mac : Text
  pub ip : Option Text

pub record ThrottleParams : Type 0 where
  pub client : ClientRef
  pub rate : Option ℕ
  pub duration_secs : Option ℕ

pub record BlockParams : Type 0 where
  pub client : ClientRef
  pub duration_secs : Option ℕ

abbrev pub ref_text : ClientRef → Text
ref_text r = elim r.ip [ none ↦ r.mac | some ip ↦ r.mac ++ b'@' ∷ ip ]

-- `p.duration_secs.map(|s| now + Duration::from_secs(s))`
unfoldable pub until_of : Option ℕ → Instant → Option (Option Instant)
until_of none now = some none
until_of (some s) now = elim (add_duration now (from_secs s)) [
  | none ↦ none
  | some u ↦ some (some u)
]

-- the manual policy that a command starts from
abbrev pub no_manual : ManualPolicy
no_manual = record { throttle = none; blocked = false; until = none }

unfoldable pub manual_of : {P : Type 0} → DaemonState P → ClientId → Option ManualPolicy
manual_of s client = elim (get client s.policies) [ none ↦ none | some p ↦ p.manual ]

unfoldable pub set_manual :
    {P : Type 0} → DaemonState P → ClientId → Option ManualPolicy → DaemonState P
set_manual s client m = record s {
  policies = insert client (record (find_or no_policy client s.policies) { manual = m }) s.policies;
}

abbrev pub start_from : Option ManualPolicy → ManualPolicy
start_from none = no_manual
start_from (some m) = m

abbrev pub rate_or_half : Option ℕ → ℕ
rate_or_half none = 50
rate_or_half (some r) = r

-- the policies after each command
abbrev pub throttled : Option ManualPolicy → Option ℕ → Option Instant → ManualPolicy
throttled m rate until = record (start_from m) {
  throttle = some (rate_or_half rate);
  until = until;
}

abbrev pub with_block : Option ManualPolicy → Option Instant → ManualPolicy
with_block m until = record (start_from m) { blocked = true; until = until }

abbrev pub unthrottled : ManualPolicy → Option ManualPolicy
unthrottled m = if m.blocked then some (record m { throttle = none }) else none

abbrev pub unblocked : ManualPolicy → Option ManualPolicy
unblocked m = elim m.throttle [ none ↦ none | some r ↦ some (record m { blocked = false }) ]

-- `parse_ref`, with the text of its error
unfoldable pub parse_ref : (Text → Option (List ℕ)) → ClientRef → Result Text ClientId
parse_ref parse_v6 r = elim (client_from_str parse_v6 (ref_text r)) [
  | ok client ↦ ok client
  | err s ↦ err (codes "invalid client ref: " ++ s)
]

abbrev pub stored_of : Option ManualPolicy → Instant → ℕ → Option StoredManualPolicy
stored_of none now now_sys = none
stored_of (some m) now now_sys = some (from_runtime m now now_sys)

module _ {P S : Type 0} (store : ManualPolicyStore S) where
  -- sets the policy, and then persists it
  unfoldable pub set_and_persist :
      DaemonState P
      → S
      → ClientId
      → Option ManualPolicy
      → Instant
      → ℕ
      → DaemonState P × S × Result Text (Unit {0})
  set_and_persist s st client m now now_sys =
      let (st1, r) = persist_manual store st client (stored_of m now now_sys) in
      (set_manual s client m, st1, r)

  -- a command that changes the manual policy, if there is one
  unfoldable pub update_present :
      (ManualPolicy → Option ManualPolicy)
      → DaemonState P
      → S
      → ClientId
      → Instant
      → ℕ
      → DaemonState P × S × Result Text (Unit {0})
  update_present f s st client now now_sys = elim (manual_of s client) [
    | none ↦ (s, st, ok tt)
    | some m ↦ set_and_persist s st client (f m) now now_sys
  ]

module _ {P S : Type 0} (store : ManualPolicyStore S) (parse_v6 : Text → Option (List ℕ)) where
  -- `throttle`
  unfoldable pub throttle :
      DaemonState P
      → S
      → ThrottleParams
      → Instant
      → ℕ
      → Option (DaemonState P × S × Result Text (Unit {0}))
  throttle s st p now now_sys = elim (parse_ref parse_v6 p.client) [
    | err e ↦ some (s, st, err e)
    | ok client ↦ elim (until_of p.duration_secs now) [
      | none ↦ none
      | some until ↦ some (
          set_and_persist store s st client (some (throttled (manual_of s client) p.rate until)) now
            now_sys)
    ]
  ]

  -- `block`
  unfoldable pub block :
      DaemonState P
      → S
      → BlockParams
      → Instant
      → ℕ
      → Option (DaemonState P × S × Result Text (Unit {0}))
  block s st p now now_sys = elim (parse_ref parse_v6 p.client) [
    | err e ↦ some (s, st, err e)
    | ok client ↦ elim (until_of p.duration_secs now) [
      | none ↦ none
      | some until ↦ some (
          set_and_persist store s st client (some (with_block (manual_of s client) until)) now
            now_sys)
    ]
  ]

  -- `clear_manual_throttle`
  unfoldable pub clear_manual_throttle :
      DaemonState P → S → ClientRef → Instant → ℕ → DaemonState P × S × Result Text (Unit {0})
  clear_manual_throttle s st r now now_sys = elim (parse_ref parse_v6 r) [
    | err e ↦ (s, st, err e)
    | ok client ↦ update_present store unthrottled s st client now now_sys
  ]

  -- `clear_manual_block`
  unfoldable pub clear_manual_block :
      DaemonState P → S → ClientRef → Instant → ℕ → DaemonState P × S × Result Text (Unit {0})
  clear_manual_block s st r now now_sys = elim (parse_ref parse_v6 r) [
    | err e ↦ (s, st, err e)
    | ok client ↦ update_present store unblocked s st client now now_sys
  ]
