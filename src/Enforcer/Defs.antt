-- ===== src/Enforcer/Defs.antt =====
-- crates/mw-core/src/enforcer.rs: `Mode` and the `Enforcer` trait with its implementations, and
-- crates/microwaf/src/ebpf.rs: `BpfHandle` and `BpfEnforcer`.
use microwaf.Prelude.{
  ℕ, ◌++◌, Bool, true, false, Option, none, some, List, ◌==◌, nat_eq, list_eq, if◌then◌else◌,
}
use microwaf.Prelude.Text.{Text, codes, to_ascii_lowercase}
use microwaf.Prelude.Result.{Result, ok, err}
use microwaf.HashMap.{HashMap, insert, remove}
use microwaf.Client.{v4, v6, ClientId, client_eq}
use microwaf.Policy.{EffectiveAction}

pub data Mode : Type 0 where
  enforce permissive : Mode

-- `Mode::as_str`
unfoldable pub mode_as_str : Mode → Text
mode_as_str enforce = codes "enforce"
mode_as_str permissive = codes "permissive"

match_mode : Text → Result Text Mode
match_mode s =
    if s == codes "enforce"
    then ok enforce
    else if s == codes "permissive"
    then ok permissive
    else err (codes "invalid mode `" ++ (s ++ codes "` (expected enforce|permissive)"))

-- `Mode::from_str`
unfoldable pub mode_from_str : Text → Result Text Mode
unfolding match_mode
mode_from_str s = match_mode (to_ascii_lowercase s)

-- `PermissiveLog`: the last would-be action of each client
abbrev pub ActionLog : Type 0
ActionLog = HashMap ClientId EffectiveAction

-- `BpfHandle`: the userspace map, from 10-byte keys to (blocked, drop rate)
abbrev pub BpfHandle : Type 0
BpfHandle = HashMap (List ℕ) (Bool × ℕ)

-- The values behind `dyn Enforcer`: `PermissiveEnforcer`, `FakeEnforcer` and `BpfEnforcer`.
pub data Enforcer : Type 0 where
  permissive_enforcer : ActionLog → Enforcer
  fake_enforcer : ActionLog → Enforcer
  bpf_enforcer : BpfHandle → Enforcer

-- `BpfHandle::key`
abbrev pub bpf_key : ClientId → Option (List ℕ)
bpf_key c = elim c.ip [ v4 octets ↦ some (c.mac ++ octets) | v6 segments ↦ none ]

-- `BpfEnforcer::clear`
unfoldable pub bpf_clear : BpfHandle → ClientId → BpfHandle
bpf_clear h client = elim (bpf_key client) [ none ↦ h | some key ↦ remove key h ]

-- the `match` of `BpfEnforcer::apply`, past the key
bpf_write : BpfHandle → ClientId → List ℕ → EffectiveAction → BpfHandle
unfolding bpf_clear
bpf_write h client key EffectiveAction.none = bpf_clear h client
bpf_write h client key EffectiveAction.block = insert key (true, 100) h
bpf_write h client key (EffectiveAction.throttle rate) = insert key (false, rate) h

-- `BpfEnforcer::apply`
unfoldable pub bpf_apply : BpfHandle → ClientId → EffectiveAction → BpfHandle
unfolding bpf_write
bpf_apply h client action = elim (bpf_key client) [
  | none ↦ h
  | some key ↦ bpf_write h client key action
]

-- `Enforcer::apply`
unfoldable pub apply : Enforcer → ClientId → EffectiveAction → Enforcer
apply (permissive_enforcer log) client action = permissive_enforcer (insert client action log)
apply (fake_enforcer log) client action = fake_enforcer (insert client action log)
apply (bpf_enforcer h) client action = bpf_enforcer (bpf_apply h client action)

-- `Enforcer::clear`
unfoldable pub clear : Enforcer → ClientId → Enforcer
clear (permissive_enforcer log) client = permissive_enforcer (remove client log)
clear (fake_enforcer log) client = fake_enforcer (remove client log)
clear (bpf_enforcer h) client = bpf_enforcer (bpf_clear h client)
