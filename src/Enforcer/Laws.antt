-- ===== src/Enforcer/Laws.antt =====
-- What an enforcer holds for a client after a call for that client or for another.
use microwaf.Prelude.{
  ℕ, ◌≡◌, ◌≢◌, ◌++◌, refl, Bool, true, false, Option, none, some, List, [], ◌∷◌, ◌==◌, nat_eq,
  list_eq, list_beq_iff, length, if◌then◌else◌, arith, Bool-cases, inl, inr, ◌⊎◌, Option-cases,
}
use microwaf.HashMap.{get, insert, remove, get-insert, get-remove, get-remove_self, get-insert_self}
use microwaf.Client.{IpAddr, v4, v6, ClientId, client_eq, client_beq_iff}
use microwaf.Policy.{EffectiveAction}
use microwaf.Enforcer.Defs.{
  ActionLog, BpfHandle, Enforcer, permissive_enforcer, fake_enforcer, bpf_enforcer, bpf_key,
  bpf_clear, bpf_apply, apply, clear,
}

-- (blocked, drop rate) of an action; nothing if all passes
abbrev pub entry_of : EffectiveAction → Option (Bool × ℕ)
entry_of EffectiveAction.none = none
entry_of (EffectiveAction.throttle rate) = some (false, rate)
entry_of EffectiveAction.block = some (true, 100)

abbrev entry_of_logged : Option EffectiveAction → Option (Bool × ℕ)
entry_of_logged none = none
entry_of_logged (some a) = entry_of a

-- what the enforcer holds for the client
abbrev pub enforced : Enforcer → ClientId → Option (Bool × ℕ)
enforced (permissive_enforcer log) c = entry_of_logged (get c log)
enforced (fake_enforcer log) c = entry_of_logged (get c log)
enforced (bpf_enforcer h) c = elim (bpf_key c) [ none ↦ none | some key ↦ get key h ]

-- The eBPF map has keys for IPv4 clients only; a log takes every client.
abbrev pub Reaches : Enforcer → ClientId → Type 0
Reaches (bpf_enforcer h) c = (octets : List ℕ) × (c.ip ≡ v4 octets)
Reaches _ c = Unit

-- The byte arrays of a client id have the lengths of their types.
abbrev pub HasOctets : IpAddr → Type 0
HasOctets (v4 octets) = length octets ≡ 4
HasOctets (v6 segments) = length segments ≡ 8

pub record IsClientId (c : ClientId) : Type 0 where
  pub mac_len : length c.mac ≡ 6
  pub ip_len : HasOctets c.ip

-- With equal lengths in front, equal concatenations have equal parts.
append_injective : (a b c d : List ℕ) → length a ≡ length c → a ++ b ≡ c ++ d → (a ≡ c) × (b ≡ d)
append_injective [] b [] d h e = (refl, e)
append_injective [] b (x ∷ c) d h e = absurd (omega arith)
append_injective (x ∷ a) b [] d h e = absurd (omega arith)
append_injective (x ∷ a) b (y ∷ c) d h e =
    let (p, q) = append_injective a b c d (omega arith) (ground arith) in (ground arith, q)

ip_cases : (ip : IpAddr) → ((o : List ℕ) × (ip ≡ v4 o)) ⊎ ((s : List ℕ) × (ip ≡ v6 s))
ip_cases (v4 o) = inl (o, refl)
ip_cases (v6 s) = inr (s, refl)

same_client :
    (c d : ClientId) (o o' : List ℕ)
    → c.ip ≡ v4 o
    → d.ip ≡ v4 o'
    → length c.mac ≡ length d.mac
    → c.mac ++ o ≡ d.mac ++ o'
    → c ≡ d
same_client c d o o' hc hd h e = let (p, q) = append_injective c.mac o d.mac o' h e in ground arith

-- Distinct IPv4 clients have distinct keys.
pub bpf_key_injective :
    (c d : ClientId) (k : List ℕ)
    → IsClientId c
    → IsClientId d
    → bpf_key c ≡ some k
    → bpf_key d ≡ some k
    → c ≡ d
bpf_key_injective c d k hc hd ec ed = elim (ip_cases c.ip) [
  | inr (s, e) ↦ absurd (ground arith)
  | inl (o, e) ↦ elim (ip_cases d.ip) [
    | inr (s, e') ↦ absurd (ground arith)
    | inl (o', e') ↦
        same_client c d o o' e e' (omega (arith, hc.mac_len, hd.mac_len)) (ground arith)
  ]
]

log-apply :
    (log : ActionLog) (c d : ClientId) (a : EffectiveAction)
    → entry_of_logged (get d (insert c a log))
      ≡ (if c == d then entry_of a else entry_of_logged (get d log))
log-apply log c d a = ground (arith, get-insert c d a log)

log-clear :
    (log : ActionLog) (c d : ClientId)
    → entry_of_logged (get d (remove c log))
      ≡ (if c == d then none else entry_of_logged (get d log))
log-clear log c d = ground (arith, get-remove c d log)

-- After `apply` with an action, the enforcer holds that action for the client, if it reaches it.
pub enforced-apply :
    (e : Enforcer) (c : ClientId) (a : EffectiveAction)
    → Reaches e c
    → enforced (apply e c a) c ≡ entry_of a
unfolding apply bpf_apply bpf_clear
enforced-apply (permissive_enforcer log) c a r =
    ground (arith, log-apply log c c a, client_beq_iff c c)
enforced-apply (fake_enforcer log) c a r = ground (arith, log-apply log c c a, client_beq_iff c c)
enforced-apply (bpf_enforcer h) c EffectiveAction.none (o, e) =
    ground (arith, get-remove_self (c.mac ++ o) h)
enforced-apply (bpf_enforcer h) c EffectiveAction.block (o, e) = rw (e, bpf_apply, get-insert_self)
enforced-apply (bpf_enforcer h) c (EffectiveAction.throttle rate) (o, e) =
    rw (e, bpf_apply, get-insert_self)

-- After `clear` the enforcer holds nothing for the client.
pub enforced-clear : (e : Enforcer) (c : ClientId) → enforced (clear e c) c ≡ none
unfolding clear bpf_clear
enforced-clear (permissive_enforcer log) c = ground (arith, log-clear log c c, client_beq_iff c c)
enforced-clear (fake_enforcer log) c = ground (arith, log-clear log c c, client_beq_iff c c)
enforced-clear (bpf_enforcer h) c = elim (ip_cases c.ip) [
  | inl (o, e) ↦ rw (e, bpf_clear, get-remove_self)
  | inr (s, e) ↦ rw e
]

module _ (c d : ClientId) (hc : IsClientId c) (hd : IsClientId d) (ne : c ≢ d) where
  keys_differ : (k j : List ℕ) → bpf_key c ≡ some k → bpf_key d ≡ some j → (k == j) ≡ false
  keys_differ k j ek ej = elim (Bool-cases (k == j)) [
    | inr h ↦ h
    | inl h ↦ absurd (ne (bpf_key_injective c d j hc hd (rw (← (list_beq_iff k j).0 h) ek) ej))
  ]

  bpf_clear_ne :
      (h : BpfHandle) → enforced (bpf_enforcer (bpf_clear h c)) d ≡ enforced (bpf_enforcer h) d
  unfolding bpf_clear
  bpf_clear_ne h = elim (Option-cases (bpf_key c)) [
    | inl e ↦ ground arith
    | inr (k, ek) ↦ elim (Option-cases (bpf_key d)) [
      | inl e ↦ ground arith
      | inr (j, ej) ↦ ground (arith, get-remove k j h, keys_differ k j ek ej)
    ]
  ]

  bpf_insert_ne :
      (h : BpfHandle) (k : List ℕ) (v : Bool × ℕ)
      → bpf_key c ≡ some k
      → enforced (bpf_enforcer (insert k v h)) d ≡ enforced (bpf_enforcer h) d
  bpf_insert_ne h k v ek = elim (Option-cases (bpf_key d)) [
    | inl e ↦ ground arith
    | inr (j, ej) ↦ ground (arith, get-insert k j v h, keys_differ k j ek ej)
  ]

  bpf_apply_ne :
      (h : BpfHandle) (a : EffectiveAction)
      → enforced (bpf_enforcer (bpf_apply h c a)) d ≡ enforced (bpf_enforcer h) d
  unfolding bpf_apply
  bpf_apply_ne h a = elim (Option-cases (bpf_key c)) [
    | inl e ↦ ground arith
    | inr (k, ek) ↦ go a k ek
  ]
    where
      go :
          (a : EffectiveAction) (k : List ℕ)
          → bpf_key c ≡ some k
          → enforced (bpf_enforcer (bpf_apply h c a)) d ≡ enforced (bpf_enforcer h) d
      go EffectiveAction.none k ek = rw (ek, bpf_apply) (bpf_clear_ne h)
      go EffectiveAction.block k ek = rw (ek, bpf_apply) (bpf_insert_ne h k (true, 100) ek)
      go (EffectiveAction.throttle r) k ek = rw (ek, bpf_apply) (bpf_insert_ne h k (false, r) ek)

  -- `apply` for one client leaves what is held for another.
  pub enforced-apply_ne :
      (e : Enforcer) (a : EffectiveAction) → enforced (apply e c a) d ≡ enforced e d
  unfolding apply
  enforced-apply_ne (permissive_enforcer log) a =
      ground (arith, log-apply log c d a, client_beq_iff c d)
  enforced-apply_ne (fake_enforcer log) a = ground (arith, log-apply log c d a, client_beq_iff c d)
  enforced-apply_ne (bpf_enforcer h) a = bpf_apply_ne h a

  pub enforced-clear_ne : (e : Enforcer) → enforced (clear e c) d ≡ enforced e d
  unfolding clear
  enforced-clear_ne (permissive_enforcer log) =
      ground (arith, log-clear log c d, client_beq_iff c d)
  enforced-clear_ne (fake_enforcer log) = ground (arith, log-clear log c d, client_beq_iff c d)
  enforced-clear_ne (bpf_enforcer h) = bpf_clear_ne h
