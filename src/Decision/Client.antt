-- ===== src/Decision/Client.antt =====
-- One client's turn in a tick: what it makes of that client, and that it leaves the others alone.
use microwaf.Prelude.{◌≡◌, ◌≢◌, inl, inr, Option, some, ◌==◌, arith, Bool-cases, ◌∙◌}
use microwaf.HashMap.{get, insert, find_or, get-insert, get-insert_self}
use microwaf.Time.{Instant}
use microwaf.Client.{ClientId, client_eq, client_beq_iff}
use microwaf.Window.{RuleWindows}
use microwaf.Policy.{AutoPolicy, ClientPolicy, EffectiveAction, no_policy, merge_policy}
use microwaf.Enforcer.{Enforcer, permissive_enforcer, fake_enforcer, bpf_enforcer}
use microwaf.Enforcer
use microwaf.Enforcer.Laws.{
  enforced, entry_of, Reaches, IsClientId, enforced-apply, enforced-clear, enforced-apply_ne,
  enforced-clear_ne,
}
use microwaf.State.{DaemonState}
use microwaf.State
use microwaf.Decision.Defs.{update_policy, settle}

Reaches-apply :
    (e : Enforcer) (c d : ClientId) (a : EffectiveAction)
    → Reaches (Enforcer.apply e c a) d
    → Reaches e d
unfolding Enforcer.apply
Reaches-apply (permissive_enforcer log) c d a h = h
Reaches-apply (fake_enforcer log) c d a h = h
Reaches-apply (bpf_enforcer b) c d a h = h

Reaches-clear : (e : Enforcer) (c d : ClientId) → Reaches (Enforcer.clear e c) d → Reaches e d
unfolding Enforcer.clear
Reaches-clear (permissive_enforcer log) c d h = h
Reaches-clear (fake_enforcer log) c d h = h
Reaches-clear (bpf_enforcer b) c d h = h

module _ {P : Type 0} where
  -- The client has a policy, and the enforcer holds what that policy merges to at `now`, if it
  -- reaches the client.
  pub record Enforces (now : Instant) (s : DaemonState P) (c : ClientId) : Type 0 where
    pub policy : ClientPolicy
    pub enforcer : Enforcer
    pub has_policy : get c s.policies ≡ some policy
    pub has_enforcer : s.enforcer ≡ some enforcer
    pub holds : Reaches enforcer c → enforced enforcer c ≡ entry_of (merge_policy policy now)

  module _ (s : DaemonState P) (c : ClientId) (win : RuleWindows) (auto : Option AutoPolicy)
      (now : Instant) where
    unfoldable pub settled : ClientPolicy
    settled = update_policy (find_or no_policy c s.policies) auto now

    pub settle-policies : (settle s c win auto now).policies ≡ insert c settled s.policies
    unfolding settle settled State.apply State.clear
    settle-policies = ground arith

    -- the enforcer after the turn
    enforcer_after : Enforcer → EffectiveAction → Enforcer
    enforcer_after e EffectiveAction.none = Enforcer.clear e c
    enforcer_after e other = Enforcer.apply e c other

    settle-enforcer :
        (e : Enforcer)
        → s.enforcer ≡ some e
        → (settle s c win auto now).enforcer ≡ some (enforcer_after e (merge_policy settled now))
    unfolding settle settled State.apply State.clear enforcer_after
    settle-enforcer e h = ground arith

    after_holds :
        (e : Enforcer) (a : EffectiveAction)
        → Reaches (enforcer_after e a) c
        → enforced (enforcer_after e a) c ≡ entry_of a
    unfolding enforcer_after
    after_holds e EffectiveAction.none r = enforced-clear e c
    after_holds e EffectiveAction.block r = enforced-apply e c _ (Reaches-apply e c c _ r)
    after_holds e (EffectiveAction.throttle q) r = enforced-apply e c _ (Reaches-apply e c c _ r)

    after_ne :
        (e : Enforcer) (a : EffectiveAction) (d : ClientId)
        → IsClientId c
        → IsClientId d
        → c ≢ d
        → (enforced (enforcer_after e a) d ≡ enforced e d)
          × (Reaches (enforcer_after e a) d → Reaches e d)
    unfolding enforcer_after
    after_ne e EffectiveAction.none d hc hd ne =
        (enforced-clear_ne c d hc hd ne e, Reaches-clear e c d)
    after_ne e EffectiveAction.block d hc hd ne =
        (enforced-apply_ne c d hc hd ne e _, Reaches-apply e c d _)
    after_ne e (EffectiveAction.throttle q) d hc hd ne =
        (enforced-apply_ne c d hc hd ne e _, Reaches-apply e c d _)

    -- The client's turn leaves it enforced as its new policy says, if the enforcer reaches it.
    pub settle-Enforces_self :
        (e : Enforcer) → s.enforcer ≡ some e → Enforces now (settle s c win auto now) c
    settle-Enforces_self e h = record {
      policy = settled;
      enforcer = enforcer_after e (merge_policy settled now);
      has_policy = rw settle-policies (get-insert_self c settled s.policies);
      has_enforcer = settle-enforcer e h;
      holds = after_holds e (merge_policy settled now);
    }

    pub get-settle_ne :
        (d : ClientId) → c ≢ d → get d (settle s c win auto now).policies ≡ get d s.policies
    get-settle_ne d ne =
        rw settle-policies (ground (arith, get-insert c d settled s.policies, client_beq_iff c d))

    -- It leaves every other client enforced as before.
    settle-Enforces_ne :
        (d : ClientId)
        → IsClientId c
        → IsClientId d
        → c ≢ d
        → Enforces now s d
        → Enforces now (settle s c win auto now) d
    settle-Enforces_ne d hc hd ne h =
        let (same, back) = after_ne h.enforcer (merge_policy settled now) d hc hd ne in
        record {
          policy = h.policy;
          enforcer = enforcer_after h.enforcer (merge_policy settled now);
          has_policy = get-settle_ne d ne ∙ h.has_policy;
          has_enforcer = settle-enforcer h.enforcer h.has_enforcer;
          holds = λ r. same ∙ h.holds (back r);
        }

    pub settle-Enforces :
        (d : ClientId)
        → IsClientId c
        → IsClientId d
        → Enforces now s d
        → Enforces now (settle s c win auto now) d
    settle-Enforces d hc hd h = elim (Bool-cases (c == d)) [
      | inl e ↦ rw (← (client_beq_iff c d).0 e) (settle-Enforces_self h.enforcer h.has_enforcer)
      | inr e ↦ settle-Enforces_ne d hc hd (λ p. ground (arith, client_beq_iff c d)) h
    ]
