-- ===== src/Decision/Quiet.antt =====
-- A client that has been silent for a minute, and whose policies have expired, is let through by the
-- next tick.
use microwaf.Prelude.{
  ◌+◌, ◌<◌, ◌≡◌, ◌≢◌, refl, ◌∙◌, sym, true, false, Option, none, some, List, [], ◌∷◌, ◌++◌, All,
  arith, inl, inr, ◌==◌, Bool-cases, Option-cases, ap,
}
use microwaf.HashMap.{HashMap, get, insert, find_or, keys, get-insert_self}
use microwaf.Time.{Instant, Duration, instant_limit}
use microwaf.Client.{ClientId, client_eq, client_beq_iff}
use microwaf.Counters.{CounterKey, Counts, key_eq}
use microwaf.Rule.{Rule, secs}
use microwaf.Window.{RuleWindows, advance_all}
use microwaf.Window.Silent.{AllSilent, rule_sum-silent}
use microwaf.Engine.{evaluate, evaluate_rules, violation_of}
use microwaf.Policy.{
  ClientPolicy, AutoPolicy, no_policy, live_manual, live_auto, merge_policy, strongest_auto,
  strongest_from,
}
use microwaf.Enforcer.{Enforcer}
use microwaf.Enforcer.Laws.{enforced, entry_of, Reaches, IsClientId}
use microwaf.State.{DaemonState}
use microwaf.State
use microwaf.Decision.Defs.{
  update_policy, member, client_windows, settle, tick_client, tick_clients, touched, tick,
  counted_clients,
}
use microwaf.Decision.Client.{Enforces, get-settle_ne, settle-policies, settled}
use microwaf.Decision.Tick.{tick_made, tick-Enforces, cooldown_of, member-touched, Known}
use microwaf.Decision.Steady.{
  find_or-insert_ne, Unchanged, apply_deltas_same, dropped, Once, distinct-Once,
}

module _ {P : Type 0} where
  evaluate-silent :
      (rs : List (Rule P)) (m : RuleWindows) (now : Instant)
      → AllSilent now m
      → evaluate_rules rs (advance_all m now) ≡ []
  unfolding evaluate_rules violation_of
  evaluate-silent [] m now h = refl
  evaluate-silent (r ∷ rs) m now h =
      ground
        (arith, rule_sum-silent m r.id r.metric (secs r.window) now h, evaluate-silent rs m now h)

  -- the client is silent, and no policy of it is in force any more
  pub record IsQuiet (now : Instant) (snapshot : HashMap CounterKey Counts) (s : DaemonState P)
      (c : ClientId) : Type 0 where
    pub policy : ClientPolicy
    pub has_policy : get c s.policies ≡ some policy
    pub no_manual : live_manual policy.manual now ≡ none
    pub no_auto : live_auto policy.auto now ≡ none
    pub unchanged : Unchanged c s.last_counters snapshot
    pub silent : AllSilent now (find_or [] c s.windows)

  module _ (now : Instant) (cooldown : Duration) (snapshot : HashMap CounterKey Counts)
      (c : ClientId) where
    -- the client's own turn
    turn-lifts :
        (s u : DaemonState P)
        → IsQuiet now snapshot s c
        → tick_client snapshot cooldown now s c ≡ some u
        → get c u.policies ≡ some no_policy
    unfolding tick_client client_windows strongest_auto strongest_from settled
    turn-lifts s u q ran =
        let win = advance_all (find_or [] c s.windows) now in
        let same : client_windows s snapshot c now ≡ win =
          apply_deltas_same c s.last_counters snapshot win now q.unchanged in
        let quiet : evaluate (State.rules s) win ≡ [] =
          evaluate-silent (State.rules s).rules (find_or [] c s.windows) now q.silent in
        let made : settle s c win none now ≡ u = ground (arith, same, quiet, ran) in
        let old : find_or no_policy c s.policies ≡ q.policy = ground (arith, q.has_policy) in
        rw (← made) (
          ap (get c) (settle-policies s c win none now)
          ∙ get-insert_self c (settled s c win none now) s.policies
          ∙ ap (λ p. some (update_policy p none now)) old
          ∙ ap some (dropped q.policy now q.no_manual q.no_auto))

    -- what another client's turn leaves alone
    settle-others :
        (d : ClientId) (s : DaemonState P) (win : RuleWindows) (o : Option AutoPolicy)
        → ((settle s d win o now).last_counters ≡ s.last_counters)
          × ((settle s d win o now).windows ≡ insert d win s.windows)
    unfolding settle State.apply State.clear
    settle-others d s win o = ground arith

    tick_client_made :
        (d : ClientId) (s u : DaemonState P)
        → tick_client snapshot cooldown now s d ≡ some u
        → (o : Option AutoPolicy) × (settle s d (client_windows s snapshot d now) o now ≡ u)
    unfolding tick_client
    tick_client_made d s u ran =
        elim (Option-cases (
          strongest_auto (evaluate (State.rules s) (client_windows s snapshot d now)) now
            cooldown)) [
              | inl e ↦ absurd (ground (arith, e, ran))
              | inr (o, e) ↦ (o, ground (arith, e, ran))
            ]

    -- the turn of another client
    turn-IsQuiet :
        (d : ClientId) (s u : DaemonState P)
        → d ≢ c
        → IsQuiet now snapshot s c
        → tick_client snapshot cooldown now s d ≡ some u
        → IsQuiet now snapshot u c
    turn-IsQuiet d s u n q ran =
        let (o, made) = tick_client_made d s u ran in
        let win = client_windows s snapshot d now in
        let (counters, windows) = settle-others d s win o in
        rw (← made) (record {
          policy = q.policy;
          has_policy = get-settle_ne s d win o now c n ∙ q.has_policy;
          no_manual = q.no_manual;
          no_auto = q.no_auto;
          unchanged = rw counters q.unchanged;
          silent = rw (windows, find_or-insert_ne d c [] win s.windows n) q.silent;
        })

    rest-keeps :
        (cs : List ClientId) (s t : DaemonState P)
        → member c cs ≡ false
        → get c s.policies ≡ some no_policy
        → tick_clients snapshot cooldown now cs s ≡ some t
        → get c t.policies ≡ some no_policy
    unfolding tick_clients
    rest-keeps [] s t out h ran = ground (arith, h, ran)
    rest-keeps (d ∷ cs) s t out h ran =
        elim (Option-cases (tick_client snapshot cooldown now s d)) [
          | inl e ↦ absurd (ground (arith, e, ran))
          | inr (u, e) ↦
              let (o, made) = tick_client_made d s u e in
              let n : d ≢ c = λ p. absurd (ground (arith, out, client_beq_iff d c, p)) in
              rest-keeps cs u t (ground (arith, out))
                (ap (λ (z : DaemonState P). get c z.policies) (sym made)
                  ∙ get-settle_ne s d (client_windows s snapshot d now) o now c n
                  ∙ h)
                (ground (arith, e, ran))
        ]

    loop-lifts :
        (cs : List ClientId) (s t : DaemonState P)
        → Once cs
        → member c cs ≡ true
        → IsQuiet now snapshot s c
        → tick_clients snapshot cooldown now cs s ≡ some t
        → get c t.policies ≡ some no_policy
    unfolding tick_clients
    loop-lifts [] s t once m q ran = absurd (ground (arith, m))
    loop-lifts (d ∷ cs) s t once m q ran =
        elim (Option-cases (tick_client snapshot cooldown now s d)) [
          | inl e ↦ absurd (ground (arith, e, ran))
          | inr (u, e) ↦
              let after : tick_clients snapshot cooldown now cs u ≡ some t =
                ground (arith, e, ran) in
              elim (Bool-cases (d == c)) [
                | inl same ↦
                    let p : d ≡ c = (client_beq_iff d c).0 same in
                    rest-keeps cs u t (rw (← p) once.0) (turn-lifts s u q (rw (← p) e)) after
                | inr other ↦
                    let n : d ≢ c = λ p. absurd (ground (arith, other, client_beq_iff d c, p)) in
                    loop-lifts cs u t once.1 (ground (arith, m, other)) (turn-IsQuiet d s u n q e)
                      after
              ]
        ]

  nothing_left :
      (now : Instant) (t : DaemonState P) (c : ClientId) (h : Enforces now t c)
      → get c t.policies ≡ some no_policy
      → Reaches h.enforcer c
      → enforced h.enforcer c ≡ none
  unfolding merge_policy
  nothing_left now t c h lifted r =
      let none_left : h.policy ≡ no_policy = ground (arith, lifted, h.has_policy) in
      h.holds r ∙ ap (λ p. entry_of (merge_policy p now)) none_left

  -- In a daemon with an enforcer, take a client that is quiet at `now`: its counters are those of the
  -- last tick, its windows hold nothing of the last minute, and its policies have expired. The next
  -- tick ends and leaves the client without a policy, and the enforcer holds nothing for it.
  pub tick-lifts :
      (s : DaemonState P) (e : Enforcer) (now : Instant) (c : ClientId)
      → s.enforcer ≡ some e
      → now + cooldown_of s < instant_limit
      → All IsClientId (touched s)
      → IsQuiet now s.counters.by_rule s c
      → (t : DaemonState P) × (tick s now ≡ some t)
        × (get c t.policies ≡ some no_policy)
        × ((f : Enforcer) × (t.enforcer ≡ some f) × (Reaches f c → enforced f c ≡ none))
  unfolding touched
  tick-lifts s e now c he fits hc q =
      let (t, ran, holds) = tick-Enforces s e now he fits hc in
      let known : Known s c = inl (q.policy, q.has_policy) in
      let (u, looped, same) = tick_made s t now ran in
      let lifted : get c t.policies ≡ some no_policy =
        ap (λ w. get c w.policies) same
        ∙ loop-lifts now (cooldown_of s) s.counters.by_rule c (touched s) s u
            (distinct-Once (counted_clients s.counters.by_rule ++ keys s.policies))
            (member-touched s c known) q looped in
      let h = holds c known in
      (t, ran, lifted, (h.enforcer, h.has_enforcer, nothing_left now t c h lifted))
