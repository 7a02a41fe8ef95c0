-- ===== src/Decision/Running.antt =====
-- The daemon stays one that the decision loop runs on: a tick keeps its enforcer, its configuration and
-- the shape of its clients.
use microwaf.Prelude.{
  ℕ, ◌+◌, ◌<◌, ◌≤◌, ◌≡◌, max, Option, some, List, [], ◌∷◌, ◌++◌, arith, All, Bool-cases, inl, inr,
  ◌==◌,
}
use microwaf.HashMap.{HashMap, insert, keys}
use microwaf.Time.{Instant, Duration, from_secs, instant_limit}
use microwaf.Client.{ClientId, client_eq}
use microwaf.Counters.{CounterKey, Counts, key_eq}
use microwaf.Enforcer.{Enforcer}
use microwaf.Enforcer.Laws.{IsClientId}
use microwaf.Policy.{AutoPolicy}
use microwaf.Window.{RuleWindows}
use microwaf.State.{DaemonState}
use microwaf.State
use microwaf.Decision.Defs.{
  settle, tick_clients, client_windows, touched, tick, member, distinct, counted_clients,
}
use microwaf.Decision.Client.{settled, settle-policies, settle-Enforces_self}
use microwaf.Decision.Tick.{tick_client_lem, cooldown_of, tick_made}

module _ {ℓ} (Q : ClientId → Type ℓ) where
  All-append : (xs ys : List ClientId) → All Q xs → All Q ys → All Q (xs ++ ys)
  All-append [] ys h g = g
  All-append (x ∷ xs) ys h g = (h.0, All-append xs ys h.1 g)

  All-distinct : (xs : List ClientId) → All Q xs → All Q (distinct xs)
  unfolding distinct
  All-distinct [] h = h
  All-distinct (x ∷ xs) h = elim (Bool-cases (member x xs)) [
    | inl e ↦ rw e (All-distinct xs h.1)
    | inr e ↦ rw e (h.0, All-distinct xs h.1)
  ]

  All-keys-insert {κ} :
      {V : Type κ} (c : ClientId) (v : V) (m : HashMap ClientId V)
      → Q c
      → All Q (keys m)
      → All Q (keys (insert c v m))
  unfolding insert
  All-keys-insert c v [] q h = (q, tt)
  All-keys-insert c v ((d, w) ∷ m) q h = elim (Bool-cases (d == c)) [
    | inl e ↦ rw e (q, h.1)
    | inr e ↦ rw e (h.0, All-keys-insert c v m q h.1)
  ]

pub counted-insert :
    (k : CounterKey) (n : Counts) (m : HashMap CounterKey Counts)
    → IsClientId k.client
    → All IsClientId (counted_clients m)
    → All IsClientId (counted_clients (insert k n m))
unfolding insert counted_clients
counted-insert k n [] hk h = (hk, tt)
counted-insert k n ((j, w) ∷ m) hk h = elim (Bool-cases (j == k)) [
  | inl e ↦ rw e (hk, h.1)
  | inr e ↦ rw e (h.0, counted-insert k n m hk h.1)
]

module _ {P : Type 0} (most : ℕ) where
  -- A daemon that the loop runs on: it has an enforcer, a cooldown of at most `most` seconds, and
  -- clients with addresses of the right lengths.
  pub record IsRunning (s : DaemonState P) : Type 0 where
    pub enforcer : Enforcer
    pub has_enforcer : s.enforcer ≡ some enforcer
    pub cooldown : (State.daemon_cfg s).cooldown_secs ≤ most
    pub counted : All IsClientId (counted_clients s.counters.by_rule)
    pub in_policies : All IsClientId (keys s.policies)

  pub touched-All : (s : DaemonState P) → IsRunning s → All IsClientId (touched s)
  unfolding touched
  touched-All s h =
      All-distinct IsClientId (counted_clients s.counters.by_rule ++ keys s.policies) (
        All-append IsClientId (counted_clients s.counters.by_rule) (keys s.policies) h.counted
          h.in_policies)

  module _ (s : DaemonState P) (c : ClientId) (win : RuleWindows) (o : Option AutoPolicy)
      (now : Instant) where
    settle-rest :
        ((settle s c win o now).counters ≡ s.counters) × ((settle s c win o now).live ≡ s.live)
    unfolding settle State.apply State.clear
    settle-rest = ground arith

    settle-IsRunning : IsClientId c → IsRunning s → IsRunning (settle s c win o now)
    settle-IsRunning hc h =
        let (same, same_live) = settle-rest in
        record {
          enforcer = (settle-Enforces_self s c win o now h.enforcer h.has_enforcer).enforcer;
          has_enforcer =
              (settle-Enforces_self s c win o now h.enforcer h.has_enforcer).has_enforcer;
          cooldown = rw same_live h.cooldown;
          counted = rw same h.counted;
          in_policies =
              rw (settle-policies s c win o now)
                (All-keys-insert IsClientId c (settled s c win o now) s.policies hc h.in_policies);
        }

  module _ (now : Instant) (cooldown : Duration) (fits : now + cooldown < instant_limit)
      (snapshot : HashMap CounterKey Counts) where
    tick_clients-IsRunning :
        (cs : List ClientId) (s t : DaemonState P)
        → All IsClientId cs
        → IsRunning s
        → tick_clients snapshot cooldown now cs s ≡ some t
        → IsRunning t
    unfolding tick_clients
    tick_clients-IsRunning [] s t hc h ran = let same : s ≡ t = ground arith in rw (← same) h
    tick_clients-IsRunning (c ∷ cs) s t hc h ran =
        let (o, made) = tick_client_lem now cooldown fits snapshot s c in
        let u = settle s c (client_windows s snapshot c now) o now in
        tick_clients-IsRunning cs u t hc.1
          (settle-IsRunning s c (client_windows s snapshot c now) o now hc.0 h)
          (ground (arith, made, ran))

  restamp-IsRunning :
      (u : DaemonState P) (last : HashMap CounterKey Counts)
      → IsRunning u
      → IsRunning (record u { last_counters = last })
  restamp-IsRunning u last h = record {
    enforcer = h.enforcer;
    has_enforcer = h.has_enforcer;
    cooldown = h.cooldown;
    counted = h.counted;
    in_policies = h.in_policies;
  }

  pub cooldown-fits :
      (s : DaemonState P) (now : Instant)
      → IsRunning s
      → now + from_secs (max most 1) < instant_limit
      → now + cooldown_of s < instant_limit
  cooldown-fits s now h fits = let c = h.cooldown in omega (arith, c)

  pub tick-IsRunning :
      (s t : DaemonState P) (now : Instant)
      → IsRunning s
      → now + from_secs (max most 1) < instant_limit
      → tick s now ≡ some t
      → IsRunning t
  tick-IsRunning s t now h fits ran =
      let (u, looped, same) = tick_made s t now ran in
      rw same (
        restamp-IsRunning u s.counters.by_rule (
          tick_clients-IsRunning now (cooldown_of s) (cooldown-fits s now h fits) s.counters.by_rule
            (touched s) s u (touched-All s h) h looped))
