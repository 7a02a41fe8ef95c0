-- ===== src/Decision/Tick.antt =====
-- The whole tick: it ends, every client that it touches is enforced as its policy says, if the
-- enforcer reaches it, and the others are left alone.
use microwaf.Prelude.{
  ◌+◌, ◌<◌, ◌≡◌, ◌⊎◌, inl, inr, refl, max, true, Option, none, some, List, [], ◌∷◌, ◌++◌, ◌==◌,
  arith, All, Bool-cases, Option-cases, ◌||◌,
}
use microwaf.HashMap.{HashMap, get, keys}
use microwaf.Time.{Instant, Duration, from_secs, instant_limit}
use microwaf.Client.{ClientId, client_eq, client_beq_iff}
use microwaf.Counters.{CounterKey, Counts, key_eq, key_of, key_beq_iff}
use microwaf.Rule.{RuleId}
use microwaf.Engine.{evaluate}
use microwaf.Policy.{AutoPolicy, Violation, strongest_auto, strongest_from, ClientPolicy}
use microwaf.Policy.Strongest.{strongest_auto_lem}
use microwaf.Enforcer.{Enforcer}
use microwaf.Enforcer.Laws.{IsClientId}
use microwaf.State.{DaemonState}
use microwaf.State
use microwaf.Decision.Defs.{
  settle, tick_client, tick_clients, client_windows, touched, tick, member, distinct,
  counted_clients,
}
use microwaf.Decision.Client.{Enforces, settle-Enforces, settle-Enforces_self}

module _ (now : Instant) (cooldown : Duration) (fits : now + cooldown < instant_limit) where
  strongest_total :
      (vs : List Violation) → (o : Option AutoPolicy) × (strongest_auto vs now cooldown ≡ some o)
  unfolding strongest_auto strongest_from
  strongest_total [] = (none, refl)
  strongest_total (v ∷ vs) =
      let (a, ran, from, covers) = (strongest_auto_lem now cooldown fits v vs).1 in (some a, ran)

  module _ {P : Type 0} (snapshot : HashMap CounterKey Counts) where
    pub tick_client_lem :
        (s : DaemonState P) (c : ClientId)
        → (o : Option AutoPolicy) × (tick_client snapshot cooldown now s c
            ≡ some (settle s c (client_windows s snapshot c now) o now))
    unfolding tick_client
    tick_client_lem s c =
        let (o, ran) =
          strongest_total (evaluate (State.rules s) (client_windows s snapshot c now)) in
        (o, rw (ran, tick_client))

    -- The loop over clients ends, keeps what is enforced, and enforces every client of the list that
    -- the enforcer reaches.
    pub record LoopDone (cs : List ClientId) (s t : DaemonState P) : Type 0 where
      pub each : All (Enforces now t) cs
      pub keeps : (d : ClientId) → IsClientId d → Enforces now s d → Enforces now t d

    tick_clients_lem :
        (cs : List ClientId) (s : DaemonState P) (e : Enforcer)
        → All IsClientId cs
        → s.enforcer ≡ some e
        → (t : DaemonState P) × (tick_clients snapshot cooldown now cs s ≡ some t) × LoopDone cs s t
    unfolding tick_clients
    tick_clients_lem [] s e hc he = (s, refl, record { each = tt; keeps = λ d hd h. h })
    tick_clients_lem (c ∷ cs) s e hc he =
        let (o, ran) = tick_client_lem s c in
        let u = settle s c (client_windows s snapshot c now) o now in
        let here = settle-Enforces_self s c (client_windows s snapshot c now) o now e he in
        let (t, rest, ih) = tick_clients_lem cs u here.enforcer hc.1 here.has_enforcer in
        (
          t,
          rw (ran, tick_clients) rest,
          record {
            each = (ih.keeps c hc.0 here, ih.each);
            keeps = λ d hd h.
                ih.keeps d hd
                  (settle-Enforces s c (client_windows s snapshot c now) o now d hc.0 hd h);
          },
        )

module _ {ℓ} (Q : ClientId → Type ℓ) where
  All-member : (c : ClientId) (cs : List ClientId) → All Q cs → member c cs ≡ true → Q c
  All-member c [] h m = cc
  All-member c (d ∷ cs) h m = elim (Bool-cases (d == c)) [
    | inl e ↦ rw (← (client_beq_iff d c).0 e) h.0
    | inr e ↦ All-member c cs h.1 (ground arith)
  ]

pub member-distinct :
    (c : ClientId) (cs : List ClientId) → member c cs ≡ true → member c (distinct cs) ≡ true
unfolding distinct
member-distinct c [] m = m
member-distinct c (d ∷ cs) m = ground (arith, member-distinct c cs, client_beq_iff d c)

member-append :
    (c : ClientId) (xs ys : List ClientId) → member c (xs ++ ys) ≡ (member c xs || member c ys)
member-append c [] ys = refl
member-append c (x ∷ xs) ys = ground (arith, member-append c xs ys)

member-keys {ℓ} :
    {V : Type ℓ} (c : ClientId) (v : V) (m : HashMap ClientId V)
    → get c m ≡ some v
    → member c (keys m) ≡ true
unfolding get
member-keys c v [] h = ground arith
member-keys c v ((d, w) ∷ m) h = ground (arith, member-keys c v m)

member-counted_clients :
    (c : ClientId) (i : RuleId) (n : Counts) (m : HashMap CounterKey Counts)
    → get (key_of c i) m ≡ some n
    → member c (counted_clients m) ≡ true
unfolding get counted_clients
member-counted_clients c i n [] h = ground arith
member-counted_clients c i n ((k, w) ∷ m) h =
    ground
      (arith, member-counted_clients c i n m, key_beq_iff k (key_of c i), client_beq_iff k.client c)

module _ {P : Type 0} where
  -- The daemon has a policy for the client, or a counter of the client for some rule.
  abbrev pub Known : DaemonState P → ClientId → Type 0
  Known s c =
      ((p : ClientPolicy) × (get c s.policies ≡ some p))
      ⊎ ((i : RuleId) × (n : Counts) × (get (key_of c i) s.counters.by_rule ≡ some n))

  pub member-touched : (s : DaemonState P) (c : ClientId) → Known s c → member c (touched s) ≡ true
  unfolding touched
  member-touched s c (inl (p, h)) =
      member-distinct c (counted_clients s.counters.by_rule ++ keys s.policies) (
        ground (
          arith,
          member-keys c p s.policies h,
          member-append c (counted_clients s.counters.by_rule) (keys s.policies),
        ))
  member-touched s c (inr (i, n, h)) =
      member-distinct c (counted_clients s.counters.by_rule ++ keys s.policies) (
        ground (
          arith,
          member-counted_clients c i n s.counters.by_rule h,
          member-append c (counted_clients s.counters.by_rule) (keys s.policies),
        ))

  abbrev pub cooldown_of : DaemonState P → Duration
  cooldown_of s = from_secs (max (State.daemon_cfg s).cooldown_secs 1)

  module _ (now : Instant) (last : HashMap CounterKey Counts) where
    restamp :
        (t : DaemonState P) (c : ClientId)
        → Enforces now t c
        → Enforces now (record t { last_counters = last }) c
    restamp t c h = record {
      policy = h.policy;
      enforcer = h.enforcer;
      has_policy = h.has_policy;
      has_enforcer = h.has_enforcer;
      holds = h.holds;
    }

  -- A tick of a daemon with an enforcer, whose `now + cooldown` is an instant and whose clients
  -- have addresses of the right lengths, ends. Afterwards every client with a policy or a counter
  -- has a policy, and for each such client that the enforcer reaches, it holds exactly what that
  -- policy merges to at `now`: nothing if all passes, else the block or the rate. The eBPF enforcer
  -- reaches the clients with an IPv4 address only, the others reach every client.
  pub tick-Enforces :
      (s : DaemonState P) (e : Enforcer) (now : Instant)
      → s.enforcer ≡ some e
      → now + cooldown_of s < instant_limit
      → All IsClientId (touched s)
      → (t : DaemonState P) × (tick s now ≡ some t)
        × ((c : ClientId) → Known s c → Enforces now t c)
  unfolding tick
  tick-Enforces s e now he fits hc =
      let (t, ran, done) =
        tick_clients_lem now (cooldown_of s) fits s.counters.by_rule (touched s) s e hc he in
      (
        record t { last_counters = s.counters.by_rule },
        rw (ran, tick),
        λ c k.
            restamp now s.counters.by_rule t c
              (All-member (Enforces now t) c (touched s) done.each (member-touched s c k)),
      )

  -- A tick that ends is its loop over the clients, after which the counters are kept.
  pub tick_made :
      (s t : DaemonState P) (now : Instant)
      → tick s now ≡ some t
      → (u : DaemonState P) × (tick_clients s.counters.by_rule (cooldown_of s) now (touched s) s
          ≡ some u)
        × (t ≡ record u { last_counters = s.counters.by_rule })
  unfolding tick
  tick_made s t now ran =
      elim (Option-cases (tick_clients s.counters.by_rule (cooldown_of s) now (touched s) s)) [
        | inl e ↦ absurd (ground (arith, e, ran))
        | inr (u, e) ↦ (u, e, ground (arith, e, ran))
      ]
