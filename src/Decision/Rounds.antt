-- ===== src/Decision/Rounds.antt =====
-- The decision loop does not panic while its clocks are in range, and enforces in every round
-- what the policies of the clients that the enforcer reaches say.
use microwaf.Prelude.{◌+◌, ◌<◌, ◌≡◌, refl, max, ℕ, Bool, true, false, some, List, [], ◌∷◌, All}
use microwaf.Time.{Instant, from_secs, instant_limit}
use microwaf.Client.{ClientId}
use microwaf.State.{DaemonState}
use microwaf.Store.{ClientStatsStore}
use microwaf.Decision.Defs.{tick}
use microwaf.Decision.Loop.{
  DecisionLoop, LoopRound, snapshot_if, snapshot_due, after_round, run_round, run,
}
use microwaf.Decision.Client.{Enforces}
use microwaf.Decision.Tick.{tick-Enforces, Known}
use microwaf.Decision.Running.{IsRunning, touched-All, cooldown-fits, tick-IsRunning}

module _ {P S : Type 0} where
  -- The tick of the round ends and leaves every client that it finds, and that the
  -- enforcer reaches, enforced.
  abbrev pub Ticks : LoopRound P S → DecisionLoop P S → Type 0
  Ticks r l =
      let s = (r.before_tick (l.daemon, l.stats)).0 in
      (t : DaemonState P) × (tick s r.tick_now ≡ some t)
      × ((c : ClientId) → Known s c → Enforces r.tick_now t c)

module _ {P S : Type 0} (most : ℕ) where
  -- a round whose clock is in range, and in which the other threads keep the daemon one that runs
  pub record Behaves (r : LoopRound P S) : Type 0 where
    pub in_range : r.tick_now + from_secs (max most 1) < instant_limit
    pub before_keeps :
        (w : DaemonState P × S) → IsRunning most w.0 → IsRunning most (r.before_tick w).0
    pub after_keeps :
        (w : DaemonState P × S) → IsRunning most w.0 → IsRunning most (r.after_tick w).0

  running-Ticks :
      (r : LoopRound P S) (l : DecisionLoop P S) → Behaves r → IsRunning most l.daemon → Ticks r l
  running-Ticks r l b h =
      let s = (r.before_tick (l.daemon, l.stats)).0 in
      let ready = b.before_keeps (l.daemon, l.stats) h in
      tick-Enforces s ready.enforcer r.tick_now ready.has_enforcer
        (cooldown-fits most s r.tick_now ready b.in_range) (touched-All most s ready)

module _ {P S : Type 0} (store : ClientStatsStore S) where
  snapshot_if-daemon :
      (due : Bool) (r : LoopRound P S) (last : Instant) (w : DaemonState P × S)
      → (snapshot_if store due r last w).daemon ≡ w.0
  unfolding snapshot_if
  snapshot_if-daemon true r last w = refl
  snapshot_if-daemon false r last w = refl

module _ {P S : Type 0} (store : ClientStatsStore S) (most : ℕ) where
  run_round-IsRunning :
      (r : LoopRound P S) (l : DecisionLoop P S)
      → Behaves most r
      → IsRunning most l.daemon
      → (m : DecisionLoop P S) × (run_round store r l ≡ some m) × IsRunning most m.daemon
  unfolding run_round after_round
  run_round-IsRunning r l b h =
      let w = r.before_tick (l.daemon, l.stats) in
      let (t, ran, enforced) = running-Ticks most r l b h in
      let after = r.after_tick (t, w.1) in
      let due = snapshot_due after.0 l.last_snapshot r.checked_at in
      (
        snapshot_if store due r l.last_snapshot after,
        rw (ran, run_round) refl,
        rw (snapshot_if-daemon store due r l.last_snapshot after) (
            b.after_keeps (t, w.1)
              (tick-IsRunning most w.0 t r.tick_now (b.before_keeps (l.daemon, l.stats) h)
                b.in_range ran)),
      )

  -- From a daemon with an enforcer, a bounded cooldown and clients with addresses of the right
  -- lengths, the decision loop runs any number of rounds without a panic, if their clocks are in
  -- range and the other threads keep these three conditions. In each further such round the tick
  -- ends, and for every client with a policy or a counter that the enforcer reaches, it then holds
  -- what the policy of the client merges to at the time of the tick. The eBPF enforcer reaches the
  -- clients with an IPv4 address only.
  pub run-Ticks :
      (rounds : List (LoopRound P S)) (l : DecisionLoop P S)
      → All (Behaves most) rounds
      → IsRunning most l.daemon
      → (m : DecisionLoop P S) × (run store rounds l ≡ some m)
        × ((r : LoopRound P S) → Behaves most r → Ticks r m)
  unfolding run
  run-Ticks [] l bs h = (l, refl, λ r b. running-Ticks most r l b h)
  run-Ticks (r ∷ rounds) l bs h =
      let (m, ran, running) = run_round-IsRunning r l bs.0 h in
      let (n, rest, ticks) = run-Ticks rounds m bs.1 running in (n, rw (ran, run) rest, ticks)
