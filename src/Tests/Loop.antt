-- ===== src/Tests/Loop.antt =====
-- Examples: the decision loop while the sniffer handles frames.
use microwaf.Prelude.{◌≡◌, refl, some, none, [], ◌∷◌, arith, List}
use microwaf.Time.{Instant, from_secs}
use microwaf.Client.{client_eq}
use microwaf.Counters.{no_counters}
use microwaf.Enforcer.{bpf_enforcer}
use microwaf.Enforcer.Laws.{}
use microwaf.Store.{MemoryStats, memory_stats}
use microwaf.State.{DaemonState}
use microwaf.Decision.{DecisionLoop, LoopRound, run, counted_clients}
use microwaf.Decision.Running.{IsRunning}
use microwaf.Decision.Sniffing.{handle_frame-IsRunning}
use microwaf.Sniffer.{handle_frame}
use microwaf.Decision.Rounds.{Behaves, Ticks, run-Ticks}
use microwaf.Tests.Data.{daemon, no_v6, never, datagram, noon, fresh_sniffer}

-- the sniffer handles a datagram of alice
abbrev flood : DaemonState (Unit {0}) × MemoryStats → DaemonState (Unit {0}) × MemoryStats
flood (s, st) = (
  (handle_frame never no_v6 datagram (from_secs 1) noon (record fresh_sniffer { state = s })).state,
  st,
)

abbrev round_at : Instant → LoopRound (Unit {0}) MemoryStats
round_at start = record {
  before_tick = flood;
  tick_start = start;
  tick_now = start;
  after_tick = flood;
  checked_at = start;
  now_sys = 0;
  snapshot_at = start;
  ended_at = start;
}

abbrev two_rounds : List (LoopRound (Unit {0}) MemoryStats)
two_rounds = round_at (from_secs 1) ∷ round_at (from_secs 2) ∷ []

abbrev started_loop : DecisionLoop (Unit {0}) MemoryStats
started_loop = record { daemon = daemon no_counters; stats = []; last_snapshot = 0 }

flood-IsRunning :
    (w : DaemonState (Unit {0}) × MemoryStats) → IsRunning 30 w.0 → IsRunning 30 (flood w).0
flood-IsRunning (s, st) h =
    handle_frame-IsRunning never no_v6 30 datagram (from_secs 1) noon
      (record fresh_sniffer { state = s }) h

daemon-IsRunning : IsRunning 30 (daemon no_counters)
unfolding counted_clients
daemon-IsRunning = record {
  enforcer = bpf_enforcer [];
  has_enforcer = refl;
  cooldown = omega arith;
  counted = tt;
  in_policies = tt;
}

Behaves-first : Behaves 30 (round_at (from_secs 1))
Behaves-first = record {
  in_range = ground arith;
  before_keeps = flood-IsRunning;
  after_keeps = flood-IsRunning;
}

Behaves-second : Behaves 30 (round_at (from_secs 2))
Behaves-second = record {
  in_range = ground arith;
  before_keeps = flood-IsRunning;
  after_keeps = flood-IsRunning;
}

run-Ticks_example :
    (m : DecisionLoop (Unit {0}) MemoryStats) × (run
        (memory_stats no_v6 (λ t. none))
        two_rounds
        started_loop
      ≡ some m)
    × ((r : LoopRound (Unit {0}) MemoryStats) → Behaves 30 r → Ticks r m)
run-Ticks_example =
    run-Ticks (memory_stats no_v6 (λ t. none)) 30 two_rounds started_loop
      (Behaves-first, (Behaves-second, tt)) daemon-IsRunning
