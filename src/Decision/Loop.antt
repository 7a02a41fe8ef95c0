-- ===== src/Decision/Loop.antt =====
-- crates/microwaf/src/decision.rs: `run`, the loop around `tick`. The thread runs until the process
-- exits, so that a run is the sequence of its rounds. A round is given by what each clock shows where
-- the code reads it, and by what the other threads do to the daemon and the store before the tick and
-- between the tick and the snapshot.
use microwaf.Prelude.{ℕ, ◌-◌, max, Bool, true, false, Option, none, some, List, [], ◌∷◌, leb}
use microwaf.Time.{Instant, Duration, from_secs, duration_since}
use microwaf.State.{DaemonState}
use microwaf.State
use microwaf.Store.{ClientStatsStore, snapshot_stats}
use microwaf.Decision.Defs.{tick}

-- the daemon, the store, and `last_snapshot`
pub record DecisionLoop (P S : Type 0) : Type 0 where
  pub daemon : DaemonState P
  pub stats : S
  pub last_snapshot : Instant

pub record LoopRound (P S : Type 0) : Type 0 where
  pub before_tick : DaemonState P × S → DaemonState P × S
  pub tick_start : Instant
  pub tick_now : Instant
  pub after_tick : DaemonState P × S → DaemonState P × S
  pub checked_at : Instant
  pub now_sys : ℕ
  pub snapshot_at : Instant
  pub ended_at : Instant

-- how long the thread sleeps at the end of the round
abbrev pub sleep_of : {P S : Type 0} → LoopRound P S → Duration
sleep_of r = from_secs 1 - duration_since r.ended_at r.tick_start

module _ {P : Type 0} where
  -- `last_snapshot.elapsed() >= Duration::from_secs(snapshot_secs)`
  abbrev pub snapshot_due : DaemonState P → Instant → Instant → Bool
  snapshot_due s last now =
      leb (from_secs (max (State.daemon_cfg s).stats_snapshot_secs 1)) (duration_since now last)

module _ {P S : Type 0} (store : ClientStatsStore S) where
  -- the snapshot, whose failure is only logged
  unfoldable pub snapshot_if : Bool → LoopRound P S → Instant → DaemonState P × S → DecisionLoop P S
  snapshot_if false r last (s, st) = record { daemon = s; stats = st; last_snapshot = last }
  snapshot_if true r last (s, st) = record {
    daemon = s;
    stats = (snapshot_stats s store st r.now_sys).0;
    last_snapshot = r.snapshot_at;
  }

  unfoldable pub after_round : LoopRound P S → Instant → DaemonState P × S → DecisionLoop P S
  after_round r last w = snapshot_if (snapshot_due w.0 last r.checked_at) r last w

  -- the body of the loop; a panic of the tick ends the process
  unfoldable pub run_round : LoopRound P S → DecisionLoop P S → Option (DecisionLoop P S)
  run_round r l =
      let w = r.before_tick (l.daemon, l.stats) in
      elim (tick w.0 r.tick_now) [
        | none ↦ none
        | some t ↦ some (after_round r l.last_snapshot (r.after_tick (t, w.1)))
      ]

  -- `run`
  unfoldable pub run : List (LoopRound P S) → DecisionLoop P S → Option (DecisionLoop P S)
  run [] l = some l
  run (r ∷ rounds) l = elim (run_round r l) [ none ↦ none | some next ↦ run rounds next ]
