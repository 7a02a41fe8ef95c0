-- ===== src/Store/Stats.antt =====
-- crates/mw-core/src/store.rs and crates/mw-store/src/memory.rs: the statistics of clients;
-- crates/microwaf/src/store.rs: `snapshot_stats`.
use microwaf.Prelude.{ℕ, List, [], ◌∷◌, map, nat_eq, list_eq, Option}
use microwaf.Prelude.Text.{Text}
use microwaf.Prelude.Result.{Result, ok, ◌>>=◌}
use microwaf.HashMap.{HashMap, insert}
use microwaf.Time.{as_secs}
use microwaf.Client.{ClientId, storage_key, client_from_str}
use microwaf.Rule.{RuleId, Metric}
use microwaf.Counters.{CumulativeCounters, snapshot_clients}
use microwaf.State.{DaemonState}

pub record RuleWindowSnapshot : Type 0 where
  pub rule_id : RuleId
  pub metric : Metric
  pub buckets : List ℕ
  pub cursor : ℕ
  pub last_advance_unix_secs : ℕ

pub record StoredClientStats : Type 0 where
  pub cumulative : CumulativeCounters
  pub windows : List RuleWindowSnapshot
  pub updated_unix_secs : ℕ

-- `ClientStatsStore`
pub record ClientStatsStore (S : Type 0) : Type 0 where
  pub load_all : S → Result Text (List (ClientId × StoredClientStats))
  pub put_batch : S → List (ClientId × StoredClientStats) → S × Result Text (Unit {0})

-- the statistics of `MemoryStore`, by storage key
abbrev pub MemoryStats : Type 0
MemoryStats = HashMap Text StoredClientStats

module _ (show_v6 : List ℕ → Text) (parse_v6 : Text → Option (List ℕ)) where
  -- the loop of `load_all`
  unfoldable pub load_stats : MemoryStats → Result Text (List (ClientId × StoredClientStats))
  load_stats [] = ok []
  load_stats ((k, v) ∷ m) = do
    client ← client_from_str parse_v6 k
    rest ← load_stats m
    ok ((client, v) ∷ rest)

  -- the loop of `put_batch`
  unfoldable pub put_stats : List (ClientId × StoredClientStats) → MemoryStats → MemoryStats
  put_stats [] m = m
  put_stats ((c, s) ∷ rest) m = put_stats rest (insert (storage_key show_v6 c) s m)

  -- `ClientStatsStore for MemoryStore`
  abbrev pub memory_stats : ClientStatsStore MemoryStats
  memory_stats = record { load_all = load_stats; put_batch = λ m stats. (put_stats stats m, ok tt) }

-- an entry of the batch: no windows are stored
abbrev pub stats_of : ℕ → ClientId × CumulativeCounters → ClientId × StoredClientStats
stats_of now_unix (c, cumulative) =
    (c, record { cumulative = cumulative; windows = []; updated_unix_secs = now_unix })

-- an empty batch is not written
abbrev pub put_if_any :
    {S : Type 0}
    → ClientStatsStore S
    → S
    → List (ClientId × StoredClientStats)
    → S × Result Text (Unit {0})
put_if_any store st [] = (st, ok tt)
put_if_any store st (x ∷ xs) = store.put_batch st (x ∷ xs)

-- `snapshot_stats`; the wall clock is an argument
unfoldable pub snapshot_stats :
    {P S : Type 0} → DaemonState P → ClientStatsStore S → S → ℕ → S × Result Text (Unit {0})
snapshot_stats s store st now_sys =
    put_if_any store st (map (stats_of (as_secs now_sys)) (snapshot_clients s.counters))
